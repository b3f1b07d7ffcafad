-- ===== src/Postgres/Migrate.antt =====
-- postgres/migrate.go: the migration runner. SHA-256, strings.ToLower and what the database does with
-- a statement of a migration are parameters; the runner's advisory lock makes migrators run one after
-- the other.
pub mod Laws
use hookbound.Base.{
  ℕ, zero, suc, ◌-◌, ◌&&◌, ◌||◌, Bool, true, false, not, Option, none, some, List, [], ◌∷◌, Text,
  codes, text_eq, is_empty, length, leb, trim_space, has_prefix, if◌then◌else◌, ◌+◌, ◌*◌, ltb, ◌/◌,
  ◌%◌,
}
use hookbound.Base.Table.{lookup}
use hookbound.Errors.{Error, foreign, Result, ok, err, ◌>>=◌, ◌>>◌}
use hookbound.Postgres.Canonical.{sorted_by_name}
use hookbound.Postgres.Schema.{normalize_schema}

-- strings.Split at a text that is not empty: the first piece, and those behind it; `skip` bytes of the
-- separator are left to pass.
pieces_at : (separator : Text) → (skip : ℕ) → Text → Text × List Text
pieces_at separator skip [] = ([], [])
pieces_at separator (suc skip) (c ∷ cs) = pieces_at separator skip cs
pieces_at separator zero (c ∷ cs) = elim (has_prefix separator (c ∷ cs)) [
  | true ↦ let (first, more) = pieces_at separator (length separator - 1) cs in ([], first ∷ more)
  | false ↦ let (first, more) = pieces_at separator 0 cs in (c ∷ first, more)
]

trimmed_pieces : List Text → List Text
trimmed_pieces [] = []
trimmed_pieces (part ∷ parts) =
    let rest = trimmed_pieces parts in
    let trimmed = trim_space part in if is_empty trimmed then rest else trimmed ∷ rest

-- splitStatements
unfoldable pub split_statements : (contents : Text) → List Text
unfolding pieces_at trimmed_pieces
split_statements contents =
    let (first, more) = pieces_at (codes "-- hookbound:statement") 0 contents in
    trimmed_pieces (first ∷ more)

hex_digit : ℕ → ℕ
hex_digit n = if ltb n 10 then b'0' + n else b'a' + (n - 10)

-- hex.EncodeToString
unfoldable pub encode_hex : Text → Text
unfolding hex_digit
encode_hex [] = []
encode_hex (b ∷ bs) = hex_digit (b / 16) ∷ hex_digit (b % 16) ∷ encode_hex bs

-- migrationChecksum
unfoldable pub migration_checksum : (sha256 : Text → Text) → (contents : Text) → Text
unfolding encode_hex
migration_checksum sha256 contents = encode_hex (sha256 contents)

-- The database: whether the schema is there, the migration ledger, and all else, which only the
-- statements of the migrations change.
pub record Database {ℓ} (S : Type ℓ) : Type ℓ where
  pub has_schema : Bool
  pub ledger : Option (List (Text × Text))
  pub tables : S

-- The calls of the driver that the runner makes itself.
pub data Call : Type 0 where
  begin_tx lock create_schema set_search_path create_ledger commit_tx : Call
  inspect record_applied : (name : Text) → Call

-- An entry of the embedded directory, and what reading it gives.
pub record File : Type 0 where
  pub is_dir : Bool
  pub contents : Result Text

-- The runner's surroundings: the outcome of each of its calls, and of a migration's statement.
pub record Server {ℓ} (S : Type ℓ) : Type ℓ where
  pub call : Call → Result (Unit {0})
  pub execute : (statement : Text) → S → Result S

-- `if err != nil { return fmt.Errorf(…, err) }` keeps the code that errors.As finds.
abbrev pub unless : Bool → Result (Unit {0})
unless true = ok tt
unless false = err foreign

unfoldable pub apply_statements {ℓ} : {S : Type ℓ} → Server S → List Text → S → Result S
apply_statements server [] tables = ok tables
apply_statements server (statement ∷ rest) tables = do
  changed ← server.execute statement tables
  apply_statements server rest changed

-- The body of the loop for a migration that the ledger has not, and for one that it has.
unfoldable pub apply_new {ℓ} :
    {S : Type ℓ}
    → Server S
    → (name contents checksum : Text) → List (Text × Text)
    → S
    → Result (List (Text × Text) × S)
unfolding apply_statements split_statements
apply_new server name contents checksum ledger tables = do
  changed ← apply_statements server (split_statements contents) tables
  server.call (record_applied name)
  ok ((name, checksum) ∷ ledger, changed)

unfoldable pub apply_or_skip {ℓ} :
    {S : Type ℓ}
    → Server S
    → (name contents checksum : Text) → List (Text × Text)
    → S
    → (existing : Option Text) → Result (List (Text × Text) × S)
unfolding apply_new
apply_or_skip server name contents checksum ledger tables none =
    apply_new server name contents checksum ledger tables
apply_or_skip server name contents checksum ledger tables (some existing) =
    unless (text_eq existing checksum) >> ok (ledger, tables)

-- The body of the loop over the names.
unfoldable pub apply_file {ℓ} :
    {S : Type ℓ}
    → (sha256 : Text → Text) → Server S
    → (name : Text) → File
    → List (Text × Text) × S
    → Result (List (Text × Text) × S)
unfolding apply_or_skip
apply_file sha256 server name file (ledger, tables) = do
  contents ← file.contents
  server.call (inspect name)
  apply_or_skip server name contents (migration_checksum sha256 contents) ledger tables
      (lookup name ledger)

unfoldable pub apply_files {ℓ} :
    {S : Type ℓ}
    → (sha256 : Text → Text) → Server S
    → List (Text × File)
    → List (Text × Text) × S
    → Result (List (Text × Text) × S)
unfolding apply_file
apply_files sha256 server [] state = ok state
apply_files sha256 server ((name, file) ∷ files) state = do
  next ← apply_file sha256 server name file state
  apply_files sha256 server files next

has_suffix : (suffix : Text) → Text → Bool
has_suffix suffix [] = is_empty suffix
has_suffix suffix (c ∷ cs) = text_eq (c ∷ cs) suffix || has_suffix suffix cs

sql_entries : List (Text × File) → List (Text × File)
unfolding has_suffix
sql_entries [] = []
sql_entries ((name, file) ∷ entries) =
    let rest = sql_entries entries in
    if not file.is_dir && has_suffix (codes ".sql") name then (name, file) ∷ rest else rest

-- The SQL files of a directory, in the order of their names.
unfoldable pub sql_files : List (Text × File) → List (Text × File)
unfolding sql_entries
sql_files entries = sorted_by_name (sql_entries entries)

-- CREATE TABLE IF NOT EXISTS
abbrev pub ledger_of : Option (List (Text × Text)) → List (Text × Text)
ledger_of none = []
ledger_of (some ledger) = ledger

-- The transaction of MigrateWithConfig; what it returns is committed.
unfoldable pub migrate_tx {ℓ} :
    {S : Type ℓ}
    → (sha256 : Text → Text) → Server S
    → List (Text × File)
    → Database S
    → Result (Database S)
unfolding apply_files
migrate_tx sha256 server files db = do
  server.call begin_tx
  server.call lock
  server.call create_schema
  server.call set_search_path
  server.call create_ledger
  applied ← apply_files sha256 server files (ledger_of db.ledger, db.tables)
  server.call commit_tx
  ok (record { has_schema = true; ledger = some applied.0; tables = applied.1 })

-- MigrateWithConfig before its transaction: the SQL files to apply.
unfoldable pub migration_files :
    (to_lower : Text → Text)
    → (has_db : Bool) → (schema : Text) → (listing : Result (List (Text × File)))
    → Result (List (Text × File))
unfolding normalize_schema sql_files
migration_files to_lower has_db schema listing = do
  unless has_db
  normalized ← normalize_schema to_lower schema
  entries ← listing
  ok (sql_files entries)

-- The deferred Rollback leaves the database as it was.
abbrev pub or_rolled_back {ℓ} :
    {S : Type ℓ} → Database S → Result (Database S) → Database S × Result (Unit {0})
or_rolled_back db (ok migrated) = (migrated, ok tt)
or_rolled_back db (err e) = (db, err e)

-- MigrateWithConfig
unfoldable pub migrate_with_config {ℓ} :
    {S : Type ℓ}
    → (sha256 to_lower : Text → Text) → Server S
    → (has_db : Bool) → (schema : Text) → (listing : Result (List (Text × File))) → Database S
    → Database S × Result (Unit {0})
unfolding migrate_tx migration_files
migrate_with_config sha256 to_lower server has_db schema listing db =
    or_rolled_back db (
      migration_files to_lower has_db schema listing >>= λ files. migrate_tx sha256 server files db)
