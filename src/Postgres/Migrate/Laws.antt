-- ===== src/Postgres/Migrate/Laws.antt =====
-- MigrateWithConfig run again over the same files.
use hookbound.Base.{
  ◌≡◌, refl, ap, ◌∙◌, sym, Bool, true, false, Option, none, some, List, [], ◌∷◌, Text, text_eq,
  text_eq_refl, text_eq_iff, All, Bool-cases, inl, inr, subst,
}
use hookbound.Base.Table.{lookup}
use hookbound.Errors.{Result, ok, err, ◌>>=◌, >>=-eq-ok, ok_inj}
use hookbound.Postgres.Migrate.{
  File, Server, Database, Call, inspect, record_applied, apply_statements, split_statements,
  begin_tx, lock, create_schema, set_search_path, create_ledger, commit_tx, unless,
  migration_checksum, apply_new, apply_or_skip, apply_file, apply_files, ledger_of, migrate_tx,
  migration_files, or_rolled_back, migrate_with_config,
}

unless-ok : (good : Bool) → unless good ≡ ok tt → good ≡ true
unless-ok true h = refl
unless-ok false h = cc

absurd-none {ℓ κ} : {A : Type ℓ} {B : Type κ} {x : Option A} {a : A} → x ≡ none → x ≡ some a → B
absurd-none h k = cc

-- The ledger has the file's name with its checksum.
abbrev pub IsRecorded : (sha256 : Text → Text) → List (Text × Text) → Text × File → Type 0
IsRecorded sha256 ledger (name, file) =
    (contents : Text) × (file.contents ≡ ok contents)
    × (lookup name ledger ≡ some (migration_checksum sha256 contents))

-- Whatever the one ledger has, the other has.
abbrev Extends : (later earlier : List (Text × Text)) → Type 0
Extends later earlier =
    (name checksum : Text) → lookup name earlier ≡ some checksum → lookup name later ≡ some checksum

-- What one file of a run establishes: it is recorded, and nothing recorded is lost.
abbrev Grows : (name checksum : Text) → (earlier later : List (Text × Text)) → Type 0
Grows name checksum earlier later = (lookup name later ≡ some checksum) × Extends later earlier

added-Grows :
    (name checksum : Text) (ledger : List (Text × Text))
    → lookup name ledger ≡ none
    → Grows name checksum ledger ((name, checksum) ∷ ledger)
unfolding lookup
added-Grows name checksum ledger absent = (
  rw (text_eq_refl name) refl,
  λ n c found. elim (Bool-cases (text_eq name n)) [
    | inl same ↦
        absurd-none (subst (λ m. lookup m ledger ≡ none) ((text_eq_iff name n).0 same) absent) found
    | inr differs ↦ rw differs found
  ],
)

module _ {ℓ} {S : Type ℓ} (sha256 : Text → Text) where
  apply_or_skip-Grows :
      (server : Server S) (name contents checksum : Text) (ledger : List (Text × Text)) (tables : S)
      (existing : Option Text) (next : List (Text × Text) × S)
      → lookup name ledger ≡ existing
      → apply_or_skip server name contents checksum ledger tables existing ≡ ok next
      → Grows name checksum ledger next.0
  unfolding apply_or_skip apply_new
  apply_or_skip-Grows server name contents checksum ledger tables none next found same =
      let (changed, did, then) =
        >>=-eq-ok (apply_statements server (split_statements contents) tables) _ same in
      let (done, called, last) = >>=-eq-ok (server.call (record_applied name)) _ then in
      subst (Grows name checksum ledger) (ap (λ s. s.0) (ok_inj last))
        (added-Grows name checksum ledger found)
  apply_or_skip-Grows server name contents checksum ledger tables (some existing) next found same =
      let (done, equal, last) = >>=-eq-ok (unless (text_eq existing checksum)) _ same in
      subst (Grows name checksum ledger) (ap (λ s. s.0) (ok_inj last)) (
        found ∙ ap some ((text_eq_iff existing checksum).0 (unless-ok _ equal)),
        λ n c there. there,
      )

  apply_file-Grows :
      (server : Server S) (name : Text) (file : File) (ledger : List (Text × Text)) (tables : S)
      (next : List (Text × Text) × S)
      → apply_file sha256 server name file (ledger, tables) ≡ ok next
      → IsRecorded sha256 next.0 (name, file) × Extends next.0 ledger
  unfolding apply_file
  apply_file-Grows server name file ledger tables next same =
      let (contents, read, then) = >>=-eq-ok file.contents _ same in
      let (done, inspected, last) = >>=-eq-ok (server.call (inspect name)) _ then in
      let grows =
        apply_or_skip-Grows server name contents (migration_checksum sha256 contents) ledger tables
          (lookup name ledger) next refl last in
      ((contents, read, grows.0), grows.1)

  apply_files-AllRecorded :
      (server : Server S) (files : List (Text × File)) (ledger : List (Text × Text)) (tables : S)
      (last : List (Text × Text) × S)
      → apply_files sha256 server files (ledger, tables) ≡ ok last
      → All (IsRecorded sha256 last.0) files × Extends last.0 ledger
  unfolding apply_files
  apply_files-AllRecorded server [] ledger tables last same =
      (tt, subst (λ l. Extends l ledger) (ap (λ s. s.0) (ok_inj same)) (λ n c there. there))
  apply_files-AllRecorded server ((name, file) ∷ files) ledger tables last same =
      let ((between, moved), applied, then) =
        >>=-eq-ok (apply_file sha256 server name file (ledger, tables)) _ same in
      let (recorded, extended) =
        apply_file-Grows server name file ledger tables (between, moved) applied in
      let (rest, kept) = apply_files-AllRecorded server files between moved last then in
      (
        ((recorded.0, recorded.1, kept name _ recorded.2), rest),
        λ n c there. kept n c (extended n c there),
      )

  -- Over files that are recorded, the loop changes nothing.
  apply_files-recorded :
      (server : Server S) (working : (call : Call) → server.call call ≡ ok tt)
      (files : List (Text × File)) (ledger : List (Text × Text)) (tables : S)
      → All (IsRecorded sha256 ledger) files
      → apply_files sha256 server files (ledger, tables) ≡ ok (ledger, tables)
  unfolding apply_files apply_file apply_or_skip
  apply_files-recorded server working [] ledger tables all = refl
  apply_files-recorded server working ((name, file) ∷ files) ledger tables
        ((contents, read, found), all) =
      rw (read, working (inspect name), found, text_eq_refl (migration_checksum sha256 contents))
        (apply_files-recorded server working files ledger tables all)

  -- The ledger of a database has all the files with their checksums.
  abbrev pub AllRecorded : List (Text × File) → Database S → Type 0
  AllRecorded files db = All (IsRecorded sha256 (ledger_of db.ledger)) files

  -- Once migrate_tx has succeeded, the files are recorded.
  migrate_tx-AllRecorded :
      (server : Server S) (files : List (Text × File)) (db migrated : Database S)
      → migrate_tx sha256 server files db ≡ ok migrated
      → AllRecorded files migrated
        × (migrated.has_schema ≡ true)
        × (some (ledger_of migrated.ledger) ≡ migrated.ledger)
  unfolding migrate_tx
  migrate_tx-AllRecorded server files db migrated same =
      let (u₁, began, s₁) = >>=-eq-ok (server.call begin_tx) _ same in
      let (u₂, locked, s₂) = >>=-eq-ok (server.call lock) _ s₁ in
      let (u₃, created, s₃) = >>=-eq-ok (server.call create_schema) _ s₂ in
      let (u₄, set, s₄) = >>=-eq-ok (server.call set_search_path) _ s₃ in
      let (u₅, ledger, s₅) = >>=-eq-ok (server.call create_ledger) _ s₄ in
      let (applied, ran, s₆) =
        >>=-eq-ok (apply_files sha256 server files (ledger_of db.ledger, db.tables)) _ s₅ in
      let (u₇, committed, last) = >>=-eq-ok (server.call commit_tx) _ s₆ in
      subst
        (λ m. AllRecorded files m × (m.has_schema ≡ true) × (some (ledger_of m.ledger) ≡ m.ledger))
        (ok_inj last)
        (
          (apply_files-AllRecorded server files (ledger_of db.ledger) db.tables applied ran).0,
          refl,
          refl,
        )

  migrate_tx-recorded :
      (server : Server S) (working : (call : Call) → server.call call ≡ ok tt)
      (files : List (Text × File)) (db : Database S)
      → AllRecorded files db
      → (db.has_schema ≡ true) × (some (ledger_of db.ledger) ≡ db.ledger)
      → migrate_tx sha256 server files db ≡ ok db
  unfolding migrate_tx
  migrate_tx-recorded server working files db all (there, present) =
      rw
        (
          working begin_tx,
          working lock,
          working create_schema,
          working set_search_path,
          working create_ledger,
          apply_files-recorded server working files (ledger_of db.ledger) db.tables all,
          working commit_tx,
        )
        (ap
            (λ b.
              ok (record {
                has_schema = b;
                ledger = some (ledger_of db.ledger);
                tables = db.tables;
              }))
            (sym there)
          ∙ ap (λ l. ok (record { has_schema = db.has_schema; ledger = l; tables = db.tables }))
              present)

  or_rolled_back-ok :
      (db : Database S) (answer : Result (Database S))
      → (or_rolled_back db answer).1 ≡ ok tt
      → answer ≡ ok (or_rolled_back db answer).0
  or_rolled_back-ok db (ok migrated) h = refl
  or_rolled_back-ok db (err e) h = cc

  -- When MigrateWithConfig succeeds, the ledger has every SQL file of the directory under its name with
  -- the checksum of its contents. When it is then run again over the same directory and schema, on a
  -- server whose own calls succeed, it succeeds and changes nothing: no migration's statement runs, so
  -- what those would do now plays no part.
  pub migrate_with_config-again :
      (to_lower : Text → Text) (server again : Server S) (has_db : Bool) (schema : Text)
      (listing : Result (List (Text × File))) (db : Database S)
      → ((call : Call) → again.call call ≡ ok tt)
      → (migrate_with_config sha256 to_lower server has_db schema listing db).1 ≡ ok tt
      → let migrated = (migrate_with_config sha256 to_lower server has_db schema listing db).0 in
        ((files : List (Text × File)) × (migration_files to_lower has_db schema listing ≡ ok files)
          × AllRecorded files migrated)
        × (migrate_with_config sha256 to_lower again has_db schema listing migrated
            ≡ (migrated, ok tt))
  unfolding migrate_with_config
  migrate_with_config-again to_lower server again has_db schema listing db working succeeded =
      let chosen = migration_files to_lower has_db schema listing in
      let answer = chosen >>= λ files. migrate_tx sha256 server files db in
      let migrated = (or_rolled_back db answer).0 in
      let (files, listed, ran) =
        >>=-eq-ok chosen (λ files. migrate_tx sha256 server files db)
          (or_rolled_back-ok db answer succeeded) in
      let (all, there, present) = migrate_tx-AllRecorded server files db migrated ran in
      (
        (files, listed, all),
        ap (or_rolled_back migrated) (
            ap (λ c. c >>= λ files. migrate_tx sha256 again files migrated) listed
            ∙ migrate_tx-recorded again working files migrated all (there, present)),
      )
