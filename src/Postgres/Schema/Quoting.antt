-- ===== src/Postgres/Schema/Quoting.antt =====
-- A quoted name is read back as it is, whatever it holds.
use hookbound.Base.{
  ℕ, ◌≡◌, refl, ap, ◌∙◌, Bool, true, false, Option, none, some, [], ◌∷◌, ◌++◌, Text, ◌==◌,
  if◌then◌else◌, arith, Bool-cases, inl, inr,
}
use mathlib.Core.List.{append_assoc}
use hookbound.Postgres.Schema.{doubled, quote_identifier, qualified_relation}

abbrev pub put : ℕ → Option (Text × Text) → Option (Text × Text)
put c none = none
put c (some (s, rest)) = some (c ∷ s, rest)

-- How PostgreSQL reads what stands behind an opening quote: up to a quote that no second one follows;
-- `pending` says that a quote was read just now. The answer is the name and the text behind it.
abbrev pub read_quoted : (pending : Bool) → Text → Option (Text × Text)
read_quoted true [] = some ([], [])
read_quoted false [] = none
read_quoted true (c ∷ cs) =
    let rest = read_quoted false cs in if c == b'"' then put c rest else some ([], c ∷ cs)
read_quoted false (c ∷ cs) =
    let rest = read_quoted (c == b'"') cs in if c == b'"' then rest else put c rest

read_quoted-doubled :
    (s rest : Text)
    → read_quoted true rest ≡ some ([], rest)
    → read_quoted false (doubled s ++ b'"' ∷ rest) ≡ some (s, rest)
unfolding doubled
read_quoted-doubled [] rest h = h
read_quoted-doubled (c ∷ s) rest h = elim (Bool-cases (c == b'"')) [
  | inl quote ↦
      rw (quote, read_quoted-doubled s rest h)
        (ap (λ d. some (d ∷ s, rest)) (ground (arith, quote)))
  | inr plain ↦ rw (plain, plain, read_quoted-doubled s rest h)
]

-- The quote that opens an identifier.
abbrev pub opened : Text → Option Text
opened [] = none
opened (c ∷ rest) = if c == b'"' then some rest else none

abbrev pub read_identifier : Text → Option (Text × Text)
read_identifier text = elim (opened text) [ none ↦ none | some rest ↦ read_quoted false rest ]

abbrev pub after_dot : Text → Option Text
after_dot [] = none
after_dot (c ∷ rest) = if c == b'.' then some rest else none

-- Two identifiers with a dot between them, and nothing behind them.
abbrev pub whole : (schema : Text) → Option (Text × Text) → Option (Text × Text)
whole schema none = none
whole schema (some (table, [])) = some (schema, table)
whole schema (some (table, c ∷ rest)) = none

abbrev pub behind_dot : (schema : Text) → Option Text → Option (Text × Text)
behind_dot schema none = none
behind_dot schema (some more) = whole schema (read_identifier more)

abbrev pub behind_schema : Option (Text × Text) → Option (Text × Text)
behind_schema none = none
behind_schema (some (schema, rest)) = behind_dot schema (after_dot rest)

abbrev pub read_relation : Text → Option (Text × Text)
read_relation text = behind_schema (read_identifier text)

read_relation-parts :
    (text more schema table : Text)
    → read_quoted false text ≡ some (schema, b'.' ∷ b'"' ∷ more)
    → read_quoted false more ≡ some (table, [])
    → read_relation (b'"' ∷ text) ≡ some (schema, table)
read_relation-parts text more schema table first second =
    ap behind_schema first ∙ ap (whole schema) second

-- Whatever bytes a schema and a table name hold, quotes included, the qualified relation that goes into
-- the SQL text is read as exactly this schema and this table, with nothing left over.
pub qualified_relation-roundtrip :
    (schema table : Text) → read_relation (qualified_relation schema table) ≡ some (schema, table)
unfolding qualified_relation quote_identifier
qualified_relation-roundtrip schema table =
    let table_text = doubled table ++ b'"' ∷ [] in
    ap (λ text. read_relation (b'"' ∷ text))
      (append_assoc (doubled schema) (b'"' ∷ []) (b'.' ∷ b'"' ∷ table_text))
    ∙ read_relation-parts (doubled schema ++ b'"' ∷ b'.' ∷ b'"' ∷ table_text) table_text schema
        table (read_quoted-doubled schema (b'.' ∷ b'"' ∷ table_text) refl)
        (read_quoted-doubled table [] refl)
