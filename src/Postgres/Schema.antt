-- ===== src/Postgres/Schema.antt =====
-- postgres/schema.go, and NewStoreWithConfig of postgres/store.go: the schema that a store works in
-- and the quoted names of its relations. strings.ToLower is a parameter.
pub mod Quoting
use hookbound.Base.{
  ℕ, Bool, true, false, not, ◌&&◌, ◌||◌, List, [], ◌∷◌, ◌++◌, Text, codes, text_eq, is_empty,
  length, ltb, leb, ◌==◌, if◌then◌else◌, ℤ, pos, ltb_ℤ, Rune, runes, valid_utf8, trim_space,
  has_prefix,
}
use hookbound.Errors.{Result, ok, err, ◌>>=◌, ◌>>◌, reject_if, invalid_configuration}
use hookbound.Postgres.Delivery.{Store}

-- The loop of normalizeSchema; `first` marks the rune at index 0.
check_runes : (first : Bool) → List Rune → Result (Unit {0})
check_runes first [] = ok tt
check_runes first ((r, n) ∷ rs) = do
  reject_if (r == 0 || (ltb r 32 || r == 127)) invalid_configuration
  reject_if (first && (leb b'0' r && leb r b'9')) invalid_configuration
  check_runes false rs

abbrev schema_or_default : Text → Text
schema_or_default schema = if is_empty schema then codes "public" else schema

-- normalizeSchema
unfoldable pub normalize_schema : (to_lower : Text → Text) → Text → Result Text
unfolding check_runes
normalize_schema to_lower given = do
  let schema = schema_or_default given
  reject_if (not (valid_utf8 schema) || ltb 63 (length schema)) invalid_configuration
  check_runes true (runes 0 schema)
  reject_if (not (text_eq (trim_space schema) schema) || is_empty schema) invalid_configuration
  let lowered = to_lower schema
  reject_if (has_prefix (codes "pg_") lowered || text_eq lowered (codes "information_schema"))
      invalid_configuration
  ok schema

-- strings.ReplaceAll(s, `"`, `""`)
unfoldable pub doubled : Text → Text
doubled [] = []
doubled (c ∷ cs) = let rest = doubled cs in if c == b'"' then b'"' ∷ b'"' ∷ rest else c ∷ rest

-- quoteIdentifier
unfoldable pub quote_identifier : Text → Text
unfolding doubled
quote_identifier identifier = b'"' ∷ doubled identifier ++ b'"' ∷ []

-- qualifiedRelation
unfoldable pub qualified_relation : (schema table : Text) → Text
unfolding quote_identifier
qualified_relation schema table = quote_identifier schema ++ b'.' ∷ quote_identifier table

-- relationNames
pub record RelationNames : Type 0 where
  pub messages : Text
  pub deliveries : Text
  pub attempts : Text
  pub receipts : Text
  pub migrations : Text

-- relationsForSchema
unfoldable pub relations_for_schema : (schema : Text) → RelationNames
unfolding qualified_relation
relations_for_schema schema = record {
  messages = qualified_relation schema (codes "hookbound_messages");
  deliveries = qualified_relation schema (codes "hookbound_deliveries");
  attempts = qualified_relation schema (codes "hookbound_attempts");
  receipts = qualified_relation schema (codes "hookbound_receipts");
  migrations = qualified_relation schema (codes "hookbound_schema_migrations");
}

-- schemaSearchPath
unfoldable pub schema_search_path : (schema : Text) → Text
unfolding quote_identifier
schema_search_path schema = quote_identifier schema ++ codes ", pg_catalog"

-- defaultSensitiveHeaders
abbrev default_sensitive_headers : List Text
default_sensitive_headers =
    codes "Authorization"
    ∷ codes "Proxy-Authorization"
    ∷ codes "Cookie"
    ∷ codes "Set-Cookie"
    ∷ codes "X-Api-Key"
    ∷ codes "Api-Key"
    ∷ codes "X-Auth-Token"
    ∷ codes "Webhook-Signature"
    ∷ codes "Stripe-Signature"
    ∷ codes "X-Hub-Signature-256"
    ∷ []

-- StoreConfig, as far as the store's queries depend on it.
pub record StoreConfig : Type 0 where
  pub schema : Text
  pub has_clock : Bool
  pub max_response_body_bytes : ℤ
  pub sensitive_headers : List Text

-- NewStoreWithConfig; `has_db` tells whether the database handle is there.
unfoldable pub new_store_with_config :
    (to_lower : Text → Text) → (has_db : Bool) → StoreConfig → Result (Store × RelationNames)
unfolding normalize_schema relations_for_schema
new_store_with_config to_lower has_db config = do
  reject_if (not has_db) invalid_configuration
  reject_if (ltb_ℤ config.max_response_body_bytes (pos 0)) invalid_configuration
  schema ← normalize_schema to_lower config.schema
  ok (
    record {
      db_clock = not config.has_clock;
      max_response_body_bytes = config.max_response_body_bytes;
      sensitive_header_names = default_sensitive_headers ++ config.sensitive_headers;
    },
    relations_for_schema schema,
  )
