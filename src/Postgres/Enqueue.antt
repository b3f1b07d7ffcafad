-- ===== src/Postgres/Enqueue.antt =====
-- postgres/store.go: EnqueueTxWithOptions and EnqueueWithOptions.
pub mod Steps
use hookbound.Base.{
  ℕ, zero, suc, ◌+◌, ◌-◌, ◌≡◌, Bool, true, false, not, ◌&&◌, ◌||◌, Option, none, some, List, [],
  ◌∷◌, ◌++◌, Text, codes, text_eq, ltb, leb, ◌==◌, if◌then◌else◌, length, any, all, map, is_empty,
  trim_space, valid_utf8, runes, Rune, decode_rune, pos,
}
use hookbound.Base.Table.{lookup}
use hookbound.Errors.{
  Code, invalid_configuration, conflict, Result, ok, err, Error, coded, ◌>>=◌, ◌>>◌, reject_if,
  persistence_failed,
}
use hookbound.Http.{Header, values, canonical_key}
use hookbound.Retry.{Time}
use hookbound.Message.{SendRequest, validate_request}
use hookbound.Postgres.Tables.{
  DeliveryState, pending, MessageRow, DeliveryRow, Db, Stage, begin, select_rows, insert_message,
  insert_delivery, delete_rows, commit, decode_json, Env, exec, run_tx, select, delete_where,
}
use hookbound.Postgres.Delivery.{Store}
use hookbound.Postgres.Canonical.{canonical_headers, same_headers, json_headers}

-- Publication
pub record Publication : Type 0 where
  pub message_id : Text
  pub delivery_id : Text

-- containsSensitiveHeaders
unfoldable pub contains_sensitive_headers : Header → List Text → Bool
contains_sensitive_headers headers names =
    any (λ name. elim (values name headers) [ [] ↦ false | v ∷ vs ↦ true ]) names

-- publicationKeyHash; `sha256` is crypto/sha256, and no key gives no hash.
unfoldable pub publication_key_hash : (sha256 : Text → Text) → Text → Result (Option Text)
publication_key_hash sha256 key =
    if is_empty key
    then ok none
    else reject_if
        (not (valid_utf8 key) || (ltb 512 (length key) || not (text_eq (trim_space key) key)))
        invalid_configuration
      >> (reject_if (any (λ (r : Rune). ltb r.0 32 || r.0 == 127) (runes 0 key))
            invalid_configuration
          >> ok (some (sha256 (codes "hookbound:publication:v1:" ++ 0 ∷ key))))

abbrev pub has_key : Text → DeliveryRow → Bool
has_key hash d = elim d.idempotency_key_hash [ none ↦ false | some h ↦ text_eq h hash ]

-- Whether a stored publication is the one that is asked for again.
unfoldable pub matches :
    SendRequest → (content_type : Text) → (explicit_id : Bool) → DeliveryRow → MessageRow → Bool
matches request content_type explicit_id d m =
    text_eq m.event_type request.event_type
    && (text_eq m.body request.body
        && (text_eq m.content_type content_type
            && (text_eq d.destination_url request.url
                && (same_headers (canonical_headers d.headers) (canonical_headers request.headers)
                    && (not explicit_id || text_eq m.id request.id)))))

-- Store.findIdempotentPublication
unfoldable pub find_idempotent_publication :
    Env
    → (hash : Text) → SendRequest
    → (content_type : Text) → (explicit_id : Bool) → Db
    → Result (Option Publication)
find_idempotent_publication env hash request content_type explicit_id db = do
  exec env select_rows
  elim (select (has_key hash) db.deliveries) [
    | none ↦ ok none
    | some d ↦ elim (select (λ m. text_eq m.id d.message_id) db.messages) [
      | none ↦ ok none
      | some m ↦
          exec env decode_json
          >> (if matches request content_type explicit_id d m
              then ok (some (record { message_id = m.id; delivery_id = d.id }))
              else err (coded conflict))
    ]
  ]

-- The identifiers that an operation draws, or why it cannot.
pub record Ids : Type 0 where
  pub message_id : Result Text
  pub delivery_id : Result Text

-- INSERT INTO hookbound_messages … ON CONFLICT (id) DO NOTHING, and the comparison with a message
-- that is there already: the messages afterwards, and whether one was inserted.
unfoldable pub put_message : MessageRow → List MessageRow → Result (List MessageRow × Bool)
put_message m messages = elim (select (λ r. text_eq r.id m.id) messages) [
  | none ↦ ok (m ∷ messages, true)
  | some old ↦
      if text_eq old.event_type m.event_type
        && (text_eq old.content_type m.content_type && text_eq old.body m.body)
      then ok (messages, false)
      else err (coded conflict)
]

abbrev pub new_message : SendRequest → (id content_type : Text) → Time → MessageRow
new_message request id content_type now = record {
  id = id;
  event_type = request.event_type;
  body = request.body;
  content_type = content_type;
  created_at = now;
}

abbrev pub new_delivery :
    SendRequest → (id message_id : Text) → (hash : Option Text) → Time → DeliveryRow
new_delivery request id message_id hash now = record {
  id = id;
  message_id = message_id;
  destination_url = request.url;
  headers = json_headers (canonical_headers request.headers);
  idempotency_key_hash = hash;
  state = pending;
  attempt_count = 0;
  next_attempt_at = now;
  lease_expires_at = none;
  last_status_code = none;
  last_error_code = none;
  created_at = now;
  updated_at = now;
  completed_at = none;
}

-- DELETE FROM hookbound_messages … AND NOT EXISTS (a delivery of it).
abbrev pub drop_unreferenced : Text → Db → Db
drop_unreferenced id db = record db {
  messages =
      delete_where
        (λ m. text_eq m.id id && not (any (λ d. text_eq d.message_id m.id) db.deliveries))
        db.messages;
}

-- The insertion lost a race for its key: the winner's publication is returned, and a message that
-- was inserted for nothing is removed.
unfoldable pub lost_race :
    Env
    → (hash : Option Text) → SendRequest
    → (content_type : Text) → (explicit_id : Bool) → (inserted : Bool) → Db
    → Result (Publication × Db)
unfolding find_idempotent_publication
lost_race env none request content_type explicit_id inserted db = err (coded persistence_failed)
lost_race env (some hash) request content_type explicit_id inserted db = do
  found ← find_idempotent_publication env hash request content_type explicit_id db
  elim found [
    | none ↦ err (coded persistence_failed)
    | some publication ↦
        if inserted
        then exec env delete_rows >> ok (publication, drop_unreferenced request.id db)
        else ok (publication, db)
  ]

abbrev pub takes_key : Option Text → DeliveryRow → Bool
takes_key none d = false
takes_key (some hash) d = has_key hash d

-- The part after the lookup of the key. `others` is what other transactions commit between that
-- lookup and the insertion; they commit whatever becomes of this one.
unfoldable pub insert_publication :
    Env
    → Ids
    → (others : Db → Db) → (hash : Option Text) → SendRequest
    → (content_type : Text) → Db
    → Result (Publication × Db)
unfolding put_message lost_race
insert_publication env ids others hash request content_type db₀ = do
  id ← if is_empty request.id then ids.message_id else ok request.id
  now ← env.now
  let db = others db₀
  exec env insert_message
  put ← put_message (new_message request id content_type now) db.messages
  delivery_id ← ids.delivery_id
  exec env insert_delivery
  let stored = record db { messages = put.0 }
  (if any (takes_key hash) db.deliveries
      then lost_race env hash (record request { id = id }) content_type (not (is_empty request.id))
          put.1 stored
      else reject_if (any (λ d. text_eq d.id delivery_id) db.deliveries) persistence_failed
        >> ok (
          record { message_id = id; delivery_id = delivery_id },
          record stored {
            deliveries = new_delivery request delivery_id id hash now ∷ db.deliveries;
          },
        ))

-- Store.EnqueueTxWithOptions, in a transaction.
unfoldable pub enqueue_tx :
    (sha256 : Text → Text)
    → Store
    → Env
    → Ids
    → (others : Db → Db) → SendRequest
    → (key : Text) → Db
    → Result (Publication × Db)
unfolding insert_publication find_idempotent_publication
enqueue_tx sha256 store env ids others request key db = do
  reject_if (elim request.auth [ none ↦ false | some a ↦ true ]) invalid_configuration
  validate_request request
  reject_if (contains_sensitive_headers request.headers store.sensitive_header_names)
      invalid_configuration
  hash ← publication_key_hash sha256 key
  let content_type =
      if is_empty request.content_type then codes "application/json" else request.content_type
  found ← elim hash [
    | none ↦ ok none
    | some h ↦ find_idempotent_publication env h request content_type (not (is_empty request.id)) db
  ]
  elim found [
    | some publication ↦ ok (publication, others db)
    | none ↦ insert_publication env ids others hash request content_type db
  ]

-- The statements of the transaction.
unfoldable pub enqueue_in_tx :
    (sha256 : Text → Text)
    → Store
    → Env
    → Ids
    → (others : Db → Db) → SendRequest
    → (key : Text) → Db
    → Result (Publication × Db)
unfolding enqueue_tx
enqueue_in_tx sha256 store env ids others request key db = do
  exec env begin
  published ← enqueue_tx sha256 store env ids others request key db
  exec env commit
  ok published

-- Store.EnqueueWithOptions
unfoldable pub enqueue :
    (sha256 : Text → Text)
    → Store
    → Env
    → Ids
    → (others : Db → Db) → SendRequest
    → (key : Text) → Db
    → Db × Result Publication
unfolding enqueue_in_tx
enqueue sha256 store env ids others request key db =
    run_tx (others db) (enqueue_in_tx sha256 store env ids others request key db)
