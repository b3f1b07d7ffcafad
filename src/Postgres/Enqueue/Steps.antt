-- ===== src/Postgres/Enqueue/Steps.antt =====
-- What an enqueue makes of the deliveries of the database.
use hookbound.Base.{
  ◌≡◌, sym, ap, subst, ◌∙◌, Bool, true, false, not, Option, none, some, List, [], ◌∷◌, ◌++◌, refl,
  any, arith, if◌then◌else◌, ◌⊎◌, inl, inr, Text, text_eq, codes, is_empty, if-eq,
}
use hookbound.Errors.{
  Result, ok, ok_inj, >>=-eq-ok, reject_if, Result-cases, invalid_configuration, persistence_failed,
}
use hookbound.Retry.{Time}
use hookbound.Postgres.Canonical.{canonical_headers, json_headers}
use hookbound.Message.{SendRequest, validate_request}
use hookbound.Postgres.Tables.{
  pending, MessageRow, DeliveryRow, Db, Env, exec, begin, insert_message, insert_delivery, commit,
}
use hookbound.Postgres.Rows.{run_tx-ok}
use hookbound.Postgres.Delivery.{Store}
use hookbound.Postgres.Enqueue.{
  Publication, Ids, enqueue, enqueue_in_tx, enqueue_tx, insert_publication, lost_race,
  find_idempotent_publication, publication_key_hash, contains_sensitive_headers, put_message,
  new_message, new_delivery, takes_key,
}

-- The hash that a delivery keeps of its publication key, if there is one.
abbrev pub key_hash : (sha256 : Text → Text) → (key : Text) → Option Text
key_hash sha256 [] = none
key_hash sha256 (c ∷ key) = some (sha256 (codes "hookbound:publication:v1:" ++ 0 ∷ c ∷ key))

-- The deliveries after an operation that may add one, and the answer that names it.
abbrev pub AddsDelivery :
    (env : Env)
    → (id : Result Text) → (hash : Option Text) → SendRequest
    → List DeliveryRow
    → Publication
    → Db
    → Type 0
AddsDelivery env id hash request deliveries p db' =
    ((db'.deliveries ≡ deliveries) × ((h : Text) × (hash ≡ some h)))
    ⊎ ((now : Time) × (env.now ≡ ok now)
        × (id ≡ ok p.delivery_id)
        × ((request.id ≡ []) ⊎ (p.message_id ≡ request.id))
        × (any (λ d. text_eq d.id p.delivery_id) deliveries ≡ false)
        × (db'.deliveries
            ≡ record {
              id = p.delivery_id;
              message_id = p.message_id;
              destination_url = request.url;
              headers = json_headers (canonical_headers request.headers);
              idempotency_key_hash = hash;
              state = pending;
              attempt_count = 0;
              next_attempt_at = now;
              lease_expires_at = none;
              last_status_code = none;
              last_error_code = none;
              created_at = now;
              updated_at = now;
              completed_at = none;
            }
              ∷ deliveries))

publication_key_hash-eq :
    (sha256 : Text → Text) (key : Text) (hash : Option Text)
    → publication_key_hash sha256 key ≡ ok hash
    → key_hash sha256 key ≡ hash
unfolding publication_key_hash
publication_key_hash-eq sha256 [] hash h = ok_inj h
publication_key_hash-eq sha256 (c ∷ key) hash h = ground (arith, h)

same_publication :
    {p p' : Publication} {db db' : Db}
    → ◌≡◌ {A = Result (Publication × Db)} (ok (p, db)) (ok (p', db'))
    → (p ≡ p') × (db ≡ db')
same_publication h = (cc, cc)

lost_race_deliveries :
    (env : Env) (hash : Option Text) (request : SendRequest) (content_type : Text)
    (explicit_id inserted : Bool) (db db' : Db) (p : Publication)
    → lost_race env hash request content_type explicit_id inserted db ≡ ok (p, db')
    → (db'.deliveries ≡ db.deliveries) × ((h : Text) × (hash ≡ some h))
unfolding lost_race
lost_race_deliveries env none request content_type explicit_id inserted db db' p h = cc
lost_race_deliveries env (some hash) request content_type explicit_id inserted db db' p h =
    elim (Result-cases (find_idempotent_publication env hash request content_type explicit_id db)) [
      | inr (e, f) ↦ absurd (ground (arith, h, f))
      | inl (none, f) ↦ absurd (ground (arith, h, f))
      | inl (some q, f) ↦ (ground (arith, h, f), (hash, refl))
    ]

fresh_delivery :
    (env : Env) (drawn : Result Text) (request : SendRequest) (hash : Option Text)
    (id delivery_id : Text) (now : Time) (messages : List MessageRow) (db db' : Db)
    (p : Publication)
    → env.now ≡ ok now
    → (request.id ≡ []) ⊎ (id ≡ request.id)
    → drawn ≡ ok delivery_id
    → any (λ d. text_eq d.id delivery_id) db.deliveries ≡ false
    → ◌≡◌ {A = Result (Publication × Db)}
        (ok (
          record { message_id = id; delivery_id = delivery_id },
          record db {
            messages = messages;
            deliveries = new_delivery request delivery_id id hash now ∷ db.deliveries;
          },
        ))
        (ok (p, db'))
    → AddsDelivery env drawn hash request db.deliveries p db'
fresh_delivery env drawn request hash id delivery_id now messages db db' p clock named d r h =
    let (answer, left) = same_publication h in
    inr (
      now,
      clock,
      subst (λ (q : Publication). drawn ≡ ok q.delivery_id) answer d,
      subst (λ (q : Publication). (request.id ≡ []) ⊎ (q.message_id ≡ request.id)) answer named,
      subst (λ (q : Publication). any (λ e. text_eq e.id q.delivery_id) db.deliveries ≡ false)
          answer r,
      subst
          (λ (q : Publication).
            db'.deliveries
            ≡ new_delivery request q.delivery_id q.message_id hash now ∷ db.deliveries)
          answer (ap (λ (x : Db). x.deliveries) (sym left)),
    )

named :
    (drawn : Result Text) (given id : Text)
    → (if is_empty given then drawn else ok given) ≡ ok id
    → (given ≡ []) ⊎ (id ≡ given)
named drawn [] id h = inl refl
named drawn (c ∷ given) id h = inr (sym (ok_inj h))

insert_publication_deliveries :
    (env : Env) (ids : Ids) (others : Db → Db) (hash : Option Text) (request : SendRequest)
    (content_type : Text) (db db' : Db) (p : Publication)
    → insert_publication env ids others hash request content_type db ≡ ok (p, db')
    → AddsDelivery env ids.delivery_id hash request (others db).deliveries p db'
unfolding insert_publication
insert_publication_deliveries env ids others hash request content_type db db' p h =
    let (id, i, h₁) =
      >>=-eq-ok (if is_empty request.id then ids.message_id else ok request.id) _ h in
    let (now, clock, h₂) = >>=-eq-ok env.now _ h₁ in
    let (_, _, h₃) = >>=-eq-ok (exec env insert_message) _ h₂ in
    let (put, _, h₄) =
      >>=-eq-ok (put_message (new_message request id content_type now) (others db).messages) _ h₃ in
    let (delivery_id, d, h₅) = >>=-eq-ok ids.delivery_id _ h₄ in
    let (_, _, h₆) = >>=-eq-ok (exec env insert_delivery) _ h₅ in
    elim (if-eq (any (takes_key hash) (others db).deliveries) h₆) [
      | inl (_, race) ↦ inl (lost_race_deliveries env hash _ content_type _ _ _ db' p race)
      | inr (_, new) ↦
          let (_, r, h₇) =
            >>=-eq-ok
              (reject_if (any (λ e. text_eq e.id delivery_id) (others db).deliveries)
                persistence_failed)
              _ new in
          fresh_delivery env ids.delivery_id request hash id delivery_id now put.0 (others db) db' p
            clock (named ids.message_id request.id id i) d (ground (arith, r)) h₇
    ]

found :
    (env : Env) (ids : Ids) (others : Db → Db) (hash : Option Text) (request : SendRequest)
    (content_type : Text) (db db' : Db) (p : Publication) (o : Option Publication)
    → ◌≡◌ {A = Result (Publication × Db)}
        (elim o as (λ _. Result (Publication × Db)) [
          | some publication ↦ ok (publication, others db)
          | none ↦ insert_publication env ids others hash request content_type db
        ])
        (ok (p, db'))
    → (o ≡ none) ⊎ ((h : Text) × (hash ≡ some h))
    → AddsDelivery env ids.delivery_id hash request (others db).deliveries p db'
found env ids others hash request content_type db db' p none h keyed =
    insert_publication_deliveries env ids others hash request content_type db db' p h
found env ids others hash request content_type db db' p (some q) h (inl e) = absurd cc
found env ids others hash request content_type db db' p (some q) h (inr there) =
    inl (ap (λ (d : Db). d.deliveries) (sym (same_publication h).1), there)

-- Only a key is looked up.
looked_up :
    (hash : Option Text) (look : Text → Result (Option Publication)) (o : Option Publication)
    → (elim hash as (λ _. Result (Option Publication)) [ none ↦ ok none | some k ↦ look k ]) ≡ ok o
    → (o ≡ none) ⊎ ((h : Text) × (hash ≡ some h))
looked_up none look o h = inl (sym (ok_inj h))
looked_up (some k) look o h = inr (k, refl)

enqueue_tx_deliveries :
    (sha256 : Text → Text) (store : Store) (env : Env) (ids : Ids) (others : Db → Db)
    (request : SendRequest) (key : Text) (db db' : Db) (p : Publication)
    → enqueue_tx sha256 store env ids others request key db ≡ ok (p, db')
    → AddsDelivery env ids.delivery_id (key_hash sha256 key) request (others db).deliveries p db'
unfolding enqueue_tx
enqueue_tx_deliveries sha256 store env ids others request key db db' p h =
    let content_type =
      if is_empty request.content_type then codes "application/json" else request.content_type in
    let (_, _, h₁) =
      >>=-eq-ok
        (reject_if (elim request.auth [ none ↦ false | some a ↦ true ]) invalid_configuration) _
        h in
    let (_, _, h₂) = >>=-eq-ok (validate_request request) _ h₁ in
    let (_, _, h₃) =
      >>=-eq-ok
        (reject_if (contains_sensitive_headers request.headers store.sensitive_header_names)
          invalid_configuration)
        _ h₂ in
    let (hash, hashed, h₄) = >>=-eq-ok (publication_key_hash sha256 key) _ h₃ in
    let look = λ (k : Text).
      find_idempotent_publication env k request content_type (not (is_empty request.id)) db in
    let (o, looked, h₆) =
      >>=-eq-ok
        (elim hash as (λ _. Result (Option Publication)) [
          | none ↦ ok none
          | some k ↦
              find_idempotent_publication env k request content_type (not (is_empty request.id)) db
        ])
        _ h₄ in
    subst (λ k. AddsDelivery env ids.delivery_id k request (others db).deliveries p db')
      (sym (publication_key_hash-eq sha256 key hash hashed))
      (found env ids others hash request content_type db db' p o h₆ (looked_up hash look o looked))

-- An enqueue that succeeds leaves the deliveries as the operations that committed during it left them,
-- which only one with a publication key does, or adds to them one delivery of the request: pending, never attempted, without a lease or a result,
-- due at the instant that the clock gave, to the request's URL with its headers, and with the hash of
-- the publication key if that is not empty. The delivery's identifier is the one drawn, is that of no
-- other delivery, and is named by the answer, as is the message's, which is the request's own if it has
-- one.
pub enqueue-AddsDelivery :
    (sha256 : Text → Text) (store : Store) (env : Env) (ids : Ids) (others : Db → Db)
    (request : SendRequest) (key : Text) (db db' : Db) (p : Publication)
    → enqueue sha256 store env ids others request key db ≡ (db', ok p)
    → AddsDelivery env ids.delivery_id (key_hash sha256 key) request (others db).deliveries p db'
unfolding enqueue enqueue_in_tx
enqueue-AddsDelivery sha256 store env ids others request key db db' p h =
    let (_, _, h₁) = >>=-eq-ok (exec env begin) _ (run_tx-ok (others db) _ h) in
    let (published, e, h₂) =
      >>=-eq-ok (enqueue_tx sha256 store env ids others request key db) _ h₁ in
    let (_, _, h₃) = >>=-eq-ok (exec env commit) _ h₂ in
    enqueue_tx_deliveries sha256 store env ids others request key db db' p (e ∙ h₃)
