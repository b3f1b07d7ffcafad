-- ===== src/Postgres/Delivery.antt =====
-- postgres/store.go: ClaimDelivery and RenewDeliveryLease.
pub mod Completion
pub mod Steps
pub mod Claims
use hookbound.Base.{
  ℕ, zero, suc, ◌+◌, ◌*◌, ◌/◌, ◌%◌, ◌≡◌, Bool, true, false, not, ◌&&◌, ◌||◌, Option, none, some,
  List, [], ◌∷◌, ◌++◌, Text, codes, text_eq, ltb, leb, ◌==◌, if◌then◌else◌, length, take, any, map,
  ℤ, pos, negsuc, pos_part, ◌+ℤ◌, ltb_ℤ, leb_ℤ, is_empty,
}
use hookbound.Errors.{
  Code, invalid_configuration, conflict, Result, ok, err, Error, coded, error_code, ◌>>=◌, ◌>>◌,
  reject_if, persistence_failed,
}
use hookbound.Http.{Header, del}
use hookbound.Retry.{Time, Duration, seconds, RetryPolicy}
use hookbound.Outcome.{Outcome, AttemptResult}
use hookbound.Outcome
use hookbound.Postgres.Tables.{
  DeliveryState, pending, in_flight, MessageRow, DeliveryRow, AttemptRow, AttemptError,
  lease_expired, code, Db, Stage, begin, select_rows, update_attempt, update_delivery,
  insert_attempt, commit, decode_json, Env, exec, run_tx, update, count, select, first_by,
  lease_over, lease_runs, unfinished, is_in_flight, is_terminal,
}
use hookbound.Postgres.Transition.{normalized_outcome, delivery_transition}

-- The parts of a Store that its queries read.
pub record Store : Type 0 where
  pub db_clock : Bool
  pub max_response_body_bytes : ℤ
  pub sensitive_header_names : List Text

-- ClaimedDelivery
pub record ClaimedDelivery : Type 0 where
  pub delivery_id : Text
  pub attempt_id : Text
  pub attempt : ℕ
  pub message_id : Text
  pub destination : Text
  pub event_type : Text
  pub body : Text
  pub content_type : Text
  pub headers : Header
  pub started_at : Time

abbrev pub is_waiting : DeliveryState → Bool
is_waiting pending = true
is_waiting DeliveryState.retry = true
is_waiting _ = false

-- JOIN hookbound_messages m ON m.id = d.message_id.
unfoldable pub message_of : Db → DeliveryRow → Option MessageRow
message_of db d = select (λ m. text_eq m.id d.message_id) db.messages

-- The WHERE clause of the claim.
unfoldable pub is_due : Time → DeliveryRow → Bool
is_due now d =
    is_waiting d.state && leb_ℤ d.next_attempt_at now
    || is_in_flight d.state && lease_over d.lease_expires_at now

-- ORDER BY d.next_attempt_at, d.created_at: whether `a` comes strictly before `b`.
unfoldable pub due_before : DeliveryRow → DeliveryRow → Bool
due_before a b =
    ltb_ℤ a.next_attempt_at b.next_attempt_at
    || leb_ℤ a.next_attempt_at b.next_attempt_at && ltb_ℤ a.created_at b.created_at

-- The rows that the claim's query may return.
unfoldable pub is_candidate : Env → Time → Db → DeliveryRow → Bool
unfolding is_due message_of
is_candidate env now db d =
    is_due now d
    && not (env.locked d.id)
    && (elim (message_of db d) [ none ↦ false | some m ↦ true ])

-- UPDATE … SET finished_at = $1, outcome = 'retry', error_code = 'lease_expired'.
abbrev pub abandoned : Time → AttemptRow → AttemptRow
abandoned now a = record a {
  finished_at = some now;
  outcome = some Outcome.retry;
  error_code = some lease_expired;
}

abbrev pub open_attempt : (delivery_id : Text) → (number : ℕ) → AttemptRow → Bool
open_attempt delivery_id number a =
    text_eq a.delivery_id delivery_id && a.attempt_number == number && unfinished a

-- A worker's lease on a delivery has expired before the claim: its attempt is closed.
unfoldable pub expire_abandoned :
    Env → Time → DeliveryRow → List AttemptRow → Result (List AttemptRow)
expire_abandoned env now d attempts =
    if is_in_flight d.state && ltb 0 d.attempt_count
    then exec env update_attempt
      >> ok (update (open_attempt d.id d.attempt_count) (abandoned now) attempts)
    else ok attempts

abbrev pub new_attempt : Text → DeliveryRow → Time → AttemptRow
new_attempt id d now = record {
  id = id;
  delivery_id = d.id;
  attempt_number = suc d.attempt_count;
  started_at = now;
  finished_at = none;
  outcome = none;
  status_code = none;
  duration = none;
  error_code = none;
  response_headers = none;
  response_body = none;
  next_attempt_at = none;
}

-- The primary key of hookbound_attempts and UNIQUE (delivery_id, attempt_number).
abbrev pub clashes : AttemptRow → AttemptRow → Bool
clashes a b =
    text_eq b.id a.id || text_eq b.delivery_id a.delivery_id && b.attempt_number == a.attempt_number

-- INSERT INTO hookbound_attempts.
unfoldable pub add_attempt : Env → AttemptRow → List AttemptRow → Result (List AttemptRow)
add_attempt env a attempts = do
  exec env insert_attempt
  reject_if (any (clashes a) attempts) persistence_failed
  ok (a ∷ attempts)

abbrev pub effective_lease : Duration → Duration
effective_lease lease = if leb_ℤ lease (pos 0) then seconds 60 else lease

abbrev pub claimed_of : DeliveryRow → MessageRow → Text → Time → ClaimedDelivery
claimed_of d m attempt_id now = record {
  delivery_id = d.id;
  attempt_id = attempt_id;
  attempt = suc d.attempt_count;
  message_id = m.id;
  destination = d.destination_url;
  event_type = m.event_type;
  body = m.body;
  content_type = m.content_type;
  headers = d.headers;
  started_at = now;
}

-- The claim of one row; `new_id` is `randomOpaqueID("att_")`.
unfoldable pub take_delivery :
    Env
    → (new_id : Result Text) → Duration
    → Time
    → Db
    → DeliveryRow
    → MessageRow
    → Result (Option ClaimedDelivery × Db)
unfolding expire_abandoned add_attempt
take_delivery env new_id lease now db d m = do
  exec env decode_json
  closed ← expire_abandoned env now d db.attempts
  attempt_id ← new_id
  exec env update_delivery
  attempts ← add_attempt env (new_attempt attempt_id d now) closed
  exec env commit
  ok (
    some (claimed_of d m attempt_id now),
    record db {
      deliveries =
          update (λ r. text_eq r.id d.id)
            (λ r. record r {
              state = in_flight;
              attempt_count = suc d.attempt_count;
              lease_expires_at = some (now +ℤ effective_lease lease);
              updated_at = now;
            })
            db.deliveries;
      attempts = attempts;
    },
  )

-- The query of the claim: the earliest candidate, with its message.
unfoldable pub next_due : Env → Time → Db → Option (DeliveryRow × MessageRow)
unfolding is_candidate
next_due env now db = elim (first_by due_before (is_candidate env now db) db.deliveries) [
  | none ↦ none
  | some d ↦ elim (message_of db d) [ none ↦ none | some m ↦ some (d, m) ]
]

-- The statements of the transaction.
unfoldable pub claim_delivery_in_tx :
    Env → (new_id : Result Text) → Duration → Db → Result (Option ClaimedDelivery × Db)
unfolding take_delivery next_due
claim_delivery_in_tx env new_id lease db = do
  exec env begin
  now ← env.now
  exec env select_rows
  elim (next_due env now db) [
    | none ↦ ok (none, db)
    | some (d, m) ↦ take_delivery env new_id lease now db d m
  ]

-- Store.ClaimDelivery; `none` is `nil, nil`, nothing due.
unfoldable pub claim_delivery :
    Env → (new_id : Result Text) → Duration → Db → Db × Result (Option ClaimedDelivery)
unfolding claim_delivery_in_tx
claim_delivery env new_id lease db = run_tx db (claim_delivery_in_tx env new_id lease db)

-- durationMicrosecondsCeil of a positive duration.
unfoldable pub duration_microseconds_ceil : Duration → ℕ
duration_microseconds_ceil lease =
    let n = pos_part lease in if n % 1000 == 0 then n / 1000 else n / 1000 + 1

-- The end of a renewed lease: PostgreSQL adds whole microseconds, the store's own clock adds the
-- duration.
unfoldable pub renewed_until : Store → Time → Duration → Time
unfolding duration_microseconds_ceil
renewed_until store now lease =
    if store.db_clock then now +ℤ pos (duration_microseconds_ceil lease * 1000) else now +ℤ lease

-- The WHERE clause of the renewal: the claim still owns the current attempt, and its lease runs.
unfoldable pub is_owned : ClaimedDelivery → List AttemptRow → Time → DeliveryRow → Bool
is_owned c attempts now d =
    text_eq d.id c.delivery_id
    && is_in_flight d.state
    && d.attempt_count == c.attempt
    && lease_runs d.lease_expires_at now
    && any (λ a. text_eq a.id c.attempt_id && open_attempt d.id d.attempt_count a) attempts

-- The statements of the transaction.
unfoldable pub renew_delivery_lease_in_tx :
    Store → Env → ClaimedDelivery → Duration → Db → Result (Unit {0} × Db)
unfolding renewed_until is_owned
renew_delivery_lease_in_tx store env c lease db = do
  reject_if (leb_ℤ lease (pos 0)) invalid_configuration
  now ← env.now
  exec env update_delivery
  let owned = is_owned c db.attempts now
  reject_if (not (count owned db.deliveries == 1)) conflict
  ok (
    tt,
    record db {
      deliveries =
          update owned
            (λ d. record d {
              lease_expires_at = some (renewed_until store now lease);
              updated_at = now;
            })
            db.deliveries;
    },
  )

-- Store.RenewDeliveryLease of a non-nil claim.
unfoldable pub renew_delivery_lease :
    Store → Env → ClaimedDelivery → Duration → Db → Db × Result (Unit {0})
unfolding renew_delivery_lease_in_tx
renew_delivery_lease store env c lease db =
    run_tx db (renew_delivery_lease_in_tx store env c lease db)
