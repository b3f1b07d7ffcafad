-- ===== src/Postgres/Delivery/Completion.antt =====
-- postgres/store.go: CompleteDelivery.
use hookbound.Base.{
  ℕ, Bool, not, ◌&&◌, ◌||◌, Option, none, some, List, [], ◌∷◌, Text, text_eq, ◌==◌, if◌then◌else◌,
  take, ℤ, pos, pos_part, leb_ℤ, is_empty,
}
use hookbound.Errors.{Code, conflict, Result, ok, Error, error_code, ◌>>=◌, ◌>>◌, reject_if}
use hookbound.Http.{Header, del}
use hookbound.Retry.{Time, RetryPolicy}
use hookbound.Outcome.{Outcome, AttemptResult}
use hookbound.Postgres.Tables.{
  DeliveryState, DeliveryRow, AttemptRow, AttemptError, code, Db, begin, update_attempt,
  update_delivery, commit, Env, exec, run_tx, update, count, is_in_flight, is_terminal,
}
use hookbound.Postgres.Transition.{normalized_outcome, delivery_transition}
use hookbound.Postgres.Delivery.{Store, ClaimedDelivery, open_attempt}

-- redactedHeaders, boundedBytes
unfoldable pub redacted_headers : Header → List Text → Header
redacted_headers headers [] = headers
redacted_headers headers (name ∷ names) = redacted_headers (del name headers) names

unfoldable pub bounded_bytes : Text → (maximum : ℤ) → Option Text
bounded_bytes value maximum =
    if leb_ℤ maximum (pos 0) || is_empty value then none else some (take (pos_part maximum) value)

abbrev pub null_if_zero : ℕ → Option ℕ
null_if_zero n = if n == 0 then none else some n

-- `result.ErrorCode`, or the code of the error.
abbrev pub stored_error : Option Code → (send_err : Option Error) → Option Code
stored_error (some c) send_err = some c
stored_error none none = none
stored_error none (some e) = some (error_code e)

abbrev pub attempt_error : Option Code → Option AttemptError
attempt_error none = none
attempt_error (some c) = some (code c)

abbrev pub or_else : Option Time → Time → Time
or_else none t = t
or_else (some u) t = u

-- What the completion writes into its attempt, and into its delivery; the response's headers stand as
-- given, before their encoding as JSON.
abbrev pub finished :
    Store
    → Time
    → AttemptResult
    → (outcome : Outcome) → Option Code
    → (next_attempt : Option Time) → AttemptRow
    → AttemptRow
finished store now result outcome error next_attempt a = record a {
  finished_at = some now;
  outcome = some outcome;
  status_code = null_if_zero result.status_code;
  duration = some result.duration;
  error_code = attempt_error error;
  response_headers = some (redacted_headers result.response_header store.sensitive_header_names);
  response_body = bounded_bytes result.response_body store.max_response_body_bytes;
  next_attempt_at = next_attempt;
}

abbrev pub completed :
    Time
    → (state : DeliveryState) → (next_attempt : Option Time) → (status : ℕ) → Option Code
    → DeliveryRow
    → DeliveryRow
completed now state next_attempt status error d = record d {
  state = state;
  next_attempt_at = or_else next_attempt d.next_attempt_at;
  lease_expires_at = none;
  last_status_code = null_if_zero status;
  last_error_code = error;
  updated_at = now;
  completed_at = if is_terminal state then some now else none;
}

-- The WHERE clauses of the completion.
unfoldable pub own_attempt : ClaimedDelivery → AttemptRow → Bool
own_attempt c a = text_eq a.id c.attempt_id && open_attempt c.delivery_id c.attempt a

unfoldable pub own_delivery : ClaimedDelivery → DeliveryRow → Bool
own_delivery c d =
    text_eq d.id c.delivery_id && is_in_flight d.state && d.attempt_count == c.attempt

-- The statements of the transaction.
unfoldable pub complete_delivery_in_tx :
    Store
    → Env
    → (random : Option Text) → ClaimedDelivery
    → AttemptResult
    → (send_err : Option Error) → RetryPolicy
    → Db
    → Result (Unit {0} × Db)
unfolding own_attempt own_delivery
complete_delivery_in_tx store env random c result send_err policy db = do
  let outcome = normalized_outcome result.outcome send_err
  let error = stored_error result.error_code send_err
  exec env begin
  now ← env.now
  let next = delivery_transition policy random now c.attempt outcome result.retry_at send_err
  exec env update_attempt
  reject_if (not (count (own_attempt c) db.attempts == 1)) conflict
  exec env update_delivery
  reject_if (not (count (own_delivery c) db.deliveries == 1)) conflict
  exec env commit
  ok (
    tt,
    record db {
      deliveries =
          update (own_delivery c) (completed now next.0 next.1 result.status_code error)
            db.deliveries;
      attempts =
          update (own_attempt c) (finished store now result outcome error next.1) db.attempts;
    },
  )

-- Store.CompleteDelivery of a non-nil claim.
unfoldable pub complete_delivery :
    Store
    → Env
    → (random : Option Text) → ClaimedDelivery
    → AttemptResult
    → (send_err : Option Error) → RetryPolicy
    → Db
    → Db × Result (Unit {0})
unfolding complete_delivery_in_tx
complete_delivery store env random c result send_err policy db =
    run_tx db (complete_delivery_in_tx store env random c result send_err policy db)
