-- ===== src/Postgres/Delivery/Steps.antt =====
-- What each operation of postgres/store.go makes of the deliveries of the database.
use hookbound.Base.{
  suc, ◌≡◌, refl, sym, false, not, Option, none, some, List, ◌∷◌, any, arith, ◌==◌, inl, inr,
  Option-cases, Text, text_eq, pos, ◌+ℤ◌, leb_ℤ,
}
use hookbound.Errors.{
  Result, ok, Error, >>=-eq-ok, reject_if, invalid_configuration, conflict, persistence_failed,
}
use hookbound.Retry.{Time, Duration, RetryPolicy}
use hookbound.Outcome.{AttemptResult}
use hookbound.Postgres.Tables.{
  DeliveryState, in_flight, MessageRow, DeliveryRow, AttemptRow, Db, Env, exec, update, count,
  first_by, begin, select_rows, update_attempt, update_delivery, commit, decode_json,
  insert_attempt,
}
use hookbound.Postgres.Rows.{run_tx-ok}
use hookbound.Postgres.Transition.{normalized_outcome, delivery_transition}
use hookbound.Postgres.Delivery.{
  Store, ClaimedDelivery, claim_delivery, take_delivery, next_due, due_before, is_candidate,
  message_of, expire_abandoned, add_attempt, clashes, new_attempt, claimed_of, effective_lease,
  renew_delivery_lease, renewed_until, is_owned,
}
use hookbound.Postgres.Delivery.Completion.{
  complete_delivery, own_attempt, own_delivery, completed, finished, stored_error,
}

granted :
    (env : Env) (new_id : Result Text) (lease : Duration) (now : Time) (db db' : Db)
    (c : ClaimedDelivery) (o : Option (DeliveryRow × MessageRow))
    → ◌≡◌ {A = Result (Option ClaimedDelivery × Db)}
        (elim o as (λ _. Result (Option ClaimedDelivery × Db)) [
          | none ↦ ok (none, db)
          | some (d, m) ↦ take_delivery env new_id lease now db d m
        ])
        (ok (some c, db'))
    → (d : DeliveryRow) × (m : MessageRow) × (o ≡ some (d, m))
      × (take_delivery env new_id lease now db d m ≡ ok (some c, db'))
granted env new_id lease now db db' c none h = cc
granted env new_id lease now db db' c (some (d, m)) h = (d, m, refl, h)

added :
    (env : Env) (a : AttemptRow) (attempts after : List AttemptRow)
    → add_attempt env a attempts ≡ ok after
    → (any (clashes a) attempts ≡ false) × (after ≡ a ∷ attempts)
unfolding add_attempt
added env a attempts after h =
    let (_, _, h₁) = >>=-eq-ok (exec env insert_attempt) _ h in
    let (_, r, h₂) = >>=-eq-ok (reject_if (any (clashes a) attempts) persistence_failed) _ h₁ in
    (ground (arith, r), cc)

same_answer :
    {c c' : ClaimedDelivery} {db db' : Db}
    → ◌≡◌ {A = Result (Option ClaimedDelivery × Db)} (ok (some c, db)) (ok (some c', db'))
    → (c ≡ c') × (db ≡ db')
same_answer h = (cc, cc)

due_row :
    (env : Env) (now : Time) (db : Db) (d : DeliveryRow) (m : MessageRow)
    → next_due env now db ≡ some (d, m)
    → (first_by due_before (is_candidate env now db) db.deliveries ≡ some d)
      × (message_of db d ≡ some m)
unfolding next_due
due_row env now db d m h =
    elim (Option-cases (first_by due_before (is_candidate env now db) db.deliveries)) [
      | inl e ↦ ground (arith, h, e)
      | inr (d', e) ↦ elim (Option-cases (message_of db d')) [
        | inl f ↦ ground (arith, h, e, f)
        | inr (m', f) ↦ ground (arith, h, e, f)
      ]
    ]

-- A claim that is granted, and the row that it was granted on.
pub claim_delivery_inv :
    (env : Env) (new_id : Result Text) (lease : Duration) (db db' : Db) (c : ClaimedDelivery)
    → claim_delivery env new_id lease db ≡ (db', ok (some c))
    → (now : Time) × (d : DeliveryRow) × (m : MessageRow) × (env.now ≡ ok now)
      × (first_by due_before (is_candidate env now db) db.deliveries ≡ some d)
      × (message_of db d ≡ some m)
      × (take_delivery env new_id lease now db d m ≡ ok (some c, db'))
unfolding claim_delivery
claim_delivery_inv env new_id lease db db' c h =
    let (_, _, h₁) = >>=-eq-ok (exec env begin) _ (run_tx-ok db _ h) in
    let (now, n, h₂) = >>=-eq-ok env.now _ h₁ in
    let (_, _, h₃) = >>=-eq-ok (exec env select_rows) _ h₂ in
    let (d, m, o, t) = granted env new_id lease now db db' c (next_due env now db) h₃ in
    let (first, message) = due_row env now db d m o in (now, d, m, n, first, message, t)

idle :
    (env : Env) (new_id : Result Text) (lease : Duration) (now : Time) (db db' : Db)
    (o : Option (DeliveryRow × MessageRow))
    → ◌≡◌ {A = Result (Option ClaimedDelivery × Db)}
        (elim o as (λ _. Result (Option ClaimedDelivery × Db)) [
          | none ↦ ok (none, db)
          | some (d, m) ↦ take_delivery env new_id lease now db d m
        ])
        (ok (none, db'))
    → db' ≡ db
unfolding take_delivery
idle env new_id lease now db db' none h = cc
idle env new_id lease now db db' (some (d, m)) h = ground (arith, h)

-- A claim that finds nothing due changes nothing.
pub claim_delivery_idle :
    (env : Env) (new_id : Result Text) (lease : Duration) (db db' : Db)
    → claim_delivery env new_id lease db ≡ (db', ok none)
    → db' ≡ db
unfolding claim_delivery
claim_delivery_idle env new_id lease db db' h =
    let (_, _, h₁) = >>=-eq-ok (exec env begin) _ (run_tx-ok db _ h) in
    let (now, n, h₂) = >>=-eq-ok env.now _ h₁ in
    let (_, _, h₃) = >>=-eq-ok (exec env select_rows) _ h₂ in
    idle env new_id lease now db db' (next_due env now db) h₃

-- What the claim of a row writes.
pub take_delivery_inv :
    (env : Env) (new_id : Result Text) (lease : Duration) (now : Time) (db db' : Db)
    (d : DeliveryRow) (m : MessageRow) (c : ClaimedDelivery)
    → take_delivery env new_id lease now db d m ≡ ok (some c, db')
    → (id : Text) × (closed : List AttemptRow) × (new_id ≡ ok id)
      × (c ≡ claimed_of d m id now)
      × (expire_abandoned env now d db.attempts ≡ ok closed)
      × (any (clashes (new_attempt id d now)) closed ≡ false)
      × (db' ≡ record db {
        deliveries =
            update
              (λ r. text_eq r.id d.id)
              (λ r. record r {
                state = in_flight;
                attempt_count = suc d.attempt_count;
                lease_expires_at = some (now +ℤ effective_lease lease);
                updated_at = now;
              })
              db.deliveries;
        attempts = new_attempt id d now ∷ closed;
      })
unfolding take_delivery
take_delivery_inv env new_id lease now db db' d m c h =
    let (_, _, h₁) = >>=-eq-ok (exec env decode_json) _ h in
    let (closed, e, h₂) = >>=-eq-ok (expire_abandoned env now d db.attempts) _ h₁ in
    let (id, i, h₃) = >>=-eq-ok new_id _ h₂ in
    let (_, _, h₄) = >>=-eq-ok (exec env update_delivery) _ h₃ in
    let (attempts, a, h₅) = >>=-eq-ok (add_attempt env (new_attempt id d now) closed) _ h₄ in
    let (_, _, h₆) = >>=-eq-ok (exec env commit) _ h₅ in
    let (clash, after) = added env (new_attempt id d now) closed attempts a in
    let (answer, left) = same_answer h₆ in
    (id, closed, i, sym answer, e, clash, rw (sym left, after) refl)

same_state :
    {u u' : Unit {0}} {db db' : Db}
    → ◌≡◌ {A = Result (Unit {0} × Db)} (ok (u, db)) (ok (u', db'))
    → db ≡ db'
same_state h = cc

-- A renewal that succeeds, and what it writes.
pub renew_delivery_lease_inv :
    (store : Store) (env : Env) (c : ClaimedDelivery) (lease : Duration) (db db' : Db)
    (u : Unit {0})
    → renew_delivery_lease store env c lease db ≡ (db', ok u)
    → (now : Time) × (count (is_owned c db.attempts now) db.deliveries ≡ 1)
      × (db' ≡ record db {
        deliveries =
            update
              (is_owned c db.attempts now)
              (λ d. record d {
                lease_expires_at = some (renewed_until store now lease);
                updated_at = now;
              })
              db.deliveries;
      })
unfolding renew_delivery_lease
renew_delivery_lease_inv store env c lease db db' u h =
    let (_, _, h₁) =
      >>=-eq-ok (reject_if (leb_ℤ lease (pos 0)) invalid_configuration) _ (run_tx-ok db _ h) in
    let (now, _, h₂) = >>=-eq-ok env.now _ h₁ in
    let (_, _, h₃) = >>=-eq-ok (exec env update_delivery) _ h₂ in
    let (_, r, h₄) =
      >>=-eq-ok (reject_if (not (count (is_owned c db.attempts now) db.deliveries == 1)) conflict) _
        h₃ in
    (now, ground (arith, r), sym (same_state h₄))

-- A completion that succeeds, and what it writes into the deliveries.
pub complete_delivery_inv :
    (store : Store) (env : Env) (random : Option Text) (c : ClaimedDelivery)
    (result : AttemptResult) (send_err : Option Error) (policy : RetryPolicy) (db db' : Db)
    (u : Unit {0})
    → complete_delivery store env random c result send_err policy db ≡ (db', ok u)
    → (now : Time) × (next : DeliveryState × Option Time) × (env.now ≡ ok now)
      × (next
          ≡ delivery_transition policy random now c.attempt
              (normalized_outcome result.outcome send_err)
              result.retry_at
              send_err)
      × (count (own_attempt c) db.attempts ≡ 1)
      × (count (own_delivery c) db.deliveries ≡ 1)
      × (db' ≡ record db {
        deliveries =
            update
              (own_delivery c)
              (completed now next.0 next.1 result.status_code
                (stored_error result.error_code send_err))
              db.deliveries;
        attempts =
            update
              (own_attempt c)
              (finished store now result
                (normalized_outcome result.outcome send_err)
                (stored_error result.error_code send_err)
                next.1)
              db.attempts;
      })
unfolding complete_delivery
complete_delivery_inv store env random c result send_err policy db db' u h =
    let (_, _, h₁) = >>=-eq-ok (exec env begin) _ (run_tx-ok db _ h) in
    let (now, n, h₂) = >>=-eq-ok env.now _ h₁ in
    let (_, _, h₃) = >>=-eq-ok (exec env update_attempt) _ h₂ in
    let (_, r, h₄) =
      >>=-eq-ok (reject_if (not (count (own_attempt c) db.attempts == 1)) conflict) _ h₃ in
    let (_, _, h₅) = >>=-eq-ok (exec env update_delivery) _ h₄ in
    let (_, s, h₆) =
      >>=-eq-ok (reject_if (not (count (own_delivery c) db.deliveries == 1)) conflict) _ h₅ in
    let (_, _, h₇) = >>=-eq-ok (exec env commit) _ h₆ in
    (now, _, n, refl, ground (arith, r), ground (arith, s), sym (same_state h₇))
