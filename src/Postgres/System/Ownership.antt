-- ===== src/Postgres/System/Ownership.antt =====
-- postgres/: what every operation keeps of the deliveries of one identifier.
use hookbound.Base.{
  ℕ, suc, ◌≡◌, ◌≢◌, sym, ap, subst, ◌∙◌, Bool, true, false, Option, none, some, All, arith, inl,
  inr, Text, text_eq, text_eq_iff,
}
use hookbound.Errors.{Result, ok, Error}
use hookbound.Retry.{Time, Duration, RetryPolicy}
use hookbound.Outcome.{Outcome, AttemptResult}
use hookbound.Message.{SendRequest}
use hookbound.Postgres.Tables.{DeliveryRow, Db, Env, is_in_flight}
use hookbound.Postgres.Rows.{first_by-All, All-update, run_tx-keeps}
use hookbound.Postgres.Transition.{delivery_transition, delivery_transition-Leaves}
use hookbound.Postgres.Delivery.{
  Store, ClaimedDelivery, claim_delivery, claim_delivery_in_tx, renew_delivery_lease_in_tx,
  is_candidate, due_before, renew_delivery_lease,
}
use hookbound.Postgres.Delivery.Completion.{
  complete_delivery_in_tx, complete_delivery, own_delivery,
}
use hookbound.Postgres.Delivery.Steps.{
  claim_delivery_idle, claim_delivery_inv, take_delivery_inv, renew_delivery_lease_inv,
  complete_delivery_inv,
}
use hookbound.Postgres.Enqueue.{Ids, enqueue, enqueue_in_tx}
use hookbound.Postgres.Enqueue.Steps.{enqueue-AddsDelivery}
use hookbound.Postgres.System.{
  Reach, start, enqueues, claims, renews, completes, handles, claims_receipt, renews_receipt,
  completes_receipt, cleans,
}
use hookbound.Postgres.System.Others.{
  handle-deliveries, claim_receipt-deliveries, renew_receipt_lease-deliveries,
  complete_receipt-deliveries, cleanup-All,
}

pub text_eq→≡ : (s t : Text) → text_eq s t ≡ true → s ≡ t
text_eq→≡ s t h = (text_eq_iff s t).0 h

pub own_delivery-runs :
    (c : ClaimedDelivery) (d : DeliveryRow) → own_delivery c d ≡ true → is_in_flight d.state ≡ true
unfolding own_delivery
own_delivery-runs c d h = ground (arith, h)

pub not_in_flight :
    (policy : RetryPolicy) (random : Option Text) (now : Time) (attempt : ℕ) (outcome : Outcome)
    (retry_at : Time) (send_err : Option Error)
    → is_in_flight (delivery_transition policy random now attempt outcome retry_at send_err).0
      ≡ false
not_in_flight policy random now attempt outcome retry_at send_err =
    ground (arith, delivery_transition-Leaves policy random now attempt outcome retry_at send_err)

-- A property of a delivery's attempt count and of its being in flight, of the deliveries of one
-- identifier.
abbrev pub Row : (ℕ → Bool → Type 0) → Text → DeliveryRow → Type 0
Row Q id d = d.id ≡ id → Q d.attempt_count (is_in_flight d.state)

abbrev pub Holds : (ℕ → Bool → Type 0) → Text → Db → Type 0
Holds Q id db = All (Row Q id) db.deliveries

-- A property that a claim and a completion keep.
module _ (Q : ℕ → Bool → Type 0) (up : (n : ℕ) (b : Bool) → Q n b → Q (suc n) true)
    (down : (n : ℕ) → Q n true → Q n false) (id : Text) where
  claimed-Keeps :
      (env : Env) (new_id : Result Text) (lease : Duration) (db db' : Db)
      (answer : Option ClaimedDelivery)
      → claim_delivery env new_id lease db ≡ (db', ok answer)
      → Holds Q id db
      → Holds Q id db'
  claimed-Keeps env new_id lease db db' none h k =
      subst (Holds Q id) (sym (claim_delivery_idle env new_id lease db db' h)) k
  claimed-Keeps env new_id lease db db' (some c) h k =
      let (now, d, m, _, first, _, t) = claim_delivery_inv env new_id lease db db' c h in
      let (_, _, _, _, _, _, e) = take_delivery_inv env new_id lease now db db' d m c t in
      let row =
        first_by-All (Row Q id) due_before (is_candidate env now db) db.deliveries d first k in
      subst (Holds Q id) (sym e) (
        All-update (Row Q id) _ _
          (λ r p q same. up d.attempt_count _ (row (sym (text_eq→≡ r.id d.id p) ∙ same)))
          db.deliveries k)

  claim-Keeps :
      (env : Env) (new_id : Result Text) (lease : Duration) (db : Db)
      → Holds Q id db
      → Holds Q id (claim_delivery env new_id lease db).0
  unfolding claim_delivery
  claim-Keeps env new_id lease db k =
      run_tx-keeps (Holds Q id) db (claim_delivery_in_tx env new_id lease db) k
        (λ answer db' h. claimed-Keeps env new_id lease db db' answer h k)

  renew-Keeps :
      (store : Store) (env : Env) (c : ClaimedDelivery) (lease : Duration) (db : Db)
      → Holds Q id db
      → Holds Q id (renew_delivery_lease store env c lease db).0
  unfolding renew_delivery_lease
  renew-Keeps store env c lease db k =
      run_tx-keeps (Holds Q id) db (renew_delivery_lease_in_tx store env c lease db) k (λ u db' h.
        let (now, _, e) = renew_delivery_lease_inv store env c lease db db' u h in
        subst (Holds Q id) (sym e) (All-update (Row Q id) _ _ (λ d _ q. q) db.deliveries k))

  complete-Keeps :
      (store : Store) (env : Env) (random : Option Text) (c : ClaimedDelivery)
      (result : AttemptResult) (send_err : Option Error) (policy : RetryPolicy) (db : Db)
      → Holds Q id db
      → Holds Q id (complete_delivery store env random c result send_err policy db).0
  unfolding complete_delivery
  complete-Keeps store env random c result send_err policy db k =
      run_tx-keeps (Holds Q id) db
        (complete_delivery_in_tx store env random c result send_err policy db) k
        (λ u db' h.
          let (now, next, _, transition, _, _, e) =
            complete_delivery_inv store env random c result send_err policy db db' u h in
          subst (Holds Q id) (sym e) (
            All-update (Row Q id) (own_delivery c) _
              (λ d owned q same.
                let running = own_delivery-runs c d owned in
                subst (λ b. Q d.attempt_count b)
                  (sym (ap (λ t. is_in_flight t.0) transition ∙ not_in_flight _ _ _ _ _ _ _))
                  (down d.attempt_count (subst (λ b. Q d.attempt_count b) running (q same))))
              db.deliveries k))

  enqueue-Keeps :
      (sha256 : Text → Text) (store : Store) (env : Env) (ids : Ids) (others : Db → Db)
      (request : SendRequest) (key : Text) (db : Db)
      → ids.delivery_id ≢ ok id
      → Holds Q id (others db)
      → Holds Q id (enqueue sha256 store env ids others request key db).0
  unfolding enqueue
  enqueue-Keeps sha256 store env ids others request key db fresh k =
      run_tx-keeps (Holds Q id) (others db)
        (enqueue_in_tx sha256 store env ids others request key db) k
        (λ p db' h. elim (enqueue-AddsDelivery sha256 store env ids others request key db db' p h) [
          | inl (same, _) ↦ subst (λ l. All (Row Q id) l) (sym same) k
          | inr (now, clock, drawn, _, _, added) ↦
              subst (λ l. All (Row Q id) l) (sym added)
                ((λ same. absurd (fresh (drawn ∙ ap (λ t. ok t) same))), k)
        ])

  pub Reach-Keeps :
      (sha256 : Text → Text) (collates : Text → Text → Bool) {db db' : Db}
      → Reach sha256 collates id db db'
      → Holds Q id db
      → Holds Q id db'
  Reach-Keeps sha256 collates start k = k
  Reach-Keeps sha256 collates (enqueues store env ids others request key fresh r) k =
      enqueue-Keeps sha256 store env ids others request key _ fresh
        (Reach-Keeps sha256 collates r k)
  Reach-Keeps sha256 collates (claims env new_id lease r) k =
      claim-Keeps env new_id lease _ (Reach-Keeps sha256 collates r k)
  Reach-Keeps sha256 collates (renews store env c lease r) k =
      renew-Keeps store env c lease _ (Reach-Keeps sha256 collates r k)
  Reach-Keeps sha256 collates (completes store env random c result send_err policy r) k =
      complete-Keeps store env random c result send_err policy _ (Reach-Keeps sha256 collates r k)
  Reach-Keeps sha256 collates (handles store env m r) k =
      subst (λ l. All (Row Q id) l) (sym (handle-deliveries store env m _))
        (Reach-Keeps sha256 collates r k)
  Reach-Keeps sha256 collates (claims_receipt env lease r) k =
      subst (λ l. All (Row Q id) l) (sym (claim_receipt-deliveries env lease _))
        (Reach-Keeps sha256 collates r k)
  Reach-Keeps sha256 collates (renews_receipt store env c lease r) k =
      subst (λ l. All (Row Q id) l) (sym (renew_receipt_lease-deliveries store env c lease _))
        (Reach-Keeps sha256 collates r k)
  Reach-Keeps sha256 collates (completes_receipt store env random c handler_err policy r) k =
      subst (λ l. All (Row Q id) l)
        (sym (complete_receipt-deliveries store env random c handler_err policy _))
        (Reach-Keeps sha256 collates r k)
  Reach-Keeps sha256 collates (cleans env policy r) k =
      cleanup-All (Row Q id) collates env policy _ (Reach-Keeps sha256 collates r k)
