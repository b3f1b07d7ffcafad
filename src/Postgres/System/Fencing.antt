-- ===== src/Postgres/System/Fencing.antt =====
-- postgres/: a delivery belongs to the last claim of it. `attempt_count` is the fencing token.
use hookbound.Base.{
  ℕ, suc, ◌≤◌, ◌<◌, ◌≡◌, sym, ap, subst, ◌∙◌, Bool, true, false, Option, some, List, arith, ◌⊎◌,
  inl, inr, Bool-cases, Text, text_eq, text_eq_iff,
}
use hookbound.Errors.{Result, ok, Error, is_ok}
use hookbound.Retry.{Time, Duration, RetryPolicy}
use hookbound.Outcome.{AttemptResult}
use hookbound.Postgres.Tables.{DeliveryState, DeliveryRow, AttemptRow, Db, Env, count, is_in_flight}
use hookbound.Postgres.Rows.{first_by-All, All-rewrite, All-imp, All-true, count-none, run_tx-cases}
use hookbound.Postgres.Transition.{normalized_outcome}
use hookbound.Postgres.Delivery.{
  Store, ClaimedDelivery, claim_delivery, renew_delivery_lease_in_tx, is_candidate, due_before,
  renew_delivery_lease, is_owned,
}
use hookbound.Postgres.Delivery.Completion.{
  complete_delivery_in_tx, complete_delivery, own_delivery,
}
use hookbound.Postgres.Delivery.Steps.{
  claim_delivery_inv, take_delivery_inv, renew_delivery_lease_inv, complete_delivery_inv,
}
use hookbound.Postgres.System.{Reach}
use hookbound.Postgres.System.Ownership.{Row, Holds, Reach-Keeps, text_eq→≡, not_in_flight}

-- Every delivery of the identifier has been claimed at least n times.
abbrev AtLeast : ℕ → ℕ → Bool → Type 0
AtLeast n count running = n ≤ count

-- The claim that left the count at n is over: the delivery was claimed again, or its attempt ended.
abbrev Over : ℕ → ℕ → Bool → Type 0
Over n count running = (n < count) ⊎ ((n ≤ count) × (running ≡ false))

AtLeast-up : (n count : ℕ) (running : Bool) → AtLeast n count running → AtLeast n (suc count) true
AtLeast-up n count running h = ground arith

Over-up : (n count : ℕ) (running : Bool) → Over n count running → Over n (suc count) true
Over-up n count running h = ground arith

Over-down : (n count : ℕ) → Over n count true → Over n count false
Over-down n count h = ground arith

apart : (s t u : Text) → text_eq s t ≡ false → s ≡ u → u ≡ t → ⊥
apart s t u h e f = ground (arith, (text_eq_iff s t).1 (e ∙ f), h)

-- A claim of a delivery leaves every row of its identifier at the claim's attempt number.
claim-AtLeast :
    (env : Env) (new_id : Result Text) (lease : Duration) (db db' : Db) (c : ClaimedDelivery)
    → claim_delivery env new_id lease db ≡ (db', ok (some c))
    → Holds (AtLeast c.attempt) c.delivery_id db'
claim-AtLeast env new_id lease db db' c h =
    let (now, d, m, _, _, _, t) = claim_delivery_inv env new_id lease db db' c h in
    let (_, _, _, claimed, _, _, e) = take_delivery_inv env new_id lease now db db' d m c t in
    let attempt = ap (λ (x : ClaimedDelivery). x.attempt) claimed in
    let same = ap (λ (x : ClaimedDelivery). x.delivery_id) claimed in
    subst (Holds (AtLeast c.attempt) c.delivery_id) (sym e) (
      All-rewrite (λ _. Unit {0}) _ _ _ (λ r p _ _. omega (arith, attempt))
        (λ r p _ q. absurd (apart r.id d.id c.delivery_id p q same)) db.deliveries
        (All-true _ (λ _. tt) db.deliveries))

-- A claim of a delivery that was claimed n times before ends the claims up to n.
claim-Over :
    (n : ℕ) (env : Env) (new_id : Result Text) (lease : Duration) (db db' : Db)
    (c : ClaimedDelivery)
    → claim_delivery env new_id lease db ≡ (db', ok (some c))
    → Holds (AtLeast n) c.delivery_id db
    → Holds (Over n) c.delivery_id db'
claim-Over n env new_id lease db db' c h k =
    let (now, d, m, _, first, _, t) = claim_delivery_inv env new_id lease db db' c h in
    let (_, _, _, claimed, _, _, e) = take_delivery_inv env new_id lease now db db' d m c t in
    let same = ap (λ (x : ClaimedDelivery). x.delivery_id) claimed in
    let row =
      first_by-All (Row (AtLeast n) c.delivery_id) due_before (is_candidate env now db)
        db.deliveries d first k (sym same) in
    subst (Holds (Over n) c.delivery_id) (sym e) (
      All-rewrite (Row (AtLeast n) c.delivery_id) _ _ _ (λ r p _ _. inl (ground (arith, row)))
        (λ r p _ q. absurd (apart r.id d.id c.delivery_id p q same)) db.deliveries k)

-- A claim that is over can neither end the attempt nor prolong its lease.
own_delivery-Over :
    (c : ClaimedDelivery) (d : DeliveryRow)
    → Row (Over c.attempt) c.delivery_id d
    → own_delivery c d ≡ false
unfolding own_delivery
own_delivery-Over c d k = elim (Bool-cases (text_eq d.id c.delivery_id)) [
  | inl e ↦ ground (arith, k (text_eq→≡ d.id c.delivery_id e))
  | inr e ↦ ground (arith, e)
]

is_owned-Over :
    (c : ClaimedDelivery) (attempts : List AttemptRow) (now : Time) (d : DeliveryRow)
    → Row (Over c.attempt) c.delivery_id d
    → is_owned c attempts now d ≡ false
unfolding is_owned own_delivery
is_owned-Over c attempts now d k = ground (arith, own_delivery-Over c d k)

-- An operation that failed and changed nothing.
abbrev pub Refused : Db → Db × Result (Unit {0}) → Type 0
Refused db answer = (answer.0 ≡ db) × (is_ok answer.1 ≡ false)

left_alone :
    (c : ClaimedDelivery) (d : DeliveryRow)
    → own_delivery c d ≡ false
    → c.attempt ≤ d.attempt_count
    → d.id ≡ c.delivery_id
    → Over c.attempt d.attempt_count (is_in_flight d.state)
unfolding own_delivery
left_alone c d h le same = ground (arith, h, le, (text_eq_iff d.id c.delivery_id).1 same)

complete-Over :
    (store : Store) (env : Env) (random : Option Text) (c : ClaimedDelivery)
    (result : AttemptResult) (send_err : Option Error) (policy : RetryPolicy) (db : Db)
    → Holds (Over c.attempt) c.delivery_id db
    → Refused db (complete_delivery store env random c result send_err policy db)
unfolding complete_delivery
complete-Over store env random c result send_err policy db k =
    elim (run_tx-cases db (complete_delivery_in_tx store env random c result send_err policy db)) [
      | inl refused ↦ refused
      | inr (u, db', h) ↦
          let (_, _, _, _, _, owned, _) =
            complete_delivery_inv store env random c result send_err policy db db' u h in
          let none_owned = count-none (own_delivery c) db.deliveries (
            All-imp (Row (Over c.attempt) c.delivery_id) _ (own_delivery-Over c) db.deliveries k) in
          absurd (omega (arith, owned, none_owned))
    ]

renew-Over :
    (store : Store) (env : Env) (c : ClaimedDelivery) (lease : Duration) (db : Db)
    → Holds (Over c.attempt) c.delivery_id db
    → Refused db (renew_delivery_lease store env c lease db)
unfolding renew_delivery_lease
renew-Over store env c lease db k =
    elim (run_tx-cases db (renew_delivery_lease_in_tx store env c lease db)) [
      | inl refused ↦ refused
      | inr (u, db', h) ↦
          let (now, owned, _) = renew_delivery_lease_inv store env c lease db db' u h in
          let none_owned = count-none (is_owned c db.attempts now) db.deliveries (
            All-imp (Row (Over c.attempt) c.delivery_id) _ (is_owned-Over c db.attempts now)
              db.deliveries k) in
          absurd (omega (arith, owned, none_owned))
    ]

-- The completion of a claim ends it.
complete-ends :
    (store : Store) (env : Env) (random : Option Text) (c : ClaimedDelivery)
    (result : AttemptResult) (send_err : Option Error) (policy : RetryPolicy) (db db' : Db)
    (u : Unit {0})
    → complete_delivery store env random c result send_err policy db ≡ (db', ok u)
    → Holds (AtLeast c.attempt) c.delivery_id db
    → Holds (Over c.attempt) c.delivery_id db'
complete-ends store env random c result send_err policy db db' u h k =
    let (now, next, _, transition, _, _, e) =
      complete_delivery_inv store env random c result send_err policy db db' u h in
    let stopped =
      ap (λ (t : DeliveryState × Option Time). is_in_flight t.0) transition
      ∙ not_in_flight policy random now c.attempt (normalized_outcome result.outcome send_err)
          result.retry_at send_err in
    subst (Holds (Over c.attempt) c.delivery_id) (sym e) (
      All-rewrite (Row (AtLeast c.attempt) c.delivery_id) _ _ _
        (λ d p q same. inr (q same, stopped)) (λ d p q same. left_alone c d p (q same) same)
        db.deliveries k)

module _ (sha256 : Text → Text) (collates : Text → Text → Bool) where
  -- A claim of a delivery, granted earlier, that another claim of the same delivery has superseded
  -- can neither complete it nor renew the lease on it: the call fails and the database is as it was,
  -- whatever operations ran between the two claims and since. The identifier of the delivery is
  -- assumed not to be drawn again for a new one.
  pub superseded_claim :
      (env₁ env₂ env : Env) (id₁ id₂ : Result Text) (lease₁ lease₂ lease : Duration)
      (c₁ c₂ : ClaimedDelivery) (db₁ db₂ db₃ db₄ db₅ : Db) (store : Store) (random : Option Text)
      (result : AttemptResult) (send_err : Option Error) (policy : RetryPolicy)
      → claim_delivery env₁ id₁ lease₁ db₁ ≡ (db₂, ok (some c₁))
      → Reach sha256 collates c₁.delivery_id db₂ db₃
      → claim_delivery env₂ id₂ lease₂ db₃ ≡ (db₄, ok (some c₂))
      → c₂.delivery_id ≡ c₁.delivery_id
      → Reach sha256 collates c₁.delivery_id db₄ db₅
      → Refused db₅ (complete_delivery store env random c₁ result send_err policy db₅)
        × Refused db₅ (renew_delivery_lease store env c₁ lease db₅)
  superseded_claim env₁ env₂ env id₁ id₂ lease₁ lease₂ lease c₁ c₂ db₁ db₂ db₃ db₄ db₅ store random
        result send_err policy first between second same since =
      let n = c₁.attempt in
      let k₂ = claim-AtLeast env₁ id₁ lease₁ db₁ db₂ c₁ first in
      let k₃ =
        Reach-Keeps (AtLeast n) (AtLeast-up n) (λ _ h. h) c₁.delivery_id sha256 collates between
          k₂ in
      let k₄ =
        subst (λ i. Holds (Over n) i db₄) same
          (claim-Over n env₂ id₂ lease₂ db₃ db₄ c₂ second
            (subst (λ i. Holds (AtLeast n) i db₃) (sym same) k₃)) in
      let k₅ =
        Reach-Keeps (Over n) (Over-up n) (Over-down n) c₁.delivery_id sha256 collates since k₄ in
      (
        complete-Over store env random c₁ result send_err policy db₅ k₅,
        renew-Over store env c₁ lease db₅ k₅,
      )

  -- A claim completes at most once: after a completion that succeeded, whatever operations ran since,
  -- a second completion by the same claim fails and changes nothing, and so does a renewal of its
  -- lease. The identifier of the delivery is assumed not to be drawn again for a new one.
  pub completed_once :
      (env₁ env₂ env : Env) (id₁ : Result Text) (lease₁ lease : Duration) (c : ClaimedDelivery)
      (db₁ db₂ db₃ db₄ db₅ : Db) (store : Store) (random random' : Option Text)
      (result result' : AttemptResult) (send_err send_err' : Option Error)
      (policy policy' : RetryPolicy)
      → claim_delivery env₁ id₁ lease₁ db₁ ≡ (db₂, ok (some c))
      → Reach sha256 collates c.delivery_id db₂ db₃
      → complete_delivery store env₂ random c result send_err policy db₃ ≡ (db₄, ok tt)
      → Reach sha256 collates c.delivery_id db₄ db₅
      → Refused db₅ (complete_delivery store env random' c result' send_err' policy' db₅)
        × Refused db₅ (renew_delivery_lease store env c lease db₅)
  completed_once env₁ env₂ env id₁ lease₁ lease c db₁ db₂ db₃ db₄ db₅ store random random' result
        result' send_err send_err' policy policy' first between done since =
      let n = c.attempt in
      let k₂ = claim-AtLeast env₁ id₁ lease₁ db₁ db₂ c first in
      let k₃ =
        Reach-Keeps (AtLeast n) (AtLeast-up n) (λ _ h. h) c.delivery_id sha256 collates between
          k₂ in
      let k₄ = complete-ends store env₂ random c result send_err policy db₃ db₄ tt done k₃ in
      let k₅ =
        Reach-Keeps (Over n) (Over-up n) (Over-down n) c.delivery_id sha256 collates since k₄ in
      (
        complete-Over store env random' c result' send_err' policy' db₅ k₅,
        renew-Over store env c lease db₅ k₅,
      )
