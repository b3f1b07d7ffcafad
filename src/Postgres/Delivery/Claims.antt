-- ===== src/Postgres/Delivery/Claims.antt =====
-- postgres/store.go: ClaimDelivery takes the earliest delivery that is due.
use hookbound.Base.{
  refl, Option, ◌⊎◌, ◌↔◌, ◌||◌, ◌≤ℤ◌, leb_ℤ, pos, suc, ◌≡◌, ap, subst, Bool, true, false, none,
  some, List, [], ◌∷◌, All, any, arith, inl, inr, Bool-cases, Option-cases, Text, text_eq, ◌+ℤ◌,
  ◌∙◌, ◌&&◌, ltb, ◌==◌, if◌then◌else◌, some, sym,
}
use hookbound.Errors.{Result, ok, >>=-eq-ok, ok_inj}
use hookbound.Retry.{Time, Duration, seconds}
use hookbound.Outcome.{retry}
use mathlib.Core.List.{Mem}
use hookbound.Postgres.Tables.{
  lease_expired, is_in_flight, DeliveryState, pending, lease_over, in_flight, MessageRow,
  DeliveryRow, AttemptRow, Db, Env, exec, update_attempt, update, first_by,
}
use hookbound.Postgres.Rows.{first_by-Found, first_by-Mem, All-imp}
use hookbound.Postgres.Delivery.{
  is_waiting, ClaimedDelivery, claim_delivery, is_candidate, is_due, message_of, due_before,
  clashes, new_attempt, expire_abandoned,
}
use hookbound.Postgres.Delivery.Steps.{claim_delivery_inv, take_delivery_inv}

due_before_trans :
    (a b c : DeliveryRow) → due_before b a ≡ false → due_before c b ≡ false → due_before c a ≡ false
unfolding due_before
due_before_trans a b c h k = ground (arith, h, k)

due_before_total : (a b : DeliveryRow) → due_before a b ≡ true → due_before b a ≡ false
unfolding due_before
due_before_total a b h = ground (arith, h)

due_before_irrefl : (a : DeliveryRow) → due_before a a ≡ false
unfolding due_before
due_before_irrefl a = ground arith

first_by-none :
    (p : DeliveryRow → Bool) (rs : List DeliveryRow)
    → first_by due_before p rs ≡ none
    → All (λ r. p r ≡ false) rs
unfolding first_by
first_by-none p [] h = tt
first_by-none p (x ∷ rs) h = elim (Option-cases (first_by due_before p rs)) [
  | inl e ↦ elim (Bool-cases (p x)) [
    | inl f ↦ absurd (ground (arith, h, e, f))
    | inr f ↦ (f, first_by-none p rs e)
  ]
  | inr (s, e) ↦ absurd (ground (arith, h, e))
]

-- No row that meets the condition comes before the one that the query returns.
first_by-least :
    (p : DeliveryRow → Bool) (rs : List DeliveryRow) (d : DeliveryRow)
    → first_by due_before p rs ≡ some d
    → All (λ r. p r ≡ true → due_before r d ≡ false) rs
unfolding first_by
first_by-least p [] d h = tt
first_by-least p (x ∷ rs) d h = elim (Option-cases (first_by due_before p rs)) [
  | inl e ↦ (
    λ g. subst (λ r. due_before x r ≡ false) ((ground (arith, h, e, g))) (due_before_irrefl x),
    All-imp _ _ (λ r f g. absurd (ground (arith, f, g))) rs (first_by-none p rs e),
  )
  | inr (s, e) ↦ elim (Bool-cases (p x)) [
    | inr f ↦ (
      λ g. absurd (ground (arith, f, g)),
      subst (λ t. All (λ r. p r ≡ true → due_before r t ≡ false) rs) ((ground (arith, h, e, f)))
          (first_by-least p rs s e),
    )
    | inl f ↦ elim (Bool-cases (due_before s x)) [
      | inl b ↦
          subst
            (λ t.
              (p x ≡ true → due_before x t ≡ false)
              × All (λ r. p r ≡ true → due_before r t ≡ false) rs)
            ((ground (arith, h, e, f, b))) ((λ _. due_before_total s x b), first_by-least p rs s e)
      | inr b ↦
          subst
            (λ t.
              (p x ≡ true → due_before x t ≡ false)
              × All (λ r. p r ≡ true → due_before r t ≡ false) rs)
            ((ground (arith, h, e, f, b)))
            (
              (λ _. due_before_irrefl x),
              All-imp _ _ (λ r k g. due_before_trans x s r b (k g)) rs (first_by-least p rs s e),
            )
    ]
  ]
]

candidate_parts :
    (env : Env) (now : Time) (db : Db) (d : DeliveryRow)
    → is_candidate env now db d ≡ true
    → (is_due now d ≡ true) × (env.locked d.id ≡ false)
unfolding is_candidate
candidate_parts env now db d h = ground (arith, h)

-- The attempts once a claim has closed the one that an expired lease left behind: of a delivery in
-- flight, the open attempt with the number of the row's count is finished as a retry.
abbrev pub closed_attempts : Time → DeliveryRow → List AttemptRow → List AttemptRow
closed_attempts now d attempts =
    if is_in_flight d.state && ltb 0 d.attempt_count
    then update
        (λ a.
          text_eq a.delivery_id d.id
          && a.attempt_number == d.attempt_count
          && (elim a.finished_at [ none ↦ true | some t ↦ false ]))
        (λ a. record a {
          finished_at = some now;
          outcome = some retry;
          error_code = some lease_expired;
        })
        attempts
    else attempts

expire_abandoned-closed :
    (env : Env) (now : Time) (d : DeliveryRow) (attempts closed : List AttemptRow)
    → expire_abandoned env now d attempts ≡ ok closed
    → closed ≡ closed_attempts now d attempts
unfolding expire_abandoned
expire_abandoned-closed env now d attempts closed h =
    elim (Bool-cases (is_in_flight d.state && ltb 0 d.attempt_count)) [
      | inl e ↦
          let (_, _, last) = >>=-eq-ok (exec env update_attempt) _ (rw e at h) in
          rw e (sym (ok_inj last))
      | inr e ↦ rw e (sym (ok_inj (rw e at h)))
    ]

-- A delivery that may be claimed at an instant: it waits and its next attempt is due, or it is in flight
-- and its lease is over.
abbrev pub IsDue : (now : Time) → DeliveryRow → Type 0
IsDue now d =
    (((d.state ≡ pending) ⊎ (d.state ≡ DeliveryState.retry)) × (d.next_attempt_at ≤ℤ now))
    ⊎ ((d.state ≡ in_flight) × (t : Time) × (d.lease_expires_at ≡ some t) × (t ≤ℤ now))

-- A delivery that may be claimed, that nobody else holds locked and whose message is there.
abbrev pub IsEligible : Env → (now : Time) → Db → DeliveryRow → Type 0
IsEligible env now db d =
    IsDue now d × (env.locked d.id ≡ false) × (m : MessageRow) × (message_of db d ≡ some m)

waiting_state :
    (s : DeliveryState) → (is_waiting s ≡ true) ↔ ((s ≡ pending) ⊎ (s ≡ DeliveryState.retry))
waiting_state s = ground arith

flying_state : (s : DeliveryState) → (is_in_flight s ≡ true) ↔ (s ≡ in_flight)
flying_state s = ground arith

lease_over_iff :
    (lease : Option Time) (now : Time)
    → (lease_over lease now ≡ true) ↔ ((t : Time) × (lease ≡ some t) × (t ≤ℤ now))
lease_over_iff none now = ((λ h. absurd cc), (λ h. absurd (ground (arith, h.1))))
lease_over_iff (some t) now = ((λ h. (t, refl, ground (arith, h))), λ h. ground (arith, h.1, h.2))

is_due_iff : (now : Time) (d : DeliveryRow) → (is_due now d ≡ true) ↔ IsDue now d
unfolding is_due
is_due_iff now d =
    let waits = waiting_state d.state in
    let flies = flying_state d.state in
    let over = lease_over_iff d.lease_expires_at now in
    (
      λ h. elim (Bool-cases (is_waiting d.state && leb_ℤ d.next_attempt_at now)) [
        | inl w ↦ inl (waits.0 (ground (arith, w)), ground (arith, w))
        | inr w ↦
            let (ends, at, ended) = over.0 (ground (arith, h, w)) in
            inr (flies.0 (ground (arith, h, w)), ends, at, ended)
      ],
      λ due. elim due [
        | inl (state, early) ↦
            let w = waits.1 state in
            let e : leb_ℤ d.next_attempt_at now ≡ true = ground (arith, early) in
            ground (arith, w, e)
        | inr (state, ends, at, ended) ↦
            let w = flies.1 state in let e = over.1 (ends, at, ended) in ground (arith, w, e)
      ],
    )

eligible_candidate :
    (env : Env) (now : Time) (db : Db) (d : DeliveryRow)
    → IsEligible env now db d
    → is_candidate env now db d ≡ true
unfolding is_candidate
eligible_candidate env now db d (due, free, m, message) =
    rw ((is_due_iff now d).1 due, free, message) refl

-- The lease that a claim asks for, by default a minute.
abbrev lease_of : Duration → Duration
lease_of lease = if leb_ℤ lease (pos 0) then seconds 60 else lease

-- What a claim that is granted has done: it is of the delivery d with the message m, at the instant now,
-- and the new attempt has the identifier id.
abbrev pub IsNext :
    Env → (new_id : Result Text) → Duration → (db db' : Db) → ClaimedDelivery → Type 0
IsNext env new_id lease db db' c =
    (now : Time) × (d : DeliveryRow) × (m : MessageRow) × (id : Text) × Mem d db.deliveries
    × (env.now ≡ ok now)
    × (new_id ≡ ok id)
    × IsDue now d
    × (env.locked d.id ≡ false)
    × (message_of db d ≡ some m)
    × All (λ r. IsEligible env now db r → due_before r d ≡ false) db.deliveries
    × (c ≡ record {
      delivery_id = d.id;
      attempt_id = id;
      attempt = suc d.attempt_count;
      message_id = m.id;
      destination = d.destination_url;
      event_type = m.event_type;
      body = m.body;
      content_type = m.content_type;
      headers = d.headers;
      started_at = now;
    })
    × (db'.deliveries
        ≡ update (λ r. text_eq r.id d.id)
            (λ r. record r {
              state = in_flight;
              attempt_count = suc d.attempt_count;
              lease_expires_at = some (now +ℤ lease_of lease);
              updated_at = now;
            })
            db.deliveries)
    × (db'.attempts
        ≡ record {
          id = id;
          delivery_id = d.id;
          attempt_number = suc d.attempt_count;
          started_at = now;
          finished_at = none;
          outcome = none;
          status_code = none;
          duration = none;
          error_code = none;
          response_headers = none;
          response_body = none;
          next_attempt_at = none;
        }
          ∷ closed_attempts now d db.attempts)
    × (any
          (λ b.
            text_eq b.id id
            || text_eq b.delivery_id d.id && b.attempt_number == suc d.attempt_count)
          (closed_attempts now d db.attempts)
        ≡ false)
    × (db'.messages ≡ db.messages)
    × (db'.receipts ≡ db.receipts)

-- A claim that is granted takes a delivery of the table that is due at the instant of the claim,
-- that no other transaction holds locked and whose message is there, and no other such delivery
-- comes strictly before it in the order of next_attempt_at and created_at. The answer names that
-- delivery, its message, the new attempt's fresh identifier and the number after the count that the row
-- had; every row of its identifier becomes in flight with that count and a lease that ends the lease's
-- duration after now; the new attempt, open and with an identifier and a number that are not taken, is
-- added to the attempts, of which otherwise only the open one of a delivery whose lease had expired is
-- changed, to a finished retry; and no message and no receipt is changed.
pub claim_delivery-IsNext :
    (env : Env) (new_id : Result Text) (lease : Duration) (db db' : Db) (c : ClaimedDelivery)
    → claim_delivery env new_id lease db ≡ (db', ok (some c))
    → IsNext env new_id lease db db' c
claim_delivery-IsNext env new_id lease db db' c h =
    let (now, d, m, n, first, message, t) = claim_delivery_inv env new_id lease db db' c h in
    let (id, closed, drawn, claimed, expired, clash, e) =
      take_delivery_inv env new_id lease now db db' d m c t in
    let candidate = first_by-Found due_before (is_candidate env now db) db.deliveries d first in
    let (due, free) = candidate_parts env now db d candidate in
    let same = expire_abandoned-closed env now d db.attempts closed expired in
    (
      now,
      d,
      m,
      id,
      first_by-Mem due_before (is_candidate env now db) db.deliveries d first,
      n,
      drawn,
      (is_due_iff now d).0 due,
      free,
      message,
      All-imp _ _ (λ r least eligible. least (eligible_candidate env now db r eligible))
          db.deliveries (first_by-least (is_candidate env now db) db.deliveries d first),
      claimed,
      ap (λ (x : Db). x.deliveries) e,
      ap (λ (x : Db). x.attempts) e ∙ ap (λ l. new_attempt id d now ∷ l) same,
      subst (λ l. any (clashes (new_attempt id d now)) l ≡ false) same clash,
      ap (λ (x : Db). x.messages) e,
      ap (λ (x : Db). x.receipts) e,
    )
