-- ===== src/Postgres/Cleanup/Removes.antt =====
-- postgres/cleanup.go: which deliveries a cleanup removes.
use hookbound.Base.{
  ℕ, zero, suc, ◌≡◌, sym, ap, ◌∙◌, subst, Bool, true, false, some, List, [], ◌∷◌, Text, text_eq_iff,
  arith, ◌⊎◌, inl, inr, Option-cases, Bool-cases, if-eq, pos, pos_part, leb_ℤ, ◌-ℤ◌, ◌<ℤ◌, All,
}
use mathlib.Core.List.{Mem}
use hookbound.Errors.{Result, ok, >>=-eq-ok}
use hookbound.Retry.{Time, Duration}
use hookbound.Postgres.Tables.{
  Db, DeliveryState, delivered, permanent_failure, disabled, exhausted, DeliveryRow, Env, exec,
  first_by, delete_where, delete_rows, begin, commit,
}
use hookbound.Postgres.Rows.{
  run_tx-ok, run_tx-cases, first_by-All, first_by-Found, All-delete, All-Mem, All-imp,
}
use hookbound.Postgres.System.Others.{
  deliveries_pass-keeps, receipts_pass-keeps, messages_pass-keeps, same_pass, same_result,
  cleanup-All,
}
use hookbound.Postgres.Cleanup.{
  RetentionPolicy, CleanupResult, cleanup, cleanup_in_tx, keeps_all, nothing_removed, remove_rows,
  is_delivered, is_failed, delete_batch, deliveries_pass, receipts_pass, messages_pass,
  normalize_retention_policy, ended_before,
}

module _ {ℓ κ} {R : Type ℓ} (P : R → Type κ) where
  -- What holds of every row that a deletion leaves, and of every row that it meets, holds of all.
  All-undelete :
      (p : R → Bool) (rs : List R)
      → ((r : R) → p r ≡ true → P r)
      → All P (delete_where p rs)
      → All P rs
  unfolding delete_where
  All-undelete p [] met h = tt
  All-undelete p (r ∷ rs) met h = elim (Bool-cases (p r)) [
    | inl e ↦ (met r e, All-undelete p rs met (rw e at h))
    | inr e ↦ let kept = rw e at h in (kept.0, All-undelete p rs met kept.1)
  ]

  -- The same of a batch: it meets the rows that have the key of one of the rows that it looks for.
  All-undelete_batch :
      (Q : R → Type κ) (before : R → R → Bool) (p : R → Bool) (same : R → R → Bool) (n : ℕ)
      (rs : List R)
      → ((r d : R) → Q r → p r ≡ true → same r d ≡ true → P d)
      → All Q rs
      → All P (delete_batch before p same n rs).0
      → All P rs
  unfolding delete_batch
  All-undelete_batch Q before p same zero rs met q h = h
  All-undelete_batch Q before p same (suc n) rs met q h =
      elim (Option-cases (first_by before p rs)) [
        | inl e ↦ rw (e, All) at h
        | inr (r, e) ↦
            All-undelete (same r) rs
              (λ d key.
                met r d (first_by-All Q before p rs r e q) (first_by-Found before p rs r e) key)
              (All-undelete_batch Q before p same n (delete_where (same r) rs) met
                (All-delete Q (same r) rs q) (rw (e, All) at h))
      ]

-- A delivery that came to its end more than a retention that is not 0 before now.
abbrev EndedBefore : (now : Time) → Duration → DeliveryRow → Type 0
EndedBefore now retention r =
    (pos 0 <ℤ retention) × (t : Time) × (r.completed_at ≡ some t) × (t <ℤ now -ℤ retention)

-- A delivery that a policy lets go.
abbrev pub IsOld : RetentionPolicy → (now : Time) → DeliveryRow → Type 0
IsOld policy now r =
    ((r.state ≡ delivered) × EndedBefore now policy.delivered_retention r)
    ⊎ (((r.state ≡ permanent_failure) ⊎ (r.state ≡ disabled) ⊎ (r.state ≡ exhausted))
        × EndedBefore now policy.failed_delivery_retention r)

due_ended :
    (retention : Duration) (now : Time) (r : DeliveryRow)
    → leb_ℤ retention (pos 0) ≡ false
    → ended_before r.completed_at (now -ℤ retention) ≡ true
    → EndedBefore now retention r
due_ended retention now r positive ended = elim (Option-cases r.completed_at) [
  | inl e ↦ absurd (ground (arith, ended, e))
  | inr (t, e) ↦ (ground (arith, positive), t, e, ground (arith, ended, e))
]

module _ {κ} (P : DeliveryRow → Type κ) (Q : DeliveryRow → Type κ) (collates : Text → Text → Bool)
    (env : Env) (now : Time) where
  deliveries_pass-back :
      (ends : DeliveryState → Bool) (retention : Duration) (batch n : ℕ) (db db' : Db)
      → deliveries_pass collates env now ends retention batch db ≡ ok (n, db')
      → ((r d : DeliveryRow)
          → Q r
          → ends r.state ≡ true
          → EndedBefore now retention r
          → env.locked r.id ≡ false
          → d.id ≡ r.id
          → P d)
      → All Q db.deliveries
      → All P db'.deliveries
      → All P db.deliveries
  unfolding deliveries_pass
  deliveries_pass-back ends retention batch n db db' h met q a =
      elim (if-eq (leb_ℤ retention (pos 0)) h) [
        | inl (_, e) ↦ subst (λ (d : Db). All P d.deliveries) (sym (same_pass e)) a
        | inr (positive, e) ↦
            let (_, _, e₁) = >>=-eq-ok (exec env delete_rows) _ e in
            All-undelete_batch P Q _ _ _ batch db.deliveries
              (λ r d held due key.
                met r d held (ground (arith, due))
                  (due_ended retention now r positive (ground (arith, due))) (ground (arith, due))
                  ((text_eq_iff d.id r.id).0 key))
              q (subst (λ (d : Db). All P d.deliveries) (sym (same_pass e₁)) a)
      ]

delivered_state : (s : DeliveryState) → is_delivered s ≡ true → s ≡ delivered
delivered_state s h = ground (arith, h)

failed_state :
    (s : DeliveryState)
    → is_failed s ≡ true
    → (s ≡ permanent_failure) ⊎ (s ≡ disabled) ⊎ (s ≡ exhausted)
failed_state s h = ground (arith, h)

-- A delivery of a database that a policy lets go at an instant and that is not locked.
abbrev pub Leaves : Env → RetentionPolicy → Db → (now : Time) → DeliveryRow → Type 0
Leaves env policy db now r = Mem r db.deliveries × IsOld policy now r × (env.locked r.id ≡ false)

remove_rows-back :
    (P : DeliveryRow → Type 0) (collates : Text → Text → Bool) (env : Env) (p : RetentionPolicy)
    (db db' : Db) (result : CleanupResult)
    → remove_rows collates env p db ≡ ok (result, db')
    → ((now : Time) (r d : DeliveryRow)
        → env.now ≡ ok now
        → Leaves env p db now r
        → d.id ≡ r.id
        → P d)
    → All P db'.deliveries
    → All P db.deliveries
unfolding remove_rows
remove_rows-back P collates env p db db' result h met a =
    let batch = pos_part p.batch_size in
    let (_, _, e₁) = >>=-eq-ok (exec env begin) _ h in
    let (now, clock, e₂) = >>=-eq-ok env.now _ e₁ in
    let (x₁, d₁, e₃) =
      >>=-eq-ok (deliveries_pass collates env now is_delivered p.delivered_retention batch db) _
        e₂ in
    let (x₂, d₂, e₄) =
      >>=-eq-ok (deliveries_pass collates env now is_failed p.failed_delivery_retention batch x₁.1)
        _ e₃ in
    let (x₃, d₃, e₅) =
      >>=-eq-ok (receipts_pass collates env now p.receipt_retention batch x₂.1) _ e₄ in
    let (x₄, d₄, e₆) =
      >>=-eq-ok (messages_pass collates env now p.orphan_message_retention batch x₃.1) _ e₅ in
    let (_, _, e₇) = >>=-eq-ok (exec env commit) _ e₆ in
    let Stored : DeliveryRow → Type 0 = λ r. Mem r db.deliveries in
    let stored = All-Mem db.deliveries in
    let stored₁ =
      deliveries_pass-keeps Stored collates env now is_delivered p.delivered_retention batch x₁.0 db
        x₁.1 d₁ stored in
    let same =
      sym (ap (λ (d : Db). d.deliveries) (same_result e₇))
      ∙ messages_pass-keeps Stored collates env now p.orphan_message_retention batch x₄.0 x₃.1 x₄.1
          d₄
      ∙ receipts_pass-keeps Stored collates env now p.receipt_retention batch x₃.0 x₂.1 x₃.1 d₃ in
    let a₂ =
      deliveries_pass-back P Stored collates env now is_failed p.failed_delivery_retention batch
        x₂.0 x₁.1 x₂.1 d₂
        (λ r d there ended old free key.
          met now r d clock (there, inr (failed_state r.state ended, old), free) key)
        stored₁ (subst (λ l. All P l) same a) in
    deliveries_pass-back P Stored collates env now is_delivered p.delivered_retention batch x₁.0 db
      x₁.1 d₁
      (λ r d there ended old free key.
        met now r d clock (there, inl (delivered_state r.state ended, old), free) key)
      stored a₂

normalize-retentions :
    (given p : RetentionPolicy)
    → normalize_retention_policy given ≡ ok p
    → (p.delivered_retention ≡ given.delivered_retention)
      × (p.failed_delivery_retention ≡ given.failed_delivery_retention)
unfolding normalize_retention_policy
normalize-retentions given p h = (ground (arith, h), ground (arith, h))

-- Where a delivery of a database may be after a cleanup: in its place, or gone.
abbrev pub StaysOrLeaves :
    Env → RetentionPolicy → Db → (after : List DeliveryRow) → DeliveryRow → Type 0
StaysOrLeaves env policy db after d =
    Mem d after
    ⊎ ((now : Time) × (r : DeliveryRow) × (env.now ≡ ok now)
        × (d.id ≡ r.id)
        × Leaves env policy db now r)

same_retentions :
    (env : Env) (given p : RetentionPolicy) (db : Db) (now : Time) (r : DeliveryRow)
    → (p.delivered_retention ≡ given.delivered_retention)
      × (p.failed_delivery_retention ≡ given.failed_delivery_retention)
    → Leaves env p db now r
    → Leaves env given db now r
same_retentions env given p db now r (delivered_same, failed_same) (there, inl (state, old), free) =
    (there, inl (state, subst (λ x. EndedBefore now x r) delivered_same old), free)
same_retentions env given p db now r (delivered_same, failed_same) (there, inr (state, old), free) =
    (there, inr (state, subst (λ x. EndedBefore now x r) failed_same old), free)

cleanup_in_tx-back :
    (collates : Text → Text → Bool) (env : Env) (policy : RetentionPolicy) (db db' : Db)
    (result : CleanupResult)
    → cleanup_in_tx collates env policy db ≡ ok (result, db')
    → All (StaysOrLeaves env policy db db'.deliveries) db.deliveries
unfolding cleanup_in_tx
cleanup_in_tx-back collates env policy db db' result h =
    let (p, normal, e) = >>=-eq-ok (normalize_retention_policy policy) _ h in
    let unchanged = All-imp _ _ (λ d there. inl there) db'.deliveries (All-Mem db'.deliveries) in
    elim (if-eq (keeps_all p) {x = ok (nothing_removed, db)} {y = remove_rows collates env p db}
      e) [
        | inl (_, same) ↦
            subst (λ (d : Db). All (StaysOrLeaves env policy db db'.deliveries) d.deliveries)
              (sym (same_result same)) unchanged
        | inr (_, removed) ↦
            remove_rows-back (StaysOrLeaves env policy db db'.deliveries) collates env p db db'
              result removed
              (λ now r d clock leaves key. inr (
                now,
                r,
                clock,
                key,
                same_retentions env policy p db now r (normalize-retentions policy p normal) leaves,
              ))
              unchanged
      ]

-- Of the deliveries that a cleanup finds, each is there afterwards as it was, unless it has the
-- identifier, which is unique in the table, of a delivery that the policy lets go: one that was
-- delivered more than the retention of delivered ones before the instant of the cleanup, or that failed
-- for good, was disabled or was exhausted more than the retention of failed ones before it, where the
-- retention is not 0, and that no other transaction held locked. And a cleanup adds no delivery and
-- changes none. Both hold whether or not it succeeds.
pub cleanup-RemovesOld :
    (collates : Text → Text → Bool) (env : Env) (policy : RetentionPolicy) (db : Db)
    → All (StaysOrLeaves env policy db (cleanup collates env policy db).0.deliveries) db.deliveries
      × All (λ d. Mem d db.deliveries) (cleanup collates env policy db).0.deliveries
unfolding cleanup
cleanup-RemovesOld collates env policy db = (
  elim (run_tx-cases db (cleanup_in_tx collates env policy db)) [
    | inl (same, _) ↦
        subst (λ (d : Db). All (StaysOrLeaves env policy db d.deliveries) db.deliveries) (sym same)
          (All-imp _ _ (λ d there. inl there) db.deliveries (All-Mem db.deliveries))
    | inr (result, db', e) ↦
        subst (λ (d : Db). All (StaysOrLeaves env policy db d.deliveries) db.deliveries)
          (sym (ap (λ (x : Db × Result CleanupResult). x.0) e))
          (cleanup_in_tx-back collates env policy db db' result (run_tx-ok db _ e))
  ],
  cleanup-All (λ d. Mem d db.deliveries) collates env policy db (All-Mem db.deliveries),
)
