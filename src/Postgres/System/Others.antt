-- ===== src/Postgres/System/Others.antt =====
-- postgres/: the operations that leave the deliveries alone, and the cleanup, that only removes some.
use hookbound.Base.{
  ℕ, suc, zero, ◌≡◌, sym, ap, ◌∙◌, Bool, Option, List, All, arith, inl, inr, Option-cases, Text,
  leb_ℤ, pos, pos_part, subst, if-eq,
}
use hookbound.Errors.{Result, ok, Error, >>=-eq-ok}
use hookbound.Retry.{Time, Duration, RetryPolicy}
use hookbound.Message.{VerifiedMessage}
use hookbound.Postgres.Tables.{
  Db, DeliveryState, DeliveryRow, Env, exec, first_by, select, delete_where, delete_rows, begin,
  commit,
}
use hookbound.Postgres.Rows.{All-delete, run_tx-keeps, run_tx-ok}
use hookbound.Postgres.Delivery.{Store}
use hookbound.Postgres.Receipt.{
  ClaimedReceipt, handle, claim_receipt, renew_receipt_lease, complete_receipt, is_receipt,
}
use hookbound.Postgres.Cleanup.{
  RetentionPolicy, CleanupResult, cleanup, cleanup_in_tx, keeps_all, nothing_removed, remove_rows,
  is_delivered, is_failed, delete_batch, deliveries_pass, receipts_pass, messages_pass,
  normalize_retention_policy,
}

pub handle-deliveries :
    (store : Store) (env : Env) (m : VerifiedMessage) (db : Db)
    → (handle store env m db).0.deliveries ≡ db.deliveries
unfolding handle
handle-deliveries store env m db =
    elim (Option-cases (select (is_receipt m.source m.id) db.receipts)) [
      | inl e ↦ ground (arith, e)
      | inr (r, e) ↦ ground (arith, e)
    ]

pub claim_receipt-deliveries :
    (env : Env) (lease : Duration) (db : Db)
    → (claim_receipt env lease db).0.deliveries ≡ db.deliveries
unfolding claim_receipt
claim_receipt-deliveries env lease db = ground arith

pub renew_receipt_lease-deliveries :
    (store : Store) (env : Env) (c : ClaimedReceipt) (lease : Duration) (db : Db)
    → (renew_receipt_lease store env c lease db).0.deliveries ≡ db.deliveries
unfolding renew_receipt_lease
renew_receipt_lease-deliveries store env c lease db = ground arith

pub complete_receipt-deliveries :
    (store : Store) (env : Env) (random : Option Text) (c : ClaimedReceipt)
    (handler_err : Option Error) (policy : RetryPolicy) (db : Db)
    → (complete_receipt store env random c handler_err policy db).0.deliveries ≡ db.deliveries
unfolding complete_receipt
complete_receipt-deliveries store env random c handler_err policy db = ground arith

module _ {ℓ κ} {R : Type ℓ} (P : R → Type κ) where
  pub All-delete_batch :
      (before : R → R → Bool) (p : R → Bool) (same : R → R → Bool) (n : ℕ) (rs : List R)
      → All P rs
      → All P (delete_batch before p same n rs).0
  unfolding delete_batch
  All-delete_batch before p same zero rs h = h
  All-delete_batch before p same (suc n) rs h = elim (Option-cases (first_by before p rs)) [
    | inl e ↦ rw (e, All) h
    | inr (r, e) ↦
        rw (e, All)
          (All-delete_batch before p same n (delete_where (same r) rs) (All-delete P (same r) rs h))
  ]

pub same_pass :
    {n n' : ℕ} {db db' : Db} → ◌≡◌ {A = Result (ℕ × Db)} (ok (n, db)) (ok (n', db')) → db ≡ db'
same_pass h = cc

pub same_result :
    {r r' : CleanupResult} {db db' : Db}
    → ◌≡◌ {A = Result (CleanupResult × Db)} (ok (r, db)) (ok (r', db'))
    → db ≡ db'
same_result h = cc

module _ {κ} (P : DeliveryRow → Type κ) (collates : Text → Text → Bool) (env : Env)
    (now : Time) where
  pub deliveries_pass-keeps :
      (ends : DeliveryState → Bool) (retention : Duration) (batch n : ℕ) (db db' : Db)
      → deliveries_pass collates env now ends retention batch db ≡ ok (n, db')
      → All P db.deliveries
      → All P db'.deliveries
  unfolding deliveries_pass
  deliveries_pass-keeps ends retention batch n db db' h a =
      elim (if-eq (leb_ℤ retention (pos 0)) h) [
        | inl (_, e) ↦ subst (λ (d : Db). All P d.deliveries) (same_pass e) a
        | inr (_, e) ↦
            let (_, _, e₁) = >>=-eq-ok (exec env delete_rows) _ e in
            subst (λ (d : Db). All P d.deliveries) (same_pass e₁)
              (All-delete_batch P _ _ _ batch db.deliveries a)
      ]

  pub receipts_pass-keeps :
      (retention : Duration) (batch n : ℕ) (db db' : Db)
      → receipts_pass collates env now retention batch db ≡ ok (n, db')
      → db'.deliveries ≡ db.deliveries
  unfolding receipts_pass
  receipts_pass-keeps retention batch n db db' h = ground (arith, h)

  pub messages_pass-keeps :
      (retention : Duration) (batch n : ℕ) (db db' : Db)
      → messages_pass collates env now retention batch db ≡ ok (n, db')
      → db'.deliveries ≡ db.deliveries
  unfolding messages_pass
  messages_pass-keeps retention batch n db db' h = ground (arith, h)

remove_rows-keeps {κ} :
    (P : DeliveryRow → Type κ) (collates : Text → Text → Bool) (env : Env) (p : RetentionPolicy)
    (db db' : Db) (result : CleanupResult)
    → remove_rows collates env p db ≡ ok (result, db')
    → All P db.deliveries
    → All P db'.deliveries
unfolding remove_rows
remove_rows-keeps P collates env p db db' result h a =
    let batch = pos_part p.batch_size in
    let (_, _, e₁) = >>=-eq-ok (exec env begin) _ h in
    let (now, _, e₂) = >>=-eq-ok env.now _ e₁ in
    let (x₁, d₁, e₃) =
      >>=-eq-ok (deliveries_pass collates env now is_delivered p.delivered_retention batch db) _
        e₂ in
    let (x₂, d₂, e₄) =
      >>=-eq-ok (deliveries_pass collates env now is_failed p.failed_delivery_retention batch x₁.1)
        _ e₃ in
    let (x₃, d₃, e₅) =
      >>=-eq-ok (receipts_pass collates env now p.receipt_retention batch x₂.1) _ e₄ in
    let (x₄, d₄, e₆) =
      >>=-eq-ok (messages_pass collates env now p.orphan_message_retention batch x₃.1) _ e₅ in
    let (_, _, e₇) = >>=-eq-ok (exec env commit) _ e₆ in
    let a₁ =
      deliveries_pass-keeps P collates env now is_delivered p.delivered_retention batch x₁.0 db x₁.1
        d₁ a in
    let a₂ =
      deliveries_pass-keeps P collates env now is_failed p.failed_delivery_retention batch x₂.0 x₁.1
        x₂.1 d₂ a₁ in
    let same =
      sym (ap (λ (d : Db). d.deliveries) (same_result e₇))
      ∙ messages_pass-keeps P collates env now p.orphan_message_retention batch x₄.0 x₃.1 x₄.1 d₄
      ∙ receipts_pass-keeps P collates env now p.receipt_retention batch x₃.0 x₂.1 x₃.1 d₃ in
    subst (λ l. All P l) (sym same) a₂

-- What holds of every delivery before a cleanup holds of every delivery after it: a cleanup only
-- removes deliveries, and neither adds nor changes one.
pub cleanup-All {κ} :
    (P : DeliveryRow → Type κ) (collates : Text → Text → Bool) (env : Env)
    (policy : RetentionPolicy) (db : Db)
    → All P db.deliveries
    → All P (cleanup collates env policy db).0.deliveries
unfolding cleanup
cleanup-All P collates env policy db a =
    run_tx-keeps (λ d. All P d.deliveries) db (cleanup_in_tx collates env policy db) a
      (λ result db' h.
        let (p, _, e) = >>=-eq-ok (normalize_retention_policy policy) _ (run_tx-ok db _ h) in
        elim (if-eq (keeps_all p) {x = ok (nothing_removed, db)} {y = remove_rows collates env p db}
          e) [
            | inl (_, same) ↦ subst (λ (d : Db). All P d.deliveries) (same_result same) a
            | inr (_, removed) ↦ remove_rows-keeps P collates env p db db' result removed a
          ])
