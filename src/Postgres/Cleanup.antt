-- ===== src/Postgres/Cleanup.antt =====
-- postgres/cleanup.go: the retention pass, with RetentionPolicy and CleanupResult of
-- postgres/models.go.
pub mod Removes
use hookbound.Base.{
  ℕ, zero, suc, ◌+◌, Bool, true, false, not, ◌&&◌, ◌||◌, Option, none, some, List, Text, text_eq,
  if◌then◌else◌, any, ℤ, pos, pos_part, ◌-ℤ◌, ltb_ℤ, leb_ℤ,
}
use hookbound.Errors.{invalid_configuration, Result, ok, ◌>>=◌, ◌>>◌, reject_if}
use hookbound.Retry.{Time, Duration}
use hookbound.Postgres.Tables.{
  DeliveryState, delivered, permanent_failure, disabled, exhausted, MessageRow, DeliveryRow,
  AttemptRow, ReceiptRow, Db, begin, delete_rows, commit, Env, exec, run_tx, count, first_by,
  delete_where,
}
use hookbound.Postgres.Receipt.{is_receipt, is_settled}

-- RetentionPolicy
pub record RetentionPolicy : Type 0 where
  pub delivered_retention : Duration
  pub failed_delivery_retention : Duration
  pub receipt_retention : Duration
  pub orphan_message_retention : Duration
  pub batch_size : ℤ

-- CleanupResult
pub record CleanupResult : Type 0 where
  pub delivered_deliveries : ℕ
  pub failed_deliveries : ℕ
  pub receipts : ℕ
  pub orphan_messages : ℕ

-- CleanupResult.Total
unfoldable pub total : CleanupResult → ℕ
total r = r.delivered_deliveries + r.failed_deliveries + r.receipts + r.orphan_messages

abbrev pub default_cleanup_batch_size : ℤ
default_cleanup_batch_size = pos 1000

abbrev pub maximum_cleanup_batch_size : ℤ
maximum_cleanup_batch_size = pos 10000

abbrev negative : ℤ → Bool
negative n = ltb_ℤ n (pos 0)

-- normalizeRetentionPolicy
unfoldable pub normalize_retention_policy : RetentionPolicy → Result RetentionPolicy
normalize_retention_policy p = do
  reject_if
      (negative p.delivered_retention
        || (negative p.failed_delivery_retention
            || (negative p.receipt_retention || negative p.orphan_message_retention)))
      invalid_configuration
  reject_if (negative p.batch_size || ltb_ℤ maximum_cleanup_batch_size p.batch_size)
      invalid_configuration
  ok (
      if leb_ℤ p.batch_size (pos 0)
      then record p { batch_size = default_cleanup_batch_size }
      else p)

-- `t < $1` and the order of two instants, over nullable columns.
abbrev pub ended_before : Option Time → Time → Bool
ended_before none cutoff = false
ended_before (some t) cutoff = ltb_ℤ t cutoff

module _ {ℓ} {R : Type ℓ} where
  -- DELETE of the first n rows of an order that meet a condition, found again by their key: the rows
  -- left, and the number removed.
  unfoldable pub delete_batch :
      (before : R → R → Bool) → (p : R → Bool) → (same : R → R → Bool) → ℕ → List R → List R × ℕ
  delete_batch before p same zero rows = (rows, 0)
  delete_batch before p same (suc n) rows = elim (first_by before p rows) [
    | none ↦ (rows, 0)
    | some r ↦
        let rest = delete_batch before p same n (delete_where (same r) rows) in
        (rest.0, count (same r) rows + rest.1)
  ]

-- The states that the two passes over deliveries remove.
abbrev pub is_delivered : DeliveryState → Bool
is_delivered delivered = true
is_delivered _ = false

abbrev pub is_failed : DeliveryState → Bool
is_failed permanent_failure = true
is_failed disabled = true
is_failed exhausted = true
is_failed _ = false

-- `collates a b` is whether the database's collation puts the text a before b.
-- ORDER BY completed_at, id.
abbrev pub ended_order :
    (collates : Text → Text → Bool) → Option Time → Text → Option Time → Text → Bool
ended_order collates (some t) x (some u) y = ltb_ℤ t u || leb_ℤ t u && collates x y
ended_order collates _ x _ y = false

abbrev pub delivery_order : (collates : Text → Text → Bool) → DeliveryRow → DeliveryRow → Bool
delivery_order collates a b = ended_order collates a.completed_at a.id b.completed_at b.id

-- ON DELETE CASCADE: the attempts of the deliveries that went.
unfoldable pub cascade : (was now : List DeliveryRow) → List AttemptRow → List AttemptRow
cascade was now attempts =
    delete_where
      (λ a.
        any (λ d. text_eq d.id a.delivery_id) was
        && not (any (λ d. text_eq d.id a.delivery_id) now))
      attempts

-- A pass over the deliveries that end in some states.
unfoldable pub deliveries_pass :
    (collates : Text → Text → Bool)
    → Env
    → Time
    → (ends : DeliveryState → Bool) → Duration
    → ℕ
    → Db
    → Result (ℕ × Db)
unfolding delete_batch cascade
deliveries_pass collates env now ends retention batch db =
    if leb_ℤ retention (pos 0)
    then ok (0, db)
    else exec env delete_rows
      >> (let due : DeliveryRow → Bool = λ d.
            ends d.state
            && ended_before d.completed_at (now -ℤ retention)
            && not (env.locked d.id) in
          let left =
            delete_batch (delivery_order collates) due (λ r d. text_eq d.id r.id) batch
              db.deliveries in
          ok (
            left.1,
            record db { deliveries = left.0; attempts = cascade db.deliveries left.0 db.attempts },
          ))

-- ORDER BY processed_at, source, message_id.
abbrev pub receipt_order : (collates : Text → Text → Bool) → ReceiptRow → ReceiptRow → Bool
receipt_order collates a b =
    ended_order (λ x y. collates x y || text_eq x y && collates a.message_id b.message_id)
      a.processed_at a.source b.processed_at b.source

unfoldable pub receipts_pass :
    (collates : Text → Text → Bool) → Env → Time → Duration → ℕ → Db → Result (ℕ × Db)
unfolding delete_batch
receipts_pass collates env now retention batch db =
    if leb_ℤ retention (pos 0)
    then ok (0, db)
    else exec env delete_rows
      >> (let due : ReceiptRow → Bool = λ r.
            is_settled r.state
            && ended_before r.processed_at (now -ℤ retention)
            && not (env.locked_receipt r.source r.message_id) in
          let left =
            delete_batch (receipt_order collates) due (λ r. is_receipt r.source r.message_id) batch
              db.receipts in
          ok (left.1, record db { receipts = left.0 }))

-- ORDER BY m.created_at, m.id.
abbrev pub message_order : (collates : Text → Text → Bool) → MessageRow → MessageRow → Bool
message_order collates a b =
    ltb_ℤ a.created_at b.created_at || leb_ℤ a.created_at b.created_at && collates a.id b.id

-- Whether a message has a delivery.
unfoldable pub is_referenced : List DeliveryRow → MessageRow → Bool
is_referenced deliveries m = any (λ (d : DeliveryRow). text_eq d.message_id m.id) deliveries

unfoldable pub messages_pass :
    (collates : Text → Text → Bool) → Env → Time → Duration → ℕ → Db → Result (ℕ × Db)
unfolding delete_batch is_referenced
messages_pass collates env now retention batch db =
    if leb_ℤ retention (pos 0)
    then ok (0, db)
    else exec env delete_rows
      >> (let due : MessageRow → Bool = λ m.
            ltb_ℤ m.created_at (now -ℤ retention)
            && not (is_referenced db.deliveries m)
            && not (env.locked_message m.id) in
          let left =
            delete_batch (message_order collates) due (λ r m. text_eq m.id r.id) batch
              db.messages in
          ok (left.1, record db { messages = left.0 }))

abbrev disabled_pass : Duration → Bool
disabled_pass d = leb_ℤ d (pos 0)

-- A policy whose retentions are all zero.
abbrev pub keeps_all : RetentionPolicy → Bool
keeps_all p =
    disabled_pass p.delivered_retention
    && (disabled_pass p.failed_delivery_retention
        && (disabled_pass p.receipt_retention && disabled_pass p.orphan_message_retention))

abbrev pub nothing_removed : CleanupResult
nothing_removed = record {
  delivered_deliveries = 0;
  failed_deliveries = 0;
  receipts = 0;
  orphan_messages = 0;
}

-- The four passes, in their order.
unfoldable pub remove_rows :
    (collates : Text → Text → Bool) → Env → RetentionPolicy → Db → Result (CleanupResult × Db)
unfolding deliveries_pass receipts_pass messages_pass
remove_rows collates env p db = do
  exec env begin
  now ← env.now
  let batch = pos_part p.batch_size
  removed ← deliveries_pass collates env now is_delivered p.delivered_retention batch db
  lost ← deliveries_pass collates env now is_failed p.failed_delivery_retention batch removed.1
  taken ← receipts_pass collates env now p.receipt_retention batch lost.1
  orphans ← messages_pass collates env now p.orphan_message_retention batch taken.1
  exec env commit
  ok (
    record {
      delivered_deliveries = removed.0;
      failed_deliveries = lost.0;
      receipts = taken.0;
      orphan_messages = orphans.0;
    },
    orphans.1,
  )

unfoldable pub cleanup_in_tx :
    (collates : Text → Text → Bool) → Env → RetentionPolicy → Db → Result (CleanupResult × Db)
unfolding normalize_retention_policy remove_rows
cleanup_in_tx collates env p₀ db = do
  p ← normalize_retention_policy p₀
  if keeps_all p then ok (nothing_removed, db) else remove_rows collates env p db

-- Store.Cleanup
unfoldable pub cleanup :
    (collates : Text → Text → Bool) → Env → RetentionPolicy → Db → Db × Result CleanupResult
unfolding cleanup_in_tx
cleanup collates env p₀ db = run_tx db (cleanup_in_tx collates env p₀ db)
