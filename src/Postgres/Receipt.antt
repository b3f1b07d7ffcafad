-- ===== src/Postgres/Receipt.antt =====
-- postgres/store.go: Handle (the durable inbox), ClaimReceipt, RenewReceiptLease and
-- CompleteReceipt.
pub mod Inbox
use hookbound.Base.{
  ℕ, zero, suc, ◌+◌, ◌≡◌, Bool, true, false, not, ◌&&◌, ◌||◌, Option, none, some, List, [], ◌∷◌,
  Text, text_eq, ltb, leb, ◌==◌, if◌then◌else◌, map, ℤ, pos, ◌+ℤ◌, ltb_ℤ, leb_ℤ,
}
use hookbound.Errors.{
  invalid_configuration, conflict, Result, ok, err, Error, coded, error_code, ◌>>=◌, ◌>>◌,
  reject_if,
}
use hookbound.Http.{Header}
use hookbound.Retry.{Time, Duration, RetryPolicy}
use hookbound.Message.{VerifiedMessage, validate_message}
use hookbound.Postgres.Tables.{
  ReceiptState, pending, processing, processed, failed, exhausted, ReceiptRow, Db, Stage, begin,
  select_rows, insert_receipt, update_receipt, commit, decode_json, Env, exec, run_tx, update,
  count, select, first_by, lease_over, lease_runs,
}
use hookbound.Postgres.Transition.{receipt_transition}
use hookbound.Postgres.Delivery.{Store, effective_lease, renewed_until}
use hookbound.Postgres.Delivery.Completion.{redacted_headers, stored_error, or_else}
use hookbound.Postgres.Canonical.{json_text, json_headers}

-- ClaimedReceipt
pub record ClaimedReceipt : Type 0 where
  pub message : VerifiedMessage
  pub attempt : ℕ
  pub started_at : Time

abbrev pub json_metadata : List (Text × Text) → List (Text × Text)
json_metadata metadata = map (λ e. (json_text 0 e.0, json_text 0 e.1)) metadata

-- WHERE source = $1 AND message_id = $2.
unfoldable pub is_receipt : (source message_id : Text) → ReceiptRow → Bool
is_receipt source message_id r = text_eq r.source source && text_eq r.message_id message_id

abbrev pub new_receipt : Store → VerifiedMessage → Time → ReceiptRow
new_receipt store m now = record {
  source = m.source;
  message_id = m.id;
  event_type = m.event_type;
  event_timestamp = m.timestamp;
  body = m.body;
  content_type = m.content_type;
  headers = json_headers (redacted_headers m.headers store.sensitive_header_names);
  metadata = json_metadata m.metadata;
  state = pending;
  attempt_count = 0;
  next_attempt_at = now;
  lease_expires_at = none;
  last_error_code = none;
  received_at = now;
  processed_at = none;
  updated_at = now;
}

abbrev pub same_content : VerifiedMessage → ReceiptRow → Bool
same_content m r =
    text_eq r.event_type m.event_type
    && (text_eq r.content_type m.content_type && text_eq r.body m.body)

-- Store.Handle: INSERT … ON CONFLICT (source, message_id) DO NOTHING, and the comparison with a
-- receipt that is there already.
unfoldable pub handle : Store → Env → VerifiedMessage → Db → Db × Result (Unit {0})
unfolding is_receipt
handle store env m db = run_tx db do
  validate_message m
  now ← env.now
  exec env insert_receipt
  elim (select (is_receipt m.source m.id) db.receipts) [
    | none ↦ ok (tt, record db { receipts = new_receipt store m now ∷ db.receipts })
    | some r ↦ exec env select_rows >> (reject_if (not (same_content m r)) conflict >> ok (tt, db))
  ]

abbrev pub awaits : ReceiptState → Bool
awaits pending = true
awaits ReceiptState.retry = true
awaits _ = false

abbrev pub is_processing : ReceiptState → Bool
is_processing processing = true
is_processing _ = false

-- The WHERE clause of the claim.
unfoldable pub receipt_due : Time → ReceiptRow → Bool
receipt_due now r =
    awaits r.state && leb_ℤ r.next_attempt_at now
    || is_processing r.state && lease_over r.lease_expires_at now

-- ORDER BY next_attempt_at, received_at: whether `a` comes strictly before `b`.
unfoldable pub receipt_before : ReceiptRow → ReceiptRow → Bool
receipt_before a b =
    ltb_ℤ a.next_attempt_at b.next_attempt_at
    || leb_ℤ a.next_attempt_at b.next_attempt_at && ltb_ℤ a.received_at b.received_at

unfoldable pub receipt_candidate : Env → Time → ReceiptRow → Bool
unfolding receipt_due
receipt_candidate env now r = receipt_due now r && not (env.locked_receipt r.source r.message_id)

abbrev pub claimed_receipt : ReceiptRow → Time → ClaimedReceipt
claimed_receipt r now = record {
  message = record {
    id = r.message_id;
    event_type = r.event_type;
    source = r.source;
    timestamp = r.event_timestamp;
    body = r.body;
    content_type = r.content_type;
    headers = r.headers;
    metadata = r.metadata;
  };
  attempt = suc r.attempt_count;
  started_at = now;
}

-- Store.ClaimReceipt; `none` is `nil, nil`, nothing due.
unfoldable pub claim_receipt : Env → Duration → Db → Db × Result (Option ClaimedReceipt)
unfolding receipt_candidate is_receipt
claim_receipt env lease db = run_tx db do
  exec env begin
  now ← env.now
  exec env select_rows
  elim (first_by receipt_before (receipt_candidate env now) db.receipts) [
    | none ↦ ok (none, db)
    | some r ↦
        exec env decode_json
        >> (exec env update_receipt
            >> (exec env commit
                >> ok (
                  some (claimed_receipt r now),
                  record db {
                    receipts =
                        update (is_receipt r.source r.message_id)
                          (λ s. record s {
                            state = processing;
                            attempt_count = suc r.attempt_count;
                            lease_expires_at = some (now +ℤ effective_lease lease);
                            updated_at = now;
                          })
                          db.receipts;
                  },
                )))
  ]

-- The WHERE clause of the completion, and with a running lease of the renewal.
unfoldable pub own_receipt : ClaimedReceipt → ReceiptRow → Bool
unfolding is_receipt
own_receipt c r =
    is_receipt c.message.source c.message.id r
    && is_processing r.state
    && r.attempt_count == c.attempt

unfoldable pub running_receipt : ClaimedReceipt → Time → ReceiptRow → Bool
unfolding own_receipt
running_receipt c now r = own_receipt c r && lease_runs r.lease_expires_at now

-- Store.RenewReceiptLease of a non-nil claim.
unfoldable pub renew_receipt_lease :
    Store → Env → ClaimedReceipt → Duration → Db → Db × Result (Unit {0})
unfolding renewed_until running_receipt
renew_receipt_lease store env c lease db = run_tx db do
  reject_if (leb_ℤ lease (pos 0)) invalid_configuration
  now ← env.now
  exec env update_receipt
  let owned = running_receipt c now
  reject_if (not (count owned db.receipts == 1)) conflict
  ok (
    tt,
    record db {
      receipts =
          update owned
            (λ r. record r {
              lease_expires_at = some (renewed_until store now lease);
              updated_at = now;
            })
            db.receipts;
    },
  )

abbrev pub is_settled : ReceiptState → Bool
is_settled processed = true
is_settled failed = true
is_settled exhausted = true
is_settled _ = false

abbrev pub settled :
    Time
    → (state : ReceiptState) → (next_attempt : Option Time) → (handler_err : Option Error)
    → ReceiptRow
    → ReceiptRow
settled now state next_attempt handler_err r = record r {
  state = state;
  next_attempt_at = or_else next_attempt r.next_attempt_at;
  lease_expires_at = none;
  last_error_code = stored_error none handler_err;
  processed_at = if is_settled state then some now else none;
  updated_at = now;
}

-- Store.CompleteReceipt of a non-nil claim.
unfoldable pub complete_receipt :
    Store
    → Env
    → (random : Option Text) → ClaimedReceipt
    → (handler_err : Option Error) → RetryPolicy
    → Db
    → Db × Result (Unit {0})
unfolding own_receipt
complete_receipt store env random c handler_err policy db = run_tx db do
  now ← env.now
  let next = receipt_transition policy random now c.attempt handler_err
  exec env update_receipt
  reject_if (not (count (own_receipt c) db.receipts == 1)) conflict
  ok (
    tt,
    record db {
      receipts = update (own_receipt c) (settled now next.0 next.1 handler_err) db.receipts;
    },
  )
