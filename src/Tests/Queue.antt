-- ===== src/Tests/Queue.antt =====
-- Tests of postgres/store.go's enqueue and of postgres/cleanup.go.
use hookbound.Base.{
  ◌≡◌, refl, text_eq, trim_space, contains_byte, contains_line_break, none, some, [], ◌∷◌, codes,
  pos, All, ◌-ℤ◌,
}
use hookbound.Errors.{Result, ok}
use hookbound.Message.{
  SendRequest, validate_headers, validate_request, validate_message_id, validate_event_type,
  event_rune,
}
use hookbound.Postgres.Tables.{Db, select, delivered, first_by, delete_where}
use hookbound.Postgres.Enqueue.{
  Publication, Ids, enqueue, publication_key_hash, contains_sensitive_headers, put_message,
}
use hookbound.Postgres.Enqueue.Steps.{AddsDelivery, enqueue-AddsDelivery}
use hookbound.Postgres.Cleanup.{RetentionPolicy, cleanup}
use mathlib.Core.List.{Mem}
use hookbound.Postgres.Cleanup.Removes.{StaysOrLeaves, cleanup-RemovesOld}
use hookbound.Tests.Store.{at, queue, store, hash, collates}

abbrev order : SendRequest
order = record {
  id = codes "m9";
  url = codes "https://a.example";
  event_type = codes "paid";
  body = codes "{}";
  content_type = [];
  headers = [];
  auth = none;
}

abbrev ids : Ids
ids = record { message_id = ok (codes "m8"); delivery_id = ok (codes "d9") }

abbrev enqueued : Db × Result Publication
enqueued = enqueue hash store (at (pos 10)) ids (λ db. db) order [] queue

abbrev publication : Publication
publication = record { message_id = codes "m9"; delivery_id = codes "d9" }

publishes : enqueued ≡ (enqueued.0, ok publication)
unfolding enqueue validate_request validate_message_id text_eq trim_space contains_byte
    validate_event_type event_rune select publication_key_hash contains_sensitive_headers
    put_message contains_line_break validate_headers
publishes = refl

enqueue-AddsDelivery_example :
    AddsDelivery (at (pos 10)) (ok (codes "d9")) none order queue.deliveries publication enqueued.0
enqueue-AddsDelivery_example =
    enqueue-AddsDelivery hash store (at (pos 10)) ids (λ db. db) order [] queue enqueued.0
      publication publishes

abbrev retention : RetentionPolicy
retention = record {
  delivered_retention = pos 5;
  failed_delivery_retention = pos 5;
  receipt_retention = pos 5;
  orphan_message_retention = pos 5;
  batch_size = pos 0;
}

-- A queue with a delivery that was delivered at 20 as well.
abbrev aged : Db
aged = record queue {
  deliveries =
      record {
        id = codes "d0";
        message_id = codes "m";
        destination_url = codes "https://a.example";
        headers = [];
        idempotency_key_hash = none;
        state = delivered;
        attempt_count = 1;
        next_attempt_at = pos 10;
        lease_expires_at = none;
        last_status_code = some 200;
        last_error_code = none;
        created_at = pos 5;
        updated_at = pos 20;
        completed_at = some (pos 20);
      }
      ∷ queue.deliveries;
}

removes : (cleanup collates (at (pos 90)) retention aged).0.deliveries ≡ queue.deliveries
unfolding cleanup first_by ◌-ℤ◌ delete_where text_eq
removes = refl

cleanup-RemovesOld_example :
    All
      (StaysOrLeaves
        (at (pos 90))
        retention
        aged
        (cleanup collates (at (pos 90)) retention aged).0.deliveries)
      aged.deliveries
    × All (λ d. Mem d aged.deliveries) (cleanup collates (at (pos 90)) retention aged).0.deliveries
cleanup-RemovesOld_example = cleanup-RemovesOld collates (at (pos 90)) retention aged
