-- ===== src/Tests/Store.antt =====
-- Tests of postgres/store.go.
use hookbound.Base.{
  ℕ, ◌≡◌, refl, Bool, true, false, none, some, [], ◌∷◌, Text, codes, text_eq, trim_space,
  contains_byte, pos, ◌+ℤ◌,
}
use hookbound.Errors.{ok, is_ok}
use hookbound.Retry.{Time, standard_retry_policy}
use hookbound.Outcome.{Outcome, AttemptResult}
use hookbound.Message.{
  VerifiedMessage, validate_message, validate_message_id, validate_event_type, event_rune,
}
use hookbound.Postgres.Tables.{pending, Db, Env, update, select, count, first_by}
use hookbound.Postgres.Delivery.{Store, ClaimedDelivery, claim_delivery, renew_delivery_lease}
use hookbound.Postgres.Delivery.Completion.{complete_delivery}
use hookbound.Postgres.Delivery.Claims.{claim_delivery-IsNext, IsNext}
use hookbound.Postgres.Receipt.{handle}
use hookbound.Postgres.Receipt.Inbox.{handle_branches, handle_idempotent, HandleEnd}
use hookbound.Postgres.System.{start}
use hookbound.Postgres.System.Fencing.{Refused, superseded_claim, completed_once}

abbrev pub at : Time → Env
at now = record {
  fails = λ s. false;
  now = ok now;
  locked = λ id. false;
  locked_receipt = λ source id. false;
  locked_message = λ id. false;
}

abbrev pub store : Store
store = record { db_clock = false; max_response_body_bytes = pos 100; sensitive_header_names = [] }

-- One message with one delivery that is due at 10.
abbrev pub queue : Db
queue = record {
  messages =
      record {
        id = codes "m";
        event_type = codes "paid";
        body = codes "{}";
        content_type = codes "json";
        created_at = pos 1;
      }
      ∷ [];
  deliveries =
      record {
        id = codes "d";
        message_id = codes "m";
        destination_url = codes "u";
        headers = [];
        idempotency_key_hash = none;
        state = pending;
        attempt_count = 0;
        next_attempt_at = pos 10;
        lease_expires_at = none;
        last_status_code = none;
        last_error_code = none;
        created_at = pos 1;
        updated_at = pos 1;
        completed_at = none;
      }
      ∷ [];
  attempts = [];
  receipts = [];
}

abbrev claim : (attempt_id : Text) → (attempt : ℕ) → Time → ClaimedDelivery
claim attempt_id attempt now = record {
  delivery_id = codes "d";
  attempt_id = attempt_id;
  attempt = attempt;
  message_id = codes "m";
  destination = codes "u";
  event_type = codes "paid";
  body = codes "{}";
  content_type = codes "json";
  headers = [];
  started_at = now;
}

abbrev c₁ : ClaimedDelivery
c₁ = claim (codes "a1") 1 (pos 10)

abbrev c₂ : ClaimedDelivery
c₂ = claim (codes "a2") 2 (pos 40)

abbrev leased : Db
leased = (claim_delivery (at (pos 10)) (ok (codes "a1")) (pos 20) queue).0

abbrev leased_again : Db
leased_again = (claim_delivery (at (pos 40)) (ok (codes "a2")) (pos 20) leased).0

abbrev delivered : AttemptResult
delivered = record {
  message_id = codes "m";
  outcome = Outcome.delivered;
  attempted_at = pos 11;
  status_code = 200;
  duration = pos 3;
  retry_at = pos 0;
  response_header = [];
  response_body = [];
  error_code = none;
}

abbrev completed_db : Db
completed_db =
    (complete_delivery store (at (pos 15)) none c₁ delivered none standard_retry_policy leased).0

first_claim : claim_delivery (at (pos 10)) (ok (codes "a1")) (pos 20) queue ≡ (leased, ok (some c₁))
unfolding claim_delivery first_by select text_eq
first_claim = refl

-- The lease of the first claim has run out at 30.
second_claim :
    claim_delivery (at (pos 40)) (ok (codes "a2")) (pos 20) leased ≡ (leased_again, ok (some c₂))
unfolding claim_delivery first_by select text_eq update ◌+ℤ◌
second_claim = refl

completion :
    complete_delivery store (at (pos 15)) none c₁ delivered none standard_retry_policy leased
    ≡ (completed_db, ok tt)
unfolding claim_delivery complete_delivery count first_by select text_eq update
completion = refl

abbrev pub hash : Text → Text
hash t = t

abbrev pub collates : Text → Text → Bool
collates a b = false

superseded_claim_example :
    Refused leased_again (
      complete_delivery store
        (at (pos 50))
        none
        c₁
        delivered
        none
        standard_retry_policy
        leased_again)
    × Refused leased_again (renew_delivery_lease store (at (pos 50)) c₁ (pos 5) leased_again)
superseded_claim_example =
    superseded_claim hash collates (at (pos 10)) (at (pos 40)) (at (pos 50)) (ok (codes "a1"))
      (ok (codes "a2")) (pos 20) (pos 20) (pos 5) c₁ c₂ queue leased leased leased_again
      leased_again store none delivered none standard_retry_policy first_claim start second_claim
      refl start

completed_once_example :
    Refused completed_db (
      complete_delivery store
        (at (pos 50))
        none
        c₁
        delivered
        none
        standard_retry_policy
        completed_db)
    × Refused completed_db (renew_delivery_lease store (at (pos 50)) c₁ (pos 5) completed_db)
completed_once_example =
    completed_once hash collates (at (pos 10)) (at (pos 15)) (at (pos 50)) (ok (codes "a1"))
      (pos 20) (pos 5) c₁ queue leased leased completed_db completed_db store none none delivered
      delivered none none standard_retry_policy standard_retry_policy first_claim start completion
      start

claim_delivery-IsNext_example : IsNext (at (pos 10)) (ok (codes "a1")) (pos 20) queue leased c₁
claim_delivery-IsNext_example =
    claim_delivery-IsNext (at (pos 10)) (ok (codes "a1")) (pos 20) queue leased c₁ first_claim

abbrev message : VerifiedMessage
message = record {
  id = codes "m1";
  event_type = codes "paid";
  source = codes "shop";
  timestamp = pos 100;
  body = codes "{}";
  content_type = [];
  headers = [];
  metadata = [];
}

valid : validate_message message ≡ ok tt
unfolding validate_message validate_message_id text_eq trim_space contains_byte validate_event_type
    event_rune
valid = refl

handle_branches_example :
    HandleEnd store (at (pos 10)) message queue (handle store (at (pos 10)) message queue)
handle_branches_example = handle_branches store (at (pos 10)) message queue

taken : is_ok (handle store (at (pos 10)) message queue).1 ≡ true
unfolding handle validate_message validate_message_id text_eq trim_space contains_byte
    validate_event_type event_rune select
taken = refl

handle_idempotent_example :
    handle store (at (pos 20)) message (handle store (at (pos 10)) message queue).0
    ≡ ((handle store (at (pos 10)) message queue).0, ok tt)
handle_idempotent_example =
    handle_idempotent store (at (pos 10)) (at (pos 20)) message queue (pos 10) (pos 20) valid refl
      refl (λ s. refl) (λ s. refl) taken
