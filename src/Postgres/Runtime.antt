-- ===== src/Postgres/Runtime.antt =====
-- postgres/runtime.go: the durable workers. A worker's step runs the operations of the store in the
-- order of the code; what other processes commit in between is a parameter, and so are the answers
-- of the sender and of the handler, which may panic.
pub mod Laws
pub mod Periods
use hookbound.Base.{
  ℕ, ◌+◌, ◌*◌, ◌/◌, Bool, true, false, not, ◌&&◌, ◌||◌, Option, none, some, List, [], ◌∷◌, Text,
  if◌then◌else◌, length, ◌==◌, ℤ, pos, negsuc, pos_part, ◌-ℤ◌, ltb_ℤ, leb_ℤ,
}
use hookbound.Errors.{
  Error, Result, ok, err, coded, ◌>>=◌, ◌>>◌, reject_if, invalid_configuration, persistence_failed,
  internal, handler_failed,
}
use hookbound.Retry.{Duration, RetryPolicy, seconds, standard_retry_policy}
use hookbound.Message.{SendRequest, VerifiedMessage}
use hookbound.Outcome.{AttemptResult}
use hookbound.Sender.{started}
use hookbound.Postgres.Tables.{Db, Env}
use hookbound.Postgres.Delivery.{Store, ClaimedDelivery, claim_delivery, renew_delivery_lease}
use hookbound.Postgres.Delivery.Completion.{complete_delivery}
use hookbound.Postgres.Receipt.{
  ClaimedReceipt, claim_receipt, renew_receipt_lease, complete_receipt,
}

-- A call of code that may panic.
pub data Call {ℓ} (A : Type ℓ) : Type ℓ where
  returned : (value : A) → Call A
  panicked : Call A

abbrev pub Send : Type 0
Send = SendRequest → Call (AttemptResult × Option Error)

abbrev pub Handler : Type 0
Handler = VerifiedMessage → Call (Option Error)

-- RuntimeConfig, less its logger; a nil store, sender or handler is `none`.
pub record RuntimeConfig : Type 0 where
  pub store : Option Store
  pub sender : Option Send
  pub inbound_handler : Option Handler
  pub retry_policy : RetryPolicy
  pub lease_duration : Duration
  pub lease_renewal_interval : Duration
  pub lease_renewal_timeout : Duration
  pub poll_interval : Duration
  pub completion_timeout : Duration
  pub outbound_workers : ℤ
  pub inbound_workers : ℤ

-- Runtime
pub record Runtime : Type 0 where
  pub store : Store
  pub sender : Option Send
  pub inbound : Option Handler
  pub retry : RetryPolicy
  pub lease : Duration
  pub renewal : Duration
  pub renewal_timeout : Duration
  pub poll : Duration
  pub completion : Duration
  pub outbound_count : ℤ
  pub inbound_count : ℤ

unfoldable pub is_nil {ℓ} : {A : Type ℓ} → Option A → Bool
is_nil none = true
is_nil (some a) = false

unfoldable pub is_zero : ℤ → Bool
is_zero (pos n) = n == 0
is_zero (negsuc n) = false

unfoldable pub or_positive : Duration → (default : Duration) → Duration
or_positive d default = if leb_ℤ d (pos 0) then default else d

-- minDuration
unfoldable pub min_duration : Duration → Duration → Duration
min_duration left right = if ltb_ℤ left right then left else right

-- The renewal interval, by default a third of the lease, which is positive here.
unfoldable pub renewal_interval : RuntimeConfig → (lease : Duration) → Duration
unfolding is_zero
renewal_interval config lease =
    if is_zero config.lease_renewal_interval
    then pos (pos_part lease / 3)
    else config.lease_renewal_interval

unfoldable pub renewal_timeout_of : RuntimeConfig → (renewal : Duration) → Duration
unfolding is_zero min_duration
renewal_timeout_of config renewal =
    if is_zero config.lease_renewal_timeout
    then min_duration (seconds 5) renewal
    else config.lease_renewal_timeout

unfoldable pub worker_count : (given : ℤ) → (idle : Bool) → ℤ
unfolding is_zero
worker_count given idle = if is_zero given && not idle then pos 4 else given

unfoldable pub some_store : Option Store → Result Store
some_store none = err (coded invalid_configuration)
some_store (some store) = ok store

policy_or_standard : RetryPolicy → RetryPolicy
unfolding is_zero
policy_or_standard p =
    if is_zero p.max_attempts && length p.schedule == 0 then standard_retry_policy else p

-- NewRuntime
unfoldable pub new_runtime : RuntimeConfig → Result Runtime
unfolding is_nil or_positive renewal_interval renewal_timeout_of worker_count some_store
    policy_or_standard is_zero
new_runtime config = do
  store ← some_store config.store
  reject_if (is_nil config.sender && not (is_zero config.outbound_workers)) invalid_configuration
  reject_if (is_nil config.inbound_handler && not (is_zero config.inbound_workers))
      invalid_configuration
  let lease = or_positive config.lease_duration (seconds 60)
  reject_if
      (ltb_ℤ config.lease_renewal_interval (pos 0) || ltb_ℤ config.lease_renewal_timeout (pos 0))
      invalid_configuration
  let renewal = renewal_interval config lease
  reject_if (leb_ℤ renewal (pos 0) || leb_ℤ lease renewal) invalid_configuration
  let timeout = renewal_timeout_of config renewal
  reject_if (leb_ℤ (lease -ℤ renewal) timeout) invalid_configuration
  reject_if (ltb_ℤ config.outbound_workers (pos 0) || ltb_ℤ config.inbound_workers (pos 0))
      invalid_configuration
  ok (record {
    store = store;
    sender = config.sender;
    inbound = config.inbound_handler;
    retry = policy_or_standard config.retry_policy;
    lease = lease;
    renewal = renewal;
    renewal_timeout = timeout;
    poll = or_positive config.poll_interval (pos 250_000_000);
    completion = or_positive config.completion_timeout (seconds 10);
    outbound_count = worker_count config.outbound_workers (is_nil config.sender);
    inbound_count = worker_count config.inbound_workers (is_nil config.inbound_handler);
  })

-- sendSafely: a panic leaves an empty result with an error code.
unfoldable pub send_safely : Send → SendRequest → AttemptResult × Option Error
send_safely send request = elim (send request) [
  | returned answer ↦ answer
  | panicked ↦ (record (started [] (pos 0)) { error_code = some internal }, some (coded internal))
]

-- handleSafely
unfoldable pub handle_safely : Handler → VerifiedMessage → Option Error
handle_safely handler message = elim (handler message) [
  | returned error ↦ error
  | panicked ↦ some (coded handler_failed)
]

-- One tick of the heartbeat: what others have committed before it, the renewal's environment, and
-- whether the worker's context has ended by the time the renewal has failed.
pub record Beat : Type 0 where
  pub others : Db → Db
  pub env : Env
  pub ended : Bool

-- One renewal: it goes on, or it ends the heartbeat, with an error unless the work has ended.
unfoldable pub after_beat :
    (ended : Bool) → (go_on : Db → Db × Option Error) → Db × Result (Unit {0}) → Db × Option Error
after_beat ended go_on (db, ok done) = go_on db
after_beat ended go_on (db, err e) = (db, if ended then none else some (coded persistence_failed))

-- leaseHeartbeat.run until Stop, and the error that Stop answers with.
unfoldable pub heartbeat :
    (renew : Env → Db → Db × Result (Unit {0})) → List Beat → Db → Db × Option Error
unfolding after_beat
heartbeat renew [] db = (db, none)
heartbeat renew (beat ∷ beats) db =
    after_beat beat.ended (heartbeat renew beats) (renew beat.env (beat.others db))

-- What surrounds one step of a worker.
pub record Round : Type 0 where
  pub claim_env : Env
  pub new_id : Result Text
  pub beats : List Beat
  pub others : Db → Db
  pub complete_env : Env
  pub random : Option Text

-- Whether there was work, and the error.
abbrev pub Worked : Type 0
Worked = Db × Bool × Option Error

unfoldable pub error_of : Db × Result (Unit {0}) → Worked
error_of (db, ok done) = (db, true, none)
error_of (db, err e) = (db, true, some e)

abbrev pub request_of : ClaimedDelivery → SendRequest
request_of c = record {
  id = c.message_id;
  url = c.destination;
  event_type = c.event_type;
  body = c.body;
  content_type = c.content_type;
  headers = c.headers;
  auth = none;
}

-- WorkOutboundOnce from the heartbeat's end on: a lost lease is not completed.
unfoldable pub finish_outbound :
    Runtime → Round → ClaimedDelivery → AttemptResult × Option Error → Db × Option Error → Worked
unfolding error_of
finish_outbound rt round c answer (db, some e) = (db, true, some e)
finish_outbound rt round c answer (db, none) = error_of (
    complete_delivery rt.store round.complete_env round.random c answer.0 answer.1 rt.retry
      (round.others db))

-- What WorkOutboundOnce makes of the claim.
unfoldable pub work_claimed : Runtime → Send → Round → Db × Result (Option ClaimedDelivery) → Worked
unfolding finish_outbound heartbeat send_safely
work_claimed rt send round (db, err e) = (db, false, some e)
work_claimed rt send round (db, ok none) = (db, false, none)
work_claimed rt send round (db, ok (some c)) =
    finish_outbound rt round c (send_safely send (request_of c))
      (heartbeat (λ env. renew_delivery_lease rt.store env c rt.lease) round.beats db)

unfoldable pub work_sender : Runtime → Option Send → Round → Db → Worked
unfolding work_claimed
work_sender rt none round db = (db, false, some (coded invalid_configuration))
work_sender rt (some send) round db =
    work_claimed rt send round (claim_delivery round.claim_env round.new_id rt.lease db)

-- Runtime.WorkOutboundOnce
unfoldable pub work_outbound_once : Runtime → Round → Db → Worked
unfolding work_sender
work_outbound_once rt round db = work_sender rt rt.sender round db

unfoldable pub finish_inbound :
    Runtime → Round → ClaimedReceipt → (handler_err : Option Error) → Db × Option Error → Worked
unfolding error_of
finish_inbound rt round c handler_err (db, some e) = (db, true, some e)
finish_inbound rt round c handler_err (db, none) = error_of (
    complete_receipt rt.store round.complete_env round.random c handler_err rt.retry
      (round.others db))

unfoldable pub handle_claimed :
    Runtime → Handler → Round → Db × Result (Option ClaimedReceipt) → Worked
unfolding finish_inbound heartbeat handle_safely
handle_claimed rt handler round (db, err e) = (db, false, some e)
handle_claimed rt handler round (db, ok none) = (db, false, none)
handle_claimed rt handler round (db, ok (some c)) =
    finish_inbound rt round c (handle_safely handler c.message)
      (heartbeat (λ env. renew_receipt_lease rt.store env c rt.lease) round.beats db)

unfoldable pub work_handler : Runtime → Option Handler → Round → Db → Worked
unfolding handle_claimed
work_handler rt none round db = (db, false, none)
work_handler rt (some handler) round db =
    handle_claimed rt handler round (claim_receipt round.claim_env rt.lease db)

-- Runtime.WorkInboundOnce
unfoldable pub work_inbound_once : Runtime → Round → Db → Worked
unfolding work_handler
work_inbound_once rt round db = work_handler rt rt.inbound round db

-- runWorkSafely: of a step that panics, no work is reported.
unfoldable pub run_work_safely : Call (Bool × Option Error) → Bool × Option Error
run_work_safely (returned answer) = answer
run_work_safely panicked = (false, some (coded internal))

-- The delay before the next round of runLoop.
unfoldable pub next_delay : Runtime → Bool × Option Error → Duration
unfolding is_nil
next_delay rt (worked, error) = if not worked || not (is_nil error) then rt.poll else pos 0
