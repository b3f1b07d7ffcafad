-- ===== src/Postgres/System.antt =====
-- postgres/: runs of the store, in which any number of publishers, workers, inboxes and cleaners
-- share a database. Each constructor is one committed or failed operation.
pub mod Others
pub mod Ownership
pub mod Fencing
use hookbound.Base.{Bool, ◌≢◌, Option, Text}
use hookbound.Errors.{Result, Error, ok}
use hookbound.Retry.{Duration, RetryPolicy}
use hookbound.Outcome.{AttemptResult}
use hookbound.Message.{SendRequest, VerifiedMessage}
use hookbound.Postgres.Tables.{Db, Env}
use hookbound.Postgres.Delivery.{Store, ClaimedDelivery, claim_delivery, renew_delivery_lease}
use hookbound.Postgres.Delivery.Completion.{complete_delivery}
use hookbound.Postgres.Enqueue.{Ids, enqueue}
use hookbound.Postgres.Receipt.{
  ClaimedReceipt, handle, claim_receipt, renew_receipt_lease, complete_receipt,
}
use hookbound.Postgres.Cleanup.{RetentionPolicy, cleanup}

module _ (sha256 : Text → Text) (collates : Text → Text → Bool) where
  -- The databases that operations reach from one, none of which draws the delivery identifier `id`
  -- anew. What commits in the middle of an enqueue is a run of its own.
  pub data Reach (id : Text) : Db → Db → Type 0 where
    start : {db : Db} → Reach id db db
    enqueues :
        {db₀ db : Db} (store : Store) (env : Env) (ids : Ids) (others : Db → Db)
        (request : SendRequest) (key : Text)
        → ids.delivery_id ≢ ok id
        → Reach id db₀ (others db)
        → Reach id db₀ (enqueue sha256 store env ids others request key db).0
    claims :
        {db₀ db : Db} (env : Env) (new_id : Result Text) (lease : Duration)
        → Reach id db₀ db
        → Reach id db₀ (claim_delivery env new_id lease db).0
    renews :
        {db₀ db : Db} (store : Store) (env : Env) (c : ClaimedDelivery) (lease : Duration)
        → Reach id db₀ db
        → Reach id db₀ (renew_delivery_lease store env c lease db).0
    completes :
        {db₀ db : Db} (store : Store) (env : Env) (random : Option Text) (c : ClaimedDelivery)
        (result : AttemptResult) (send_err : Option Error) (policy : RetryPolicy)
        → Reach id db₀ db
        → Reach id db₀ (complete_delivery store env random c result send_err policy db).0
    handles :
        {db₀ db : Db} (store : Store) (env : Env) (m : VerifiedMessage)
        → Reach id db₀ db
        → Reach id db₀ (handle store env m db).0
    claims_receipt :
        {db₀ db : Db} (env : Env) (lease : Duration)
        → Reach id db₀ db
        → Reach id db₀ (claim_receipt env lease db).0
    renews_receipt :
        {db₀ db : Db} (store : Store) (env : Env) (c : ClaimedReceipt) (lease : Duration)
        → Reach id db₀ db
        → Reach id db₀ (renew_receipt_lease store env c lease db).0
    completes_receipt :
        {db₀ db : Db} (store : Store) (env : Env) (random : Option Text) (c : ClaimedReceipt)
        (handler_err : Option Error) (policy : RetryPolicy)
        → Reach id db₀ db
        → Reach id db₀ (complete_receipt store env random c handler_err policy db).0
    cleans :
        {db₀ db : Db} (env : Env) (policy : RetentionPolicy)
        → Reach id db₀ db
        → Reach id db₀ (cleanup collates env policy db).0
