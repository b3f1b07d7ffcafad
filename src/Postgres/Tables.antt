-- ===== src/Postgres/Tables.antt =====
-- postgres/models.go and postgres/migrations/: the tables, and the SQL that the store's queries use.
use hookbound.Base.{
  ℕ, suc, Bool, true, false, Option, none, some, List, [], ◌∷◌, Text, if◌then◌else◌, ltb_ℤ, leb_ℤ,
}
use hookbound.Errors.{Code, persistence_failed, Result, ok, err, reject_if}
use hookbound.Http.{Header}
use hookbound.Retry.{Time, Duration}
use hookbound.Outcome.{Outcome}

-- DeliveryState
pub data DeliveryState : Type 0 where
  pending in_flight retry delivered permanent_failure disabled exhausted : DeliveryState

-- ReceiptState
pub data ReceiptState : Type 0 where
  pending processing retry processed failed exhausted : ReceiptState

-- hookbound_messages
pub record MessageRow : Type 0 where
  pub id : Text
  pub event_type : Text
  pub body : Text
  pub content_type : Text
  pub created_at : Time

-- hookbound_deliveries
pub record DeliveryRow : Type 0 where
  pub id : Text
  pub message_id : Text
  pub destination_url : Text
  pub headers : Header
  pub idempotency_key_hash : Option Text
  pub state : DeliveryState
  pub attempt_count : ℕ
  pub next_attempt_at : Time
  pub lease_expires_at : Option Time
  pub last_status_code : Option ℕ
  pub last_error_code : Option Code
  pub created_at : Time
  pub updated_at : Time
  pub completed_at : Option Time

-- The error codes of hookbound_attempts: those of the library, and 'lease_expired'.
pub data AttemptError : Type 0 where
  lease_expired : AttemptError
  code : Code → AttemptError

-- hookbound_attempts
pub record AttemptRow : Type 0 where
  pub id : Text
  pub delivery_id : Text
  pub attempt_number : ℕ
  pub started_at : Time
  pub finished_at : Option Time
  pub outcome : Option Outcome
  pub status_code : Option ℕ
  pub duration : Option Duration
  pub error_code : Option AttemptError
  pub response_headers : Option Header
  pub response_body : Option Text
  pub next_attempt_at : Option Time

-- hookbound_receipts
pub record ReceiptRow : Type 0 where
  pub source : Text
  pub message_id : Text
  pub event_type : Text
  pub event_timestamp : Time
  pub body : Text
  pub content_type : Text
  pub headers : Header
  pub metadata : List (Text × Text)
  pub state : ReceiptState
  pub attempt_count : ℕ
  pub next_attempt_at : Time
  pub lease_expires_at : Option Time
  pub last_error_code : Option Code
  pub received_at : Time
  pub processed_at : Option Time
  pub updated_at : Time

pub record Db : Type 0 where
  pub messages : List MessageRow
  pub deliveries : List DeliveryRow
  pub attempts : List AttemptRow
  pub receipts : List ReceiptRow

-- The steps of an operation at which the database, its driver or the entropy may fail.
pub data Stage : Type 0 where
  begin select_rows update_attempt update_delivery insert_message insert_delivery : Stage
  insert_attempt insert_receipt update_receipt delete_rows commit decode_json : Stage

-- What an operation meets: which stages fail, the clock (or its failure), and which deliveries,
-- receipts and messages other transactions hold locked.
pub record Env : Type 0 where
  pub fails : Stage → Bool
  pub now : Result Time
  pub locked : Text → Bool
  pub locked_receipt : (source message_id : Text) → Bool
  pub locked_message : Text → Bool

abbrev pub exec : Env → Stage → Result (Unit {0})
exec env stage = reject_if (env.fails stage) persistence_failed

-- `defer tx.Rollback()`: a transaction that fails changes nothing.
abbrev pub run_tx {ℓ} : {A : Type ℓ} → Db → Result (A × Db) → Db × Result A
run_tx db (ok (a, db')) = (db', ok a)
run_tx db (err e) = (db, err e)

module _ {ℓ} {R : Type ℓ} where
  -- UPDATE … SET f WHERE p.
  unfoldable pub update : (p : R → Bool) → (f : R → R) → List R → List R
  update p f [] = []
  update p f (r ∷ rs) = (if p r then f r else r) ∷ update p f rs

  -- The number of rows that a WHERE clause meets.
  unfoldable pub count : (R → Bool) → List R → ℕ
  count p [] = 0
  count p (r ∷ rs) = let rest = count p rs in if p r then suc rest else rest

  -- SELECT … WHERE p, of at most one row.
  unfoldable pub select : (R → Bool) → List R → Option R
  select p [] = none
  select p (r ∷ rs) = let rest = select p rs in if p r then some r else rest

  -- SELECT … WHERE p ORDER BY … LIMIT 1: `before a b` is whether a sorts strictly before b, and of equal rows the
  -- first of the table is taken.
  unfoldable pub first_by : (before : R → R → Bool) → (p : R → Bool) → List R → Option R
  first_by before p [] = none
  first_by before p (r ∷ rs) =
      let rest = first_by before p rs in
      if p r
      then elim rest [ none ↦ some r | some s ↦ if before s r then some s else some r ]
      else rest

  -- DELETE … WHERE p.
  unfoldable pub delete_where : (R → Bool) → List R → List R
  delete_where p [] = []
  delete_where p (r ∷ rs) = let rest = delete_where p rs in if p r then rest else r ∷ rest

-- `t <= now` and `t > now` over a nullable column.
abbrev pub lease_over : Option Time → Time → Bool
lease_over none now = false
lease_over (some t) now = leb_ℤ t now

abbrev pub lease_runs : Option Time → Time → Bool
lease_runs none now = false
lease_runs (some t) now = ltb_ℤ now t

abbrev pub unfinished : AttemptRow → Bool
unfinished a = elim a.finished_at [ none ↦ true | some t ↦ false ]

abbrev pub is_in_flight : DeliveryState → Bool
is_in_flight in_flight = true
is_in_flight _ = false

-- DeliveryDelivered, DeliveryPermanentFailure, DeliveryDisabled, DeliveryExhausted.
abbrev pub is_terminal : DeliveryState → Bool
is_terminal delivered = true
is_terminal permanent_failure = true
is_terminal disabled = true
is_terminal exhausted = true
is_terminal _ = false
