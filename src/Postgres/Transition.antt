-- ===== src/Postgres/Transition.antt =====
-- postgres/store.go: what the outcome of an attempt makes of a delivery and of a receipt.
use hookbound.Base.{
  ℕ, ◌≡◌, ◌≢◌, refl, ◌⊎◌, inl, inr, Bool, true, false, not, ◌&&◌, Option, none, some, Text,
  if◌then◌else◌, pos, negsuc, ltb_ℤ, ◌<ℤ◌, ◌≤ℤ◌, arith, Option-cases,
}
use hookbound.Errors.{
  Code, invalid_configuration, invalid_message, invalid_url, unsafe_destination, unknown_event,
  decode_failed, Error, error_code,
}
use hookbound.Retry.{is_zero_time, Time, RetryPolicy, next, attempt_limit}
use hookbound.Retry.Laws.{next-InWindow}
use hookbound.Outcome.{Outcome, unset}
use hookbound.Postgres.Tables.{
  DeliveryState, delivered, permanent_failure, disabled, ReceiptState, processed, failed,
  is_terminal,
}

-- The codes of `sendErr` that make a permanent failure.
abbrev rejects_destination : Code → Bool
rejects_destination invalid_message = true
rejects_destination invalid_url = true
rejects_destination unsafe_destination = true
rejects_destination invalid_configuration = true
rejects_destination _ = false

-- normalizedOutcome
unfoldable pub normalized_outcome : Outcome → (send_err : Option Error) → Outcome
normalized_outcome unset none = Outcome.retry
normalized_outcome unset (some e) =
    if rejects_destination (error_code e) then Outcome.permanent_failure else Outcome.retry
normalized_outcome outcome send_err = outcome

-- The instant of a retry: the policy's, or a later one that the destination asked for.
unfoldable pub later_retry : (retry_at policy_next : Time) → Time
later_retry retry_at policy_next =
    if not (is_zero_time retry_at) && ltb_ℤ policy_next retry_at then retry_at else policy_next

-- The switch of deliveryTransition.
unfoldable pub transition_of :
    RetryPolicy
    → (random : Option Text) → Time
    → (attempt : ℕ) → (retry_at : Time) → Outcome
    → DeliveryState × Option Time
transition_of policy random now attempt retry_at Outcome.delivered = (delivered, none)
transition_of policy random now attempt retry_at Outcome.disable_destination = (disabled, none)
transition_of policy random now attempt retry_at Outcome.permanent_failure =
    (permanent_failure, none)
transition_of policy random now attempt retry_at _ = elim (next policy random now (pos attempt)) [
  | none ↦ (DeliveryState.exhausted, none)
  | some policy_next ↦ (DeliveryState.retry, some (later_retry retry_at policy_next))
]

-- deliveryTransition
unfoldable pub delivery_transition :
    RetryPolicy
    → (random : Option Text) → Time
    → (attempt : ℕ) → (outcome : Outcome) → (retry_at : Time) → (send_err : Option Error)
    → DeliveryState × Option Time
delivery_transition policy random now attempt outcome retry_at send_err =
    transition_of policy random now attempt retry_at (normalized_outcome outcome send_err)

-- The codes of a handler's error that fail a receipt for good.
abbrev rejects_message : Code → Bool
rejects_message invalid_configuration = true
rejects_message invalid_message = true
rejects_message decode_failed = true
rejects_message unknown_event = true
rejects_message _ = false

-- receiptTransition
unfoldable pub receipt_transition :
    RetryPolicy
    → (random : Option Text) → Time
    → (attempt : ℕ) → (handler_err : Option Error) → ReceiptState × Option Time
receipt_transition policy random now attempt none = (processed, none)
receipt_transition policy random now attempt (some e) =
    if rejects_message (error_code e)
    then (failed, none)
    else elim (next policy random now (pos attempt)) [
      | none ↦ (ReceiptState.exhausted, none)
      | some t ↦ (ReceiptState.retry, some t)
    ]

later_retry_bounds :
    (retry_at policy_next : Time)
    → (policy_next ≤ℤ later_retry retry_at policy_next)
      × ((retry_at ≡ pos 0) ⊎ (retry_at ≤ℤ later_retry retry_at policy_next))
unfolding later_retry
later_retry_bounds (pos n) policy_next = ground arith
later_retry_bounds (negsuc n) policy_next = ground arith

-- The two ways in which an attempt leaves its delivery.
abbrev pub Leaves :
    RetryPolicy → Option Text → Time → ℕ → Time → Outcome → DeliveryState × Option Time → Type 0
Leaves policy random now attempt retry_at outcome t =
    ((t.0 ≡ DeliveryState.retry)
      × (outcome ≡ Outcome.retry)
      × ((policy_next at : Time) × (next policy random now (pos attempt) ≡ some policy_next)
          × (t.1 ≡ some at)
          × (policy_next ≤ℤ at)
          × ((retry_at ≡ pos 0) ⊎ (retry_at ≤ℤ at))
          × (pos attempt <ℤ attempt_limit policy)))
    ⊎ ((is_terminal t.0 ≡ true)
        × (t.1 ≡ none)
        × ((outcome ≢ Outcome.retry) ⊎ (next policy random now (pos attempt) ≡ none)))

transition_of-Leaves :
    (policy : RetryPolicy) (random : Option Text) (now : Time) (attempt : ℕ) (retry_at : Time)
    (outcome : Outcome)
    → outcome ≢ unset
    → Leaves policy random now attempt retry_at outcome
        (transition_of policy random now attempt retry_at outcome)
unfolding transition_of
transition_of-Leaves policy random now attempt retry_at Outcome.delivered n =
    inr (refl, refl, inl (λ e. cc))
transition_of-Leaves policy random now attempt retry_at Outcome.disable_destination n =
    inr (refl, refl, inl (λ e. cc))
transition_of-Leaves policy random now attempt retry_at Outcome.permanent_failure n =
    inr (refl, refl, inl (λ e. cc))
transition_of-Leaves policy random now attempt retry_at Outcome.retry n =
    elim (Option-cases (next policy random now (pos attempt))) [
      | inl e ↦ rw (e, transition_of) (inr (refl, refl, inr refl))
      | inr (t, e) ↦
          let (_, limit, _) = next-InWindow policy random now (pos attempt) t e in
          let (low, asked) = later_retry_bounds retry_at t in
          rw (e, transition_of)
            (inl (refl, refl, (t, later_retry retry_at t, refl, refl, low, asked, limit)))
    ]
transition_of-Leaves policy random now attempt retry_at unset n = absurd (n refl)

normalized_outcome_set :
    (outcome : Outcome) (send_err : Option Error) → normalized_outcome outcome send_err ≢ unset
unfolding normalized_outcome
normalized_outcome_set unset none = λ e. ground arith
normalized_outcome_set unset (some e) = λ h. ground arith
normalized_outcome_set _ send_err = λ e. ground arith

-- An attempt leaves its delivery up for retry exactly if its outcome, with a missing one read from
-- the error, is retry and the policy grants an attempt after it; otherwise the delivery ends in a
-- terminal state with no next attempt. The retry comes no earlier than the policy's instant, nor
-- than the instant that the destination asked for, if it asked for one; and no attempt at or past the
-- policy's limit is retried.
pub delivery_transition-Leaves :
    (policy : RetryPolicy) (random : Option Text) (now : Time) (attempt : ℕ) (outcome : Outcome)
    (retry_at : Time) (send_err : Option Error)
    → Leaves policy random now attempt retry_at
        (normalized_outcome outcome send_err)
        (delivery_transition policy random now attempt outcome retry_at send_err)
unfolding delivery_transition
delivery_transition-Leaves policy random now attempt outcome retry_at send_err =
    transition_of-Leaves policy random now attempt retry_at (normalized_outcome outcome send_err)
      (normalized_outcome_set outcome send_err)
