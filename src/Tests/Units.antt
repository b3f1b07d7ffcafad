-- ===== src/Tests/Units.antt =====
-- Tests of retry.go, outcome.go, id.go, transport/policy.go and postgres/store.go's transitions.
use hookbound.Base.{
  runes, decode_rune, ◌≡◌, refl, ◌↔◌, ◌⊎◌, ◌≤◌, true, false, Option, none, some, List, [], ◌∷◌,
  Text, codes, trim_space, All, pos, ◌+ℤ◌, ◌-ℤ◌, parse_int, ◌<ℤ◌, arith, text_eq,
}
use hookbound.Errors.{err, coded, invalid_message, invalid_url}
use hookbound.Http.{stored, get, canonical_key}
use hookbound.Retry.{
  Time, Duration, seconds, standard_retry_policy, next, attempt_limit, scheduled_delay, after_delay,
  bounded_jitter, policy_jitter, crypto_jitter,
}
use hookbound.Retry.Laws.{IsDelay, InWindow, next-InWindow, next_total}
use hookbound.Outcome.{
  Outcome, delivered, retry, disable_destination, Response, classify, retry_after,
}
use hookbound.Outcome.Laws.{classify_table, IsBounded, longest}
use hookbound.Message.{validate_message_id, validate_event_type, event_rune}
use hookbound.Postgres.Transition.{
  Leaves, normalized_outcome, delivery_transition, delivery_transition-Leaves,
}
use hookbound.Errors.{ok}
use hookbound.Receiver.{read_bounded}
use hookbound.Retry.{max_int64}
use hookbound.Transport.{
  v6, zoned, validate_address, Addr, v4, Policy, Url, passed, refused, Reason, validate_url,
  dial_context, resolve, contains,
}
use hookbound.Transport.Laws.{
  IsDialable, Answers, IsAllowedUrl, dial_context-IsDialable, validate_url_iff,
}

-- Eight bytes of entropy.
abbrev random : Option Text
random = some (1 ∷ 2 ∷ 3 ∷ 4 ∷ 5 ∷ 6 ∷ 7 ∷ 0 ∷ [])

-- Five seconds, and half of the jitter of one second, which a failing source of entropy gives.
next_after_five : next standard_retry_policy none (pos 0) (pos 1) ≡ some (pos 5_500_000_000)
unfolding next standard_retry_policy scheduled_delay after_delay bounded_jitter policy_jitter
    crypto_jitter attempt_limit ◌+ℤ◌ ◌-ℤ◌
next_after_five = refl

fifth : scheduled_delay (standard_retry_policy.schedule) 0 ≡ some (seconds 5)
unfolding standard_retry_policy scheduled_delay
fifth = refl

limit_of_ten : (pos 1 <ℤ attempt_limit standard_retry_policy)
unfolding attempt_limit standard_retry_policy
limit_of_ten = omega arith

next-InWindow_example :
    (pos 0 <ℤ pos 1)
    × (pos 1 <ℤ attempt_limit standard_retry_policy)
    × ((delay : Duration) × (scheduled_delay standard_retry_policy.schedule 0 ≡ some delay)
        × IsDelay delay
        × InWindow (pos 0) delay (pos 5_500_000_000))
next-InWindow_example =
    next-InWindow standard_retry_policy none (pos 0) (pos 1) (pos 5_500_000_000) next_after_five

next_total_example : (t : Time) × (next standard_retry_policy random (pos 0) (pos 1) ≡ some t)
next_total_example =
    next_total standard_retry_policy random (pos 0) (pos 1) (seconds 5) (omega arith) limit_of_ten
      fifth (omega arith, omega arith)

abbrev too_many : Response
too_many = record {
  status_code = 429;
  header = (codes "Retry-After", codes "7" ∷ []) ∷ [];
  body = [];
  body_fails = false;
}

abbrev never : Text → Option Time
never value = none

classify_seven : classify never (pos 0) (pos 1000) (some too_many) ≡ (retry, pos 7_000_001_000)
unfolding classify retry_after ◌+ℤ◌ parse_int trim_space get canonical_key stored text_eq
classify_seven = refl

classify_table_example :
    let c = classify never (pos 0) (pos 1000) (some too_many) in
    IsBounded (pos 1000) (longest (pos 0)) c.1
    × ((c.0 ≡ delivered) ↔ ((200 ≤ too_many.status_code) × (too_many.status_code ≤ 299)))
    × ((c.0 ≡ disable_destination) ↔ (too_many.status_code ≡ 410))
    × ((c.0 ≡ retry) ↔ (
        (too_many.status_code ≡ 408)
        ⊎ (too_many.status_code ≡ 425)
        ⊎ (too_many.status_code ≡ 429)
        ⊎ (500 ≤ too_many.status_code)))
    × (classify never (pos 0) (pos 1000) none ≡ (retry, pos 0))
classify_table_example = classify_table never (pos 0) (pos 1000) too_many (omega arith)

spaced_message_id : validate_message_id (codes "msg_1 ") ≡ err (coded invalid_message)
unfolding validate_message_id text_eq trim_space
spaced_message_id = refl

spaced_event_type : validate_event_type (codes "a b") ≡ err (coded invalid_message)
unfolding validate_event_type runes decode_rune event_rune
spaced_event_type = refl

delivery_transition-Leaves_example :
    Leaves standard_retry_policy none
      (pos 0)
      1
      (pos 9)
      (normalized_outcome Outcome.unset (some (coded invalid_url)))
      (delivery_transition standard_retry_policy none
        (pos 0)
        1
        Outcome.unset
        (pos 9)
        (some (coded invalid_url)))
delivery_transition-Leaves_example =
    delivery_transition-Leaves standard_retry_policy none (pos 0) 1 Outcome.unset (pos 9)
      (some (coded invalid_url))

abbrev policy : Policy
policy = record {
  allow_plain_http = false;
  allow_any_port = false;
  allowed_ports = [];
  allowed_cidrs = [];
}

-- A name that resolves to a public address and to a loopback address.
abbrev rebinding : Text → Option (List Addr)
rebinding host = some (v4 134_744_072 ∷ v4 2_130_706_433 ∷ [])

dial_refused :
    dial_context (λ t. none) rebinding (λ a. true) policy (codes "evil")
    ≡ ([], refused Reason.unsafe_destination)
unfolding dial_context contains
dial_refused = refl

dial_context-IsDialable_example :
    All (IsDialable []) (dial_context (λ t. none) rebinding (λ a. true) policy (codes "evil")).0
    × Answers
        (IsDialable [])
        (λ a. true)
        (dial_context (λ t. none) rebinding (λ a. true) policy (codes "evil")).1
    × (((dial_context (λ t. none) rebinding (λ a. true) policy (codes "evil")).0 ≡ [])
        ⊎ ((l : List Addr) × (resolve (λ t. none) rebinding (codes "evil") ≡ passed l)
            × All (IsDialable []) l))
dial_context-IsDialable_example =
    dial_context-IsDialable (λ t. none) rebinding (λ a. true) policy (codes "evil")

abbrev url : Url
url = record {
  scheme = codes "https";
  host = codes "a.example:8443";
  hostname = codes "a.example";
  port = codes "8443";
  has_user = false;
  fragment = [];
}

validate_url_iff_example :
    (validate_url (λ t. some url) (codes "https://a.example:8443") policy ≡ passed url)
    ↔ ((some url ≡ some url) × IsAllowedUrl policy url)
validate_url_iff_example =
    validate_url_iff (λ t. some url) (codes "https://a.example:8443") policy url

-- ::%lo, where :: is refused.
zone_escapes :
    (validate_address (zoned (codes "lo") 0) [] ≡ true) × (validate_address (v6 0) [] ≡ false)
unfolding validate_address contains
zone_escapes = (refl, refl)

-- The limit math.MaxInt64.
reads_nothing :
    read_bounded (some (record { bytes = codes "a"; fails = false })) (pos max_int64) ≡ ok []
unfolding read_bounded
reads_nothing = refl
