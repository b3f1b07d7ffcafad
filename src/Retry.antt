-- ===== src/Retry.antt =====
-- retry.go: the automatic retry schedule. Durations and instants are nanoseconds; an instant counts
-- from Go's zero time, so `pos 0` is `time.Time{}`.
pub mod Laws
use hookbound.Base.{
  ℕ, zero, suc, ◌+◌, ◌-◌, ◌*◌, ◌/◌, ◌%◌, ◌≡◌, refl, Bool, ◌||◌, Option, none, some, List, [], ◌∷◌,
  length, ℤ, pos, negsuc, pos_part, ◌+ℤ◌, ◌-ℤ◌, ltb_ℤ, leb_ℤ, Text, if◌then◌else◌, ◌==◌, false,
}

abbrev pub Time : Type 0
Time = ℤ

-- time.Time.IsZero
abbrev pub is_zero_time : Time → Bool
is_zero_time (pos n) = n == 0
is_zero_time (negsuc n) = false

abbrev pub Duration : Type 0
Duration = ℤ

abbrev pub seconds : ℕ → Duration
seconds n = pos (n * 1_000_000_000)

-- math.MaxInt64
abbrev pub max_int64 : ℕ
max_int64 = 9_223_372_036_854_775_807

-- A Jitter's answer to `Duration(max)`; nothing is assumed of it.
abbrev pub Jitter : Type 0
Jitter = Duration → Duration

pub record RetryPolicy : Type 0 where
  pub schedule : List Duration
  pub max_attempts : ℤ
  pub jitter : Option Jitter

-- binary.LittleEndian.Uint64
little_endian : Text → ℕ
little_endian [] = 0
little_endian (b ∷ bs) = b + 256 * little_endian bs

-- CryptoJitter.Duration; `random` holds the eight bytes that `rand.Read` gives, or its failure.
unfoldable pub crypto_jitter : (random : Option Text) → Jitter
unfolding little_endian
crypto_jitter random max = if leb_ℤ max (pos 0) then pos 0 else elim random [
  | none ↦ pos (pos_part max / 2)
  | some bytes ↦ pos (little_endian bytes % (pos_part max + 1))
]

unfoldable pub standard_retry_policy : RetryPolicy
standard_retry_policy = record {
  schedule =
      seconds 5
      ∷ seconds 300
      ∷ seconds 1800
      ∷ seconds 7200
      ∷ seconds 18000
      ∷ seconds 36000
      ∷ seconds 50400
      ∷ seconds 72000
      ∷ seconds 86400
      ∷ [];
  max_attempts = pos 10;
  jitter = none;
}

-- `maximum`: the policy's limit, or one more than the schedule is long.
unfoldable pub attempt_limit : RetryPolicy → ℤ
attempt_limit p =
    if leb_ℤ p.max_attempts (pos 0) then pos (length p.schedule + 1) else p.max_attempts

-- `Schedule[index]`, where an index past the end means the last entry; `none` is the empty schedule.
unfoldable pub scheduled_delay : List Duration → (index : ℕ) → Option Duration
scheduled_delay [] index = none
scheduled_delay (d ∷ []) index = some d
scheduled_delay (d ∷ e ∷ ds) zero = some d
scheduled_delay (d ∷ e ∷ ds) (suc index) = scheduled_delay (e ∷ ds) index

unfoldable pub policy_jitter : RetryPolicy → (random : Option Text) → Jitter
policy_jitter p random = elim p.jitter [ none ↦ crypto_jitter random | some j ↦ j ]

-- The jitter held within [0, max].
unfoldable pub bounded_jitter : Jitter → Duration → Duration
bounded_jitter jitter max =
    let answer = jitter max in
    if ltb_ℤ answer (pos 0) then pos 0 else if ltb_ℤ max answer then max else answer

-- The tests on one delay, and the instant that it gives.
unfoldable pub after_delay : Jitter → Time → Duration → Option Time
after_delay jitter now delay =
    if ltb_ℤ delay (pos 0) || ltb_ℤ (pos (max_int64 / 2)) delay
    then none
    else let jitter_delay = bounded_jitter jitter (pos (pos_part delay / 5)) in
      if ltb_ℤ (pos max_int64 -ℤ jitter_delay) delay
      then none
      else some (now +ℤ (delay +ℤ jitter_delay))

-- RetryPolicy.Next
unfoldable pub next : RetryPolicy → (random : Option Text) → Time → (attempt : ℤ) → Option Time
unfolding attempt_limit
next p random now attempt =
    if leb_ℤ attempt (pos 0)
    then none
    else if leb_ℤ (attempt_limit p) attempt
    then none
    else elim (scheduled_delay p.schedule (pos_part attempt - 1)) [
      | none ↦ none
      | some delay ↦ after_delay (policy_jitter p random) now delay
    ]
