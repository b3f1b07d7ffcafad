-- ===== src/Retry/Laws.antt =====
-- When RetryPolicy.Next allows another attempt, and when that attempt falls due.
use hookbound.Base.{
  ◌-◌, ◌/◌, ◌≡◌, inl, inr, Option, some, ℤ, pos, pos_part, ◌+ℤ◌, ◌≤ℤ◌, ◌<ℤ◌, Text, arith, +ℤ_parts,
  -ℤ_parts, Option-cases,
}
use hookbound.Retry.{
  Time, Duration, Jitter, RetryPolicy, max_int64, next, attempt_limit, scheduled_delay,
  policy_jitter, after_delay, bounded_jitter,
}

bounded_jitter_range :
    (j : Jitter) (max : Duration)
    → pos 0 ≤ℤ max
    → (pos 0 ≤ℤ bounded_jitter j max) × (bounded_jitter j max ≤ℤ max)
unfolding bounded_jitter
bounded_jitter_range j max h = ground arith

-- A delay that the code accepts, and the window in which the next attempt falls.
abbrev pub IsDelay : Duration → Type 0
IsDelay delay = (pos 0 ≤ℤ delay) × (delay ≤ℤ pos (max_int64 / 2))

abbrev pub InWindow : Time → Duration → Time → Type 0
InWindow now delay t = (now +ℤ delay ≤ℤ t) × (t ≤ℤ now +ℤ (delay +ℤ pos (pos_part delay / 5)))

-- The parts of the numbers that `after_delay` computes.
jitter_facts :
    (j : Jitter) (now delay : ℤ)
    → let r = bounded_jitter j (pos (pos_part delay / 5)) in
      (pos 0 ≤ℤ r) × (r ≤ℤ pos (pos_part delay / 5))
jitter_facts j now delay = bounded_jitter_range j (pos (pos_part delay / 5)) (omega arith)

after_delay_sound :
    (j : Jitter) (now : Time) (delay : Duration) {t : Time}
    → after_delay j now delay ≡ some t
    → IsDelay delay × InWindow now delay t
unfolding after_delay
after_delay_sound j now delay {t} h =
    let r = bounded_jitter j (pos (pos_part delay / 5)) in
    let m : ℤ = pos (pos_part delay / 5) in
    ground (
      arith,
      jitter_facts j now delay,
      +ℤ_parts now delay,
      +ℤ_parts delay r,
      +ℤ_parts delay m,
      +ℤ_parts now (delay +ℤ r),
      +ℤ_parts now (delay +ℤ m),
    )

after_delay_total :
    (j : Jitter) (now : Time) (delay : Duration)
    → IsDelay delay
    → (t : Time) × (after_delay j now delay ≡ some t)
unfolding after_delay
after_delay_total j now delay h =
    let r = bounded_jitter j (pos (pos_part delay / 5)) in
    (now +ℤ (delay +ℤ r), ground (arith, jitter_facts j now delay, -ℤ_parts (pos max_int64) r))

next_sound_delay :
    (p : RetryPolicy) (random : Option Text) (now : Time) (attempt : ℤ) {t : Time}
    → next p random now attempt ≡ some t
    → (delay : Duration) × (scheduled_delay p.schedule (pos_part attempt - 1) ≡ some delay)
      × (after_delay (policy_jitter p random) now delay ≡ some t)
      × (pos 0 <ℤ attempt)
      × (attempt <ℤ attempt_limit p)
unfolding next
next_sound_delay p random now attempt h =
    elim (Option-cases (scheduled_delay p.schedule (pos_part attempt - 1))) [
      | inl e ↦ absurd (ground arith)
      | inr (d, e) ↦ (d, e, ground arith, ground arith, ground arith)
    ]

-- Whatever the jitter answers and whatever the entropy, a granted attempt is a numbered attempt
-- below the policy's limit, its scheduled delay is one that the code accepts, and it falls due no
-- earlier than that delay and no later than a fifth of it more.
pub next-InWindow :
    (p : RetryPolicy) (random : Option Text) (now : Time) (attempt : ℤ) (t : Time)
    → next p random now attempt ≡ some t
    → (pos 0 <ℤ attempt)
      × (attempt <ℤ attempt_limit p)
      × ((delay : Duration) × (scheduled_delay p.schedule (pos_part attempt - 1) ≡ some delay)
          × IsDelay delay
          × InWindow now delay t)
next-InWindow p random now attempt t h =
    let (d, found, granted, low, high) = next_sound_delay p random now attempt h in
    let (fits, window) = after_delay_sound (policy_jitter p random) now d granted in
    (low, high, (d, found, fits, window))

-- Conversely every attempt from 1 up to, and without, the limit whose scheduled delay is accepted
-- gets another attempt: the overflow test never refuses one.
pub next_total :
    (p : RetryPolicy) (random : Option Text) (now : Time) (attempt : ℤ) (delay : Duration)
    → pos 0 <ℤ attempt
    → attempt <ℤ attempt_limit p
    → scheduled_delay p.schedule (pos_part attempt - 1) ≡ some delay
    → IsDelay delay
    → (t : Time) × (next p random now attempt ≡ some t)
unfolding next
next_total p random now attempt delay low high found fits =
    let (t, granted) = after_delay_total (policy_jitter p random) now delay fits in
    (t, ground arith)
