-- ===== src/Postgres/Runtime/Periods.antt =====
-- NewRuntime: the periods of the runtime that it makes.
use hookbound.Base.{
  ◌≡◌, refl, subst, Bool, true, false, not, ◌&&◌, ◌||◌, ℤ, pos, ◌+ℤ◌, ◌-ℤ◌, ◌≤ℤ◌, ◌<ℤ◌, ltb_ℤ,
  leb_ℤ, +ℤ_parts, -ℤ_parts, negsuc, arith,
}
use hookbound.Errors.{ok, reject_if, invalid_configuration, >>=-eq-ok, ok_inj, reject_if-ok}
use hookbound.Retry.{seconds, Duration}
use hookbound.Postgres.Runtime.{
  Runtime, RuntimeConfig, new_runtime, is_nil, is_zero, or_positive, renewal_interval,
  renewal_timeout_of, worker_count, some_store,
}

or_positive-IsPositive : (d default : Duration) → pos 0 <ℤ default → pos 0 <ℤ or_positive d default
unfolding or_positive
or_positive-IsPositive d default h = ground arith

in_time :
    (lease renewal timeout : Duration)
    → leb_ℤ (lease -ℤ renewal) timeout ≡ false
    → renewal +ℤ timeout <ℤ lease
in_time lease renewal timeout h = ground (arith, +ℤ_parts renewal timeout, -ℤ_parts lease renewal)

worker_count-nonneg :
    (given : ℤ) (idle : Bool) → ltb_ℤ given (pos 0) ≡ false → pos 0 ≤ℤ worker_count given idle
unfolding worker_count is_zero
worker_count-nonneg (pos n) idle h = ground arith
worker_count-nonneg (negsuc n) idle h = absurd (ground (arith, h))

between :
    (renewal lease : Duration)
    → (leb_ℤ renewal (pos 0) || leb_ℤ lease renewal) ≡ false
    → (pos 0 <ℤ renewal) × (renewal <ℤ lease)
between renewal lease h = ground arith

neither : (a b : Bool) → (a || b) ≡ false → (a ≡ false) × (b ≡ false)
neither true b h = cc
neither false b h = (refl, h)

-- What holds of a runtime's periods and worker counts.
abbrev pub IsTimely : Runtime → Type 0
IsTimely rt =
    (pos 0 <ℤ rt.renewal)
    × (rt.renewal <ℤ rt.lease)
    × (rt.renewal +ℤ rt.renewal_timeout <ℤ rt.lease)
    × (pos 0 <ℤ rt.poll)
    × (pos 0 <ℤ rt.completion)
    × (pos 0 ≤ℤ rt.outbound_count)
    × (pos 0 ≤ℤ rt.inbound_count)

-- Whatever is configured, a runtime that NewRuntime makes renews a lease at a positive interval that
-- is shorter than the lease, and even a renewal that takes its whole timeout ends within the lease;
-- the poll interval and the completion timeout are positive, and no worker count is negative.
pub new_runtime-IsTimely :
    (config : RuntimeConfig) (rt : Runtime) → new_runtime config ≡ ok rt → IsTimely rt
unfolding new_runtime
new_runtime-IsTimely config rt h =
    let lease = or_positive config.lease_duration (seconds 60) in
    let renewal = renewal_interval config lease in
    let (store, _, h) = >>=-eq-ok (some_store config.store) _ h in
    let (_, _, h) =
      >>=-eq-ok
        (reject_if (is_nil config.sender && not (is_zero config.outbound_workers))
          invalid_configuration)
        _ h in
    let (_, _, h) =
      >>=-eq-ok
        (reject_if (is_nil config.inbound_handler && not (is_zero config.inbound_workers))
          invalid_configuration)
        _ h in
    let (_, _, h) =
      >>=-eq-ok
        (reject_if
          (ltb_ℤ config.lease_renewal_interval (pos 0)
            || ltb_ℤ config.lease_renewal_timeout (pos 0))
          invalid_configuration)
        _ h in
    let (_, interval, h) =
      >>=-eq-ok (reject_if (leb_ℤ renewal (pos 0) || leb_ℤ lease renewal) invalid_configuration) _
        h in
    let (_, timeout, h) =
      >>=-eq-ok
        (reject_if (leb_ℤ (lease -ℤ renewal) (renewal_timeout_of config renewal))
          invalid_configuration)
        _ h in
    let (_, counts, h) =
      >>=-eq-ok
        (reject_if (ltb_ℤ config.outbound_workers (pos 0) || ltb_ℤ config.inbound_workers (pos 0))
          invalid_configuration)
        _ h in
    let (positive, shorter) =
      between renewal lease (reject_if-ok _ invalid_configuration interval) in
    let (outbound, inbound) = neither _ _ (reject_if-ok _ invalid_configuration counts) in
    subst IsTimely (ok_inj h) (
      positive,
      shorter,
      in_time lease renewal (renewal_timeout_of config renewal)
          (reject_if-ok _ invalid_configuration timeout),
      or_positive-IsPositive config.poll_interval (pos 250_000_000) (ground arith),
      or_positive-IsPositive config.completion_timeout (seconds 10) (ground arith),
      worker_count-nonneg config.outbound_workers (is_nil config.sender) outbound,
      worker_count-nonneg config.inbound_workers (is_nil config.inbound_handler) inbound,
    )
