-- ===== src/Outcome/Laws.antt =====
-- The outcomes of an attempt, and the bound on what a destination may ask by Retry-After.
use hookbound.Base.{
  ◌≡◌, ◌≤◌, ◌⊎◌, inl, inr, refl, ◌↔◌, Option, none, some, Text, codes, if◌then◌else◌, trim_space,
  pos, pos_part, ◌+ℤ◌, leb_ℤ, ◌≤ℤ◌, ◌<ℤ◌, parse_int, arith, Option-cases, +ℤ_parts, -ℤ_parts,
}
use hookbound.Http.{get}
use hookbound.Retry.{Time, Duration, seconds, max_int64}
use hookbound.Outcome.{
  delivered, retry, disable_destination, Response, time_sub, retry_date, retry_after, classify,
}

-- Zero, or an instant from now on and at most `maximum` away.
abbrev pub IsBounded : Time → Duration → Time → Type 0
IsBounded now maximum t = (t ≡ pos 0) ⊎ ((now ≤ℤ t) × (t ≤ℤ now +ℤ maximum))

-- The longest wait that a classifier grants.
abbrev pub longest : Duration → Duration
longest max_retry_after = if leb_ℤ max_retry_after (pos 0) then seconds 86400 else max_retry_after

module _ (parse_time : Text → Option Time) where
  retry_date-IsBounded :
      (now : Time) (maximum : Duration) (value : Text)
      → pos 0 ≤ℤ maximum
      → maximum <ℤ pos max_int64
      → IsBounded now maximum (retry_date parse_time now maximum value)
  unfolding retry_date time_sub
  retry_date-IsBounded now maximum value p q = elim (Option-cases (parse_time value)) [
    | inl e ↦ rw (e, retry_date) (inl refl)
    | inr (t, e) ↦ rw (e, retry_date) (ground (arith, -ℤ_parts t now, +ℤ_parts now maximum))
  ]

  retry_after-IsBounded :
      (max_retry_after : Duration) (now : Time) (header : Text)
      → max_retry_after <ℤ pos max_int64
      → IsBounded now (longest max_retry_after) (retry_after parse_time max_retry_after now header)
  unfolding retry_after
  retry_after-IsBounded m now header q =
      let value = trim_space header in
      elim (Option-cases (parse_int value)) [
        | inl e ↦ ground (arith, retry_date-IsBounded now (longest m) value)
        | inr (n, e) ↦ ground (
          arith,
          retry_date-IsBounded now (longest m) value,
          +ℤ_parts now (longest m),
          +ℤ_parts now (seconds (pos_part n)),
        )
      ]

  -- The classifier says delivered exactly for 2xx, gives the destination up exactly for 410, and
  -- retries exactly for 408, 425, 429 and at least 500, and where there is no response; and whatever
  -- a destination sends as Retry-After, the instant asked for is none or lies between now and the
  -- longest wait allowed (the configured one, if it is positive and below the greatest duration, or
  -- a day).
  pub classify_table :
      (max_retry_after : Duration) (now : Time) (r : Response)
      → max_retry_after <ℤ pos max_int64
      → let c = classify parse_time max_retry_after now (some r) in
        let status = r.status_code in
        IsBounded now (longest max_retry_after) c.1
        × ((c.0 ≡ delivered) ↔ ((200 ≤ status) × (status ≤ 299)))
        × ((c.0 ≡ disable_destination) ↔ (status ≡ 410))
        × ((c.0 ≡ retry) ↔ ((status ≡ 408) ⊎ (status ≡ 425) ⊎ (status ≡ 429) ⊎ (500 ≤ status)))
        × (classify parse_time max_retry_after now none ≡ (retry, pos 0))
  unfolding classify
  classify_table m now r q =
      let header = get (codes "Retry-After") r.header in
      let bounded = retry_after-IsBounded m now header q in
      (
        ground (arith, bounded),
        (λ e. ground arith, λ h. ground arith),
        (λ e. ground arith, λ h. ground arith),
        (λ e. ground arith, λ h. ground arith),
        refl,
      )
