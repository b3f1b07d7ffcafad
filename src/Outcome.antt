-- ===== src/Outcome.antt =====
-- outcome.go: what one HTTP attempt means for the delivery.
pub mod Laws
use hookbound.Base.{
  ℕ, ◌+◌, ◌*◌, ◌/◌, ◌≡◌, Bool, true, false, not, ◌&&◌, ◌||◌, Option, none, some, List, [], ◌∷◌,
  Text, codes, leb, ltb, ◌==◌, if◌then◌else◌, is_empty, trim_space, ℤ, pos, negsuc, pos_part, ◌+ℤ◌,
  ◌-ℤ◌, ltb_ℤ, leb_ℤ, parse_int,
}
use hookbound.Errors.{Code}
use hookbound.Http.{Header, get}
use hookbound.Retry.{Time, Duration, seconds, max_int64}

-- Outcome; `unset` is its zero value.
pub data Outcome : Type 0 where
  unset delivered retry permanent_failure disable_destination : Outcome

-- AttemptResult; an empty ErrorCode is `none`, and a zero RetryAt is `pos 0`.
pub record AttemptResult : Type 0 where
  pub message_id : Text
  pub attempted_at : Time
  pub outcome : Outcome
  pub status_code : ℕ
  pub duration : Duration
  pub retry_at : Time
  pub response_header : Header
  pub response_body : Text
  pub error_code : Option Code

-- An HTTP response, as far as it is read: its body may fail before its end.
pub record Response : Type 0 where
  pub status_code : ℕ
  pub header : Header
  pub body : Text
  pub body_fails : Bool

-- time.Time.Sub saturates.
unfoldable pub time_sub : Time → Time → Duration
time_sub t u =
    let d = t -ℤ u in
    if ltb_ℤ (pos max_int64) d
    then pos max_int64
    else if ltb_ℤ d (negsuc max_int64)
    then negsuc max_int64
    else d

module _ (parse_time : Text → Option Time) where
  -- DefaultClassifier.retryAfter's second form: an HTTP date, by http.ParseTime.
  retry_date : Time → (maximum : Duration) → Text → Time
  unfolding time_sub
  retry_date now maximum value = elim (parse_time value) [
    | none ↦ pos 0
    | some parsed ↦
        if not (ltb_ℤ now parsed)
        then pos 0
        else if ltb_ℤ maximum (time_sub parsed now)
        then now +ℤ maximum
        else parsed
  ]

  -- DefaultClassifier.retryAfter; `pos 0` is the zero time.
  unfoldable pub retry_after : (max_retry_after : Duration) → Time → Text → Time
  unfolding retry_date
  retry_after max_retry_after now header =
      let value = trim_space header in
      let maximum = if leb_ℤ max_retry_after (pos 0) then seconds 86400 else max_retry_after in
      if is_empty value then pos 0 else elim (parse_int value) [
        | none ↦ retry_date now maximum value
        | some n ↦
            if ltb_ℤ n (pos 0)
            then retry_date now maximum value
            else if ltb (pos_part maximum / 1_000_000_000) (pos_part n)
            then now +ℤ maximum
            else now +ℤ seconds (pos_part n)
      ]

  -- DefaultClassifier.Classify; the response is `none` where it is nil or `err` is not.
  unfoldable pub classify : (max_retry_after : Duration) → Time → Option Response → Outcome × Time
  classify max_retry_after now none = (retry, pos 0)
  classify max_retry_after now (some response) =
      let status = response.status_code in
      let later = retry_after max_retry_after now (get (codes "Retry-After") response.header) in
      if leb 200 status && leb status 299
      then (delivered, pos 0)
      else if status == 410
      then (disable_destination, pos 0)
      else if status == 408 || (status == 425 || status == 429)
      then (retry, later)
      else if leb 500 status
      then (retry, later)
      else (permanent_failure, pos 0)
