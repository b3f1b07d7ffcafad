-- ===== src/Sender/Body.antt =====
-- The end of Sender.Send: how much of a response is kept, and what is reported of it.
use hookbound.Base.{
  ℕ, zero, suc, length-take, take-short, ◌+◌, ◌<◌, ◌≤◌, ◌≡◌, refl, sym, ap, ◌∙◌, Bool, true, false,
  ◌&&◌, Option, none, some, [], ◌∷◌, Text, length, take, ltb, if◌then◌else◌, arith,
}
use hookbound.Errors.{Code, Error, coded, body_too_large, response_read_failed}
use hookbound.Retry.{max_int64}
use hookbound.Outcome.{AttemptResult, Response}
use hookbound.Sender.{read_limit, read_response, judged}

take-take : (n m : ℕ) (xs : Text) → n ≤ m → take n (take m xs) ≡ take n xs
take-take zero m xs h = refl
take-take (suc n) zero xs h = absurd (omega (arith, h))
take-take (suc n) (suc m) [] h = refl
take-take (suc n) (suc m) (x ∷ xs) h = ap (λ ys. x ∷ ys) (take-take n m xs (omega (arith, h)))

within-take : (n : ℕ) (xs : Text) → length (take n xs) ≤ n
within-take n xs = omega (arith, length-take n xs)

length-take_suc : (n : ℕ) (xs : Text) → ltb n (length (take (n + 1) xs)) ≡ ltb n (length xs)
length-take_suc n xs = ground (arith, length-take (n + 1) xs)

read_limit-eq :
    (max_response : ℕ) → max_response < max_int64 → read_limit max_response ≡ max_response + 1
unfolding read_limit
read_limit-eq max_response h = ground arith

-- The error that goes with an error code of a result.
abbrev pub as_error : Option Code → Option Error
as_error none = none
as_error (some c) = some (coded c)

shorter : (n : ℕ) (xs : Text) → n < max_int64 → take n (take (read_limit n) xs) ≡ take n xs
shorter n xs h = rw (read_limit-eq n h, take-take n (n + 1) xs (omega arith))

by_length {ℓ} :
    {A : Type ℓ} (n l : ℕ) (fails : Bool) (x y z : A)
    → (if ltb n l then x else if fails && ltb l (n + 1) then y else z)
      ≡ (if ltb n l then x else if fails then y else z)
by_length n l true x y z = ground arith
by_length n l false x y z = refl

-- What the reader sees is what is so.
verdict {ℓ} :
    {A : Type ℓ} (n : ℕ) (xs : Text) (fails : Bool) (x y z : A)
    → n < max_int64
    → (if ltb n (length (take (read_limit n) xs))
        then x
        else if fails && ltb (length xs) (read_limit n)
        then y
        else z)
      ≡ (if ltb n (length xs) then x else if fails then y else z)
verdict n xs fails x y z h =
    rw (read_limit-eq n h, length-take_suc n xs) (by_length n (length xs) fails x y z)

judged-eq :
    (too_large unreadable : Bool) (result : AttemptResult) (short body : Text) (limit : ℕ)
    → length short ≤ limit
    → (too_large ≡ false → body ≡ short)
    → let (read, error) = judged too_large unreadable result short body in
      (read.response_body ≡ short)
      × (length read.response_body ≤ limit)
      × (error ≡ (
          if too_large
          then some (coded body_too_large)
          else if unreadable
          then some (coded response_read_failed)
          else none))
unfolding judged
judged-eq true unreadable result short body limit fits whole = (refl, fits, refl)
judged-eq false true result short body limit fits whole = (whole refl, rw (whole refl) fits, refl)
judged-eq false false result short body limit fits whole = (whole refl, rw (whole refl) fits, refl)

pub judged-code :
    (too_large unreadable : Bool) (result : AttemptResult) (short body : Text)
    → result.error_code ≡ none
    → let (read, error) = judged too_large unreadable result short body in
      (error ≡ as_error read.error_code) × (read.outcome ≡ result.outcome)
unfolding judged
judged-code true unreadable result short body h = (refl, refl)
judged-code false true result short body h = (refl, refl)
judged-code false false result short body h = (ap as_error (sym h), refl)

-- With a limit below the largest int64, the body of the result is the response's body up to the
-- limit; a body beyond the limit is reported as too large, whether or not reading it would fail,
-- and a body within the limit is reported as unreadable exactly if reading it fails.
pub read_response-eq :
    (max_response : ℕ) (result : AttemptResult) (response : Response)
    → max_response < max_int64
    → let (read, error) = read_response max_response result response in
      (read.response_body ≡ take max_response response.body)
      × (length read.response_body ≤ max_response)
      × (error ≡ (
          if ltb max_response (length response.body)
          then some (coded body_too_large)
          else if response.body_fails
          then some (coded response_read_failed)
          else none))
unfolding read_response read_limit
read_response-eq max_response result response h =
    let (body, limit, error) =
      judged-eq (ltb max_response (length (take (read_limit max_response) response.body)))
        (response.body_fails && ltb (length response.body) (read_limit max_response)) _
        (take max_response (take (read_limit max_response) response.body))
        (take (read_limit max_response) response.body) max_response
        (within-take max_response (take (read_limit max_response) response.body))
        (λ fits. sym (
          take-short max_response (take (read_limit max_response) response.body)
            (ground (arith, fits)))) in
    (
      body ∙ shorter max_response response.body h,
      limit,
      error ∙ verdict max_response response.body response.body_fails _ _ _ h,
    )
