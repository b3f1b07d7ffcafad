-- ===== src/Base/Decimal.antt =====
-- strconv.ParseInt(s, 10, 64) and strconv.FormatInt(n, 10).
use Prim.Native.Nat.{ℕ, zero, suc, ◌+◌, ◌-◌, ◌*◌, ◌/◌, ◌%◌, ◌≤◌}
use mathlib.Core.Path.{◌≡◌, refl}
use mathlib.Core.Bool.{Bool, true, false, ◌&&◌}
use mathlib.Core.Option.{Option, none, some}
use mathlib.Core.List.{[], ◌∷◌}
use native.Mathlib.Omega.{arith}
use hookbound.Base.Tests.{ltb, leb, ◌==◌, if◌then◌else◌, Bool-cases}
use mathlib.Core.Logic.{inl, inr}
use hookbound.Base.Lists.{All}
use hookbound.Base.Int.{ℤ, pos, negsuc, sub_ℕ}
use hookbound.Base.Strings.{Text}

unfoldable pub is_digit : ℕ → Bool
is_digit c = leb b'0' c && leb c b'9'

unfoldable pub digits_value : (acc : ℕ) → Text → Option ℕ
unfolding is_digit
digits_value acc [] = some acc
digits_value acc (c ∷ cs) =
    let rest = digits_value (acc * 10 + (c - b'0')) cs in if is_digit c then rest else none

-- A non-empty run of digits.
unfoldable pub parse_digits : Text → Option ℕ
unfolding digits_value
parse_digits [] = none
parse_digits (c ∷ cs) = digits_value 0 (c ∷ cs)

unfoldable pub signed : (negative : Bool) → Option ℕ → Option ℤ
signed negative none = none
signed false (some n) = if ltb 9_223_372_036_854_775_807 n then none else some (pos n)
signed true (some n) = if ltb 9_223_372_036_854_775_808 n then none else some (sub_ℕ 0 n)

-- `none` is any error of ParseInt: syntax or range.
unfoldable pub parse_int : Text → Option ℤ
unfolding parse_digits signed
parse_int [] = none
parse_int (c ∷ cs) =
    if c == b'+'
    then signed false (parse_digits cs)
    else if c == b'-'
    then signed true (parse_digits cs)
    else signed false (parse_digits (c ∷ cs))

-- The digits of a number below 10 ^ fuel.
unfoldable pub format_digits : (fuel : ℕ) → ℕ → Text → Text
format_digits zero n acc = acc
format_digits (suc fuel) n acc =
    let digit = b'0' + n % 10 in
    let rest = format_digits fuel (n / 10) (digit ∷ acc) in if ltb n 10 then digit ∷ acc else rest

-- An int64 has at most 19 digits.
unfoldable pub format_int : ℤ → Text
unfolding format_digits
format_int (pos n) = format_digits 20 n []
format_int (negsuc n) = b'-' ∷ format_digits 20 (suc n) []

-- A byte of a decimal number is a digit or a sign.
abbrev pub IsDecimalByte : ℕ → Type 0
IsDecimalByte c = (c ≤ b'9') × (b'+' ≤ c) × ¬ (c ≡ b'.')

digits_value_bytes :
    (acc : ℕ) (s : Text) {n : ℕ} → digits_value acc s ≡ some n → All IsDecimalByte s
unfolding digits_value is_digit
digits_value_bytes acc [] h = tt
digits_value_bytes acc (c ∷ cs) {n} h =
    ground (arith, digits_value_bytes (acc * 10 + (c - b'0')) cs {n = n})

parse_digits_bytes : (s : Text) {n : ℕ} → parse_digits s ≡ some n → All IsDecimalByte s
unfolding parse_digits
parse_digits_bytes [] h = tt
parse_digits_bytes (c ∷ cs) h = digits_value_bytes 0 (c ∷ cs) h

signed-some : (b : Bool) (o : Option ℕ) {z : ℤ} → signed b o ≡ some z → (n : ℕ) × (o ≡ some n)
unfolding signed
signed-some b none h = absurd (ground arith)
signed-some b (some n) h = (n, refl)

-- What ParseInt accepts holds no dot.
pub parse_int_bytes : (s : Text) {z : ℤ} → parse_int s ≡ some z → All IsDecimalByte s
unfolding parse_int
parse_int_bytes [] h = tt
parse_int_bytes (c ∷ cs) h = elim (Bool-cases (c == b'+')) [
  | inl plus ↦
      let (n, e) = signed-some false (parse_digits cs) (rw (plus, parse_int) at h) in
      (ground arith, parse_digits_bytes cs e)
  | inr other ↦ elim (Bool-cases (c == b'-')) [
    | inl minus ↦
        let (n, e) =
          signed-some true (parse_digits cs) (rw (other, parse_int) at (rw minus at h)) in
        (ground arith, parse_digits_bytes cs e)
    | inr neither ↦
        let (n, e) =
          signed-some false (parse_digits (c ∷ cs)) (rw (other, parse_int) at (rw neither at h)) in
        parse_digits_bytes (c ∷ cs) e
  ]
]

format_digits_bytes :
    (fuel n : ℕ) (acc : Text) → All IsDecimalByte acc → All IsDecimalByte (format_digits fuel n acc)
unfolding format_digits
format_digits_bytes zero n acc h = h
format_digits_bytes (suc fuel) n acc h =
    let digit = b'0' + n % 10 in ground (arith, format_digits_bytes fuel (n / 10) (digit ∷ acc))

-- FormatInt writes no dot.
pub format_int_bytes : (z : ℤ) → All IsDecimalByte (format_int z)
unfolding format_int
format_int_bytes (pos n) = format_digits_bytes 20 n [] tt
format_int_bytes (negsuc n) = (omega arith, format_digits_bytes 20 (suc n) [] tt)
