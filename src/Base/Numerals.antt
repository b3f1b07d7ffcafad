-- ===== src/Base/Numerals.antt =====
-- strconv.ParseInt reads back what strconv.FormatInt writes.
use Prim.Native.Nat.{ℕ, zero, suc, ◌+◌, ◌*◌, ◌/◌, ◌%◌, ◌≤◌, ◌<◌}
use mathlib.Core.Path.{◌≡◌, refl, sym, subst}
use mathlib.Core.Logic.{◌≢◌}
use mathlib.Core.Logic.{◌≢◌}
use mathlib.Core.Bool.{true, false}
use mathlib.Core.Option.{some}
use mathlib.Core.List.{[], ◌∷◌}
use native.Mathlib.Omega.{arith}
use hookbound.Base.Int.{ℤ, pos, negsuc}
use hookbound.Base.Strings.{Text, is_empty}
use hookbound.Base.Decimal.{
  is_digit, digits_value, parse_digits, signed, parse_int, format_digits, format_int,
}

-- 10 ^ n
abbrev pow10 : ℕ → ℕ
pow10 zero = 1
pow10 (suc n) = 10 * pow10 n

digits_value-format_digits :
    (fuel n : ℕ) (rest : Text)
    → n < pow10 fuel
    → digits_value 0 (format_digits fuel n rest) ≡ digits_value n rest
unfolding format_digits digits_value is_digit
digits_value-format_digits zero zero rest h = refl
digits_value-format_digits zero (suc n) rest h = absurd (omega (arith, h))
digits_value-format_digits (suc fuel) n rest h =
    ground (arith, digits_value-format_digits fuel (n / 10) ((b'0' + n % 10) ∷ rest))

format_digits-cons :
    (fuel n c : ℕ) (rest : Text) → is_empty (format_digits fuel n (c ∷ rest)) ≡ false
unfolding format_digits
format_digits-cons zero n c rest = refl
format_digits-cons (suc fuel) n c rest =
    ground (arith, format_digits-cons fuel (n / 10) (b'0' + n % 10) (c ∷ rest))

format_digits-suc : (fuel n : ℕ) → is_empty (format_digits (suc fuel) n []) ≡ false
unfolding format_digits
format_digits-suc fuel n = ground (arith, format_digits-cons fuel (n / 10) (b'0' + n % 10) [])

-- A text of digits has its value, and begins with neither sign.
parse_digits-digits :
    (s : Text) (n : ℕ)
    → is_empty s ≡ false
    → digits_value 0 s ≡ some n
    → (parse_digits s ≡ some n) × (parse_int s ≡ signed false (some n))
unfolding parse_int parse_digits digits_value is_digit
parse_digits-digits [] n some_byte h = cc
parse_digits-digits (c ∷ cs) n some_byte h = ground arith

format-parses :
    (fuel n : ℕ)
    → n < pow10 (suc fuel)
    → (parse_digits (format_digits (suc fuel) n []) ≡ some n)
      × (parse_int (format_digits (suc fuel) n []) ≡ signed false (some n))
unfolding digits_value
format-parses fuel n h =
    parse_digits-digits (format_digits (suc fuel) n []) n (format_digits-suc fuel n)
      (digits_value-format_digits (suc fuel) n [] h)

abbrev pub IsInt64 : ℤ → Type 0
IsInt64 (pos n) = n ≤ 9_223_372_036_854_775_807
IsInt64 (negsuc n) = n ≤ 9_223_372_036_854_775_807

format_int-pos : (n : ℕ) → format_int (pos n) ≡ format_digits 20 n []
unfolding format_int
format_int-pos n = refl

parse_int-minus : (s : Text) → parse_int (b'-' ∷ s) ≡ signed true (parse_digits s)
unfolding parse_int
parse_int-minus s = refl

format_int-negsuc : (n : ℕ) → format_int (negsuc n) ≡ b'-' ∷ format_digits 20 (suc n) []
unfolding format_int
format_int-negsuc n = refl

signed-int :
    (n : ℕ)
    → n ≤ 9_223_372_036_854_775_807
    → (signed false (some n) ≡ some (pos n)) × (signed true (some (suc n)) ≡ some (negsuc n))
unfolding signed
signed-int n h = ground arith

pub parse_int-format_int : (z : ℤ) → IsInt64 z → parse_int (format_int z) ≡ some z
parse_int-format_int (pos n) h =
    rw (format_int-pos n, (format-parses 19 n (omega (arith, h))).1, (signed-int n h).0)
parse_int-format_int (negsuc n) h = rw (
  format_int-negsuc n,
  parse_int-minus (format_digits 20 (suc n) []),
  (format-parses 19 (suc n) (omega (arith, h))).0,
  (signed-int n h).1,
)

nonempty : (s : Text) → is_empty s ≡ false → s ≢ []
nonempty [] h = cc
nonempty (c ∷ s) h = λ e. absurd (ground (arith, e))

pub format_int-ne : (z : ℤ) → format_int z ≢ []
format_int-ne (pos n) =
    subst (λ s. s ≢ []) (sym (format_int-pos n)) (nonempty _ (format_digits-suc 19 n))
format_int-ne (negsuc n) = subst (λ s. s ≢ []) (sym (format_int-negsuc n)) (nonempty _ refl)
