-- ===== src/Base/Base32.antt =====
-- encoding/base32 in the standard alphabet without padding.
use Prim.Native.Nat.{ℕ, ◌+◌, ◌-◌, ◌*◌, ◌/◌, ◌%◌, ◌≤◌}
use mathlib.Core.List.{[], ◌∷◌}
use native.Mathlib.Omega.{arith}
use hookbound.Base.Tests.{ltb, if◌then◌else◌}
use hookbound.Base.Lists.{All, length}
use hookbound.Base.Strings.{Text}

-- A to Z, then 2 to 7.
digit32 : ℕ → ℕ
digit32 v = if ltb v 26 then b'A' + v else b'2' + (v % 32 - 26)

-- Encoding.EncodeToString: five bytes make eight characters.
unfoldable pub encode32 : Text → Text
unfolding digit32
encode32 [] = []
encode32 (a ∷ []) = digit32 (a / 8) ∷ digit32 (a % 8 * 4) ∷ []
encode32 (a ∷ b ∷ []) =
    digit32 (a / 8)
    ∷ digit32 (a % 8 * 4 + b / 64)
    ∷ digit32 (b / 2 % 32)
    ∷ digit32 (b % 2 * 16)
    ∷ []
encode32 (a ∷ b ∷ c ∷ []) =
    digit32 (a / 8)
    ∷ digit32 (a % 8 * 4 + b / 64)
    ∷ digit32 (b / 2 % 32)
    ∷ digit32 (b % 2 * 16 + c / 16)
    ∷ digit32 (c % 16 * 2)
    ∷ []
encode32 (a ∷ b ∷ c ∷ d ∷ []) =
    digit32 (a / 8)
    ∷ digit32 (a % 8 * 4 + b / 64)
    ∷ digit32 (b / 2 % 32)
    ∷ digit32 (b % 2 * 16 + c / 16)
    ∷ digit32 (c % 16 * 2 + d / 128)
    ∷ digit32 (d / 4 % 32)
    ∷ digit32 (d % 4 * 8)
    ∷ []
encode32 (a ∷ b ∷ c ∷ d ∷ e ∷ rest) =
    digit32 (a / 8)
    ∷ digit32 (a % 8 * 4 + b / 64)
    ∷ digit32 (b / 2 % 32)
    ∷ digit32 (b % 2 * 16 + c / 16)
    ∷ digit32 (c % 16 * 2 + d / 128)
    ∷ digit32 (d / 4 % 32)
    ∷ digit32 (d % 4 * 8 + e / 32)
    ∷ digit32 (e % 32)
    ∷ encode32 rest

-- The alphabet's range.
abbrev pub IsCapitalOrDigit : ℕ → Type 0
IsCapitalOrDigit c = (b'2' ≤ c) × (c ≤ b'Z')

in_alphabet : (v : ℕ) → IsCapitalOrDigit (digit32 v)
unfolding digit32
in_alphabet v = ground arith

pub encode32-IsCapitalOrDigit : (s : Text) → All IsCapitalOrDigit (encode32 s)
unfolding encode32
encode32-IsCapitalOrDigit [] = tt
encode32-IsCapitalOrDigit (a ∷ []) = (in_alphabet _, (in_alphabet _, tt))
encode32-IsCapitalOrDigit (a ∷ b ∷ []) =
    (in_alphabet _, (in_alphabet _, (in_alphabet _, (in_alphabet _, tt))))
encode32-IsCapitalOrDigit (a ∷ b ∷ c ∷ []) =
    (in_alphabet _, (in_alphabet _, (in_alphabet _, (in_alphabet _, (in_alphabet _, tt)))))
encode32-IsCapitalOrDigit (a ∷ b ∷ c ∷ d ∷ []) = (
  in_alphabet _,
  (
    in_alphabet _,
    (in_alphabet _, (in_alphabet _, (in_alphabet _, (in_alphabet _, (in_alphabet _, tt))))),
  ),
)
encode32-IsCapitalOrDigit (a ∷ b ∷ c ∷ d ∷ e ∷ rest) = (
  in_alphabet _,
  (
    in_alphabet _,
    (
      in_alphabet _,
      (
        in_alphabet _,
        (
          in_alphabet _,
          (in_alphabet _, (in_alphabet _, (in_alphabet _, encode32-IsCapitalOrDigit rest))),
        ),
      ),
    ),
  ),
)

pub length-encode32 : (s : Text) → length (encode32 s) ≤ 2 * length s
unfolding encode32
length-encode32 [] = omega arith
length-encode32 (a ∷ []) = omega arith
length-encode32 (a ∷ b ∷ []) = omega arith
length-encode32 (a ∷ b ∷ c ∷ []) = omega arith
length-encode32 (a ∷ b ∷ c ∷ d ∷ []) = omega arith
length-encode32 (a ∷ b ∷ c ∷ d ∷ e ∷ rest) = omega (arith, length-encode32 rest)
