-- ===== src/Base/Strings.antt =====
-- Go strings and byte slices as lists of bytes, and the parts of `strings`, `bytes` and
-- `unicode/utf8` that the program calls.
use Prim.Native.Char.{code}
use Prim.Native.String.{String}
use Prim.Native.Nat.{ℕ, ◌+◌, ◌<◌}
use mathlib.Core.Path.{◌≡◌, refl}
use mathlib.Core.Logic.{◌↔◌}
use mathlib.Core.Bool.{Bool, true, false, ◌&&◌, ◌||◌}
use mathlib.Core.List.{List, [], ◌∷◌}
use native.Mathlib.Omega.{arith}
use hookbound.Base.Tests.{leb, ◌==◌, if◌then◌else◌}
use hookbound.Base.Lists.{any, All}

abbrev pub Text : Type 0
Text = List ℕ

abbrev pub IsBytes : Text → Type 0
IsBytes s = All (λ c. c < 256) s

-- The bytes of an ASCII literal.
abbrev pub codes : String → Text
codes String.[] = []
codes (String.◌∷◌ c s) = code c ∷ codes s

unfoldable pub text_eq : Text → Text → Bool
text_eq [] [] = true
text_eq (x ∷ xs) (y ∷ ys) = x == y && text_eq xs ys
text_eq _ _ = false

pub text_eq_iff : (s t : Text) → (text_eq s t ≡ true) ↔ (s ≡ t)
unfolding text_eq
text_eq_iff [] [] = ground arith
text_eq_iff (x ∷ xs) (y ∷ ys) = ground (arith, text_eq_iff xs ys)
text_eq_iff [] (y ∷ ys) = ground arith
text_eq_iff (x ∷ xs) [] = ground arith

pub text_eq_refl : (s : Text) → text_eq s s ≡ true
text_eq_refl s = (text_eq_iff s s).1 refl

abbrev pub is_empty : Text → Bool
is_empty [] = true
is_empty (x ∷ xs) = false

-- strings.IndexByte(s, c) >= 0, strings.ContainsRune at an ASCII rune.
unfoldable pub contains_byte : ℕ → Text → Bool
contains_byte c [] = false
contains_byte c (x ∷ xs) = x == c || contains_byte c xs

-- strings.ContainsAny(s, "\r\n\x00").
unfoldable pub contains_line_break : Text → Bool
contains_line_break s = any (λ c. c == 13 || (c == 10 || c == 0)) s

-- strings.Cut at one byte: what stands before it and after it, and whether it was found.
unfoldable pub cut : ℕ → Text → Text × Text × Bool
cut c [] = ([], [], false)
cut c (x ∷ xs) =
    let rest = cut c xs in if x == c then ([], xs, true) else (x ∷ rest.0, rest.1, rest.2)

-- strings.ToLower on ASCII.
unfoldable pub lower : ℕ → ℕ
lower c = if leb 65 c && leb c 90 then c + 32 else c
