-- ===== src/Base/Utf8.antt =====
-- The runes of a Go string (`for _, r := range s`, `utf8.ValidString`) and `strings.TrimSpace`.
use Prim.Native.Nat.{ℕ, zero, suc, ◌+◌, ◌-◌, ◌*◌, ◌%◌, ◌<◌}
use mathlib.Core.Path.{◌≡◌, refl}
use mathlib.Core.Bool.{Bool, true, not, ◌&&◌, ◌||◌}
use mathlib.Core.List.{List, [], ◌∷◌, reverse}
use native.Mathlib.Omega.{arith}
use hookbound.Base.Tests.{ltb, leb, ◌==◌, if◌then◌else◌, &&-eq-true}
use hookbound.Base.Lists.{length, take, drop, all, All}
use hookbound.Base.Strings.{Text}

-- A decoded rune and the number of bytes that it takes.
abbrev pub Rune : Type 0
Rune = ℕ × ℕ

-- utf8.RuneError of width 1: a byte that begins no encoding.
abbrev bad_rune : Rune
bad_rune = (65533, 1)

within : ℕ → ℕ → ℕ → Bool
within lo hi c = leb lo c && leb c hi

two : ℕ → Text → Rune
unfolding within
two b (c ∷ _) = if within 128 191 c then (b % 32 * 64 + c % 64, 2) else bad_rune
two b _ = bad_rune

three : ℕ → Text → Rune
unfolding within
three b (c ∷ d ∷ _) =
    if within (if b == 224 then 160 else 128) (if b == 237 then 159 else 191) c && within 128 191 d
    then (b % 16 * 4096 + c % 64 * 64 + d % 64, 3)
    else bad_rune
three b _ = bad_rune

four : ℕ → Text → Rune
unfolding within
four b (c ∷ d ∷ e ∷ _) =
    if within (if b == 240 then 144 else 128) (if b == 244 then 143 else 191) c
      && (within 128 191 d && within 128 191 e)
    then (b % 8 * 262144 + c % 64 * 4096 + d % 64 * 64 + e % 64, 4)
    else bad_rune
four b _ = bad_rune

-- utf8.DecodeRuneInString of a string that begins with the byte `b`.
unfoldable pub decode_rune : ℕ → Text → Rune
unfolding two three four within
decode_rune b rest =
    if ltb b 128
    then (b, 1)
    else if within 194 223 b
    then two b rest
    else if within 224 239 b
    then three b rest
    else if within 240 244 b
    then four b rest
    else bad_rune

-- The runes of a string; `skip` bytes still belong to the rune before.
unfoldable pub runes : (skip : ℕ) → Text → List Rune
unfolding decode_rune
runes zero [] = []
runes zero (b ∷ rest) = let r = decode_rune b rest in r ∷ runes (r.1 - 1) rest
runes (suc skip) [] = []
runes (suc skip) (b ∷ rest) = runes skip rest

-- utf8.ValidString.
unfoldable pub valid_utf8 : Text → Bool
unfolding runes
valid_utf8 s = all (λ r. not (r.0 == 65533 && r.1 == 1)) (runes 0 s)

-- unicode.IsSpace.
unfoldable pub is_space : ℕ → Bool
unfolding within
is_space c =
    within 9 13 c
    || (c == 32
        || (c == 133
            || (c == 160
                || (c == 5760
                    || (within 8192 8202 c
                        || (c == 8232
                            || (c == 8233 || (c == 8239 || (c == 8287 || c == 12288)))))))))

-- The bytes that the leading white space takes.
unfoldable pub leading_space : List Rune → ℕ
unfolding is_space
leading_space [] = 0
leading_space ((r, n) ∷ rs) = let rest = leading_space rs in if is_space r then n + rest else 0

-- strings.TrimSpace.
unfoldable pub trim_space : Text → Text
unfolding runes leading_space
trim_space s =
    let rs = runes 0 s in drop (leading_space rs) (take (length s - leading_space (reverse rs)) s)

decode_rune-ascii :
    (b : ℕ) (rest : Text)
    → (decode_rune b rest).0 < 128
    → ((decode_rune b rest).0 ≡ b) × ((decode_rune b rest).1 ≡ 1)
unfolding decode_rune
decode_rune-ascii b [] h = ground arith
decode_rune-ascii b (c ∷ []) h = ground arith
decode_rune-ascii b (c ∷ d ∷ []) h = ground arith
decode_rune-ascii b (c ∷ d ∷ e ∷ _) h = ground arith

-- A test on runes that only ASCII passes is a test on bytes.
module _ (p : ℕ → Bool) (ascii : (c : ℕ) → p c ≡ true → c < 128) where
  pub all-runes :
      (s : Text) → all (λ (r : Rune). p r.0) (runes 0 s) ≡ true → All (λ c. p c ≡ true) s
  unfolding runes
  all-runes [] h = tt
  all-runes (b ∷ rest) h =
      let (here, later) = &&-eq-true _ _ h in
      let (same, one) = decode_rune-ascii b rest (ascii _ here) in
      (rw same at here, all-runes rest (rw one at later))

  -- Conversely, of a string of ASCII bytes the runes are the bytes.
  pub all-runes_ascii :
      (s : Text) → All (λ c. p c ≡ true) s → all (λ (r : Rune). p r.0) (runes 0 s) ≡ true
  unfolding runes decode_rune
  all-runes_ascii [] h = refl
  all-runes_ascii (b ∷ rest) (here, later) =
      ground (arith, ascii b here, all-runes_ascii rest later)
