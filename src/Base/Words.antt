-- ===== src/Base/Words.antt =====
-- strings.Fields, strings.Join with a space, strings.TrimPrefix, and text without white space.
use Prim.Native.Nat.{ℕ, zero, suc, ◌-◌}
use mathlib.Core.Path.{◌≡◌, refl, ap}
use mathlib.Core.Logic.{◌≢◌}
use mathlib.Core.Bool.{Bool, true, false}
use mathlib.Core.Option.{Option, none, some}
use mathlib.Core.List.{List, [], ◌∷◌, ◌++◌, reverse, reverse-cons}
use native.Mathlib.Omega.{arith}
use hookbound.Base.Tests.{if◌then◌else◌, ◌==◌}
use hookbound.Base.Lists.{All, All-append, length, take}
use hookbound.Base.Strings.{Text, is_empty}
use hookbound.Base.Utf8.{Rune, decode_rune, is_space, runes, trim_space, leading_space}
use hookbound.Base.Base64.{IsWordByte}

-- A word that has begun, if any, before the words that follow.
abbrev flush : Text × List Text → List Text
flush (w, ws) = if is_empty w then ws else w ∷ ws

-- The rest of the word that a string begins in, and the words after it; `skip` bytes still belong
-- to the rune before, which is white space or not.
words : (skip : ℕ) → (white : Bool) → Text → Text × List Text
unfolding decode_rune is_space
words skip white [] = ([], [])
words zero white (b ∷ rest) =
    let r = decode_rune b rest in
    let later = words (r.1 - 1) (is_space r.0) rest in
    if is_space r.0 then ([], flush later) else (b ∷ later.0, later.1)
words (suc skip) white (b ∷ rest) =
    let later = words skip white rest in if white then ([], flush later) else (b ∷ later.0, later.1)

-- strings.Fields
unfoldable pub fields : Text → List Text
unfolding words
fields s = flush (words 0 false s)

-- strings.Join(words, " ")
unfoldable pub join : List Text → Text
join [] = []
join (w ∷ []) = w
join (w ∷ v ∷ ws) = w ++ b' ' ∷ join (v ∷ ws)

-- strings.CutPrefix
unfoldable pub strip : (prefix s : Text) → Option Text
strip [] s = some s
strip (p ∷ ps) [] = none
strip (p ∷ ps) (c ∷ cs) = let rest = strip ps cs in if p == c then rest else none

-- strings.TrimPrefix
unfoldable pub trim_prefix : (prefix s : Text) → Text
unfolding strip
trim_prefix prefix s = elim (strip prefix s) [ none ↦ s | some rest ↦ rest ]

-- strings.HasPrefix
unfoldable pub has_prefix : (prefix s : Text) → Bool
unfolding strip
has_prefix prefix s = elim (strip prefix s) [ none ↦ false | some rest ↦ true ]

strip-append : (prefix s : Text) → strip prefix (prefix ++ s) ≡ some s
unfolding strip
strip-append [] s = refl
strip-append (p ∷ ps) s = ground (arith, strip-append ps s)

pub trim_prefix-append : (prefix s : Text) → trim_prefix prefix (prefix ++ s) ≡ s
unfolding trim_prefix
trim_prefix-append prefix s = rw (trim_prefix, strip-append prefix s)

decode_rune-word :
    (b : ℕ) (rest : Text) → IsWordByte b → (decode_rune b rest ≡ (b, 1)) × (is_space b ≡ false)
unfolding decode_rune is_space
decode_rune-word b rest h = ground arith

words-word : (white : Bool) (w : Text) → All IsWordByte w → words 0 white w ≡ (w, [])
unfolding words
words-word white [] h = refl
words-word white (c ∷ cs) (first, later) =
    let (rune, dark) = decode_rune-word c cs first in rw (rune, dark, words-word false cs later)

-- Between runes it does not matter what the rune before was.
words_white : (s : Text) → words 0 true s ≡ words 0 false s
unfolding words
words_white [] = refl
words_white (c ∷ cs) = refl

words-append :
    (white : Bool) (w s : Text) → All IsWordByte w → words 0 white (w ++ b' ' ∷ s) ≡ (w, fields s)
unfolding words fields
words-append true [] s h = ap (λ r. ([], flush r)) (words_white s)
words-append false [] s h = ap (λ r. ([], flush r)) (words_white s)
words-append white (c ∷ cs) s (first, later) =
    let (rune, dark) = decode_rune-word c (cs ++ b' ' ∷ s) first in
    rw (rune, dark, words-append false cs s later)

abbrev pub IsWord : Text → Type 0
IsWord w = (w ≢ []) × All IsWordByte w

flush-word : (w : Text) (ws : List Text) → w ≢ [] → flush (w, ws) ≡ w ∷ ws
flush-word [] ws h = absurd (h refl)
flush-word (c ∷ cs) ws h = refl

pub fields-join : (ws : List Text) → All IsWord ws → fields (join ws) ≡ ws
unfolding fields join
fields-join [] h = refl
fields-join (w ∷ []) ((some_byte, plain), h) =
    rw (fields, words-word false w plain, flush-word w [] some_byte)
fields-join (w ∷ v ∷ ws) ((some_byte, plain), h) = rw (
  fields,
  words-append false w (join (v ∷ ws)) plain,
  fields-join (v ∷ ws) h,
  flush-word w (v ∷ ws) some_byte,
)

leading_space-dark : (rs : List Rune) → All (λ r. is_space r.0 ≡ false) rs → leading_space rs ≡ 0
unfolding leading_space
leading_space-dark [] h = refl
leading_space-dark (r ∷ rs) (first, h) = rw first

runes-word : (s : Text) → All IsWordByte s → All (λ (r : Rune). is_space r.0 ≡ false) (runes 0 s)
unfolding runes
runes-word [] h = tt
runes-word (c ∷ cs) (first, later) =
    let (rune, dark) = decode_rune-word c cs first in
    (rw (rune, dark), rw (rune) (runes-word cs later))

All-reverse {ℓ κ} : {A : Type ℓ} (P : A → Type κ) (xs : List A) → All P xs → All P (reverse xs)
All-reverse P [] h = tt
All-reverse P (x ∷ xs) (first, h) =
    rw (reverse-cons x xs) (All-append P (reverse xs) (x ∷ []) (All-reverse P xs h) (first, tt))

take_all : (s : Text) → take (length s) s ≡ s
take_all [] = refl
take_all (c ∷ cs) = rw (take_all cs)

minus_zero : (n : ℕ) → n - 0 ≡ n
minus_zero n = omega arith

pub trim_space-word : (s : Text) → All IsWordByte s → trim_space s ≡ s
unfolding trim_space
trim_space-word s h =
    let dark = runes-word s h in
    rw (
      trim_space,
      leading_space-dark (runes 0 s) dark,
      leading_space-dark (reverse (runes 0 s))
          (All-reverse (λ (r : Rune). is_space r.0 ≡ false) (runes 0 s) dark),
      minus_zero (length s),
      take_all s,
    )
