-- ===== src/Base/Base64.antt =====
-- encoding/base64: the standard and the URL alphabet, with and without padding.
use Prim.Native.Nat.{ℕ, ◌+◌, ◌-◌, ◌*◌, ◌/◌, ◌%◌, ◌<◌, ◌≤◌}
use mathlib.Core.Path.{◌≡◌, refl}
use mathlib.Core.Bool.{Bool, true, false, ◌&&◌, ◌||◌}
use mathlib.Core.Option.{Option, none, some}
use mathlib.Core.List.{[], ◌∷◌}
use native.Mathlib.Omega.{arith}
use hookbound.Base.Tests.{ltb, leb, ◌==◌, if◌then◌else◌}
use hookbound.Base.Lists.{All, length}
use hookbound.Base.Strings.{Text, IsBytes, is_empty}

-- The characters of the standard alphabet.
digit64 : ℕ → ℕ
digit64 v =
    if ltb v 26
    then b'A' + v
    else if ltb v 52
    then b'a' + (v - 26)
    else if ltb v 62
    then b'0' + (v - 52)
    else if v == 62
    then b'+'
    else b'/'

-- The value of a character; the URL alphabet has - and _ where the standard one has + and /.
value64 : (url : Bool) → ℕ → Option ℕ
value64 url c =
    if leb b'A' c && leb c b'Z'
    then some (c - b'A')
    else if leb b'a' c && leb c b'z'
    then some (26 + (c - b'a'))
    else if leb b'0' c && leb c b'9'
    then some (52 + (c - b'0'))
    else if c == (if url then b'-' else b'+')
    then some 62
    else if c == (if url then b'_' else b'/')
    then some 63
    else none

-- Encoding.EncodeToString of StdEncoding, or without padding of RawStdEncoding.
unfoldable pub encode64 : (padded : Bool) → Text → Text
unfolding digit64
encode64 padded [] = []
encode64 padded (a ∷ []) =
    digit64 (a / 4) ∷ digit64 (a % 4 * 16) ∷ (if padded then b'=' ∷ b'=' ∷ [] else [])
encode64 padded (a ∷ b ∷ []) =
    digit64 (a / 4)
    ∷ digit64 (a % 4 * 16 + b / 16)
    ∷ digit64 (b % 16 * 4)
    ∷ (if padded then b'=' ∷ [] else [])
encode64 padded (a ∷ b ∷ c ∷ rest) =
    digit64 (a / 4)
    ∷ digit64 (a % 4 * 16 + b / 16)
    ∷ digit64 (b % 16 * 4 + c / 64)
    ∷ digit64 (c % 64)
    ∷ encode64 padded rest

-- Two characters make a byte, three make two, four make three; the bits left over are not looked at.
bytes_of : (x y z w : Option ℕ) → Option (ℕ × ℕ × ℕ)
bytes_of (some x) (some y) (some z) (some w) =
    some (x * 4 + y / 16, y % 16 * 16 + z / 4, z % 4 * 64 + w)
bytes_of _ _ _ _ = none

one_byte : Option (ℕ × ℕ × ℕ) → Option Text
one_byte none = none
one_byte (some (a, b, c)) = some (a ∷ [])

two_bytes : Option (ℕ × ℕ × ℕ) → Option Text
two_bytes none = none
two_bytes (some (a, b, c)) = some (a ∷ b ∷ [])

three_bytes : Option (ℕ × ℕ × ℕ) → Option Text → Option Text
three_bytes (some (a, b, c)) (some rest) = some (a ∷ b ∷ c ∷ rest)
three_bytes _ _ = none

-- Quanta of four characters, the last of which may be padded or, without padding, short.
quanta : (url padded : Bool) → Text → Option Text
unfolding value64 bytes_of one_byte two_bytes three_bytes
quanta url padded [] = some []
quanta url padded (a ∷ []) = none
quanta url padded (a ∷ b ∷ []) =
    if padded then none else one_byte (bytes_of (value64 url a) (value64 url b) (some 0) (some 0))
quanta url padded (a ∷ b ∷ c ∷ []) =
    if padded
    then none
    else two_bytes (bytes_of (value64 url a) (value64 url b) (value64 url c) (some 0))
quanta url padded (a ∷ b ∷ c ∷ d ∷ rest) =
    let tail = quanta url padded rest in
    if padded && (is_empty rest && d == b'=')
    then if c == b'='
      then one_byte (bytes_of (value64 url a) (value64 url b) (some 0) (some 0))
      else two_bytes (bytes_of (value64 url a) (value64 url b) (value64 url c) (some 0))
    else three_bytes (bytes_of (value64 url a) (value64 url b) (value64 url c) (value64 url d)) tail

-- The decoder passes over carriage returns and line feeds.
without_line_ends : Text → Text
without_line_ends [] = []
without_line_ends (c ∷ cs) =
    let rest = without_line_ends cs in if c == 13 || c == 10 then rest else c ∷ rest

-- Encoding.DecodeString; `none` is a CorruptInputError.
unfoldable pub decode64 : (url padded : Bool) → Text → Option Text
unfolding without_line_ends quanta
decode64 url padded s = quanta url padded (without_line_ends s)

-- What an encoder writes: neither white space nor a control character.
abbrev pub IsWordByte : ℕ → Type 0
IsWordByte c = (32 < c) × (c < 127)

digit64-IsWordByte : (v : ℕ) → IsWordByte (digit64 v)
unfolding digit64
digit64-IsWordByte v = ground arith

value64-digit64 : (v : ℕ) → v < 64 → value64 false (digit64 v) ≡ some v
unfolding value64 digit64
value64-digit64 v h = ground arith

digit64-ne-pad : (v : ℕ) → v < 64 → (digit64 v == b'=') ≡ false
unfolding digit64
digit64-ne-pad v h = ground arith

pub encode64-IsWord : (padded : Bool) (s : Text) → All IsWordByte (encode64 padded s)
unfolding encode64
encode64-IsWord padded [] = tt
encode64-IsWord padded (a ∷ []) =
    ground (arith, digit64-IsWordByte (a / 4), digit64-IsWordByte (a % 4 * 16))
encode64-IsWord padded (a ∷ b ∷ []) = ground (
  arith,
  digit64-IsWordByte (a / 4),
  digit64-IsWordByte (a % 4 * 16 + b / 16),
  digit64-IsWordByte (b % 16 * 4),
)
encode64-IsWord padded (a ∷ b ∷ c ∷ rest) = ground (
  arith,
  digit64-IsWordByte (a / 4),
  digit64-IsWordByte (a % 4 * 16 + b / 16),
  digit64-IsWordByte (b % 16 * 4 + c / 64),
  digit64-IsWordByte (c % 64),
  encode64-IsWord padded rest,
)

without_line_ends_word : (s : Text) → All IsWordByte s → without_line_ends s ≡ s
unfolding without_line_ends
without_line_ends_word [] h = refl
without_line_ends_word (c ∷ cs) h = ground (arith, without_line_ends_word cs)

quanta-encode64 :
    (padded : Bool) (s : Text) → IsBytes s → quanta false padded (encode64 padded s) ≡ some s
unfolding quanta encode64
quanta-encode64 padded [] h = refl
quanta-encode64 true (a ∷ []) h =
    ground (arith, value64-digit64 (a / 4), value64-digit64 (a % 4 * 16))
quanta-encode64 false (a ∷ []) h =
    ground (arith, value64-digit64 (a / 4), value64-digit64 (a % 4 * 16))
quanta-encode64 true (a ∷ b ∷ []) h = ground (
  arith,
  value64-digit64 (a / 4),
  value64-digit64 (a % 4 * 16 + b / 16),
  value64-digit64 (b % 16 * 4),
  digit64-ne-pad (b % 16 * 4),
)
quanta-encode64 false (a ∷ b ∷ []) h = ground (
  arith,
  value64-digit64 (a / 4),
  value64-digit64 (a % 4 * 16 + b / 16),
  value64-digit64 (b % 16 * 4),
)
quanta-encode64 padded (a ∷ b ∷ c ∷ rest) h = ground (
  arith,
  value64-digit64 (a / 4),
  value64-digit64 (a % 4 * 16 + b / 16),
  value64-digit64 (b % 16 * 4 + c / 64),
  value64-digit64 (c % 64),
  digit64-ne-pad (c % 64),
  quanta-encode64 padded rest,
)

-- Each standard encoding decodes what it encodes.
pub decode64-encode64 :
    (padded : Bool) (s : Text) → IsBytes s → decode64 false padded (encode64 padded s) ≡ some s
unfolding decode64
decode64-encode64 padded s h = rw (
  without_line_ends_word (encode64 padded s) (encode64-IsWord padded s),
  quanta-encode64 padded s h,
)

pub length-encode64 : (padded : Bool) (s : Text) → length (encode64 padded s) ≤ 2 * length s + 4
unfolding encode64
length-encode64 padded [] = omega arith
length-encode64 true (a ∷ []) = omega arith
length-encode64 false (a ∷ []) = omega arith
length-encode64 true (a ∷ b ∷ []) = omega arith
length-encode64 false (a ∷ b ∷ []) = omega arith
length-encode64 padded (a ∷ b ∷ c ∷ rest) = omega (arith, length-encode64 padded rest)

pub encode64-cons : (padded : Bool) (c : ℕ) (s : Text) → is_empty (encode64 padded (c ∷ s)) ≡ false
unfolding encode64
encode64-cons padded c [] = refl
encode64-cons padded c (d ∷ []) = refl
encode64-cons padded c (d ∷ e ∷ s) = refl
