-- ===== src/Base/Hex.antt =====
-- encoding/hex, and strings.Split at one byte.
use Prim.Native.Nat.{ℕ, ◌+◌, ◌-◌, ◌*◌}
use mathlib.Core.Bool.{◌&&◌}
use mathlib.Core.Option.{Option, none, some}
use mathlib.Core.List.{List, [], ◌∷◌}
use hookbound.Base.Tests.{leb, ◌==◌, if◌then◌else◌}
use hookbound.Base.Strings.{Text}

nibble : ℕ → Option ℕ
nibble c =
    if leb b'0' c && leb c b'9'
    then some (c - b'0')
    else if leb b'a' c && leb c b'f'
    then some (c - b'a' + 10)
    else if leb b'A' c && leb c b'F'
    then some (c - b'A' + 10)
    else none

join_nibbles : (high low : Option ℕ) → Option Text → Option Text
join_nibbles (some h) (some l) (some rest) = some ((h * 16 + l) ∷ rest)
join_nibbles _ _ _ = none

-- hex.DecodeString
unfoldable pub decode_hex : Text → Option Text
unfolding nibble join_nibbles
decode_hex [] = some []
decode_hex (c ∷ []) = none
decode_hex (c ∷ d ∷ rest) = join_nibbles (nibble c) (nibble d) (decode_hex rest)

pieces : (separator : ℕ) → Text → Text × List Text
pieces separator [] = ([], [])
pieces separator (c ∷ cs) =
    let (first, more) = pieces separator cs in
    if c == separator then ([], first ∷ more) else (c ∷ first, more)

-- strings.Split
unfoldable pub split : (separator : ℕ) → Text → List Text
unfolding pieces
split separator s = let (first, more) = pieces separator s in first ∷ more
