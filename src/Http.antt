-- ===== src/Http.antt =====
-- The parts of net/http that the program uses: header maps and their canonical keys, statuses.
-- A header map is an association list; Go leaves the order of a map's keys open.
use hookbound.Base.{
  ℕ, ◌+◌, ◌-◌, ◌≡◌, Bool, true, not, ◌&&◌, ◌||◌, List, [], ◌∷◌, ◌++◌, Text, codes, text_eq,
  contains_byte, leb, ◌==◌, if◌then◌else◌, all, arith, text_eq_iff,
}

abbrev pub Header : Type 0
Header = List (Text × List Text)

-- The token bytes: textproto.validHeaderFieldByte, and the loop of `validHeaderName`.
unfoldable pub token_byte : ℕ → Bool
token_byte c =
    leb b'a' c && leb c b'z'
    || (leb b'A' c && leb c b'Z'
        || (leb b'0' c && leb c b'9' || contains_byte c (codes "!#$%&'*+-.^_`|~")))

canonical_bytes : (upper : Bool) → Text → Text
canonical_bytes upper [] = []
canonical_bytes upper (c ∷ cs) =
    let lowercase = leb b'a' c && leb c b'z' in
    let uppercase = leb b'A' c && leb c b'Z' in
    let c' = if upper && lowercase then c - 32 else if not upper && uppercase then c + 32 else c in
    c' ∷ canonical_bytes (c' == b'-') cs

-- http.CanonicalHeaderKey
unfoldable pub canonical_key : Text → Text
unfolding canonical_bytes token_byte contains_byte
canonical_key name = if all token_byte name then canonical_bytes true name else name

-- The values stored under a key, which is taken as it stands.
unfoldable pub stored : Text → Header → List Text
stored key [] = []
stored key ((k, vs) ∷ h) = if text_eq k key then vs else stored key h

-- Header.Values, Header.Get
unfoldable pub values : Text → Header → List Text
values name h = stored (canonical_key name) h

unfoldable pub get : Text → Header → Text
unfolding values
get name h = elim (values name h) [ [] ↦ [] | v ∷ vs ↦ v ]

unfoldable pub remove : Text → Header → Header
remove key [] = []
remove key ((k, vs) ∷ h) = let rest = remove key h in if text_eq k key then rest else (k, vs) ∷ rest

-- Header.Del
unfoldable pub del : Text → Header → Header
del name h = remove (canonical_key name) h

-- Header.Set
unfoldable pub set : Text → Text → Header → Header
set name value h = (canonical_key name, value ∷ []) ∷ del name h

-- Header.Add
unfoldable pub add : Text → Text → Header → Header
add name value h = (canonical_key name, values name h ++ value ∷ []) ∷ del name h

pub stored-remove :
    (key other : Text) (h : Header)
    → stored other (remove key h) ≡ (if text_eq key other then [] else stored other h)
unfolding stored remove
stored-remove key other [] = ground arith
stored-remove key other ((k, vs) ∷ h) = ground (
  arith,
  stored-remove key other h,
  text_eq_iff k key,
  text_eq_iff k other,
  text_eq_iff key other,
)
