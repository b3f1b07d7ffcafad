-- ===== src/Standard/KeyLaws.antt =====
-- The serialized keys: what is encoded is parsed back.
use hookbound.Base.{
  IsBytes, ◌∙◌, ap, subst, ℕ, ◌≡◌, refl, Bool, true, false, not, ◌||◌, some, ◌++◌, Text, ltb, ◌==◌,
  length, All, All-append, arith, IsWordByte, trim_space-word, trim_space, trim_prefix,
  trim_prefix-append, encode64, encode64-IsWord, decode64-encode64,
}
use hookbound.Errors.{Result, err, ◌>>=◌, ok, ◌>>◌, reject_if, invalid_configuration}
use hookbound.Standard.Keys.{
  hmac_secret_prefix, private_key_prefix, public_key_prefix, private_key_size, public_key_size,
  decode_base64, parse_hmac_secret, encode_hmac_secret, encode_private_key, parse_private_key,
  encode_public_key, parse_public_key, checked_secret, sized_key, parse_key, encode_key, first_of,
}

decode_base64-encode64 : (s : Text) → IsBytes s → decode_base64 (encode64 false s) ≡ some s
unfolding decode_base64 first_of
decode_base64-encode64 s h = rw (decode64-encode64 false s h)

-- What stands behind the prefix is decoded.
decoded :
    (prefix s : Text)
    → All IsWordByte prefix
    → IsBytes s
    → decode_base64 (trim_prefix prefix (trim_space (prefix ++ encode64 false s))) ≡ some s
decoded prefix s plain h = rw (
  trim_space-word (prefix ++ encode64 false s)
      (All-append IsWordByte prefix (encode64 false s) plain (encode64-IsWord false s)),
  trim_prefix-append prefix (encode64 false s),
  decode_base64-encode64 s h,
)

checked {ℓ} :
    {A : Type ℓ} {bad : Bool} {a b : A}
    → (reject_if bad invalid_configuration >> ok a) ≡ ok b
    → (bad ≡ false) × (a ≡ b)
checked {bad = true} h = cc
checked {bad = false} h = (refl, ground (arith, h))

in_range :
    (key : Text)
    → (ltb (length key) 24 || ltb 64 (length key)) ≡ false
    → checked_secret (some key) ≡ ok key
unfolding checked_secret
in_range key good = rw good

-- A parser that decodes, and then checks as the encoder does, reads the key back.
hmac_secret-roundtrip :
    (key text : Text)
    → IsBytes key
    → encode_hmac_secret key ≡ ok text
    → parse_hmac_secret text ≡ ok key
unfolding encode_hmac_secret parse_hmac_secret
hmac_secret-roundtrip key text h e =
    let (good, same) = checked e in
    subst (λ t. parse_hmac_secret t ≡ ok key) same
      (ap checked_secret (decoded hmac_secret_prefix key (ground arith) h) ∙ in_range key good)

sized :
    (size : ℕ) (key : Text) → not (length key == size) ≡ false → sized_key size (some key) ≡ ok key
unfolding sized_key
sized size key good = rw good

key-roundtrip :
    (prefix : Text) (size : ℕ)
    → All IsWordByte prefix
    → (key text : Text) → IsBytes key
    → encode_key prefix size key ≡ ok text
    → parse_key prefix size text ≡ ok key
unfolding encode_key parse_key
key-roundtrip prefix size plain key text h e =
    let (good, same) = checked e in
    subst (λ t. parse_key prefix size t ≡ ok key) same
      (ap (sized_key size) (decoded prefix key plain h) ∙ sized size key good)

read_back :
    {key : Text} (written : Result Text) (parse : Text → Result Text)
    → ((text : Text) → written ≡ ok text → parse text ≡ ok key)
    → (written >>= parse) ≡ (written >>= λ text. ok key)
read_back (ok text) parse h = h text refl
read_back (err e) parse h = refl

-- For a key that is a text of bytes, parsing what an encoder writes gives the key, or the encoder's
-- error: for HMAC secrets, for Ed25519 private keys and for Ed25519 public keys.
pub parse-encode :
    (key : Text)
    → IsBytes key
    → ((encode_hmac_secret key >>= parse_hmac_secret) ≡ (encode_hmac_secret key >>= λ text. ok key))
      × ((encode_private_key key >>= parse_private_key)
          ≡ (encode_private_key key >>= λ text. ok key))
      × ((encode_public_key key >>= parse_public_key) ≡ (encode_public_key key >>= λ text. ok key))
unfolding encode_private_key parse_private_key encode_public_key parse_public_key
parse-encode key h = (
  read_back (encode_hmac_secret key) parse_hmac_secret (λ text. hmac_secret-roundtrip key text h),
  read_back (encode_private_key key) parse_private_key
      (λ text. key-roundtrip private_key_prefix private_key_size (ground arith) key text h),
  read_back (encode_public_key key) parse_public_key
      (λ text. key-roundtrip public_key_prefix public_key_size (ground arith) key text h),
)
