-- ===== src/Standard/Keys.antt =====
-- standard/standard.go: the serialized forms of HMAC and Ed25519 keys.
use hookbound.Base.{
  ℕ, true, false, not, ◌||◌, Option, none, some, List, [], ◌∷◌, ◌++◌, Text, codes, ltb, ◌==◌,
  length, trim_space, trim_prefix, decode64, encode64,
}
use hookbound.Errors.{
  Result, ok, err, coded, ◌>>=◌, ◌>>◌, reject_if, recode, invalid_configuration, internal,
}

abbrev pub hmac_secret_prefix : Text
hmac_secret_prefix = codes "whsec_"

abbrev pub private_key_prefix : Text
private_key_prefix = codes "whsk_"

abbrev pub public_key_prefix : Text
public_key_prefix = codes "whpk_"

-- ed25519.PrivateKeySize, ed25519.PublicKeySize
abbrev pub private_key_size : ℕ
private_key_size = 64

abbrev pub public_key_size : ℕ
public_key_size = 32

unfoldable pub first_of : Option Text → Option Text → Option Text
first_of (some s) other = some s
first_of none other = other

-- decodeBase64: the encodings in the order of the loop.
unfoldable pub decode_base64 : Text → Option Text
unfolding first_of
decode_base64 value = first_of (decode64 false false value) (
    first_of (decode64 false true value)
      (first_of (decode64 true false value) (decode64 true true value)))

unfoldable pub checked_secret : Option Text → Result Text
checked_secret none = err (coded invalid_configuration)
checked_secret (some key) = do
  reject_if (ltb (length key) 24 || ltb 64 (length key)) invalid_configuration
  ok key

-- ParseHMACSecret
unfoldable pub parse_hmac_secret : Text → Result Text
unfolding decode_base64 checked_secret
parse_hmac_secret value =
    checked_secret (decode_base64 (trim_prefix hmac_secret_prefix (trim_space value)))

-- EncodeHMACSecret
unfoldable pub encode_hmac_secret : (key : Text) → Result Text
encode_hmac_secret key = do
  reject_if (ltb (length key) 24 || ltb 64 (length key)) invalid_configuration
  ok (hmac_secret_prefix ++ encode64 false key)

-- GenerateHMACSecret; the parameter is what io.ReadFull makes of the reader for so many bytes.
unfoldable pub generate_hmac_secret : (read_full : ℕ → Result Text) → Result Text
unfolding encode_hmac_secret
generate_hmac_secret read_full = recode internal (read_full 32) >>= encode_hmac_secret

-- StaticHMACKeys, up to the provider, which answers with a copy of the keys.
parse_secrets : List Text → Result (List Text)
unfolding parse_hmac_secret
parse_secrets [] = ok []
parse_secrets (secret ∷ secrets) = do
  key ← parse_hmac_secret secret
  keys ← parse_secrets secrets
  ok (key ∷ keys)

unfoldable pub static_hmac_keys : List Text → Result (List Text)
unfolding parse_secrets
static_hmac_keys secrets = do
  reject_if (ltb (length secrets) 1) invalid_configuration
  parse_secrets secrets

unfoldable pub encode_key : (prefix : Text) → (size : ℕ) → Text → Result Text
encode_key prefix size key = do
  reject_if (not (length key == size)) invalid_configuration
  ok (prefix ++ encode64 false key)

unfoldable pub sized_key : (size : ℕ) → Option Text → Result Text
sized_key size none = err (coded invalid_configuration)
sized_key size (some key) = do reject_if (not (length key == size)) invalid_configuration; ok key

unfoldable pub parse_key : (prefix : Text) → (size : ℕ) → Text → Result Text
unfolding decode_base64 sized_key
parse_key prefix size value = sized_key size (decode_base64 (trim_prefix prefix (trim_space value)))

-- EncodePrivateKey, ParsePrivateKey
unfoldable pub encode_private_key : Text → Result Text
unfolding encode_key
encode_private_key key = encode_key private_key_prefix private_key_size key

unfoldable pub parse_private_key : Text → Result Text
unfolding parse_key
parse_private_key value = parse_key private_key_prefix private_key_size value

-- EncodePublicKey, ParsePublicKey
unfoldable pub encode_public_key : Text → Result Text
unfolding encode_key
encode_public_key key = encode_key public_key_prefix public_key_size key

unfoldable pub parse_public_key : Text → Result Text
unfolding parse_key
parse_public_key value = parse_key public_key_prefix public_key_size value

-- GenerateEd25519KeyPair; the parameter is the key pair, public first, that ed25519.GenerateKey
-- makes of the reader.
unfoldable pub generate_ed25519_key_pair : (generated : Result (Text × Text)) → Result (Text × Text)
unfolding encode_public_key encode_private_key
generate_ed25519_key_pair generated = do
  pair ← recode internal generated
  public_encoded ← encode_public_key pair.0
  private_encoded ← encode_private_key pair.1
  ok (public_encoded, private_encoded)
