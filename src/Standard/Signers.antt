-- ===== src/Standard/Signers.antt =====
-- standard/standard.go: HMACSigner and Ed25519Signer. A provider's answer is a value: a list of keys,
-- or an error.
use hookbound.Base.{
  Bool, true, not, ◌||◌, Option, none, some, List, [], ◌∷◌, ◌++◌, Text, ltb, ◌==◌, length, map,
  join, encode64, format_int,
}
use hookbound.Errors.{
  Result, ok, err, coded, ◌>>=◌, ◌>>◌, reject_if, recode, invalid_configuration, invalid_message,
  internal,
}
use hookbound.Http.{Header}
use hookbound.Retry.{is_zero_time}
use hookbound.Message.{validate_message_id}
use hookbound.Signing.{SignInput}
use hookbound.Standard.{
  header_id, header_timestamp, header_signature, hmac_signature_id, ed25519_signature_id, unix,
  signed_content, validate_hmac_keys,
}

-- What both signers answer with.
unfoldable pub signed_headers : (message_id timestamp : Text) → (signatures : List Text) → Header
signed_headers message_id timestamp signatures =
    (header_id, message_id ∷ [])
    ∷ (header_timestamp, timestamp ∷ [])
    ∷ (header_signature, join signatures ∷ [])
    ∷ []

unfoldable pub tagged : (version signature : Text) → Text
tagged version signature = version ++ b',' ∷ encode64 true signature

-- The strconv.FormatInt of the attempt's Unix time.
unfoldable pub timestamp_text : SignInput → Text
timestamp_text input = format_int (unix input.timestamp)

unfoldable pub input_content : SignInput → Text
unfolding timestamp_text
input_content input = signed_content input.message_id (timestamp_text input) input.body

module _ (hmac : (key content : Text) → Text) where
  -- HMACSigner.Sign; `keys` is the answer of the provider.
  unfoldable pub sign_hmac : (keys : Result (List Text)) → SignInput → Result Header
  unfolding signed_headers tagged input_content timestamp_text
  sign_hmac provided input = do
    validate_message_id input.message_id
    reject_if (is_zero_time input.timestamp) invalid_message
    keys ← recode internal provided
    validate_hmac_keys keys
    ok (
        signed_headers input.message_id (timestamp_text input)
          (map (λ key. tagged hmac_signature_id (hmac key (input_content input))) keys))

-- A crypto.Signer: whether its public key is an Ed25519 key, and what it answers to a message.
pub record KeySigner : Type 0 where
  pub is_ed25519 : Bool
  pub sign : Text → Result Text

all_ed25519 : List (Option KeySigner) → Result (List KeySigner)
all_ed25519 [] = ok []
all_ed25519 (none ∷ signers) = err (coded invalid_configuration)
all_ed25519 (some signer ∷ signers) = do
  reject_if (not signer.is_ed25519) invalid_configuration
  others ← all_ed25519 signers
  ok (signer ∷ others)

-- NewEd25519Signer; `none` is a nil signer.
unfoldable pub new_ed25519_signer : List (Option KeySigner) → Result (List KeySigner)
unfolding all_ed25519
new_ed25519_signer signers = do
  reject_if (ltb (length signers) 1 || ltb 16 (length signers)) invalid_configuration
  all_ed25519 signers

-- The loop of Ed25519Signer.Sign; a signature takes 64 bytes.
unfoldable pub ed25519_signatures : Text → List KeySigner → Result (List Text)
unfolding tagged
ed25519_signatures content [] = ok []
ed25519_signatures content (signer ∷ signers) = do
  signature ← recode internal (signer.sign content)
  reject_if (not (length signature == 64)) internal
  others ← ed25519_signatures content signers
  ok (tagged ed25519_signature_id signature ∷ others)

-- Ed25519Signer.Sign
unfoldable pub sign_ed25519 : List KeySigner → SignInput → Result Header
unfolding ed25519_signatures signed_headers input_content timestamp_text
sign_ed25519 signers input = do
  reject_if (ltb (length signers) 1) invalid_configuration
  validate_message_id input.message_id
  reject_if (is_zero_time input.timestamp) invalid_message
  signatures ← ed25519_signatures (input_content input) signers
  ok (signed_headers input.message_id (timestamp_text input) signatures)
