-- ===== src/Standard/Verifier.antt =====
-- standard/standard.go: Verifier. A provider's answer is a value: a list of keys, or an error.
use hookbound.Base.{
  Bool, true, false, not, ◌&&◌, ◌||◌, Option, none, some, List, [], ◌∷◌, Text, codes, ltb, ◌==◌,
  length, text_eq, is_empty, join, parse_int, if◌then◌else◌, ℤ, pos, ltb_ℤ,
}
use hookbound.Errors.{
  Result, ok, err, coded, ◌>>=◌, ◌>>◌, reject_if, recode, invalid_configuration, invalid_signature,
  expired_signature, decode_failed, internal,
}
use hookbound.Http.{Header, values}
use hookbound.Retry.{Time, Duration, is_zero_time, seconds}
use hookbound.Message.{validate_message_id, validate_event_type}
use hookbound.Signing.{VerifyInput, Verification}
use hookbound.Standard.{
  header_id, header_timestamp, header_signature, hmac_signature_id, ed25519_signature_id, from_unix,
  outside_tolerance, ParsedSignature, parse_signatures, single_header, signed_content,
  validate_hmac_keys,
}
use hookbound.Standard.Keys.{public_key_size}

-- VerifierConfig; a nil interface or function is `none`.
pub record VerifierConfig : Type 0 where
  pub hmac_keys : Option (Result (List Text))
  pub public_keys : Option (Result (List Text))
  pub tolerance : Duration
  pub source : Text
  pub extract_type : Option (Text → Header → Result Text)
  pub allow_no_type : Bool

is_some {ℓ} : {A : Type ℓ} → Option A → Bool
is_some none = false
is_some (some a) = true

-- JSONTypeField; `decode` answers with the `type` of the first JSON value of a text and with the
-- text behind it, and `at_end` tells whether a further value is answered by io.EOF.
module _ (decode : Text → Option (Text × Text)) (at_end : Text → Bool) where
  unfoldable pub json_type_field : Text → Header → Result Text
  json_type_field body headers = elim (decode body) [
    | none ↦ err (coded decode_failed)
    | some (type, rest) ↦
        (reject_if (not (at_end rest)) decode_failed >> validate_event_type type >> ok type)
  ]

-- NewVerifier, with the default extractor.
unfoldable pub new_verifier :
    (default_extractor : Text → Header → Result Text) → VerifierConfig → Result VerifierConfig
unfolding is_some
new_verifier default_extractor config = do
  reject_if (not (is_some config.hmac_keys || is_some config.public_keys)) invalid_configuration
  reject_if (ltb_ℤ config.tolerance (pos 0)) invalid_configuration
  ok (record config {
    tolerance = if is_zero_time config.tolerance then seconds 300 else config.tolerance;
    source = if is_empty config.source then codes "standard-webhooks" else config.source;
    extract_type =
        if not (is_some config.extract_type) && not config.allow_no_type
        then some default_extractor
        else config.extract_type;
  })

-- One HMAC key: the inner loop, which goes through all the signatures whatever it has found.
unfoldable pub hmac_round : (expected : Text) → List ParsedSignature → (valid : Bool) → Bool
hmac_round expected [] valid = valid
hmac_round expected (s ∷ signatures) valid = hmac_round expected signatures (
    if text_eq s.version hmac_signature_id && length s.value == length expected
    then valid || text_eq s.value expected
    else valid)

-- HMAC-SHA256 of a key and a message; ed25519.Verify of a key, a message and a signature.
abbrev pub Hmac : Type 0
Hmac = (key content : Text) → Text

abbrev pub Verifies : Type 0
Verifies = (key content signature : Text) → Bool

module _ (hmac : Hmac) where
  unfoldable pub hmac_rounds :
      (content : Text) → List ParsedSignature → (keys : List Text) → (valid : Bool) → Bool
  unfolding hmac_round
  hmac_rounds content signatures [] valid = valid
  hmac_rounds content signatures (key ∷ keys) valid =
      hmac_rounds content signatures keys (hmac_round (hmac key content) signatures valid)

  -- The first half of verifyAny; `none` is a nil provider.
  unfoldable pub any_hmac :
      Option (Result (List Text)) → (content : Text) → List ParsedSignature → Result Bool
  unfolding hmac_rounds
  any_hmac none content signatures = ok false
  any_hmac (some provided) content signatures = do
    keys ← recode internal provided
    validate_hmac_keys keys
    ok (hmac_rounds content signatures keys false)

module _ (verifies : Verifies) where
  unfoldable pub ed25519_round : (key content : Text) → List ParsedSignature → (valid : Bool) → Bool
  ed25519_round key content [] valid = valid
  ed25519_round key content (s ∷ signatures) valid = ed25519_round key content signatures (
      if text_eq s.version ed25519_signature_id && verifies key content s.value
      then true
      else valid)

  unfoldable pub ed25519_rounds :
      (content : Text) → List ParsedSignature → (keys : List Text) → (valid : Bool) → Result Bool
  unfolding ed25519_round
  ed25519_rounds content signatures [] valid = ok valid
  ed25519_rounds content signatures (key ∷ keys) valid = do
    reject_if (not (length key == public_key_size)) invalid_configuration
    ed25519_rounds content signatures keys (ed25519_round key content signatures valid)

  -- The second half.
  unfoldable pub any_ed25519 :
      Option (Result (List Text))
      → (content : Text) → List ParsedSignature
      → (valid : Bool) → Result Bool
  unfolding ed25519_rounds
  any_ed25519 none content signatures valid = ok valid
  any_ed25519 (some provided) content signatures valid = do
    keys ← recode internal provided
    reject_if (ltb (length keys) 1 || ltb 16 (length keys)) invalid_configuration
    ed25519_rounds content signatures keys valid

-- The instant at which a delivery counts as received: `now` is what time.Now answers.
unfoldable pub receipt_time : (now : Time) → VerifyInput → Time
receipt_time now input = if is_zero_time input.received_at then now else input.received_at

unfoldable pub event_type_of : VerifierConfig → VerifyInput → Result Text
event_type_of config input = elim config.extract_type [
  | none ↦ ok (codes "unknown")
  | some extract ↦ extract input.body input.headers
]

unfoldable pub timestamp_seconds : Text → Result ℤ
timestamp_seconds text = elim (parse_int text) [
  | none ↦ err (coded invalid_signature)
  | some s ↦ ok s
]

module _ (hmac : Hmac) (verifies : Verifies) where
  -- Verifier.verifyAny
  unfoldable pub verify_any : VerifierConfig → (content : Text) → List ParsedSignature → Result Bool
  unfolding any_hmac any_ed25519
  verify_any config content signatures =
      any_hmac hmac config.hmac_keys content signatures
      >>= any_ed25519 verifies config.public_keys content signatures

  -- Verifier.Verify
  unfoldable pub verify : (now : Time) → VerifierConfig → VerifyInput → Result Verification
  unfolding verify_any receipt_time event_type_of timestamp_seconds
  verify now config input = do
    message_id ← single_header input.headers header_id
    validate_message_id message_id
    timestamp ← single_header input.headers header_timestamp
    sent ← timestamp_seconds timestamp
    reject_if
        (ltb_ℤ (pos 0) config.tolerance
          && outside_tolerance (receipt_time now input) (from_unix sent) config.tolerance)
        expired_signature
    reject_if (ltb (length (values header_signature input.headers)) 1) invalid_signature
    signatures ← parse_signatures (join (values header_signature input.headers))
    valid ← verify_any config (signed_content message_id timestamp input.body) signatures
    reject_if (not valid) invalid_signature
    event_type ← event_type_of config input
    ok (record {
      id = message_id;
      event_type = event_type;
      source = config.source;
      timestamp = from_unix sent;
      metadata = [];
    })
