-- ===== src/Standard/RoundTrip.antt =====
-- What HMACSigner.Sign writes, Verifier.Verify accepts.
use hookbound.Base.{
  ◌≡◌, refl, sym, ap, subst, ◌∙◌, Bool, true, false, ◌&&◌, List, [], ◌∷◌, Text, IsBytes, join,
  length, ltb, parse_int-format_int, IsInt64, ℤ, pos, ltb_ℤ, arith,
}
use hookbound.Errors.{Result, ok, ◌>>=◌, reject_if, expired_signature, invalid_signature}
use hookbound.Http.{Header, values}
use hookbound.Message.{validate_message_id}
use hookbound.Signing.{SignInput, VerifyInput, Verification}
use hookbound.Standard.{
  header_id, header_timestamp, header_signature, unix, from_unix, outside_tolerance,
  ParsedSignature, parse_signatures, single_value, single_header, signed_content,
  validate_hmac_keys,
}
use hookbound.Standard.Signers.{sign_hmac, timestamp_text, input_content, signed_headers}
use hookbound.Standard.Verifier.{
  VerifierConfig, Hmac, Verifies, verify, verify_any, receipt_time, event_type_of,
  timestamp_seconds,
}
use hookbound.Standard.AnyLaws.{hmac_keys_of, public_keys_of, verify_any-eq-any}
use hookbound.Standard.HeaderLaws.{
  tags, found, values-signed_headers, single_value-id, single_value-int, parse_signatures-tags,
}
use hookbound.Retry.{Time}
use mathlib.Core.List.{Mem}
use hookbound.Standard.SignLaws.{
  macs_of, any-counts, length-macs_of, All-macs_of, key_count, sign_hmac-ok,
}

abbrev pub answer : VerifierConfig → SignInput → (event_type : Text) → Verification
answer config input event_type = record {
  id = input.message_id;
  event_type = event_type;
  source = config.source;
  timestamp = from_unix (unix input.timestamp);
  metadata = [];
}

abbrev pub as_received : Header → SignInput → Time → VerifyInput
as_received headers input received_at = record {
  headers = headers;
  body = input.body;
  received_at = received_at;
}

-- The time of the header, and how it is read.
timestamp_seconds-int :
    (input : SignInput)
    → IsInt64 (unix input.timestamp)
    → timestamp_seconds (timestamp_text input) ≡ ok (unix input.timestamp)
unfolding timestamp_seconds timestamp_text
timestamp_seconds-int input h =
    rw (timestamp_seconds, parse_int-format_int (unix input.timestamp) h)

timestamp_value :
    (input : SignInput) → single_value (timestamp_text input ∷ []) ≡ ok (timestamp_text input)
unfolding timestamp_text
timestamp_value input = single_value-int (unix input.timestamp)

-- Other headers may stand beside the three that are signed.
abbrev pub Carries : (signed carried : Header) → Type 0
Carries signed carried =
    (values header_id carried ≡ values header_id signed)
    × (values header_timestamp carried ≡ values header_timestamp signed)
    × (values header_signature carried ≡ values header_signature signed)

step {ℓ κ} :
    {T : Type ℓ} {U : Type κ} {call : Result T} {value : T} (next : T → Result U)
    → call ≡ ok value
    → (call >>= next) ≡ next value
step next h = ap (λ r. r >>= next) h

within :
    (strict outside : Bool)
    → outside ≡ false
    → reject_if (strict && outside) expired_signature ≡ ok tt
within true outside h = rw h
within false outside h = refl

module _ (hmac : Hmac) (verifies : Verifies) (config : VerifierConfig) (now : Time) where
  -- One trusted key among those that signed is enough.
  verify_any-signed :
      (content key : Text) (keys trusted public_keys : List Text)
      → hmac_keys_of config.hmac_keys ≡ ok trusted
      → public_keys_of config.public_keys ≡ ok public_keys
      → Mem key keys
      → Mem key trusted
      → verify_any hmac verifies config content (found (macs_of hmac content keys)) ≡ ok true
  verify_any-signed content key keys trusted public_keys mine theirs signed known =
      verify_any-eq-any hmac verifies config content (found (macs_of hmac content keys))
      ∙ rw
          (mine, theirs, any-counts hmac verifies content key keys trusted public_keys signed known)

  -- Verify, when every step _ before the extraction of the event type succeeds.
  verify-steps :
      (input : VerifyInput) (id timestamp signature : Text) (sent : ℤ)
      (signatures : List ParsedSignature)
      → single_header input.headers header_id ≡ ok id
      → validate_message_id id ≡ ok tt
      → single_header input.headers header_timestamp ≡ ok timestamp
      → timestamp_seconds timestamp ≡ ok sent
      → outside_tolerance (receipt_time now input) (from_unix sent) config.tolerance ≡ false
      → values header_signature input.headers ≡ signature ∷ []
      → parse_signatures (join (signature ∷ [])) ≡ ok signatures
      → verify_any hmac verifies config (signed_content id timestamp input.body) signatures
        ≡ ok true
      → verify hmac verifies now config input ≡ (
          event_type_of config input >>= λ event_type. ok (record {
            id = id;
            event_type = event_type;
            source = config.source;
            timestamp = from_unix sent;
            metadata = [];
          }))
  unfolding verify
  verify-steps input id timestamp signature sent signatures one_id valid one_timestamp read near
        one_signature parsed trusted =
      step _ one_id
      ∙ step _ valid
      ∙ step _ one_timestamp
      ∙ step _ read
      ∙ step _ (within (ltb_ℤ (pos 0) config.tolerance) _ near)
      ∙ step _ (ap (λ vs. reject_if (ltb (length vs) 1) invalid_signature) one_signature)
      ∙ step _ (ap (λ vs. parse_signatures (join vs)) one_signature ∙ parsed)
      ∙ step _ trusted

  -- A delivery that carries the three headers, and the body, of an attempt is accepted.
  pub verify-carried :
      ((key content : Text) → IsBytes (hmac key content) × (length (hmac key content) ≡ 32))
      → (key : Text) (keys trusted public_keys : List Text) (input : SignInput)
        (received : VerifyInput)
      → hmac_keys_of config.hmac_keys ≡ ok trusted
      → public_keys_of config.public_keys ≡ ok public_keys
      → Mem key keys
      → Mem key trusted
      → IsInt64 (unix input.timestamp)
      → outside_tolerance
          (receipt_time now received)
          (from_unix (unix input.timestamp))
          config.tolerance
        ≡ false
      → validate_message_id input.message_id ≡ ok tt
      → validate_hmac_keys keys ≡ ok tt
      → Carries
          (signed_headers input.message_id
            (timestamp_text input)
            (tags (macs_of hmac (input_content input) keys)))
          received.headers
      → received.body ≡ input.body
      → verify hmac verifies now config received
        ≡ (event_type_of config received >>= λ event_type. ok (answer config input event_type))
  unfolding single_header signed_content input_content
  verify-carried mac key keys trusted public_keys input received mine theirs signed known in_range
        near valid usable (same_id, same_time, same_signature) same_body =
      let macs = macs_of hmac (input_content input) keys in
      let (ids, times, signatures) =
        values-signed_headers input.message_id (timestamp_text input) (tags macs) in
      let (some_key, few) = key_count keys usable in
      verify-steps received input.message_id (timestamp_text input) (join (tags macs))
        (unix input.timestamp) (found macs)
        (ap single_value (same_id ∙ ids) ∙ single_value-id input.message_id valid) valid
        (ap single_value (same_time ∙ times) ∙ timestamp_value input)
        (timestamp_seconds-int input in_range) near (same_signature ∙ signatures)
        (parse_signatures-tags macs
          (omega (arith, some_key, length-macs_of hmac (input_content input) keys))
          (omega (arith, few, length-macs_of hmac (input_content input) keys))
          (All-macs_of hmac (input_content input) (λ k. mac k (input_content input)) keys))
        (subst
          (λ body.
            verify_any hmac verifies config
              (signed_content input.message_id (timestamp_text input) body) (found macs)
            ≡ ok true)
          (sym same_body)
          (verify_any-signed (input_content input) key keys trusted public_keys mine theirs signed
            known))

  -- Given that HMAC-SHA256 answers with 32 bytes: what HMACSigner.Sign writes for an attempt whose
  -- Unix time fits in an int64, a verifier that trusts one of its keys, whose providers answer with
  -- usable keys, and that receives the body within its tolerance, accepts with the attempt's id,
  -- its time in whole seconds and the extracted event type, and fails only if the extraction fails.
  pub verify-sign_hmac :
      ((key content : Text) → IsBytes (hmac key content) × (length (hmac key content) ≡ 32))
      → (key : Text) (keys trusted public_keys : List Text) (input : SignInput) (headers : Header)
        (received_at : Time)
      → hmac_keys_of config.hmac_keys ≡ ok trusted
      → public_keys_of config.public_keys ≡ ok public_keys
      → Mem key keys
      → Mem key trusted
      → IsInt64 (unix input.timestamp)
      → outside_tolerance
          (receipt_time now (as_received headers input received_at))
          (from_unix (unix input.timestamp))
          config.tolerance
        ≡ false
      → sign_hmac hmac (ok keys) input ≡ ok headers
      → verify hmac verifies now config (as_received headers input received_at) ≡ (
          event_type_of config (as_received headers input received_at) >>= λ event_type.
          ok (answer config input event_type))
  verify-sign_hmac mac key keys trusted public_keys input headers received_at mine theirs signed
        known in_range near h =
      let (valid, usable, same) = sign_hmac-ok hmac keys input headers h in
      verify-carried mac key keys trusted public_keys input (as_received headers input received_at)
        mine theirs signed known in_range near valid usable
        (
          ap (values header_id) same,
          ap (values header_timestamp) same,
          ap (values header_signature) same,
        )
        refl
