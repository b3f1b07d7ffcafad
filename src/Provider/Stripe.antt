-- ===== src/Provider/Stripe.antt =====
-- provider/stripe/stripe.go. HMAC-SHA256 and the JSON decoder are parameters.
use hookbound.Base.{
  Bool, true, false, not, ◌&&◌, ◌||◌, Option, none, some, List, [], ◌∷◌, ◌++◌, Text, codes, text_eq,
  ltb, ◌==◌, length, cut, split, trim_space, decode_hex, parse_int, format_int, if◌then◌else◌, ℤ,
  pos, ltb_ℤ,
}
use hookbound.Errors.{
  Result, ok, err, coded, ◌>>=◌, ◌>>◌, reject_if, invalid_configuration, invalid_signature,
  expired_signature, decode_failed,
}
use hookbound.Http.{values}
use hookbound.Retry.{Time, Duration, is_zero_time, seconds}
use hookbound.Message.{validate_message_id, validate_event_type}
use hookbound.Signing.{VerifyInput, Verification}
use hookbound.Auth.{SecretProvider}
use hookbound.Standard.{unix, from_unix, outside_tolerance}
use hookbound.Provider.Github.{configured, usable_secret}

-- Verifier
pub record Verifier : Type 0 where
  pub secret : SecretProvider
  pub tolerance : Duration

-- NewVerifier
unfoldable pub new_verifier : SecretProvider → Result Verifier
new_verifier none = err (coded invalid_configuration)
new_verifier (some secret) = ok (record { secret = some secret; tolerance = seconds 300 })

-- The variables of the loop of parseHeader.
pub record Parsed : Type 0 where
  pub timestamp : Time
  pub timestamp_set : Bool
  pub signatures : List Text

unfoldable pub add_timestamp : Option ℤ → Parsed → Result Parsed
add_timestamp none p = err (coded invalid_signature)
add_timestamp (some s) p = ok (record p { timestamp = from_unix s; timestamp_set = true })

unfoldable pub add_signature : Option Text → Parsed → Result Parsed
add_signature none p = err (coded invalid_signature)
add_signature (some decoded) p = ok (record p { signatures = p.signatures ++ decoded ∷ [] })

-- One round of the loop; a component that is no assignment, or of another key, is passed over.
unfoldable pub parse_component : Text → Parsed → Result Parsed
unfolding add_timestamp add_signature
parse_component component p =
    let (key, raw, found) = cut b'=' (trim_space component) in
    if not found
    then ok p
    else if text_eq key (codes "t")
    then reject_if p.timestamp_set invalid_signature >> add_timestamp (parse_int raw) p
    else if text_eq key (codes "v1")
    then add_signature (decode_hex raw) p
    else ok p

unfoldable pub parse_components : List Text → Parsed → Result Parsed
unfolding parse_component
parse_components [] p = ok p
parse_components (component ∷ components) p =
    parse_component component p >>= parse_components components

-- parseHeader
unfoldable pub parse_header : Text → Result Parsed
unfolding parse_components
parse_header value = do
  reject_if (ltb 8192 (length value)) invalid_signature
  reject_if (ltb 64 (length (split b',' value))) invalid_signature
  p ←
      parse_components (split b',' value)
        (record { timestamp = pos 0; timestamp_set = false; signatures = [] })
  reject_if
      (is_zero_time p.timestamp || (ltb (length p.signatures) 1 || ltb 16 (length p.signatures)))
      invalid_signature
  ok p

-- Exactly one Stripe-Signature header.
unfoldable pub only_value : List Text → Result Text
only_value (v ∷ []) = ok v
only_value _ = err (coded invalid_signature)

-- The loop over the signatures, which goes through all of them.
unfoldable pub compare_all : (expected : Text) → List Text → (valid : Bool) → Bool
compare_all expected [] valid = valid
compare_all expected (s ∷ signatures) valid =
    compare_all expected signatures
      (if length s == length expected then valid || text_eq s expected else valid)

unfoldable pub decoded_event : Option (Text × Text) → Result (Text × Text)
decoded_event none = err (coded decode_failed)
decoded_event (some event) = ok event

-- What Stripe signs.
unfoldable pub stripe_content : Time → (body : Text) → Text
stripe_content timestamp body = format_int (unix timestamp) ++ b'.' ∷ body

-- `event_of` answers with the id and the type of a JSON object.
module _ (hmac : (key content : Text) → Text) (event_of : Text → Option (Text × Text)) where
  -- Verifier.Verify; `now` is what time.Now answers.
  unfoldable pub verify : (now : Time) → Verifier → VerifyInput → Result Verification
  unfolding parse_header only_value compare_all decoded_event stripe_content
  verify now v input = do
    provided ← configured v.secret
    reject_if (ltb_ℤ v.tolerance (pos 0)) invalid_configuration
    value ← only_value (values (codes "Stripe-Signature") input.headers)
    p ← parse_header value
    let received_at = if is_zero_time input.received_at then now else input.received_at
    reject_if (ltb_ℤ (pos 0) v.tolerance && outside_tolerance received_at p.timestamp v.tolerance)
        expired_signature
    secret ← usable_secret provided
    reject_if
        (not (compare_all (hmac secret (stripe_content p.timestamp input.body)) p.signatures false))
        invalid_signature
    event ← decoded_event (event_of input.body)
    validate_message_id event.0
    validate_event_type event.1
    ok (record {
      id = event.0;
      event_type = event.1;
      source = codes "stripe";
      timestamp = p.timestamp;
      metadata = [];
    })
