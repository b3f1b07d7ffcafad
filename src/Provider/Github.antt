-- ===== src/Provider/Github.antt =====
-- provider/github/github.go. HMAC-SHA256 and the JSON decoder are parameters.
use hookbound.Base.{
  Bool, true, not, ◌||◌, Option, none, some, List, [], ◌∷◌, ◌++◌, Text, codes, text_eq, is_empty,
  length, ◌==◌, trim_space, contains_line_break, decode_hex, strip,
}
use hookbound.Errors.{
  Result, ok, err, coded, ◌>>=◌, ◌>>◌, reject_if, recode, invalid_configuration, invalid_signature,
  internal,
}
use hookbound.Http.{values}
use hookbound.Message.{validate_message_id, validate_event_type}
use hookbound.Signing.{VerifyInput, Verification}
use hookbound.Auth.{SecretProvider}

-- Verifier
pub record Verifier : Type 0 where
  pub secret : SecretProvider
  pub include_action : Bool

-- NewVerifier
unfoldable pub new_verifier : SecretProvider → Result Verifier
new_verifier none = err (coded invalid_configuration)
new_verifier (some secret) = ok (record { secret = some secret; include_action = true })

-- single, of the header's values.
unfoldable pub single_of : List Text → Result Text
single_of (v ∷ []) =
    reject_if (is_empty (trim_space v) || contains_line_break v) invalid_signature
    >> ok (trim_space v)
single_of _ = err (coded invalid_signature)

-- The signature header: the prefix, 64 digits, and what they encode.
unfoldable pub decoded_hex : Option Text → Result Text
decoded_hex none = err (coded invalid_signature)
decoded_hex (some received) = ok received

unfoldable pub parse_signature : Text → Result Text
unfolding decoded_hex
parse_signature signature = elim (strip (codes "sha256=") signature) [
  | none ↦ err (coded invalid_signature)
  | some encoded ↦
      reject_if (not (length encoded == 64)) invalid_signature >> decoded_hex (decode_hex encoded)
]

-- `v.Secret == nil`
unfoldable pub configured : SecretProvider → Result (Result Text)
configured none = err (coded invalid_configuration)
configured (some provided) = ok provided

-- A provider that fails and an empty secret are refused alike.
unfoldable pub usable_secret : (provided : Result Text) → Result Text
usable_secret provided = do
  secret ← recode internal provided
  reject_if (is_empty secret) internal
  ok secret

-- The event type and the metadata; the action is `none` where the body is no JSON object.
unfoldable pub describe :
    (include_action : Bool) → (event : Text) → (action : Option Text) → Text × List (Text × Text)
describe true event (some (c ∷ cs)) =
    (event ++ b'.' ∷ c ∷ cs, (codes "github_event", event) ∷ (codes "github_action", c ∷ cs) ∷ [])
describe _ event _ = (event, (codes "github_event", event) ∷ [])

module _ (hmac : (key content : Text) → Text) (action_of : Text → Option Text) where
  -- Verifier.Verify
  unfoldable pub verify : Verifier → VerifyInput → Result Verification
  unfolding single_of configured parse_signature usable_secret describe
  verify v input = do
    provided ← configured v.secret
    delivery ← single_of (values (codes "X-Github-Delivery") input.headers)
    validate_message_id delivery
    event ← single_of (values (codes "X-Github-Event") input.headers)
    signature ← single_of (values (codes "X-Hub-Signature-256") input.headers)
    received ← parse_signature signature
    secret ← usable_secret provided
    reject_if (not (text_eq received (hmac secret input.body))) invalid_signature
    let (event_type, metadata) = describe v.include_action event (action_of input.body)
    validate_event_type event_type
    ok (record {
      id = delivery;
      event_type = event_type;
      source = codes "github";
      timestamp = input.received_at;
      metadata = metadata;
    })
