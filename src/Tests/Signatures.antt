-- ===== src/Tests/Signatures.antt =====
-- Tests of standard/ and provider/, with a checksum in the place of HMAC-SHA256.
use hookbound.Base.{
  strip, decode_hex, is_empty, trim_space, contains_byte, format_int, format_digits, ◌-ℤ◌, ◌+ℤ◌,
  encode64, decode64, contains_line_break, digits_value, is_digit, parse_digits, signed, cut,
  decode_rune, is_space, leading_space, runes, fields, ℕ, zero, suc, ◌+◌, ◌*◌, ◌%◌, ◌<◌, ◌≡◌, refl,
  Bool, true, false, Option, none, some, [], ◌∷◌, ◌++◌, Text, any, IsBytes, codes, length, pos,
  arith, text_eq, parse_int, join, IsInt64,
}
use hookbound.Errors.{ok, ◌>>=◌}
use hookbound.Http.{Header, values, stored, canonical_key, token_byte}
use hookbound.Outcome.{time_sub}
use hookbound.Retry.{Time, seconds}
use hookbound.Message.{validate_message_id, validate_event_type, event_rune}
use hookbound.Signing.{SignInput, VerifyInput, Verification}
use hookbound.Standard.{
  single_header, single_value, parse_signatures, parse_fields, parse_signature, validate_hmac_keys,
  signed_content, unix, from_unix, outside_tolerance,
}
use hookbound.Standard.Signers.{sign_hmac, signed_headers, tagged, input_content, timestamp_text}
use hookbound.Standard.Verifier.{
  any_ed25519, any_hmac, ed25519_round, ed25519_rounds, hmac_round, hmac_rounds, timestamp_seconds,
  VerifierConfig, verify, verify_any, receipt_time, event_type_of,
}
use hookbound.Standard.Keys.{
  encode_hmac_secret, parse_hmac_secret, encode_private_key, parse_private_key, encode_public_key,
  parse_public_key,
}
use hookbound.Standard.ContentLaws.{signed_content-Injective}
use hookbound.Standard.KeyLaws.{parse-encode}
use hookbound.Standard.AnyLaws.{verify_any-eq-any, hmac_keys_of, public_keys_of, counts}
use hookbound.Standard.Soundness.{verify-Proven, Proven}
use hookbound.Standard.RoundTrip.{verify-sign_hmac, as_received, answer}
use hookbound.Provider.Github
use hookbound.Provider.Github.{single_of}
use hookbound.Provider.Stripe
use hookbound.Provider.Laws.{github-verify}
use mathlib.Core.List.{mem-cons_of_mem, mem-cons_self}

abbrev pub fill : ℕ → ℕ → Text
fill zero b = []
fill (suc n) b = b ∷ fill n b

abbrev pub sum : Text → ℕ
sum [] = 0
sum (c ∷ cs) = c + sum cs

abbrev pub checksum : (key content : Text) → Text
checksum key content = fill 32 (sum (key ++ content) % 256)

fill-IsBytes : (n b : ℕ) → b < 256 → IsBytes (fill n b)
fill-IsBytes zero b h = tt
fill-IsBytes (suc n) b h = (h, fill-IsBytes n b h)

pub checksum-IsMac :
    (key content : Text) → IsBytes (checksum key content) × (length (checksum key content) ≡ 32)
checksum-IsMac key content = (fill-IsBytes 32 (sum (key ++ content) % 256) (omega arith), refl)

abbrev pub nobody : (key content signature : Text) → Bool
nobody key content signature = false

abbrev pub a_key : Text
a_key = fill 24 1

abbrev pub config : VerifierConfig
config = record {
  hmac_keys = some (ok (fill 32 2 ∷ a_key ∷ []));
  public_keys = none;
  tolerance = seconds 300;
  source = codes "test";
  extract_type = none;
  allow_no_type = true;
}

abbrev pub sent_at : Time
sent_at = pos ((1_000 + 62_135_596_800) * 1_000_000_000 + 5)

abbrev pub arrival : Time
arrival = pos ((1_200 + 62_135_596_800) * 1_000_000_000)

abbrev input : SignInput
input = record { message_id = codes "msg_1"; timestamp = sent_at; body = codes "{}"; headers = [] }

abbrev pub a_tag : Text
a_tag = codes "v1,BAQEBAQEBAQEBAQEBAQEBAQEBAQEBAQEBAQEBAQEBAQ="

abbrev pub headers : Header
headers =
    (codes "Webhook-Id", codes "msg_1" ∷ [])
    ∷ (codes "Webhook-Timestamp", codes "1000" ∷ [])
    ∷ (codes "Webhook-Signature", a_tag ∷ [])
    ∷ []

signs : sign_hmac checksum (ok (a_key ∷ [])) input ≡ ok headers
unfolding sign_hmac validate_message_id text_eq trim_space contains_byte validate_hmac_keys
    format_int join unix ◌-ℤ◌ encode64 decode_rune is_space leading_space runes signed_content
    signed_headers tagged input_content timestamp_text format_digits
signs = refl

abbrev verified : Verification
verified = record {
  id = codes "msg_1";
  event_type = codes "unknown";
  source = codes "test";
  timestamp = pos ((1_000 + 62_135_596_800) * 1_000_000_000);
  metadata = [];
}

verifies : verify checksum nobody arrival config (as_received headers input (pos 0)) ≡ ok verified
unfolding verify single_header single_value values stored text_eq canonical_key trim_space
    contains_line_break validate_message_id parse_int outside_tolerance from_unix ◌+ℤ◌ time_sub ◌-ℤ◌
    parse_signatures decode64 digits_value is_digit parse_digits signed contains_byte cut
    decode_rune is_space leading_space runes fields join token_byte any_ed25519 any_hmac
    ed25519_round ed25519_rounds event_type_of hmac_round hmac_rounds receipt_time timestamp_seconds
    verify_any parse_fields parse_signature signed_content validate_hmac_keys
verifies = refl

signed_content-Injective_example :
    (codes "msg_1" ≡ codes "msg_1") × (codes "1000" ≡ codes "1000") × (codes "{.}" ≡ codes "{.}")
signed_content-Injective_example =
    signed_content-Injective (codes "msg_1") (codes "msg_1") (codes "1000") (codes "1000")
      (codes "{.}") (codes "{.}") (ground arith) (ground arith) (ground arith) (ground arith) refl

parse-encode_example :
    ((encode_hmac_secret a_key >>= parse_hmac_secret)
      ≡ (encode_hmac_secret a_key >>= λ text. ok a_key))
    × ((encode_private_key a_key >>= parse_private_key)
        ≡ (encode_private_key a_key >>= λ text. ok a_key))
    × ((encode_public_key a_key >>= parse_public_key)
        ≡ (encode_public_key a_key >>= λ text. ok a_key))
parse-encode_example = parse-encode a_key (fill-IsBytes 24 1 (omega arith))

verify_any-eq-any_example : verify_any checksum nobody config (codes "hi") [] ≡ (
    hmac_keys_of config.hmac_keys >>= λ hmac_keys.
    public_keys_of config.public_keys >>= λ public_keys.
    ok (any (counts checksum nobody hmac_keys public_keys (codes "hi")) []))
verify_any-eq-any_example = verify_any-eq-any checksum nobody config (codes "hi") []

verify-Proven_example :
    Proven checksum nobody config arrival (as_received headers input (pos 0)) verified
verify-Proven_example =
    verify-Proven checksum nobody config arrival (as_received headers input (pos 0)) verified
      verifies

keys_usable : hmac_keys_of config.hmac_keys ≡ ok (fill 32 2 ∷ a_key ∷ [])
unfolding validate_hmac_keys
keys_usable = refl

timely :
    outside_tolerance
      (receipt_time arrival (as_received headers input (pos 0)))
      (from_unix (unix sent_at))
      config.tolerance
    ≡ false
unfolding outside_tolerance receipt_time from_unix unix ◌+ℤ◌ ◌-ℤ◌ time_sub
timely = refl

pub sent_at-IsInt64 : IsInt64 (unix sent_at)
unfolding unix ◌-ℤ◌
sent_at-IsInt64 = ground arith

verify-sign_hmac_example :
    verify checksum nobody arrival config (as_received headers input (pos 0)) ≡ (
      event_type_of config (as_received headers input (pos 0)) >>= λ event_type.
      ok (answer config input event_type))
verify-sign_hmac_example =
    verify-sign_hmac checksum nobody config arrival checksum-IsMac a_key (a_key ∷ [])
      (fill 32 2 ∷ a_key ∷ []) [] input headers (pos 0) keys_usable refl mem-cons_self
      (mem-cons_of_mem (fill 32 2) mem-cons_self) sent_at-IsInt64 timely signs

abbrev github_input : VerifyInput
github_input = record {
  headers =
      (codes "X-Github-Delivery", codes "d1" ∷ [])
      ∷ (codes "X-Github-Event", codes "push" ∷ [])
      ∷ (
        codes "X-Hub-Signature-256",
        codes "sha256=7e7e7e7e7e7e7e7e7e7e7e7e7e7e7e7e7e7e7e7e7e7e7e7e7e7e7e7e7e7e7e7e" ∷ [],
      )
      ∷ [];
  body = codes "{}";
  received_at = pos 7;
}

abbrev github_verifier : Github.Verifier
github_verifier = record { secret = some (ok (codes "secret")); include_action = true }

abbrev github_verified : Verification
github_verified = record {
  id = codes "d1";
  event_type = codes "push.opened";
  source = codes "github";
  timestamp = pos 7;
  metadata = (codes "github_event", codes "push") ∷ (codes "github_action", codes "opened") ∷ [];
}

abbrev opened : Text → Option Text
opened body = some (codes "opened")

github_verifies : Github.verify checksum opened github_verifier github_input ≡ ok github_verified
unfolding Github.verify values stored text_eq canonical_key trim_space contains_line_break
    validate_message_id strip decode_hex validate_event_type event_rune
github_verifies = refl

github-verify_example :
    ((secret : Text) × (github_verifier.secret ≡ some (ok secret))
      × (is_empty secret ≡ false)
      × ((signature : Text) × (single_of (values (codes "X-Hub-Signature-256") github_input.headers)
            ≡ ok signature)
          × (Github.parse_signature signature ≡ ok (checksum secret github_input.body))))
    × (single_of (values (codes "X-Github-Delivery") github_input.headers) ≡ ok github_verified.id)
    × (validate_message_id github_verified.id ≡ ok tt)
    × (validate_event_type github_verified.event_type ≡ ok tt)
    × (github_verified.timestamp ≡ github_input.received_at)
github-verify_example =
    github-verify checksum opened github_verifier github_input github_verified github_verifies

abbrev stripe_input : VerifyInput
stripe_input = record {
  headers =
      (
        codes "Stripe-Signature",
        codes "t=1000,v0=00,v1=6d6d6d6d6d6d6d6d6d6d6d6d6d6d6d6d6d6d6d6d6d6d6d6d6d6d6d6d6d6d6d6d"
            ∷ [],
      )
      ∷ [];
  body = codes "{}";
  received_at = pos 0;
}

abbrev stripe_verifier : Stripe.Verifier
stripe_verifier = record { secret = some (ok (codes "secret")); tolerance = seconds 300 }

abbrev stripe_verified : Verification
stripe_verified = record {
  id = codes "evt_1";
  event_type = codes "charge.paid";
  source = codes "stripe";
  timestamp = pos ((1_000 + 62_135_596_800) * 1_000_000_000);
  metadata = [];
}

abbrev paid : Text → Option (Text × Text)
paid body = some (codes "evt_1", codes "charge.paid")
