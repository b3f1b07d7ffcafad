-- ===== src/Sender/EndToEnd.antt =====
-- Sender.Send with an HMACSigner at one end, the Standard Webhooks Verifier at the other.
use hookbound.Base.{
  pos, ◌≡◌, sym, ap, subst, ◌∙◌, Bool, false, Option, List, [], ◌∷◌, Text, IsBytes, IsInt64, length,
}
use hookbound.Errors.{Result, ok, ◌>>=◌, >>=-eq-ok, ok_inj}
use hookbound.Http.{Header}
use hookbound.Retry.{Time, Duration}
use hookbound.Message.{HttpRequest, SendRequest, validate_headers, validate_message_id}
use hookbound.Signing.{SignInput, VerifyInput, Verification}
use hookbound.Outcome.{Response}
use hookbound.Transport.{Url}
use hookbound.Sender.{
  Sender, Authenticator, identify, unsigned, authenticate, build, send, sign_input, copy_headers,
  copy_all,
}
use hookbound.Sender.Headers.{values-copy_signed}
use hookbound.Sender.Laws.{identified_of, dispatched, unsigned-ok, identify-ok}
use hookbound.Standard.{unix, from_unix, outside_tolerance, validate_hmac_keys}
use hookbound.Standard.Signers.{sign_hmac, timestamp_text, input_content, signed_headers}
use hookbound.Standard.Verifier.{
  VerifierConfig, Hmac, Verifies, verify, receipt_time, event_type_of,
}
use hookbound.Standard.AnyLaws.{hmac_keys_of, public_keys_of}
use hookbound.Standard.HeaderLaws.{values-signed_headers, tags}
use hookbound.Standard.SignLaws.{macs_of, sign_hmac-ok}
use hookbound.Standard.RoundTrip.{Carries, verify-carried}
use mathlib.Core.List.{Mem}

-- An authenticator that leaves the signature headers and the body alone.
abbrev pub KeepsSigned : Authenticator → Type 0
KeepsSigned apply =
    (request http : HttpRequest)
    → apply request ≡ ok http
    → Carries request.header http.header × (http.body ≡ request.body)

copied-Carries :
    (id timestamp : Text) (signatures : List Text) (h : Header)
    → Carries
        (signed_headers id timestamp signatures)
        (copy_all (signed_headers id timestamp signatures) h)
copied-Carries id timestamp signatures h =
    let (id₁, time₁, signature₁) = values-copy_signed id timestamp signatures h in
    let (id₂, time₂, signature₂) = values-signed_headers id timestamp signatures in
    (id₁ ∙ sym id₂, time₁ ∙ sym time₂, signature₁ ∙ sym signature₂)

Carries-trans : (a b c : Header) → Carries a b → Carries b c → Carries a c
Carries-trans a b c (id₁, time₁, signature₁) (id₂, time₂, signature₂) =
    (id₂ ∙ id₁, time₂ ∙ time₁, signature₂ ∙ signature₁)

copy_headers-ok :
    (destination source copied : Header)
    → copy_headers destination source ≡ ok copied
    → copied ≡ copy_all source destination
unfolding copy_headers
copy_headers-ok destination source copied h =
    let (_, _, h) = >>=-eq-ok (validate_headers source) _ h in sym (ok_inj h)

-- What a sender with an HMACSigner builds carries the signature of what it is built from.
built-Carries :
    (hmac : Hmac) (keys : List Text) (creates : Text → Bool) (s : Sender) (now : Time)
    (request : SendRequest) (http : HttpRequest)
    → s.signer ≡ sign_hmac hmac (ok keys)
    → KeepsSigned (authenticate request.auth s.authenticator)
    → build creates s now request ≡ ok http
    → (plain : HttpRequest) × (plain.body ≡ request.body)
      × (validate_message_id request.id ≡ ok tt)
      × (validate_hmac_keys keys ≡ ok tt)
      × Carries
          (signed_headers request.id
            (timestamp_text (sign_input now request plain))
            (tags (macs_of hmac (input_content (sign_input now request plain)) keys)))
          http.header
      × (http.body ≡ plain.body)
unfolding build
built-Carries hmac keys creates s now request http signs keeps h =
    let (plain, made, h) = >>=-eq-ok (unsigned creates s request) _ h in
    let (signature, signed, h) = >>=-eq-ok (s.signer (sign_input now request plain)) _ h in
    let (header, copied, h) = >>=-eq-ok (copy_headers plain.header signature) _ h in
    let (valid, usable, same) = sign_hmac-ok hmac keys (sign_input now request plain) signature (
      sym (ap (λ (sign : SignInput → Result Header). sign (sign_input now request plain)) signs)
      ∙ signed) in
    let (carried, body) = keeps (record plain { header = header }) http h in
    (
      plain,
      (unsigned-ok creates s request plain made).2,
      valid,
      usable,
      Carries-trans _ header http.header
          (subst
            (Carries (
              signed_headers request.id (timestamp_text (sign_input now request plain))
                (tags (macs_of hmac (input_content (sign_input now request plain)) keys))))
            (sym (
              copy_headers-ok plain.header signature header copied
              ∙ ap (λ source. copy_all source plain.header) same))
            (copied-Carries request.id (timestamp_text (sign_input now request plain))
              (tags (macs_of hmac (input_content (sign_input now request plain)) keys))
              plain.header))
          carried,
      body,
    )

identify-auth :
    (parse : Text → Option Url) (s : Sender) (new_id : Result Text)
    (request identified : SendRequest)
    → identify parse s new_id request ≡ ok identified
    → identified.auth ≡ request.auth
identify-auth parse s new_id request identified h =
    let (_, _, same) = identify-ok parse s new_id request identified h in
    ap (λ (r : SendRequest). r.auth) same

-- The request as a receiver with its own clock sees it.
abbrev pub received : HttpRequest → VerifyInput
received http = record { headers = http.header; body = http.body; received_at = pos 0 }

abbrev pub accepted :
    VerifierConfig → (id : Text) → (at : Time) → (event_type : Text) → Verification
accepted config id at event_type = record {
  id = id;
  event_type = event_type;
  source = config.source;
  timestamp = from_unix (unix at);
  metadata = [];
}

module _ (hmac : Hmac) (verifies : Verifies) (config : VerifierConfig) (arrival : Time) where
  -- Let a sender sign with HMAC keys, one of which a verifier trusts, and authenticate in a way that
  -- leaves the signature headers and the body alone. Given that HMAC-SHA256 answers with 32 bytes
  -- and that the attempt's Unix time fits in an int64: the request that Send sends is accepted by
  -- the verifier on arrival within its tolerance, with the id that Send has chosen and the
  -- attempt's time in whole seconds, unless the extraction of the event type fails.
  pub send-verify :
      ((key content : Text) → IsBytes (hmac key content) × (length (hmac key content) ≡ 32))
      → (key : Text) (keys trusted public_keys : List Text) (parse : Text → Option Url)
        (creates : Text → Bool) (client : HttpRequest → Option Response) (elapsed : Duration)
        (s : Sender) (now : Time) (new_id : Result Text) (request : SendRequest)
        (http : HttpRequest)
      → hmac_keys_of config.hmac_keys ≡ ok trusted
      → public_keys_of config.public_keys ≡ ok public_keys
      → Mem key keys
      → Mem key trusted
      → IsInt64 (unix now)
      → outside_tolerance
          (receipt_time arrival (received http))
          (from_unix (unix now))
          config.tolerance
        ≡ false
      → s.signer ≡ sign_hmac hmac (ok keys)
      → KeepsSigned (authenticate request.auth s.authenticator)
      → (send parse creates client elapsed s now new_id request).sent ≡ http ∷ []
      → (identified : SendRequest) × (identify parse s new_id request ≡ ok identified)
        × (verify hmac verifies arrival config (received http) ≡ (
            event_type_of config (received http) >>= λ event_type.
            ok (accepted config identified.id now event_type)))
  unfolding send
  send-verify mac key keys trusted public_keys parse creates client elapsed s now new_id request
        http mine theirs signed known in_range near signs keeps h =
      let (identified, e, h) =
        identified_of creates client elapsed s now (identify parse s new_id request) http h in
      let same_auth = identify-auth parse s new_id request identified e in
      let (plain, _, valid, usable, carried, body) =
        built-Carries hmac keys creates s now identified http signs
          (subst (λ auth. KeepsSigned (authenticate auth s.authenticator)) (sym same_auth) keeps)
          (dispatched creates client elapsed s now identified.id (build creates s now identified)
            http h) in
      (
        identified,
        e,
        verify-carried hmac verifies config arrival mac key keys trusted public_keys
            (sign_input now identified plain) (received http) mine theirs signed known in_range near
            valid usable carried body,
      )
