-- ===== src/Provider/Laws.antt =====
-- What a success of the provider verifiers proves.
use hookbound.Base.{
  ◌≡◌, refl, sym, ap, subst, ◌∙◌, Bool, true, false, not, Option, none, some, List, Text, codes,
  text_eq, text_eq_iff, is_empty, arith,
}
use hookbound.Errors.{
  Result, ok, err, reject_if, invalid_signature, internal, ok_inj, reject_if-ok, >>=-eq-ok,
}
use hookbound.Http.{values}
use hookbound.Message.{validate_message_id, validate_event_type}
use hookbound.Signing.{VerifyInput, Verification}
use hookbound.Auth.{SecretProvider}
use hookbound.Provider.Github
use hookbound.Provider.Github.{configured, usable_secret, single_of, parse_signature, describe}
use hookbound.Provider.Stripe

configured-ok :
    (secret : SecretProvider) (provided : Result Text)
    → configured secret ≡ ok provided
    → secret ≡ some provided
unfolding configured
configured-ok none provided h = absurd (ground (arith, h))
configured-ok (some p) provided h = ap some (ok_inj h)

usable_secret-ok :
    (provided : Result Text) (secret : Text)
    → usable_secret provided ≡ ok secret
    → (provided ≡ ok secret) × (is_empty secret ≡ false)
unfolding usable_secret
usable_secret-ok (err e) secret h = absurd (ground (arith, h))
usable_secret-ok (ok s) secret h =
    let (_, some_byte, h) = >>=-eq-ok (reject_if (is_empty s) internal) _ h in
    (h, subst (λ t. is_empty t ≡ false) (ok_inj h) (reject_if-ok (is_empty s) internal some_byte))

not-false : (b : Bool) → not b ≡ false → b ≡ true
not-false true h = refl
not-false false h = cc

module _ (hmac : (key content : Text) → Text) (action_of : Text → Option Text) where
  -- If GitHub's verifier succeeds, then the configured secret is there and is not empty; the single
  -- signature header is the hexadecimal form of the MAC of exactly this body under this secret; the
  -- id is the valid one of the single delivery header; the event type is valid; and the timestamp
  -- is the time of receipt.
  pub github-verify :
      (v : Github.Verifier) (input : VerifyInput) (r : Verification)
      → Github.verify hmac action_of v input ≡ ok r
      → ((secret : Text) × (v.secret ≡ some (ok secret))
          × (is_empty secret ≡ false)
          × ((signature : Text) × (single_of (values (codes "X-Hub-Signature-256") input.headers)
                ≡ ok signature)
              × (parse_signature signature ≡ ok (hmac secret input.body))))
        × (single_of (values (codes "X-Github-Delivery") input.headers) ≡ ok r.id)
        × (validate_message_id r.id ≡ ok tt)
        × (validate_event_type r.event_type ≡ ok tt)
        × (r.timestamp ≡ input.received_at)
  unfolding Github.verify
  github-verify v input r h =
      let (provided, set, h) = >>=-eq-ok (configured v.secret) _ h in
      let (delivery, one_id, h) =
        >>=-eq-ok (single_of (values (codes "X-Github-Delivery") input.headers)) _ h in
      let (_, valid_id, h) = >>=-eq-ok (validate_message_id delivery) _ h in
      let (event, _, h) =
        >>=-eq-ok (single_of (values (codes "X-Github-Event") input.headers)) _ h in
      let (signature, one_signature, h) =
        >>=-eq-ok (single_of (values (codes "X-Hub-Signature-256") input.headers)) _ h in
      let (received, parsed, h) = >>=-eq-ok (parse_signature signature) _ h in
      let (secret, usable, h) = >>=-eq-ok (usable_secret provided) _ h in
      let (_, same, h) =
        >>=-eq-ok (reject_if (not (text_eq received (hmac secret input.body))) invalid_signature) _
          h in
      let (_, valid_type, h) =
        >>=-eq-ok (validate_event_type (describe v.include_action event (action_of input.body)).0) _
          h in
      let (answered, some_byte) = usable_secret-ok provided secret usable in
      let is_mac =
        (text_eq_iff received (hmac secret input.body)).0
          (not-false _ (reject_if-ok _ invalid_signature same)) in
      (
        (
          secret,
          configured-ok v.secret provided set ∙ ap some answered,
          some_byte,
          (signature, one_signature, parsed ∙ ap ok is_mac),
        ),
        one_id ∙ ap (λ (r : Verification). ok r.id) (ok_inj h),
        subst (λ (r : Verification). validate_message_id r.id ≡ ok tt) (ok_inj h) valid_id,
        subst (λ (r : Verification). validate_event_type r.event_type ≡ ok tt) (ok_inj h)
            valid_type,
        sym (ap (λ (r : Verification). r.timestamp) (ok_inj h)),
      )
