-- ===== src/Standard/Soundness.antt =====
-- Verifier.Verify: what a success proves.
use hookbound.Base.{
  ◌≡◌, refl, sym, ◌∙◌, ℤ, subst, ◌⊎◌, inl, inr, Bool, true, false, not, ◌&&◌, ◌||◌, some, List, [],
  ◌∷◌, Text, text_eq, text_eq_iff, any, join, length, ltb, parse_int, pos, ltb_ℤ, arith, &&-eq-true,
  Option-cases,
}
use hookbound.Errors.{
  ok_inj, reject_if-ok, ok, reject_if, invalid_signature, expired_signature, >>=-eq-ok,
}
use hookbound.Http.{values}
use hookbound.Retry.{Time}
use hookbound.Message.{validate_message_id}
use hookbound.Signing.{VerifyInput, Verification}
use hookbound.Standard.{
  header_id, header_timestamp, header_signature, hmac_signature_id, ed25519_signature_id, from_unix,
  outside_tolerance, ParsedSignature, parse_signatures, single_header, signed_content,
}
use hookbound.Standard.Verifier.{
  VerifierConfig, Hmac, Verifies, verify, verify_any, receipt_time, event_type_of,
  timestamp_seconds,
}
use hookbound.Standard.AnyLaws.{
  hmac_keys_of, public_keys_of, counts, made_by, accepted_by, verify_any-eq-any,
}
use mathlib.Core.List.{Mem, mem-cons_of_mem, mem-cons_self}

||-eq-true : (a b : Bool) → (a || b) ≡ true → (a ≡ true) ⊎ (b ≡ true)
||-eq-true true b h = inl refl
||-eq-true false b h = inr h

not-not : (b : Bool) → not b ≡ false → b ≡ true
not-not true h = refl
not-not false h = cc

read_int : (text : Text) {sent : ℤ} → timestamp_seconds text ≡ ok sent → parse_int text ≡ some sent
unfolding timestamp_seconds
read_int text h = elim (Option-cases (parse_int text)) [
  | inl none_read ↦ absurd (ground (arith, none_read, h))
  | inr (n, e) ↦ ground (arith, e, h)
]

any-eq-true {ℓ} :
    {A : Type ℓ} (p : A → Bool) (xs : List A) → any p xs ≡ true → (x : A) × Mem x xs × (p x ≡ true)
any-eq-true p [] h = cc
any-eq-true p (x ∷ xs) h = elim (||-eq-true (p x) (any p xs) h) [
  | inl here ↦ (x, mem-cons_self, here)
  | inr later ↦
      let (y, among, found) = any-eq-true p xs later in (y, mem-cons_of_mem x among, found)
]

-- A trusted key vouches for a content: an HMAC key makes the signature, or a public key accepts it.
abbrev pub Vouched :
    Hmac
    → Verifies
    → (hmac_keys public_keys : List Text) → (content : Text) → ParsedSignature
    → Type 0
Vouched hmac verifies hmac_keys public_keys content s =
    (s.version ≡ hmac_signature_id)
      × ((key : Text) × Mem key hmac_keys × (s.value ≡ hmac key content))
    ⊎ (s.version ≡ ed25519_signature_id)
      × ((key : Text) × Mem key public_keys × (verifies key content s.value ≡ true))

counts-Vouched :
    (hmac : Hmac) (verifies : Verifies) (hmac_keys public_keys : List Text) (content : Text)
    (s : ParsedSignature)
    → counts hmac verifies hmac_keys public_keys content s ≡ true
    → Vouched hmac verifies hmac_keys public_keys content s
counts-Vouched hmac verifies hmac_keys public_keys content s h =
    elim (||-eq-true (made_by hmac content hmac_keys s) (accepted_by verifies content public_keys s)
      h) [
        | inl made ↦
            let (version, some_key) = &&-eq-true _ _ made in
            let (key, among, same) =
              any-eq-true (λ key. text_eq s.value (hmac key content)) hmac_keys some_key in
            inl (
              (text_eq_iff s.version hmac_signature_id).0 version,
              (key, among, (text_eq_iff s.value (hmac key content)).0 same),
            )
        | inr accepted ↦
            let (version, some_key) = &&-eq-true _ _ accepted in
            inr (
              (text_eq_iff s.version ed25519_signature_id).0 version,
              any-eq-true (λ key. verifies key content s.value) public_keys some_key,
            )
      ]

module _ (hmac : Hmac) (verifies : Verifies) (config : VerifierConfig) where
  -- One of the signatures carries the word of a key that the providers answer with.
  abbrev pub Trusted : (content : Text) → List ParsedSignature → Type 0
  Trusted content signatures =
      (hmac_keys : List Text) × (public_keys : List Text) × (s : ParsedSignature) × (hmac_keys_of
          config.hmac_keys
        ≡ ok hmac_keys)
      × (public_keys_of config.public_keys ≡ ok public_keys)
      × Mem s signatures
      × Vouched hmac verifies hmac_keys public_keys content s

  -- verifyAny succeeds only on the word of a trusted key.
  verify_any-Trusted :
      (content : Text) (signatures : List ParsedSignature)
      → verify_any hmac verifies config content signatures ≡ ok true
      → Trusted content signatures
  verify_any-Trusted content signatures h =
      let (hmac_keys, mine, rest) =
        >>=-eq-ok (hmac_keys_of config.hmac_keys) _
          (sym (verify_any-eq-any hmac verifies config content signatures) ∙ h) in
      let (public_keys, theirs, found) = >>=-eq-ok (public_keys_of config.public_keys) _ rest in
      let (s, among, counted) =
        any-eq-true (counts hmac verifies hmac_keys public_keys content) signatures
          (ok_inj found) in
      (
        hmac_keys,
        public_keys,
        s,
        mine,
        theirs,
        among,
        counts-Vouched hmac verifies hmac_keys public_keys content s counted,
      )

  -- What is known of a verification that is answered to an input.
  abbrev pub Proven : (now : Time) → VerifyInput → Verification → Type 0
  Proven now input v =
      (single_header input.headers header_id ≡ ok v.id)
      × (validate_message_id v.id ≡ ok tt)
      × ((timestamp : Text) × (sent : ℤ) × (single_header input.headers header_timestamp
            ≡ ok timestamp)
          × (parse_int timestamp ≡ some sent)
          × (v.timestamp ≡ from_unix sent)
          × ((ltb_ℤ (pos 0) config.tolerance
                && outside_tolerance (receipt_time now input) v.timestamp config.tolerance)
              ≡ false)
          × ((signatures : List ParsedSignature) × (parse_signatures
                  (join (values header_signature input.headers))
                ≡ ok signatures)
              × Trusted (signed_content v.id timestamp input.body) signatures))

  -- If Verify succeeds, then the id is that of the single id header and is valid; the timestamp is
  -- that of the single timestamp header, which is a decimal int64, and is within the tolerance, if
  -- that is positive, of the time of receipt; and one of the signatures in the header carries the
  -- word of a trusted key for exactly this id, this timestamp and this body.
  pub verify-Proven :
      (now : Time) (input : VerifyInput) (v : Verification)
      → verify hmac verifies now config input ≡ ok v
      → Proven now input v
  unfolding verify
  verify-Proven now input v h =
      let (id, one_id, h) = >>=-eq-ok (single_header input.headers header_id) _ h in
      let (_, valid_id, h) = >>=-eq-ok (validate_message_id id) _ h in
      let (timestamp, one_timestamp, h) =
        >>=-eq-ok (single_header input.headers header_timestamp) _ h in
      let (sent, read, h) = >>=-eq-ok (timestamp_seconds timestamp) _ h in
      let (_, fresh, h) =
        >>=-eq-ok
          (reject_if
            (ltb_ℤ (pos 0) config.tolerance
              && outside_tolerance (receipt_time now input) (from_unix sent) config.tolerance)
            expired_signature)
          _ h in
      let (_, _, h) =
        >>=-eq-ok
          (reject_if (ltb (length (values header_signature input.headers)) 1) invalid_signature) _
          h in
      let (signatures, parsed, h) =
        >>=-eq-ok (parse_signatures (join (values header_signature input.headers))) _ h in
      let (valid, checked, h) =
        >>=-eq-ok
          (verify_any hmac verifies config (signed_content id timestamp input.body) signatures) _
          h in
      let (_, is_valid, h) = >>=-eq-ok (reject_if (not valid) invalid_signature) _ h in
      let (event_type, _, h) = >>=-eq-ok (event_type_of config input) _ h in
      subst (Proven now input) (ok_inj h) (
        one_id,
        valid_id,
        (
          timestamp,
          sent,
          one_timestamp,
          read_int timestamp read,
          refl,
          reject_if-ok _ expired_signature fresh,
          (
            signatures,
            parsed,
            verify_any-Trusted (signed_content id timestamp input.body) signatures (
                subst
                  (λ b.
                    verify_any hmac verifies config (signed_content id timestamp input.body)
                      signatures
                    ≡ ok b)
                  (not-not valid (reject_if-ok (not valid) invalid_signature is_valid)) checked),
          ),
        ),
      )
