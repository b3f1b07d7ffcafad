-- ===== src/Standard/AnyLaws.antt =====
-- verifyAny: the loops over keys and signatures compute one Boolean, whatever their order.
use hookbound.Base.{
  ◌≡◌, refl, sym, ap, ◌∙◌, Bool, true, false, not, ◌&&◌, ◌||◌, Option, none, some, List, [], ◌∷◌,
  Text, ltb, ◌==◌, length, text_eq, any, arith, if◌then◌else◌,
}
use hookbound.Errors.{
  >>=-assoc, >>=-congr, Result, ok, err, ◌>>=◌, ◌>>◌, reject_if, recode, invalid_configuration,
  internal,
}
use hookbound.Standard.{
  hmac_signature_id, ed25519_signature_id, ParsedSignature, validate_hmac_keys,
}
use hookbound.Standard.Keys.{public_key_size}
use hookbound.Standard.Verifier.{
  VerifierConfig, Hmac, Verifies, hmac_round, hmac_rounds, ed25519_round, ed25519_rounds, any_hmac,
  any_ed25519, verify_any,
}

-- The keys that are trusted; a provider that is nil has none.
abbrev pub hmac_keys_of : Option (Result (List Text)) → Result (List Text)
hmac_keys_of none = ok []
hmac_keys_of (some provided) = do keys ← recode internal provided; validate_hmac_keys keys; ok keys

abbrev pub key_sizes : List Text → Result (Unit {0})
key_sizes [] = ok tt
key_sizes (key ∷ keys) = do
  reject_if (not (length key == public_key_size)) invalid_configuration
  key_sizes keys

abbrev pub public_keys_of : Option (Result (List Text)) → Result (List Text)
public_keys_of none = ok []
public_keys_of (some provided) = do
  keys ← recode internal provided
  reject_if (ltb (length keys) 1 || ltb 16 (length keys)) invalid_configuration
  key_sizes keys
  ok keys

text_eq-length : (s t : Text) → (length s == length t && text_eq s t) ≡ text_eq s t
unfolding text_eq
text_eq-length [] [] = refl
text_eq-length [] (y ∷ ys) = ground arith
text_eq-length (x ∷ xs) [] = ground arith
text_eq-length (x ∷ xs) (y ∷ ys) = ground (arith, text_eq-length xs ys)

-- A disjunction in the test splits a search; an impossible test finds nothing.
any-or {ℓ} :
    {A : Type ℓ} (p q : A → Bool) (xs : List A) → any (λ x. p x || q x) xs ≡ (any p xs || any q xs)
any-or p q [] = refl
any-or p q (x ∷ xs) = ground (arith, any-or p q xs)

any-never {ℓ} : {A : Type ℓ} (p : A → Bool) (xs : List A) → any (λ x. p x && false) xs ≡ false
any-never p [] = refl
any-never p (x ∷ xs) = ground (arith, any-never p xs)

any_congr {ℓ} :
    {A : Type ℓ} (p q : A → Bool) (xs : List A) → ((x : A) → p x ≡ q x) → any p xs ≡ any q xs
any_congr p q [] h = refl
any_congr p q (x ∷ xs) h = rw (h x, any_congr p q xs h)

or_assoc : (a b c : Bool) → ((a || b) || c) ≡ (a || (b || c))
or_assoc true b c = refl
or_assoc false b c = refl

or_false : (b : Bool) → (b || false) ≡ b
or_false true = refl
or_false false = refl

and_or : (a b c : Bool) → (a && (b || c)) ≡ (a && b || a && c)
and_or true b c = refl
and_or false b c = refl

round-step :
    (valid version sized same rest : Bool)
    → (sized && same) ≡ same
    → ((if version && sized then valid || same else valid) || rest)
      ≡ (valid || (version && same || rest))
round-step true true true same rest h = refl
round-step false true true same rest h = refl
round-step valid true false same rest h = ground arith
round-step valid false sized same rest h = refl

hmac_round-any :
    (expected : Text) (signatures : List ParsedSignature) (valid : Bool)
    → hmac_round expected signatures valid ≡ (
        valid
        || any (λ s. text_eq s.version hmac_signature_id && text_eq s.value expected) signatures)
unfolding hmac_round
hmac_round-any expected [] valid = sym (or_false valid)
hmac_round-any expected (s ∷ signatures) valid =
    hmac_round-any expected signatures _
    ∙ round-step valid (text_eq s.version hmac_signature_id) (length s.value == length expected)
        (text_eq s.value expected) _ (text_eq-length s.value expected)

-- A search for either of two things, after a search for the first.
any-and_or {ℓ} :
    {A : Type ℓ} (valid : Bool) (p q r : A → Bool) (xs : List A)
    → ((valid || any (λ x. p x && q x) xs) || any (λ x. p x && r x) xs)
      ≡ (valid || any (λ x. p x && (q x || r x)) xs)
any-and_or valid p q r xs =
    or_assoc valid (any (λ x. p x && q x) xs) (any (λ x. p x && r x) xs)
    ∙ ap (λ b. valid || b)
        (sym (any-or (λ x. p x && q x) (λ x. p x && r x) xs)
          ∙ any_congr (λ x. p x && q x || p x && r x) (λ x. p x && (q x || r x)) xs
              (λ x. sym (and_or (p x) (q x) (r x))))

any-none {ℓ} :
    {A : Type ℓ} (valid : Bool) (p : A → Bool) (xs : List A)
    → valid ≡ (valid || any (λ x. p x && false) xs)
any-none valid p xs = rw (any-never p xs) (sym (or_false valid))

abbrev pub made_by : Hmac → (content : Text) → (keys : List Text) → ParsedSignature → Bool
made_by hmac content keys s =
    text_eq s.version hmac_signature_id && any (λ key. text_eq s.value (hmac key content)) keys

abbrev pub accepted_by : Verifies → (content : Text) → (keys : List Text) → ParsedSignature → Bool
accepted_by verifies content keys s =
    text_eq s.version ed25519_signature_id && any (λ key. verifies key content s.value) keys

-- A signature counts if its version is `v1` and a trusted HMAC key makes it, or if its version is
-- `v1a` and a trusted public key accepts it.
abbrev pub counts :
    Hmac → Verifies → (hmac_keys public_keys : List Text) → Text → ParsedSignature → Bool
counts hmac verifies hmac_keys public_keys content s =
    made_by hmac content hmac_keys s || accepted_by verifies content public_keys s

hmac_rounds-any :
    (hmac : Hmac) (content : Text) (signatures : List ParsedSignature) (keys : List Text)
    (valid : Bool)
    → hmac_rounds hmac content signatures keys valid
      ≡ (valid || any (made_by hmac content keys) signatures)
unfolding hmac_rounds
hmac_rounds-any hmac content signatures [] valid =
    any-none valid (λ (s : ParsedSignature). text_eq s.version hmac_signature_id) signatures
hmac_rounds-any hmac content signatures (key ∷ keys) valid =
    hmac_rounds-any hmac content signatures keys _
    ∙ ap (λ b. b || any (made_by hmac content keys) signatures)
        (hmac_round-any (hmac key content) signatures valid)
    ∙ any-and_or valid (λ (s : ParsedSignature). text_eq s.version hmac_signature_id)
        (λ s. text_eq s.value (hmac key content))
        (λ s. any (λ key. text_eq s.value (hmac key content)) keys) signatures

ed25519-step :
    (valid version same rest : Bool)
    → ((if version && same then true else valid) || rest) ≡ (valid || (version && same || rest))
ed25519-step true true true rest = refl
ed25519-step false true true rest = refl
ed25519-step valid true false rest = refl
ed25519-step valid false same rest = refl

ed25519_round-any :
    (verifies : Verifies) (key content : Text) (signatures : List ParsedSignature) (valid : Bool)
    → ed25519_round verifies key content signatures valid ≡ (
        valid
        || any
            (λ s. text_eq s.version ed25519_signature_id && verifies key content s.value)
            signatures)
unfolding ed25519_round
ed25519_round-any verifies key content [] valid = sym (or_false valid)
ed25519_round-any verifies key content (s ∷ signatures) valid =
    ed25519_round-any verifies key content signatures _
    ∙ ed25519-step valid (text_eq s.version ed25519_signature_id) (verifies key content s.value) _

ed25519_rounds-any :
    (verifies : Verifies) (content : Text) (signatures : List ParsedSignature) (keys : List Text)
    (valid : Bool)
    → ed25519_rounds verifies content signatures keys valid
      ≡ (key_sizes keys >> ok (valid || any (accepted_by verifies content keys) signatures))
unfolding ed25519_rounds
ed25519_rounds-any verifies content signatures [] valid =
    ap ok
      (any-none valid (λ (s : ParsedSignature). text_eq s.version ed25519_signature_id) signatures)
ed25519_rounds-any verifies content signatures (key ∷ keys) valid =
    ap (λ r. reject_if (not (length key == public_key_size)) invalid_configuration >> r)
      (ed25519_rounds-any verifies content signatures keys _
        ∙ ap (λ b. key_sizes keys >> ok b)
            (ap (λ b. b || any (accepted_by verifies content keys) signatures)
                (ed25519_round-any verifies key content signatures valid)
              ∙ any-and_or valid (λ (s : ParsedSignature). text_eq s.version ed25519_signature_id)
                  (λ s. verifies key content s.value)
                  (λ s. any (λ key. verifies key content s.value) keys) signatures))
    ∙ sym (>>=-assoc (reject_if (not (length key == public_key_size)) invalid_configuration) _ _)

any_hmac-eq :
    (hmac : Hmac) (provided : Option (Result (List Text))) (content : Text)
    (signatures : List ParsedSignature)
    → any_hmac hmac provided content signatures
      ≡ (hmac_keys_of provided >>= λ keys. ok (any (made_by hmac content keys) signatures))
unfolding any_hmac
any_hmac-eq hmac none content signatures =
    ap ok (any-none false (λ (s : ParsedSignature). text_eq s.version hmac_signature_id) signatures)
any_hmac-eq hmac (some (err e)) content signatures = refl
any_hmac-eq hmac (some (ok keys)) content signatures =
    ap (λ b. validate_hmac_keys keys >> ok b) (hmac_rounds-any hmac content signatures keys false)
    ∙ sym (>>=-assoc (validate_hmac_keys keys) _ _)

any_ed25519-eq :
    (verifies : Verifies) (provided : Option (Result (List Text))) (content : Text)
    (signatures : List ParsedSignature) (valid : Bool)
    → any_ed25519 verifies provided content signatures valid ≡ (
        public_keys_of provided >>= λ keys.
        ok (valid || any (accepted_by verifies content keys) signatures))
unfolding any_ed25519
any_ed25519-eq verifies none content signatures valid =
    ap ok
      (any-none valid (λ (s : ParsedSignature). text_eq s.version ed25519_signature_id) signatures)
any_ed25519-eq verifies (some (err e)) content signatures valid = refl
any_ed25519-eq verifies (some (ok keys)) content signatures valid =
    let bad_count = reject_if (ltb (length keys) 1 || ltb 16 (length keys)) invalid_configuration in
    ap (λ r. bad_count >> r)
      (ed25519_rounds-any verifies content signatures keys valid
        ∙ sym (>>=-assoc (key_sizes keys) _ _))
    ∙ sym (>>=-assoc bad_count _ _)

-- verifyAny, with its accumulator and its loops over keys and signatures, is: resolve the trusted
-- keys, HMAC keys first, refuse if a provider fails or its keys are unusable, and otherwise ask
-- whether some signature counts.
pub verify_any-eq-any :
    (hmac : Hmac) (verifies : Verifies) (config : VerifierConfig) (content : Text)
    (signatures : List ParsedSignature)
    → verify_any hmac verifies config content signatures ≡ (
        hmac_keys_of config.hmac_keys >>= λ hmac_keys.
        public_keys_of config.public_keys >>= λ public_keys.
        ok (any (counts hmac verifies hmac_keys public_keys content) signatures))
unfolding verify_any
verify_any-eq-any hmac verifies config content signatures =
    ap (λ r. r >>= any_ed25519 verifies config.public_keys content signatures)
      (any_hmac-eq hmac config.hmac_keys content signatures)
    ∙ >>=-assoc (hmac_keys_of config.hmac_keys) _ _
    ∙ >>=-congr (hmac_keys_of config.hmac_keys) (λ hmac_keys.
      any_ed25519-eq verifies config.public_keys content signatures _
      ∙ >>=-congr (public_keys_of config.public_keys) (λ public_keys. ap ok (
          sym (
            any-or (made_by hmac content hmac_keys) (accepted_by verifies content public_keys)
              signatures))))
