-- ===== src/Standard/SignLaws.antt =====
-- HMACSigner.Sign: the signatures under several keys, and which of them count.
use hookbound.Base.{
  suc, ◌≡◌, refl, sym, ap, ◌∙◌, ◌≤◌, inl, inr, Bool, true, false, ◌||◌, List, [], ◌∷◌, map, Text,
  IsBytes, text_eq, text_eq_refl, any, All, length, ltb, arith,
}
use hookbound.Errors.{
  ok_inj, reject_if-ok, ok, reject_if, invalid_message, invalid_configuration, >>=-eq-ok,
}
use hookbound.Http.{Header}
use hookbound.Message.{validate_message_id}
use hookbound.Signing.{SignInput}
use hookbound.Standard.{hmac_signature_id, validate_hmac_keys}
use hookbound.Standard.Signers.{sign_hmac, timestamp_text, input_content, signed_headers, tagged}
use hookbound.Standard.Verifier.{Hmac, Verifies}
use hookbound.Standard.AnyLaws.{counts}
use hookbound.Standard.HeaderLaws.{tags, found, as_v1}
use hookbound.Retry.{is_zero_time}
use mathlib.Core.Logic.{∥∥₁_elim}
use mathlib.Core.Bool.{Bool-set}
use mathlib.Core.List.{Mem, not-mem-nil, eq-or-mem_of_mem-cons}

or_true : (b : Bool) {c : Bool} → c ≡ true → (b || c) ≡ true
or_true true h = refl
or_true false h = h

any-Mem {ℓ} :
    {A : Type ℓ} (p : A → Bool) (x : A) (xs : List A) → Mem x xs → p x ≡ true → any p xs ≡ true
any-Mem p x [] among h = absurd (not-mem-nil among)
any-Mem p x (y ∷ ys) among h =
    ∥∥₁_elim (eq-or-mem_of_mem-cons among) (Bool-set (any p (y ∷ ys)) true) (λ where_it_is.
      elim where_it_is [
        | inl same ↦ rw (sym same, h)
        | inr later ↦ or_true (p y) (any-Mem p x ys later h)
      ])

any-map {ℓ κ} :
    {A : Type ℓ} {B : Type κ} (p : B → Bool) (f : A → B) (xs : List A)
    → any p (map f xs) ≡ any (λ x. p (f x)) xs
any-map p f [] = refl
any-map p f (x ∷ xs) = ap (λ b. p (f x) || b) (any-map p f xs)

-- The signatures of one content under several keys.
unfoldable pub macs_of : Hmac → (content : Text) → (keys : List Text) → List Text
macs_of hmac content keys = map (λ key. hmac key content) keys

-- A key that signed and that is trusted counts.
pub any-counts :
    (hmac : Hmac) (verifies : Verifies) (content key : Text) (keys trusted public_keys : List Text)
    → Mem key keys
    → Mem key trusted
    → any (counts hmac verifies trusted public_keys content) (found (macs_of hmac content keys))
      ≡ true
unfolding found macs_of text_eq as_v1
any-counts hmac verifies content key keys trusted public_keys mine theirs =
    any-map (counts hmac verifies trusted public_keys content) as_v1 (macs_of hmac content keys)
    ∙ any-map (λ mac. counts hmac verifies trusted public_keys content (as_v1 mac))
        (λ k. hmac k content) keys
    ∙ any-Mem (λ k. counts hmac verifies trusted public_keys content (as_v1 (hmac k content))) key
        keys mine
        (rw (
          any-Mem (λ k. text_eq (hmac key content) (hmac k content)) key trusted theirs
            (text_eq_refl (hmac key content))))

tags-macs_of :
    (hmac : Hmac) (content : Text) (keys : List Text)
    → map (λ key. tagged hmac_signature_id (hmac key content)) keys
      ≡ tags (macs_of hmac content keys)
unfolding tags macs_of
tags-macs_of hmac content [] = refl
tags-macs_of hmac content (key ∷ keys) = rw (tags-macs_of hmac content keys)

pub length-macs_of :
    (hmac : Hmac) (content : Text) (keys : List Text)
    → length (macs_of hmac content keys) ≡ length keys
unfolding macs_of
length-macs_of hmac content [] = refl
length-macs_of hmac content (key ∷ keys) = ap suc (length-macs_of hmac content keys)

pub All-macs_of :
    (hmac : Hmac) (content : Text)
    → ((key : Text) → IsBytes (hmac key content) × (length (hmac key content) ≡ 32))
    → (keys : List Text) → All (λ mac. IsBytes mac × (length mac ≡ 32)) (macs_of hmac content keys)
unfolding macs_of
All-macs_of hmac content h [] = tt
All-macs_of hmac content h (key ∷ keys) = (h key, All-macs_of hmac content h keys)

pub key_count :
    (keys : List Text) → validate_hmac_keys keys ≡ ok tt → (1 ≤ length keys) × (length keys ≤ 32)
unfolding validate_hmac_keys
key_count keys h =
    let (_, counted, _) =
      >>=-eq-ok (reject_if (ltb (length keys) 1 || ltb 16 (length keys)) invalid_configuration) _
        h in
    ground (
      arith,
      reject_if-ok (ltb (length keys) 1 || ltb 16 (length keys)) invalid_configuration counted,
    )

-- A success of HMACSigner.Sign has checked the message id and the keys.
pub sign_hmac-ok :
    (hmac : Hmac) (keys : List Text) (input : SignInput) (headers : Header)
    → sign_hmac hmac (ok keys) input ≡ ok headers
    → (validate_message_id input.message_id ≡ ok tt)
      × (validate_hmac_keys keys ≡ ok tt)
      × (headers
          ≡ signed_headers input.message_id
              (timestamp_text input)
              (tags (macs_of hmac (input_content input) keys)))
unfolding sign_hmac
sign_hmac-ok hmac keys input headers h =
    let (_, valid, h) = >>=-eq-ok (validate_message_id input.message_id) _ h in
    let (_, _, h) = >>=-eq-ok (reject_if (is_zero_time input.timestamp) invalid_message) _ h in
    let (_, usable, h) = >>=-eq-ok (validate_hmac_keys keys) _ h in
    (
      valid,
      usable,
      sym (ok_inj h)
          ∙ ap (signed_headers input.message_id (timestamp_text input))
              (tags-macs_of hmac (input_content input) keys),
    )
