-- ===== src/Sender/Headers.antt =====
-- The headers that Send copies in, and those that it keeps of a response.
use hookbound.Base.{
  ◌≡◌, refl, Bool, true, false, ◌||◌, List, [], ◌∷◌, Text, codes, text_eq, if◌then◌else◌, any, join,
  arith,
}
use hookbound.Http.{Header, values, stored, stored-remove, remove, del, add, canonical_key}
use hookbound.Sender.{safe_response_headers, copy_all, add_all}
use hookbound.Standard.{header_id, header_timestamp, header_signature}
use hookbound.Standard.Signers.{signed_headers}

abbrev pub sensitive : List Text
sensitive =
    codes "Authorization" ∷ codes "Proxy-Authorization" ∷ codes "Cookie" ∷ codes "Set-Cookie" ∷ []

any_of_four {ℓ} :
    {A : Type ℓ} (a b c d : Bool) (x y : A)
    → (if d then x else if c then x else if b then x else if a then x else y)
      ≡ (if a || (b || (c || (d || false))) then x else y)
any_of_four true true true true x y = refl
any_of_four a b c true x y = ground arith
any_of_four a b true false x y = ground arith
any_of_four a true false false x y = ground arith
any_of_four true false false false x y = refl
any_of_four false false false false x y = refl

-- Of a response's headers exactly those with a sensitive key are dropped: the values stored under
-- Authorization, Proxy-Authorization, Cookie and Set-Cookie are gone, and those under every other
-- key are what they were.
pub safe_response_headers-stored :
    (key : Text) (h : Header)
    → stored key (safe_response_headers h)
      ≡ (if any (λ name. text_eq name key) sensitive then [] else stored key h)
unfolding safe_response_headers del canonical_key
safe_response_headers-stored key h =
    rw
      (
        stored-remove (codes "Set-Cookie") key _,
        stored-remove (codes "Cookie") key _,
        stored-remove (codes "Proxy-Authorization") key _,
        stored-remove (codes "Authorization") key h,
      )
      (any_of_four (text_eq (codes "Authorization") key) (text_eq (codes "Proxy-Authorization") key)
        (text_eq (codes "Cookie") key) (text_eq (codes "Set-Cookie") key) [] (stored key h))

-- The signature headers replace whatever stood under their names.
pub values-copy_signed :
    (id timestamp : Text) (signatures : List Text) (h : Header)
    → let copied = copy_all (signed_headers id timestamp signatures) h in
      (values header_id copied ≡ id ∷ [])
      × (values header_timestamp copied ≡ timestamp ∷ [])
      × (values header_signature copied ≡ join signatures ∷ [])
unfolding copy_all add_all add del values stored remove canonical_key text_eq signed_headers
values-copy_signed id timestamp signatures h =
    let clear = λ (name : Text) (h : Header). stored-remove name name h in
    (
      rw (clear header_id h) refl,
      rw (clear header_timestamp _) refl,
      rw (clear header_signature _) refl,
    )
