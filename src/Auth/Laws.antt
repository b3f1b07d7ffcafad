-- ===== src/Auth/Laws.antt =====
-- What an authenticator does to a request.
use hookbound.Base.{
  ℕ, ◌≡◌, refl, subst, Bool, true, false, ◌||◌, none, some, [], ◌∷◌, ◌++◌, Text, codes, all, All,
  text_eq, if◌then◌else◌, is_empty, contains_byte, encode64, encode64-IsWord, IsWordByte, arith,
}
use hookbound.Errors.{
  Result, ok, reject_if, recode, invalid_configuration, internal, >>=-eq-ok, ok_inj, reject_if-ok,
}
use hookbound.Http.{Header, set, stored, stored-remove, canonical_key, del}
use hookbound.Message.{HttpRequest, field_byte}
use hookbound.Auth.{
  SecretProvider, contains_header_control, resolve_secret, set_header, bearer_auth, basic_auth,
  header_auth_apply,
}

same_test {ℓ} :
    {A : Type ℓ} (b : Bool) (x y z : A)
    → (if b then x else if b then y else z) ≡ (if b then x else z)
same_test true x y z = refl
same_test false x y z = refl

stored-set :
    (name value key : Text) (h : Header)
    → stored key (set name value h)
      ≡ (if text_eq (canonical_key name) key then value ∷ [] else stored key h)
unfolding set del stored
stored-set name value key h =
    rw (stored-remove (canonical_key name) key h)
      (same_test (text_eq (canonical_key name) key) (value ∷ []) [] (stored key h))

no_control : (s : Text) → contains_header_control s ≡ false → all field_byte s ≡ true
unfolding contains_header_control
no_control [] h = refl
no_control (c ∷ s) h = ground (arith, no_control s)

-- A resolved secret is not empty and can stand in a header.
pub resolve_secret-ok :
    (provider : SecretProvider) (secret : Text)
    → resolve_secret provider ≡ ok secret
    → (is_empty secret ≡ false) × (all field_byte secret ≡ true)
unfolding resolve_secret
resolve_secret-ok none secret h = absurd (ground (arith, h))
resolve_secret-ok (some provided) secret h =
    let (s, _, h) = >>=-eq-ok (recode internal provided) _ h in
    let (_, some_byte, h) = >>=-eq-ok (reject_if (is_empty s) invalid_configuration) _ h in
    let (_, clean, h) =
      >>=-eq-ok (reject_if (contains_header_control s) invalid_configuration) _ h in
    subst (λ t. (is_empty t ≡ false) × (all field_byte t ≡ true)) (ok_inj h)
      (
        reject_if-ok (is_empty s) invalid_configuration some_byte,
        no_control s (reject_if-ok (contains_header_control s) invalid_configuration clean),
      )

all-append : (p : ℕ → Bool) (s t : Text) → all p s ≡ true → all p t ≡ true → all p (s ++ t) ≡ true
all-append p [] t h k = k
all-append p (c ∷ s) t h k = ground (arith, all-append p s t)

word_fields : (s : Text) → All IsWordByte s → all field_byte s ≡ true
unfolding field_byte
word_fields [] h = refl
word_fields (c ∷ s) (first, h) = ground (arith, word_fields s h)

-- The authenticators of the package, each with the key of the header that it sets.
pub data Authenticates : (HttpRequest → Result HttpRequest) → (key : Text) → Type 0 where
  bearer :
      (provider : SecretProvider)
      → Authenticates (bearer_auth provider) (canonical_key (codes "Authorization"))
  basic :
      (username : Text) (password : SecretProvider)
      → Authenticates (basic_auth username password) (canonical_key (codes "Authorization"))
  header :
      (name : Text) (provider : SecretProvider)
      → Authenticates
          (header_auth_apply (canonical_key name) provider)
          (canonical_key (canonical_key name))

-- One header has one value of bytes that a header may hold, and all else is as it was.
abbrev pub SetsOnly : (key : Text) → (request http : HttpRequest) → Type 0
SetsOnly key request http =
    (http.method ≡ request.method)
    × (http.url ≡ request.url)
    × (http.body ≡ request.body)
    × ((value : Text) × (all field_byte value ≡ true)
        × ((other : Text)
            → stored other http.header
              ≡ (if text_eq key other then value ∷ [] else stored other request.header)))

set_header-SetsOnly :
    (name value : Text) (request http : HttpRequest)
    → all field_byte value ≡ true
    → ◌≡◌ {A = Result HttpRequest} (ok (set_header name value request)) (ok http)
    → SetsOnly (canonical_key name) request http
unfolding set_header
set_header-SetsOnly name value request http clean h =
    subst (SetsOnly (canonical_key name) request) (ok_inj h)
      (refl, refl, refl, (value, clean, λ other. stored-set name value other request.header))

-- An authenticator of the package that succeeds has set one header, to a value that holds no control
-- byte but a tab, and has left the method, the URL, the body and all other headers alone.
pub authenticate-SetsOnly :
    (apply : HttpRequest → Result HttpRequest) (key : Text) (request http : HttpRequest)
    → Authenticates apply key
    → apply request ≡ ok http
    → SetsOnly key request http
unfolding bearer_auth basic_auth header_auth_apply field_byte
authenticate-SetsOnly _ _ request http (bearer provider) h =
    let (secret, resolved, h) = >>=-eq-ok (resolve_secret provider) _ h in
    let (_, clean) = resolve_secret-ok provider secret resolved in
    set_header-SetsOnly (codes "Authorization") (codes "Bearer " ++ secret) request http
      (all-append field_byte (codes "Bearer ") secret refl clean) h
authenticate-SetsOnly _ _ request http (basic username password) h =
    let (_, _, h) =
      >>=-eq-ok
        (reject_if
          (is_empty username || (contains_byte b':' username || contains_header_control username))
          invalid_configuration)
        _ h in
    let (secret, _, h) = >>=-eq-ok (resolve_secret password) _ h in
    set_header-SetsOnly (codes "Authorization")
      (codes "Basic " ++ encode64 true (username ++ b':' ∷ secret)) request http
      (all-append field_byte (codes "Basic ") (encode64 true (username ++ b':' ∷ secret)) refl
        (word_fields _ (encode64-IsWord true (username ++ b':' ∷ secret))))
      h
authenticate-SetsOnly _ _ request http (header name provider) h =
    let (secret, resolved, h) = >>=-eq-ok (resolve_secret provider) _ h in
    set_header-SetsOnly (canonical_key name) secret request http
      (resolve_secret-ok provider secret resolved).1 h
