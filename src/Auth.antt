-- ===== src/Auth.antt =====
-- auth.go: transport authentication, which is added after the signature headers. A secret provider is
-- `none` where it is nil, and otherwise its answer.
pub mod Laws
use hookbound.Base.{
  ℕ, Bool, true, false, not, ◌||◌, Option, none, some, ◌∷◌, ◌++◌, Text, codes, any, is_empty,
  contains_byte, encode64,
}
use hookbound.Errors.{
  Result, ok, err, coded, ◌>>=◌, ◌>>◌, reject_if, recode, invalid_configuration, internal,
}
use hookbound.Http.{set, canonical_key}
use hookbound.Message.{HttpRequest, field_byte, valid_header_name}

abbrev pub SecretProvider : Type 0
SecretProvider = Option (Result Text)

-- containsHeaderControl
unfoldable pub contains_header_control : Text → Bool
contains_header_control value = any (λ c. not (field_byte c)) value

-- resolveSecret
unfoldable pub resolve_secret : SecretProvider → Result Text
unfolding contains_header_control
resolve_secret none = err (coded invalid_configuration)
resolve_secret (some provided) = do
  secret ← recode internal provided
  reject_if (is_empty secret) invalid_configuration
  reject_if (contains_header_control secret) invalid_configuration
  ok secret

unfoldable pub set_header : (name value : Text) → HttpRequest → HttpRequest
set_header name value request = record request { header = set name value request.header }

-- BearerAuth
unfoldable pub bearer_auth : SecretProvider → HttpRequest → Result HttpRequest
unfolding resolve_secret set_header
bearer_auth provider request = do
  secret ← resolve_secret provider
  ok (set_header (codes "Authorization") (codes "Bearer " ++ secret) request)

-- BasicAuth
unfoldable pub basic_auth : (username : Text) → SecretProvider → HttpRequest → Result HttpRequest
unfolding resolve_secret set_header contains_header_control contains_byte
basic_auth username password request = do
  reject_if (is_empty username || (contains_byte b':' username || contains_header_control username))
      invalid_configuration
  secret ← resolve_secret password
  ok (
      set_header (codes "Authorization")
        (codes "Basic " ++ encode64 true (username ++ b':' ∷ secret)) request)

-- The Authenticator that HeaderAuth makes.
unfoldable pub header_auth_apply :
    (canonical : Text) → SecretProvider → HttpRequest → Result HttpRequest
unfolding resolve_secret set_header
header_auth_apply canonical provider request = do
  secret ← resolve_secret provider
  ok (set_header canonical secret request)

-- HeaderAuth
unfoldable pub header_auth :
    (name : Text) → SecretProvider → Result (HttpRequest → Result HttpRequest)
unfolding header_auth_apply
header_auth name provider = do
  reject_if (not (valid_header_name name)) invalid_configuration
  ok (header_auth_apply (canonical_key name) provider)
