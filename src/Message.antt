-- ===== src/Message.antt =====
-- id.go and message.go: what a message is, and when one is accepted.
-- Values are copied where the program clones them, so `Clone` has no counterpart.
pub mod Laws
use hookbound.Base.{
  ℕ, ◌+◌, ◌≡◌, refl, Bool, true, false, not, ◌&&◌, ◌||◌, Option, List, [], ◌∷◌, Text, codes,
  text_eq, contains_byte, contains_line_break, leb, ltb, ◌==◌, if◌then◌else◌, all, any, is_empty,
  length, runes, Rune, trim_space, map, lower,
}
use hookbound.Errors.{
  Code, invalid_message, invalid_url, Result, ok, err, Error, coded, ◌>>=◌, ◌>>◌, reject_if,
}
use hookbound.Http.{Header, token_byte}
use hookbound.Retry.{Time}

control_byte : ℕ → Bool
control_byte c = ltb c 32 || c == 127

-- ValidateMessageID
unfoldable pub validate_message_id : Text → Result (Unit {0})
unfolding control_byte
validate_message_id id = do
  reject_if (is_empty id) invalid_message
  reject_if (ltb 200 (length id)) invalid_message
  reject_if (not (text_eq (trim_space id) id) || contains_byte b'.' id) invalid_message
  reject_if (any control_byte id) invalid_message

unfoldable pub event_rune : ℕ → Bool
event_rune r =
    leb b'a' r && leb r b'z'
    || (leb b'A' r && leb r b'Z'
        || (leb b'0' r && leb r b'9' || (r == b'_' || (r == b'-' || r == b'.'))))

-- ValidateEventType
unfoldable pub validate_event_type : Text → Result (Unit {0})
validate_event_type event_type = do
  reject_if (is_empty event_type) invalid_message
  reject_if (ltb 200 (length event_type)) invalid_message
  reject_if (not (all (λ (r : Rune). event_rune r.0) (runes 0 event_type))) invalid_message

-- validHeaderName
unfoldable pub valid_header_name : Text → Bool
valid_header_name name =
    not (is_empty name || not (text_eq (trim_space name) name)) && all token_byte name

-- A byte that a header value may hold.
unfoldable pub field_byte : ℕ → Bool
field_byte c = c == 9 || (leb 32 c && not (c == 127))

forbidden_header : Text → Bool
forbidden_header name =
    let folded = map lower name in
    text_eq folded (codes "host")
    || (text_eq folded (codes "content-length")
        || (text_eq folded (codes "connection") || text_eq folded (codes "transfer-encoding")))

-- validateHeaders: every rejection has the same code, so the order of the map does not matter.
unfoldable pub validate_headers : Header → Result (Unit {0})
unfolding forbidden_header
validate_headers [] = ok tt
validate_headers ((name, vs) ∷ h) = do
  reject_if (not (valid_header_name name)) invalid_message
  reject_if (forbidden_header name) invalid_message
  reject_if (not (all (λ v. all field_byte v) vs)) invalid_message
  validate_headers h

-- An outbound HTTP request as authenticators and the client see it.
pub record HttpRequest : Type 0 where
  pub method : Text
  pub url : Text
  pub header : Header
  pub body : Text

-- SendRequest; an `Authenticator` is what its `Apply` does to the request.
pub record SendRequest : Type 0 where
  pub id : Text
  pub url : Text
  pub event_type : Text
  pub body : Text
  pub content_type : Text
  pub headers : Header
  pub auth : Option (HttpRequest → Result HttpRequest)

-- SendRequest.Validate
unfoldable pub validate_request : SendRequest → Result (Unit {0})
validate_request r = do
  if is_empty r.id then ok tt else validate_message_id r.id
  validate_event_type r.event_type
  reject_if (is_empty (trim_space r.url)) invalid_url
  reject_if (contains_line_break r.content_type) invalid_message
  validate_headers r.headers

-- VerifiedMessage
pub record VerifiedMessage : Type 0 where
  pub id : Text
  pub event_type : Text
  pub source : Text
  pub timestamp : Time
  pub body : Text
  pub content_type : Text
  pub headers : Header
  pub metadata : List (Text × Text)

-- VerifiedMessage.Validate
unfoldable pub validate_message : VerifiedMessage → Result (Unit {0})
validate_message m = do
  validate_message_id m.id
  validate_event_type m.event_type
  reject_if (is_empty (trim_space m.source)) invalid_message
