-- ===== src/Tests/Outbound.antt =====
-- Tests of sender.go, auth.go and postgres/runtime.go.
use hookbound.Base.{
  trim_space, contains_byte, format_int, format_digits, ◌-ℤ◌, encode64, contains_line_break,
  decode_rune, is_space, leading_space, runes, join, lower, ◌+ℤ◌, ◌≡◌, refl, subst, ◌≤◌, Bool, true,
  false, Option, none, some, [], ◌∷◌, Text, codes, text_eq, length, pos, arith,
}
use hookbound.Errors.{Result, ok, coded, ◌>>=◌, body_too_large, ok_inj}
use hookbound.Http.{stored, set, values, add, del, remove, canonical_key, token_byte}
use hookbound.Message.{
  HttpRequest, SendRequest, validate_request, validate_event_type, validate_message_id,
  validate_headers, event_rune, valid_header_name, field_byte,
}
use hookbound.Outcome.{time_sub, Response, delivered}
use hookbound.Transport.{Url, validate_url, normalized, checks_host, checks_port, effective_port}
use hookbound.Sender.{
  Sender, send, identify, read_response, safe_response_headers, started, authenticate, copy_all,
  add_all, copy_headers, unsigned, build, answered, exchange, dispatch, judged, send_identified,
  permitted, as_result,
}
use hookbound.Sender.Body.{read_response-eq}
use hookbound.Sender.Laws.{send-SendsOnce, SendsOnce, send-Permitted, Permitted}
use hookbound.Sender.Headers.{safe_response_headers-stored}
use hookbound.Sender.EndToEnd.{send-verify, KeepsSigned, accepted, received}
use hookbound.Standard.RoundTrip.{Carries}
use hookbound.Standard.AnyLaws.{hmac_keys_of}
use hookbound.Auth.{bearer_auth}
use hookbound.Auth.Laws.{bearer, SetsOnly, authenticate-SetsOnly}
use hookbound.Standard.Signers.{sign_hmac, signed_headers, tagged, input_content, timestamp_text}
use hookbound.Standard.Verifier.{verify, event_type_of, receipt_time}
use hookbound.Standard.{outside_tolerance, validate_hmac_keys, signed_content, unix, from_unix}
use hookbound.Tests.Signatures.{
  checksum, checksum-IsMac, nobody, a_key, config, sent_at, arrival, headers, fill, sent_at-IsInt64,
}
use mathlib.Core.List.{mem-cons_of_mem, mem-cons_self}

abbrev url : Text
url = codes "https://a"

abbrev parsed : Url
parsed = record {
  scheme = codes "https";
  host = codes "a";
  hostname = codes "a";
  port = [];
  has_user = false;
  fragment = [];
}

abbrev parse : Text → Option Url
parse raw = some parsed

abbrev creates : Text → Bool
creates raw = true

abbrev response : Response
response = record {
  status_code = 200;
  header = (codes "Set-Cookie", codes "c" ∷ []) ∷ (codes "Server", codes "s" ∷ []) ∷ [];
  body = codes "thanks";
  body_fails = false;
}

abbrev client : HttpRequest → Option Response
client request = some response

abbrev sender : Sender
sender = record {
  signer = sign_hmac checksum (ok (a_key ∷ []));
  authenticator = none;
  network_policy = record {
    allow_plain_http = false;
    allow_any_port = false;
    allowed_ports = 443 ∷ [];
    allowed_cidrs = [];
  };
  classifier = λ at answer. (delivered, pos 0);
  max_response = 4;
  user_agent = codes "test";
}

abbrev request : SendRequest
request = record {
  id = codes "msg_1";
  url = url;
  event_type = codes "paid";
  body = codes "{}";
  content_type = [];
  headers = (codes "X-App", codes "1" ∷ []) ∷ [];
  auth = none;
}

abbrev http : HttpRequest
http = record {
  method = codes "POST";
  url = url;
  header =
      (codes "Webhook-Signature", stored (codes "Webhook-Signature") headers)
      ∷ (codes "Webhook-Timestamp", codes "1000" ∷ [])
      ∷ (codes "Webhook-Id", codes "msg_1" ∷ [])
      ∷ (codes "X-Hookbound-Event", codes "paid" ∷ [])
      ∷ (codes "User-Agent", codes "test" ∷ [])
      ∷ (codes "Content-Type", codes "application/json" ∷ [])
      ∷ (codes "X-App", codes "1" ∷ [])
      ∷ [];
  body = codes "{}";
}

sends : (send parse creates client (pos 3) sender sent_at (ok []) request).sent ≡ http ∷ []
unfolding send send_identified identify permitted as_result validate_request validate_event_type
    validate_message_id validate_headers validate_url dispatch exchange answered build unsigned
    copy_headers copy_all add_all sign_hmac authenticate judged read_response set add del remove
    stored values canonical_key text_eq trim_space contains_byte contains_line_break event_rune
    valid_header_name field_byte token_byte validate_hmac_keys format_int format_digits join unix
    ◌-ℤ◌ encode64 decode_rune is_space leading_space runes signed_content signed_headers tagged
    input_content timestamp_text lower normalized checks_host checks_port effective_port
sends = refl

read_response-eq_example :
    let (read, error) = read_response 4 (started (codes "msg_1") (pos 1)) response in
    (read.response_body ≡ codes "than")
    × (length read.response_body ≤ 4)
    × (error ≡ some (coded body_too_large))
read_response-eq_example =
    read_response-eq 4 (started (codes "msg_1") (pos 1)) response (ground arith)

send-SendsOnce_example :
    SendsOnce
      (λ r. (sender.classifier sent_at (client r)).0)
      (send parse creates client (pos 3) sender sent_at (ok []) request)
send-SendsOnce_example = send-SendsOnce creates client (pos 3) sender sent_at parse (ok []) request

send-Permitted_example : Permitted creates client (pos 3) sender sent_at parse request http
send-Permitted_example =
    send-Permitted creates client (pos 3) sender sent_at parse (ok []) request http sends

safe_response_headers-stored_example :
    stored (codes "Set-Cookie") (safe_response_headers response.header) ≡ []
unfolding text_eq
safe_response_headers-stored_example =
    safe_response_headers-stored (codes "Set-Cookie") response.header

no_authenticator : KeepsSigned (authenticate none none)
unfolding authenticate
no_authenticator before after h =
    subst (λ (r : HttpRequest). Carries before.header r.header × (r.body ≡ before.body)) (ok_inj h)
      ((refl, refl, refl), refl)

keys_usable : hmac_keys_of config.hmac_keys ≡ ok (fill 32 2 ∷ a_key ∷ [])
unfolding validate_hmac_keys
keys_usable = refl

timely :
    outside_tolerance
      (receipt_time arrival (received http))
      (from_unix (unix sent_at))
      config.tolerance
    ≡ false
unfolding outside_tolerance receipt_time from_unix unix ◌+ℤ◌ ◌-ℤ◌ time_sub
timely = refl

send-verify_example :
    (identified : SendRequest) × (identify parse sender (ok []) request ≡ ok identified)
    × (verify checksum nobody arrival config (received http) ≡ (
        event_type_of config (received http) >>= λ event_type.
        ok (accepted config identified.id sent_at event_type)))
send-verify_example =
    send-verify checksum nobody config arrival checksum-IsMac a_key (a_key ∷ [])
      (fill 32 2 ∷ a_key ∷ []) [] parse creates client (pos 3) sender sent_at (ok []) request http
      keys_usable refl mem-cons_self (mem-cons_of_mem (fill 32 2) mem-cons_self) sent_at-IsInt64
      timely refl no_authenticator sends

abbrev token : Option (Result Text)
token = some (ok (codes "t0k"))

abbrev bare : HttpRequest
bare = record { method = codes "POST"; url = url; header = []; body = [] }

abbrev authorized : HttpRequest
authorized = record bare { header = (codes "Authorization", codes "Bearer t0k" ∷ []) ∷ [] }

authorizes : bearer_auth token bare ≡ ok authorized
unfolding bearer_auth field_byte set canonical_key del remove
authorizes = refl

authenticate-SetsOnly_example : SetsOnly (canonical_key (codes "Authorization")) bare authorized
authenticate-SetsOnly_example =
    authenticate-SetsOnly (bearer_auth token) (canonical_key (codes "Authorization")) bare
      authorized (bearer token) authorizes
