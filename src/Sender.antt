-- ===== src/Sender.antt =====
-- sender.go: one outbound attempt. The signer, the authenticators, the classifier, the id generator,
-- the clock and the HTTP client are what they answer with: functions and values that Send is given.
pub mod Body
pub mod Laws
pub mod Headers
pub mod EndToEnd
use hookbound.Base.{
  ℕ, ◌+◌, Bool, true, false, not, ◌&&◌, Option, none, some, List, [], ◌∷◌, Text, codes, is_empty,
  length, take, ltb, ◌==◌, if◌then◌else◌, ℤ, pos, pos_part, leb_ℤ,
}
use hookbound.Errors.{
  Code, Error, Result, ok, err, coded, ◌>>=◌, ◌>>◌, reject_if, recode, invalid_configuration,
  invalid_url, unsafe_destination, transport_failed, body_too_large, response_read_failed,
}
use hookbound.Http.{Header, canonical_key, add, del, set}
use hookbound.Retry.{Time, Duration, max_int64}
use hookbound.Message.{HttpRequest, SendRequest, validate_request, validate_headers}
use hookbound.Signing.{SignInput}
use hookbound.Outcome.{Outcome, unset, AttemptResult, Response}
use hookbound.Transport.{Url, Policy, Checked, passed, refused, validate_url, normalized}

abbrev pub Authenticator : Type 0
Authenticator = HttpRequest → Result HttpRequest

abbrev pub Classifier : Type 0
Classifier = Time → Option Response → Outcome × Time

-- SenderConfig, less the HTTP client's own settings; a nil signer, authenticator or classifier is
-- `none`.
pub record SenderConfig : Type 0 where
  pub signer : Option (SignInput → Result Header)
  pub authenticator : Option Authenticator
  pub network_policy : Policy
  pub classifier : Option Classifier
  pub max_response_bytes : ℤ
  pub user_agent : Text

-- Sender
pub record Sender : Type 0 where
  pub signer : SignInput → Result Header
  pub authenticator : Option Authenticator
  pub network_policy : Policy
  pub classifier : Classifier
  pub max_response : ℕ
  pub user_agent : Text

or_default {ℓ} : {A : Type ℓ} → Option A → (default : A) → A
or_default none default = default
or_default (some a) default = a

-- NewSender; the parameter is DefaultClassifier's Classify.
unfoldable pub new_sender : (default_classifier : Classifier) → SenderConfig → Result Sender
unfolding or_default
new_sender default_classifier config = elim config.signer [
  | none ↦ err (coded invalid_configuration)
  | some signer ↦ ok (record {
    signer = signer;
    authenticator = config.authenticator;
    network_policy = normalized config.network_policy;
    classifier = or_default config.classifier default_classifier;
    max_response =
        if leb_ℤ config.max_response_bytes (pos 0)
        then 65_536
        else pos_part config.max_response_bytes;
    user_agent = if is_empty config.user_agent then codes "hookbound-go/0.1" else config.user_agent;
  })
]

unfoldable pub add_all : (name : Text) → List Text → Header → Header
add_all name [] h = h
add_all name (v ∷ vs) h = add_all name vs (add name v h)

unfoldable pub copy_all : (source destination : Header) → Header
unfolding add_all
copy_all [] destination = destination
copy_all ((name, vs) ∷ source) destination =
    let canonical = canonical_key name in
    copy_all source (add_all canonical vs (del canonical destination))

-- copyHeaders
unfoldable pub copy_headers : (destination source : Header) → Result Header
unfolding copy_all
copy_headers destination source = do validate_headers source; ok (copy_all source destination)

-- safeResponseHeaders
unfoldable pub safe_response_headers : Header → Header
safe_response_headers source =
    del (codes "Set-Cookie") (
      del (codes "Cookie") (del (codes "Proxy-Authorization") (del (codes "Authorization") source)))

-- io.LimitReader of s.maxResponse+1 bytes, a sum of int64 that may wrap round.
unfoldable pub read_limit : (max_response : ℕ) → ℕ
read_limit max_response = if max_response == max_int64 then 0 else max_response + 1

-- What Send answers, and the requests that it has handed to the HTTP client.
pub record Attempt : Type 0 where
  pub result : AttemptResult
  pub error : Option Error
  pub sent : List HttpRequest

-- AttemptResult{MessageID: id, AttemptedAt: at}
abbrev pub started : (message_id : Text) → (at : Time) → AttemptResult
started message_id at = record {
  message_id = message_id;
  attempted_at = at;
  outcome = unset;
  status_code = 0;
  duration = pos 0;
  retry_at = pos 0;
  response_header = [];
  response_body = [];
  error_code = none;
}

-- How Send ends: `body` is what was read, `short` what the limit leaves of it.
unfoldable pub judged :
    (too_large unreadable : Bool)
    → AttemptResult
    → (short body : Text) → AttemptResult × Option Error
judged true unreadable result short body = (
  record result { response_body = short; error_code = some body_too_large },
  some (coded body_too_large),
)
judged false true result short body = (
  record result { response_body = body; error_code = some response_read_failed },
  some (coded response_read_failed),
)
judged false false result short body = (record result { response_body = body }, none)

-- What becomes of a response, its body read up to the limit; a body that ends within the limit
-- shows its failure.
unfoldable pub read_response :
    (max_response : ℕ) → AttemptResult → Response → AttemptResult × Option Error
unfolding safe_response_headers read_limit judged
read_response max_response result response =
    let limit = read_limit max_response in
    let body = take limit response.body in
    judged (ltb max_response (length body))
      (response.body_fails && ltb (length response.body) limit)
      (record result {
        status_code = response.status_code;
        response_header = safe_response_headers response.header;
      })
      (take max_response body) body

unfoldable pub as_result : Checked Url → Result (Unit {0})
as_result (passed u) = ok tt
as_result (refused reason) = err (coded unsafe_destination)

module _ (parse : Text → Option Url) where
  unfoldable pub permitted : Policy → Text → Result (Unit {0})
  unfolding as_result
  permitted policy url = as_result (validate_url parse url policy)

  -- The beginning of Send, whose errors come with an empty AttemptResult: the request with its id.
  unfoldable pub identify : Sender → (new_id : Result Text) → SendRequest → Result SendRequest
  unfolding permitted
  identify s new_id request = do
    validate_request request
    id ← if is_empty request.id then new_id else ok request.id
    permitted s.network_policy request.url
    ok (record request { id = id })

-- The request before it is signed; `creates` tells whether http.NewRequest accepts a URL.
unfoldable pub unsigned : (creates : Text → Bool) → Sender → SendRequest → Result HttpRequest
unfolding copy_headers
unsigned creates s request = do
  reject_if (not (creates request.url)) invalid_url
  header ← copy_headers [] request.headers
  ok (record {
    method = codes "POST";
    url = request.url;
    header = set (codes "X-Hookbound-Event") request.event_type (
        set (codes "User-Agent") s.user_agent (
          set (codes "Content-Type")
            (if is_empty request.content_type
              then codes "application/json"
              else request.content_type)
            header));
    body = request.body;
  })

unfoldable pub authenticate :
    (own general : Option Authenticator) → HttpRequest → Result HttpRequest
authenticate (some apply) general request = apply request
authenticate none (some apply) request = apply request
authenticate none none request = ok request

-- What Send has signed.
abbrev pub sign_input : (now : Time) → SendRequest → HttpRequest → SignInput
sign_input now request plain = record {
  message_id = request.id;
  timestamp = now;
  body = plain.body;
  headers = plain.header;
}

-- The middle of Send: the request is built, signed and authenticated.
unfoldable pub build :
    (creates : Text → Bool) → Sender → (now : Time) → SendRequest → Result HttpRequest
unfolding unsigned copy_headers authenticate
build creates s now request = do
  plain ← unsigned creates s request
  signature ← s.signer (record {
    message_id = request.id;
    timestamp = now;
    body = plain.body;
    headers = plain.header;
  })
  header ← copy_headers plain.header signature
  authenticate request.auth s.authenticator (record plain { header = header })

-- The answer of the HTTP client.
unfoldable pub answered :
    (max_response : ℕ) → AttemptResult → Option Response → AttemptResult × Option Error
unfolding read_response
answered max_response result none =
    (record result { error_code = some transport_failed }, some (coded transport_failed))
answered max_response result (some response) = read_response max_response result response

-- The call of the HTTP client, with what it answers and how long it takes.
unfoldable pub exchange :
    (client : HttpRequest → Option Response)
    → (elapsed : Duration) → Sender
    → (now : Time) → AttemptResult
    → HttpRequest
    → Attempt
unfolding answered
exchange client elapsed s now result request =
    let (outcome, retry_at) = s.classifier now (client request) in
    let (read, error) =
      answered s.max_response
        (record result { duration = elapsed; outcome = outcome; retry_at = retry_at })
        (client request) in
    record { result = read; error = error; sent = request ∷ [] }

-- Send, from the building of the request on.
unfoldable pub dispatch :
    (client : HttpRequest → Option Response)
    → (elapsed : Duration) → Sender
    → (now : Time) → (message_id : Text) → Result HttpRequest
    → Attempt
unfolding exchange
dispatch client elapsed s now message_id (err e) = record {
  result = started message_id now;
  error = some e;
  sent = [];
}
dispatch client elapsed s now message_id (ok http) =
    exchange client elapsed s now (started message_id now) http

unfoldable pub send_identified :
    (creates : Text → Bool)
    → (client : HttpRequest → Option Response) → (elapsed : Duration) → Sender
    → (now : Time) → Result SendRequest
    → Attempt
unfolding build dispatch
send_identified creates client elapsed s now (err e) = record {
  result = started [] (pos 0);
  error = some e;
  sent = [];
}
send_identified creates client elapsed s now (ok request) =
    dispatch client elapsed s now request.id (build creates s now request)

-- Sender.Send
unfoldable pub send :
    (parse : Text → Option Url)
    → (creates : Text → Bool) → (client : HttpRequest → Option Response) → (elapsed : Duration)
    → Sender
    → (now : Time) → (new_id : Result Text) → SendRequest
    → Attempt
unfolding identify send_identified
send parse creates client elapsed s now new_id request =
    send_identified creates client elapsed s now (identify parse s new_id request)
