-- ===== src/Sender/Laws.antt =====
-- Sender.Send: how often it sends, where to, and what its answer says.
use hookbound.Base.{
  ℕ, ◌≡◌, refl, ap, subst, ◌∙◌, ◌⊎◌, inl, inr, Bool, not, ◌&&◌, Option, none, some, [], ◌∷◌, Text,
  codes, length, take, ltb, if◌then◌else◌, arith, is_empty,
}
use hookbound.Errors.{ok_inj, Error, Result, ok, err, reject_if, invalid_url, >>=-eq-ok}
use hookbound.Http.{Header}
use hookbound.Retry.{Time, Duration}
use hookbound.Message.{HttpRequest, SendRequest, validate_request}
use hookbound.Outcome.{Outcome, unset, AttemptResult, Response}
use hookbound.Transport.{Url, Policy, Checked, passed, refused, validate_url}
use hookbound.Sender.{
  Sender, Attempt, read_limit, read_response, permitted, identify, unsigned, authenticate, build,
  exchange, send, copy_headers, as_result, sign_input, answered, dispatch, send_identified,
}
use hookbound.Sender.Body.{as_error, judged-code}

answered-code :
    (max_response : ℕ) (result : AttemptResult) (response : Option Response)
    → result.error_code ≡ none
    → let (read, error) = answered max_response result response in
      (error ≡ as_error read.error_code) × (read.outcome ≡ result.outcome)
unfolding answered read_response
answered-code max_response result none h = (refl, refl)
answered-code max_response result (some response) h =
    judged-code (ltb max_response (length (take (read_limit max_response) response.body)))
      (response.body_fails && ltb (length response.body) (read_limit max_response)) _ _ _ h

-- What is known of an attempt whose request, if it is made, goes through the classifier `verdict`.
abbrev pub SendsOnce : (verdict : HttpRequest → Outcome) → Attempt → Type 0
SendsOnce verdict attempt =
    (attempt.sent ≡ [])
      × (attempt.result.error_code ≡ none)
      × (attempt.result.outcome ≡ unset)
      × ((e : Error) × (attempt.error ≡ some e))
    ⊎ ((http : HttpRequest) × (attempt.sent ≡ http ∷ [])
        × (attempt.error ≡ as_error attempt.result.error_code)
        × (attempt.result.outcome ≡ verdict http))

as_result-ok : (c : Checked Url) → as_result c ≡ ok tt → (u : Url) × (c ≡ passed u)
unfolding as_result
as_result-ok (passed u) h = (u, refl)
as_result-ok (refused reason) h = absurd (ground (arith, h))

permitted-ok :
    (parse : Text → Option Url) (policy : Policy) (url : Text)
    → permitted parse policy url ≡ ok tt
    → (u : Url) × (validate_url parse url policy ≡ passed u)
unfolding permitted
permitted-ok parse policy url h = as_result-ok (validate_url parse url policy) h

pub identify-ok :
    (parse : Text → Option Url) (s : Sender) (new_id : Result Text)
    (request identified : SendRequest)
    → identify parse s new_id request ≡ ok identified
    → (validate_request request ≡ ok tt)
      × ((u : Url) × (validate_url parse request.url s.network_policy ≡ passed u))
      × (identified ≡ record request { id = identified.id })
unfolding identify
identify-ok parse s new_id request identified h =
    let (_, valid, h) = >>=-eq-ok (validate_request request) _ h in
    let (id, _, h) = >>=-eq-ok (if is_empty request.id then new_id else ok request.id) _ h in
    let (_, allowed, h) = >>=-eq-ok (permitted parse s.network_policy request.url) _ h in
    (
      valid,
      permitted-ok parse s.network_policy request.url allowed,
      subst (λ (r : SendRequest). r ≡ record request { id = r.id }) (ok_inj h) refl,
    )

pub unsigned-ok :
    (creates : Text → Bool) (s : Sender) (request : SendRequest) (plain : HttpRequest)
    → unsigned creates s request ≡ ok plain
    → (plain.method ≡ codes "POST") × (plain.url ≡ request.url) × (plain.body ≡ request.body)
unfolding unsigned
unsigned-ok creates s request plain h =
    let (_, _, h) = >>=-eq-ok (reject_if (not (creates request.url)) invalid_url) _ h in
    let (header, _, h) = >>=-eq-ok (copy_headers [] request.headers) _ h in
    subst
      (λ (r : HttpRequest).
        (r.method ≡ codes "POST") × (r.url ≡ request.url) × (r.body ≡ request.body))
      (ok_inj h) (refl, refl, refl)

module _ (creates : Text → Bool) (client : HttpRequest → Option Response) (elapsed : Duration)
    (s : Sender) (now : Time) where
  dispatch-SendsOnce :
      (message_id : Text) (built : Result HttpRequest)
      → SendsOnce
          (λ http. (s.classifier now (client http)).0)
          (dispatch client elapsed s now message_id built)
  unfolding dispatch exchange
  dispatch-SendsOnce message_id (err e) = inl (refl, refl, refl, (e, refl))
  dispatch-SendsOnce message_id (ok http) =
      let (said, same) = answered-code s.max_response _ (client http) refl in
      inr (http, refl, said, same)

  identified-SendsOnce :
      (identified : Result SendRequest)
      → SendsOnce
          (λ http. (s.classifier now (client http)).0)
          (send_identified creates client elapsed s now identified)
  unfolding send_identified
  identified-SendsOnce (err e) = inl (refl, refl, refl, (e, refl))
  identified-SendsOnce (ok request) = dispatch-SendsOnce request.id (build creates s now request)

  -- Whatever Send is given, it either sends nothing and answers with an error and with a result that
  -- has no error code and no outcome, or it sends one request and the error is the one of the
  -- result's error code, none included, and the outcome is the classifier's.
  pub send-SendsOnce :
      (parse : Text → Option Url) (new_id : Result Text) (request : SendRequest)
      → SendsOnce
          (λ http. (s.classifier now (client http)).0)
          (send parse creates client elapsed s now new_id request)
  unfolding send
  send-SendsOnce parse new_id request = identified-SendsOnce (identify parse s new_id request)

  pub dispatched :
      (message_id : Text) (built : Result HttpRequest) (http : HttpRequest)
      → (dispatch client elapsed s now message_id built).sent ≡ http ∷ []
      → built ≡ ok http
  unfolding dispatch exchange
  dispatched message_id (err e) http h = absurd (ground (arith, h))
  dispatched message_id (ok built) http h = ap ok (ground (arith, h))

  pub identified_of :
      (identified : Result SendRequest) (http : HttpRequest)
      → (send_identified creates client elapsed s now identified).sent ≡ http ∷ []
      → (request : SendRequest) × (identified ≡ ok request)
        × ((dispatch client elapsed s now request.id (build creates s now request)).sent
            ≡ http ∷ [])
  unfolding send_identified
  identified_of (err e) http h = absurd (ground (arith, h))
  identified_of (ok request) http h = (request, refl, h)

  built_of :
      (request : SendRequest) (http : HttpRequest)
      → build creates s now request ≡ ok http
      → (plain : HttpRequest) × (header : Header) × (unsigned creates s request ≡ ok plain)
        × (authenticate request.auth s.authenticator (record plain { header = header }) ≡ ok http)
  unfolding build
  built_of request http h =
      let (plain, made, h) = >>=-eq-ok (unsigned creates s request) _ h in
      let (signature, _, h) = >>=-eq-ok (s.signer (sign_input now request plain)) _ h in
      let (header, _, h) = >>=-eq-ok (copy_headers plain.header signature) _ h in
      (plain, header, made, h)

  -- What is sent was permitted and built from the request.
  abbrev pub Permitted : (parse : Text → Option Url) → SendRequest → HttpRequest → Type 0
  Permitted parse request http =
      (validate_request request ≡ ok tt)
      × ((u : Url) × (validate_url parse request.url s.network_policy ≡ passed u))
      × ((plain : HttpRequest) × (header : Header) × (plain.method ≡ codes "POST")
          × (plain.url ≡ request.url)
          × (plain.body ≡ request.body)
          × (authenticate request.auth s.authenticator (record plain { header = header })
              ≡ ok http))

  -- A request is sent only if the SendRequest is valid and the policy permits its URL; it is then
  -- what the authenticator makes of a POST of the request's body to the request's URL.
  pub send-Permitted :
      (parse : Text → Option Url) (new_id : Result Text) (request : SendRequest)
      (http : HttpRequest)
      → (send parse creates client elapsed s now new_id request).sent ≡ http ∷ []
      → Permitted parse request http
  unfolding send
  send-Permitted parse new_id request http h =
      let (identified, e, h) = identified_of (identify parse s new_id request) http h in
      let (plain, header, made, applied) =
        built_of identified http
          (dispatched identified.id (build creates s now identified) http h) in
      let (valid, allowed, same) = identify-ok parse s new_id request identified e in
      let (post, url, body) = unsigned-ok creates s identified plain made in
      (
        valid,
        allowed,
        (
          plain,
          header,
          post,
          url ∙ ap (λ (r : SendRequest). r.url) same,
          body ∙ ap (λ (r : SendRequest). r.body) same,
          subst
              (λ (r : SendRequest).
                authenticate r.auth s.authenticator (record plain { header = header }) ≡ ok http)
              same applied,
        ),
      )
