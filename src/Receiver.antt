-- ===== src/Receiver.antt =====
-- receiver.go: the inbound body's way from the request to the handler.
-- `W` is the state that the application's verifier, handler, guard and clock work on.
pub mod Laws
pub mod Success
pub mod Memory
use hookbound.Base.{
  ℕ, ◌+◌, ◌≡◌, refl, Bool, true, false, not, ◌&&◌, ◌||◌, Option, none, some, List, [], ◌∷◌, ◌++◌,
  Text, codes, text_eq, leb, ltb, ◌==◌, if◌then◌else◌, is_empty, length, take, trim_space, map,
  lower, ℤ, pos, pos_part, leb_ℤ, ltb_ℤ, ◌+ℤ◌,
}
use hookbound.Errors.{
  Code, invalid_configuration, invalid_message, body_too_large, invalid_signature,
  expired_signature, unknown_event, decode_failed, handler_failed, replay, Result, ok, err, Error,
  coded, error_code, ◌>>=◌, ◌>>◌, reject_if,
}
use hookbound.Http.{Header, get}
use hookbound.Retry.{Time, Duration, seconds, max_int64}
use hookbound.Message.{VerifiedMessage, validate_message}
use hookbound.Signing.{VerifyInput, Verification}

-- How a handler ends.
pub data Handled : Type 0 where
  returns : Result (Unit {0}) → Handled
  panics : Handled

-- ReplayGuard, with the optional ReplayCommitter.
pub record Guard (W : Type 0) : Type 0 where
  pub claim : W → (source id : Text) → (expires_at : Time) → W × Result Bool
  pub release : W → (source id : Text) → W × Result (Unit {0})
  pub commit : Option (W → (source id : Text) → (expires_at : Time) → W × Result (Unit {0}))

pub record Reply : Type 0 where
  pub status : ℕ
  pub headers : Header
  pub body : Text

-- http.Error
abbrev pub http_error : Text → ℕ → Header → Reply
http_error message status headers = record {
  status = status;
  headers =
      (codes "Content-Type", codes "text/plain; charset=utf-8" ∷ [])
      ∷ (codes "X-Content-Type-Options", codes "nosniff" ∷ [])
      ∷ headers;
  body = message ++ 10 ∷ [];
}

abbrev bare : ℕ → Reply
bare status = record { status = status; headers = []; body = [] }

-- The status and the text of defaultErrorResponder.
unfoldable pub error_reply : Code → ℕ × Text
error_reply invalid_signature = (401, codes "invalid webhook")
error_reply expired_signature = (401, codes "invalid webhook")
error_reply invalid_message = (400, codes "invalid webhook")
error_reply decode_failed = (400, codes "invalid webhook")
error_reply body_too_large = (413, codes "webhook body too large")
error_reply unknown_event = (422, codes "unsupported webhook event")
error_reply _ = (500, codes "webhook processing failed")

-- defaultErrorResponder
unfoldable pub default_error_responder : Error → Reply
unfolding error_reply
default_error_responder e = let r = error_reply (error_code e) in http_error r.1 r.0 []

-- Receiver
pub record Receiver (W : Type 0) : Type 0 where
  pub verifier : W → VerifyInput → W × Result Verification
  pub handler : W → VerifiedMessage → W × Handled
  pub replay_guard : Option (Guard W)
  pub clock : W → Time
  pub max_body : ℤ
  pub replay_ttl : Duration
  pub success_status : ℕ
  pub respond_error : Error → Reply

-- ReceiverConfig; the clock is `clockOrSystem` of what it holds.
pub record ReceiverConfig (W : Type 0) : Type 0 where
  pub verifier : Option (W → VerifyInput → W × Result Verification)
  pub handler : Option (W → VerifiedMessage → W × Handled)
  pub replay_guard : Option (Guard W)
  pub clock : W → Time
  pub max_body_bytes : ℤ
  pub replay_ttl : Duration
  pub success_status : ℕ
  pub error_responder : Option (Error → Reply)

or_invalid {ℓ} : {A : Type ℓ} → Option A → Result A
or_invalid none = err (coded invalid_configuration)
or_invalid (some a) = ok a

-- NewReceiver
unfoldable pub new_receiver : {W : Type 0} → ReceiverConfig W → Result (Receiver W)
unfolding or_invalid default_error_responder
new_receiver c = do
  verifier ← or_invalid c.verifier
  handler ← or_invalid c.handler
  let status = if c.success_status == 0 then 204 else c.success_status
  reject_if (ltb status 200 || ltb 299 status) invalid_configuration
  ok (record {
    verifier = verifier;
    handler = handler;
    replay_guard = c.replay_guard;
    clock = c.clock;
    max_body = if leb_ℤ c.max_body_bytes (pos 0) then pos 1048576 else c.max_body_bytes;
    replay_ttl = if leb_ℤ c.replay_ttl (pos 0) then seconds 600 else c.replay_ttl;
    success_status = status;
    respond_error = elim c.error_responder [ none ↦ default_error_responder | some f ↦ f ];
  })

-- What a reader yields: some bytes, then the end or an error.
pub record Stream : Type 0 where
  pub bytes : Text
  pub fails : Bool

pub record Request : Type 0 where
  pub method : Text
  pub header : Header
  pub content_length : ℤ
  pub body : Option Stream

-- maximum+1, a sum of int64 that may wrap round, as io.LimitReader takes it: below 0 it reads nothing.
unfoldable pub read_window : (maximum : ℤ) → ℕ
read_window maximum = if leb_ℤ (pos max_int64) maximum then 0 else pos_part (maximum +ℤ pos 1)

-- readBounded: io.ReadAll over io.LimitReader sees at most `read_window maximum` bytes, and an error of
-- the reader only if it comes before them.
unfoldable pub read_bounded : Option Stream → (maximum : ℤ) → Result Text
unfolding read_window
read_bounded none maximum = ok []
read_bounded (some s) maximum =
    let limit = read_window maximum in
    do
      reject_if (s.fails && ltb (length s.bytes) limit) invalid_message
      reject_if (ltb_ℤ maximum (pos (length (take limit s.bytes)))) body_too_large
      ok (take limit s.bytes)

-- The tests before the body is verified, and the body.
unfoldable pub admit : ℤ → Request → Result Text
unfolding read_bounded
admit max_body q = do
  let encoding = trim_space (get (codes "Content-Encoding") q.header)
  reject_if (not (is_empty encoding) && not (text_eq (map lower encoding) (codes "identity")))
      invalid_message
  reject_if (ltb_ℤ max_body q.content_length) body_too_large
  read_bounded q.body max_body

-- The message that a verification makes of a request.
unfoldable pub verified_message : Request → (body : Text) → Verification → VerifiedMessage
verified_message q body v = record {
  id = v.id;
  event_type = v.event_type;
  source = v.source;
  timestamp = v.timestamp;
  body = body;
  content_type = get (codes "Content-Type") q.header;
  headers = q.header;
  metadata = v.metadata;
}

-- How ServeHTTP ends: the state, the reply, or `none` where the handler's panic goes on, and the
-- messages that the handler was given.
pub record Served (W : Type 0) : Type 0 where
  pub world : W
  pub reply : Option Reply
  pub handled : List VerifiedMessage

module _ {W : Type 0} (r : Receiver W) where
  abbrev rejected : W → Error → List VerifiedMessage → Served W
  rejected w e ms = record { world = w; reply = some (r.respond_error e); handled = ms }

  abbrev acknowledged : W → List VerifiedMessage → Served W
  acknowledged w ms = record { world = w; reply = some (bare r.success_status); handled = ms }

  -- After the handler, under a guard.
  unfoldable pub settle : Guard W → VerifiedMessage → W → Handled → Served W
  settle g m w panics = record {
    world = (g.release w m.source m.id).0;
    reply = none;
    handled = m ∷ [];
  }
  settle g m w (returns (err e)) =
      let (w', released) = g.release w m.source m.id in
      rejected w' (elim released [ ok _ ↦ e | err _ ↦ coded handler_failed ]) (m ∷ [])
  settle g m w (returns (ok _)) = elim g.commit [
    | none ↦ acknowledged w (m ∷ [])
    | some commit ↦
        let (w', committed) = commit w m.source m.id (r.clock w +ℤ r.replay_ttl) in
        elim committed [
          | ok _ ↦ acknowledged w' (m ∷ [])
          | err e ↦ rejected w' (coded replay) (m ∷ [])
        ]
  ]

  -- After Claim.
  unfoldable pub after_claim : Guard W → VerifiedMessage → W → Result Bool → Served W
  unfolding settle
  after_claim g m w (err e) = rejected w e []
  after_claim g m w (ok false) = acknowledged w []
  after_claim g m w (ok true) = let (w', h) = r.handler w m in settle g m w' h

  -- After the handler, without a guard.
  unfoldable pub unguarded : VerifiedMessage → W → Handled → Served W
  unguarded m w panics = record { world = w; reply = none; handled = m ∷ [] }
  unguarded m w (returns (err e)) = rejected w e (m ∷ [])
  unguarded m w (returns (ok _)) = acknowledged w (m ∷ [])

  -- The claim and the dispatch of a valid message.
  unfoldable pub dispatch : VerifiedMessage → (received_at : Time) → W → Served W
  unfolding after_claim unguarded
  dispatch m received_at w = elim r.replay_guard [
    | none ↦ let (w', h) = r.handler w m in unguarded m w' h
    | some g ↦
        let (w', claim) = g.claim w m.source m.id (received_at +ℤ r.replay_ttl) in
        after_claim g m w' claim
  ]

  -- After Verify.
  unfoldable pub after_verify : Request → Text → Time → W → Result Verification → Served W
  unfolding dispatch verified_message
  after_verify q body received_at w (err e) = rejected w e []
  after_verify q body received_at w (ok v) =
      let m = verified_message q body v in
      elim (validate_message m) [ err e ↦ rejected w e [] | ok _ ↦ dispatch m received_at w ]

  -- Receiver.ServeHTTP
  unfoldable pub serve_http : W → Request → Served W
  unfolding admit after_verify
  serve_http w q =
      if not (text_eq q.method (codes "POST"))
      then record {
        world = w;
        reply =
            some (
              http_error (codes "method not allowed") 405
                ((codes "Allow", codes "POST" ∷ []) ∷ []));
        handled = [];
      }
      else elim (admit r.max_body q) [
        | err e ↦ rejected w e []
        | ok body ↦
            let received_at = r.clock w in
            let (w', verification) =
              r.verifier w
                (record { headers = q.header; body = body; received_at = received_at }) in
            after_verify q body received_at w' verification
      ]
