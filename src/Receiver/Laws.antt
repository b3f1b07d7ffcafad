-- ===== src/Receiver/Laws.antt =====
-- What every receiver guarantees, whatever its verifier, handler and guard.
use hookbound.Base.{
  ◌≡◌, ◌⊎◌, inl, inr, refl, Bool, true, false, Option, none, some, [], ◌∷◌, Text, codes, text_eq,
  text_eq_iff, length, length-take, take-short, sym, ◌∙◌, ◌<◌, ◌≤◌, ◌+◌, ℕ, take, ℤ, pos, negsuc,
  ltb, ◌+ℤ◌, ◌≤ℤ◌, arith, Option-cases, Bool-cases,
}
use hookbound.Errors.{Result, ok, err, Result-cases}
use hookbound.Retry.{Time, max_int64}
use hookbound.Message.{VerifiedMessage, validate_message}
use hookbound.Signing.{VerifyInput, Verification}
use hookbound.Receiver.{
  ReceiverConfig, new_receiver, Handled, returns, panics, Guard, default_error_responder, Receiver,
  Stream, Request, read_bounded, read_window, admit, verified_message, settle, after_claim,
  unguarded, dispatch, after_verify, serve_http,
}

-- Reading is bounded: a body that is accepted is all of the stream, and within the limit.
read_bounded_sound :
    (s : Option Stream) (maximum : ℤ) (body : Text)
    → pos 0 ≤ℤ maximum
    → read_bounded s maximum ≡ ok body
    → pos (length body) ≤ℤ maximum
unfolding read_bounded
read_bounded_sound none maximum body p h = ground arith
read_bounded_sound (some s) maximum body p h = ground arith

read_window-eq : (n : ℕ) → n < max_int64 → read_window (pos n) ≡ n + 1
unfolding read_window ◌+ℤ◌
read_window-eq n p = ground (arith, p)

-- Below the largest int64, a body that is accepted is all that the stream has.
read_bounded_whole :
    (s : Stream) (n : ℕ) (body : Text)
    → n < max_int64
    → read_bounded (some s) (pos n) ≡ ok body
    → body ≡ s.bytes
unfolding read_bounded
read_bounded_whole s n body p h =
    let window = read_window-eq n p in
    let (within, kept) : (length (take (n + 1) s.bytes) ≤ n) × (take (n + 1) s.bytes ≡ body) =
      (ground (arith, h, window), ground (arith, h, window)) in
    sym kept ∙ take-short (n + 1) s.bytes (ground (arith, within, length-take (n + 1) s.bytes))

module _ {W : Type 0} (r : Receiver W) where
  -- What stands behind a message that the handler is given: the request was a POST, the verifier
  -- accepted these very bytes, the message is the verification's and is valid, and under a guard
  -- the claim of its identity was granted.
  pub record IsVerified (w : W) (q : Request) (m : VerifiedMessage) : Type 0 where
    pub post : q.method ≡ codes "POST"
    pub admitted : admit r.max_body q ≡ ok m.body
    pub verification : Verification
    pub verified :
        (r.verifier w (record { headers = q.header; body = m.body; received_at = r.clock w })).1
        ≡ ok verification
    pub same : m ≡ verified_message q m.body verification
    pub valid : validate_message m ≡ ok tt
    pub claimed :
        (g : Guard W)
        → r.replay_guard ≡ some g
        → (g.claim
            (r.verifier w (record { headers = q.header; body = m.body; received_at = r.clock w })).0
            m.source
            m.id
            (r.clock w +ℤ r.replay_ttl)).1
          ≡ ok true

  pub settle_handled :
      (g : Guard W) (m : VerifiedMessage) (w : W) (h : Handled)
      → (settle r g m w h).handled ≡ m ∷ []
  unfolding settle
  settle_handled g m w panics = refl
  settle_handled g m w (returns (err e)) = refl
  settle_handled g m w (returns (ok _)) = ground arith

  pub unguarded_handled :
      (m : VerifiedMessage) (w : W) (h : Handled) → (unguarded r m w h).handled ≡ m ∷ []
  unfolding unguarded
  unguarded_handled m w panics = refl
  unguarded_handled m w (returns (err e)) = refl
  unguarded_handled m w (returns (ok _)) = refl

  after_claim_handled :
      (g : Guard W) (m : VerifiedMessage) (w : W) (c : Result Bool)
      → ((after_claim r g m w c).handled ≡ [])
        ⊎ ((c ≡ ok true) × ((after_claim r g m w c).handled ≡ m ∷ []))
  unfolding after_claim
  after_claim_handled g m w (err e) = inl refl
  after_claim_handled g m w (ok false) = inl refl
  after_claim_handled g m w (ok true) =
      inr (refl, settle_handled g m (r.handler w m).0 (r.handler w m).1)

  dispatch_handled :
      (m : VerifiedMessage) (at : Time) (w : W)
      → ((dispatch r m at w).handled ≡ [])
        ⊎ (((dispatch r m at w).handled ≡ m ∷ [])
            × ((g : Guard W)
                → r.replay_guard ≡ some g
                → (g.claim w m.source m.id (at +ℤ r.replay_ttl)).1 ≡ ok true))
  unfolding dispatch
  dispatch_handled m at w = elim (Option-cases r.replay_guard) [
    | inl e ↦
        rw (e, dispatch) (inr (unguarded_handled m (r.handler w m).0 (r.handler w m).1, λ g x. cc))
    | inr (g, e) ↦
        rw (e, dispatch)
          (elim (after_claim_handled g m (g.claim w m.source m.id (at +ℤ r.replay_ttl)).0
            (g.claim w m.source m.id (at +ℤ r.replay_ttl)).1) [
              | inl none_given ↦ inl none_given
              | inr (granted, given) ↦ inr (given, λ g' x. ground arith)
            ])
  ]

  after_verify_handled :
      (q : Request) (body : Text) (at : Time) (w : W) (v : Verification)
      → let m = verified_message q body v in
        ((after_verify r q body at w (ok v)).handled ≡ [])
        ⊎ (((after_verify r q body at w (ok v)).handled ≡ m ∷ [])
            × (validate_message m ≡ ok tt)
            × ((g : Guard W)
                → r.replay_guard ≡ some g
                → (g.claim w m.source m.id (at +ℤ r.replay_ttl)).1 ≡ ok true))
  unfolding after_verify
  after_verify_handled q body at w v =
      let m = verified_message q body v in
      elim (Result-cases (validate_message m)) [
        | inr (e, refused) ↦ rw (refused, after_verify) (inl refl)
        | inl (u, valid) ↦
            rw (valid, after_verify)
              (elim (dispatch_handled m at w) [
                | inl none_given ↦ inl none_given
                | inr (given, granted) ↦ inr (given, refl, granted)
              ])
      ]

  serve_http_handled :
      (w : W) (q : Request)
      → ((serve_http r w q).handled ≡ [])
        ⊎ ((m : VerifiedMessage) × ((serve_http r w q).handled ≡ m ∷ []) × IsVerified w q m)
  unfolding serve_http
  serve_http_handled w q = elim (Bool-cases (text_eq q.method (codes "POST"))) [
    | inr other ↦ inl (rw (other, serve_http) refl)
    | inl post ↦ elim (Result-cases (admit r.max_body q)) [
      | inr (e, refused) ↦ inl (rw (post, serve_http) (rw refused refl))
      | inl (body, admitted) ↦
          by_verification body (ground (arith, text_eq_iff q.method (codes "POST"))) admitted
    ]
  ]
    where
      input : Text → VerifyInput
      input body = record { headers = q.header; body = body; received_at = r.clock w }

      by_verification :
          (body : Text)
          → q.method ≡ codes "POST"
          → admit r.max_body q ≡ ok body
          → ((serve_http r w q).handled ≡ [])
            ⊎ ((m : VerifiedMessage) × ((serve_http r w q).handled ≡ m ∷ []) × IsVerified w q m)
      by_verification body post admitted =
          let post' = (text_eq_iff q.method (codes "POST")).1 post in
          elim (Result-cases (r.verifier w (input body)).1) [
            | inr (e, refused) ↦ inl (rw (post', serve_http) (rw admitted (rw refused refl)))
            | inl (v, verified) ↦
                elim (after_verify_handled q body (r.clock w) (r.verifier w (input body)).0 v) [
                  | inl none_given ↦
                      inl (rw (post', serve_http) (rw admitted (rw verified none_given)))
                  | inr (given, valid, granted) ↦ inr (
                    verified_message q body v,
                    rw (post', serve_http) (rw admitted (rw verified given)),
                    record {
                      post = post;
                      admitted = admitted;
                      verification = v;
                      verified = verified;
                      same = refl;
                      valid = valid;
                      claimed = granted;
                    },
                  )
                ]
          ]

new_receiver_max_body :
    {W : Type 0} (c : ReceiverConfig W) (r : Receiver W)
    → new_receiver c ≡ ok r
    → pos 0 ≤ℤ r.max_body
unfolding new_receiver
new_receiver_max_body c r h = ground arith

-- The parts that a receiver takes over from its configuration.
pub new_receiver_parts :
    {W : Type 0} (c : ReceiverConfig W) (r : Receiver W)
    → new_receiver c ≡ ok r
    → (r.replay_guard ≡ c.replay_guard)
      × (r.clock ≡ c.clock)
      × (c.error_responder ≡ none → r.respond_error ≡ default_error_responder)
unfolding new_receiver
new_receiver_parts c r h = (ground arith, ground arith, λ e. ground arith)

admit_sound :
    (max_body : ℤ) (q : Request) (body : Text)
    → pos 0 ≤ℤ max_body
    → admit max_body q ≡ ok body
    → pos (length body) ≤ℤ max_body
unfolding admit
admit_sound max_body q body p h = ground (arith, read_bounded_sound q.body max_body body p)

-- A body is all that a request holds, or the limit is the largest int64.
abbrev pub IsWhole : (max_body : ℤ) → Request → (body : Text) → Type 0
IsWhole max_body q body =
    (pos max_int64 ≤ℤ max_body)
    ⊎ ((q.body ≡ none) × (body ≡ []))
    ⊎ ((s : Stream) × (q.body ≡ some s) × (body ≡ s.bytes))

admit-read :
    (max_body : ℤ) (q : Request) (body : Text)
    → admit max_body q ≡ ok body
    → read_bounded q.body max_body ≡ ok body
unfolding admit
admit-read max_body q body h = ground (arith, h)

admit-IsWhole :
    (max_body : ℤ) (q : Request) (body : Text)
    → pos 0 ≤ℤ max_body
    → admit max_body q ≡ ok body
    → IsWhole max_body q body
unfolding read_bounded
admit-IsWhole (negsuc n) q body p h = absurd (ground (arith, p))
admit-IsWhole (pos n) q body p h = by_body q.body (admit-read (pos n) q body h) refl
  where
    by_body :
        (stream : Option Stream)
        → read_bounded stream (pos n) ≡ ok body
        → q.body ≡ stream
        → IsWhole (pos n) q body
    by_body none read same = inr (inl (same, ground (arith, read)))
    by_body (some s) read same = elim (Bool-cases (ltb n max_int64)) [
      | inl below ↦ inr (inr (s, same, read_bounded_whole s n body (ground (arith, below)) read))
      | inr above ↦ inl (ground (arith, above))
    ]

-- A receiver gives the handler at most one message of a request, and gives it one only if the
-- request was a POST whose body is within the limit, the message's body is all of the request's, unless
-- the limit is the largest int64, the verifier accepted exactly the bytes that
-- the message carries, the message passed its validation, and the guard, if there is one, granted
-- the claim of its source and id.
pub serve_http-IsVerified :
    {W : Type 0} (c : ReceiverConfig W) (r : Receiver W) (w : W) (q : Request)
    → new_receiver c ≡ ok r
    → ((serve_http r w q).handled ≡ [])
      ⊎ ((m : VerifiedMessage) × ((serve_http r w q).handled ≡ m ∷ [])
          × IsVerified r w q m
          × (pos (length m.body) ≤ℤ r.max_body)
          × IsWhole r.max_body q m.body)
serve_http-IsVerified c r w q built = elim (serve_http_handled r w q) [
  | inl nothing ↦ inl nothing
  | inr (m, given, v) ↦
      let positive = new_receiver_max_body c r built in
      inr (
        m,
        given,
        v,
        admit_sound r.max_body q m.body positive v.admitted,
        admit-IsWhole r.max_body q m.body positive v.admitted,
      )
]
