-- ===== src/Receiver/Success.antt =====
-- What a successful reply means.
use hookbound.Base.{
  ◌⊎◌, ◌≡◌, ◌≤◌, ◌<◌, inl, inr, refl, Bool, true, false, none, some, [], ◌∷◌, Text, codes, text_eq,
  text_eq_iff, subst, sym, ap, ◌∙◌, ◌+ℤ◌, arith, Option-cases, Bool-cases,
}
use hookbound.Errors.{
  replay, handler_failed, Result, ok, err, Error, coded, error_code, Result-cases,
}
use hookbound.Message.{VerifiedMessage, validate_message}
use hookbound.Signing.{VerifyInput, Verification}
use hookbound.Receiver.{
  ReceiverConfig, new_receiver, Handled, returns, panics, Guard, Reply, default_error_responder,
  Receiver, Request, admit, verified_message, Served, settle, after_claim, unguarded, dispatch,
  after_verify, serve_http,
}
use hookbound.Receiver.Laws
use hookbound.Receiver.Laws.{settle_handled, new_receiver_parts}
use hookbound.Retry.{Time}

-- The default responder never answers with a success.
pub default_error_responder_status : (e : Error) → 400 ≤ (default_error_responder e).status
unfolding default_error_responder error_code
default_error_responder_status e = ground arith

module _ {W : Type 0} (r : Receiver W) where
  abbrev pub input_of : W → Request → (body : Text) → VerifyInput
  input_of w q body = record { headers = q.header; body = body; received_at = r.clock w }

  -- The message of a request: a POST whose body the receiver admits, what the verifier makes of these
  -- bytes, and valid.
  pub record IsRead (w : W) (q : Request) (m : VerifiedMessage) : Type 0 where
    pub post : q.method ≡ codes "POST"
    pub admitted : admit r.max_body q ≡ ok m.body
    pub verification : Verification
    pub verified : (r.verifier w (input_of w q m.body)).1 ≡ ok verification
    pub same : m ≡ verified_message q m.body verification
    pub valid : validate_message m ≡ ok tt

  -- The guard's answer to the claim of a message, in the state that the verifier leaves.
  abbrev pub claim_of : Guard W → VerifiedMessage → (at : Time) → W → W × Result Bool
  claim_of g m at w = g.claim w m.source m.id (at +ℤ r.replay_ttl)

  -- A guard cannot commit, or has committed the message in this state.
  abbrev pub Commits : Guard W → VerifiedMessage → W → Type 0
  Commits g m w =
      (g.commit ≡ none)
      ⊎ ((commit : W → (source id : Text) → (expires_at : Time) → W × Result (Unit {0})) × (g.commit
            ≡ some commit)
          × ((commit w m.source m.id (r.clock w +ℤ r.replay_ttl)).1 ≡ ok tt))

  -- Why a message may be acknowledged: it was handled, or the guard had accepted it before. `w` is the
  -- state that the verifier leaves.
  pub data Accepts (m : VerifiedMessage) (at : Time) (w : W) (s : Served W) : Type 0 where
    unguarded_handled :
        s.handled ≡ m ∷ []
        → r.replay_guard ≡ none
        → (r.handler w m).1 ≡ returns (ok tt)
        → Accepts m at w s
    handled :
        (g : Guard W)
        → s.handled ≡ m ∷ []
        → r.replay_guard ≡ some g
        → (claim_of g m at w).1 ≡ ok true
        → (r.handler (claim_of g m at w).0 m).1 ≡ returns (ok tt)
        → Commits g m (r.handler (claim_of g m at w).0 m).0
        → Accepts m at w s
    duplicate :
        (g : Guard W)
        → s.handled ≡ []
        → r.replay_guard ≡ some g
        → (claim_of g m at w).1 ≡ ok false
        → Accepts m at w s

  abbrev pub IsAccepted : W → Request → Served W → Type 0
  IsAccepted w q s =
      (m : VerifiedMessage) × IsRead w q m
      × Accepts m (r.clock w) (r.verifier w (input_of w q m.body)).0 s

module _ {W : Type 0} (r : Receiver W)
    (refuses : (e : Error) → 400 ≤ (r.respond_error e).status) where
  settle_success :
      (g : Guard W) (m : VerifiedMessage) (w : W) (h : Handled) (p : Reply)
      → (settle r g m w h).reply ≡ some p
      → p.status < 400
      → (h ≡ returns (ok tt)) × Commits r g m w
  unfolding settle
  settle_success g m w panics p e low = absurd (ground arith)
  settle_success g m w (returns (err x)) p e low =
      absurd (ground (arith, refuses x, refuses (coded handler_failed)))
  settle_success g m w (returns (ok _)) p e low = (
    refl,
    elim (Option-cases g.commit) [
      | inl absent ↦ inl absent
      | inr (commit, there) ↦
          elim (Result-cases (commit w m.source m.id (r.clock w +ℤ r.replay_ttl)).1) [
            | inl (u, done) ↦ inr (commit, there, done)
            | inr (x, failed) ↦ absurd (ground (arith, there, failed, refuses (coded replay)))
          ]
    ],
  )

  unguarded_success :
      (m : VerifiedMessage) (w : W) (h : Handled) (p : Reply)
      → (unguarded r m w h).reply ≡ some p
      → p.status < 400
      → h ≡ returns (ok tt)
  unfolding unguarded
  unguarded_success m w panics p e low = absurd (ground arith)
  unguarded_success m w (returns (err x)) p e low = absurd (ground (arith, refuses x))
  unguarded_success m w (returns (ok _)) p e low = refl

  after_claim_success :
      (g : Guard W) (m : VerifiedMessage) (at : Time) (w : W) (p : Reply)
      → r.replay_guard ≡ some g
      → let claim = claim_of r g m at w in
        (after_claim r g m claim.0 claim.1).reply ≡ some p
        → p.status < 400
        → Accepts r m at w (after_claim r g m claim.0 claim.1)
  unfolding after_claim
  after_claim_success g m at w p guarded e low = by_answer (claim_of r g m at w).1 refl e
    where
      w₁ : W
      w₁ = (claim_of r g m at w).0

      by_answer :
          (a : Result Bool)
          → (claim_of r g m at w).1 ≡ a
          → (after_claim r g m w₁ a).reply ≡ some p
          → Accepts r m at w (after_claim r g m w₁ a)
      by_answer (err x) same e = absurd (ground (arith, refuses x))
      by_answer (ok false) same e = duplicate g refl guarded same
      by_answer (ok true) same e =
          let (returned, committed) =
            settle_success g m (r.handler w₁ m).0 (r.handler w₁ m).1 p e low in
          handled g (settle_handled r g m (r.handler w₁ m).0 (r.handler w₁ m).1) guarded same
            returned committed

  dispatch_success :
      (m : VerifiedMessage) (at : Time) (w : W) (p : Reply)
      → (dispatch r m at w).reply ≡ some p
      → p.status < 400
      → Accepts r m at w (dispatch r m at w)
  unfolding dispatch
  dispatch_success m at w p e low = elim (Option-cases r.replay_guard) [
    | inl none_set ↦
        simp (none_set, dispatch)
          (unguarded_handled (Laws.unguarded_handled r m (r.handler w m).0 (r.handler w m).1)
            none_set
            (unguarded_success m (r.handler w m).0 (r.handler w m).1 p
              (rw (none_set, dispatch) at e) low))
    | inr (g, guarded) ↦
        simp (guarded, dispatch)
          (after_claim_success g m at w p guarded (simp (guarded, dispatch) at e) low)
  ]

  serve_http_success :
      (w : W) (q : Request) (p : Reply)
      → (serve_http r w q).reply ≡ some p
      → p.status < 400
      → IsAccepted r w q (serve_http r w q)
  unfolding serve_http after_verify
  serve_http_success w q p e low = elim (Bool-cases (text_eq q.method (codes "POST"))) [
    | inr other ↦ absurd (ground arith)
    | inl post ↦ elim (Result-cases (admit r.max_body q)) [
      | inr (x, refused) ↦ absurd (ground (arith, refuses x))
      | inl (body, admitted) ↦ elim (Result-cases (r.verifier w (input_of r w q body)).1) [
        | inr (x, failed) ↦ absurd (ground (arith, failed, refuses x))
        | inl (v, verified) ↦ by_message post body admitted v verified
      ]
    ]
  ]
    where
      by_message :
          text_eq q.method (codes "POST") ≡ true
          → (body : Text) → admit r.max_body q ≡ ok body
          → (v : Verification) → (r.verifier w (input_of r w q body)).1 ≡ ok v
          → IsAccepted r w q (serve_http r w q)
      by_message post body admitted v verified =
          let m = verified_message q body v in
          let w₁ = (r.verifier w (input_of r w q body)).0 in
          elim (Result-cases (validate_message m)) [
            | inr (x, refused) ↦ absurd (ground (arith, verified, refused, refuses x))
            | inl (u, valid) ↦
                let same : serve_http r w q ≡ dispatch r m (r.clock w) w₁ =
                  rw (post, serve_http)
                    (rw admitted (rw verified (rw (valid, after_verify) refl))) in
                (
                  m,
                  record {
                    post = (text_eq_iff q.method (codes "POST")).0 post;
                    admitted = admitted;
                    verification = v;
                    verified = verified;
                    same = refl;
                    valid = valid;
                  },
                  subst (Accepts r m (r.clock w) w₁) (sym same)
                      (dispatch_success m (r.clock w) w₁ p (ap (λ s. s.reply) (sym same) ∙ e) low),
                )
          ]

-- A receiver with the default responder answers a request with a status below 400 only if the request
-- was a POST whose body it admits, the verifier accepted that body, and the message that comes of this
-- is valid; and, in the states that the calls before leave, either the handler was given this message
-- and returned no error, a guard, if there is one, having granted the claim of the message's source and
-- id before and, if it can commit, having committed them after, or the guard refused that claim as a
-- duplicate and the handler was not called.
pub acknowledged-IsAccepted :
    {W : Type 0} (c : ReceiverConfig W) (r : Receiver W) (w : W) (q : Request) (p : Reply)
    → new_receiver c ≡ ok r
    → c.error_responder ≡ none
    → (serve_http r w q).reply ≡ some p
    → p.status < 400
    → IsAccepted r w q (serve_http r w q)
acknowledged-IsAccepted c r w q p built no_responder e low =
    serve_http_success r refuses w q p e low
  where
    default : r.respond_error ≡ default_error_responder
    default = (new_receiver_parts c r built).2 no_responder

    refuses : (x : Error) → 400 ≤ (r.respond_error x).status
    refuses x = rw default (default_error_responder_status x)
