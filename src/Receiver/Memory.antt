-- ===== src/Receiver/Memory.antt =====
-- A receiver over the in-process guard, one request at a time.
use hookbound.Base.{
  ◌≡◌, ◌≢◌, ◌≤◌, ◌<◌, inl, inr, refl, Bool, true, false, none, some, [], ◌∷◌, Text, codes, text_eq,
  text_eq_iff, ◌+ℤ◌, ◌<ℤ◌, arith, Bool-cases, ◌∙◌, ap,
}
use hookbound.Base.Table.{lookup, lookup-insert}
use hookbound.Errors.{internal, handler_failed, replay, Result, ok, err, Error, coded, Result-cases}
use hookbound.Retry.{Time}
use hookbound.Message.{VerifiedMessage, validate_message}
use hookbound.Signing.{VerifyInput, Verification}
use hookbound.Replay.{
  ReplayEntry, ReplayGuard, ClaimRound, claimed, duplicate, full, wait, replay_key, claim_round,
  commit, release,
}
use hookbound.Receiver.{
  Handled, returns, panics, verified_message, admit, Guard, Reply, Receiver, ReceiverConfig,
  new_receiver, Request, Served, settle, after_claim, dispatch, after_verify, serve_http,
}
use hookbound.Receiver.Success.{default_error_responder_status}
use hookbound.Receiver.Laws.{serve_http-IsVerified, new_receiver_parts, settle_handled}

-- The guard, the time that both clocks show, and the application's state.
pub record World (S : Type 0) : Type 0 where
  pub guard : ReplayGuard
  pub now : Time
  pub app : S

-- Alone, a Claim that would wait can only end with its context: `NewError(CodeInternal, …)`.
abbrev pub claim_answer : ClaimRound → Result Bool
claim_answer claimed = ok true
claim_answer duplicate = ok false
claim_answer full = err (coded internal)
claim_answer (wait d) = err (coded internal)

claim_remembered :
    (g : ReplayGuard) (now : Time) (key : Text) (e : ReplayEntry)
    → lookup key g.entries ≡ some e
    → e.accepted ≡ true
    → now <ℤ e.expires_at
    → claim_round g now key ≡ (g, duplicate)
unfolding claim_round
claim_remembered g now key e h a early = ground arith

module _ {S : Type 0} where
  unfoldable pub memory_guard : Guard (World S)
  memory_guard = record {
    claim = λ w source id expires_at.
        let r = claim_round w.guard w.now (replay_key source id) in
        (record w { guard = r.0 }, claim_answer r.1);
    release = λ w source id.
        let r = release w.guard (replay_key source id) in (record w { guard = r.0 }, r.1);
    commit = some (λ w source id expires_at.
        let r = commit w.guard (replay_key source id) expires_at in
        (record w { guard = r.0 }, r.1));
  }

  -- A message is accepted in a state if its entry is, and has not expired.
  abbrev pub Remembers : World S → VerifiedMessage → Type 0
  Remembers w m =
      (e : ReplayEntry) × (lookup (replay_key m.source m.id) w.guard.entries ≡ some e)
      × (e.accepted ≡ true)
      × (w.now <ℤ e.expires_at)

-- A remembered message is not granted again.
remembered_refused :
    {S : Type 0} (w : World S) (source id : Text) (x : Time) (e : ReplayEntry)
    → lookup (replay_key source id) w.guard.entries ≡ some e
    → e.accepted ≡ true
    → w.now <ℤ e.expires_at
    → (memory_guard.claim w source id x).1 ≢ ok true
unfolding memory_guard
remembered_refused w source id x e h a early granted =
    let same = claim_remembered w.guard w.now (replay_key source id) e h a early in
    ground (arith, same)

-- Under a guard, a request whose message is handled ends as `settle` does.
module _ {W : Type 0} (r : Receiver W) (g : Guard W) (guarded : r.replay_guard ≡ some g)
    (m : VerifiedMessage) where
  abbrev EndsIn : Served W → Type 0
  EndsIn s = (w : W) × (h : Handled) × (s ≡ settle r g m w h)

  after_claim_ends :
      (m' : VerifiedMessage) (w : W) (c : Result Bool)
      → (after_claim r g m' w c).handled ≡ m ∷ []
      → EndsIn (after_claim r g m' w c)
  unfolding after_claim
  after_claim_ends m' w (err e) h = absurd (ground arith)
  after_claim_ends m' w (ok false) h = absurd (ground arith)
  after_claim_ends m' w (ok true) h =
      let given = settle_handled r g m' (r.handler w m').0 (r.handler w m').1 in
      let same : m' ≡ m = ground (arith, given) in
      ((r.handler w m').0, (r.handler w m').1, rw same refl)

  dispatch_ends :
      (m' : VerifiedMessage) (at : Time) (w : W)
      → (dispatch r m' at w).handled ≡ m ∷ []
      → EndsIn (dispatch r m' at w)
  unfolding dispatch
  dispatch_ends m' at w h =
      simp (guarded, dispatch)
        (after_claim_ends m' (g.claim w m'.source m'.id (at +ℤ r.replay_ttl)).0
          (g.claim w m'.source m'.id (at +ℤ r.replay_ttl)).1 (simp (guarded, dispatch) at h))

  after_verify_ends :
      (q : Request) (body : Text) (at : Time) (w : W) (v : Result Verification)
      → (after_verify r q body at w v).handled ≡ m ∷ []
      → EndsIn (after_verify r q body at w v)
  unfolding after_verify
  after_verify_ends q body at w (err e) h = absurd (ground arith)
  after_verify_ends q body at w (ok v) h =
      let m' = verified_message q body v in
      elim (Result-cases (validate_message m')) [
        | inr (e, refused) ↦ absurd (ground arith)
        | inl (u, valid) ↦
            rw (valid, after_verify) (dispatch_ends m' at w (rw (valid, after_verify) at h))
      ]

  serve_http_ends :
      (w : W) (q : Request) → (serve_http r w q).handled ≡ m ∷ [] → EndsIn (serve_http r w q)
  unfolding serve_http
  serve_http_ends w q h = elim (Bool-cases (text_eq q.method (codes "POST"))) [
    | inr other ↦ absurd (ground arith)
    | inl post ↦ elim (Result-cases (admit r.max_body q)) [
      | inr (e, refused) ↦ absurd (ground arith)
      | inl (body, admitted) ↦
          let input : VerifyInput = record {
            headers = q.header;
            body = body;
            received_at = r.clock w;
          } in
          rw (post, serve_http)
            (rw admitted (
              after_verify_ends q body (r.clock w) (r.verifier w input).0 (r.verifier w input).1
                (ground arith)))
    ]
  ]

commit_entry :
    (g : ReplayGuard) (key : Text) (x : Time) (u : Unit {0})
    → (commit g key x).1 ≡ ok u
    → lookup key (commit g key x).0.entries
      ≡ some (record { accepted = true; expires_at = x; done = none })
unfolding commit
commit_entry g key x u h =
    let new : ReplayEntry = record { accepted = true; expires_at = x; done = none } in
    ground (arith, lookup-insert key key new g.entries, text_eq_iff key key)

module _ {S : Type 0} (r : Receiver (World S))
    (refuses : (e : Error) → 400 ≤ (r.respond_error e).status) (clock : r.clock ≡ λ w. w.now)
    (m : VerifiedMessage) where
  -- The entry that an acknowledged message leaves.
  abbrev entry_of : World S → ReplayEntry
  entry_of w = record { accepted = true; expires_at = w.now +ℤ r.replay_ttl; done = none }

  settle_remembers :
      (w : World S) (h : Handled) (p : Reply)
      → (settle r memory_guard m w h).reply ≡ some p
      → p.status < 400
      → let w' = (settle r memory_guard m w h).world in
        lookup (replay_key m.source m.id) w'.guard.entries ≡ some (entry_of w')
  unfolding settle memory_guard
  settle_remembers w panics p e low = absurd (ground arith)
  settle_remembers w (returns (err x)) p e low =
      absurd (ground (arith, refuses x, refuses (coded handler_failed)))
  settle_remembers w (returns (ok u)) p e low =
      let time : r.clock w ≡ w.now = ap (λ f. f w) clock in
      let key = replay_key m.source m.id in
      elim (Result-cases (commit w.guard key (r.clock w +ℤ r.replay_ttl)).1) [
        | inr (x, refused) ↦ absurd (ground (arith, refuses (coded replay)))
        | inl (_, done) ↦
            rw (done, settle)
              (commit_entry w.guard key (r.clock w +ℤ r.replay_ttl) _ done
                ∙ ap
                    (λ t.
                      some
                        (record { accepted = true; expires_at = t +ℤ r.replay_ttl; done = none }))
                    time)
      ]

  -- A message that a request had handled is remembered by the guard that it leaves.
  serve_http_remembers :
      (w : World S) (q : Request) (p : Reply)
      → r.replay_guard ≡ some memory_guard
      → (serve_http r w q).handled ≡ m ∷ []
      → (serve_http r w q).reply ≡ some p
      → p.status < 400
      → let w' = (serve_http r w q).world in
        lookup (replay_key m.source m.id) w'.guard.entries ≡ some (entry_of w')
  serve_http_remembers w q p guarded h e low =
      let (w', r', same) = serve_http_ends r memory_guard guarded m w q h in
      rw same (settle_remembers w' r' p (rw same at e) low)

-- Once a receiver over the in-process guard has handled a message and acknowledged it, it gives no
-- later request with the same source and id to the handler while the guard stays as that request
-- left it and the entry, which lives for the replay TTL from then on, has not expired. The verifier
-- is taken to leave the state alone, and the responder to be the default one.
pub redelivery_ignored :
    {S : Type 0} (c : ReceiverConfig (World S)) (r : Receiver (World S)) (w w₂ : World S)
    (q q₂ : Request) (m m₂ : VerifiedMessage) (p : Reply)
    → new_receiver c ≡ ok r
    → c.error_responder ≡ none
    → c.replay_guard ≡ some memory_guard
    → c.clock ≡ (λ (x : World S). x.now)
    → ((x : World S) (i : VerifyInput) → (r.verifier x i).0 ≡ x)
    → (serve_http r w q).handled ≡ m ∷ []
    → (serve_http r w q).reply ≡ some p
    → p.status < 400
    → w₂.guard ≡ (serve_http r w q).world.guard
    → w₂.now <ℤ (serve_http r w q).world.now +ℤ r.replay_ttl
    → m₂.source ≡ m.source
    → m₂.id ≡ m.id
    → (serve_http r w₂ q₂).handled ≢ m₂ ∷ []
redelivery_ignored c r w w₂ q q₂ m m₂ p built responder guard clock pure given reply low kept early
      source id again =
    let (same_guard, same_clock, respond) = new_receiver_parts c r built in
    let guarded : r.replay_guard ≡ some memory_guard = same_guard ∙ guard in
    let refuses : (e : Error) → 400 ≤ (r.respond_error e).status =
      λ e. rw (respond responder) (default_error_responder_status e) in
    let there =
      serve_http_remembers r refuses (same_clock ∙ clock) m w q p guarded given reply low in
    elim (serve_http-IsVerified c r w₂ q₂ built) [
      | inl nothing ↦ absurd (ground arith)
      | inr (m', given', v, _, _) ↦
          let e : m' ≡ m₂ = ground arith in
          let there' : lookup (replay_key m'.source m'.id) w₂.guard.entries
              ≡ some (entry_of r refuses (same_clock ∙ clock) m (serve_http r w q).world) =
            rw (e, source, id, kept) there in
          remembered_refused w₂ m'.source m'.id _ _ there' refl early
            (rw (pure w₂ _) at (v.claimed memory_guard guarded))
    ]
