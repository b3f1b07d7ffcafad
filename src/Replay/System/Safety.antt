-- ===== src/Replay/System/Safety.antt =====
-- What holds of every reachable interleaving of requests over one guard.
use hookbound.Base.{
  ℕ, ◌≡◌, ◌≢◌, ◌⊎◌, inl, inr, refl, true, Option, none, some, Text, ℤ, text_eq_iff, arith,
}
use hookbound.Base.Table.{lookup, lookup-delete, lookup-insert}
use hookbound.Retry.{Time}
use hookbound.Replay.{
  ReplayEntry, ReplayGuard, ClaimRound, claimed, duplicate, full, wait, claim_round, commit,
  release, new_memory_replay_guard,
}
use hookbound.Replay.Laws.{IsValid, claim_round-IsValid, commit-IsValid, release-IsValid}
use hookbound.Replay.Rounds.{
  Active, fresh_entry, round_before, round-Active, round_means, round_closed, RoundMeans,
}
use hookbound.Replay.System.{
  Phase, ready, holding, acknowledged, refused, accepted, failed, waiting, System, moved,
  after_round, claim_step, commit_step, release_step, Step, claims, wakes, cancels, commits,
  releases, ticks, Reach, here, next,
}
use hookbound.Replay.System.Invariant.{IsClosed, Inv}
use hookbound.Replay.System.Invariant.{shift-Inv}
use hookbound.Replay.System.Moves.{grant-Inv, settle-Inv}

module _ (key : ℕ → Text) (s : System) (t : ℕ) (v : Inv key s) where
  claim-Inv : s.phase t ≡ ready → Inv key (claim_step key s t)
  unfolding claim_step
  claim-Inv idle =
      by_answer (claim_round s.guard s.now (key t)).1 (round_means s.guard s.now (key t))
        (λ j e h. round_before s.guard s.now (key t) v.valid.distinct j e h)
    where
      g : ReplayGuard
      g = (claim_round s.guard s.now (key t)).0

      kept : (j : Text) (e : ReplayEntry) → Active s.guard j e → lookup j g.entries ≡ some e
      kept j e a = round-Active s.guard s.now (key t) v.valid.distinct j e a

      closed : g.closed ≡ s.guard.closed
      closed = round_closed s.guard s.now (key t)

      valid : IsValid g
      valid = claim_round-IsValid s.guard s.now (key t) v.valid

      no_holder : s.phase t ≢ holding
      no_holder e = cc

      no_accepter : s.phase t ≢ accepted
      no_accepter e = cc

      old :
          (a : ClaimRound)
          → a ≢ claimed
          → ((j : Text) (e : ReplayEntry)
              → lookup j g.entries ≡ some e
              → (lookup j s.guard.entries ≡ some e)
                ⊎ ((key t ≡ j) × (a ≡ claimed) × (e ≡ fresh_entry s.guard)))
          → (j : Text) (e : ReplayEntry) → lookup j g.entries ≡ some e
          → lookup j s.guard.entries ≡ some e
      old a n before j e h = elim (before j e h) [ inl x ↦ x | inr (_, x, _) ↦ absurd (n x) ]

      by_answer :
          (a : ClaimRound)
          → RoundMeans s.guard s.now (key t) g a
          → ((j : Text) (e : ReplayEntry)
              → lookup j g.entries ≡ some e
              → (lookup j s.guard.entries ≡ some e)
                ⊎ ((key t ≡ j) × (a ≡ claimed) × (e ≡ fresh_entry s.guard)))
          → Inv key (record s { guard = g; phase = moved s.phase t (after_round a) })
      by_answer claimed (free, mine) before =
          grant-Inv key s t g v valid no_holder no_accepter free mine
            (λ j e h. elim (before j e h) [ inl x ↦ inl x | inr (x, _, y) ↦ inr (x, y) ]) kept
            closed
      by_answer duplicate (e, found, over, _) before =
          shift-Inv key s t acknowledged g v no_holder no_accepter (λ x. cc) valid
            (old duplicate (λ x. cc) before) kept closed (λ d x. cc)
            (λ _. v.acceptor (key t) e found over)
      by_answer full m before =
          shift-Inv key s t refused g v no_holder no_accepter (λ x. cc) valid
            (old full (λ x. cc) before) kept closed (λ d x. cc) (λ x. cc)
      by_answer (wait d) (e, a, same, _) before =
          shift-Inv key s t (waiting d) g v no_holder no_accepter (λ x. cc) valid
            (old (wait d) (λ x. cc) before) kept closed
            (λ d' x.
              let (c, o) = v.opened (key t) e a in
              (c, ground arith, inr (e, (kept (key t) e a, a.1), o)))
            (λ x. cc)

  -- Waking up and giving up change the phase alone.
  phase-Inv :
      (d : Option ℕ) (p : Phase)
      → s.phase t ≡ waiting d
      → (p ≡ ready) ⊎ (p ≡ refused)
      → Inv key (record s { phase = moved s.phase t p })
  phase-Inv d p h to =
      shift-Inv key s t p s.guard v (λ e. cc) (λ e. cc) (λ e. ground arith) v.valid (λ j e x. x)
        (λ j e a. a.0) refl (λ d' x. absurd (ground arith)) (λ x. absurd (ground arith))

  commit-Inv : (expires_at : Time) → s.phase t ≡ holding → Inv key (commit_step key s t expires_at)
  unfolding commit_step commit
  commit-Inv expires_at h =
      let (e₀, (found, a)) = v.held t h in
      let valid = commit-IsValid s.guard (key t) expires_at v.valid in
      let new : ReplayEntry = record { accepted = true; expires_at = expires_at; done = none } in
      settle-Inv key s t (commit s.guard (key t) expires_at).0 v valid accepted e₀ (found, a) h
        (inl refl)
        (λ j e x.
          ground (arith, lookup-insert (key t) j new s.guard.entries, text_eq_iff (key t) j))
        (λ j e x n.
          ground (arith, lookup-insert (key t) j new s.guard.entries, text_eq_iff (key t) j))
        (λ c x. ground arith) (λ c x. ground arith)

  release-Inv : s.phase t ≡ holding → Inv key (release_step key s t)
  unfolding release_step release
  release-Inv h =
      let (e₀, (found, a)) = v.held t h in
      let valid = release-IsValid s.guard (key t) v.valid in
      settle-Inv key s t (release s.guard (key t)).0 v valid failed e₀ (found, a) h (inr refl)
        (λ j e x. ground (arith, lookup-delete (key t) j s.guard.entries, text_eq_iff (key t) j))
        (λ j e x n. ground (arith, lookup-delete (key t) j s.guard.entries, text_eq_iff (key t) j))
        (λ c x. ground arith) (λ c x. ground arith)

pub Step-Inv : (key : ℕ → Text) {s u : System} → Inv key s → Step key s u → Inv key u
Step-Inv key {s} v (claims t h) = claim-Inv key s t v h
Step-Inv key {s} v (wakes t c h _) = phase-Inv key s t v (some c) ready h (inl refl)
Step-Inv key {s} v (cancels t d h) = phase-Inv key s t v d refused h (inr refl)
Step-Inv key {s} v (commits t x h) = commit-Inv key s t v x h
Step-Inv key {s} v (releases t h) = release-Inv key s t v h
Step-Inv key {s} v (ticks later h) = record {
  valid = v.valid;
  opened = v.opened;
  held = v.held;
  single = v.single;
  holder = v.holder;
  acceptor = v.acceptor;
  waits = v.waits;
  acked = v.acked;
}

-- A new guard, and requests that have not asked it anything yet.
unfoldable pub start : (max_entries : ℤ) → Time → System
start max_entries now = record {
  guard = new_memory_replay_guard max_entries;
  now = now;
  phase = λ t. ready;
}

pub start-Inv : (key : ℕ → Text) (max_entries : ℤ) (now : Time) → Inv key (start max_entries now)
unfolding start new_memory_replay_guard lookup
start-Inv key max_entries now = record {
  valid = record { distinct = tt; bounded = omega arith };
  opened = λ k e a. absurd (ground arith);
  held = λ t h. absurd (ground arith);
  single = λ t u h. absurd (ground arith);
  holder = λ k e a. absurd (ground arith);
  acceptor = λ k e h. absurd (ground arith);
  waits = λ t d h. absurd (ground arith);
  acked = λ t h. absurd (ground arith);
}

pub Reach-Inv : (key : ℕ → Text) {s u : System} → Inv key s → Reach key s u → Inv key u
Reach-Inv key v here = v
Reach-Inv key v (next r step) = Step-Inv key (Reach-Inv key v r) step

module _ (key : ℕ → Text) (max_entries : ℤ) (now : Time) (s : System)
    (reached : Reach key (start max_entries now) s) where
  open Reach-Inv key (start-Inv key max_entries now) reached use {
    single, acked, waits, holder, valid,
  }

  -- In every state that requests over a new guard can reach, two requests that both hold a claim of
  -- one key are the same request, so no two handlers run at once on the same message.
  pub one_holder : (t u : ℕ) → s.phase t ≡ holding → s.phase u ≡ holding → key t ≡ key u → t ≡ u
  one_holder = single

  -- In every state that requests over a new guard can reach, the guard's entries have distinct keys
  -- and are no more than its capacity.
  pub reached-IsValid : IsValid s.guard
  reached-IsValid = valid

  -- A request is told that its message was already accepted only if some request with the same key
  -- has had its handler succeed and has committed: a message in progress is never acknowledged.
  pub acknowledged_accepted :
      (t : ℕ) → s.phase t ≡ acknowledged → (u : ℕ) × (s.phase u ≡ accepted) × (key u ≡ key t)
  acknowledged_accepted = acked

  -- No wakeup is lost: a request that waits does so on a channel that is closed, or some request
  -- holds the claim of its key at that moment, and both its Commit and its Release close that channel.
  pub waiting_progress :
      (t : ℕ) (d : Option ℕ)
      → s.phase t ≡ waiting d
      → (c : ℕ) × (d ≡ some c)
        × (IsClosed s.guard c
            ⊎ ((u : ℕ) × (s.phase u ≡ holding)
                × (key u ≡ key t)
                × ((x : Time) → IsClosed (commit_step key s u x).guard c)
                × IsClosed (release_step key s u).guard c))
  unfolding commit_step release_step commit release
  waiting_progress t d h =
      let (c, e, why) = waits t d h in
      (
        c,
        e,
        elim why [
          | inl done ↦ inl done
          | inr (x, a, o) ↦
              let (u, holds, same) = holder (key t) x a in
              inr (u, holds, same, λ y. ground arith, ground arith)
        ],
      )
