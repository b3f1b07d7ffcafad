-- ===== src/Replay/System.antt =====
-- Any number of requests that share one MemoryReplayGuard, as interleavings of the guard's
-- locked sections: request `t` has the key `key t`, and a Claim that finds an entry in progress waits
-- for that entry's channel.
pub mod Invariant
pub mod Moves
pub mod Safety
pub mod Expiry
use hookbound.Base.{ℕ, ◌≡◌, Bool, true, ◌≤◌, Option, some, Text, if◌then◌else◌, ◌==◌, any, ◌≤ℤ◌, ℤ}
use hookbound.Errors.{Result}
use hookbound.Retry.{Time}
use hookbound.Replay.{
  ReplayGuard, ClaimRound, claimed, duplicate, full, wait, claim_round, commit, release,
}

-- Where a request stands. `acknowledged` is Claim's `false, nil`; `refused` is an error of Claim;
-- `accepted` and `failed` follow the handler's success with Commit, and its failure with Release.
pub data Phase : Type 0 where
  ready holding acknowledged refused accepted failed : Phase
  waiting : (done : Option ℕ) → Phase

pub record System : Type 0 where
  pub guard : ReplayGuard
  pub now : Time
  pub phase : ℕ → Phase

abbrev pub moved : (ℕ → Phase) → ℕ → Phase → ℕ → Phase
moved phase t p u = if t == u then p else phase u

abbrev pub after_round : ClaimRound → Phase
after_round claimed = holding
after_round duplicate = acknowledged
after_round full = refused
after_round (wait d) = waiting d

module _ (key : ℕ → Text) where
  unfoldable pub claim_step : System → ℕ → System
  claim_step s t =
      let r = claim_round s.guard s.now (key t) in
      record s { guard = r.0; phase = moved s.phase t (after_round r.1) }

  unfoldable pub commit_step : System → ℕ → (expires_at : Time) → System
  commit_step s t expires_at = record s {
    guard = (commit s.guard (key t) expires_at).0;
    phase = moved s.phase t accepted;
  }

  unfoldable pub release_step : System → ℕ → System
  release_step s t = record s {
    guard = (release s.guard (key t)).0;
    phase = moved s.phase t failed;
  }

  -- `<-done` returns only on a closed channel; `<-ctx.Done()` may return at any time.
  pub data Step (s : System) : System → Type 0 where
    claims : (t : ℕ) → s.phase t ≡ ready → Step s (claim_step s t)
    wakes :
        (t c : ℕ)
        → s.phase t ≡ waiting (some c)
        → any (λ x. x == c) s.guard.closed ≡ true
        → Step s (record s { phase = moved s.phase t ready })
    cancels :
        (t : ℕ) (d : Option ℕ)
        → s.phase t ≡ waiting d
        → Step s (record s { phase = moved s.phase t refused })
    commits :
        (t : ℕ) (expires_at : Time) → s.phase t ≡ holding → Step s (commit_step s t expires_at)
    releases : (t : ℕ) → s.phase t ≡ holding → Step s (release_step s t)
    ticks : (later : Time) → s.now ≤ℤ later → Step s (record s { now = later })

  pub data Reach (s : System) : System → Type 0 where
    here : Reach s s
    next : {u v : System} → Reach s u → Step u v → Reach s v
