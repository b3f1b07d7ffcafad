-- ===== src/Replay/System/Expiry.antt =====
-- An accepted message is not handled again before its entry expires.
use hookbound.Base.{ℕ, ◌≡◌, ◌≢◌, refl, true, not, none, some, Text, ℤ, ◌<ℤ◌, text_eq_iff, arith}
use hookbound.Base.Table.{lookup, delete, lookup-delete, lookup-insert, lookup-keep_pass}
use hookbound.Retry.{Time}
use hookbound.Replay.{
  ReplayEntry, ReplayGuard, sweep, reserve, has_expired, claim_round, commit, release,
}
use hookbound.Replay.Rounds.{fresh_entry}
use hookbound.Replay.System.{
  holding, System, claim_step, commit_step, release_step, Step, claims, wakes, cancels, commits,
  releases, ticks, Reach, here, next,
}
use hookbound.Replay.System.Invariant.{Inv}
use hookbound.Replay.System.Safety.{Step-Inv, start, start-Inv, Reach-Inv}

reserve_accepted :
    (g : ReplayGuard) (now : Time) (key j : Text) (e : ReplayEntry)
    → lookup j g.entries ≡ some e
    → now <ℤ e.expires_at
    → key ≢ j
    → lookup j (reserve g now key).0.entries ≡ some e
unfolding reserve sweep has_expired
reserve_accepted g now key j e h early n =
    let g' = sweep g now in
    let p = λ (x : ReplayEntry). not (has_expired now x) in
    ground (
      arith,
      lookup-keep_pass p j e g.entries h,
      lookup-insert key j (fresh_entry g') g'.entries,
      text_eq_iff key j,
    )

-- A round of Claim keeps every accepted entry whose time has not passed.
round_accepted :
    (g : ReplayGuard) (now : Time) (key j : Text) (e : ReplayEntry)
    → lookup j g.entries ≡ some e
    → e.accepted ≡ true
    → now <ℤ e.expires_at
    → lookup j (claim_round g now key).0.entries ≡ some e
unfolding claim_round
round_accepted g now key j e h a early =
    let g' = record g { entries = delete key g.entries } in
    ground (
      arith,
      reserve_accepted g now key j e h early,
      reserve_accepted g' now key j e,
      lookup-delete key j g.entries,
      text_eq_iff key j,
    )

module _ (key : ℕ → Text) (k : Text) (e : ReplayEntry) (accepted_entry : e.accepted ≡ true) where
  -- The entry `e` stands under the key `k`, as long as its time has not passed.
  abbrev Stands : System → Type 0
  Stands s = s.now <ℤ e.expires_at → lookup k s.guard.entries ≡ some e

  Step-Stands : {s u : System} → Inv key s → Stands s → Step key s u → Stands u
  unfolding claim_step commit_step release_step commit release
  Step-Stands {s} v h (claims t x) early =
      round_accepted s.guard s.now (key t) k e (h early) accepted_entry early
  Step-Stands v h (wakes t c x y) early = h early
  Step-Stands v h (cancels t d x) early = h early
  Step-Stands {s} v h (commits t y x) early =
      let (e₀, (found, a)) = v.held t x in
      let new : ReplayEntry = record { accepted = true; expires_at = y; done = none } in
      ground (arith, h early, lookup-insert (key t) k new s.guard.entries, text_eq_iff (key t) k)
  Step-Stands {s} v h (releases t x) early =
      let (e₀, (found, a)) = v.held t x in
      ground (arith, h early, lookup-delete (key t) k s.guard.entries, text_eq_iff (key t) k)
  Step-Stands {s} v h (ticks later x) early = h (omega arith)

  Reach-Stands : {s u : System} → Inv key s → Stands s → Reach key s u → Stands u
  Reach-Stands v h here = h
  Reach-Stands v h (next r step) = Step-Stands (Reach-Inv key v r) (Reach-Stands v h r) step

-- Once a request has committed, no request with the same key holds a claim, and so no handler runs
-- on that message, in any later state whose time is before the committed expiry.
pub committed_excludes :
    (key : ℕ → Text) (max_entries : ℤ) (now : Time) (s s' : System) (t u : ℕ) (expires_at : Time)
    → Reach key (start max_entries now) s
    → s.phase t ≡ holding
    → Reach key (commit_step key s t expires_at) s'
    → s'.now <ℤ expires_at
    → key u ≡ key t
    → s'.phase u ≢ holding
unfolding commit_step commit
committed_excludes key max_entries now s s' t u expires_at r holds r' early same busy =
    let v = Reach-Inv key (start-Inv key max_entries now) r in
    let w = Step-Inv key v (commits t expires_at holds) in
    let (e, a) = (Reach-Inv key w r').held u busy in
    let new : ReplayEntry = record { accepted = true; expires_at = expires_at; done = none } in
    let stands = Reach-Stands key (key t) new refl w (λ _. committed v) r' early in ground arith
  where
    committed :
        Inv key s
        → lookup (key t) (commit_step key s t expires_at).guard.entries
          ≡ some (record { accepted = true; expires_at = expires_at; done = none })
    committed v =
        let (e₀, (found, a)) = v.held t holds in
        let new : ReplayEntry = record { accepted = true; expires_at = expires_at; done = none } in
        ground
          (arith, lookup-insert (key t) (key t) new s.guard.entries, text_eq_iff (key t) (key t))
