-- ===== src/Replay/Rounds.antt =====
-- What one round of Claim, a Commit and a Release do to the entry of every key.
use hookbound.Base.{
  ◌≡◌, ◌≢◌, ◌⊎◌, inl, inr, refl, true, false, some, Text, pos, ltb_ℤ, ◌<ℤ◌, text_eq_iff, arith,
  Option-cases, Bool-cases,
}
use hookbound.Base.Table.{
  lookup, delete, HasDistinctKeys, lookup-delete, lookup-insert, delete-HasDistinctKeys,
}
use hookbound.Retry.{Time}
use hookbound.Replay.{
  ReplayEntry, ReplayGuard, ClaimRound, claimed, duplicate, full, wait, sweep, reserve, claim_round,
}
use hookbound.Replay.Laws.{sweep_before, sweep_active}

-- An entry in progress: claimed and not yet accepted.
abbrev pub Active : ReplayGuard → Text → ReplayEntry → Type 0
Active g k e = (lookup k g.entries ≡ some e) × (e.accepted ≡ false)

abbrev pub fresh_entry : ReplayGuard → ReplayEntry
fresh_entry g = record { accepted = false; expires_at = pos 0; done = some g.next_channel }

-- The three ways in which `reserve` changes what stands under a key.
reserve_before :
    (g : ReplayGuard) (now : Time) (key j : Text) (e : ReplayEntry)
    → HasDistinctKeys g.entries
    → lookup j (reserve g now key).0.entries ≡ some e
    → (lookup j g.entries ≡ some e)
      ⊎ ((key ≡ j) × ((reserve g now key).1 ≡ claimed) × (e ≡ fresh_entry g))
unfolding reserve sweep
reserve_before g now key j e d h =
    let g' = sweep g now in
    ground (
      arith,
      sweep_before g now d j e,
      lookup-insert key j (fresh_entry g') g'.entries,
      text_eq_iff key j,
    )

reserve-Active :
    (g : ReplayGuard) (now : Time) (key j : Text) (e : ReplayEntry)
    → HasDistinctKeys g.entries
    → Active g j e
    → key ≢ j
    → lookup j (reserve g now key).0.entries ≡ some e
unfolding reserve
reserve-Active g now key j e d h ne =
    let g' = sweep g now in
    ground (
      arith,
      sweep_active g now d j e h.0 h.1,
      lookup-insert key j (fresh_entry g') g'.entries,
      text_eq_iff key j,
    )

reserve_answers :
    (g : ReplayGuard) (now : Time) (key : Text)
    → (((reserve g now key).1 ≡ full)
        ⊎ (((reserve g now key).1 ≡ claimed)
            × (lookup key (reserve g now key).0.entries ≡ some (fresh_entry g))))
      × ((reserve g now key).0.closed ≡ g.closed)
unfolding reserve sweep
reserve_answers g now key =
    let g' = sweep g now in
    ground (arith, lookup-insert key key (fresh_entry g') g'.entries, text_eq_iff key key)

module _ (g : ReplayGuard) (now : Time) (key : Text) (distinct : HasDistinctKeys g.entries) where
  -- What stands under a key after a round stood there before, or is the new claim.
  pub round_before :
      (j : Text) (e : ReplayEntry)
      → lookup j (claim_round g now key).0.entries ≡ some e
      → (lookup j g.entries ≡ some e)
        ⊎ ((key ≡ j) × ((claim_round g now key).1 ≡ claimed) × (e ≡ fresh_entry g))
  unfolding claim_round
  round_before j e h =
      let g' = record g { entries = delete key g.entries } in
      ground (
        arith,
        reserve_before g now key j e distinct,
        reserve_before g' now key j e (delete-HasDistinctKeys key g.entries distinct),
        lookup-delete key j g.entries,
      )

  -- A round disturbs no entry in progress.
  pub round-Active :
      (j : Text) (e : ReplayEntry)
      → Active g j e
      → lookup j (claim_round g now key).0.entries ≡ some e
  unfolding claim_round
  round-Active j e h =
      let g' = record g { entries = delete key g.entries } in
      ground (
        arith,
        reserve-Active g now key j e distinct h,
        reserve-Active g' now key j e (delete-HasDistinctKeys key g.entries distinct),
        lookup-delete key j g.entries,
        text_eq_iff key j,
      )

-- A claim is granted only over no entry or an expired accepted one, and leaves an entry in
-- progress; a request waits only for an entry in progress.
abbrev pub RoundMeans : ReplayGuard → Time → Text → ReplayGuard → ClaimRound → Type 0
RoundMeans g now key g' claimed =
    ((e : ReplayEntry) → ¬ Active g key e) × Active g' key (fresh_entry g)
RoundMeans g now key g' duplicate =
    (e : ReplayEntry) × (lookup key g.entries ≡ some e)
    × (e.accepted ≡ true)
    × (now <ℤ e.expires_at)
RoundMeans g now key g' full = Unit
RoundMeans g now key g' (wait d) = (e : ReplayEntry) × Active g key e × (e.done ≡ d) × (g' ≡ g)

reserve_means :
    (g h : ReplayGuard) (now : Time) (key : Text)
    → ((e : ReplayEntry) → ¬ Active g key e)
    → h.next_channel ≡ g.next_channel
    → RoundMeans g now key (reserve h now key).0 (reserve h now key).1
reserve_means g h now key none_active same = elim ((reserve_answers h now key).0) [
  | inl e ↦ rw e tt
  | inr (e, there) ↦ rw e (none_active, (rw there (rw same), refl))
]

pub round_means :
    (g : ReplayGuard) (now : Time) (key : Text)
    → RoundMeans g now key (claim_round g now key).0 (claim_round g now key).1
unfolding claim_round
round_means g now key = elim (Option-cases (lookup key g.entries)) [
  | inl absent ↦ rw (absent, claim_round) (reserve_means g g now key (λ e h. cc) refl)
  | inr (e, found) ↦ elim (Bool-cases e.accepted) [
    | inr fresh ↦ rw (found, claim_round) (rw fresh (e, (found, fresh), refl, refl))
    | inl old ↦ elim (Bool-cases (ltb_ℤ now e.expires_at)) [
      | inl early ↦ rw (found, claim_round) (rw (old, early) (e, found, old, ground arith))
      | inr late ↦
          rw (found, claim_round)
            (rw (old, late)
              (reserve_means g (record g { entries = delete key g.entries }) now key
                (λ x h. ground arith) refl))
    ]
  ]
]

pub round_closed :
    (g : ReplayGuard) (now : Time) (key : Text) → (claim_round g now key).0.closed ≡ g.closed
unfolding claim_round
round_closed g now key =
    let g' = record g { entries = delete key g.entries } in
    ground (arith, (reserve_answers g now key).1, (reserve_answers g' now key).1)
