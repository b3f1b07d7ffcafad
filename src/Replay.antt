-- ===== src/Replay.antt =====
-- replay.go: the in-process replay guard. The guard's clock is an argument, `now`. A channel is a
-- number; `closed` lists the channels that have been closed.
pub mod Laws
pub mod Rounds
pub mod System
use hookbound.Base.{
  ℕ, suc, ◌+◌, ◌≡◌, refl, Bool, true, false, not, ◌&&◌, ◌||◌, Option, none, some, List, [], ◌∷◌,
  ◌++◌, Text, ltb, leb, if◌then◌else◌, length, ℤ, pos, pos_part, ltb_ℤ, leb_ℤ,
}
use hookbound.Base.Table.{lookup, insert, delete, keep}
use hookbound.Errors.{Result, ok, err, coded, conflict}
use hookbound.Retry.{Time}

-- memoryReplayEntry; `done` is nil in an accepted entry.
pub record ReplayEntry : Type 0 where
  pub accepted : Bool
  pub expires_at : Time
  pub done : Option ℕ

-- MemoryReplayGuard, with the heap of its channels.
pub record ReplayGuard : Type 0 where
  pub entries : List (Text × ReplayEntry)
  pub max : ℕ
  pub next_channel : ℕ
  pub closed : List ℕ

-- NewMemoryReplayGuard
unfoldable pub new_memory_replay_guard : (max_entries : ℤ) → ReplayGuard
new_memory_replay_guard max_entries = record {
  entries = [];
  max = if leb_ℤ max_entries (pos 0) then 10_000 else pos_part max_entries;
  next_channel = 0;
  closed = [];
}

-- `source + "\x00" + id`
unfoldable pub replay_key : (source id : Text) → Text
replay_key source id = source ++ 0 ∷ id

-- How one round of Claim's loop ends: with an answer, or waiting for a channel to close.
pub data ClaimRound : Type 0 where
  claimed duplicate full : ClaimRound
  wait : (done : Option ℕ) → ClaimRound

-- An accepted entry whose time has passed.
unfoldable pub has_expired : Time → ReplayEntry → Bool
has_expired now e = e.accepted && not (ltb_ℤ now e.expires_at)

-- `if len(g.entries) >= g.max { delete the expired ones }`
unfoldable pub sweep : ReplayGuard → Time → ReplayGuard
sweep g now =
    if leb g.max (length g.entries)
    then record g { entries = keep (λ e. not (has_expired now e)) g.entries }
    else g

unfoldable pub reserve : ReplayGuard → Time → Text → ReplayGuard × ClaimRound
reserve g now key =
    let g' = sweep g now in
    if leb g'.max (length g'.entries) then (g', full) else (
      record g' {
        entries =
            insert key
              (record { accepted = false; expires_at = pos 0; done = some g'.next_channel })
              g'.entries;
        next_channel = suc g'.next_channel;
      },
      claimed,
    )

-- One round of MemoryReplayGuard.Claim, under the lock.
unfoldable pub claim_round : ReplayGuard → Time → Text → ReplayGuard × ClaimRound
claim_round g now key = elim (lookup key g.entries) [
  | none ↦ reserve g now key
  | some e ↦
      if e.accepted
      then if ltb_ℤ now e.expires_at
        then (g, duplicate)
        else reserve (record g { entries = delete key g.entries }) now key
      else (g, wait e.done)
]

abbrev pub close : Option ℕ → List ℕ → List ℕ
close none closed = closed
close (some c) closed = c ∷ closed

-- MemoryReplayGuard.Commit
unfoldable pub commit : ReplayGuard → Text → (expires_at : Time) → ReplayGuard × Result (Unit {0})
commit g key expires_at = elim (lookup key g.entries) [
  | none ↦ (g, err (coded conflict))
  | some e ↦ if e.accepted then (g, err (coded conflict)) else (
    record g {
      entries =
          insert key (record { accepted = true; expires_at = expires_at; done = none }) g.entries;
      closed = close e.done g.closed;
    },
    ok tt,
  )
]

-- MemoryReplayGuard.Release
unfoldable pub release : ReplayGuard → Text → ReplayGuard × Result (Unit {0})
release g key = elim (lookup key g.entries) [
  | none ↦ (g, ok tt)
  | some e ↦
      if e.accepted
      then (g, err (coded conflict))
      else (record g { entries = delete key g.entries; closed = close e.done g.closed }, ok tt)
]
