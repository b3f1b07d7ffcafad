-- ===== src/Replay/Laws.antt =====
-- One guard, used by one request at a time: its well-formedness, its capacity and its answers.
use hookbound.Base.{
  ◌≡◌, ◌≤◌, ◌<◌, inl, inr, true, false, not, none, some, List, [], ◌∷◌, ◌++◌, Text, length, pos,
  All, arith, Option-cases, subst,
}
use hookbound.Base.Table.{
  lookup, insert, delete, HasDistinctKeys, lookup-keep_pass, lookup_of_keep, delete-HasDistinctKeys,
  insert-HasDistinctKeys, keep-HasDistinctKeys, length-delete-le, length-keep-le,
}
use hookbound.Message.{validate_message_id}
use hookbound.Message.Laws.{IdByte, validate_message_id_iff}
use hookbound.Errors.{ok}
use hookbound.Retry.{Time}
use hookbound.Replay.{
  ReplayEntry, ReplayGuard, replay_key, has_expired, sweep, reserve, claim_round, commit, release,
}

zero_splits : (s t : Text) → ¬ All (λ c. 0 < c) (s ++ 0 ∷ t)
zero_splits [] t h = omega arith
zero_splits (c ∷ s) t h = zero_splits s t h.1

key_splits :
    (source source' id id' : Text)
    → All (λ c. 0 < c) id
    → All (λ c. 0 < c) id'
    → source ++ 0 ∷ id ≡ source' ++ 0 ∷ id'
    → (source ≡ source') × (id ≡ id')
key_splits [] [] id id' h h' e = ground arith
key_splits (c ∷ s) (c' ∷ s') id id' h h' e = ground (arith, key_splits s s' id id' h h')
key_splits [] (c ∷ s') id id' h h' e =
    let e' : id ≡ s' ++ 0 ∷ id' = ground arith in
    absurd (zero_splits s' id' (subst (All (λ c. 0 < c)) e' h))
key_splits (c ∷ s) [] id id' h h' e =
    let e' : id' ≡ s ++ 0 ∷ id = ground arith in
    absurd (zero_splits s id (subst (All (λ c. 0 < c)) e' h'))

no_zero : (id : Text) → All IdByte id → All (λ c. 0 < c) id
no_zero [] h = tt
no_zero (c ∷ cs) h = (omega arith, no_zero cs h.1)

-- Two messages whose ids pass validation share a replay key only if their sources and their ids
-- are the same.
pub replay_key_injective :
    (source source' id id' : Text)
    → validate_message_id id ≡ ok tt
    → validate_message_id id' ≡ ok tt
    → replay_key source id ≡ replay_key source' id'
    → (source ≡ source') × (id ≡ id')
unfolding replay_key
replay_key_injective source source' id id' v v' e =
    let bytes = (((validate_message_id_iff id).0).0 v).3 in
    let bytes' = (((validate_message_id_iff id').0).0 v').3 in
    key_splits source source' id id' (no_zero id bytes) (no_zero id' bytes') e

-- A guard's entries have distinct keys and are at most `max`.
pub record IsValid (g : ReplayGuard) : Type 0 where
  pub distinct : HasDistinctKeys g.entries
  pub bounded : length g.entries ≤ g.max

sweep-IsValid : (g : ReplayGuard) (now : Time) → IsValid g → IsValid (sweep g now)
unfolding sweep
sweep-IsValid g now v =
    let p = λ (e : ReplayEntry). not (has_expired now e) in
    ground (arith, keep-HasDistinctKeys p g.entries v.distinct, length-keep-le p g.entries)

reserve-IsValid :
    (g : ReplayGuard) (now : Time) (key : Text) → IsValid g → IsValid (reserve g now key).0
unfolding reserve insert
reserve-IsValid g now key v =
    let g' = sweep g now in
    ground (
      arith,
      sweep-IsValid g now v,
      insert-HasDistinctKeys key
          (record { accepted = false; expires_at = pos 0; done = some g'.next_channel }) g'.entries,
      length-delete-le key g'.entries,
    )

pub claim_round-IsValid :
    (g : ReplayGuard) (now : Time) (key : Text) → IsValid g → IsValid (claim_round g now key).0
unfolding claim_round
claim_round-IsValid g now key v =
    let h = record g { entries = delete key g.entries } in
    ground (
      arith,
      reserve-IsValid g now key v,
      reserve-IsValid h now key,
      delete-HasDistinctKeys key g.entries v.distinct,
      length-delete-le key g.entries,
    )

lookup-delete-length :
    (k : Text) (m : List (Text × ReplayEntry)) {e : ReplayEntry}
    → lookup k m ≡ some e
    → length (delete k m) < length m
unfolding lookup delete
lookup-delete-length k [] h = cc
lookup-delete-length k ((j, v) ∷ m) {e} h =
    ground (arith, lookup-delete-length k m {e = e}, length-delete-le k m)

pub commit-IsValid :
    (g : ReplayGuard) (key : Text) (expires : Time) → IsValid g → IsValid (commit g key expires).0
unfolding commit insert
commit-IsValid g key expires v = elim (Option-cases (lookup key g.entries)) [
  | inl e ↦ rw (e, commit) v
  | inr (old, e) ↦ ground (
    arith,
    lookup-delete-length key g.entries e,
    insert-HasDistinctKeys key (record { accepted = true; expires_at = expires; done = none })
        g.entries v.distinct,
  )
]

pub release-IsValid : (g : ReplayGuard) (key : Text) → IsValid g → IsValid (release g key).0
unfolding release
release-IsValid g key v =
    ground (arith, delete-HasDistinctKeys key g.entries v.distinct, length-delete-le key g.entries)

-- What `sweep` and `reserve` do to the entries that are claimed and not yet accepted.
module _ (g : ReplayGuard) (now : Time) (distinct : HasDistinctKeys g.entries) where
  pub sweep_before :
      (j : Text) (e : ReplayEntry)
      → lookup j (sweep g now).entries ≡ some e
      → lookup j g.entries ≡ some e
  unfolding sweep
  sweep_before j e h =
      let p = λ (x : ReplayEntry). not (has_expired now x) in
      ground (arith, lookup_of_keep p j e g.entries distinct)

  pub sweep_active :
      (j : Text) (e : ReplayEntry)
      → lookup j g.entries ≡ some e
      → e.accepted ≡ false
      → lookup j (sweep g now).entries ≡ some e
  unfolding sweep has_expired
  sweep_active j e h a =
      let p = λ (x : ReplayEntry). not (has_expired now x) in
      ground (arith, lookup-keep_pass p j e g.entries h)
