-- ===== src/Replay/System/Moves.antt =====
-- The two moves of a request that takes or gives up a claim.
use hookbound.Base.{
  sym, ap, ◌∙◌, ℕ, ◌≡◌, ◌≢◌, ◌⊎◌, inl, inr, true, Option, some, Text, text_eq, text_eq_iff, arith,
  Bool-cases, subst,
}
use hookbound.Base.Table.{lookup}
use hookbound.Replay.{ReplayEntry, ReplayGuard}
use hookbound.Replay.Laws.{IsValid}
use hookbound.Replay.Rounds.{Active, fresh_entry}
use hookbound.Replay.System.{Phase, holding, acknowledged, accepted, failed, waiting, System, moved}
use hookbound.Replay.System.Invariant.{
  IsClosed, moved_self, moved_other, moved_keeps, moved_back, moved_cases, Waits, Inv,
}

module _ (key : ℕ → Text) (s : System) (t : ℕ) (g : ReplayGuard) (v : Inv key s)
    (valid : IsValid g) where
  -- A granted claim.
  module _ (not_holding : s.phase t ≢ holding) (not_accepted : s.phase t ≢ accepted)
      (free : (e : ReplayEntry) → ¬ Active s.guard (key t) e)
      (mine : Active g (key t) (fresh_entry s.guard))
      (before : (j : Text) (e : ReplayEntry)
        → lookup j g.entries ≡ some e
        → (lookup j s.guard.entries ≡ some e) ⊎ ((key t ≡ j) × (e ≡ fresh_entry s.guard)))
      (kept : (j : Text) (e : ReplayEntry) → Active s.guard j e → lookup j g.entries ≡ some e)
      (closed : g.closed ≡ s.guard.closed) where
    grant_new : (u : ℕ) → t ≢ u → s.phase u ≡ holding → key t ≢ key u
    grant_new u n h same =
        let (e, a) = v.held u h in free e (subst (λ k. Active s.guard k e) (sym same) a)

    grant-Waits : (u : ℕ) (d : Option ℕ) → Waits key s.guard u d → Waits key g u d
    grant-Waits u d (c, e, inl done) = (c, e, inl (rw closed done))
    grant-Waits u d (c, e, inr (x, a, o)) = (c, e, inr (x, (kept (key u) x a, a.1), o))

    pub grant-Inv : Inv key (record s { guard = g; phase = moved s.phase t holding })
    grant-Inv = record {
      valid = valid;
      opened = λ k e a. elim (before k e a.0) [
        | inl old ↦ v.opened k e (old, a.1)
        | inr (_, new) ↦ (s.guard.next_channel, ground arith)
      ];
      held = λ u h. elim (moved_cases s.phase t holding u holding h) [
        | inl (same, _) ↦
            (fresh_entry s.guard, subst (λ x. Active g (key x) (fresh_entry s.guard)) same mine)
        | inr (_, old) ↦ let (e, a) = v.held u old in (e, (kept (key u) e a, a.1))
      ];
      single = λ u w hu hw same. elim (moved_cases s.phase t holding u holding hu) [
        | inl (tu, _) ↦ elim (moved_cases s.phase t holding w holding hw) [
          | inl (tw, _) ↦ sym tu ∙ tw
          | inr (n, old) ↦ absurd (grant_new w n old (ap key tu ∙ same))
        ]
        | inr (n, old) ↦ elim (moved_cases s.phase t holding w holding hw) [
          | inl (tw, _) ↦ absurd (grant_new u n old (ap key tw ∙ sym same))
          | inr (_, older) ↦ v.single u w old older same
        ]
      ];
      holder = λ k e a. elim (before k e a.0) [
        | inl old ↦
            let (u, h, same) = v.holder k e (old, a.1) in
            (u, moved_keeps s.phase t holding u holding not_holding h, same)
        | inr (same, _) ↦ (t, moved_self s.phase t holding, same)
      ];
      acceptor = λ k e found old. elim (before k e found) [
        | inl earlier ↦
            let (u, h, same) = v.acceptor k e earlier old in
            (u, moved_keeps s.phase t holding u accepted not_accepted h, same)
        | inr (_, new) ↦ absurd (ground arith)
      ];
      waits = λ u d h.
          grant-Waits u d (v.waits u d (moved_back s.phase t holding u (waiting d) (λ e. cc) h));
      acked = λ u h.
          let (w, hw, k) = v.acked u (moved_back s.phase t holding u acknowledged (λ e. cc) h) in
          (w, moved_keeps s.phase t holding w accepted not_accepted hw, k);
    }

  -- A claim given up: by Commit, with `p` the phase `accepted`, or by Release, with `failed`.
  module _ (p : Phase) (e₀ : ReplayEntry) (mine : Active s.guard (key t) e₀)
      (holds : s.phase t ≡ holding) (settled : (p ≡ accepted) ⊎ (p ≡ failed))
      (before : (j : Text) (e : ReplayEntry)
        → lookup j g.entries ≡ some e
        → ((key t ≢ j) × (lookup j s.guard.entries ≡ some e))
          ⊎ ((key t ≡ j) × (e.accepted ≡ true) × (p ≡ accepted)))
      (kept : (j : Text) (e : ReplayEntry)
        → lookup j s.guard.entries ≡ some e
        → key t ≢ j
        → lookup j g.entries ≡ some e)
      (closed : (c : ℕ) → IsClosed s.guard c → IsClosed g c)
      (closes : (c : ℕ) → e₀.done ≡ some c → IsClosed g c) where
    settle_ne : (q : Phase) → q ≢ accepted → q ≢ failed → p ≢ q
    settle_ne q a f e = elim settled [ inl x ↦ a (sym e ∙ x) | inr x ↦ f (sym e ∙ x) ]

    -- Another holder has another key.
    settle_apart :
        (u : ℕ) → moved s.phase t p u ≡ holding → (t ≢ u) × (s.phase u ≡ holding) × (key t ≢ key u)
    settle_apart u h = elim (moved_cases s.phase t p u holding h) [
      | inl (_, e) ↦ absurd (settle_ne holding (λ x. cc) (λ x. cc) e)
      | inr (n, old) ↦ (n, old, λ same. n (v.single t u holds old same))
    ]

    settle-Waits : (u : ℕ) (d : Option ℕ) → Waits key s.guard u d → Waits key g u d
    settle-Waits u d (c, e, inl done) = (c, e, inl (closed c done))
    settle-Waits u d (c, e, inr (x, a, o)) = elim (Bool-cases (text_eq (key t) (key u))) [
      | inl same ↦
          let k = (text_eq_iff (key t) (key u)).0 same in (c, e, inl (closes c (ground arith)))
      | inr other ↦
          let k : key t ≢ key u = ground (arith, text_eq_iff (key t) (key u)) in
          (c, e, inr (x, (kept (key u) x a.0 k, a.1), o))
    ]

    pub settle-Inv : Inv key (record s { guard = g; phase = moved s.phase t p })
    settle-Inv = record {
      valid = valid;
      opened = λ k e a. elim (before k e a.0) [
        | inl (_, old) ↦ v.opened k e (old, a.1)
        | inr (_, new, _) ↦ absurd (ground arith)
      ];
      held = λ u h.
          let (_, old, apart) = settle_apart u h in
          let (e, a) = v.held u old in (e, (kept (key u) e a.0 apart, a.1));
      single = λ u w hu hw. v.single u w ((settle_apart u hu).1) ((settle_apart w hw).1);
      holder = λ k e a. elim (before k e a.0) [
        | inl (n, old) ↦
            let (u, h, same) = v.holder k e (old, a.1) in
            (u, moved_other s.phase t p u (λ x. n (ap key x ∙ same)) ∙ h, same)
        | inr (_, new, _) ↦ absurd (ground arith)
      ];
      acceptor = λ k e found old. elim (before k e found) [
        | inl (_, earlier) ↦
            let (u, h, same) = v.acceptor k e earlier old in
            (u, moved_keeps s.phase t p u accepted (λ x. cc) h, same)
        | inr (same, _, new) ↦ (t, moved_self s.phase t p ∙ new, same)
      ];
      waits = λ u d h. settle-Waits u d (
          v.waits u d
            (moved_back s.phase t p u (waiting d) (settle_ne (waiting d) (λ x. cc) (λ x. cc)) h));
      acked = λ u h.
          let (w, hw, k) = v.acked u (
            moved_back s.phase t p u acknowledged (settle_ne acknowledged (λ x. cc) (λ x. cc)) h) in
          (w, moved_keeps s.phase t p w accepted (λ x. cc) hw, k);
    }
