-- ===== src/Replay/System/Invariant.antt =====
-- The invariant of the interleavings, and that every step keeps it.
use hookbound.Base.{
  ◌==◌, any, ap, ◌∙◌, ℕ, ◌≡◌, ◌≢◌, ◌⊎◌, inl, inr, true, Option, some, Text, arith, Bool-cases,
  subst,
}
use hookbound.Base.Table.{lookup}
use hookbound.Replay.{ReplayEntry, ReplayGuard}
use hookbound.Replay.Laws.{IsValid}
use hookbound.Replay.Rounds.{Active}
use hookbound.Replay.System.{Phase, holding, acknowledged, accepted, waiting, System, moved}

abbrev pub IsClosed : ReplayGuard → ℕ → Type 0
IsClosed g c = any (λ x. x == c) g.closed ≡ true

module _ (f : ℕ → Phase) (t : ℕ) (p : Phase) (u : ℕ) (q : Phase) where
  pub moved_keeps : f t ≢ q → f u ≡ q → moved f t p u ≡ q
  moved_keeps n h = elim (Bool-cases (t == u)) [
    | inl same ↦ absurd (n (ground arith))
    | inr other ↦ rw other h
  ]

  pub moved_back : p ≢ q → moved f t p u ≡ q → f u ≡ q
  moved_back n h = elim (Bool-cases (t == u)) [
    | inl same ↦ absurd (n (ground arith))
    | inr other ↦ ground arith
  ]

  pub moved_cases : moved f t p u ≡ q → ((t ≡ u) × (p ≡ q)) ⊎ ((t ≢ u) × (f u ≡ q))
  moved_cases h = ground arith

pub moved_self : (f : ℕ → Phase) (t : ℕ) (p : Phase) → moved f t p t ≡ p
moved_self f t p = ground arith

pub moved_other : (f : ℕ → Phase) (t : ℕ) (p : Phase) (u : ℕ) → t ≢ u → moved f t p u ≡ f u
moved_other f t p u n = ground arith

module _ (key : ℕ → Text) where
  -- What request `t` relies on while it waits for the channel `d`.
  abbrev pub Waits : ReplayGuard → ℕ → Option ℕ → Type 0
  Waits g t d =
      (c : ℕ) × (d ≡ some c)
      × (IsClosed g c ⊎ ((e : ReplayEntry) × Active g (key t) e × (e.done ≡ some c)))

  pub record Inv (s : System) : Type 0 where
    pub valid : IsValid s.guard
    pub opened : (k : Text) (e : ReplayEntry) → Active s.guard k e → (c : ℕ) × (e.done ≡ some c)
    pub held : (t : ℕ) → s.phase t ≡ holding → (e : ReplayEntry) × Active s.guard (key t) e
    pub single : (t u : ℕ) → s.phase t ≡ holding → s.phase u ≡ holding → key t ≡ key u → t ≡ u
    pub holder :
        (k : Text) (e : ReplayEntry)
        → Active s.guard k e
        → (t : ℕ) × (s.phase t ≡ holding) × (key t ≡ k)
    pub acceptor :
        (k : Text) (e : ReplayEntry)
        → lookup k s.guard.entries ≡ some e
        → e.accepted ≡ true
        → (t : ℕ) × (s.phase t ≡ accepted) × (key t ≡ k)
    pub waits : (t : ℕ) (d : Option ℕ) → s.phase t ≡ waiting d → Waits s.guard t d
    pub acked :
        (t : ℕ) → s.phase t ≡ acknowledged → (u : ℕ) × (s.phase u ≡ accepted) × (key u ≡ key t)

  -- Request `t` moves between phases in which it holds and has accepted nothing.
  module _ (s : System) (t : ℕ) (p : Phase) (g : ReplayGuard) (v : Inv s)
      (not_holding : s.phase t ≢ holding) (not_accepted : s.phase t ≢ accepted)
      (to_no_claim : p ≢ holding) (valid : IsValid g)
      (before : (j : Text) (e : ReplayEntry)
        → lookup j g.entries ≡ some e
        → lookup j s.guard.entries ≡ some e)
      (kept : (j : Text) (e : ReplayEntry) → Active s.guard j e → lookup j g.entries ≡ some e)
      (closed : g.closed ≡ s.guard.closed) (waits : (d : Option ℕ) → p ≡ waiting d → Waits g t d)
      (acked : p ≡ acknowledged → (u : ℕ) × (s.phase u ≡ accepted) × (key u ≡ key t)) where
    Waits-kept : (u : ℕ) (d : Option ℕ) → Waits s.guard u d → Waits g u d
    Waits-kept u d (c, e, inl done) = (c, e, inl (rw closed done))
    Waits-kept u d (c, e, inr (x, a, o)) = (c, e, inr (x, (kept (key u) x a, a.1), o))

    pub shift-Inv : Inv (record s { guard = g; phase = moved s.phase t p })
    shift-Inv = record {
      valid = valid;
      opened = λ k e a. v.opened k e (before k e a.0, a.1);
      held = λ u h.
          let (e, a) = v.held u (moved_back s.phase t p u holding to_no_claim h) in
          (e, (kept (key u) e a, a.1));
      single = λ u w hu hw.
          v.single u w (moved_back s.phase t p u holding to_no_claim hu)
            (moved_back s.phase t p w holding to_no_claim hw);
      holder = λ k e a.
          let (u, h, same) = v.holder k e (before k e a.0, a.1) in
          (u, moved_keeps s.phase t p u holding not_holding h, same);
      acceptor = λ k e found old.
          let (u, h, same) = v.acceptor k e (before k e found) old in
          (u, moved_keeps s.phase t p u accepted not_accepted h, same);
      waits = λ u d h. elim (moved_cases s.phase t p u (waiting d) h) [
        | inl (same, e) ↦ subst (λ x. Waits g x d) same (waits d e)
        | inr (other, e) ↦ Waits-kept u d (v.waits u d e)
      ];
      acked = λ u h. elim (moved_cases s.phase t p u acknowledged h) [
        | inl (same, e) ↦
            let (w, hw, k) = acked e in
            (w, moved_keeps s.phase t p w accepted not_accepted hw, k ∙ ap key same)
        | inr (other, e) ↦
            let (w, hw, k) = v.acked u e in
            (w, moved_keeps s.phase t p w accepted not_accepted hw, k)
      ];
    }
