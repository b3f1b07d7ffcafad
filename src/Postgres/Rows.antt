-- ===== src/Postgres/Rows.antt =====
-- The laws of the queries of Postgres/Tables.antt.
use hookbound.Base.{
  ◌≡◌, refl, Bool, true, false, some, List, [], ◌∷◌, All, arith, ◌⊎◌, inl, inr, Bool-cases,
  Option-cases, none, subst,
}
use mathlib.Core.List.{Mem, mem-cons_self, mem-cons_of_mem}
use hookbound.Postgres.Tables.{update, count, select, first_by, delete_where}
use hookbound.Errors.{Result, ok, err, is_ok}
use hookbound.Postgres.Tables.{Db, run_tx}

some_inj {ℓ} : {R : Type ℓ} {a b : R} → some a ≡ some b → a ≡ b
some_inj h = cc

module _ {ℓ} {R : Type ℓ} where
  -- A row that a query returns is a row of the table that meets the condition.
  pub select-Found : (p : R → Bool) (rs : List R) (r : R) → select p rs ≡ some r → p r ≡ true
  unfolding select
  select-Found p [] r h = cc
  select-Found p (x ∷ rs) r h = ground (arith, h, select-Found p rs r)

  pub first_by-Found :
      (before : R → R → Bool) (p : R → Bool) (rs : List R) (r : R)
      → first_by before p rs ≡ some r
      → p r ≡ true
  unfolding first_by
  first_by-Found before p [] r h = cc
  first_by-Found before p (x ∷ rs) r h = elim (Option-cases (first_by before p rs)) [
    | inl e ↦ ground (arith, h, e)
    | inr (s, e) ↦ ground (arith, h, e, first_by-Found before p rs s e)
  ]

  pub first_by-All {κ} :
      (P : R → Type κ) (before : R → R → Bool) (p : R → Bool) (rs : List R) (r : R)
      → first_by before p rs ≡ some r
      → All P rs
      → P r
  unfolding first_by
  first_by-All P before p [] r h a = cc
  first_by-All P before p (x ∷ rs) r h a = elim (Option-cases (first_by before p rs)) [
    | inl e ↦ ground (arith, h, e, a.0)
    | inr (s, e) ↦ ground (arith, h, e, a.0, first_by-All P before p rs s e a.1)
  ]

  -- What holds of every row holds of the rows that an update leaves, if the update keeps it.
  pub All-update {κ} :
      (P : R → Type κ) (p : R → Bool) (f : R → R)
      → ((r : R) → p r ≡ true → P r → P (f r))
      → (rs : List R) → All P rs
      → All P (update p f rs)
  unfolding update
  All-update P p f keeps [] h = tt
  All-update P p f keeps (r ∷ rs) h = elim (Bool-cases (p r)) [
    | inl e ↦ rw e (keeps r e h.0, All-update P p f keeps rs h.1)
    | inr e ↦ rw e (h.0, All-update P p f keeps rs h.1)
  ]

  pub All-rewrite {κ κ'} :
      (P : R → Type κ) (Q : R → Type κ') (p : R → Bool) (f : R → R)
      → ((r : R) → p r ≡ true → P r → Q (f r))
      → ((r : R) → p r ≡ false → P r → Q r)
      → (rs : List R) → All P rs
      → All Q (update p f rs)
  unfolding update
  All-rewrite P Q p f met unmet [] h = tt
  All-rewrite P Q p f met unmet (r ∷ rs) h = elim (Bool-cases (p r)) [
    | inl e ↦ rw e (met r e h.0, All-rewrite P Q p f met unmet rs h.1)
    | inr e ↦ rw e (unmet r e h.0, All-rewrite P Q p f met unmet rs h.1)
  ]

  pub All-imp {κ κ'} :
      (P : R → Type κ) (Q : R → Type κ')
      → ((r : R) → P r → Q r)
      → (rs : List R) → All P rs
      → All Q rs
  All-imp P Q h [] a = tt
  All-imp P Q h (r ∷ rs) a = (h r a.0, All-imp P Q h rs a.1)

  pub All-true {κ} : (P : R → Type κ) → ((r : R) → P r) → (rs : List R) → All P rs
  All-true P h [] = tt
  All-true P h (r ∷ rs) = (h r, All-true P h rs)

  pub All-delete {κ} :
      (P : R → Type κ) (p : R → Bool) (rs : List R) → All P rs → All P (delete_where p rs)
  unfolding delete_where
  All-delete P p [] h = tt
  All-delete P p (r ∷ rs) h = elim (Bool-cases (p r)) [
    | inl e ↦ rw e (All-delete P p rs h.1)
    | inr e ↦ rw e (h.0, All-delete P p rs h.1)
  ]

  -- No row meets the condition.
  pub count-none : (p : R → Bool) (rs : List R) → All (λ r. p r ≡ false) rs → count p rs ≡ 0
  unfolding count
  count-none p [] h = refl
  count-none p (r ∷ rs) h = ground (arith, h.0, count-none p rs h.1)

  -- An update of no row changes nothing.
  pub update-none : (p : R → Bool) (f : R → R) (rs : List R) → count p rs ≡ 0 → update p f rs ≡ rs
  unfolding count update
  update-none p f [] h = refl
  update-none p f (r ∷ rs) h = ground (arith, h, update-none p f rs)

-- What a transaction's code makes hold of the database, if it held before.
pub run_tx-keeps {ℓ κ} :
    {A : Type ℓ} (P : Db → Type κ) (db : Db) (m : Result (A × Db))
    → P db
    → ((a : A) (db' : Db) → run_tx db m ≡ (db', ok a) → P db')
    → P (run_tx db m).0
run_tx-keeps P db (ok (a, db')) h keeps = keeps a db' refl
run_tx-keeps P db (err e) h keeps = h

-- A transaction changes nothing, or its code succeeds.
pub run_tx-cases {ℓ} :
    {A : Type ℓ} (db : Db) (m : Result (A × Db))
    → (((run_tx db m).0 ≡ db) × (is_ok (run_tx db m).1 ≡ false))
      ⊎ ((a : A) × (db' : Db) × (run_tx db m ≡ (db', ok a)))
run_tx-cases db (ok (a, db')) = inr (a, db', refl)
run_tx-cases db (err e) = inl (refl, refl)

pub run_tx-ok {ℓ} :
    {A : Type ℓ} (db : Db) {db' : Db} {a : A} (m : Result (A × Db))
    → run_tx db m ≡ (db', ok a)
    → m ≡ ok (a, db')
run_tx-ok db (ok (b, db'')) h = cc
run_tx-ok db (err e) h = cc

module _ {ℓ} {R : Type ℓ} where
  pub All-Mem : (rs : List R) → All (λ r. Mem r rs) rs
  All-Mem [] = tt
  All-Mem (r ∷ rs) =
      (mem-cons_self, All-imp _ _ (λ s there. mem-cons_of_mem r there) rs (All-Mem rs))

  -- The row that a query returns stands in the table.
  pub first_by-Mem :
      (before : R → R → Bool) (p : R → Bool) (rs : List R) (r : R)
      → first_by before p rs ≡ some r
      → Mem r rs
  first_by-Mem before p rs r h = first_by-All (λ s. Mem s rs) before p rs r h (All-Mem rs)

  pub select-Mem : (p : R → Bool) (rs : List R) (r : R) → select p rs ≡ some r → Mem r rs
  unfolding select
  select-Mem p [] r h = cc
  select-Mem p (x ∷ rs) r h = elim (Bool-cases (p x)) [
    | inl e ↦ subst (λ s. Mem s (x ∷ rs)) (some_inj (rw e at h)) mem-cons_self
    | inr e ↦ mem-cons_of_mem x (select-Mem p rs r (rw e at h))
  ]

  -- A query that returns nothing meets no row.
  pub select-none : (p : R → Bool) (rs : List R) → select p rs ≡ none → All (λ r. p r ≡ false) rs
  unfolding select
  select-none p [] h = tt
  select-none p (x ∷ rs) h = elim (Bool-cases (p x)) [
    | inl e ↦ absurd (ground (arith, h, e))
    | inr e ↦ (e, select-none p rs (rw e at h))
  ]
