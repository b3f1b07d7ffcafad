-- ===== src/Base/Table.antt =====
-- Go maps keyed by strings, as association lists with distinct keys.
use hookbound.Base.Tests.{if◌then◌else◌}
use hookbound.Base.Lists.{length}
use hookbound.Base.Strings.{Text, text_eq, text_eq_iff}
use Prim.Native.Nat.{◌≤◌}
use mathlib.Core.Path.{◌≡◌, refl}
use mathlib.Core.Bool.{Bool, true}
use mathlib.Core.List.{List, [], ◌∷◌}
use mathlib.Core.Option.{Option, none, some}
use native.Mathlib.Omega.{arith}

module _ {ℓ} {V : Type ℓ} where
  unfoldable pub lookup : Text → List (Text × V) → Option V
  lookup k [] = none
  lookup k ((j, v) ∷ m) = if text_eq j k then some v else lookup k m

  unfoldable pub delete : Text → List (Text × V) → List (Text × V)
  delete k [] = []
  delete k ((j, v) ∷ m) = let rest = delete k m in if text_eq j k then rest else (j, v) ∷ rest

  -- m[k] = v
  unfoldable pub insert : Text → V → List (Text × V) → List (Text × V)
  insert k v m = (k, v) ∷ delete k m

  -- The entries that pass a test: `for k, v := range m { if !test(v) { delete(m, k) } }`.
  unfoldable pub keep : (V → Bool) → List (Text × V) → List (Text × V)
  keep p [] = []
  keep p ((k, v) ∷ m) = let rest = keep p m in if p v then (k, v) ∷ rest else rest

  -- No key stands twice.
  abbrev pub HasDistinctKeys : List (Text × V) → Type ℓ
  HasDistinctKeys [] = Unit
  HasDistinctKeys ((k, v) ∷ m) = (lookup k m ≡ none) × HasDistinctKeys m

  pub lookup-delete :
      (k j : Text) (m : List (Text × V))
      → lookup j (delete k m) ≡ (if text_eq k j then none else lookup j m)
  unfolding lookup delete
  lookup-delete k j [] = ground arith
  lookup-delete k j ((i, w) ∷ m) =
      ground (arith, text_eq_iff k j, text_eq_iff i k, text_eq_iff i j, lookup-delete k j m)

  pub lookup-insert :
      (k j : Text) (v : V) (m : List (Text × V))
      → lookup j (insert k v m) ≡ (if text_eq k j then some v else lookup j m)
  unfolding lookup insert
  lookup-insert k j v m = ground (arith, lookup-delete k j m)

  pub keep-absent :
      (p : V → Bool) (k : Text) (m : List (Text × V))
      → lookup k m ≡ none
      → lookup k (keep p m) ≡ none
  unfolding lookup keep
  keep-absent p k [] h = refl
  keep-absent p k ((j, v) ∷ m) h = ground (arith, keep-absent p k m)

  -- What passes the test stays.
  pub lookup-keep_pass :
      (p : V → Bool) (k : Text) (v : V) (m : List (Text × V))
      → lookup k m ≡ some v
      → p v ≡ true
      → lookup k (keep p m) ≡ some v
  unfolding lookup keep
  lookup-keep_pass p k w [] h q = cc
  lookup-keep_pass p k w ((j, v) ∷ m) h q = ground (arith, lookup-keep_pass p k w m)

  -- What is there afterwards was there before.
  pub lookup_of_keep :
      (p : V → Bool) (k : Text) (v : V) (m : List (Text × V))
      → HasDistinctKeys m
      → lookup k (keep p m) ≡ some v
      → (lookup k m ≡ some v) × (p v ≡ true)
  unfolding lookup keep
  lookup_of_keep p k w [] d h = cc
  lookup_of_keep p k w ((j, v) ∷ m) d h =
      ground (arith, lookup_of_keep p k w m, keep-absent p j m d.0, text_eq_iff j k)

  pub delete-HasDistinctKeys :
      (k : Text) (m : List (Text × V)) → HasDistinctKeys m → HasDistinctKeys (delete k m)
  unfolding delete
  delete-HasDistinctKeys k [] d = tt
  delete-HasDistinctKeys k ((j, v) ∷ m) d =
      ground (arith, delete-HasDistinctKeys k m d.1, lookup-delete k j m)

  pub insert-HasDistinctKeys :
      (k : Text) (v : V) (m : List (Text × V)) → HasDistinctKeys m → HasDistinctKeys (insert k v m)
  unfolding insert
  insert-HasDistinctKeys k v m d =
      (ground (arith, lookup-delete k k m, text_eq_iff k k), delete-HasDistinctKeys k m d)

  pub keep-HasDistinctKeys :
      (p : V → Bool) (m : List (Text × V)) → HasDistinctKeys m → HasDistinctKeys (keep p m)
  unfolding keep
  keep-HasDistinctKeys p [] d = tt
  keep-HasDistinctKeys p ((k, v) ∷ m) d =
      ground (arith, keep-HasDistinctKeys p m d.1, keep-absent p k m d.0)

  pub length-delete-le : (k : Text) (m : List (Text × V)) → length (delete k m) ≤ length m
  unfolding delete
  length-delete-le k [] = omega arith
  length-delete-le k ((j, v) ∷ m) = ground (arith, length-delete-le k m)

  pub length-keep-le : (p : V → Bool) (m : List (Text × V)) → length (keep p m) ≤ length m
  unfolding keep
  length-keep-le p [] = omega arith
  length-keep-le p ((k, v) ∷ m) = ground (arith, length-keep-le p m)
