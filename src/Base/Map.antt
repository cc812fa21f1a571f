-- ===== src/Base/Map.antt =====
-- Go's maps as association lists. A range over a map goes through the list in its order; Go leaves
-- the order open, and the theorems are about every list.
use mathlib.Core.Path.{◌≡◌, refl, subst}
use mathlib.Core.Option.{Option, none, some}
use mathlib.Core.Logic.{inl, inr}
use mathlib.Core.List.{List, [], ◌∷◌, map}
use native.Mathlib.Omega.{arith}
use distributed_real_time_ev.Base.Tests.{if◌then◌else◌, Comparable, ◌==◌, ==_iff, Bool-cases}
use distributed_real_time_ev.Base.Lists.{All}

abbrev pub Map {ℓ κ} : Type ℓ → Type κ → Type (ℓ ⊔ κ)
Map K V = List (K × V)

abbrev pub keys {ℓ κ} : {K : Type ℓ} {V : Type κ} → Map K V → List K
keys m = map (λ e. e.0) m

module _ {ℓ κ} {K : Type ℓ} {V : Type κ} ⦃c : Comparable K⦄ where
  -- m[k] = v
  unfoldable pub insert : K → V → Map K V → Map K V
  insert k v [] = (k, v) ∷ []
  insert k v ((j, w) ∷ m) = let rest = insert k v m in if j == k then (j, v) ∷ m else (j, w) ∷ rest

  -- delete(m, k)
  unfoldable pub delete : K → Map K V → Map K V
  delete k [] = []
  delete k ((j, w) ∷ m) = let rest = delete k m in if j == k then rest else (j, w) ∷ rest

  -- m[k], with its `ok`
  unfoldable pub lookup : K → Map K V → Option V
  lookup k [] = none
  lookup k ((j, v) ∷ m) = if j == k then some v else lookup k m

  -- Reading `j` after writing `k`.
  pub lookup-insert :
      (k : K) (v : V) (m : Map K V) (j : K)
      → lookup j (insert k v m) ≡ (if k == j then some v else lookup j m)
  unfolding insert lookup
  lookup-insert k v [] j = refl
  lookup-insert k v ((i, w) ∷ rest) j =
      ground (arith, lookup-insert k v rest j, ==_iff i k, ==_iff i j, ==_iff k j)

  pub lookup-delete :
      (k : K) (m : Map K V) (j : K) → lookup j (delete k m) ≡ (if k == j then none else lookup j m)
  unfolding delete lookup
  lookup-delete k [] j = ground arith
  lookup-delete k ((i, w) ∷ rest) j =
      ground (arith, lookup-delete k rest j, ==_iff i k, ==_iff i j, ==_iff k j)

module _ {ℓ κ ι} {K : Type ℓ} {V : Type κ} ⦃c : Comparable K⦄ (P : V → Type ι) where
  pub All-insert :
      (k : K) (v : V) (m : Map K V) → All (λ e. P e.1) m → P v → All (λ e. P e.1) (insert k v m)
  unfolding insert
  All-insert k v [] a h = (h, tt)
  All-insert k v ((j, w) ∷ m) a h = elim (Bool-cases (j == k)) [
    | inl q ↦ rw q (h, a.1)
    | inr q ↦ rw q (a.0, All-insert k v m a.1 h)
  ]

  pub All-lookup : (k : K) (v : V) (m : Map K V) → All (λ e. P e.1) m → lookup k m ≡ some v → P v
  unfolding lookup
  All-lookup k v [] a h = cc
  All-lookup k v ((j, w) ∷ m) a h = elim (Bool-cases (j == k)) [
    | inl q ↦ let k : some w ≡ some v = rw q at h in let same : w ≡ v = cc k in subst P same a.0
    | inr q ↦ All-lookup k v m a.1 (rw q at h)
  ]
