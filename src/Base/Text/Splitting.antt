-- ===== src/Base/Text/Splitting.antt =====
-- Texts without a separator: joining them and cutting at the separator are inverse.
use Prim.Native.Nat.{ℕ, suc}
use Prim.Native.Char.{Char, code}
use Prim.Native.String.{String}
use mathlib.Core.Path.{◌≡◌, refl, ap, ◌∙◌}
use mathlib.Core.Bool.{true, false}
use mathlib.Core.Logic.{inl, inr}
use mathlib.Core.Option.{none, some}
use mathlib.Core.List.{List, [], ◌∷◌}
use native.Mathlib.Omega.{arith}
use distributed_real_time_ev.Base.Tests.{eqb, Bool-cases}
use distributed_real_time_ev.Base.Lists.{All}
use distributed_real_time_ev.Base.Text.{◌⧺◌, cut, split_n, split, join}

-- The character does not stand in the text.
abbrev pub Free : Char → String → Type 0
Free sep String.[] = Unit {0}
Free sep (String.◌∷◌ c s) = (eqb (code c) (code sep) ≡ false) × Free sep s

pub ⧺-Free : (sep : Char) (a b : String) → Free sep a → Free sep b → Free sep (a ⧺ b)
unfolding ◌⧺◌
⧺-Free sep String.[] b h k = k
⧺-Free sep (String.◌∷◌ c a) b h k = (h.0, ⧺-Free sep a b h.1 k)

pub ⧺_assoc : (a b c : String) → (a ⧺ b) ⧺ c ≡ a ⧺ (b ⧺ c)
unfolding ◌⧺◌
⧺_assoc String.[] b c = refl
⧺_assoc (String.◌∷◌ x a) b c = ap (λ s. String.◌∷◌ x s) (⧺_assoc a b c)

pub ⧺-nil : (a : String) → a ⧺ String.[] ≡ a
unfolding ◌⧺◌
⧺-nil String.[] = refl
⧺-nil (String.◌∷◌ x a) = ap (λ s. String.◌∷◌ x s) (⧺-nil a)

same_code : (c : Char) → eqb (code c) (code c) ≡ true
same_code c = ground arith

pub cut-⧺ : (sep : Char) (a b : String) → Free sep a → cut sep (a ⧺ String.◌∷◌ sep b) ≡ some (a, b)
unfolding cut ◌⧺◌
cut-⧺ sep String.[] b h = rw (same_code sep) refl
cut-⧺ sep (String.◌∷◌ c a) b h = rw (h.0, cut-⧺ sep a b h.1) refl

pub cut-Free : (sep : Char) (a : String) → Free sep a → cut sep a ≡ none
unfolding cut
cut-Free sep String.[] h = refl
cut-Free sep (String.◌∷◌ c a) h = rw (h.0, cut-Free sep a h.1) refl

pub split_n-⧺ :
    (n : ℕ) (sep : Char) (a b : String)
    → Free sep a
    → split_n (suc n) sep (a ⧺ String.◌∷◌ sep b) ≡ a ∷ split_n n sep b
unfolding split_n
split_n-⧺ n sep a b h = rw (split_n, cut-⧺ sep a b h) refl

pub split-Free : (sep : Char) (a : String) → Free sep a → split sep a ≡ a ∷ []
unfolding split
split-Free sep String.[] h = refl
split-Free sep (String.◌∷◌ c a) h = rw (h.0, split-Free sep a h.1) refl

pub split-⧺ :
    (sep : Char) (a b : String) → Free sep a → split sep (a ⧺ String.◌∷◌ sep b) ≡ a ∷ split sep b
unfolding split ◌⧺◌
split-⧺ sep String.[] b h = rw (same_code sep) refl
split-⧺ sep (String.◌∷◌ c a) b h = rw (h.0, split-⧺ sep a b h.1) refl

pub split-join :
    (sep : Char) (x : String) (xs : List String)
    → All (Free sep) (x ∷ xs)
    → split sep (join sep (x ∷ xs)) ≡ x ∷ xs
unfolding join
split-join sep x [] h = split-Free sep x h.0
split-join sep x (y ∷ xs) h =
    split-⧺ sep x (join sep (y ∷ xs)) h.0 ∙ ap (λ l. x ∷ l) (split-join sep y xs h.1)

-- A split gives at least one part.
pub split-cons :
    (sep : Char) (s : String) → (x : String) × (xs : List String) × (split sep s ≡ x ∷ xs)
unfolding split
split-cons sep String.[] = (String.[], [], refl)
split-cons sep (String.◌∷◌ c s) = elim (Bool-cases (eqb (code c) (code sep))) [
  | inl e ↦ (String.[], split sep s, rw e refl)
  | inr e ↦ let (x, xs, q) = split-cons sep s in (String.◌∷◌ c x, xs, rw (e, q) refl)
]
