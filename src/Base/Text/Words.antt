-- ===== src/Base/Text/Words.antt =====
-- Texts without white space, such as printed numbers, and what strings.TrimSpace leaves of them.
use Prim.Native.Nat.{ℕ, zero, suc, ◌+◌, ◌/◌, ◌%◌, ◌<◌}
use Prim.Native.Char.{Char, code}
use Prim.Native.String.{String}
use mathlib.Core.Path.{◌≡◌, refl, ap, ◌∙◌}
use mathlib.Core.Bool.{Bool, true, false, ◌&&◌}
use mathlib.Core.Logic.{inl, inr}
use native.Mathlib.Omega.{arith}
use distributed_real_time_ev.Base.Tests.{ltb, Bool-cases, if◌then◌else◌}
use distributed_real_time_ev.Base.Int.{ℤ, pos, negsuc}
use distributed_real_time_ev.Base.Text.{
  ◌⧺◌, digit, digits, itoa, is_space, is_empty, trim_left, trim_right, trim_space,
}
use distributed_real_time_ev.Base.Text.Numbers.{code-digit}

-- No character is white space.
abbrev pub Solid : String → Type 0
Solid String.[] = Unit {0}
Solid (String.◌∷◌ c s) = (is_space (code c) ≡ false) × Solid s

digit-Solid : (d : ℕ) → d < 10 → is_space (48 + d) ≡ false
unfolding is_space
digit-Solid d h = ground arith

digits-Solid : (fuel n : ℕ) (rest : String) → Solid rest → Solid (digits fuel n rest)
unfolding digits
digits-Solid zero n rest h = h
digits-Solid (suc fuel) n rest h = elim (Bool-cases (ltb n 10)) [
  | inl e ↦ rw e (one, h)
  | inr e ↦ rw e (digits-Solid fuel (n / 10) (String.◌∷◌ (digit (n % 10)) rest) (one, h))
]
  where
    one : is_space (code (digit (n % 10))) ≡ false
    one = rw (code-digit (n % 10) (omega arith)) (digit-Solid (n % 10) (omega arith))

pub itoa-Solid : (z : ℤ) → Solid (itoa z)
unfolding itoa is_space
itoa-Solid (pos n) = digits-Solid (suc n) n String.[] tt
itoa-Solid (negsuc n) = (refl, digits-Solid (suc (suc n)) (suc n) String.[] tt)

pub trim_right-Solid : (s : String) → Solid s → trim_right s ≡ s
unfolding trim_right
trim_right-Solid String.[] h = refl
trim_right-Solid (String.◌∷◌ c s) h =
    rw (trim_right, h.0) (ap (λ t. String.◌∷◌ c t) (trim_right-Solid s h.1))

pub trim_left-Solid :
    (c : Char) (s : String)
    → is_space (code c) ≡ false
    → trim_left (String.◌∷◌ c s) ≡ String.◌∷◌ c s
unfolding trim_left
trim_left-Solid c s h = rw (trim_left, h) refl

pub trim_space-Solid : (s : String) → Solid s → trim_space s ≡ s
unfolding trim_space trim_left
trim_space-Solid String.[] h = unfold trim_right in refl
trim_space-Solid (String.◌∷◌ c s) h =
    ap trim_right (trim_left-Solid c s h.0) ∙ trim_right-Solid (String.◌∷◌ c s) h

pub ⧺-nonempty : (a b : String) → is_empty b ≡ false → is_empty (a ⧺ b) ≡ false
unfolding ◌⧺◌
⧺-nonempty String.[] b h = h
⧺-nonempty (String.◌∷◌ c a) b h = refl

-- Trimming at the end does not reach behind what it leaves.
pub trim_right-⧺ :
    (a b : String) → is_empty b ≡ false → trim_right b ≡ b → trim_right (a ⧺ b) ≡ a ⧺ b
unfolding trim_right ◌⧺◌
trim_right-⧺ String.[] b h k = k
trim_right-⧺ (String.◌∷◌ c a) b h k =
    rw (trim_right-⧺ a b h k, ⧺-nonempty a b h) (kept (is_space (code c)))
  where
    kept :
        (space : Bool)
        → (if space && false then String.[] else String.◌∷◌ c (a ⧺ b)) ≡ String.◌∷◌ c (a ⧺ b)
    kept true = refl
    kept false = refl

-- A text that is not empty and does not end in white space.
abbrev pub Ends : String → Type 0
Ends s = (is_empty s ≡ false) × (trim_right s ≡ s)

pub ⧺-Ends : (a b : String) → Ends b → Ends (a ⧺ b)
⧺-Ends a b h = (⧺-nonempty a b h.0, trim_right-⧺ a b h.0 h.1)
