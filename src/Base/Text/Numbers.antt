-- ===== src/Base/Text/Numbers.antt =====
-- Reading a number that has been printed gives the number back.
use Prim.Native.Nat.{ℕ, zero, suc, ◌+◌, ◌*◌, ◌/◌, ◌%◌, ◌≤◌, ◌<◌}
use Prim.Native.Char.{Char, code}
use Prim.Native.String.{String}
use mathlib.Core.Path.{◌≡◌, refl, sym, ap, ◌∙◌}
use mathlib.Core.Bool.{true, false, ◌&&◌}
use mathlib.Core.Logic.{inl, inr}
use mathlib.Core.Option.{some}
use native.Mathlib.Omega.{arith}
use distributed_real_time_ev.Base.Tests.{ltb, leb, eqb, ltb→lt, Bool-cases}
use distributed_real_time_ev.Base.Int.{ℤ, pos, negsuc, IsInt64}
use distributed_real_time_ev.Base.Text.{
  digit, digits, itoa, is_empty, read_digits, natural, positive, negative, atoi,
}
use distributed_real_time_ev.Base.Text.Splitting.{Free}

pub code-digit : (d : ℕ) → d < 10 → code (digit d) ≡ 48 + d
unfolding digit
code-digit zero h = refl
code-digit (suc zero) h = refl
code-digit (suc (suc zero)) h = refl
code-digit (suc (suc (suc zero))) h = refl
code-digit (suc (suc (suc (suc zero)))) h = refl
code-digit (suc (suc (suc (suc (suc zero))))) h = refl
code-digit (suc (suc (suc (suc (suc (suc zero)))))) h = refl
code-digit (suc (suc (suc (suc (suc (suc (suc zero))))))) h = refl
code-digit (suc (suc (suc (suc (suc (suc (suc (suc zero)))))))) h = refl
code-digit (suc (suc (suc (suc (suc (suc (suc (suc (suc zero))))))))) h = refl
code-digit (suc (suc (suc (suc (suc (suc (suc (suc (suc (suc d)))))))))) h = absurd (omega arith)

read_digit :
    (acc d : ℕ) (s : String)
    → d < 10
    → read_digits acc (String.◌∷◌ (digit d) s) ≡ read_digits (acc * 10 + d) s
unfolding read_digits
read_digit acc d s h =
    rw (code-digit d h) (rw in_range (ap (λ n. read_digits (acc * 10 + n) s) (omega arith)))
  where
    in_range : (leb 48 (48 + d) && leb (48 + d) 57) ≡ true
    in_range = ground arith

pub read_digits-digits :
    (fuel n : ℕ) (rest : String)
    → n < fuel
    → read_digits 0 (digits fuel n rest) ≡ read_digits n rest
unfolding digits
read_digits-digits zero n rest h = elim h [ ]
read_digits-digits (suc fuel) n rest h = elim (Bool-cases (ltb n 10)) [
  | inl e ↦ rw e (
      read_digit 0 (n % 10) rest (omega arith)
      ∙ ap (λ k. read_digits k rest) (small (ltb→lt n 10 e)))
  | inr e ↦ rw e (
      read_digits-digits fuel (n / 10) (String.◌∷◌ (digit (n % 10)) rest) (less (large e))
      ∙ read_digit (n / 10) (n % 10) rest (omega arith)
      ∙ ap (λ k. read_digits k rest) (omega arith))
]
  where
    small : n < 10 → 0 * 10 + n % 10 ≡ n
    small k = omega arith

    large : ltb n 10 ≡ false → 10 ≤ n
    large k = ground arith

    less : 10 ≤ n → n / 10 < fuel
    less k = omega (arith, h)

-- The printed digits begin with one.
digits-cons :
    (fuel n : ℕ) (rest : String)
    → n < fuel
    → (d : ℕ) × (s : String) × (digits fuel n rest ≡ String.◌∷◌ (digit d) s) × (d < 10)
unfolding digits
digits-cons zero n rest h = elim h [ ]
digits-cons (suc fuel) n rest h = elim (Bool-cases (ltb n 10)) [
  | inl e ↦ (n % 10, rest, rw e refl, omega arith)
  | inr e ↦
      let (d, s, q, k) =
        digits-cons fuel (n / 10) (String.◌∷◌ (digit (n % 10)) rest) (less (large e)) in
      (d, s, rw e q, k)
]
  where
    large : ltb n 10 ≡ false → 10 ≤ n
    large k = ground arith

    less : 10 ≤ n → n / 10 < fuel
    less k = omega (arith, h)

natural-digits : (fuel n : ℕ) → n < fuel → natural (digits fuel n String.[]) ≡ some n
unfolding natural
natural-digits fuel n h =
    let (d, s, q, k) = digits-cons fuel n String.[] h in
    ap natural q
    ∙ ap (read_digits 0) (sym q)
    ∙ read_digits-digits fuel n String.[] h
    ∙ (unfold read_digits in refl)

digits-Free :
    (sep : Char) (fuel n : ℕ) (rest : String)
    → ((d : ℕ) → d < 10 → eqb (48 + d) (code sep) ≡ false)
    → Free sep rest
    → Free sep (digits fuel n rest)
unfolding digits
digits-Free sep zero n rest f h = h
digits-Free sep (suc fuel) n rest f h = elim (Bool-cases (ltb n 10)) [
  | inl e ↦ rw e (one, h)
  | inr e ↦ rw e (digits-Free sep fuel (n / 10) (String.◌∷◌ (digit (n % 10)) rest) f (one, h))
]
  where
    one : eqb (code (digit (n % 10))) (code sep) ≡ false
    one = rw (code-digit (n % 10) (omega arith)) (f (n % 10) (omega arith))

-- A printed number holds no character but digits and the sign.
pub itoa-Free :
    (sep : Char) (z : ℤ)
    → ((d : ℕ) → d < 10 → eqb (48 + d) (code sep) ≡ false)
    → eqb b'-' (code sep) ≡ false
    → Free sep (itoa z)
unfolding itoa
itoa-Free sep (pos n) f g = digits-Free sep (suc n) n String.[] f tt
itoa-Free sep (negsuc n) f g = (g, digits-Free sep (suc (suc n)) (suc n) String.[] f tt)

pub itoa-nonempty : (z : ℤ) → is_empty (itoa z) ≡ false
unfolding itoa
itoa-nonempty (pos n) =
    let (d, s, q, k) = digits-cons (suc n) n String.[] (omega arith) in ap is_empty q
itoa-nonempty (negsuc n) = refl

unsigned :
    (d : ℕ) (s : String)
    → d < 10
    → atoi (String.◌∷◌ (digit d) s) ≡ positive (natural (String.◌∷◌ (digit d) s))
unfolding atoi
unsigned d s h = rw (minus, plus) refl
  where
    minus : eqb (code (digit d)) b'-' ≡ false
    minus = ground (arith, code-digit d h)

    plus : eqb (code (digit d)) b'+' ≡ false
    plus = ground (arith, code-digit d h)

pub atoi-itoa : (z : ℤ) → IsInt64 z → atoi (itoa z) ≡ some z
unfolding itoa atoi positive negative
atoi-itoa (pos n) h =
    let (d, s, q, k) = digits-cons (suc n) n String.[] (omega arith) in
    ap atoi q
    ∙ unsigned d s k
    ∙ ap (λ x. positive (natural x)) (sym q)
    ∙ ap positive (natural-digits (suc n) n (omega arith))
    ∙ rw bound refl
  where
    bound : ltb n 9223372036854775808 ≡ true
    bound = ground arith
atoi-itoa (negsuc n) h =
    ap negative (natural-digits (suc (suc n)) (suc n) (omega arith)) ∙ rw bound refl
  where
    bound : ltb n 9223372036854775808 ≡ true
    bound = ground arith
