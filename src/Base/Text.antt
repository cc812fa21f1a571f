-- ===== src/Base/Text.antt =====
-- What the source uses of Go's packages strings, strconv and fmt, over texts as lists of
-- characters: joining, splitting at a character, and decimal numbers.

pub mod Splitting
pub mod Numbers
pub mod Words
use Prim.Native.Nat.{ℕ, zero, suc, ◌+◌, ◌-◌, ◌*◌, ◌/◌, ◌%◌, ◌≤◌}
use Prim.Native.Char.{Char, code}
use Prim.Native.String.{String}
use mathlib.Core.Path.{◌≡◌, refl, ap}
use mathlib.Core.Bool.{Bool, true, false, ◌&&◌, ◌||◌}
use mathlib.Core.Option.{Option, none, some}
use mathlib.Core.List.{List, [], ◌∷◌}
use distributed_real_time_ev.Base.Tests.{ltb, leb, eqb, if◌then◌else◌}
use distributed_real_time_ev.Base.Int.{ℤ, pos, negsuc}

-- s + t
infixr 64 ◌⧺◌
unfoldable pub ◌⧺◌ : String → String → String
String.[] ⧺ t = t
String.◌∷◌ c s ⧺ t = String.◌∷◌ c (s ⧺ t)

-- The parts of a text before and after the first `sep`, if it has one.
unfoldable pub cut : Char → String → Option (String × String)
cut sep String.[] = none
cut sep (String.◌∷◌ c s) =
    let rest : Option (String × String) = elim (cut sep s) [
      | none ↦ none
      | some (a, b) ↦ some (String.◌∷◌ c a, b)
    ] in
    if eqb (code c) (code sep) then some (String.[], s) else rest

-- strings.SplitN(s, sep, suc n): at most `n` cuts.
unfoldable pub split_n : ℕ → Char → String → List String
split_n zero sep s = s ∷ []
split_n (suc n) sep s = elim (cut sep s) [ none ↦ s ∷ [] | some (a, b) ↦ a ∷ split_n n sep b ]

-- strings.Split(s, sep): the parts between all the `sep`s.
unfoldable pub split : Char → String → List String
split sep String.[] = String.[] ∷ []
split sep (String.◌∷◌ c s) =
    let rest = split sep s in
    if eqb (code c) (code sep)
    then String.[] ∷ rest
    else (elim rest [ [] ↦ String.◌∷◌ c String.[] ∷ [] | x ∷ xs ↦ String.◌∷◌ c x ∷ xs ])

-- strings.Join(parts, sep), for a separator of one character.
unfoldable pub join : Char → List String → String
join sep [] = String.[]
join sep (x ∷ []) = x
join sep (x ∷ y ∷ xs) = x ⧺ String.◌∷◌ sep (join sep (y ∷ xs))

-- The digit of a number below 10.
pub digit : ℕ → Char
digit zero = "0"
digit (suc zero) = "1"
digit (suc (suc zero)) = "2"
digit (suc (suc (suc zero))) = "3"
digit (suc (suc (suc (suc zero)))) = "4"
digit (suc (suc (suc (suc (suc zero))))) = "5"
digit (suc (suc (suc (suc (suc (suc zero)))))) = "6"
digit (suc (suc (suc (suc (suc (suc (suc zero))))))) = "7"
digit (suc (suc (suc (suc (suc (suc (suc (suc zero)))))))) = "8"
digit _ = "9"

-- The decimal digits of `n`, before `rest`. The fuel `suc n` is enough: each call has less to print.
unfoldable pub digits : ℕ → ℕ → String → String
unfolding digit
digits zero n rest = rest
digits (suc fuel) n rest =
    let rest' = String.◌∷◌ (digit (n % 10)) rest in
    let more = digits fuel (n / 10) rest' in if ltb n 10 then rest' else more

-- %d
unfoldable pub itoa : ℤ → String
itoa (pos n) = digits (suc n) n String.[]
itoa (negsuc n) = String.◌∷◌ "-" (digits (suc (suc n)) (suc n) String.[])

-- The number that digits stand for, after those that gave `acc`; `none` at any other character.
unfoldable pub read_digits : ℕ → String → Option ℕ
read_digits acc String.[] = some acc
read_digits acc (String.◌∷◌ c s) =
    let rest = read_digits (acc * 10 + (code c - 48)) s in
    if leb 48 (code c) && leb (code c) 57 then rest else none

-- A number of at least one digit.
natural : String → Option ℕ
natural String.[] = none
natural (String.◌∷◌ c s) = read_digits 0 (String.◌∷◌ c s)

-- The magnitudes that 64 bits hold, with their signs.
positive : Option ℕ → Option ℤ
positive none = none
positive (some n) = if ltb n 9223372036854775808 then some (pos n) else none

negative : Option ℕ → Option ℤ
negative none = none
negative (some zero) = some (pos 0)
negative (some (suc n)) = if ltb n 9223372036854775808 then some (negsuc n) else none

-- strconv.Atoi and strconv.ParseInt(s, 10, 64).
unfoldable pub atoi : String → Option ℤ
unfolding natural positive negative
atoi String.[] = none
atoi (String.◌∷◌ c s) =
    if eqb (code c) b'-'
    then negative (natural s)
    else if eqb (code c) b'+'
    then positive (natural s)
    else positive (natural (String.◌∷◌ c s))

-- unicode.IsSpace
unfoldable pub is_space : ℕ → Bool
is_space c =
    (leb 9 c && leb c 13)
    || eqb c 32
    || eqb c 133
    || eqb c 160
    || eqb c 5760
    || (leb 8192 c && leb c 8202)
    || eqb c 8232
    || eqb c 8233
    || eqb c 8239
    || eqb c 8287
    || eqb c 12288

unfoldable pub trim_left : String → String
unfolding is_space
trim_left String.[] = String.[]
trim_left (String.◌∷◌ c s) =
    let rest = trim_left s in if is_space (code c) then rest else String.◌∷◌ c s

abbrev pub is_empty : String → Bool
is_empty String.[] = true
is_empty (String.◌∷◌ c s) = false

unfoldable pub trim_right : String → String
unfolding is_space
trim_right String.[] = String.[]
trim_right (String.◌∷◌ c s) =
    let rest = trim_right s in
    if is_space (code c) && is_empty rest then String.[] else String.◌∷◌ c rest

-- strings.TrimSpace
unfoldable pub trim_space : String → String
trim_space s = trim_right (trim_left s)

test_itoa : itoa (negsuc 1204) ≡ "-1205"
unfolding itoa digits
test_itoa = refl

test_atoi : atoi "-1205" ≡ some (negsuc 1204)
unfolding atoi read_digits
test_atoi = refl

test_split : split "," "a,,b" ≡ "a" ∷ "" ∷ "b" ∷ []
unfolding split
test_split = refl
