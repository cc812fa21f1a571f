-- ===== src/Storage/Log/Reading.antt =====
-- `Consume`, described by the offsets of the records.
use distributed_real_time_ev.Base.{
  ℕ, zero, suc, ◌+◌, ◌≤◌, ◌<◌, leb, ℤ, pos, negsuc, leb_ℤ, true, false, none, some, List, [], ◌∷◌,
  length, drop, filterb, ◌≡◌, refl, ap, sym, ◌∙◌, inl, inr, arith, Bool-cases,
}
use distributed_real_time_ev.Base.Map
use distributed_real_time_ev.Storage.Record.{Message}
use distributed_real_time_ev.Storage.State.{Key, key_comparable, Storage}
use distributed_real_time_ev.Storage.Log.{read_from, consume}

-- The offsets of the messages are those from `first` on, without a gap.
abbrev pub Counted : ℕ → List Message → Type 0
Counted first [] = Unit
Counted first (m ∷ ms) = (m.offset ≡ pos first) × Counted (suc first) ms

-- The messages whose offset is at least `offset`.
abbrev pub from_offset : ℕ → List Message → List Message
from_offset offset ms = filterb (λ m. leb_ℤ (pos offset) m.offset) ms

from_offset-kept :
    (a : ℕ) (m : Message) (ms : List Message)
    → leb_ℤ (pos a) m.offset ≡ true
    → from_offset a (m ∷ ms) ≡ m ∷ from_offset a ms
from_offset-kept a m ms h = rw h refl

from_offset-passed :
    (a : ℕ) (m : Message) (ms : List Message)
    → leb_ℤ (pos a) m.offset ≡ false
    → from_offset a (m ∷ ms) ≡ from_offset a ms
from_offset-passed a m ms h = rw h refl

leb_ℤ_pos : (a b : ℕ) (z : ℤ) → z ≡ pos b → leb_ℤ (pos a) z ≡ leb a b
leb_ℤ_pos a b z e = rw e (ground arith)

leb-yes : (a b : ℕ) → a ≤ b → leb a b ≡ true
leb-yes a b h = ground arith

leb-no : (a b : ℕ) → b < a → leb a b ≡ false
leb-no a b h = ground arith

all_from : (a b : ℕ) (ms : List Message) → a ≤ b → Counted b ms → from_offset a ms ≡ ms
all_from a b [] h c = refl
all_from a b (m ∷ ms) h c =
    from_offset-kept a m ms (leb_ℤ_pos a b _ c.0 ∙ leb-yes a b h)
    ∙ ap (λ r. m ∷ r) (all_from a (suc b) ms (omega arith) c.1)

from_offset-drop : (n b : ℕ) (ms : List Message) → Counted b ms → drop n ms ≡ from_offset (b + n) ms
from_offset-drop zero b ms c = sym (all_from (b + 0) b ms (omega arith) c)
from_offset-drop (suc n) b [] c = refl
from_offset-drop (suc n) b (m ∷ ms) c =
    from_offset-drop n (suc b) ms c.1
    ∙ shifted
    ∙ sym (
        from_offset-passed (b + suc n) m ms
          (leb_ℤ_pos (b + suc n) b _ c.0 ∙ leb-no (b + suc n) b (omega arith)))
  where
    shifted : from_offset (suc b + n) ms ≡ from_offset (b + suc n) ms
    shifted = ap (λ a. from_offset a ms) (omega arith)

drop_all : (n : ℕ) (ms : List Message) → leb_ℤ (pos (length ms)) (pos n) ≡ true → drop n ms ≡ []
drop_all zero [] h = refl
drop_all zero (m ∷ ms) h = absurd (ground arith)
drop_all (suc n) [] h = refl
drop_all (suc n) (m ∷ ms) h = drop_all n ms (ground arith)

read_from_lem :
    (ms : List Message) (first n : ℕ)
    → Counted first ms
    → read_from (pos n) ms ≡ some (from_offset (first + n) ms)
unfolding read_from
read_from_lem ms first n c = elim (Bool-cases (leb_ℤ (pos (length ms)) (pos n))) [
  | inl e ↦ rw e (ap (λ r. some r) (sym (drop_all n ms e) ∙ from_offset-drop n first ms c))
  | inr e ↦ rw e (ap (λ r. some r) (from_offset-drop n first ms c))
]

read_from_negative : (ms : List Message) (n : ℕ) → read_from (negsuc n) ms ≡ none
unfolding read_from
read_from_negative ms n = rw (never (length ms) n) refl
  where
    never : (a n : ℕ) → leb_ℤ (pos a) (negsuc n) ≡ false
    never a n = ground arith

-- Of a partition whose records have the offsets from `first` on without a gap, `Consume` with a
-- position `n` that is not negative returns the records from the offset `first + n` on, so that these
-- are the records from the offset `n` on where nothing has been deleted and `first` is 0. With a
-- negative offset it panics.
pub consume_lem :
    (s : Storage) (k : Key) (ms : List Message) (first n : ℕ)
    → Map.lookup k s.data_of ≡ some ms
    → Counted first ms
    → (consume s k (pos n) ≡ some (from_offset (first + n) ms)) × (consume s k (negsuc n) ≡ none)
unfolding consume
consume_lem s k ms first n h c =
    rw (consume, h) (read_from_lem ms first n c, read_from_negative ms n)
