-- ===== src/Coordinator/Assign/Sorting.antt =====
-- Sorting keeps the members, and what the proofs about the assignors use of lists and maps.
use Prim.Native.String.{compare}
use text.Mathlib.Text.{is_le}
use distributed_real_time_ev.Base.{
  ℕ, zero, suc, ◌<◌, Bool, true, false, String, ◌==◌, string_comparable, some, List, [], ◌∷◌, ◌++◌,
  length, get_elem?, In, Distinct, ◌≡◌, refl, sym, ap, ◌∙◌, ◌⊎◌, inl, inr, Bool-cases, arith,
  if◌then◌else◌,
}
use distributed_real_time_ev.Base.Map
use distributed_real_time_ev.Coordinator.Assign.{Assignments, owned, or_empty, place, sort}

place-In : (a s : String) (l : List String) → In a (place s l) → (s ≡ a) ⊎ In a l
unfolding place
place-In a s [] h = h
place-In a s (t ∷ rest) h = elim (Bool-cases (is_le (compare s t))) [
  | inl e ↦ rw e at h
  | inr e ↦ later (λ k. place-In a s rest k) (rw e at h)
]
  where
    later :
        (In a (place s rest) → (s ≡ a) ⊎ In a rest)
        → (t ≡ a) ⊎ In a (place s rest)
        → (s ≡ a) ⊎ In a (t ∷ rest)
    later f (inl q) = inr (inl q)
    later f (inr q) = elim (f q) [ inl x ↦ inl x | inr x ↦ inr (inr x) ]

In-place : (a s : String) (l : List String) → (s ≡ a) ⊎ In a l → In a (place s l)
unfolding place
In-place a s [] h = h
In-place a s (t ∷ rest) h = elim (Bool-cases (is_le (compare s t))) [
  | inl e ↦ rw e h
  | inr e ↦ rw e (later (λ k. In-place a s rest k) h)
]
  where
    later :
        ((s ≡ a) ⊎ In a rest → In a (place s rest))
        → (s ≡ a) ⊎ In a (t ∷ rest)
        → (t ≡ a) ⊎ In a (place s rest)
    later f (inl q) = inr (f (inl q))
    later f (inr (inl q)) = inl q
    later f (inr (inr q)) = inr (f (inr q))

pub sort-In : (a : String) (l : List String) → In a (sort l) → In a l
unfolding sort
sort-In a [] h = h
sort-In a (s ∷ rest) h = elim (place-In a s (sort rest) h) [
  | inl e ↦ inl e
  | inr k ↦ inr (sort-In a rest k)
]

pub In-sort : (a : String) (l : List String) → In a l → In a (sort l)
unfolding sort
In-sort a [] h = h
In-sort a (s ∷ rest) (inl e) = In-place a s (sort rest) (inl e)
In-sort a (s ∷ rest) (inr k) = In-place a s (sort rest) (inr (In-sort a rest k))

place-Distinct : (s : String) (l : List String) → ¬ In s l → Distinct l → Distinct (place s l)
unfolding place
place-Distinct s [] n d = (n, tt)
place-Distinct s (t ∷ rest) n d = elim (Bool-cases (is_le (compare s t))) [
  | inl e ↦ rw e (n, d)
  | inr e ↦ rw e (
    (λ k. elim (place-In t s rest k) [ inl q ↦ n (inl (sym q)) | inr q ↦ d.0 q ]),
    place-Distinct s rest (λ k. n (inr k)) d.1,
  )
]

pub sort-Distinct : (l : List String) → Distinct l → Distinct (sort l)
unfolding sort
sort-Distinct [] d = d
sort-Distinct (s ∷ rest) d =
    place-Distinct s (sort rest) (λ k. d.0 (sort-In s rest k)) (sort-Distinct rest d.1)

length-place : (s : String) (l : List String) → length (place s l) ≡ suc (length l)
unfolding place
length-place s [] = refl
length-place s (t ∷ rest) = elim (Bool-cases (is_le (compare s t))) [
  | inl e ↦ rw e refl
  | inr e ↦ rw e (ap suc (length-place s rest))
]

pub length-sort : (l : List String) → length (sort l) ≡ length l
unfolding sort
length-sort [] = refl
length-sort (s ∷ rest) = length-place s (sort rest) ∙ ap suc (length-sort rest)

module _ {A : Type 0} where
  pub get_elem?-total : (l : List A) (i : ℕ) → i < length l → (a : A) × (get_elem? l i ≡ some a)
  get_elem?-total [] i h = elim h [ ]
  get_elem?-total (x ∷ l) zero h = (x, refl)
  get_elem?-total (x ∷ l) (suc i) h = get_elem?-total l i (omega arith)

  pub get_elem?-In : (a : A) (l : List A) (i : ℕ) → get_elem? l i ≡ some a → In a l
  get_elem?-In a [] i h = absurd (cc h)
  get_elem?-In a (x ∷ l) zero h = inl (cc h)
  get_elem?-In a (x ∷ l) (suc i) h = inr (get_elem?-In a l i h)

  pub append-In : (a b : A) (l : List A) → In a (l ++ b ∷ []) → In a l ⊎ (b ≡ a)
  append-In a b [] (inl e) = inr e
  append-In a b [] (inr h) = elim h [ ]
  append-In a b (x ∷ l) (inl e) = inl (inl e)
  append-In a b (x ∷ l) (inr h) = elim (append-In a b l h) [ inl k ↦ inl (inr k) | inr e ↦ inr e ]

  pub In-append : (a b : A) (l : List A) → In a l ⊎ (b ≡ a) → In a (l ++ b ∷ [])
  In-append a b [] (inl h) = elim h [ ]
  In-append a b [] (inr e) = inl e
  In-append a b (x ∷ l) (inl (inl e)) = inl e
  In-append a b (x ∷ l) (inl (inr h)) = inr (In-append a b l (inl h))
  In-append a b (x ∷ l) (inr e) = inr (In-append a b l (inr e))

pub owned-insert :
    (id : String) (ps : List ℕ) (assignments : Assignments) (j : String)
    → owned j (Map.insert id ps assignments) ≡ (if id == j then ps else owned j assignments)
owned-insert id ps assignments j =
    ap or_empty (Map.lookup-insert id ps assignments j) ∙ split (id == j)
  where
    split :
        (b : Bool)
        → or_empty (if b then some ps else Map.lookup j assignments)
          ≡ (if b then ps else owned j assignments)
    split true = refl
    split false = refl
