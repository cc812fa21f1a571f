-- ===== src/Coordinator/Assign/Range.antt =====
-- The range assignor gives each member a run of partitions.
use native.Mathlib.Nat.{mod-lt, div-add-mod}
use distributed_real_time_ev.Base.{
  ℕ, zero, suc, ◌+◌, ◌-◌, ◌*◌, ◌/◌, ◌%◌, ◌<◌, ◌≤◌, ltb, eqb, false, String, ◌==◌, ==_iff, ==_refl,
  string_comparable, List, [], ◌∷◌, length, In, Distinct, ◌≡◌, refl, sym, subst, ap, ◌∙◌, ◌⊎◌, inl,
  inr, Bool-cases, arith, if◌then◌else◌,
}
use distributed_real_time_ev.Base.Map
use distributed_real_time_ev.Coordinator.Assign.{
  Assignments, owned, run_of, share, cut, assign_range,
}
use distributed_real_time_ev.Coordinator.Assign.Sorting.{owned-insert}
use distributed_real_time_ev.Coordinator.Assign.RoundRobin.{SharesOut}

run_of-In : (start count q : ℕ) → In q (run_of start count) → (start ≤ q) × (q < start + count)
unfolding run_of
run_of-In start zero q h = elim h [ ]
run_of-In start (suc count) q (inl e) = (omega arith, omega arith)
run_of-In start (suc count) q (inr h) =
    let (l, u) = run_of-In (start + 1) count q h in (omega arith, omega arith)

In-run_of : (start count q : ℕ) → start ≤ q → q < start + count → In q (run_of start count)
unfolding run_of
In-run_of start zero q l u = absurd (omega arith)
In-run_of start (suc count) q l u = elim (Bool-cases (eqb start q)) [
  | inl e ↦ inl (ground arith)
  | inr e ↦ inr (In-run_of (start + 1) count q (ground arith) (omega arith))
]

positive : (n : ℕ) → eqb (suc n) 0 ≡ false
positive n = ground arith

-- The branch for no partitions is the other one at 0.
cut-cons :
    (base extra idx start : ℕ) (id : String) (rest : List String) (a : Assignments)
    → cut base extra idx start (id ∷ rest) a
      ≡ cut base extra
          (idx + 1)
          (start + share base extra idx)
          rest
          (Map.insert id (run_of start (share base extra idx)) a)
unfolding cut run_of
cut-cons base extra idx start id rest a = branches (share base extra idx)
  where
    branches :
        (count : ℕ)
        → cut base extra
            (idx + 1)
            (if eqb count 0 then start else start + count)
            rest
            (Map.insert id (if eqb count 0 then [] else run_of start count) a)
          ≡ cut base extra (idx + 1) (start + count) rest (Map.insert id (run_of start count) a)
    branches zero = ap (λ s. cut base extra (idx + 1) s rest (Map.insert id [] a)) (omega arith)
    branches (suc count) = rw (positive count) refl

-- The partitions of the members from `idx` on.
total : ℕ → ℕ → ℕ → List String → ℕ
total base extra idx [] = 0
total base extra idx (id ∷ rest) = share base extra idx + total base extra (idx + 1) rest

module _ (base extra : ℕ) where
  -- A member outside the list keeps what it has.
  cut-outside :
      (idx start : ℕ) (members : List String) (a : Assignments) (j : String)
      → ¬ In j members
      → owned j (cut base extra idx start members a) ≡ owned j a
  cut-outside idx start [] a j n = unfold cut in refl
  cut-outside idx start (id ∷ rest) a j n =
      ap (owned j) (cut-cons base extra idx start id rest a)
      ∙ cut-outside (idx + 1) (start + share base extra idx) rest
          (Map.insert id (run_of start (share base extra idx)) a) j (λ h. n (inr h))
      ∙ owned-insert id (run_of start (share base extra idx)) a j
      ∙ other
    where
      other : (if id == j then run_of start (share base extra idx) else owned j a) ≡ owned j a
      other = elim (Bool-cases (id == j)) [
        | inl e ↦ absurd (n (inl ((==_iff id j).0 e)))
        | inr e ↦ rw e refl
      ]

  -- The first member has the first run, whatever comes after.
  cut-first :
      (idx start : ℕ) (id : String) (rest : List String) (a : Assignments)
      → ¬ In id rest
      → owned id (cut base extra idx start (id ∷ rest) a) ≡ run_of start (share base extra idx)
  cut-first idx start id rest a n =
      ap (owned id) (cut-cons base extra idx start id rest a)
      ∙ cut-outside (idx + 1) (start + share base extra idx) rest
          (Map.insert id (run_of start (share base extra idx)) a) id n
      ∙ owned-insert id (run_of start (share base extra idx)) a id
      ∙ (rw ==_refl refl)

  cut-covered :
      (idx start : ℕ) (members : List String) (a : Assignments)
      → Distinct members
      → (q : ℕ) → start ≤ q
      → q < start + total base extra idx members
      → (id : String) × In id members × In q (owned id (cut base extra idx start members a))
  unfolding total
  cut-covered idx start [] a d q l u = absurd (omega arith)
  cut-covered idx start (id ∷ rest) a d q l u =
      elim (Bool-cases (ltb q (start + share base extra idx))) [
        | inl e ↦ (
          id,
          inl refl,
          subst (λ ps. In q ps) (sym (cut-first idx start id rest a d.0))
              (In-run_of start (share base extra idx) q l (ground arith)),
        )
        | inr e ↦
            let (j, m, k) =
              cut-covered (idx + 1) (start + share base extra idx) rest
                (Map.insert id (run_of start (share base extra idx)) a) d.1 q (ground arith)
                (omega arith) in
            (
              j,
              inr m,
              subst (λ x. In q (owned j x)) (sym (cut-cons base extra idx start id rest a)) k,
            )
      ]

  -- What a member of the list owns lies in the runs.
  cut-within :
      (idx start : ℕ) (members : List String) (a : Assignments)
      → Distinct members
      → (q : ℕ) (id : String) → In id members
      → In q (owned id (cut base extra idx start members a))
      → (start ≤ q) × (q < start + total base extra idx members)
  unfolding total
  cut-within idx start [] a d q id m h = elim m [ ]
  cut-within idx start (j ∷ rest) a d q id (inl e) h =
      let (l, u) = run_of-In start (share base extra idx) q (
        subst (λ ps. In q ps) (cut-first idx start j rest a d.0)
          (subst (λ x. In q (owned x (cut base extra idx start (j ∷ rest) a))) (sym e) h)) in
      (l, omega arith)
  cut-within idx start (j ∷ rest) a d q id (inr m) h =
      let (l, u) =
        cut-within (idx + 1) (start + share base extra idx) rest
          (Map.insert j (run_of start (share base extra idx)) a) d.1 q id m
          (subst (λ x. In q (owned id x)) (cut-cons base extra idx start j rest a) h) in
      (omega arith, omega arith)

  -- The first member shares nothing with the others.
  cut-apart :
      (idx start : ℕ) (i : String) (rest : List String) (a : Assignments)
      → Distinct (i ∷ rest)
      → (q : ℕ) (x : String) → In x rest
      → In q (owned x (cut base extra idx start (i ∷ rest) a))
      → ¬ In q (owned i (cut base extra idx start (i ∷ rest) a))
  cut-apart idx start i rest a d q x m h k =
      let (l, u) =
        run_of-In start (share base extra idx) q
          (subst (λ ps. In q ps) (cut-first idx start i rest a d.0) k) in
      let (v, w) =
        cut-within (idx + 1) (start + share base extra idx) rest
          (Map.insert i (run_of start (share base extra idx)) a) d.1 q x m
          (subst (λ y. In q (owned x y)) (cut-cons base extra idx start i rest a) h) in
      omega arith

  cut-exclusive :
      (idx start : ℕ) (members : List String) (a : Assignments)
      → Distinct members
      → (q : ℕ) (id j : String) → In id members
      → In j members
      → In q (owned id (cut base extra idx start members a))
      → In q (owned j (cut base extra idx start members a))
      → id ≡ j
  cut-exclusive idx start [] a d q id j m n h k = elim m [ ]
  cut-exclusive idx start (i ∷ rest) a d q id j (inl e) (inl f) h k = sym e ∙ f
  cut-exclusive idx start (i ∷ rest) a d q id j (inl e) (inr n) h k = absurd (
      cut-apart idx start i rest a d q j n k
        (subst (λ x. In q (owned x (cut base extra idx start (i ∷ rest) a))) (sym e) h))
  cut-exclusive idx start (i ∷ rest) a d q id j (inr m) (inl f) h k = absurd (
      cut-apart idx start i rest a d q id m h
        (subst (λ x. In q (owned x (cut base extra idx start (i ∷ rest) a))) (sym f) k))
  cut-exclusive idx start (i ∷ rest) a d q id j (inr m) (inr n) h k =
      cut-exclusive (idx + 1) (start + share base extra idx) rest
        (Map.insert i (run_of start (share base extra idx)) a) d.1 q id j m n
        (subst (λ y. In q (owned id y)) (cut-cons base extra idx start i rest a) h)
        (subst (λ y. In q (owned j y)) (cut-cons base extra idx start i rest a) k)

-- The runs together: `base` for each member, and one more for the first `extra`.
total_lem :
    (base extra idx : ℕ) (members : List String)
    → extra ≤ idx + length members
    → total base extra idx members ≡ base * length members + (extra - idx)
unfolding total share
total_lem base extra idx [] h = omega arith
total_lem base extra idx (id ∷ rest) h = elim (Bool-cases (ltb idx extra)) [
  | inl e ↦ rw e (ground (arith, total_lem base extra (idx + 1) rest (omega arith)))
  | inr e ↦ rw e (ground (arith, total_lem base extra (idx + 1) rest (omega arith)))
]

-- The runs of all the members are the partitions.
total_all :
    (n : ℕ) (members : List String)
    → 0 < length members
    → total (n / length members) (n % length members) 0 members ≡ n
total_all n members h =
    let m = mod-lt n h in
    omega (
      arith,
      total_lem (n / length members) (n % length members) 0 members (omega arith),
      div-add-mod n (length members),
    )

In-dec : (id : String) (ids : List String) → In id ids ⊎ (¬ In id ids)
In-dec id [] = inr (λ h. h)
In-dec id (j ∷ rest) = elim (Bool-cases (j == id)) [
  | inl e ↦ inl (inl ((==_iff j id).0 e))
  | inr e ↦ elim (In-dec id rest) [
    | inl m ↦ inl (inr m)
    | inr n ↦ inr (λ h. elim h [ inl q ↦ absurd (cc (e, (==_iff j id).1 q)) | inr m ↦ n m ])
  ]
]

-- The range assignor, on a group of different members that is not empty, shares all the partitions
-- out: each belongs to one member, and nothing else is assigned.
pub assign_range-SharesOut :
    (n : ℕ) (members : List String)
    → 0 < length members
    → Distinct members
    → SharesOut n members (assign_range n members [])
unfolding assign_range Map.lookup
assign_range-SharesOut n members h d = record {
  covered = λ q l.
      cut-covered (n / length members) (n % length members) 0 0 members [] d q (omega arith)
        (omega (arith, total_all n members h));
  exclusive = λ q id j a b.
      cut-exclusive (n / length members) (n % length members) 0 0 members [] d q id j
        (member q id a) (member q j b) a b;
  within = λ q id a.
      let (_, u) =
        cut-within (n / length members) (n % length members) 0 0 members [] d q id (member q id a)
          a in
      (omega (arith, total_all n members h), member q id a);
}
  where
    member :
        (q : ℕ) (id : String)
        → In q (owned id (cut (n / length members) (n % length members) 0 0 members []))
        → In id members
    member q id a = elim (In-dec id members) [
      | inl m ↦ m
      | inr m ↦ absurd (
          subst (λ ps. In q ps)
            (cut-outside (n / length members) (n % length members) 0 0 members [] id m) a)
    ]
