-- ===== src/Coordinator/Assign/RoundRobin.antt =====
-- The round-robin assignor gives each partition to one member.
use native.Mathlib.Nat.{mod-lt}
use distributed_real_time_ev.Base.{
  ℕ, zero, suc, ◌+◌, ◌%◌, ◌<◌, ◌≤◌, String, ◌==◌, ==_iff, ==_refl, string_comparable, Option, none,
  some, List, [], ◌∷◌, ◌++◌, length, get_elem?, In, ◌≡◌, ◌≢◌, refl, sym, subst, ap, ◌∙◌, ◌⊎◌, inl,
  inr, eqb, Bool-cases, Option-cases, arith,
}
use distributed_real_time_ev.Base.Map
use distributed_real_time_ev.Coordinator.Assign.{Assignments, owned, deal, assign_round_robin}
use distributed_real_time_ev.Coordinator.Assign.Sorting.{
  get_elem?-total, get_elem?-In, append-In, In-append, owned-insert,
}

-- Every partition below `n` is owned by one member of `ids`, and nothing else is owned.
pub record SharesOut (n : ℕ) (ids : List String) (assignments : Assignments) : Type 0 where
  pub covered : (q : ℕ) → q < n → (id : String) × In id ids × In q (owned id assignments)
  pub exclusive :
      (q : ℕ) (id j : String) → In q (owned id assignments) → In q (owned j assignments) → id ≡ j
  pub within : (q : ℕ) (id : String) → In q (owned id assignments) → (q < n) × In id ids

-- One round.
dealt : Option String → ℕ → Assignments → Assignments
dealt none p assignments = assignments
dealt (some id) p assignments = Map.insert id (owned id assignments ++ p ∷ []) assignments

dealt-In :
    (o : Option String) (p : ℕ) (assignments : Assignments) (q : ℕ) (id : String)
    → In q (owned id (dealt o p assignments))
    → In q (owned id assignments) ⊎ ((p ≡ q) × (o ≡ some id))
unfolding dealt
dealt-In none p assignments q id h = inl h
dealt-In (some j) p assignments q id h = elim (Bool-cases (j == id)) [
  | inr e ↦ inl (rw (owned-insert, e) at h)
  | inl e ↦
      let same = (==_iff j id).0 e in
      elim (append-In q p (owned j assignments) (rw (owned-insert, e) at h)) [
        | inl k ↦ inl (subst (λ x. In q (owned x assignments)) same k)
        | inr k ↦ inr (k, ap some same)
      ]
]

In-dealt :
    (o : Option String) (p : ℕ) (assignments : Assignments) (q : ℕ) (id : String)
    → In q (owned id assignments) ⊎ ((p ≡ q) × (o ≡ some id))
    → In q (owned id (dealt o p assignments))
unfolding dealt
In-dealt none p assignments q id (inl h) = h
In-dealt none p assignments q id (inr h) = absurd (cc h.1)
In-dealt (some j) p assignments q id h = rw owned-insert (elim (Bool-cases (j == id)) [
  | inr e ↦ rw e (elim h [ inl k ↦ k | inr k ↦ absurd (cc (e, ==_refl id, k.1)) ])
  | inl e ↦
      let same = (==_iff j id).0 e in
      rw e (
        In-append q p (owned j assignments) (elim h [
          | inl k ↦ inl (subst (λ x. In q (owned x assignments)) (sym same) k)
          | inr k ↦ inr k.0
        ]))
])

deal-suc :
    (members : List String) (n p : ℕ) (assignments : Assignments)
    → deal members (suc n) p assignments
      ≡ deal members n (p + 1) (dealt (get_elem? members (p % length members)) p assignments)
unfolding deal dealt
deal-suc members n p assignments = elim (Option-cases (get_elem? members (p % length members))) [
  | inl e ↦ rw e refl
  | inr (id, e) ↦ rw e refl
]

eq_or_ne : (p q : ℕ) → (p ≡ q) ⊎ (p ≢ q)
eq_or_ne p q = elim (Bool-cases (eqb p q)) [
  | inl e ↦ inl (ground arith)
  | inr e ↦ inr (ground arith)
]

module _ (members : List String) (q : ℕ) (id : String) where
  Turn : Type 0
  Turn = get_elem? members (q % length members) ≡ some id

  deal-In :
      (n p : ℕ) (assignments : Assignments)
      → In q (owned id (deal members n p assignments))
      → In q (owned id assignments) ⊎ ((p ≤ q) × (q < p + n) × Turn)
  unfolding Turn
  deal-In zero p assignments h = inl (unfold deal in h)
  deal-In (suc n) p assignments h =
      elim (deal-In n (p + 1) _
        (subst (λ a. In q (owned id a)) (deal-suc members n p assignments) h)) [
          | inr (l, u, t) ↦ inr (omega arith, omega arith, t)
          | inl k ↦ elim (dealt-In _ p assignments q id k) [
            | inl x ↦ inl x
            | inr (e, t) ↦ inr (
              omega arith,
              omega arith,
              ap (λ z. get_elem? members (z % length members)) (sym e) ∙ t,
            )
          ]
        ]

  In-deal :
      (n p : ℕ) (assignments : Assignments)
      → In q (owned id assignments) ⊎ ((p ≤ q) × (q < p + n) × Turn)
      → In q (owned id (deal members n p assignments))
  unfolding Turn
  In-deal zero p assignments (inl h) = unfold deal in h
  In-deal zero p assignments (inr h) = absurd (omega arith)
  In-deal (suc n) p assignments h =
      subst (λ a. In q (owned id a)) (sym (deal-suc members n p assignments))
        (In-deal n (p + 1) _ (turn h (eq_or_ne p q)))
    where
      turn :
          In q (owned id assignments) ⊎ ((p ≤ q) × (q < p + suc n) × Turn)
          → (p ≡ q) ⊎ (p ≢ q)
          → In q (owned id (dealt (get_elem? members (p % length members)) p assignments))
            ⊎ ((p + 1 ≤ q) × (q < p + 1 + n) × Turn)
      turn (inl k) _ = inl (In-dealt _ p assignments q id (inl k))
      turn (inr (l, u, t)) (inl e) = inl (
          In-dealt _ p assignments q id
            (inr (e, ap (λ z. get_elem? members (z % length members)) e ∙ t)))
      turn (inr (l, u, t)) (inr ne) = inr (omega arith, omega arith, t)

-- The round-robin assignor, on a group with a member, shares all the partitions out: each belongs
-- to one member, and nothing else is assigned.
pub assign_round_robin-SharesOut :
    (n : ℕ) (members : List String)
    → 0 < length members
    → SharesOut n members (assign_round_robin n members [])
unfolding assign_round_robin Turn Map.lookup
assign_round_robin-SharesOut n members h = record {
  covered = λ q l.
      let (id, e) = get_elem?-total members (q % length members) (mod-lt q h) in
      (
        id,
        get_elem?-In id members _ e,
        In-deal members q id n 0 [] (inr (omega arith, omega arith, e)),
      );
  exclusive = λ q id j a b. cc ((turn q id a).1, (turn q j b).1);
  within = λ q id a. let (u, e) = turn q id a in (u, get_elem?-In id members _ e);
}
  where
    turn :
        (q : ℕ) (id : String)
        → In q (owned id (deal members n 0 []))
        → (q < n) × (get_elem? members (q % length members) ≡ some id)
    turn q id a = elim (deal-In members q id n 0 [] a) [
      | inl k ↦ elim k [ ]
      | inr (_, u, e) ↦ (omega arith, e)
    ]
