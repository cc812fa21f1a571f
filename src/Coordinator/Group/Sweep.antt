-- ===== src/Coordinator/Group/Sweep.antt =====
-- `cleanupExpiredLocked`: what the loop over the members leaves.
use distributed_real_time_ev.Base.{
  ℕ, ℤ, Time, true, false, String, ◌==◌, ==_iff, string_comparable, none, some, List, [], ◌∷◌, ◌++◌,
  In, Distinct, ◌≡◌, ◌≢◌, ◌↔◌, refl, sym, subst, ap, ◌∙◌, ◌⊎◌, inl, inr, Bool-cases, Option-cases,
}
use distributed_real_time_ev.Base.Map
use distributed_real_time_ev.Base.Map.{Map}
use distributed_real_time_ev.Coordinator.Assign.{assign}
use distributed_real_time_ev.Coordinator.State.{GroupMember, ConsumerGroup}
use distributed_real_time_ev.Coordinator.Group.{
  rebalance, Swept, expired, sweep, swept, cleaned_group,
}
use distributed_real_time_ev.Coordinator.Group.Invariant.{Agree, Inv, IsMember-delete}

-- A list with `id` in the middle.
middle-In : (x id : String) (a r : List String) → In x (a ++ id ∷ r) ↔ (In x (a ++ r) ⊎ (id ≡ x))
middle-In x id [] r = (
  (λ h. elim h [ inl e ↦ inr e | inr k ↦ inl k ]),
  (λ h. elim h [ inl k ↦ inr k | inr e ↦ inl e ]),
)
middle-In x id (y ∷ a) r = (
  (λ h. elim h [
    | inl e ↦ inl (inl e)
    | inr k ↦ elim ((middle-In x id a r).0 k) [ inl l ↦ inl (inr l) | inr e ↦ inr e ]
  ]),
  (λ h. elim h [
    | inl (inl e) ↦ inl e
    | inl (inr k) ↦ inr ((middle-In x id a r).1 (inl k))
    | inr e ↦ inr ((middle-In x id a r).1 (inr e))
  ]),
)

middle-Distinct :
    (id : String) (a r : List String)
    → Distinct (a ++ id ∷ r)
    → Distinct (a ++ r) × (¬ In id (a ++ r))
middle-Distinct id [] r d = (d.1, d.0)
middle-Distinct id (y ∷ a) r d =
    let (k, n) = middle-Distinct id a r d.1 in
    (
      ((λ h. d.0 ((middle-In y id a r).1 (inl h))), k),
      (λ h. elim h [ inl e ↦ d.0 ((middle-In y id a r).1 (inr (sym e))) | inr m ↦ n m ]),
    )

append_assoc : (a : List String) (id : String) (r : List String) → (a ++ id ∷ []) ++ r ≡ a ++ id ∷ r
append_assoc [] id r = refl
append_assoc (x ∷ a) id r = ap (λ l. x ∷ l) (append_assoc a id r)

append_nil : (a : List String) → a ++ [] ≡ a
append_nil [] = refl
append_nil (x ∷ a) = ap (λ l. x ∷ l) (append_nil a)

In-left : (x : String) (a r : List String) → In x a → In x (a ++ r)
In-left x [] r h = elim h [ ]
In-left x (y ∷ a) r (inl e) = inl e
In-left x (y ∷ a) r (inr h) = inr (In-left x a r h)

lookup_deleted :
    (members : Map String GroupMember) (id j : String) (m : GroupMember)
    → Map.lookup j (Map.delete id members) ≡ some m
    → Map.lookup j members ≡ some m
lookup_deleted members id j m h = elim (Bool-cases (id == j)) [
  | inl q ↦ let k : none ≡ some m = rw (Map.lookup-delete, q) at h in absurd (cc k)
  | inr q ↦ rw (Map.lookup-delete, q) at h
]

Agree-delete :
    (members : Map String GroupMember) (id : String) (a r : List String)
    → Agree members (a ++ id ∷ r)
    → Agree (Map.delete id members) (a ++ r)
Agree-delete members id a r g = record {
  distinct = (middle-Distinct id a r g.distinct).0;
  to_map = λ j h. (IsMember-delete members id j).1 (
    g.to_map j ((middle-In j id a r).1 (inl h)),
    (λ e. (middle-Distinct id a r g.distinct).1 (subst (λ x. In x (a ++ r)) (sym e) h)),
  );
  from_map = λ j h.
      let (k, ne) = (IsMember-delete members id j).0 h in
      elim ((middle-In j id a r).0 (g.from_map j k)) [ inl l ↦ l | inr e ↦ absurd (ne e) ];
}

module _ (session_timeout : ℤ) (now : Time) where
  -- Members that have not expired.
  abbrev pub Fresh : Map String GroupMember → String → Type 0
  Fresh members id =
      (m : GroupMember) × (Map.lookup id members ≡ some m) × (expired session_timeout now m ≡ false)

  Fresh-delete :
      (members : Map String GroupMember) (id j : String)
      → Fresh members j
      → id ≢ j
      → Fresh (Map.delete id members) j
  Fresh-delete members id j (m, e, x) n = elim (Bool-cases (id == j)) [
    | inl q ↦ absurd (n ((==_iff id j).0 q))
    | inr q ↦ (m, rw (Map.lookup-delete, q) e, x)
  ]

  record Sound (before : Map String GroupMember) (s : Swept) (rest : List String) : Type 0 where
    agree : Agree s.members (s.active ++ rest)
    -- those handled are fresh
    fresh : (id : String) → In id s.active → Fresh s.members id
    -- what is left stands as it was, and the fresh are left
    kept :
        (id : String) (m : GroupMember)
        → Map.lookup id s.members ≡ some m
        → Map.lookup id before ≡ some m
    stays : (id : String) → Fresh before id → Fresh s.members id

  sweep-Sound :
      (before : Map String GroupMember) (order : List String) (s : Swept)
      → Sound before s order
      → Sound before (sweep session_timeout now order s) []
  unfolding sweep
  sweep-Sound before [] s h = h
  sweep-Sound before (id ∷ order) s h =
      let (m, e) = h.agree.to_map id ((middle-In id id s.active order).1 (inr refl)) in
      elim (Bool-cases (expired session_timeout now m)) [
        | inl x ↦ rw (e, x) (sweep-Sound before order _ (gone m e x))
        | inr x ↦ rw (e, x) (sweep-Sound before order _ (stay m e x))
      ]
    where
      gone :
          (m : GroupMember)
          → Map.lookup id s.members ≡ some m
          → expired session_timeout now m ≡ true
          → Sound before
              (record s {
                members = Map.delete id s.members;
                assignments = Map.delete id s.assignments;
                removed = true;
              })
              order
      gone m e x = record {
        agree = Agree-delete s.members id s.active order h.agree;
        fresh = λ j k. Fresh-delete s.members id j (h.fresh j k) (λ q.
            (middle-Distinct id s.active order h.agree.distinct).1
              (In-left id s.active order (subst (λ y. In y s.active) (sym q) k)));
        kept = λ j m' k. h.kept j m' (lookup_deleted s.members id j m' k);
        stays = λ j k.
            let (m', f, y) = h.stays j k in
            Fresh-delete s.members id j (m', f, y)
              (λ q.
                let same : some m ≡ some m' = sym e ∙ ap (λ i. Map.lookup i s.members) q ∙ f in
                let eq : m ≡ m' = cc same in
                absurd (cc (x, y, ap (expired session_timeout now) eq)));
      }

      stay :
          (m : GroupMember)
          → Map.lookup id s.members ≡ some m
          → expired session_timeout now m ≡ false
          → Sound before (record s { active = s.active ++ id ∷ [] }) order
      stay m e x = record {
        agree = subst (Agree s.members) (sym (append_assoc s.active id order)) h.agree;
        fresh = λ j k. elim ((middle-In j id s.active []).0 k) [
          | inl l ↦ h.fresh j (subst (In j) (append_nil s.active) l)
          | inr q ↦ subst (Fresh s.members) q (m, e, x)
        ];
        kept = h.kept;
        stays = h.stays;
      }

  sweep-removed :
      (order : List String) (s : Swept)
      → s.removed ≡ true
      → (sweep session_timeout now order s).removed ≡ true
  unfolding sweep
  sweep-removed [] s h = h
  sweep-removed (id ∷ order) s h = elim (Option-cases (Map.lookup id s.members)) [
    | inl e ↦ rw (sweep, e) (sweep-removed order _ refl)
    | inr (m, e) ↦ elim (Bool-cases (expired session_timeout now m)) [
      | inl x ↦ rw (sweep, e, x) (sweep-removed order _ refl)
      | inr x ↦ rw (sweep, e, x) (sweep-removed order _ h)
    ]
  ]

  -- Where nobody goes, nothing changes.
  sweep-same :
      (order : List String) (s : Swept)
      → (sweep session_timeout now order s).removed ≡ false
      → sweep session_timeout now order s ≡ record s { active = s.active ++ order }
  unfolding sweep
  sweep-same [] s h = ap (λ a. record s { active = a }) (sym (append_nil s.active))
  sweep-same (id ∷ order) s h = elim (Option-cases (Map.lookup id s.members)) [
    | inl e ↦
        absurd (cc (rw (sweep, e) at h, sweep-removed order (record s { removed = true }) refl))
    | inr (m, e) ↦ elim (Bool-cases (expired session_timeout now m)) [
      | inl x ↦ absurd (
          cc (
            rw (sweep, e, x) at h,
            sweep-removed order
                (record s {
                  members = Map.delete id s.members;
                  assignments = Map.delete id s.assignments;
                  removed = true;
                })
                refl,
          ))
      | inr x ↦
          rw (sweep, e, x)
            (sweep-same order (record s { active = s.active ++ id ∷ [] }) (rw (sweep, e, x) at h)
              ∙ ap (λ a. record s { active = a }) (append_assoc s.active id order))
    ]
  ]

module _ (n : ℕ) (session_timeout : ℤ) (now : Time) (group : ConsumerGroup) (i : Inv n group) where
  swept-Sound : Sound session_timeout now group.members (swept session_timeout now group) []
  unfolding swept
  swept-Sound = sweep-Sound session_timeout now group.members group.member_order _ (record {
    agree = i.agree;
    fresh = λ id h. elim h [ ];
    kept = λ id m h. h;
    stays = λ id h. h;
  })

  swept-Agree :
      Agree (swept session_timeout now group).members (swept session_timeout now group).active
  swept-Agree =
      subst (Agree (swept session_timeout now group).members) (append_nil _) swept-Sound.agree

  swept-same :
      (swept session_timeout now group).removed ≡ false
      → swept session_timeout now group ≡ record {
        members = group.members;
        assignments = group.assignments;
        active = group.member_order;
        removed = false;
      }
  unfolding swept
  swept-same h = sweep-same session_timeout now group.member_order _ h

  pub cleaned_group-Inv : Inv n (cleaned_group n session_timeout now group)
  unfolding cleaned_group rebalance
  cleaned_group-Inv = elim (Bool-cases (swept session_timeout now group).removed) [
    | inl e ↦ rw e (record { agree = swept-Agree; assigned = refl })
    | inr e ↦ rw e (record { agree = swept-Agree; assigned = kept (swept-same e) })
  ]
    where
      kept :
          swept session_timeout now group ≡ record {
            members = group.members;
            assignments = group.assignments;
            active = group.member_order;
            removed = false;
          }
          → (swept session_timeout now group).assignments
            ≡ assign n group.assignor (swept session_timeout now group).active
      kept q =
          ap (λ s. s.assignments) q
          ∙ i.assigned
          ∙ ap (λ s. assign n group.assignor s.active) (sym q)

  -- After the clean-up, the members are those of before that have not expired, with the heartbeats
  -- that they had.
  pub cleaned_group-members :
      (id : String) (m : GroupMember)
      → (Map.lookup id (cleaned_group n session_timeout now group).members ≡ some m)
        ↔ ((Map.lookup id group.members ≡ some m) × (expired session_timeout now m ≡ false))
  unfolding cleaned_group rebalance
  cleaned_group-members id m = elim (Bool-cases (swept session_timeout now group).removed) [
    | inl e ↦ rw e (both swept-Sound swept-Agree)
    | inr e ↦ rw e (both swept-Sound swept-Agree)
  ]
    where
      both :
          {s : Swept}
          → Sound session_timeout now group.members s []
          → Agree s.members s.active
          → (Map.lookup id s.members ≡ some m)
            ↔ ((Map.lookup id group.members ≡ some m) × (expired session_timeout now m ≡ false))
      both {s} k a = (
        (λ h.
            let (m', e, x) = k.fresh id (a.from_map id (m, h)) in
            let q : some m' ≡ some m = sym e ∙ h in
            let same : m' ≡ m = cc q in
            (k.kept id m h, ap (expired session_timeout now) (sym same) ∙ x)),
        (λ h.
            let (m', e, x) = k.stays id (m, h.0, h.1) in
            let q : some m' ≡ some m = sym (k.kept id m' e) ∙ h.0 in e ∙ q),
      )
