-- ===== src/Coordinator/Group/Invariant.antt =====
-- What holds of every consumer group, whatever calls are made: the order names different members,
-- those of the map, and the assignments are those that the assignor makes for the order.
use distributed_real_time_ev.Base.{
  ℕ, Time, not, ◌&&◌, String, ◌==◌, ==_iff, string_comparable, none, some, List, [], ◌∷◌, ◌++◌, In,
  Distinct, filterb, ◌≡◌, ◌≢◌, ◌↔◌, refl, sym, subst, ◌∙◌, ◌⊎◌, inl, inr, Bool-cases, Option-cases,
}
use distributed_real_time_ev.Base.Map
use distributed_real_time_ev.Base.Map.{Map}
use distributed_real_time_ev.Coordinator.Assign.{assign}
use distributed_real_time_ev.Coordinator.Assign.Sorting.{append-In, In-append}
use distributed_real_time_ev.Coordinator.Assign.Shares.{assign_nobody}
use distributed_real_time_ev.Coordinator.State.{GroupMember, ConsumerGroup}
use distributed_real_time_ev.Coordinator.Group.{
  rebalance, new_group, retopic, reassign, touched, joined, left,
}

abbrev pub IsMember : Map String GroupMember → String → Type 0
IsMember members id = (m : GroupMember) × (Map.lookup id members ≡ some m)

-- The order and the map agree.
pub record Agree (members : Map String GroupMember) (order : List String) : Type 0 where
  pub distinct : Distinct order
  pub to_map : (id : String) → In id order → IsMember members id
  pub from_map : (id : String) → IsMember members id → In id order

pub record Inv (num_partitions : ℕ) (group : ConsumerGroup) : Type 0 where
  pub agree : Agree group.members group.member_order
  pub assigned : group.assignments ≡ assign num_partitions group.assignor group.member_order

Agree-empty : Agree [] []
unfolding Map.lookup
Agree-empty = record {
  distinct = tt;
  to_map = λ id h. elim h [ ];
  from_map = λ id h. absurd (cc h.1);
}

pub new_group-Inv : (n : ℕ) (name topic assignor : String) → Inv n (new_group name topic assignor)
unfolding new_group
new_group-Inv n name topic assignor = record {
  agree = Agree-empty;
  assigned = sym (assign_nobody n _);
}

pub retopic-Inv :
    (n : ℕ) (group : ConsumerGroup) (topic : String) → Inv n group → Inv n (retopic group topic)
unfolding retopic
retopic-Inv n group topic i = elim (Bool-cases (group.topic == topic)) [
  | inl e ↦ rw e i
  | inr e ↦ rw e (record { agree = Agree-empty; assigned = sym (assign_nobody n _) })
]

rebalance-Inv :
    (n : ℕ) (group : ConsumerGroup)
    → Agree group.members group.member_order
    → Inv n (rebalance n group)
unfolding rebalance
rebalance-Inv n group a = record { agree = a; assigned = refl }

pub reassign-Inv :
    (n : ℕ) (group : ConsumerGroup) (assignor : String)
    → Inv n group
    → Inv n (reassign n group assignor)
unfolding reassign
reassign-Inv n group assignor i =
    elim (Bool-cases (not (assignor == "") && not (assignor == group.assignor))) [
      | inl e ↦ rw e (rebalance-Inv n _ i.agree)
      | inr e ↦ rw e i
    ]

append-Distinct :
    (id : String) (order : List String)
    → ¬ In id order
    → Distinct order
    → Distinct (order ++ id ∷ [])
append-Distinct id [] n d = (n, tt)
append-Distinct id (x ∷ order) n d = (
  (λ h. elim (append-In x id order h) [ inl k ↦ d.0 k | inr e ↦ n (inl (sym e)) ]),
  append-Distinct id order (λ h. n (inr h)) d.1,
)

Agree-insert :
    (members : Map String GroupMember) (order : List String) (id : String) (member : GroupMember)
    → Map.lookup id members ≡ none
    → Agree members order
    → Agree (Map.insert id member members) (order ++ id ∷ [])
Agree-insert members order id member e a = record {
  distinct = append-Distinct id order (λ h. absurd (cc (e, (a.to_map id h).1))) a.distinct;
  to_map = λ j h. elim (Bool-cases (id == j)) [
    | inl q ↦ (member, rw (Map.lookup-insert, q) refl)
    | inr q ↦ elim (append-In j id order h) [
      | inl k ↦ let (m, f) = a.to_map j k in (m, rw (Map.lookup-insert, q) f)
      | inr f ↦ absurd (cc (q, (==_iff id j).1 f))
    ]
  ];
  from_map = λ j h. elim (Bool-cases (id == j)) [
    | inl q ↦ In-append j id order (inr ((==_iff id j).0 q))
    | inr q ↦ In-append j id order (inl (a.from_map j (h.0, rw (Map.lookup-insert, q) at h.1)))
  ];
}

Agree-touch :
    (members : Map String GroupMember) (order : List String) (id : String)
    (old member : GroupMember)
    → Map.lookup id members ≡ some old
    → Agree members order
    → Agree (Map.insert id member members) order
Agree-touch members order id old member e a = record {
  distinct = a.distinct;
  to_map = λ j h. elim (Bool-cases (id == j)) [
    | inl q ↦ (member, rw (Map.lookup-insert, q) refl)
    | inr q ↦ let (m, k) = a.to_map j h in (m, rw (Map.lookup-insert, q) k)
  ];
  from_map = λ j h. elim (Bool-cases (id == j)) [
    | inl q ↦ a.from_map j (old, subst (λ x. Map.lookup x members ≡ some old) ((==_iff id j).0 q) e)
    | inr q ↦ a.from_map j (h.0, rw (Map.lookup-insert, q) at h.1)
  ];
}

pub joined-Inv :
    (n : ℕ) (group : ConsumerGroup) (id : String) (now : Time)
    → Inv n group
    → Inv n (joined n group id now)
unfolding joined touched
joined-Inv n group id now i = elim (Option-cases (Map.lookup id group.members)) [
  | inl e ↦
      rw (joined, e)
        (rebalance-Inv n _ (Agree-insert group.members group.member_order id _ e i.agree))
  | inr (old, e) ↦
      rw (joined, e)
        (record {
          agree = Agree-touch group.members group.member_order id old _ e i.agree;
          assigned = i.assigned;
        })
]

pub touched-Inv :
    (n : ℕ) (group : ConsumerGroup) (id : String) (member : GroupMember) (now : Time)
    → Map.lookup id group.members ≡ some member
    → Inv n group
    → Inv n (touched group id member now)
unfolding touched
touched-Inv n group id member now e i = record {
  agree = Agree-touch group.members group.member_order id member _ e i.agree;
  assigned = i.assigned;
}

others : String → List String → List String
others id order = filterb (λ other. not (other == id)) order

others-In : (id j : String) (order : List String) → In j (others id order) → In j order × (id ≢ j)
unfolding others
others-In id j [] h = elim h [ ]
others-In id j (x ∷ order) h = elim (Bool-cases (x == id)) [
  | inl e ↦ let (k, n) = others-In id j order (rw e at h) in (inr k, n)
  | inr e ↦
      let k : (x ≡ j) ⊎ In j (others id order) = rw e at h in
      elim k [
        | inl q ↦ (inl q, λ r. cc (e, (==_iff x id).1 (q ∙ sym r)))
        | inr k ↦ let (l, n) = others-In id j order k in (inr l, n)
      ]
]

In-others : (id j : String) (order : List String) → In j order → id ≢ j → In j (others id order)
unfolding others
In-others id j [] h n = h
In-others id j (x ∷ order) h n = elim (Bool-cases (x == id)) [
  | inl e ↦ rw e (elim h [
    | inl q ↦ absurd (n (sym ((==_iff x id).0 e) ∙ q))
    | inr k ↦ In-others id j order k n
  ])
  | inr e ↦ rw e (elim h [ inl q ↦ inl q | inr k ↦ inr (In-others id j order k n) ])
]

others-Distinct : (id : String) (order : List String) → Distinct order → Distinct (others id order)
unfolding others
others-Distinct id [] d = d
others-Distinct id (x ∷ order) d = elim (Bool-cases (x == id)) [
  | inl e ↦ rw e (others-Distinct id order d.1)
  | inr e ↦ rw e ((λ h. d.0 (others-In id x order h).0), others-Distinct id order d.1)
]

-- What is left of the map without `id`.
pub IsMember-delete :
    (members : Map String GroupMember) (id j : String)
    → IsMember (Map.delete id members) j ↔ (IsMember members j × (id ≢ j))
IsMember-delete members id j = elim (Bool-cases (id == j)) [
  | inl e ↦ (
    (λ h. let k : none ≡ some h.0 = rw (Map.lookup-delete, e) at h.1 in absurd (cc k)),
    (λ h. absurd (h.1 ((==_iff id j).0 e))),
  )
  | inr e ↦ (
    (λ h. ((h.0, rw (Map.lookup-delete, e) at h.1), λ q. cc (e, (==_iff id j).1 q))),
    (λ h. (h.0.0, rw (Map.lookup-delete, e) h.0.1)),
  )
]

pub left-Inv : (n : ℕ) (group : ConsumerGroup) (id : String) → Inv n group → Inv n (left n group id)
unfolding left others
left-Inv n group id i = rebalance-Inv n _ (record {
  distinct = others-Distinct id group.member_order i.agree.distinct;
  to_map = λ j h.
      let (k, ne) = others-In id j group.member_order h in
      (IsMember-delete group.members id j).1 (i.agree.to_map j k, ne);
  from_map = λ j h.
      let (k, ne) = (IsMember-delete group.members id j).0 h in
      In-others id j group.member_order (i.agree.from_map j k) ne;
})
