-- ===== src/Coordinator/Group/Checks.antt =====
-- The checks of `LeaveGroup`, `SyncGroup`, `Heartbeat` and `ValidateCommit`.
use distributed_real_time_ev.Base.{
  ℕ, ℤ, Time, String, ◌==◌, ==_iff, string_comparable, int_comparable, some, ◌≡◌, refl, sym, subst,
  ap, ◌∙◌, inl, inr, Bool-cases, Option-cases,
}
use distributed_real_time_ev.Base.Map
use distributed_real_time_ev.Base.Map.{Map}
use distributed_real_time_ev.Coordinator.State.{GroupMember, ConsumerGroup, GroupManager}
use distributed_real_time_ev.Coordinator.Group.{
  cleaned_group, cleanup_expired, refused, passed, member_check, check,
}
use distributed_real_time_ev.Coordinator.Group.Invariant.{Inv}
use distributed_real_time_ev.Coordinator.Group.Sweep.{cleaned_group-Inv}
use distributed_real_time_ev.Coordinator.Group.Calls.{AllInv, stored-Inv, cleanup_expired-Inv}

-- What a call has to satisfy to pass the checks, and the group and the member that it then works on.
pub record Passes (gm : GroupManager) (name topic id : String) (generation : ℤ) (now : Time)
    (group : ConsumerGroup) (member : GroupMember) : Type 0 where
  pub before : ConsumerGroup
  pub there : Map.lookup name gm.groups ≡ some before
  pub same_topic : before.topic ≡ topic
  pub cleaned : cleaned_group gm.num_partitions gm.session_timeout now before ≡ group
  pub current : generation ≡ group.generation
  pub member_there : Map.lookup id group.members ≡ some member

member_check-passed :
    (group : ConsumerGroup) (id : String) (generation : ℤ) (g : ConsumerGroup) (m : GroupMember)
    → member_check group id generation ≡ passed g m
    → (generation ≡ group.generation) × (group ≡ g) × (Map.lookup id group.members ≡ some m)
unfolding member_check
member_check-passed group id generation g m h = elim (Bool-cases (generation == group.generation)) [
  | inr e ↦ let k : refused "stale generation" ≡ passed g m = rw e at h in absurd (cc k)
  | inl e ↦ elim (Option-cases (Map.lookup id group.members)) [
    | inl f ↦ let k : refused "unknown member" ≡ passed g m = rw (e, f) at h in absurd (cc k)
    | inr (m', f) ↦
        let k : passed group m' ≡ passed g m = rw (e, f) at h in
        let q : group ≡ g = cc k in
        let r : m' ≡ m = cc k in ((==_iff generation group.generation).0 e, q, f ∙ ap some r)
  ]
]

member_check-passes :
    (group : ConsumerGroup) (id : String) (generation : ℤ) (m : GroupMember)
    → generation ≡ group.generation
    → Map.lookup id group.members ≡ some m
    → member_check group id generation ≡ passed group m
unfolding member_check
member_check-passes group id generation m e f =
    rw ((==_iff generation group.generation).1 e, f) refl

module _ (gm : GroupManager) (name topic id : String) (generation : ℤ) (now : Time) where
  pub check-Passes :
      (g : ConsumerGroup) (m : GroupMember)
      → (check gm name topic id generation now).1 ≡ passed g m
      → Passes gm name topic id generation now g m
  unfolding check cleanup_expired
  check-Passes g m h = elim (Option-cases (Map.lookup name gm.groups)) [
    | inl e ↦ let k : refused "group not found" ≡ passed g m = rw (check, e) at h in absurd (cc k)
    | inr (group, e) ↦ elim (Bool-cases (group.topic == topic)) [
      | inr f ↦
          let k : refused "group not found" ≡ passed g m = rw (check, e, f) at h in absurd (cc k)
      | inl f ↦
          let (c, q, l) =
            member_check-passed (cleaned_group gm.num_partitions gm.session_timeout now group) id
              generation g m (rw (check, e, f) at h) in
          record {
            before = group;
            there = e;
            same_topic = (==_iff group.topic topic).0 f;
            cleaned = q;
            current = c ∙ ap (λ x. x.generation) q;
            member_there = ap (λ x. Map.lookup id x.members) (sym q) ∙ l;
          }
    ]
  ]

  pub Passes-check :
      (g : ConsumerGroup) (m : GroupMember)
      → Passes gm name topic id generation now g m
      → (check gm name topic id generation now).1 ≡ passed g m
  unfolding check cleanup_expired
  Passes-check g m p =
      rw (check, p.there, (==_iff p.before.topic topic).1 p.same_topic)
        (ap (λ x. member_check x id generation) p.cleaned
          ∙ member_check-passes g id generation m p.current p.member_there)

  pub check-AllInv : (n : ℕ) → AllInv n gm → AllInv n (check gm name topic id generation now).0
  unfolding check
  check-AllInv n i = elim (Option-cases (Map.lookup name gm.groups)) [
    | inl e ↦ rw (check, e) i
    | inr (group, e) ↦ elim (Bool-cases (group.topic == topic)) [
      | inr f ↦ rw (check, e, f) i
      | inl f ↦
          rw (check, e, f)
            (cleanup_expired-Inv n name gm group now i (stored-Inv n name gm group i e)).0
    ]
  ]

  pub passed-Inv :
      (n : ℕ) (g : ConsumerGroup) (m : GroupMember)
      → AllInv n gm
      → Passes gm name topic id generation now g m
      → Inv n g
  passed-Inv n g m i p = subst (Inv n) p.cleaned (
      subst (λ k. Inv n (cleaned_group k gm.session_timeout now p.before)) (sym i.partitions)
        (cleaned_group-Inv n gm.session_timeout now p.before
          (stored-Inv n name gm p.before i p.there)))
