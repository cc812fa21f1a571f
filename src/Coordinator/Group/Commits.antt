-- ===== src/Coordinator/Group/Commits.antt =====
-- Who may commit an offset: `ValidateCommit`.
use distributed_real_time_ev.Base.{
  ℕ, ℤ, pos, ◌<◌, Time, true, String, ◌==◌, ==_iff, string_comparable, int_comparable, none, some,
  length, In, List, [], ◌∷◌, ◌≡◌, ◌↔◌, refl, sym, subst, ap, ◌∙◌, inl, inr, Bool-cases, arith,
}
use distributed_real_time_ev.Coordinator.Assign.{owned}
use distributed_real_time_ev.Coordinator.Assign.Shares.{assign-SharesOut}
use distributed_real_time_ev.Coordinator.State.{GroupMember, ConsumerGroup, GroupManager}
use distributed_real_time_ev.Coordinator.Group.{
  Checked, refused, passed, check, cleaned_group, owns, validate_commit,
}
use distributed_real_time_ev.Coordinator.Group.Calls.{AllInv}
use distributed_real_time_ev.Coordinator.Group.Checks.{
  Passes, check-Passes, Passes-check, passed-Inv,
}

owns-In : (ps : List ℕ) (p : ℕ) → (owns ps (pos p) ≡ true) ↔ In p ps
unfolding owns
owns-In [] p = ((λ h. absurd (cc h)), (λ h. elim h [ ]))
owns-In (q ∷ ps) p = elim (Bool-cases (pos q == pos p)) [
  | inl e ↦ (
    (λ h. let k : pos q ≡ pos p = (==_iff (pos q) (pos p)).0 e in let l : q ≡ p = cc k in inl l),
    (λ h. rw e refl),
  )
  | inr e ↦ (
    (λ h. inr ((owns-In ps p).0 (rw e at h))),
    (λ h. elim h [
      | inl k ↦ absurd (cc (e, (==_iff (pos q) (pos p)).1 (ap pos k)))
      | inr k ↦ rw e ((owns-In ps p).1 k)
    ]),
  )
]

module _ (gm : GroupManager) (name topic id : String) (generation : ℤ) (now : Time)
    (partition : ℕ) where
  -- A commit is let through just when the group is there for the topic and, once the expired
  -- members are gone, the generation is the group's, the consumer is still a member, and it owns
  -- the partition.
  pub validate_commit_lem :
      ((validate_commit gm name topic id generation (pos partition) now).1 ≡ none) ↔ (
        (group : ConsumerGroup) × (member : GroupMember) × Passes gm name topic id generation now
          group member
        × In partition (owned id group.assignments))
  unfolding validate_commit
  validate_commit_lem = (accepted (check gm name topic id generation now).1 refl, right)
    where
      accepted :
          (c : Checked)
          → (check gm name topic id generation now).1 ≡ c
          → (validate_commit gm name topic id generation (pos partition) now).1 ≡ none
          → (group : ConsumerGroup) × (member : GroupMember) × Passes gm name topic id generation
              now group member
            × In partition (owned id group.assignments)
      accepted (refused err) e h =
          let k : some err ≡ none = rw (validate_commit, e) at h in absurd (cc k)
      accepted (passed g m) e h = (
        g,
        m,
        check-Passes gm name topic id generation now g m e,
        elim (Bool-cases (owns (owned id g.assignments) (pos partition))) [
          | inl o ↦ (owns-In (owned id g.assignments) partition).0 o
          | inr o ↦
              let k : some "partition not assigned to member" ≡ none =
                rw (validate_commit, e, o) at h in
              absurd (cc k)
        ],
      )

      right :
          (group : ConsumerGroup) × (member : GroupMember) × Passes gm name topic id generation now
              group member
            × In partition (owned id group.assignments)
          → (validate_commit gm name topic id generation (pos partition) now).1 ≡ none
      right (g, m, p, o) =
          rw
            (
              validate_commit,
              Passes-check gm name topic id generation now g m p,
              (owns-In (owned id g.assignments) partition).1 o,
            )
            refl

-- In one state of a manager that satisfies the invariant, at one time, two consumers whose commits
-- for the same group, topic and partition are both let through are the same consumer.
pub validate_commit-Exclusive :
    (n : ℕ) (gm : GroupManager) (name topic id j : String) (g h : ℤ) (partition : ℕ) (now : Time)
    → AllInv n gm
    → (validate_commit gm name topic id g (pos partition) now).1 ≡ none
    → (validate_commit gm name topic j h (pos partition) now).1 ≡ none
    → id ≡ j
validate_commit-Exclusive n gm name topic id j g h partition now i a b =
    let (x, m, p, o) = (validate_commit_lem gm name topic id g now partition).0 a in
    let (y, k, q, r) = (validate_commit_lem gm name topic j h now partition).0 b in
    let stored : some p.before ≡ some q.before = sym p.there ∙ q.there in
    let same : p.before ≡ q.before = cc stored in
    let group : x ≡ y =
      sym p.cleaned
      ∙ ap (λ z. cleaned_group gm.num_partitions gm.session_timeout now z) same
      ∙ q.cleaned in
    let inv = passed-Inv gm name topic id g now n x m i p in
    let shares =
      assign-SharesOut n x.assignor x.member_order
        (nonempty x.member_order id (inv.agree.from_map id (m, p.member_there)))
        inv.agree.distinct in
    shares.exclusive partition id j (subst (λ z. In partition (owned id z)) inv.assigned o)
      (subst (λ z. In partition (owned j z)) (ap (λ z. z.assignments) (sym group) ∙ inv.assigned) r)
  where
    nonempty : (l : List String) (x : String) → In x l → 0 < length l
    nonempty [] x k = elim k [ ]
    nonempty (y ∷ l) x k = omega arith
