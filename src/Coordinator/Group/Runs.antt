-- ===== src/Coordinator/Group/Runs.antt =====
-- Any sequence of calls keeps the invariant of every group.
use distributed_real_time_ev.Base.{
  ℕ, ℤ, Time, String, string_comparable, int_comparable, none, some, List, [], ◌∷◌, ◌≡◌, refl, sym,
  subst, if◌then◌else◌,
}
use distributed_real_time_ev.Coordinator.Assign.{owned}
use distributed_real_time_ev.Coordinator.State.{
  GroupMember, ConsumerGroup, GroupManager, Save, absent, save_locked, new_group_manager,
}
use distributed_real_time_ev.Coordinator.Group.{
  store_group, ensured_group, cleanup_expired, Checked, refused, passed, check, touched, joined,
  left, join_group, leave_group, sync_error, synced, join_result, owns, sync_group, heartbeat,
  validate_commit,
}
use distributed_real_time_ev.Coordinator.Group.Invariant.{Inv, joined-Inv, touched-Inv, left-Inv}
use distributed_real_time_ev.Coordinator.Group.Calls.{
  AllInv, save_locked-AllInv, store_group-AllInv, ensured_group-Inv, cleanup_expired-Inv,
}
use distributed_real_time_ev.Coordinator.Group.Checks.{
  check-AllInv, check-Passes, passed-Inv, Passes,
}

-- A call, with the times that it reads.
pub data Call : Type 0 where
  join : String → String → String → String → Time → Call
  leave : String → String → String → ℤ → Time → Call
  sync : String → String → String → ℤ → Time → Time → Call
  beat : String → String → String → ℤ → Time → Time → Call
  commit : String → String → String → ℤ → ℤ → Time → Call

unfoldable pub step : GroupManager → Call → GroupManager
step gm (join name topic id assignor now) = (join_group gm name topic id assignor now).0
step gm (leave name topic id generation now) = (leave_group gm name topic id generation now).0
step gm (sync name topic id generation now later) =
    (sync_group gm name topic id generation now later).0
step gm (beat name topic id generation now later) =
    (heartbeat gm name topic id generation now later).0
step gm (commit name topic id generation partition now) =
    (validate_commit gm name topic id generation partition now).0

unfoldable pub run : GroupManager → List Call → GroupManager
run gm [] = gm
run gm (call ∷ calls) = run (step gm call) calls

module _ (n : ℕ) where
  join_group-AllInv :
      (gm : GroupManager) (name topic id assignor : String) (now : Time)
      → AllInv n gm
      → AllInv n (join_group gm name topic id assignor now).0
  unfolding join_group
  join_group-AllInv gm name topic id assignor now i =
      let group = ensured_group gm name topic assignor in
      let h = ensured_group-Inv n name gm topic assignor i in
      let (i₁, h₁) =
        cleanup_expired-Inv n name (store_group gm name group) group now
          (store_group-AllInv n name gm group i h) h in
      save_locked-AllInv n name _ (
        store_group-AllInv n name _ _ i₁ (
          subst
            (λ k.
              Inv n
                (joined k (cleanup_expired (store_group gm name group) name group now).1 id now))
            (sym i.partitions) (joined-Inv n _ id now h₁)))

  -- The rest of a call that passes the checks.
  after :
      {R : Type 0} (error : String → R) (gm : GroupManager) (name topic id : String)
      (generation : ℤ) (now : Time)
      (work : GroupManager → ConsumerGroup → GroupMember → GroupManager × R)
      → AllInv n gm
      → ((gm₁ : GroupManager) (g : ConsumerGroup) (m : GroupMember)
          → Passes gm name topic id generation now g m
          → AllInv n gm₁
          → Inv n g
          → AllInv n (work gm₁ g m).0)
      → (let done : GroupManager × R = elim (check gm name topic id generation now).1 [
        | refused err ↦ ((check gm name topic id generation now).0, error err)
        | passed g m ↦ work (check gm name topic id generation now).0 g m
      ] in
          AllInv n done.0)
  after {R} error gm name topic id generation now work i f =
      cases (check gm name topic id generation now).1 refl
    where
      cases :
          (c : Checked)
          → (check gm name topic id generation now).1 ≡ c
          → (let done : GroupManager × R = elim c [
            | refused err ↦ ((check gm name topic id generation now).0, error err)
            | passed g m ↦ work (check gm name topic id generation now).0 g m
          ] in
              AllInv n done.0)
      cases (refused err) e = check-AllInv gm name topic id generation now n i
      cases (passed g m) e =
          let p = check-Passes gm name topic id generation now g m e in
          f _ g m p (check-AllInv gm name topic id generation now n i)
            (passed-Inv gm name topic id generation now n g m i p)

  touch-AllInv :
      (gm gm₁ : GroupManager) (name topic id : String) (generation : ℤ) (now later : Time)
      (g : ConsumerGroup) (m : GroupMember)
      → Passes gm name topic id generation now g m
      → AllInv n gm₁
      → Inv n g
      → AllInv n (save_locked (store_group gm₁ name (touched g id m later)))
  touch-AllInv gm gm₁ name topic id generation now later g m p i h =
      save_locked-AllInv n name _
        (store_group-AllInv n name gm₁ _ i (touched-Inv n g id m later p.member_there h))

  pub step-AllInv : (gm : GroupManager) (call : Call) → AllInv n gm → AllInv n (step gm call)
  unfolding step leave_group sync_group heartbeat validate_commit
  step-AllInv gm (join name topic id assignor now) i =
      join_group-AllInv gm name topic id assignor now i
  step-AllInv gm (leave name topic id generation now) i =
      after some gm name topic id generation now
        (λ x y z. (save_locked (store_group x name (left gm.num_partitions y id)), none)) i
        (λ gm₁ g m p i₁ h. save_locked-AllInv n name _ (
          store_group-AllInv n name gm₁ _ i₁
            (subst (λ k. Inv n (left k g id)) (sym i.partitions) (left-Inv n g id h))))
  step-AllInv gm (sync name topic id generation now later) i =
      after sync_error gm name topic id generation now
        (λ x y z.
          let group' = touched y id z later in
          (save_locked (store_group x name group'), synced (join_result group' id)))
        i (λ gm₁ g m p i₁ h. touch-AllInv gm gm₁ name topic id generation now later g m p i₁ h)
  step-AllInv gm (beat name topic id generation now later) i =
      after some gm name topic id generation now
        (λ x y z. (save_locked (store_group x name (touched y id z later)), none)) i
        (λ gm₁ g m p i₁ h. touch-AllInv gm gm₁ name topic id generation now later g m p i₁ h)
  step-AllInv gm (commit name topic id generation partition now) i =
      after some gm name topic id generation now
        (λ x y z. (
          x,
          (if owns (owned id y.assignments) partition
              then none
              else some "partition not assigned to member"),
        ))
        i (λ gm₁ g m p i₁ h. i₁)

run-AllInv : (n : ℕ) (gm : GroupManager) (calls : List Call) → AllInv n gm → AllInv n (run gm calls)
unfolding run
run-AllInv n gm [] i = i
run-AllInv n gm (call ∷ calls) i = run-AllInv n (step gm call) calls (step-AllInv n gm call i)

-- Start a manager with no file and make any calls, at any times and with any answers of the
-- operating system. Then in every group the order of joining names different members, just those of
-- the member map, and the assignments are those that the assignor makes for the order.
pub run-new_group_manager-AllInv :
    (n : ℕ) (saves : List Save) (calls : List Call)
    → AllInv n (run (new_group_manager n absent saves) calls)
run-new_group_manager-AllInv n saves calls =
    run-AllInv n _ calls (unfold new_group_manager in record { partitions = refl; groups = tt })
