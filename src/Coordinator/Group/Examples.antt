-- ===== src/Coordinator/Group/Examples.antt =====
-- The calls on concrete groups.
use distributed_real_time_ev.Base.{
  pos, time_sub, true, false, String, ◌==◌, ==_iff, string_comparable, int_comparable, none, some,
  In, Distinct, List, [], ◌∷◌, ◌≡◌, ◌↔◌, refl, inl, inr, arith, int64, ◌+ℤ◌, ◌-ℤ◌,
}
use distributed_real_time_ev.Base.Map
use distributed_real_time_ev.Coordinator.Assign.{
  assign, place, sort, deal, assign_round_robin, owned,
}
use distributed_real_time_ev.Coordinator.Assign.Shares.{assign-SharesOut}
use distributed_real_time_ev.Coordinator.Assign.RoundRobin.{SharesOut}
use distributed_real_time_ev.Coordinator.State.{
  GroupMember, ConsumerGroup, GroupManager, no_file, absent, save_locked, written, persisted,
  persisted_group, persisted_members, new_group_manager,
}
use distributed_real_time_ev.Coordinator.Group.{
  expired, sweep, swept, cleaned_group, cleanup_expired, store_group, ensured_group, retopic,
  reassign, new_group, rebalance, touched, joined, check, member_check, owns, join_group,
  validate_commit,
}
use distributed_real_time_ev.Coordinator.Group.Invariant.{Inv, new_group-Inv, joined-Inv}
use distributed_real_time_ev.Coordinator.Group.Sweep.{cleaned_group-members}
use distributed_real_time_ev.Coordinator.Group.Calls.{AllInv}
use distributed_real_time_ev.Coordinator.Group.Checks.{Passes}
use distributed_real_time_ev.Coordinator.Group.Runs.{
  Call, join, run, step, run-new_group_manager-AllInv,
}
use distributed_real_time_ev.Coordinator.Group.Commits.{
  validate_commit_lem, validate_commit-Exclusive,
}

abbrev pub two_joins : List Call
two_joins = join "g" "t" "b" "" 0 ∷ join "g" "t" "a" "" 1000 ∷ []

ids_differ : Distinct {A = String} ("b" ∷ "a" ∷ [])
ids_differ = (
  (λ h. elim h [
    | inl e ↦ let k : ◌==◌ {K = String} "a" "b" ≡ true = (==_iff "a" "b").1 e in absurd (cc k)
    | inr k ↦ k
  ]),
  ((λ h. h), tt),
)

assign-SharesOut_example : SharesOut 5 ("b" ∷ "a" ∷ []) (assign 5 "range" ("b" ∷ "a" ∷ []))
assign-SharesOut_example = assign-SharesOut 5 "range" ("b" ∷ "a" ∷ []) (omega arith) ids_differ

run-new_group_manager-AllInv_example :
    AllInv 4 (run (new_group_manager 4 absent (no_file ∷ [])) two_joins)
run-new_group_manager-AllInv_example = run-new_group_manager-AllInv 4 (no_file ∷ []) two_joins

abbrev pub manager : GroupManager
manager = run (new_group_manager 4 absent []) two_joins

pub owner : (validate_commit manager "g" "t" "a" (pos 3) (pos 2) 2000).1 ≡ none
unfolding validate_commit check member_check owns run step join_group new_group_manager
    ensured_group cleanup_expired store_group Map.lookup Map.insert new_group retopic reassign
    cleaned_group swept sweep expired joined touched rebalance assign sort place assign_round_robin
    deal save_locked written persisted persisted_group persisted_members time_sub ◌-ℤ◌ int64 ◌+ℤ◌
owner = refl

manager-AllInv : AllInv 4 manager
manager-AllInv = run-new_group_manager-AllInv 4 [] two_joins

validate_commit_lem_example :
    ((validate_commit manager "g" "t" "a" (pos 3) (pos 2) 2000).1 ≡ none) ↔ (
      (group : ConsumerGroup) × (member : GroupMember) × Passes manager "g" "t" "a"
        (pos 3)
        2000
        group
        member
      × In 2 (owned "a" group.assignments))
validate_commit_lem_example = validate_commit_lem manager "g" "t" "a" (pos 3) 2000 2

validate_commit-Exclusive_example : ◌≡◌ {A = String} "a" "a"
validate_commit-Exclusive_example =
    validate_commit-Exclusive 4 manager "g" "t" "a" "a" (pos 3) (pos 3) 2 2000 manager-AllInv owner
      owner

-- A group of one member, who joined at time 0.
abbrev one_group : ConsumerGroup
one_group = joined 4 (new_group "g" "t" "") "b" 0

one_group-Inv : Inv 4 one_group
one_group-Inv = joined-Inv 4 (new_group "g" "t" "") "b" 0 (new_group-Inv 4 "g" "t" "")

abbrev member_b : GroupMember
member_b = record { consumer_id = "b"; last_heartbeat = 0 }

cleaned_group-members_example :
    (Map.lookup "b" (cleaned_group 4 (pos 10) 1000 one_group).members ≡ some member_b) ↔ (
      (Map.lookup "b" one_group.members ≡ some member_b) × (expired (pos 10) 1000 member_b ≡ false))
cleaned_group-members_example =
    cleaned_group-members 4 (pos 10) 1000 one_group one_group-Inv "b" member_b
