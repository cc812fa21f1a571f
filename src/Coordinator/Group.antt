-- ===== src/Coordinator/Group.antt =====
-- core/internal/coordinator/group.go: consumer groups. Each method takes the times that it reads
-- and returns the new manager beside its result.
pub mod Invariant
pub mod Sweep
pub mod Calls
pub mod Checks
pub mod Runs
pub mod Commits
pub mod Examples
use distributed_real_time_ev.Base.{
  ℕ, ℤ, pos, negsuc, ◌+ℤ◌, leb_ℤ, ltb_ℤ, int64, Time, time_sub, unix_milli, from_unix_milli, Bool,
  true, false, not, ◌&&◌, ◌||◌, ◌==◌, String, string_comparable, int_comparable, Option, none, some,
  List, [], ◌∷◌, ◌++◌, filterb, if◌then◌else◌,
}
use distributed_real_time_ev.Base.Map
use distributed_real_time_ev.Base.Map.{Map}
use distributed_real_time_ev.Coordinator.Assign.{Assignments, owned, assign}
use distributed_real_time_ev.Coordinator.State.{
  GroupMember, ConsumerGroup, GroupManager, JoinResult, save_locked,
}

-- group.generation++
abbrev pub bump : ℤ → ℤ
bump generation = int64 (generation +ℤ pos 1)

pub rebalance : ℕ → ConsumerGroup → ConsumerGroup
rebalance num_partitions group = record group {
  assignments = assign num_partitions group.assignor group.member_order;
}

-- A write through the pointer that the map holds.
pub store_group : GroupManager → String → ConsumerGroup → GroupManager
store_group gm name group = record gm { groups = Map.insert name group gm.groups }

pub new_group : String → String → String → ConsumerGroup
new_group name topic assignor = record {
  name = name;
  topic = topic;
  generation = pos 1;
  assignor = if assignor == "" then "round_robin" else assignor;
  members = [];
  member_order = [];
  assignments = [];
}

-- The two changes that `ensureGroupLocked` makes to a group that is there.
pub retopic : ConsumerGroup → String → ConsumerGroup
retopic group topic = if group.topic == topic then group else record group {
  topic = topic;
  members = [];
  member_order = [];
  assignments = [];
  generation = bump group.generation;
}

pub reassign : ℕ → ConsumerGroup → String → ConsumerGroup
reassign num_partitions group assignor =
    if not (assignor == "") && not (assignor == group.assignor)
    then rebalance num_partitions
        (record group { assignor = assignor; generation = bump group.generation })
    else group

pub ensured_group : GroupManager → String → String → String → ConsumerGroup
ensured_group gm name topic assignor = elim (Map.lookup name gm.groups) [
  | none ↦ new_group name topic assignor
  | some group ↦ reassign gm.num_partitions (retopic group topic) assignor
]

-- The loop of `cleanupExpiredLocked`: the maps after it, the members that stay, and `removed`.
pub record Swept : Type 0 where
  pub members : Map String GroupMember
  pub assignments : Assignments
  pub active : List String
  pub removed : Bool

pub expired : ℤ → Time → GroupMember → Bool
expired session_timeout now member = ltb_ℤ session_timeout (time_sub now member.last_heartbeat)

pub sweep : ℤ → Time → List String → Swept → Swept
sweep session_timeout now [] s = s
sweep session_timeout now (id ∷ order) s =
    sweep session_timeout now order (elim (Map.lookup id s.members) [
      | none ↦ record s { removed = true }
      | some member ↦
          if expired session_timeout now member
          then record s {
            members = Map.delete id s.members;
            assignments = Map.delete id s.assignments;
            removed = true;
          }
          else record s { active = s.active ++ id ∷ [] }
    ])

pub swept : ℤ → Time → ConsumerGroup → Swept
swept session_timeout now group = sweep session_timeout now group.member_order (record {
  members = group.members;
  assignments = group.assignments;
  active = [];
  removed = false;
})

-- The group after `cleanupExpiredLocked`.
pub cleaned_group : ℕ → ℤ → Time → ConsumerGroup → ConsumerGroup
cleaned_group num_partitions session_timeout now group =
    let s = swept session_timeout now group in
    let kept = record group {
      members = s.members;
      assignments = s.assignments;
      member_order = s.active;
    } in
    if s.removed
    then rebalance num_partitions (record kept { generation = bump group.generation })
    else kept

pub cleanup_expired : GroupManager → String → ConsumerGroup → Time → GroupManager × ConsumerGroup
cleanup_expired gm name group now =
    let group' = cleaned_group gm.num_partitions gm.session_timeout now group in
    let gm' = store_group gm name group' in
    ((if (swept gm.session_timeout now group).removed then save_locked gm' else gm'), group')

-- What the methods other than `JoinGroup` check first.
pub data Checked : Type 0 where
  refused : String → Checked
  passed : ConsumerGroup → GroupMember → Checked

member_check : ConsumerGroup → String → ℤ → Checked
member_check group id generation =
    if not (generation == group.generation)
    then refused "stale generation"
    else elim (Map.lookup id group.members) [
      | none ↦ refused "unknown member"
      | some member ↦ passed group member
    ]

-- The group must be there for the topic; then the expired members go, and the generation and the
-- member are checked against what is left.
pub check : GroupManager → String → String → String → ℤ → Time → GroupManager × Checked
check gm name topic id generation now = elim (Map.lookup name gm.groups) [
  | none ↦ (gm, refused "group not found")
  | some group ↦
      if not (group.topic == topic)
      then (gm, refused "group not found")
      else (let (gm', group') = cleanup_expired gm name group now in
          (gm', member_check group' id generation))
]

pub join_result : ConsumerGroup → String → JoinResult
join_result group id = record {
  generation = group.generation;
  assigned = owned id group.assignments;
}

pub touched : ConsumerGroup → String → GroupMember → Time → ConsumerGroup
touched group id member now = record group {
  members = Map.insert id (record member { last_heartbeat = now }) group.members;
}

pub joined : ℕ → ConsumerGroup → String → Time → ConsumerGroup
joined num_partitions group id now = elim (Map.lookup id group.members) [
  | some member ↦ touched group id member now
  | none ↦ rebalance num_partitions (record group {
    member_order = group.member_order ++ id ∷ [];
    members = Map.insert id (record { consumer_id = id; last_heartbeat = now }) group.members;
    generation = bump group.generation;
  })
]

pub left : ℕ → ConsumerGroup → String → ConsumerGroup
left num_partitions group id = rebalance num_partitions (record group {
  members = Map.delete id group.members;
  assignments = Map.delete id group.assignments;
  member_order = filterb (λ other. not (other == id)) group.member_order;
  generation = bump group.generation;
})

pub join_group : GroupManager → String → String → String → String → Time → GroupManager × JoinResult
join_group gm name topic id assignor now =
    let group = ensured_group gm name topic assignor in
    let (gm₁, group₁) = cleanup_expired (store_group gm name group) name group now in
    let group₂ = joined gm.num_partitions group₁ id now in
    (save_locked (store_group gm₁ name group₂), join_result group₂ id)

pub leave_group : GroupManager → String → String → String → ℤ → Time → GroupManager × Option String
leave_group gm name topic id generation now =
    let (gm₁, checked) = check gm name topic id generation now in
    elim checked [
      | refused err ↦ (gm₁, some err)
      | passed group member ↦
          (save_locked (store_group gm₁ name (left gm.num_partitions group id)), none)
    ]

-- `SyncGroup`, an error or the result.
pub data Synced : Type 0 where
  sync_error : String → Synced
  synced : JoinResult → Synced

pub sync_group : GroupManager → String → String → String → ℤ → Time → Time → GroupManager × Synced
sync_group gm name topic id generation now later =
    let (gm₁, checked) = check gm name topic id generation now in
    elim checked [
      | refused err ↦ (gm₁, sync_error err)
      | passed group member ↦
          let group' = touched group id member later in
          (save_locked (store_group gm₁ name group'), synced (join_result group' id))
    ]

pub heartbeat :
    GroupManager → String → String → String → ℤ → Time → Time → GroupManager × Option String
heartbeat gm name topic id generation now later =
    let (gm₁, checked) = check gm name topic id generation now in
    elim checked [
      | refused err ↦ (gm₁, some err)
      | passed group member ↦
          (save_locked (store_group gm₁ name (touched group id member later)), none)
    ]

pub owns : List ℕ → ℤ → Bool
owns [] partition = false
owns (p ∷ rest) partition = pos p == partition || owns rest partition

pub validate_commit :
    GroupManager → String → String → String → ℤ → ℤ → Time → GroupManager × Option String
unfolding owns
validate_commit gm name topic id generation partition now =
    let (gm₁, checked) = check gm name topic id generation now in
    elim checked [
      | refused err ↦ (gm₁, some err)
      | passed group member ↦ (
        gm₁,
        (if owns (owned id group.assignments) partition
            then none
            else some "partition not assigned to member"),
      )
    ]
