-- ===== src/Coordinator/State.antt =====
-- core/internal/coordinator/group.go: the state of the group manager and its file, groups.json. The
-- JSON encoding is Go's: names are taken to be valid UTF-8, and then decoding inverts encoding.
pub mod Saving
use distributed_real_time_ev.Base.{
  ℕ, ℤ, pos, negsuc, ◌+ℤ◌, leb_ℤ, ltb_ℤ, int64, Time, time_sub, unix_milli, from_unix_milli, Bool,
  true, false, not, ◌&&◌, ◌||◌, ◌==◌, String, string_comparable, int_comparable, Option, none, some,
  List, [], ◌∷◌, ◌++◌, filterb, if◌then◌else◌,
}
use distributed_real_time_ev.Base.Map
use distributed_real_time_ev.Base.Map.{Map}
use distributed_real_time_ev.Coordinator.Assign.{Assignments}

pub record GroupMember : Type 0 where
  pub consumer_id : String
  pub last_heartbeat : Time

pub record ConsumerGroup : Type 0 where
  pub name : String
  pub topic : String
  pub generation : ℤ
  pub assignor : String
  pub members : Map String GroupMember
  pub member_order : List String
  pub assignments : Assignments

pub record PersistedGroupMember : Type 0 where
  pub consumer_id : String
  pub last_heartbeat : ℤ

pub record PersistedGroupState : Type 0 where
  pub topic : String
  pub generation : ℤ
  pub assignor : String
  pub member_order : List String
  pub assignments : Assignments
  pub members : List PersistedGroupMember

-- groups.json: absent, cut off by a failed write, or the encoding of a value that decoding returns.
pub data File : Type 0 where
  absent : File
  corrupt : File
  holds : Map String PersistedGroupState → File

-- How the operating system answers one call of `saveLocked`.
pub data Save : Type 0 where
  saved no_directory no_file bad_encode : Save

pub record GroupManager : Type 0 where
  pub num_partitions : ℕ
  pub session_timeout : ℤ
  pub groups : Map String ConsumerGroup
  pub file : File
  -- the answers to come; after these every call is `saved`
  pub saves : List Save

pub record JoinResult : Type 0 where
  pub generation : ℤ
  pub assigned : List ℕ

-- The members of the loop in `saveLocked`: those of `memberOrder` that the map has.
unfoldable pub persisted_members : Map String GroupMember → List String → List PersistedGroupMember
persisted_members members [] = []
persisted_members members (id ∷ order) =
    let rest = persisted_members members order in
    elim (Map.lookup id members) [
      | none ↦ rest
      | some m ↦
          record { consumer_id = m.consumer_id; last_heartbeat = unix_milli m.last_heartbeat }
          ∷ rest
    ]

unfoldable pub persisted_group : ConsumerGroup → PersistedGroupState
persisted_group group = record {
  topic = group.topic;
  generation = group.generation;
  assignor = group.assignor;
  member_order = group.member_order;
  assignments = group.assignments;
  members = persisted_members group.members group.member_order;
}

unfoldable pub persisted : Map String ConsumerGroup → Map String PersistedGroupState
persisted [] = []
persisted ((name, group) ∷ rest) = (name, persisted_group group) ∷ persisted rest

unfoldable pub written : GroupManager → Save → List Save → GroupManager
written gm saved rest = record gm { file = holds (persisted gm.groups); saves = rest }
written gm bad_encode rest = record gm { file = corrupt; saves = rest }
written gm _ rest = record gm { saves = rest }

unfoldable pub save_locked : GroupManager → GroupManager
unfolding written
save_locked gm = elim gm.saves [ [] ↦ written gm saved [] | s ∷ rest ↦ written gm s rest ]

pub loaded_members : List PersistedGroupMember → Map String GroupMember → Map String GroupMember
loaded_members [] members = members
loaded_members (pm ∷ rest) members = loaded_members rest (
    Map.insert pm.consumer_id
      (record { consumer_id = pm.consumer_id; last_heartbeat = from_unix_milli pm.last_heartbeat })
      members)

pub loaded_group : String → PersistedGroupState → ConsumerGroup
loaded_group name state = record {
  name = name;
  topic = state.topic;
  generation = if leb_ℤ state.generation (pos 0) then pos 1 else state.generation;
  assignor = if state.assignor == "" then "round_robin" else state.assignor;
  members = loaded_members state.members [];
  member_order = state.member_order;
  assignments = state.assignments;
}

pub loaded : Map String PersistedGroupState → Map String ConsumerGroup
loaded [] = []
loaded ((name, state) ∷ rest) = (name, loaded_group name state) ∷ loaded rest

-- `NewGroupManager` on what the data directory holds.
unfoldable pub new_group_manager : ℕ → File → List Save → GroupManager
new_group_manager num_partitions file saves = record {
  num_partitions = num_partitions;
  session_timeout = pos 10000000000;
  groups = elim file [ absent ↦ [] | corrupt ↦ [] | holds state ↦ loaded state ];
  file = file;
  saves = saves;
}
