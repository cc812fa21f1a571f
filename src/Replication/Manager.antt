-- ===== src/Replication/Manager.antt =====
-- core/internal/replication/manager.go: the replication manager. Each method takes the times that
-- its calls of `time.Now` return, in their order, and returns the new manager beside its result.
-- The calls of the alert hook are kept in `alerts`, the last one first.
mod Store
pub mod Updates
pub mod Calls
pub mod Invariant
pub mod Acks
pub mod AckAll
pub mod Roles
mod Examples
use distributed_real_time_ev.Base.{
  ℕ, zero, suc, ◌+◌, ◌-◌, ℤ, pos, negsuc, pos_part, ◌+ℤ◌, leb_ℤ, ltb_ℤ, int64, Time, Bool, true,
  false, not, ◌&&◌, ◌||◌, ◌==◌, String, string_comparable, int_comparable, Option, none, some, List,
  [], ◌∷◌, length, if◌then◌else◌,
}
use distributed_real_time_ev.Base.Map
use distributed_real_time_ev.Base.Map.{Map}
use distributed_real_time_ev.Replication.Partition.{
  Config, ReplicaState, PartitionState, Status, recompute, status_locked,
}

-- One call of the alert hook.
pub record Alert : Type 0 where
  pub topic : String
  pub partition : ℤ
  pub under_replicated : Bool
  pub isr_size : ℕ

pub record Manager : Type 0 where
  pub cfg : Config
  pub partitions : Map String (Map ℤ PartitionState)
  pub alert_hook : Bool
  pub alerts : List Alert

-- The range checks of `NewManager`.
unfoldable pub normalise : Config → Config
normalise cfg =
    let rf = if ltb_ℤ cfg.replication_factor (pos 1) then pos 1 else cfg.replication_factor in
    let min = if ltb_ℤ cfg.min_in_sync_replicas (pos 1) then pos 1 else cfg.min_in_sync_replicas in
    record {
      replication_factor = rf;
      min_in_sync_replicas = if ltb_ℤ rf min then rf else min;
      max_replica_lag = if ltb_ℤ cfg.max_replica_lag (pos 0) then pos 0 else cfg.max_replica_lag;
      replica_lag_timeout =
          if leb_ℤ cfg.replica_lag_timeout (pos 0)
          then pos 10000000000
          else cfg.replica_lag_timeout;
      ack_all_timeout =
          if leb_ℤ cfg.ack_all_timeout (pos 0) then pos 2000000000 else cfg.ack_all_timeout;
    }

unfoldable pub new_manager : Config → Bool → Manager
unfolding normalise
new_manager cfg hook = record {
  cfg = normalise cfg;
  partitions = [];
  alert_hook = hook;
  alerts = [];
}

-- for id := 1; id < ReplicationFactor; id++
unfoldable pub seed_followers : ℕ → ℕ → Map ℤ ReplicaState → Map ℤ ReplicaState
seed_followers zero id followers = followers
seed_followers (suc n) id followers =
    seed_followers n (id + 1)
      (Map.insert (pos id) (record { offset = negsuc 0; last_seen = 0; in_sync = false }) followers)

unfoldable pub new_partition : Config → PartitionState
new_partition cfg = record {
  role = "leader";
  leader_offset = negsuc 0;
  high_watermark = negsuc 0;
  followers = seed_followers (pos_part cfg.replication_factor - 1) 1 [];
}

abbrev pub or_empty : Option (Map ℤ PartitionState) → Map ℤ PartitionState
or_empty none = []
or_empty (some ps) = ps

-- m.partitions[topic], or an empty map.
unfoldable pub topic_partitions : Manager → String → Map ℤ PartitionState
topic_partitions m topic = or_empty (Map.lookup topic m.partitions)

-- A write through the pointer that `ensurePartition` returns.
unfoldable pub store : Manager → String → ℤ → PartitionState → Manager
store m topic partition ps = record m {
  partitions = Map.insert topic (Map.insert partition ps (topic_partitions m topic)) m.partitions;
}

unfoldable pub ensure_partition : Manager → String → ℤ → Manager × PartitionState
ensure_partition m topic partition = elim (Map.lookup partition (topic_partitions m topic)) [
  | some ps ↦ (m, ps)
  | none ↦ let ps = new_partition m.cfg in (store m topic partition ps, ps)
]

-- `recomputeLocked` on a partition of the manager, with the alert that it raises.
unfoldable pub recompute_locked :
    Manager → String → ℤ → PartitionState → Time → Manager × PartitionState
recompute_locked m topic partition ps now =
    let (ps', isr_size) = recompute m.cfg now ps in
    let alert : Alert = record {
      topic = topic;
      partition = partition;
      under_replicated = ltb_ℤ (pos isr_size) m.cfg.min_in_sync_replicas;
      isr_size = isr_size;
    } in
    (
      record (store m topic partition ps') {
        alerts = if m.alert_hook then alert ∷ m.alerts else m.alerts;
      },
      ps',
    )

-- m.partitions[topic][partition], with its `ok`.
abbrev pub find : Manager → String → ℤ → Option PartitionState
find m topic partition = Map.lookup partition (topic_partitions m topic)

unfoldable pub on_leader_append : Manager → String → ℤ → ℤ → Time → Manager
on_leader_append m topic partition offset now =
    let (m₁, ps) = ensure_partition m topic partition in
    if not (ps.role == "leader")
    then m₁
    else (let lead = if ltb_ℤ ps.leader_offset offset then offset else ps.leader_offset in
        (recompute_locked m₁ topic partition (record ps { leader_offset = lead }) now).0)

-- The change that `AckReplica` makes to the follower's state, `capped` at the leader's offset.
pub acked : ReplicaState → ℤ → Time → ReplicaState
acked r capped seen = record r {
  offset = if ltb_ℤ r.offset capped then capped else r.offset;
  last_seen = seen;
}

-- `AckReplica` from the partition that `ensurePartition` has returned.
pub ack_ensured :
    Manager → PartitionState → String → ℤ → ℤ → ℤ → Time → Time → Manager × Option String
ack_ensured m ps topic partition replica_id offset seen now =
    if not (ps.role == "leader")
    then (m, some "partition is not leader")
    else elim (Map.lookup replica_id ps.followers) [
      | none ↦ (m, some "replica id not configured")
      | some r ↦
          let capped = if ltb_ℤ ps.leader_offset offset then ps.leader_offset else offset in
          let ps' = record ps {
            followers = Map.insert replica_id (acked r capped seen) ps.followers;
          } in
          ((recompute_locked m topic partition ps' now).0, none)
    ]

pub ack_replica : Manager → String → ℤ → ℤ → ℤ → Time → Time → Manager × Option String
ack_replica m topic partition replica_id offset seen now =
    if leb_ℤ replica_id (pos 0) || leb_ℤ m.cfg.replication_factor replica_id
    then (m, some "invalid replica id")
    else (let (m₁, ps) = ensure_partition m topic partition in
        ack_ensured m₁ ps topic partition replica_id offset seen now)

pub high_watermark : Manager → String → ℤ → Time → Manager × ℤ
high_watermark m topic partition now =
    let (m₁, ps) = ensure_partition m topic partition in
    let (m₂, ps') = recompute_locked m₁ topic partition ps now in (m₂, ps'.high_watermark)

unfoldable pub is_leader : Manager → String → ℤ → Manager × Bool
is_leader m topic partition =
    let (m₁, ps) = ensure_partition m topic partition in (m₁, ps.role == "leader")

-- for _, r := range ps.followers { r.inSync = false }
pub clear_in_sync : Map ℤ ReplicaState → Map ℤ ReplicaState
clear_in_sync [] = []
clear_in_sync ((id, r) ∷ rest) = (id, record r { in_sync = false }) ∷ clear_in_sync rest

pub assume_role : PartitionState → String → PartitionState
assume_role ps role =
    if role == "follower"
    then record ps {
      role = role;
      high_watermark = negsuc 0;
      followers = clear_in_sync ps.followers;
    }
    else record ps { role = role }

pub set_role : Manager → String → ℤ → String → Time → Manager × Option String
set_role m topic partition role now =
    if not (role == "leader") && not (role == "follower")
    then (m, some "invalid role")
    else (let (m₁, ps) = ensure_partition m topic partition in
        ((recompute_locked m₁ topic partition (assume_role ps role) now).0, none))

pub bootstrapped : PartitionState → ℤ → PartitionState
bootstrapped ps offset =
    let lead = if ltb_ℤ ps.leader_offset offset then offset else ps.leader_offset in
    let hw = if ps.role == "follower" then offset else ps.high_watermark in
    record ps { leader_offset = lead; high_watermark = hw }

pub bootstrap_offset : Manager → String → ℤ → ℤ → Time → Manager
bootstrap_offset m topic partition offset now =
    let (m₁, ps) = ensure_partition m topic partition in
    (recompute_locked m₁ topic partition (bootstrapped ps offset) now).0

unfoldable pub status : Manager → String → ℤ → Time → Manager × Status
status m topic partition now =
    let (m₁, ps) = ensure_partition m topic partition in
    let (m₂, ps') = recompute_locked m₁ topic partition ps now in
    (m₂, status_locked m₁.cfg topic partition ps' now)
