-- ===== src/Replication/Partition.antt =====
-- core/internal/replication/manager.go: the state of one partition and `recomputeLocked`, which
-- derives the in-sync replicas and the high watermark from it.
pub mod Watermark
pub mod Isr
mod Examples
use distributed_real_time_ev.Base.{
  ℕ, ◌+◌, ◌-◌, ℤ, pos, negsuc, pos_part, ◌-ℤ◌, leb_ℤ, ltb_ℤ, int64, Time, is_zero, time_sub, Bool,
  false, not, ◌&&◌, String, List, [], ◌∷◌, length, if◌then◌else◌,
}
use distributed_real_time_ev.Base.Map.{Map}

-- Durations are in nanoseconds.
pub record Config : Type 0 where
  pub replication_factor : ℤ
  pub min_in_sync_replicas : ℤ
  pub max_replica_lag : ℤ
  pub replica_lag_timeout : ℤ
  pub ack_all_timeout : ℤ

pub record ReplicaState : Type 0 where
  pub offset : ℤ
  pub last_seen : Time
  pub in_sync : Bool

pub record PartitionState : Type 0 where
  pub role : String
  pub leader_offset : ℤ
  pub high_watermark : ℤ
  pub followers : Map ℤ ReplicaState

pub record Status : Type 0 where
  pub topic : String
  pub partition : ℤ
  pub role : String
  pub leader_offset : ℤ
  pub high_watermark : ℤ
  pub in_sync_replicas : List ℤ
  pub under_replicated : Bool
  pub replication_factor : ℤ

-- A follower was seen within the lag timeout.
unfoldable pub fresh : Config → Time → ReplicaState → Bool
fresh cfg now r =
    not (is_zero r.last_seen) && leb_ℤ (time_sub now r.last_seen) cfg.replica_lag_timeout

-- The loop's body: the follower's flag.
unfoldable pub refresh : Config → ℤ → Time → ReplicaState → ReplicaState
refresh cfg leader_offset now r =
    let lag = int64 (leader_offset -ℤ r.offset) in
    record r { in_sync = fresh cfg now r && leb_ℤ lag cfg.max_replica_lag }

unfoldable pub refresh_all : Config → ℤ → Time → Map ℤ ReplicaState → Map ℤ ReplicaState
refresh_all cfg leader_offset now [] = []
refresh_all cfg leader_offset now ((id, r) ∷ rest) =
    (id, refresh cfg leader_offset now r) ∷ refresh_all cfg leader_offset now rest

-- The offsets that the loop appends to `isrOffsets`.
unfoldable pub in_sync_offsets : Map ℤ ReplicaState → List ℤ
in_sync_offsets [] = []
in_sync_offsets ((id, r) ∷ rest) =
    let offsets = in_sync_offsets rest in if r.in_sync then r.offset ∷ offsets else offsets

-- The loop that lowers `hw`.
unfoldable pub min_offset : ℤ → List ℤ → ℤ
min_offset hw [] = hw
min_offset hw (off ∷ rest) = min_offset (if ltb_ℤ off hw then off else hw) rest

-- `recomputeLocked`: the new state and `isrSize`, which the alert hook is told.
unfoldable pub recompute : Config → Time → PartitionState → PartitionState × ℕ
recompute cfg now ps =
    let followers = refresh_all cfg ps.leader_offset now ps.followers in
    let isr_offsets = ps.leader_offset ∷ in_sync_offsets followers in
    let hw = min_offset ps.leader_offset isr_offsets in
    (
      record ps {
        high_watermark = if ltb_ℤ hw (negsuc 0) then negsuc 0 else hw;
        followers = followers;
      },
      length isr_offsets,
    )

unfoldable pub in_sync_ids : Config → Time → Map ℤ ReplicaState → List ℤ
in_sync_ids cfg now [] = []
in_sync_ids cfg now ((id, r) ∷ rest) =
    let ids = in_sync_ids cfg now rest in
    if r.in_sync && leb_ℤ (time_sub now r.last_seen) cfg.replica_lag_timeout then id ∷ ids else ids

unfoldable pub status_locked : Config → String → ℤ → PartitionState → Time → Status
status_locked cfg topic partition ps now =
    let isr = pos 0 ∷ in_sync_ids cfg now ps.followers in
    record {
      topic = topic;
      partition = partition;
      role = ps.role;
      leader_offset = ps.leader_offset;
      high_watermark = ps.high_watermark;
      in_sync_replicas = isr;
      under_replicated = ltb_ℤ (pos (length isr)) cfg.min_in_sync_replicas;
      replication_factor = cfg.replication_factor;
    }
