-- ===== src/Storage/State.antt =====
-- core/internal/storage/storage.go: the state of the storage. A map from topics to maps from
-- partitions is a map from pairs of a topic and a partition.
use distributed_real_time_ev.Base.{
  ℕ, ℤ, pos, ◌+ℤ◌, int64, Time, Bool, true, ◌&&◌, ◌==◌, ==_iff, String, string_comparable,
  int_comparable, Comparable, Option, none, some, List, [], ◌∷◌, ◌≡◌, ◌↔◌, arith,
}
use distributed_real_time_ev.Base.Map
use distributed_real_time_ev.Base.Map.{Map}
use distributed_real_time_ev.Storage.Record.{Message}
use distributed_real_time_ev.Storage.World.{World, now}

-- A topic and a partition.
pub record Key : Type 0 where
  pub topic : String
  pub partition : ℤ

abbrev same_key : Key → Key → Bool
same_key k j = k.topic == j.topic && k.partition == j.partition

pub same_key_iff : (k j : Key) → (same_key k j ≡ true) ↔ (k ≡ j)
same_key_iff k j = ground (arith, ==_iff k.topic j.topic, ==_iff k.partition j.partition)

instance abbrev pub key_comparable : Comparable Key
key_comparable = record { same = same_key; same_iff = same_key_iff }

pub record PartitionState : Type 0 where
  pub next_offset : ℤ
  pub active_segment_id : ℤ
  pub segments : List ℤ
  pub last_fsync_at : Time
  pub pending_bytes : ℤ

pub record Storage : Type 0 where
  pub data_of : Map Key (List Message)
  pub num_partitions : ℤ
  pub segment_max_bytes : ℤ
  pub retention_max_bytes : ℤ
  pub retention_max_age : ℤ
  pub flush_interval : ℤ
  pub flush_bytes : ℤ
  pub fsync_mode : String
  pub partition_state : Map Key PartitionState
  pub local_replica_count : ℕ
  pub world : World

abbrev pub or_none : Option (List Message) → List Message
or_none none = []
or_none (some ms) = ms

-- s.data[topic][partition], empty where there is none.
abbrev pub messages : Storage → Key → List Message
messages s k = or_none (Map.lookup k s.data_of)

unfoldable pub put_messages : Storage → Key → List Message → Storage
put_messages s k ms = record s { data_of = Map.insert k ms s.data_of }

-- A write through the pointer that the map holds.
unfoldable pub put_state : Storage → Key → PartitionState → Storage
put_state s k st = record s { partition_state = Map.insert k st s.partition_state }

unfoldable pub put_world : Storage → World → Storage
put_world s w = record s { world = w }

-- st.nextOffset + 1, segmentID + 1
abbrev pub next : ℤ → ℤ
next n = int64 (n +ℤ pos 1)

-- The state of a partition that is new, and the storage that holds it.
unfoldable pub created : Storage → Key → PartitionState × Storage
created s k =
    let (t, w) = now s.world in
    let st : PartitionState = record {
      next_offset = pos 0;
      active_segment_id = pos 0;
      segments = pos 0 ∷ [];
      last_fsync_at = t;
      pending_bytes = pos 0;
    } in
    (st, put_state (put_world s w) k st)

-- `ensurePartitionState`: the state, and the storage that holds it.
unfoldable pub ensure_partition_state : Storage → Key → PartitionState × Storage
ensure_partition_state s k = elim (Map.lookup k s.partition_state) [
  | some st ↦ (st, s)
  | none ↦ created s k
]
