-- ===== src/Storage/Log.antt =====
-- core/internal/storage/storage.go: appending records and reading them. The checksum and the hash
-- of a key are parameters: crc32.ChecksumIEEE of hash/crc32, and New32a of hash/fnv.
pub mod Reading
pub mod Appending
pub mod Outcomes
pub mod Answers
pub mod Steps
pub mod Written
pub mod Replicated
pub mod Produced
pub mod Unlimited
pub mod Calm
use distributed_real_time_ev.Base.{
  ℕ, zero, suc, ◌+◌, ◌%◌, ℤ, pos, negsuc, ◌+ℤ◌, leb_ℤ, ltb_ℤ, int64, Time, time_sub, unix_milli,
  Bool, true, false, not, ◌==◌, String, string_comparable, Option, none, some, List, [], ◌∷◌, ◌++◌,
  length, drop, if◌then◌else◌,
}
use distributed_real_time_ev.Base.Map
use distributed_real_time_ev.Storage.Record.{Message, Entry, size, format_line}
use distributed_real_time_ev.Storage.World.{File, World, now, attempt, append_line}
use distributed_real_time_ev.Storage.Names.{replica_segment_path}
use distributed_real_time_ev.Storage.State.{
  Key, key_comparable, PartitionState, Storage, messages, put_messages, put_state, put_world, next,
  ensure_partition_state,
}
use distributed_real_time_ev.Storage.Retention.{
  segment_of, append_offset_index, append_timestamp_index, enforce_retention,
}

grown : ℤ → ℤ → Option File → Bool
grown max bytes none = false
grown max bytes (some f) = ltb_ℤ max (int64 (pos (size f.content) +ℤ bytes))

unfoldable pub should_rotate : Storage → Key → ℤ → ℤ → Bool
unfolding grown
should_rotate s k segment bytes =
    grown s.segment_max_bytes bytes (Map.lookup (segment_of k segment) s.world.files)

-- The partition's state when the segment to append to has been chosen.
unfoldable pub rotated : Storage → Key → PartitionState → ℤ → PartitionState
rotated s k st bytes =
    if should_rotate s k st.active_segment_id bytes
    then record st {
      active_segment_id = next st.active_segment_id;
      segments = st.segments ++ next st.active_segment_id ∷ [];
    }
    else st

-- Whether f.Sync is due in the mode `interval`. The clock is only read when the bytes do not ask for it.
due : Storage → PartitionState → Bool × World
due s st =
    if leb_ℤ s.flush_bytes st.pending_bytes
    then (true, s.world)
    else (let (t, w) = now s.world in (leb_ℤ s.flush_interval (time_sub t st.last_fsync_at), w))

-- f.Sync in the mode `interval`.
flushed : PartitionState → World → Bool × PartitionState × World
flushed st w =
    let (done, w₁) = attempt w in
    let (t, w₂) = now w₁ in
    if done
    then (true, record st { pending_bytes = pos 0; last_fsync_at = t }, w₂)
    else (false, st, w₁)

interval_policy : Storage → PartitionState → Bool × PartitionState × World
unfolding due flushed
interval_policy s st = let (is_due, w) = due s st in if is_due then flushed st w else (true, st, w)

-- Whether there was no error, and the state and the world after it.
unfoldable pub apply_fsync_policy : Storage → PartitionState → ℤ → Bool × PartitionState × World
unfolding interval_policy
apply_fsync_policy s st written =
    let (done, w) = attempt s.world in
    if s.fsync_mode == "never"
    then (true, st, s.world)
    else if s.fsync_mode == "interval"
    then interval_policy s (record st { pending_bytes = int64 (st.pending_bytes +ℤ written) })
    else (done, st, w)

-- The loop of `writeLocalReplicas`: the replicas left, and the id of the next one.
unfoldable pub replicas_from : ℕ → ℕ → World → Key → ℤ → String → World
replicas_from zero id w k segment line = w
replicas_from (suc n) id w k segment line =
    replicas_from n (id + 1)
      (append_line w (replica_segment_path k.topic k.partition (pos id) segment) line).1 k segment
      line

unfoldable pub write_local_replicas : Storage → Key → ℤ → String → Storage
unfolding replicas_from
write_local_replicas s k segment line =
    put_world s (replicas_from s.local_replica_count 1 s.world k segment line)

-- What both appends do once the line is in its segment: the indexes, the message and the next offset.
unfoldable pub remember : Storage → Key → PartitionState → Entry → Storage
remember s k st e =
    let s₁ = append_offset_index s k e.offset st.active_segment_id in
    let s₂ = append_timestamp_index s₁ k e.timestamp st.active_segment_id e.offset in
    let s₃ =
      put_messages s₂ k (messages s₂ k ++ record { offset = e.offset; value = e.value } ∷ []) in
    put_state s₃ k (record st { next_offset = next e.offset })

module _ (checksum : String → ℕ) where
  bytes_of : Entry → ℤ
  bytes_of e = pos (size (format_line checksum e))

  -- os.OpenFile and f.WriteString on the segment chosen: whether both are done, the partition's
  -- state, and the storage, which holds it.
  unfoldable pub write_segment :
      Storage → Key → PartitionState → Entry → Bool × PartitionState × Storage
  unfolding bytes_of
  write_segment s k st e =
      let st' = rotated s k st (bytes_of e) in
      let (done, w) =
        append_line s.world (segment_of k st'.active_segment_id) (format_line checksum e) in
      (done, st', put_world (put_state s k st') w)

  -- `applyFsyncPolicy` on the storage.
  unfoldable pub synced : Storage → Key → PartitionState → Entry → Bool × PartitionState × Storage
  unfolding bytes_of
  synced s k st e =
      let (done, st', w) = apply_fsync_policy s st (bytes_of e) in
      (done, st', put_world (put_state s k st') w)

  -- `ProduceToPartition` once the line is written; an error of the sync is only logged.
  unfoldable pub produced : Storage → Key → PartitionState → Entry → Storage
  produced s k st e =
      let (_, st', s₁) = synced s k st e in
      let s₂ = write_local_replicas s₁ k st'.active_segment_id (format_line checksum e) in
      enforce_retention checksum (remember s₂ k st' e)

  -- The offset that is returned, and the storage. An error of the file system is only logged.
  unfoldable pub produce_to_partition : Storage → Key → String → ℤ × Storage
  produce_to_partition s k value =
      let (st, s₁) = ensure_partition_state s k in
      let (t, w₁) = now s₁.world in
      let e : Entry = record { offset = st.next_offset; timestamp = unix_milli t; value = value } in
      let (made, w₂) = attempt w₁ in
      let (written, st', s₂) = write_segment (put_world s₁ w₂) k st e in
      (
        st.next_offset,
        (if not made then put_world s₁ w₂ else if not written then s₂ else produced s₂ k st' e),
      )

  -- `AppendReplicated` once the line is written: the error, and the storage.
  unfoldable pub replicated : Storage → Key → PartitionState → Entry → Option String × Storage
  replicated s k st e =
      let (done, st', s₁) = synced s k st e in
      if done
      then (none, enforce_retention checksum (remember s₁ k st' e))
      else (some "sync failed", s₁)

  -- `AppendReplicated` for the offset that is next.
  unfoldable pub append_next : Storage → Key → PartitionState → ℤ → String → Option String × Storage
  append_next s k st offset value =
      let (t, w₁) = now s.world in
      let e : Entry = record { offset = offset; timestamp = unix_milli t; value = value } in
      let (made, w₂) = attempt w₁ in
      let (written, st', s₂) = write_segment (put_world s w₂) k st e in
      if not made
      then (some "mkdir failed", put_world s w₂)
      else if not written
      then (some "write failed", s₂)
      else replicated s₂ k st' e

  unfoldable pub append_replicated : Storage → Key → ℤ → String → Option String × Storage
  append_replicated s k offset value =
      let (st, s₁) = ensure_partition_state s k in
      if ltb_ℤ offset st.next_offset
      then (none, s₁)
      else if ltb_ℤ st.next_offset offset
      then (some "non-contiguous replicated offset", s₁)
      else append_next s₁ k st offset value

-- The offset of the last of some messages, or -1.
unfoldable pub last_of : List Message → ℤ
last_of [] = negsuc 0
last_of (m ∷ []) = m.offset
last_of (m ∷ m' ∷ rest) = last_of (m' ∷ rest)

unfoldable pub last_offset : Storage → Key → ℤ
last_offset s k = last_of (messages s k)

-- messages[offset:], where `none` is the panic of an index below zero.
slice : ℤ → List Message → Option (List Message)
slice (pos n) ms = some (drop n ms)
slice (negsuc n) ms = none

unfoldable pub read_from : ℤ → List Message → Option (List Message)
unfolding slice
read_from offset ms = if leb_ℤ (pos (length ms)) offset then some [] else slice offset ms

unfoldable pub consume : Storage → Key → ℤ → Option (List Message)
consume s k offset = elim (Map.lookup k s.data_of) [
  | none ↦ some []
  | some ms ↦ read_from offset ms
]

module _ (hash : String → ℕ) where
  -- The hash is a uint32, so that it is not negative as an int of 64 bits. The sign of the divisor
  -- does not matter to Go's remainder, and `none` is the panic of a division by zero.
  unfoldable pub get_partition : String → ℤ → Option ℤ
  get_partition key (pos zero) = none
  get_partition key (pos (suc n)) = some (pos (hash key % suc n))
  get_partition key (negsuc n) = some (pos (hash key % suc n))

  -- `Produce`: the partition and the offset, and the storage.
  unfoldable pub produce :
      (String → ℕ) → Storage → String → String → String → Option (ℤ × ℤ × Storage)
  produce checksum s topic key value = elim (get_partition key s.num_partitions) [
    | none ↦ none
    | some p ↦
        let (offset, s') =
          produce_to_partition checksum s (record { topic = topic; partition = p }) value in
        some (p, offset, s')
  ]
