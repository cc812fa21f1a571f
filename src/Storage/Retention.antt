-- ===== src/Storage/Retention.antt =====
-- core/internal/storage/storage.go: reading segments back, and deleting the oldest ones. The
-- checksum is a parameter, as in Storage.Record.
use distributed_real_time_ev.Base.{
  ℕ, ℤ, pos, ◌+ℤ◌, ◌-ℤ◌, leb_ℤ, ltb_ℤ, int64, Time, Bool, false, ◌||◌, ◌==◌, String,
  string_comparable, int_comparable, Option, none, some, List, [], ◌∷◌, ◌++◌, if◌then◌else◌,
}
use distributed_real_time_ev.Base.Map
use distributed_real_time_ev.Base.Map.{Map, keys}
use distributed_real_time_ev.Base.Text.{◌⧺◌, itoa}
use distributed_real_time_ev.Storage.Record.{Entry, size, read_segment}
use distributed_real_time_ev.Storage.World.{File, World, now, append_line, remove}
use distributed_real_time_ev.Storage.Names.{
  segment_path, offset_index_path, timestamp_index_path, pad6,
}
use distributed_real_time_ev.Storage.State.{
  Key, key_comparable, PartitionState, Storage, messages, put_messages, put_state, put_world, next,
  ensure_partition_state,
}

pub segment_of : Key → ℤ → String
segment_of k segment = segment_path k.topic k.partition segment

-- The two index files; an error in writing them is dropped.
unfoldable pub append_offset_index : Storage → Key → ℤ → ℤ → Storage
append_offset_index s k offset segment =
    put_world s
      (append_line s.world (offset_index_path k.topic k.partition)
        (itoa offset ⧺ ":" ⧺ pad6 segment ⧺ "\n")).1

unfoldable pub append_timestamp_index : Storage → Key → ℤ → ℤ → ℤ → Storage
append_timestamp_index s k timestamp segment offset =
    put_world s
      (append_line s.world (timestamp_index_path k.topic k.partition)
        (itoa timestamp ⧺ ":" ⧺ pad6 segment ⧺ ":" ⧺ itoa offset ⧺ "\n")).1

-- One iteration of the loop in `loadSegment`, for a line that parses.
unfoldable pub load_entry : Storage → Key → ℤ → Entry → Storage
load_entry s k segment e =
    let s₁ =
      put_messages s k (messages s k ++ record { offset = e.offset; value = e.value } ∷ []) in
    let (st, s₂) = ensure_partition_state s₁ k in
    let s₃ =
      if leb_ℤ st.next_offset e.offset
      then put_state s₂ k (record st { next_offset = next e.offset })
      else s₂ in
    append_timestamp_index (append_offset_index s₃ k e.offset segment) k e.timestamp segment
      e.offset

unfoldable pub load_entries : Storage → Key → ℤ → List Entry → Storage
load_entries s k segment [] = s
load_entries s k segment (e ∷ rest) = load_entries (load_entry s k segment e) k segment rest

-- Whether s.data has a topic: it has a partition then.
has_topic : String → List Key → Bool
has_topic topic [] = false
has_topic topic (k ∷ rest) = k.topic == topic || has_topic topic rest

module _ (checksum : String → ℕ) where
  -- A file that is not there is not read.
  unfoldable pub load_segment : Storage → Key → ℤ → String → Storage
  load_segment s k segment path = elim (Map.lookup path s.world.files) [
    | none ↦ s
    | some f ↦ load_entries s k segment (read_segment checksum f.content)
  ]

  unfoldable pub load_segments : Storage → Key → List ℤ → Storage
  load_segments s k [] = s
  load_segments s k (segment ∷ rest) =
      load_segments (load_segment s k segment (segment_of k segment)) k rest

  -- The messages are dropped where the topic has any.
  cleared : Storage → Key → Storage
  cleared s k = if has_topic k.topic (keys s.data_of) then put_messages s k [] else s

  -- `rebuildPartitionFromSegments`, for the segments that the state has.
  unfoldable pub rebuild_partition : Storage → Key → PartitionState → Storage
  unfolding cleared has_topic
  rebuild_partition s k st =
      load_segments (put_state (cleared s k) k (record st { next_offset = pos 0 })) k st.segments

  -- `deleteSegment` of the first segment; `rest` are the others.
  unfoldable pub delete_segment : Storage → Key → PartitionState → ℤ → List ℤ → Storage
  delete_segment s k st segment rest =
      rebuild_partition (put_world s (remove s.world (segment_of k segment))) k
        (record st { segments = rest })

  -- The state of a partition that is there.
  state_or : Option PartitionState → PartitionState → PartitionState
  state_or none st = st
  state_or (some st) old = st

  -- The loop of `applyAgeRetention`, on the segments that are left.
  unfoldable pub age_loop : Storage → Key → PartitionState → ℤ → Time → List ℤ → Storage
  unfolding state_or
  age_loop s k st max_age t [] = s
  age_loop s k st max_age t (segment ∷ []) = s
  age_loop s k st max_age t (segment ∷ another ∷ rest) =
      let st' = record st { segments = another ∷ rest } in
      let skipped = age_loop (put_state s k st') k st' max_age t (another ∷ rest) in
      let s' = delete_segment s k st segment (another ∷ rest) in
      let deleted =
        age_loop s' k (state_or (Map.lookup k s'.partition_state) st') max_age t (another ∷ rest) in
      elim (Map.lookup (segment_of k segment) s.world.files) [
        | none ↦ skipped
        | some f ↦ if ltb_ℤ (pos t -ℤ max_age) (pos f.mod_time) then s else deleted
      ]

  unfoldable pub apply_age_retention : Storage → Key → PartitionState → Storage
  apply_age_retention s k st =
      if leb_ℤ s.retention_max_age (pos 0)
      then s
      else (let (t, w) = now s.world in
          age_loop (put_world s w) k st s.retention_max_age t st.segments)

  -- The size of a file that is there.
  file_size : Option File → ℤ
  file_size none = pos 0
  file_size (some f) = pos (size f.content)

  unfoldable pub total_size : World → Key → List ℤ → ℤ
  unfolding file_size
  total_size w k [] = pos 0
  total_size w k (segment ∷ rest) =
      int64 (file_size (Map.lookup (segment_of k segment) w.files) +ℤ total_size w k rest)

  -- The second loop of `applySizeRetention`.
  unfoldable pub size_loop : Storage → Key → PartitionState → ℤ → List ℤ → Storage
  unfolding file_size state_or
  size_loop s k st total [] = s
  size_loop s k st total (segment ∷ []) = s
  size_loop s k st total (segment ∷ another ∷ rest) =
      let st' = record st { segments = another ∷ rest } in
      let total' = int64 (total -ℤ file_size (Map.lookup (segment_of k segment) s.world.files)) in
      let s' = delete_segment s k st segment (another ∷ rest) in
      let deleted =
        size_loop s' k (state_or (Map.lookup k s'.partition_state) st') total' (another ∷ rest) in
      if ltb_ℤ s.retention_max_bytes total then deleted else s

  unfoldable pub apply_size_retention : Storage → Key → PartitionState → Storage
  apply_size_retention s k st =
      if leb_ℤ s.retention_max_bytes (pos 0)
      then s
      else size_loop s k st (total_size s.world k st.segments) st.segments

  -- `enforceRetentionLocked`, over the partitions in the order of the list.
  unfoldable pub enforce_each : Storage → List Key → Storage
  enforce_each s [] = s
  enforce_each s (k ∷ rest) =
      let aged : Storage = elim (Map.lookup k s.partition_state) [
        | none ↦ s
        | some st ↦ apply_age_retention s k st
      ] in
      let sized : Storage = elim (Map.lookup k aged.partition_state) [
        | none ↦ aged
        | some st ↦ apply_size_retention aged k st
      ] in
      enforce_each sized rest

  unfoldable pub enforce_retention : Storage → Storage
  enforce_retention s = enforce_each s (keys s.partition_state)
