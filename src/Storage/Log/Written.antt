-- ===== src/Storage/Log/Written.antt =====
-- Where the line of a record stands that the appends have written.
use distributed_real_time_ev.Base.{
  ℕ, ℤ, pos, Option, none, some, arith, ==_refl, true, String, ◌≡◌, refl, ap, ◌∙◌,
}
use distributed_real_time_ev.Base.Text.{◌⧺◌}
use distributed_real_time_ev.Storage.Record.{Entry, format_line}
use distributed_real_time_ev.Storage.State.{
  Key, key_comparable, PartitionState, Storage, next, put_world, put_state, put_messages,
}
use distributed_real_time_ev.Storage.Retention.{
  segment_of, append_offset_index, append_timestamp_index,
}
use distributed_real_time_ev.Base.Map
use distributed_real_time_ev.Base.Map.{lookup-insert}
use distributed_real_time_ev.Storage.Log.{apply_fsync_policy, write_segment, synced, remember}
use distributed_real_time_ev.Storage.Log.Answers.{append_line-Grows, text_of, Grows, Grows-trans}
use distributed_real_time_ev.Storage.Log.Steps.{write-written}

abbrev segment_or_zero : Option PartitionState → ℤ
segment_or_zero none = pos 0
segment_or_zero (some st) = st.active_segment_id

-- The active segment of a partition.
abbrev pub active_of : Storage → Key → ℤ
active_of s k = segment_or_zero (Map.lookup k s.partition_state)

fsync-active :
    (s : Storage) (st : PartitionState) (written : ℤ)
    → (apply_fsync_policy s st written).1.active_segment_id ≡ st.active_segment_id
unfolding apply_fsync_policy
fsync-active s st written = ground arith

module _ (checksum : String → ℕ) where
  -- The line of a record stands in the active segment of its partition, right behind the text that
  -- was there.
  pub record Written (s s' : Storage) (k : Key) (offset : ℤ) (value : String) : Type 0 where
    pub segment : ℤ
    pub active : active_of s' k ≡ segment
    pub timestamp : ℤ
    pub more : String
    pub line :
        text_of s'.world.files (segment_of k segment)
        ≡ (text_of s.world.files (segment_of k segment)
            ⧺ format_line checksum
                (record { offset = offset; timestamp = timestamp; value = value }))
          ⧺ more

  pub remember-Grows :
      (s : Storage) (k : Key) (st : PartitionState) (e : Entry)
      → Grows s.world.files (remember s k st e).world.files
  unfolding remember put_state put_messages append_offset_index append_timestamp_index put_world
  remember-Grows s k st e =
      Grows-trans s.world.files _ _ (append_line-Grows s.world _ _) (append_line-Grows _ _ _)

  pub remember-active :
      (s s' : Storage) (k : Key) (st : PartitionState) (e : Entry)
      → active_of (remember s' k (synced checksum s k st e).1 e) k ≡ st.active_segment_id
  unfolding remember put_state synced
  remember-active s s' k st e =
      let new : PartitionState = record (synced checksum s k st e).1 {
        next_offset = next e.offset;
      } in
      let found : Map.lookup k (remember s' k (synced checksum s k st e).1 e).partition_state
          ≡ some new =
        lookup-insert k new _ k ∙ rw (==_refl k) refl in
      ap segment_or_zero found ∙ fsync-active s st _

  pub write_segment-Written :
      (base s s' : Storage) (k : Key) (st : PartitionState) (e : Entry)
      → s.world.files ≡ base.world.files
      → (write_segment checksum s k st e).0 ≡ true
      → Grows (write_segment checksum s k st e).2.world.files s'.world.files
      → active_of s' k ≡ (write_segment checksum s k st e).1.active_segment_id
      → Written base s' k e.offset e.value
  write_segment-Written base s s' k st e same ok grows active =
      let name = segment_of k (write_segment checksum s k st e).1.active_segment_id in
      let (more, added) = grows name in
      record {
        segment = (write_segment checksum s k st e).1.active_segment_id;
        active = active;
        timestamp = e.timestamp;
        more = more;
        line =
            added
            ∙ ap (λ s. s ⧺ more)
                (write-written checksum s k st e ok
                  ∙ ap (λ f. text_of f name ⧺ format_line checksum e) same);
      }
