-- ===== src/Storage/Loading.antt =====
-- core/internal/storage/storage.go: `NewStorage`, which recovers the partitions from the files of the
-- data directory. The checksum is a parameter, as in Storage.Record.
pub mod Segments
use Prim.Native.Char.{code}
use distributed_real_time_ev.Base.{
  ℕ, ◌+◌, ◌-◌, ◌*◌, ℤ, pos, negsuc, ltb_ℤ, int64, Bool, true, false, not, ◌&&◌, ◌==◌, String,
  string_comparable, int_comparable, none, some, List, [], ◌∷◌, ◌++◌, if◌then◌else◌,
}
use distributed_real_time_ev.Base.Map.{keys}
use distributed_real_time_ev.Base.Text.{is_space}
use distributed_real_time_ev.Coordinator.Assign.{sort}
use distributed_real_time_ev.Storage.World.{World, attempt}
use distributed_real_time_ev.Storage.Names.{SegmentName, parse_segment_file_name}
use distributed_real_time_ev.Storage.State.{
  Key, PartitionState, Storage, put_state, put_world, ensure_partition_state,
}
use distributed_real_time_ev.Storage.Retention.{load_segment, enforce_retention}

-- segmentEntry, whose path is a name within the data directory.
pub record SegmentEntry : Type 0 where
  pub name : SegmentName
  pub path : String

-- The names that are those of segments.
unfoldable pub segment_entries : List String → List SegmentEntry
segment_entries [] = []
segment_entries (file ∷ rest) = elim (parse_segment_file_name file) [
  | none ↦ segment_entries rest
  | some name ↦ record { name = name; path = file } ∷ segment_entries rest
]

-- a is first of the two in the order of the texts' bytes.
text_first : String → String → List String → Bool
text_first a b [] = false
text_first a b (c ∷ rest) = a == c

-- The comparison of sort.Slice: by topic, then partition, then segment.
unfoldable pub before : SegmentName → SegmentName → Bool
unfolding text_first
before a b =
    if not (a.topic == b.topic)
    then text_first a.topic b.topic (sort (a.topic ∷ b.topic ∷ []))
    else if not (a.partition == b.partition)
    then ltb_ℤ a.partition b.partition
    else ltb_ℤ a.segment b.segment

place_entry : SegmentEntry → List SegmentEntry → List SegmentEntry
place_entry e [] = e ∷ []
place_entry e (f ∷ rest) =
    let placed = place_entry e rest in if before f.name e.name then f ∷ placed else e ∷ f ∷ rest

-- sort.Slice. Names of the same segment, which the storage does not write, keep their order here.
unfoldable pub sort_entries : List SegmentEntry → List SegmentEntry
unfolding place_entry
sort_entries [] = []
sort_entries (e ∷ rest) = place_entry e (sort_entries rest)

ends_with : ℤ → List ℤ → Bool
ends_with segment [] = false
ends_with segment (n ∷ []) = n == segment
ends_with segment (n ∷ m ∷ rest) = ends_with segment (m ∷ rest)

-- The change of the partition's state for a segment that is found.
unfoldable pub found : PartitionState → ℤ → PartitionState
unfolding ends_with
found st segment = record st {
  segments = if ends_with segment st.segments then st.segments else st.segments ++ segment ∷ [];
  active_segment_id = if ltb_ℤ st.active_segment_id segment then segment else st.active_segment_id;
}

module _ (checksum : String → ℕ) where
  unfoldable pub load_file : Storage → SegmentEntry → Storage
  load_file s e =
      let k : Key = record { topic = e.name.topic; partition = e.name.partition } in
      let (st, s₁) = ensure_partition_state s k in
      load_segment checksum (put_state s₁ k (found st e.name.segment)) k e.name.segment e.path

  unfoldable pub load_files : Storage → List SegmentEntry → Storage
  load_files s [] = s
  load_files s (e ∷ rest) = load_files (load_file s e) rest

  -- os.MkdirAll and os.ReadDir may fail; the latter lists the names in the order of their bytes.
  unfoldable pub load_data : Storage → Storage
  load_data s =
      let (made, w₁) = attempt s.world in
      let (listed, w₂) = attempt w₁ in
      let s₂ = put_world s w₂ in
      if not made
      then put_world s w₁
      else if not listed
      then s₂
      else load_files s₂ (sort_entries (segment_entries (sort (keys w₂.files))))

-- The settings that `NewStorage` reads.
pub record Config : Type 0 where
  pub num_partitions : ℤ
  pub segment_max_bytes : ℤ
  pub retention_max_bytes : ℤ
  pub retention_max_age_seconds : ℤ
  pub flush_interval_ms : ℤ
  pub flush_bytes : ℤ
  pub fsync_mode : String

unfoldable pub value_or_default : ℤ → ℤ → ℤ
value_or_default v fallback = if ltb_ℤ (pos 0) v then v else fallback

-- time.Duration(n) * unit, in 64 bits.
unfoldable pub duration : ℕ → ℤ → ℤ
duration unit (pos n) = int64 (pos (n * unit))
duration unit (negsuc n) = int64 (negsuc ((n + 1) * unit - 1))

-- strings.TrimSpace(v) == ""
unfoldable pub is_blank : String → Bool
is_blank String.[] = true
is_blank (String.◌∷◌ c s) = is_space (code c) && is_blank s

unfoldable pub value_or_default_string : String → String → String
value_or_default_string v fallback = if is_blank v then fallback else v

-- The storage before it has read anything.
unfoldable pub empty_storage : Config → World → Storage
empty_storage cfg w = record {
  data_of = [];
  num_partitions = cfg.num_partitions;
  segment_max_bytes = value_or_default cfg.segment_max_bytes (pos 1048576);
  retention_max_bytes = value_or_default cfg.retention_max_bytes (pos 52428800);
  retention_max_age =
      value_or_default (duration 1000000000 cfg.retention_max_age_seconds) (pos 86400000000000);
  flush_interval = value_or_default (duration 1000000 cfg.flush_interval_ms) (pos 1000000000);
  flush_bytes = value_or_default cfg.flush_bytes (pos 65536);
  fsync_mode = value_or_default_string cfg.fsync_mode "always";
  partition_state = [];
  local_replica_count = 2;
  world = w;
}

module _ (checksum : String → ℕ) where
  unfoldable pub new_storage : Config → World → Storage
  new_storage cfg w = enforce_retention checksum (load_data checksum (empty_storage cfg w))
