-- ===== src/ControlPlane/Controller/Topics.antt =====
-- `CreateTopic`: the partitions of a new topic.
use distributed_real_time_ev.Base.{
  ℕ, zero, suc, ◌+◌, ℤ, pos, negsuc, ltb, leb, leb_ℤ, Time, false, ◌&&◌, ◌==◌, ==_refl, String,
  string_comparable, int_comparable, none, some, List, [], ◌≡◌, refl, ◌∙◌, arith, if◌then◌else◌,
}
use distributed_real_time_ev.Base.Map
use distributed_real_time_ev.Base.Map.{Map}
use distributed_real_time_ev.ControlPlane.Metadata.{
  PartitionMetadata, TopicMetadata, MetadataSnapshot,
}
use distributed_real_time_ev.ControlPlane.Store.{RaftMetadataStore, put_topic}
use distributed_real_time_ev.ControlPlane.Store.Applying.{applied, apply-upsert_topic}
use distributed_real_time_ev.ControlPlane.Store.Invariant.{
  KeyedPartitions, inserted, KeyedPartition,
}
use distributed_real_time_ev.ControlPlane.Controller.{
  first_ids, new_partitions, count_of, create_topic,
}

module _ (replicas : List ℤ) where
  -- The partition `i` of a new topic.
  abbrev pub unled : ℤ → PartitionMetadata
  unled i = record { id = i; leader_id = negsuc 0; replicas = replicas; isr = replicas }

  new_partitions-pos :
      (n i k : ℕ) (m : Map ℤ PartitionMetadata)
      → Map.lookup (pos k) (new_partitions n i replicas m)
        ≡ (if leb i k && ltb k (i + n) then some (unled (pos k)) else Map.lookup (pos k) m)
  unfolding new_partitions
  new_partitions-pos zero i k m = ground arith
  new_partitions-pos (suc n) i k m =
      new_partitions-pos n (i + 1) k (Map.insert (pos i) (unled (pos i)) m)
      ∙ ground (arith, Map.lookup-insert (pos i) (unled (pos i)) m (pos k))

  new_partitions-negsuc :
      (n i k : ℕ) (m : Map ℤ PartitionMetadata)
      → Map.lookup (negsuc k) (new_partitions n i replicas m) ≡ Map.lookup (negsuc k) m
  unfolding new_partitions
  new_partitions-negsuc zero i k m = refl
  new_partitions-negsuc (suc n) i k m =
      new_partitions-negsuc n (i + 1) k (Map.insert (pos i) (unled (pos i)) m)
      ∙ ground (arith, Map.lookup-insert (pos i) (unled (pos i)) m (negsuc k))

  pub new_partitions-Keyed :
      (n i : ℕ) (m : Map ℤ PartitionMetadata)
      → KeyedPartitions m
      → KeyedPartitions (new_partitions n i replicas m)
  unfolding new_partitions
  new_partitions-Keyed zero i m k = k
  new_partitions-Keyed (suc n) i m k =
      new_partitions-Keyed n (i + 1) _
        (inserted KeyedPartition (pos i) (unled (pos i)) m k (refl, ground arith))

positive : (n : ℕ) → leb_ℤ (pos (suc n)) (pos 0) ≡ false
positive n = ground arith

-- Creating a topic with a name, and with positive counts of partitions and replicas, succeeds. The
-- topic then has exactly the partitions 0 .. partitions - 1, each with no leader and with the
-- replicas and the ISR 0 .. replication_factor - 1, whatever stood under its name before; the
-- brokers and the other topics stay.
pub create_topic_lem :
    (s : RaftMetadataStore) (name : String) (partitions replication_factor : ℕ) (now : Time)
    → (name == "") ≡ false
    → (m : MetadataSnapshot) × (topic : TopicMetadata) × (create_topic s name
          (pos (suc partitions))
          (pos (suc replication_factor))
          now
        ≡ applied s m)
      × (Map.lookup name m.topics ≡ some topic)
      × ((k : ℕ)
          → Map.lookup (pos k) topic.partitions ≡ (
              if ltb k (suc partitions)
              then some (unled (first_ids (suc replication_factor) 0) (pos k))
              else none))
      × ((k : ℕ) → Map.lookup (negsuc k) topic.partitions ≡ none)
      × (m.brokers ≡ s.metadata.brokers)
      × ((other : String)
          → (name == other) ≡ false
          → Map.lookup other m.topics ≡ Map.lookup other s.metadata.topics)
unfolding create_topic count_of put_topic
create_topic_lem s name partitions replication_factor now h = (
  put_topic s.metadata name topic,
  topic,
  rw (h, positive partitions, positive replication_factor) (apply-upsert_topic s now topic h),
  rw (Map.lookup-insert, ==_refl name) refl,
  (λ k. new_partitions-pos replicas (suc partitions) 0 k [] ∙ outside k),
  (λ k. new_partitions-negsuc replicas (suc partitions) 0 k [] ∙ unfold Map.lookup in refl),
  refl,
  (λ other n. rw (Map.lookup-insert, n) refl),
)
  where
    replicas : List ℤ
    replicas = first_ids (suc replication_factor) 0

    topic : TopicMetadata
    topic = record {
      name = name;
      partitions = new_partitions (suc partitions) 0 replicas [];
      configs = [];
    }

    outside :
        (k : ℕ)
        → (if leb 0 k && ltb k (0 + suc partitions)
            then some (unled replicas (pos k))
            else Map.lookup (pos k) [])
          ≡ (if ltb k (suc partitions) then some (unled replicas (pos k)) else none)
    outside k = unfold Map.lookup in ground arith
