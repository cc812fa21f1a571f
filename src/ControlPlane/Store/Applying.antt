-- ===== src/ControlPlane/Store/Applying.antt =====
-- What `Apply` does with each command that it accepts.
use distributed_real_time_ev.Base.{
  ℤ, pos, ltb_ℤ, Time, Bool, false, ◌==◌, string_comparable, int_comparable, none, some, ◌≡◌, refl,
  ap,
}
use distributed_real_time_ev.Base.Map
use distributed_real_time_ev.ControlPlane.Metadata.{
  PartitionMetadata, TopicMetadata, BrokerMetadata, MetadataSnapshot,
}
use distributed_real_time_ev.ControlPlane.Metadata.Copies.{clone_lem, clone_topic_lem}
use distributed_real_time_ev.ControlPlane.Store.{
  Command, upsert_topic, upserted, set_leader, set_fence, PartitionLeaderUpdate, RaftMetadataStore,
  ApplyResult, Result, ok, bare, snapshot, validate_command, change, put_topic, put_broker, led,
  leader_set, fence_set, next_index, finished, apply,
}

-- The store and the result of a command that changes the metadata to `m`.
abbrev pub applied : RaftMetadataStore → MetadataSnapshot → RaftMetadataStore × Result ApplyResult
applied s m = (
  record s { index = next_index s.index; metadata = m },
  ok (record { term = s.term; index = next_index s.index }),
)

pub snapshot_lem : (s : RaftMetadataStore) → snapshot s ≡ s.metadata
unfolding snapshot
snapshot_lem s = clone_lem s.metadata

module _ (s : RaftMetadataStore) (now : Time) where
  apply-valid :
      (cmd : Command) (m : MetadataSnapshot)
      → validate_command cmd ≡ none
      → change s.metadata cmd now ≡ ok m
      → apply s cmd now ≡ applied s m
  unfolding apply finished
  apply-valid cmd m v c = rw (apply, v, c) refl

  pub apply-set_fence :
      (id : ℤ) (fenced : Bool) (broker : BrokerMetadata)
      → ltb_ℤ id (pos 0) ≡ false
      → Map.lookup id s.metadata.brokers ≡ some broker
      → apply s
          (record (bare set_fence) {
            broker_fence = some (record { broker_id = id; fenced = fenced });
          })
          now
        ≡ applied s (put_broker s.metadata broker.id (record broker { fenced = fenced }))
  unfolding validate_command change fence_set
  apply-set_fence id fenced broker h l = apply-valid _ _ (rw h refl) (rw (fence_set, l) refl)

  pub apply-upsert_topic :
      (topic : TopicMetadata)
      → (topic.name == "") ≡ false
      → apply s (record (bare upsert_topic) { topic = some topic }) now
        ≡ applied s (put_topic s.metadata topic.name topic)
  unfolding validate_command change upserted
  apply-upsert_topic topic h =
      apply-valid _ _ (rw h refl)
        (ap (λ t. ok (put_topic s.metadata topic.name t)) (clone_topic_lem topic))

  pub apply-set_leader :
      (update : PartitionLeaderUpdate) (topic : TopicMetadata) (partition : PartitionMetadata)
      → (update.topic == "") ≡ false
      → ltb_ℤ update.partition (pos 0) ≡ false
      → Map.lookup update.topic s.metadata.topics ≡ some topic
      → Map.lookup update.partition topic.partitions ≡ some partition
      → apply s (record (bare set_leader) { partition_leader = some update }) now
        ≡ applied s (
            put_topic s.metadata update.topic (record topic {
              partitions = Map.insert update.partition (led partition update) topic.partitions;
            }))
  unfolding validate_command change leader_set
  apply-set_leader update topic partition e h l k =
      apply-valid _ _ (rw (e, h) refl) (rw (leader_set, l, k) refl)
