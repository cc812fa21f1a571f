-- ===== src/ControlPlane/Controller/Leaders.antt =====
-- `ElectTopicLeaders`: which leaders the partitions of a topic have after it.
use distributed_real_time_ev.Base.{
  ℤ, Time, false, ◌==◌, String, string_comparable, int_comparable, none, some, ◌≡◌, refl, ◌∙◌, ap,
  inl, inr,
}
use distributed_real_time_ev.Base.Map
use distributed_real_time_ev.Base.Map.{Map, keys}
use distributed_real_time_ev.ControlPlane.Metadata.{
  PartitionMetadata, TopicMetadata, BrokerMetadata,
}
use distributed_real_time_ev.ControlPlane.Store.{RaftMetadataStore}
use distributed_real_time_ev.ControlPlane.Store.Applying.{snapshot_lem}
use distributed_real_time_ev.ControlPlane.Store.Invariant.{Inv}
use distributed_real_time_ev.ControlPlane.Controller.{
  Outcome, elect_loop, elect_seen, elect_topic_leaders, sort_ints,
}
use distributed_real_time_ev.ControlPlane.Controller.Sorting.{visited_ids}
use distributed_real_time_ev.ControlPlane.Controller.Choosing.{
  elected_of, elected_of-Elected, Elected,
}
use distributed_real_time_ev.ControlPlane.Controller.Elections.{Done, loop-Done, after}

-- What an election makes of each partition of a topic: none comes, none goes, and each is elected.
abbrev pub ElectedAll :
    Map ℤ BrokerMetadata → Map ℤ PartitionMetadata → Map ℤ PartitionMetadata → Type 0
ElectedAll brokers before final =
    ((pid : ℤ) → Map.lookup pid before ≡ none → Map.lookup pid final ≡ none)
    × ((pid : ℤ) (p : PartitionMetadata)
        → Map.lookup pid before ≡ some p
        → (p' : PartitionMetadata) × (Map.lookup pid final ≡ some p') × Elected brokers p p')

-- What holds after an election for the topic `topic`, whose metadata was `meta`.
pub record AfterElection (s : RaftMetadataStore) (topic : String) (meta : TopicMetadata)
    (o : Outcome) : Type 0 where
  pub failure : o.failure ≡ none
  pub final : Map ℤ PartitionMetadata
  pub stored : Map.lookup topic o.store.metadata.topics ≡ some (record meta { partitions = final })
  pub elected : ElectedAll s.metadata.brokers meta.partitions final
  pub brokers : o.store.metadata.brokers ≡ s.metadata.brokers
  pub others :
      (name : String)
      → (topic == name) ≡ false
      → Map.lookup name o.store.metadata.topics ≡ Map.lookup name s.metadata.topics

elect_seen-AfterElection :
    (s : RaftMetadataStore) (topic : String) (now : Time) (meta : TopicMetadata)
    → Inv s.metadata
    → Map.lookup topic s.metadata.topics ≡ some meta
    → AfterElection s topic meta (elect_seen s topic now s.metadata)
unfolding elect_seen
elect_seen-AfterElection s topic now meta i there =
    rw (elect_seen, there)
      (record {
        failure = d.failure;
        final = d.final;
        stored = d.holds;
        elected = (
          (λ pid e. elim (d.progress pid) [
            | inl q ↦ q ∙ e
            | inr q ↦ q ∙ ap (after topic now s.metadata i meta there named pid) e
          ]),
          (λ pid p e. (
            elected_of s.metadata.brokers topic pid p,
            d.visited pid (visited_ids meta.partitions pid p e)
                ∙ ap (after topic now s.metadata i meta there named pid) e,
            elected_of-Elected s.metadata.brokers i.brokers topic pid p,
          )),
        );
        brokers = d.brokers;
        others = d.others;
      })
  where
    named : (topic == "") ≡ false
    named = (i.topics topic meta there).1

    d :
        Done topic now s.metadata i meta there named s meta.partitions
          (sort_ints (keys meta.partitions))
          (elect_loop topic now s.metadata meta (sort_ints (keys meta.partitions)) s 0)
    d =
        loop-Done topic now s.metadata i meta there named _ s meta.partitions 0 there
          (λ pid. inl refl)

-- Of metadata that satisfies the invariant, an election for a topic that is there ends with no
-- error. It touches no broker and no other topic, keeps the partitions' ids and replicas, and
-- leaves each partition whose leader was eligible (registered and not fenced) as it was. Every
-- other partition has an eligible leader afterwards, who is one of its replicas and stands in its
-- ISR, or the leader -1 if none of its replicas is eligible.
pub elect_topic_leaders_lem :
    (s : RaftMetadataStore) (topic : String) (now : Time) (meta : TopicMetadata)
    → Inv s.metadata
    → Map.lookup topic s.metadata.topics ≡ some meta
    → AfterElection s topic meta (elect_topic_leaders s topic now)
unfolding elect_topic_leaders
elect_topic_leaders_lem s topic now meta i there =
    rw ((i.topics topic meta there).1, snapshot_lem s)
      (elect_seen-AfterElection s topic now meta i there)
