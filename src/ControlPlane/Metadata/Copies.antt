-- ===== src/ControlPlane/Metadata/Copies.antt =====
-- The copies of a snapshot hold what it holds.
use distributed_real_time_ev.Base.{ℤ, String, [], ◌∷◌, ◌≡◌, refl, ap}
use distributed_real_time_ev.Base.Map.{Map}
use distributed_real_time_ev.ControlPlane.Metadata.{
  PartitionMetadata, TopicMetadata, BrokerMetadata, MetadataSnapshot, clone_partitions,
  clone_configs, clone_topic, clone_topics, clone_brokers, clone,
}

clone_partitions_lem : (m : Map ℤ PartitionMetadata) → clone_partitions m ≡ m
unfolding clone_partitions
clone_partitions_lem [] = refl
clone_partitions_lem ((pid, p) ∷ rest) = ap (λ r. (pid, p) ∷ r) (clone_partitions_lem rest)

clone_configs_lem : (m : Map String String) → clone_configs m ≡ m
unfolding clone_configs
clone_configs_lem [] = refl
clone_configs_lem ((k, v) ∷ rest) = ap (λ r. (k, v) ∷ r) (clone_configs_lem rest)

pub clone_topic_lem : (topic : TopicMetadata) → clone_topic topic ≡ topic
unfolding clone_topic
clone_topic_lem topic = λ i. record {
  name = topic.name;
  partitions = clone_partitions_lem topic.partitions i;
  configs = clone_configs_lem topic.configs i;
}

clone_topics_lem : (m : Map String TopicMetadata) → clone_topics m ≡ m
unfolding clone_topics
clone_topics_lem [] = refl
clone_topics_lem ((name, topic) ∷ rest) =
    λ i. (name, clone_topic_lem topic i) ∷ clone_topics_lem rest i

clone_brokers_lem : (m : Map ℤ BrokerMetadata) → clone_brokers m ≡ m
unfolding clone_brokers
clone_brokers_lem [] = refl
clone_brokers_lem ((id, broker) ∷ rest) = ap (λ r. (id, broker) ∷ r) (clone_brokers_lem rest)

pub clone_lem : (s : MetadataSnapshot) → clone s ≡ s
unfolding clone
clone_lem s =
    λ i. record { topics = clone_topics_lem s.topics i; brokers = clone_brokers_lem s.brokers i }
