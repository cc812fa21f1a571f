-- ===== src/ControlPlane/Metadata.antt =====
-- core/internal/controlplane/metadata.go: the data of the cluster, and the copy that `Snapshot` gives.
pub mod Copies
use distributed_real_time_ev.Base.{ℤ, Time, Bool, String, List, [], ◌∷◌}
use distributed_real_time_ev.Base.Map.{Map}

pub record PartitionMetadata : Type 0 where
  pub id : ℤ
  pub leader_id : ℤ
  pub replicas : List ℤ
  pub isr : List ℤ

pub record TopicMetadata : Type 0 where
  pub name : String
  pub partitions : Map ℤ PartitionMetadata
  pub configs : Map String String

pub record BrokerMetadata : Type 0 where
  pub id : ℤ
  pub host : String
  pub port : ℤ
  pub epoch : ℤ
  pub last_heartbeat : Time
  pub fenced : Bool

pub record MetadataSnapshot : Type 0 where
  pub topics : Map String TopicMetadata
  pub brokers : Map ℤ BrokerMetadata

-- The loops copy one entry after the other; lists are values here.
unfoldable pub clone_partitions : Map ℤ PartitionMetadata → Map ℤ PartitionMetadata
clone_partitions [] = []
clone_partitions ((pid, p) ∷ rest) =
    (pid, record { id = p.id; leader_id = p.leader_id; replicas = p.replicas; isr = p.isr })
    ∷ clone_partitions rest

unfoldable pub clone_configs : Map String String → Map String String
clone_configs [] = []
clone_configs ((k, v) ∷ rest) = (k, v) ∷ clone_configs rest

unfoldable pub clone_topic : TopicMetadata → TopicMetadata
clone_topic topic = record {
  name = topic.name;
  partitions = clone_partitions topic.partitions;
  configs = clone_configs topic.configs;
}

pub clone_topics : Map String TopicMetadata → Map String TopicMetadata
clone_topics [] = []
clone_topics ((name, topic) ∷ rest) = (name, clone_topic topic) ∷ clone_topics rest

pub clone_brokers : Map ℤ BrokerMetadata → Map ℤ BrokerMetadata
clone_brokers [] = []
clone_brokers ((id, broker) ∷ rest) = (id, broker) ∷ clone_brokers rest

pub clone : MetadataSnapshot → MetadataSnapshot
clone s = record { topics = clone_topics s.topics; brokers = clone_brokers s.brokers }
