-- ===== src/ControlPlane/Controller/Examples.antt =====
-- The controller on a small cluster: one topic with one partition and two replicas, and the second
-- of them registered.
use distributed_real_time_ev.Base.{
  ℕ, ltb, ℤ, pos, negsuc, false, ◌==◌, String, string_comparable, int_comparable, none, some, List,
  [], ◌∷◌, ◌≡◌, refl, if◌then◌else◌,
}
use distributed_real_time_ev.Base.Map
use distributed_real_time_ev.ControlPlane.Metadata.{
  TopicMetadata, MetadataSnapshot, clone_topic, clone_partitions, clone_configs,
}
use distributed_real_time_ev.ControlPlane.Store.{
  RaftMetadataStore, upserted, registered, put_topic, put_broker, finished, validate_command,
  change, apply, new_raft_metadata_store,
}
use distributed_real_time_ev.ControlPlane.Store.Applying.{applied}
use distributed_real_time_ev.ControlPlane.Store.Invariant.{Inv}
use distributed_real_time_ev.ControlPlane.Controller.{
  first_ids, new_partitions, count_of, create_topic, register, reconcile_broker_health,
  elect_topic_leaders,
}
use distributed_real_time_ev.ControlPlane.Controller.Health.{settled?, reconcile_broker_health_lem}
use distributed_real_time_ev.ControlPlane.Controller.Leaders.{
  AfterElection, elect_topic_leaders_lem,
}
use distributed_real_time_ev.ControlPlane.Controller.Topics.{unled, create_topic_lem}
use distributed_real_time_ev.ControlPlane.Controller.Runs.{
  Call, create, enrol, step, run, run-new_raft_metadata_store-Inv,
}

abbrev calls : List Call
calls = create "t" (pos 1) (pos 2) 0 ∷ enrol (pos 1) "host" (pos 9092) (pos 7) 100 100 100 ∷ []

abbrev cluster : RaftMetadataStore
cluster = run new_raft_metadata_store calls

run-new_raft_metadata_store-Inv_example : Inv cluster.metadata
run-new_raft_metadata_store-Inv_example = run-new_raft_metadata_store-Inv calls

abbrev topic_t : TopicMetadata
topic_t = record {
  name = "t";
  partitions =
      (
        pos 0,
        record {
          id = pos 0;
          leader_id = negsuc 0;
          replicas = pos 0 ∷ pos 1 ∷ [];
          isr = pos 0 ∷ pos 1 ∷ [];
        },
      )
      ∷ [];
  configs = [];
}

cluster_topic : Map.lookup "t" cluster.metadata.topics ≡ some topic_t
unfolding run step create_topic register new_partitions first_ids count_of apply change upserted
    registered put_topic put_broker finished validate_command clone_topic clone_partitions
    clone_configs new_raft_metadata_store Map.insert Map.lookup
cluster_topic = refl

elect_topic_leaders_lem_example :
    AfterElection cluster "t" topic_t (elect_topic_leaders cluster "t" 200)
elect_topic_leaders_lem_example =
    elect_topic_leaders_lem cluster "t" 200 topic_t (run-new_raft_metadata_store-Inv calls)
      cluster_topic

reconcile_broker_health_lem_example :
    ((reconcile_broker_health cluster (pos 50) 200).failure ≡ none)
    × ((id : ℤ)
        → Map.lookup id (reconcile_broker_health cluster (pos 50) 200).store.metadata.brokers
          ≡ settled? (pos 50) 200 (Map.lookup id cluster.metadata.brokers))
    × ((reconcile_broker_health cluster (pos 50) 200).store.metadata.topics
        ≡ cluster.metadata.topics)
reconcile_broker_health_lem_example =
    reconcile_broker_health_lem cluster (pos 50) 200 (run-new_raft_metadata_store-Inv calls) refl

create_topic_lem_example :
    (m : MetadataSnapshot) × (topic : TopicMetadata) × (create_topic cluster "u" (pos 3) (pos 2) 300
      ≡ applied cluster m)
    × (Map.lookup "u" m.topics ≡ some topic)
    × ((k : ℕ)
        → Map.lookup (pos k) topic.partitions
          ≡ (if ltb k 3 then some (unled (first_ids 2 0) (pos k)) else none))
    × ((k : ℕ) → Map.lookup (negsuc k) topic.partitions ≡ none)
    × (m.brokers ≡ cluster.metadata.brokers)
    × ((other : String)
        → ("u" == other) ≡ false
        → Map.lookup other m.topics ≡ Map.lookup other cluster.metadata.topics)
create_topic_lem_example = create_topic_lem cluster "u" 2 1 300 refl
