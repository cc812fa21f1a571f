-- ===== src/ControlPlane/Controller.antt =====
-- core/internal/controlplane/controller.go, on the store of raft_store.go. `now` is the time that a
-- call reads.
pub mod Sorting
pub mod Health
pub mod Choosing
pub mod Elections
pub mod Leaders
pub mod Topics
pub mod Runs
pub mod Examples
use distributed_real_time_ev.Base.{
  ℕ, zero, suc, ◌+◌, ℤ, pos, negsuc, ltb_ℤ, leb_ℤ, Time, is_zero, time_sub, unix_nano, Bool, true,
  false, not, ◌||◌, String, ◌==◌, string_comparable, int_comparable, Option, none, some, List, [],
  ◌∷◌, filterb, if◌then◌else◌,
}
use distributed_real_time_ev.Base.Map
use distributed_real_time_ev.Base.Map.{Map, keys}
use distributed_real_time_ev.ControlPlane.Metadata.{
  PartitionMetadata, TopicMetadata, BrokerMetadata, MetadataSnapshot,
}
use distributed_real_time_ev.ControlPlane.Store.{
  bare, upsert_topic, register_broker, heartbeat_broker, set_leader, set_fence, MetadataError,
  invalid, topic_not_found, RaftMetadataStore, ApplyResult, Result, error, ok, apply, snapshot,
}

-- for i := 0; i < n; i++ { replicas = append(replicas, i) }, with the iterations left and `i`.
pub first_ids : ℕ → ℕ → List ℤ
first_ids zero i = []
first_ids (suc n) i = pos i ∷ first_ids n (i + 1)

pub new_partitions : ℕ → ℕ → List ℤ → Map ℤ PartitionMetadata → Map ℤ PartitionMetadata
new_partitions zero i replicas partitions = partitions
new_partitions (suc n) i replicas partitions = new_partitions n (i + 1) replicas (
    Map.insert (pos i)
      (record { id = pos i; leader_id = negsuc 0; replicas = replicas; isr = replicas }) partitions)

unfoldable pub count_of : ℤ → ℕ
count_of (pos n) = n
count_of (negsuc n) = 0

pub create_topic :
    RaftMetadataStore → String → ℤ → ℤ → Time → RaftMetadataStore × Result ApplyResult
create_topic s name partitions replication_factor now =
    if name == ""
    then (s, error (invalid "topic name is required"))
    else if leb_ℤ partitions (pos 0)
    then (s, error (invalid "partitions must be > 0"))
    else if leb_ℤ replication_factor (pos 0)
    then (s, error (invalid "replication factor must be > 0"))
    else apply s
        (record (bare upsert_topic) {
          topic = some (record {
            name = name;
            partitions =
                new_partitions (count_of partitions) 0 (first_ids (count_of replication_factor) 0)
                  [];
            configs = [];
          });
        })
        now

-- The three times are those of the epoch, of the heartbeat, and of the call of `Apply`.
pub register :
    RaftMetadataStore
    → ℤ
    → String
    → ℤ
    → ℤ
    → Time
    → Time
    → Time
    → RaftMetadataStore × Result ApplyResult
register s id host port epoch now beat applied =
    if ltb_ℤ id (pos 0)
    then (s, error (invalid "broker id must be >= 0"))
    else if host == ""
    then (s, error (invalid "broker host is required"))
    else if leb_ℤ port (pos 0)
    then (s, error (invalid "broker port must be > 0"))
    else apply s
        (record (bare register_broker) {
          broker = some (record {
            id = id;
            host = host;
            port = port;
            epoch = if leb_ℤ epoch (pos 0) then unix_nano now else epoch;
            last_heartbeat = beat;
            fenced = false;
          });
        })
        applied

pub heartbeat : RaftMetadataStore → ℤ → Time → RaftMetadataStore × Result ApplyResult
heartbeat s id now = apply s (record (bare heartbeat_broker) { broker_heartbeat = some id }) now

pub set_partition_leader :
    RaftMetadataStore → String → ℤ → ℤ → List ℤ → Time → RaftMetadataStore × Result ApplyResult
set_partition_leader s topic partition leader_id isr now =
    if topic == ""
    then (s, error (invalid "topic is required"))
    else if ltb_ℤ partition (pos 0)
    then (s, error (invalid "partition must be >= 0"))
    else if ltb_ℤ leader_id (negsuc 0)
    then (s, error (invalid "leader id must be >= -1"))
    else apply s
        (record (bare set_leader) {
          partition_leader =
              some
                (record { topic = topic; partition = partition; leader_id = leader_id; isr = isr });
        })
        now

pub set_broker_fence : RaftMetadataStore → ℤ → Bool → Time → RaftMetadataStore × Result ApplyResult
set_broker_fence s id fenced now =
    if ltb_ℤ id (pos 0)
    then (s, error (invalid "broker id must be >= 0"))
    else apply s
        (record (bare set_fence) {
          broker_fence = some (record { broker_id = id; fenced = fenced });
        })
        now

-- sort.Ints
place : ℤ → List ℤ → List ℤ
place i [] = i ∷ []
place i (j ∷ rest) = let placed = place i rest in if leb_ℤ i j then i ∷ j ∷ rest else j ∷ placed

pub sort_ints : List ℤ → List ℤ
unfolding place
sort_ints [] = []
sort_ints (i ∷ rest) = place i (sort_ints rest)

-- What a loop that stops at its first error returns: `changes`, and the error if there is one.
pub record Outcome : Type 0 where
  pub store : RaftMetadataStore
  pub changes : ℕ
  pub failure : Option MetadataError

pub stale : ℤ → Time → BrokerMetadata → Bool
stale timeout now b = is_zero b.last_heartbeat || ltb_ℤ timeout (time_sub now b.last_heartbeat)

-- b.Fenced != targetFenced
abbrev pub differ : Bool → Bool → Bool
differ true b = not b
differ false b = b

-- An iteration that has made its call: an error ends the loop, else it goes on with `rest`.
pub proceed :
    RaftMetadataStore × Result ApplyResult → ℕ → (RaftMetadataStore → ℕ → Outcome) → Outcome
proceed (s, error e) changes rest = record { store = s; changes = changes; failure = some e }
proceed (s, ok _) changes rest = rest s (changes + 1)

-- The loop of `ReconcileBrokerHealth`. An id of the snapshot is one of its brokers.
pub reconcile_loop : ℤ → Time → MetadataSnapshot → List ℤ → RaftMetadataStore → ℕ → Outcome
reconcile_loop timeout now seen [] s changes = record {
  store = s;
  changes = changes;
  failure = none;
}
reconcile_loop timeout now seen (id ∷ ids) s changes =
    let rest = reconcile_loop timeout now seen ids in
    elim (Map.lookup id seen.brokers) [
      | none ↦ rest s changes
      | some b ↦
          let target = stale timeout now b in
          let changed = proceed (set_broker_fence s id target now) changes rest in
          if differ b.fenced target then changed else rest s changes
    ]

pub reconcile_broker_health : RaftMetadataStore → ℤ → Time → Outcome
reconcile_broker_health s timeout now =
    let seen = snapshot s in
    if leb_ℤ timeout (pos 0)
    then record { store = s; changes = 0; failure = some (invalid "timeout must be > 0") }
    else reconcile_loop timeout now seen (sort_ints (keys seen.brokers)) s 0

pub is_broker_eligible : Map ℤ BrokerMetadata → ℤ → Bool
is_broker_eligible brokers id = elim (Map.lookup id brokers) [
  | none ↦ false
  | some broker ↦ not broker.fenced
]

pub elect_from_replicas : Map ℤ BrokerMetadata → List ℤ → ℤ
elect_from_replicas brokers [] = negsuc 0
elect_from_replicas brokers (id ∷ rest) =
    let later = elect_from_replicas brokers rest in
    if is_broker_eligible brokers id then id else later

pub select_eligible_replicas : Map ℤ BrokerMetadata → List ℤ → List ℤ
select_eligible_replicas brokers replicas = filterb (λ id. is_broker_eligible brokers id) replicas

pub target_leader : Map ℤ BrokerMetadata → PartitionMetadata → ℤ
target_leader brokers partition =
    if is_broker_eligible brokers partition.leader_id
    then partition.leader_id
    else elect_from_replicas brokers partition.replicas

-- The ISR that comes with a new leader.
pub elected_isr : Map ℤ BrokerMetadata → PartitionMetadata → ℤ → List ℤ
elected_isr brokers partition target = elim (select_eligible_replicas brokers partition.replicas) [
  | [] ↦ if leb_ℤ (pos 0) target then target ∷ [] else []
  | id ∷ rest ↦ id ∷ rest
]

-- The loop of `ElectTopicLeaders`.
pub elect_loop :
    String → Time → MetadataSnapshot → TopicMetadata → List ℤ → RaftMetadataStore → ℕ → Outcome
elect_loop topic now seen meta [] s changes = record {
  store = s;
  changes = changes;
  failure = none;
}
elect_loop topic now seen meta (pid ∷ pids) s changes =
    let rest = elect_loop topic now seen meta pids in
    elim (Map.lookup pid meta.partitions) [
      | none ↦ rest s changes
      | some partition ↦
          let target = target_leader seen.brokers partition in
          let isr = elected_isr seen.brokers partition target in
          let changed = proceed (set_partition_leader s topic pid target isr now) changes rest in
          if target == partition.leader_id then rest s changes else changed
    ]

-- The part of `ElectTopicLeaders` that works on the snapshot.
pub elect_seen : RaftMetadataStore → String → Time → MetadataSnapshot → Outcome
elect_seen s topic now seen = elim (Map.lookup topic seen.topics) [
  | none ↦ record { store = s; changes = 0; failure = some (topic_not_found topic) }
  | some meta ↦ elect_loop topic now seen meta (sort_ints (keys meta.partitions)) s 0
]

pub elect_topic_leaders : RaftMetadataStore → String → Time → Outcome
elect_topic_leaders s topic now =
    if topic == ""
    then record { store = s; changes = 0; failure = some (invalid "topic is required") }
    else elect_seen s topic now (snapshot s)
