-- ===== src/ControlPlane/Store.antt =====
-- core/internal/controlplane/store.go and raft_store.go: commands, and the store that applies them.
pub mod Applying
pub mod Invariant
pub mod Changes
use distributed_real_time_ev.Base.{
  ℕ, ◌+◌, ◌%◌, ◌^◌, ℤ, pos, ltb_ℤ, Time, is_zero, Bool, false, ◌||◌, String, ◌==◌,
  string_comparable, int_comparable, Option, none, some, List, [], ◌∷◌, if◌then◌else◌,
}
use distributed_real_time_ev.Base.Map
use distributed_real_time_ev.Base.Map.{Map}
use distributed_real_time_ev.ControlPlane.Metadata.{
  PartitionMetadata, TopicMetadata, BrokerMetadata, MetadataSnapshot, clone_topic, clone,
}

pub record PartitionLeaderUpdate : Type 0 where
  pub topic : String
  pub partition : ℤ
  pub leader_id : ℤ
  pub isr : List ℤ

pub record BrokerFenceUpdate : Type 0 where
  pub broker_id : ℤ
  pub fenced : Bool

-- The type of a command is a text; the payloads are pointers, `none` where nil.
pub record Command : Type 0 where
  pub kind : String
  pub topic : Option TopicMetadata
  pub broker : Option BrokerMetadata
  pub broker_heartbeat : Option ℤ
  pub partition_leader : Option PartitionLeaderUpdate
  pub broker_fence : Option BrokerFenceUpdate

-- A command with no payload yet.
abbrev pub bare : String → Command
bare kind = record {
  kind = kind;
  topic = none;
  broker = none;
  broker_heartbeat = none;
  partition_leader = none;
  broker_fence = none;
}

abbrev pub upsert_topic : String
upsert_topic = "UPSERT_TOPIC"

abbrev pub register_broker : String
register_broker = "REGISTER_BROKER"

abbrev pub heartbeat_broker : String
heartbeat_broker = "BROKER_HEARTBEAT"

abbrev pub set_leader : String
set_leader = "SET_PARTITION_LEADER"

abbrev pub set_fence : String
set_fence = "SET_BROKER_FENCE"

-- The errors of the control plane, before they are printed.
pub data MetadataError : Type 0 where
  invalid : String → MetadataError
  unknown_command : String → MetadataError
  broker_not_found : ℤ → MetadataError
  topic_not_found : String → MetadataError
  partition_not_found : String → ℤ → MetadataError

pub record RaftMetadataStore : Type 0 where
  pub term : ℕ
  pub index : ℕ
  pub metadata : MetadataSnapshot

pub record ApplyResult : Type 0 where
  pub term : ℕ
  pub index : ℕ

pub data Result (A : Type 0) : Type 0 where
  error : MetadataError → Result A
  ok : A → Result A

-- A nil payload and a payload that the test refuses give one error.
reject : {A : Type 0} → Option A → (A → Bool) → String → Option MetadataError
reject none bad message = some (invalid message)
reject (some a) bad message = if bad a then some (invalid message) else none

unfoldable pub validate_command : Command → Option MetadataError
unfolding reject
validate_command cmd =
    if cmd.kind == upsert_topic
    then reject cmd.topic (λ t. t.name == "") "invalid upsert topic command"
    else if cmd.kind == register_broker
    then reject cmd.broker (λ b. ltb_ℤ b.id (pos 0)) "invalid register broker command"
    else if cmd.kind == heartbeat_broker
    then reject cmd.broker_heartbeat (λ id. ltb_ℤ id (pos 0)) "invalid broker heartbeat command"
    else if cmd.kind == set_leader
    then reject cmd.partition_leader (λ u. u.topic == "" || ltb_ℤ u.partition (pos 0))
        "invalid set partition leader command"
    else if cmd.kind == set_fence
    then reject cmd.broker_fence (λ u. ltb_ℤ u.broker_id (pos 0)) "invalid set broker fence command"
    else some (unknown_command cmd.kind)

unfoldable pub put_topic : MetadataSnapshot → String → TopicMetadata → MetadataSnapshot
put_topic m name topic = record m { topics = Map.insert name topic m.topics }

unfoldable pub put_broker : MetadataSnapshot → ℤ → BrokerMetadata → MetadataSnapshot
put_broker m id broker = record m { brokers = Map.insert id broker m.brokers }

-- The cases of the second `switch`.
unfoldable pub upserted : MetadataSnapshot → TopicMetadata → MetadataSnapshot
upserted m topic = put_topic m topic.name (clone_topic topic)

unfoldable pub registered : MetadataSnapshot → BrokerMetadata → Time → MetadataSnapshot
registered m broker now =
    put_broker m broker.id
      (if is_zero broker.last_heartbeat then record broker { last_heartbeat = now } else broker)

unfoldable pub beaten : MetadataSnapshot → ℤ → Time → Result MetadataSnapshot
beaten m id now = elim (Map.lookup id m.brokers) [
  | none ↦ error (broker_not_found id)
  | some b ↦ ok (put_broker m b.id (record b { last_heartbeat = now; fenced = false }))
]

-- The partition after an update.
unfoldable pub led : PartitionMetadata → PartitionLeaderUpdate → PartitionMetadata
led partition update =
    let moved = record partition { leader_id = update.leader_id } in
    elim update.isr [ [] ↦ moved | id ∷ rest ↦ record moved { isr = update.isr } ]

unfoldable pub leader_set : MetadataSnapshot → PartitionLeaderUpdate → Result MetadataSnapshot
leader_set m update = elim (Map.lookup update.topic m.topics) [
  | none ↦ error (topic_not_found update.topic)
  | some topic ↦ elim (Map.lookup update.partition topic.partitions) [
    | none ↦ error (partition_not_found update.topic update.partition)
    | some partition ↦ ok (
        put_topic m update.topic (record topic {
          partitions = Map.insert update.partition (led partition update) topic.partitions;
        }))
  ]
]

unfoldable pub fence_set : MetadataSnapshot → BrokerFenceUpdate → Result MetadataSnapshot
fence_set m update = elim (Map.lookup update.broker_id m.brokers) [
  | none ↦ error (broker_not_found update.broker_id)
  | some broker ↦ ok (put_broker m broker.id (record broker { fenced = update.fenced }))
]

-- A payload that the validation has let through is not nil.
given : {A B : Type 0} → Option A → B → (A → B) → B
given none b f = b
given (some a) b f = f a

-- The second `switch`, on a valid command.
unfoldable pub change : MetadataSnapshot → Command → Time → Result MetadataSnapshot
unfolding given
change m cmd now =
    if cmd.kind == upsert_topic
    then given cmd.topic (ok m) (λ t. ok (upserted m t))
    else if cmd.kind == register_broker
    then given cmd.broker (ok m) (λ b. ok (registered m b now))
    else if cmd.kind == heartbeat_broker
    then given cmd.broker_heartbeat (ok m) (λ id. beaten m id now)
    else if cmd.kind == set_leader
    then given cmd.partition_leader (ok m) (λ u. leader_set m u)
    else if cmd.kind == set_fence
    then given cmd.broker_fence (ok m) (λ u. fence_set m u)
    else ok m

-- s.index++ on a uint64.
abbrev pub next_index : ℕ → ℕ
next_index index = (index + 1) % 2 ^ 64

unfoldable pub new_raft_metadata_store : RaftMetadataStore
new_raft_metadata_store = record {
  term = 1;
  index = 0;
  metadata = record { topics = []; brokers = [] };
}

unfoldable pub finished :
    RaftMetadataStore → Result MetadataSnapshot → RaftMetadataStore × Result ApplyResult
finished s (error e) = (s, error e)
finished s (ok m) = (
  record s { index = next_index s.index; metadata = m },
  ok (record { term = s.term; index = next_index s.index }),
)

unfoldable pub apply : RaftMetadataStore → Command → Time → RaftMetadataStore × Result ApplyResult
apply s cmd now = elim (validate_command cmd) [
  | some e ↦ (s, error e)
  | none ↦ finished s (change s.metadata cmd now)
]

unfoldable pub snapshot : RaftMetadataStore → MetadataSnapshot
snapshot s = clone s.metadata
