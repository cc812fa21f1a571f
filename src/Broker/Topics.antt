-- ===== src/Broker/Topics.antt =====
-- core/internal/broker/broker.go: `EnsureTopicMetadata`.
use distributed_real_time_ev.Base.{
  ℕ, zero, suc, ◌+◌, ◌%◌, ℤ, pos, negsuc, String, ◌==◌, string_comparable, int_comparable, Option,
  none, some, List, [], ◌∷◌, length, get_elem?, if◌then◌else◌,
}
use distributed_real_time_ev.Base.Map
use distributed_real_time_ev.Base.Map.{Map, keys}
use distributed_real_time_ev.ControlPlane.Metadata.{TopicMetadata, BrokerMetadata}
use distributed_real_time_ev.ControlPlane.Store.{
  MetadataError, invalid, Result, ApplyResult, error, ok,
}
use distributed_real_time_ev.ControlPlane.Controller.{count_of, create_topic, set_partition_leader}
use distributed_real_time_ev.Broker.{Action, ◌>>=◌, pure, gets, now, metadata, on_controller}

-- A map gives the zero value for a missing key.
abbrev pub topic_or_zero : Option TopicMetadata → TopicMetadata
topic_or_zero none = record { name = ""; partitions = []; configs = [] }
topic_or_zero (some md) = md

-- The ids of the brokers that are not fenced.
unfoldable pub unfenced : Map ℤ BrokerMetadata → List ℤ
unfenced [] = []
unfenced ((id, broker) ∷ rest) = let ids = unfenced rest in if broker.fenced then ids else id ∷ ids

-- The unfenced brokers, or the local one.
unfoldable pub candidates : ℤ → Map ℤ BrokerMetadata → List ℤ
candidates local brokers = elim (unfenced brokers) [ [] ↦ local ∷ [] | id ∷ ids ↦ id ∷ ids ]

-- brokers[partitionID%len(brokers)]; partition ids are not negative.
chosen : List ℤ → ℤ → Option ℤ
chosen brokers (pos n) = get_elem? brokers (n % length brokers)
chosen brokers (negsuc n) = none

-- The loop of `assignInitialLeaders` over the partitions.
unfoldable pub assign_each : List ℤ → List ℤ → Map ℤ ℤ
unfolding chosen
assign_each brokers [] = []
assign_each brokers (pid ∷ pids) =
    let rest = assign_each brokers pids in
    elim (chosen brokers pid) [ none ↦ rest | some id ↦ Map.insert pid id rest ]

unfoldable pub assign_initial_leaders : TopicMetadata → List ℤ → Map ℤ ℤ
assign_initial_leaders topic [] = []
assign_initial_leaders topic (id ∷ ids) = assign_each (id ∷ ids) (keys topic.partitions)

abbrev pub leader_or : ℤ → Option ℤ → ℤ
leader_or local none = local
leader_or local (some id) = id

-- if err != nil { return err }, in the loop.
unfoldable pub unless_error :
    Result ApplyResult → Action (Option MetadataError) → Action (Option MetadataError)
unless_error (error e) rest = pure (some e)
unless_error (ok a) rest = rest

-- The loop over the partitions: those left, and the next one. The result is the error, if any.
unfoldable pub lead_each : String → ℤ → Map ℤ ℤ → ℕ → ℕ → Action (Option MetadataError)
lead_each topic local leaders zero partition = pure none
lead_each topic local leaders (suc n) partition = do
  let leader = leader_or local (Map.lookup (pos partition) leaders)
  t ← now
  result ← on_controller (λ s. set_partition_leader s topic (pos partition) leader (leader ∷ []) t)
  unless_error result (lead_each topic local leaders n (partition + 1))

-- The rest of `EnsureTopicMetadata` once the topic has been made.
unfoldable pub lead_topic : String → Action (Result TopicMetadata)
lead_topic topic = do
  updated ← metadata
  local ← gets (λ b. b.local_broker_id)
  partitions ← gets (λ b. b.default_partitions)
  let md = topic_or_zero (Map.lookup topic updated.topics)
  failure ←
      lead_each topic local (assign_initial_leaders md (candidates local updated.brokers))
        (count_of partitions) 0
  latest ← metadata
  pure (elim failure [
    | some e ↦ error e
    | none ↦ ok (topic_or_zero (Map.lookup topic latest.topics))
  ])

-- if err != nil { return nil, err }, after the call that makes the topic.
unfoldable pub made : String → Result ApplyResult → Action (Result TopicMetadata)
made topic (error e) = pure (error e)
made topic (ok a) = lead_topic topic

unfoldable pub make_topic : String → Action (Result TopicMetadata)
make_topic topic = do
  partitions ← gets (λ b. b.default_partitions)
  replication_factor ← gets (λ b. b.default_replication_factor)
  t ← now
  result ← on_controller (λ s. create_topic s topic partitions replication_factor t)
  made topic result

unfoldable pub known_or_made : String → Option TopicMetadata → Action (Result TopicMetadata)
known_or_made topic none = make_topic topic
known_or_made topic (some md) = pure (ok md)

unfoldable pub ensure_topic_metadata : String → Action (Result TopicMetadata)
ensure_topic_metadata topic =
    if topic == ""
    then pure (error (invalid "topic is required"))
    else do seen ← metadata; known_or_made topic (Map.lookup topic seen.topics)
