-- ===== src/Broker/Runtime.antt =====
-- core/internal/broker/cluster_runtime.go: the loop that follows the metadata and replicates from the
-- leaders. Its two tickers are the steps `reconcile_roles` and `step_workers`; a goroutine runs them one
-- at a time. The network is a parameter: a transport to each address, on a state of its own.
pub mod Workers
pub mod Following
pub mod Copying
mod Examples
use distributed_real_time_ev.Base.{
  ℕ, zero, suc, ◌+◌, leb, ℤ, pos, negsuc, ◌+ℤ◌, leb_ℤ, ltb_ℤ, int64, unix_nano, Bool, true, false,
  not, ◌&&◌, ◌||◌, ◌==◌, String, string_comparable, int_comparable, Option, none, some, List, [],
  ◌∷◌, if◌then◌else◌,
}
use distributed_real_time_ev.Base.Map
use distributed_real_time_ev.Base.Map.{Map, keys}
use distributed_real_time_ev.Base.Text.{◌⧺◌, split, split_n, itoa, atoi, trim_space, is_empty}
use distributed_real_time_ev.Config.{Config}
use distributed_real_time_ev.Storage.Log
use distributed_real_time_ev.Storage.Log.{last_offset}
use distributed_real_time_ev.Replication.Manager.{Manager, set_role, bootstrap_offset}
use distributed_real_time_ev.Replication.Worker.{
  Transport, ReplicaStorage, WorkerConfig, FollowerWorker, Created, created, rejected,
  new_follower_worker, StepError, step_once,
}
use distributed_real_time_ev.ControlPlane.Metadata.{PartitionMetadata, TopicMetadata}
use distributed_real_time_ev.ControlPlane.Store.{Result, ApplyResult, RaftMetadataStore}
use distributed_real_time_ev.ControlPlane.Controller.{
  heartbeat, set_broker_fence, elect_topic_leaders, Outcome,
}
use distributed_real_time_ev.Broker.{
  Broker, Action, ◌>>=◌, ◌>>◌, continue, pure, gets, now, metadata, on_controller, on_replication,
  done, returned,
}
use distributed_real_time_ev.Broker.Start.{enrol}

pub record PeerInfo : Type 0 where
  pub id : ℤ
  pub addr : String

pub record ReplicaWorkerState : Type 0 where
  pub worker : FollowerWorker
  pub leader_id : ℤ
  pub leader_addr : String
  pub failure_count : ℕ

abbrev pub Workers : Type 0
Workers = Map String ReplicaWorkerState

-- One entry of `parsePeers`: id@address.
peer_parts : List String → Option PeerInfo
peer_parts (number ∷ place ∷ []) = elim (atoi number) [
  | none ↦ none
  | some id ↦
      if ltb_ℤ id (pos 0) || is_empty (trim_space place)
      then none
      else some (record { id = id; addr = trim_space place })
]
peer_parts _ = none

parsed_peers : List String → Map ℤ PeerInfo → Map ℤ PeerInfo
unfolding peer_parts
parsed_peers [] peers = peers
parsed_peers (entry ∷ rest) peers =
    parsed_peers rest (elim (peer_parts (split_n 1 "@" (trim_space entry))) [
      | none ↦ peers
      | some peer ↦ Map.insert peer.id peer peers
    ])

unfoldable pub parse_peers : List String → Map ℤ PeerInfo
unfolding parsed_peers
parse_peers raw = parsed_peers raw []

-- The peers of `newClusterRuntime`: those configured, and the broker itself.
unfoldable pub runtime_peers : Config → Map ℤ PeerInfo
runtime_peers cfg =
    Map.insert cfg.broker_id
      (record { id = cfg.broker_id; addr = cfg.advertised_host ⧺ ":" ⧺ itoa cfg.advertised_port })
      (parse_peers cfg.cluster_peers)

abbrev pub max_failure_before_failover : ℕ
max_failure_before_failover = 10

unfoldable pub worker_key : String → ℤ → String
worker_key topic partition = topic ⧺ "/" ⧺ itoa partition

host_and_port : List String → Option (String × ℤ)
host_and_port (host ∷ number ∷ []) = elim (atoi number) [
  | none ↦ none
  | some port ↦
      if leb_ℤ port (pos 0) || is_empty (trim_space host)
      then none
      else some (trim_space host, port)
]
host_and_port _ = none

-- `splitHostPort`
unfoldable pub split_peer : String → Option (String × ℤ)
unfolding host_and_port
split_peer addr = host_and_port (split ":" addr)

-- The loop of `bootstrapPeers`; the results of the registrations are dropped.
unfoldable pub bootstrap_peers : Map ℤ PeerInfo → Action (Unit {0})
bootstrap_peers [] = pure tt
bootstrap_peers ((id, peer) ∷ rest) = elim (split_peer peer.addr) [
  | none ↦ bootstrap_peers rest
  | some (host, port) ↦ enrol id host port >> bootstrap_peers rest
]

unfoldable pub contains_int : List ℤ → ℤ → Bool
contains_int [] target = false
contains_int (item ∷ items) target = item == target || contains_int items target

-- The worker that has been made, if it has, under its key.
unfoldable pub placed : Workers → String → ℤ → String → Created → Workers
placed workers key leader_id leader_addr (rejected err) = workers
placed workers key leader_id leader_addr (created worker) =
    Map.insert key
      (record {
        worker = worker;
        leader_id = leader_id;
        leader_addr = leader_addr;
        failure_count = 0;
      })
      workers

-- The workers there are, where the one there is follows this leader, or those with a new worker.
unfoldable pub ensured : Option ReplicaWorkerState → ℤ → String → Workers → Workers → Workers
ensured none leader_id leader_addr workers fresh = fresh
ensured (some existing) leader_id leader_addr workers fresh =
    if existing.leader_id == leader_id && existing.leader_addr == leader_addr
    then workers
    else fresh

unfoldable pub ensure_worker : ℤ → Workers → String → ℤ → ℤ → String → ℤ → Workers
ensure_worker local workers topic partition leader_id leader_addr start_offset =
    let key = worker_key topic partition in
    ensured (Map.lookup key workers) leader_id leader_addr workers (
      placed workers key leader_id leader_addr (
        new_follower_worker (record {
          follower_id = local;
          topic = topic;
          partition = partition;
          start_offset = start_offset;
          max_batch = pos 256;
        })))

unfoldable pub stop_worker : Workers → String → ℤ → Workers
stop_worker workers topic partition = Map.delete (worker_key topic partition) workers

-- SetRole, whose error is dropped, and BootstrapOffset.
unfoldable pub follow_role : String → ℤ → String → ℤ → Action (Unit {0})
follow_role topic partition role last = do
  t ← now
  on_replication (λ m. set_role m topic partition role t)
  t₁ ← now
  on_replication (done (λ m. bootstrap_offset m topic partition last t₁))

-- The last part of an iteration: the partition has a leader elsewhere.
unfoldable pub follow : Map ℤ PeerInfo → ℤ → Workers → String → ℤ → ℤ → ℤ → Workers
follow peers local workers topic partition leader_id last = elim (Map.lookup leader_id peers) [
  | none ↦ workers
  | some leader ↦
      ensure_worker local workers topic partition leader_id leader.addr (int64 (last +ℤ pos 1))
]

-- The three cases of an iteration, from the last offset on.
unfoldable pub followed :
    Map ℤ PeerInfo → Workers → String → ℤ → PartitionMetadata → ℤ → ℤ → Action Workers
followed peers workers topic partition pm local last =
    if pm.leader_id == local
    then (follow_role topic partition "leader" last >> pure (stop_worker workers topic partition))
    else if not (contains_int pm.replicas local) || ltb_ℤ pm.leader_id (pos 0)
    then pure (stop_worker workers topic partition)
    else (follow_role topic partition "follower" last
        >> pure (follow peers local workers topic partition pm.leader_id last))

-- One iteration of the inner loop of `reconcileRoles`.
unfoldable pub reconcile_partition :
    Map ℤ PeerInfo → Workers → String → ℤ → PartitionMetadata → Action Workers
reconcile_partition peers workers topic partition pm = do
  local ← gets (λ b. b.local_broker_id)
  last ← gets (λ b. last_offset b.storage (record { topic = topic; partition = partition }))
  followed peers workers topic partition pm local last

unfoldable pub reconcile_partitions :
    Map ℤ PeerInfo → Workers → String → Map ℤ PartitionMetadata → Action Workers
reconcile_partitions peers workers topic [] = pure workers
reconcile_partitions peers workers topic ((pid, pm) ∷ rest) = do
  workers' ← reconcile_partition peers workers topic pid pm
  reconcile_partitions peers workers' topic rest

unfoldable pub reconcile_topics :
    Map ℤ PeerInfo → Workers → Map String TopicMetadata → Action Workers
reconcile_topics peers workers [] = pure workers
reconcile_topics peers workers ((topic, md) ∷ rest) = do
  workers' ← reconcile_partitions peers workers topic md.partitions
  reconcile_topics peers workers' rest

-- HeartbeatSelf
unfoldable pub heartbeat_self : Action (Result ApplyResult)
heartbeat_self = do
  id ← gets (λ b. b.local_broker_id)
  t ← now
  on_controller (λ s. heartbeat s id t)

unfoldable pub reconcile_roles : Map ℤ PeerInfo → Workers → Action Workers
reconcile_roles peers workers = do
  heartbeat_self
  seen ← metadata
  reconcile_topics peers workers seen.topics

-- SetRole to leader, whose error is dropped.
unfoldable pub lead : String → ℤ → Action (Unit {0})
lead topic partition = do
  t ← now
  on_replication (λ m. set_role m topic partition "leader" t)
  pure tt

-- The loop over the partitions of a topic in `tryFailoverForWorker`, on the snapshot before the election.
unfoldable pub take_over : String → Map ℤ PartitionMetadata → Action (Unit {0})
take_over topic [] = pure tt
take_over topic ((pid, pm) ∷ rest) = do
  local ← gets (λ b. b.local_broker_id)
  if pm.leader_id == local then lead topic pid else pure tt
  take_over topic rest

-- The loop over the topics.
unfoldable pub elect_each : Map String TopicMetadata → Action (Unit {0})
elect_each [] = pure tt
elect_each ((topic, tm) ∷ rest) = do
  t ← now
  outcome ←
      on_controller
        (λ s. ((elect_topic_leaders s topic t).store, (elect_topic_leaders s topic t).failure))
  elim outcome [
    | some _ ↦ elect_each rest
    | none ↦ take_over topic tm.partitions >> elect_each rest
  ]

unfoldable pub try_failover_for_worker : ℤ → Action (Unit {0})
try_failover_for_worker leader_id = do
  t ← now
  on_controller (λ s. set_broker_fence s leader_id true t)
  seen ← metadata
  elect_each seen.topics
