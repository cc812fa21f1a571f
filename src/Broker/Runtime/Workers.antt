-- ===== src/Broker/Runtime/Workers.antt =====
-- core/internal/broker/cluster_runtime.go: `stepWorkers`, one step of each follower worker, with the
-- failover after ten failures in a row. A worker appends to the storage of the broker.
use distributed_real_time_ev.Base.{
  ℕ, ◌+◌, leb, ltb, ℤ, String, string_comparable, Option, none, some, List, [], ◌∷◌, if◌then◌else◌,
}
use distributed_real_time_ev.Base.Map
use distributed_real_time_ev.Base.Map.{Map, keys}
use distributed_real_time_ev.Config.{Config}
use distributed_real_time_ev.Storage.Log
use distributed_real_time_ev.Replication.Worker.{
  Transport, ReplicaStorage, FollowerWorker, StepError, step_once,
}
use distributed_real_time_ev.Broker.{Broker, Ran, returned, raised, panicked, waiting}
use distributed_real_time_ev.Broker.Runtime.{
  PeerInfo, ReplicaWorkerState, Workers, max_failure_before_failover, runtime_peers,
  bootstrap_peers, reconcile_roles, try_failover_for_worker,
}

-- The runtime with its broker, and the state of the network.
pub record Node (Net : Type 0) : Type 0 where
  pub broker : Broker
  pub peers : Map ℤ PeerInfo
  pub workers : Workers
  pub net : Net

-- What a call on the broker leaves. No call of the runtime panics or waits.
abbrev pub after : {A : Type 0} → Broker → Ran A → Broker
after b (returned _ b') = b'
after b (raised _ _ b') = b'
after b panicked = b
after b waiting = b

abbrev pub value_or : {A : Type 0} → A → Ran A → A
value_or a (returned a' _) = a'
value_or a (raised _ _ _) = a
value_or a panicked = a
value_or a waiting = a

-- A transport next to the broker, which it does not touch.
abbrev pub beside : {Net : Type 0} → Transport Net → Transport (Net × Broker)
beside t = record {
  fetch = λ topic partition follower offset max w.
      let (r, n) = t.fetch topic partition follower offset max w.0 in (r, (n, w.1));
  ack = λ topic partition follower offset w.
      let (r, n) = t.ack topic partition follower offset w.0 in (r, (n, w.1));
}

module _ {Net : Type 0} (checksum : String → ℕ) where
  -- storage.Storage as the worker's ReplicaStorage.
  abbrev pub local_storage : ReplicaStorage (Net × Broker)
  local_storage = record {
    append_replicated = λ topic partition offset value w.
        let (err, s) =
          Log.append_replicated checksum w.1.storage
            (record { topic = topic; partition = partition }) offset value in
        (err, (w.0, record w.1 { storage = s }));
  }

module _ {Net : Type 0} (checksum : String → ℕ) (transport : String → Transport Net) where
  unfoldable pub put_worker : Node Net → String → ReplicaWorkerState → Node Net
  put_worker node key state = record node { workers = Map.insert key state node.workers }

  -- What follows a step that has failed.
  unfoldable pub failed_step : Node Net → String → ReplicaWorkerState → Node Net
  failed_step node key state =
      let count = state.failure_count + 1 in
      if leb max_failure_before_failover count
      then put_worker
          (record node {
            broker = after node.broker (try_failover_for_worker state.leader_id node.broker);
          })
          key (record state { failure_count = 0 })
      else put_worker node key (record state { failure_count = count })

  -- The end of an iteration, by the step's result.
  unfoldable pub stepped :
      Node Net
      → String
      → ReplicaWorkerState
      → FollowerWorker × (Net × Broker) × ℕ × Option StepError
      → Node Net
  stepped node key state (w, (n, b), applied, failure) =
      let node' = record node { broker = b; net = n } in
      let state' = record state { worker = w } in
      elim failure [
        | some _ ↦ failed_step node' key state'
        | none ↦
            put_worker node' key
              (if ltb 0 applied then record state' { failure_count = 0 } else state')
      ]

  unfoldable pub step_known : Node Net → String → Option ReplicaWorkerState → Node Net
  step_known node key none = node
  step_known node key (some state) = stepped node key state (
      step_once (beside (transport state.leader_addr)) (local_storage checksum) state.worker
        (node.net, node.broker))

  unfoldable pub step_worker : Node Net → String → Node Net
  step_worker node key = step_known node key (Map.lookup key node.workers)

  unfoldable pub step_each : Node Net → List String → Node Net
  step_each node [] = node
  step_each node (key ∷ rest) = step_each (step_worker node key) rest

  unfoldable pub step_workers : Node Net → Node Net
  step_workers node = step_each node (keys node.workers)

unfoldable pub reconcile : {Net : Type 0} → Node Net → Node Net
reconcile node =
    let r = reconcile_roles node.peers node.workers node.broker in
    record node { broker = after node.broker r; workers = value_or node.workers r }

-- `NewBroker`'s runtime once `start` has registered the peers.
unfoldable pub started : {Net : Type 0} → Config → Broker → Net → Node Net
started cfg b net = record {
  broker = after b (bootstrap_peers (runtime_peers cfg) b);
  peers = runtime_peers cfg;
  workers = [];
  net = net;
}
