-- ===== src/Broker/Keeping/Runtime.antt =====
-- The rules for the loop of the cluster runtime (core/internal/broker/cluster_runtime.go): the registrations
-- at the start, the roles that follow the metadata, the steps of the workers, and the failover.
use distributed_real_time_ev.Base.{
  ℕ, ◌+◌, leb, ℤ, ◌==◌, String, string_comparable, int_comparable, Option, none, some, List, [],
  ◌∷◌, inl, inr, Bool-cases, Option-cases,
}
use distributed_real_time_ev.Base.Map
use distributed_real_time_ev.Base.Map.{Map}
use distributed_real_time_ev.Config.{Config}
use distributed_real_time_ev.ControlPlane.Metadata.{PartitionMetadata, TopicMetadata}
use distributed_real_time_ev.ControlPlane.Store.{MetadataError}
use distributed_real_time_ev.Replication.Worker.{Transport, StepError, FollowerWorker}
use distributed_real_time_ev.Replication.Worker.Worlds.{step_once-P}
use distributed_real_time_ev.Broker.{Broker, Action, Ran, returned, raised, panicked, waiting}
use distributed_real_time_ev.Broker.Start.{enrol}
use distributed_real_time_ev.Broker.Keeping.{
  Good, Keeps, Leaves, returns, raises, >>=-Keeps, now-Keeps, pure-Keeps, gets-Keeps, if-Keeps,
  plain_rules,
}
use distributed_real_time_ev.Broker.Keeping.Calls.{call_rules, elect_failure-Keeps}
use distributed_real_time_ev.Broker.Runtime.{
  PeerInfo, ReplicaWorkerState, Workers, max_failure_before_failover, split_peer, runtime_peers,
  bootstrap_peers, follow_role, followed, reconcile_partition, reconcile_partitions,
  reconcile_topics, heartbeat_self, reconcile_roles, lead, take_over, elect_each,
  try_failover_for_worker,
}
use distributed_real_time_ev.Broker.Runtime.Workers.{
  Node, after, beside, local_storage, put_worker, failed_step, stepped, step_known, step_worker,
  step_each, step_workers, reconcile, started,
}

module _ {n : ℕ} where
  pub enrol-Keeps : (id : ℤ) (host : String) (port : ℤ) → Keeps n (enrol id host port)
  unfolding enrol
  enrol-Keeps id host port = search (plain_rules, call_rules) depth 30 fits 2000

  bootstrap_peers-Keeps : (peers : Map ℤ PeerInfo) → Keeps n (bootstrap_peers peers)
  unfolding bootstrap_peers
  bootstrap_peers-Keeps [] = pure-Keeps tt
  bootstrap_peers-Keeps ((id, peer) ∷ rest) = elim (Option-cases (split_peer peer.addr)) [
    | inl e ↦ rw (bootstrap_peers, e) (bootstrap_peers-Keeps rest)
    | inr ((host, port), e) ↦
        rw (bootstrap_peers, e)
          (>>=-Keeps _ _ (enrol-Keeps id host port) (λ x. bootstrap_peers-Keeps rest))
  ]

  follow_role-Keeps :
      (topic : String) (partition : ℤ) (role : String) (last : ℤ)
      → Keeps n (follow_role topic partition role last)
  unfolding follow_role
  follow_role-Keeps topic partition role last = search (plain_rules, call_rules) depth 30 fits 2000

  reconcile_partition-Keeps :
      (peers : Map ℤ PeerInfo) (workers : Workers) (topic : String) (partition : ℤ)
      (pm : PartitionMetadata)
      → Keeps n (reconcile_partition peers workers topic partition pm)
  unfolding reconcile_partition followed
  reconcile_partition-Keeps peers workers topic partition pm =
      search (plain_rules, follow_role-Keeps) depth 30 fits 2000

  reconcile_partitions-Keeps :
      (peers : Map ℤ PeerInfo) (pms : Map ℤ PartitionMetadata) (topic : String) (workers : Workers)
      → Keeps n (reconcile_partitions peers workers topic pms)
  unfolding reconcile_partitions
  reconcile_partitions-Keeps peers [] topic workers = pure-Keeps workers
  reconcile_partitions-Keeps peers ((pid, pm) ∷ rest) topic workers =
      >>=-Keeps _ _ (reconcile_partition-Keeps peers workers topic pid pm)
        (λ workers'. reconcile_partitions-Keeps peers rest topic workers')

  reconcile_topics-Keeps :
      (peers : Map ℤ PeerInfo) (topics : Map String TopicMetadata) (workers : Workers)
      → Keeps n (reconcile_topics peers workers topics)
  unfolding reconcile_topics
  reconcile_topics-Keeps peers [] workers = pure-Keeps workers
  reconcile_topics-Keeps peers ((topic, md) ∷ rest) workers =
      >>=-Keeps _ _ (reconcile_partitions-Keeps peers md.partitions topic workers)
        (λ workers'. reconcile_topics-Keeps peers rest workers')

  reconcile_roles-Keeps :
      (peers : Map ℤ PeerInfo) (workers : Workers) → Keeps n (reconcile_roles peers workers)
  unfolding reconcile_roles heartbeat_self
  reconcile_roles-Keeps peers workers =
      search (plain_rules, call_rules, reconcile_topics-Keeps) depth 30 fits 2000

  lead-Keeps : (topic : String) (partition : ℤ) → Keeps n (lead topic partition)
  unfolding lead
  lead-Keeps topic partition = search (plain_rules, call_rules) depth 30 fits 2000

  take_over-Keeps : (topic : String) (pms : Map ℤ PartitionMetadata) → Keeps n (take_over topic pms)
  unfolding take_over
  take_over-Keeps topic [] = pure-Keeps tt
  take_over-Keeps topic ((pid, pm) ∷ rest) = >>=-Keeps _ _ (gets-Keeps _) (λ local.
      >>=-Keeps _ _ (if-Keeps (pm.leader_id == local) _ _ (lead-Keeps topic pid) (pure-Keeps tt))
        (λ x. take_over-Keeps topic rest))

  next_topic-Keeps :
      (failure : Option MetadataError) (skip go : Action (Unit {0}))
      → Keeps n skip
      → Keeps n go
      → Keeps n (elim failure [ some _ ↦ skip | none ↦ go ])
  next_topic-Keeps none skip go h k = k
  next_topic-Keeps (some e) skip go h k = h

  elect_each-Keeps : (topics : Map String TopicMetadata) → Keeps n (elect_each topics)
  unfolding elect_each
  elect_each-Keeps [] = pure-Keeps tt
  elect_each-Keeps ((topic, tm) ∷ rest) =
      let later = elect_each-Keeps rest in
      >>=-Keeps _ _ now-Keeps (λ t. >>=-Keeps _ _ (elect_failure-Keeps topic t) (λ failure.
        next_topic-Keeps failure _ _ later
          (>>=-Keeps _ _ (take_over-Keeps topic tm.partitions) (λ x. later))))

  try_failover_for_worker-Keeps : (leader_id : ℤ) → Keeps n (try_failover_for_worker leader_id)
  unfolding try_failover_for_worker
  try_failover_for_worker-Keeps leader_id =
      search (plain_rules, call_rules, elect_each-Keeps) depth 30 fits 2000

  pub after-Good :
      {A : Type 0} (b : Broker) (r : Ran A) → Good n b → Leaves n r → Good n (after b r)
  after-Good b (returned a b') g (returns h) = h
  after-Good b (raised code message b') g (raises h) = h
  after-Good b panicked g l = g
  after-Good b waiting g l = g

  pub reconcile-Good :
      {Net : Type 0} (node : Node Net) → Good n node.broker → Good n (reconcile node).broker
  unfolding reconcile
  reconcile-Good node g =
      after-Good node.broker _ g
        ((reconcile_roles-Keeps node.peers node.workers).keeps node.broker g)

  pub started-Good :
      {Net : Type 0} (cfg : Config) (b : Broker) (net : Net)
      → Good n b
      → Good n (started cfg b net).broker
  unfolding started
  started-Good cfg b net g =
      after-Good b _ g ((bootstrap_peers-Keeps (runtime_peers cfg)).keeps b g)

module _ {n : ℕ} {Net : Type 0} (checksum : String → ℕ) (transport : String → Transport Net) where
  failed_step-Good :
      (node : Node Net) (key : String) (state : ReplicaWorkerState)
      → Good n node.broker
      → Good n (failed_step checksum transport node key state).broker
  unfolding failed_step put_worker
  failed_step-Good node key state g =
      elim (Bool-cases (leb max_failure_before_failover (state.failure_count + 1))) [
        | inr e ↦ rw e g
        | inl e ↦ rw e (
            after-Good node.broker _ g
              ((try_failover_for_worker-Keeps state.leader_id).keeps node.broker g))
      ]

  stepped-Good :
      (node : Node Net) (key : String) (state : ReplicaWorkerState)
      (r : FollowerWorker × (Net × Broker) × ℕ × Option StepError)
      → Good n r.1.1
      → Good n (stepped checksum transport node key state r).broker
  unfolding stepped put_worker
  stepped-Good node key state (w, (net, b), applied, none) g = g
  stepped-Good node key state (w, (net, b), applied, some e) g = failed_step-Good _ key _ g

  step_known-Good :
      (node : Node Net) (key : String) (known : Option ReplicaWorkerState)
      → Good n node.broker
      → Good n (step_known checksum transport node key known).broker
  unfolding step_known
  step_known-Good node key none g = g
  step_known-Good node key (some state) g = stepped-Good node key state _ (
      step_once-P (beside (transport state.leader_addr)) (local_storage checksum) (λ w. Good n w.1)
        (λ topic partition follower offset max w h. h) (λ topic partition follower offset w h. h)
        (λ topic partition offset value w h. record {
          replication = h.replication;
          metadata = h.metadata;
          groups = h.groups;
        })
        state.worker (node.net, node.broker) g)

  step_worker-Good :
      (node : Node Net) (key : String)
      → Good n node.broker
      → Good n (step_worker checksum transport node key).broker
  unfolding step_worker
  step_worker-Good node key g = step_known-Good node key (Map.lookup key node.workers) g

  step_each-Good :
      (keys : List String) (node : Node Net)
      → Good n node.broker
      → Good n (step_each checksum transport node keys).broker
  unfolding step_each
  step_each-Good [] node g = g
  step_each-Good (key ∷ rest) node g = step_each-Good rest _ (step_worker-Good node key g)

  pub step_workers-Good :
      (node : Node Net) → Good n node.broker → Good n (step_workers checksum transport node).broker
  unfolding step_workers
  step_workers-Good node g = step_each-Good _ node g
