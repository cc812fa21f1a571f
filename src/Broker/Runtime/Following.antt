-- ===== src/Broker/Runtime/Following.antt =====
-- What `reconcileRoles` of core/internal/broker/cluster_runtime.go makes of the workers, for one partition.
use distributed_real_time_ev.Base.{
  ℤ, pos, ◌+ℤ◌, leb_ℤ, ltb_ℤ, int64, Bool, true, false, not, ◌||◌, ◌==◌, String, string_comparable,
  int_comparable, none, some, ◌≡◌,
}
use distributed_real_time_ev.Base.Map
use distributed_real_time_ev.Base.Map.{Map}
use distributed_real_time_ev.Storage.Log.{last_offset}
use distributed_real_time_ev.ControlPlane.Metadata.{PartitionMetadata}
use distributed_real_time_ev.Replication.Worker.{FollowerWorker}
use distributed_real_time_ev.Broker.{Broker}
use distributed_real_time_ev.Broker.Runtime.{
  PeerInfo, ReplicaWorkerState, Workers, worker_key, contains_int,
}

-- A worker that follows this peer as the leader.
pub record IsFollowing (workers : Workers) (key : String) (leader_id : ℤ) (addr : String)
    : Type 0 where
  pub state : ReplicaWorkerState
  pub there : Map.lookup key workers ≡ some state
  pub leader : state.leader_id ≡ leader_id
  pub address : state.leader_addr ≡ addr

-- Nothing is to be followed: the broker leads the partition, or has no replica of it, or no one leads it.
abbrev pub stays_put : PartitionMetadata → ℤ → Bool
stays_put pm local =
    pm.leader_id == local || not (contains_int pm.replicas local) || ltb_ℤ pm.leader_id (pos 0)

module _ (local : ℤ) (workers : Workers) (topic : String) (partition leader_id : ℤ)
    (leader_addr : String) (start_offset : ℤ) (positive : leb_ℤ local (pos 0) ≡ false)
    (named : (topic == "") ≡ false) (natural : ltb_ℤ partition (pos 0) ≡ false)
    (from : ltb_ℤ start_offset (pos 0) ≡ false) where
  abbrev key : String
  key = worker_key topic partition

  abbrev fresh_worker : FollowerWorker
  fresh_worker = record {
    follower_id = local;
    topic = topic;
    partition = partition;
    next_offset = start_offset;
    max_batch = pos 256;
  }

  abbrev fresh_state : ReplicaWorkerState
  fresh_state = record {
    worker = fresh_worker;
    leader_id = leader_id;
    leader_addr = leader_addr;
    failure_count = 0;
  }

  abbrev fresh_workers : Workers
  fresh_workers = Map.insert key fresh_state workers

-- What the workers are to be after the iteration.
pub record IsSettled (peers : Map ℤ PeerInfo) (workers : Workers) (topic : String) (partition : ℤ)
    (pm : PartitionMetadata) (local : ℤ) (workers' : Workers) : Type 0 where
  pub stops : stays_put pm local ≡ true → Map.lookup (worker_key topic partition) workers' ≡ none
  pub follows :
      (peer : PeerInfo)
      → stays_put pm local ≡ false
      → Map.lookup pm.leader_id peers ≡ some peer
      → IsFollowing workers' (worker_key topic partition) pm.leader_id peer.addr
  pub others :
      (k : String)
      → (worker_key topic partition == k) ≡ false
      → Map.lookup k workers' ≡ Map.lookup k workers

module _ (peers : Map ℤ PeerInfo) (workers : Workers) (topic : String) (partition : ℤ)
    (pm : PartitionMetadata) (b : Broker) (positive : leb_ℤ b.local_broker_id (pos 0) ≡ false)
    (named : (topic == "") ≡ false) (natural : ltb_ℤ partition (pos 0) ≡ false)
    (from : ltb_ℤ
        (int64 (last_offset b.storage (record { topic = topic; partition = partition }) +ℤ pos 1))
        (pos 0)
      ≡ false) where
  abbrev last : ℤ
  last = last_offset b.storage (record { topic = topic; partition = partition })

  abbrev Settled : Workers → Type 0
  Settled workers' = IsSettled peers workers topic partition pm b.local_broker_id workers'
