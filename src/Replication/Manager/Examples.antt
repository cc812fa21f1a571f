-- ===== src/Replication/Manager/Examples.antt =====
-- The theorems about the manager at concrete states, and runs of its methods.
use distributed_real_time_ev.Base.{
  ℤ, ltb_ℤ, pos, negsuc, ◌+ℤ◌, ◌==◌, false, String, string_comparable, int_comparable, none, some,
  List, [], ◌∷◌, ◌≡◌, ◌≢◌, refl, ◌⊎◌, inl, inr, arith, if◌then◌else◌,
}
use distributed_real_time_ev.Base.Map
use distributed_real_time_ev.Replication.Partition.{Config, ReplicaState, PartitionState, recompute}
use distributed_real_time_ev.Replication.Manager.{
  Manager, new_manager, find, topic_partitions, ack_replica, set_role, is_leader, bootstrap_offset,
  ensure_partition,
}
use distributed_real_time_ev.Replication.Manager.Calls.{Call, append, ack, assume, report, run}
use distributed_real_time_ev.Replication.Manager.Invariant.{Inv, run-new_manager-Inv}
use distributed_real_time_ev.Replication.Manager.Acks.{advance, follower_offset, ack_replica_lem}
use distributed_real_time_ev.Replication.Manager.AckAll.{
  Round, IsCommitted, wait_for_ack_all, wait_for_ack_all_lem,
}
use distributed_real_time_ev.Replication.Manager.Roles.{dead_assignments, set_role_lem}

abbrev config : Config
config = record {
  replication_factor = pos 3;
  min_in_sync_replicas = pos 2;
  max_replica_lag = pos 0;
  replica_lag_timeout = pos 5000;
  ack_all_timeout = pos 250;
}

abbrev behind : ReplicaState
behind = record { offset = negsuc 0; last_seen = 0; in_sync = false }

abbrev orders : PartitionState
orders = record {
  role = "leader";
  leader_offset = pos 2;
  high_watermark = pos 2;
  followers = (pos 1, behind) ∷ (pos 2, behind) ∷ [];
}

abbrev manager : Manager
manager = record {
  cfg = config;
  partitions = ("orders", (pos 0, orders) ∷ []) ∷ [];
  alert_hook = false;
  alerts = [];
}

abbrev history : List Call
history =
    append "orders" (pos 0) (pos 2) 10
    ∷ ack "orders" (pos 0) (pos 1) (pos 7) 20 21
    ∷ assume "orders" (pos 1) "follower" 22
    ∷ report "orders" (pos 0) 30
    ∷ []

run-new_manager-Inv_example : Inv (run (new_manager config false) history)
run-new_manager-Inv_example = run-new_manager-Inv config false history

found : find manager "orders" (pos 0) ≡ some orders
unfolding topic_partitions Map.lookup
found = refl

ack_replica_lem_example :
    (ps' : PartitionState) × ((ack_replica manager "orders" (pos 0) (pos 1) (pos 7) 20 21).1 ≡ none)
    × (find (ack_replica manager "orders" (pos 0) (pos 1) (pos 7) 20 21).0 "orders" (pos 0)
        ≡ some ps')
    × (ps'.leader_offset ≡ pos 2)
    × (ps'.role ≡ "leader")
    × ((j : ℤ)
        → follower_offset ps' j ≡ (
            if pos 1 == j
            then some (advance (pos 2) (negsuc 0) (pos 7))
            else follower_offset orders j))
unfolding Map.lookup
ack_replica_lem_example =
    ack_replica_lem manager "orders" (pos 0) (pos 1) (pos 7) 20 21 orders behind (omega arith)
      (omega arith) found refl refl

-- The second round finds the follower's acknowledgement.
abbrev rounds : List Round
rounds =
    record { others = history; now = 100; later = 101 }
    ∷ record { others = ack "orders" (pos 0) (pos 1) (pos 2) 150 151 ∷ []; now = 160; later = 500 }
    ∷ []

abbrev started : Manager
started = new_manager config false

wait_for_ack_all_lem_example :
    (m' : Manager) × (((wait_for_ack_all started "orders" (pos 0) (pos 2) 90 rounds
          ≡ some (m', none))
        × IsCommitted m' "orders" (pos 0) (pos 2))
      ⊎ (wait_for_ack_all started "orders" (pos 0) (pos 2) 90 rounds
          ≡ some (m', some "acks=all timeout")))
unfolding run new_manager ◌+ℤ◌
wait_for_ack_all_lem_example =
    wait_for_ack_all_lem started "orders" (pos 0) (pos 2) 90 rounds
      (run-new_manager-Inv config false []) (inr (inl (omega arith)))

dead_assignments_example :
    let ps = (ensure_partition manager "orders" (pos 0)).1 in
    (find (set_role manager "orders" (pos 0) "follower" 50).0 "orders" (pos 0)
      ≡ some (record (recompute config 50 ps).0 { role = "follower" }))
    × (find (bootstrap_offset manager "orders" (pos 0) (pos 9) 50) "orders" (pos 0)
        ≡ some
            (recompute config 50 (record ps {
              leader_offset = if ltb_ℤ ps.leader_offset (pos 9) then pos 9 else ps.leader_offset;
            })).0)
dead_assignments_example =
    dead_assignments manager "orders" (pos 0) "follower" (pos 9) 50 (inr refl)

abbrev follower : String
follower = "follower"

set_role_lem_example :
    (((follower ≡ "leader") ⊎ (follower ≡ "follower"))
      × ((set_role manager "orders" (pos 0) follower 50).1 ≡ none)
      × ((is_leader (set_role manager "orders" (pos 0) follower 50).0 "orders" (pos 0)).1 ≡ false))
    ⊎ ((follower ≢ "leader")
        × (follower ≢ "follower")
        × ((set_role manager "orders" (pos 0) follower 50).1 ≡ some "invalid role")
        × ((set_role manager "orders" (pos 0) follower 50).0 ≡ manager))
set_role_lem_example = set_role_lem manager "orders" (pos 0) follower 50
