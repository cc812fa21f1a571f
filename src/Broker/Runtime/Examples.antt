-- ===== src/Broker/Runtime/Examples.antt =====
-- A broker that comes to follow a partition, and one that copies it.
use distributed_real_time_ev.Base.{ℕ, ℤ, pos, String, some, List, [], ◌∷◌}
use distributed_real_time_ev.Base.Map
use distributed_real_time_ev.Base.Map.{Map}
use distributed_real_time_ev.ControlPlane.Metadata.{PartitionMetadata}
use distributed_real_time_ev.Broker.{Broker}
use distributed_real_time_ev.Broker.Runtime.{PeerInfo, Workers}
use distributed_real_time_ev.Storage.Record.{size}
use distributed_real_time_ev.Storage.State.{key_comparable}
use distributed_real_time_ev.Storage.Log.Calm.{Calm}
use distributed_real_time_ev.Replication.Worker.{
  ReplicationRecord, Transport, failed, FollowerWorker,
}
use distributed_real_time_ev.Network.Logs.{key_of}
use distributed_real_time_ev.Network.Examples.{broker, one_log}

abbrev second : Broker
second = record broker { local_broker_id = pos 1 }

abbrev peers : Map ℤ PeerInfo
peers = (pos 2, record { id = pos 2; addr = "127.0.0.1:9094" }) ∷ []

abbrev led_by_two : PartitionMetadata
led_by_two = record {
  id = pos 1;
  leader_id = pos 2;
  replicas = pos 1 ∷ pos 2 ∷ [];
  isr = pos 2 ∷ [];
}

abbrev Acks : Type 0
Acks = List ℤ

-- A leader that refuses the acknowledgements.
abbrev refusing : Transport Acks
refusing = record {
  fetch = λ topic partition follower offset batch acks. (failed "closed", acks);
  ack = λ topic partition follower offset acks. (some "not leader", offset ∷ acks);
}

abbrev byte_count : String → ℕ
byte_count s = size s

-- The disk of this broker does not fail, and it keeps all of its segments.
abbrev keeping : Broker
keeping = record second {
  storage = record one_log {
    retention_max_bytes = pos 0;
    retention_max_age = pos 0;
    fsync_mode = "always";
    partition_state =
        (
          key_of "orders" (pos 1),
          record {
            next_offset = pos 3;
            active_segment_id = pos 0;
            segments = pos 0 ∷ [];
            last_fsync_at = 0;
            pending_bytes = pos 0;
          },
        )
        ∷ [];
  };
}

abbrev copier : FollowerWorker
copier = record {
  follower_id = pos 1;
  topic = "orders";
  partition = pos 1;
  next_offset = pos 3;
  max_batch = pos 100;
}

abbrev fourth : ReplicationRecord
fourth = record { offset = pos 3; value = "e" }

abbrev fifth : ReplicationRecord
fifth = record { offset = pos 4; value = "f" }
