-- ===== src/Network/Examples.antt =====
-- A broker with three records of one partition, asked for them by a follower and by a consumer.
use distributed_real_time_ev.Base.{
  ◌+◌, ℤ, pos, IsInt64, true, String, some, List, [], ◌∷◌, map, ◌≡◌, refl, arith,
}
use distributed_real_time_ev.Base.Map
use distributed_real_time_ev.Base.Text.{◌⧺◌, itoa}
use distributed_real_time_ev.Base.Text.Splitting.{Free}
use distributed_real_time_ev.Storage.World
use distributed_real_time_ev.Storage.World.{World}
use distributed_real_time_ev.Storage.Names.{strip_prefix}
use distributed_real_time_ev.Storage.Record.{Message}
use distributed_real_time_ev.Storage.State.{Storage, key_comparable}
use distributed_real_time_ev.Coordinator.State.{absent, new_group_manager}
use distributed_real_time_ev.Coordinator.Offsets.{absent as no_offsets, new_offset_manager}
use distributed_real_time_ev.Replication.Manager.{new_manager, on_leader_append, high_watermark}
use distributed_real_time_ev.Replication.Partition.{Config, Status}
use distributed_real_time_ev.Replication.TcpTransport.{behind, parse_fetch}
use distributed_real_time_ev.ControlPlane.Metadata.{TopicMetadata, PartitionMetadata}
use distributed_real_time_ev.ControlPlane.Store.{new_raft_metadata_store}
use distributed_real_time_ev.Broker.{Broker, returned}
use distributed_real_time_ev.Network.Logs.{key_of, sent, messages_text, handle_consume}
use distributed_real_time_ev.Network.Fetch.{fetched}
use distributed_real_time_ev.Network.Fetch.Served.{offered, IsServable, fetched-parse_fetch}
use distributed_real_time_ev.Network.Visible.{between, read_once, handle_consume_lem}

abbrev pub log : List Message
log =
    record { offset = pos 0; value = "a" }
    ∷ record { offset = pos 1; value = "b:c" }
    ∷ record { offset = pos 2; value = "d" }
    ∷ []

abbrev pub one_log : Storage
one_log = record {
  data_of = (key_of "orders" (pos 1), log) ∷ [];
  num_partitions = pos 3;
  segment_max_bytes = pos 100;
  retention_max_bytes = pos 200;
  retention_max_age = pos 1000000000;
  flush_interval = pos 1000000000;
  flush_bytes = pos 1;
  fsync_mode = "never";
  partition_state = [];
  local_replica_count = 3;
  world = record { files = []; answers = []; clock = λ n. n + 63000000000000000000; ticks = 0 };
}

abbrev second : PartitionMetadata
second = record { id = pos 1; leader_id = pos 0; replicas = pos 0 ∷ []; isr = pos 0 ∷ [] }

abbrev orders : TopicMetadata
orders = record { name = "orders"; partitions = (pos 1, second) ∷ []; configs = [] }

abbrev replicas : Config
replicas = record {
  replication_factor = pos 3;
  min_in_sync_replicas = pos 2;
  max_replica_lag = pos 0;
  replica_lag_timeout = pos 10000000000;
  ack_all_timeout = pos 2000000000;
}

abbrev pub broker : Broker
broker = record {
  storage = one_log;
  groups = new_group_manager 3 absent [];
  offsets = new_offset_manager no_offsets [];
  replication =
      on_leader_append (new_manager replicas true) "orders" (pos 1) (pos 2) 62000000000000000000;
  controller = record new_raft_metadata_store {
    metadata = record { topics = ("orders", orders) ∷ []; brokers = [] };
  };
  local_broker_id = pos 0;
  default_partitions = pos 3;
  default_replication_factor = pos 3;
}

abbrev report : Status
report = record {
  topic = "orders";
  partition = pos 1;
  role = "leader";
  leader_offset = pos 2;
  high_watermark = pos 1;
  in_sync_replicas = pos 0 ∷ [];
  under_replicated = true;
  replication_factor = pos 3;
}

served :
    (offset : ℤ) (value : String)
    → IsInt64 offset
    → Free "," value
    → Free " " value
    → IsServable (record { offset = offset; value = value })
served offset value h k l = record { sendable = record { offset = h; no_comma = k }; no_space = l }

fetched-parse_fetch_example :
    (answer : String) × (fetched "orders" (pos 1) (pos 2) (pos 1) (pos 1) report broker
      ≡ returned answer broker)
    × (parse_fetch answer
        ≡ some (record { high_watermark = pos 1; records = map sent (offered (pos 2) 1 1 log) }))
unfolding behind strip_prefix Map.lookup
fetched-parse_fetch_example =
    fetched-parse_fetch broker "orders" (pos 1) (pos 2) 1 1 report log refl
      (refl, (refl, (refl, tt))) (record { no_hw = refl; no_records = refl })
      (omega arith, omega arith)
      (
        served (pos 0) "a" (omega arith, omega arith) (refl, tt) (refl, tt),
        (
          served (pos 1) "b:c" (omega arith, omega arith) (refl, (refl, (refl, tt)))
              (refl, (refl, (refl, tt))),
          (served (pos 2) "d" (omega arith, omega arith) (refl, tt) (refl, tt), tt),
        ),
      )

handle_consume_lem_example :
    let hw = (high_watermark broker.replication "orders" (pos 1) 63000000000000000000).1 in
    handle_consume ("orders" ∷ itoa (pos 1) ∷ itoa (pos 1) ∷ []) broker
    ≡ returned
        ("messages=" ⧺ messages_text (between 1 hw log) ⧺ " hw=" ⧺ itoa hw)
        (read_once broker "orders" (pos 1))
unfolding Map.lookup World.now
handle_consume_lem_example =
    handle_consume_lem broker "orders" (pos 1) 1 log refl (refl, (refl, (refl, tt))) orders second
      refl refl refl (omega arith, omega arith) (omega arith, omega arith)
