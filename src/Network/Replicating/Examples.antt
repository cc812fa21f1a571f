-- ===== src/Network/Replicating/Examples.antt =====
-- A follower fetches two of three records.
use Prim.Native.Char.{Char}
use distributed_real_time_ev.Base.{ℕ, pos, String, map, true, ◌≡◌, refl, arith, IsInt64, All}
use distributed_real_time_ev.Base.Map
use distributed_real_time_ev.Base.Text.{is_space}
use distributed_real_time_ev.Protocol.{map_text}
use distributed_real_time_ev.Protocol.Parsing.{Word}
use distributed_real_time_ev.Storage.World
use distributed_real_time_ev.Storage.Names.{strip_prefix}
use distributed_real_time_ev.Storage.Record.{size}
use distributed_real_time_ev.Replication.Partition.{
  recompute, refresh_all, refresh, fresh, in_sync_offsets, min_offset, status_locked,
}
use distributed_real_time_ev.Replication.Manager.{
  normalise, new_manager, seed_followers, new_partition, topic_partitions, store, ensure_partition,
  recompute_locked, on_leader_append, is_leader, status,
}
use distributed_real_time_ev.Replication.Worker.{received}
use distributed_real_time_ev.Replication.TcpTransport.{behind}
use distributed_real_time_ev.Replication.TcpTransport.Client.{TcpTransport, fetch}
use distributed_real_time_ev.Broker.{Broker}
use distributed_real_time_ev.Network.Logs.{sent}
use distributed_real_time_ev.Network.Fetch.Served.{offered, IsPlain}
use distributed_real_time_ev.Network.Examples.{broker, log}
use distributed_real_time_ev.Network.Replicating.{
  leader_wire, status_seen, IsClean, fetch-leader_wire,
}

abbrev same : Char → Char
same c = c

abbrev byte_count : String → ℕ
byte_count s = size s

abbrev transport : TcpTransport
transport = record { leader_addr = "127.0.0.1:9092"; timeout = pos 2000000000; seq = 0 }

leads : (is_leader broker.replication "orders" (pos 1)).1 ≡ true
unfolding Map.lookup Map.insert normalise new_manager seed_followers new_partition topic_partitions
    store ensure_partition recompute_locked on_leader_append is_leader recompute
leads = refl

bounded : IsInt64 (status_seen broker "orders" (pos 1)).high_watermark
unfolding Map.lookup Map.insert normalise new_manager seed_followers new_partition topic_partitions
    store ensure_partition recompute_locked on_leader_append is_leader status recompute refresh_all
    refresh fresh in_sync_offsets min_offset status_locked World.now
bounded = (omega arith, omega arith)

log-IsClean : All IsClean log
unfolding is_space
log-IsClean = (
  record { offset = (omega arith, omega arith); no_comma = (refl, tt); no_space = (refl, tt) },
  (
    record {
      offset = (omega arith, omega arith);
      no_comma = (refl, (refl, (refl, tt)));
      no_space = (refl, (refl, (refl, tt)));
    },
    (
      record { offset = (omega arith, omega arith); no_comma = (refl, tt); no_space = (refl, tt) },
      tt,
    ),
  ),
)

orders-Word : Word "orders"
unfolding is_space
orders-Word = ((refl, (refl, (refl, (refl, (refl, (refl, tt)))))), refl)

orders-IsPlain : IsPlain "orders"
unfolding behind strip_prefix
orders-IsPlain = record { no_hw = refl; no_records = refl }

fetch-leader_wire_example :
    let st = status_seen broker "orders" (pos 1) in
    (w : TcpTransport × Broker) × (fetch
        (leader_wire same same byte_count byte_count)
        "orders"
        (pos 1)
        (pos 2)
        (pos 1)
        (pos 2)
        (transport, broker)
      ≡ (
        received (record {
          high_watermark = st.high_watermark;
          records = map sent (offered st.leader_offset 1 2 log);
        }),
        w,
      ))
unfolding Map.lookup map_text
fetch-leader_wire_example =
    fetch-leader_wire same same byte_count byte_count broker transport "orders" (pos 1) (pos 2) 1 2
      log refl (refl, (refl, (refl, tt))) log-IsClean refl orders-Word orders-IsPlain refl
      (omega arith, omega arith) (omega arith, omega arith) (omega arith, omega arith)
      (omega arith, omega arith) refl bounded leads
