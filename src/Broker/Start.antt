-- ===== src/Broker/Start.antt =====
-- core/internal/broker/broker.go: `NewBroker`. What the data directory holds, the answers of the
-- operating system and the clock are arguments; the checksum is a parameter, as in Storage.Record.
use Prim.Native.Char.{Char, code}
use distributed_real_time_ev.Base.{
  ℕ, eqb, ℤ, pos, leb_ℤ, ltb_ℤ, unix_nano, Bool, true, false, ◌||◌, String, Option, none, some,
  List, if◌then◌else◌,
}
use distributed_real_time_ev.Base.Text.{cut, trim_space, is_empty, atoi}
use distributed_real_time_ev.Config.{Config}
use distributed_real_time_ev.Storage.World.{World}
use distributed_real_time_ev.Storage.Names.{cut_last}
use distributed_real_time_ev.Storage.Loading.{Config as StorageConfig, duration, new_storage}
use distributed_real_time_ev.Coordinator.State.{File, Save, new_group_manager}
use distributed_real_time_ev.Coordinator.Offsets.{OffsetFile, new_offset_manager}
use distributed_real_time_ev.Replication.Partition.{Config as ReplicationConfig}
use distributed_real_time_ev.Replication.Manager.{new_manager}
use distributed_real_time_ev.ControlPlane.Store.{ApplyResult, Result, new_raft_metadata_store}
use distributed_real_time_ev.ControlPlane.Controller.{count_of, register}
use distributed_real_time_ev.Broker.{Broker, Action, ◌>>=◌, gets, now, on_controller, returned}

-- What net.SplitHostPort makes of the text before the last colon and the port behind it.
has : Char → String → Bool
has c s = elim (cut c s) [ none ↦ false | some _ ↦ true ]

bracketed : String → String → Option (String × String)
unfolding has
bracketed inner port =
    if has "[" inner || has "[" port || has "]" port then none else some (inner, port)

plain : String → String → Option (String × String)
unfolding has
plain left port =
    if has ":" left || has "[" left || has "]" left || has "[" port || has "]" port
    then none
    else some (left, port)

-- A text in brackets ends just before the last colon.
closed : Option (String × String) → String → Option (String × String)
unfolding bracketed
closed none port = none
closed (some (inner, after)) port = if is_empty after then bracketed inner port else none

host_part : String → String → Option (String × String)
unfolding closed plain
host_part String.[] port = plain String.[] port
host_part (String.◌∷◌ c left) port =
    let full = plain (String.◌∷◌ c left) port in
    if eqb (code c) b'[' then closed (cut "]" left) port else full

-- net.SplitHostPort
unfoldable pub split_host_port : String → Option (String × String)
unfolding host_part
split_host_port addr = elim (cut_last ":" addr) [
  | none ↦ none
  | some (left, port) ↦ host_part left port
]

-- A port that parses and is positive.
abbrev pub port_or : ℤ → Option ℤ → ℤ
port_or fallback none = fallback
port_or fallback (some p) = if ltb_ℤ (pos 0) p then p else fallback

split_addr : Option (String × String) → String × ℤ
split_addr none = ("127.0.0.1", pos 9092)
split_addr (some (h, p)) = ((if is_empty h then "127.0.0.1" else h), port_or (pos 9092) (atoi p))

from_colon : String → String × ℤ
unfolding split_addr
from_colon String.[] = split_addr (split_host_port String.[])
from_colon (String.◌∷◌ c s) =
    let split = split_addr (split_host_port (String.◌∷◌ c s)) in
    if eqb (code c) b':' then ("127.0.0.1", port_or (pos 9092) (atoi s)) else split

unfoldable pub parse_listen_addr : String → String × ℤ
unfolding from_colon
parse_listen_addr listen = from_colon (trim_space listen)

-- The host and the port that the broker registers under.
unfoldable pub advertised : Config → String × ℤ
advertised cfg =
    let host = trim_space cfg.advertised_host in
    let (fallback_host, fallback_port) = parse_listen_addr cfg.listen_addr in
    (
      (if is_empty host then fallback_host else host),
      (if leb_ℤ cfg.advertised_port (pos 0) then fallback_port else cfg.advertised_port),
    )

-- RegisterBroker(id, host, port, time.Now().UnixNano())
unfoldable pub enrol : ℤ → String → ℤ → Action (Result ApplyResult)
enrol id host port = do
  t ← now
  t₁ ← now
  alive ← now
  applied ← now
  on_controller (λ s. register s id host port (unix_nano t) t₁ alive applied)

unfoldable pub bootstrap_controller_metadata : Config → Action (Result ApplyResult)
bootstrap_controller_metadata cfg = do
  id ← gets (λ b. b.local_broker_id)
  enrol id (advertised cfg).0 (advertised cfg).1

unfoldable pub replication_config : Config → ReplicationConfig
replication_config cfg = record {
  replication_factor = cfg.replication_factor;
  min_in_sync_replicas = cfg.min_in_sync_replicas;
  max_replica_lag = cfg.replica_max_lag;
  replica_lag_timeout = duration 1000000 cfg.replica_lag_timeout_ms;
  ack_all_timeout = duration 1000000 cfg.ack_all_timeout_ms;
}

unfoldable pub storage_config : Config → StorageConfig
storage_config cfg = record {
  num_partitions = cfg.num_partitions;
  segment_max_bytes = cfg.segment_max_bytes;
  retention_max_bytes = cfg.retention_max_bytes;
  retention_max_age_seconds = cfg.retention_max_age_seconds;
  flush_interval_ms = cfg.flush_interval_ms;
  flush_bytes = cfg.flush_bytes;
  fsync_mode = cfg.fsync_mode;
}

-- groups.json and offsets.json, with the answers to the calls that save them.
pub record Disk : Type 0 where
  pub group_file : File
  pub group_saves : List Save
  pub offset_file : OffsetFile
  pub offset_saves : List Save

module _ (checksum : String → ℕ) where
  -- The parts, before the broker registers itself.
  unfoldable pub assembled : Config → Disk → World → Broker
  assembled cfg disk w = record {
    storage = new_storage checksum (storage_config cfg) w;
    groups = new_group_manager (count_of cfg.num_partitions) disk.group_file disk.group_saves;
    offsets = new_offset_manager disk.offset_file disk.offset_saves;
    replication = new_manager (replication_config cfg) true;
    controller = new_raft_metadata_store;
    local_broker_id = cfg.broker_id;
    default_partitions = cfg.num_partitions;
    default_replication_factor = cfg.replication_factor;
  }

  -- The broker is registered, or not where that is refused: the result is dropped.
  unfoldable pub new_broker : Config → Disk → World → Broker
  new_broker cfg disk w = elim (bootstrap_controller_metadata cfg (assembled cfg disk w)) [
    | returned _ b ↦ b
    | _ ↦ assembled cfg disk w
  ]
