-- ===== src/Config/Examples.antt =====
-- The configuration of an environment that sets nothing.
use distributed_real_time_ev.Base.{pos, String, [], ◌≡◌, refl, inl, arith}
use distributed_real_time_ev.Base.Text.{trim_space, trim_left, trim_right}
use distributed_real_time_ev.Config.{
  Config, loaded, get_env, parse_csv_env, number_env, read_config, load,
}
use distributed_real_time_ev.Config.Checks.{load_lem}

abbrev no_settings : String → String
no_settings key = ""

abbrev defaults : Config
defaults = record {
  listen_addr = ":9092";
  advertised_host = "127.0.0.1";
  advertised_port = pos 9092;
  broker_id = pos 0;
  cluster_peers = [];
  data_dir = "data";
  num_partitions = pos 3;
  replication_factor = pos 3;
  min_in_sync_replicas = pos 2;
  replica_max_lag = pos 0;
  replica_lag_timeout_ms = pos 10000;
  ack_all_timeout_ms = pos 2000;
  segment_max_bytes = pos 1048576;
  retention_max_bytes = pos 52428800;
  retention_max_age_seconds = pos 86400;
  flush_interval_ms = pos 1000;
  flush_bytes = pos 65536;
  fsync_mode = "always";
}

load_lem_example : load no_settings ≡ loaded defaults
unfolding read_config number_env get_env parse_csv_env trim_space trim_left trim_right
load_lem_example = (load_lem no_settings defaults).1 (
  refl,
  record {
    num_partitions = omega arith;
    replication_factor = omega arith;
    min_in_sync_replicas = omega arith;
    enough_replicas = omega arith;
    replica_max_lag = omega arith;
    replica_lag_timeout_ms = omega arith;
    ack_all_timeout_ms = omega arith;
    listen_addr = refl;
    advertised_host = refl;
    advertised_port = omega arith;
    broker_id = omega arith;
    data_dir = refl;
    segment_max_bytes = omega arith;
    retention_max_bytes = omega arith;
    retention_max_age_seconds = omega arith;
    flush_interval_ms = omega arith;
    flush_bytes = omega arith;
    fsync_mode = inl refl;
  },
)
