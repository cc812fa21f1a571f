-- ===== src/Config.antt =====
-- core/internal/config/config.go: the configuration, from the environment. The environment is a
-- parameter, the empty text where a variable is not set. The error of a number that does not parse is
-- cut off before the text that package strconv gives.
pub mod Checks
mod Examples
use distributed_real_time_ev.Base.{
  ℤ, pos, negsuc, leb_ℤ, ltb_ℤ, Bool, true, false, not, ◌&&◌, ◌==◌, String, string_comparable,
  Option, none, some, List, [], ◌∷◌, if◌then◌else◌,
}
use distributed_real_time_ev.Base.Text.{◌⧺◌, split, trim_space, is_empty, atoi}

pub record Config : Type 0 where
  pub listen_addr : String
  pub advertised_host : String
  pub advertised_port : ℤ
  pub broker_id : ℤ
  pub cluster_peers : List String
  pub data_dir : String
  pub num_partitions : ℤ
  pub replication_factor : ℤ
  pub min_in_sync_replicas : ℤ
  pub replica_max_lag : ℤ
  pub replica_lag_timeout_ms : ℤ
  pub ack_all_timeout_ms : ℤ
  pub segment_max_bytes : ℤ
  pub retention_max_bytes : ℤ
  pub retention_max_age_seconds : ℤ
  pub flush_interval_ms : ℤ
  pub flush_bytes : ℤ
  pub fsync_mode : String

-- A value, or the message of the error that ends `Load`.
pub data Loaded (A : Type 0) : Type 0 where
  rejected : String → Loaded A
  loaded : A → Loaded A

infixl 5 ◌>>=◌
abbrev pub ◌>>=◌ : {A B : Type 0} → Loaded A → (A → Loaded B) → Loaded B
rejected message >>= f = rejected message
loaded a >>= f = f a

-- getEnv
unfoldable pub get_env : (String → String) → String → String → String
get_env env key fallback = if is_empty (env key) then fallback else env key

-- The parts of a list that are not blank, trimmed.
unfoldable pub trimmed_parts : List String → List String
trimmed_parts [] = []
trimmed_parts (p ∷ rest) =
    let others = trimmed_parts rest in
    if is_empty (trim_space p) then others else trim_space p ∷ others

-- parseCSVEnv
unfoldable pub parse_csv_env : (String → String) → String → List String
parse_csv_env env key =
    let raw = trim_space (env key) in if is_empty raw then [] else trimmed_parts (split "," raw)

abbrev pub number_or : String → Option ℤ → Loaded ℤ
number_or key none = rejected ("invalid " ⧺ key)
number_or key (some n) = loaded n

-- if raw := os.Getenv(key); raw != "" { ... }
unfoldable pub number_env : (String → String) → String → ℤ → Loaded ℤ
number_env env key fallback =
    if is_empty (env key) then loaded fallback else number_or key (atoi (env key))

-- The first of the messages whose test holds.
unfoldable pub first_failure : List (Bool × String) → Option String
first_failure [] = none
first_failure ((failed, message) ∷ rest) =
    let later = first_failure rest in if failed then some message else later

-- The tests at the end of `Load`, in their order.
unfoldable pub checks : Config → List (Bool × String)
checks cfg =
    (leb_ℤ cfg.num_partitions (pos 0), "num partitions must be > 0")
    ∷ (leb_ℤ cfg.replication_factor (pos 0), "replication factor must be > 0")
    ∷ (leb_ℤ cfg.min_in_sync_replicas (pos 0), "min isr must be > 0")
    ∷ (
      ltb_ℤ cfg.replication_factor cfg.min_in_sync_replicas,
      "min isr cannot exceed replication factor",
    )
    ∷ (ltb_ℤ cfg.replica_max_lag (pos 0), "replica max lag must be >= 0")
    ∷ (leb_ℤ cfg.replica_lag_timeout_ms (pos 0), "replica lag timeout must be > 0")
    ∷ (leb_ℤ cfg.ack_all_timeout_ms (pos 0), "ack all timeout must be > 0")
    ∷ (is_empty cfg.listen_addr, "listen addr cannot be empty")
    ∷ (is_empty cfg.advertised_host, "advertised host cannot be empty")
    ∷ (leb_ℤ cfg.advertised_port (pos 0), "advertised port must be > 0")
    ∷ (ltb_ℤ cfg.broker_id (pos 0), "broker id must be >= 0")
    ∷ (is_empty cfg.data_dir, "data dir cannot be empty")
    ∷ (leb_ℤ cfg.segment_max_bytes (pos 0), "segment max bytes must be > 0")
    ∷ (leb_ℤ cfg.retention_max_bytes (pos 0), "retention max bytes must be > 0")
    ∷ (leb_ℤ cfg.retention_max_age_seconds (pos 0), "retention max age seconds must be > 0")
    ∷ (leb_ℤ cfg.flush_interval_ms (pos 0), "flush interval ms must be > 0")
    ∷ (leb_ℤ cfg.flush_bytes (pos 0), "flush bytes must be > 0")
    ∷ (
      not (cfg.fsync_mode == "always")
          && not (cfg.fsync_mode == "interval")
          && not (cfg.fsync_mode == "never"),
      "fsync mode must be one of: always, interval, never",
    )
    ∷ []

-- The settings that are numbers, read one after the other.
unfoldable pub read_config : (String → String) → Loaded Config
read_config env = do
  num_partitions ← number_env env "FLUX_NUM_PARTITIONS" (pos 3)
  advertised_port ← number_env env "FLUX_ADVERTISED_PORT" (pos 9092)
  broker_id ← number_env env "FLUX_BROKER_ID" (pos 0)
  replication_factor ← number_env env "FLUX_REPLICATION_FACTOR" (pos 3)
  min_in_sync_replicas ← number_env env "FLUX_MIN_ISR" (pos 2)
  replica_max_lag ← number_env env "FLUX_REPLICA_MAX_LAG" (pos 0)
  replica_lag_timeout_ms ← number_env env "FLUX_REPLICA_LAG_TIMEOUT_MS" (pos 10000)
  ack_all_timeout_ms ← number_env env "FLUX_ACK_ALL_TIMEOUT_MS" (pos 2000)
  segment_max_bytes ← number_env env "FLUX_SEGMENT_MAX_BYTES" (pos 1048576)
  retention_max_bytes ← number_env env "FLUX_RETENTION_MAX_BYTES" (pos 52428800)
  retention_max_age_seconds ← number_env env "FLUX_RETENTION_MAX_AGE_SECONDS" (pos 86400)
  flush_interval_ms ← number_env env "FLUX_FLUSH_INTERVAL_MS" (pos 1000)
  flush_bytes ← number_env env "FLUX_FLUSH_BYTES" (pos 65536)
  loaded (record {
    listen_addr = get_env env "FLUX_LISTEN_ADDR" ":9092";
    advertised_host = get_env env "FLUX_ADVERTISED_HOST" "127.0.0.1";
    cluster_peers = parse_csv_env env "FLUX_CLUSTER_PEERS";
    data_dir = get_env env "FLUX_DATA_DIR" "data";
    num_partitions = num_partitions;
    advertised_port = advertised_port;
    broker_id = broker_id;
    replication_factor = replication_factor;
    min_in_sync_replicas = min_in_sync_replicas;
    replica_max_lag = replica_max_lag;
    replica_lag_timeout_ms = replica_lag_timeout_ms;
    ack_all_timeout_ms = ack_all_timeout_ms;
    segment_max_bytes = segment_max_bytes;
    retention_max_bytes = retention_max_bytes;
    retention_max_age_seconds = retention_max_age_seconds;
    flush_interval_ms = flush_interval_ms;
    flush_bytes = flush_bytes;
    fsync_mode = get_env env "FLUX_FSYNC_MODE" "always";
  })

abbrev pub checked : Config → Option String → Loaded Config
checked cfg none = loaded cfg
checked cfg (some message) = rejected message

unfoldable pub load : (String → String) → Loaded Config
load env = do cfg ← read_config env; checked cfg (first_failure (checks cfg))
