-- ===== src/Network/Fetch.antt =====
-- core/internal/network/handler.go: `handleBrokerFetch`, which serves the records of a partition to the
-- brokers that follow it. Making room for the records is taken to succeed.
pub mod Served
use distributed_real_time_ev.Base.{
  ℕ, ℤ, pos, leb_ℤ, ltb_ℤ, Bool, ◌||◌, not, String, Option, none, some, List, [], ◌∷◌, take,
  if◌then◌else◌,
}
use distributed_real_time_ev.Base.Text.{◌⧺◌, itoa}
use distributed_real_time_ev.Storage.Record.{Message}
use distributed_real_time_ev.Storage.Log.{consume}
use distributed_real_time_ev.Replication.Partition.{Status}
use distributed_real_time_ev.Replication.Manager.{is_leader, status}
use distributed_real_time_ev.ControlPlane.Controller.{count_of}
use distributed_real_time_ev.Broker.{
  Broker, Action, ◌>>=◌, ◌>>◌, continue, pure, raise, now, on_replication, raise_if, or_raise,
  raised, returned,
}
use distributed_real_time_ev.Network.Arguments.{int_arg}
use distributed_real_time_ev.Network.Logs.{key_of, read_messages, messages_text}

-- topic=%s partition=%d follower=%d hw=%d records=%s
unfoldable pub fetch_payload : String → ℤ → ℤ → ℤ → String → String
fetch_payload topic partition follower hw records =
    "topic="
    ⧺ topic
    ⧺ " partition="
    ⧺ itoa partition
    ⧺ " follower="
    ⧺ itoa follower
    ⧺ " hw="
    ⧺ itoa hw
    ⧺ " records="
    ⧺ records

-- The records of the answer, from the status on: at most `max`, which is positive.
unfoldable pub fetched : String → ℤ → ℤ → ℤ → ℤ → Status → Action String
fetched topic partition follower offset max st =
    if ltb_ℤ st.leader_offset (pos 0) || ltb_ℤ st.leader_offset offset
    then pure (fetch_payload topic partition follower st.high_watermark "")
    else do
      ms ← read_messages topic partition offset
      pure (
          fetch_payload topic partition follower st.high_watermark
            (messages_text (take (count_of max) ms)))

-- The part of `handleBrokerFetch` behind the reading of its arguments.
unfoldable pub serve_fetch : String → ℤ → ℤ → ℤ → ℤ → Action String
serve_fetch topic partition follower offset max = do
  leads ← on_replication (λ m. is_leader m topic partition)
  raise_if (not leads) "NOT_LEADER" "partition leader unavailable on this broker"
  t ← now
  st ← on_replication (λ m. status m topic partition t)
  fetched topic partition follower offset max st

-- The maximal number of messages, from the argument that may be there.
unfoldable pub max_arg : Option String → Action ℤ
max_arg none = pure (pos 100)
max_arg (some arg) = do
  max ← int_arg arg "max_messages"
  raise_if (leb_ℤ max (pos 0)) "BAD_REQUEST" "max_messages must be > 0"
  pure max

unfoldable pub fetch_args : String → String → String → String → Option String → Action String
fetch_args topic number id from limit = do
  partition ← int_arg number "partition"
  follower ← int_arg id "follower_id"
  offset ← int_arg from "offset"
  max ← max_arg limit
  serve_fetch topic partition follower offset max

unfoldable pub handle_broker_fetch : List String → Action String
handle_broker_fetch (topic ∷ number ∷ id ∷ from ∷ []) = fetch_args topic number id from none
handle_broker_fetch (topic ∷ number ∷ id ∷ from ∷ limit ∷ []) =
    fetch_args topic number id from (some limit)
handle_broker_fetch _ =
    raise "BAD_REQUEST"
      "BROKER_FETCH requires: <topic> <partition> <follower_id> <offset> [max_messages]"
