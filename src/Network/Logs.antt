-- ===== src/Network/Logs.antt =====
-- core/internal/network/handler.go: the handlers that produce, consume and replicate records. A handler
-- is given the arguments of the request and returns the payload of a success.
use Prim.Native.Char.{Char}
use distributed_real_time_ev.Base.{
  ℕ, ℤ, pos, ltb_ℤ, Time, not, ◌||◌, ◌==◌, String, string_comparable, int_comparable, Option, none,
  some, List, [], ◌∷◌, map, length, leb, if◌then◌else◌,
}
use distributed_real_time_ev.Base.Map
use distributed_real_time_ev.Base.Text.{◌⧺◌, split_n, itoa}
use distributed_real_time_ev.Protocol.{map_text}
use distributed_real_time_ev.Storage.Record.{Message}
use distributed_real_time_ev.Storage.State.{Key}
use distributed_real_time_ev.Storage.Log.{get_partition, produce_to_partition, consume}
use distributed_real_time_ev.Replication.Partition.{Status}
use distributed_real_time_ev.Replication.Manager.{
  on_leader_append, ack_replica, high_watermark, is_leader, set_role, status,
}
use distributed_real_time_ev.Replication.Manager.AckAll.{Round, wait_for_ack_all}
use distributed_real_time_ev.Replication.Worker.{ReplicationRecord}
use distributed_real_time_ev.Replication.TcpTransport.{records_text}
use distributed_real_time_ev.ControlPlane.Controller.{set_partition_leader}
use distributed_real_time_ev.Broker.{
  Action, ◌>>=◌, ◌>>◌, pure, raise, gets, now, on_storage, on_replication, on_controller, done,
  raise_if, raise_error, or_raise, raise_result, returned, panicked, waiting,
}
use distributed_real_time_ev.Network.Arguments.{
  int_arg, topic_arg, two_parts, option_arg, ints, truth,
}

abbrev pub key_of : String → ℤ → Key
key_of topic partition = record { topic = topic; partition = partition }

-- A call that panics where the model has no value.
unfoldable pub or_panic : {A : Type 0} → Option A → Action A
or_panic none b = panicked
or_panic (some a) b = returned a b

-- WaitForAckAll as an action.
unfoldable pub waited : String → ℤ → ℤ → Time → List Round → Action (Option String)
waited topic partition offset start rounds b =
    elim (wait_for_ack_all b.replication topic partition offset start rounds) [
      | none ↦ waiting
      | some (m, failure) ↦ returned failure (record b { replication = m })
    ]

-- Consume, which may panic.
unfoldable pub read_messages : String → ℤ → ℤ → Action (List Message)
unfolding or_panic
read_messages topic partition offset b =
    or_panic (consume b.storage (key_of topic partition) offset) b

-- The wait, while the other goroutines do what the rounds say.
unfoldable pub await_ack_all : String → ℤ → ℤ → List Round → Action (Unit {0})
await_ack_all topic partition offset rounds = do
  start ← now
  failure ← waited topic partition offset start rounds
  raise_error failure "REPLICATION_TIMEOUT"

-- The mode of acknowledgement, from the argument that may be there.
unfoldable pub ack_mode : (Char → Char) → Option String → Action String
ack_mode lower none = pure "1"
ack_mode lower (some arg) =
    or_raise (option_arg lower "acks" ("0" ∷ "1" ∷ "all" ∷ []) arg) "BAD_REQUEST"
      "invalid ack mode; expected acks=0|1|all"

-- The checks of `handleProduce`, up to the append: the partition to append to, the value, and the mode.
unfoldable pub produce_target :
    (Char → Char) → (String → ℕ) → String → String → Option String → Action (ℤ × String × String)
produce_target lower hash topic message ack = do
  parts ← or_raise (two_parts (split_n 1 ":" message)) "BAD_REQUEST" "message must be key:value"
  md ← topic_arg topic
  let count = length md.partitions
  raise_if (leb count 0) "BAD_REQUEST" "topic has no partitions"
  mode ← ack_mode lower ack
  partition ← or_panic (get_partition hash parts.0 (pos count))
  pm ← or_raise (Map.lookup partition md.partitions) "BAD_REQUEST" "partition metadata missing"
  local ← gets (λ b. b.local_broker_id)
  raise_if (not (pm.leader_id == local)) "NOT_LEADER" "partition leader unavailable on this broker"
  leads ← on_replication (λ m. is_leader m topic partition)
  raise_if (not leads) "NOT_LEADER" "partition leader unavailable on this broker"
  pure (partition, parts.1, mode)

-- The part of `handleProduce` from the append on.
unfoldable pub produce_record :
    (String → ℕ) → List Round → String → ℤ × String × String → Action String
produce_record checksum rounds topic (partition, value, mode) = do
  offset ← on_storage (λ s. produce_to_partition checksum s (key_of topic partition) value)
  t ← now
  on_replication (done (λ m. on_leader_append m topic partition offset t))
  if mode == "all" then await_ack_all topic partition offset rounds else pure tt
  later ← now
  hw ← on_replication (λ m. high_watermark m topic partition later)
  pure ("partition=" ⧺ itoa partition ⧺ " offset=" ⧺ itoa offset ⧺ " hw=" ⧺ itoa hw)

unfoldable pub handle_produce :
    (Char → Char) → (String → ℕ) → (String → ℕ) → List Round → List String → Action String
handle_produce lower checksum hash rounds (topic ∷ message ∷ []) = do
  target ← produce_target lower hash topic message none
  produce_record checksum rounds topic target
handle_produce lower checksum hash rounds (topic ∷ message ∷ ack ∷ []) = do
  target ← produce_target lower hash topic message (some ack)
  produce_record checksum rounds topic target
handle_produce lower checksum hash rounds _ =
    raise "BAD_REQUEST" "PRODUCE requires: <topic> <key>:<value> [acks=0|1|all]"

unfoldable pub handle_set_partition_role : (Char → Char) → List String → Action String
handle_set_partition_role lower (topic ∷ number ∷ word ∷ []) = do
  partition ← int_arg number "partition"
  topic_arg topic
  let role = map_text lower word
  t ← now
  failure ← on_replication (λ m. set_role m topic partition role t)
  raise_error failure "BAD_REQUEST"
  local ← gets (λ b. b.local_broker_id)
  t₁ ← now
  result ← on_controller (λ s. set_partition_leader s topic partition local (local ∷ []) t₁)
  raise_result result
  t₂ ← now
  st ← on_replication (λ m. status m topic partition t₂)
  pure (
      "topic="
      ⧺ topic
      ⧺ " partition="
      ⧺ itoa partition
      ⧺ " role="
      ⧺ st.role
      ⧺ " hw="
      ⧺ itoa st.high_watermark)
handle_set_partition_role lower _ =
    raise "BAD_REQUEST" "SET_PARTITION_ROLE requires: <topic> <partition> <leader|follower>"

-- The loop of `handleConsume`: the messages up to the first beyond the high watermark.
unfoldable pub visible : ℤ → List Message → List Message
visible hw [] = []
visible hw (m ∷ ms) = let rest = visible hw ms in if ltb_ℤ hw m.offset then [] else m ∷ rest

-- fmt.Sprintf("%d:%s", msg.Offset, msg.Value), joined by commas
abbrev pub sent : Message → ReplicationRecord
sent m = record { offset = m.offset; value = m.value }

abbrev pub messages_text : List Message → String
messages_text ms = records_text (map sent ms)

-- The answer of `handleConsume` from the high watermark on.
unfoldable pub consumed : String → ℤ → ℤ → ℤ → Action String
consumed topic partition offset hw =
    if ltb_ℤ hw (pos 0) || ltb_ℤ hw offset then pure ("messages= hw=" ⧺ itoa hw) else do
      ms ← read_messages topic partition offset
      pure ("messages=" ⧺ messages_text (visible hw ms) ⧺ " hw=" ⧺ itoa hw)

unfoldable pub handle_consume : List String → Action String
handle_consume (topic ∷ number ∷ from ∷ []) = do
  partition ← int_arg number "partition"
  offset ← int_arg from "offset"
  md ← topic_arg topic
  or_raise (Map.lookup partition md.partitions) "BAD_REQUEST" "invalid partition"
  t ← now
  hw ← on_replication (λ m. high_watermark m topic partition t)
  consumed topic partition offset hw
handle_consume _ = raise "BAD_REQUEST" "CONSUME requires: <topic> <partition> <offset>"

-- isr=%v under_replicated=%t
abbrev pub isr_text : Status → String
isr_text st = " isr=" ⧺ ints st.in_sync_replicas ⧺ " under_replicated=" ⧺ truth st.under_replicated

-- AckReplica and Status, with the answer to the first's error.
unfoldable pub acknowledged : String → ℤ → ℤ → ℤ → Action Status
acknowledged topic partition id offset = do
  seen ← now
  t ← now
  failure ← on_replication (λ m. ack_replica m topic partition id offset seen t)
  raise_error failure "BAD_REQUEST"
  t₁ ← now
  on_replication (λ m. status m topic partition t₁)

unfoldable pub handle_replica_fetch : List String → Action String
handle_replica_fetch (topic ∷ number ∷ replica ∷ from ∷ []) = do
  partition ← int_arg number "partition"
  id ← int_arg replica "replica_id"
  offset ← int_arg from "offset"
  st ← acknowledged topic partition id offset
  pure (
      "replica="
      ⧺ itoa id
      ⧺ " acked_offset="
      ⧺ itoa offset
      ⧺ " hw="
      ⧺ itoa st.high_watermark
      ⧺ isr_text st)
handle_replica_fetch _ =
    raise "BAD_REQUEST" "REPLICA_FETCH requires: <topic> <partition> <replica_id> <offset>"

unfoldable pub handle_broker_replica_ack : List String → Action String
handle_broker_replica_ack (topic ∷ number ∷ follower ∷ acked ∷ []) = do
  partition ← int_arg number "partition"
  id ← int_arg follower "follower_id"
  offset ← int_arg acked "acked_offset"
  st ← acknowledged topic partition id offset
  pure (
      "topic="
      ⧺ topic
      ⧺ " partition="
      ⧺ itoa partition
      ⧺ " follower="
      ⧺ itoa id
      ⧺ " acked_offset="
      ⧺ itoa offset
      ⧺ " hw="
      ⧺ itoa st.high_watermark
      ⧺ isr_text st)
handle_broker_replica_ack _ =
    raise "BAD_REQUEST"
      "BROKER_REPLICA_ACK requires: <topic> <partition> <follower_id> <acked_offset>"
