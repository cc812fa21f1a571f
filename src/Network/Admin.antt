-- ===== src/Network/Admin.antt =====
-- core/internal/network/handler.go: the handlers of the control plane.
use distributed_real_time_ev.Base.{
  ℕ, ℤ, pos, Bool, true, false, String, int_comparable, Option, none, some, List, [], ◌∷◌,
  if◌then◌else◌,
}
use distributed_real_time_ev.Base.Map
use distributed_real_time_ev.Base.Map.{Map, keys}
use distributed_real_time_ev.Base.Text.{◌⧺◌, itoa, atoi}
use distributed_real_time_ev.Storage.Loading.{duration}
use distributed_real_time_ev.Coordinator.Assign.{sort}
use distributed_real_time_ev.ControlPlane.Metadata.{BrokerMetadata, MetadataSnapshot}
use distributed_real_time_ev.ControlPlane.Store.{MetadataError, RaftMetadataStore}
use distributed_real_time_ev.ControlPlane.Controller.{
  create_topic, register, heartbeat, set_partition_leader, set_broker_fence, sort_ints, Outcome,
  reconcile_broker_health, elect_topic_leaders,
}
use distributed_real_time_ev.Broker.{
  Action, ◌>>=◌, pure, raise, now, metadata, on_controller, or_raise, raise_result, message_of,
  raised, returned,
}
use distributed_real_time_ev.Network.Arguments.{
  int_arg, listed, ints, truth, applied_at, parse_csv_ints,
}

unfoldable pub handle_admin_create_topic : List String → Action String
handle_admin_create_topic (topic ∷ p ∷ r ∷ []) = do
  partitions ← int_arg p "partitions"
  factor ← int_arg r "replication_factor"
  t ← now
  outcome ← on_controller (λ s. create_topic s topic partitions factor t)
  result ← raise_result outcome
  pure (
      "topic="
      ⧺ topic
      ⧺ " partitions="
      ⧺ itoa partitions
      ⧺ " replication_factor="
      ⧺ itoa factor
      ⧺ applied_at result)
handle_admin_create_topic _ =
    raise "BAD_REQUEST" "ADMIN_CREATE_TOPIC requires: <topic> <partitions> <replication_factor>"

unfoldable pub registered : ℤ → String → ℤ → ℤ → Action String
registered id host port epoch = do
  t ← now
  alive ← now
  applied ← now
  outcome ← on_controller (λ s. register s id host port epoch t alive applied)
  result ← raise_result outcome
  pure ("broker_id=" ⧺ itoa id ⧺ " host=" ⧺ host ⧺ " port=" ⧺ itoa port ⧺ applied_at result)

unfoldable pub handle_admin_register_broker : List String → Action String
handle_admin_register_broker (number ∷ host ∷ p ∷ []) = do
  id ← int_arg number "broker_id"
  port ← int_arg p "port"
  registered id host port (pos 0)
handle_admin_register_broker (number ∷ host ∷ p ∷ e ∷ []) = do
  id ← int_arg number "broker_id"
  port ← int_arg p "port"
  epoch ← or_raise (atoi e) "BAD_REQUEST" "invalid epoch"
  registered id host port epoch
handle_admin_register_broker _ =
    raise "BAD_REQUEST" "ADMIN_REGISTER_BROKER requires: <broker_id> <host> <port> [epoch]"

unfoldable pub handle_admin_broker_heartbeat : List String → Action String
handle_admin_broker_heartbeat (number ∷ []) = do
  id ← int_arg number "broker_id"
  t ← now
  outcome ← on_controller (λ s. heartbeat s id t)
  result ← raise_result outcome
  pure ("broker_id=" ⧺ itoa id ⧺ " heartbeat=ok" ⧺ applied_at result)
handle_admin_broker_heartbeat _ = raise "BAD_REQUEST" "ADMIN_BROKER_HEARTBEAT requires: <broker_id>"

-- The count of changes, with the answer to an error.
unfoldable pub raise_outcome : ℕ → Option MetadataError → Action ℕ
raise_outcome changes none b = returned changes b
raise_outcome changes (some e) b = raised "BAD_REQUEST" (message_of e) b

-- An outcome as the store and what the handler looks at.
abbrev pub parts_of : Outcome → RaftMetadataStore × (ℕ × Option MetadataError)
parts_of o = (o.store, (o.changes, o.failure))

unfoldable pub handle_admin_reconcile_broker_health : List String → Action String
handle_admin_reconcile_broker_health (number ∷ []) = do
  timeout ← int_arg number "timeout_ms"
  t ← now
  outcome ← on_controller (λ s. parts_of (reconcile_broker_health s (duration 1000000 timeout) t))
  changes ← raise_outcome outcome.0 outcome.1
  pure ("reconciled=" ⧺ itoa (pos changes))
handle_admin_reconcile_broker_health _ =
    raise "BAD_REQUEST" "ADMIN_RECONCILE_BROKER_HEALTH requires: <timeout_ms>"

-- SetBrokerFence, for the two commands that call it.
unfoldable pub fenced_as : Bool → String → Action String
fenced_as fenced number = do
  id ← int_arg number "broker_id"
  t ← now
  outcome ← on_controller (λ s. set_broker_fence s id fenced t)
  result ← raise_result outcome
  pure ("broker_id=" ⧺ itoa id ⧺ " fenced=" ⧺ truth fenced ⧺ applied_at result)

unfoldable pub handle_admin_fence_broker : List String → Action String
handle_admin_fence_broker (number ∷ []) = fenced_as true number
handle_admin_fence_broker _ = raise "BAD_REQUEST" "ADMIN_FENCE_BROKER requires: <broker_id>"

unfoldable pub handle_admin_unfence_broker : List String → Action String
handle_admin_unfence_broker (number ∷ []) = fenced_as false number
handle_admin_unfence_broker _ = raise "BAD_REQUEST" "ADMIN_UNFENCE_BROKER requires: <broker_id>"

unfoldable pub handle_admin_set_partition_leader : List String → Action String
handle_admin_set_partition_leader (topic ∷ p ∷ l ∷ csv ∷ []) = do
  partition ← int_arg p "partition"
  leader ← int_arg l "leader_id"
  isr ← or_raise (parse_csv_ints csv) "BAD_REQUEST" "invalid integer list"
  t ← now
  outcome ← on_controller (λ s. set_partition_leader s topic partition leader isr t)
  result ← raise_result outcome
  pure (
      "topic="
      ⧺ topic
      ⧺ " partition="
      ⧺ itoa partition
      ⧺ " leader="
      ⧺ itoa leader
      ⧺ " isr="
      ⧺ ints isr
      ⧺ applied_at result)
handle_admin_set_partition_leader _ =
    raise "BAD_REQUEST"
      "ADMIN_SET_PARTITION_LEADER requires: <topic> <partition> <leader_id> <isr_csv>"

unfoldable pub handle_admin_elect_topic_leaders : List String → Action String
handle_admin_elect_topic_leaders (topic ∷ []) = do
  t ← now
  outcome ← on_controller (λ s. parts_of (elect_topic_leaders s topic t))
  changes ← raise_outcome outcome.0 outcome.1
  pure ("topic=" ⧺ topic ⧺ " elected_changes=" ⧺ itoa (pos changes))
handle_admin_elect_topic_leaders _ =
    raise "BAD_REQUEST" "ADMIN_ELECT_TOPIC_LEADERS requires: <topic>"

-- The ids, in their order, of the brokers that are fenced.
unfoldable pub fenced_ids : Map ℤ BrokerMetadata → List ℤ → List ℤ
fenced_ids brokers [] = []
fenced_ids brokers (id ∷ ids) =
    let rest = fenced_ids brokers ids in
    elim (Map.lookup id brokers) [ none ↦ rest | some b ↦ if b.fenced then id ∷ rest else rest ]

unfoldable pub metadata_text : MetadataSnapshot → String
metadata_text s =
    let ids = sort_ints (keys s.brokers) in
    "topics="
    ⧺ listed (sort (keys s.topics))
    ⧺ " brokers="
    ⧺ ints ids
    ⧺ " fenced="
    ⧺ ints (fenced_ids s.brokers ids)

unfoldable pub handle_admin_get_metadata : List String → Action String
handle_admin_get_metadata [] = do seen ← metadata; pure (metadata_text seen)
handle_admin_get_metadata _ = raise "BAD_REQUEST" "ADMIN_GET_METADATA requires no args"
