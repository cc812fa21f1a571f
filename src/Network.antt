-- ===== src/Network.antt =====
-- core/internal/network/handler.go: the routing of requests, and the loop over the lines of one
-- connection. Every handler answers by protocol.Ok with a payload, or by protocol.Err with a code and a
-- message, both with the correlation id of the request: the handlers return these, and `respond` prints
-- them. The lines are those that the scanner of the connection gives, which ends a connection at a longer
-- line than 64 KB. The parameters are Go's unicode.ToUpper and unicode.ToLower, and the checksum and the hash of the
-- storage.
pub mod Arguments
pub mod Logs
pub mod Fetch
pub mod Groups
pub mod Admin
pub mod Keeping
pub mod Visible
pub mod Committed
pub mod Requests
pub mod Replicating
pub mod Examples
use Prim.Native.Char.{Char}
use distributed_real_time_ev.Base.{
  ℕ, Bool, true, false, ◌==◌, String, string_comparable, List, [], ◌∷◌, ◌++◌, if◌then◌else◌,
}
use distributed_real_time_ev.Protocol
use distributed_real_time_ev.Protocol.{Request, Parsed, bad_request, request, parse_request}
use distributed_real_time_ev.Replication.Manager.AckAll.{Round}
use distributed_real_time_ev.Broker.{
  Broker, Action, Ran, returned, raised, panicked, waiting, raise,
}
use distributed_real_time_ev.Network.Logs.{
  handle_produce, handle_set_partition_role, handle_consume, handle_replica_fetch,
  handle_broker_replica_ack,
}
use distributed_real_time_ev.Network.Fetch.{handle_broker_fetch}
use distributed_real_time_ev.Network.Groups.{
  handle_join, handle_sync, handle_heartbeat, handle_leave, handle_commit, handle_offset,
}
use distributed_real_time_ev.Network.Admin.{
  handle_admin_create_topic, handle_admin_register_broker, handle_admin_broker_heartbeat,
  handle_admin_reconcile_broker_health, handle_admin_fence_broker, handle_admin_unfence_broker,
  handle_admin_set_partition_leader, handle_admin_elect_topic_leaders, handle_admin_get_metadata,
}

-- What the process does with a request: it answers, or a panic ends it, or the schedule of the others
-- ends before the request does.
pub data Reply : Type 0 where
  reply : String → Broker → Reply
  crashed pending : Reply

unfoldable pub respond : String → Ran String → Reply
respond id (returned payload b) = reply (Protocol.ok id payload) b
respond id (raised code message b) = reply (Protocol.err id code message) b
respond id panicked = crashed
respond id waiting = pending

-- The routes: the commands with their handlers.
unfoldable pub route : String → List (String × Action String) → Action String
route command [] = raise "UNKNOWN_COMMAND" "unsupported command"
route command ((name, handler) ∷ rest) =
    let later = route command rest in if command == name then handler else later

module _ (upper lower : Char → Char) (checksum hash : String → ℕ) where
  -- The cases of the `switch`. A produce is also given what the others do while it waits.
  unfoldable pub routes : List Round → Request → List (String × Action String)
  routes rounds req =
      ("PRODUCE", handle_produce lower checksum hash rounds req.args)
      ∷ ("CONSUME", handle_consume req.args)
      ∷ ("JOIN", handle_join lower req.args)
      ∷ ("SYNC", handle_sync req.args)
      ∷ ("HEARTBEAT", handle_heartbeat req.args)
      ∷ ("LEAVE", handle_leave req.args)
      ∷ ("COMMIT", handle_commit req.args)
      ∷ ("OFFSET", handle_offset req.args)
      ∷ ("REPLICA_FETCH", handle_replica_fetch req.args)
      ∷ ("BROKER_FETCH", handle_broker_fetch req.args)
      ∷ ("BROKER_REPLICA_ACK", handle_broker_replica_ack req.args)
      ∷ ("SET_PARTITION_ROLE", handle_set_partition_role lower req.args)
      ∷ ("ADMIN_CREATE_TOPIC", handle_admin_create_topic req.args)
      ∷ ("ADMIN_REGISTER_BROKER", handle_admin_register_broker req.args)
      ∷ ("ADMIN_BROKER_HEARTBEAT", handle_admin_broker_heartbeat req.args)
      ∷ ("ADMIN_RECONCILE_BROKER_HEALTH", handle_admin_reconcile_broker_health req.args)
      ∷ ("ADMIN_FENCE_BROKER", handle_admin_fence_broker req.args)
      ∷ ("ADMIN_UNFENCE_BROKER", handle_admin_unfence_broker req.args)
      ∷ ("ADMIN_SET_PARTITION_LEADER", handle_admin_set_partition_leader req.args)
      ∷ ("ADMIN_ELECT_TOPIC_LEADERS", handle_admin_elect_topic_leaders req.args)
      ∷ ("ADMIN_GET_METADATA", handle_admin_get_metadata req.args)
      ∷ []

  unfoldable pub handle_request : List Round → Request → Action String
  handle_request rounds req = route req.command (routes rounds req)

  answer_to : Broker → List Round → Parsed → Reply
  answer_to b rounds (bad_request message) = reply (Protocol.err "0" "BAD_REQUEST" message) b
  answer_to b rounds (request req) = respond req.correlation_id (handle_request rounds req b)

  -- One iteration of the loop in `HandleConnection`.
  unfoldable pub serve_line : Broker → List Round → String → Reply
  unfolding answer_to
  serve_line b rounds line = answer_to b rounds (parse_request upper line)

  -- How a connection stands after some lines: what has been written, with the broker while it runs.
  pub data Connection : Type 0 where
    open_with : List String → Broker → Connection
    ended : List String → Connection

  before : String → Connection → Connection
  before text (open_with texts b) = open_with (text ∷ texts) b
  before text (ended texts) = ended (text ∷ texts)

  -- The loop of `HandleConnection` over the lines that the scanner gives, each with its schedule.
  unfoldable pub handle_connection : Broker → List (String × List Round) → Connection
  unfolding before
  handle_connection b [] = open_with [] b
  handle_connection b ((line, rounds) ∷ rest) = elim (serve_line b rounds line) [
    | reply text b' ↦ before text (handle_connection b' rest)
    | crashed ↦ ended []
    | pending ↦ ended []
  ]
