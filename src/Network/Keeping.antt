-- ===== src/Network/Keeping.antt =====
-- The invariants of the parts of the broker, under the requests of core/internal/network/handler.go.
pub mod Logs
pub mod Groups
pub mod Admin
use Prim.Native.Char.{Char}
use distributed_real_time_ev.Base.{
  ℕ, Bool, true, false, ◌==◌, String, string_comparable, List, [], ◌∷◌, All, if◌then◌else◌,
}
use distributed_real_time_ev.Protocol.{Request, Parsed, bad_request, request, parse_request}
use distributed_real_time_ev.Replication.Manager.AckAll.{Round}
use distributed_real_time_ev.Broker.{Broker, Action, Ran, returned, raised, panicked, waiting}
use distributed_real_time_ev.Broker.Keeping.{
  Good, Keeps, Leaves, returns, raises, panics, waits, raise-Keeps, if-Keeps,
}
use distributed_real_time_ev.Network.{
  Reply, reply, crashed, pending, respond, route, routes, handle_request, answer_to, serve_line,
}
use distributed_real_time_ev.Network.Keeping.Logs.{
  handle_produce-Keeps, handle_set_partition_role-Keeps, handle_consume-Keeps,
  handle_replica_fetch-Keeps, handle_broker_replica_ack-Keeps, handle_broker_fetch-Keeps,
}
use distributed_real_time_ev.Network.Keeping.Groups.{
  handle_join-Keeps, handle_sync-Keeps, handle_heartbeat-Keeps, handle_leave-Keeps,
  handle_commit-Keeps, handle_offset-Keeps,
}
use distributed_real_time_ev.Network.Keeping.Admin.{
  handle_admin_create_topic-Keeps, handle_admin_register_broker-Keeps,
  handle_admin_broker_heartbeat-Keeps, handle_admin_reconcile_broker_health-Keeps,
  handle_admin_fence_broker-Keeps, handle_admin_unfence_broker-Keeps,
  handle_admin_set_partition_leader-Keeps, handle_admin_elect_topic_leaders-Keeps,
  handle_admin_get_metadata-Keeps,
}

-- An answer leaves a good broker behind.
pub data Answers (n : ℕ) : Reply → Type 0 where
  answers : {text : String} {b : Broker} → Good n b → Answers n (reply text b)
  crashes : Answers n crashed
  waits_on : Answers n pending

module _ {n : ℕ} where
  route-Keeps :
      (command : String) (rs : List (String × Action String))
      → All (λ r. Keeps n r.1) rs
      → Keeps n (route command rs)
  unfolding route
  route-Keeps command [] h = raise-Keeps _ _
  route-Keeps command ((name, handler) ∷ rest) (h, k) =
      if-Keeps (command == name) handler _ h (route-Keeps command rest k)

  respond-Answers : (id : String) (r : Ran String) → Leaves n r → Answers n (respond id r)
  unfolding respond
  respond-Answers id (returned payload b) (returns g) = answers g
  respond-Answers id (raised code message b) (raises g) = answers g
  respond-Answers id panicked l = crashes
  respond-Answers id waiting l = waits_on

module _ {n : ℕ} (upper lower : Char → Char) (checksum hash : String → ℕ) where
  handle_request-Keeps :
      (rounds : List Round) (req : Request)
      → Keeps n (handle_request upper lower checksum hash rounds req)
  unfolding handle_request routes
  handle_request-Keeps rounds req = route-Keeps req.command _ (
      search
        (
          handle_produce-Keeps, handle_consume-Keeps, handle_join-Keeps, handle_sync-Keeps,
          handle_heartbeat-Keeps, handle_leave-Keeps, handle_commit-Keeps, handle_offset-Keeps,
          handle_replica_fetch-Keeps, handle_broker_fetch-Keeps, handle_broker_replica_ack-Keeps,
          handle_set_partition_role-Keeps, handle_admin_create_topic-Keeps,
          handle_admin_register_broker-Keeps, handle_admin_broker_heartbeat-Keeps,
          handle_admin_reconcile_broker_health-Keeps, handle_admin_fence_broker-Keeps,
          handle_admin_unfence_broker-Keeps, handle_admin_set_partition_leader-Keeps,
          handle_admin_elect_topic_leaders-Keeps, handle_admin_get_metadata-Keeps,
        )
        depth 60 fits 4000)

  pub serve_line-Answers :
      (b : Broker) (rounds : List Round) (line : String)
      → Good n b
      → Answers n (serve_line upper lower checksum hash b rounds line)
  unfolding serve_line answer_to
  serve_line-Answers b rounds line g = parsed (parse_request upper line)
    where
      parsed : (p : Parsed) → Answers n (answer_to upper lower checksum hash b rounds p)
      parsed (bad_request message) = answers g
      parsed (request req) = respond-Answers _ _ ((handle_request-Keeps rounds req).keeps b g)
