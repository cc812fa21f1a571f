-- ===== src/Network/Keeping/Logs.antt =====
-- The invariants under the handlers that produce, consume and replicate records
-- (core/internal/network/handler.go).
use Prim.Native.Char.{Char}
use distributed_real_time_ev.Base.{
  ℕ, ℤ, Time, String, Option, none, some, List, [], ◌∷◌, inl, inr, Option-cases,
}
use distributed_real_time_ev.Replication.Manager.AckAll.{
  Round, wait_for_ack_all, wait_for_ack_all-Inv,
}
use distributed_real_time_ev.Replication.Partition.{Status}
use distributed_real_time_ev.Broker.Keeping.{
  Keeps, returns, panics, waits, raise-Keeps, plain_rules,
}
use distributed_real_time_ev.Broker.Keeping.Calls.{call_rules}
use distributed_real_time_ev.Broker.Keeping.Topics.{ensure_topic_metadata-Keeps}
use distributed_real_time_ev.Network.Arguments.{int_arg, topic_arg}
use distributed_real_time_ev.Network.Fetch.{
  fetched, serve_fetch, max_arg, fetch_args, handle_broker_fetch,
}
use distributed_real_time_ev.Network.Logs.{
  or_panic, waited, read_messages, await_ack_all, ack_mode, produce_target, produce_record,
  handle_produce, handle_set_partition_role, consumed, handle_consume, acknowledged,
  handle_replica_fetch, handle_broker_replica_ack,
}

module _ {n : ℕ} where
  or_panic-Keeps : {A : Type 0} (o : Option A) → Keeps n (or_panic o)
  unfolding or_panic
  or_panic-Keeps none = record { keeps = λ b g. panics }
  or_panic-Keeps (some a) = record { keeps = λ b g. returns g }

  topic_arg-Keeps : (topic : String) → Keeps n (topic_arg topic)
  unfolding topic_arg
  topic_arg-Keeps topic = search (plain_rules, ensure_topic_metadata-Keeps) depth 20

  read_messages-Keeps :
      (topic : String) (partition offset : ℤ) → Keeps n (read_messages topic partition offset)
  unfolding read_messages
  read_messages-Keeps topic partition offset = record {
    keeps = λ b g. (or_panic-Keeps _).keeps b g;
  }

  waited-Keeps :
      (topic : String) (partition offset : ℤ) (start : Time) (rounds : List Round)
      → Keeps n (waited topic partition offset start rounds)
  unfolding waited
  waited-Keeps topic partition offset start rounds = record {
    keeps = λ b g.
        elim (Option-cases (wait_for_ack_all b.replication topic partition offset start rounds)) [
          | inl e ↦ rw (waited, e) waits
          | inr ((m, failure), e) ↦
              rw (waited, e)
                (returns (record {
                  replication =
                      wait_for_ack_all-Inv b.replication topic partition offset start rounds m
                        failure g.replication e;
                  metadata = g.metadata;
                  groups = g.groups;
                }))
        ];
  }

  await_ack_all-Keeps :
      (topic : String) (partition offset : ℤ) (rounds : List Round)
      → Keeps n (await_ack_all topic partition offset rounds)
  unfolding await_ack_all
  await_ack_all-Keeps topic partition offset rounds = search (plain_rules, waited-Keeps) depth 20

  ack_mode-Keeps : (lower : Char → Char) (ack : Option String) → Keeps n (ack_mode lower ack)
  unfolding ack_mode
  ack_mode-Keeps lower none = search (plain_rules)
  ack_mode-Keeps lower (some arg) = search (plain_rules)

  produce_target-Keeps :
      (lower : Char → Char) (hash : String → ℕ) (topic message : String) (ack : Option String)
      → Keeps n (produce_target lower hash topic message ack)
  unfolding produce_target
  produce_target-Keeps lower hash topic message ack =
      search (plain_rules, call_rules, topic_arg-Keeps, ack_mode-Keeps, or_panic-Keeps) depth 40
        fits 4000

  produce_record-Keeps :
      (checksum : String → ℕ) (rounds : List Round) (topic : String) (target : ℤ × String × String)
      → Keeps n (produce_record checksum rounds topic target)
  unfolding produce_record
  produce_record-Keeps checksum rounds topic (partition, value, mode) =
      search (plain_rules, call_rules, await_ack_all-Keeps) depth 40 fits 4000

  acknowledged-Keeps :
      (topic : String) (partition id offset : ℤ) → Keeps n (acknowledged topic partition id offset)
  unfolding acknowledged
  acknowledged-Keeps topic partition id offset = search (plain_rules, call_rules) depth 30 fits 2000

  consumed-Keeps :
      (topic : String) (partition offset hw : ℤ) → Keeps n (consumed topic partition offset hw)
  unfolding consumed
  consumed-Keeps topic partition offset hw =
      search (plain_rules, read_messages-Keeps) depth 30 fits 2000

  fetched-Keeps :
      (topic : String) (partition follower offset max : ℤ) (st : Status)
      → Keeps n (fetched topic partition follower offset max st)
  unfolding fetched
  fetched-Keeps topic partition follower offset max st =
      search (plain_rules, read_messages-Keeps) depth 30 fits 2000

  max_arg-Keeps : (limit : Option String) → Keeps n (max_arg limit)
  unfolding max_arg int_arg
  max_arg-Keeps none = search (plain_rules)
  max_arg-Keeps (some arg) = search (plain_rules) depth 20

  fetch_args-Keeps :
      (topic number id from : String) (limit : Option String)
      → Keeps n (fetch_args topic number id from limit)
  unfolding fetch_args serve_fetch int_arg
  fetch_args-Keeps topic number id from limit =
      search (plain_rules, call_rules, max_arg-Keeps, fetched-Keeps) depth 40 fits 4000

  pub handle_produce-Keeps :
      (lower : Char → Char) (checksum hash : String → ℕ) (rounds : List Round) (args : List String)
      → Keeps n (handle_produce lower checksum hash rounds args)
  unfolding handle_produce int_arg
  handle_produce-Keeps lower checksum hash rounds (topic ∷ message ∷ []) =
      search (plain_rules, produce_target-Keeps, produce_record-Keeps) depth 30 fits 2000
  handle_produce-Keeps lower checksum hash rounds (topic ∷ message ∷ ack ∷ []) =
      search (plain_rules, produce_target-Keeps, produce_record-Keeps) depth 30 fits 2000
  handle_produce-Keeps lower checksum hash rounds _ = raise-Keeps _ _

  pub handle_set_partition_role-Keeps :
      (lower : Char → Char) (args : List String) → Keeps n (handle_set_partition_role lower args)
  unfolding handle_set_partition_role int_arg
  handle_set_partition_role-Keeps lower (topic ∷ number ∷ word ∷ []) =
      search (plain_rules, call_rules, topic_arg-Keeps) depth 30 fits 2000
  handle_set_partition_role-Keeps lower _ = raise-Keeps _ _

  pub handle_consume-Keeps : (args : List String) → Keeps n (handle_consume args)
  unfolding handle_consume int_arg
  handle_consume-Keeps (topic ∷ number ∷ from ∷ []) =
      search (plain_rules, call_rules, topic_arg-Keeps, consumed-Keeps) depth 30 fits 2000
  handle_consume-Keeps _ = raise-Keeps _ _

  pub handle_replica_fetch-Keeps : (args : List String) → Keeps n (handle_replica_fetch args)
  unfolding handle_replica_fetch int_arg
  handle_replica_fetch-Keeps (topic ∷ number ∷ replica ∷ from ∷ []) =
      search (plain_rules, acknowledged-Keeps) depth 30 fits 2000
  handle_replica_fetch-Keeps _ = raise-Keeps _ _

  pub handle_broker_replica_ack-Keeps :
      (args : List String) → Keeps n (handle_broker_replica_ack args)
  unfolding handle_broker_replica_ack int_arg
  handle_broker_replica_ack-Keeps (topic ∷ number ∷ follower ∷ acked ∷ []) =
      search (plain_rules, acknowledged-Keeps) depth 30 fits 2000
  handle_broker_replica_ack-Keeps _ = raise-Keeps _ _

  pub handle_broker_fetch-Keeps : (args : List String) → Keeps n (handle_broker_fetch args)
  unfolding handle_broker_fetch int_arg
  handle_broker_fetch-Keeps (topic ∷ number ∷ id ∷ from ∷ []) =
      search (fetch_args-Keeps) depth 30 fits 2000
  handle_broker_fetch-Keeps (topic ∷ number ∷ id ∷ from ∷ limit ∷ []) =
      search (fetch_args-Keeps) depth 30 fits 2000
  handle_broker_fetch-Keeps _ = raise-Keeps _ _
