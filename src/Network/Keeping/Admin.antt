-- ===== src/Network/Keeping/Admin.antt =====
-- The invariants under the handlers of the control plane (core/internal/network/handler.go).
use distributed_real_time_ev.Base.{ℕ, ℤ, Time, Bool, String, Option, none, some, List, [], ◌∷◌}
use distributed_real_time_ev.ControlPlane.Store.{MetadataError}
use distributed_real_time_ev.ControlPlane.Controller.{reconcile_broker_health, elect_topic_leaders}
use distributed_real_time_ev.ControlPlane.Controller.Runs as Controls
use distributed_real_time_ev.ControlPlane.Controller.Runs.{step-Good}
use distributed_real_time_ev.Broker.{on_controller}
use distributed_real_time_ev.Broker.Keeping.{
  Keeps, returns, raises, raise-Keeps, on_controller-Keeps, plain_rules,
}
use distributed_real_time_ev.Broker.Keeping.Calls.{call_rules}
use distributed_real_time_ev.Network.Arguments.{int_arg}
use distributed_real_time_ev.Network.Admin.{
  parts_of, raise_outcome, registered, fenced_as, handle_admin_create_topic,
  handle_admin_register_broker, handle_admin_broker_heartbeat, handle_admin_reconcile_broker_health,
  handle_admin_fence_broker, handle_admin_unfence_broker, handle_admin_set_partition_leader,
  handle_admin_elect_topic_leaders, handle_admin_get_metadata,
}

module _ {n : ℕ} where
  reconcile-Keeps :
      (timeout : ℤ) (t : Time)
      → Keeps n (on_controller (λ s. parts_of (reconcile_broker_health s timeout t)))
  unfolding Controls.step
  reconcile-Keeps timeout t =
      on_controller-Keeps _ (λ s i. step-Good s (Controls.reconcile timeout t) i)

  elect-Keeps :
      (topic : String) (t : Time)
      → Keeps n (on_controller (λ s. parts_of (elect_topic_leaders s topic t)))
  unfolding Controls.step
  elect-Keeps topic t = on_controller-Keeps _ (λ s i. step-Good s (Controls.elect topic t) i)

  raise_outcome-Keeps :
      (changes : ℕ) (failure : Option MetadataError) → Keeps n (raise_outcome changes failure)
  unfolding raise_outcome
  raise_outcome-Keeps changes none = record { keeps = λ b g. returns g }
  raise_outcome-Keeps changes (some e) = record { keeps = λ b g. raises g }

  registered-Keeps :
      (id : ℤ) (host : String) (port epoch : ℤ) → Keeps n (registered id host port epoch)
  unfolding registered
  registered-Keeps id host port epoch = search (plain_rules, call_rules) depth 30 fits 2000

  fenced_as-Keeps : (fenced : Bool) (number : String) → Keeps n (fenced_as fenced number)
  unfolding fenced_as int_arg
  fenced_as-Keeps fenced number = search (plain_rules, call_rules) depth 30 fits 2000

  pub handle_admin_create_topic-Keeps :
      (args : List String) → Keeps n (handle_admin_create_topic args)
  unfolding handle_admin_create_topic int_arg
  handle_admin_create_topic-Keeps (topic ∷ p ∷ r ∷ []) =
      search (plain_rules, call_rules) depth 30 fits 2000
  handle_admin_create_topic-Keeps _ = raise-Keeps _ _

  pub handle_admin_register_broker-Keeps :
      (args : List String) → Keeps n (handle_admin_register_broker args)
  unfolding handle_admin_register_broker int_arg
  handle_admin_register_broker-Keeps (number ∷ host ∷ p ∷ []) =
      search (plain_rules, registered-Keeps) depth 30 fits 2000
  handle_admin_register_broker-Keeps (number ∷ host ∷ p ∷ e ∷ []) =
      search (plain_rules, registered-Keeps) depth 30 fits 2000
  handle_admin_register_broker-Keeps _ = raise-Keeps _ _

  pub handle_admin_broker_heartbeat-Keeps :
      (args : List String) → Keeps n (handle_admin_broker_heartbeat args)
  unfolding handle_admin_broker_heartbeat int_arg
  handle_admin_broker_heartbeat-Keeps (number ∷ []) =
      search (plain_rules, call_rules) depth 30 fits 2000
  handle_admin_broker_heartbeat-Keeps _ = raise-Keeps _ _

  pub handle_admin_reconcile_broker_health-Keeps :
      (args : List String) → Keeps n (handle_admin_reconcile_broker_health args)
  unfolding handle_admin_reconcile_broker_health int_arg
  handle_admin_reconcile_broker_health-Keeps (number ∷ []) =
      search (plain_rules, reconcile-Keeps, raise_outcome-Keeps) depth 30 fits 2000
  handle_admin_reconcile_broker_health-Keeps _ = raise-Keeps _ _

  pub handle_admin_fence_broker-Keeps :
      (args : List String) → Keeps n (handle_admin_fence_broker args)
  unfolding handle_admin_fence_broker int_arg
  handle_admin_fence_broker-Keeps (number ∷ []) = search (fenced_as-Keeps) depth 30 fits 2000
  handle_admin_fence_broker-Keeps _ = raise-Keeps _ _

  pub handle_admin_unfence_broker-Keeps :
      (args : List String) → Keeps n (handle_admin_unfence_broker args)
  unfolding handle_admin_unfence_broker int_arg
  handle_admin_unfence_broker-Keeps (number ∷ []) = search (fenced_as-Keeps) depth 30 fits 2000
  handle_admin_unfence_broker-Keeps _ = raise-Keeps _ _

  pub handle_admin_set_partition_leader-Keeps :
      (args : List String) → Keeps n (handle_admin_set_partition_leader args)
  unfolding handle_admin_set_partition_leader int_arg
  handle_admin_set_partition_leader-Keeps (topic ∷ p ∷ l ∷ csv ∷ []) =
      search (plain_rules, call_rules) depth 30 fits 2000
  handle_admin_set_partition_leader-Keeps _ = raise-Keeps _ _

  pub handle_admin_elect_topic_leaders-Keeps :
      (args : List String) → Keeps n (handle_admin_elect_topic_leaders args)
  unfolding handle_admin_elect_topic_leaders int_arg
  handle_admin_elect_topic_leaders-Keeps (topic ∷ []) =
      search (plain_rules, elect-Keeps, raise_outcome-Keeps) depth 30 fits 2000
  handle_admin_elect_topic_leaders-Keeps _ = raise-Keeps _ _

  pub handle_admin_get_metadata-Keeps :
      (args : List String) → Keeps n (handle_admin_get_metadata args)
  unfolding handle_admin_get_metadata int_arg
  handle_admin_get_metadata-Keeps [] = search (plain_rules) depth 30 fits 2000
  handle_admin_get_metadata-Keeps _ = raise-Keeps _ _
