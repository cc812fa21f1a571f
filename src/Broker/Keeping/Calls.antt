-- ===== src/Broker/Keeping/Calls.antt =====
-- The rules for the calls on the parts of the broker (core/internal/broker/broker.go).
use distributed_real_time_ev.Base.{ℕ, ℤ, Time, Bool, String, List}
use distributed_real_time_ev.Coordinator.Group.{
  join_group, leave_group, sync_group, heartbeat as beat, validate_commit,
}
use distributed_real_time_ev.Coordinator.Group.Runs as Groups
use distributed_real_time_ev.Coordinator.Group.Runs.{step-AllInv}
use distributed_real_time_ev.Replication.Manager.{
  on_leader_append, ack_replica, high_watermark, is_leader, set_role, bootstrap_offset, status,
}
use distributed_real_time_ev.Replication.Manager.Calls as Replicas
use distributed_real_time_ev.Replication.Manager.Invariant.{step-Inv}
use distributed_real_time_ev.ControlPlane.Controller.{
  create_topic, register, heartbeat, set_partition_leader, set_broker_fence, elect_topic_leaders,
}
use distributed_real_time_ev.ControlPlane.Controller.Runs as Controls
use distributed_real_time_ev.ControlPlane.Controller.Runs.{step-Good}
use distributed_real_time_ev.Broker.{on_groups, on_replication, on_controller, done}
use distributed_real_time_ev.Broker.Keeping.{
  Keeps, on_groups-Keeps, on_replication-Keeps, on_controller-Keeps,
}

module _ {n : ℕ} where
  pub create_topic-Keeps :
      (topic : String) (partitions factor : ℤ) (t : Time)
      → Keeps n (on_controller (λ s. create_topic s topic partitions factor t))
  unfolding Controls.step
  create_topic-Keeps topic partitions factor t =
      on_controller-Keeps _ (λ s i. step-Good s (Controls.create topic partitions factor t) i)

  pub register-Keeps :
      (id : ℤ) (host : String) (port epoch : ℤ) (t alive applied : Time)
      → Keeps n (on_controller (λ s. register s id host port epoch t alive applied))
  unfolding Controls.step
  register-Keeps id host port epoch t alive applied =
      on_controller-Keeps _
        (λ s i. step-Good s (Controls.enrol id host port epoch t alive applied) i)

  pub heartbeat-Keeps : (id : ℤ) (t : Time) → Keeps n (on_controller (λ s. heartbeat s id t))
  unfolding Controls.step
  heartbeat-Keeps id t = on_controller-Keeps _ (λ s i. step-Good s (Controls.beat id t) i)

  pub set_partition_leader-Keeps :
      (topic : String) (partition leader : ℤ) (isr : List ℤ) (t : Time)
      → Keeps n (on_controller (λ s. set_partition_leader s topic partition leader isr t))
  unfolding Controls.step
  set_partition_leader-Keeps topic partition leader isr t =
      on_controller-Keeps _ (λ s i. step-Good s (Controls.lead topic partition leader isr t) i)

  pub set_broker_fence-Keeps :
      (id : ℤ) (fenced : Bool) (t : Time)
      → Keeps n (on_controller (λ s. set_broker_fence s id fenced t))
  unfolding Controls.step
  set_broker_fence-Keeps id fenced t =
      on_controller-Keeps _ (λ s i. step-Good s (Controls.fence id fenced t) i)

  pub elect_failure-Keeps :
      (topic : String) (t : Time)
      → Keeps n (
          on_controller
            (λ s. ((elect_topic_leaders s topic t).store, (elect_topic_leaders s topic t).failure)))
  unfolding Controls.step
  elect_failure-Keeps topic t =
      on_controller-Keeps _ (λ s i. step-Good s (Controls.elect topic t) i)

  pub on_leader_append-Keeps :
      (topic : String) (partition offset : ℤ) (t : Time)
      → Keeps n (on_replication (done (λ m. on_leader_append m topic partition offset t)))
  unfolding Replicas.step
  on_leader_append-Keeps topic partition offset t =
      on_replication-Keeps _ (λ m v. step-Inv m (Replicas.append topic partition offset t) v)

  pub ack_replica-Keeps :
      (topic : String) (partition id offset : ℤ) (seen t : Time)
      → Keeps n (on_replication (λ m. ack_replica m topic partition id offset seen t))
  unfolding Replicas.step
  ack_replica-Keeps topic partition id offset seen t =
      on_replication-Keeps _ (λ m v. step-Inv m (Replicas.ack topic partition id offset seen t) v)

  pub high_watermark-Keeps :
      (topic : String) (partition : ℤ) (t : Time)
      → Keeps n (on_replication (λ m. high_watermark m topic partition t))
  unfolding Replicas.step
  high_watermark-Keeps topic partition t =
      on_replication-Keeps _ (λ m v. step-Inv m (Replicas.watermark topic partition t) v)

  pub is_leader-Keeps :
      (topic : String) (partition : ℤ) → Keeps n (on_replication (λ m. is_leader m topic partition))
  unfolding Replicas.step
  is_leader-Keeps topic partition =
      on_replication-Keeps _ (λ m v. step-Inv m (Replicas.leads topic partition) v)

  pub set_role-Keeps :
      (topic : String) (partition : ℤ) (role : String) (t : Time)
      → Keeps n (on_replication (λ m. set_role m topic partition role t))
  unfolding Replicas.step
  set_role-Keeps topic partition role t =
      on_replication-Keeps _ (λ m v. step-Inv m (Replicas.assume topic partition role t) v)

  pub bootstrap_offset-Keeps :
      (topic : String) (partition offset : ℤ) (t : Time)
      → Keeps n (on_replication (done (λ m. bootstrap_offset m topic partition offset t)))
  unfolding Replicas.step
  bootstrap_offset-Keeps topic partition offset t =
      on_replication-Keeps _ (λ m v. step-Inv m (Replicas.bootstrap topic partition offset t) v)

  pub status-Keeps :
      (topic : String) (partition : ℤ) (t : Time)
      → Keeps n (on_replication (λ m. status m topic partition t))
  unfolding Replicas.step
  status-Keeps topic partition t =
      on_replication-Keeps _ (λ m v. step-Inv m (Replicas.report topic partition t) v)

  pub join_group-Keeps :
      (group topic id assignor : String) (t : Time)
      → Keeps n (on_groups (λ gm. join_group gm group topic id assignor t))
  unfolding Groups.step
  join_group-Keeps group topic id assignor t =
      on_groups-Keeps _ (λ gm i. step-AllInv n gm (Groups.join group topic id assignor t) i)

  pub leave_group-Keeps :
      (group topic id : String) (generation : ℤ) (t : Time)
      → Keeps n (on_groups (λ gm. leave_group gm group topic id generation t))
  unfolding Groups.step
  leave_group-Keeps group topic id generation t =
      on_groups-Keeps _ (λ gm i. step-AllInv n gm (Groups.leave group topic id generation t) i)

  pub sync_group-Keeps :
      (group topic id : String) (generation : ℤ) (t later : Time)
      → Keeps n (on_groups (λ gm. sync_group gm group topic id generation t later))
  unfolding Groups.step
  sync_group-Keeps group topic id generation t later =
      on_groups-Keeps _ (λ gm i. step-AllInv n gm (Groups.sync group topic id generation t later) i)

  pub beat-Keeps :
      (group topic id : String) (generation : ℤ) (t later : Time)
      → Keeps n (on_groups (λ gm. beat gm group topic id generation t later))
  unfolding Groups.step
  beat-Keeps group topic id generation t later =
      on_groups-Keeps _ (λ gm i. step-AllInv n gm (Groups.beat group topic id generation t later) i)

  pub validate_commit-Keeps :
      (group topic id : String) (generation partition : ℤ) (t : Time)
      → Keeps n (on_groups (λ gm. validate_commit gm group topic id generation partition t))
  unfolding Groups.step
  validate_commit-Keeps group topic id generation partition t =
      on_groups-Keeps _
        (λ gm i. step-AllInv n gm (Groups.commit group topic id generation partition t) i)

-- Every call on a part.
pub ruleset call_rules = (
  create_topic-Keeps, register-Keeps, heartbeat-Keeps, set_partition_leader-Keeps,
  set_broker_fence-Keeps, elect_failure-Keeps, on_leader_append-Keeps, ack_replica-Keeps,
  high_watermark-Keeps, is_leader-Keeps, set_role-Keeps, bootstrap_offset-Keeps, status-Keeps,
  join_group-Keeps, leave_group-Keeps, sync_group-Keeps, beat-Keeps, validate_commit-Keeps,
)
