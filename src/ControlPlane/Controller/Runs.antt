-- ===== src/ControlPlane/Controller/Runs.antt =====
-- The controller's methods as the steps of a run, and the invariant that every run keeps.
use distributed_real_time_ev.Base.{
  ℕ, ◌+◌, ℤ, pos, negsuc, subst, ltb_ℤ, leb_ℤ, Time, Bool, ◌==◌, String, string_comparable,
  int_comparable, some, List, [], ◌∷◌, ◌≡◌, inl, inr, Bool-cases, Option-cases,
}
use distributed_real_time_ev.Base.Map
use distributed_real_time_ev.ControlPlane.Metadata.{TopicMetadata, MetadataSnapshot}
use distributed_real_time_ev.ControlPlane.Store.{
  RaftMetadataStore, Result, error, ok, ApplyResult, new_raft_metadata_store, snapshot,
}
use distributed_real_time_ev.ControlPlane.Store.Invariant.{
  Inv, KeyedPartitions, new_raft_metadata_store-Inv,
}
use distributed_real_time_ev.ControlPlane.Store.Changes.{apply-Inv}
use distributed_real_time_ev.ControlPlane.Controller.{
  first_ids, count_of, create_topic, register, heartbeat, set_partition_leader, set_broker_fence,
  proceed, Outcome, stale, differ, reconcile_loop, reconcile_broker_health, target_leader,
  elected_isr, elect_loop, elect_seen, elect_topic_leaders,
}
use distributed_real_time_ev.ControlPlane.Controller.Topics.{new_partitions-Keyed}

-- A call of a method that changes metadata, with the times that it reads.
pub data Call : Type 0 where
  create : String → ℤ → ℤ → Time → Call
  enrol : ℤ → String → ℤ → ℤ → Time → Time → Time → Call
  beat : ℤ → Time → Call
  lead : String → ℤ → ℤ → List ℤ → Time → Call
  fence : ℤ → Bool → Time → Call
  reconcile : ℤ → Time → Call
  elect : String → Time → Call

unfoldable pub step : RaftMetadataStore → Call → RaftMetadataStore
step s (create name partitions replication_factor now) =
    (create_topic s name partitions replication_factor now).0
step s (enrol id host port epoch now alive applied) =
    (register s id host port epoch now alive applied).0
step s (beat id now) = (heartbeat s id now).0
step s (lead topic partition leader isr now) =
    (set_partition_leader s topic partition leader isr now).0
step s (fence id fenced now) = (set_broker_fence s id fenced now).0
step s (reconcile timeout now) = (reconcile_broker_health s timeout now).store
step s (elect topic now) = (elect_topic_leaders s topic now).store

unfoldable pub run : RaftMetadataStore → List Call → RaftMetadataStore
run s [] = s
run s (call ∷ calls) = run (step s call) calls

abbrev Good : RaftMetadataStore → Type 0
Good s = Inv s.metadata

set_broker_fence-Good :
    (s : RaftMetadataStore) (id : ℤ) (fenced : Bool) (now : Time)
    → Good s
    → Good (set_broker_fence s id fenced now).0
unfolding set_broker_fence
set_broker_fence-Good s id fenced now i = elim (Bool-cases (ltb_ℤ id (pos 0))) [
  | inl e ↦ rw e i
  | inr e ↦ rw e (apply-Inv s _ now (λ t h. absurd (cc h)) i)
]

set_partition_leader-Good :
    (s : RaftMetadataStore) (topic : String) (partition leader : ℤ) (isr : List ℤ) (now : Time)
    → Good s
    → Good (set_partition_leader s topic partition leader isr now).0
unfolding set_partition_leader
set_partition_leader-Good s topic partition leader isr now i = elim (Bool-cases (topic == "")) [
  | inl a ↦ rw a i
  | inr a ↦ elim (Bool-cases (ltb_ℤ partition (pos 0))) [
    | inl b ↦ rw (a, b) i
    | inr b ↦ elim (Bool-cases (ltb_ℤ leader (negsuc 0))) [
      | inl c ↦ rw (a, b, c) i
      | inr c ↦ rw (a, b, c) (apply-Inv s _ now (λ t h. absurd (cc h)) i)
    ]
  ]
]

-- The loops: an error keeps the store that the call returns, and so does going on.
proceed-Good :
    (r : RaftMetadataStore × Result ApplyResult) (n : ℕ) (rest : RaftMetadataStore → ℕ → Outcome)
    → Good r.0
    → ((s : RaftMetadataStore) (k : ℕ) → Good s → Good (rest s k).store)
    → Good (proceed r n rest).store
unfolding proceed
proceed-Good (s, error e) n rest i f = i
proceed-Good (s, ok a) n rest i f = f s (n + 1) i

reconcile_loop-Good :
    (timeout : ℤ) (now : Time) (seen : MetadataSnapshot) (ids : List ℤ) (s : RaftMetadataStore)
    (n : ℕ)
    → Good s
    → Good (reconcile_loop timeout now seen ids s n).store
unfolding reconcile_loop
reconcile_loop-Good timeout now seen [] s n i = i
reconcile_loop-Good timeout now seen (id ∷ ids) s n i =
    elim (Option-cases (Map.lookup id seen.brokers)) [
      | inl e ↦ rw (reconcile_loop, e) (reconcile_loop-Good timeout now seen ids s n i)
      | inr (b, e) ↦ elim (Bool-cases (differ b.fenced (stale timeout now b))) [
        | inl d ↦
            rw (reconcile_loop, e, d)
              (proceed-Good _ n _ (set_broker_fence-Good s id (stale timeout now b) now i)
                (λ s' k j. reconcile_loop-Good timeout now seen ids s' k j))
        | inr d ↦ rw (reconcile_loop, e, d) (reconcile_loop-Good timeout now seen ids s n i)
      ]
    ]

elect_loop-Good :
    (topic : String) (now : Time) (seen : MetadataSnapshot) (meta : TopicMetadata) (pids : List ℤ)
    (s : RaftMetadataStore) (n : ℕ)
    → Good s
    → Good (elect_loop topic now seen meta pids s n).store
unfolding elect_loop
elect_loop-Good topic now seen meta [] s n i = i
elect_loop-Good topic now seen meta (pid ∷ pids) s n i =
    elim (Option-cases (Map.lookup pid meta.partitions)) [
      | inl e ↦ rw (elect_loop, e) (elect_loop-Good topic now seen meta pids s n i)
      | inr (p, e) ↦ elim (Bool-cases (target_leader seen.brokers p == p.leader_id)) [
        | inl d ↦ rw (elect_loop, e, d) (elect_loop-Good topic now seen meta pids s n i)
        | inr d ↦
            rw (elect_loop, e, d)
              (proceed-Good _ n _
                (set_partition_leader-Good s topic pid (target_leader seen.brokers p)
                  (elected_isr seen.brokers p (target_leader seen.brokers p)) now i)
                (λ s' k j. elect_loop-Good topic now seen meta pids s' k j))
      ]
    ]

elect_topic_leaders-Good :
    (s : RaftMetadataStore) (topic : String) (now : Time)
    → Good s
    → Good (elect_topic_leaders s topic now).store
unfolding elect_topic_leaders elect_seen
elect_topic_leaders-Good s topic now i = elim (Bool-cases (topic == "")) [
  | inl a ↦ rw a i
  | inr a ↦ elim (Option-cases (Map.lookup topic (snapshot s).topics)) [
    | inl e ↦ rw (a, elect_seen, e) i
    | inr (meta, e) ↦ rw (a, elect_seen, e) (elect_loop-Good topic now _ meta _ s 0 i)
  ]
]

no_partitions : KeyedPartitions []
unfolding Map.lookup
no_partitions pid p h = absurd (cc h)

the_topic :
    (topic t : TopicMetadata)
    → some topic ≡ some t
    → KeyedPartitions topic.partitions
    → KeyedPartitions t.partitions
the_topic topic t h k = let q : topic ≡ t = cc h in subst (λ x. KeyedPartitions x.partitions) q k

create_topic-Good :
    (s : RaftMetadataStore) (name : String) (partitions replication_factor : ℤ) (now : Time)
    → Good s
    → Good (create_topic s name partitions replication_factor now).0
unfolding create_topic
create_topic-Good s name partitions replication_factor now i = elim (Bool-cases (name == "")) [
  | inl a ↦ rw a i
  | inr a ↦ elim (Bool-cases (leb_ℤ partitions (pos 0))) [
    | inl b ↦ rw (a, b) i
    | inr b ↦ elim (Bool-cases (leb_ℤ replication_factor (pos 0))) [
      | inl c ↦ rw (a, b, c) i
      | inr c ↦
          rw (a, b, c)
            (apply-Inv s _ now
              (λ t h. the_topic _ t h (
                new_partitions-Keyed (first_ids (count_of replication_factor) 0)
                  (count_of partitions) 0 [] no_partitions))
              i)
    ]
  ]
]

register-Good :
    (s : RaftMetadataStore) (id : ℤ) (host : String) (port epoch : ℤ) (now alive applied : Time)
    → Good s
    → Good (register s id host port epoch now alive applied).0
unfolding register
register-Good s id host port epoch now alive applied i = elim (Bool-cases (ltb_ℤ id (pos 0))) [
  | inl a ↦ rw a i
  | inr a ↦ elim (Bool-cases (host == "")) [
    | inl b ↦ rw (a, b) i
    | inr b ↦ elim (Bool-cases (leb_ℤ port (pos 0))) [
      | inl c ↦ rw (a, b, c) i
      | inr c ↦ rw (a, b, c) (apply-Inv s _ applied (λ t h. absurd (cc h)) i)
    ]
  ]
]

reconcile_broker_health-Good :
    (s : RaftMetadataStore) (timeout : ℤ) (now : Time)
    → Good s
    → Good (reconcile_broker_health s timeout now).store
unfolding reconcile_broker_health
reconcile_broker_health-Good s timeout now i = elim (Bool-cases (leb_ℤ timeout (pos 0))) [
  | inl a ↦ rw a i
  | inr a ↦ rw a (reconcile_loop-Good timeout now _ _ s 0 i)
]

pub step-Good : (s : RaftMetadataStore) (call : Call) → Good s → Good (step s call)
unfolding step heartbeat
step-Good s (create name partitions factor now) i = create_topic-Good s name partitions factor now i
step-Good s (enrol id host port epoch now alive applied) i =
    register-Good s id host port epoch now alive applied i
step-Good s (beat id now) i = apply-Inv s _ now (λ t h. absurd (cc h)) i
step-Good s (lead topic partition leader isr now) i =
    set_partition_leader-Good s topic partition leader isr now i
step-Good s (fence id fenced now) i = set_broker_fence-Good s id fenced now i
step-Good s (reconcile timeout now) i = reconcile_broker_health-Good s timeout now i
step-Good s (elect topic now) i = elect_topic_leaders-Good s topic now i

run-Good : (calls : List Call) (s : RaftMetadataStore) → Good s → Good (run s calls)
unfolding run
run-Good [] s i = i
run-Good (call ∷ calls) s i = run-Good calls (step s call) (step-Good s call i)

-- Whatever calls of the controller have been made on a new store, in whatever order and with
-- whatever arguments and times, every broker, topic and partition stands under its own id or name,
-- no id is negative, and no topic has the empty name.
pub run-new_raft_metadata_store-Inv :
    (calls : List Call) → Inv (run new_raft_metadata_store calls).metadata
run-new_raft_metadata_store-Inv calls =
    run-Good calls new_raft_metadata_store new_raft_metadata_store-Inv
