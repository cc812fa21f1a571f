-- ===== src/ControlPlane/Controller/Elections.antt =====
-- `ElectTopicLeaders`: the loop over the partitions of a topic.
use distributed_real_time_ev.Base.{
  ℕ, ◌+◌, ℤ, pos, negsuc, ltb_ℤ, Time, false, ◌==◌, ==_iff, ==_refl, String, string_comparable,
  int_comparable, Option, none, some, List, [], ◌∷◌, In, ◌≡◌, refl, sym, subst, ap, ◌∙◌, ◌⊎◌, inl,
  inr, Bool-cases, Option-cases,
}
use distributed_real_time_ev.Base.Map
use distributed_real_time_ev.Base.Map.{Map, keys}
use distributed_real_time_ev.ControlPlane.Metadata.{
  PartitionMetadata, TopicMetadata, MetadataSnapshot,
}
use distributed_real_time_ev.ControlPlane.Store.{
  PartitionLeaderUpdate, RaftMetadataStore, put_topic, led,
}
use distributed_real_time_ev.ControlPlane.Store.Applying.{applied, apply-set_leader}
use distributed_real_time_ev.ControlPlane.Store.Invariant.{Inv}
use distributed_real_time_ev.ControlPlane.Controller.{
  set_partition_leader, proceed, Outcome, target_leader, elected_isr, elect_loop,
}
use distributed_real_time_ev.ControlPlane.Controller.Choosing.{
  update_of, elected_of, led_twice, moved_lem, target_leader_bound,
}

module _ (topic : String) (now : Time) (seen : MetadataSnapshot) (known : Inv seen)
    (meta : TopicMetadata) (there : Map.lookup topic seen.topics ≡ some meta)
    (named : (topic == "") ≡ false) where
  abbrev pub topic_with : Map ℤ PartitionMetadata → TopicMetadata
  topic_with ps = record meta { partitions = ps }

  -- The store whose topic has the partitions `ps`.
  abbrev pub Holds : RaftMetadataStore → Map ℤ PartitionMetadata → Type 0
  Holds s ps = Map.lookup topic s.metadata.topics ≡ some (topic_with ps)

  abbrev pub after : ℤ → Option PartitionMetadata → Option PartitionMetadata
  after pid none = none
  after pid (some p) = some (elected_of seen.brokers topic pid p)

  abbrev pub Settled : Map ℤ PartitionMetadata → ℤ → Type 0
  Settled ps pid = Map.lookup pid ps ≡ after pid (Map.lookup pid meta.partitions)

  abbrev pub Progress : Map ℤ PartitionMetadata → Type 0
  Progress ps = (pid : ℤ) → (Map.lookup pid ps ≡ Map.lookup pid meta.partitions) ⊎ Settled ps pid

  abbrev with_partitions : RaftMetadataStore → Map ℤ PartitionMetadata → RaftMetadataStore
  with_partitions s ps = (applied s (put_topic s.metadata topic (topic_with ps))).0

  pub record Done (s : RaftMetadataStore) (ps : Map ℤ PartitionMetadata) (pids : List ℤ)
      (o : Outcome) : Type 0 where
    pub failure : o.failure ≡ none
    pub final : Map ℤ PartitionMetadata
    pub holds : Holds o.store final
    pub progress : Progress final
    pub keeps : (pid : ℤ) → Settled ps pid → Settled final pid
    pub visited : (pid : ℤ) → In pid pids → Settled final pid
    pub brokers : o.store.metadata.brokers ≡ s.metadata.brokers
    pub others :
        (name : String)
        → (topic == name) ≡ false
        → Map.lookup name o.store.metadata.topics ≡ Map.lookup name s.metadata.topics

  Done-cons :
      {s : RaftMetadataStore} {ps : Map ℤ PartitionMetadata} {pids : List ℤ} {o : Outcome} (pid : ℤ)
      (d : Done s ps pids o)
      → Settled d.final pid
      → Done s ps (pid ∷ pids) o
  Done-cons pid d h = record {
    failure = d.failure;
    final = d.final;
    holds = d.holds;
    progress = d.progress;
    keeps = d.keeps;
    visited = λ j k. elim k [ inl e ↦ subst (Settled d.final) e h | inr m ↦ d.visited j m ];
    brokers = d.brokers;
    others = d.others;
  }

  Done-skip :
      {s : RaftMetadataStore} {ps : Map ℤ PartitionMetadata} {pids : List ℤ} {o : Outcome} (pid : ℤ)
      → Map.lookup pid meta.partitions ≡ after pid (Map.lookup pid meta.partitions)
      → Done s ps pids o
      → Done s ps (pid ∷ pids) o
  Done-skip pid h d = Done-cons pid d (elim (d.progress pid) [ inl q ↦ q ∙ h | inr q ↦ q ])

  -- Writing a partition as elected.
  module _ (ps : Map ℤ PartitionMetadata) (pid : ℤ) (p : PartitionMetadata)
      (e : Map.lookup pid meta.partitions ≡ some p) where
    abbrev settle : Map ℤ PartitionMetadata
    settle = Map.insert pid (elected_of seen.brokers topic pid p) ps

    settle-Settled : Settled settle pid
    settle-Settled = rw (Map.lookup-insert, ==_refl pid, e) refl

    settle-others : (j : ℤ) → (Map.lookup j settle ≡ Map.lookup j ps) ⊎ Settled settle j
    settle-others j = elim (Bool-cases (pid == j)) [
      | inl q ↦ inr (subst (Settled settle) ((==_iff pid j).0 q) settle-Settled)
      | inr q ↦ inl (rw (Map.lookup-insert, q) refl)
    ]

    settle-Progress : Progress ps → Progress settle
    settle-Progress pr j = elim (settle-others j) [
      | inl q ↦ elim (pr j) [ inl a ↦ inl (q ∙ a) | inr a ↦ inr (q ∙ a) ]
      | inr q ↦ inr q
    ]

    Done-settle :
        (s : RaftMetadataStore) (pids : List ℤ) (o : Outcome)
        → Done (with_partitions s settle) settle pids o
        → Done s ps (pid ∷ pids) o
    unfolding put_topic
    Done-settle s pids o d =
        Done-cons pid
          (record {
            failure = d.failure;
            final = d.final;
            holds = d.holds;
            progress = d.progress;
            keeps = λ j h. d.keeps j (elim (settle-others j) [ inl q ↦ q ∙ h | inr q ↦ q ]);
            visited = d.visited;
            brokers = d.brokers;
            others = λ name h. d.others name h ∙ rw (Map.lookup-insert, h) refl;
          })
          (d.keeps pid settle-Settled)

  set_partition_leader-found :
      (s : RaftMetadataStore) (ps : Map ℤ PartitionMetadata) (pid leader : ℤ) (isr : List ℤ)
      (p : PartitionMetadata)
      → ltb_ℤ pid (pos 0) ≡ false
      → ltb_ℤ leader (negsuc 0) ≡ false
      → Holds s ps
      → Map.lookup pid ps ≡ some p
      → set_partition_leader s topic pid leader isr now
        ≡ applied s (
            put_topic s.metadata topic (
              topic_with (
                Map.insert pid
                  (led p (record { topic = topic; partition = pid; leader_id = leader; isr = isr }))
                  ps)))
  unfolding set_partition_leader
  set_partition_leader-found s ps pid leader isr p h k a b =
      rw (named, h, k) (apply-set_leader s now _ (topic_with ps) p named h a b)

  -- The call that the loop makes for a partition whose leader is given up.
  electing :
      (s : RaftMetadataStore) (ps : Map ℤ PartitionMetadata) (pid : ℤ) (p : PartitionMetadata)
      → Map.lookup pid meta.partitions ≡ some p
      → (target_leader seen.brokers p == p.leader_id) ≡ false
      → Holds s ps
      → Progress ps
      → set_partition_leader s topic pid
          (target_leader seen.brokers p)
          (elected_isr seen.brokers p (target_leader seen.brokers p))
          now
        ≡ applied s (
            put_topic s.metadata topic
              (topic_with (Map.insert pid (elected_of seen.brokers topic pid p) ps)))
  electing s ps pid p e q h pr = elim (pr pid) [
    | inl a ↦ found p (a ∙ e) ∙ sym write
    | inr a ↦
        let b : Map.lookup pid ps ≡ some (led p u) = a ∙ ap (after pid) e ∙ rw q refl in
        found (led p u) b
        ∙ ap (λ x. applied s (put_topic s.metadata topic (topic_with (Map.insert pid x ps))))
            (led_twice p topic pid u.leader_id u.isr)
        ∙ sym write
  ]
    where
      u : PartitionLeaderUpdate
      u = update_of seen.brokers topic pid p

      write :
          applied s (
            put_topic s.metadata topic
              (topic_with (Map.insert pid (elected_of seen.brokers topic pid p) ps)))
          ≡ applied s (put_topic s.metadata topic (topic_with (Map.insert pid (led p u) ps)))
      write = rw q refl

      found :
          (p' : PartitionMetadata)
          → Map.lookup pid ps ≡ some p'
          → set_partition_leader s topic pid u.leader_id u.isr now
            ≡ applied s (put_topic s.metadata topic (topic_with (Map.insert pid (led p' u) ps)))
      found p' b =
          set_partition_leader-found s ps pid u.leader_id u.isr p'
            ((known.topics topic meta there).2 pid p e).1
            (target_leader_bound seen.brokers known.brokers p (moved_lem seen.brokers p q)) h b

  pub loop-Done :
      (pids : List ℤ) (s : RaftMetadataStore) (ps : Map ℤ PartitionMetadata) (n : ℕ)
      → Holds s ps
      → Progress ps
      → Done s ps pids (elect_loop topic now seen meta pids s n)
  unfolding elect_loop proceed put_topic
  loop-Done [] s ps n h pr = record {
    failure = refl;
    final = ps;
    holds = h;
    progress = pr;
    keeps = λ pid k. k;
    visited = λ pid k. elim k [ ];
    brokers = refl;
    others = λ name k. refl;
  }
  loop-Done (pid ∷ pids) s ps n h pr = elim (Option-cases (Map.lookup pid meta.partitions)) [
    | inl e ↦ rw (elect_loop, e) (Done-skip pid (rw e refl) (loop-Done pids s ps n h pr))
    | inr (p, e) ↦ elim (Bool-cases (target_leader seen.brokers p == p.leader_id)) [
      | inl same ↦
          let kept : Map.lookup pid meta.partitions ≡ after pid (Map.lookup pid meta.partitions) =
            rw (e, same) refl in
          rw (elect_loop, e, same) (Done-skip pid kept (loop-Done pids s ps n h pr))
      | inr moved ↦
          rw (elect_loop, e, moved, electing s ps pid p e moved h pr)
            (Done-settle ps pid p e s pids _ (
              loop-Done pids (with_partitions s (settle ps pid p e)) (settle ps pid p e) (n + 1)
                (rw (Map.lookup-insert, ==_refl topic) refl) (settle-Progress ps pid p e pr)))
    ]
  ]
