-- ===== src/Replication/Manager/AckAll.antt =====
-- `WaitForAckAll`: the polling loop of a produce with acks=all. Between two rounds other goroutines
-- call the manager's methods; a schedule lists those calls and the two times that each round reads.
use distributed_real_time_ev.Base.{
  suc, ℤ, pos, ◌+ℤ◌, ◌≤ℤ◌, ◌<ℤ◌, ltb_ℤ, leb_ℤ, Time, Bool, true, false, ◌&&◌, ==_refl, String,
  string_comparable, int_comparable, Option, none, some, List, [], ◌∷◌, length, Any, ◌≡◌, refl,
  subst, ◌∙◌, ◌⊎◌, inl, inr, Bool-cases, arith, if◌then◌else◌,
}
use distributed_real_time_ev.Base.Map.{Map}
use distributed_real_time_ev.Replication.Partition.{
  Config, ReplicaState, PartitionState, Status, recompute, status_locked, in_sync_offsets,
}
use distributed_real_time_ev.Replication.Partition.Watermark.{Bounds, IsValid}
use distributed_real_time_ev.Replication.Partition.Isr.{status_agrees}
use distributed_real_time_ev.Replication.Manager.{
  Manager, find, store, ensure_partition, recompute_locked,
}
use distributed_real_time_ev.Replication.Manager.Calls.{Call, run}
use distributed_real_time_ev.Replication.Manager.Updates.{recompute-Holds}
use distributed_real_time_ev.Replication.Manager.Store.{find-recompute_locked}
use distributed_real_time_ev.Replication.Manager.Invariant.{
  Inv, ensure_partition-Inv, recompute_locked-Inv, run-Inv,
}

-- One round: what the others did since the last one, and the times of its two calls of `time.Now`.
pub record Round : Type 0 where
  pub others : List Call
  pub now : Time
  pub later : Time

-- status.HighWatermark >= targetOffset && len(status.InSyncReplicas) >= MinInSyncReplicas
satisfied : Config → Status → ℤ → Bool
satisfied cfg status target =
    leb_ℤ target status.high_watermark
    && leb_ℤ cfg.min_in_sync_replicas (pos (length status.in_sync_replicas))

-- The part of a round under the lock: the manager after it, and the status.
poll : Manager → String → ℤ → Time → Manager × Status
poll m topic partition now =
    let (m₁, ps) = ensure_partition m topic partition in
    let (m₂, ps') = recompute_locked m₁ topic partition ps now in
    (m₂, status_locked m₁.cfg topic partition ps' now)

-- The rounds of the loop; `none` means that the schedule ends before the loop does.
wait_rounds : Manager → String → ℤ → ℤ → ℤ → List Round → Option (Manager × Option String)
wait_rounds m topic partition target deadline [] = none
wait_rounds m topic partition target deadline (r ∷ rounds) =
    let (m', status) = poll (run m r.others) topic partition r.now in
    let rest = wait_rounds m' topic partition target deadline rounds in
    if satisfied m'.cfg status target
    then some (m', none)
    else if ltb_ℤ deadline (pos r.later)
    then some (m', some "acks=all timeout")
    else rest

pub wait_for_ack_all :
    Manager → String → ℤ → ℤ → Time → List Round → Option (Manager × Option String)
wait_for_ack_all m topic partition target start rounds =
    wait_rounds m topic partition target (pos start +ℤ m.cfg.ack_all_timeout) rounds

-- The record at `target` is on the leader and on every follower in sync, and these are enough.
pub record IsCommitted (m : Manager) (topic : String) (partition target : ℤ) : Type 0 where
  pub state : PartitionState
  pub stored : find m topic partition ≡ some state
  pub on_leader : target ≤ℤ state.leader_offset
  pub on_followers : Bounds target state.followers
  pub enough : m.cfg.min_in_sync_replicas ≤ℤ pos (suc (length (in_sync_offsets state.followers)))

Bounds-mono :
    (a b : ℤ) (followers : Map ℤ ReplicaState) → a ≤ℤ b → Bounds b followers → Bounds a followers
Bounds-mono a b [] h k = tt
Bounds-mono a b (x ∷ rest) h k = ((λ s. let k' = k.0 s in omega arith), Bounds-mono a b rest h k.1)

satisfied_parts :
    (cfg : Config) (status : Status) (target : ℤ)
    → satisfied cfg status target ≡ true
    → (target ≤ℤ status.high_watermark)
      × (cfg.min_in_sync_replicas ≤ℤ pos (length status.in_sync_replicas))
unfolding satisfied
satisfied_parts cfg status target h = ground arith

isr_count :
    (cfg : Config) (topic : String) (partition : ℤ) (ps : PartitionState) (now : Time)
    → length (status_locked cfg topic partition (recompute cfg now ps).0 now).in_sync_replicas
      ≡ suc (length (in_sync_offsets (recompute cfg now ps).0.followers))
isr_count cfg topic partition ps now =
    (status_agrees cfg topic partition ps now).0 ∙ (unfold recompute in refl)

status_watermark :
    (cfg : Config) (topic : String) (partition : ℤ) (ps : PartitionState) (now : Time)
    → (status_locked cfg topic partition ps now).high_watermark ≡ ps.high_watermark
unfolding status_locked
status_watermark cfg topic partition ps now = refl

module _ (topic : String) (partition target : ℤ) where
  -- From the partition that `ensurePartition` has returned.
  locked-IsCommitted :
      (m : Manager) (ps : PartitionState) (now : Time)
      → IsValid ps
      → let (m', ps') = recompute_locked m topic partition ps now in
        satisfied m'.cfg (status_locked m.cfg topic partition ps' now) target ≡ true
        → IsCommitted m' topic partition target
  unfolding recompute_locked store
  locked-IsCommitted m ps now v h =
      let held = recompute-Holds m.cfg now ps v in
      let (reached, enough) = satisfied_parts m.cfg _ target h in
      let below = subst (λ z. target ≤ℤ z) (status_watermark m.cfg topic partition _ now) reached in
      record {
        state = (recompute m.cfg now ps).0;
        stored =
            find-recompute_locked m topic partition ps now topic partition
            ∙ rw (==_refl topic, ==_refl partition) refl;
        on_leader = omega (arith, held.committed.below_leader);
        on_followers = Bounds-mono target _ _ below held.committed.below_isr;
        enough = rw isr_count at enough;
      }

module _ (m : Manager) (topic : String) (partition target : ℤ) where
  poll-Inv : (now : Time) → Inv m → Inv (poll m topic partition now).0
  unfolding poll
  poll-Inv now v =
      let h = ensure_partition-Inv m topic partition v in
      recompute_locked-Inv _ topic partition h.0 _ now h.1.valid

  poll-IsCommitted :
      (now : Time)
      → Inv m
      → let (m', status) = poll m topic partition now in
        satisfied m'.cfg status target ≡ true → IsCommitted m' topic partition target
  unfolding poll
  poll-IsCommitted now v h =
      locked-IsCommitted topic partition target (ensure_partition m topic partition).0
        (ensure_partition m topic partition).1 now
        (ensure_partition-Inv m topic partition v).1.valid h

module _ (topic : String) (partition target deadline : ℤ) where
  wait_rounds-IsCommitted :
      (m : Manager) (rounds : List Round) (m' : Manager)
      → Inv m
      → wait_rounds m topic partition target deadline rounds ≡ some (m', none)
      → IsCommitted m' topic partition target
  unfolding wait_rounds
  wait_rounds-IsCommitted m [] m' v h = absurd (cc h)
  wait_rounds-IsCommitted m (r ∷ rounds) m' v h =
      let (m₁, st) = poll (run m r.others) topic partition r.now in
      let v₁ = run-Inv m r.others v in
      elim (Bool-cases (satisfied m₁.cfg st target)) [
        | inl e ↦
            let done : some (m₁, none) ≡ some (m', none) = rw e at h in
            let same : m₁ ≡ m' = cc done in
            subst (λ x. IsCommitted x topic partition target) same
              (poll-IsCommitted (run m r.others) topic partition target r.now v₁ e)
        | inr e ↦ elim (Bool-cases (ltb_ℤ deadline (pos r.later))) [
          | inl late ↦ absurd (cc (rw (e, late) at h))
          | inr early ↦
              wait_rounds-IsCommitted m₁ rounds m'
                (poll-Inv (run m r.others) topic partition target r.now v₁) (rw (e, early) at h)
        ]
      ]

  wait_rounds-Inv :
      (m : Manager) (rounds : List Round) (m' : Manager) (failure : Option String)
      → Inv m
      → wait_rounds m topic partition target deadline rounds ≡ some (m', failure)
      → Inv m'
  unfolding wait_rounds
  wait_rounds-Inv m [] m' failure v h = absurd (cc h)
  wait_rounds-Inv m (r ∷ rounds) m' failure v h =
      let (m₁, st) = poll (run m r.others) topic partition r.now in
      let v₁ = poll-Inv (run m r.others) topic partition target r.now (run-Inv m r.others v) in
      elim (Bool-cases (satisfied m₁.cfg st target)) [
        | inl e ↦
            let done : some (m₁, none) ≡ some (m', failure) = rw e at h in subst Inv (cc done) v₁
        | inr e ↦ elim (Bool-cases (ltb_ℤ deadline (pos r.later))) [
          | inl late ↦
              let done : some (m₁, some "acks=all timeout") ≡ some (m', failure) =
                rw (e, late) at h in
              subst Inv (cc done) v₁
          | inr early ↦ wait_rounds-Inv m₁ rounds m' failure v₁ (rw (e, early) at h)
        ]
      ]

  wait_rounds_outcome :
      (m : Manager) (rounds : List Round)
      → Any (λ r. deadline <ℤ pos r.later) rounds
      → (m' : Manager) × ((wait_rounds m topic partition target deadline rounds ≡ some (m', none))
          ⊎ (wait_rounds m topic partition target deadline rounds
              ≡ some (m', some "acks=all timeout")))
  unfolding wait_rounds
  wait_rounds_outcome m [] h = elim h [ ]
  wait_rounds_outcome m (r ∷ rounds) h =
      let (m₁, st) = poll (run m r.others) topic partition r.now in
      elim (Bool-cases (satisfied m₁.cfg st target)) [
        | inl e ↦ (m₁, inl (rw e refl))
        | inr e ↦ elim (Bool-cases (ltb_ℤ deadline (pos r.later))) [
          | inl late ↦ (m₁, inr (rw (e, late) refl))
          | inr early ↦ rw (e, early) (wait_rounds_outcome m₁ rounds (later_round early h))
        ]
      ]
    where
      later_round :
          ltb_ℤ deadline (pos r.later) ≡ false
          → (deadline <ℤ pos r.later) ⊎ Any (λ q. deadline <ℤ pos q.later) rounds
          → Any (λ q. deadline <ℤ pos q.later) rounds
      later_round early (inl q) = absurd (ground arith)
      later_round early (inr q) = q

pub wait_for_ack_all-Inv :
    (m : Manager) (topic : String) (partition target : ℤ) (start : Time) (rounds : List Round)
    (m' : Manager) (failure : Option String)
    → Inv m
    → wait_for_ack_all m topic partition target start rounds ≡ some (m', failure)
    → Inv m'
unfolding wait_for_ack_all
wait_for_ack_all-Inv m topic partition target start rounds m' failure v h =
    wait_rounds-Inv topic partition target _ m rounds m' failure v h

-- A schedule that goes on past the deadline ends the wait: either with no error, and then the target
-- record is on the leader, on every follower in sync, and on at least the configured minimum of
-- replicas, or with the timeout error.
pub wait_for_ack_all_lem :
    (m : Manager) (topic : String) (partition target : ℤ) (start : Time) (rounds : List Round)
    → Inv m
    → Any (λ r. pos start +ℤ m.cfg.ack_all_timeout <ℤ pos r.later) rounds
    → (m' : Manager) × (((wait_for_ack_all m topic partition target start rounds ≡ some (m', none))
          × IsCommitted m' topic partition target)
        ⊎ (wait_for_ack_all m topic partition target start rounds
            ≡ some (m', some "acks=all timeout")))
unfolding wait_for_ack_all
wait_for_ack_all_lem m topic partition target start rounds v ends =
    let deadline = pos start +ℤ m.cfg.ack_all_timeout in
    let (m', e) = wait_rounds_outcome topic partition target deadline m rounds ends in
    (
      m',
      elim e [
        | inl good ↦
            inl (good, wait_rounds-IsCommitted topic partition target deadline m rounds m' v good)
        | inr late ↦ inr late
      ],
    )
