-- ===== src/Replication/Manager/Invariant.antt =====
-- What holds of every partition of the manager between two calls.
use distributed_real_time_ev.Base.{
  ℤ, pos, leb_ℤ, Time, Bool, not, ◌&&◌, ◌||◌, ◌==◌, String, string_comparable, int_comparable, some,
  List, [], ◌∷◌, ◌≡◌, sym, subst, inl, inr, Option-cases, Bool-cases, arith, if◌then◌else◌,
}
use distributed_real_time_ev.Base.Map
use distributed_real_time_ev.Base.Map.{Map, All-insert, All-lookup}
use distributed_real_time_ev.Replication.Partition.{Config, PartitionState, recompute}
use distributed_real_time_ev.Replication.Partition.Watermark.{IsValid}
use distributed_real_time_ev.Replication.Manager.{
  Manager, find, topic_partitions, new_partition, ensure_partition, recompute_locked,
  on_leader_append, ack_replica, ack_ensured, high_watermark, is_leader, set_role, bootstrap_offset,
  status, new_manager,
}
use distributed_real_time_ev.Replication.Manager.Store.{
  find-store, find-recompute_locked, ensure_partition-cases,
}
use distributed_real_time_ev.Replication.Manager.Calls.{
  Call, append, ack, watermark, leads, assume, bootstrap, report, step, run,
}
use distributed_real_time_ev.Replication.Manager.Updates.{
  Holds, recompute-Holds, new_partition-Holds, raised, assume_role-IsValid, bootstrapped-IsValid,
  appended-IsValid, acked-IsValid,
}

pub record Inv (m : Manager) : Type 0 where
  pub holds :
      (topic : String) (partition : ℤ) (ps : PartitionState)
      → find m topic partition ≡ some ps
      → Holds ps

Inv-write :
    (m m' : Manager) (topic : String) (partition : ℤ) (ps : PartitionState)
    → ((t : String) (p : ℤ)
        → find m' t p ≡ (if topic == t && partition == p then some ps else find m t p))
    → Inv m
    → Holds ps
    → Inv m'
Inv-write m m' topic partition ps law v h = record {
  holds = λ t p q e. elim (Bool-cases (topic == t && partition == p)) [
    | inl s ↦ subst Holds (ground (arith, law t p)) h
    | inr s ↦ v.holds t p q (ground (arith, law t p))
  ];
}

module _ (m : Manager) (topic : String) (partition : ℤ) (v : Inv m) where
  pub ensure_partition-Inv :
      Inv (ensure_partition m topic partition).0 × Holds (ensure_partition m topic partition).1
  ensure_partition-Inv = elim (ensure_partition-cases m topic partition) [
    | inl (e, s) ↦ (subst Inv (sym s) v, v.holds topic partition _ e)
    | inr (_, q, s) ↦
        let h = new_partition-Holds m.cfg in
        (
          subst Inv (sym s) (
              Inv-write m _ topic partition _ (find-store m topic partition (new_partition m.cfg)) v
                h),
          subst Holds (sym q) h,
        )
  ]

  pub recompute_locked-Inv :
      (ps : PartitionState) (now : Time)
      → IsValid ps
      → Inv (recompute_locked m topic partition ps now).0
  recompute_locked-Inv ps now h =
      Inv-write m _ topic partition (recompute m.cfg now ps).0
        (find-recompute_locked m topic partition ps now) v (recompute-Holds m.cfg now ps h)

module _ (m : Manager) (t : String) (p : ℤ) (v : Inv m) where
  abbrev here : Inv (ensure_partition m t p).0 × Holds (ensure_partition m t p).1
  here = ensure_partition-Inv m t p v

  on_leader_append-Inv : (offset : ℤ) (now : Time) → Inv (on_leader_append m t p offset now)
  unfolding on_leader_append raised
  on_leader_append-Inv offset now =
      elim (Bool-cases ((ensure_partition m t p).1.role == "leader")) [
        | inl e ↦ rw e (
            recompute_locked-Inv _ t p here.0 _ now
              (appended-IsValid (ensure_partition m t p).1 offset here.1.valid))
        | inr e ↦ rw e here.0
      ]

  ack_replica-Inv : (id offset : ℤ) (seen now : Time) → Inv (ack_replica m t p id offset seen now).0
  unfolding ack_replica ack_ensured
  ack_replica-Inv id offset seen now =
      elim (Bool-cases (leb_ℤ id (pos 0) || leb_ℤ m.cfg.replication_factor id)) [
        | inl e ↦ rw e v
        | inr e ↦ rw e (elim (Bool-cases ((ensure_partition m t p).1.role == "leader")) [
          | inr f ↦ rw f here.0
          | inl f ↦ rw f (elim (Option-cases (Map.lookup id (ensure_partition m t p).1.followers)) [
            | inl g ↦ rw g here.0
            | inr (r, g) ↦ rw g (
                recompute_locked-Inv _ t p here.0 _ now
                  (acked-IsValid (ensure_partition m t p).1 id offset r seen g here.1.valid))
          ])
        ])
      ]

  set_role-Inv : (role : String) (now : Time) → Inv (set_role m t p role now).0
  unfolding set_role
  set_role-Inv role now = elim (Bool-cases (not (role == "leader") && not (role == "follower"))) [
    | inl e ↦ rw e v
    | inr e ↦ rw e (
        recompute_locked-Inv _ t p here.0 _ now
          (assume_role-IsValid (ensure_partition m t p).1 role here.1.valid))
  ]

-- Every method, on every branch, keeps the invariant.
pub step-Inv : (m : Manager) (c : Call) → Inv m → Inv (step m c)
unfolding step high_watermark is_leader bootstrap_offset status
step-Inv m (append t p offset now) v = on_leader_append-Inv m t p v offset now
step-Inv m (ack t p id offset seen now) v = ack_replica-Inv m t p v id offset seen now
step-Inv m (watermark t p now) v =
    recompute_locked-Inv _ t p (ensure_partition-Inv m t p v).0 _ now
      (ensure_partition-Inv m t p v).1.valid
step-Inv m (leads t p) v = (ensure_partition-Inv m t p v).0
step-Inv m (assume t p role now) v = set_role-Inv m t p v role now
step-Inv m (bootstrap t p offset now) v =
    recompute_locked-Inv _ t p (ensure_partition-Inv m t p v).0 _ now
      (bootstrapped-IsValid _ offset (ensure_partition-Inv m t p v).1.valid)
step-Inv m (report t p now) v =
    recompute_locked-Inv _ t p (ensure_partition-Inv m t p v).0 _ now
      (ensure_partition-Inv m t p v).1.valid

pub run-Inv : (m : Manager) (cs : List Call) → Inv m → Inv (run m cs)
unfolding run
run-Inv m [] v = v
run-Inv m (c ∷ cs) v = run-Inv (step m c) cs (step-Inv m c v)

pub new_manager-Inv : (cfg : Config) (hook : Bool) → Inv (new_manager cfg hook)
unfolding new_manager topic_partitions Map.lookup
new_manager-Inv cfg hook = record { holds = λ t p ps e. cc e }

-- Of a new manager, whatever calls have been made, every partition has a high watermark that is the
-- least of the leader's offset and the offsets of the followers flagged in sync, no follower is
-- ahead of the leader, and no offset is below -1.
pub run-new_manager-Inv :
    (cfg : Config) (hook : Bool) (cs : List Call) → Inv (run (new_manager cfg hook) cs)
run-new_manager-Inv cfg hook cs = run-Inv (new_manager cfg hook) cs (new_manager-Inv cfg hook)
