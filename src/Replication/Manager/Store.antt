-- ===== src/Replication/Manager/Store.antt =====
-- Reads after writes on the manager's two levels of maps.
use distributed_real_time_ev.Base.{
  ℤ, Time, Bool, true, false, ◌&&◌, ◌==◌, ==_iff, String, string_comparable, int_comparable, none,
  some, ◌≡◌, refl, ap, ◌∙◌, ◌⊎◌, inl, inr, Option-cases, Bool-cases, if◌then◌else◌,
}
use distributed_real_time_ev.Base.Map
use distributed_real_time_ev.Replication.Partition.{PartitionState, recompute}
use distributed_real_time_ev.Replication.Manager.{
  Manager, find, or_empty, topic_partitions, store, new_partition, ensure_partition,
  recompute_locked,
}

module _ (m : Manager) (topic : String) (partition : ℤ) (ps : PartitionState) where
  topic_partitions-store :
      (t : String)
      → topic_partitions (store m topic partition ps) t ≡ (
          if topic == t
          then Map.insert partition ps (topic_partitions m topic)
          else topic_partitions m t)
  unfolding topic_partitions store
  topic_partitions-store t =
      ap or_empty (Map.lookup-insert topic _ m.partitions t) ∙ split (topic == t)
    where
      split :
          (b : Bool)
          → or_empty (
              if b
              then some (Map.insert partition ps (or_empty (Map.lookup topic m.partitions)))
              else Map.lookup t m.partitions)
            ≡ (if b
                then Map.insert partition ps (or_empty (Map.lookup topic m.partitions))
                else or_empty (Map.lookup t m.partitions))
      split true = refl
      split false = refl

  pub find-store :
      (t : String) (p : ℤ)
      → find (store m topic partition ps) t p
        ≡ (if topic == t && partition == p then some ps else find m t p)
  find-store t p = rw (topic_partitions-store t) (elim (Bool-cases (topic == t)) [
    | inl e ↦ let same = (==_iff topic t).0 e in rw e (rw Map.lookup-insert (rw same refl))
    | inr e ↦ rw e refl
  ])

module _ (m : Manager) (topic : String) (partition : ℤ) (ps : PartitionState) where
  pub find-recompute_locked :
      (now : Time) (t : String) (p : ℤ)
      → find (recompute_locked m topic partition ps now).0 t p
        ≡ (if topic == t && partition == p then some (recompute m.cfg now ps).0 else find m t p)
  unfolding recompute_locked topic_partitions
  find-recompute_locked now t p = find-store m topic partition (recompute m.cfg now ps).0 t p

module _ (m : Manager) (topic : String) (partition : ℤ) where
  -- What `ensurePartition` returns: the partition that is there, or a new one that it has stored.
  pub ensure_partition-cases :
      ((find m topic partition ≡ some (ensure_partition m topic partition).1)
        × ((ensure_partition m topic partition).0 ≡ m))
      ⊎ ((find m topic partition ≡ none)
          × ((ensure_partition m topic partition).1 ≡ new_partition m.cfg)
          × ((ensure_partition m topic partition).0
              ≡ store m topic partition (new_partition m.cfg)))
  unfolding ensure_partition
  ensure_partition-cases = elim (Option-cases (find m topic partition)) [
    | inl e ↦ inr (e, rw (e, ensure_partition), rw (e, ensure_partition))
    | inr (ps, e) ↦ inl (rw (e, ensure_partition), rw (e, ensure_partition))
  ]
