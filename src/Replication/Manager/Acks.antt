-- ===== src/Replication/Manager/Acks.antt =====
-- What an acknowledgement of a follower does, on each branch of `AckReplica`.
use mathlib.Core.Option
use distributed_real_time_ev.Base.{
  ℤ, pos, ◌<ℤ◌, ltb_ℤ, leb_ℤ, Time, true, false, ◌||◌, ◌==◌, ==_iff, ==_refl, String,
  string_comparable, int_comparable, Option, none, some, [], ◌∷◌, ◌≡◌, refl, ap, ◌∙◌, inl, inr, ◌≢◌,
  Bool-cases, arith, if◌then◌else◌,
}
use distributed_real_time_ev.Base.Map
use distributed_real_time_ev.Base.Map.{Map}
use distributed_real_time_ev.Replication.Partition.{
  Config, ReplicaState, PartitionState, refresh, refresh_all, recompute,
}
use distributed_real_time_ev.Replication.Manager.{
  Manager, find, ensure_partition, recompute_locked, ack_replica, ack_ensured, acked,
}
use distributed_real_time_ev.Replication.Manager.Store.{find-recompute_locked}

-- The offset of a follower.
abbrev pub follower_offset : PartitionState → ℤ → Option ℤ
follower_offset ps id = Option.map (λ r. r.offset) (Map.lookup id ps.followers)

offset-refresh_all :
    (cfg : Config) (lead : ℤ) (now : Time) (id : ℤ) (followers : Map ℤ ReplicaState)
    → Option.map (λ r. r.offset) (Map.lookup id (refresh_all cfg lead now followers))
      ≡ Option.map (λ r. r.offset) (Map.lookup id followers)
unfolding refresh_all refresh Map.lookup
offset-refresh_all cfg lead now id [] = refl
offset-refresh_all cfg lead now id ((j, r) ∷ rest) = elim (Bool-cases (j == id)) [
  | inl e ↦ rw e refl
  | inr e ↦ rw e (offset-refresh_all cfg lead now id rest)
]

-- A recomputation moves no offset.
pub follower_offset-recompute :
    (cfg : Config) (now : Time) (ps : PartitionState) (id : ℤ)
    → follower_offset (recompute cfg now ps).0 id ≡ follower_offset ps id
unfolding recompute
follower_offset-recompute cfg now ps id =
    offset-refresh_all cfg ps.leader_offset now id ps.followers

-- The larger of the follower's old offset and the acknowledged one, which counts up to the leader's.
abbrev pub advance : ℤ → ℤ → ℤ → ℤ
advance lead old offset =
    let capped = if ltb_ℤ lead offset then lead else offset in
    if ltb_ℤ old capped then capped else old

-- The partition that `AckReplica` hands to `recomputeLocked`.
acked_partition : PartitionState → ℤ → ReplicaState → ℤ → Time → PartitionState
acked_partition ps id r offset seen = record ps {
  followers =
      Map.insert id
        (acked r (if ltb_ℤ ps.leader_offset offset then ps.leader_offset else offset) seen)
        ps.followers;
}

follower_offset-acked_partition :
    (ps : PartitionState) (id : ℤ) (r : ReplicaState) (offset : ℤ) (seen : Time) (j : ℤ)
    → follower_offset (acked_partition ps id r offset seen) j
      ≡ (if id == j then some (advance ps.leader_offset r.offset offset) else follower_offset ps j)
unfolding acked_partition acked
follower_offset-acked_partition ps id r offset seen j =
    rw Map.lookup-insert (elim (Bool-cases (id == j)) [ inl e ↦ rw e refl | inr e ↦ rw e refl ])

pub ensure_partition-found :
    (m : Manager) (t : String) (p : ℤ) (ps : PartitionState)
    → find m t p ≡ some ps
    → ensure_partition m t p ≡ (m, ps)
unfolding ensure_partition
ensure_partition-found m t p ps e = rw (e, ensure_partition) refl

module _ (m : Manager) (t : String) (p id offset : ℤ) (seen now : Time) (ps : PartitionState) where
  ack_ensured-eq :
      (r : ReplicaState)
      → (ps.role == "leader") ≡ true
      → Map.lookup id ps.followers ≡ some r
      → ack_ensured m ps t p id offset seen now
        ≡ ((recompute_locked m t p (acked_partition ps id r offset seen) now).0, none)
  unfolding ack_ensured acked_partition
  ack_ensured-eq r leader found = rw leader (rw found refl)

  ack_replica-eq :
      (r : ReplicaState)
      → (leb_ℤ id (pos 0) || leb_ℤ m.cfg.replication_factor id) ≡ false
      → find m t p ≡ some ps
      → (ps.role == "leader") ≡ true
      → Map.lookup id ps.followers ≡ some r
      → ack_replica m t p id offset seen now
        ≡ ((recompute_locked m t p (acked_partition ps id r offset seen) now).0, none)
  unfolding ack_replica
  ack_replica-eq r valid at leader found =
      rw (valid, ensure_partition-found m t p ps at) (ack_ensured-eq r leader found)

  -- An acknowledgement of a configured follower, on the leader, succeeds; it raises that follower's
  -- offset to the acknowledged one, but not above the leader's and never down, and leaves the
  -- leader's offset, the role and the offsets of the other followers as they were.
  pub ack_replica_lem :
      (r : ReplicaState)
      → pos 0 <ℤ id
      → id <ℤ m.cfg.replication_factor
      → find m t p ≡ some ps
      → ps.role ≡ "leader"
      → Map.lookup id ps.followers ≡ some r
      → let (m', err) = ack_replica m t p id offset seen now in
        (ps' : PartitionState) × (err ≡ none)
        × (find m' t p ≡ some ps')
        × (ps'.leader_offset ≡ ps.leader_offset)
        × (ps'.role ≡ ps.role)
        × ((j : ℤ)
            → follower_offset ps' j ≡ (
                if id == j
                then some (advance ps.leader_offset r.offset offset)
                else follower_offset ps j))
  unfolding recompute acked_partition
  ack_replica_lem r low high at lead found =
      let q = acked_partition ps id r offset seen in
      let e = ack_replica-eq r (ground arith) at ((==_iff ps.role "leader").1 lead) found in
      (
        (recompute m.cfg now q).0,
        ap (λ x. x.1) e,
        ap (λ x. find x.0 t p) e
            ∙ find-recompute_locked m t p q now t p
            ∙ rw (==_refl t, ==_refl p) refl,
        refl,
        refl,
        (λ j.
            follower_offset-recompute m.cfg now q j
            ∙ follower_offset-acked_partition ps id r offset seen j),
      )

  abbrev pub Refused : Manager × Option String → Type 0
  Refused x = (x.1 ≢ none) × (x.0 ≡ m)
