-- ===== src/Replication/Partition/Isr.antt =====
-- Which followers `recomputeLocked` takes as in sync, and the reports made from that.
use distributed_real_time_ev.Base.{
  suc, ◌<◌, ℤ, pos, negsuc, ◌-ℤ◌, ◌+ℤ◌, ◌≤ℤ◌, ◌<ℤ◌, leb_ℤ, ltb_ℤ, IsInt64, int64_lem, Time,
  time_sub, ◌≡◌, refl, sym, subst, ap, ◌∙◌, ◌↔◌, inl, inr, true, ◌&&◌, [], ◌∷◌, length, All, Any,
  String, Bool-cases, arith,
}
use distributed_real_time_ev.Base.Int.{+ℤ_parts, -ℤ_parts, int_laws}
use distributed_real_time_ev.Base.Map.{Map}
use distributed_real_time_ev.Replication.Partition.{
  Config, ReplicaState, PartitionState, fresh, refresh, refresh_all, in_sync_offsets, recompute,
  in_sync_ids, status_locked,
}
use distributed_real_time_ev.Replication.Partition.Watermark.{
  Attained, Tracks, IsValid, recompute-IsWatermark,
}

-- A follower is in sync exactly when it has been seen, within the lag timeout, and trails the
-- leader by at most the maximal lag, for a lag that 64 bits hold.
pub refresh-in_sync :
    (cfg : Config) (lead : ℤ) (now : Time) (r : ReplicaState)
    → IsInt64 (lead -ℤ r.offset)
    → ((refresh cfg lead now r).in_sync ≡ true) ↔ (
        (0 < r.last_seen)
        × (time_sub now r.last_seen ≤ℤ cfg.replica_lag_timeout)
        × (lead ≤ℤ r.offset +ℤ cfg.max_replica_lag))
unfolding refresh fresh
refresh-in_sync cfg lead now r h = rw (int64_lem (lead -ℤ r.offset) h) (to, from)
  where
    to :
        (fresh cfg now r && leb_ℤ (lead -ℤ r.offset) cfg.max_replica_lag) ≡ true
        → (0 < r.last_seen)
          × (time_sub now r.last_seen ≤ℤ cfg.replica_lag_timeout)
          × (lead ≤ℤ r.offset +ℤ cfg.max_replica_lag)
    to e = ground (arith, -ℤ_parts lead r.offset, +ℤ_parts r.offset cfg.max_replica_lag)

    from :
        (0 < r.last_seen)
          × (time_sub now r.last_seen ≤ℤ cfg.replica_lag_timeout)
          × (lead ≤ℤ r.offset +ℤ cfg.max_replica_lag)
        → (fresh cfg now r && leb_ℤ (lead -ℤ r.offset) cfg.max_replica_lag) ≡ true
    from e = ground (arith, -ℤ_parts lead r.offset, +ℤ_parts r.offset cfg.max_replica_lag)

-- A flag set by `refresh` implies that the follower is still fresh at the same time.
refresh-fresh :
    (cfg : Config) (lead : ℤ) (now : Time) (r : ReplicaState)
    → ((refresh cfg lead now r).in_sync
        && leb_ℤ (time_sub now (refresh cfg lead now r).last_seen) cfg.replica_lag_timeout)
      ≡ (refresh cfg lead now r).in_sync
unfolding refresh fresh
refresh-fresh cfg lead now r = ground arith

length-in_sync_ids :
    (cfg : Config) (lead : ℤ) (now : Time) (followers : Map ℤ ReplicaState)
    → length (in_sync_ids cfg now (refresh_all cfg lead now followers))
      ≡ length (in_sync_offsets (refresh_all cfg lead now followers))
unfolding refresh_all in_sync_ids in_sync_offsets
length-in_sync_ids cfg lead now [] = refl
length-in_sync_ids cfg lead now ((id, r) ∷ rest) =
    rw (refresh-fresh cfg lead now r) (elim (Bool-cases (refresh cfg lead now r).in_sync) [
      | inl e ↦ rw e (ap suc (length-in_sync_ids cfg lead now rest))
      | inr e ↦ rw e (length-in_sync_ids cfg lead now rest)
    ])

pub status_agrees :
    (cfg : Config) (topic : String) (partition : ℤ) (ps : PartitionState) (now : Time)
    → let (ps', isr_size) = recompute cfg now ps in
      let status = status_locked cfg topic partition ps' now in
      (length status.in_sync_replicas ≡ isr_size)
      × (status.under_replicated ≡ ltb_ℤ (pos isr_size) cfg.min_in_sync_replicas)
unfolding recompute status_locked
status_agrees cfg topic partition ps now =
    rw (length-in_sync_ids cfg ps.leader_offset now ps.followers) (refl, refl)

refresh_twice :
    (cfg : Config) (lead : ℤ) (now : Time) (followers : Map ℤ ReplicaState)
    → refresh_all cfg lead now (refresh_all cfg lead now followers)
      ≡ refresh_all cfg lead now followers
unfolding refresh_all refresh fresh
refresh_twice cfg lead now [] = refl
refresh_twice cfg lead now ((id, r) ∷ rest) =
    ap (λ (m : Map ℤ ReplicaState). (id, refresh cfg lead now r) ∷ m)
      (refresh_twice cfg lead now rest)

-- A second recomputation at the same time changes nothing.
pub recompute_twice :
    (cfg : Config) (ps : PartitionState) (now : Time)
    → recompute cfg now (recompute cfg now ps).0 ≡ recompute cfg now ps
unfolding recompute
recompute_twice cfg ps now = rw (refresh_twice cfg ps.leader_offset now ps.followers)

lag_fits :
    (lead off : ℤ)
    → lead <ℤ pos 9223372036854775807
    → negsuc 0 ≤ℤ off
    → off ≤ℤ lead
    → IsInt64 (lead -ℤ off)
unfolding ◌-ℤ◌
lag_fits lead off b l h = ground arith

refresh_all-at_leader :
    (cfg : Config) (lead : ℤ) (now : Time) (followers : Map ℤ ReplicaState)
    → cfg.max_replica_lag ≡ pos 0
    → lead <ℤ pos 9223372036854775807
    → Tracks lead followers
    → All (λ e. e.1.in_sync ≡ true → e.1.offset ≡ lead) (refresh_all cfg lead now followers)
unfolding refresh_all
refresh_all-at_leader cfg lead now [] z b t = tt
refresh_all-at_leader cfg lead now ((id, r) ∷ rest) z b t =
    ((λ s. at_leader s), refresh_all-at_leader cfg lead now rest z b t.1)
  where
    at_leader : (refresh cfg lead now r).in_sync ≡ true → (refresh cfg lead now r).offset ≡ lead
    at_leader s =
        let (_, _, k) =
          (refresh-in_sync cfg lead now r (lag_fits lead r.offset b t.0.0 t.0.1)).0 s in
        let k' = subst (λ x. lead ≤ℤ r.offset +ℤ x) z k in unfold refresh in omega (int_laws, t.0.1)

attained-at_leader :
    (hw lead : ℤ) (followers : Map ℤ ReplicaState)
    → All (λ e. e.1.in_sync ≡ true → e.1.offset ≡ lead) followers
    → Any (λ e. (e.1.in_sync ≡ true) × (e.1.offset ≡ hw)) followers
    → hw ≡ lead
attained-at_leader hw lead [] a h = elim h [ ]
attained-at_leader hw lead (x ∷ rest) a (inl (s, e)) = sym e ∙ a.0 s
attained-at_leader hw lead (x ∷ rest) a (inr h) = attained-at_leader hw lead rest a.1 h

-- With a maximal lag of 0 the high watermark is always the leader's own offset: a follower that
-- trails by one record is out of the ISR, so it never holds the watermark back.
pub watermark-max_lag_zero :
    (cfg : Config) (now : Time) (ps : PartitionState)
    → cfg.max_replica_lag ≡ pos 0
    → ps.leader_offset <ℤ pos 9223372036854775807
    → IsValid ps
    → (recompute cfg now ps).0.high_watermark ≡ ps.leader_offset
watermark-max_lag_zero cfg now ps z b v = go (recompute-IsWatermark cfg now ps v).attained
  where
    go :
        Attained
          (recompute cfg now ps).0.high_watermark
          ps.leader_offset
          (recompute cfg now ps).0.followers
        → (recompute cfg now ps).0.high_watermark ≡ ps.leader_offset
    go (inl e) = e
    go (inr h) =
        attained-at_leader _ ps.leader_offset (recompute cfg now ps).0.followers
          (unfold recompute in
            refresh_all-at_leader cfg ps.leader_offset now ps.followers z b v.tracked)
          h
