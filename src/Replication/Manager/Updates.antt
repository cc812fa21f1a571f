-- ===== src/Replication/Manager/Updates.antt =====
-- The changes that the methods make to one partition, and what holds of it after them.
use distributed_real_time_ev.Base.{
  ℕ, zero, suc, ◌+◌, ℤ, pos, negsuc, ◌≤ℤ◌, ltb_ℤ, Time, ◌==◌, String, string_comparable,
  int_comparable, some, [], ◌∷◌, ◌≡◌, refl, inl, inr, Bool-cases, arith, if◌then◌else◌,
}
use distributed_real_time_ev.Base.Map
use distributed_real_time_ev.Base.Map.{Map, All-insert, All-lookup}
use distributed_real_time_ev.Replication.Partition.{Config, ReplicaState, PartitionState, recompute}
use distributed_real_time_ev.Replication.Partition.Watermark.{
  Bounds, Tracks, IsValid, IsWatermark, recompute-IsValid, recompute-IsWatermark, recompute-ge,
}
use distributed_real_time_ev.Replication.Manager.{
  new_partition, seed_followers, acked, assume_role, clear_in_sync, bootstrapped,
}

-- Offsets are at least -1, no follower is ahead of the leader, and the stored high watermark is
-- that of the stored flags.
pub record Holds (ps : PartitionState) : Type 0 where
  pub valid : IsValid ps
  pub committed : IsWatermark ps.high_watermark ps.leader_offset ps.followers
  pub floor : negsuc 0 ≤ℤ ps.high_watermark

pub recompute-Holds :
    (cfg : Config) (now : Time) (ps : PartitionState) → IsValid ps → Holds (recompute cfg now ps).0
recompute-Holds cfg now ps v = record {
  valid = recompute-IsValid cfg now ps v;
  committed = unfold recompute in recompute-IsWatermark cfg now ps v;
  floor = recompute-ge cfg now ps v;
}

seed_followers-Tracks :
    (n id : ℕ) (followers : Map ℤ ReplicaState)
    → Tracks (negsuc 0) followers
    → Tracks (negsuc 0) (seed_followers n id followers)
unfolding seed_followers
seed_followers-Tracks zero id followers h = h
seed_followers-Tracks (suc n) id followers h = seed_followers-Tracks n (id + 1) _ (
    All-insert (λ r. (negsuc 0 ≤ℤ r.offset) × (r.offset ≤ℤ negsuc 0)) (pos id) _ followers h
      (omega arith, omega arith))

Bounds-of_Tracks :
    (lead : ℤ) (followers : Map ℤ ReplicaState)
    → Tracks lead followers
    → Bounds (negsuc 0) followers
Bounds-of_Tracks lead [] h = tt
Bounds-of_Tracks lead (x ∷ rest) h = ((λ _. h.0.0), Bounds-of_Tracks lead rest h.1)

pub new_partition-Holds : (cfg : Config) → Holds (new_partition cfg)
unfolding new_partition
new_partition-Holds cfg =
    let t = seed_followers-Tracks _ 1 [] tt in
    record {
      valid = record { started = omega arith; tracked = t };
      committed = record {
        below_leader = omega arith;
        below_isr = Bounds-of_Tracks (negsuc 0) _ t;
        attained = inl refl;
      };
      floor = omega arith;
    }

Tracks-mono :
    (lead lead' : ℤ) (followers : Map ℤ ReplicaState)
    → lead ≤ℤ lead'
    → Tracks lead followers
    → Tracks lead' followers
Tracks-mono lead lead' [] h t = tt
Tracks-mono lead lead' (x ∷ rest) h t =
    ((t.0.0, omega (arith, t.0.1)), Tracks-mono lead lead' rest h t.1)

Tracks-clear :
    (lead : ℤ) (followers : Map ℤ ReplicaState)
    → Tracks lead followers
    → Tracks lead (clear_in_sync followers)
unfolding clear_in_sync
Tracks-clear lead [] t = tt
Tracks-clear lead ((id, r) ∷ rest) t = (t.0, Tracks-clear lead rest t.1)

pub assume_role-IsValid :
    (ps : PartitionState) (role : String) → IsValid ps → IsValid (assume_role ps role)
unfolding assume_role
assume_role-IsValid ps role v = elim (Bool-cases (role == "follower")) [
  | inl e ↦
      rw e (record { started = v.started; tracked = Tracks-clear ps.leader_offset _ v.tracked })
  | inr e ↦ rw e (record { started = v.started; tracked = v.tracked })
]

-- The new leader offset of an append and of a bootstrap.
unfoldable pub raised : ℤ → ℤ → ℤ
raised lead offset = if ltb_ℤ lead offset then offset else lead

raised-ge : (lead offset : ℤ) → lead ≤ℤ raised lead offset
unfolding raised
raised-ge lead offset = ground arith

pub bootstrapped-IsValid :
    (ps : PartitionState) (offset : ℤ) → IsValid ps → IsValid (bootstrapped ps offset)
unfolding bootstrapped raised
bootstrapped-IsValid ps offset v = record {
  started = omega (arith, raised-ge ps.leader_offset offset, v.started);
  tracked =
      Tracks-mono ps.leader_offset (raised ps.leader_offset offset) ps.followers
        (raised-ge ps.leader_offset offset) v.tracked;
}

pub appended-IsValid :
    (ps : PartitionState) (offset : ℤ)
    → IsValid ps
    → IsValid (record ps { leader_offset = raised ps.leader_offset offset })
appended-IsValid ps offset v = record {
  started = omega (arith, raised-ge ps.leader_offset offset, v.started);
  tracked =
      Tracks-mono ps.leader_offset (raised ps.leader_offset offset) ps.followers
        (raised-ge ps.leader_offset offset) v.tracked;
}

-- `AckReplica` caps the offset at the leader's, so the follower does not pass the leader.
acked-Tracks :
    (lead offset : ℤ) (r : ReplicaState) (seen : Time)
    → negsuc 0 ≤ℤ r.offset
    → r.offset ≤ℤ lead
    → let r' = acked r (if ltb_ℤ lead offset then lead else offset) seen in
      (negsuc 0 ≤ℤ r'.offset) × (r'.offset ≤ℤ lead)
unfolding acked
acked-Tracks lead offset r seen h k = ground arith

pub acked-IsValid :
    (ps : PartitionState) (id offset : ℤ) (r : ReplicaState) (seen : Time)
    → Map.lookup id ps.followers ≡ some r
    → IsValid ps
    → IsValid (record ps {
      followers =
          Map.insert id
            (acked r (if ltb_ℤ ps.leader_offset offset then ps.leader_offset else offset) seen)
            ps.followers;
    })
acked-IsValid ps id offset r seen e v =
    let within =
      All-lookup (λ q. (negsuc 0 ≤ℤ q.offset) × (q.offset ≤ℤ ps.leader_offset)) id r ps.followers
        v.tracked e in
    record {
      started = v.started;
      tracked =
          All-insert (λ q. (negsuc 0 ≤ℤ q.offset) × (q.offset ≤ℤ ps.leader_offset)) id _
            ps.followers v.tracked (acked-Tracks ps.leader_offset offset r seen within.0 within.1);
    }
