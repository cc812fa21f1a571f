-- ===== src/Replication/Partition/Watermark.antt =====
-- The high watermark that `recomputeLocked` derives.
use distributed_real_time_ev.Base.{
  ℤ, negsuc, ◌≤ℤ◌, ltb_ℤ, Time, ◌≡◌, refl, sym, subst, ◌∙◌, ◌⊎◌, inl, inr, true, List, [], ◌∷◌, All,
  Any, In, Bool-cases, arith, if◌then◌else◌,
}
use distributed_real_time_ev.Base.Map.{Map}
use distributed_real_time_ev.Replication.Partition.{
  Config, ReplicaState, PartitionState, refresh, refresh_all, in_sync_offsets, min_offset,
  recompute,
}

-- The offset of every in-sync follower is at least `hw`.
abbrev pub Bounds : ℤ → Map ℤ ReplicaState → Type 0
Bounds hw followers = All (λ e. e.1.in_sync ≡ true → hw ≤ℤ e.1.offset) followers

-- The follower's offset lies between -1 and the leader's.
abbrev pub Tracks : ℤ → Map ℤ ReplicaState → Type 0
Tracks lead followers = All (λ e. (negsuc 0 ≤ℤ e.1.offset) × (e.1.offset ≤ℤ lead)) followers

lower : ℤ → ℤ → ℤ
lower off hw = if ltb_ℤ off hw then off else hw

lower_le : (off hw : ℤ) → (lower off hw ≤ℤ off) × (lower off hw ≤ℤ hw)
unfolding lower
lower_le off hw = ground arith

lower_or : (off hw : ℤ) → (lower off hw ≡ hw) ⊎ (off ≡ lower off hw)
unfolding lower
lower_or off hw = ground arith

min_offset-le : (hw : ℤ) (offs : List ℤ) → min_offset hw offs ≤ℤ hw
unfolding min_offset lower
min_offset-le hw [] = omega arith
min_offset-le hw (off ∷ rest) = omega (arith, lower_le off hw, min_offset-le (lower off hw) rest)

min_offset-All : (hw m : ℤ) (offs : List ℤ) → min_offset hw offs ≡ m → All (λ o. m ≤ℤ o) offs
unfolding min_offset lower
min_offset-All hw m [] e = tt
min_offset-All hw m (off ∷ rest) e = (
  subst (λ k. k ≤ℤ off) e (omega (arith, lower_le off hw, min_offset-le (lower off hw) rest)),
  min_offset-All (lower off hw) m rest e,
)

min_offset-In : (hw m : ℤ) (offs : List ℤ) → min_offset hw offs ≡ m → (m ≡ hw) ⊎ In m offs
unfolding min_offset
min_offset-In hw m [] e = inl (sym e)
min_offset-In hw m (off ∷ rest) e =
    attained (min_offset-In (lower off hw) m rest (unfold lower in e)) (lower_or off hw)
  where
    attained :
        (m ≡ lower off hw) ⊎ In m rest
        → (lower off hw ≡ hw) ⊎ (off ≡ lower off hw)
        → (m ≡ hw) ⊎ In m (off ∷ rest)
    attained (inr q) _ = inr (inr q)
    attained (inl q) (inl k) = inl (q ∙ k)
    attained (inl q) (inr k) = inr (inl (k ∙ sym q))

Bounds-of_offsets :
    (hw : ℤ) (followers : Map ℤ ReplicaState)
    → All (λ o. hw ≤ℤ o) (in_sync_offsets followers)
    → Bounds hw followers
unfolding in_sync_offsets
Bounds-of_offsets hw [] h = tt
Bounds-of_offsets hw ((id, r) ∷ rest) h = elim (Bool-cases r.in_sync) [
  | inl e ↦ let k = rw e at h in ((λ _. k.0), Bounds-of_offsets hw rest k.1)
  | inr e ↦ let k = rw e at h in ((λ s. cc (e, s)), Bounds-of_offsets hw rest k)
]

-- The attained minimum is the leader's offset or an in-sync follower's.
abbrev pub Attained : ℤ → ℤ → Map ℤ ReplicaState → Type 0
Attained hw lead followers =
    (hw ≡ lead) ⊎ Any (λ e. (e.1.in_sync ≡ true) × (e.1.offset ≡ hw)) followers

Any-of_offsets :
    (hw : ℤ) (followers : Map ℤ ReplicaState)
    → In hw (in_sync_offsets followers)
    → Any (λ e. (e.1.in_sync ≡ true) × (e.1.offset ≡ hw)) followers
unfolding in_sync_offsets
Any-of_offsets hw [] h = elim h [ ]
Any-of_offsets hw ((id, r) ∷ rest) h = elim (Bool-cases r.in_sync) [
  | inl e ↦ go e (λ k. Any-of_offsets hw rest k) (rw e at h)
  | inr e ↦ inr (Any-of_offsets hw rest (rw e at h))
]
  where
    go :
        r.in_sync ≡ true
        → (In hw (in_sync_offsets rest) → Any (λ e. (e.1.in_sync ≡ true) × (e.1.offset ≡ hw)) rest)
        → (r.offset ≡ hw) ⊎ In hw (in_sync_offsets rest)
        → Any (λ e. (e.1.in_sync ≡ true) × (e.1.offset ≡ hw)) ((id, r) ∷ rest)
    go e later (inl q) = inl (e, q)
    go e later (inr q) = inr (later q)

-- Refreshing the flags keeps ids, offsets and times.
pub refresh_all-Tracks :
    (cfg : Config) (lead : ℤ) (now : Time) (followers : Map ℤ ReplicaState) (b : ℤ)
    → Tracks b followers
    → Tracks b (refresh_all cfg lead now followers)
unfolding refresh_all refresh
refresh_all-Tracks cfg lead now [] b h = tt
refresh_all-Tracks cfg lead now ((id, r) ∷ rest) b h =
    (h.0, refresh_all-Tracks cfg lead now rest b h.1)

in_sync_offsets-ge :
    (lead : ℤ) (followers : Map ℤ ReplicaState)
    → Tracks lead followers
    → All (λ o. negsuc 0 ≤ℤ o) (in_sync_offsets followers)
unfolding in_sync_offsets
in_sync_offsets-ge lead [] h = tt
in_sync_offsets-ge lead ((id, r) ∷ rest) h = elim (Bool-cases r.in_sync) [
  | inl e ↦ rw e (h.0.0, in_sync_offsets-ge lead rest h.1)
  | inr e ↦ rw e (in_sync_offsets-ge lead rest h.1)
]

min_offset-ge :
    (b hw : ℤ) (offs : List ℤ) → b ≤ℤ hw → All (λ o. b ≤ℤ o) offs → b ≤ℤ min_offset hw offs
unfolding min_offset
min_offset-ge b hw [] h k = h
min_offset-ge b hw (off ∷ rest) h k =
    min_offset-ge b (if ltb_ℤ off hw then off else hw) rest (ground (arith, k.0)) k.1

-- What holds of a partition between two operations.
pub record IsValid (ps : PartitionState) : Type 0 where
  pub started : negsuc 0 ≤ℤ ps.leader_offset
  pub tracked : Tracks ps.leader_offset ps.followers

-- The minimum that the loop computes, before it is cut off below at -1.
raw_watermark : ℤ → Map ℤ ReplicaState → ℤ
raw_watermark lead followers = min_offset lead (lead ∷ in_sync_offsets followers)

raw_watermark-ge :
    (lead : ℤ) (followers : Map ℤ ReplicaState)
    → negsuc 0 ≤ℤ lead
    → Tracks lead followers
    → negsuc 0 ≤ℤ raw_watermark lead followers
unfolding raw_watermark
raw_watermark-ge lead followers h t =
    min_offset-ge (negsuc 0) lead (lead ∷ in_sync_offsets followers) h
      (h, in_sync_offsets-ge lead followers t)

-- The three facts that make `hw` the high watermark of a leader and its in-sync followers.
pub record IsWatermark (hw lead : ℤ) (followers : Map ℤ ReplicaState) : Type 0 where
  pub below_leader : hw ≤ℤ lead
  pub below_isr : Bounds hw followers
  pub attained : Attained hw lead followers

raw_watermark-IsWatermark :
    (lead : ℤ) (followers : Map ℤ ReplicaState)
    → IsWatermark (raw_watermark lead followers) lead followers
unfolding raw_watermark
raw_watermark-IsWatermark lead followers = record {
  below_leader = min_offset-le lead (lead ∷ in_sync_offsets followers);
  below_isr =
      Bounds-of_offsets (min_offset lead (lead ∷ in_sync_offsets followers)) followers
        (min_offset-All lead _ (lead ∷ in_sync_offsets followers) refl).1;
  attained = go (min_offset-In lead _ (lead ∷ in_sync_offsets followers) refl);
}
  where
    go : {m : ℤ} → (m ≡ lead) ⊎ In m (lead ∷ in_sync_offsets followers) → Attained m lead followers
    go (inl e) = inl e
    go (inr (inl e)) = inl (sym e)
    go {m} (inr (inr h)) = inr (Any-of_offsets m followers h)

module _ (cfg : Config) (now : Time) (ps : PartitionState) (v : IsValid ps) where
  recompute-raw :
      (recompute cfg now ps).0.high_watermark
      ≡ raw_watermark ps.leader_offset (recompute cfg now ps).0.followers
  unfolding recompute raw_watermark
  recompute-raw =
      let ge =
        raw_watermark-ge ps.leader_offset (refresh_all cfg ps.leader_offset now ps.followers)
          v.started (refresh_all-Tracks cfg ps.leader_offset now ps.followers _ v.tracked) in
      ground (arith, ge)

  -- After `recomputeLocked` the high watermark is the least of the leader's offset and the offsets
  -- of the followers in sync: it is at most each of these, and is one of them.
  pub recompute-IsWatermark :
      IsWatermark
        (recompute cfg now ps).0.high_watermark
        ps.leader_offset
        (recompute cfg now ps).0.followers
  recompute-IsWatermark = rw recompute-raw (raw_watermark-IsWatermark ps.leader_offset _)

  pub recompute-IsValid : IsValid (recompute cfg now ps).0
  unfolding recompute
  recompute-IsValid = record {
    started = v.started;
    tracked = refresh_all-Tracks cfg ps.leader_offset now ps.followers _ v.tracked;
  }

  pub recompute-ge : negsuc 0 ≤ℤ (recompute cfg now ps).0.high_watermark
  unfolding recompute
  recompute-ge = ground arith
