-- ===== src/Replication/Manager/Roles.antt =====
-- What `SetRole` and `BootstrapOffset` leave behind.
use distributed_real_time_ev.Base.{
  ℤ, ltb_ℤ, if◌then◌else◌, Time, Bool, ◌==◌, ==_iff, ==_refl, String, string_comparable,
  int_comparable, none, some, [], ◌∷◌, ◌≡◌, refl, ap, ◌∙◌, ◌⊎◌, inl, inr, ◌≢◌, Bool-cases, arith,
}
use distributed_real_time_ev.Base.Map.{Map}
use distributed_real_time_ev.Replication.Partition.{
  Config, ReplicaState, PartitionState, refresh, refresh_all, fresh, recompute,
}
use distributed_real_time_ev.Replication.Manager.{
  Manager, find, ensure_partition, recompute_locked, set_role, assume_role, clear_in_sync,
  bootstrapped, bootstrap_offset, is_leader, store,
}
use distributed_real_time_ev.Replication.Manager.Store.{find-recompute_locked}
use distributed_real_time_ev.Replication.Manager.Acks.{ensure_partition-found}

refresh-clear :
    (cfg : Config) (lead : ℤ) (now : Time) (followers : Map ℤ ReplicaState)
    → refresh_all cfg lead now (clear_in_sync followers) ≡ refresh_all cfg lead now followers
unfolding refresh_all clear_in_sync refresh fresh
refresh-clear cfg lead now [] = refl
refresh-clear cfg lead now ((id, r) ∷ rest) =
    ap (λ (m : Map ℤ ReplicaState). (id, refresh cfg lead now r) ∷ m)
      (refresh-clear cfg lead now rest)

recompute-assume_role :
    (cfg : Config) (now : Time) (ps : PartitionState) (role : String)
    → (recompute cfg now (assume_role ps role)).0 ≡ record (recompute cfg now ps).0 { role = role }
unfolding recompute assume_role
recompute-assume_role cfg now ps role = elim (Bool-cases (role == "follower")) [
  | inl e ↦ rw e (rw (refresh-clear cfg ps.leader_offset now ps.followers) refl)
  | inr e ↦ rw e refl
]

find-stored :
    (m : Manager) (t : String) (p : ℤ) (ps : PartitionState) (now : Time)
    → find (recompute_locked m t p ps now).0 t p ≡ some (recompute m.cfg now ps).0
find-stored m t p ps now = find-recompute_locked m t p ps now t p ∙ rw (==_refl t, ==_refl p) refl

ensure_partition-cfg : (m : Manager) (t : String) (p : ℤ) → (ensure_partition m t p).0.cfg ≡ m.cfg
unfolding ensure_partition store
ensure_partition-cfg m t p = ground arith

-- `SetRole` and `BootstrapOffset` assign the high watermark, and `SetRole` clears the flags of the
-- followers, before both recompute them: the assignments have no effect. After `SetRole` has accepted
-- a role the manager holds the partition that it had, or a new one, with all of it recomputed as if
-- nothing had been assigned, but for the role. After `BootstrapOffset` it holds that partition,
-- recomputed as if only the leader's offset had been raised to the offset given.
pub dead_assignments :
    (m : Manager) (t : String) (p : ℤ) (role : String) (offset : ℤ) (now : Time)
    → (role ≡ "leader") ⊎ (role ≡ "follower")
    → let ps = (ensure_partition m t p).1 in
      (find (set_role m t p role now).0 t p
        ≡ some (record (recompute m.cfg now ps).0 { role = role }))
      × (find (bootstrap_offset m t p offset now) t p
          ≡ some
              (recompute m.cfg now (record ps {
                leader_offset = if ltb_ℤ ps.leader_offset offset then offset else ps.leader_offset;
              })).0)
unfolding set_role bootstrap_offset
dead_assignments m t p role offset now accepted = (by_role accepted, by_offset)
  where
    m₁ : Manager
    m₁ = (ensure_partition m t p).0

    ps : PartitionState
    ps = (ensure_partition m t p).1

    assumed :
        find (recompute_locked m₁ t p (assume_role ps role) now).0 t p
        ≡ some (record (recompute m.cfg now ps).0 { role = role })
    assumed =
        find-stored m₁ t p (assume_role ps role) now
        ∙ ap some (recompute-assume_role m₁.cfg now ps role)
        ∙ ap (λ cfg. some (record (recompute cfg now ps).0 { role = role }))
            (ensure_partition-cfg m t p)

    by_role :
        (role ≡ "leader") ⊎ (role ≡ "follower")
        → find (set_role m t p role now).0 t p
          ≡ some (record (recompute m.cfg now ps).0 { role = role })
    by_role (inl e) = rw ((==_iff role "leader").1 e) assumed
    by_role (inr e) = elim (Bool-cases (role == "leader")) [
      | inl l ↦ rw l assumed
      | inr l ↦ rw (l, (==_iff role "follower").1 e) assumed
    ]

    by_offset :
        find (bootstrap_offset m t p offset now) t p
        ≡ some
            (recompute m.cfg now (record ps {
              leader_offset = if ltb_ℤ ps.leader_offset offset then offset else ps.leader_offset;
            })).0
    by_offset =
        find-stored m₁ t p (bootstrapped ps offset) now
        ∙ ap (λ cfg. some (recompute cfg now (bootstrapped ps offset)).0)
            (ensure_partition-cfg m t p)
        ∙ (unfold recompute bootstrapped in refl)

role-assume_role : (ps : PartitionState) (role : String) → (assume_role ps role).role ≡ role
unfolding assume_role
role-assume_role ps role = ground arith

-- `SetRole` accepts the two roles and refuses every other text, changing nothing; after it accepts,
-- `IsLeader` answers by the role that was set.
pub set_role_lem :
    (m : Manager) (t : String) (p : ℤ) (role : String) (now : Time)
    → let (m', err) = set_role m t p role now in
      (((role ≡ "leader") ⊎ (role ≡ "follower"))
        × (err ≡ none)
        × ((is_leader m' t p).1 ≡ (role == "leader")))
      ⊎ ((role ≢ "leader") × (role ≢ "follower") × (err ≡ some "invalid role") × (m' ≡ m))
unfolding set_role is_leader
set_role_lem m t p role now = elim (Bool-cases (role == "leader")) [
  | inl l ↦ rw l (inl (inl ((==_iff role "leader").0 l), refl, leads l))
  | inr l ↦ elim (Bool-cases (role == "follower")) [
    | inl f ↦ rw (l, f) (inl (inr ((==_iff role "follower").0 f), refl, leads l))
    | inr f ↦
        rw (l, f)
          (inr (
            (λ e. cc (l, (==_iff role "leader").1 e)),
            (λ e. cc (f, (==_iff role "follower").1 e)),
            refl,
            refl,
          ))
  ]
]
  where
    leads :
        {b : Bool}
        → (role == "leader") ≡ b
        → ((ensure_partition
              (recompute_locked
                (ensure_partition m t p).0
                t
                p
                (assume_role (ensure_partition m t p).1 role)
                now).0
              t
              p).1.role
            == "leader")
          ≡ b
    leads e =
        let q = assume_role (ensure_partition m t p).1 role in
        let m₁ = (ensure_partition m t p).0 in
        let m₂ = (recompute_locked m₁ t p q now).0 in
        let found : find m₂ t p ≡ some (recompute m₁.cfg now q).0 = find-stored m₁ t p q now in
        rw (ensure_partition-found m₂ t p (recompute m₁.cfg now q).0 found)
          (unfold recompute in rw (role-assume_role (ensure_partition m t p).1 role) e)
