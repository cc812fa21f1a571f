-- ===== src/Coordinator/Group/Calls.antt =====
-- The invariant for all groups of a manager, and the helpers of the calls that keep it.
use distributed_real_time_ev.Base.{
  ℕ, Time, String, string_comparable, some, All, ◌≡◌, sym, subst, ◌∙◌, inl, inr, Bool-cases,
  Option-cases,
}
use distributed_real_time_ev.Base.Map
use distributed_real_time_ev.Base.Map.{Map}
use distributed_real_time_ev.Coordinator.State.{ConsumerGroup, GroupManager, save_locked}
use distributed_real_time_ev.Coordinator.State.Saving.{save_locked-groups}
use distributed_real_time_ev.Coordinator.Group.{
  store_group, ensured_group, retopic, reassign, cleaned_group, swept, cleanup_expired,
}
use distributed_real_time_ev.Coordinator.Group.Invariant.{
  Inv, new_group-Inv, retopic-Inv, reassign-Inv,
}
use distributed_real_time_ev.Coordinator.Group.Sweep.{cleaned_group-Inv}

pub record AllInv (n : ℕ) (gm : GroupManager) : Type 0 where
  pub partitions : gm.num_partitions ≡ n
  pub groups : All (λ e. Inv n e.1) gm.groups

module _ (n : ℕ) (name : String) where
  pub save_locked-AllInv : (gm : GroupManager) → AllInv n gm → AllInv n (save_locked gm)
  save_locked-AllInv gm i =
      let (g, p, _) = save_locked-groups gm in
      record {
        partitions = p ∙ i.partitions;
        groups = subst (All (λ e. Inv n e.1)) (sym g) i.groups;
      }

  pub store_group-AllInv :
      (gm : GroupManager) (group : ConsumerGroup)
      → AllInv n gm
      → Inv n group
      → AllInv n (store_group gm name group)
  unfolding store_group
  store_group-AllInv gm group i h = record {
    partitions = i.partitions;
    groups = Map.All-insert (Inv n) name group gm.groups i.groups h;
  }

  pub stored-Inv :
      (gm : GroupManager) (group : ConsumerGroup)
      → AllInv n gm
      → Map.lookup name gm.groups ≡ some group
      → Inv n group
  stored-Inv gm group i e = Map.All-lookup (Inv n) name group gm.groups i.groups e

  pub ensured_group-Inv :
      (gm : GroupManager) (topic assignor : String)
      → AllInv n gm
      → Inv n (ensured_group gm name topic assignor)
  unfolding ensured_group
  ensured_group-Inv gm topic assignor i = elim (Option-cases (Map.lookup name gm.groups)) [
    | inl e ↦ rw (ensured_group, e) (new_group-Inv n name topic assignor)
    | inr (group, e) ↦
        rw (ensured_group, e)
          (subst (λ k. Inv n (reassign k (retopic group topic) assignor)) (sym i.partitions)
            (reassign-Inv n (retopic group topic) assignor
              (retopic-Inv n group topic (stored-Inv gm group i e))))
  ]

  pub cleanup_expired-Inv :
      (gm : GroupManager) (group : ConsumerGroup) (now : Time)
      → AllInv n gm
      → Inv n group
      → AllInv n (cleanup_expired gm name group now).0 × Inv n (cleanup_expired gm name group now).1
  unfolding cleanup_expired
  cleanup_expired-Inv gm group now i h = (
    elim (Bool-cases (swept gm.session_timeout now group).removed) [
      | inl e ↦ rw e (save_locked-AllInv _ stored)
      | inr e ↦ rw e stored
    ],
    clean,
  )
    where
      clean : Inv n (cleaned_group gm.num_partitions gm.session_timeout now group)
      clean =
          subst (λ k. Inv n (cleaned_group k gm.session_timeout now group)) (sym i.partitions)
            (cleaned_group-Inv n gm.session_timeout now group h)

      stored :
          AllInv n
            (store_group gm name (cleaned_group gm.num_partitions gm.session_timeout now group))
      stored = store_group-AllInv gm _ i clean
