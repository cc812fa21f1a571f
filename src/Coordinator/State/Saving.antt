-- ===== src/Coordinator/State/Saving.antt =====
-- What `saveLocked` leaves as it is, and what a restart reads back.
use distributed_real_time_ev.Base.{string_comparable, List, [], ◌∷◌, ◌≡◌, refl}
use distributed_real_time_ev.Coordinator.State.{
  GroupManager, Save, saved, no_directory, no_file, bad_encode, written, save_locked,
}

-- Whatever the operating system answers, the groups in memory stay.
pub save_locked-groups :
    (gm : GroupManager)
    → ((save_locked gm).groups ≡ gm.groups)
      × ((save_locked gm).num_partitions ≡ gm.num_partitions)
      × ((save_locked gm).session_timeout ≡ gm.session_timeout)
unfolding save_locked
save_locked-groups gm = answers gm.saves
  where
    one :
        (s : Save) (rest : List Save)
        → ((written gm s rest).groups ≡ gm.groups)
          × ((written gm s rest).num_partitions ≡ gm.num_partitions)
          × ((written gm s rest).session_timeout ≡ gm.session_timeout)
    one saved rest = (refl, refl, refl)
    one no_directory rest = (refl, refl, refl)
    one no_file rest = (refl, refl, refl)
    one bad_encode rest = (refl, refl, refl)

    answers :
        (saves : List Save)
        → (let gm' : GroupManager = elim saves [
          | [] ↦ written gm saved []
          | s ∷ rest ↦ written gm s rest
        ] in
            (gm'.groups ≡ gm.groups)
            × (gm'.num_partitions ≡ gm.num_partitions)
            × (gm'.session_timeout ≡ gm.session_timeout))
    answers [] = one saved []
    answers (s ∷ rest) = one s rest
