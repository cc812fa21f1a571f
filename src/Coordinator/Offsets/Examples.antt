-- ===== src/Coordinator/Offsets/Examples.antt =====
-- Commits on a manager whose second save fails.
use distributed_real_time_ev.Base.{pos, string_comparable, int_comparable, List, [], ◌∷◌, ◌≡◌}
use distributed_real_time_ev.Coordinator.State.{saved, bad_encode}
use distributed_real_time_ev.Coordinator.Offsets.{
  OffsetManager, absent, new_offset_manager, commit, get_offset,
}
use distributed_real_time_ev.Coordinator.Offsets.Commits.{next_save, get_offset-restart}
use distributed_real_time_ev.Coordinator.Offsets.Ledger.{
  Commit, commit_all, entered_all, get_offset-commit_all,
}

abbrev manager : OffsetManager
manager = commit (new_offset_manager absent (saved ∷ bad_encode ∷ [])) "g" "t" (pos 0) (pos 5)

get_offset-restart_example :
    get_offset (new_offset_manager (commit manager "g" "t" (pos 1) (pos 9)).file []) "g" "t" (pos 0)
    ≡ elim (next_save manager.saves) [
      | saved ↦ get_offset (commit manager "g" "t" (pos 1) (pos 9)) "g" "t" (pos 0)
      | bad_encode ↦ pos 0
      | _ ↦ get_offset (new_offset_manager manager.file []) "g" "t" (pos 0)
    ]
get_offset-restart_example = get_offset-restart manager "g" "t" (pos 1) (pos 9) [] "g" "t" (pos 0)

abbrev two_commits : List Commit
two_commits =
    record { group = "g"; topic = "t"; partition = pos 0; offset = pos 7 }
    ∷ record { group = "g"; topic = "t"; partition = pos 1; offset = pos 9 }
    ∷ []

get_offset-commit_all_example :
    get_offset (commit_all manager two_commits) "g" "t" (pos 0)
    ≡ entered_all (get_offset manager) two_commits "g" "t" (pos 0)
get_offset-commit_all_example = get_offset-commit_all two_commits manager "g" "t" (pos 0)
