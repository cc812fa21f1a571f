-- ===== src/Coordinator/Assign/Shares.antt =====
-- Both assignors, on the sorted members of a group.
use distributed_real_time_ev.Base.{
  ℕ, ◌<◌, String, ◌==◌, string_comparable, List, [], ◌∷◌, length, Distinct, ◌≡◌, refl, inl, inr,
  Bool-cases, arith,
}
use distributed_real_time_ev.Coordinator.Assign.{Assignments, assign, sort}
use distributed_real_time_ev.Coordinator.Assign.Sorting.{sort-In, sort-Distinct, length-sort}
use distributed_real_time_ev.Coordinator.Assign.RoundRobin.{SharesOut, assign_round_robin-SharesOut}
use distributed_real_time_ev.Coordinator.Assign.Range.{assign_range-SharesOut}

-- Whatever the assignor, the assignments for a list of different members that is not empty give each
-- partition to exactly one of these members, and assign nothing else.
pub assign-SharesOut :
    (n : ℕ) (assignor : String) (order : List String)
    → 0 < length order
    → Distinct order
    → SharesOut n order (assign n assignor order)
unfolding assign
assign-SharesOut n assignor [] h d = absurd (omega arith)
assign-SharesOut n assignor (id ∷ rest) h d = elim (Bool-cases (assignor == "range")) [
  | inl e ↦ rw e (
      unsorted
        (assign_range-SharesOut n (sort (id ∷ rest)) some_member (sort-Distinct (id ∷ rest) d)))
  | inr e ↦ rw e (unsorted (assign_round_robin-SharesOut n (sort (id ∷ rest)) some_member))
]
  where
    some_member : 0 < length (sort (id ∷ rest))
    some_member = omega (arith, length-sort (id ∷ rest))

    unsorted :
        {assignments : Assignments}
        → SharesOut n (sort (id ∷ rest)) assignments
        → SharesOut n (id ∷ rest) assignments
    unsorted s = record {
      covered = λ q l. let (j, m, k) = s.covered q l in (j, sort-In j (id ∷ rest) m, k);
      exclusive = s.exclusive;
      within = λ q j k. let (l, m) = s.within q j k in (l, sort-In j (id ∷ rest) m);
    }

pub assign_nobody : (n : ℕ) (assignor : String) → assign n assignor [] ≡ []
unfolding assign
assign_nobody n assignor = refl
