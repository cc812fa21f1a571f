-- ===== src/Coordinator/Assign.antt =====
-- core/internal/coordinator/group.go: the two assignors, which share out a topic's partitions among
-- the members of a group. A partition count is at least 0: `config.Load` refuses any other.
pub mod Sorting
pub mod RoundRobin
pub mod Range
pub mod Shares
use Prim.Native.String.{compare}
use text.Mathlib.Text.{is_le}
use distributed_real_time_ev.Base.{
  ℕ, zero, suc, ◌+◌, ◌/◌, ◌%◌, ltb, eqb, Bool, String, ◌==◌, string_comparable, Option, none, some,
  List, [], ◌∷◌, ◌++◌, length, get_elem?, if◌then◌else◌,
}
use distributed_real_time_ev.Base.Map
use distributed_real_time_ev.Base.Map.{Map}

-- members as Go's maps of owned partitions
abbrev pub Assignments : Type 0
Assignments = Map String (List ℕ)

-- sort.Strings, in the order of the bytes.
unfoldable pub place : String → List String → List String
place s [] = s ∷ []
place s (t ∷ rest) =
    let placed = place s rest in if is_le (compare s t) then s ∷ t ∷ rest else t ∷ placed

unfoldable pub sort : List String → List String
sort [] = []
sort (s ∷ rest) = place s (sort rest)

abbrev pub or_empty : Option (List ℕ) → List ℕ
or_empty none = []
or_empty (some ps) = ps

-- group.assignments[memberID], empty where there is none.
abbrev pub owned : String → Assignments → List ℕ
owned id assignments = or_empty (Map.lookup id assignments)

-- The loop of `assignRoundRobinLocked`: the rounds left, and the partition.
unfoldable pub deal : List String → ℕ → ℕ → Assignments → Assignments
deal members zero partition assignments = assignments
deal members (suc n) partition assignments =
    deal members n (partition + 1) (elim (get_elem? members (partition % length members)) [
      | none ↦ assignments
      | some id ↦ Map.insert id (owned id assignments ++ partition ∷ []) assignments
    ])

unfoldable pub assign_round_robin : ℕ → List String → Assignments → Assignments
assign_round_robin num_partitions members assignments = deal members num_partitions 0 assignments

-- for p := start; p < start+count; p++
pub run_of : ℕ → ℕ → List ℕ
run_of start zero = []
run_of start (suc count) = start ∷ run_of (start + 1) count

-- The number of partitions of the member at `idx`.
pub share : ℕ → ℕ → ℕ → ℕ
share base extra idx = if ltb idx extra then base + 1 else base

-- The loop of `assignRangeLocked`. The source writes the empty list in a branch of its own.
pub cut : ℕ → ℕ → ℕ → ℕ → List String → Assignments → Assignments
cut base extra idx start [] assignments = assignments
cut base extra idx start (id ∷ rest) assignments =
    let count = share base extra idx in
    cut base extra (idx + 1) (if eqb count 0 then start else start + count) rest
      (Map.insert id (if eqb count 0 then [] else run_of start count) assignments)

pub assign_range : ℕ → List String → Assignments → Assignments
assign_range num_partitions members assignments =
    cut (num_partitions / length members) (num_partitions % length members) 0 0 members assignments

-- The assignments that `rebalanceLocked` makes for the members in their order of joining.
unfoldable pub assign : ℕ → String → List String → Assignments
assign num_partitions assignor [] = []
assign num_partitions assignor (first ∷ others) =
    let members = sort (first ∷ others) in
    if assignor == "range"
    then assign_range num_partitions members []
    else assign_round_robin num_partitions members []
