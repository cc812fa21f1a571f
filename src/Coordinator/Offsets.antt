-- ===== src/Coordinator/Offsets.antt =====
-- core/internal/coordinator/offset.go: committed offsets, and their file offsets.json.
pub mod Commits
pub mod Ledger
pub mod Examples
use distributed_real_time_ev.Base.{
  ℤ, pos, String, string_comparable, int_comparable, Option, none, some, List, [], ◌∷◌,
}
use distributed_real_time_ev.Base.Map
use distributed_real_time_ev.Base.Map.{Map}
use distributed_real_time_ev.Coordinator.State.{Save, saved, bad_encode}

abbrev pub Offsets : Type 0
Offsets = Map String (Map String (Map ℤ ℤ))

-- offsets.json: absent, cut off by a failed write, or the encoding of a value that decoding returns.
pub data OffsetFile : Type 0 where
  absent : OffsetFile
  corrupt : OffsetFile
  holds : Offsets → OffsetFile

pub record OffsetManager : Type 0 where
  pub offsets : Offsets
  pub file : OffsetFile
  -- the operating system's answers to come; after these every call is `saved`
  pub saves : List Save

-- What the decoder leaves in `om.offsets`: the empty map unless a whole value is there.
pub load : OffsetFile → Offsets
load absent = []
load corrupt = []
load (holds offsets) = offsets

pub new_offset_manager : OffsetFile → List Save → OffsetManager
new_offset_manager file saves = record { offsets = load file; file = file; saves = saves }

pub answered : OffsetManager → Save → List Save → OffsetManager
answered om saved rest = record om { file = holds om.offsets; saves = rest }
answered om bad_encode rest = record om { file = corrupt; saves = rest }
answered om _ rest = record om { saves = rest }

pub save : OffsetManager → OffsetManager
unfolding answered
save om = elim om.saves [ [] ↦ answered om saved [] | s ∷ rest ↦ answered om s rest ]

-- The map that stands under a key, which is made first if it is not there.
made {ℓ κ} : {K : Type ℓ} {V : Type κ} → Option (Map K V) → Map K V
made none = []
made (some m) = m

pub write_offset : Offsets → String → String → ℤ → ℤ → Offsets
unfolding made
write_offset offsets group topic partition offset =
    let topics = made (Map.lookup group offsets) in
    let partitions = made (Map.lookup topic topics) in
    Map.insert group (Map.insert topic (Map.insert partition offset partitions) topics) offsets

pub commit : OffsetManager → String → String → ℤ → ℤ → OffsetManager
commit om group topic partition offset =
    save (record om { offsets = write_offset om.offsets group topic partition offset })

pub get_offset : OffsetManager → String → String → ℤ → ℤ
get_offset om group topic partition = elim (Map.lookup group om.offsets) [
  | none ↦ pos 0
  | some group_data ↦ elim (Map.lookup topic group_data) [
    | none ↦ pos 0
    | some topic_data ↦ elim (Map.lookup partition topic_data) [
      | none ↦ pos 0
      | some offset ↦ offset
    ]
  ]
]
