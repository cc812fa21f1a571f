-- ===== src/Coordinator/Offsets/Ledger.antt =====
-- The abstract view of committed offsets (core/internal/coordinator/offset.go): a ledger, which holds for each
-- group, topic and partition the offset of the last commit.
use distributed_real_time_ev.Base.{
  ℤ, ◌&&◌, ◌==◌, String, string_comparable, int_comparable, List, [], ◌∷◌, ◌≡◌, refl, ◌∙◌,
  if◌then◌else◌,
}
use distributed_real_time_ev.Coordinator.Offsets.{OffsetManager, commit, get_offset}
use distributed_real_time_ev.Coordinator.Offsets.Commits.{get_offset-commit}

pub record Commit : Type 0 where
  pub group : String
  pub topic : String
  pub partition : ℤ
  pub offset : ℤ

abbrev pub Ledger : Type 0
Ledger = String → String → ℤ → ℤ

abbrev pub entered : Ledger → Commit → Ledger
entered ledger c g t p =
    if c.group == g && c.topic == t && c.partition == p then c.offset else ledger g t p

-- The ledger after some commits, the first first.
abbrev pub entered_all : Ledger → List Commit → Ledger
entered_all ledger [] = ledger
entered_all ledger (c ∷ cs) = entered_all (entered ledger c) cs

pub commit_all : OffsetManager → List Commit → OffsetManager
commit_all om [] = om
commit_all om (c ∷ cs) = commit_all (commit om c.group c.topic c.partition c.offset) cs

entered_all-ext :
    (a b : Ledger) (cs : List Commit)
    → ((g t : String) (p : ℤ) → a g t p ≡ b g t p)
    → (g t : String) (p : ℤ) → entered_all a cs g t p ≡ entered_all b cs g t p
entered_all-ext a b [] h g t p = h g t p
entered_all-ext a b (c ∷ cs) h g t p = entered_all-ext (entered a c) (entered b c) cs (one c) g t p
  where
    one : (c : Commit) (g t : String) (p : ℤ) → entered a c g t p ≡ entered b c g t p
    one c g t p = rw (h g t p) refl

-- The offsets that a manager gives out after any commits are those of the ledger after the same commits,
-- whatever the operating system answers to the saves.
pub get_offset-commit_all :
    (cs : List Commit) (om : OffsetManager) (g t : String) (p : ℤ)
    → get_offset (commit_all om cs) g t p ≡ entered_all (get_offset om) cs g t p
unfolding commit_all
get_offset-commit_all [] om g t p = refl
get_offset-commit_all (c ∷ cs) om g t p =
    get_offset-commit_all cs (commit om c.group c.topic c.partition c.offset) g t p
    ∙ entered_all-ext _ _ cs
        (λ g' t' p'. get_offset-commit om c.group c.topic c.partition c.offset g' t' p') g t p
