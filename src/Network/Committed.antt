-- ===== src/Network/Committed.antt =====
-- COMMIT and OFFSET of core/internal/network/handler.go.
mod Examples
use distributed_real_time_ev.Base.{
  ℤ, IsInt64, Time, String, ◌&&◌, ◌==◌, ==_refl, string_comparable, int_comparable, Option, none,
  some, List, [], ◌∷◌, ◌≡◌, refl, sym, ap, ◌∙◌, inl, inr, Option-cases, if◌then◌else◌,
}
use distributed_real_time_ev.Base.Text.{◌⧺◌, itoa, atoi}
use distributed_real_time_ev.Base.Text.Numbers.{atoi-itoa}
use distributed_real_time_ev.Storage.World
use distributed_real_time_ev.Protocol.{parse_int}
use distributed_real_time_ev.Coordinator.Group.{validate_commit}
use distributed_real_time_ev.Coordinator.Offsets.{OffsetManager, commit, get_offset}
use distributed_real_time_ev.Coordinator.Offsets.Commits.{get_offset-commit}
use distributed_real_time_ev.Broker.{
  Broker, Ran, returned, raised, panicked, waiting, ◌>>=◌, pure, gets, now, on_groups, on_offsets,
  raise_error, or_raise,
}
use distributed_real_time_ev.Network.Arguments.{int_arg}
use distributed_real_time_ev.Network.Groups.{commit_offset, handle_commit, handle_offset}

-- The argument lists of the two requests.
abbrev pub commit_args : String → String → String → ℤ → ℤ → ℤ → List String
commit_args group topic id generation partition offset =
    group ∷ topic ∷ id ∷ itoa generation ∷ itoa partition ∷ itoa offset ∷ []

abbrev pub offset_args : String → String → ℤ → List String
offset_args group topic partition = group ∷ topic ∷ itoa partition ∷ []

handle_offset_lem :
    (b : Broker) (group topic : String) (partition : ℤ)
    → IsInt64 partition
    → handle_offset (offset_args group topic partition) b
      ≡ returned ("offset=" ⧺ itoa (get_offset b.offsets group topic partition)) b
unfolding handle_offset int_arg parse_int or_raise gets pure ◌>>=◌
handle_offset_lem b group topic partition h = rw (atoi-itoa partition h) refl

abbrev offsets_left : OffsetManager → Ran String → OffsetManager
offsets_left om (returned payload b) = b.offsets
offsets_left om (raised code message b) = b.offsets
offsets_left om panicked = om
offsets_left om waiting = om

module _ (b b' : Broker) (group topic id : String) (generation partition offset : ℤ)
    (payload : String) where
  abbrev checked : Option String
  checked =
      (validate_commit b.groups group topic id generation partition (World.now b.storage.world).0).1

  -- A commit that is answered with a success has been entered.
  commit_offset-entered :
      commit_offset group topic id generation partition offset b ≡ returned payload b'
      → b'.offsets ≡ commit b.offsets group topic partition offset
  unfolding commit_offset now on_groups on_offsets raise_error pure ◌>>=◌
  commit_offset-entered h = elim (Option-cases checked) [
    | inr (e, f) ↦ absurd (cc (rw f at h))
    | inl f ↦ sym (ap (offsets_left b.offsets) (rw f at h))
  ]

  pub commit_args_lem :
      IsInt64 generation
      → IsInt64 partition
      → IsInt64 offset
      → handle_commit (commit_args group topic id generation partition offset) b
        ≡ commit_offset group topic id generation partition offset b
  unfolding handle_commit int_arg parse_int or_raise ◌>>=◌
  commit_args_lem h₁ h₂ h₃ =
      rw (atoi-itoa generation h₁, atoi-itoa partition h₂, atoi-itoa offset h₃) refl

  -- Once a COMMIT has been answered with a success, an OFFSET for its group, topic and partition is answered
  -- with the offset that it committed, whatever the operating system answered to the save. The numbers fit 64
  -- bits.
  pub handle_offset-handle_commit :
      IsInt64 generation
      → IsInt64 partition
      → IsInt64 offset
      → handle_commit (commit_args group topic id generation partition offset) b
        ≡ returned payload b'
      → handle_offset (offset_args group topic partition) b' ≡ returned ("offset=" ⧺ itoa offset) b'
  handle_offset-handle_commit h₁ h₂ h₃ e =
      let entered = commit_offset-entered (sym (commit_args_lem h₁ h₂ h₃) ∙ e) in
      handle_offset_lem b' group topic partition h₂
      ∙ ap (λ n. returned ("offset=" ⧺ itoa n) b')
          (ap (λ om. get_offset om group topic partition) entered
            ∙ get_offset-commit b.offsets group topic partition offset group topic partition
            ∙ rw (==_refl group, ==_refl topic, ==_refl partition) refl)
