-- ===== src/Storage/Log/Replicated.antt =====
-- `AppendReplicated` on every branch.
use distributed_real_time_ev.Base.{
  ℕ, ℤ, ◌<ℤ◌, ltb_ℤ, true, false, ◌==◌, ==_iff, String, string_comparable, Option, none, some, ◌≡◌,
  ◌≢◌, sym, ap, subst, ◌∙◌, ◌⊎◌, inl, inr, arith, Bool-cases,
}
use distributed_real_time_ev.Base.Clock.{unix_milli}
use distributed_real_time_ev.Base.Int.{eq_of_parts}
use distributed_real_time_ev.Storage.Record.{Entry}
use distributed_real_time_ev.Storage.World.{done, now}
use distributed_real_time_ev.Storage.State.{
  Key, PartitionState, Storage, put_world, ensure_partition_state,
}
use distributed_real_time_ev.Storage.Retention.{enforce_retention}
use distributed_real_time_ev.Storage.Log.{
  write_segment, remember, synced, replicated, append_next, append_replicated,
}
use distributed_real_time_ev.Storage.Log.Appending.{next_of, Kept, Stored, Kept-trans, Stored-Kept}
use distributed_real_time_ev.Storage.Log.Outcomes.{
  ensure-Kept, ensure-next, ensure-world, remember-Stored,
}
use distributed_real_time_ev.Storage.Log.Answers.{next_answer, tail, Grows, Grows-same, Grows-trans}
use distributed_real_time_ev.Storage.Log.Written.{
  active_of, Written, remember-Grows, remember-active, write_segment-Written,
}
use distributed_real_time_ev.Storage.Log.Steps.{
  world-Kept, Since, made, made-files, made-done, unmade-Since, made-Since, ensured-Since,
  ensured-next, Wrote, Unwritten, write-Kept, write-next, write-done, unwritten-Since, write-Since,
  synced-Kept, synced-files, synced-mode,
}

module _ (checksum : String → ℕ) where
  -- The mode is one of the two that may leave f.Sync out, or the call, which takes the third answer,
  -- is done.
  abbrev pub Synced : Storage → Type 0
  Synced s =
      (s.fsync_mode ≡ "never")
      ⊎ (s.fsync_mode ≡ "interval")
      ⊎ (next_answer (tail (tail s.world.answers)) ≡ done)

  -- A mode that may ask for it, and a call that is not done.
  abbrev pub Unsynced : Storage → Type 0
  Unsynced s = (s.fsync_mode ≢ "never") × (next_answer (tail (tail s.world.answers)) ≢ done)

  -- What `AppendReplicated` may return, for a storage `s`.
  pub data Replication (s : Storage) (k : Key) (offset : ℤ) (value : String)
      : Option String × Storage → Type 0 where
    replayed :
        {s' : Storage} → offset <ℤ next_of s k → Kept s s' → Replication s k offset value (none, s')
    gap :
        {s' : Storage} {err : String}
        → next_of s k <ℤ offset
        → Kept s s'
        → Replication s k offset value (some err, s')
    failed :
        {s' : Storage} {err : String}
        → offset ≡ next_of s k
        → Unwritten s ⊎ Unsynced s
        → Kept s s'
        → Replication s k offset value (some err, s')
    stored :
        {s' : Storage}
        → offset ≡ next_of s k
        → Wrote s
        → Synced s
        → Stored s s' k offset value
        → Written checksum s s' k offset value
        → Replication s k offset value (none, enforce_retention checksum s')

  replicated_cases :
      (base s : Storage) (k : Key) (st : PartitionState) (e : Entry)
      → Since base s (tail (tail base.world.answers))
      → st.next_offset ≡ next_of s k
      → e.offset ≡ next_of base k
      → Wrote base
      → ((s' : Storage)
          → Grows s.world.files s'.world.files
          → active_of s' k ≡ st.active_segment_id
          → Written checksum base s' k e.offset e.value)
      → Replication base k e.offset e.value (replicated checksum s k st e)
  unfolding replicated
  replicated_cases base s k st e c h n wrote line = elim (Bool-cases (synced checksum s k st e).0) [
    | inl t ↦ rw t (
        stored n wrote (in_mode t)
          (Stored-Kept base s₁ s₂ k e.offset e.value kept' (remember-Stored s₁ k st' e))
          (line s₂
            (Grows-trans s.world.files s₁.world.files s₂.world.files
              (Grows-same s.world.files s₁.world.files (synced-files checksum s k st e))
              (remember-Grows checksum s₁ k st' e))
            (remember-active checksum s s₁ k st e)))
    | inr f ↦ rw f (failed n (inr (not_synced f)) kept')
  ]
    where
      st' : PartitionState
      st' = (synced checksum s k st e).1

      s₁ : Storage
      s₁ = (synced checksum s k st e).2

      s₂ : Storage
      s₂ = remember s₁ k st' e

      kept' : Kept base (synced checksum s k st e).2
      kept' = Kept-trans base s _ c.kept (synced-Kept checksum s k st e h)

      in_mode : (synced checksum s k st e).0 ≡ true → Synced base
      in_mode t = elim (Bool-cases (s.fsync_mode == "never")) [
        | inl a ↦ inl (sym c.mode ∙ (==_iff s.fsync_mode "never").0 a)
        | inr a ↦ elim (Bool-cases (s.fsync_mode == "interval")) [
          | inl b ↦ inr (inl (sym c.mode ∙ (==_iff s.fsync_mode "interval").0 b))
          | inr b ↦ inr (
              inr (
                subst (λ l. next_answer l ≡ done) c.left
                  ((synced-mode checksum s k st e).1 t
                    (λ q. let d = (==_iff s.fsync_mode "never").1 q in cc)
                    (λ q. let d = (==_iff s.fsync_mode "interval").1 q in cc))))
        ]
      ]

      not_synced : (synced checksum s k st e).0 ≡ false → Unsynced base
      not_synced f =
          let (a, b) = (synced-mode checksum s k st e).0 f in
          ((λ q. a (c.mode ∙ q)), (λ q. b (ap next_answer c.left ∙ q)))

  append_next_cases :
      (base s : Storage) (k : Key) (st : PartitionState) (offset : ℤ) (value : String)
      → Since base s base.world.answers
      → s.world.files ≡ base.world.files
      → st.next_offset ≡ next_of s k
      → offset ≡ next_of base k
      → Replication base k offset value (append_next checksum s k st offset value)
  unfolding append_next made
  append_next_cases base s k st offset value c same h n = elim (Bool-cases (made s).0) [
    | inr f ↦ rw f (failed n (inl (inl (unmade-Since base s c f))) c₁.kept)
    | inl t ↦ elim (Bool-cases (write_segment checksum s₁ k st e).0) [
      | inr f ↦
          rw (t, f) (failed n (inl (inr (unwritten-Since checksum base s₁ k st e c₁ f))) c₂.kept)
      | inl u ↦
          rw (t, u)
            (replicated_cases base _ k _ e c₂
              (write-next checksum s₁ k st e
                ∙ h₁
                ∙ sym ((write-Kept checksum s₁ k st e h₁).nexts k))
              n (made-done base s c t, write-done checksum base s₁ k st e c₁ u)
              (λ s'. write_segment-Written checksum base s₁ s' k st e same₁ u))
    ]
  ]
    where
      s₁ : Storage
      s₁ = put_world s (made s).1

      e : Entry
      e = record { offset = offset; timestamp = unix_milli (now s.world).0; value = value }

      c₁ : Since base s₁ (tail base.world.answers)
      c₁ = made-Since base s _ c

      same₁ : s₁.world.files ≡ base.world.files
      same₁ = unfold put_world in (made-files s ∙ same)

      h₁ : st.next_offset ≡ next_of s₁ k
      h₁ = h ∙ sym ((world-Kept s (made s).1).nexts k)

      c₂ : Since base (write_segment checksum s₁ k st e).2 (tail (tail base.world.answers))
      c₂ = write-Since checksum base s₁ k st e _ c₁ h₁

  -- `AppendReplicated`, whatever the file system answers. A record below the next offset is taken as a
  -- repetition: no error, and no message and no next offset changes. One beyond it is refused with an
  -- error, and again nothing of these changes. The one with the next offset is stored or fails.
  -- Where it is stored, the directory is there and its line is written, which takes the first two
  -- answers of the file system; in a sync mode that is neither of the two lazy ones the sync is done
  -- as well, by the third. Its line then stands in the active segment of the partition, right behind the text
  -- that was there; it becomes the last message of its partition, whose next offset follows it; all
  -- other partitions stay as they are; and then retention is enforced. Where it fails there is an
  -- error, no message and no next offset has changed, and one of the first two answers is not `done`,
  -- or, in a mode that is not `never`, the third.
  pub append_replicated_lem :
      (s : Storage) (k : Key) (offset : ℤ) (value : String)
      → Replication s k offset value (append_replicated checksum s k offset value)
  unfolding append_replicated
  append_replicated_lem s k offset value =
      elim (Bool-cases (ltb_ℤ offset (ensure_partition_state s k).0.next_offset)) [
        | inl t ↦ rw t (
            replayed (subst (λ z. offset <ℤ z) (ensured-next s k) (below offset bound t))
              (ensure-Kept s k))
        | inr f ↦ elim (Bool-cases (ltb_ℤ (ensure_partition_state s k).0.next_offset offset)) [
          | inl t ↦
              rw (f, t)
                (gap (subst (λ z. z <ℤ offset) (ensured-next s k) (below bound offset t))
                  (ensure-Kept s k))
          | inr g ↦
              rw (f, g)
                (append_next_cases s _ k _ offset value (ensured-Since s k) (ensure-world s k).1
                  (ensure-next s k) (neither offset _ f g ∙ ensured-next s k))
        ]
      ]
    where
      bound : ℤ
      bound = (ensure_partition_state s k).0.next_offset

      below : (a b : ℤ) → ltb_ℤ a b ≡ true → a <ℤ b
      below a b h = ground arith

      neither : (a b : ℤ) → ltb_ℤ a b ≡ false → ltb_ℤ b a ≡ false → a ≡ b
      neither a b h k = eq_of_parts a b (ground arith)
