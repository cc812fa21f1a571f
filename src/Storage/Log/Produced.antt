-- ===== src/Storage/Log/Produced.antt =====
-- `ProduceToPartition` on every branch.
use distributed_real_time_ev.Base.{ℕ, ℤ, String, ◌≡◌, sym, subst, ◌∙◌, inl, inr, Bool-cases}
use distributed_real_time_ev.Base.Clock.{unix_milli}
use distributed_real_time_ev.Storage.Record.{Entry, format_line}
use distributed_real_time_ev.Storage.World.{now}
use distributed_real_time_ev.Storage.State.{
  Key, PartitionState, Storage, put_world, ensure_partition_state,
}
use distributed_real_time_ev.Storage.Retention.{enforce_retention}
use distributed_real_time_ev.Storage.Log.{
  write_local_replicas, remember, write_segment, synced, produced, produce_to_partition,
}
use distributed_real_time_ev.Storage.Log.Appending.{next_of, Kept, Stored, Kept-trans, Stored-Kept}
use distributed_real_time_ev.Storage.Log.Outcomes.{ensure-next, ensure-world, remember-Stored}
use distributed_real_time_ev.Storage.Log.Answers.{
  tail, Grows, Grows-same, Grows-trans, replicas_from-Grows,
}
use distributed_real_time_ev.Storage.Log.Written.{
  active_of, Written, remember-Grows, remember-active, write_segment-Written,
}
use distributed_real_time_ev.Storage.Log.Steps.{
  world-Kept, Since, made, made-files, made-done, unmade-Since, made-Since, ensured-Since,
  ensured-next, Wrote, Unwritten, write-Kept, write-next, write-done, unwritten-Since, write-Since,
  synced-Kept, synced-files,
}

module _ (checksum : String → ℕ) where
  -- What `ProduceToPartition` may leave behind, for a storage `s`.
  pub data Production (s : Storage) (k : Key) (value : String) : Storage → Type 0 where
    lost : {s' : Storage} → Unwritten s → Kept s s' → Production s k value s'
    appended :
        {s' : Storage}
        → Wrote s
        → Stored s s' k (next_of s k) value
        → Written checksum s s' k (next_of s k) value
        → Production s k value (enforce_retention checksum s')

  mirror-Kept :
      (s : Storage) (k : Key) (segment : ℤ) (line : String)
      → Kept s (write_local_replicas s k segment line)
  unfolding write_local_replicas
  mirror-Kept s k segment line = world-Kept s _

  mirror-Grows :
      (s : Storage) (k : Key) (segment : ℤ) (line : String)
      → Grows s.world.files (write_local_replicas s k segment line).world.files
  unfolding write_local_replicas put_world
  mirror-Grows s k segment line = replicas_from-Grows s.local_replica_count 1 s.world k segment line

  produced_cases :
      (base s : Storage) (k : Key) (st : PartitionState) (e : Entry)
      → Kept base s
      → st.next_offset ≡ next_of s k
      → e.offset ≡ next_of base k
      → Wrote base
      → ((s' : Storage)
          → Grows s.world.files s'.world.files
          → active_of s' k ≡ st.active_segment_id
          → Written checksum base s' k e.offset e.value)
      → Production base k e.value (produced checksum s k st e)
  unfolding produced
  produced_cases base s k st e c h n wrote line =
      appended wrote
        (subst (λ z. Stored base s₃ k z e.value) n
          (Stored-Kept base s₂ _ k e.offset e.value
            (Kept-trans base s₁ s₂ (Kept-trans base s s₁ c (synced-Kept checksum s k st e h))
              (mirror-Kept s₁ k _ _))
            (remember-Stored s₂ k st' e)))
        (subst (λ z. Written checksum base s₃ k z e.value) n
          (line s₃
            (Grows-trans s.world.files s₂.world.files s₃.world.files
              (Grows-trans s.world.files s₁.world.files s₂.world.files
                (Grows-same s.world.files s₁.world.files (synced-files checksum s k st e))
                (mirror-Grows s₁ k _ _))
              (remember-Grows checksum s₂ k st' e))
            (remember-active checksum s s₂ k st e)))
    where
      st' : PartitionState
      st' = (synced checksum s k st e).1

      s₁ : Storage
      s₁ = (synced checksum s k st e).2

      s₂ : Storage
      s₂ = write_local_replicas s₁ k st'.active_segment_id (format_line checksum e)

      s₃ : Storage
      s₃ = remember s₂ k st' e

  -- `ProduceToPartition`, whatever the file system answers. The offset returned is always the next
  -- one of the partition. Where the first two answers of the file system, for the directory and for
  -- the line, are both `done`, the record has been stored under that offset: its line stands in the
  -- active segment of the partition, right behind the text that was there; it is the last message of the
  -- partition, whose next offset follows it; all other partitions stay as they are; and then retention
  -- is enforced. Where one of the two is not `done`, the record is lost, with no message and no next
  -- offset changed.
  pub produce_to_partition_lem :
      (s : Storage) (k : Key) (value : String)
      → ((produce_to_partition checksum s k value).0 ≡ next_of s k)
        × Production s k value (produce_to_partition checksum s k value).1
  unfolding produce_to_partition made
  produce_to_partition_lem s k value = (
    ensured-next s k,
    elim (Bool-cases (made s₀).0) [
      | inr f ↦ rw f (lost (inl (unmade-Since s s₀ c f)) c₁.kept)
      | inl t ↦ elim (Bool-cases (write_segment checksum s₁ k st e).0) [
        | inr f ↦ rw (t, f) (lost (inr (unwritten-Since checksum s s₁ k st e c₁ f)) c₂.kept)
        | inl u ↦
            rw (t, u)
              (produced_cases s _ k _ e c₂.kept
                (write-next checksum s₁ k st e
                  ∙ h₁
                  ∙ sym ((write-Kept checksum s₁ k st e h₁).nexts k))
                (ensured-next s k) (made-done s s₀ c t, write-done checksum s s₁ k st e c₁ u)
                (λ s'. write_segment-Written checksum s s₁ s' k st e same₁ u))
      ]
    ],
  )
    where
      st : PartitionState
      st = (ensure_partition_state s k).0

      s₀ : Storage
      s₀ = (ensure_partition_state s k).1

      c : Since s s₀ s.world.answers
      c = ensured-Since s k

      s₁ : Storage
      s₁ = put_world s₀ (made s₀).1

      e : Entry
      e = record { offset = st.next_offset; timestamp = unix_milli (now s₀.world).0; value = value }

      c₁ : Since s s₁ (tail s.world.answers)
      c₁ = made-Since s s₀ _ c

      same₁ : s₁.world.files ≡ s.world.files
      same₁ = unfold put_world in (made-files s₀ ∙ (ensure-world s k).1)

      h₁ : st.next_offset ≡ next_of s₁ k
      h₁ = ensure-next s k ∙ sym ((world-Kept s₀ (made s₀).1).nexts k)

      c₂ : Since s (write_segment checksum s₁ k st e).2 (tail (tail s.world.answers))
      c₂ = write-Since checksum s s₁ k st e _ c₁ h₁
