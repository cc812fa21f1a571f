-- ===== src/Storage/Log/Steps.antt =====
-- The steps that both appends share: none of them changes a message or a next offset.
use distributed_real_time_ev.Base.{
  ℕ, Bool, true, false, String, List, ◌≡◌, ◌≢◌, refl, ap, sym, ◌∙◌, ◌⊎◌,
}
use distributed_real_time_ev.Base.Text.{◌⧺◌}
use distributed_real_time_ev.Storage.Record.{Entry, format_line}
use distributed_real_time_ev.Storage.World.{Answer, done, World, now, attempt}
use distributed_real_time_ev.Storage.State.{
  Key, key_comparable, PartitionState, Storage, put_world, put_state, ensure_partition_state,
}
use distributed_real_time_ev.Storage.Retention.{segment_of}
use distributed_real_time_ev.Storage.Log.{write_segment, synced}
use distributed_real_time_ev.Storage.Log.Answers.{
  next_answer, tail, Called, attempt-Called, attempt-files, append_line-Called, append_line-written,
  text_of,
}
use distributed_real_time_ev.Storage.Log.Appending.{
  next_of, Kept, Kept-trans, put-Kept, rotated-next, fsync-next,
}
use distributed_real_time_ev.Storage.Log.Outcomes.{
  ensure-Kept, ensure-next, ensure-world, fsync-files, fsync-fails, fsync-succeeds,
}

pub world-Kept : (s : Storage) (w : World) → Kept s (put_world s w)
unfolding put_world
world-Kept s w = record { same_data = refl; nexts = λ j. refl; same_limits = refl }

-- `s` has come from `base` without a change of the messages or the next offsets, and with some of
-- the answers of the file system taken, so that `answers` are left.
pub record Since (base s : Storage) (answers : List Answer) : Type 0 where
  pub kept : Kept base s
  pub left : s.world.answers ≡ answers
  pub mode : s.fsync_mode ≡ base.fsync_mode

-- `s` after the clock and the call of os.MkdirAll.
unfoldable pub made : Storage → Bool × World
made s = attempt (now s.world).1

pub made-Called : (s : Storage) → Called s.world (made s).1 (made s).0
unfolding made now
made-Called s =
    let c = attempt-Called (now s.world).1 in
    record { succeeds = c.succeeds; fails = c.fails; left = c.left }

pub made-files : (s : Storage) → (made s).1.files ≡ s.world.files
unfolding made now
made-files s = attempt-files (now s.world).1

pub made-Since :
    (base s : Storage) (answers : List Answer)
    → Since base s answers
    → Since base (put_world s (made s).1) (tail answers)
made-Since base s answers c = record {
  kept = Kept-trans base s _ c.kept (world-Kept s _);
  left = unfold put_world in ((made-Called s).left ∙ ap tail c.left);
  mode = unfold put_world in c.mode;
}

pub made-done :
    (base s : Storage)
    → Since base s base.world.answers
    → (made s).0 ≡ true
    → next_answer base.world.answers ≡ done
made-done base s c t = sym (ap next_answer c.left) ∙ (made-Called s).succeeds t

pub unmade-Since :
    (base s : Storage)
    → Since base s base.world.answers
    → (made s).0 ≡ false
    → next_answer base.world.answers ≢ done
unmade-Since base s c f q = (made-Called s).fails f (ap next_answer c.left ∙ q)

pub ensured-Since : (s : Storage) (k : Key) → Since s (ensure_partition_state s k).1 s.world.answers
ensured-Since s k = record {
  kept = ensure-Kept s k;
  left = (ensure-world s k).0;
  mode = (ensure-world s k).2;
}

-- The calls of os.MkdirAll and of f.WriteString, which take the first two answers to come, are done.
abbrev pub Wrote : Storage → Type 0
Wrote s = (next_answer s.world.answers ≡ done) × (next_answer (tail s.world.answers) ≡ done)

-- One of the two is not.
abbrev pub Unwritten : Storage → Type 0
Unwritten s = (next_answer s.world.answers ≢ done) ⊎ (next_answer (tail s.world.answers) ≢ done)

-- The next offset that both appends read first.
pub ensured-next :
    (s : Storage) (k : Key) → (ensure_partition_state s k).0.next_offset ≡ next_of s k
ensured-next s k = ensure-next s k ∙ (ensure-Kept s k).nexts k

module _ (checksum : String → ℕ) where
  pub write-Kept :
      (s : Storage) (k : Key) (st : PartitionState) (e : Entry)
      → st.next_offset ≡ next_of s k
      → Kept s (write_segment checksum s k st e).2
  unfolding write_segment
  write-Kept s k st e h = put-Kept s k _ _ (rotated-next s k st _ ∙ h)

  pub write-next :
      (s : Storage) (k : Key) (st : PartitionState) (e : Entry)
      → (write_segment checksum s k st e).1.next_offset ≡ st.next_offset
  unfolding write_segment
  write-next s k st e = rotated-next s k st _

  pub write-Called :
      (s : Storage) (k : Key) (st : PartitionState) (e : Entry)
      → Called s.world (write_segment checksum s k st e).2.world (write_segment checksum s k st e).0
  unfolding write_segment put_world
  write-Called s k st e = append_line-Called s.world _ _

  -- A line written stands at the end of the segment that the state then has.
  pub write-written :
      (s : Storage) (k : Key) (st : PartitionState) (e : Entry)
      → (write_segment checksum s k st e).0 ≡ true
      → text_of
          (write_segment checksum s k st e).2.world.files
          (segment_of k (write_segment checksum s k st e).1.active_segment_id)
        ≡ text_of s.world.files (segment_of k (write_segment checksum s k st e).1.active_segment_id)
          ⧺ format_line checksum e
  unfolding write_segment put_world
  write-written s k st e ok = append_line-written s.world _ _ ok

  pub synced-Kept :
      (s : Storage) (k : Key) (st : PartitionState) (e : Entry)
      → st.next_offset ≡ next_of s k
      → Kept s (synced checksum s k st e).2
  unfolding synced
  synced-Kept s k st e h = put-Kept s k _ _ (fsync-next s st _ ∙ h)

  pub synced-files :
      (s : Storage) (k : Key) (st : PartitionState) (e : Entry)
      → (synced checksum s k st e).2.world.files ≡ s.world.files
  unfolding synced put_world
  synced-files s k st e = fsync-files s st _

  pub synced-mode :
      (s : Storage) (k : Key) (st : PartitionState) (e : Entry)
      → ((synced checksum s k st e).0 ≡ false
          → (s.fsync_mode ≢ "never") × (next_answer s.world.answers ≢ done))
        × ((synced checksum s k st e).0 ≡ true
            → s.fsync_mode ≢ "never"
            → s.fsync_mode ≢ "interval"
            → next_answer s.world.answers ≡ done)
  unfolding synced
  synced-mode s k st e = (fsync-fails s st _, fsync-succeeds s st _)

  pub write-Since :
      (base s : Storage) (k : Key) (st : PartitionState) (e : Entry) (answers : List Answer)
      → Since base s answers
      → st.next_offset ≡ next_of s k
      → Since base (write_segment checksum s k st e).2 (tail answers)
  unfolding write_segment put_world put_state
  write-Since base s k st e answers c h = record {
    kept = Kept-trans base s _ c.kept (write-Kept s k st e h);
    left = (write-Called s k st e).left ∙ ap tail c.left;
    mode = c.mode;
  }

  pub write-done :
      (base s : Storage) (k : Key) (st : PartitionState) (e : Entry)
      → Since base s (tail base.world.answers)
      → (write_segment checksum s k st e).0 ≡ true
      → next_answer (tail base.world.answers) ≡ done
  write-done base s k st e c t = sym (ap next_answer c.left) ∙ (write-Called s k st e).succeeds t

  pub unwritten-Since :
      (base s : Storage) (k : Key) (st : PartitionState) (e : Entry)
      → Since base s (tail base.world.answers)
      → (write_segment checksum s k st e).0 ≡ false
      → next_answer (tail base.world.answers) ≢ done
  unwritten-Since base s k st e c f q = (write-Called s k st e).fails f (ap next_answer c.left ∙ q)
