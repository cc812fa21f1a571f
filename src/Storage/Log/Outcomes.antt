-- ===== src/Storage/Log/Outcomes.antt =====
-- What the two appends return, with what they have stored, on every branch.
use distributed_real_time_ev.Base.{
  ℤ, Bool, true, false, ◌==◌, ==_iff, ==_refl, String, string_comparable, none, some, List, [], ◌∷◌,
  ◌++◌, ◌≡◌, ◌≢◌, refl, sym, ap, ◌∙◌, inl, inr, arith, Bool-cases, Option-cases, if◌then◌else◌,
}
use distributed_real_time_ev.Base.Map
use distributed_real_time_ev.Base.Map.{lookup-insert}
use distributed_real_time_ev.Storage.Record.{Message, Entry}
use distributed_real_time_ev.Storage.World.{done, World, now, attempt}
use distributed_real_time_ev.Storage.Log.Answers.{next_answer, attempt-Called, attempt-files}
use distributed_real_time_ev.Storage.State.{
  Key, key_comparable, PartitionState, Storage, messages, put_messages, put_state, put_world, next,
  or_none, created, ensure_partition_state,
}
use distributed_real_time_ev.Storage.Retention.{append_offset_index, append_timestamp_index}
use distributed_real_time_ev.Storage.Log.{apply_fsync_policy, remember}
use distributed_real_time_ev.Storage.Log.Appending.{
  offset_or_zero, next_of, Kept, Stored, Stored-Kept, next_of-insert, put-Kept,
}

created-Kept :
    (s : Storage) (k : Key) → Map.lookup k s.partition_state ≡ none → Kept s (created s k).1
unfolding created put_world put_state
created-Kept s k e = put-Kept s k (created s k).0 (now s.world).1 (ap offset_or_zero (sym e))

created-next : (s : Storage) (k : Key) → (created s k).0.next_offset ≡ next_of (created s k).1 k
unfolding created put_world
created-next s k =
    sym (next_of-insert (put_world s (now s.world).1) k (created s k).0 k ∙ rw (==_refl k) refl)

pub ensure-Kept : (s : Storage) (k : Key) → Kept s (ensure_partition_state s k).1
unfolding ensure_partition_state
ensure-Kept s k = elim (Option-cases (Map.lookup k s.partition_state)) [
  | inl e ↦ rw (ensure_partition_state, e) (created-Kept s k e)
  | inr h ↦
      rw (ensure_partition_state, h.1)
        (record { same_data = refl; nexts = λ j. refl; same_limits = refl })
]

pub ensure-next :
    (s : Storage) (k : Key)
    → (ensure_partition_state s k).0.next_offset ≡ next_of (ensure_partition_state s k).1 k
unfolding ensure_partition_state
ensure-next s k = elim (Option-cases (Map.lookup k s.partition_state)) [
  | inl e ↦ rw (ensure_partition_state, e) (created-next s k)
  | inr h ↦ rw (ensure_partition_state, h.1) (ap offset_or_zero (sym h.1))
]

pub ensure-world :
    (s : Storage) (k : Key)
    → ((ensure_partition_state s k).1.world.answers ≡ s.world.answers)
      × ((ensure_partition_state s k).1.world.files ≡ s.world.files)
      × ((ensure_partition_state s k).1.fsync_mode ≡ s.fsync_mode)
unfolding ensure_partition_state
ensure-world s k = elim (Option-cases (Map.lookup k s.partition_state)) [
  | inl e ↦
      rw (ensure_partition_state, e) (unfold created put_world put_state now in (refl, refl, refl))
  | inr h ↦ rw (ensure_partition_state, h.1) (refl, refl, refl)
]

pub fsync-files :
    (s : Storage) (st : PartitionState) (written : ℤ)
    → (apply_fsync_policy s st written).2.files ≡ s.world.files
unfolding apply_fsync_policy now
fsync-files s st written = ground (arith, attempt-files s.world, attempt-files (now s.world).1)

differs : (x y : String) → x ≢ y → (x == y) ≡ false
differs x y h = elim (Bool-cases (x == y)) [ inl e ↦ absurd (h ((==_iff x y).0 e)) | inr e ↦ e ]

attempt-fails : (w : World) → (attempt w).0 ≡ false → next_answer w.answers ≢ done
attempt-fails w = (attempt-Called w).fails

never-done :
    (s : Storage) (st : PartitionState) (written : ℤ)
    → s.fsync_mode ≡ "never"
    → (apply_fsync_policy s st written).0 ≡ true
unfolding apply_fsync_policy
never-done s st written e = rw ((==_iff s.fsync_mode "never").1 e) refl

fsync-refused :
    (s : Storage) (st : PartitionState) (written : ℤ)
    → (apply_fsync_policy s st written).0 ≡ false
    → next_answer s.world.answers ≢ done
unfolding apply_fsync_policy
fsync-refused s st written f = elim (Bool-cases (attempt s.world).0) [
  | inr e ↦ attempt-fails s.world e
  | inl e ↦ elim (Bool-cases (attempt (now s.world).1).0) [
    | inr d ↦ unfold now in (attempt-fails (now s.world).1 d)
    | inl d ↦ absurd (ground (arith, e, d, f))
  ]
]

-- A sync fails only where the mode asks for one and the next call fails.
pub fsync-fails :
    (s : Storage) (st : PartitionState) (written : ℤ)
    → (apply_fsync_policy s st written).0 ≡ false
    → (s.fsync_mode ≢ "never") × (next_answer s.world.answers ≢ done)
fsync-fails s st written f =
    ((λ e. let d = never-done s st written e in cc), fsync-refused s st written f)

-- In a mode that is neither of the two lazy ones, a sync that succeeds has been done.
pub fsync-succeeds :
    (s : Storage) (st : PartitionState) (written : ℤ)
    → (apply_fsync_policy s st written).0 ≡ true
    → s.fsync_mode ≢ "never"
    → s.fsync_mode ≢ "interval"
    → next_answer s.world.answers ≡ done
unfolding apply_fsync_policy
fsync-succeeds s st written t n i =
    let e = differs s.fsync_mode "never" n in
    let d = differs s.fsync_mode "interval" i in
    (attempt-Called s.world).succeeds (ground (arith, e, d, t))

pub other-key : (k j : Key) → k ≢ j → k == j ≡ false
other-key k j h = elim (Bool-cases (k == j)) [ inl e ↦ absurd (h ((==_iff k j).0 e)) | inr e ↦ e ]

pub messages-put :
    (s : Storage) (k : Key) (ms : List Message) (st : PartitionState) (j : Key)
    → messages (put_state (put_messages s k ms) k st) j ≡ (if k == j then ms else messages s j)
unfolding put_state put_messages
messages-put s k ms st j = rw (lookup-insert k ms s.data_of j) (cases (k == j))
  where
    cases :
        (b : Bool)
        → or_none (if b then some ms else Map.lookup j s.data_of) ≡ (if b then ms else messages s j)
    cases true = refl
    cases false = refl

put-Stored :
    (s : Storage) (k : Key) (st : PartitionState) (offset : ℤ) (value : String)
    → st.next_offset ≡ next offset
    → Stored s
        (put_state
          (put_messages s k (messages s k ++ record { offset = offset; value = value } ∷ []))
          k
          st)
        k
        offset
        value
put-Stored s k st offset value h = record {
  message = messages-put s k _ st k ∙ rw (==_refl k) refl;
  others = λ j n. messages-put s k _ st j ∙ rw (other-key k j n) refl;
  next_is = next_of-insert _ k st k ∙ rw (==_refl k) h;
  other_nexts = λ j n. next_of-insert _ k st j ∙ rw (other-key k j n) (unfold put_messages in refl);
  same_limits = unfold put_state put_messages in refl;
}

pub indexed-Kept :
    (s : Storage) (k : Key) (offset timestamp segment : ℤ)
    → Kept s
        (append_timestamp_index (append_offset_index s k offset segment) k timestamp segment offset)
unfolding append_offset_index append_timestamp_index put_world
indexed-Kept s k offset timestamp segment = record {
  same_data = refl;
  nexts = λ j. refl;
  same_limits = refl;
}

pub remember-Stored :
    (s : Storage) (k : Key) (st : PartitionState) (e : Entry)
    → Stored s (remember s k st e) k e.offset e.value
unfolding remember
remember-Stored s k st e =
    Stored-Kept s _ _ k e.offset e.value
      (indexed-Kept s k e.offset e.timestamp st.active_segment_id)
      (put-Stored _ k (record st { next_offset = next e.offset }) e.offset e.value refl)
