-- ===== src/Storage/Log/Appending.antt =====
-- What the two appends do to the messages in memory and to the next offset, whatever the answers of
-- the file system are.
use distributed_real_time_ev.Base.{
  ℤ, pos, Bool, true, false, ◌==◌, ==_iff, String, Option, none, some, [], ◌∷◌, ◌++◌, ◌≡◌, ◌≢◌,
  refl, ap, ◌∙◌, ◌⊎◌, inl, inr, arith, Bool-cases, if◌then◌else◌,
}
use distributed_real_time_ev.Base.Map
use distributed_real_time_ev.Base.Map.{lookup-insert}
use distributed_real_time_ev.Storage.World.{World}
use distributed_real_time_ev.Storage.State.{
  Key, key_comparable, PartitionState, Storage, messages, put_state, put_world, next, or_none,
}
use distributed_real_time_ev.Storage.Log.{rotated, apply_fsync_policy}

abbrev pub offset_or_zero : Option PartitionState → ℤ
offset_or_zero none = pos 0
offset_or_zero (some st) = st.next_offset

-- The next offset of a partition: 0 where nothing is known of it.
abbrev pub next_of : Storage → Key → ℤ
next_of s k = offset_or_zero (Map.lookup k s.partition_state)

-- The limits of retention.
abbrev pub limits : Storage → ℤ × ℤ
limits s = (s.retention_max_bytes, s.retention_max_age)

-- The messages, the next offsets and the limits of retention are the same in both.
pub record Kept (s s' : Storage) : Type 0 where
  pub same_data : s'.data_of ≡ s.data_of
  pub nexts : (j : Key) → next_of s' j ≡ next_of s j
  pub same_limits : limits s' ≡ limits s

-- One message has been added to one partition, whose next offset follows the message's.
pub record Stored (s s' : Storage) (k : Key) (offset : ℤ) (value : String) : Type 0 where
  pub message : messages s' k ≡ messages s k ++ record { offset = offset; value = value } ∷ []
  pub others : (j : Key) → k ≢ j → messages s' j ≡ messages s j
  pub next_is : next_of s' k ≡ next offset
  pub other_nexts : (j : Key) → k ≢ j → next_of s' j ≡ next_of s j
  pub same_limits : limits s' ≡ limits s

pub Kept-trans : (s s' s'' : Storage) → Kept s s' → Kept s' s'' → Kept s s''
Kept-trans s s' s'' a b = record {
  same_data = b.same_data ∙ a.same_data;
  nexts = λ j. b.nexts j ∙ a.nexts j;
  same_limits = b.same_limits ∙ a.same_limits;
}

pub Stored-Kept :
    (s s' s'' : Storage) (k : Key) (offset : ℤ) (value : String)
    → Kept s s'
    → Stored s' s'' k offset value
    → Stored s s'' k offset value
Stored-Kept s s' s'' k offset value a b = record {
  message =
      b.message
      ∙ ap (λ d. or_none (Map.lookup k d) ++ record { offset = offset; value = value } ∷ [])
          a.same_data;
  others = λ j h. b.others j h ∙ ap (λ d. or_none (Map.lookup j d)) a.same_data;
  next_is = b.next_is;
  other_nexts = λ j h. b.other_nexts j h ∙ a.nexts j;
  same_limits = b.same_limits ∙ a.same_limits;
}

pub next_of-insert :
    (s : Storage) (k : Key) (st : PartitionState) (j : Key)
    → next_of (put_state s k st) j ≡ (if k == j then st.next_offset else next_of s j)
unfolding put_state
next_of-insert s k st j = rw (lookup-insert k st s.partition_state j) (offset-if (k == j))
  where
    offset-if :
        (b : Bool)
        → offset_or_zero (if b then some st else Map.lookup j s.partition_state)
          ≡ (if b then st.next_offset else next_of s j)
    offset-if true = refl
    offset-if false = refl

pub put-Kept :
    (s : Storage) (k : Key) (st : PartitionState) (w : World)
    → st.next_offset ≡ next_of s k
    → Kept s (put_world (put_state s k st) w)
unfolding put_world
put-Kept s k st w h = record {
  same_data = unfold put_state in refl;
  nexts = λ j. next_of-insert s k st j ∙ back j (Bool-cases (k == j));
  same_limits = unfold put_state in refl;
}
  where
    back :
        (j : Key)
        → (k == j ≡ true) ⊎ (k == j ≡ false)
        → (if k == j then st.next_offset else next_of s j) ≡ next_of s j
    back j (inl e) = rw e (h ∙ ap (next_of s) ((==_iff k j).0 e))
    back j (inr e) = rw e refl

pub rotated-next :
    (s : Storage) (k : Key) (st : PartitionState) (bytes : ℤ)
    → (rotated s k st bytes).next_offset ≡ st.next_offset
unfolding rotated
rotated-next s k st bytes = ground arith

pub fsync-next :
    (s : Storage) (st : PartitionState) (written : ℤ)
    → (apply_fsync_policy s st written).1.next_offset ≡ st.next_offset
unfolding apply_fsync_policy
fsync-next s st written = ground arith
