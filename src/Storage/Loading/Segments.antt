-- ===== src/Storage/Loading/Segments.antt =====
-- A segment that is read back at the start, from its file to the messages in memory.
use mathlib.Core.List.{append-nil, append_assoc}
use distributed_real_time_ev.Base.{
  ℕ, ℤ, leb_ℤ, Bool, true, false, ◌==◌, ==_iff, ==_refl, String, string_comparable, some, List, [],
  ◌∷◌, ◌++◌, map, All, ◌≡◌, refl, sym, ap, ◌∙◌, ◌⊎◌, inl, inr, Bool-cases, if◌then◌else◌,
}
use distributed_real_time_ev.Base.Map
use distributed_real_time_ev.Base.Map.{Map, lookup-insert}
use distributed_real_time_ev.Base.Text.{◌⧺◌}
use distributed_real_time_ev.Storage.Record.{Message, Entry, read_segment}
use distributed_real_time_ev.Storage.Record.Recovery.{segment_text, Fits, read_segment-segment_text}
use distributed_real_time_ev.Storage.World.{File}
use distributed_real_time_ev.Storage.State.{
  Key, key_comparable, PartitionState, Storage, messages, put_messages, put_state, next, or_none,
  ensure_partition_state,
}
use distributed_real_time_ev.Storage.Retention.{load_entry, load_entries, load_segment}
use distributed_real_time_ev.Storage.Log.Outcomes.{indexed-Kept, ensure-Kept}

-- The message that a line of a segment holds.
abbrev pub message_of : Entry → Message
message_of e = record { offset = e.offset; value = e.value }

state-data :
    (s : Storage) (k : Key) (st : PartitionState) (b : Bool)
    → (if b then put_state s k st else s).data_of ≡ s.data_of
unfolding put_state
state-data s k st true = refl
state-data s k st false = refl

load_entry-data :
    (s : Storage) (k : Key) (segment : ℤ) (e : Entry)
    → (load_entry s k segment e).data_of
      ≡ Map.insert k (messages s k ++ message_of e ∷ []) s.data_of
unfolding load_entry put_messages
load_entry-data s k segment e =
    (indexed-Kept _ k e.offset e.timestamp segment).same_data
    ∙ state-data s₂ k (record st { next_offset = next e.offset }) (leb_ℤ st.next_offset e.offset)
    ∙ (ensure-Kept s₁ k).same_data
  where
    s₁ : Storage
    s₁ = put_messages s k (messages s k ++ message_of e ∷ [])

    s₂ : Storage
    s₂ = (ensure_partition_state s₁ k).1

    st : PartitionState
    st = (ensure_partition_state s₁ k).0

-- The messages of every partition, where those of `k` have become `ms`.
abbrev pub with_messages : Storage → Key → List Message → Key → List Message
with_messages s k ms j = if k == j then ms else messages s j

load_entry-messages :
    (s : Storage) (k : Key) (segment : ℤ) (e : Entry) (j : Key)
    → messages (load_entry s k segment e) j
      ≡ with_messages s k (messages s k ++ message_of e ∷ []) j
load_entry-messages s k segment e j =
    ap (λ d. or_none (Map.lookup j d)) (load_entry-data s k segment e)
    ∙ ap or_none (lookup-insert k (messages s k ++ message_of e ∷ []) s.data_of j)
    ∙ cases (k == j)
  where
    cases :
        (b : Bool)
        → or_none (if b then some (messages s k ++ message_of e ∷ []) else Map.lookup j s.data_of)
          ≡ (if b then messages s k ++ message_of e ∷ [] else messages s j)
    cases true = refl
    cases false = refl

load_entries-messages :
    (s : Storage) (k : Key) (segment : ℤ) (es : List Entry) (j : Key)
    → messages (load_entries s k segment es) j
      ≡ with_messages s k (messages s k ++ map message_of es) j
unfolding load_entries
load_entries-messages s k segment [] j = elim (Bool-cases (k == j)) [
  | inl e ↦ rw e (ap (messages s) (sym ((==_iff k j).0 e)) ∙ sym (append-nil (messages s k)))
  | inr e ↦ rw e refl
]
load_entries-messages s k segment (x ∷ rest) j =
    load_entries-messages s' k segment rest j ∙ step (Bool-cases (k == j))
  where
    s' : Storage
    s' = load_entry s k segment x

    own : messages s' k ≡ messages s k ++ message_of x ∷ []
    own = load_entry-messages s k segment x k ∙ rw (==_refl k) refl

    step :
        (k == j ≡ true) ⊎ (k == j ≡ false)
        → with_messages s' k (messages s' k ++ map message_of rest) j
          ≡ with_messages s k (messages s k ++ map message_of (x ∷ rest)) j
    step (inl e) = rw e (
        ap (λ l. l ++ map message_of rest) own
        ∙ append_assoc (messages s k) (message_of x ∷ []) (map message_of rest))
    step (inr e) = rw e (load_entry-messages s k segment x j ∙ rw e refl)

module _ (checksum : String → ℕ) where
  -- A segment file that begins with the lines of `entries` is loaded like this, whatever is behind
  -- them: all of `entries` come first and in order behind the messages that the partition has, then
  -- what is read from the rest of the file; and no other partition's messages change. Each of
  -- `entries` has a value of one line that does not end in a carriage return, numbers of 64 bits,
  -- and a line below 65536 bytes.
  pub load_segment_lem :
      (s : Storage) (k : Key) (segment : ℤ) (path : String) (f : File) (entries : List Entry)
      (rest : String) (j : Key)
      → Map.lookup path s.world.files ≡ some f
      → f.content ≡ segment_text checksum entries ⧺ rest
      → All (Fits checksum) entries
      → messages (load_segment checksum s k segment path) j
        ≡ with_messages s k
            (messages s k ++ map message_of (entries ++ read_segment checksum rest))
            j
  unfolding load_segment
  load_segment_lem s k segment path f entries rest j h c a =
      rw (load_segment, h)
        (load_entries-messages s k segment (read_segment checksum f.content) j
          ∙ ap (λ es. with_messages s k (messages s k ++ map message_of es) j)
              (ap (read_segment checksum) c ∙ read_segment-segment_text checksum entries rest a))
