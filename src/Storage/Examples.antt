-- ===== src/Storage/Examples.antt =====
-- Concrete storages, records and files.
use Prim.Native.Char.{Char}
use distributed_real_time_ev.Base.{
  ℕ, zero, suc, ◌+◌, ◌≤◌, pos, negsuc, true, String, none, some, List, [], ◌∷◌, ◌++◌, map, ◌≡◌,
  refl, arith,
}
use distributed_real_time_ev.Base.Map
use distributed_real_time_ev.Base.Text.{◌⧺◌, itoa, digits}
use distributed_real_time_ev.Base.Text.Splitting.{Free}
use distributed_real_time_ev.Storage.Record.{
  Message, Entry, size, too_long, drop_cr, hex8, hex, line_text, format_line, read_segment,
}
use distributed_real_time_ev.Storage.Record.Recovery.{
  segment_text, Fits, read_segment-segment_text, read_segment-too_long,
}
use distributed_real_time_ev.Storage.World.{File, World}
use distributed_real_time_ev.Storage.Retention.{load_segment}
use distributed_real_time_ev.Storage.Loading.Segments.{message_of, with_messages, load_segment_lem}
use distributed_real_time_ev.Storage.State.{messages, Key, key_comparable, Storage}
use distributed_real_time_ev.Storage.Log.{consume, produce_to_partition, append_replicated}
use distributed_real_time_ev.Storage.Log.Reading.{from_offset, consume_lem}
use distributed_real_time_ev.Storage.Log.Replicated.{Replication, append_replicated_lem}
use distributed_real_time_ev.Storage.Log.Produced.{Production, produce_to_partition_lem}
use distributed_real_time_ev.Storage.Log.Appending.{next_of}

-- A checksum: the number of bytes.
abbrev byte_count : String → ℕ
byte_count s = size s

abbrev orders : Key
orders = record { topic = "orders"; partition = pos 2 }

abbrev old_messages : List Message
old_messages = record { offset = pos 5; value = "e" } ∷ record { offset = pos 6; value = "f" } ∷ []

abbrev quiet_world : World
quiet_world = record { files = []; answers = []; clock = λ n. n + 63000000000000000000; ticks = 0 }

-- A storage with two records of one partition, from the offset 5 on.
abbrev two_records : Storage
two_records = record {
  data_of = (orders, old_messages) ∷ [];
  num_partitions = pos 3;
  segment_max_bytes = pos 100;
  retention_max_bytes = pos 200;
  retention_max_age = pos 1000000000;
  flush_interval = pos 1000000000;
  flush_bytes = pos 1;
  fsync_mode = "interval";
  partition_state =
      (
        orders,
        record {
          next_offset = pos 7;
          active_segment_id = pos 1;
          segments = pos 1 ∷ [];
          last_fsync_at = 0;
          pending_bytes = pos 0;
        },
      )
      ∷ [];
  local_replica_count = 2;
  world = quiet_world;
}

append_replicated_lem_example :
    Replication byte_count two_records orders
      (pos 7)
      "g"
      (append_replicated byte_count two_records orders (pos 7) "g")
append_replicated_lem_example = append_replicated_lem byte_count two_records orders (pos 7) "g"

produce_to_partition_lem_example :
    ((produce_to_partition byte_count two_records orders "g").0 ≡ next_of two_records orders)
    × Production byte_count two_records orders "g"
        (produce_to_partition byte_count two_records orders "g").1
produce_to_partition_lem_example = produce_to_partition_lem byte_count two_records orders "g"

consume_lem_example :
    (consume two_records orders (pos 1) ≡ some (from_offset 6 old_messages))
    × (consume two_records orders (negsuc 1) ≡ none)
unfolding Map.lookup
consume_lem_example = consume_lem two_records orders old_messages 5 1 refl (refl, (refl, tt))

abbrev first_entry : Entry
first_entry = record { offset = pos 0; timestamp = pos 1700000000000; value = "a|b" }

first_entry-Fits : Fits byte_count first_entry
unfolding too_long line_text size drop_cr hex8 hex itoa digits ◌⧺◌
first_entry-Fits = record {
  offset = omega arith;
  timestamp = omega arith;
  one_line = (refl, (refl, (refl, tt)));
  no_return = refl;
  short = refl;
}

read_segment-segment_text_example :
    read_segment byte_count (segment_text byte_count (first_entry ∷ []) ⧺ "1|17000")
    ≡ (first_entry ∷ []) ++ read_segment byte_count "1|17000"
read_segment-segment_text_example =
    read_segment-segment_text byte_count (first_entry ∷ []) "1|17000" (first_entry-Fits, tt)

-- A value of `n` bytes.
abbrev long_value : ℕ → String
long_value zero = String.[]
long_value (suc n) = String.◌∷◌ "x" (long_value n)

size-long_value : (n : ℕ) → size (long_value n) ≡ n
unfolding size
size-long_value zero = refl
size-long_value (suc n) = omega (arith, size-long_value n)

size_behind : (a b : String) (n : ℕ) → n ≤ size b → n ≤ size (a ⧺ b)
unfolding size ◌⧺◌
size_behind String.[] b n h = h
size_behind (String.◌∷◌ c a) b n h = omega (arith, size_behind a b n h)

size_after : (c : Char) (b : String) (n : ℕ) → n ≤ size b → n ≤ size (String.◌∷◌ c b)
unfolding size
size_after c b n h = omega arith

long_value-Free : (n : ℕ) → Free "\n" (long_value n)
long_value-Free zero = tt
long_value-Free (suc n) = (refl, long_value-Free n)

abbrev huge_entry : ℕ → Entry
huge_entry n = record { offset = pos 1; timestamp = pos 2; value = long_value n }

huge_entry-too_long : (n : ℕ) → 65536 ≤ n → too_long (line_text byte_count (huge_entry n)) ≡ true
unfolding too_long line_text
huge_entry-too_long n h = enough (
    size_behind (itoa (pos 1)) _ n (
      size_after "|" _ n (
        size_behind (itoa (pos 2)) _ n (
          size_after "|" _ n (
            size_behind (hex8 (size (long_value n))) _ n
              (size_after "|" _ n (omega (arith, size-long_value n))))))))
  where
    enough :
        n ≤ size (line_text byte_count (huge_entry n))
        → too_long (line_text byte_count (huge_entry n)) ≡ true
    enough k = ground arith

read_segment-too_long_example :
    read_segment byte_count (
      segment_text byte_count (first_entry ∷ [])
      ⧺ format_line byte_count (huge_entry 65536)
      ⧺ format_line byte_count first_entry)
    ≡ first_entry ∷ []
read_segment-too_long_example =
    read_segment-too_long byte_count (first_entry ∷ []) (huge_entry 65536)
      (format_line byte_count first_entry) (first_entry-Fits, tt) (long_value-Free 65536)
      (huge_entry-too_long 65536 (omega arith))

-- A segment with one whole line, and a line whose write was cut off.
abbrev cut_file : File
cut_file = record { content = segment_text byte_count (first_entry ∷ []) ⧺ "1|17000"; mod_time = 0 }

abbrev with_file : Storage
with_file = record two_records {
  world = record quiet_world { files = ("orders-2-segment-000001.log", cut_file) ∷ [] };
}

load_segment_lem_example :
    messages (load_segment byte_count with_file orders (pos 1) "orders-2-segment-000001.log") orders
    ≡ with_messages with_file orders
        (messages with_file orders
          ++ map message_of ((first_entry ∷ []) ++ read_segment byte_count "1|17000"))
        orders
unfolding Map.lookup
load_segment_lem_example =
    load_segment_lem byte_count with_file orders (pos 1) "orders-2-segment-000001.log" cut_file
      (first_entry ∷ []) "1|17000" orders refl refl (first_entry-Fits, tt)
