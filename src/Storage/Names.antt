-- ===== src/Storage/Names.antt =====
-- core/internal/storage/storage.go: the names of the files, within the data directory, and what
-- `parseSegmentFileName` reads in them.
use Prim.Native.Char.{Char, code}
use distributed_real_time_ev.Base.{
  ℕ, zero, suc, ◌-◌, eqb, ℤ, pos, negsuc, ◌==◌, String, string_comparable, Option, none, some, List,
  [], ◌∷◌, ◌≡◌, refl, if◌then◌else◌,
}
use distributed_real_time_ev.Base.Text.{◌⧺◌, digits, itoa, read_digits, atoi}
use distributed_real_time_ev.Storage.Record.{size}

zeros : ℕ → String → String
zeros zero s = s
zeros (suc n) s = String.◌∷◌ "0" (zeros n s)

pad : ℕ → String → String
unfolding zeros
pad width s = zeros (width - size s) s

-- %06d
unfoldable pub pad6 : ℤ → String
unfolding pad
pad6 (pos n) = pad 6 (itoa (pos n))
pad6 (negsuc n) = String.◌∷◌ "-" (pad 5 (itoa (pos (suc n))))

unfoldable pub segment_path : String → ℤ → ℤ → String
segment_path topic partition segment =
    topic ⧺ "-" ⧺ itoa partition ⧺ "-segment-" ⧺ pad6 segment ⧺ ".log"

unfoldable pub replica_segment_path : String → ℤ → ℤ → ℤ → String
replica_segment_path topic partition replica segment =
    topic ⧺ "-" ⧺ itoa partition ⧺ "-replica-" ⧺ itoa replica ⧺ "-segment-" ⧺ pad6 segment ⧺ ".log"

unfoldable pub offset_index_path : String → ℤ → String
offset_index_path topic partition = topic ⧺ "-" ⧺ itoa partition ⧺ "-offset.idx"

unfoldable pub timestamp_index_path : String → ℤ → String
timestamp_index_path topic partition = topic ⧺ "-" ⧺ itoa partition ⧺ "-time.idx"

-- The rest of a text behind a prefix.
unfoldable pub strip_prefix : String → String → Option String
strip_prefix String.[] s = some s
strip_prefix (String.◌∷◌ c p) String.[] = none
strip_prefix (String.◌∷◌ c p) (String.◌∷◌ d s) =
    if eqb (code c) (code d) then strip_prefix p s else none

-- strings.HasSuffix and strings.TrimSuffix: the text before the suffix.
strip_suffix : String → String → Option String
strip_suffix suffix String.[] = if String.[] == suffix then some String.[] else none
strip_suffix suffix (String.◌∷◌ c s) =
    let rest : Option String = elim (strip_suffix suffix s) [
      | none ↦ none
      | some t ↦ some (String.◌∷◌ c t)
    ] in
    if String.◌∷◌ c s == suffix then some String.[] else rest

-- The parts around a separator of several characters; `skip` counts those of it still to pass.
parts : String → ℕ → String → List String
unfolding strip_prefix
parts sep skip String.[] = String.[] ∷ []
parts sep (suc skip) (String.◌∷◌ c s) = parts sep skip s
parts sep zero (String.◌∷◌ c s) =
    let found = String.[] ∷ parts sep (size sep - 1) s in
    let later : List String = elim (parts sep zero s) [
      | [] ↦ String.◌∷◌ c String.[] ∷ []
      | x ∷ xs ↦ String.◌∷◌ c x ∷ xs
    ] in
    elim (strip_prefix sep (String.◌∷◌ c s)) [ none ↦ later | some t ↦ found ]

-- The text before and after the last `sep`: strings.LastIndex.
unfoldable pub cut_last : Char → String → Option (String × String)
cut_last sep String.[] = none
cut_last sep (String.◌∷◌ c s) = elim (cut_last sep s) [
  | some (a, b) ↦ some (String.◌∷◌ c a, b)
  | none ↦ if eqb (code c) (code sep) then some (String.[], s) else none
]

pub record SegmentName : Type 0 where
  pub topic : String
  pub partition : ℤ
  pub segment : ℤ

-- The name before the last dash is the topic, which is not empty.
owner : String → ℤ → Option SegmentName
owner left segment = elim (cut_last "-" left) [
  | none ↦ none
  | some (topic, number) ↦ if topic == String.[] then none else (elim (atoi number) [
    | none ↦ none
    | some partition ↦ some (record { topic = topic; partition = partition; segment = segment })
  ])
]

two_parts : List String → Option SegmentName
unfolding owner
two_parts (left ∷ number ∷ []) = elim (atoi number) [
  | none ↦ none
  | some segment ↦ owner left segment
]
two_parts _ = none

unfoldable pub parse_segment_file_name : String → Option SegmentName
unfolding strip_suffix parts two_parts
parse_segment_file_name filename = elim (strip_suffix ".log" filename) [
  | none ↦ none
  | some base ↦ two_parts (parts "-segment-" 0 base)
]

own_name :
    parse_segment_file_name (segment_path "t-1" (pos 2) (pos 13))
    ≡ some (record { topic = "t-1"; partition = pos 2; segment = pos 13 })
unfolding parse_segment_file_name segment_path pad6 itoa digits size atoi read_digits ◌⧺◌ cut_last
own_name = refl

-- A replica file is taken for a segment of another topic.
replica_name :
    parse_segment_file_name (replica_segment_path "t" (pos 0) (pos 1) (pos 13))
    ≡ some (record { topic = "t-0-replica"; partition = pos 1; segment = pos 13 })
unfolding parse_segment_file_name replica_segment_path pad6 itoa digits size atoi read_digits ◌⧺◌
    cut_last
replica_name = refl
