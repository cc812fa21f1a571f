-- ===== src/Network/Arguments.antt =====
-- core/internal/network/handler.go: what the handlers share, the reading of arguments and the printing
-- of values. `lower` stands for Go's unicode.ToLower, which strings.ToLower applies to every character.
use Prim.Native.Char.{Char}
use distributed_real_time_ev.Base.{
  ℤ, pos, Bool, true, false, ◌==◌, String, string_comparable, Option, none, some, List, [], ◌∷◌,
  map, if◌then◌else◌,
}
use distributed_real_time_ev.Base.Text.{◌⧺◌, split, split_n, join, itoa, atoi, trim_space, is_empty}
use distributed_real_time_ev.Protocol.{parse_int, map_text}
use distributed_real_time_ev.ControlPlane.Store.{ApplyResult}
use distributed_real_time_ev.ControlPlane.Metadata.{TopicMetadata}
use distributed_real_time_ev.Broker.{Action, ◌>>=◌, or_raise, raise_result}
use distributed_real_time_ev.Broker.Topics.{ensure_topic_metadata}

-- protocol.ParseInt, with the answer to its error.
unfoldable pub int_arg : String → String → Action ℤ
int_arg value field = or_raise (parse_int value) "BAD_REQUEST" ("invalid " ⧺ field)

-- b.EnsureTopicMetadata, with the answer to its error.
unfoldable pub topic_arg : String → Action TopicMetadata
topic_arg topic = do result ← ensure_topic_metadata topic; raise_result result

-- The two parts of strings.SplitN(s, sep, 2).
abbrev pub two_parts : List String → Option (String × String)
two_parts (a ∷ b ∷ []) = some (a, b)
two_parts _ = none

-- The value of an option `name=value`, if it is one of those allowed.
abbrev pub allowed : List String → String → Option String
allowed [] value = none
allowed (v ∷ vs) value = if value == v then some value else allowed vs value

abbrev pub named : (Char → Char) → String → List String → Option (String × String) → Option String
named lower name values none = none
named lower name values (some (key, value)) =
    if map_text lower key == name then allowed values (map_text lower value) else none

abbrev pub option_arg : (Char → Char) → String → List String → String → Option String
option_arg lower name values arg = named lower name values (two_parts (split_n 1 "=" arg))

-- %v of a slice
unfoldable pub listed : List String → String
listed items = "[" ⧺ join " " items ⧺ "]"

unfoldable pub ints : List ℤ → String
ints items = listed (map itoa items)

-- %t
abbrev pub truth : Bool → String
truth true = "true"
truth false = "false"

-- term=%d index=%d
abbrev pub applied_at : ApplyResult → String
applied_at r = " term=" ⧺ itoa (pos r.term) ⧺ " index=" ⧺ itoa (pos r.index)

-- The loop of `parseCSVInts`; `none` is its error.
unfoldable pub parse_ints : List String → Option (List ℤ)
parse_ints [] = some []
parse_ints (part ∷ rest) =
    let others = parse_ints rest in
    if is_empty (trim_space part) then others else (elim (atoi (trim_space part)) [
      | none ↦ none
      | some n ↦ elim others [ none ↦ none | some ns ↦ some (n ∷ ns) ]
    ])

unfoldable pub parse_csv_ints : String → Option (List ℤ)
parse_csv_ints raw = parse_ints (split "," raw)
