-- ===== src/Replication/TcpTransport.antt =====
-- core/internal/replication/tcp_transport.go: what the follower reads in the leader's responses, and
-- the records of a fetch as core/internal/network/handler.go prints them. The connection is a parameter.
pub mod Responses
pub mod Records
pub mod Fields
pub mod Client
mod Examples
use Prim.Native.Char.{Char}
use distributed_real_time_ev.Base.{
  ℕ, zero, suc, ◌+◌, ◌-◌, ℤ, pos, leb_ℤ, leb, Bool, true, false, not, ◌==◌, String,
  string_comparable, Option, none, some, List, [], ◌∷◌, length, map, if◌then◌else◌,
}
use distributed_real_time_ev.Base.Text.{◌⧺◌, split, split_n, join, itoa, atoi, trim_space, is_empty}
use distributed_real_time_ev.Storage.Record.{Message}
use distributed_real_time_ev.Storage.Names.{strip_prefix}
use distributed_real_time_ev.Replication.Worker.{
  ReplicationRecord, FetchResult, Fetched, received, failed,
}

-- A result, or the text of an error.
pub data Payload : Type 0 where
  payload : String → Payload
  refused : String → Payload

-- An error response from its code on: the part after the code may be missing, or be cut.
refusal : List String → String
refusal [] = "UNKNOWN_ERROR: unknown error"
refusal (code ∷ []) = code ⧺ ": unknown error"
refusal (code ∷ m ∷ rest) = code ⧺ ": " ⧺ join "|" (m ∷ rest)

-- The status of a response, and the parts behind it.
status_part : String → List String → Payload
unfolding refusal
status_part status rest =
    if status == "ERR"
    then refused (refusal rest)
    else if not (status == "OK")
    then refused ("unknown response status: " ⧺ status)
    else payload (join "|" rest)

response_parts : List String → Payload
unfolding status_part
response_parts (version ∷ correlation ∷ status ∷ rest) = status_part status rest
response_parts _ = refused "invalid response line"

unfoldable pub parse_ok_payload : String → Payload
unfolding response_parts
parse_ok_payload line = response_parts (split "|" line)

-- The text behind the first `token`: strings.Index.
unfoldable pub behind : String → String → Option String
behind token String.[] = strip_prefix token String.[]
behind token (String.◌∷◌ c s) =
    let later = behind token s in
    elim (strip_prefix token (String.◌∷◌ c s)) [ none ↦ later | some rest ↦ some rest ]

-- The part before the first space.
first_part : List String → String
first_part [] = String.[]
first_part (x ∷ xs) = x

unfoldable pub extract_string_field : String → String → String
unfolding first_part
extract_string_field text key = elim (behind (key ⧺ "=") text) [
  | none ↦ String.[]
  | some rest ↦ first_part (split " " rest)
]

-- `none` is the error, of a missing field or of strconv.Atoi.
unfoldable pub extract_int_field : String → String → Option ℤ
extract_int_field text key =
    let raw = extract_string_field text key in if is_empty raw then none else atoi raw

-- One item of the loop of `Fetch`, which is not empty; `none` is an error.
parse_pair : List String → Option ReplicationRecord
parse_pair (number ∷ value ∷ []) = elim (atoi number) [
  | none ↦ none
  | some offset ↦ some (record { offset = offset; value = value })
]
parse_pair _ = none

unfoldable pub parse_item : String → Option ReplicationRecord
unfolding parse_pair
parse_item item = parse_pair (split_n 1 ":" item)

-- The loop of `Fetch`.
unfoldable pub parse_items : List String → Option (List ReplicationRecord)
parse_items [] = some []
parse_items (item ∷ rest) =
    let others = parse_items rest in
    if is_empty item then others else (elim (parse_item item) [
      | none ↦ none
      | some r ↦ elim others [ none ↦ none | some rs ↦ some (r ∷ rs) ]
    ])

unfoldable pub parse_records : String → Option (List ReplicationRecord)
parse_records field = if is_empty field then some [] else parse_items (split "," field)

-- The part of `Fetch` behind parseOKPayload.
unfoldable pub parse_fetch : String → Option FetchResult
parse_fetch text = elim (extract_int_field text "hw") [
  | none ↦ none
  | some hw ↦ elim (parse_records (extract_string_field text "records")) [
    | none ↦ none
    | some records ↦ some (record { high_watermark = hw; records = records })
  ]
]

-- The items that the leader prints: fmt.Sprintf("%d:%s", ...), at most as many as asked for.
unfoldable pub record_text : ReplicationRecord → String
record_text r = itoa r.offset ⧺ String.◌∷◌ ":" r.value

unfoldable pub records_text : List ReplicationRecord → String
records_text rs = join "," (map record_text rs)
