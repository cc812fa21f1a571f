-- ===== src/Storage/Record.antt =====
-- core/internal/storage/storage.go: the text of a record in a segment file, and how a segment is read
-- back. The checksum is a parameter: crc32.ChecksumIEEE of Go's package hash/crc32.
pub mod Lines
pub mod Recovery
use Prim.Native.Char.{Char, code, len_utf8}
use distributed_real_time_ev.Base.{
  ℕ, zero, suc, ◌+◌, ◌-◌, ◌/◌, ◌%◌, leb, eqb, ℤ, Bool, true, false, not, ◌&&◌, ◌==◌, String,
  string_comparable, Option, none, some, List, [], ◌∷◌, if◌then◌else◌,
}
use distributed_real_time_ev.Base.Text.{◌⧺◌, split_n, split, itoa, atoi}

-- types.Message
pub record Message : Type 0 where
  pub offset : ℤ
  pub value : String

-- What a line of a segment says.
pub record Entry : Type 0 where
  pub offset : ℤ
  pub timestamp : ℤ
  pub value : String

hex_digit : ℕ → Char
hex_digit zero = "0"
hex_digit (suc zero) = "1"
hex_digit (suc (suc zero)) = "2"
hex_digit (suc (suc (suc zero))) = "3"
hex_digit (suc (suc (suc (suc zero)))) = "4"
hex_digit (suc (suc (suc (suc (suc zero))))) = "5"
hex_digit (suc (suc (suc (suc (suc (suc zero)))))) = "6"
hex_digit (suc (suc (suc (suc (suc (suc (suc zero))))))) = "7"
hex_digit (suc (suc (suc (suc (suc (suc (suc (suc zero)))))))) = "8"
hex_digit (suc (suc (suc (suc (suc (suc (suc (suc (suc zero))))))))) = "9"
hex_digit (suc (suc (suc (suc (suc (suc (suc (suc (suc (suc zero)))))))))) = "a"
hex_digit (suc (suc (suc (suc (suc (suc (suc (suc (suc (suc (suc zero))))))))))) = "b"
hex_digit (suc (suc (suc (suc (suc (suc (suc (suc (suc (suc (suc (suc zero)))))))))))) = "c"
hex_digit (suc (suc (suc (suc (suc (suc (suc (suc (suc (suc (suc (suc (suc zero))))))))))))) = "d"
hex_digit (suc (suc (suc (suc (suc (suc (suc (suc (suc (suc (suc (suc (suc (suc zero)))))))))))))) =
    "e"
hex_digit _ = "f"

-- The last `k` hexadecimal digits of `n`, before `rest`.
unfoldable pub hex : ℕ → ℕ → String → String
unfolding hex_digit
hex zero n rest = rest
hex (suc k) n rest = hex k (n / 16) (String.◌∷◌ (hex_digit (n % 16)) rest)

-- %08x of a uint32
unfoldable pub hex8 : ℕ → String
hex8 n = hex 8 n String.[]

-- The letters of hexadecimal digits fold as ASCII does.
fold : ℕ → ℕ
fold c = if leb 65 c && leb c 90 then c + 32 else c

-- strings.EqualFold against a text of hexadecimal digits
unfoldable pub equal_fold : String → String → Bool
unfolding fold
equal_fold String.[] String.[] = true
equal_fold String.[] (String.◌∷◌ d t) = false
equal_fold (String.◌∷◌ c s) String.[] = false
equal_fold (String.◌∷◌ c s) (String.◌∷◌ d t) = eqb (fold (code c)) (fold (code d)) && equal_fold s t

-- The bytes of a text in UTF-8.
unfoldable pub size : String → ℕ
size String.[] = 0
size (String.◌∷◌ c s) = len_utf8 c + size s

-- bufio.ScanLines cuts one carriage return off the end of a line.
unfoldable pub drop_cr : String → String
drop_cr String.[] = String.[]
drop_cr (String.◌∷◌ c String.[]) = if eqb (code c) 13 then String.[] else String.◌∷◌ c String.[]
drop_cr (String.◌∷◌ c (String.◌∷◌ d s)) = String.◌∷◌ c (drop_cr (String.◌∷◌ d s))

-- bufio.MaxScanTokenSize: a scanner stops at a line that fills its buffer.
unfoldable pub too_long : String → Bool
too_long line = leb 65536 (size line)

-- The tokens of a scanner, from the parts of a file between its newlines.
unfoldable pub tokens : List String → List String
tokens [] = []
tokens (x ∷ []) = if x == String.[] then [] else if too_long x then [] else drop_cr x ∷ []
tokens (x ∷ y ∷ rest) = let more = tokens (y ∷ rest) in if too_long x then [] else drop_cr x ∷ more

unfoldable pub scan_lines : String → List String
scan_lines content = tokens (split "\n" content)

module _ (checksum : String → ℕ) where
  -- fmt.Sprintf("%d|%d|%08x|%s", ...), without the newline at its end
  unfoldable pub line_text : Entry → String
  line_text e =
      itoa e.offset
      ⧺ String.◌∷◌ "|"
          (itoa e.timestamp ⧺ String.◌∷◌ "|" (hex8 (checksum e.value) ⧺ String.◌∷◌ "|" e.value))

  unfoldable pub format_line : Entry → String
  format_line e = line_text e ⧺ String.◌∷◌ "\n" String.[]

  -- The numbers of a line whose checksum fits.
  checked : String → String → String → String → Option Entry
  checked a b provided value = elim (atoi a) [
    | none ↦ none
    | some offset ↦ elim (atoi b) [
      | none ↦ none
      | some timestamp ↦
          if equal_fold (hex8 (checksum value)) provided
          then some (record { offset = offset; timestamp = timestamp; value = value })
          else none
    ]
  ]

  four_parts : List String → Option Entry
  unfolding checked
  four_parts (a ∷ b ∷ c ∷ d ∷ []) = checked a b c d
  four_parts _ = none

  unfoldable pub parse_log_line : String → Option Entry
  unfolding four_parts
  parse_log_line line = four_parts (split_n 3 "|" line)

  -- The entries of the lines that parse; the loop of `loadSegment` skips the others.
  unfoldable pub parse_lines : List String → List Entry
  parse_lines [] = []
  parse_lines (line ∷ rest) = elim (parse_log_line line) [
    | none ↦ parse_lines rest
    | some e ↦ e ∷ parse_lines rest
  ]

  unfoldable pub read_segment : String → List Entry
  read_segment content = parse_lines (scan_lines content)
