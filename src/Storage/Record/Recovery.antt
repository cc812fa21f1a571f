-- ===== src/Storage/Record/Recovery.antt =====
-- A whole segment: which records `loadSegment` reads from what the appends have written.
use Prim.Native.Char.{Char, code}
use mathlib.Core.List.{append-nil}
use distributed_real_time_ev.Base.{
  ℕ, eqb, IsInt64, true, false, String, string_comparable, List, [], ◌∷◌, ◌++◌, All, ◌≡◌, refl, ap,
  ◌∙◌, if◌then◌else◌,
}
use distributed_real_time_ev.Base.Text.{◌⧺◌, split, itoa}
use distributed_real_time_ev.Base.Text.Splitting.{Free, ⧺_assoc, split-⧺, split-cons}
use distributed_real_time_ev.Storage.Record.{
  Entry, hex8, drop_cr, too_long, tokens, scan_lines, line_text, format_line, parse_lines,
  read_segment,
}
use distributed_real_time_ev.Storage.Record.Lines.{parse-line_text, line_text-Free}

-- The scanner on a text whose first line is known.
scan_lines-⧺ :
    (line rest : String)
    → Free "\n" line
    → scan_lines (line ⧺ String.◌∷◌ "\n" rest)
      ≡ (if too_long line then [] else drop_cr line ∷ scan_lines rest)
unfolding scan_lines tokens
scan_lines-⧺ line rest h = ap tokens (split-⧺ "\n" line rest h) ∙ first (split-cons "\n" rest)
  where
    first :
        (y : String) × (r : List String) × (split "\n" rest ≡ y ∷ r)
        → tokens (line ∷ split "\n" rest)
          ≡ (if too_long line then [] else drop_cr line ∷ tokens (split "\n" rest))
    first (y, r, e) = rw e refl

drop_cr-⧺ :
    (a v : String) (c : Char)
    → eqb (code c) 13 ≡ false
    → drop_cr v ≡ v
    → drop_cr (a ⧺ String.◌∷◌ c v) ≡ a ⧺ String.◌∷◌ c v
unfolding drop_cr ◌⧺◌
drop_cr-⧺ String.[] String.[] c h k = rw h refl
drop_cr-⧺ String.[] (String.◌∷◌ d v) c h k = ap (λ s. String.◌∷◌ c s) k
drop_cr-⧺ (String.◌∷◌ x String.[]) v c h k = ap (λ s. String.◌∷◌ x s) (drop_cr-⧺ String.[] v c h k)
drop_cr-⧺ (String.◌∷◌ x (String.◌∷◌ y a)) v c h k =
    ap (λ s. String.◌∷◌ x s) (drop_cr-⧺ (String.◌∷◌ y a) v c h k)

module _ (checksum : String → ℕ) where
  -- What appending the lines of `entries` to an empty file gives.
  unfoldable pub segment_text : List Entry → String
  segment_text [] = String.[]
  segment_text (e ∷ entries) = format_line checksum e ⧺ segment_text entries

  -- A record that survives: its numbers fit 64 bits, its value has no newline and does not end in a
  -- carriage return, and its line is shorter than the scanner's buffer.
  pub record Fits (e : Entry) : Type 0 where
    pub offset : IsInt64 e.offset
    pub timestamp : IsInt64 e.timestamp
    pub one_line : Free "\n" e.value
    pub no_return : drop_cr e.value ≡ e.value
    pub short : too_long (line_text checksum e) ≡ false

  line_text-drop_cr :
      (e : Entry)
      → drop_cr e.value ≡ e.value
      → drop_cr (line_text checksum e) ≡ line_text checksum e
  unfolding line_text
  line_text-drop_cr e h = drop_cr-⧺ (itoa e.offset) _ "|" refl (
      drop_cr-⧺ (itoa e.timestamp) _ "|" refl
        (drop_cr-⧺ (hex8 (checksum e.value)) e.value "|" refl h))

  scan-Fits :
      (e : Entry) (rest : String)
      → Fits e
      → scan_lines (line_text checksum e ⧺ String.◌∷◌ "\n" rest)
        ≡ line_text checksum e ∷ scan_lines rest
  scan-Fits e rest f =
      scan_lines-⧺ (line_text checksum e) rest (line_text-Free checksum e f.one_line)
      ∙ rw (f.short, line_text-drop_cr e f.no_return) refl

  scan-too_long :
      (e : Entry) (rest : String)
      → Free "\n" e.value
      → too_long (line_text checksum e) ≡ true
      → scan_lines (line_text checksum e ⧺ String.◌∷◌ "\n" rest) ≡ []
  scan-too_long e rest h l =
      scan_lines-⧺ (line_text checksum e) rest (line_text-Free checksum e h) ∙ rw l refl

  parse_lines-cons :
      (e : Entry) (lines : List String)
      → Fits e
      → parse_lines checksum (line_text checksum e ∷ lines) ≡ e ∷ parse_lines checksum lines
  unfolding parse_lines
  parse_lines-cons e lines f =
      rw (parse_lines, parse-line_text checksum e f.offset f.timestamp) refl

  format_line-⧺ :
      (e : Entry) (rest : String)
      → format_line checksum e ⧺ rest ≡ line_text checksum e ⧺ String.◌∷◌ "\n" rest
  unfolding format_line ◌⧺◌
  format_line-⧺ e rest = ⧺_assoc (line_text checksum e) (String.◌∷◌ "\n" String.[]) rest

  read_line :
      (e : Entry) (rest : String)
      → Fits e
      → read_segment checksum (format_line checksum e ⧺ rest) ≡ e ∷ read_segment checksum rest
  unfolding read_segment
  read_line e rest f =
      ap (λ s. parse_lines checksum (scan_lines s)) (format_line-⧺ e rest)
      ∙ ap (parse_lines checksum) (scan-Fits e rest f)
      ∙ parse_lines-cons e (scan_lines rest) f

  -- Reading a segment file back. Whatever stands behind the lines of `entries` in the file, such as
  -- the beginning of a line whose write was cut off, all of `entries` are read first, unchanged and in
  -- order, and then what stands behind them is read, if each of `entries` has a value of one line that
  -- does not end in a carriage return, numbers of 64 bits, and a line below 65536 bytes.
  pub read_segment-segment_text :
      (entries : List Entry) (rest : String)
      → All Fits entries
      → read_segment checksum (segment_text entries ⧺ rest) ≡ entries ++ read_segment checksum rest
  unfolding segment_text ◌⧺◌
  read_segment-segment_text [] rest h = refl
  read_segment-segment_text (e ∷ entries) rest h =
      ap (read_segment checksum) (⧺_assoc (format_line checksum e) (segment_text entries) rest)
      ∙ read_line e (segment_text entries ⧺ rest) h.0
      ∙ ap (λ l. e ∷ l) (read_segment-segment_text entries rest h.1)

  -- One record whose line has 65536 bytes or more ends the reading of its segment: it is lost, and so
  -- is every record behind it in the file.
  pub read_segment-too_long :
      (entries : List Entry) (big : Entry) (rest : String)
      → All Fits entries
      → Free "\n" big.value
      → too_long (line_text checksum big) ≡ true
      → read_segment checksum (segment_text entries ⧺ format_line checksum big ⧺ rest) ≡ entries
  read_segment-too_long entries big rest h k l =
      read_segment-segment_text entries (format_line checksum big ⧺ rest) h
      ∙ ap (λ r. entries ++ r) stops
      ∙ append-nil entries
    where
      stops : read_segment checksum (format_line checksum big ⧺ rest) ≡ []
      stops =
          unfold read_segment parse_lines in
          (ap (λ s. parse_lines checksum (scan_lines s)) (format_line-⧺ big rest)
            ∙ ap (parse_lines checksum) (scan-too_long big rest k l))
