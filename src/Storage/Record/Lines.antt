-- ===== src/Storage/Record/Lines.antt =====
-- One line: what `parseLogLine` reads in the text of a record.
use Prim.Native.Char.{Char, code}
use distributed_real_time_ev.Base.{
  ℕ, zero, suc, ◌/◌, ◌%◌, eqb, ℤ, IsInt64, true, false, String, some, [], ◌∷◌, ◌≡◌, refl, ap, ◌∙◌,
  arith,
}
use distributed_real_time_ev.Base.Text.{split_n, itoa}
use distributed_real_time_ev.Base.Text.Splitting.{Free, split_n-⧺, ⧺-Free}
use distributed_real_time_ev.Base.Text.Numbers.{itoa-Free, atoi-itoa}
use distributed_real_time_ev.Storage.Record.{
  Entry, hex_digit, hex, hex8, fold, equal_fold, line_text, checked, four_parts, parse_log_line,
}

-- No hexadecimal digit is a bar or a newline.
abbrev Plain : Char → Type 0
Plain c = (eqb (code c) b'|' ≡ false) × (eqb (code c) 10 ≡ false)

hex_digit-Plain : (d : ℕ) → Plain (hex_digit d)
unfolding hex_digit
hex_digit-Plain zero = (refl, refl)
hex_digit-Plain (suc zero) = (refl, refl)
hex_digit-Plain (suc (suc zero)) = (refl, refl)
hex_digit-Plain (suc (suc (suc zero))) = (refl, refl)
hex_digit-Plain (suc (suc (suc (suc zero)))) = (refl, refl)
hex_digit-Plain (suc (suc (suc (suc (suc zero))))) = (refl, refl)
hex_digit-Plain (suc (suc (suc (suc (suc (suc zero)))))) = (refl, refl)
hex_digit-Plain (suc (suc (suc (suc (suc (suc (suc zero))))))) = (refl, refl)
hex_digit-Plain (suc (suc (suc (suc (suc (suc (suc (suc zero)))))))) = (refl, refl)
hex_digit-Plain (suc (suc (suc (suc (suc (suc (suc (suc (suc zero))))))))) = (refl, refl)
hex_digit-Plain (suc (suc (suc (suc (suc (suc (suc (suc (suc (suc zero)))))))))) = (refl, refl)
hex_digit-Plain (suc (suc (suc (suc (suc (suc (suc (suc (suc (suc (suc zero))))))))))) =
    (refl, refl)
hex_digit-Plain (suc (suc (suc (suc (suc (suc (suc (suc (suc (suc (suc (suc zero)))))))))))) =
    (refl, refl)
hex_digit-Plain (suc (suc (suc (suc (suc (suc (suc (suc (suc (suc (suc (suc (suc zero))))))))))))) =
    (refl, refl)
hex_digit-Plain
      (suc (suc (suc (suc (suc (suc (suc (suc (suc (suc (suc (suc (suc (suc zero)))))))))))))) =
    (refl, refl)
hex_digit-Plain _ = (refl, refl)

hex-Free : (k n : ℕ) (rest : String) → Free "|" rest → Free "|" (hex k n rest)
unfolding hex
hex-Free zero n rest h = h
hex-Free (suc k) n rest h =
    hex-Free k (n / 16) (String.◌∷◌ (hex_digit (n % 16)) rest) ((hex_digit-Plain (n % 16)).0, h)

hex8-Free : (n : ℕ) → Free "|" (hex8 n)
unfolding hex8
hex8-Free n = hex-Free 8 n String.[] tt

hex-Free_newline : (k n : ℕ) (rest : String) → Free "\n" rest → Free "\n" (hex k n rest)
unfolding hex
hex-Free_newline zero n rest h = h
hex-Free_newline (suc k) n rest h =
    hex-Free_newline k (n / 16) (String.◌∷◌ (hex_digit (n % 16)) rest)
      ((hex_digit-Plain (n % 16)).1, h)

equal_fold_refl : (s : String) → equal_fold s s ≡ true
unfolding equal_fold
equal_fold_refl String.[] = refl
equal_fold_refl (String.◌∷◌ c s) = rw (same (fold (code c)), equal_fold_refl s) refl
  where
    same : (n : ℕ) → eqb n n ≡ true
    same n = ground arith

itoa-Free_bar : (z : ℤ) → Free "|" (itoa z)
itoa-Free_bar z = itoa-Free "|" z (λ d h. ground arith) refl

itoa-Free_newline : (z : ℤ) → Free "\n" (itoa z)
itoa-Free_newline z = itoa-Free "\n" z (λ d h. ground arith) refl

module _ (checksum : String → ℕ) where
  split-line_text :
      (e : Entry)
      → split_n 3 "|" (line_text checksum e)
        ≡ itoa e.offset ∷ itoa e.timestamp ∷ hex8 (checksum e.value) ∷ e.value ∷ []
  unfolding line_text
  split-line_text e =
      split_n-⧺ 2 "|" (itoa e.offset) _ (itoa-Free_bar e.offset)
      ∙ ap (λ l. itoa e.offset ∷ l)
          (split_n-⧺ 1 "|" (itoa e.timestamp) _ (itoa-Free_bar e.timestamp)
            ∙ ap (λ l. itoa e.timestamp ∷ l)
                (split_n-⧺ 0 "|" (hex8 (checksum e.value)) e.value (hex8-Free (checksum e.value))))
      ∙ (unfold split_n in refl)

  -- A record's line parses to the record, whatever its value is, bars included.
  pub parse-line_text :
      (e : Entry)
      → IsInt64 e.offset
      → IsInt64 e.timestamp
      → parse_log_line checksum (line_text checksum e) ≡ some e
  unfolding parse_log_line four_parts checked
  parse-line_text e h k =
      ap (four_parts checksum) (split-line_text e)
      ∙ rw
          (
            checked,
            atoi-itoa e.offset h,
            atoi-itoa e.timestamp k,
            equal_fold_refl (hex8 (checksum e.value)),
          )
          refl

  -- Such a line has a newline only if the value has one.
  pub line_text-Free : (e : Entry) → Free "\n" e.value → Free "\n" (line_text checksum e)
  unfolding line_text hex8
  line_text-Free e h = ⧺-Free "\n" (itoa e.offset) _ (itoa-Free_newline e.offset) (
    refl,
    ⧺-Free "\n" (itoa e.timestamp) _ (itoa-Free_newline e.timestamp) (
      refl,
      ⧺-Free "\n" (hex 8 (checksum e.value) String.[]) _
          (hex-Free_newline 8 (checksum e.value) String.[] tt) (refl, h),
    ),
  )
