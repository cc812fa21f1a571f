-- ===== src/Protocol/Parsing.antt =====
-- `ParseRequest` on a line that is put together from its parts.
use Prim.Native.Char.{Char}
use distributed_real_time_ev.Base.{
  false, not, String, string_comparable, List, [], ◌∷◌, filterb, All, ◌≡◌, refl, ap, ◌∙◌,
}
use distributed_real_time_ev.Base.Text.{◌⧺◌, split_n, is_space, is_empty, trim_right, trim_space}
use distributed_real_time_ev.Base.Text.Splitting.{Free, split_n-⧺}
use distributed_real_time_ev.Base.Text.Words.{Solid, trim_space-Solid}
use distributed_real_time_ev.Replication.TcpTransport.Responses.{line_of, trim-line_of}
use distributed_real_time_ev.Protocol.{
  request, words, fields, map_text, checked_request, four_parts, parse_request,
}

-- Words of which none is empty, with one space between two of them.
abbrev pub sentence : String → List String → String
sentence w [] = w
sentence w (x ∷ xs) = w ⧺ String.◌∷◌ " " (sentence x xs)

abbrev pub Word : String → Type 0
Word w = Solid w × (is_empty w ≡ false)

words-⧺ : (w s : String) → Solid w → words (w ⧺ String.◌∷◌ " " s) ≡ w ∷ words s
unfolding words ◌⧺◌ is_space
words-⧺ String.[] s h = refl
words-⧺ (String.◌∷◌ c w) s h = rw (words, h.0, words-⧺ w s h.1) refl

words-Solid : (w : String) → Solid w → words w ≡ w ∷ []
unfolding words
words-Solid String.[] h = refl
words-Solid (String.◌∷◌ c w) h = rw (words, h.0, words-Solid w h.1) refl

words-sentence :
    (w : String) (ws : List String) → All Word (w ∷ ws) → words (sentence w ws) ≡ w ∷ ws
words-sentence w [] h = words-Solid w h.0.0
words-sentence w (x ∷ xs) h =
    words-⧺ w (sentence x xs) h.0.0 ∙ ap (λ l. w ∷ l) (words-sentence x xs h.1)

kept_words : (ws : List String) → All Word ws → filterb (λ w. not (is_empty w)) ws ≡ ws
kept_words [] h = refl
kept_words (w ∷ ws) h = rw (h.0.1, kept_words ws h.1) refl

pub fields-sentence :
    (w : String) (ws : List String) → All Word (w ∷ ws) → fields (sentence w ws) ≡ w ∷ ws
unfolding fields
fields-sentence w ws h = rw (words-sentence w ws h) (kept_words (w ∷ ws) h)

module _ (upper : Char → Char) (correlation command args : String) (solid : Word correlation)
    (plain : Free "|" correlation) (name : Word command) (unsplit : Free "|" command)
    (upper_case : map_text upper command ≡ command) (trimmed : trim_space args ≡ args)
    (some_args : is_empty args ≡ false) where
  split-line :
      split_n 3 "|" (line_of correlation command args) ≡ "V1" ∷ correlation ∷ command ∷ args ∷ []
  unfolding split_n
  split-line =
      split_n-⧺ 2 "|" "V1" _ (refl, (refl, tt))
      ∙ ap (λ l. "V1" ∷ l)
          (split_n-⧺ 1 "|" correlation _ plain
            ∙ ap (λ l. correlation ∷ l) (split_n-⧺ 0 "|" command args unsplit))

  pub parse-line :
      trim_right args ≡ args
      → parse_request upper (line_of correlation command (args ⧺ "\n"))
        ≡ request (record {
          version = "V1";
          correlation_id = correlation;
          command = command;
          args = fields args;
        })
  unfolding parse_request four_parts checked_request is_space
  parse-line right =
      rw
        (
          parse_request,
          line,
          trim_space-Solid "V1" (refl, (refl, tt)),
          trim_space-Solid correlation solid.0,
          trim_space-Solid command name.0,
          upper_case,
          trimmed,
          solid.1,
          name.1,
          some_args,
        )
        refl
    where
      line :
          split_n 3 "|" (trim_space (line_of correlation command (args ⧺ "\n")))
          ≡ "V1" ∷ correlation ∷ command ∷ args ∷ []
      line =
          ap (split_n 3 "|")
            (trim-line_of correlation command args ∙ ap (line_of correlation command) right)
          ∙ split-line
