-- ===== src/Replication/TcpTransport/Responses.antt =====
-- The responses of core/internal/protocol/protocol.go, read by the follower.
use Prim.Native.Char.{Char, code}
use text.Mathlib.TextEquality.{Char-path}
use distributed_real_time_ev.Base.{
  eqb, Bool, true, false, ◌&&◌, String, List, [], ◌∷◌, ◌≡◌, refl, sym, ap, ◌∙◌, ◌⊎◌, inl, inr,
  arith, Bool-cases, if◌then◌else◌,
}
use distributed_real_time_ev.Base.Text.{
  ◌⧺◌, split, join, is_space, is_empty, trim_left, trim_right, trim_space,
}
use distributed_real_time_ev.Base.Text.Splitting.{Free, ⧺_assoc, split-⧺, split-cons}
use distributed_real_time_ev.Replication.TcpTransport.Records.{not_empty}
use distributed_real_time_ev.Protocol.{ok, err}
use distributed_real_time_ev.Replication.TcpTransport.{
  payload, refused, refusal, status_part, response_parts, parse_ok_payload,
}

join-grown :
    (sep c : Char) (x : String) (xs : List String)
    → join sep (String.◌∷◌ c x ∷ xs) ≡ String.◌∷◌ c (join sep (x ∷ xs))
unfolding join ◌⧺◌
join-grown sep c x [] = refl
join-grown sep c x (y ∷ ys) = refl

same_char : (c d : Char) → eqb (code c) (code d) ≡ true → c ≡ d
same_char c d h = Char-path c d (ground arith)

-- Joining all the parts of a text gives the text.
join-split : (sep : Char) (s : String) → join sep (split sep s) ≡ s
unfolding split join ◌⧺◌
join-split sep String.[] = refl
join-split sep (String.◌∷◌ c s) =
    step (join-split sep s) (split-cons sep s) (Bool-cases (eqb (code c) (code sep)))
  where
    rest :
        (x : String) (xs : List String)
        → join sep (split sep s) ≡ s
        → split sep s ≡ x ∷ xs
        → join sep (x ∷ xs) ≡ s
    rest x xs ih q = ap (join sep) (sym q) ∙ ih

    step :
        (join sep (split sep s) ≡ s)
        → (x : String) × (xs : List String) × (split sep s ≡ x ∷ xs)
        → (eqb (code c) (code sep) ≡ true) ⊎ (eqb (code c) (code sep) ≡ false)
        → join sep (split sep (String.◌∷◌ c s)) ≡ String.◌∷◌ c s
    step ih (x, xs, q) (inl e) =
        rw (e, q)
          (ap (λ t. String.◌∷◌ sep t) (rest x xs ih q)
            ∙ ap (λ d. String.◌∷◌ d s) (sym (same_char c sep e)))
    step ih (x, xs, q) (inr e) =
        rw (e, q) (join-grown sep c x xs ∙ ap (λ t. String.◌∷◌ c t) (rest x xs ih q))

-- A newline at the end is trimmed.
trim-newline : (s : String) → trim_right (s ⧺ "\n") ≡ trim_right s
unfolding trim_right ◌⧺◌
trim-newline String.[] = refl
trim-newline (String.◌∷◌ c s) = rw (trim-newline s) refl

-- Behind a character that is no white space, trimming does not reach what is before it.
trim-⧺ :
    (a b : String) (c : Char)
    → is_space (code c) ≡ false
    → trim_right (a ⧺ String.◌∷◌ c b) ≡ a ⧺ String.◌∷◌ c (trim_right b)
unfolding trim_right ◌⧺◌
trim-⧺ String.[] b c h = rw h refl
trim-⧺ (String.◌∷◌ x a) b c h =
    rw (trim-⧺ a b c h, not_empty a (trim_right b) c) (kept (is_space (code x)))
  where
    kept :
        (space : Bool)
        → (if space && false then String.[] else String.◌∷◌ x (a ⧺ String.◌∷◌ c (trim_right b)))
          ≡ String.◌∷◌ x (a ⧺ String.◌∷◌ c (trim_right b))
    kept true = refl
    kept false = refl

-- A line as the leader prints it: version, correlation id, status, and what is behind it.
abbrev pub line_of : String → String → String → String
line_of correlation status rest =
    "V1" ⧺ String.◌∷◌ "|" (correlation ⧺ String.◌∷◌ "|" (status ⧺ String.◌∷◌ "|" rest))

parse-line_of :
    (correlation status rest : String)
    → Free "|" correlation
    → Free "|" status
    → parse_ok_payload (line_of correlation status rest) ≡ status_part status (split "|" rest)
unfolding parse_ok_payload response_parts
parse-line_of correlation status rest h k = ap response_parts (
    split-⧺ "|" "V1" _ (refl, (refl, tt))
    ∙ ap (λ l. "V1" ∷ l)
        (split-⧺ "|" correlation _ h ∙ ap (λ l. correlation ∷ l) (split-⧺ "|" status rest k)))

-- What is left of a line once it has been trimmed.
pub trim-line_of :
    (correlation status rest : String)
    → trim_space (line_of correlation status (rest ⧺ "\n"))
      ≡ line_of correlation status (trim_right rest)
unfolding trim_space trim_left ◌⧺◌
trim-line_of correlation status rest =
    trim-⧺ "V1" _ "|" refl
    ∙ ap (λ t. "V1" ⧺ String.◌∷◌ "|" t)
        (trim-⧺ correlation _ "|" refl
          ∙ ap (λ t. correlation ⧺ String.◌∷◌ "|" t)
              (trim-⧺ status _ "|" refl ∙ ap (λ t. status ⧺ String.◌∷◌ "|" t) (trim-newline rest)))

read-line_of :
    (correlation status rest : String)
    → Free "|" correlation
    → Free "|" status
    → trim_right rest ≡ rest
    → parse_ok_payload (trim_space (line_of correlation status (rest ⧺ "\n")))
      ≡ status_part status (split "|" rest)
read-line_of correlation status rest h k e =
    ap parse_ok_payload (trim-line_of correlation status rest ∙ ap (line_of correlation status) e)
    ∙ parse-line_of correlation status rest h k

trim-bare :
    (correlation : String)
    → trim_space ("V1" ⧺ String.◌∷◌ "|" (correlation ⧺ String.◌∷◌ "|" "OK\n"))
      ≡ "V1" ⧺ String.◌∷◌ "|" (correlation ⧺ String.◌∷◌ "|" "OK")
unfolding trim_space trim_left trim_right ◌⧺◌
trim-bare correlation =
    trim-⧺ "V1" (correlation ⧺ String.◌∷◌ "|" "OK\n") "|" refl
    ∙ ap (λ t. "V1" ⧺ String.◌∷◌ "|" t) (trim-⧺ correlation "OK\n" "|" refl)

-- The success without a payload.
read-bare :
    (correlation : String)
    → Free "|" correlation
    → parse_ok_payload (trim_space ("V1" ⧺ String.◌∷◌ "|" (correlation ⧺ String.◌∷◌ "|" "OK\n")))
      ≡ payload ""
unfolding parse_ok_payload response_parts status_part split join
read-bare correlation h =
    ap parse_ok_payload (trim-bare correlation)
    ∙ ap response_parts (
        split-⧺ "|" "V1" (correlation ⧺ String.◌∷◌ "|" "OK") (refl, (refl, tt))
        ∙ ap (λ l. "V1" ∷ l) (split-⧺ "|" correlation "OK" h))

refusal-cons : (kind : String) (m : String) → refusal (kind ∷ split "|" m) ≡ kind ⧺ ": " ⧺ m
unfolding refusal
refusal-cons kind m = step (split-cons "|" m)
  where
    step :
        (x : String) × (xs : List String) × (split "|" m ≡ x ∷ xs)
        → refusal (kind ∷ split "|" m) ≡ kind ⧺ ": " ⧺ m
    step (x, xs, q) =
        ap (λ l. refusal (kind ∷ l)) q
        ∙ ap (λ t. kind ⧺ (": " ⧺ t)) (ap (join "|") (sym q) ∙ join-split "|" m)

read-ok :
    (correlation text : String)
    → Free "|" correlation
    → trim_right text ≡ text
    → parse_ok_payload (trim_space (line_of correlation "OK" (text ⧺ "\n"))) ≡ payload text
unfolding status_part
read-ok correlation text h e =
    read-line_of correlation "OK" text h (refl, (refl, tt)) e
    ∙ ap (λ t. payload t) (join-split "|" text)

read-err :
    (correlation kind text : String)
    → Free "|" correlation
    → Free "|" kind
    → trim_right text ≡ text
    → parse_ok_payload
        (trim_space (line_of correlation "ERR" (kind ⧺ String.◌∷◌ "|" (text ⧺ "\n"))))
      ≡ refused (kind ⧺ ": " ⧺ text)
unfolding status_part ◌⧺◌ is_space
read-err correlation kind text h k e =
    ap (λ t. parse_ok_payload (trim_space (line_of correlation "ERR" t)))
      (sym (⧺_assoc kind (String.◌∷◌ "|" text) "\n"))
    ∙ read-line_of correlation "ERR" (kind ⧺ String.◌∷◌ "|" text) h (refl, (refl, (refl, tt)))
        (trim-⧺ kind text "|" refl ∙ ap (λ t. kind ⧺ String.◌∷◌ "|" t) e)
    ∙ ap (λ l. refused (refusal l)) (split-⧺ "|" kind text k)
    ∙ ap (λ t. refused t) (refusal-cons kind text)

-- The follower reads back what the leader answers. Of a success it reads the payload, also an empty
-- one or one with bars in it; of an error, the code and the message. The correlation id and the code
-- are taken to have no bar, the id not to be empty, and the payload and the message not to end in
-- white space.
pub response_lem :
    (correlation text kind : String)
    → Free "|" correlation
    → Free "|" kind
    → is_empty correlation ≡ false
    → trim_right text ≡ text
    → (parse_ok_payload (trim_space (ok correlation text)) ≡ payload text)
      × (parse_ok_payload (trim_space (err correlation kind text)) ≡ refused (kind ⧺ ": " ⧺ text))
response_lem correlation text kind h k n e = (success text e, failure)
  where
    success :
        (text : String)
        → trim_right text ≡ text
        → parse_ok_payload (trim_space (ok correlation text)) ≡ payload text
    success String.[] e = unfold ok in (read-bare correlation h)
    success (String.◌∷◌ c s) e = unfold ok in (read-ok correlation (String.◌∷◌ c s) h e)

    failure :
        parse_ok_payload (trim_space (err correlation kind text)) ≡ refused (kind ⧺ ": " ⧺ text)
    failure = unfold err in (rw n (read-err correlation kind text h k e))
