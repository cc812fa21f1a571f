-- ===== src/Storage/Log/Answers.antt =====
-- Which answers of the file system the calls of the appends take, and what they do to its files.
use distributed_real_time_ev.Base.{
  ℕ, zero, suc, ◌+◌, ℤ, Bool, true, false, ◌==◌, ==_iff, ==_refl, String, string_comparable, some,
  List, [], ◌∷◌, ◌≡◌, ◌≢◌, refl, sym, ap, ◌∙◌, inl, inr, Bool-cases, if◌then◌else◌,
}
use distributed_real_time_ev.Base.Map
use distributed_real_time_ev.Base.Map.{Map, lookup-insert}
use distributed_real_time_ev.Base.Text.{◌⧺◌}
use distributed_real_time_ev.Base.Text.Splitting.{⧺_assoc, ⧺-nil}
use distributed_real_time_ev.Storage.World.{
  File, Answer, done, refused, torn, World, now, answer, attempt, append_line, extended, first,
  content_of,
}
use distributed_real_time_ev.Storage.State.{Key}
use distributed_real_time_ev.Storage.Log.{replicas_from}

-- The next of the answers to come: after the last one every call is `done`.
abbrev pub next_answer : List Answer → Answer
next_answer [] = done
next_answer (a ∷ rest) = a

abbrev pub tail : List Answer → List Answer
tail [] = []
tail (a ∷ rest) = rest

-- A call that leaves the world `w'`, and has succeeded or not, has taken one answer.
pub record Called (w w' : World) (ok : Bool) : Type 0 where
  pub succeeds : ok ≡ true → next_answer w.answers ≡ done
  pub fails : ok ≡ false → next_answer w.answers ≢ done
  pub left : w'.answers ≡ tail w.answers

answer_lem :
    (w : World)
    → ((answer w).0 ≡ next_answer w.answers)
      × ((answer w).1.answers ≡ tail w.answers)
      × ((answer w).1.files ≡ w.files)
unfolding answer
answer_lem w = by w.answers refl
  where
    by :
        (answers : List Answer)
        → w.answers ≡ answers
        → ((answer w).0 ≡ next_answer answers)
          × ((answer w).1.answers ≡ tail answers)
          × ((answer w).1.files ≡ w.files)
    by [] q = rw (answer, q) (refl, q, refl)
    by (a ∷ rest) q = rw (answer, q) (refl, refl, refl)

done-Called :
    (w w' : World) → (answer w).0 ≡ done → w'.answers ≡ (answer w).1.answers → Called w w' true
done-Called w w' q e = record {
  succeeds = λ _. sym (answer_lem w).0 ∙ q;
  fails = λ f. cc f;
  left = e ∙ (answer_lem w).1;
}

failed-Called :
    (w w' : World) → (answer w).0 ≢ done → w'.answers ≡ (answer w).1.answers → Called w w' false
failed-Called w w' q e = record {
  succeeds = λ f. cc f;
  fails = λ _ d. q ((answer_lem w).0 ∙ d);
  left = e ∙ (answer_lem w).1;
}

pub attempt-Called : (w : World) → Called w (attempt w).1 (attempt w).0
unfolding attempt
attempt-Called w = by (answer w).0 refl
  where
    by : (a : Answer) → (answer w).0 ≡ a → Called w (attempt w).1 (attempt w).0
    by done q = rw (attempt, q) (done-Called w _ q refl)
    by refused q = rw (attempt, q) (failed-Called w _ (λ d. cc (q, d)) refl)
    by (torn n) q = rw (attempt, q) (failed-Called w _ (λ d. cc (q, d)) refl)

pub attempt-files : (w : World) → (attempt w).1.files ≡ w.files
unfolding attempt
attempt-files w = by (answer w).0 refl
  where
    by : (a : Answer) → (answer w).0 ≡ a → (attempt w).1.files ≡ w.files
    by done q = rw (attempt, q) (answer_lem w).2
    by refused q = rw (attempt, q) (answer_lem w).2
    by (torn n) q = rw (attempt, q) (answer_lem w).2

-- The text in a file: none where there is no file.
abbrev pub text_of : Map String File → String → String
text_of files name = content_of (Map.lookup name files)

pub text_of-extended :
    (w : World) (name text other : String)
    → text_of (extended w name text).files other
      ≡ (if name == other then text_of w.files name ⧺ text else text_of w.files other)
unfolding extended now
text_of-extended w name text other = rw (lookup-insert name _ w.files other) (cases (name == other))
  where
    cases :
        (b : Bool)
        → content_of (
            if b
            then some (record {
              content = content_of (Map.lookup name w.files) ⧺ text;
              mod_time = (now w).0;
            })
            else Map.lookup other w.files)
          ≡ (if b then text_of w.files name ⧺ text else text_of w.files other)
    cases true = refl
    cases false = refl

pub append_line-Called :
    (w : World) (name line : String)
    → Called w (append_line w name line).1 (append_line w name line).0
unfolding append_line extended now
append_line-Called w name line = by (answer w).0 refl
  where
    by :
        (a : Answer)
        → (answer w).0 ≡ a
        → Called w (append_line w name line).1 (append_line w name line).0
    by done q = rw (append_line, q) (done-Called w _ q refl)
    by refused q = rw (append_line, q) (failed-Called w _ (λ d. cc (q, d)) refl)
    by (torn n) q = rw (append_line, q) (failed-Called w _ (λ d. cc (q, d)) refl)

-- A write that succeeds puts the line at the end of its file.
pub append_line-written :
    (w : World) (name line : String)
    → (append_line w name line).0 ≡ true
    → text_of (append_line w name line).1.files name ≡ text_of w.files name ⧺ line
unfolding append_line
append_line-written w name line ok = by (answer w).0 refl ok
  where
    shut : (a : Answer) → (answer w).0 ≡ a → a ≢ done → (append_line w name line).0 ≡ false
    shut done q n = absurd (n refl)
    shut refused q n = rw (append_line, q) refl
    shut (torn m) q n = rw (append_line, q) refl

    by :
        (a : Answer)
        → (answer w).0 ≡ a
        → (append_line w name line).0 ≡ true
        → text_of (append_line w name line).1.files name ≡ text_of w.files name ⧺ line
    by done q e =
        rw (append_line, q)
          (text_of-extended (answer w).1 name line name
            ∙ rw (==_refl name) (ap (λ f. text_of f name ⧺ line) (answer_lem w).2))
    by refused q e = absurd (let f = shut refused q (λ d. cc d) in cc)
    by (torn m) q e = absurd (let f = shut (torn m) q (λ d. cc d) in cc)

-- No file loses text, and text is only added at the end.
abbrev pub Grows : Map String File → Map String File → Type 0
Grows files files' =
    (name : String) → (more : String) × (text_of files' name ≡ text_of files name ⧺ more)

pub Grows-same : (files files' : Map String File) → files' ≡ files → Grows files files'
Grows-same files files' e name =
    (String.[], ap (λ f. text_of f name) e ∙ sym (⧺-nil (text_of files name)))

pub Grows-trans : (a b c : Map String File) → Grows a b → Grows b c → Grows a c
Grows-trans a b c f g name =
    let (more, e) = f name in
    let (rest, d) = g name in
    (more ⧺ rest, d ∙ ap (λ s. s ⧺ rest) e ∙ ⧺_assoc (text_of a name) more rest)

extended-Grows : (w : World) (name text : String) → Grows w.files (extended w name text).files
extended-Grows w name text other = elim (Bool-cases (name == other)) [
  | inl e ↦ (
    text,
    text_of-extended w name text other
        ∙ rw e (ap (λ n. text_of w.files n ⧺ text) ((==_iff name other).0 e)),
  )
  | inr e ↦
      (String.[], text_of-extended w name text other ∙ rw e (sym (⧺-nil (text_of w.files other))))
]

pub append_line-Grows :
    (w : World) (name line : String) → Grows w.files (append_line w name line).1.files
unfolding append_line
append_line-Grows w name line = by (answer w).0 refl
  where
    same : Grows w.files (answer w).1.files
    same = Grows-same w.files _ (answer_lem w).2

    by : (a : Answer) → (answer w).0 ≡ a → Grows w.files (append_line w name line).1.files
    by done q =
        rw (append_line, q) (Grows-trans w.files _ _ same (extended-Grows (answer w).1 name line))
    by refused q = rw (append_line, q) same
    by (torn n) q =
        rw (append_line, q)
          (Grows-trans w.files _ _ same (extended-Grows (answer w).1 name (first n line)))

pub replicas_from-Grows :
    (n id : ℕ) (w : World) (k : Key) (segment : ℤ) (line : String)
    → Grows w.files (replicas_from n id w k segment line).files
unfolding replicas_from
replicas_from-Grows zero id w k segment line = Grows-same w.files w.files refl
replicas_from-Grows (suc n) id w k segment line =
    Grows-trans w.files _ _ (append_line-Grows w _ line)
      (replicas_from-Grows n (id + 1) _ k segment line)
