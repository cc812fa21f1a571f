-- ===== src/Replication/TcpTransport/Fields.antt =====
-- `extractStringField` on a payload that is put together from parts.
use Prim.Native.Char.{Char, code}
use distributed_real_time_ev.Base.{
  eqb, ℤ, IsInt64, All, List, [], ◌∷◌, ap, false, String, none, some, ◌≡◌, refl, sym, ◌∙◌, inl, inr,
  arith, Bool-cases, Option-cases,
}
use distributed_real_time_ev.Base.Text.{◌⧺◌, join, itoa, atoi, is_empty}
use distributed_real_time_ev.Base.Text.Splitting.{Free, ⧺-Free, split-⧺, split-Free}
use distributed_real_time_ev.Base.Text.Numbers.{atoi-itoa}
use distributed_real_time_ev.Storage.Names.{strip_prefix}
use distributed_real_time_ev.Replication.TcpTransport.{
  behind, first_part, extract_string_field, extract_int_field,
}

-- Text without the separator does not make a token with the separator behind it.
strip_prefix-⧺ :
    (sep : Char) (token a s : String)
    → Free sep token
    → strip_prefix token a ≡ none
    → strip_prefix token (a ⧺ String.◌∷◌ sep s) ≡ none
unfolding strip_prefix ◌⧺◌
strip_prefix-⧺ sep String.[] a s h e = absurd (cc e)
strip_prefix-⧺ sep (String.◌∷◌ c t) String.[] s h e = rw h.0 refl
strip_prefix-⧺ sep (String.◌∷◌ c t) (String.◌∷◌ d a) s h e =
    elim (Bool-cases (eqb (code c) (code d))) [
      | inl k ↦ rw k (strip_prefix-⧺ sep t a s h.1 (rw k at e))
      | inr k ↦ rw k refl
    ]

behind_later :
    (token : String) (c : Char) (s : String)
    → strip_prefix token (String.◌∷◌ c s) ≡ none
    → behind token (String.◌∷◌ c s) ≡ behind token s
unfolding behind
behind_later token c s h = rw (behind, h) refl

-- What is behind the first token stands behind a part that has none.
pub behind-⧺ :
    (sep : Char) (token a s : String)
    → Free sep token
    → behind token a ≡ none
    → behind token (a ⧺ String.◌∷◌ sep s) ≡ behind token (String.◌∷◌ sep s)
unfolding behind ◌⧺◌
behind-⧺ sep token String.[] s h e = refl
behind-⧺ sep token (String.◌∷◌ c a) s h e =
    elim (Option-cases (strip_prefix token (String.◌∷◌ c a))) [
      | inr (r, f) ↦ absurd (cc (rw (behind, f) at e))
      | inl f ↦
          behind_later token c _ (strip_prefix-⧺ sep token (String.◌∷◌ c a) s h f)
          ∙ behind-⧺ sep token a s h (sym (behind_later token c a f) ∙ e)
    ]

-- A token does not start in a part without its first character.
pub behind-Free :
    (c : Char) (token a s : String)
    → Free c a
    → behind (String.◌∷◌ c token) (a ⧺ s) ≡ behind (String.◌∷◌ c token) s
unfolding behind strip_prefix ◌⧺◌
behind-Free c token String.[] s h = refl
behind-Free c token (String.◌∷◌ d a) s h =
    behind_later (String.◌∷◌ c token) d (a ⧺ s) (rw flip refl) ∙ behind-Free c token a s h.1
  where
    flip : eqb (code c) (code d) ≡ false
    flip = let k = h.0 in ground arith

-- A field ends at the first space, or with the text.
pub extract_inner :
    (text key value rest : String)
    → Free " " value
    → behind (key ⧺ "=") text ≡ some (value ⧺ String.◌∷◌ " " rest)
    → extract_string_field text key ≡ value
unfolding extract_string_field first_part
extract_inner text key value rest h e =
    rw (extract_string_field, e) (ap first_part (split-⧺ " " value rest h))

pub extract_last :
    (text key value : String)
    → Free " " value
    → behind (key ⧺ "=") text ≡ some value
    → extract_string_field text key ≡ value
unfolding extract_string_field first_part
extract_last text key value h e =
    rw (extract_string_field, e) (ap first_part (split-Free " " value h))

number-nonempty : (s : String) (z : ℤ) → atoi s ≡ some z → is_empty s ≡ false
unfolding atoi
number-nonempty String.[] z h = absurd (cc h)
number-nonempty (String.◌∷◌ c s) z h = refl

pub extract_int_field_lem :
    (text key : String) (z : ℤ)
    → IsInt64 z
    → extract_string_field text key ≡ itoa z
    → extract_int_field text key ≡ some z
unfolding extract_int_field
extract_int_field_lem text key z h e =
    let n = atoi-itoa z h in rw (e, number-nonempty (itoa z) z n, n) refl

pub join-Free :
    (sep other : Char) (xs : List String)
    → eqb (code other) (code sep) ≡ false
    → All (Free sep) xs
    → Free sep (join other xs)
unfolding join ◌⧺◌
join-Free sep other [] h k = tt
join-Free sep other (x ∷ []) h k = k.0
join-Free sep other (x ∷ y ∷ xs) h k = ⧺-Free sep x _ k.0 (h, join-Free sep other (y ∷ xs) h k.1)
