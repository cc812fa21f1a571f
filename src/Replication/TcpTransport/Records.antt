-- ===== src/Replication/TcpTransport/Records.antt =====
-- The records of a fetch: printed by the leader, and read by the follower.
use Prim.Native.Char.{Char}
use distributed_real_time_ev.Base.{
  IsInt64, false, String, some, List, [], ◌∷◌, All, map, arith, ◌≡◌, refl, ap, ◌∙◌,
}
use distributed_real_time_ev.Base.Text.{◌⧺◌, split_n, join, itoa, is_empty}
use distributed_real_time_ev.Base.Text.Splitting.{Free, ⧺-Free, split-join, split_n-⧺}
use distributed_real_time_ev.Base.Text.Numbers.{atoi-itoa, itoa-Free}
use distributed_real_time_ev.Replication.Worker.{ReplicationRecord}
use distributed_real_time_ev.Replication.TcpTransport.{
  parse_pair, parse_item, parse_items, parse_records, record_text, records_text,
}

-- A record that can be sent: its offset fits 64 bits and its value has no comma.
pub record IsSendable (r : ReplicationRecord) : Type 0 where
  pub offset : IsInt64 r.offset
  pub no_comma : Free "," r.value

pub not_empty : (a b : String) (c : Char) → is_empty (a ⧺ String.◌∷◌ c b) ≡ false
unfolding ◌⧺◌
not_empty String.[] b c = refl
not_empty (String.◌∷◌ x a) b c = refl

record_text-Free : (r : ReplicationRecord) → Free "," r.value → Free "," (record_text r)
unfolding record_text
record_text-Free r h =
    ⧺-Free "," (itoa r.offset) _ (itoa-Free "," r.offset (λ d k. ground arith) refl) (refl, h)

parse_item-record_text :
    (r : ReplicationRecord) → IsInt64 r.offset → parse_item (record_text r) ≡ some r
unfolding parse_item record_text parse_pair split_n
parse_item-record_text r h =
    ap parse_pair
      (split_n-⧺ 0 ":" (itoa r.offset) r.value (itoa-Free ":" r.offset (λ d k. ground arith) refl))
    ∙ rw (parse_pair, atoi-itoa r.offset h) refl

parse_items-cons :
    (r : ReplicationRecord) (items : List String) (rs : List ReplicationRecord)
    → IsInt64 r.offset
    → parse_items items ≡ some rs
    → parse_items (record_text r ∷ items) ≡ some (r ∷ rs)
unfolding parse_items
parse_items-cons r items rs h k = rw (nonempty, parse_item-record_text r h, k) refl
  where
    nonempty : is_empty (record_text r) ≡ false
    nonempty = unfold record_text in (not_empty (itoa r.offset) r.value ":")

parse_items-map :
    (rs : List ReplicationRecord) → All IsSendable rs → parse_items (map record_text rs) ≡ some rs
unfolding parse_items
parse_items-map [] h = refl
parse_items-map (r ∷ rs) h =
    parse_items-cons r (map record_text rs) rs h.0.offset (parse_items-map rs h.1)

records-Free :
    (rs : List ReplicationRecord) → All IsSendable rs → All (Free ",") (map record_text rs)
records-Free [] h = tt
records-Free (r ∷ rs) h = (record_text-Free r h.0.no_comma, records-Free rs h.1)

join-nonempty :
    (sep : Char) (x : String) (xs : List String)
    → is_empty x ≡ false
    → is_empty (join sep (x ∷ xs)) ≡ false
unfolding join
join-nonempty sep x [] h = h
join-nonempty sep x (y ∷ xs) h = not_empty x (join sep (y ∷ xs)) sep

-- The follower reads just the records that the leader has printed, in their order, if their offsets
-- fit 64 bits and no value has a comma.
pub parse_records-records_text :
    (rs : List ReplicationRecord) → All IsSendable rs → parse_records (records_text rs) ≡ some rs
unfolding parse_records records_text
parse_records-records_text [] h = unfold join in refl
parse_records-records_text (r ∷ rs) h = rw nonempty (
    ap parse_items (split-join "," (record_text r) (map record_text rs) (records-Free (r ∷ rs) h))
    ∙ parse_items-map (r ∷ rs) h)
  where
    nonempty : is_empty (records_text (r ∷ rs)) ≡ false
    nonempty =
        unfold record_text in
        (join-nonempty "," (record_text r) (map record_text rs)
          (not_empty (itoa r.offset) r.value ":"))
