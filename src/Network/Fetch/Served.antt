-- ===== src/Network/Fetch/Served.antt =====
-- What `handleBrokerFetch` of core/internal/network/handler.go answers, read by `Fetch` of
-- core/internal/replication/tcp_transport.go.
use Prim.Native.Char.{Char}
use distributed_real_time_ev.Base.{
  ℕ, zero, suc, ◌+◌, ℤ, pos, IsInt64, ltb_ℤ, Bool, ◌||◌, String, none, some, List, [], ◌∷◌, take,
  map, filterb, All, ◌≡◌, refl, ap, ◌∙◌, inl, inr, arith, Bool-cases, if◌then◌else◌,
}
use distributed_real_time_ev.Base.Text.{◌⧺◌, join, itoa}
use distributed_real_time_ev.Base.Text.Splitting.{Free, ⧺-Free}
use distributed_real_time_ev.Base.Text.Numbers.{itoa-Free}
use distributed_real_time_ev.Storage.Names.{strip_prefix}
use distributed_real_time_ev.Replication.Worker.{ReplicationRecord}
use distributed_real_time_ev.Replication.TcpTransport.{
  behind, extract_string_field, extract_int_field, parse_fetch, record_text, records_text,
}
use distributed_real_time_ev.Replication.TcpTransport.Records.{
  IsSendable, parse_records-records_text,
}
use distributed_real_time_ev.Replication.TcpTransport.Fields.{
  behind-⧺, behind-Free, extract_inner, extract_last, extract_int_field_lem, join-Free,
}
use distributed_real_time_ev.Base.Map
use distributed_real_time_ev.Storage.Record.{Message}
use distributed_real_time_ev.Storage.State.{key_comparable}
use distributed_real_time_ev.Storage.Log.{consume}
use distributed_real_time_ev.Storage.Log.Reading.{Counted, from_offset, consume_lem}
use distributed_real_time_ev.Replication.Partition.{Status}
use distributed_real_time_ev.ControlPlane.Controller.{count_of}
use distributed_real_time_ev.Broker.{Broker, returned, ◌>>=◌, pure}
use distributed_real_time_ev.Network.Logs.{key_of, sent, read_messages, or_panic}
use distributed_real_time_ev.Network.Fetch.{fetch_payload, fetched}

-- A topic can be printed if it holds neither of the tokens that the follower looks for.
pub record IsPlain (topic : String) : Type 0 where
  pub no_hw : behind "hw=" topic ≡ none
  pub no_records : behind "records=" topic ≡ none

-- A token is not found in this part, nor across its end.
abbrev Skips : String → String → Type 0
Skips token part = (s : String) → behind token (part ⧺ s) ≡ behind token s

module _ (topic : String) (partition follower hw : ℤ) (records : String) where
  -- The text from the high watermark on.
  abbrev tail : String
  tail = " hw=" ⧺ itoa hw ⧺ " records=" ⧺ records

  behind-payload :
      (c : Char) (token : String)
      → Skips (String.◌∷◌ c token) "topic="
      → Skips (String.◌∷◌ c token) " partition="
      → Skips (String.◌∷◌ c token) " follower="
      → Free " " (String.◌∷◌ c token)
      → Free c (itoa partition)
      → Free c (itoa follower)
      → behind (String.◌∷◌ c token) topic ≡ none
      → behind (String.◌∷◌ c token) (fetch_payload topic partition follower hw records)
        ≡ behind (String.◌∷◌ c token) tail
  unfolding fetch_payload ◌⧺◌
  behind-payload c token skip skip₁ skip₂ free free₁ free₂ none_there =
      skip _
      ∙ behind-⧺ " " (String.◌∷◌ c token) topic _ free none_there
      ∙ skip₁ _
      ∙ behind-Free c token (itoa partition) _ free₁
      ∙ skip₂ _
      ∙ behind-Free c token (itoa follower) _ free₂

  found_hw :
      IsPlain topic
      → behind "hw=" (fetch_payload topic partition follower hw records)
        ≡ some (itoa hw ⧺ " records=" ⧺ records)
  unfolding behind strip_prefix ◌⧺◌
  found_hw plain =
      behind-payload "h" "w=" (λ s. refl) (λ s. refl) (λ s. refl) (refl, (refl, (refl, tt)))
        (itoa-Free "h" partition (λ d k. ground arith) refl)
        (itoa-Free "h" follower (λ d k. ground arith) refl) plain.no_hw
      ∙ refl

  found_records :
      IsPlain topic
      → behind "records=" (fetch_payload topic partition follower hw records) ≡ some records
  unfolding behind strip_prefix ◌⧺◌
  found_records plain =
      behind-payload "r" "ecords=" (λ s. refl) (λ s. refl) (λ s. refl)
        (refl, (refl, (refl, (refl, (refl, (refl, (refl, (refl, tt))))))))
        (itoa-Free "r" partition (λ d k. ground arith) refl)
        (itoa-Free "r" follower (λ d k. ground arith) refl) plain.no_records
      ∙ behind-Free "r" "ecords=" (itoa hw) _ (itoa-Free "r" hw (λ d k. ground arith) refl)
      ∙ refl

-- A record that reaches the follower as it is: it can be sent, and its value has no space.
pub record IsServable (r : ReplicationRecord) : Type 0 where
  pub sendable : IsSendable r
  pub no_space : Free " " r.value

IsSendable-All : (rs : List ReplicationRecord) → All IsServable rs → All IsSendable rs
IsSendable-All [] h = tt
IsSendable-All (r ∷ rs) h = (h.0.sendable, IsSendable-All rs h.1)

texts-Free : (rs : List ReplicationRecord) → All IsServable rs → All (Free " ") (map record_text rs)
unfolding record_text
texts-Free [] h = tt
texts-Free (r ∷ rs) h = (
  ⧺-Free " " (itoa r.offset) _ (itoa-Free " " r.offset (λ d k. ground arith) refl)
      (refl, h.0.no_space),
  texts-Free rs h.1,
)

module _ (topic : String) (partition follower hw : ℤ) (rs : List ReplicationRecord) where
  at_hw :
      IsPlain topic
      → behind ("hw" ⧺ "=") (fetch_payload topic partition follower hw (records_text rs))
        ≡ some (itoa hw ⧺ String.◌∷◌ " " ("records=" ⧺ records_text rs))
  unfolding ◌⧺◌
  at_hw plain = found_hw topic partition follower hw (records_text rs) plain

  at_records :
      IsPlain topic
      → behind ("records" ⧺ "=") (fetch_payload topic partition follower hw (records_text rs))
        ≡ some (records_text rs)
  unfolding ◌⧺◌
  at_records plain = found_records topic partition follower hw (records_text rs) plain

  spaceless : All IsServable rs → Free " " (records_text rs)
  unfolding records_text
  spaceless h = join-Free " " "," (map record_text rs) refl (texts-Free rs h)

  parse_fetch-payload :
      IsPlain topic
      → IsInt64 hw
      → All IsServable rs
      → parse_fetch (fetch_payload topic partition follower hw (records_text rs))
        ≡ some (record { high_watermark = hw; records = rs })
  unfolding parse_fetch
  parse_fetch-payload plain bound h =
      let text = fetch_payload topic partition follower hw (records_text rs) in
      let n : extract_int_field text "hw" ≡ some hw = extract_int_field_lem text "hw" hw bound (
        extract_inner text "hw" (itoa hw) ("records=" ⧺ records_text rs)
          (itoa-Free " " hw (λ d k. ground arith) refl) (at_hw plain)) in
      let field : extract_string_field text "records" ≡ records_text rs =
        extract_last text "records" (records_text rs) (spaceless h) (at_records plain) in
      rw (parse_fetch, n, field, parse_records-records_text rs (IsSendable-All rs h)) refl

module _ {A : Type 0} (P : A → Type 0) where
  pub All-filterb : (f : A → Bool) (xs : List A) → All P xs → All P (filterb f xs)
  All-filterb f [] h = tt
  All-filterb f (x ∷ xs) h = elim (Bool-cases (f x)) [
    | inl e ↦ rw e (h.0, All-filterb f xs h.1)
    | inr e ↦ rw e (All-filterb f xs h.1)
  ]

  pub All-take : (n : ℕ) (xs : List A) → All P xs → All P (take n xs)
  All-take zero xs h = tt
  All-take (suc n) [] h = tt
  All-take (suc n) (x ∷ xs) h = (h.0, All-take n xs h.1)

  All-map : {B : Type 0} (f : B → A) (xs : List B) → All (λ x. P (f x)) xs → All P (map f xs)
  All-map f [] h = tt
  All-map f (x ∷ xs) h = (h.0, All-map f xs h.1)

-- The messages that a fetch from `offset` on is to get.
abbrev pub offered : ℤ → ℕ → ℕ → List Message → List Message
offered leader_offset offset max ms =
    if ltb_ℤ leader_offset (pos offset) then [] else take max (from_offset offset ms)

module _ (b : Broker) (topic : String) (partition follower : ℤ) (offset max : ℕ) (st : Status)
    (ms : List Message) where
  pub fetched-payload :
      Map.lookup (key_of topic partition) b.storage.data_of ≡ some ms
      → Counted 0 ms
      → fetched topic partition follower (pos offset) (pos max) st b
        ≡ returned
            (fetch_payload topic partition follower st.high_watermark
              (records_text (map sent (offered st.leader_offset offset max ms))))
            b
  unfolding fetched pure ◌>>=◌ read_messages or_panic records_text join count_of
  fetched-payload h c =
      let plus : 0 + offset ≡ offset = omega arith in
      let read : consume b.storage (key_of topic partition) (pos offset)
          ≡ some (from_offset offset ms) =
        (consume_lem b.storage (key_of topic partition) ms 0 offset h c).0
        ∙ ap (λ k. some (from_offset k ms)) plus in
      let guard = early st.leader_offset in
      elim (Bool-cases (ltb_ℤ st.leader_offset (pos offset))) [
        | inl e ↦ rw (guard, e) refl
        | inr e ↦ rw (guard, e, read) refl
      ]
    where
      early : (l : ℤ) → (ltb_ℤ l (pos 0) || ltb_ℤ l (pos offset)) ≡ ltb_ℤ l (pos offset)
      early l = ground arith

  pub offered-parse_fetch :
      IsPlain topic
      → IsInt64 st.high_watermark
      → All (λ m. IsServable (sent m)) ms
      → parse_fetch (
          fetch_payload topic partition follower st.high_watermark
            (records_text (map sent (offered st.leader_offset offset max ms))))
        ≡ some (record {
          high_watermark = st.high_watermark;
          records = map sent (offered st.leader_offset offset max ms);
        })
  offered-parse_fetch plain bound servable =
      parse_fetch-payload topic partition follower st.high_watermark
        (map sent (offered st.leader_offset offset max ms)) plain bound some_of
    where
      some_of : All IsServable (map sent (offered st.leader_offset offset max ms))
      some_of = elim (Bool-cases (ltb_ℤ st.leader_offset (pos offset))) [
        | inl e ↦ rw e tt
        | inr e ↦ rw e (
            All-map IsServable sent _ (
              All-take (λ m. IsServable (sent m)) max _
                (All-filterb (λ m. IsServable (sent m)) _ ms servable)))
      ]

  -- A leader answers a fetch with a text from which the follower reads just the high watermark and the
  -- records from the offset asked for on, at most as many as asked for, and none where the leader's offset is
  -- below that. The log counts from 0; the topic holds neither "hw=" nor "records=", and no value a comma or a
  -- space.
  pub fetched-parse_fetch :
      Map.lookup (key_of topic partition) b.storage.data_of ≡ some ms
      → Counted 0 ms
      → IsPlain topic
      → IsInt64 st.high_watermark
      → All (λ m. IsServable (sent m)) ms
      → (answer : String) × (fetched topic partition follower (pos offset) (pos max) st b
          ≡ returned answer b)
        × (parse_fetch answer
            ≡ some (record {
              high_watermark = st.high_watermark;
              records = map sent (offered st.leader_offset offset max ms);
            }))
  fetched-parse_fetch h c plain bound servable =
      (_, fetched-payload h c, offered-parse_fetch plain bound servable)
