-- ===== src/Network/Replicating.antt =====
-- A follower's transport (core/internal/replication/tcp_transport.go) connected to the handlers of a leader
-- (core/internal/network/handler.go). The limit of 64 KB on the line of a request is left out.
mod Examples
use Prim.Native.Char.{Char}
use distributed_real_time_ev.Base.{
  ℕ, suc, ◌+◌, ◌%◌, ◌<◌, eqb, ℤ, pos, IsInt64, leb_ℤ, ltb_ℤ, Bool, true, false, not, String, ◌==◌,
  string_comparable, Option, none, some, List, [], ◌∷◌, map, All, take, filterb, ◌≡◌, refl, ap, sym,
  ◌∙◌, inl, inr, arith, Bool-cases, if◌then◌else◌,
}
use distributed_real_time_ev.Base.Map
use distributed_real_time_ev.Base.Text.{◌⧺◌, itoa, is_empty, trim_right, trim_space, is_space, join}
use distributed_real_time_ev.Base.Text.Splitting.{Free}
use distributed_real_time_ev.Base.Text.Numbers.{itoa-Free, itoa-nonempty}
use distributed_real_time_ev.Base.Text.Words.{
  Solid, Ends, ⧺-Ends, itoa-Solid, trim_right-Solid, trim_right-⧺,
}
use distributed_real_time_ev.Protocol
use distributed_real_time_ev.Protocol.{map_text}
use distributed_real_time_ev.Protocol.Parsing.{Word}
use distributed_real_time_ev.Storage.World
use distributed_real_time_ev.Storage.Record.{Message}
use distributed_real_time_ev.Storage.State.{key_comparable, put_world}
use distributed_real_time_ev.Storage.Log.Reading.{Counted}
use distributed_real_time_ev.Replication.Manager.{is_leader, status}
use distributed_real_time_ev.Replication.Partition.{Status}
use distributed_real_time_ev.Replication.Worker.{ReplicationRecord, Fetched, received}
use distributed_real_time_ev.Replication.TcpTransport.{
  payload, parse_ok_payload, parse_fetch, record_text, records_text,
}
use distributed_real_time_ev.Replication.TcpTransport.Responses.{response_lem}
use distributed_real_time_ev.Replication.TcpTransport.Client.{
  TcpTransport, Line, text, broken, Wire, request_line, fetch_text, fetched_text, read_fetch,
  fetched_line, trimmed, sent_on, send, fetch,
}
use distributed_real_time_ev.Broker.{
  Broker, returned, raised, ◌>>=◌, pure, now, on_replication, raise_if,
}
use distributed_real_time_ev.Network.Logs.{key_of, sent}
use distributed_real_time_ev.Network.Fetch.{fetch_payload, fetched, serve_fetch}
use distributed_real_time_ev.Network.Fetch.Served.{
  All-take, All-filterb, IsPlain, IsServable, offered, fetched-payload, offered-parse_fetch,
}
use distributed_real_time_ev.Network.Requests.{serve_line-fetch}
use distributed_real_time_ev.Network.{Reply, reply, crashed, pending, respond, serve_line}

-- What a broker that answers a line leaves on the wire.
abbrev answer_line : Broker → Reply → Line × Broker
answer_line b (reply line b') = (text line, b')
answer_line b crashed = (broken "EOF", b)
answer_line b pending = (broken "i/o timeout", b)

module _ (upper lower : Char → Char) (checksum hash : String → ℕ) where
  -- A connection to a broker that nothing interrupts.
  abbrev pub leader_wire : Wire Broker
  leader_wire = record {
    dial = λ addr timeout b. (none, b);
    exchange =
        λ addr timeout line b. answer_line b (serve_line upper lower checksum hash b [] line);
  }

-- The status that a fetch sees, and the broker that it leaves.
abbrev pub status_seen : Broker → String → ℤ → Status
status_seen b topic partition =
    (status (is_leader b.replication topic partition).0 topic partition
      (World.now b.storage.world).0).1

abbrev after_fetch : Broker → String → ℤ → Broker
after_fetch b topic partition =
    let (t, w) = World.now b.storage.world in
    record b {
      storage = put_world b.storage w;
      replication = (status (is_leader b.replication topic partition).0 topic partition t).0;
    }

serve_fetch_lem :
    (b : Broker) (topic : String) (partition follower offset max : ℤ)
    → (is_leader b.replication topic partition).1 ≡ true
    → serve_fetch topic partition follower offset max b
      ≡ fetched topic partition follower offset max
          (status_seen b topic partition)
          (after_fetch b topic partition)
unfolding serve_fetch on_replication raise_if now pure ◌>>=◌
serve_fetch_lem b topic partition follower offset max leads = rw leads refl

-- A record whose value has neither a comma nor white space.
pub record IsClean (m : Message) : Type 0 where
  pub offset : IsInt64 m.offset
  pub no_comma : Free "," m.value
  pub no_space : Solid m.value

Solid-Free : (s : String) → Solid s → Free " " s
unfolding is_space
Solid-Free String.[] h = tt
Solid-Free (String.◌∷◌ c s) h = ((let k = h.0 in ground arith), Solid-Free s h.1)

IsClean-IsServable : (ms : List Message) → All IsClean ms → All (λ m. IsServable (sent m)) ms
IsClean-IsServable [] h = tt
IsClean-IsServable (m ∷ ms) h = (
  record {
    sendable = record { offset = h.0.offset; no_comma = h.0.no_comma };
    no_space = Solid-Free m.value h.0.no_space;
  },
  IsClean-IsServable ms h.1,
)

record_text-Ends : (m : Message) → IsClean m → Ends (record_text (sent m))
unfolding record_text is_space
record_text-Ends m h =
    ⧺-Ends (itoa m.offset) (String.◌∷◌ ":" m.value)
      (refl, trim_right-Solid (String.◌∷◌ ":" m.value) (refl, h.no_space))

comma-Ends : (s : String) → Ends s → Ends (String.◌∷◌ "," s)
unfolding ◌⧺◌
comma-Ends s e = ⧺-Ends "," s e

join-Ends :
    (m : Message) (ms : List Message)
    → All IsClean (m ∷ ms)
    → Ends (join "," (map record_text (map sent (m ∷ ms))))
unfolding join
join-Ends m [] h = record_text-Ends m h.0
join-Ends m (m' ∷ ms) h = ⧺-Ends (record_text (sent m)) _ (comma-Ends _ (join-Ends m' ms h.1))

records_text-Ends :
    (m : Message) (ms : List Message)
    → All IsClean (m ∷ ms)
    → Ends (records_text (map sent (m ∷ ms)))
unfolding records_text
records_text-Ends m ms h = join-Ends m ms h

no_records-Ends : Ends (" records=" ⧺ records_text [])
unfolding records_text join ◌⧺◌ trim_right is_space
no_records-Ends = (refl, refl)

fetch_payload-Ends :
    (topic : String) (partition follower hw : ℤ) (ms : List Message)
    → All IsClean ms
    → Ends (fetch_payload topic partition follower hw (records_text (map sent ms)))
unfolding fetch_payload
fetch_payload-Ends topic partition follower hw ms h = ⧺-Ends "topic=" _ (
    ⧺-Ends topic _ (
      ⧺-Ends " partition=" _ (
        ⧺-Ends (itoa partition) _ (
          ⧺-Ends " follower=" _
            (⧺-Ends (itoa follower) _ (⧺-Ends " hw=" _ (⧺-Ends (itoa hw) _ (last ms h))))))))
  where
    last : (ms : List Message) → All IsClean ms → Ends (" records=" ⧺ records_text (map sent ms))
    last [] h = no_records-Ends
    last (m ∷ ms) h = ⧺-Ends " records=" _ (records_text-Ends m ms h)

module _ (upper lower : Char → Char) (checksum hash : String → ℕ) (b : Broker) (t : TcpTransport)
    (topic : String) (partition follower : ℤ) (offset max : ℕ) (ms : List Message)
    (stored : Map.lookup (key_of topic partition) b.storage.data_of ≡ some ms)
    (counted : Counted 0 ms) (clean : All IsClean ms) where
  abbrev seq : ℕ
  seq = (t.seq + 1) % 18446744073709551616

  -- What the leader prints.
  abbrev answer : String
  answer =
      let st = status_seen b topic partition in
      fetch_payload topic partition follower st.high_watermark
        (records_text (map sent (offered st.leader_offset offset max ms)))

  still_stored :
      Map.lookup (key_of topic partition) (after_fetch b topic partition).storage.data_of ≡ some ms
  unfolding put_world
  still_stored = stored

  IsClean-offered : (leader_offset : ℤ) → All IsClean (offered leader_offset offset max ms)
  IsClean-offered leader_offset = elim (Bool-cases (ltb_ℤ leader_offset (pos offset))) [
    | inl e ↦ rw e tt
    | inr e ↦ rw e (All-take IsClean max _ (All-filterb IsClean _ ms clean))
  ]

  served :
      Word topic
      → map_text upper "BROKER_FETCH" ≡ "BROKER_FETCH"
      → IsInt64 partition
      → IsInt64 follower
      → IsInt64 (pos offset)
      → IsInt64 (pos max)
      → leb_ℤ (pos max) (pos 0) ≡ false
      → (is_leader b.replication topic partition).1 ≡ true
      → serve_line upper lower checksum hash b [] (
          request_line seq "BROKER_FETCH"
            (fetch_text topic partition follower (pos offset) (pos max)))
        ≡ reply (Protocol.ok (itoa (pos seq)) answer) (after_fetch b topic partition)
  unfolding respond
  served word fixed h₁ h₂ h₃ h₄ positive leads =
      serve_line-fetch upper lower checksum hash b seq topic partition follower (pos offset)
        (pos max) [] word fixed h₁ h₂ h₃ h₄ positive
      ∙ ap (respond (itoa (pos seq))) (
          serve_fetch_lem b topic partition follower (pos offset) (pos max) leads
          ∙ fetched-payload (after_fetch b topic partition) topic partition follower offset max
              (status_seen b topic partition) ms still_stored counted)

  understood :
      IsPlain topic
      → IsInt64 (status_seen b topic partition).high_watermark
      → fetched_line (text (trim_space (Protocol.ok (itoa (pos seq)) answer)))
        ≡ received (record {
          high_watermark = (status_seen b topic partition).high_watermark;
          records = map sent (offered (status_seen b topic partition).leader_offset offset max ms);
        })
  understood plain bound =
      let st = status_seen b topic partition in
      let ends : Ends answer =
        fetch_payload-Ends topic partition follower st.high_watermark _
          (IsClean-offered st.leader_offset) in
      ap read_fetch
        (response_lem (itoa (pos seq)) answer ""
          (itoa-Free "|" (pos seq) (λ d k. ground arith) refl) tt (itoa-nonempty (pos seq))
          ends.1).0
      ∙ ap fetched_text (
          offered-parse_fetch (after_fetch b topic partition) topic partition follower offset max st
            ms plain bound (IsClean-IsServable ms clean))

  -- A follower that fetches from the leader of a partition, over a connection that nothing interrupts, gets
  -- the leader's high watermark and just the leader's records from the offset asked for on, at most as many as
  -- asked for. The leader's log counts from 0, its values have no comma and no white space, the topic is one
  -- word that holds neither "hw=" nor "records=", and the numbers fit 64 bits.
  pub fetch-leader_wire :
      (t.leader_addr == "") ≡ false
      → Word topic
      → IsPlain topic
      → map_text upper "BROKER_FETCH" ≡ "BROKER_FETCH"
      → IsInt64 partition
      → IsInt64 follower
      → IsInt64 (pos offset)
      → IsInt64 (pos max)
      → leb_ℤ (pos max) (pos 0) ≡ false
      → IsInt64 (status_seen b topic partition).high_watermark
      → (is_leader b.replication topic partition).1 ≡ true
      → (w : TcpTransport × Broker) × (fetch
            (leader_wire upper lower checksum hash)
            topic
            partition
            follower
            (pos offset)
            (pos max)
            (t, b)
          ≡ (
            received (record {
              high_watermark = (status_seen b topic partition).high_watermark;
              records =
                  map sent (offered (status_seen b topic partition).leader_offset offset max ms);
            }),
            w,
          ))
  unfolding fetch send sent_on
  fetch-leader_wire named word plain fixed h₁ h₂ h₃ h₄ positive bound leads = (
    (record t { seq = seq }, after_fetch b topic partition),
    rw (positive, named, served word fixed h₁ h₂ h₃ h₄ positive leads, understood plain bound) refl,
  )
