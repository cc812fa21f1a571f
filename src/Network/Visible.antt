-- ===== src/Network/Visible.antt =====
-- What `handleConsume` of core/internal/network/handler.go shows to a consumer.
use distributed_real_time_ev.Base.{
  ℕ, suc, ℤ, pos, IsInt64, leb_ℤ, ltb_ℤ, true, false, ◌&&◌, ◌||◌, ◌==◌, String, string_comparable,
  int_comparable, some, List, [], ◌∷◌, filterb, ◌≡◌, refl, sym, ap, ◌∙◌, inl, inr, arith,
  Bool-cases,
}
use distributed_real_time_ev.Base.Map
use distributed_real_time_ev.Base.Text.{◌⧺◌, join, itoa}
use distributed_real_time_ev.Storage.Record.{Message}
use distributed_real_time_ev.Storage.State.{key_comparable, put_world}
use distributed_real_time_ev.Storage.Log.{consume}
use distributed_real_time_ev.Storage.Log.Reading.{Counted, from_offset, consume_lem}
use distributed_real_time_ev.Broker.{
  Broker, returned, ◌>>=◌, pure, now, metadata, on_replication, or_raise, raise_result,
}
use distributed_real_time_ev.Replication.TcpTransport.{records_text}
use distributed_real_time_ev.Storage.World
use distributed_real_time_ev.Replication.Manager.{high_watermark}
use distributed_real_time_ev.ControlPlane.Metadata.{TopicMetadata, PartitionMetadata}
use distributed_real_time_ev.Protocol.{parse_int}
use distributed_real_time_ev.Broker.Topics.{ensure_topic_metadata, known_or_made}
use distributed_real_time_ev.Base.Text.Numbers.{atoi-itoa}
use distributed_real_time_ev.ControlPlane.Store.{snapshot}
use distributed_real_time_ev.ControlPlane.Metadata.Copies.{clone_lem}
use distributed_real_time_ev.Network.Arguments.{int_arg, topic_arg}
use distributed_real_time_ev.Network.Logs.{
  handle_consume, key_of, visible, messages_text, read_messages, or_panic, consumed,
}

-- The messages from `offset` on that are not beyond the high watermark.
abbrev pub between : ℕ → ℤ → List Message → List Message
between offset hw ms = filterb (λ m. leb_ℤ (pos offset) m.offset && leb_ℤ m.offset hw) ms

module _ (offset : ℕ) (hw : ℤ) where
  between-beyond :
      (k : ℕ) (ms : List Message)
      → ltb_ℤ hw (pos k) ≡ true
      → Counted k ms
      → between offset hw ms ≡ []
  between-beyond k [] h c = refl
  between-beyond k (m ∷ ms) h c = rw out (between-beyond (suc k) ms (ground arith) c.1)
    where
      out : (leb_ℤ (pos offset) m.offset && leb_ℤ m.offset hw) ≡ false
      out = let e = c.0 in ground arith

  between-unreached : (ms : List Message) → ltb_ℤ hw (pos offset) ≡ true → between offset hw ms ≡ []
  between-unreached [] h = refl
  between-unreached (m ∷ ms) h = rw out (between-unreached ms h)
    where
      out : (leb_ℤ (pos offset) m.offset && leb_ℤ m.offset hw) ≡ false
      out = ground arith

  visible-between :
      (k : ℕ) (ms : List Message)
      → Counted k ms
      → visible hw (from_offset offset ms) ≡ between offset hw ms
  unfolding visible
  visible-between k [] c = refl
  visible-between k (m ∷ ms) c = elim (Bool-cases (leb_ℤ (pos offset) m.offset)) [
    | inr e ↦ rw e (visible-between (suc k) ms c.1)
    | inl e ↦ elim (Bool-cases (ltb_ℤ hw m.offset)) [
      | inl d ↦
          let out : leb_ℤ m.offset hw ≡ false = ground arith in
          let past : ltb_ℤ hw (pos (suc k)) ≡ true = (let q = c.0 in ground arith) in
          rw (e, visible, d, out) (sym (between-beyond (suc k) ms past c.1))
      | inr d ↦
          let in_reach : leb_ℤ m.offset hw ≡ true = ground arith in
          rw (e, visible, d, in_reach) (ap (λ r. m ∷ r) (visible-between (suc k) ms c.1))
    ]
  ]

module _ (b : Broker) (topic : String) (partition : ℤ) (offset : ℕ) (ms : List Message)
    (stored : Map.lookup (key_of topic partition) b.storage.data_of ≡ some ms)
    (counted : Counted 0 ms) where
  consumed_lem :
      (hw : ℤ)
      → consumed topic partition (pos offset) hw b
        ≡ returned ("messages=" ⧺ messages_text (between offset hw ms) ⧺ " hw=" ⧺ itoa hw) b
  unfolding consumed pure ◌>>=◌ read_messages or_panic
  consumed_lem hw = elim (Bool-cases (ltb_ℤ hw (pos 0) || ltb_ℤ hw (pos offset))) [
    | inl e ↦ rw (e, empty e) (unfold records_text join ◌⧺◌ in refl)
    | inr e ↦ rw (e, read, visible-between offset hw 0 ms counted) refl
  ]
    where
      read : consume b.storage (key_of topic partition) (pos offset) ≡ some (from_offset offset ms)
      read =
          (consume_lem b.storage (key_of topic partition) ms 0 offset stored counted).0
          ∙ ap (λ k. some (from_offset k ms)) (omega arith)

      empty : (ltb_ℤ hw (pos 0) || ltb_ℤ hw (pos offset)) ≡ true → between offset hw ms ≡ []
      empty e = between-unreached offset hw ms (ground arith)

-- The broker after the request: the clock has been read, and the partition's high watermark updated.
abbrev pub read_once : Broker → String → ℤ → Broker
read_once b topic partition =
    let (t, w) = World.now b.storage.world in
    record b {
      storage = put_world b.storage w;
      replication = (high_watermark b.replication topic partition t).0;
    }

module _ (b : Broker) (topic : String) (partition : ℤ) (offset : ℕ) (ms : List Message)
    (stored : Map.lookup (key_of topic partition) b.storage.data_of ≡ some ms)
    (counted : Counted 0 ms) where
  still_stored :
      Map.lookup (key_of topic partition) (read_once b topic partition).storage.data_of ≡ some ms
  unfolding put_world
  still_stored = stored

  seen :
      (md : TopicMetadata)
      → Map.lookup topic b.controller.metadata.topics ≡ some md
      → Map.lookup topic (snapshot b.controller).topics ≡ some md
  unfolding snapshot
  seen md h = ap (λ s. Map.lookup topic s.topics) (clone_lem b.controller.metadata) ∙ h

  -- A consumer gets just the records from the offset asked for on that the high watermark, as it stands at the
  -- time of the request, has reached. The topic and the partition are known, and the log counts from 0.
  pub handle_consume_lem :
      (md : TopicMetadata) (pm : PartitionMetadata)
      → (topic == "") ≡ false
      → Map.lookup topic b.controller.metadata.topics ≡ some md
      → Map.lookup partition md.partitions ≡ some pm
      → IsInt64 partition
      → IsInt64 (pos offset)
      → let hw = (high_watermark b.replication topic partition (World.now b.storage.world).0).1 in
        handle_consume (topic ∷ itoa partition ∷ itoa (pos offset) ∷ []) b
        ≡ returned
            ("messages=" ⧺ messages_text (between offset hw ms) ⧺ " hw=" ⧺ itoa hw)
            (read_once b topic partition)
  unfolding handle_consume int_arg parse_int topic_arg ensure_topic_metadata known_or_made now
      metadata on_replication or_raise raise_result pure ◌>>=◌
  handle_consume_lem md pm named known there bound bound' =
      rw (atoi-itoa partition bound, atoi-itoa (pos offset) bound', named, seen md known, there)
        (consumed_lem (read_once b topic partition) topic partition offset ms still_stored counted
          _)
