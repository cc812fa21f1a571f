-- ===== src/Replication/Worker/Progress.antt =====
-- How far one step of the worker gets, and what it has stored and acknowledged by then.
use distributed_real_time_ev.Base.{
  ℕ, zero, suc, ◌≤◌, ℤ, pos, negsuc, ◌+ℤ◌, ◌≤ℤ◌, ◌<ℤ◌, leb_ℤ, int64_lem, true, Option, none, some,
  List, [], ◌∷◌, length, take, ◌≡◌, refl, subst, ap, ◌∙◌, ◌⊎◌, inl, inr, arith,
}
use distributed_real_time_ev.Base.Int.{int_laws}
use distributed_real_time_ev.Replication.Worker.{
  ReplicationRecord, Transport, ReplicaStorage, FollowerWorker, StepError, LoopState, next, refused,
  apply_records, acknowledge, apply_batch,
}
use distributed_real_time_ev.Replication.Worker.Loop.{
  advance, Consecutive, last_at, stored, Accepted, Stopped, gap_found, store_refused, LoopOutcome,
  apply_records-outcome,
}

-- The records have the offsets `n`, `n + 1` and so on.
abbrev pub Contiguous : ℤ → List ReplicationRecord → Type 0
Contiguous n [] = Unit
Contiguous n (r ∷ rest) = (r.offset ≡ n) × Contiguous (n +ℤ pos 1) rest

pub next_lem : (n : ℤ) → pos 0 ≤ℤ n → n <ℤ pos 9223372036854775807 → next n ≡ n +ℤ pos 1
unfolding ◌+ℤ◌
next_lem n h k = int64_lem _ (ground arith)

advance_lem :
    (k : ℕ) (n : ℤ) → pos 0 ≤ℤ n → n +ℤ pos k ≤ℤ pos 9223372036854775807 → advance k n ≡ n +ℤ pos k
unfolding advance
advance_lem zero n h b = omega int_laws
advance_lem (suc k) n h b =
    let fits : n <ℤ pos 9223372036854775807 = omega (int_laws, b) in
    let e = next_lem n h fits in
    rw e (advance_lem k (n +ℤ pos 1) (omega (int_laws, h)) (omega (int_laws, b)) ∙ omega int_laws)

Contiguous-of_Consecutive :
    (n : ℤ) (records : List ReplicationRecord)
    → pos 0 ≤ℤ n
    → n +ℤ pos (length records) ≤ℤ pos 9223372036854775807
    → Consecutive n records
    → Contiguous n records
unfolding Consecutive
Contiguous-of_Consecutive n [] h b c = tt
Contiguous-of_Consecutive n (r ∷ rest) h b c =
    let fits : n <ℤ pos 9223372036854775807 = omega (int_laws, b) in
    (
      c.0,
      Contiguous-of_Consecutive (n +ℤ pos 1) rest (omega (int_laws, h)) (omega (int_laws, b))
          (subst (λ k. Consecutive k rest) (next_lem n h fits) c.1),
    )

length-take-le :
    (k : ℕ) (records : List ReplicationRecord) → length (take k records) ≤ length records
length-take-le zero records = omega arith
length-take-le (suc k) [] = omega arith
length-take-le (suc k) (r ∷ rest) = omega (arith, length-take-le k rest)

last_at-suc : (k : ℕ) (l n : ℤ) → last_at (suc k) l n ≡ advance k n
unfolding last_at
last_at-suc k l n = refl

module _ {W : Type 0} (transport : Transport W) (storage : ReplicaStorage W)
    (w : FollowerWorker) where
  -- What the acknowledgement leaves of the loop's result.
  acknowledge_keeps :
      (s : LoopState W)
      → ((acknowledge transport storage w s).applied ≡ s.applied)
        × ((acknowledge transport storage w s).next_offset ≡ s.next_offset)
  unfolding acknowledge
  acknowledge_keeps s = ground arith

  acknowledge_stopped :
      (s : LoopState W) (err : StepError)
      → s.failure ≡ some err
      → ((acknowledge transport storage w s).failure ≡ s.failure)
        × ((acknowledge transport storage w s).world ≡ s.world)
  unfolding acknowledge
  acknowledge_stopped s err f = rw (acknowledge, f) (f, refl)

  acknowledge_sent :
      (s : LoopState W) (offset : ℤ)
      → s.last_applied ≡ offset
      → pos 0 ≤ℤ offset
      → s.failure ≡ none
      → ((acknowledge transport storage w s).failure
          ≡ refused (transport.ack w.topic w.partition w.follower_id offset s.world).0)
        × ((acknowledge transport storage w s).world
            ≡ (transport.ack w.topic w.partition w.follower_id offset s.world).1)
  unfolding acknowledge
  acknowledge_sent s offset e h f =
      let due : leb_ℤ (pos 0) s.last_applied ≡ true = rw e (ground (arith, h)) in
      rw (acknowledge, f, due)
        (
          ap (λ l. refused (transport.ack w.topic w.partition w.follower_id l s.world).0) e,
          ap (λ l. (transport.ack w.topic w.partition w.follower_id l s.world).1) e,
        )

  -- All the records are applied, and the last one has been acknowledged, with the answer `err`.
  unfoldable pub Complete :
      W → ReplicationRecord → List ReplicationRecord → ℕ → Option StepError → W → Type 0
  Complete world r rest applied err world' =
      let (answer, after) =
        transport.ack w.topic w.partition w.follower_id (w.next_offset +ℤ pos (length rest))
          (stored transport storage w world (r ∷ rest)) in
      (applied ≡ suc (length rest)) × (err ≡ refused answer) × (world' ≡ after)

  batch_ended :
      (s s' : LoopState W) (r : ReplicationRecord) (rest : List ReplicationRecord)
      → (o : LoopOutcome transport storage w s s' (r ∷ rest)) → s.next_offset ≡ w.next_offset
      → pos 0 ≤ℤ w.next_offset
      → w.next_offset +ℤ pos (suc (length rest)) ≤ℤ pos 9223372036854775807
      → Complete s.world r rest o.count
          (acknowledge transport storage w s').failure
          (acknowledge transport storage w s').world
        ⊎ Stopped transport storage w s.world
            (advance o.count s.next_offset)
            (r ∷ rest)
            o.count
            (acknowledge transport storage w s').failure
            (acknowledge transport storage w s').world
  unfolding Complete
  batch_ended s s' r rest o n h b = elim o.outcome [
    | inr q ↦ inr (kept q)
    | inl (g, c, x) ↦
        let last : s'.last_applied ≡ w.next_offset +ℤ pos (length rest) =
          o.last
          ∙ ap (λ k. last_at k s.last_applied s.next_offset) c
          ∙ last_at-suc (length rest) s.last_applied s.next_offset
          ∙ ap (advance (length rest)) n
          ∙ advance_lem (length rest) w.next_offset h (omega (int_laws, b)) in
        let sent = acknowledge_sent s' _ last (omega (int_laws, h)) g in
        inl (
          c,
          sent.0
              ∙ ap
                  (λ z.
                    refused
                      (transport.ack w.topic w.partition w.follower_id
                        (w.next_offset +ℤ pos (length rest)) z).0)
                  x,
          sent.1
              ∙ ap
                  (λ z.
                    (transport.ack w.topic w.partition w.follower_id
                      (w.next_offset +ℤ pos (length rest)) z).1)
                  x,
        )
  ]
    where
      stays :
          (err : StepError)
          → s'.failure ≡ some err
          → Stopped transport storage w s.world
              (advance o.count s.next_offset)
              (r ∷ rest)
              o.count
              s'.failure
              s'.world
          → Stopped transport storage w s.world
              (advance o.count s.next_offset)
              (r ∷ rest)
              o.count
              (acknowledge transport storage w s').failure
              (acknowledge transport storage w s').world
      stays err f q = let (a, e) = acknowledge_stopped s' err f in rw (a, e) q

      kept :
          Stopped transport storage w s.world
            (advance o.count s.next_offset)
            (r ∷ rest)
            o.count
            s'.failure
            s'.world
          → Stopped transport storage w s.world
              (advance o.count s.next_offset)
              (r ∷ rest)
              o.count
              (acknowledge transport storage w s').failure
              (acknowledge transport storage w s').world
      kept (gap_found d m f e) = stays _ f (gap_found d m f e)
      kept (store_refused d m a f) = stays _ f (store_refused d m a f)

  -- Whatever the leader sends, the worker applies a run of records that starts at its next offset and
  -- has no gap, each of which the local store has taken in its turn, and moves its next offset by
  -- exactly that many records. Either that is all of them: then the last one is acknowledged, in the
  -- world where all are stored, and the error is that of the acknowledgement, if any. Or the next
  -- record has another offset than the one due: then the error says so, and the records of the run are
  -- stored and nothing else is done. Or the local store refuses the next record: then the error is the
  -- store's, and nothing is done after that. The offsets are taken to stay within 64 bits.
  pub apply_batch_lem :
      (world : W) (r : ReplicationRecord) (rest : List ReplicationRecord)
      → pos 0 ≤ℤ w.next_offset
      → w.next_offset +ℤ pos (suc (length rest)) ≤ℤ pos 9223372036854775807
      → let (w', world', applied, err) = apply_batch transport storage w world (r ∷ rest) in
        (applied ≤ suc (length rest))
        × (w' ≡ record w { next_offset = w.next_offset +ℤ pos applied })
        × Contiguous w.next_offset (take applied (r ∷ rest))
        × Accepted transport storage w world (take applied (r ∷ rest))
        × (Complete world r rest applied err world'
            ⊎ Stopped transport storage w world
                (w.next_offset +ℤ pos applied)
                (r ∷ rest)
                applied
                err
                world')
  unfolding apply_batch
  apply_batch_lem world r rest h b =
      let start : LoopState W = record {
        next_offset = w.next_offset;
        world = world;
        applied = 0;
        last_applied = negsuc 0;
        failure = none;
      } in
      let s = apply_records transport storage w start (r ∷ rest) in
      let a : LoopState W = acknowledge transport storage w s in
      let o = apply_records-outcome transport storage w start (r ∷ rest) refl in
      let count : (acknowledge transport storage w s).applied ≡ o.count =
        omega (arith, (acknowledge_keeps s).0, o.applied) in
      let moved : advance o.count w.next_offset ≡ w.next_offset +ℤ pos o.count =
        advance_lem o.count w.next_offset h (omega (int_laws, o.within, b)) in
      rw count (
        o.within,
        ap (λ n. record w { next_offset = n }) ((acknowledge_keeps s).1 ∙ o.offset ∙ moved),
        Contiguous-of_Consecutive w.next_offset (take o.count (r ∷ rest)) h
            (omega (int_laws, b, length-take-le o.count (r ∷ rest))) o.consecutive,
        o.accepted,
        elim (batch_ended start s r rest o refl h b) [
          | inl q ↦ inl q
          | inr q ↦ inr (
              subst (λ n. Stopped transport storage w world n (r ∷ rest) o.count a.failure a.world)
                moved q)
        ],
      )
