-- ===== src/Replication/Worker/Loop.antt =====
-- The loop of `StepOnce` (core/internal/replication/worker.go) over the records that were fetched: how far it gets,
-- and why it stops there.
use distributed_real_time_ev.Base.{
  ℕ, zero, suc, ◌+◌, ◌≤◌, ℤ, ◌==◌, ==_iff, string_comparable, int_comparable, String, Option, none,
  some, List, [], ◌∷◌, length, take, drop, ◌≡◌, ◌≢◌, refl, ap, ◌∙◌, ◌⊎◌, inl, inr, Bool-cases,
  Option-cases, arith,
}
use distributed_real_time_ev.Replication.Worker.{
  ReplicationRecord, Transport, ReplicaStorage, FollowerWorker, StepError, gap, storage_error,
  LoopState, next, apply_records,
}

-- The offset after `k` increments.
unfoldable pub advance : ℕ → ℤ → ℤ
advance zero n = n
advance (suc k) n = advance k (next n)

-- The records have the offsets `n`, the next one and so on.
unfoldable pub Consecutive : ℤ → List ReplicationRecord → Type 0
Consecutive n [] = Unit
Consecutive n (r ∷ rest) = (r.offset ≡ n) × Consecutive (next n) rest

unfoldable pub last_at : ℕ → ℤ → ℤ → ℤ
last_at zero last n = last
last_at (suc j) last n = advance j n

module _ {W : Type 0} (transport : Transport W) (storage : ReplicaStorage W)
    (w : FollowerWorker) where
  -- The world after the local store has been given the records, in their order.
  unfoldable pub stored : W → List ReplicationRecord → W
  stored world [] = world
  stored world (r ∷ rest) =
      stored (storage.append_replicated w.topic w.partition r.offset r.value world).1 rest

  -- The local store takes each of the records, given in their order.
  unfoldable pub Accepted : W → List ReplicationRecord → Type 0
  Accepted world [] = Unit
  Accepted world (r ∷ rest) =
      let (err, world') = storage.append_replicated w.topic w.partition r.offset r.value world in
      (err ≡ none) × Accepted world' rest

  -- Why the records behind the first `count` are left, where the offset `expected` is due, with the
  -- error and the world: the next one has another offset, or the local store refuses it.
  pub data Stopped (world : W) (expected : ℤ) (records : List ReplicationRecord) (count : ℕ)
      (failure : Option StepError) (world' : W) : Type 0 where
    gap_found :
        {r : ReplicationRecord} {rest : List ReplicationRecord}
        → drop count records ≡ r ∷ rest
        → r.offset ≢ expected
        → failure ≡ some (gap expected r.offset)
        → world' ≡ stored world (take count records)
        → Stopped world expected records count failure world'
    store_refused :
        {r : ReplicationRecord} {rest : List ReplicationRecord} {e : String}
        → drop count records ≡ r ∷ rest
        → r.offset ≡ expected
        → storage.append_replicated w.topic w.partition r.offset r.value
            (stored world (take count records))
          ≡ (some e, world')
        → failure ≡ some (storage_error e)
        → Stopped world expected records count failure world'

  pub record LoopOutcome (s s' : LoopState W) (records : List ReplicationRecord) : Type 0 where
    pub count : ℕ
    pub within : count ≤ length records
    pub applied : s'.applied ≡ s.applied + count
    pub offset : s'.next_offset ≡ advance count s.next_offset
    pub last : s'.last_applied ≡ last_at count s.last_applied s.next_offset
    pub consecutive : Consecutive s.next_offset (take count records)
    pub accepted : Accepted s.world (take count records)
    pub outcome :
        ((s'.failure ≡ none) × (count ≡ length records) × (s'.world ≡ stored s.world records))
        ⊎ Stopped s.world (advance count s.next_offset) records count s'.failure s'.world

  stopped :
      (s : LoopState W) (records : List ReplicationRecord) (world : W) (err : StepError)
      → Stopped s.world s.next_offset records 0 (some err) world
      → LoopOutcome s (record s { world = world; failure = some err }) records
  unfolding advance last_at Consecutive Accepted
  stopped s records world err why = record {
    count = 0;
    within = omega arith;
    applied = omega arith;
    offset = refl;
    last = refl;
    consecutive = tt;
    accepted = tt;
    outcome = inr why;
  }

  further :
      (world : W) (r : ReplicationRecord) (rest : List ReplicationRecord) (expected : ℤ) (count : ℕ)
      (failure : Option StepError) (world' : W)
      → Stopped
          (storage.append_replicated w.topic w.partition r.offset r.value world).1
          expected
          rest
          count
          failure
          world'
      → Stopped world expected (r ∷ rest) (suc count) failure world'
  unfolding stored
  further world r rest expected count failure world' (gap_found d n f e) = gap_found d n f e
  further world r rest expected count failure world' (store_refused d n a f) = store_refused d n a f

  after_record : LoopState W → ReplicationRecord → W → LoopState W
  after_record s r world = record s {
    next_offset = next s.next_offset;
    world = world;
    applied = s.applied + 1;
    last_applied = r.offset;
  }

  last_at-next : (k : ℕ) (l n : ℤ) → last_at k n (next n) ≡ last_at (suc k) l n
  unfolding last_at advance
  last_at-next zero l n = refl
  last_at-next (suc k) l n = refl

  grown :
      (s s' : LoopState W) (r : ReplicationRecord) (rest : List ReplicationRecord)
      → r.offset ≡ s.next_offset
      → (storage.append_replicated w.topic w.partition r.offset r.value s.world).0 ≡ none
      → LoopOutcome
          (after_record s r
            (storage.append_replicated w.topic w.partition r.offset r.value s.world).1)
          s'
          rest
      → LoopOutcome s s' (r ∷ rest)
  unfolding after_record advance Consecutive stored Accepted
  grown s s' r rest e a h = record {
    count = suc h.count;
    within = omega (arith, h.within);
    applied = omega (arith, h.applied);
    offset = h.offset;
    last = h.last ∙ ap (λ l. last_at h.count l (next s.next_offset)) e ∙ last_at-next h.count _ _;
    consecutive = (e, h.consecutive);
    accepted = (a, h.accepted);
    outcome = elim h.outcome [
      | inl (f, c, x) ↦ inl (f, ap suc c, x)
      | inr q ↦ inr (further s.world r rest _ h.count s'.failure s'.world q)
    ];
  }

  pub apply_records-outcome :
      (s : LoopState W) (records : List ReplicationRecord)
      → s.failure ≡ none
      → LoopOutcome s (apply_records transport storage w s records) records
  unfolding apply_records stored advance last_at Consecutive after_record Accepted
  apply_records-outcome s [] f = record {
    count = 0;
    within = omega arith;
    applied = omega arith;
    offset = refl;
    last = refl;
    consecutive = tt;
    accepted = tt;
    outcome = inl (f, refl, refl);
  }
  apply_records-outcome s (r ∷ rest) f =
      let (err, world') = storage.append_replicated w.topic w.partition r.offset r.value s.world in
      let ih = apply_records-outcome (after_record s r world') rest f in
      elim (Bool-cases (r.offset == s.next_offset)) [
        | inr e ↦ rw e (
            stopped s (r ∷ rest) _ _
              (gap_found refl (λ q. let d = (==_iff r.offset s.next_offset).1 q in cc) refl refl))
        | inl e ↦ elim (Option-cases err) [
          | inr (x, g) ↦
              rw (e, g)
                (stopped s (r ∷ rest) _ _ (
                  store_refused refl ((==_iff r.offset s.next_offset).0 e) (ap (λ o. (o, world')) g)
                    refl))
          | inl g ↦ rw (e, g) (grown s _ r rest ((==_iff r.offset s.next_offset).0 e) g ih)
        ]
      ]
