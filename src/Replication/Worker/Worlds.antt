-- ===== src/Replication/Worker/Worlds.antt =====
-- What a step of a follower (core/internal/replication/worker.go) leaves of the world that its connection and
-- its local store act on.
use distributed_real_time_ev.Base.{
  ℕ, ℤ, pos, leb_ℤ, ◌==◌, String, int_comparable, Option, some, List, [], ◌∷◌, inl, inr, Bool-cases,
  Option-cases,
}
use distributed_real_time_ev.Replication.Worker.{
  ReplicationRecord, Fetched, received, failed, Transport, ReplicaStorage, FollowerWorker,
  LoopState, apply_records, acknowledge, apply_batch, step_once, StepError, transport_error,
}

module _ {W : Type 0} (transport : Transport W) (storage : ReplicaStorage W) (P : W → Type 0)
    (fetched-P : (topic : String) (partition follower offset max : ℤ) (w : W)
      → P w
      → P (transport.fetch topic partition follower offset max w).1)
    (acked-P : (topic : String) (partition follower offset : ℤ) (w : W)
      → P w
      → P (transport.ack topic partition follower offset w).1)
    (appended-P : (topic : String) (partition offset : ℤ) (value : String) (w : W)
      → P w
      → P (storage.append_replicated topic partition offset value w).1) where
  apply_records-P :
      (w : FollowerWorker) (rs : List ReplicationRecord) (s : LoopState W)
      → P s.world
      → P (apply_records transport storage w s rs).world
  unfolding apply_records
  apply_records-P w [] s p = p
  apply_records-P w (r ∷ rest) s p =
      let q = appended-P w.topic w.partition r.offset r.value s.world p in
      elim (Bool-cases (r.offset == s.next_offset)) [
        | inr e ↦ rw e p
        | inl e ↦
            elim (Option-cases
              (storage.append_replicated w.topic w.partition r.offset r.value s.world).0) [
                | inr (_, f) ↦ rw (e, f) q
                | inl f ↦ rw (e, f) (apply_records-P w rest _ q)
              ]
      ]

  acknowledge-P :
      (w : FollowerWorker) (s : LoopState W)
      → P s.world
      → P (acknowledge transport storage w s).world
  unfolding acknowledge
  acknowledge-P w s p = elim (Option-cases s.failure) [
    | inr (_, f) ↦ rw f p
    | inl f ↦ elim (Bool-cases (leb_ℤ (pos 0) s.last_applied)) [
      | inl e ↦ rw (f, e) (acked-P w.topic w.partition w.follower_id s.last_applied s.world p)
      | inr e ↦ rw (f, e) p
    ]
  ]

  apply_batch-P :
      (w : FollowerWorker) (world : W) (rs : List ReplicationRecord)
      → P world
      → P (apply_batch transport storage w world rs).1
  unfolding apply_batch
  apply_batch-P w world [] p = p
  apply_batch-P w world (r ∷ rest) p = acknowledge-P w _ (apply_records-P w (r ∷ rest) _ p)

  pub step_once-P :
      (w : FollowerWorker) (world : W) → P world → P (step_once transport storage w world).1
  unfolding step_once
  step_once-P w world p =
      let q = fetched-P w.topic w.partition w.follower_id w.next_offset w.max_batch world p in
      rest (transport.fetch w.topic w.partition w.follower_id w.next_offset w.max_batch world) q
    where
      rest :
          (r : Fetched × W)
          → P r.1
          → (let done : FollowerWorker × W × ℕ × Option StepError = elim r.0 [
            | failed e ↦ (w, r.1, 0, some (transport_error e))
            | received result ↦ apply_batch transport storage w r.1 result.records
          ] in
              P done.1)
      rest (failed e, world₁) q = q
      rest (received result, world₁) q = apply_batch-P w world₁ result.records q
