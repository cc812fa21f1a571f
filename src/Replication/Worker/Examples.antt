-- ===== src/Replication/Worker/Examples.antt =====
-- A step of the worker against a recorded leader and a list as the local store, which may be full.
use distributed_real_time_ev.Base.{
  ◌≤◌, ℤ, int64, pos, refl, ◌+ℤ◌, ◌==◌, int_comparable, none, some, String, List, [], ◌∷◌, take,
  ◌≡◌, ◌⊎◌, arith, if◌then◌else◌,
}
use distributed_real_time_ev.Replication.Worker.{
  ReplicationRecord, Transport, ReplicaStorage, FollowerWorker, received, storage_error,
  apply_batch, acknowledge, apply_records,
}
use distributed_real_time_ev.Replication.Worker.Loop.{Accepted, Stopped}
use distributed_real_time_ev.Replication.Worker.Progress.{Contiguous, Complete, apply_batch_lem}

-- What the leader and the store have been asked, the last first.
abbrev Trace : Type 0
Trace = List (ℤ × String)

abbrev recorder : Transport Trace
recorder = record {
  fetch = λ topic partition follower offset batch trace.
      (received (record { high_watermark = pos 0; records = [] }), trace);
  ack = λ topic partition follower offset trace. (none, (offset, "ack") ∷ trace);
}

abbrev worker : FollowerWorker
worker = record {
  follower_id = pos 1;
  topic = "orders";
  partition = pos 0;
  next_offset = pos 4;
  max_batch = pos 100;
}

abbrev fourth : ReplicationRecord
fourth = record { offset = pos 4; value = "a" }

abbrev fifth : ReplicationRecord
fifth = record { offset = pos 5; value = "b" }

-- A store that has no room for a sixth record.
abbrev small : ReplicaStorage Trace
small = record {
  append_replicated = λ topic partition offset value trace.
      if offset == pos 6 then (some "no space left", trace) else (none, (offset, value) ∷ trace);
}

abbrev sixth : ReplicationRecord
sixth = record { offset = pos 6; value = "c" }

refused_run : apply_batch recorder small worker [] (fourth ∷ fifth ∷ sixth ∷ []) ≡ (
  record worker { next_offset = pos 6 },
  (pos 5, "b") ∷ (pos 4, "a") ∷ [],
  2,
  some (storage_error "no space left"),
)
unfolding apply_batch acknowledge apply_records ◌+ℤ◌ int64
refused_run = refl

apply_batch_lem_example :
    let (w', world', applied, err) =
      apply_batch recorder small worker [] (fourth ∷ fifth ∷ sixth ∷ []) in
    (applied ≤ 3)
    × (w' ≡ record worker { next_offset = pos 4 +ℤ pos applied })
    × Contiguous (pos 4) (take applied (fourth ∷ fifth ∷ sixth ∷ []))
    × Accepted recorder small worker [] (take applied (fourth ∷ fifth ∷ sixth ∷ []))
    × (Complete recorder small worker [] fourth (fifth ∷ sixth ∷ []) applied err world'
        ⊎ Stopped recorder small worker []
            (pos 4 +ℤ pos applied)
            (fourth ∷ fifth ∷ sixth ∷ [])
            applied
            err
            world')
unfolding ◌+ℤ◌
apply_batch_lem_example =
    apply_batch_lem recorder small worker [] fourth (fifth ∷ sixth ∷ []) (omega arith) (omega arith)
