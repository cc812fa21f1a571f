-- ===== src/Broker/Runtime/Copying.antt =====
-- What a follower worker of core/internal/broker/cluster_runtime.go copies from its leader into the broker's own
-- storage.
use distributed_real_time_ev.Base.{ℤ, pos, ◌+ℤ◌, List, ◌++◌, map, length, ◌≡◌, ◌≢◌}
use distributed_real_time_ev.Storage.Record.{Message}
use distributed_real_time_ev.Storage.State.{Key, key_comparable, Storage, messages}
use distributed_real_time_ev.Storage.Log.Appending.{next_of}
use distributed_real_time_ev.Storage.Log.Calm.{Calm}
use distributed_real_time_ev.Replication.Worker.{ReplicationRecord, FollowerWorker}
use distributed_real_time_ev.Broker.{Broker}

-- The partition that a worker copies.
abbrev pub copied_key : FollowerWorker → Key
copied_key w = record { topic = w.topic; partition = w.partition }

abbrev pub copy_of : ReplicationRecord → Message
copy_of r = record { offset = r.offset; value = r.value }

-- The storage `s'` has got these records, behind what `s` has, under the offsets from `n` on.
pub record Copied (s s' : Storage) (k : Key) (n : ℤ) (records : List ReplicationRecord)
    : Type 0 where
  pub appended : messages s' k ≡ messages s k ++ map copy_of records
  pub others : (j : Key) → k ≢ j → messages s' j ≡ messages s j
  pub next_is : next_of s' k ≡ n +ℤ pos (length records)
