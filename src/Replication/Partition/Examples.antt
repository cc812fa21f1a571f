-- ===== src/Replication/Partition/Examples.antt =====
-- The theorems about one partition at a concrete state, and runs of `recomputeLocked`.
use distributed_real_time_ev.Base.{
  pos, negsuc, ◌-ℤ◌, time_sub, int64, true, false, [], ◌∷◌, ◌≡◌, refl, arith,
}
use distributed_real_time_ev.Replication.Partition.{
  Config, ReplicaState, PartitionState, refresh, refresh_all, fresh, in_sync_offsets, min_offset,
  recompute,
}
use distributed_real_time_ev.Replication.Partition.Watermark.{
  IsValid, IsWatermark, recompute-IsWatermark,
}
use distributed_real_time_ev.Replication.Partition.Isr.{watermark-max_lag_zero}

-- Lags up to 2, and 5 seconds.
abbrev lagging : Config
lagging = record {
  replication_factor = pos 3;
  min_in_sync_replicas = pos 2;
  max_replica_lag = pos 2;
  replica_lag_timeout = pos 5000000000;
  ack_all_timeout = pos 250000000;
}

abbrev strict : Config
strict = record lagging { max_replica_lag = pos 0 }

abbrev near : ReplicaState
near = record { offset = pos 5; last_seen = 1000; in_sync = false }

abbrev far : ReplicaState
far = record { offset = pos 1; last_seen = 1000; in_sync = true }

abbrev partition : PartitionState
partition = record {
  role = "leader";
  leader_offset = pos 6;
  high_watermark = negsuc 0;
  followers = (pos 1, near) ∷ (pos 2, far) ∷ [];
}

partition-IsValid : IsValid partition
partition-IsValid = omega arith

-- The follower that trails by 5 drops out and the one that trails by 1 comes in.
recompute_run : (recompute lagging 2000 partition).0.high_watermark ≡ pos 5
unfolding recompute refresh_all refresh fresh in_sync_offsets min_offset time_sub int64 ◌-ℤ◌
recompute_run = refl

recompute-IsWatermark_example :
    IsWatermark
      (recompute lagging 2000 partition).0.high_watermark
      (pos 6)
      (recompute lagging 2000 partition).0.followers
recompute-IsWatermark_example = recompute-IsWatermark lagging 2000 partition partition-IsValid

watermark-max_lag_zero_example : (recompute strict 2000 partition).0.high_watermark ≡ pos 6
watermark-max_lag_zero_example =
    watermark-max_lag_zero strict 2000 partition refl (omega arith) partition-IsValid
