-- ===== src/Replication/Manager/Calls.antt =====
-- The manager's methods as one step function. `Manager` holds a mutex for the whole of each method,
-- so what any number of goroutines do to it is a sequence of these calls.
use distributed_real_time_ev.Base.{ℤ, Time, String, List, [], ◌∷◌}
use distributed_real_time_ev.Replication.Manager.{
  Manager, on_leader_append, ack_replica, high_watermark, is_leader, set_role, bootstrap_offset,
  status,
}

-- The topic and the partition, the method's other arguments, and the times that it reads.
pub data Call : Type 0 where
  append : String → ℤ → ℤ → Time → Call
  ack : String → ℤ → ℤ → ℤ → Time → Time → Call
  watermark : String → ℤ → Time → Call
  leads : String → ℤ → Call
  assume : String → ℤ → String → Time → Call
  bootstrap : String → ℤ → ℤ → Time → Call
  report : String → ℤ → Time → Call

unfoldable pub step : Manager → Call → Manager
step m (append t p offset now) = on_leader_append m t p offset now
step m (ack t p replica offset seen now) = (ack_replica m t p replica offset seen now).0
step m (watermark t p now) = (high_watermark m t p now).0
step m (leads t p) = (is_leader m t p).0
step m (assume t p role now) = (set_role m t p role now).0
step m (bootstrap t p offset now) = bootstrap_offset m t p offset now
step m (report t p now) = (status m t p now).0

unfoldable pub run : Manager → List Call → Manager
run m [] = m
run m (c ∷ cs) = run (step m c) cs
