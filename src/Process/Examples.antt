-- ===== src/Process/Examples.antt =====
-- A process that starts in an empty directory, and serves a few lines.
use Prim.Native.Char.{Char}
use distributed_real_time_ev.Base.{ℕ, ◌+◌, String, none, List, [], ◌∷◌, refl}
use distributed_real_time_ev.Storage.World.{World}
use distributed_real_time_ev.Storage.Record.{size}
use distributed_real_time_ev.Coordinator.State.{absent}
use distributed_real_time_ev.Coordinator.Offsets.{absent as no_offsets}
use distributed_real_time_ev.Replication.Worker.{Transport, failed}
use distributed_real_time_ev.Broker.Start.{Disk}
use distributed_real_time_ev.Process.{Event, line, role_tick, step_tick, Process, main}
use distributed_real_time_ev.Process.Invariant.{IsSound, main-IsSound}

abbrev same : Char → Char
same c = c

abbrev byte_count : String → ℕ
byte_count s = size s

-- No peer can be reached.
abbrev unreachable : String → Transport ℕ
unreachable addr = record {
  fetch = λ topic partition follower offset batch n. (failed "connection refused", n + 1);
  ack = λ topic partition follower offset n. (none, n);
}

abbrev no_settings : String → String
no_settings key = ""

abbrev empty_disk : Disk
empty_disk = record {
  group_file = absent;
  group_saves = [];
  offset_file = no_offsets;
  offset_saves = [];
}

abbrev quiet_world : World
quiet_world = record { files = []; answers = []; clock = λ n. n + 63000000000000000000; ticks = 0 }

abbrev events : List Event
events =
    line "V1|1|PRODUCE|orders k:v acks=1" []
    ∷ role_tick
    ∷ line "V1|2|JOIN|billing orders c1" []
    ∷ step_tick
    ∷ line "V1|3|CONSUME|orders 0 0" []
    ∷ []

abbrev outcome : Process ℕ
outcome =
    main same same byte_count byte_count unreachable no_settings empty_disk quiet_world 0 events

main-IsSound_example : IsSound outcome
main-IsSound_example =
    main-IsSound same same byte_count byte_count unreachable no_settings empty_disk quiet_world 0
      events refl
