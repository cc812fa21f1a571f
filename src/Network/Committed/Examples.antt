-- ===== src/Network/Committed/Examples.antt =====
-- A member of a group commits, and asks for the offset.
use distributed_real_time_ev.Base.{◌+◌, pos, [], ◌≡◌, refl, ◌∙◌, arith}
use distributed_real_time_ev.Base.Text.{◌⧺◌, itoa}
use distributed_real_time_ev.Storage.World
use distributed_real_time_ev.Storage.State.{put_world}
use distributed_real_time_ev.Coordinator.Group.{validate_commit}
use distributed_real_time_ev.Coordinator.Group.Examples.{manager, owner}
use distributed_real_time_ev.Coordinator.Offsets.{commit}
use distributed_real_time_ev.Broker.{
  Broker, returned, ◌>>=◌, pure, now, on_groups, on_offsets, raise_error,
}
use distributed_real_time_ev.Network.Groups.{commit_offset, handle_offset}
use distributed_real_time_ev.Network.Committed.{
  offset_args, commit_args_lem, handle_offset-handle_commit,
}
use distributed_real_time_ev.Network.Examples.{broker, one_log}

-- A broker whose clock shows 2000.
abbrev before : Broker
before = record broker {
  groups = manager;
  storage = record one_log {
    world = record { files = []; answers = []; clock = λ n. n + 2000; ticks = 0 };
  };
}

abbrev after : Broker
after = record before {
  storage = put_world before.storage (World.now before.storage.world).1;
  groups = (validate_commit manager "g" "t" "a" (pos 3) (pos 2) 2000).0;
  offsets = commit before.offsets "g" "t" (pos 2) (pos 9);
}

accepted :
    commit_offset "g" "t" "a" (pos 3) (pos 2) (pos 9) before ≡ returned "committed=true" after
unfolding commit_offset now on_groups on_offsets raise_error pure ◌>>=◌ World.now
accepted = rw owner refl

handle_offset-handle_commit_example :
    handle_offset (offset_args "g" "t" (pos 2)) after ≡ returned ("offset=" ⧺ itoa (pos 9)) after
handle_offset-handle_commit_example =
    handle_offset-handle_commit before after "g" "t" "a" (pos 3) (pos 2) (pos 9) "committed=true"
      (omega arith, omega arith) (omega arith, omega arith) (omega arith, omega arith)
      (commit_args_lem before after "g" "t" "a" (pos 3) (pos 2) (pos 9) "committed=true"
          (omega arith, omega arith) (omega arith, omega arith) (omega arith, omega arith)
        ∙ accepted)
