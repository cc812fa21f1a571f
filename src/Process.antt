-- ===== src/Process.antt =====
-- core/cmd/broker/main.go: the process. It loads the configuration, makes the broker and starts its
-- runtime; then goroutines serve the connections beside the runtime's loop. The model runs one line of a
-- connection, or one tick of the runtime, after the other, in any order; only the wait of acks=all is
-- left open to the others, by its rounds.
pub mod Invariant
mod Examples
use Prim.Native.Char.{Char}
use distributed_real_time_ev.Base.{ℕ, String, List, [], ◌∷◌}
use distributed_real_time_ev.Storage.World.{World}
use distributed_real_time_ev.Replication.Manager.AckAll.{Round}
use distributed_real_time_ev.Replication.Worker.{Transport}
use distributed_real_time_ev.Config.{Config, Loaded, loaded, rejected, load}
use distributed_real_time_ev.Broker.{Broker}
use distributed_real_time_ev.Broker.Start.{Disk, new_broker}
use distributed_real_time_ev.Broker.Runtime.Workers.{Node, started, reconcile, step_workers}
use distributed_real_time_ev.Network.{Reply, reply, crashed, pending, serve_line}

pub data Event : Type 0 where
  line : String → List Round → Event
  role_tick step_tick : Event

-- The process runs, or a panic the end of a schedule, or a configuration
-- that is refused, has ended the run.
pub data Process (Net : Type 0) : Type 0 where
  running : Node Net → Process Net
  stopped : Process Net

module _ {Net : Type 0} (upper lower : Char → Char) (checksum hash : String → ℕ)
    (transport : String → Transport Net) where
  unfoldable pub answered : Node Net → Reply → Process Net
  answered node (reply text b) = running (record node { broker = b })
  answered node crashed = stopped
  answered node pending = stopped

  unfoldable pub step : Node Net → Event → Process Net
  step node (line text rounds) =
      answered node (serve_line upper lower checksum hash node.broker rounds text)
  step node role_tick = running (reconcile node)
  step node step_tick = running (step_workers checksum transport node)

  unfoldable pub run : Process Net → List Event → Process Net
  run stopped events = stopped
  run (running node) [] = running node
  run (running node) (e ∷ events) = run (step node e) events

  booted : Disk → World → Net → List Event → Loaded Config → Process Net
  booted disk w net events (rejected message) = stopped
  booted disk w net events (loaded cfg) =
      run (running (started cfg (new_broker checksum cfg disk w) net)) events

  -- `main`, on an environment, with what the disk holds and what happens then.
  unfoldable pub main : (String → String) → Disk → World → Net → List Event → Process Net
  unfolding booted
  main env disk w net events = booted disk w net events (load env)
