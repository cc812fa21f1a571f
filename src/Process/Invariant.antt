-- ===== src/Process/Invariant.antt =====
-- The invariants of the parts while the process of core/cmd/broker/main.go runs.
use Prim.Native.Char.{Char}
use distributed_real_time_ev.Base.{ℕ, true, String, List, [], ◌∷◌, ◌≡◌, refl, sym, subst}
use distributed_real_time_ev.Storage.World.{World}
use distributed_real_time_ev.Coordinator.State.{absent, new_group_manager}
use distributed_real_time_ev.ControlPlane.Store.Invariant.{new_raft_metadata_store-Inv}
use distributed_real_time_ev.Replication.Manager.Invariant.{new_manager-Inv}
use distributed_real_time_ev.Replication.Worker.{Transport}
use distributed_real_time_ev.Config.{Config, Loaded, loaded, rejected, load}
use distributed_real_time_ev.Broker.{Broker, Ran, returned, raised, panicked, waiting}
use distributed_real_time_ev.Broker.Start.{
  Disk, bootstrap_controller_metadata, assembled, new_broker, replication_config,
}
use distributed_real_time_ev.Broker.Keeping.{Good, Keeps, Leaves, returns, plain_rules}
use distributed_real_time_ev.Broker.Keeping.Runtime.{
  enrol-Keeps, started-Good, reconcile-Good, step_workers-Good,
}
use distributed_real_time_ev.Broker.Runtime.Workers.{Node}
use distributed_real_time_ev.ControlPlane.Controller.{count_of}
use distributed_real_time_ev.Network.{Reply, reply, crashed, pending}
use distributed_real_time_ev.Network.Keeping.{Answers, answers, serve_line-Answers}
use distributed_real_time_ev.Process.{
  Event, line, role_tick, step_tick, Process, running, stopped, answered, step, run, booted, main,
}

module _ (checksum : String → ℕ) (cfg : Config) (disk : Disk) (w : World)
    (fresh : disk.group_file ≡ absent) where
  abbrev size : ℕ
  size = count_of cfg.num_partitions

  assembled-Good : Good size (assembled checksum cfg disk w)
  unfolding assembled new_group_manager
  assembled-Good = record {
    replication = new_manager-Inv (replication_config cfg) true;
    metadata = new_raft_metadata_store-Inv;
    groups = record { partitions = refl; groups = rw fresh tt };
  }

  bootstrap-Keeps : Keeps size (bootstrap_controller_metadata cfg)
  unfolding bootstrap_controller_metadata
  bootstrap-Keeps = search (plain_rules, enrol-Keeps) depth 20

  new_broker-Good : Good size (new_broker checksum cfg disk w)
  unfolding new_broker
  new_broker-Good =
      kept (bootstrap_controller_metadata cfg (assembled checksum cfg disk w))
        (bootstrap-Keeps.keeps _ assembled-Good)
    where
      kept :
          {A : Type 0} (r : Ran A)
          → Leaves size r
          → (let b : Broker = elim r [ returned _ b ↦ b | _ ↦ assembled checksum cfg disk w ] in
              Good size b)
      kept (returned a b) (returns g) = g
      kept (raised code message b) l = assembled-Good
      kept panicked l = assembled-Good
      kept waiting l = assembled-Good

-- A process that runs has a good broker.
data Sound {Net : Type 0} (n : ℕ) : Process Net → Type 0 where
  runs : {node : Node Net} → Good n node.broker → Sound n (running node)
  stops : Sound n stopped

-- The same, for the number of partitions that the groups share out.
pub data IsSound {Net : Type 0} : Process Net → Type 0 where
  goes_on :
      {node : Node Net}
      → Good node.broker.groups.num_partitions node.broker
      → IsSound (running node)
  ends : IsSound stopped

sound : {Net : Type 0} {n : ℕ} {p : Process Net} → Sound n p → IsSound p
sound {n = n} (runs {node} g) =
    goes_on (subst (λ k. Good k node.broker) (sym g.groups.partitions) g)
sound stops = ends

module _ {Net : Type 0} (upper lower : Char → Char) (checksum hash : String → ℕ)
    (transport : String → Transport Net) where
  answered-Sound :
      (n : ℕ) (node : Node Net) (r : Reply)
      → Answers n r
      → Sound n (answered upper lower checksum hash transport node r)
  unfolding answered
  answered-Sound n node (reply text b) (answers g) = runs g
  answered-Sound n node crashed a = stops
  answered-Sound n node pending a = stops

  step-Sound :
      (n : ℕ) (node : Node Net) (e : Event)
      → Good n node.broker
      → Sound n (step upper lower checksum hash transport node e)
  unfolding step
  step-Sound n node (line text rounds) g =
      answered-Sound n node _
        (serve_line-Answers upper lower checksum hash node.broker rounds text g)
  step-Sound n node role_tick g = runs (reconcile-Good node g)
  step-Sound n node step_tick g = runs (step_workers-Good checksum transport node g)

  run-Sound :
      (n : ℕ) (events : List Event) (p : Process Net)
      → Sound n p
      → Sound n (run upper lower checksum hash transport p events)
  unfolding run
  run-Sound n events stopped s = stops
  run-Sound n [] (running node) s = s
  run-Sound n (e ∷ events) (running node) (runs g) = run-Sound n events _ (step-Sound n node e g)

  booted-Good :
      (env : String → String) (disk : Disk) (w : World) (net : Net) (events : List Event)
      (l : Loaded Config)
      → disk.group_file ≡ absent
      → IsSound (booted upper lower checksum hash transport disk w net events l)
  unfolding booted
  booted-Good env disk w net events (rejected message) fresh = ends
  booted-Good env disk w net events (loaded cfg) fresh =
      let n = count_of cfg.num_partitions in
      sound (
        run-Sound n events _
          (runs (started-Good cfg _ net (new_broker-Good checksum cfg disk w fresh))))

  -- Start the process with whatever environment, log files and committed offsets, but with no file of
  -- groups, and let clients send whatever lines, in whatever order with the ticks of the runtime, whatever
  -- the network answers to its workers. Wherever the process is not ended by then, every replicated
  -- partition has as its high watermark the least offset of the leader and the followers in sync, the metadata
  -- stand under their own keys, and every group's assignments are those that its assignor makes for the
  -- members.
  pub main-IsSound :
      (env : String → String) (disk : Disk) (w : World) (net : Net) (events : List Event)
      → disk.group_file ≡ absent
      → IsSound (main upper lower checksum hash transport env disk w net events)
  unfolding main
  main-IsSound env disk w net events fresh = booted-Good env disk w net events (load env) fresh
