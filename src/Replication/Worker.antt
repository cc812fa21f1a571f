-- ===== src/Replication/Worker.antt =====
-- core/internal/replication/worker.go: the follower's loop of fetch, apply and acknowledge. The two
-- interfaces that the worker is given act on a world `W`: the connection and the local store.
pub mod Loop
pub mod Progress
pub mod Worlds
mod Examples
use distributed_real_time_ev.Base.{
  ℕ, suc, ◌+◌, ℤ, pos, negsuc, ◌+ℤ◌, leb_ℤ, ltb_ℤ, int64, Bool, true, false, not, ◌==◌, String,
  string_comparable, int_comparable, Option, none, some, List, [], ◌∷◌, if◌then◌else◌,
}

pub record ReplicationRecord : Type 0 where
  pub offset : ℤ
  pub value : String

pub record FetchResult : Type 0 where
  pub high_watermark : ℤ
  pub records : List ReplicationRecord

pub data Fetched : Type 0 where
  received : FetchResult → Fetched
  failed : String → Fetched

-- The topic, the partition, the follower, the offset and the batch size; an acknowledgement has no
-- batch size.
pub record Transport (W : Type 0) : Type 0 where
  pub fetch : String → ℤ → ℤ → ℤ → ℤ → W → Fetched × W
  pub ack : String → ℤ → ℤ → ℤ → W → Option String × W

pub record ReplicaStorage (W : Type 0) : Type 0 where
  pub append_replicated : String → ℤ → ℤ → String → W → Option String × W

pub record WorkerConfig : Type 0 where
  pub follower_id : ℤ
  pub topic : String
  pub partition : ℤ
  pub start_offset : ℤ
  pub max_batch : ℤ

pub record FollowerWorker : Type 0 where
  pub follower_id : ℤ
  pub topic : String
  pub partition : ℤ
  pub next_offset : ℤ
  pub max_batch : ℤ

pub data Created : Type 0 where
  created : FollowerWorker → Created
  rejected : String → Created

-- `NewFollowerWorker`, whose two interfaces are there: they are arguments of `step_once`.
unfoldable pub new_follower_worker : WorkerConfig → Created
new_follower_worker cfg =
    if leb_ℤ cfg.follower_id (pos 0)
    then rejected "follower id must be > 0"
    else if cfg.topic == ""
    then rejected "topic is required"
    else if ltb_ℤ cfg.partition (pos 0)
    then rejected "partition must be >= 0"
    else if ltb_ℤ cfg.start_offset (pos 0)
    then rejected "start offset must be >= 0"
    else created (record {
      follower_id = cfg.follower_id;
      topic = cfg.topic;
      partition = cfg.partition;
      next_offset = cfg.start_offset;
      max_batch = if leb_ℤ cfg.max_batch (pos 0) then pos 100 else cfg.max_batch;
    })

pub data StepError : Type 0 where
  transport_error : String → StepError
  gap : ℤ → ℤ → StepError
  storage_error : String → StepError

-- The variables of the loop of `StepOnce`, and the error that it returns with, if any.
pub record LoopState (W : Type 0) : Type 0 where
  pub next_offset : ℤ
  pub world : W
  pub applied : ℕ
  pub last_applied : ℤ
  pub failure : Option StepError

-- w.nextOffset++
abbrev pub next : ℤ → ℤ
next offset = int64 (offset +ℤ pos 1)

-- The error of the acknowledgement.
abbrev pub refused : Option String → Option StepError
refused none = none
refused (some e) = some (transport_error e)

module _ {W : Type 0} (transport : Transport W) (storage : ReplicaStorage W) where
  -- The loop over the fetched records.
  pub apply_records : FollowerWorker → LoopState W → List ReplicationRecord → LoopState W
  apply_records w s [] = s
  apply_records w s (r ∷ rest) =
      let (err, world') = storage.append_replicated w.topic w.partition r.offset r.value s.world in
      let done =
        apply_records w
          (record s {
            next_offset = next s.next_offset;
            world = world';
            applied = s.applied + 1;
            last_applied = r.offset;
          })
          rest in
      if not (r.offset == s.next_offset)
      then record s { failure = some (gap s.next_offset r.offset) }
      else elim err [
        | some e ↦ record s { world = world'; failure = some (storage_error e) }
        | none ↦ done
      ]

  -- The acknowledgement after the loop.
  pub acknowledge : FollowerWorker → LoopState W → LoopState W
  acknowledge w s =
      let (err, world') = transport.ack w.topic w.partition w.follower_id s.last_applied s.world in
      elim s.failure [
        | some e ↦ s
        | none ↦
            if leb_ℤ (pos 0) s.last_applied
            then record s { world = world'; failure = refused err }
            else s
      ]

  -- `StepOnce` from the records that were fetched.
  pub apply_batch :
      FollowerWorker → W → List ReplicationRecord → FollowerWorker × W × ℕ × Option StepError
  apply_batch w world [] = (w, world, 0, none)
  apply_batch w world (r ∷ rest) =
      let start : LoopState W = record {
        next_offset = w.next_offset;
        world = world;
        applied = 0;
        last_applied = negsuc 0;
        failure = none;
      } in
      let s = acknowledge w (apply_records w start (r ∷ rest)) in
      (record w { next_offset = s.next_offset }, s.world, s.applied, s.failure)

  -- `StepOnce`: the worker and the world after it, the number of records applied, and the error.
  pub step_once : FollowerWorker → W → FollowerWorker × W × ℕ × Option StepError
  step_once w world =
      let (fetched, world₁) =
        transport.fetch w.topic w.partition w.follower_id w.next_offset w.max_batch world in
      elim fetched [
        | failed e ↦ (w, world₁, 0, some (transport_error e))
        | received result ↦ apply_batch w world₁ result.records
      ]
