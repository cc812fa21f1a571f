-- ===== src/Broker.antt =====
-- core/internal/broker/broker.go: the broker that holds the parts together. A handler is an action on
-- the broker: it reads the parts, writes them, and may answer early with an error. The clock is that of
-- the storage's world; a call may read it once more than the source does where that reading is not used.
pub mod Topics
pub mod Start
pub mod Runtime
pub mod Keeping
use distributed_real_time_ev.Base.{
  ℤ, Time, Bool, true, false, not, String, Option, none, some, List, if◌then◌else◌,
}
use distributed_real_time_ev.Base.Text.{◌⧺◌, itoa}
use distributed_real_time_ev.Storage.World
use distributed_real_time_ev.Storage.State.{Storage, put_world}
use distributed_real_time_ev.Coordinator.State.{GroupManager}
use distributed_real_time_ev.Coordinator.Offsets.{OffsetManager}
use distributed_real_time_ev.Replication.Manager.{Manager}
use distributed_real_time_ev.ControlPlane.Metadata.{MetadataSnapshot}
use distributed_real_time_ev.ControlPlane.Store.{
  MetadataError, invalid, unknown_command, broker_not_found, topic_not_found, partition_not_found,
  RaftMetadataStore, Result, error, ok, snapshot,
}

pub record Broker : Type 0 where
  pub storage : Storage
  pub groups : GroupManager
  pub offsets : OffsetManager
  pub replication : Manager
  pub controller : RaftMetadataStore
  pub local_broker_id : ℤ
  pub default_partitions : ℤ
  pub default_replication_factor : ℤ

-- How an action ends: with a value, with an early answer of an error code and a message, with a panic,
-- or not within the schedule that it is given.
pub data Ran (A : Type 0) : Type 0 where
  returned : A → Broker → Ran A
  raised : String → String → Broker → Ran A
  panicked waiting : Ran A

abbrev pub Action : Type 0 → Type 0
Action A = Broker → Ran A

abbrev pub continue : {A B : Type 0} → Ran A → (A → Action B) → Ran B
continue (returned a b) f = f a b
continue (raised code message b) f = raised code message b
continue panicked f = panicked
continue waiting f = waiting

infixl 5 ◌>>=◌ ◌>>◌
unfoldable pub ◌>>=◌ : {A B : Type 0} → Action A → (A → Action B) → Action B
◌>>=◌ m f b = continue (m b) f

abbrev pub ◌>>◌ : {A B : Type 0} → Action A → Action B → Action B
m >> k = m >>= λ _. k

module _ {A : Type 0} where
  unfoldable pub pure : A → Action A
  pure a b = returned a b

  -- return protocol.Err(req.CorrelationID, code, message)
  unfoldable pub raise : String → String → Action A
  raise code message b = raised code message b

  unfoldable pub gets : (Broker → A) → Action A
  gets f b = returned (f b) b

  -- A method of one of the parts.
  unfoldable pub on_storage : (Storage → A × Storage) → Action A
  on_storage f b = let (a, s) = f b.storage in returned a (record b { storage = s })

  unfoldable pub on_groups : (GroupManager → GroupManager × A) → Action A
  on_groups f b = let (gm, a) = f b.groups in returned a (record b { groups = gm })

  unfoldable pub on_replication : (Manager → Manager × A) → Action A
  on_replication f b = let (m, a) = f b.replication in returned a (record b { replication = m })

  unfoldable pub on_controller : (RaftMetadataStore → RaftMetadataStore × A) → Action A
  on_controller f b = let (s, a) = f b.controller in returned a (record b { controller = s })

unfoldable pub on_offsets : (OffsetManager → OffsetManager) → Action (Unit {0})
on_offsets f b = returned tt (record b { offsets = f b.offsets })

-- A method that returns nothing.
abbrev pub done : {S : Type 0} → (S → S) → S → S × Unit {0}
done f s = (f s, tt)

-- time.Now()
unfoldable pub now : Action Time
now b =
    let (t, w) = World.now b.storage.world in
    returned t (record b { storage = put_world b.storage w })

-- Controller.Snapshot()
unfoldable pub metadata : Action MetadataSnapshot
metadata b = returned (snapshot b.controller) b

-- if cond { return protocol.Err(...) }
unfoldable pub raise_if : Bool → String → String → Action (Unit {0})
raise_if true code message b = raised code message b
raise_if false code message b = returned tt b

-- if err != nil { return protocol.Err(...) }
unfoldable pub raise_error : Option String → String → Action (Unit {0})
raise_error none code b = returned tt b
raise_error (some message) code b = raised code message b

unfoldable pub or_raise : {A : Type 0} → Option A → String → String → Action A
or_raise none code message b = raised code message b
or_raise (some a) code message b = returned a b

-- err.Error() of an error of the control plane.
unfoldable pub message_of : MetadataError → String
message_of (invalid message) = message
message_of (unknown_command kind) = "unknown command type: " ⧺ kind
message_of (broker_not_found id) = "broker not found: " ⧺ itoa id
message_of (topic_not_found topic) = "topic not found: " ⧺ topic
message_of (partition_not_found topic partition) =
    "partition not found: topic=" ⧺ topic ⧺ " partition=" ⧺ itoa partition

unfoldable pub raise_result : {A : Type 0} → Result A → Action A
raise_result (error e) b = raised "BAD_REQUEST" (message_of e) b
raise_result (ok a) b = returned a b
