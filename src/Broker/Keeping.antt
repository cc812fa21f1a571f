-- ===== src/Broker/Keeping.antt =====
-- The invariants of the replication manager, of the metadata and of the consumer groups, for the actions on
-- the broker (core/internal/broker/broker.go): a rule for each way to build an action.
pub mod Calls
pub mod Topics
pub mod Runtime
use distributed_real_time_ev.Base.{
  ℕ, ℤ, Time, Bool, true, false, String, Option, none, some, List, if◌then◌else◌,
}
use distributed_real_time_ev.Storage.World
use distributed_real_time_ev.Storage.State.{Storage, put_world}
use distributed_real_time_ev.Coordinator.State.{GroupManager}
use distributed_real_time_ev.Coordinator.Group.Calls.{AllInv}
use distributed_real_time_ev.Coordinator.Offsets.{OffsetManager}
use distributed_real_time_ev.Replication.Manager.{Manager}
use distributed_real_time_ev.Replication.Manager.Invariant.{Inv as ManagerInv}
use distributed_real_time_ev.ControlPlane.Store.{RaftMetadataStore, Result, error, ok}
use distributed_real_time_ev.ControlPlane.Store.Invariant.{Inv as MetadataInv}
use distributed_real_time_ev.Broker.{
  Broker, Action, Ran, returned, raised, panicked, waiting, continue, ◌>>=◌, ◌>>◌, pure, raise,
  gets, on_storage, on_groups, on_replication, on_controller, on_offsets, now, metadata, raise_if,
  raise_error, or_raise, raise_result,
}

pub record Good (n : ℕ) (b : Broker) : Type 0 where
  pub replication : ManagerInv b.replication
  pub metadata : MetadataInv b.controller.metadata
  pub groups : AllInv n b.groups

-- The broker that an action leaves behind satisfies the invariant, also after an early answer.
pub data Leaves (n : ℕ) {A : Type 0} : Ran A → Type 0 where
  returns : {a : A} {b : Broker} → Good n b → Leaves n (returned a b)
  raises : {code message : String} {b : Broker} → Good n b → Leaves n (raised code message b)
  panics : Leaves n panicked
  waits : Leaves n waiting

pub record Keeps (n : ℕ) {A : Type 0} (m : Action A) : Type 0 where
  pub keeps : (b : Broker) → Good n b → Leaves n (m b)

module _ {n : ℕ} where
  continue-Leaves :
      {A B : Type 0} (r : Ran A) (f : A → Action B)
      → Leaves n r
      → ((a : A) → Keeps n (f a))
      → Leaves n (continue r f)
  continue-Leaves (returned a b) f (returns g) k = (k a).keeps b g
  continue-Leaves (raised code message b) f (raises g) k = raises g
  continue-Leaves panicked f l k = panics
  continue-Leaves waiting f l k = waits

  pub >>=-Keeps :
      {A B : Type 0} (m : Action A) (f : A → Action B)
      → Keeps n m
      → ((a : A) → Keeps n (f a))
      → Keeps n (m >>= f)
  unfolding ◌>>=◌
  >>=-Keeps m f h k = record { keeps = λ b g. continue-Leaves (m b) f (h.keeps b g) k }

  pub pure-Keeps : {A : Type 0} (a : A) → Keeps n (pure a)
  unfolding pure
  pure-Keeps a = record { keeps = λ b g. returns g }

  pub raise-Keeps : {A : Type 0} (code message : String) → Keeps n (raise {A = A} code message)
  unfolding raise
  raise-Keeps code message = record { keeps = λ b g. raises g }

  pub gets-Keeps : {A : Type 0} (f : Broker → A) → Keeps n (gets f)
  unfolding gets
  gets-Keeps f = record { keeps = λ b g. returns g }

  pub metadata-Keeps : Keeps n metadata
  unfolding metadata
  metadata-Keeps = record { keeps = λ b g. returns g }

  same_parts : (b : Broker) (s : Storage) → Good n b → Good n (record b { storage = s })
  same_parts b s g = record {
    replication = g.replication;
    metadata = g.metadata;
    groups = g.groups;
  }

  pub now-Keeps : Keeps n now
  unfolding now
  now-Keeps = record { keeps = λ b g. returns (same_parts b _ g) }

  pub on_storage-Keeps : {A : Type 0} (f : Storage → A × Storage) → Keeps n (on_storage f)
  unfolding on_storage
  on_storage-Keeps f = record { keeps = λ b g. returns (same_parts b _ g) }

  pub on_offsets-Keeps : (f : OffsetManager → OffsetManager) → Keeps n (on_offsets f)
  unfolding on_offsets
  on_offsets-Keeps f = record {
    keeps = λ b g.
        returns (record { replication = g.replication; metadata = g.metadata; groups = g.groups });
  }

  pub on_groups-Keeps :
      {A : Type 0} (f : GroupManager → GroupManager × A)
      → ((gm : GroupManager) → AllInv n gm → AllInv n (f gm).0)
      → Keeps n (on_groups f)
  unfolding on_groups
  on_groups-Keeps f h = record {
    keeps = λ b g. returns (record {
      replication = g.replication;
      metadata = g.metadata;
      groups = h b.groups g.groups;
    });
  }

  pub on_replication-Keeps :
      {A : Type 0} (f : Manager → Manager × A)
      → ((m : Manager) → ManagerInv m → ManagerInv (f m).0)
      → Keeps n (on_replication f)
  unfolding on_replication
  on_replication-Keeps f h = record {
    keeps = λ b g. returns (record {
      replication = h b.replication g.replication;
      metadata = g.metadata;
      groups = g.groups;
    });
  }

  pub on_controller-Keeps :
      {A : Type 0} (f : RaftMetadataStore → RaftMetadataStore × A)
      → ((s : RaftMetadataStore) → MetadataInv s.metadata → MetadataInv (f s).0.metadata)
      → Keeps n (on_controller f)
  unfolding on_controller
  on_controller-Keeps f h = record {
    keeps = λ b g. returns (record {
      replication = g.replication;
      metadata = h b.controller g.metadata;
      groups = g.groups;
    });
  }

  pub raise_if-Keeps : (c : Bool) (code message : String) → Keeps n (raise_if c code message)
  unfolding raise_if
  raise_if-Keeps true code message = record { keeps = λ b g. raises g }
  raise_if-Keeps false code message = record { keeps = λ b g. returns g }

  pub raise_error-Keeps : (e : Option String) (code : String) → Keeps n (raise_error e code)
  unfolding raise_error
  raise_error-Keeps none code = record { keeps = λ b g. returns g }
  raise_error-Keeps (some e) code = record { keeps = λ b g. raises g }

  pub or_raise-Keeps :
      {A : Type 0} (o : Option A) (code message : String) → Keeps n (or_raise o code message)
  unfolding or_raise
  or_raise-Keeps none code message = record { keeps = λ b g. raises g }
  or_raise-Keeps (some a) code message = record { keeps = λ b g. returns g }

  pub raise_result-Keeps : {A : Type 0} (r : Result A) → Keeps n (raise_result r)
  unfolding raise_result
  raise_result-Keeps (error e) = record { keeps = λ b g. raises g }
  raise_result-Keeps (ok a) = record { keeps = λ b g. returns g }

  pub if-Keeps :
      {A : Type 0} (c : Bool) (x y : Action A)
      → Keeps n x
      → Keeps n y
      → Keeps n (if c then x else y)
  if-Keeps true x y h k = h
  if-Keeps false x y h k = k

-- The rules that need no premise about a part.
pub ruleset plain_rules = (
  >>=-Keeps, pure-Keeps, raise-Keeps, gets-Keeps, metadata-Keeps, now-Keeps, on_storage-Keeps,
  on_offsets-Keeps, raise_if-Keeps, raise_error-Keeps, or_raise-Keeps, raise_result-Keeps, if-Keeps,
)
