-- ===== src/ControlPlane/Store/Invariant.antt =====
-- What holds of the metadata whatever the controller does: the maps key each broker, topic and
-- partition by its own id or name, ids are not negative, and no topic has the empty name.
use distributed_real_time_ev.Base.{
  ℤ, pos, ltb_ℤ, false, String, ◌==◌, ==_iff, string_comparable, Comparable, int_comparable, some,
  ◌≡◌, refl, subst, inl, inr, Bool-cases,
}
use distributed_real_time_ev.Base.Map
use distributed_real_time_ev.Base.Map.{Map}
use distributed_real_time_ev.ControlPlane.Metadata.{
  PartitionMetadata, TopicMetadata, BrokerMetadata, MetadataSnapshot,
}
use distributed_real_time_ev.ControlPlane.Store.{put_topic, put_broker, new_raft_metadata_store}

-- An entry of a map stands under its own id, which is not negative.
abbrev pub KeyedBroker : ℤ → BrokerMetadata → Type 0
KeyedBroker id b = (b.id ≡ id) × (ltb_ℤ id (pos 0) ≡ false)

abbrev pub KeyedPartition : ℤ → PartitionMetadata → Type 0
KeyedPartition pid p = (p.id ≡ pid) × (ltb_ℤ pid (pos 0) ≡ false)

abbrev pub KeyedPartitions : Map ℤ PartitionMetadata → Type 0
KeyedPartitions m =
    (pid : ℤ) (p : PartitionMetadata) → Map.lookup pid m ≡ some p → KeyedPartition pid p

abbrev pub KeyedTopic : String → TopicMetadata → Type 0
KeyedTopic name t = (t.name ≡ name) × ((name == "") ≡ false) × KeyedPartitions t.partitions

pub record Inv (m : MetadataSnapshot) : Type 0 where
  pub brokers : (id : ℤ) (b : BrokerMetadata) → Map.lookup id m.brokers ≡ some b → KeyedBroker id b
  pub topics :
      (name : String) (t : TopicMetadata) → Map.lookup name m.topics ≡ some t → KeyedTopic name t

pub new_raft_metadata_store-Inv : Inv new_raft_metadata_store.metadata
unfolding new_raft_metadata_store Map.lookup
new_raft_metadata_store-Inv = record {
  brokers = λ id b h. absurd (cc h);
  topics = λ name t h. absurd (cc h);
}

-- Reading back what has been written keeps a property of all entries.
module _ {K V : Type 0} ⦃c : Comparable K⦄ (P : K → V → Type 0) where
  pub inserted :
      (k : K) (v : V) (m : Map K V)
      → ((j : K) (w : V) → Map.lookup j m ≡ some w → P j w)
      → P k v
      → (j : K) (w : V) → Map.lookup j (Map.insert k v m) ≡ some w
      → P j w
  inserted k v m all p j w h = elim (Bool-cases (k == j)) [
    | inl e ↦
        let q : some v ≡ some w = rw (Map.lookup-insert, e) at h in
        let same : v ≡ w = cc q in subst (λ x. P j x) same (subst (λ x. P x v) ((==_iff k j).0 e) p)
    | inr e ↦ all j w (rw (Map.lookup-insert, e) at h)
  ]

pub put_broker-Inv :
    (m : MetadataSnapshot) (b : BrokerMetadata)
    → Inv m
    → ltb_ℤ b.id (pos 0) ≡ false
    → Inv (put_broker m b.id b)
unfolding put_broker
put_broker-Inv m b i h = record {
  brokers = inserted KeyedBroker b.id b m.brokers i.brokers (refl, h);
  topics = i.topics;
}

pub put_topic-Inv :
    (m : MetadataSnapshot) (name : String) (t : TopicMetadata)
    → Inv m
    → KeyedTopic name t
    → Inv (put_topic m name t)
unfolding put_topic
put_topic-Inv m name t i h = record {
  brokers = i.brokers;
  topics = inserted KeyedTopic name t m.topics i.topics h;
}
