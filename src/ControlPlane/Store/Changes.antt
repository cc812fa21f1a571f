-- ===== src/ControlPlane/Store/Changes.antt =====
-- Every command that `Apply` accepts keeps the invariant.
use distributed_real_time_ev.Base.{
  ℤ, pos, ltb_ℤ, Time, is_zero, Bool, true, false, ◌||◌, String, ◌==◌, string_comparable,
  int_comparable, Option, none, some, List, [], ◌∷◌, ◌≡◌, refl, sym, subst, ◌∙◌, inl, inr,
  Bool-cases,
}
use distributed_real_time_ev.Base.Map
use distributed_real_time_ev.Base.Map.{Map}
use distributed_real_time_ev.ControlPlane.Metadata.{
  PartitionMetadata, TopicMetadata, BrokerMetadata, MetadataSnapshot, clone_topic,
}
use distributed_real_time_ev.ControlPlane.Metadata.Copies.{clone_topic_lem}
use distributed_real_time_ev.ControlPlane.Store.{
  Command, upsert_topic, register_broker, heartbeat_broker, set_leader, set_fence,
  PartitionLeaderUpdate, BrokerFenceUpdate, MetadataError, invalid, unknown_command, finished,
  broker_not_found, topic_not_found, partition_not_found, RaftMetadataStore, Result, error, ok,
  reject, given, validate_command, change, put_topic, put_broker, upserted, registered, beaten, led,
  leader_set, fence_set, apply,
}
use distributed_real_time_ev.ControlPlane.Store.Invariant.{
  KeyedPartition, KeyedPartitions, Inv, inserted, put_broker-Inv, put_topic-Inv,
}

-- A command that has passed the validation has its payload, which passed the test.
payload :
    {A : Type 0} (o : Option A) (bad : A → Bool) (message : String) (d : Result MetadataSnapshot)
    (f : A → Result MetadataSnapshot) (m : MetadataSnapshot)
    → reject o bad message ≡ none
    → given o d f ≡ ok m
    → (a : A) × (o ≡ some a) × (bad a ≡ false) × (f a ≡ ok m)
unfolding reject given
payload none bad message d f m h k = absurd (cc h)
payload (some a) bad message d f m h k = elim (Bool-cases (bad a)) [
  | inl e ↦ let q : some (invalid message) ≡ none = rw e at h in absurd (cc q)
  | inr e ↦ (a, refl, e, k)
]

ok-injective : {A : Type 0} {a b : A} → ok a ≡ ok b → a ≡ b
ok-injective h = cc h

or-false : (a b : Bool) → (a || b) ≡ false → (a ≡ false) × (b ≡ false)
or-false true b h = absurd (cc h)
or-false false b h = (refl, h)

pub led-id : (p : PartitionMetadata) (u : PartitionLeaderUpdate) → (led p u).id ≡ p.id
unfolding led
led-id p u = by_isr u.isr
  where
    by_isr :
        (isr : List ℤ)
        → (let moved : PartitionMetadata = record p { leader_id = u.leader_id } in
            let updated : PartitionMetadata = elim isr [
              | [] ↦ moved
              | _ ∷ _ ↦ record moved { isr = u.isr }
            ] in
            updated.id ≡ p.id)
    by_isr [] = refl
    by_isr (x ∷ xs) = refl

-- The change that a command makes, once its payload is known.
module _ (m m' : MetadataSnapshot) (i : Inv m) where
  upserted-Inv :
      (t : TopicMetadata)
      → (t.name == "") ≡ false
      → KeyedPartitions t.partitions
      → ok (upserted m t) ≡ ok m'
      → Inv m'
  unfolding upserted
  upserted-Inv t e k c =
      let q : put_topic m t.name (clone_topic t) ≡ m' = cc c in
      subst Inv q (rw clone_topic_lem (put_topic-Inv m t.name t i (refl, e, k)))

  registered-Inv :
      (b : BrokerMetadata) (now : Time)
      → ltb_ℤ b.id (pos 0) ≡ false
      → ok (registered m b now) ≡ ok m'
      → Inv m'
  unfolding registered
  registered-Inv b now h c =
      let q : registered m b now ≡ m' = cc c in
      subst Inv q (elim (Bool-cases (is_zero b.last_heartbeat)) [
        | inl e ↦ rw e (put_broker-Inv m (record b { last_heartbeat = now }) i h)
        | inr e ↦ rw e (put_broker-Inv m b i h)
      ])

  -- A change of a broker that is there.
  rewritten-Inv :
      (id : ℤ) (f : BrokerMetadata → BrokerMetadata)
      → ((b : BrokerMetadata) → (f b).id ≡ b.id)
      → (r : Option BrokerMetadata) → Map.lookup id m.brokers ≡ r
      → ltb_ℤ id (pos 0) ≡ false
      → (let found : Result MetadataSnapshot = elim r [
        | none ↦ error (broker_not_found id)
        | some b ↦ ok (put_broker m b.id (f b))
      ] in
          found ≡ ok m')
      → Inv m'
  rewritten-Inv id f keeps none e h c = absurd (cc c)
  rewritten-Inv id f keeps (some b) e h c =
      let q : put_broker m b.id (f b) ≡ m' = cc c in
      let own : b.id ≡ id = (i.brokers id b e).0 in
      subst Inv q (
        subst (λ x. Inv (put_broker m x (f b))) (keeps b)
          (put_broker-Inv m (f b) i (subst (λ x. ltb_ℤ x (pos 0) ≡ false) (sym (keeps b ∙ own)) h)))

  leader_set-Inv :
      (u : PartitionLeaderUpdate)
      → (u.topic == "" || ltb_ℤ u.partition (pos 0)) ≡ false
      → leader_set m u ≡ ok m'
      → Inv m'
  leader_set-Inv u h c = by_topic (Map.lookup u.topic m.topics) refl
    where
      by_partition :
          (t : TopicMetadata)
          → Map.lookup u.topic m.topics ≡ some t
          → (r : Option PartitionMetadata) → Map.lookup u.partition t.partitions ≡ r
          → Inv m'
      by_partition t e none f =
          let q : error (partition_not_found u.topic u.partition) ≡ ok m' =
            unfold leader_set in rw (leader_set, e, f) at c in
          absurd (cc q)
      by_partition t e (some p) f =
          let found : ok (
                put_topic m u.topic
                  (record t { partitions = Map.insert u.partition (led p u) t.partitions }))
              ≡ ok m' =
            unfold leader_set in rw (leader_set, e, f) at c in
          let (own, _, keyed) = i.topics u.topic t e in
          let (named, counted) = or-false (u.topic == "") (ltb_ℤ u.partition (pos 0)) h in
          subst Inv (ok-injective found) (
            put_topic-Inv m u.topic _ i (
              own,
              named,
              inserted KeyedPartition u.partition (led p u) t.partitions keyed
                  (led-id p u ∙ (keyed u.partition p f).0, counted),
            ))

      by_topic : (r : Option TopicMetadata) → Map.lookup u.topic m.topics ≡ r → Inv m'
      by_topic none e =
          let q : error (topic_not_found u.topic) ≡ ok m' =
            unfold leader_set in rw (leader_set, e) at c in
          absurd (cc q)
      by_topic (some t) e = by_partition t e (Map.lookup u.partition t.partitions) refl

-- The topic that a command carries, if it carries one, has partitions under their own ids.
abbrev pub CarriesKeyed : Command → Type 0
CarriesKeyed cmd = (t : TopicMetadata) → cmd.topic ≡ some t → KeyedPartitions t.partitions

fence_set-Inv :
    (m m' : MetadataSnapshot) (u : BrokerFenceUpdate)
    → Inv m
    → ltb_ℤ u.broker_id (pos 0) ≡ false
    → fence_set m u ≡ ok m'
    → Inv m'
unfolding fence_set
fence_set-Inv m m' u i h c =
    rewritten-Inv m m' i u.broker_id (λ b. record b { fenced = u.fenced }) (λ b. refl)
      (Map.lookup u.broker_id m.brokers) refl h c

beaten-Inv :
    (m m' : MetadataSnapshot) (id : ℤ) (now : Time)
    → Inv m
    → ltb_ℤ id (pos 0) ≡ false
    → beaten m id now ≡ ok m'
    → Inv m'
unfolding beaten
beaten-Inv m m' id now i h c =
    rewritten-Inv m m' i id (λ b. record b { last_heartbeat = now; fenced = false }) (λ b. refl)
      (Map.lookup id m.brokers) refl h c

change-Inv :
    (m m' : MetadataSnapshot) (cmd : Command) (now : Time)
    → Inv m
    → CarriesKeyed cmd
    → validate_command cmd ≡ none
    → change m cmd now ≡ ok m'
    → Inv m'
unfolding validate_command change
change-Inv m m' cmd now i k v c = elim (Bool-cases (cmd.kind == upsert_topic)) [
  | inl a ↦
      let (t, e, h, d) = payload cmd.topic _ _ _ _ m' (rw a at v) (rw a at c) in
      upserted-Inv m m' i t h (k t e) d
  | inr a ↦ elim (Bool-cases (cmd.kind == register_broker)) [
    | inl b ↦
        let (x, e, h, d) = payload cmd.broker _ _ _ _ m' (rw (a, b) at v) (rw (a, b) at c) in
        registered-Inv m m' i x now h d
    | inr b ↦ elim (Bool-cases (cmd.kind == heartbeat_broker)) [
      | inl d ↦
          let (x, e, h, q) =
            payload cmd.broker_heartbeat _ _ _ _ m' (rw (a, b, d) at v) (rw (a, b, d) at c) in
          beaten-Inv m m' x now i h q
      | inr d ↦ elim (Bool-cases (cmd.kind == set_leader)) [
        | inl f ↦
            let (x, e, h, q) =
              payload cmd.partition_leader _ _ _ _ m' (rw (a, b, d, f) at v)
                (rw (a, b, d, f) at c) in
            leader_set-Inv m m' i x h q
        | inr f ↦ elim (Bool-cases (cmd.kind == set_fence)) [
          | inl g ↦
              let (x, e, h, q) =
                payload cmd.broker_fence _ _ _ _ m' (rw (a, b, d, f, g) at v)
                  (rw (a, b, d, f, g) at c) in
              fence_set-Inv m m' x i h q
          | inr g ↦
              let q : some (unknown_command cmd.kind) ≡ none = rw (a, b, d, f, g) at v in
              absurd (cc q)
        ]
      ]
    ]
  ]
]

pub apply-Inv :
    (s : RaftMetadataStore) (cmd : Command) (now : Time)
    → CarriesKeyed cmd
    → Inv s.metadata
    → Inv (apply s cmd now).0.metadata
unfolding apply finished
apply-Inv s cmd now k i = by_check (validate_command cmd) refl (change s.metadata cmd now) refl
  where
    by_check :
        (v : Option MetadataError)
        → validate_command cmd ≡ v
        → (c : Result MetadataSnapshot) → change s.metadata cmd now ≡ c
        → Inv (apply s cmd now).0.metadata
    by_check (some e) v c d = rw (apply, v) i
    by_check none v (error e) d = rw (apply, v, d) i
    by_check none v (ok m) d = rw (apply, v, d) (change-Inv s.metadata m cmd now i k v d)
