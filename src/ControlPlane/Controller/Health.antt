-- ===== src/ControlPlane/Controller/Health.antt =====
-- `ReconcileBrokerHealth`: which brokers are fenced after it.
use distributed_real_time_ev.Base.{
  ℕ, ◌+◌, ℤ, pos, leb_ℤ, Time, Bool, true, false, ◌==◌, ==_iff, ==_refl, int_comparable, Option,
  none, some, List, [], ◌∷◌, In, ◌≡◌, refl, sym, subst, ap, ◌∙◌, ◌⊎◌, inl, inr, Bool-cases,
  Option-cases,
}
use distributed_real_time_ev.Base.Map
use distributed_real_time_ev.Base.Map.{Map, keys}
use distributed_real_time_ev.ControlPlane.Metadata.{BrokerMetadata, MetadataSnapshot}
use distributed_real_time_ev.ControlPlane.Store.{RaftMetadataStore, put_broker}
use distributed_real_time_ev.ControlPlane.Store.Applying.{applied, apply-set_fence, snapshot_lem}
use distributed_real_time_ev.ControlPlane.Store.Invariant.{Inv, KeyedBroker}
use distributed_real_time_ev.ControlPlane.Controller.{
  set_broker_fence, proceed, Outcome, stale, differ, reconcile_loop, reconcile_broker_health,
  sort_ints,
}
use distributed_real_time_ev.ControlPlane.Controller.Sorting.{visited_ids}

-- The store whose broker `id` is `b`.
abbrev with_broker : RaftMetadataStore → ℤ → BrokerMetadata → RaftMetadataStore
with_broker s id b = (applied s (put_broker s.metadata id b)).0

pub set_broker_fence-found :
    (s : RaftMetadataStore) (id : ℤ) (fenced : Bool) (now : Time) (b : BrokerMetadata)
    → KeyedBroker id b
    → Map.lookup id s.metadata.brokers ≡ some b
    → set_broker_fence s id fenced now
      ≡ applied s (put_broker s.metadata id (record b { fenced = fenced }))
unfolding set_broker_fence
set_broker_fence-found s id fenced now b k e = rw k.1 (
    apply-set_fence s now id fenced b k.1 e
    ∙ ap (λ x. applied s (put_broker s.metadata x (record b { fenced = fenced }))) k.0)

differ-false : (a b : Bool) → differ a b ≡ false → b ≡ a
differ-false true true h = refl
differ-false true false h = absurd (cc h)
differ-false false true h = absurd (cc h)
differ-false false false h = refl

module _ (timeout : ℤ) (now : Time) where
  -- The broker fenced just if it is stale.
  abbrev pub settled : BrokerMetadata → BrokerMetadata
  settled b = record b { fenced = stale timeout now b }

  abbrev pub settled? : Option BrokerMetadata → Option BrokerMetadata
  settled? none = none
  settled? (some b) = some (settled b)

  module _ (seen : MetadataSnapshot) (known : Inv seen) where
    -- In the middle of the loop a broker is as it was seen, or settled.
    abbrev Progress : RaftMetadataStore → Type 0
    Progress s =
        (id : ℤ)
        → (Map.lookup id s.metadata.brokers ≡ Map.lookup id seen.brokers)
          ⊎ (Map.lookup id s.metadata.brokers ≡ settled? (Map.lookup id seen.brokers))

    abbrev Settled : RaftMetadataStore → ℤ → Type 0
    Settled s id = Map.lookup id s.metadata.brokers ≡ settled? (Map.lookup id seen.brokers)

    record Done (s : RaftMetadataStore) (ids : List ℤ) (o : Outcome) : Type 0 where
      failure : o.failure ≡ none
      progress : Progress o.store
      keeps : (id : ℤ) → Settled s id → Settled o.store id
      visited : (id : ℤ) → In id ids → Settled o.store id
      topics : o.store.metadata.topics ≡ s.metadata.topics

    -- One more id, which the rest of the loop leaves settled.
    Done-cons :
        {s : RaftMetadataStore} {ids : List ℤ} {o : Outcome} (id : ℤ)
        → Done s ids o
        → Settled o.store id
        → Done s (id ∷ ids) o
    Done-cons {o} id d h = record {
      failure = d.failure;
      progress = d.progress;
      keeps = d.keeps;
      visited = λ j k. elim k [ inl e ↦ subst (Settled o.store) e h | inr m ↦ d.visited j m ];
      topics = d.topics;
    }

    -- Writing a broker settled.
    Progress-settle :
        (s : RaftMetadataStore) (id : ℤ) (b : BrokerMetadata)
        → Map.lookup id seen.brokers ≡ some b
        → (j : ℤ)
        → (Settled (with_broker s id (settled b)) id)
          × ((Map.lookup j (with_broker s id (settled b)).metadata.brokers
                ≡ Map.lookup j s.metadata.brokers)
              ⊎ (Settled (with_broker s id (settled b)) j))
    unfolding put_broker
    Progress-settle s id b e j = (
      here,
      elim (Bool-cases (id == j)) [
        | inl q ↦ inr (subst (Settled (with_broker s id (settled b))) ((==_iff id j).0 q) here)
        | inr q ↦ inl (rw (Map.lookup-insert, q) refl)
      ],
    )
      where
        here : Settled (with_broker s id (settled b)) id
        here = rw (Map.lookup-insert, ==_refl id, e) refl

    -- The same for an id whose broker the loop leaves alone, since it is settled already.
    Done-skip :
        {s : RaftMetadataStore} {ids : List ℤ} {o : Outcome} (id : ℤ)
        → Map.lookup id seen.brokers ≡ settled? (Map.lookup id seen.brokers)
        → Done s ids o
        → Done s (id ∷ ids) o
    Done-skip id h d = Done-cons id d (elim (d.progress id) [ inl q ↦ q ∙ h | inr q ↦ q ])

    -- The same for an id whose broker is written first.
    Done-settle :
        (s : RaftMetadataStore) (ids : List ℤ) (o : Outcome) (id : ℤ) (b : BrokerMetadata)
        → Map.lookup id seen.brokers ≡ some b
        → Done (with_broker s id (settled b)) ids o
        → Done s (id ∷ ids) o
    unfolding put_broker
    Done-settle s ids o id b e d =
        Done-cons id
          (record {
            failure = d.failure;
            progress = d.progress;
            keeps = λ j h.
                d.keeps j (elim (Progress-settle s id b e j).1 [ inl q ↦ q ∙ h | inr q ↦ q ]);
            visited = d.visited;
            topics = d.topics;
          })
          (d.keeps id (Progress-settle s id b e id).0)

    settling :
        (s : RaftMetadataStore) (id : ℤ) (b : BrokerMetadata)
        → Map.lookup id seen.brokers ≡ some b
        → Progress s
        → set_broker_fence s id (stale timeout now b) now
          ≡ applied s (put_broker s.metadata id (settled b))
    unfolding stale
    settling s id b e p = elim (p id) [
      | inl q ↦ set_broker_fence-found s id _ now b (known.brokers id b e) (q ∙ e)
      | inr q ↦
          set_broker_fence-found s id _ now (settled b) (known.brokers id b e) (q ∙ ap settled? e)
    ]

    loop-Done :
        (ids : List ℤ) (s : RaftMetadataStore) (n : ℕ)
        → Progress s
        → Done s ids (reconcile_loop timeout now seen ids s n)
    unfolding reconcile_loop proceed
    loop-Done [] s n p = record {
      failure = refl;
      progress = p;
      keeps = λ id h. h;
      visited = λ id h. elim h [ ];
      topics = refl;
    }
    loop-Done (id ∷ ids) s n p = elim (Option-cases (Map.lookup id seen.brokers)) [
      | inl e ↦ rw (reconcile_loop, e) (Done-skip id (rw e refl) (loop-Done ids s n p))
      | inr (b, e) ↦ elim (Bool-cases (differ b.fenced (stale timeout now b))) [
        | inr same ↦
            let kept : b ≡ settled b =
              λ i. record b { fenced = sym (differ-false b.fenced (stale timeout now b) same) i } in
            rw (reconcile_loop, e, same)
              (Done-skip id (e ∙ ap some kept ∙ ap settled? (sym e)) (loop-Done ids s n p))
        | inl moved ↦
            rw (reconcile_loop, e, moved, settling s id b e p)
              (Done-settle s ids _ id b e (
                loop-Done ids (with_broker s id (settled b)) (n + 1) (λ j.
                  elim (Progress-settle s id b e j).1 [
                    | inl q ↦ elim (p j) [ inl a ↦ inl (q ∙ a) | inr a ↦ inr (q ∙ a) ]
                    | inr q ↦ inr q
                  ])))
      ]
    ]

-- Of metadata that satisfies the invariant, and for a positive timeout, a reconciliation ends with
-- no error; then every broker that was registered is fenced exactly when it is stale: when it has
-- never sent a heartbeat, or its last is longer ago than the timeout. Nothing else of the brokers
-- and nothing of the topics has changed, and no broker has come or gone.
pub reconcile_broker_health_lem :
    (s : RaftMetadataStore) (timeout : ℤ) (now : Time)
    → Inv s.metadata
    → leb_ℤ timeout (pos 0) ≡ false
    → ((reconcile_broker_health s timeout now).failure ≡ none)
      × ((id : ℤ)
          → Map.lookup id (reconcile_broker_health s timeout now).store.metadata.brokers
            ≡ settled? timeout now (Map.lookup id s.metadata.brokers))
      × ((reconcile_broker_health s timeout now).store.metadata.topics ≡ s.metadata.topics)
unfolding reconcile_broker_health
reconcile_broker_health_lem s timeout now i h = rw (h, snapshot_lem s) (d.failure, all, d.topics)
  where
    d :
        Done timeout now s.metadata i s
          (sort_ints (keys s.metadata.brokers))
          (reconcile_loop timeout now s.metadata (sort_ints (keys s.metadata.brokers)) s 0)
    d = loop-Done timeout now s.metadata i _ s 0 (λ id. inl refl)

    all :
        (id : ℤ)
        → Map.lookup id
            (reconcile_loop timeout now s.metadata
              (sort_ints (keys s.metadata.brokers))
              s
              0).store.metadata.brokers
          ≡ settled? timeout now (Map.lookup id s.metadata.brokers)
    all id = elim (Option-cases (Map.lookup id s.metadata.brokers)) [
      | inl e ↦ elim (d.progress id) [ inl q ↦ q ∙ rw e refl | inr q ↦ q ]
      | inr (b, e) ↦ d.visited id (visited_ids s.metadata.brokers id b e)
    ]
