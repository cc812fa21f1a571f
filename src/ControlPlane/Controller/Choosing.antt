-- ===== src/ControlPlane/Controller/Choosing.antt =====
-- The leader that `ElectTopicLeaders` chooses for a partition, and the ISR that comes with it.
use distributed_real_time_ev.Base.{
  ℤ, pos, negsuc, ltb_ℤ, true, false, ◌==◌, ==_iff, string_comparable, int_comparable, some, List,
  [], ◌∷◌, In, All, String, ◌≡◌, refl, sym, subst, ap, ◌∙◌, ◌⊎◌, inl, inr, Bool-cases, Option-cases,
  arith, if◌then◌else◌,
}
use distributed_real_time_ev.Base.Map
use distributed_real_time_ev.Base.Map.{Map}
use distributed_real_time_ev.ControlPlane.Metadata.{PartitionMetadata, BrokerMetadata}
use distributed_real_time_ev.ControlPlane.Store.{PartitionLeaderUpdate, led}
use distributed_real_time_ev.ControlPlane.Store.Invariant.{KeyedBroker}
use distributed_real_time_ev.ControlPlane.Controller.{
  is_broker_eligible, elect_from_replicas, select_eligible_replicas, target_leader, elected_isr,
}

module _ (brokers : Map ℤ BrokerMetadata) where
  abbrev Eligible : ℤ → Type 0
  Eligible id = is_broker_eligible brokers id ≡ true

  abbrev NoneEligible : List ℤ → Type 0
  NoneEligible replicas = All (λ r. is_broker_eligible brokers r ≡ false) replicas

  -- What an election makes of a partition: it keeps an eligible leader and all else; any other
  -- leader gives way to an eligible replica, which is in the new ISR, or to -1 if there is none.
  pub record Elected (p p' : PartitionMetadata) : Type 0 where
    pub same_id : p'.id ≡ p.id
    pub same_replicas : p'.replicas ≡ p.replicas
    pub kept : Eligible p.leader_id → p' ≡ p
    pub leads : Eligible p'.leader_id ⊎ ((p'.leader_id ≡ negsuc 0) × NoneEligible p.replicas)
    pub chosen :
        is_broker_eligible brokers p.leader_id ≡ false
        → Eligible p'.leader_id
        → In p'.leader_id p.replicas × In p'.leader_id p'.isr

  -- What `electFromReplicas` may return.
  abbrev Choice : List ℤ → ℤ → Type 0
  Choice replicas id = (Eligible id × In id replicas) ⊎ ((id ≡ negsuc 0) × NoneEligible replicas)

  elect_from_replicas_lem :
      (replicas : List ℤ) → Choice replicas (elect_from_replicas brokers replicas)
  unfolding elect_from_replicas
  elect_from_replicas_lem [] = inr (refl, tt)
  elect_from_replicas_lem (id ∷ rest) = elim (Bool-cases (is_broker_eligible brokers id)) [
    | inl e ↦
        let found : id ≡ elect_from_replicas brokers (id ∷ rest) = rw e refl in
        subst (Choice (id ∷ rest)) found (inl (e, inl refl))
    | inr e ↦
        let later : elect_from_replicas brokers rest ≡ elect_from_replicas brokers (id ∷ rest) =
          rw e refl in
        subst (Choice (id ∷ rest)) later (elim (elect_from_replicas_lem rest) [
          | inl (a, b) ↦ inl (a, inr b)
          | inr (a, b) ↦ inr (a, (e, b))
        ])
  ]

  select-In :
      (replicas : List ℤ) (id : ℤ)
      → Eligible id
      → In id replicas
      → In id (select_eligible_replicas brokers replicas)
  unfolding select_eligible_replicas
  select-In [] id h k = k
  select-In (r ∷ rest) id h k = elim (Bool-cases (is_broker_eligible brokers r)) [
    | inl e ↦ rw e (elim k [ inl q ↦ inl q | inr m ↦ inr (select-In rest id h m) ])
    | inr e ↦ rw e (elim k [
      | inl q ↦
          let f : false ≡ true = sym e ∙ ap (is_broker_eligible brokers) q ∙ h in absurd (cc f)
      | inr m ↦ select-In rest id h m
    ])
  ]

  -- The update of an election.
  abbrev pub update_of : String → ℤ → PartitionMetadata → PartitionLeaderUpdate
  update_of topic pid p = record {
    topic = topic;
    partition = pid;
    leader_id = target_leader brokers p;
    isr = elected_isr brokers p (target_leader brokers p);
  }

  -- The partition after an election.
  abbrev pub elected_of : String → ℤ → PartitionMetadata → PartitionMetadata
  elected_of topic pid p =
      if target_leader brokers p == p.leader_id then p else led p (update_of topic pid p)

-- What an update of the leader writes.
led_parts :
    (p : PartitionMetadata) (topic : String) (pid leader : ℤ) (isr : List ℤ)
    → (let u : PartitionLeaderUpdate = record {
      topic = topic;
      partition = pid;
      leader_id = leader;
      isr = isr;
    } in
        ((led p u).id ≡ p.id)
        × ((led p u).replicas ≡ p.replicas)
        × ((led p u).leader_id ≡ leader)
        × ((id : ℤ) → In id isr → In id (led p u).isr))
unfolding led
led_parts p topic pid leader [] = (refl, refl, refl, λ id h. elim h [ ])
led_parts p topic pid leader (x ∷ xs) = (refl, refl, refl, λ id h. h)

pub led_twice :
    (p : PartitionMetadata) (topic : String) (pid leader : ℤ) (isr : List ℤ)
    → (let u : PartitionLeaderUpdate = record {
      topic = topic;
      partition = pid;
      leader_id = leader;
      isr = isr;
    } in
        led (led p u) u ≡ led p u)
unfolding led
led_twice p topic pid leader [] = refl
led_twice p topic pid leader (x ∷ xs) = refl

module _ (brokers : Map ℤ BrokerMetadata) where
  target_leader-kept :
      (p : PartitionMetadata) → Eligible brokers p.leader_id → target_leader brokers p ≡ p.leader_id
  unfolding target_leader
  target_leader-kept p e = rw e refl

  target_leader-elected :
      (p : PartitionMetadata)
      → is_broker_eligible brokers p.leader_id ≡ false
      → target_leader brokers p ≡ elect_from_replicas brokers p.replicas
  unfolding target_leader
  target_leader-elected p e = rw e refl

  elected_isr-In :
      (p : PartitionMetadata) (target : ℤ)
      → Eligible brokers target
      → In target p.replicas
      → In target (elected_isr brokers p target)
  unfolding elected_isr
  elected_isr-In p target e h = some_chosen (select_eligible_replicas brokers p.replicas) refl
    where
      some_chosen :
          (l : List ℤ)
          → select_eligible_replicas brokers p.replicas ≡ l
          → In target (elected_isr brokers p target)
      some_chosen [] q =
          let k : In target [] = subst (In target) q (select-In brokers p.replicas target e h) in
          elim k [ ]
      some_chosen (x ∷ xs) q =
          rw (elected_isr, q) (subst (In target) q (select-In brokers p.replicas target e h))

  -- A leader that is given up is not eligible.
  pub moved_lem :
      (p : PartitionMetadata)
      → (target_leader brokers p == p.leader_id) ≡ false
      → is_broker_eligible brokers p.leader_id ≡ false
  moved_lem p h = elim (Bool-cases (is_broker_eligible brokers p.leader_id)) [
    | inl e ↦
        absurd (cc (h, (==_iff (target_leader brokers p) p.leader_id).1 (target_leader-kept p e)))
    | inr e ↦ e
  ]

  -- An eligible broker is registered, so its id is not negative.
  Eligible-id :
      ((id : ℤ) (b : BrokerMetadata) → Map.lookup id brokers ≡ some b → KeyedBroker id b)
      → (id : ℤ) → Eligible brokers id
      → ltb_ℤ id (pos 0) ≡ false
  unfolding is_broker_eligible
  Eligible-id keyed id h = elim (Option-cases (Map.lookup id brokers)) [
    | inl e ↦ let k : false ≡ true = rw (is_broker_eligible, e) at h in absurd (cc k)
    | inr (b, e) ↦ (keyed id b e).1
  ]

  pub target_leader_bound :
      ((id : ℤ) (b : BrokerMetadata) → Map.lookup id brokers ≡ some b → KeyedBroker id b)
      → (p : PartitionMetadata) → is_broker_eligible brokers p.leader_id ≡ false
      → ltb_ℤ (target_leader brokers p) (negsuc 0) ≡ false
  target_leader_bound keyed p e =
      subst (λ x. ltb_ℤ x (negsuc 0) ≡ false) (sym (target_leader-elected p e))
        (elim (elect_from_replicas_lem brokers p.replicas) [
          | inl (a, _) ↦
              let k = Eligible-id keyed (elect_from_replicas brokers p.replicas) a in ground arith
          | inr (a, _) ↦ subst (λ x. ltb_ℤ x (negsuc 0) ≡ false) (sym a) refl
        ])

  pub elected_of-Elected :
      ((id : ℤ) (b : BrokerMetadata) → Map.lookup id brokers ≡ some b → KeyedBroker id b)
      → (topic : String) (pid : ℤ) (p : PartitionMetadata)
      → Elected brokers p (elected_of brokers topic pid p)
  elected_of-Elected keyed topic pid p =
      elim (Bool-cases (is_broker_eligible brokers p.leader_id)) [
        | inl e ↦
            subst (Elected brokers p)
              (rw (target_leader-kept p e, (==_iff p.leader_id p.leader_id).1 refl) refl)
              (record {
                same_id = refl;
                same_replicas = refl;
                kept = λ h. refl;
                leads = inl e;
                chosen = λ n h. absurd (cc (n, h));
              })
        | inr e ↦ elim (Bool-cases (target_leader brokers p == p.leader_id)) [
          | inl q ↦ subst (Elected brokers p) (rw q refl) (unmoved e ((==_iff _ _).0 q))
          | inr q ↦ subst (Elected brokers p) (rw q refl) (moved e)
        ]
      ]
    where
      chosen_target :
          is_broker_eligible brokers p.leader_id ≡ false
          → Choice brokers p.replicas (target_leader brokers p)
      chosen_target e =
          subst (Choice brokers p.replicas) (sym (target_leader-elected p e))
            (elect_from_replicas_lem brokers p.replicas)

      unmoved :
          is_broker_eligible brokers p.leader_id ≡ false
          → target_leader brokers p ≡ p.leader_id
          → Elected brokers p p
      unmoved e q = record {
        same_id = refl;
        same_replicas = refl;
        kept = λ h. refl;
        leads = elim (subst (Choice brokers p.replicas) q (chosen_target e)) [
          | inl (a, _) ↦ inl a
          | inr b ↦ inr b
        ];
        chosen = λ n h. absurd (cc (n, h));
      }

      moved :
          is_broker_eligible brokers p.leader_id ≡ false
          → Elected brokers p (led p (update_of brokers topic pid p))
      moved e =
          let target = target_leader brokers p in
          let (i, r, l, m) = led_parts p topic pid target (elected_isr brokers p target) in
          record {
            same_id = i;
            same_replicas = r;
            kept = λ h. absurd (cc (e, h));
            leads = elim (chosen_target e) [
              | inl (a, _) ↦ inl (subst (Eligible brokers) (sym l) a)
              | inr (a, b) ↦ inr (l ∙ a, b)
            ];
            chosen = λ n h. elim (chosen_target e) [
              | inl (a, b) ↦ (
                subst (λ x. In x p.replicas) (sym l) b,
                subst (λ x. In x (led p (update_of brokers topic pid p)).isr) (sym l)
                    (m target (elected_isr-In p target a b)),
              )
              | inr (a, b) ↦
                  let k = Eligible-id keyed (negsuc 0) (subst (Eligible brokers) (l ∙ a) h) in
                  absurd (cc k)
            ];
          }
