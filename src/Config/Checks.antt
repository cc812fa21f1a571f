-- ===== src/Config/Checks.antt =====
-- The checks at the end of `Load` (core/internal/config/config.go), and what they ask for.
use distributed_real_time_ev.Base.{
  ℤ, pos, ◌≤ℤ◌, ◌<ℤ◌, leb_ℤ, ltb_ℤ, Bool, true, false, not, ◌&&◌, ◌==◌, String, string_comparable,
  none, List, [], ◌∷◌, All, ◌≡◌, refl, subst, ◌⊎◌, ◌↔◌, inl, inr, arith, Bool-cases, Option-cases,
}
use distributed_real_time_ev.Base.Text.{is_empty}
use distributed_real_time_ev.Config.{
  Config, Loaded, loaded, rejected, ◌>>=◌, first_failure, checks, checked, read_config, load,
}

-- What the messages of the checks ask for.
pub record IsValid (cfg : Config) : Type 0 where
  pub num_partitions : pos 0 <ℤ cfg.num_partitions
  pub replication_factor : pos 0 <ℤ cfg.replication_factor
  pub min_in_sync_replicas : pos 0 <ℤ cfg.min_in_sync_replicas
  pub enough_replicas : cfg.min_in_sync_replicas ≤ℤ cfg.replication_factor
  pub replica_max_lag : pos 0 ≤ℤ cfg.replica_max_lag
  pub replica_lag_timeout_ms : pos 0 <ℤ cfg.replica_lag_timeout_ms
  pub ack_all_timeout_ms : pos 0 <ℤ cfg.ack_all_timeout_ms
  pub listen_addr : is_empty cfg.listen_addr ≡ false
  pub advertised_host : is_empty cfg.advertised_host ≡ false
  pub advertised_port : pos 0 <ℤ cfg.advertised_port
  pub broker_id : pos 0 ≤ℤ cfg.broker_id
  pub data_dir : is_empty cfg.data_dir ≡ false
  pub segment_max_bytes : pos 0 <ℤ cfg.segment_max_bytes
  pub retention_max_bytes : pos 0 <ℤ cfg.retention_max_bytes
  pub retention_max_age_seconds : pos 0 <ℤ cfg.retention_max_age_seconds
  pub flush_interval_ms : pos 0 <ℤ cfg.flush_interval_ms
  pub flush_bytes : pos 0 <ℤ cfg.flush_bytes
  pub fsync_mode :
      (cfg.fsync_mode == "always" ≡ true)
      ⊎ (cfg.fsync_mode == "interval" ≡ true)
      ⊎ (cfg.fsync_mode == "never" ≡ true)

-- No test holds.
abbrev Passed : List (Bool × String) → Type 0
Passed tests = All (λ t. t.0 ≡ false) tests

first_failure-Passed : (tests : List (Bool × String)) → first_failure tests ≡ none → Passed tests
unfolding first_failure
first_failure-Passed [] h = tt
first_failure-Passed ((failed, message) ∷ rest) h = elim (Bool-cases failed) [
  | inl e ↦ absurd (cc (rw e at h))
  | inr e ↦ (e, first_failure-Passed rest (rw e at h))
]

Passed-first_failure : (tests : List (Bool × String)) → Passed tests → first_failure tests ≡ none
unfolding first_failure
Passed-first_failure [] h = refl
Passed-first_failure ((failed, message) ∷ rest) h = rw h.0 (Passed-first_failure rest h.1)

module _ (cfg : Config) where
  some_mode :
      (a b c : Bool) → (not a && not b && not c) ≡ false → (a ≡ true) ⊎ (b ≡ true) ⊎ (c ≡ true)
  some_mode a b c h = ground arith

  Passed-IsValid : Passed (checks cfg) → IsValid cfg
  unfolding checks
  Passed-IsValid h =
      let (a, r₁) = h in
      let (b, r₂) = r₁ in
      let (c, r₃) = r₂ in
      let (d, r₄) = r₃ in
      let (e, r₅) = r₄ in
      let (f, r₆) = r₅ in
      let (g, r₇) = r₆ in
      let (i, r₈) = r₇ in
      let (j, r₉) = r₈ in
      let (k, s₁) = r₉ in
      let (l, s₂) = s₁ in
      let (m, s₃) = s₂ in
      let (n, s₄) = s₃ in
      let (o, s₅) = s₄ in
      let (p, s₆) = s₅ in
      let (q, s₇) = s₆ in
      let (r, s₈) = s₇ in
      record {
        num_partitions = ground arith;
        replication_factor = ground arith;
        min_in_sync_replicas = ground arith;
        enough_replicas = ground arith;
        replica_max_lag = ground arith;
        replica_lag_timeout_ms = ground arith;
        ack_all_timeout_ms = ground arith;
        listen_addr = i;
        advertised_host = j;
        advertised_port = ground arith;
        broker_id = ground arith;
        data_dir = m;
        segment_max_bytes = ground arith;
        retention_max_bytes = ground arith;
        retention_max_age_seconds = ground arith;
        flush_interval_ms = ground arith;
        flush_bytes = ground arith;
        fsync_mode = some_mode _ _ _ s₈.0;
      }

  no_mode :
      (a b c : Bool) → (a ≡ true) ⊎ (b ≡ true) ⊎ (c ≡ true) → (not a && not b && not c) ≡ false
  no_mode a b c h = ground arith

  IsValid-Passed : IsValid cfg → Passed (checks cfg)
  unfolding checks
  IsValid-Passed v =
      let positive : (z : ℤ) → pos 0 <ℤ z → leb_ℤ z (pos 0) ≡ false = λ z h. ground arith in
      let natural : (z : ℤ) → pos 0 ≤ℤ z → ltb_ℤ z (pos 0) ≡ false = λ z h. ground arith in
      let enough : ltb_ℤ cfg.replication_factor cfg.min_in_sync_replicas ≡ false =
        (let h = v.enough_replicas in ground arith) in
      search (positive, natural, enough, no_mode) depth 40 fits 4000

-- `Load` returns a configuration just where its numbers parse and the checks' conditions hold: positive
-- counts, sizes and timeouts, no more replicas in sync asked for than there are replicas, a lag and a broker
-- id that are not negative, texts that are not empty, and one of the three modes of fsync.
pub load_lem :
    (env : String → String) (cfg : Config)
    → (load env ≡ loaded cfg) ↔ ((read_config env ≡ loaded cfg) × IsValid cfg)
unfolding load
load_lem env cfg = (forth (read_config env), λ (e, v). back e v)
  where
    forth :
        (l : Loaded Config)
        → (l >>= λ c. checked c (first_failure (checks c))) ≡ loaded cfg
        → (l ≡ loaded cfg) × IsValid cfg
    forth (rejected message) h = absurd (cc h)
    forth (loaded c) h = elim (Option-cases (first_failure (checks c))) [
      | inr (m, e) ↦ absurd (cc (rw e at h))
      | inl e ↦
          let q : loaded c ≡ loaded cfg = rw e at h in
          let same : c ≡ cfg = cc q in
          (q, subst IsValid same (Passed-IsValid c (first_failure-Passed (checks c) e)))
    ]

    back : read_config env ≡ loaded cfg → IsValid cfg → load env ≡ loaded cfg
    back e v = rw (e, Passed-first_failure (checks cfg) (IsValid-Passed cfg v)) refl
