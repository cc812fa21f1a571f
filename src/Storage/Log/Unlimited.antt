-- ===== src/Storage/Log/Unlimited.antt =====
-- Retention where neither of its limits is set.
use distributed_real_time_ev.Base.{
  ℕ, pos, leb_ℤ, true, String, none, some, List, [], ◌∷◌, ◌≡◌, refl, ap, ◌∙◌, inl, inr,
  Option-cases,
}
use distributed_real_time_ev.Base.Map
use distributed_real_time_ev.Base.Map.{keys}
use distributed_real_time_ev.Storage.State.{Key, key_comparable, Storage}
use distributed_real_time_ev.Storage.Retention.{
  apply_age_retention, apply_size_retention, enforce_each, enforce_retention,
}

module _ (checksum : String → ℕ) where
  abbrev aged : Storage → Key → Storage
  aged s k = elim (Map.lookup k s.partition_state) [
    | none ↦ s
    | some st ↦ apply_age_retention checksum s k st
  ]

  abbrev sized : Storage → Key → Storage
  sized s k = elim (Map.lookup k s.partition_state) [
    | none ↦ s
    | some st ↦ apply_size_retention checksum s k st
  ]

  aged-off : (s : Storage) (k : Key) → leb_ℤ s.retention_max_age (pos 0) ≡ true → aged s k ≡ s
  unfolding apply_age_retention
  aged-off s k a = elim (Option-cases (Map.lookup k s.partition_state)) [
    | inl e ↦ rw (aged, e) refl
    | inr (st, e) ↦ rw (aged, e, a) refl
  ]

  sized-off : (s : Storage) (k : Key) → leb_ℤ s.retention_max_bytes (pos 0) ≡ true → sized s k ≡ s
  unfolding apply_size_retention
  sized-off s k b = elim (Option-cases (Map.lookup k s.partition_state)) [
    | inl e ↦ rw (sized, e) refl
    | inr (st, e) ↦ rw (sized, e, b) refl
  ]

  enforce_each-off :
      (s : Storage) (ks : List Key)
      → leb_ℤ s.retention_max_bytes (pos 0) ≡ true
      → leb_ℤ s.retention_max_age (pos 0) ≡ true
      → enforce_each checksum s ks ≡ s
  unfolding enforce_each
  enforce_each-off s [] b a = refl
  enforce_each-off s (k ∷ rest) b a =
      ap (λ x. enforce_each checksum (sized x k) rest) (aged-off s k a)
      ∙ ap (λ x. enforce_each checksum x rest) (sized-off s k b)
      ∙ enforce_each-off s rest b a

  pub enforce_retention-off :
      (s : Storage)
      → leb_ℤ s.retention_max_bytes (pos 0) ≡ true
      → leb_ℤ s.retention_max_age (pos 0) ≡ true
      → enforce_retention checksum s ≡ s
  unfolding enforce_retention
  enforce_retention-off s b a = enforce_each-off s (keys s.partition_state) b a
