-- ===== src/Storage/Log/Calm.antt =====
-- The appends on a disk that never fails, with retention turned off.
use distributed_real_time_ev.Base.{
  ℕ, ℤ, pos, leb_ℤ, ltb_ℤ, ◌<ℤ◌, true, String, Option, none, [], ◌≡◌, refl, subst, ap, ◌∙◌, inl,
  inr, arith, Bool-cases,
}
use distributed_real_time_ev.Base.Clock.{unix_milli}
use distributed_real_time_ev.Storage.World.{now, attempt}
use distributed_real_time_ev.Storage.State.{
  Key, key_comparable, PartitionState, Storage, put_world, put_state, put_messages,
  ensure_partition_state,
}
use distributed_real_time_ev.Storage.Record.{Entry}
use distributed_real_time_ev.Storage.Retention.{append_offset_index, append_timestamp_index}
use distributed_real_time_ev.Storage.Log.{
  apply_fsync_policy, remember, write_segment, synced, replicated, append_next, append_replicated,
}
use distributed_real_time_ev.Storage.Log.Answers.{
  next_answer, tail, attempt-Called, append_line-Called,
}
use distributed_real_time_ev.Storage.Log.Appending.{next_of, limits, Stored}
use distributed_real_time_ev.Storage.Log.Outcomes.{ensure-world, ensure-Kept}
use distributed_real_time_ev.Storage.Log.Steps.{made, made-Called, write-Called}
use distributed_real_time_ev.Storage.Log.Replicated.{
  Replication, replayed, gap, failed, stored, append_replicated_lem,
}
use distributed_real_time_ev.Storage.Log.Unlimited.{enforce_retention-off}

-- Every call to come is done, and neither limit of retention is set.
pub record Calm (s : Storage) : Type 0 where
  pub silent : s.world.answers ≡ []
  pub no_size : leb_ℤ s.retention_max_bytes (pos 0) ≡ true
  pub no_age : leb_ℤ s.retention_max_age (pos 0) ≡ true

Calm-limits : (s s' : Storage) → Calm s → s'.world.answers ≡ [] → limits s' ≡ limits s → Calm s'
Calm-limits s s' c a l = record {
  silent = a;
  no_size = rw (ap (λ p. p.0) l) c.no_size;
  no_age = rw (ap (λ p. p.1) l) c.no_age;
}

irreflexive : (a : ℤ) → ¬ (a <ℤ a)
irreflexive a h = omega arith

module _ (checksum : String → ℕ) where
  -- The answers that are left when none is to come.
  remember-silent :
      (s : Storage) (k : Key) (st : PartitionState) (e : Entry)
      → s.world.answers ≡ []
      → (remember s k st e).world.answers ≡ []
  unfolding remember put_state put_messages append_offset_index append_timestamp_index put_world
  remember-silent s k st e q =
      (append_line-Called _ _ _).left ∙ ap tail ((append_line-Called s.world _ _).left ∙ ap tail q)

  synced-silent :
      (s : Storage) (k : Key) (st : PartitionState) (e : Entry)
      → s.world.answers ≡ []
      → (synced checksum s k st e).2.world.answers ≡ []
  unfolding synced apply_fsync_policy put_world now
  synced-silent s k st e q =
      let a : (attempt s.world).1.answers ≡ [] = (attempt-Called s.world).left ∙ ap tail q in
      let b : (attempt (now s.world).1).1.answers ≡ [] =
        (attempt-Called (now s.world).1).left ∙ ap tail q in
      ground (arith, a, b, q)

  remember-limits :
      (s : Storage) (k : Key) (st : PartitionState) (e : Entry)
      → limits (remember s k st e) ≡ limits s
  unfolding remember put_state put_messages append_offset_index append_timestamp_index put_world
  remember-limits s k st e = refl

  synced-limits :
      (s : Storage) (k : Key) (st : PartitionState) (e : Entry)
      → limits (synced checksum s k st e).2 ≡ limits s
  unfolding synced put_world put_state
  synced-limits s k st e = refl

  replicated-Calm :
      (s : Storage) (k : Key) (st : PartitionState) (e : Entry)
      → Calm s
      → Calm (replicated checksum s k st e).1
  unfolding replicated
  replicated-Calm s k st e c = elim (Bool-cases (synced checksum s k st e).0) [
    | inr f ↦ rw f d
    | inl t ↦ rw t (rw (enforce_retention-off checksum _ r.no_size r.no_age) r)
  ]
    where
      d : Calm (synced checksum s k st e).2
      d = Calm-limits s _ c (synced-silent s k st e c.silent) (synced-limits s k st e)

      r : Calm (remember (synced checksum s k st e).2 k (synced checksum s k st e).1 e)
      r = Calm-limits _ _ d (remember-silent _ k _ e d.silent) (remember-limits _ k _ e)

  write-limits :
      (s : Storage) (k : Key) (st : PartitionState) (e : Entry)
      → limits (write_segment checksum s k st e).2 ≡ limits s
  unfolding write_segment put_world put_state
  write-limits s k st e = refl

  append_next-Calm :
      (s : Storage) (k : Key) (st : PartitionState) (offset : ℤ) (value : String)
      → Calm s
      → Calm (append_next checksum s k st offset value).1
  unfolding append_next made
  append_next-Calm s k st offset value c = elim (Bool-cases (made s).0) [
    | inr f ↦ rw f c₁
    | inl t ↦ elim (Bool-cases (write_segment checksum s₁ k st e).0) [
      | inr f ↦ rw (t, f) c₂
      | inl u ↦ rw (t, u) (replicated-Calm _ k _ e c₂)
    ]
  ]
    where
      s₁ : Storage
      s₁ = put_world s (made s).1

      e : Entry
      e = record { offset = offset; timestamp = unix_milli (now s.world).0; value = value }

      c₁ : Calm s₁
      c₁ =
          unfold put_world in
          (record {
            silent = (made-Called s).left ∙ ap tail c.silent;
            no_size = c.no_size;
            no_age = c.no_age;
          })

      c₂ : Calm (write_segment checksum s₁ k st e).2
      c₂ =
          Calm-limits s₁ _ c₁ ((write-Called checksum s₁ k st e).left ∙ ap tail c₁.silent)
            (write-limits s₁ k st e)

  ensured-Calm : (s : Storage) (k : Key) → Calm s → Calm (ensure_partition_state s k).1
  ensured-Calm s k c =
      Calm-limits s _ c ((ensure-world s k).0 ∙ c.silent) (ensure-Kept s k).same_limits

  append_replicated-Calm :
      (s : Storage) (k : Key) (offset : ℤ) (value : String)
      → Calm s
      → Calm (append_replicated checksum s k offset value).1
  unfolding append_replicated
  append_replicated-Calm s k offset value c =
      let d = ensured-Calm s k c in
      elim (Bool-cases (ltb_ℤ offset (ensure_partition_state s k).0.next_offset)) [
        | inl f ↦ rw f d
        | inr f ↦ elim (Bool-cases (ltb_ℤ (ensure_partition_state s k).0.next_offset offset)) [
          | inl g ↦ rw (f, g) d
          | inr g ↦ rw (f, g) (append_next-Calm _ k _ offset value d)
        ]
      ]

  -- The record with the next offset is stored, and no limit or answer comes up.
  next_is_kept :
      (s : Storage) (k : Key) (offset : ℤ) (value : String) (x : Option String × Storage)
      → Calm s
      → offset ≡ next_of s k
      → Replication checksum s k offset value x
      → (x.0 ≡ none) × Stored s x.1 k offset value
  next_is_kept s k offset value x c n (replayed b kept) =
      absurd (irreflexive (next_of s k) (subst (λ z. z <ℤ next_of s k) n b))
  next_is_kept s k offset value x c n (gap b kept) =
      absurd (irreflexive (next_of s k) (subst (λ z. next_of s k <ℤ z) n b))
  next_is_kept s k offset value x c n (failed _ why kept) = absurd (elim why [
    | inl (inl h) ↦ h (ap next_answer c.silent)
    | inl (inr h) ↦ h (ap (λ l. next_answer (tail l)) c.silent)
    | inr (_, h) ↦ h (ap (λ l. next_answer (tail (tail l))) c.silent)
  ])
  next_is_kept s k offset value x c n (stored {s'} _ wrote in_mode put line) = (
    refl,
    rw
        (enforce_retention-off checksum s' (ap (λ p. leb_ℤ p.0 (pos 0)) put.same_limits ∙ c.no_size)
          (ap (λ p. leb_ℤ p.1 (pos 0)) put.same_limits ∙ c.no_age))
        put,
  )

  -- On a calm storage the record with the next offset is stored, and the storage stays calm.
  pub stores_next :
      (s : Storage) (k : Key) (offset : ℤ) (value : String)
      → Calm s
      → offset ≡ next_of s k
      → let (err, s') = append_replicated checksum s k offset value in
        (err ≡ none) × Stored s s' k offset value × Calm s'
  stores_next s k offset value c n =
      let (a, b) =
        next_is_kept s k offset value _ c n (append_replicated_lem checksum s k offset value) in
      (a, b, append_replicated-Calm s k offset value c)
