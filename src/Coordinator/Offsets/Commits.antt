-- ===== src/Coordinator/Offsets/Commits.antt =====
-- What `GetOffset` answers after commits, and after a restart.
use distributed_real_time_ev.Base.{
  ℤ, pos, false, ◌&&◌, ◌==◌, ==_iff, ==_refl, String, string_comparable, int_comparable, Option,
  none, some, List, [], ◌∷◌, ◌≡◌, refl, sym, subst, ap, ◌∙◌, inl, inr, Bool-cases, Option-cases,
  if◌then◌else◌,
}
use distributed_real_time_ev.Base.Map
use distributed_real_time_ev.Base.Map.{Map}
use distributed_real_time_ev.Coordinator.State.{Save, saved, no_directory, no_file, bad_encode}
use distributed_real_time_ev.Coordinator.Offsets.{
  Offsets, OffsetFile, holds, corrupt, OffsetManager, new_offset_manager, load, answered, save,
  made, write_offset, commit, get_offset,
}

-- The lookup of `GetOffset`.
find : Offsets → String → String → ℤ → Option ℤ
unfolding made
find offsets group topic partition =
    Map.lookup partition (made (Map.lookup topic (made (Map.lookup group offsets))))

or_zero : Option ℤ → ℤ
or_zero none = pos 0
or_zero (some offset) = offset

get_offset-find :
    (om : OffsetManager) (group topic : String) (partition : ℤ)
    → get_offset om group topic partition ≡ or_zero (find om.offsets group topic partition)
unfolding get_offset find or_zero Map.lookup made
get_offset-find om group topic partition = elim (Option-cases (Map.lookup group om.offsets)) [
  | inl e ↦ rw (get_offset, find, e) refl
  | inr (m, e) ↦ elim (Option-cases (Map.lookup topic m)) [
    | inl f ↦ rw (get_offset, find, e, f) refl
    | inr (k, f) ↦ elim (Option-cases (Map.lookup partition k)) [
      | inl g ↦ rw (get_offset, find, e, f, g) refl
      | inr (o, g) ↦ rw (get_offset, find, e, f, g) refl
    ]
  ]
]

module _ (offsets : Offsets) (group topic : String) (partition offset : ℤ) where
  -- Reading another partition, another topic, another group than the one written.
  find_partition :
      (p : ℤ)
      → find (write_offset offsets group topic partition offset) group topic p
        ≡ (if partition == p then some offset else find offsets group topic p)
  unfolding find write_offset
  find_partition p = simp (Map.lookup-insert, ==_refl, made) refl

  find_topic :
      (t : String) (p : ℤ)
      → (topic == t) ≡ false
      → find (write_offset offsets group topic partition offset) group t p ≡ find offsets group t p
  unfolding find write_offset
  find_topic t p e = simp (Map.lookup-insert, ==_refl, e, made) refl

  find_group :
      (g t : String) (p : ℤ)
      → (group == g) ≡ false
      → find (write_offset offsets group topic partition offset) g t p ≡ find offsets g t p
  unfolding find write_offset
  find_group g t p e = rw (Map.lookup-insert, e) refl

  find-write_offset :
      (g t : String) (p : ℤ)
      → find (write_offset offsets group topic partition offset) g t p
        ≡ (if group == g && topic == t && partition == p then some offset else find offsets g t p)
  find-write_offset g t p = elim (Bool-cases (group == g)) [
    | inr e ↦ find_group g t p e ∙ rw e refl
    | inl e ↦ elim (Bool-cases (topic == t)) [
      | inr f ↦
          subst
            (λ x.
              find (write_offset offsets group topic partition offset) x t p ≡ find offsets x t p)
            ((==_iff group g).0 e) (find_topic t p f)
          ∙ rw (e, f) refl
      | inl f ↦
          subst
            (λ x.
              find (write_offset offsets group topic partition offset) g x p
              ≡ (if partition == p then some offset else find offsets g x p))
            ((==_iff topic t).0 f)
            (subst
              (λ x.
                find (write_offset offsets group topic partition offset) x topic p
                ≡ (if partition == p then some offset else find offsets x topic p))
              ((==_iff group g).0 e) (find_partition p))
          ∙ rw (e, f) refl
    ]
  ]

save_lem : (om : OffsetManager) → (save om).offsets ≡ om.offsets
unfolding save
save_lem om = by_saves om.saves
  where
    one : (s : Save) (rest : List Save) → (answered om s rest).offsets ≡ om.offsets
    one saved rest = refl
    one no_directory rest = refl
    one no_file rest = refl
    one bad_encode rest = refl

    by_saves :
        (saves : List Save)
        → (let om' : OffsetManager = elim saves [
          | [] ↦ answered om saved []
          | s ∷ rest ↦ answered om s rest
        ] in
            om'.offsets ≡ om.offsets)
    by_saves [] = refl
    by_saves (s ∷ rest) = one s rest

-- Right after a commit, whatever the operating system answers to its save, the offset that was
-- committed is read for the group, topic and partition, and for any others what was read before.
pub get_offset-commit :
    (om : OffsetManager) (group topic : String) (partition offset : ℤ) (g t : String) (p : ℤ)
    → get_offset (commit om group topic partition offset) g t p
      ≡ (if group == g && topic == t && partition == p then offset else get_offset om g t p)
unfolding commit
get_offset-commit om group topic partition offset g t p =
    get_offset-find _ g t p
    ∙ ap (λ m. or_zero (find m g t p)) (save_lem _)
    ∙ ap or_zero (find-write_offset om.offsets group topic partition offset g t p)
    ∙ elim (Bool-cases (group == g && topic == t && partition == p)) [
      | inl e ↦ rw e (unfold or_zero in refl)
      | inr e ↦ rw e (sym (get_offset-find om g t p))
    ]

-- The answer that the next save gets.
abbrev pub next_save : List Save → Save
next_save [] = saved
next_save (s ∷ rest) = s

save-file :
    (om : OffsetManager)
    → (save om).file
      ≡ elim (next_save om.saves) [ saved ↦ holds om.offsets | bad_encode ↦ corrupt | _ ↦ om.file ]
unfolding save
save-file om = by_saves om.saves
  where
    one :
        (s : Save) (rest : List Save)
        → (let expected : OffsetFile = elim s [
          | saved ↦ holds om.offsets
          | bad_encode ↦ corrupt
          | _ ↦ om.file
        ] in
            (answered om s rest).file ≡ expected)
    one saved rest = refl
    one no_directory rest = refl
    one no_file rest = refl
    one bad_encode rest = refl

    by_saves :
        (saves : List Save)
        → (let om' : OffsetManager = elim saves [
          | [] ↦ answered om saved []
          | s ∷ rest ↦ answered om s rest
        ] in
            let expected : OffsetFile = elim (next_save saves) [
              | saved ↦ holds om.offsets
              | bad_encode ↦ corrupt
              | _ ↦ om.file
            ] in
            om'.file ≡ expected)
    by_saves [] = refl
    by_saves (s ∷ rest) = one s rest

-- What a broker that restarts after a commit reads. If the save of the commit was done, it reads
-- what the broker before it would have read; if the directory or the file could not be opened, it
-- reads what it would have read without the commit; if the encoding was cut off, which is after the
-- file has been emptied, it reads 0 for every group, topic and partition.
pub get_offset-restart :
    (om : OffsetManager) (group topic : String) (partition offset : ℤ) (saves : List Save)
    (g t : String) (p : ℤ)
    → get_offset (new_offset_manager (commit om group topic partition offset).file saves) g t p
      ≡ elim (next_save om.saves) [
        | saved ↦ get_offset (commit om group topic partition offset) g t p
        | bad_encode ↦ pos 0
        | _ ↦ get_offset (new_offset_manager om.file saves) g t p
      ]
unfolding commit
get_offset-restart om group topic partition offset saves g t p =
    ap (λ f. get_offset (new_offset_manager f saves) g t p) (save-file om')
    ∙ by_answer (next_save om.saves)
  where
    om' : OffsetManager
    om' = record om { offsets = write_offset om.offsets group topic partition offset }

    same :
        get_offset (new_offset_manager (holds om'.offsets) saves) g t p
        ≡ get_offset (save om') g t p
    same =
        get_offset-find _ g t p
        ∙ unfold new_offset_manager load in
          ap (λ m. or_zero (find m g t p)) (sym (save_lem om'))
          ∙ sym (get_offset-find (save om') g t p)

    empty : get_offset (new_offset_manager corrupt saves) g t p ≡ pos 0
    empty = unfold get_offset new_offset_manager load Map.lookup in refl

    by_answer :
        (s : Save)
        → (let file : OffsetFile = elim s [
          | saved ↦ holds om'.offsets
          | bad_encode ↦ corrupt
          | _ ↦ om'.file
        ] in
            let expected : ℤ = elim s [
              | saved ↦ get_offset (save om') g t p
              | bad_encode ↦ pos 0
              | _ ↦ get_offset (new_offset_manager om.file saves) g t p
            ] in
            get_offset (new_offset_manager file saves) g t p ≡ expected)
    by_answer saved = same
    by_answer no_directory = refl
    by_answer no_file = refl
    by_answer bad_encode = empty
