-- ===== src/ControlPlane/Controller/Sorting.antt =====
-- The ids that a loop of the controller visits: `sort.Ints` keeps the members of a list, and every
-- key that a map answers for is one of its keys.
use distributed_real_time_ev.Base.{
  ℤ, leb_ℤ, ◌==◌, ==_iff, int_comparable, some, List, [], ◌∷◌, In, ◌≡◌, ◌⊎◌, inl, inr, Bool-cases,
}
use distributed_real_time_ev.Base.Map
use distributed_real_time_ev.Base.Map.{Map, keys}
use distributed_real_time_ev.ControlPlane.Controller.{place, sort_ints}

place-In : (i : ℤ) (l : List ℤ) (j : ℤ) → (i ≡ j) ⊎ In j l → In j (place i l)
unfolding place
place-In i [] j h = h
place-In i (x ∷ l) j h = elim (Bool-cases (leb_ℤ i x)) [
  | inl e ↦ rw e h
  | inr e ↦ rw e (elim h [
    | inl p ↦ inr (place-In i l j (inl p))
    | inr (inl p) ↦ inl p
    | inr (inr q) ↦ inr (place-In i l j (inr q))
  ])
]

sort_ints-In : (l : List ℤ) (j : ℤ) → In j l → In j (sort_ints l)
unfolding sort_ints
sort_ints-In [] j h = h
sort_ints-In (i ∷ l) j (inl p) = place-In i (sort_ints l) j (inl p)
sort_ints-In (i ∷ l) j (inr h) = place-In i (sort_ints l) j (inr (sort_ints-In l j h))

keys-In : {V : Type 0} (m : Map ℤ V) (k : ℤ) (v : V) → Map.lookup k m ≡ some v → In k (keys m)
unfolding Map.lookup
keys-In [] k v h = absurd (cc h)
keys-In ((j, w) ∷ m) k v h = elim (Bool-cases (j == k)) [
  | inl e ↦ inl ((==_iff j k).0 e)
  | inr e ↦ inr (keys-In m k v (rw e at h))
]

pub visited_ids :
    {V : Type 0} (m : Map ℤ V) (k : ℤ) (v : V) → Map.lookup k m ≡ some v → In k (sort_ints (keys m))
visited_ids m k v h = sort_ints-In (keys m) k (keys-In m k v h)
