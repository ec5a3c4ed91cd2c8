-- ===== src/Container/Array/Visits.antt =====
-- The keys that the reading ForEach of XContainerArray shows.
use xnode.Prelude.{
  ℕ, zero, suc, ◌+◌, ◌<◌, ◌≡◌, refl, true, false, Option, none, some, List, [], ◌∷◌, get_elem?,
  if◌then◌else◌, arith,
}
use xnode.Container.{KeyType, index, OnItem, key_eq, idx_last}
use xnode.Container.Array.{XContainerArray, visit, for_each_const}
use xnode.Container.Array.Positions.{locate-get_elem?}

module _ {ℓ} {V : Type ℓ} where
  -- A callback that stops at a key and keeps the value that is shown under it.
  abbrev pub look_for : ℕ → OnItem V (Option V)
  look_for i key val s = if key_eq key (index i) then (true, some val) else (false, s)

  -- A callback that stops at once and keeps what it is shown.
  abbrev pub first_shown : OnItem V (Option (KeyType × V))
  first_shown key val s = (true, some (key, val))

  visit-look_for : (n i : ℕ) (l : List V) → visit (look_for (n + i)) n l none ≡ get_elem? l i
  unfolding visit
  visit-look_for n i [] = refl
  visit-look_for n zero (v ∷ l) = ground arith
  visit-look_for n (suc i) (v ∷ l) = ground (arith, visit-look_for (n + 1) i l)

  -- From the beginning the reading ForEach shows every value under its own position.
  pub for_each_const-positions :
      (c : XContainerArray V) (i : ℕ)
      → (for_each_const c (some (look_for i)) none none).1 ≡ get_elem? c.values_deq i
  unfolding for_each_const
  for_each_const-positions c i = ground (arith, visit-look_for 0 i c.values_deq)

  -- From an index on, the reading ForEach shows the value at that index under the key 0, not under
  -- the index that it started from.
  pub for_each_const-from_index :
      (c : XContainerArray V) (i : ℕ) {v : V}
      → i < idx_last
      → get_elem? c.values_deq i ≡ some v
      → for_each_const c (some first_shown) (some (index i)) none ≡ (true, some (index 0, v))
  unfolding for_each_const
  for_each_const-from_index c i {v} small here = ground (arith, locate-get_elem? i c.values_deq)
