-- ===== src/Container/Map/Lookup.antt =====
-- What can be read from XContainerMap after each operation.
use xnode.Prelude.{
  ◌≡◌, refl, true, false, not, ◌&&◌, Option, none, some, List, [], ◌∷◌, arith, if◌then◌else◌,
  is_some,
}
use mathlib.Core.Option
use xnode.Bytes.{Bytes, same, same_iff}
use xnode.Container.{KeyType, Mapped, OnChange, approve}
use xnode.Container.Map.{
  XContainerMap, find, insert_sorted, map_find, at_end, assign, erase_at, set, emplace, erase, at,
  key_to_string, is_nil, is_key_valid,
}
use xnode.Container.Map.Order.{IsSorted, AllAfter}

module _ {ℓ} {V : Type ℓ} where
  unfoldable pub lookup : Bytes → List (Bytes × V) → Option V
  lookup k [] = none
  lookup k ((j, v) ∷ l) = if same k j then some v else lookup k l

  find-lookup :
      (k : Bytes) (l : List (Bytes × V))
      → (elim (find k l).rest [ [] ↦ none | (j, v) ∷ r ↦ some v ]) ≡ lookup k l
  unfolding find lookup
  find-lookup k [] = refl
  find-lookup k ((j, v) ∷ l) = ground (arith, find-lookup k l)

  lookup-insert_sorted :
      (k j : Bytes) (v : V) (l : List (Bytes × V))
      → lookup k l ≡ none
      → lookup j (insert_sorted k v l) ≡ (if same k j then some v else lookup j l)
  unfolding lookup insert_sorted
  lookup-insert_sorted k j v [] h = ground (arith, same_iff k j, same_iff j k)
  lookup-insert_sorted k j v ((i, w) ∷ l) h =
      ground (
        arith,
        same_iff k j,
        same_iff j k,
        same_iff k i,
        same_iff j i,
        lookup-insert_sorted k j v l,
      )

  lookup-assign :
      (k j : Bytes) (v : V) (l : List (Bytes × V))
      → lookup j (assign (find k l) v).values_map
        ≡ (if same k j then Option.map (λ _. v) (lookup k l) else lookup j l)
  unfolding lookup find
  lookup-assign k j v [] = ground arith
  lookup-assign k j v ((i, w) ∷ l) =
      ground (arith, same_iff k j, same_iff j k, same_iff k i, same_iff j i, lookup-assign k j v l)

  lookup_after : (k : Bytes) (l : List (Bytes × V)) → AllAfter k l → lookup k l ≡ none
  unfolding lookup
  lookup_after k [] h = refl
  lookup_after k ((j, v) ∷ l) h = ground (arith, lookup_after k l h.1)

  lookup-erase_at :
      (k j : Bytes) (l : List (Bytes × V))
      → IsSorted l
      → lookup j (erase_at (find k l)).values_map ≡ (if same k j then none else lookup j l)
  unfolding lookup find
  lookup-erase_at k j [] h = ground arith
  lookup-erase_at k j ((i, w) ∷ l) h = ground (
    arith,
    same_iff k j,
    same_iff j k,
    same_iff k i,
    same_iff j i,
    lookup_after i l h.0,
    lookup-erase_at k j l h.1,
  )

  at-lookup :
      (c : XContainerMap V) (key : KeyType)
      → at c key
        ≡ (if is_nil (key_to_string key) then none else lookup (key_to_string key) c.values_map)
  unfolding at
  at-lookup c key = ground (arith, find-lookup (key_to_string key) c.values_map)

  at_end-lookup :
      (c : XContainerMap V) (key : KeyType)
      → at_end (map_find c key) ≡ (elim (at c key) [ none ↦ true | some v ↦ false ])
  unfolding at
  at_end-lookup c key = ground arith

module _ {ℓ} {V S : Type ℓ} (m : Mapped V) (c : XContainerMap V) (key j : KeyType) where
  -- After Set every key reads as before, but the one that was set, which reads the new value if
  -- Set reports success; whether it was there or not, and whatever the callback answers.
  pub at-set :
      (val : V) (on_change : OnChange V S) (s : S)
      → at (set m c key val on_change s).2 j ≡ (
          if (set m c key val on_change s).0 && same (key_to_string key) (key_to_string j)
          then some val
          else at c j)
  unfolding set
  at-set val on_change s = ground (
    arith,
    at-lookup c j,
    at-lookup c key,
    at-lookup (set m c key val on_change s).2 j,
    at_end-lookup c key,
    lookup-assign (key_to_string key) (key_to_string j) val c.values_map,
    lookup-insert_sorted (key_to_string key) (key_to_string j) val c.values_map,
    same_iff (key_to_string key) (key_to_string j),
  )

  -- Set succeeds exactly where the key is a non-empty string, the stored value (the default one where
  -- there is none) differs from the new one and the callback approves. It returns the stored value,
  -- and asks the callback once where the first two hold and otherwise not at all.
  pub set-answer :
      (val : V) (on_change : OnChange V S) (s : S)
      → ((set m c key val on_change s).0 ≡ (
          is_key_valid key
          && (not (m.eq (Option.get_or (at c key) m.default) val)
              && (approve on_change key (Option.get_or (at c key) m.default) val s).0)))
        × ((set m c key val on_change s).1 ≡ Option.get_or (at c key) m.default)
        × ((set m c key val on_change s).3 ≡ (
            if is_key_valid key && not (m.eq (Option.get_or (at c key) m.default) val)
            then (approve on_change key (Option.get_or (at c key) m.default) val s).1
            else s))
  unfolding set is_key_valid at
  set-answer val on_change s = ground arith

  -- Emplace succeeds exactly where the key is a non-empty string without a value and the callback
  -- approves. Then the key reads the new value; every other key, and every key after a failure, reads
  -- as before.
  pub at-emplace :
      (val : V) (on_change : OnChange V S) (s : S)
      → ((emplace m c key val on_change s).0.succeeded ≡ (
          is_key_valid key
          && (not (is_some (at c key)) && (approve on_change key m.default val s).0)))
        × (at (emplace m c key val on_change s).1 j ≡ (
            if (emplace m c key val on_change s).0.succeeded
              && same (key_to_string key) (key_to_string j)
            then some val
            else at c j))
  unfolding emplace is_key_valid at
  at-emplace val on_change s = ground (
    arith,
    at-lookup c j,
    at-lookup c key,
    at-lookup (emplace m c key val on_change s).1 j,
    at_end-lookup c key,
    lookup-insert_sorted (key_to_string key) (key_to_string j) val c.values_map,
    same_iff (key_to_string key) (key_to_string j),
  )

  -- Erase returns the stored value exactly where the key has one and the callback approves. Then the
  -- key reads nothing; every other key, and every key after a failure, reads as before.
  pub at-erase :
      (on_change : OnChange V S) (s : S)
      → IsSorted c.values_map
      → ((erase m c key on_change s).0 ≡ (
          if (approve on_change key (Option.get_or (at c key) m.default) m.default s).0
          then at c key
          else none))
        × (at (erase m c key on_change s).1 j ≡ (
            if is_some (erase m c key on_change s).0 && same (key_to_string key) (key_to_string j)
            then none
            else at c j))
  unfolding erase at
  at-erase on_change s sorted = ground (
    arith,
    at-lookup c j,
    at-lookup c key,
    at-lookup (erase m c key on_change s).1 j,
    at_end-lookup c key,
    lookup-erase_at (key_to_string key) (key_to_string j) c.values_map sorted,
    same_iff (key_to_string key) (key_to_string j),
  )

  pub emplace_existing :
      (val v : V) (on_change : OnChange V S) (s : S)
      → at c key ≡ some v
      → emplace m c key val on_change s
        ≡ (record { succeeded = false; inserted_at = key; existed = v }, c, s)
  unfolding emplace at
  emplace_existing val v on_change s h = ground arith
