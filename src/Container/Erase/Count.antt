-- ===== src/Container/Erase/Count.antt =====
-- The counter of erased entries of XContainerMapWithErase.
use xnode.Prelude.{
  ℕ, ◌+◌, ◌%◌, ◌≡◌, refl, true, false, Option, none, some, List, [], ◌∷◌, ◌++◌, if◌then◌else◌, word,
  arith,
}
use xnode.Bytes.{Bytes, same_iff}
use xnode.Container.{KeyType, Mapped}
use xnode.Container.Map
use xnode.Container.Map.{XContainerMap, find, insert_sorted, assign, map_find, at_end, value_at}
use xnode.Container.Erase.{XContainerMapWithErase, is_erased_value, recount}

module _ {ℓ} {V : Type ℓ} (m : Mapped V) where
  abbrev pub erased_bit : V → ℕ
  erased_bit v = if is_erased_value m v then 1 else 0

  unfoldable pub count_erased : List (Bytes × V) → ℕ
  count_erased [] = 0
  count_erased ((k, v) ∷ l) = erased_bit v + count_erased l

  pub count_erased-append :
      (l r : List (Bytes × V)) → count_erased (l ++ r) ≡ count_erased l + count_erased r
  unfolding count_erased
  count_erased-append [] r = omega arith
  count_erased-append ((k, v) ∷ l) r = omega (arith, count_erased-append l r)

  -- The counter is the number of erased entries, as far as `size_t` can tell.
  abbrev pub IsCounted : XContainerMapWithErase V → Type 0
  IsCounted c = c.erased_values ≡ count_erased c.base.values_map % word

  pub recount_lem :
      (from to : V) (r n : ℕ)
      → n ≡ (erased_bit from + r) % word
      → recount m from to n ≡ (erased_bit to + r) % word
  unfolding recount
  recount_lem from to r n h = ground arith

  count_erased-insert_sorted :
      (k : Bytes) (v : V) (l : List (Bytes × V))
      → (find k l).rest ≡ []
      → count_erased (insert_sorted k v l) ≡ erased_bit v + count_erased l
  unfolding count_erased find insert_sorted
  count_erased-insert_sorted k v [] h = refl
  count_erased-insert_sorted k v ((j, w) ∷ l) h =
      ground (arith, same_iff k j, count_erased-insert_sorted k v l)

  count_erased-find :
      (k : Bytes) (l : List (Bytes × V))
      → count_erased l ≡ count_erased (find k l).passed + count_erased (find k l).rest
  unfolding count_erased find
  count_erased-find k [] = refl
  count_erased-find k ((j, w) ∷ l) = ground (arith, count_erased-find k l)

  count_erased-map_find :
      (c : XContainerMap V) (key : KeyType)
      → count_erased c.values_map
        ≡ count_erased (map_find c key).passed + count_erased (map_find c key).rest
  unfolding map_find count_erased
  count_erased-map_find c key =
      ground (arith, count_erased-find (Map.key_to_string key) c.values_map)

  -- The entries but the one at the iterator.
  abbrev pub others : Map.Iterator V → ℕ
  others it = count_erased it.passed + (elim it.rest [ [] ↦ 0 | (j, w) ∷ l ↦ count_erased l ])

  pub count_erased-assign :
      (it : Map.Iterator V) (v : V)
      → at_end it ≡ false
      → count_erased (assign it v).values_map ≡ erased_bit v + others it
  unfolding count_erased
  count_erased-assign it v h = go it.rest h
    where
      go :
          (r : List (Bytes × V))
          → (elim r [ [] ↦ true | _ ↦ false ]) ≡ false
          → count_erased (it.passed ++ elim r [ [] ↦ [] | (j, w) ∷ l ↦ (j, v) ∷ l ])
            ≡ erased_bit v
              + (count_erased it.passed + (elim r [ [] ↦ 0 | (j, w) ∷ l ↦ count_erased l ]))
      go [] h = cc
      go ((j, w) ∷ l) h = omega (arith, count_erased-append it.passed ((j, v) ∷ l))

  pub count_erased-at :
      (c : XContainerMap V) (key : KeyType)
      → is_erased_value m m.default ≡ false
      → count_erased c.values_map
        ≡ erased_bit (value_at m (map_find c key)) + others (map_find c key)
  unfolding count_erased
  count_erased-at c key blank = ground (arith, count_erased-map_find c key)

  pub count_erased-new :
      (c : XContainerMap V) (key : KeyType) (v : V)
      → Map.is_nil (Map.key_to_string key) ≡ false
      → at_end (map_find c key) ≡ true
      → count_erased (insert_sorted (Map.key_to_string key) v c.values_map)
        ≡ erased_bit v + count_erased c.values_map
  unfolding map_find
  count_erased-new c key v valid h =
      count_erased-insert_sorted (Map.key_to_string key) v c.values_map (ground arith)

  pub count_erased-start :
      (c : XContainerMap V) (from : Option KeyType)
      → count_erased c.values_map
        ≡ count_erased (Map.start c from).rest + count_erased (Map.start c from).passed
  unfolding count_erased
  count_erased-start c none = omega arith
  count_erased-start c (some key) = omega (arith, count_erased-map_find c key)
