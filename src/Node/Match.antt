-- ===== src/Node/Match.antt =====
-- XContainerMatchMap and XContainerMatchArray (src/xnode/impl/xcontainer_match_impl.h and .cpp): from
-- the key of a node to that of its container and back.
use xnode.Prelude.{
  ℕ, zero, suc, ◌-◌, ◌<◌, ◌≤◌, ◌≡◌, refl, sym, ap, ◌∙◌, Bool, true, false, not, ◌&&◌, none, some,
  List, [], ◌∷◌, get_elem?, length, if◌then◌else◌, leb, ◌==◌, arith, word,
}
use xnode.Bytes.{Bytes}
use xnode.Key.{XKey}
use xnode.Container.{KeyType, name, monostate, Mapped, OnItem, idx_last}
use xnode.Container.Map
use xnode.Container.Erase.{XContainerMapWithErase}
use xnode.Container.Array.{XContainerArray}
use xnode.Container.Any
use xnode.Container.Any.{IContainer, ContainerType, with_erase, container_type}
use xnode.Container.Erase.Live.{live, for_each_const-live}
use xnode.Container.Erase.Count.{IsCounted}
use xnode.Container.Erase.Counted.{size-count_live, count_live}

-- NodeKey_
unfoldable pub node_key : KeyType → XKey
node_key monostate = XKey.empty
node_key (KeyType.index i) = XKey.index i
node_key (name s) = XKey.string s

-- ContainerKey_
unfoldable pub plain_key : XKey → KeyType
plain_key XKey.empty = monostate
plain_key (XKey.index i) = KeyType.index i
plain_key (XKey.string s) = name s

module _ {V : Type 0} where
  -- The callback that counts down to the key that is wanted: its state is `index` and `key_res`.
  unfoldable pub count_down : OnItem V (ℕ × KeyType)
  count_down key val (i, key_res) = if i == 0 then (true, (i, key)) else (false, (i - 1, key_res))

module _ {V : Type 0} (m : Mapped V) where
  -- The key of the item that ForEach shows at a position.
  unfoldable pub nth_key : IContainer V → ℕ → KeyType
  unfolding Any.for_each_const count_down
  nth_key c i = (Any.for_each_const m c (some count_down) none (i, monostate)).1.1

  -- XContainerMatchMap::ContainerKey
  unfoldable pub map_key : IContainer V → XKey → Bool → KeyType
  unfolding nth_key Any.size Any.empty plain_key
  map_key c (XKey.index i) true =
      if i == idx_last && not (Any.empty c)
      then nth_key c (Any.size c - 1)
      else if leb (Any.size c) i
      then monostate
      else nth_key c i
  map_key c key sequential = plain_key key

  -- ContainerKey of the matching that the container's type is given.
  unfoldable pub container_key : IContainer V → XKey → Bool → KeyType
  unfolding map_key plain_key container_type
  container_key c key sequential = elim (container_type c) [
    | ContainerType.map ↦ map_key c key sequential
    | ContainerType.array ↦ plain_key key
  ]

  -- The key of an entry of a list, and none past its end.
  abbrev pub key_at : List (Bytes × V) → ℕ → KeyType
  key_at l i = elim (get_elem? l i) [ none ↦ monostate | some e ↦ name e.0 ]

  -- kIdxLast is the last of n entries, if there is one.
  abbrev pub position : ℕ → ℕ → ℕ
  position i n = if i == idx_last && not (n == 0) then n - 1 else i

  visit-count_down :
      (l : List (Bytes × V)) (i : ℕ) → (Map.visit count_down l (i, monostate)).1 ≡ key_at l i
  unfolding Map.visit count_down
  visit-count_down [] i = refl
  visit-count_down ((k, v) ∷ l) zero = refl
  visit-count_down ((k, v) ∷ l) (suc i) = ground (arith, visit-count_down l i)

  key_at-beyond : (l : List (Bytes × V)) (i : ℕ) → length l ≤ i → key_at l i ≡ monostate
  key_at-beyond [] i h = refl
  key_at-beyond (e ∷ l) zero h = absurd (omega arith)
  key_at-beyond (e ∷ l) (suc i) h = key_at-beyond l i (omega arith)

  live-length : (l : List (Bytes × V)) → length (live m l) ≡ count_live m l
  unfolding live count_live
  live-length [] = refl
  live-length ((k, v) ∷ l) = ground (arith, live-length l)

  nth_key-live :
      (c : XContainerMapWithErase V) (i : ℕ)
      → nth_key (with_erase c) i ≡ key_at (live m c.base.values_map) i
  unfolding nth_key Any.for_each_const
  nth_key-live c i =
      ap (λ r. r.1.1) (for_each_const-live m c count_down none (i, monostate))
      ∙ visit-count_down (live m c.base.values_map) i

  live-size :
      (c : XContainerMapWithErase V)
      → IsCounted m c
      → length c.base.values_map < word
      → (Any.size (with_erase c) ≡ length (live m c.base.values_map))
        × (Any.empty (with_erase c) ≡ (length (live m c.base.values_map) == 0))
  unfolding Any.size Any.empty
  live-size c counted small =
      let (sized, emptied) = size-count_live m c counted small in
      let e = sym (live-length c.base.values_map) in (sized ∙ e, emptied ∙ ap (λ n. n == 0) e)

  map_key-live :
      (c : XContainerMapWithErase V) (i : ℕ)
      → IsCounted m c
      → length c.base.values_map < word
      → map_key (with_erase c) (XKey.index i) true
        ≡ key_at (live m c.base.values_map) (position i (length (live m c.base.values_map)))
  unfolding map_key
  map_key-live c i counted small =
      let l = live m c.base.values_map in
      let (sized, emptied) = live-size c counted small in
      rw (sized, nth_key-live c (length l - 1), nth_key-live c i)
        (ground (arith, key_at-beyond l i))

  map_key-plain :
      (c : IContainer V) (i : ℕ) (t : Bytes) (b : Bool)
      → (map_key c (XKey.string t) b ≡ name t)
        × (map_key c XKey.empty b ≡ monostate)
        × (map_key c (XKey.index i) false ≡ KeyType.index i)
  unfolding map_key plain_key
  map_key-plain c i t true = (refl, refl, refl)
  map_key-plain c i t false = (refl, refl, refl)

  plain_key-node_key : (key : KeyType) → plain_key (node_key key) ≡ key
  unfolding plain_key node_key
  plain_key-node_key monostate = refl
  plain_key-node_key (KeyType.index i) = refl
  plain_key-node_key (name s) = refl

  -- A map that is asked for an index gives the key of the entry at that position among those that
  -- are not erased, in the order of the keys, and no key where there is no such entry. At kIdxLast,
  -- which is 2 ^ 64 - 2 here, it gives the key of the last one, if there is one. A text stays itself,
  -- and the empty key is no key, whether or not an index is looked for; where it is not, an index
  -- stays itself, too. An array leaves every key as it is. This supposes that the counter of the map
  -- is right and the map has fewer than 2 ^ 64 entries.
  pub container_key-live :
      (c : XContainerMapWithErase V) (i : ℕ) (t : Bytes) (key : KeyType) (a : XContainerArray V)
      (b : Bool)
      → IsCounted m c
      → length c.base.values_map < word
      → (container_key (with_erase c) (XKey.index i) true
          ≡ key_at (live m c.base.values_map) (position i (length (live m c.base.values_map))))
        × ((container_key (with_erase c) (XKey.string t) b ≡ name t)
            × (container_key (with_erase c) XKey.empty b ≡ monostate)
            × (container_key (with_erase c) (XKey.index i) false ≡ KeyType.index i))
        × (container_key (IContainer.array a) (node_key key) b ≡ key)
  unfolding container_key container_type
  container_key-live c i t key a b counted small =
      (map_key-live c i counted small, map_key-plain (with_erase c) i t b, plain_key-node_key key)
