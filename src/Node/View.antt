-- ===== src/Node/View.antt =====
-- The walk of BulkGetAll (src/xnode/impl/xnode_impl.cpp) over the items that a container shows.
use xnode.Prelude.{
  ℕ, zero, suc, ◌+◌, ◌≤◌, ◌≡◌, refl, sym, ap, ◌∙◌, Bool, true, none, some, List, [], ◌∷◌, ◌++◌,
  append-nil, append_assoc, if◌then◌else◌, arith, Option, ◌==◌, drop, length, inl, inr, Bool-cases,
}
use xnode.Bytes.{Bytes, same}
use xnode.Key
use xnode.Key.{XKey}
use xnode.Value.{Double}
use xnode.Timed.{XTimed, mapped}
use xnode.Container.{KeyType, OnItem, Mapped, idx_last, idx_end}
use xnode.Container.Any
use xnode.Container.Any.{IContainer}
use xnode.Container.Map
use xnode.Container.Map.{XContainerMap}
use xnode.Container.Erase.Live.{live, for_each_const-live}
use xnode.Container.Array
use xnode.Container.Array.{XContainerArray}
use xnode.Node.Heap.{World, XNode, read_container}
use xnode.Node.Match.{node_key, container_key}
use xnode.Node.Items.{from_key}
use xnode.Node.Bulk.{OnCopyRes, OnCopy, takes, stops, const_if, copy_item, bulk_get_all}

module _ {V : Type 0} where
  abbrev named : List (Bytes × V) → List (KeyType × V)
  named [] = []
  named ((k, v) ∷ l) = (KeyType.name k, v) ∷ named l

  abbrev positions : ℕ → List V → List (KeyType × V)
  positions i [] = []
  positions i (v ∷ l) = (KeyType.index i, v) ∷ positions (i + 1) l

  -- What a container shows: the entries of a map that are not erased, the values of an array.
  unfoldable pub shown : Mapped V → IContainer V → List (KeyType × V)
  shown m (IContainer.plain c) = named c.values_map
  shown m (IContainer.with_erase c) = named (live m c.base.values_map)
  shown m (IContainer.array c) = positions 0 c.values_deq

  -- The entries from that with the key on: none where no entry has it.
  abbrev starting : Bytes → List (Bytes × V) → List (Bytes × V)
  starting k [] = []
  starting k ((j, v) ∷ l) = if same k j then (j, v) ∷ l else starting k l

  -- A key that is no text, and the empty text, is in no map.
  abbrev from_name : KeyType → List (Bytes × V) → List (Bytes × V)
  from_name (KeyType.name (x ∷ k)) l = starting (x ∷ k) l
  from_name _ l = []

  abbrev last_one : List V → List V
  last_one [] = []
  last_one (v ∷ []) = v ∷ []
  last_one (v ∷ u ∷ l) = last_one (u ∷ l)

  -- kIdxLast is the last value; a key that is no index is kIdxEnd.
  abbrev from_index : KeyType → List V → List V
  from_index (KeyType.index i) l = if i == idx_last then last_one l else drop i l
  from_index _ l = drop idx_end l

  -- What a container shows from a key on, if one is given. The keys of an array's values count from
  -- where it starts.
  unfoldable pub shown_from : Mapped V → IContainer V → Option KeyType → List (KeyType × V)
  shown_from m c none = shown m c
  shown_from m (IContainer.plain c) (some key) = named (from_name key c.values_map)
  shown_from m (IContainer.with_erase c) (some key) =
      named (live m (from_name key c.base.values_map))
  shown_from m (IContainer.array c) (some key) = positions 0 (from_index key c.values_deq)

  find-starting : (k : Bytes) (l : List (Bytes × V)) → (Map.find k l).rest ≡ starting k l
  unfolding Map.find
  find-starting k [] = refl
  find-starting k ((j, v) ∷ l) = ground (arith, find-starting k l)

  map_find-from_name :
      (c : XContainerMap V) (key : KeyType) → (Map.map_find c key).rest ≡ from_name key c.values_map
  unfolding Map.map_find
  map_find-from_name c KeyType.monostate = refl
  map_find-from_name c (KeyType.index i) = refl
  map_find-from_name c (KeyType.name []) = refl
  map_find-from_name c (KeyType.name (x ∷ k)) = find-starting (x ∷ k) c.values_map

  advance-drop : (i : ℕ) (l : List V) → (Array.advance i l).rest ≡ drop i l
  unfolding Array.advance
  advance-drop zero l = refl
  advance-drop (suc i) [] = refl
  advance-drop (suc i) (v ∷ l) = advance-drop i l

  drop_beyond : (i : ℕ) (l : List V) → length l ≤ i → drop i l ≡ []
  drop_beyond zero [] h = refl
  drop_beyond (suc i) [] h = refl
  drop_beyond zero (v ∷ l) h = absurd (omega arith)
  drop_beyond (suc i) (v ∷ l) h = drop_beyond i l (omega arith)

  locate-drop : (i : ℕ) (l : List V) → (Array.locate i l).rest ≡ drop i l
  unfolding Array.locate
  locate-drop i l = ground (arith, advance-drop i l, drop_beyond i l)

  drop-last_one : (v : V) (l : List V) → drop (length l) (v ∷ l) ≡ last_one (v ∷ l)
  drop-last_one v [] = refl
  drop-last_one v (u ∷ l) = drop-last_one u l

  drop_last : (l : List V) → drop (Array.special_pos idx_last l) l ≡ last_one l
  drop_last [] = refl
  drop_last (v ∷ []) = refl
  drop_last (v ∷ u ∷ l) =
      let pos : Array.special_pos idx_last (v ∷ u ∷ l) ≡ suc (length l) = ground arith in
      ap (λ i. drop i (v ∷ u ∷ l)) pos ∙ drop-last_one u l

  deq_find_const-from_index :
      (c : XContainerArray V) (key : KeyType)
      → (Array.deq_find_const c key).rest ≡ from_index key c.values_deq
  unfolding Array.deq_find_const
  deq_find_const-from_index c KeyType.monostate = locate-drop idx_end c.values_deq
  deq_find_const-from_index c (KeyType.name b) = locate-drop idx_end c.values_deq
  deq_find_const-from_index c (KeyType.index i) = locate-drop _ c.values_deq ∙ at i c.values_deq
    where
      at : (i : ℕ) (l : List V) → drop (Array.special_pos i l) l ≡ from_index (KeyType.index i) l
      at i l = elim (Bool-cases (i == idx_last)) [
        | inl e ↦ let last : i ≡ idx_last = ground arith in rw last (drop_last l)
        | inr e ↦ rw e refl
      ]

module _ {V S : Type 0} where
  unfoldable walk : OnItem V S → List (KeyType × V) → S → S
  walk f [] s = s
  walk f ((k, v) ∷ l) s =
      let (done, s') = f k v s in let go = walk f l s' in if done then s' else go

  visit-walk :
      (f : OnItem V S) (l : List (Bytes × V)) (s : S) → Map.visit f l s ≡ walk f (named l) s
  unfolding Map.visit walk
  visit-walk f [] s = refl
  visit-walk f ((k, v) ∷ l) s = rw (visit-walk f l (f (KeyType.name k) v s).1) refl

  visit-positions-walk :
      (f : OnItem V S) (i : ℕ) (l : List V) (s : S) → Array.visit f i l s ≡ walk f (positions i l) s
  unfolding Array.visit walk
  visit-positions-walk f i [] s = refl
  visit-positions-walk f i (v ∷ l) s =
      rw (visit-positions-walk f (i + 1) l (f (KeyType.index i) v s).1) refl

  map-walk :
      (c : XContainerMap V) (f : OnItem V S) (from : Option KeyType) (s : S)
      → (Map.for_each_const c (some f) from s).1 ≡ walk f (named (Map.start c from).rest) s
  unfolding Map.for_each_const Map.visit
  map-walk c f from s = ground (arith, visit-walk f (Map.start c from).rest s)

  array-walk :
      (c : XContainerArray V) (f : OnItem V S) (key : KeyType) (s : S)
      → (Array.for_each_const c (some f) (some key) s).1
        ≡ walk f (positions 0 (Array.deq_find_const c key).rest) s
  unfolding Array.for_each_const Array.visit
  array-walk c f key s =
      ground (arith, visit-positions-walk f 0 (Array.deq_find_const c key).rest s)

  for_each_const-walk :
      (m : Mapped V) (c : IContainer V) (f : OnItem V S) (from : Option KeyType) (s : S)
      → (Any.for_each_const m c (some f) from s).1 ≡ walk f (shown_from m c from) s
  unfolding Any.for_each_const shown shown_from
  for_each_const-walk m (IContainer.plain c) f none s = map-walk c f none s
  for_each_const-walk m (IContainer.plain c) f (some key) s =
      map-walk c f (some key) s ∙ ap (λ l. walk f (named l) s) (map_find-from_name c key)
  for_each_const-walk m (IContainer.with_erase c) f none s =
      ap (λ r. r.1) (for_each_const-live m c f none s) ∙ visit-walk f (live m c.base.values_map) s
  for_each_const-walk m (IContainer.with_erase c) f (some key) s =
      ap (λ r. r.1) (for_each_const-live m c f (some key) s)
      ∙ visit-walk f (live m (Map.map_find c.base key).rest) s
      ∙ ap (λ l. walk f (named (live m l)) s) (map_find-from_name c.base key)
  for_each_const-walk m (IContainer.array c) f none s =
      ground (arith, visit-positions-walk f 0 c.values_deq s)
  for_each_const-walk m (IContainer.array c) f (some key) s =
      array-walk c f key s ∙ ap (λ l. walk f (positions 0 l) s) (deq_find_const-from_index c key)

module _ {D S : Type 0} where
  -- An item, by the callback's answer, and the items after it.
  abbrev keep_item :
      OnCopyRes × S → XKey × XTimed D → S × List (XKey × XTimed D) → S × List (XKey × XTimed D)
  keep_item answer item rest =
      let (last, later) = if stops answer.0 then (answer.1, []) else rest in
      (last, if takes answer.0 then item ∷ later else later)

  -- The items that a callback takes, up to the one where it stops; a null one takes all.
  unfoldable pub collect :
      Bool → OnCopy D S → List (KeyType × XTimed D) → S → S × List (XKey × XTimed D)
  collect read_only on_item [] s = (s, [])
  collect read_only on_item ((k, v) ∷ l) s =
      let val = const_if read_only v in
      let answer : OnCopyRes × S = elim on_item [
        | none ↦ (OnCopyRes.take, s)
        | some g ↦ g (node_key k) val s
      ] in
      keep_item answer (node_key k, val) (collect read_only on_item l answer.1)

  walk-collect :
      (read_only : Bool) (on_item : OnCopy D S) (l : List (KeyType × XTimed D)) (s : S)
      (values : List (XKey × XTimed D))
      → walk (copy_item read_only on_item) l (s, values)
        ≡ ((collect read_only on_item l s).0, values ++ (collect read_only on_item l s).1)
  unfolding walk collect copy_item
  walk-collect read_only on_item [] s values = ap (λ t. (s, t)) (sym (append-nil values))
  walk-collect read_only on_item ((k, v) ∷ l) s values =
      step (λ s' kept. walk-collect read_only on_item l s' kept)
        (elim on_item [
          | none ↦ (OnCopyRes.take, s)
          | some g ↦ g (node_key k) (const_if read_only v) s
        ])
    where
      item : XKey × XTimed D
      item = (node_key k, const_if read_only v)

      step :
          ((s' : S) (kept : List (XKey × XTimed D))
            → walk (copy_item read_only on_item) l (s', kept)
              ≡ ((collect read_only on_item l s').0, kept ++ (collect read_only on_item l s').1))
          → (answer : OnCopyRes × S)
          → (let kept : List (XKey × XTimed D) =
                if takes answer.0 then values ++ item ∷ [] else values in
              let go = walk (copy_item read_only on_item) l (answer.1, kept) in
              if stops answer.0 then (answer.1, kept) else go)
            ≡ (let rest = keep_item answer item (collect read_only on_item l answer.1) in
                (rest.0, values ++ rest.1))
      step ih (OnCopyRes.skip, s') = ih s' values
      step ih (OnCopyRes.take, s') =
          ih s' (values ++ item ∷ [])
          ∙ ap (λ t. ((collect read_only on_item l s').0, t))
              (append_assoc values (item ∷ []) (collect read_only on_item l s').1)
      step ih (OnCopyRes.take_stop, s') = refl
      step ih (OnCopyRes.stop, s') = ap (λ t. (s', t)) (sym (append-nil values))

  -- BulkGetAll gives the items that the node's container shows from key_begin on, each with its key
  -- and made constant for a constant node, as the callback takes or skips them and until it stops;
  -- without one, all of them. With the empty key it starts at the first item. A map starts at the
  -- entry with the container's key that key_begin stands for, and gives nothing where it has none; an
  -- array starts at the index, kIdxLast (2 ^ 64 - 2 here) being its last value, and then counts the
  -- keys from 0. An erased entry is no item, but a map may start at one.
  pub bulk_get_all-collect :
      {U : Type 0} (f : Double D) (read_only : Bool) (w : World D U) (a : ℕ) (n : XNode D U)
      (on_item : OnCopy D S) (key_begin : XKey) (s : S)
      → w.nodes a ≡ some n
      → bulk_get_all f read_only w a on_item key_begin s
        ≡ collect read_only on_item
            (shown_from (mapped f) n.container (
              if Key.is_empty key_begin
              then none
              else some (container_key (mapped f) n.container key_begin true)))
            s
  unfolding bulk_get_all read_container
  bulk_get_all-collect f read_only w a n on_item key_begin s e =
      let from = from_key key_begin (container_key (mapped f) n.container key_begin true) in
      rw (e, bulk_get_all, read_container)
        (for_each_const-walk (mapped f) n.container (copy_item read_only on_item) from (s, [])
          ∙ walk-collect read_only on_item (shown_from (mapped f) n.container from) s [])

  -- From the beginning.
  pub bulk_get_all-shown :
      {U : Type 0} (f : Double D) (read_only : Bool) (w : World D U) (a : ℕ) (n : XNode D U)
      (on_item : OnCopy D S) (s : S)
      → w.nodes a ≡ some n
      → bulk_get_all f read_only w a on_item XKey.empty s
        ≡ collect read_only on_item (shown (mapped f) n.container) s
  unfolding Key.is_empty shown_from
  bulk_get_all-shown f read_only w a n on_item s e =
      bulk_get_all-collect f read_only w a n on_item XKey.empty s e
