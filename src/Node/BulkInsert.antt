-- ===== src/Node/BulkInsert.antt =====
-- The two BulkInsert and BulkErase of XNode (src/xnode/impl/xnode_impl.cpp).
use xnode.Prelude.{
  ℕ, ◌+◌, Bool, true, false, not, ◌&&◌, ◌||◌, Option, none, some, List, [], ◌∷◌, ◌++◌, ◌==◌,
  if◌then◌else◌, is_some, map,
}
use mathlib.Core.Option
use xnode.Prelude.Int.{ℤ}
use xnode.Key
use xnode.Key.{XKey, Kind}
use xnode.Value
use xnode.Value.{XValue, Double, compare_values}
use xnode.Timed.{XTimed, mapped}
use xnode.Container.{KeyType, monostate, EmplaceRes, idx_end, idx_last}
use xnode.Container.Any
use xnode.Container.Any.{IContainer, ContainerType, container_type}
use xnode.Node.Heap.{
  World, Call, query_ptr, on_container, read_container, on_change, stamp, erased_value,
}
use xnode.Node.Match.{node_key, container_key}
use xnode.Node.Parents.{set_as_child}
use xnode.Node.Items.{duplicate_of, detach_all, parent_detach}
use xnode.Node.Bulk.{find_placed, put_placed, is_among, invalid_children}

abbrev pub is_string : XKey → Bool
is_string key = elim (Key.kind key) [ Kind.string ↦ true | _ ↦ false ]

module _ {D : Type 0} (f : Double D) where
  -- The keys of BulkErase with those of the container, which are found before anything is erased.
  unfoldable pub container_keys : IContainer (XTimed D) → List XKey → List (XKey × KeyType)
  container_keys c [] = []
  container_keys c (key ∷ keys) = (key, container_key (mapped f) c key true) ∷ container_keys c keys

module _ {D U : Type 0} (f : Double D) (time : ℕ → ℤ) (depth : ℕ) where
  -- One round of the loop of BulkInsert: the entry if it is left, which a failure changes.
  unfoldable pub insert_step :
      World D U
      → ℕ
      → List (XValue D)
      → XKey × XValue D
      → IContainer (XTimed D)
      → Call D U
      → Option (XKey × XValue D) × IContainer (XTimed D) × Call D U
  insert_step w a invalid (key, val) c call =
      let node = query_ptr w val in
      let (key_dup, duplicated) = duplicate_of f c node in
      let (v, call1) = stamp time val call in
      let (res, c1, call2) =
        Any.emplace (mapped f) c (container_key (mapped f) c key false) v (on_change a false)
          call1 in
      let inserted = record call2 { placed = put_placed node res.inserted_at call2.placed } in
      if is_among f val invalid
      then (some (key, val), c, call)
      else if is_some (find_placed node call.placed)
      then (some (key, val), c, call)
      else if is_some node && not (Value.is_empty duplicated.value)
      then (some (node_key key_dup, val), c, call)
      else if res.succeeded
      then (none, c1, inserted)
      else (some (key, res.existed.value), c1, call2)

  unfoldable pub insert_each :
      World D U
      → ℕ
      → List (XValue D)
      → List (XKey × XValue D)
      → IContainer (XTimed D)
      → Call D U
      → (ℕ × List (XKey × XValue D)) × IContainer (XTimed D) × Call D U
  insert_each w a invalid [] c call = ((0, []), c, call)
  insert_each w a invalid (entry ∷ values) c call =
      let (kept, c1, call1) = insert_step w a invalid entry c call in
      let ((succeeded, left), c2, call2) = insert_each w a invalid values c1 call1 in
      (elim kept [ none ↦ (succeeded + 1, left) | some e ↦ (succeeded, e ∷ left) ], c2, call2)

  -- ParentDetach and SetAsChild_ for each node that was inserted.
  unfoldable pub move_all : ℕ → List (ℕ × KeyType) → World D U → World D U
  move_all this [] w = w
  move_all this ((p, key) ∷ l) w =
      let w1 = (parent_detach f time depth w p).1 in
      move_all this l (set_as_child f time depth w1 this p (Key.string_get (node_key key))).1

  unfoldable pub bulk_insert :
      World D U → ℕ → List (XKey × XValue D) → (ℕ × List (XKey × XValue D)) × World D U
  bulk_insert w a values =
      let invalid = invalid_children depth w a (map (λ e. e.1) values) in
      let ((res, _, placed), w1) = on_container w a (insert_each w a invalid values) (0, values) in
      (res, move_all a placed w1)

  -- One round of the loop of the BulkInsert into an array: the position for the next value and
  -- whether the value is left. A value that is no node is looked for as a null value.
  unfoldable pub insert_at_step :
      World D U
      → ℕ
      → List (XValue D)
      → ℕ
      → XValue D
      → IContainer (XTimed D)
      → Call D U
      → (ℕ × Option (EmplaceRes (XTimed D))) × IContainer (XTimed D) × Call D U
  insert_at_step w a invalid place val c call =
      let node = query_ptr w val in
      let (key_dup, duplicated) = duplicate_of f c node in
      let (v, call1) = stamp time val call in
      let (res, c1, call2) =
        Any.emplace (mapped f) c (KeyType.index place) v (on_change a false) call1 in
      let inserted : Call D U = record call2 {
        placed = elim node [ none ↦ call2.placed | some p ↦ call2.placed ++ (p, monostate) ∷ [] ];
      } in
      let next = if place == idx_end || place == idx_last then place else place + 1 in
      if is_among f val invalid
      then ((place, none), c, call)
      else if not (Value.is_empty duplicated.value)
      then ((place, none), c, call)
      else if res.succeeded
      then ((next, some res), c1, inserted)
      else ((place, some res), c1, call2)

  -- The loop: {inserted, the key of the last Emplace}.
  unfoldable pub insert_at_each :
      World D U
      → ℕ
      → List (XValue D)
      → ℕ
      → KeyType
      → List (XValue D)
      → IContainer (XTimed D)
      → Call D U
      → (ℕ × KeyType) × IContainer (XTimed D) × Call D U
  insert_at_each w a invalid place last [] c call = ((0, last), c, call)
  insert_at_each w a invalid place last (val ∷ values) c call =
      let ((next, tried), c1, call1) = insert_at_step w a invalid place val c call in
      let key : KeyType = elim tried [ none ↦ last | some r ↦ r.inserted_at ] in
      let added : ℕ = elim tried [ none ↦ 0 | some r ↦ if r.succeeded then 1 else 0 ] in
      let ((inserted, key1), c2, call2) = insert_at_each w a invalid next key values c1 call1 in
      ((added + inserted, key1), c2, call2)

  -- SetAsChild_ with no name.
  unfoldable pub adopt_unnamed : ℕ → List (ℕ × KeyType) → World D U → World D U
  adopt_unnamed this [] w = w
  adopt_unnamed this ((p, key) ∷ l) w =
      adopt_unnamed this l (set_as_child f time depth w this p none).1

  abbrev pub is_array : World D U → ℕ → Bool
  is_array w a =
      read_container w a
        (λ c. elim (container_type c) [ ContainerType.map ↦ false | ContainerType.array ↦ true ])
        false

  unfoldable pub bulk_insert_at : World D U → ℕ → XKey → List (XValue D) → (ℕ × XKey) × World D U
  bulk_insert_at w a insert_pos values =
      let invalid = invalid_children depth w a values in
      let place = Option.get_or (Key.index_get insert_pos) idx_end in
      let ((res, _, placed), w1) =
        on_container w a (insert_at_each w a invalid place monostate values) (0, monostate) in
      if is_string insert_pos
      then ((0, insert_pos), w)
      else if is_array w a
      then ((res.0, node_key res.1), adopt_unnamed a placed w1)
      else ((0, XKey.empty), w)

  unfoldable pub erase_each :
      List (XKey × KeyType)
      → IContainer (XTimed D)
      → Call D U
      → List (XKey × XTimed D) × IContainer (XTimed D) × Call D U
  erase_each [] c call = ([], c, call)
  erase_each ((key, found) ∷ keys) c call =
      let (erased, c1, call1) = Any.erase (mapped f) (erased_value time) c found none call in
      let (extracted, c2, call2) = erase_each keys c1 call1 in
      (elim erased [ none ↦ extracted | some v ↦ (key, v) ∷ extracted ], c2, call2)

  unfoldable pub extracted_nodes : World D U → List (XKey × XTimed D) → List ℕ
  extracted_nodes w [] = []
  extracted_nodes w ((key, v) ∷ l) = elim (query_ptr w v.value) [
    | none ↦ extracted_nodes w l
    | some p ↦ p ∷ extracted_nodes w l
  ]

  unfoldable pub bulk_erase : World D U → ℕ → List XKey → List (XKey × XTimed D) × World D U
  bulk_erase w a keys =
      let erase_in : IContainer (XTimed D)
          → Call D U
          → List (XKey × XTimed D) × IContainer (XTimed D) × Call D U =
        λ c call. erase_each (container_keys f c keys) c call in
      let ((extracted, _, _), w1) = on_container w a erase_in [] in
      (extracted, detach_all f time depth (extracted_nodes w1 extracted) w1)
