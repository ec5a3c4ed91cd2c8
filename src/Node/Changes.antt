-- ===== src/Node/Changes.antt =====
-- The other methods of XNode (src/xnode/impl/xnode_impl.cpp) that change one node: Clear, ForEach,
-- KeyChange, NameSet and the callbacks.
use xnode.Prelude.{
  ℕ, Bool, true, false, not, ◌||◌, Option, none, some, List, [], ◌∷◌, ◌++◌, if◌then◌else◌, is_some,
}
use mathlib.Core.Option
use xnode.Prelude.Int.{ℤ}
use xnode.Bytes.{Bytes, same}
use xnode.Key
use xnode.Key.{XKey, Kind}
use xnode.Value
use xnode.Value.{XValue, ValueType, Double}
use xnode.Timed.{XTimed, mapped}
use xnode.Container.{KeyType, OnEachRes, OnEach, OnItem, wants_erase}
use xnode.Container.Any
use xnode.Container.Any.{IContainer}
use xnode.Callbacks
use xnode.Node.Heap.{XNode, World, Call, write, query_ptr, on_container, on_change, erased_value}
use xnode.Node.Match.{node_key, container_key}
use xnode.Node.Parents.{parent_get, name_or_null, is_map, private_name_set}
use xnode.Node.Items.{from_key, drop_duplicates, detach_all, adopt_all}

abbrev pub note : Option ℕ → List ℕ → List ℕ
note none l = l
note (some p) l = l ++ p ∷ []

abbrev pub same_kind : Kind → Kind → Bool
same_kind Kind.empty Kind.empty = true
same_kind Kind.index Kind.index = true
same_kind Kind.string Kind.string = true
same_kind _ _ = false

module _ {D : Type 0} (f : Double D) where
  -- RemoveDuplicates for each node that was placed.
  unfoldable pub drop_all : List (ℕ × KeyType) → IContainer (XTimed D) → IContainer (XTimed D)
  drop_all [] c = c
  drop_all ((p, key) ∷ l) c = drop_all l (drop_duplicates f c (some p) key)

module _ {D U : Type 0} where
  -- OnChangeAdd, OnChangeRemove and OnChangeReset of the node's callbacks.
  unfoldable pub on_change_add :
      World D U → ℕ → ℕ → Option (Callbacks.Callback ℕ (XTimed D) U) → ℕ → ℕ × World D U
  on_change_add w a next_uid callback id = elim (w.nodes a) [
    | none ↦ (0, w)
    | some n ↦
        let (chosen, callbacks) = Callbacks.on_change_add next_uid callback id n.callbacks in
        (chosen, write w a (record n { callbacks = callbacks }))
  ]

  unfoldable pub on_change_remove : World D U → ℕ → ℕ → Bool × World D U
  on_change_remove w a id = elim (w.nodes a) [
    | none ↦ (false, w)
    | some n ↦
        let (removed, callbacks) = Callbacks.on_change_remove id n.callbacks in
        (removed, write w a (record n { callbacks = callbacks }))
  ]

  unfoldable pub on_change_reset : World D U → ℕ → ℕ × World D U
  on_change_reset w a = elim (w.nodes a) [
    | none ↦ (0, w)
    | some n ↦
        let (count, callbacks) = Callbacks.on_change_reset n.callbacks in
        (count, write w a (record n { callbacks = callbacks }))
  ]

  -- The callback with which Clear collects the nodes.
  unfoldable pub collect_node : World D U → OnItem (XTimed D) (List ℕ)
  collect_node w key val l = (false, note (query_ptr w val.value) l)

module _ {D U : Type 0} (f : Double D) (time : ℕ → ℤ) (depth : ℕ) where
  unfoldable pub clear : World D U → ℕ → World D U
  clear w a =
      let clear_in : IContainer (XTimed D) → Call D U → List ℕ × IContainer (XTimed D) × Call D U =
        λ c call. (
          (Any.for_each_const (mapped f) c (some (collect_node w)) none []).1,
          Any.clear c,
          call,
        ) in
      let ((removed, _, _), w1) = on_container w a clear_in [] in detach_all f time depth removed w1

  -- The callback of ForEach: the user's, with a note of the nodes that it removes and places.
  unfoldable pub note_nodes :
      World D U → (XKey → XTimed D → U → OnEachRes × XTimed D × U) → OnEach (XTimed D) (Call D U)
  note_nodes w on_item key val call =
      let (res, val', user) = on_item (node_key key) val call.user in
      let gone = note (query_ptr w val.value) call.removed in
      let came : List (ℕ × KeyType) = elim (query_ptr w val'.value) [
        | none ↦ call.placed
        | some p ↦ call.placed ++ (p, key) ∷ []
      ] in
      let changed = record call { user = user } in
      (
        res,
        val',
        if wants_erase res
            then record changed { removed = gone }
            else if not (Value.eq f val'.value val.value)
            then record changed { removed = gone; placed = came }
            else changed,
      )

  unfoldable pub for_each :
      World D U
      → ℕ
      → Option (XKey → XTimed D → U → OnEachRes × XTimed D × U)
      → XKey
      → Bool × World D U
  for_each w a on_item key =
      let each_in : IContainer (XTimed D) → Call D U → Bool × IContainer (XTimed D) × Call D U =
        λ c call.
          let (found, c1, call1) =
            Any.for_each (mapped f) (erased_value time) c (Option.map (note_nodes w) on_item)
              (from_key key (container_key (mapped f) c key true)) (on_change a false) call in
          (found, drop_all f call1.placed c1, call1) in
      let ((found, removed, placed), w1) = on_container w a each_in false in
      (found, adopt_all f time depth a placed (detach_all f time depth removed w1))

  -- The containers' part of KeyChange: whether the value was moved, and the value.
  unfoldable pub move_in :
      ℕ
      → XKey
      → XKey
      → IContainer (XTimed D)
      → Call D U
      → Option (XTimed D) × IContainer (XTimed D) × Call D U
  move_in a from to c call =
      let key_to = container_key (mapped f) c to false in
      let (moved, c1, call1) =
        Any.erase (mapped f) (erased_value time) c (container_key (mapped f) c from true)
          (on_change a false) call in
      if is_some (Any.at c key_to) then (none, c, call) else elim moved [
        | none ↦ (none, c1, call1)
        | some v ↦
            let (is_set, previous, c2, call2) =
              Any.set (mapped f) c1 key_to v (on_change a true) call1 in
            (some v, c2, call2)
      ]

  -- A node that was moved takes its new name.
  unfoldable pub rename_moved : World D U → Option (XTimed D) → XKey → World D U
  rename_moved w none to = w
  rename_moved w (some v) XKey.empty = w
  rename_moved w (some v) (XKey.index i) = w
  rename_moved w (some v) (XKey.string s) = elim (query_ptr w v.value) [
    | none ↦ w
    | some p ↦ (private_name_set w p s).1
  ]

  unfoldable pub key_change : World D U → ℕ → XKey → XKey → Bool × World D U
  key_change w a from to =
      let ((moved, _, _), w1) = on_container w a (move_in a from to) none in
      if Key.is_empty from || (Key.is_empty to || not (same_kind (Key.kind from) (Key.kind to)))
      then (false, w)
      else (is_some moved, rename_moved w1 moved to)

  -- NameSet of a node that has a name, by its parent.
  unfoldable pub change_name :
      World D U → ℕ → XNode D U → Bytes → Option ℕ → Bytes → Bool → (Bool × Bytes) × World D U
  change_name w a n s none name_new update_parent =
      ((true, s), write w a (record n { name = name_or_null name_new }))
  change_name w a n s (some p) name_new update_parent =
      let (ok, w1) = key_change w p (XKey.string s) (XKey.string name_new) in
      if not (is_map w p)
      then ((true, s), write w a (record n { name = name_or_null name_new }))
      else if not update_parent
      then ((false, s), w)
      else ((ok, s), w1)

  unfoldable pub name_set_in :
      World D U → ℕ → XNode D U → Option Bytes → Bytes → Bool → (Bool × Bytes) × World D U
  name_set_in w a n none name_new update_parent =
      if same name_new []
      then ((true, name_new), w)
      else ((true, []), write w a (record n { name = name_or_null name_new }))
  name_set_in w a n (some s) name_new update_parent =
      if same name_new s
      then ((true, name_new), w)
      else change_name w a n s (parent_get w a) name_new update_parent

  -- NameSet: {success, the name before}
  unfoldable pub name_set : World D U → ℕ → Bytes → Bool → (Bool × Bytes) × World D U
  name_set w a name_new update_parent = elim (w.nodes a) [
    | none ↦ ((false, []), w)
    | some n ↦ name_set_in w a n n.name name_new update_parent
  ]
