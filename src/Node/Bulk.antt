-- ===== src/Node/Bulk.antt =====
-- BulkGet and BulkGetAll of XNode (src/xnode/impl/xnode_impl.cpp), and what the other bulk methods
-- share. `std::map` and `std::set` of nodes and values are lists; the nodes of
-- a map are gone through in the order of their addresses.
use xnode.Prelude.{
  ℕ, Bool, true, false, not, ◌&&◌, ◌||◌, Option, none, some, List, [], ◌∷◌, ◌++◌, ◌==◌,
  if◌then◌else◌, ltb,
}
use xnode.Prelude.Int.{ltb_ℤ, pos}
use xnode.Key.{XKey}
use xnode.Value.{XValue, Double, compare_values}
use xnode.Timed.{XTimed, mapped}
use xnode.Container.{KeyType, OnItem}
use xnode.Container.Any
use xnode.Container.Any.{IContainer, ContainerType, container_type}
use xnode.Node.Heap.{World, read_container}
use xnode.Node.Match.{node_key, container_key}
use xnode.Node.Parents.{is_valid_child}
use xnode.Node.Items.{make_const, from_key}

-- OnCopyRes of include/xconstant.h
pub data OnCopyRes : Type 0 where
  skip take take_stop stop : OnCopyRes

abbrev pub takes : OnCopyRes → Bool
takes OnCopyRes.take = true
takes OnCopyRes.take_stop = true
takes _ = false

abbrev pub stops : OnCopyRes → Bool
stops OnCopyRes.stop = true
stops OnCopyRes.take_stop = true
stops _ = false

-- The callback of BulkGetAll, which may be null.
abbrev pub OnCopy : Type 0 → Type 0 → Type 0
OnCopy D S = Option (XKey → XTimed D → S → OnCopyRes × S)

module _ {D : Type 0} where
  abbrev pub const_if : Bool → XTimed D → XTimed D
  const_if read_only v = if read_only then make_const v else v

module _ {D U : Type 0} (f : Double D) where
  -- BulkGet: the values at the keys that are there.
  unfoldable pub bulk_get : Bool → World D U → ℕ → List XKey → List (XKey × XTimed D)
  bulk_get read_only w a [] = []
  bulk_get read_only w a (key ∷ keys) =
      let rest = bulk_get read_only w a keys in
      elim (read_container w a (λ c. Any.at c (container_key (mapped f) c key true)) none) [
        | none ↦ rest
        | some v ↦ (key, const_if read_only v) ∷ rest
      ]

module _ {D S : Type 0} where
  -- The callback that BulkGet_ hands to the container: the user's state and the values taken.
  unfoldable pub copy_item : Bool → OnCopy D S → OnItem (XTimed D) (S × List (XKey × XTimed D))
  copy_item read_only on_item key val (s, values) =
      let value_take = const_if read_only val in
      let answer : OnCopyRes × S = elim on_item [
        | none ↦ (OnCopyRes.take, s)
        | some g ↦ g (node_key key) value_take s
      ] in
      (
        stops answer.0,
        (answer.1, if takes answer.0 then values ++ (node_key key, value_take) ∷ [] else values),
      )

module _ {D U S : Type 0} (f : Double D) where
  unfoldable pub bulk_get_all :
      Bool → World D U → ℕ → OnCopy D S → XKey → S → S × List (XKey × XTimed D)
  bulk_get_all read_only w a on_item key_begin s =
      read_container w a
        (λ c.
          (Any.for_each_const (mapped f) c (some (copy_item read_only on_item))
            (from_key key_begin (container_key (mapped f) c key_begin true)) (s, [])).1)
        (s, [])

-- `map_set_nodes.find(node)`
unfoldable pub find_node : ℕ → List (ℕ × KeyType) → Option KeyType
find_node p [] = none
find_node p ((q, key) ∷ l) = let later = find_node p l in if p == q then some key else later

unfoldable pub erase_node : ℕ → List (ℕ × KeyType) → List (ℕ × KeyType)
erase_node p [] = []
erase_node p ((q, key) ∷ l) = let rest = erase_node p l in if p == q then rest else (q, key) ∷ rest

-- `emplace`: in the order of the addresses, and nothing where the node is there.
unfoldable pub emplace_node : ℕ → KeyType → List (ℕ × KeyType) → List (ℕ × KeyType)
emplace_node p key [] = (p, key) ∷ []
emplace_node p key ((q, other) ∷ l) =
    let rest = emplace_node p key l in
    if p == q
    then (q, other) ∷ l
    else if ltb p q
    then (p, key) ∷ (q, other) ∷ l
    else (q, other) ∷ rest

abbrev pub find_placed : Option ℕ → List (ℕ × KeyType) → Option KeyType
find_placed none l = none
find_placed (some p) l = find_node p l

abbrev pub erase_placed : Option ℕ → List (ℕ × KeyType) → List (ℕ × KeyType)
erase_placed none l = l
erase_placed (some p) l = erase_node p l

abbrev pub put_placed : Option ℕ → KeyType → List (ℕ × KeyType) → List (ℕ × KeyType)
put_placed none key l = l
put_placed (some p) key l = emplace_node p key l

module _ {D : Type 0} (f : Double D) where
  -- `invalid_childs.count(value)`: a value that is not less than one of them, nor greater.
  unfoldable pub is_among : XValue D → List (XValue D) → Bool
  is_among v [] = false
  is_among v (x ∷ l) =
      (not (ltb_ℤ (compare_values f v x) (pos 0)) && not (ltb_ℤ (compare_values f x v) (pos 0)))
      || is_among v l

module _ {D U : Type 0} (depth : ℕ) where
  -- `invalid_childs`
  unfoldable pub invalid_children : World D U → ℕ → List (XValue D) → List (XValue D)
  invalid_children w a [] = []
  invalid_children w a (v ∷ l) =
      let rest = invalid_children w a l in if (is_valid_child depth w a v).0 then rest else v ∷ rest
