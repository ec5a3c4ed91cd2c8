-- ===== src/Tests/Heaps.antt =====
-- The store of the nodes, the functions on it and JSON, at concrete nodes.
use xnode.Prelude.{
  ℕ, ◌+◌, ◌≡◌, ◌≢◌, ◌↔◌, refl, true, Option, none, some, List, [], ◌∷◌, ◌==◌, if◌then◌else◌, codes,
  arith,
}
use xnode.Prelude.Int.{ℤ, pos}
use xnode.Key.{XKey}
use xnode.Value.{XValue}
use xnode.Timed.{XTimed}
use xnode.Bytes.{Bytes, compare_bytes}
use xnode.Key
use xnode.Value
use xnode.Timed
use xnode.Callbacks
use xnode.Container.Any
use xnode.Container.Any.{IContainer}
use xnode.Container.Map
use xnode.Container.Erase
use xnode.Node
use xnode.Node.Match
use xnode.Node.Validator
use xnode.Node.{NodeType}
use xnode.Node.Heap
use xnode.Node.Heap.{XNode, World}
use xnode.Node.Parents
use xnode.Node.Items
use xnode.Node.Forest.{IsForest, Above}
use xnode.Node.Climb.{Height, is_valid_parent-exact}
use xnode.Node.Calls
use xnode.Node.Calls.{Reaches, Reaches-IsForest}
use xnode.Node.Adopted.{set-parent}
use xnode.Node.Placed.{items_at-set}
use xnode.Tests.Data.{Item, floats}

abbrev pub time : ℕ → ℤ
time n = pos (n + 100)

abbrev pub nothing : World ℕ (List ℕ)
nothing = record { nodes = λ a. none; next = 0; user = []; clock = 0 }

nothing-IsForest : IsForest nothing
unfolding Parents.parent_of
nothing-IsForest x (Above.parent e) = cc
nothing-IsForest x (Above.beyond e up) = cc

abbrev two_maps : World ℕ (List ℕ)
two_maps = (Heap.create (Heap.create nothing NodeType.map [] 0).1 NodeType.map [] 0).1

abbrev pub child_key : XKey
child_key = XKey.string (codes "a")

abbrev steps :
    Reaches floats time 5 nothing (Items.set floats time 5 two_maps 0 child_key (XValue.object 1)).1
steps =
    Calls.next
      (Calls.next (Calls.next Calls.start (Calls.make NodeType.map [] 0))
        (Calls.make NodeType.map [] 0))
      (Calls.set_item 0 child_key (XValue.object 1))

Reaches-IsForest_example :
    IsForest (Items.set floats time 5 two_maps 0 child_key (XValue.object 1)).1
Reaches-IsForest_example = Reaches-IsForest floats time 5 steps nothing-IsForest

unfoldable pub program : Unit {0}
unfolding Heap.create Heap.write Heap.node_of Heap.query_ptr Heap.query_ptr_c Heap.on_container
    Heap.read_container Heap.stamp Heap.erased_value Heap.on_change Heap.node_type Parents.parent_of
    Parents.parent_get Parents.name_get Parents.is_free_of Parents.is_valid_parent
    Parents.is_valid_child Parents.private_parent_set Parents.private_erase Parents.erase_from
    Parents.erase_child Parents.set_as_child Node.node_container Match.container_key Match.node_key
    Match.map_key Match.plain_key Match.nth_key Value.object_ptr Value.object_ptr_c Value.eq
    Value.is_empty Value.is_object Value.has_value Value.is_integer Timed.timed Timed.time_is_absent
    Timed.empty_with_time Items.set Items.set_in Items.drop_duplicates Items.adopt_all Items.insert
    Items.insert_in Items.duplicate_of Items.at Items.validator_of Any.set Any.emplace Any.at
    Any.erase Any.for_each Any.for_each_const Any.container_create Any.container_type Map.set
    Map.emplace Map.erase Map.at Map.map_find Map.find Map.insert_sorted Map.is_key_valid Erase.set
    Erase.emplace Erase.erase Erase.detect_erase Erase.recount Erase.for_each_const
    Erase.skip_erased Callbacks.do_callbacks Callbacks.call_all Validator.remove_duplicates
    Validator.find_duplicates compare_bytes Key.string_get
program = tt

-- Node 0 holds node 1, which holds nothing, and a number; node 2 is on its own.
abbrev map_of : List (Bytes × Item) → IContainer Item
map_of l = Any.with_erase record { base = record { values_map = l }; erased_values = 0 }

abbrev pub node : List (Bytes × Item) → Option ℕ → Option Bytes → XNode ℕ (List ℕ)
node l parent name = record {
  object_uid = 0;
  container = map_of l;
  parent = parent;
  name = name;
  callbacks = record { callbacks_map = [] };
}

abbrev pub of_a : Bytes × Item
of_a = (codes "a", record { value = XValue.object 1; timestamp = pos 1 })

abbrev pub of_b : Bytes × Item
of_b = (codes "b", record { value = XValue.int64 (pos 7); timestamp = pos 2 })

abbrev pub family_node : XNode ℕ (List ℕ)
family_node = node (of_a ∷ of_b ∷ []) none none

abbrev family_nodes : ℕ → Option (XNode ℕ (List ℕ))
family_nodes a =
    if a == 0
    then some family_node
    else if a == 1
    then some (node [] (some 0) (some (codes "a")))
    else if a == 2
    then some (node [] none none)
    else none

abbrev pub family : World ℕ (List ℕ)
family = record { nodes = family_nodes; next = 3; user = []; clock = 0 }

abbrev child : ℕ
child = 1

two_above : Height family (some 1) 2
unfolding program
two_above = Height.under (Height.under Height.top)

is_valid_parent-exact_example :
    (Parents.is_valid_parent 3 family 2 (some 1) ≡ true) ↔ ((child ≢ 2) × (¬ Above family 1 2))
is_valid_parent-exact_example = is_valid_parent-exact 3 family 2 1 2 refl two_above (omega arith)

set_succeeds : (Items.set floats time 5 family 2 child_key (XValue.object 1)).0.0 ≡ true
unfolding program
set_succeeds = refl

set-parent_example :
    Parents.parent_of (Items.set floats time 5 family 2 child_key (XValue.object 1)).1 1 ≡ some 2
set-parent_example = set-parent floats time 5 family 2 1 97 [] refl set_succeeds

abbrev b_key : XKey
b_key = XKey.string (codes "b")

abbrev moved : XKey → World ℕ (List ℕ)
moved key = (Items.set floats time 5 family 2 key (XValue.object 1)).1

-- Node 1 is put into node 2 under the name that the number has in node 0: node 0 loses the number
-- and holds node 1 still. Under another name it is as it should be.
wrong_item_erased :
    ((Items.at floats (moved b_key) 0 child_key).value ≡ XValue.object 1)
    × ((Items.at floats (moved b_key) 0 b_key).value ≡ XValue.empty)
    × (Parents.parent_of (moved b_key) 1 ≡ some 2)
    × ((Items.at floats (moved child_key) 0 child_key).value ≡ XValue.empty)
    × ((Items.at floats (moved child_key) 0 b_key).value ≡ XValue.int64 (pos 7))
unfolding program
wrong_item_erased = (refl, refl, refl, refl, refl)

-- Node 1 gets another key in node 0, and keeps its name.
name_stays :
    Parents.name_get
      (Items.set floats time 5 family 0 (XKey.string (codes "c")) (XValue.object 1)).1
      1
    ≡ codes "a"
unfolding program
name_stays = refl

second_succeeds : (Items.set floats time 5 family 0 b_key (XValue.object 2)).0.0 ≡ true
unfolding program
second_succeeds = refl

placed_in_map :
    (Items.at floats (Items.set floats time 5 family 0 b_key (XValue.object 2)).1 0 b_key).value
    ≡ XValue.object 2
placed_in_map =
    items_at-set floats time 5 family 0 98 [] (XValue.object 2) (node (of_a ∷ of_b ∷ []) none none)
      record { base = record { values_map = of_a ∷ of_b ∷ [] }; erased_values = 0 } refl refl
      second_succeeds
