-- ===== src/Tests/Sax.antt =====
-- The handler of src/xnode/xml/sax_handler.cpp, on the events of small documents.
use xnode.Prelude.{
  All, ℕ, ◌≡◌, refl, true, false, Option, none, some, List, [], ◌∷◌, codes, length, map, ◌<◌, ◌⊎◌,
  ◌==◌, if◌then◌else◌, arith,
}
use mathlib.Core.Option
use xnode.Prelude.Int.{pos}
use xnode.Bytes.{Bytes}
use xnode.Key
use xnode.Key.{XKey}
use xnode.Path
use xnode.Value
use xnode.Value.{XValue}
use xnode.Value.Make
use xnode.Node.{NodeType}
use xnode.Node.Heap
use xnode.Node.Heap.{World, XNode}
use xnode.Node.Parents
use xnode.Node.Items
use xnode.Node.Bulk
use xnode.Functions
use xnode.Container.Any
use xnode.Container.Erase
use xnode.Functions.Results.{Gives}
use xnode.Sax
use xnode.Sax.{XNodeSaxHandler}
use xnode.Sax.Arrays
use xnode.Sax.Handler
use xnode.Sax.Handler.{SaxEvent, handle_all, from_xml}
use xnode.Sax.Ends.{names_of, key_loop_ends}
use xnode.Sax.Stacks.{IsBalanced}
use xnode.Sax.Balance.{open_after, handle_all-IsBalanced}
use xnode.Tests.Data.{floats}
use xnode.Tests.Heaps
use xnode.Timed.{XTimed}
use xnode.Container.Erase.{XContainerMapWithErase}
use xnode.Node.Named.Steps.{values}
use xnode.Node.Named.Fresh.{IsFresh}
use xnode.Sax.Attributes.{Distinct, Fits, key_of, put_attributes-values}
use xnode.Tests.Heaps.{family, time, nothing}

program : Unit {0}
unfolding Heaps.program Functions.◌>>=◌ Functions.pure Functions.call Functions.look
    Functions.endless Bulk.bulk_get_all Bulk.copy_item Key.is_empty Key.of_text Items.make_const
    Make.of_string Path.decimal Sax.is_formating Sax.store_nodes_order Sax.key_loop
    Sax.last_and_new_keys Sax.put_at Sax.put_text Sax.put_value Sax.wrap_value Sax.wrap_node
    Sax.insert_last Arrays.has_object Arrays.is_collapsed Arrays.keys_to_update
    Arrays.has_nested_nodes Arrays.move_items Arrays.start_array Arrays.collapse_keys
    Arrays.collapse_array_nodes Arrays.end_array Arrays.convert_items Arrays.place_array
    Arrays.convert_to_array Arrays.propagate_node_name Handler.key_of_node Handler.handler
    Handler.put_in_map Handler.put_in_array Handler.put_node Handler.put_attributes
    Handler.finish_node Handler.end_node Handler.handle Handler.handle_all Handler.from_xml
    Parents.is_name Items.size Any.size Erase.size
program = tt

abbrev opens : Bytes → SaxEvent
opens name = SaxEvent.start_element name []

abbrev closes : Bytes → SaxEvent
closes name = SaxEvent.end_element name

abbrev start : Bytes → XNodeSaxHandler ℕ
start name = Handler.handler 0 name (codes "@") (codes "#")

-- <r><a></a>
abbrev one_child : List SaxEvent
one_child = opens (codes "r") ∷ opens (codes "a") ∷ closes (codes "a") ∷ []

one_open : open_after 0 one_child ≡ some 1
unfolding open_after
one_open = refl

abbrev stacks : Option (XNodeSaxHandler ℕ × World ℕ (List ℕ)) → Option (List ℕ × List ℕ)
stacks o = Option.map (λ r. (r.0.nodes_stack, r.0.array_parent_nodes)) o

child_closed : stacks (handle_all floats time 5 3 one_child (start []) nothing) ≡ some (0 ∷ [], [])
unfolding program
child_closed = refl

abbrev keys_at : ℕ → Option (XNodeSaxHandler ℕ × World ℕ (List ℕ)) → Option (List XKey)
keys_at node o = Option.map (λ r. map (λ e. e.0) (Arrays.items floats r.1 node)) o

-- The array of the elements <a> in an element <a>, before that ends.
abbrev in_array : XNodeSaxHandler ℕ
in_array = record (start []) { nodes_stack = 1 ∷ 0 ∷ []; array_parent_nodes = 1 ∷ []; deep = 1 }

abbrev two_nodes : World ℕ (List ℕ)
two_nodes =
    (Heap.create (Heap.create nothing NodeType.map (codes "a") 0).1 NodeType.array (codes "a") 0).1

-- The array has the name of the element: the element stays on the stack.
same_names_left :
    stacks (Handler.end_node floats time 5 3 (codes "a") in_array two_nodes) ≡ some (0 ∷ [], 1 ∷ [])
unfolding program
same_names_left = refl

-- A root's name is the key of the elements in it: the end of the first has no result.
named_root : stacks (handle_all floats time 5 3 one_child (start (codes "doc")) nothing) ≡ none
unfolding program
named_root = refl

handle_all-IsBalanced_example :
    Gives ℕ (List ℕ) (IsBalanced 1) (handle_all floats time 5 3 one_child (start []))
unfolding Handler.handler
handle_all-IsBalanced_example =
    handle_all-IsBalanced (List ℕ) floats time 5 3 0 1 one_child (start []) one_open refl

abbrev text_key : XKey
text_key = XKey.string (codes "#")

-- A map with a text: the next text is put under another key.
abbrev text_of_a : XNode ℕ (List ℕ)
text_of_a = record {
  object_uid = 0;
  container = Any.plain record {
    values_map = (codes "#", record { value = XValue.string (codes "x"); timestamp = pos 1 }) ∷ [];
  };
  parent = none;
  name = none;
  callbacks = record { callbacks_map = [] };
}

abbrev with_text : World ℕ (List ℕ)
with_text = record nothing { nodes = λ p. if p == 0 then some text_of_a else none }

few_names : length (names_of text_of_a.container) < 2
unfolding names_of
few_names = omega arith

key_loop_ends_example :
    (keys : XKey × XKey) × (Sax.key_loop floats time 5 2 with_text 0 (codes "#") 0 text_key text_key
      ≡ some keys)
    × (Value.has_value (Items.at floats with_text 0 keys.1).value ≡ false)
    × ((keys.0 ≡ text_key) ⊎ (Value.has_value (Items.at floats with_text 0 keys.0).value ≡ true))
unfolding Any.container_type
key_loop_ends_example =
    key_loop_ends floats time 5 with_text 0 (codes "#") 2 text_of_a refl refl few_names

next_text_key :
    Sax.key_loop floats time 5 2 with_text 0 (codes "#") 0 text_key text_key
    ≡ some (text_key, XKey.string (codes "0#"))
unfolding program
next_text_key = refl

-- Two attributes, for a node with an empty map.
abbrev two_attributes : List (Bytes × Bytes)
two_attributes = (codes "x", codes "1") ∷ (codes "y", codes "2") ∷ []

abbrev in_node : XNodeSaxHandler ℕ
in_node = record (start []) { nodes_stack = 2 ∷ [] }

abbrev no_items : XContainerMapWithErase (XTimed ℕ)
no_items = record { base = record { values_map = [] }; erased_values = 0 }

two_fit : All (Fits 64 [] in_node no_items) two_attributes
unfolding program
two_fit = ((refl, refl), ((refl, refl), tt))

node-IsFresh : IsFresh family 2 no_items
node-IsFresh = (_, refl, refl, refl)

names-Distinct : Distinct two_attributes
names-Distinct = ((ground arith, tt), (tt, tt))

put_attributes-values_example :
    (h : XNodeSaxHandler ℕ) × (w : World ℕ (List ℕ)) × (Handler.put_attributes floats time 5 3
        two_attributes in_node family
      ≡ some (h, w))
    × All (λ e. values floats time 5 w 2 (key_of 64 [] e) ≡ XValue.string e.1) two_attributes
unfolding Handler.handler
put_attributes-values_example =
    put_attributes-values floats time 5 3 2 64 [] two_attributes [] in_node family no_items refl
      refl node-IsFresh names-Distinct two_fit
