-- ===== src/Sax/Arrays.antt =====
-- The arrays of src/xnode/xml/sax_handler.cpp: StartArray_, EndArray_, CollapseArrayNodes_,
-- ConvertToArray_ and PropagateNodeName_. Where ForEach only reads, it is a walk over the items.
use xnode.Prelude.{
  ℕ, ◌+◌, ◌-◌, ◌%◌, ◌==◌, Bool, false, not, ◌&&◌, ◌||◌, Option, none, some, List, [], ◌∷◌,
  if◌then◌else◌, word,
}
use mathlib.Core.Option
use xnode.Prelude.Int.{ℤ}
use xnode.Bytes.{Bytes, same}
use xnode.Key
use xnode.Key.{XKey}
use xnode.Value
use xnode.Value.{XValue, Double}
use xnode.Timed.{XTimed}
use xnode.Container.{idx_begin}
use xnode.Node.{NodeType}
use xnode.Node.Heap.{World, query_ptr, create}
use xnode.Node.Parents.{name_get, is_name, is_map, parent_get}
use xnode.Node.Items
use xnode.Node.Items.{parent_detach}
use xnode.Node.Changes.{key_change}
use xnode.Node.Bulk.{bulk_get_all}
use xnode.Functions.{Exec, ◌>>=◌, pure, call, look, endless}
use xnode.XmlDoc.{starts_with}
use xnode.Sax.{XNodeSaxHandler, wrap_value, wrap_node, insert_last}

module _ {D : Type 0} where
  -- Whether a value is a node.
  unfoldable pub has_object : List (XKey × XTimed D) → Bool
  has_object [] = false
  has_object ((key, val) ∷ rest) = Value.is_object val.value || has_object rest

module _ {D U : Type 0} (f : Double D) where
  abbrev pub items : World D U → ℕ → List (XKey × XTimed D)
  items w node = (bulk_get_all f false w node none XKey.empty tt).1

  -- Whether the callback of CollapseArrayNodes_ notes a value: a node of one item that is no
  -- attribute. No result where that item's key is no text.
  unfoldable pub is_collapsed : World D U → Bytes → XValue D → Option Bool
  is_collapsed w attr_prefix val = elim (query_ptr w val) [
    | none ↦ some false
    | some child ↦ if not (Items.size f w child == 1) then some false else elim (items w child) [
      | [] ↦ none
      | (key, v) ∷ rest ↦ elim (Key.string_get key) [
        | none ↦ none
        | some k ↦ some (not (starts_with attr_prefix k))
      ]
    ]
  ]

  unfoldable pub keys_to_update : World D U → Bytes → List (XKey × XTimed D) → Option (List XKey)
  keys_to_update w attr_prefix [] = some []
  keys_to_update w attr_prefix ((key, val) ∷ rest) =
      let later = keys_to_update w attr_prefix rest in
      elim (is_collapsed w attr_prefix val.value) [
        | none ↦ none
        | some b ↦ if b then Option.map (λ l. key ∷ l) later else later
      ]

  -- HasNestedNodes_
  unfoldable pub has_nested_nodes : World D U → ℕ → Bytes → Bool
  has_nested_nodes w node value_name =
      Value.has_value (Items.at f w node (XKey.string value_name)).value
      && has_object (items w node)

module _ {D U : Type 0} (f : Double D) (time : ℕ → ℤ) (depth : ℕ) where
  -- The loop of StartArray_ over the names of the parent's items.
  unfoldable pub move_items : ℕ → ℕ → Bytes → List Bytes → Exec D U (Unit {0})
  move_items parent array node_name [] = pure tt
  move_items parent array node_name (name ∷ names) = do
    child ← look (λ w. Items.at f w parent (XKey.string name))
    erased ← call (λ w. Items.erase f time depth w parent (XKey.string name))
    let wrapped : Exec D U (XValue D) =
        wrap_value f time depth name child.value >>= λ p. pure (XValue.object p)
    val ← if same node_name name then pure child.value else wrapped
    inserted ← insert_last f time depth array val
    move_items parent array node_name names

  -- StartArray_
  unfoldable pub start_array : Bytes → XNodeSaxHandler D → Exec D U (XNodeSaxHandler D)
  start_array node_name h = elim h.nodes_stack [
    | [] ↦ endless
    | parent ∷ rest ↦ do
      array ← call (λ w. create w NodeType.array node_name 0)
      moved ← move_items parent array node_name (Option.get_or (h.nodes_order parent) [])
      set ←
          call (λ w. Items.set f time depth w parent (XKey.string node_name) (XValue.object array))
      pure record h {
        nodes_stack = array ∷ h.nodes_stack;
        array_parent_nodes = array ∷ h.array_parent_nodes;
        deep = (h.deep + 1) % word;
      }
  ]

  -- The loop of CollapseArrayNodes_
  unfoldable pub collapse_keys : ℕ → List XKey → Exec D U (Unit {0})
  collapse_keys node [] = pure tt
  collapse_keys node (key ∷ keys) = do
    child ← look (λ w. query_ptr w (Items.at f w node key).value)
    let set : ℕ → Exec D U (Unit {0}) = λ p. do
      val ← look (λ w. Items.at f w p (XKey.index idx_begin))
      answer ← call (λ w. Items.set f time depth w node key val.value)
      collapse_keys node keys
    elim child [ none ↦ endless | some p ↦ set p ]

  unfoldable pub collapse_array_nodes : Bytes → ℕ → Exec D U (Unit {0})
  collapse_array_nodes attr_prefix node =
      look (λ w. keys_to_update f w attr_prefix (items f w node)) >>= λ keys. elim keys [
        | none ↦ endless
        | some l ↦ collapse_keys node l
      ]

  -- EndArray_: the node that was popped.
  unfoldable pub end_array : XNodeSaxHandler D → Exec D U (ℕ × XNodeSaxHandler D)
  end_array h = elim h.nodes_stack [
    | [] ↦ endless
    | last ∷ stack ↦ elim h.array_parent_nodes [
      | [] ↦ endless
      | array ∷ arrays ↦ do
        collapsed ← collapse_array_nodes h.attr_prefix array
        let popped = record h {
          nodes_stack = stack;
          array_parent_nodes = arrays;
          deep = (h.deep + word - 1) % word;
          nodes_order = λ p. if p == array then none else h.nodes_order p;
        }
        pure (last, popped)
    ]
  ]

  -- The loop of ConvertToArray_
  unfoldable pub convert_items : ℕ → ℕ → List Bytes → Exec D U (Unit {0})
  convert_items node array [] = pure tt
  convert_items node array (name ∷ names) = do
    val ← look (λ w. Items.at f w node (XKey.string name))
    child ← look (λ w. query_ptr w val.value)
    is_array ← look (λ w. elim child [ none ↦ false | some p ↦ not (is_map w p) ])
    let wrapped : Exec D U (XValue D) = elim child [
      | none ↦ pure val.value
      | some p ↦ wrap_node f time depth p >>= λ q. pure (XValue.object q)
    ]
    put ← if is_array then wrapped else pure val.value
    inserted ← insert_last f time depth array put
    erased ← call (λ w. Items.erase f time depth w node (XKey.string name))
    convert_items node array names

  -- Whether the node is empty and in a map, and its parent then.
  abbrev pub map_parent : World D U → ℕ → Option ℕ
  map_parent w node = elim (parent_get w node) [
    | none ↦ none
    | some p ↦ if (Items.size f w node == 0) && is_map w p then some p else none
  ]

  -- The end of ConvertToArray_
  unfoldable pub place_array : ℕ → ℕ → Bytes → Exec D U (Unit {0})
  place_array node array value_name = look (λ w. map_parent w node) >>= λ parent. elim parent [
    | none ↦ do
      set ← call (λ w. Items.set f time depth w node (XKey.string value_name) (XValue.object array))
      pure tt
    | some p ↦ do
      previous ← call (λ w. parent_detach f time depth w node)
      wrapper ← wrap_node f time depth array
      name ← look (λ w. name_get w node)
      let set : ℕ → Exec D U (Unit {0}) = λ q. do
        answer ← call (λ w. Items.set f time depth w q (XKey.string name) (XValue.object wrapper))
        pure tt
      elim previous [ none ↦ endless | some q ↦ set q ]
  ]

  -- ConvertToArray_
  unfoldable pub convert_to_array : ℕ → XNodeSaxHandler D → Exec D U (Unit {0})
  convert_to_array node h = do
    array ← call (λ w. create w NodeType.array h.value_name 0)
    let convert : List Bytes → Exec D U (Unit {0}) =
        λ names. do converted ← convert_items node array names; place_array node array h.value_name
    elim (h.nodes_order node) [ none ↦ endless | some names ↦ convert names ]

  -- PropagateNodeName_
  unfoldable pub propagate_node_name : ℕ → Bytes → Exec D U (Unit {0})
  propagate_node_name node value_name = do
    name ← look (λ w. name_get w node)
    unnamed ← look (λ w. is_name w node [])
    single ← look (λ w. Items.size f w node == 1)
    val ← look (λ w. Items.at f w node (XKey.string value_name))
    let change : Exec D U (Unit {0}) =
        call (λ w. key_change f time depth w node (XKey.string value_name) (XKey.string name))
        >>= λ changed. pure tt
    if not unnamed && (single && Value.has_value val.value) then change else pure tt
