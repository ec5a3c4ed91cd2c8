-- ===== src/Sax.antt =====
-- src/xnode/xml/sax_handler.cpp: the handler of the parser's events, which builds the nodes of an XML
-- document. A call that the code leaves undefined, and one that ends with an exception, has no result.
-- Names hold no zero byte, and an assertion is no part of the model.
pub mod Arrays
pub mod Handler
pub mod Stacks
pub mod Balance
pub mod Ends
pub mod Attributes
use xnode.Prelude.{
  ℕ, zero, suc, ◌+◌, ◌-◌, ◌%◌, ◌==◌, leb, Bool, true, false, not, ◌&&◌, ◌||◌, Option, none, some,
  List, [], ◌∷◌, ◌++◌, if◌then◌else◌, is_some, word,
}
use mathlib.Core.Option
use xnode.Prelude.Int.{ℤ}
use xnode.Bytes.{Bytes, same}
use xnode.Key
use xnode.Key.{XKey}
use xnode.Path.{decimal}
use xnode.Value
use xnode.Value.{XValue, Double}
use xnode.Value.Convert
use xnode.Timed.{XTimed}
use xnode.Container.{idx_end}
use xnode.Node.{NodeType}
use xnode.Node.Heap.{World, create}
use xnode.Node.Parents.{name_get}
use xnode.Node.Items
use xnode.Node.Items.{InsertRes}
use xnode.Node.Atomic
use xnode.Functions.{Exec, ◌>>=◌, pure, call, look, endless}

-- The fields of XNodeSaxHandler. The stacks have their last node first; `nodes_order` is none for a
-- node that the map does not hold.
pub record XNodeSaxHandler (D : Type 0) : Type 0 where
  pub root : XValue D
  pub root_uid : ℕ
  pub root_name : Bytes
  pub attr_prefix : Bytes
  pub value_name : Bytes
  pub key : XKey
  pub nodes_stack : List ℕ
  pub array_parent_nodes : List ℕ
  pub deep : ℕ
  pub has_more_chars : Bool
  pub nodes_order : ℕ → Option (List Bytes)

-- `std::isspace` in the C locale.
abbrev is_space : ℕ → Bool
is_space c = (c == 32) || (leb 9 c && leb c 13)

-- is_formating
unfoldable pub is_formating : Bytes → Bool
is_formating [] = true
is_formating (c ∷ s) = is_space c && is_formating s

-- `_key.StringGet() == value_name_`
abbrev pub is_text_key : XKey → Bytes → Bool
is_text_key key value_name = elim (Key.string_get key) [ none ↦ false | some k ↦ same k value_name ]

module _ {D : Type 0} where
  -- StoreNodesOrder_ of the node that is on the stack's top.
  unfoldable pub store_nodes_order : ℕ → XNodeSaxHandler D → XNodeSaxHandler D
  store_nodes_order node h =
      let name = Option.get_or (Key.string_get h.key) [] in
      let names = Option.get_or (h.nodes_order node) [] ++ name ∷ [] in
      record h { nodes_order = λ p. if p == node then some names else h.nodes_order p }

module _ {D U : Type 0} (f : Double D) (time : ℕ → ℤ) (depth : ℕ) where
  -- The loop of GetLastAndNewKeys_
  unfoldable pub key_loop : ℕ → World D U → ℕ → Bytes → ℕ → XKey → XKey → Option (XKey × XKey)
  key_loop zero w node value_name counter last_key new_key = none
  key_loop (suc rounds) w node value_name counter last_key new_key =
      let next = XKey.string (decimal (suc counter) counter ++ value_name) in
      let later = key_loop rounds w node value_name (counter + 1) new_key next in
      if Value.has_value (Items.at f w node new_key).value then later else some (last_key, new_key)

  -- GetLastAndNewKeys_
  unfoldable pub last_and_new_keys : ℕ → ℕ → Bytes → Exec D U (XKey × XKey)
  last_and_new_keys rounds node value_name =
      look
        (λ w. key_loop rounds w node value_name 0 (XKey.string value_name) (XKey.string value_name))
      >>= λ keys. elim keys [ none ↦ endless | some k ↦ pure k ]

  -- The end of PutValue_: the value is inserted under the handler's key.
  unfoldable pub put_at : ℕ → Bool → XValue D → XNodeSaxHandler D → Exec D U (XNodeSaxHandler D)
  put_at node ordered val h = do
    let stored = if ordered then store_nodes_order node h else h
    inserted ← call (λ w. Items.insert f time depth w node h.key val)
    pure stored

  -- PutValue_ of a text.
  unfoldable pub put_text : ℕ → ℕ → XValue D → XNodeSaxHandler D → Exec D U (XNodeSaxHandler D)
  put_text rounds node val h = do
    keys ← last_and_new_keys rounds node h.value_name
    let text = Option.get_or (Value.string_data val) []
    let append : Exec D U (XNodeSaxHandler D) =
        call (λ w. Atomic.append f time depth w node keys.0 text) >>= λ v. pure h
    if h.has_more_chars then append else put_at node true val (record h { key = keys.1 })

  -- PutValue_
  unfoldable pub put_value : ℕ → XValue D → Bool → XNodeSaxHandler D → Exec D U (XNodeSaxHandler D)
  put_value rounds val is_node h = elim h.nodes_stack [
    | [] ↦ pure (record h { root = val })
    | node ∷ rest ↦
        if is_text_key h.key h.value_name
        then put_text rounds node val h
        else put_at node is_node val h
  ]

  -- WrapToNode_ of a name and a value.
  unfoldable pub wrap_value : Bytes → XValue D → Exec D U ℕ
  wrap_value name val = do
    wrapper ← call (λ w. create w NodeType.map name 0)
    inserted ← call (λ w. Items.insert f time depth w wrapper (XKey.string name) val)
    pure wrapper

  -- WrapToNode_ of a node.
  unfoldable pub wrap_node : ℕ → Exec D U ℕ
  wrap_node node = do name ← look (λ w. name_get w node); wrap_value name (XValue.object node)

  -- `_arr->Insert(kIdxEnd, value)`
  unfoldable pub insert_last : ℕ → XValue D → Exec D U (InsertRes D)
  insert_last array val = call (λ w. Items.insert f time depth w array (XKey.index idx_end) val)
