-- ===== src/Sax/Handler.antt =====
-- The events of src/xnode/xml/sax_handler.cpp, and FromXml of src/xnode/xml/xnode_xml.cpp, which gives
-- the handler to the parser. The parser is a parameter: the events of a text, transcoded, and the
-- position of an error after the last of them, which is 0 where there is none.
use xnode.Prelude.{
  ℕ, ◌-◌, ◌==◌, Bool, true, false, Option, none, List, [], ◌∷◌, ◌++◌, if◌then◌else◌, word,
}
use xnode.Prelude.Int.{ℤ}
use xnode.Bytes.{Bytes}
use xnode.Key
use xnode.Key.{XKey}
use xnode.Value
use xnode.Value.{XValue, Double}
use xnode.Value.Make
use xnode.Node.{NodeType}
use xnode.Node.Heap.{query_ptr, create}
use xnode.Node.Parents.{is_name, is_map}
use xnode.Node.Items
use xnode.Functions.{Exec, ◌>>=◌, pure, call, look}
use xnode.Sax.{XNodeSaxHandler, put_value, wrap_node, is_formating}
use xnode.Sax.Arrays.{
  start_array, end_array, has_nested_nodes, convert_to_array, propagate_node_name,
}

-- The events of the handler; an element starts with its attributes.
pub data SaxEvent : Type 0 where
  start_element : Bytes → List (Bytes × Bytes) → SaxEvent
  characters : Bytes → SaxEvent
  end_element : Bytes → SaxEvent

module _ {D : Type 0} where
  -- The key of PutNode_: the name of the root, if there is one, is taken once the root is there.
  unfoldable pub key_of_node : Bytes → XNodeSaxHandler D → Bytes
  key_of_node node_name h =
      if Value.has_value h.root
      then elim h.root_name [ [] ↦ node_name | c ∷ s ↦ c ∷ s ]
      else node_name

  -- The constructor of the handler.
  unfoldable pub handler : ℕ → Bytes → Bytes → Bytes → XNodeSaxHandler D
  handler uid name attribute_prefix value_name = record {
    root = XValue.empty;
    root_uid = uid;
    root_name = name;
    attr_prefix = attribute_prefix;
    value_name = value_name;
    key = XKey.empty;
    nodes_stack = [];
    array_parent_nodes = [];
    deep = 0;
    has_more_chars = false;
    nodes_order = λ p. none;
  }

  abbrev push : ℕ → XNodeSaxHandler D → XNodeSaxHandler D
  push node h = record h { nodes_stack = node ∷ h.nodes_stack }

module _ {D U : Type 0} (f : Double D) (time : ℕ → ℤ) (depth rounds : ℕ) where
  abbrev put : XValue D → XNodeSaxHandler D → Exec D U (XNodeSaxHandler D)
  put val h = put_value f time depth rounds val true h

  -- PutNode_ where the node on the stack's top is a map.
  unfoldable pub put_in_map : ℕ → ℕ → Bytes → XNodeSaxHandler D → Exec D U (XNodeSaxHandler D)
  put_in_map parent node node_name h = do
    there ← look (λ w. Value.has_value (Items.at f w parent (XKey.string node_name)).value)
    started ← if there then start_array f time depth node_name h else pure h
    put (XValue.object node) started

  -- PutNode_ where it is an array.
  unfoldable pub put_in_array : ℕ → ℕ → Bytes → XNodeSaxHandler D → Exec D U (XNodeSaxHandler D)
  put_in_array parent node node_name h = do
    is_element ← look (λ w. is_name w parent node_name)
    let wrapped : Exec D U (XNodeSaxHandler D) =
        wrap_node f time depth node >>= λ wrapper. put (XValue.object wrapper) h
    if is_element then put (XValue.object node) h else wrapped

  -- PutNode_
  unfoldable pub put_node : Bytes → XNodeSaxHandler D → Exec D U (XNodeSaxHandler D)
  put_node node_name h = do
    let key = key_of_node node_name h
    let keyed = record h { key = XKey.string key }
    let uid : ℕ = elim h.nodes_stack [ [] ↦ h.root_uid | p ∷ rest ↦ 0 ]
    node ← call (λ w. create w NodeType.map key uid)
    let placed : Exec D U (XNodeSaxHandler D) = elim h.nodes_stack [
      | [] ↦ put (XValue.object node) keyed
      | parent ∷ rest ↦ look (λ w. is_map w parent) >>= λ in_map.
          if in_map
          then put_in_map parent node node_name keyed
          else put_in_array parent node node_name keyed
    ]
    done ← placed
    pure (push node done)

  unfoldable pub put_attributes :
      List (Bytes × Bytes) → XNodeSaxHandler D → Exec D U (XNodeSaxHandler D)
  put_attributes [] h = pure h
  put_attributes ((name, val) ∷ attrs) h = do
    let keyed = record h { key = Key.of_text (h.attr_prefix ++ name) }
    done ← put_value f time depth rounds (Make.of_string val) false keyed
    put_attributes attrs done

  -- The end of EndNode_, for the node that was popped last.
  unfoldable pub finish_node : ℕ → XNodeSaxHandler D → Exec D U (XNodeSaxHandler D)
  finish_node node h = do
    nested ← look (λ w. has_nested_nodes f w node h.value_name)
    converted ← if nested then convert_to_array f time depth node h else pure tt
    renamed ← propagate_node_name f time depth node h.value_name
    pure h

  -- EndNode_
  unfoldable pub end_node : Bytes → XNodeSaxHandler D → Exec D U (XNodeSaxHandler D)
  end_node node_name h = elim h.nodes_stack [
    | [] ↦ pure h
    | last ∷ stack ↦ do
      let popped = record h { nodes_stack = stack }
      named ← look (λ w. is_name w last node_name)
      left ← if named then pure (last, popped) else end_array f time depth popped
      finish_node left.0 left.1
  ]

  -- startElement, characters, endElement
  unfoldable pub handle : SaxEvent → XNodeSaxHandler D → Exec D U (XNodeSaxHandler D)
  handle (SaxEvent.start_element name attrs) h = do
    put ← put_node name (record h { has_more_chars = false })
    put_attributes attrs put
  handle (SaxEvent.characters chars) h = do
    let keyed = record h { key = Key.of_text h.value_name }
    let with_text : Exec D U (XNodeSaxHandler D) =
        put_value f time depth rounds (Make.of_string chars) false keyed >>= λ done.
        pure record done { has_more_chars = true }
    if is_formating chars then pure keyed else with_text
  handle (SaxEvent.end_element name) h = end_node name (record h { has_more_chars = false })

  unfoldable pub handle_all : List SaxEvent → XNodeSaxHandler D → Exec D U (XNodeSaxHandler D)
  handle_all [] h = pure h
  handle_all (event ∷ events) h = do done ← handle event h; handle_all events done

  -- FromXml: {the node, the position of the error}, where the parser's library is there or not.
  unfoldable pub from_xml :
      (Bytes → List SaxEvent × ℕ)
      → Bool
      → Bytes
      → ℕ
      → Bytes
      → Bytes
      → Bytes
      → Exec D U (Option ℕ × ℕ)
  from_xml parser has_platform [] uid name attribute_prefix value_name = pure (none, word - 1)
  from_xml parser has_platform (c ∷ xml) uid name attribute_prefix value_name =
      let (events, err_pos) = parser (c ∷ xml) in
      let parse : Exec D U (Option ℕ × ℕ) = (do
        h ← handle_all events (handler uid name attribute_prefix value_name)
        root ← look (λ w. query_ptr w h.root)
        pure ((if err_pos == 0 then root else none), err_pos)) in
      if has_platform then parse else pure (none, word - 2)
