-- ===== src/XmlDoc.antt =====
-- src/xnode/xml/xml_creator.cpp: the document that a node is written as. The document is the list of
-- its parts in their order; the library that holds it takes names and texts as they are here. Names
-- hold no zero byte.
pub mod RoundTrip
use xnode.Prelude.{
  ℕ, zero, suc, ◌||◌, ◌&&◌, ◌==◌, Bool, true, false, Option, none, some, List, [], ◌∷◌, ◌++◌,
  if◌then◌else◌, codes,
}
use mathlib.Core.Option
use xnode.Bytes.{Bytes, same}
use xnode.Key
use xnode.Key.{XKey}
use xnode.Value.{XValue, Double, c_str}
use xnode.Value.Convert
use xnode.Timed.{XTimed}
use xnode.Node.{NodeType}
use xnode.Node.Heap.{World, query_ptr_c}
use xnode.Node.Parents.{parent_get, name_get, is_name, is_map}
use xnode.Node.Bulk.{bulk_get_all}
use xnode.Functions.{type_at, same_type}

-- What is put into the document: the start and the end of an element, a text, an attribute of the
-- element that is open.
pub data Part : Type 0 where
  open_element : Bytes → Part
  close_element : Part
  text : Bytes → Part
  attribute : Bytes → Bytes → Part

-- `rfind(prefix, 0) == 0`
unfoldable pub starts_with : Bytes → Bytes → Bool
starts_with [] s = true
starts_with (c ∷ prefix) [] = false
starts_with (c ∷ prefix) (d ∷ s) = (c == d) && starts_with prefix s

-- CutPrefix_ of a text that starts with the prefix.
unfoldable pub cut_prefix : Bytes → Bytes → Bytes
cut_prefix [] s = s
cut_prefix (c ∷ prefix) [] = []
cut_prefix (c ∷ prefix) (d ∷ s) = cut_prefix prefix s

-- GetNameForUnnamedNode_
abbrev pub name_for_unnamed : Bytes
name_for_unnamed = codes "noname"

abbrev pub in_element : Bytes → List Part → List Part
in_element tag parts = Part.open_element tag ∷ (parts ++ Part.close_element ∷ [])

abbrev pub both : Option (List Part) → Option (List Part) → Option (List Part)
both none _ = none
both (some first) none = none
both (some first) (some later) = some (first ++ later)

module _ {D : Type 0} (f : Double D) (attribute_prefix value_name : Bytes) where
  abbrev pub text_of : XValue D → Bytes
  text_of val = c_str (Convert.string_of f [] val)

  -- A value of a map, in an element of the given tag. A key that is no text is compared as the empty
  -- one; where that is not a value's name, it has no result: the code reads an empty optional.
  unfoldable pub value_parts : Bytes → XKey → XValue D → Option (List Part)
  value_parts tag key val =
      let key_value = c_str (Option.get_or (Key.string_get key) []) in
      if same key_value value_name || same key_value tag
      then some (Part.text (text_of val) ∷ [])
      else elim (Key.string_get key) [
        | none ↦ none
        | some k ↦
            if starts_with attribute_prefix k
            then some (Part.attribute (c_str (cut_prefix attribute_prefix k)) (text_of val) ∷ [])
            else some (in_element (c_str k) (Part.text (text_of val) ∷ []))
      ]

module _ {D U : Type 0} (f : Double D) (attribute_prefix value_name : Bytes) (w : World D U) where
  abbrev pub element_name : ℕ → Bytes
  element_name p = if is_name w p [] then name_for_unnamed else name_get w p

  abbrev pub items_of : ℕ → List (XKey × XTimed D)
  items_of p = (bulk_get_all f true w p none XKey.empty tt).1

  -- AddNode_ of what is left of the rounds: the node, the tag of `_parent`, `_wrapped`.
  abbrev Again : Type 0
  Again = ℕ → Bytes → Bool → Option (List Part)

  -- The loop over a map's items, which GetDocument has for the root, too.
  unfoldable pub map_parts : Again → Bytes → List (XKey × XTimed D) → Option (List Part)
  map_parts again tag [] = some []
  map_parts again tag ((key, val) ∷ items) =
      let rest = map_parts again tag items in
      elim (query_ptr_c w val.value) [
        | some p ↦ both (again p tag false) rest
        | none ↦ both (value_parts f attribute_prefix value_name tag key val.value) rest
      ]

  -- The tag of AddMapNode_, whose node has the given parent.
  unfoldable pub map_tag : ℕ → ℕ → Bytes → Bool → Bytes
  map_tag p parent parent_tag wrapped =
      if is_map w parent || wrapped
      then c_str (name_get w p)
      else if is_name w parent []
      then parent_tag
      else c_str (name_get w parent)

  -- AddMapNode_; without a parent the code follows a null pointer.
  unfoldable pub add_map_node : Again → ℕ → Bytes → Bool → Option (List Part)
  add_map_node again p parent_tag wrapped = elim (parent_get w p) [
    | none ↦ none
    | some parent ↦
        let tag = map_tag p parent parent_tag wrapped in
        Option.map (in_element tag) (map_parts again tag (items_of p))
  ]

  -- AddArrayNode_
  unfoldable pub array_parts : Again → Bytes → Bytes → List (XKey × XTimed D) → Option (List Part)
  array_parts again name parent_tag [] = some []
  array_parts again name parent_tag ((key, val) ∷ items) =
      let rest = array_parts again name parent_tag items in
      elim (query_ptr_c w val.value) [
        | some p ↦
            if is_name w p []
            then both (again p parent_tag false) rest
            else both (Option.map (in_element (c_str name)) (again p (c_str name) true)) rest
        | none ↦
            both
              (some (
                in_element (c_str name)
                  (Part.text (text_of f attribute_prefix value_name val.value) ∷ [])))
              rest
      ]

  -- AddArrayNodeAsText_
  unfoldable pub array_texts : Again → Bytes → List (XKey × XTimed D) → Option (List Part)
  array_texts again parent_tag [] = some []
  array_texts again parent_tag ((key, val) ∷ items) =
      let rest = array_texts again parent_tag items in
      elim (query_ptr_c w val.value) [
        | some p ↦ both (again p parent_tag true) rest
        | none ↦ both (some (Part.text (text_of f attribute_prefix value_name val.value) ∷ [])) rest
      ]

  -- The array of AddNode_: its items are texts of the parent's element where it has the name of its
  -- parent or that of a value.
  unfoldable pub add_array : Again → ℕ → Bytes → Option (List Part)
  add_array again p parent_tag =
      let elements = array_parts again (element_name p) parent_tag (items_of p) in
      let texts = array_texts again parent_tag (items_of p) in
      if is_name w p [] then elements else elim (parent_get w p) [
        | none ↦ none
        | some parent ↦
            if is_name w parent (element_name p) || is_name w p value_name then texts else elements
      ]

  -- AddNode_
  unfoldable pub add_node : ℕ → ℕ → Bytes → Bool → Option (List Part)
  add_node zero p parent_tag wrapped = none
  add_node (suc rounds) p parent_tag wrapped =
      let again = add_node rounds in
      elim (type_at w p) [
        | none ↦ none
        | some type ↦
            if same_type type NodeType.map
            then add_map_node again p parent_tag wrapped
            else add_array again p parent_tag
      ]

  -- GetDocument, where the library gives an implementation. A root that is null has no document.
  unfoldable pub get_document : ℕ → Option ℕ → Option (List Part)
  get_document rounds none = none
  get_document rounds (some root) =
      let tag = c_str (element_name root) in
      Option.map (in_element tag) (map_parts (add_node rounds) tag (items_of root))

  -- ToXml, where the library can be started and has a serializer: the text that is written in a format,
  -- which none stands for an exception. The document is made in any case.
  unfoldable pub to_xml :
      Bool → Option (Bool → List Part → Option Bytes) → ℕ → Option ℕ → Bool → Option Bytes
  to_xml has_platform serializer rounds none pretty = some []
  to_xml has_platform serializer rounds (some node) pretty =
      let write : List Part → Bytes =
        λ parts. elim serializer [ none ↦ [] | some s ↦ Option.get_or (s pretty parts) [] ] in
      let document = get_document rounds (some node) in
      if has_platform then Option.map write document else some []
