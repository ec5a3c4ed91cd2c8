-- ===== src/XmlDoc/RoundTrip.antt =====
-- Reading back the document of src/xnode/xml/xml_creator.cpp.
use xnode.Prelude.{
  ◌≡◌, ◌||◌, ◌&&◌, Bool, true, false, not, Option, none, some, List, [], ◌∷◌, ◌++◌, map, is_some,
}
use mathlib.Core.Option
use xnode.Bytes.{Bytes, same}
use xnode.Key
use xnode.Key.{XKey}
use xnode.Value.{Double, c_str}
use xnode.Timed.{XTimed}
use xnode.Node.Heap.{World, query_ptr_c}
use xnode.XmlDoc.{Part, text_of}

module _ (attribute_prefix value_name : Bytes) where
  abbrev with_item : Bytes × Bytes → Option (List (Bytes × Bytes)) → Option (List (Bytes × Bytes))
  with_item item rest = Option.map (λ l. item ∷ l) rest

  -- The keys and the texts that the parts of an element stand for: a text has the name of a value, an
  -- attribute its name after the prefix, and an element that holds one text its tag. Other elements
  -- stand for none.
  unfoldable pub decode : List Part → Option (List (Bytes × Bytes))
  decode [] = some []
  decode (Part.text s ∷ parts) = with_item (value_name, s) (decode parts)
  decode (Part.attribute name s ∷ parts) = with_item (attribute_prefix ++ name, s) (decode parts)
  decode (Part.open_element k ∷ Part.text s ∷ Part.close_element ∷ parts) =
      with_item (k, s) (decode parts)
  decode _ = none

module _ {D U : Type 0} (f : Double D) (attribute_prefix value_name : Bytes) (w : World D U) where
  -- An item that the document tells: no node, under a text without a zero byte that is the name of a
  -- value or is not the tag of the element.
  unfoldable pub is_told : Bytes → XKey × XTimed D → Bool
  is_told tag (XKey.string k, val) =
      not (is_some (query_ptr_c w val.value))
      && (same (c_str k) k && (same k value_name || not (same k tag)))
  is_told tag item = false

  abbrev pub IsTold : Bytes → XKey × XTimed D → Type 0
  IsTold tag item = is_told tag item ≡ true

  -- The key and the text of an item.
  abbrev pub told : XKey × XTimed D → Bytes × Bytes
  told item =
      (Option.get_or (Key.string_get item.0) [], text_of f attribute_prefix value_name item.1.value)
