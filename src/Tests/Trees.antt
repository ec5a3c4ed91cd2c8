-- ===== src/Tests/Trees.antt =====
-- The functions of src/xnode/functions and JSON, at concrete nodes.
use xnode.Prelude.{
  ℕ, ◌-◌, ◌^◌, ◌≡◌, refl, none, some, List, [], ◌∷◌, ◌++◌, codes, length, map, All, true, false,
  ◌+◌, if◌then◌else◌, ◌==◌,
}
use xnode.Prelude.Int.{pos, negsuc}
use xnode.Key
use xnode.Bytes.{Bytes}
use xnode.Node.Heap.{World}
use xnode.Key.{XKey}
use xnode.Value.{XValue}
use xnode.Value.Make
use xnode.Value.Convert
use xnode.Value.Text
use xnode.Path
use xnode.Timed.{XTimed, absent}
use xnode.Node.Bulk
use xnode.Node.Items
use xnode.Functions.Improper.{parents_fix, parents_fix-same}
use xnode.Json
use xnode.Json.{Event, XNodeJsonHandler, read, handle, write_node}
use xnode.Json.Nested
use xnode.Json.Nested.{Open, used, scan, scan_all, write_node-scan_all}
use xnode.Json.Balance.{read-nodes}
use xnode.Tests.Data.{floats}
use xnode.XmlDoc
use xnode.XmlDoc.{Part, get_document, in_element}
use xnode.Node.Parents
use xnode.Tests.Heaps
use xnode.Tests.Heaps.{time, nothing, family, family_node, child_key, node}
use xnode.XmlDoc.RoundTrip
use xnode.Node.Bulk.{OnCopyRes, OnCopy}
use xnode.Node.View.{shown, shown_from, collect, bulk_get_all-collect}
use xnode.Timed.{mapped}
use xnode.Container.Erase.Live.{live}
use xnode.Container.{KeyType}
use xnode.Functions.Paths
use xnode.Functions.Follow
use xnode.Functions.AtEnd.{at-erase-follow, set-insert-follow}
use xnode.Node.Atomic
use xnode.Functions.Compare.{compare_nodes}
use xnode.Functions.Same.{is_plain, IsPlain, compare_nodes-same}

program : Unit {0}
unfolding Heaps.program Bulk.bulk_get_all Bulk.copy_item Json.write_node Json.write_items
    Json.write_value Json.read Json.handle Json.put_value Json.put_node Json.end_node Nested.used
    Nested.scan Nested.scan_all Key.is_empty Items.make_const Make.of_null Make.of_object
    Key.of_text
program = tt

abbrev item : ℕ → XTimed ℕ
item p = record { value = XValue.object p; timestamp = pos 1 }

nothing_fixed : (parents_fix floats time 5 family ((item 1, item 0) ∷ []) []).1 ≡ family
nothing_fixed = parents_fix-same floats time 5 family ((item 1, item 0) ∷ []) []

abbrev family_events : List (Event ℕ)
family_events =
    Event.start_object
    ∷ Event.key (codes "a")
    ∷ Event.start_object
    ∷ Event.end_object
    ∷ Event.key (codes "b")
    ∷ Event.int64 (pos 7)
    ∷ Event.end_object
    ∷ []

family_written : write_node floats family 3 0 ≡ some family_events
unfolding program
family_written = refl

array_used : used (Open.array_value ∷ []) ≡ some (Open.array_value ∷ [])
unfolding program
array_used = refl

write_node-scan_all_example :
    scan_all (family_events ++ Event.end_array ∷ []) (Open.array_value ∷ [])
    ≡ scan_all {D = ℕ} (Event.end_array ∷ []) (Open.array_value ∷ [])
write_node-scan_all_example =
    write_node-scan_all floats family 3 0 family_events (Open.array_value ∷ [])
      (Open.array_value ∷ []) (Event.end_array ∷ []) family_written array_used

-- An unsigned number above the greatest int64_t is written as a negative one.
uint64_written :
    Json.write_value floats family (λ p. none) (XValue.uint64 (2 ^ 64 - 1))
    ≡ some (Event.int64 (negsuc 0) ∷ [])
unfolding program
uint64_written = refl

abbrev handler : XNodeJsonHandler ℕ
handler = record { root = XValue.empty; key = XKey.empty; nodes = []; root_uid = 0; root_name = [] }

abbrev reading : List (Event ℕ × ℕ)
reading =
    (Event.start_object, 0)
    ∷ (Event.key (codes "a"), 1)
    ∷ (Event.start_object, 5)
    ∷ (Event.key (codes "b"), 6)
    ∷ (Event.null, 10)
    ∷ (Event.end_object, 14)
    ∷ []

scanned : scan_all (map (λ e. e.0) reading) [] ≡ some (Open.object_key ∷ [])
unfolding program
scanned = refl

read_without_error : (read floats time 5 reading none handler nothing).0 ≡ none
unfolding program
read_without_error = refl

read-nodes_example :
    length (read floats time 5 reading none handler nothing).1.nodes ≡ length (Open.object_key ∷ [])
read-nodes_example =
    read-nodes floats time 5 reading handler nothing [] (Open.object_key ∷ []) scanned refl
      read_without_error

abbrev a_path : List XKey
a_path = child_key ∷ XKey.string (codes "b") ∷ []

abbrev number : XValue ℕ
number = XValue.int64 (pos 1)

-- Node 0 as a document.
abbrev family_parts : List Part
family_parts = in_element (codes "noname") (
    in_element (codes "a") []
    ++ in_element (codes "b")
        (Part.text (XmlDoc.text_of floats (codes "@") (codes "#") (XValue.int64 (pos 7))) ∷ []))

family_document : get_document floats (codes "@") (codes "#") family 3 (some 0) ≡ some family_parts
unfolding program Parents.is_name XmlDoc.get_document XmlDoc.add_node XmlDoc.add_map_node
    XmlDoc.map_parts XmlDoc.map_tag XmlDoc.value_parts XmlDoc.starts_with
family_document = refl

-- A node with an attribute, a text and an element.
abbrev document_items : List (Bytes × XTimed ℕ)
document_items =
    (codes "#", record { value = XValue.int64 (pos 1); timestamp = pos 1 })
    ∷ (codes "@b", record { value = XValue.int64 (pos 2); timestamp = pos 1 })
    ∷ (codes "c", record { value = XValue.int64 (pos 3); timestamp = pos 1 })
    ∷ []

abbrev document : World ℕ (List ℕ)
document = record {
  nodes = λ a. if a == 0 then some (node document_items none none) else none;
  next = 1;
  user = [];
  clock = 0;
}

-- From node 0 by "a" to node 1.
at-erase-follow_example :
    (Paths.at floats time 5 1 (some 0) a_path family
      ≡ some (Items.at floats family 1 (XKey.string (codes "b")), family))
    × (Paths.erase floats time 5 1 (some 0) a_path family
        ≡ some (Items.erase floats time 5 family 1 (XKey.string (codes "b"))))
    × (Paths.increment floats time 5 1 (some 0) a_path number family
        ≡ some (Atomic.increment floats time 5 family 1 (XKey.string (codes "b")) number))
unfolding program Follow.follow Follow.child Follow.wanted
at-erase-follow_example =
    at-erase-follow floats time 5 0 family 0 (child_key ∷ []) (XKey.string (codes "b")) number
      (some 1) refl

-- The value under "b" is no node.
set-insert-follow_example :
    (Paths.set floats time 5 1 (some 0) (XKey.string (codes "b") ∷ child_key ∷ []) number family
      ≡ some ((false, absent), family))
    × (Paths.insert floats time 5 1
          (some 0)
          (XKey.string (codes "b") ∷ child_key ∷ [])
          number
          family
        ≡ some (Items.failed_insert, family))
unfolding program Follow.follow Follow.child Follow.wanted
set-insert-follow_example =
    set-insert-follow floats time 5 0 family 0 (XKey.string (codes "b") ∷ []) child_key number none
      refl refl

-- A callback that counts the items, takes the first and stops.
abbrev first_taken : OnCopy ℕ ℕ
first_taken = some λ key val n. (OnCopyRes.take_stop, n + 1)

bulk_get_all-collect_example :
    Bulk.bulk_get_all floats true family 0 first_taken child_key 0
    ≡ collect true first_taken
        (shown_from (mapped floats) family_node.container (some (KeyType.name (codes "a"))))
        0
unfolding program
bulk_get_all-collect_example =
    bulk_get_all-collect floats true family 0 family_node first_taken child_key 0 refl

All-IsPlain : All (IsPlain floats) (shown (mapped floats) family_node.container)
unfolding Heaps.program shown live is_plain
All-IsPlain = (refl, (refl, tt))

compare_nodes-same_example :
    compare_nodes floats time none 1 family true 0 0 (tt, 0) ≡ some (pos 0, (tt, 0))
compare_nodes-same_example =
    compare_nodes-same floats time none family 0 0 family_node true (tt, 0) refl All-IsPlain
