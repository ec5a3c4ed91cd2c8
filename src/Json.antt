-- ===== src/Json.antt =====
-- src/xnode/json/xnode_json.cpp: the handler of the reader's events, which builds the nodes, and the
-- events with which a node is written. The text of the events is rapidjson's on both sides: a
-- parameter gives the events of a text, each with the offset at which the reader stops if the
-- handler refuses it, and the error after the last.
pub mod Nested
pub mod Balance
use xnode.Prelude.{
  ℕ, zero, suc, ◌+◌, ◌-◌, ◌^◌, ◌==◌, Bool, true, false, not, Option, none, some, List, [], ◌∷◌,
  ◌++◌, if◌then◌else◌, is_some, word,
}
use mathlib.Core.Option
use xnode.Prelude.Int.{ℤ, pos, to_signed}
use xnode.Bytes.{Bytes}
use xnode.Key
use xnode.Key.{XKey}
use xnode.Value.{XValue, Double}
use xnode.Value.Make
use xnode.Timed.{XTimed}
use xnode.Container.{idx_end}
use xnode.Node.{NodeType}
use xnode.Node.Heap.{World, query_ptr, query_ptr_c, create}
use xnode.Node.Items.{insert}
use xnode.Node.Bulk.{bulk_get_all}
use xnode.Functions.{type_at, same_type}

-- The events of rapidjson's handlers, without the counts at the ends, which only assertions read.
pub data Event (D : Type 0) : Type 0 where
  null start_object end_object start_array end_array : Event D
  bool : Bool → Event D
  int64 : ℤ → Event D
  uint64 : ℕ → Event D
  double : D → Event D
  string : Bytes → Event D
  key : Bytes → Event D

-- XNodeJsonHandler
pub record XNodeJsonHandler (D : Type 0) : Type 0 where
  pub root : XValue D
  pub key : XKey
  pub nodes : List ℕ
  pub root_uid : ℕ
  pub root_name : Bytes

-- What the reader makes of a text.
pub record Reading (D : Type 0) : Type 0 where
  pub events : List (Event D × ℕ)
  pub error : Option ℕ

module _ (D U : Type 0) where
  -- Whether the handler goes on, and what it leaves.
  abbrev pub Handled : Type 0
  Handled = Bool × XNodeJsonHandler D × World D U

module _ {D U : Type 0} (f : Double D) (time : ℕ → ℤ) (depth : ℕ) where
  -- `_put_value`; the last node is the first of the list.
  unfoldable pub put_value : XValue D → XNodeJsonHandler D → World D U → Handled D U
  put_value val h w = elim h.nodes [
    | [] ↦ (true, record h { root = val }, w)
    | this ∷ nodes ↦
        let (res, w1) = insert f time depth w this h.key val in
        (res.succeeded, record h { key = XKey.index idx_end }, w1)
  ]

  -- `_put_node`: whether the node was inserted is not asked.
  unfoldable pub put_node : NodeType → XNodeJsonHandler D → World D U → Handled D U
  put_node type h w =
      let (node, w1) : ℕ × World D U = elim h.nodes [
        | [] ↦ create w type h.root_name h.root_uid
        | this ∷ nodes ↦ create w type [] 0
      ] in
      let (success, h1, w2) = put_value (XValue.object node) h w1 in
      (true, record h1 { nodes = node ∷ h1.nodes }, w2)

  -- `_end_node`
  unfoldable pub end_node : XNodeJsonHandler D → World D U → Handled D U
  end_node h w = elim h.nodes [
    | [] ↦ (false, h, w)
    | this ∷ nodes ↦ (true, record h { nodes = nodes }, w)
  ]

  unfoldable pub handle : Event D → XNodeJsonHandler D → World D U → Handled D U
  handle Event.null h w = put_value Make.of_null h w
  handle (Event.bool b) h w = put_value (Make.of_bool b) h w
  handle (Event.int64 i) h w = put_value (Make.of_signed i) h w
  handle (Event.uint64 n) h w = put_value (Make.of_unsigned n) h w
  handle (Event.double d) h w = put_value (Make.of_double d) h w
  handle (Event.string s) h w = put_value (Make.of_string s) h w
  handle (Event.key s) h w = (true, record h { key = Key.of_text s }, w)
  handle Event.start_object h w = put_node NodeType.map h w
  handle Event.end_object h w = end_node h w
  handle Event.start_array h w = put_node NodeType.array h w
  handle Event.end_array h w = end_node h w

  -- The reader: an event that the handler refuses ends it, with an error at the event's offset.
  unfoldable pub read :
      List (Event D × ℕ)
      → Option ℕ
      → XNodeJsonHandler D
      → World D U
      → Option ℕ × XNodeJsonHandler D × World D U
  read [] error h w = (error, h, w)
  read ((event, offset) ∷ events) error h w =
      let (ok, h1, w1) = handle event h w in
      let rest = read events error h1 w1 in if ok then rest else (some offset, h1, w1)

  -- FromJson: {the node, the position of the error}
  unfoldable pub from_json :
      (Bytes → Reading D) → World D U → Bytes → ℕ → Bytes → (Option ℕ × ℕ) × World D U
  from_json reader w [] uid name = ((none, word - 1), w)
  from_json reader w (c ∷ json) uid name =
      let reading = reader (c ∷ json) in
      let handler : XNodeJsonHandler D = record {
        root = XValue.empty;
        key = XKey.empty;
        nodes = [];
        root_uid = uid;
        root_name = name;
      } in
      let (error, h, w1) = read reading.events reading.error handler w in
      let error_pos : ℕ = elim error [
        | none ↦ 0
        | some offset ↦ if offset == 0 then word - 1 else offset
      ] in
      ((query_ptr w1 h.root, error_pos), w1)

module _ {D U : Type 0} (f : Double D) (w : World D U) where
  -- WriteXValue; `again` is WriteXNode. A uint64 is written by `Int64`, which takes an int64_t.
  unfoldable pub write_value : (ℕ → Option (List (Event D))) → XValue D → Option (List (Event D))
  write_value again XValue.empty = some (Event.null ∷ [])
  write_value again XValue.null = some (Event.null ∷ [])
  write_value again (XValue.bool b) = some (Event.bool b ∷ [])
  write_value again (XValue.int64 i) = some (Event.int64 i ∷ [])
  write_value again (XValue.uint64 n) = some (Event.int64 (to_signed (2 ^ 63) n) ∷ [])
  write_value again (XValue.double d) = some (Event.double d ∷ [])
  write_value again (XValue.string s) = some (Event.string s ∷ [])
  write_value again (XValue.object p) = elim (query_ptr_c w (XValue.object p)) [
    | none ↦ none
    | some q ↦ again q
  ]
  write_value again (XValue.const_object p) = elim (query_ptr_c w (XValue.const_object p)) [
    | none ↦ none
    | some q ↦ again q
  ]

  unfoldable pub write_items :
      (ℕ → Option (List (Event D))) → Bool → List (XKey × XTimed D) → Option (List (Event D))
  write_items again with_keys [] = some []
  write_items again with_keys ((k, val) ∷ items) =
      let rest = write_items again with_keys items in
      elim (write_value again val.value) [
        | none ↦ none
        | some events ↦ elim rest [
          | none ↦ none
          | some later ↦
              let name = Event.key (Option.get_or (Key.string_get k) []) in
              some (if with_keys then name ∷ (events ++ later) else events ++ later)
        ]
      ]

  abbrev pub framed : Event D → Event D → Option (List (Event D)) → Option (List (Event D))
  framed first last none = none
  framed first last (some events) = some (first ∷ (events ++ last ∷ []))

  -- WriteXNode. It has no result where the nodes lie deeper than the rounds that are left, and where a
  -- value is an object of another class, whose null pointer the code follows.
  unfoldable pub write_node : ℕ → ℕ → Option (List (Event D))
  write_node zero node = none
  write_node (suc rounds) node =
      let items = (bulk_get_all f true w node none XKey.empty tt).1 in
      let again = write_node rounds in
      elim (type_at w node) [
        | none ↦ none
        | some type ↦
            if same_type type NodeType.map
            then framed Event.start_object Event.end_object (write_items again true items)
            else framed Event.start_array Event.end_array (write_items again false items)
      ]

  -- ToJson; `print` is the writer of the format. `_pf_on_item` is not read.
  unfoldable pub to_json : ℕ → (List (Event D) → Bytes) → Option ℕ → Option Bytes
  to_json rounds print none = some []
  to_json rounds print (some node) = Option.map print (write_node rounds node)
