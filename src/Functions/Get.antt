-- ===== src/Functions/Get.antt =====
-- src/xnode/functions/insert_get.cpp: the child of a node under a key, which is created where it is
-- asked for, and the insertion of a node.
use xnode.Prelude.{
  ℕ, zero, suc, ◌==◌, Bool, true, not, ◌&&◌, ◌||◌, Option, none, some, [], if◌then◌else◌,
}
use mathlib.Core.Option
use xnode.Prelude.Int.{ℤ}
use xnode.Key
use xnode.Key.{XKey}
use xnode.Value
use xnode.Value.{XValue, Double}
use xnode.Timed.{absent}
use xnode.Container.{idx_end}
use xnode.Node.{NodeType}
use xnode.Node.Heap.{World, query_ptr, query_ptr_c, create}
use xnode.Node.Parents.{is_map, name_get}
use xnode.Node.Items.{InsertRes, failed_insert, at, at_const, is_key_valid, set, insert}
use xnode.Node.Atomic.{compare_exchange}
use xnode.Functions.{Exec, ◌>>=◌, pure, call, look, endless, type_at, same_type}

-- xnode::XNodeType
pub data XNodeType : Type 0 where
  not_node map const_map array const_array : XNodeType

module _ {D U : Type 0} where
  -- NodeTypeGet
  unfoldable pub node_type_get : World D U → XValue D → XNodeType
  node_type_get w val =
      if not (Value.is_object val) then XNodeType.not_node else elim (query_ptr w val) [
        | some p ↦ if is_map w p then XNodeType.map else XNodeType.array
        | none ↦ elim (query_ptr_c w val) [
          | some p ↦ if is_map w p then XNodeType.const_map else XNodeType.const_array
          | none ↦ XNodeType.not_node
        ]
      ]

  -- `node_p && node_p->Type() == _node_type.value_or(node_p->Type())`
  unfoldable pub node_of_type : Option NodeType → XValue D → World D U → Option ℕ
  node_of_type type val w = elim (query_ptr w val) [
    | none ↦ none
    | some p ↦ elim (type_at w p) [
      | none ↦ none
      | some found ↦ if same_type found (Option.get_or type found) then some p else none
    ]
  ]

module _ {D U : Type 0} (f : Double D) (time : ℕ → ℤ) (depth : ℕ) where
  -- The key that an empty one stands for.
  unfoldable pub insert_key : World D U → ℕ → ℕ → XKey → XKey
  insert_key w this node key =
      if Key.is_empty key
      then (if is_map w this then XKey.string (name_get w node) else XKey.index idx_end)
      else key

  abbrev insert_or_set : ℕ → XKey → XValue D → Bool → World D U → InsertRes D × World D U
  insert_or_set this key val replace w =
      let inserted = insert f time depth w this key val in
      let (answer, w') = set f time depth w this key val in
      let (updated, previous) = answer in
      if not (is_key_valid f w this true key)
      then (failed_insert, w)
      else if not replace || (Option.get_or (Key.index_get key) 0 == idx_end)
      then inserted
      else (
        record {
          succeeded = updated;
          inserted_at = key;
          existed = if updated then absent else previous;
        },
        w',
      )

  unfoldable pub node_insert :
      World D U → Option ℕ → Option ℕ → Bool → XKey → InsertRes D × World D U
  node_insert w (some this) (some node) replace key =
      insert_or_set this (insert_key w this node key) (XValue.object node) replace w
  node_insert w _ _ replace key = (failed_insert, w)

  -- NodeConstInsert; the node that is inserted is not null.
  unfoldable pub node_const_insert :
      World D U → Option ℕ → ℕ → Bool → XKey → InsertRes D × World D U
  node_const_insert w (some this) node replace key =
      insert_or_set this (insert_key w this node key) (XValue.const_object node) replace w
  node_const_insert w none node replace key = (failed_insert, w)

  -- The node that the loop exchanges for the value is created once.
  unfoldable pub new_node : Option NodeType → Option ℕ → Exec D U ℕ
  new_node type (some p) = pure p
  new_node type none = call (λ w. create w (Option.get_or type NodeType.map) [] 0)

  -- The loop of NodeGetByKey.
  unfoldable pub get_loop :
      ℕ → ℕ → XKey → Option NodeType → Bool → XValue D → Option ℕ → Exec D U (Option ℕ)
  get_loop zero this key type convert val fresh = endless
  get_loop (suc rounds) this key type convert val fresh =
      let again = get_loop rounds this key type convert in
      look (node_of_type type val) >>= λ found. elim found [
        | some p ↦ pure (some p)
        | none ↦
            let exchange : Exec D U (Option ℕ) = (do
              p ← new_node type fresh
              answer ← call (λ w. compare_exchange f time depth w this key val (XValue.object p))
              if answer.0 then pure (some p) else again answer.1.value (some p)) in
            if not (Value.is_empty val) && not convert then pure none else exchange
      ]

  unfoldable pub node_get_by_key :
      ℕ → Option ℕ → XKey → Option NodeType → Bool → Exec D U (Option ℕ)
  node_get_by_key rounds none key type convert = pure none
  node_get_by_key rounds (some this) key type convert =
      look (λ w. at f w this key) >>= λ val. get_loop rounds this key type convert val.value none

  unfoldable pub node_const_get_by_key : World D U → Option ℕ → XKey → Option ℕ
  node_const_get_by_key w none key = none
  node_const_get_by_key w (some this) key = query_ptr_c w (at_const f w this key).value
