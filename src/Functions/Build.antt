-- ===== src/Functions/Build.antt =====
-- src/xnode/functions/create.cpp and clone.cpp: nodes that are built with their items.
use xnode.Prelude.{
  ℕ, zero, suc, Bool, true, false, Option, none, some, List, [], ◌∷◌, ◌++◌, if◌then◌else◌,
}
use mathlib.Core.Option
use xnode.Prelude.Int.{ℤ}
use xnode.Bytes.{Bytes}
use xnode.Key.{XKey}
use xnode.Path.{XPath}
use xnode.Path.Ends.{front}
use xnode.Value.{XValue, Double}
use xnode.Timed.{XTimed}
use xnode.Node.{NodeType, type_of_key}
use xnode.Node.Heap
use xnode.Node.Heap.{World, query_ptr, query_ptr_c}
use xnode.Node.Items.{value_of_child}
use xnode.Node.Bulk.{OnCopyRes, takes, stops, bulk_get_all}
use xnode.Node.BulkSet.{bulk_set}
use xnode.Node.BulkInsert.{bulk_insert, bulk_insert_at}
use xnode.Functions.{Exec, ◌>>=◌, pure, call, look, endless, type_at}
use xnode.Functions.Paths

module _ {D : Type 0} where
  -- The type of the first path's first key.
  unfoldable pub complex_type : List (XPath × XValue D) → NodeType
  complex_type [] = NodeType.map
  complex_type ((path, val) ∷ values) = Option.get_or (type_of_key (front path)) NodeType.map

module _ {D U : Type 0} (f : Double D) (time : ℕ → ℤ) (depth : ℕ) where
  -- Create
  unfoldable pub create : NodeType → Bytes → ℕ → Exec D U ℕ
  create type name uid = call (λ w. Heap.create w type name uid)

  unfoldable pub create_array : List (XValue D) → Bytes → ℕ → Exec D U ℕ
  create_array values name uid = do
    p ← create NodeType.array name uid
    inserted ← call (λ w. bulk_insert_at f time depth w p XKey.empty values)
    pure p

  unfoldable pub create_map : List (XKey × XValue D) → Bytes → ℕ → Exec D U ℕ
  create_map values name uid = do
    p ← create NodeType.map name uid
    set ← call (λ w. bulk_set f time depth w p values)
    pure p

  unfoldable pub set_paths : ℕ → ℕ → List (XPath × XValue D) → Exec D U (Unit {0})
  set_paths rounds p [] = pure tt
  set_paths rounds p ((path, val) ∷ values) = do
    set ← Paths.set f time depth rounds (some p) path val
    set_paths rounds p values

  unfoldable pub create_complex : ℕ → List (XPath × XValue D) → Bytes → ℕ → Exec D U ℕ
  create_complex rounds values name uid = do
    p ← create (complex_type values) name uid
    done ← set_paths rounds p values
    pure p

-- The callback of Clone, which may change the value.
abbrev pub OnClone : Type 0 → Type 0 → Type 0
OnClone D U = Option (ℕ → XKey → XTimed D → U → OnCopyRes × XTimed D × U)

module _ {D U : Type 0} where
  -- The callback that collects the values, with the user's state.
  unfoldable pub clone_item :
      OnClone D U
      → ℕ
      → XKey
      → XTimed D
      → U × List (XKey × XValue D)
      → OnCopyRes × (U × List (XKey × XValue D))
  clone_item on_item node key val (user, values) =
      let answer : OnCopyRes × XTimed D × U = elim on_item [
        | none ↦ (OnCopyRes.take, val, user)
        | some g ↦ g node key val user
      ] in
      (
        (if stops answer.0 then OnCopyRes.stop else OnCopyRes.skip),
        (answer.2, if takes answer.0 then values ++ (key, answer.1.value) ∷ [] else values),
      )

module _ {D U : Type 0} (f : Double D) (time : ℕ → ℤ) (depth : ℕ) (on_item : OnClone D U) where
  -- The items of the node, as the callback leaves them.
  unfoldable pub collect : Bool → ℕ → World D U → List (XKey × XValue D) × World D U
  collect read_only node w =
      let collected =
        (bulk_get_all f read_only w node (some (clone_item on_item node)) XKey.empty
          (w.user, [])).0 in
      (collected.1, record w { user = collected.0 })

  -- A value of the clone: a node is cloned by `again`, or made const.
  unfoldable pub clone_value :
      (XValue D → Exec D U (Option ℕ)) → Bool → XValue D → Exec D U (XValue D)
  clone_value again clone_nodes val = look (λ w. query_ptr w val) >>= λ node. elim node [
    | none ↦ pure val
    | some p ↦
        let cloned : Exec D U (XValue D) = (do
          copy ← again (XValue.object p)
          pure (value_of_child copy)) in
        if clone_nodes then cloned else pure (XValue.const_object p)
  ]

  unfoldable pub clone_values :
      (XValue D → Exec D U (Option ℕ))
      → Bool
      → List (XKey × XValue D)
      → Exec D U (List (XKey × XValue D))
  clone_values again clone_nodes [] = pure []
  clone_values again clone_nodes ((key, val) ∷ values) = do
    copy ← clone_value again clone_nodes val
    rest ← clone_values again clone_nodes values
    pure ((key, copy) ∷ rest)

  -- Clone of a node that is there, const or not.
  unfoldable pub clone_node :
      (XValue D → Exec D U (Option ℕ)) → Bool → Bytes → ℕ → Bool → ℕ → Exec D U (Option ℕ)
  clone_node again clone_nodes name uid read_only node = do
    values ← call (collect read_only node)
    type ← look (λ w. Option.get_or (type_at w node) NodeType.map)
    copies ← clone_values again clone_nodes values
    p ← create f time depth type name uid
    inserted ← call (λ w. bulk_insert f time depth w p copies)
    pure (some p)

  unfoldable pub clone : ℕ → Bool → Bytes → ℕ → XValue D → Exec D U (Option ℕ)
  clone zero clone_nodes name uid val = endless
  clone (suc rounds) clone_nodes name uid val =
      let again = clone rounds clone_nodes [] 0 in
      look (λ w. query_ptr w val) >>= λ node. elim node [
        | some p ↦ clone_node again clone_nodes name uid false p
        | none ↦ look (λ w. query_ptr_c w val) >>= λ const_node. elim const_node [
          | some p ↦ clone_node again clone_nodes name uid true p
          | none ↦ pure none
        ]
      ]
