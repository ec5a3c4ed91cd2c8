-- ===== src/Functions/Paths.antt =====
-- src/xnode/functions/path.cpp: the methods at the end of a path.
use xnode.Prelude.{
  ℕ, ◌&&◌, ◌||◌, Bool, true, false, not, Option, none, some, List, [], ◌∷◌, ◌++◌, if◌then◌else◌,
  is_some,
}
use xnode.Prelude.Int.{ℤ}
use xnode.Key.{XKey}
use xnode.Path.{XPath}
use xnode.Path.Ends.{pop_back}
use xnode.Value
use xnode.Value.{XValue, Double}
use xnode.Timed.{XTimed, absent}
use xnode.Container.{idx_end}
use xnode.Node.{NodeType, type_of_key}
use xnode.Node.Heap.{World, query_ptr, query_ptr_c}
use xnode.Node.Items
use xnode.Node.Items.{InsertRes, failed_insert, value_of_child}
use xnode.Node.Atomic
use xnode.Node.Bulk.{OnCopyRes, bulk_get_all}
use xnode.Functions.{Exec, ◌>>=◌, pure, call, look, endless, type_at, same_type}
use xnode.Functions.Get.{node_get_by_key}

abbrev pub no_type : XKey → Option NodeType
no_type key = none

module _ {D U : Type 0} (f : Double D) where
  -- NodeConstGet
  unfoldable pub node_const_get : World D U → Option ℕ → XPath → Option ℕ
  node_const_get w none path = none
  node_const_get w (some this) [] = some this
  node_const_get w (some this) (key ∷ path) =
      node_const_get w (query_ptr_c w (Items.at_const f w this key).value) path

  -- At of a const node.
  unfoldable pub at_const : World D U → Option ℕ → XPath → XTimed D
  at_const w this path =
      let (key, rest) = pop_back path in
      elim (node_const_get w this rest) [ none ↦ absent | some p ↦ Items.at_const f w p key ]

  abbrev pub is_array_node : World D U → ℕ → Bool
  is_array_node w p = elim (type_at w p) [
    | none ↦ false
    | some type ↦ same_type type NodeType.array
  ]

  -- ValuesList
  unfoldable pub values_list : World D U → Option ℕ → XPath → List (XTimed D)
  values_list w this path =
      let array_or_val = at_const w this path in
      if not (Value.has_value array_or_val.value)
      then []
      else elim (query_ptr_c w array_or_val.value) [
        | none ↦ array_or_val ∷ []
        | some p ↦
            if is_array_node w p
            then (bulk_get_all f true w p (some λ key val l. (OnCopyRes.skip, l ++ val ∷ []))
                XKey.empty []).0
            else []
      ]

  unfoldable pub nodes_const_list : World D U → Option ℕ → XPath → List (XKey × XTimed D)
  nodes_const_list w this path = elim (node_const_get w this path) [
    | none ↦ []
    | some p ↦
        (bulk_get_all f true w p
          (some λ key val s.
            (if is_some (query_ptr_c w val.value) then OnCopyRes.take else OnCopyRes.skip, s))
          XKey.empty tt).1
  ]

  -- NodesList, at the node that the path leads to.
  unfoldable pub nodes_of : World D U → Bool → ℕ → List (XKey × XTimed D)
  nodes_of w include_const p =
      (bulk_get_all f false w p
        (some λ key val s. (
          if (include_const && is_some (query_ptr_c w val.value)) || is_some (query_ptr w val.value)
              then OnCopyRes.take
              else OnCopyRes.skip,
          s,
        ))
        XKey.empty tt).1

module _ {D U : Type 0} (f : Double D) (time : ℕ → ℤ) (depth rounds : ℕ) where
  -- NodeGet
  unfoldable pub node_get : Option ℕ → XPath → Option NodeType → Bool → Exec D U (Option ℕ)
  node_get none path type convert = pure none
  node_get (some this) [] type convert = pure (some this)
  node_get (some this) (key ∷ []) type convert =
      node_get_by_key f time depth rounds (some this) key type convert
  node_get (some this) (key ∷ next ∷ path) type convert = do
    dest ←
        node_get_by_key f time depth rounds (some this) key
          (if is_some type then type_of_key next else none) false
    node_get dest (next ∷ path) type convert

  -- The node that a method is called on: the one before the last key.
  unfoldable pub node_before : Option ℕ → XPath → Option NodeType → Exec D U (Option ℕ)
  node_before this [] type = pure this
  node_before this (key ∷ path) type = node_get this (key ∷ path) type false

  -- The method at the last key, or the result where there is no node.
  unfoldable pub at_end :
      {A : Type 0}
      → Option ℕ
      → XPath
      → (XKey → Option NodeType)
      → A
      → (ℕ → XKey → World D U → A × World D U)
      → Exec D U A
  at_end this path type missing method = do
    dest ← node_before this (pop_back path).1 (type (pop_back path).0)
    elim dest [ none ↦ pure missing | some p ↦ call (method p (pop_back path).0) ]

  unfoldable pub at : Option ℕ → XPath → Exec D U (XTimed D)
  at this path = at_end this path no_type absent (λ p key w. (Items.at f w p key, w))

  unfoldable pub set : Option ℕ → XPath → XValue D → Exec D U (Bool × XTimed D)
  set this path val =
      at_end this path type_of_key (false, absent) (λ p key w. Items.set f time depth w p key val)

  unfoldable pub insert : Option ℕ → XPath → XValue D → Exec D U (InsertRes D)
  insert this path val =
      at_end this path type_of_key failed_insert (λ p key w. Items.insert f time depth w p key val)

  unfoldable pub erase : Option ℕ → XPath → Exec D U (XTimed D)
  erase this path = at_end this path no_type absent (λ p key w. Items.erase f time depth w p key)

  unfoldable pub increment : Option ℕ → XPath → XValue D → Exec D U (XTimed D)
  increment this path val =
      at_end this path no_type absent (λ p key w. Atomic.increment f time depth w p key val)

  -- The value that was there becomes the first of the new array.
  abbrev pub keep_existed : XTimed D → ℕ → World D U → InsertRes D × World D U
  keep_existed existed array w =
      let inserted = Items.insert f time depth w array (XKey.index idx_end) existed.value in
      if Value.has_value existed.value
        && not (Value.eq f existed.value (value_of_child (some array)))
      then inserted
      else (failed_insert, w)

  -- EmplaceToArray: the array is looked for in `_node_this`, whatever node the path leads to.
  -- NodeGetByKey, which converts, gives a node.
  unfoldable pub emplace_to_array : Option ℕ → XPath → XValue D → Exec D U ℕ
  emplace_to_array this path val = do
    let key = (pop_back path).0
    dest ← node_before this (pop_back path).1 (type_of_key key)
    elim dest [
      | none ↦ pure 0
      | some p ↦ do
        existed ← look (λ w. Items.at f w p key)
        found ← node_get_by_key f time depth rounds this key (some NodeType.array) true
        elim found [
          | none ↦ endless
          | some array ↦ do
            kept ← call (keep_existed existed array)
            inserted ← call (λ w. Items.insert f time depth w array (XKey.index idx_end) val)
            look (λ w. Items.size f w array)
        ]
    ]

  -- NodesList
  unfoldable pub nodes_list : Option ℕ → Bool → XPath → Exec D U (List (XKey × XTimed D))
  nodes_list this include_const path = do
    target ← node_get this path none false
    elim target [ none ↦ pure [] | some p ↦ look (λ w. nodes_of f w include_const p) ]
