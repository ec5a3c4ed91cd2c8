-- ===== src/Node/Parents.antt =====
-- The parents and names of XNode (src/xnode/impl/xnode_impl.cpp): IsValidParent_, IsValidChild_,
-- PrivateParentSet, PrivateNameSet, PrivateErase, SetAsChild_, ParentGet, NameGet and IsName. The
-- loops that climb the parents run on `depth`, as many parents as a node may have above it.
use xnode.Prelude.{
  ℕ, zero, suc, Bool, true, false, not, ◌&&◌, Option, none, some, [], ◌∷◌, ◌==◌, if◌then◌else◌,
  is_some,
}
use mathlib.Core.Option
use xnode.Prelude.Int.{ℤ}
use xnode.Bytes.{Bytes, same}
use xnode.Key.{XKey}
use xnode.Value
use xnode.Value.{XValue, Double}
use xnode.Timed.{XTimed, mapped}
use xnode.Container.{name, OnEachRes, OnEach}
use xnode.Container.Any
use xnode.Container.Any.{IContainer, ContainerType}
use xnode.Node.{NodeType}
use xnode.Node.Heap.{
  World, Call, write, node_of, query_ptr, query_ptr_c, on_container, node_type, erased_value,
}
use xnode.Node.Match.{node_key}

-- `a == b` of two pointers that may be null.
abbrev pub same_pointer : Option ℕ → Option ℕ → Bool
same_pointer none none = true
same_pointer (some a) (some b) = a == b
same_pointer _ _ = false

-- `name.empty() ? nullptr : make_unique<string>(name)`
abbrev pub name_or_null : Bytes → Option Bytes
name_or_null [] = none
name_or_null (c ∷ s) = some (c ∷ s)

abbrev pub is_nil : Bytes → Bool
is_nil [] = true
is_nil (c ∷ s) = false

module _ {D U : Type 0} where
  -- `parent_wp_`, whether or not that node is still there.
  unfoldable pub parent_of : World D U → ℕ → Option ℕ
  parent_of w a = elim (w.nodes a) [ none ↦ none | some n ↦ n.parent ]

  -- ParentGet: `parent_wp_.lock()`
  unfoldable pub parent_get : World D U → ℕ → Option ℕ
  parent_get w a = node_of w (parent_of w a)

  unfoldable pub name_get : World D U → ℕ → Bytes
  name_get w a = elim (w.nodes a) [ none ↦ [] | some n ↦ Option.get_or n.name [] ]

  unfoldable pub is_name : World D U → ℕ → Bytes → Bool
  is_name w a name_check = elim (w.nodes a) [
    | none ↦ false
    | some n ↦ elim n.name [
      | none ↦ is_nil name_check
      | some s ↦ not (is_nil name_check) && same name_check s
    ]
  ]

  -- Whether `this` is above a node, the node itself included: the loop of IsValidParent_ and of
  -- IsValidChild_, which stops where it comes back to `start` and where there is no parent.
  unfoldable pub is_free_of : ℕ → World D U → ℕ → Option ℕ → Option ℕ → Bool
  is_free_of zero w this start none = true
  is_free_of zero w this start (some p) = false
  is_free_of (suc fuel) w this start none = true
  is_free_of (suc fuel) w this start (some p) =
      let later = is_free_of fuel w this start (parent_get w p) in
      if p == this then false else if same_pointer (parent_get w p) start then false else later

  unfoldable pub is_valid_parent : ℕ → World D U → ℕ → Option ℕ → Bool
  is_valid_parent depth w this node_parent = is_free_of depth w this node_parent node_parent

  -- {valid, the child unless it is const}
  unfoldable pub is_valid_child : ℕ → World D U → ℕ → XValue D → Bool × Option ℕ
  is_valid_child depth w this check = elim (query_ptr_c w check) [
    | none ↦ (true, none)
    | some child ↦ (is_free_of depth w child (some this) (some this), query_ptr w check)
  ]

  abbrev pub is_map : World D U → ℕ → Bool
  is_map w a = elim (w.nodes a) [
    | none ↦ false
    | some n ↦ elim (node_type n) [ NodeType.map ↦ true | NodeType.array ↦ false ]
  ]

  abbrev pub parent_is_map : World D U → Option ℕ → Bool
  parent_is_map w none = false
  parent_is_map w (some p) = is_map w p

  -- PrivateParentSet: {success, previous parent}
  unfoldable pub private_parent_set :
      ℕ → World D U → ℕ → Option ℕ → Option Bytes → (Bool × Option ℕ) × World D U
  private_parent_set depth w a parent name_for_new_parent = elim (w.nodes a) [
    | none ↦ ((false, none), w)
    | some n ↦
        let previous = parent_get w a in
        let node_name = Option.get_or name_for_new_parent (Option.get_or n.name []) in
        let new_name = if is_some name_for_new_parent then name_or_null node_name else n.name in
        if not (is_valid_parent depth w a parent)
        then ((false, parent), w)
        else if same_pointer previous parent
        then ((false, previous), w)
        else if parent_is_map w parent && is_nil node_name
        then ((false, none), w)
        else ((true, previous), write w a (record n { parent = parent; name = new_name }))
  ]

  -- PrivateNameSet: the previous name.
  unfoldable pub private_name_set : World D U → ℕ → Bytes → Bytes × World D U
  private_name_set w a name_set = elim (w.nodes a) [
    | none ↦ ([], w)
    | some n ↦
        let renamed = write w a (record n { name = name_or_null name_set }) in
        if same name_set (Option.get_or n.name [])
        then (name_set, w)
        else elim n.name [ none ↦ ([], renamed) | some s ↦ (s, renamed) ]
  ]

module _ {D U : Type 0} (f : Double D) (time : ℕ → ℤ) where
  -- The callback of PrivateErase that looks for the child by its value; `erased_key` is in `placed`.
  unfoldable pub erase_child : ℕ → OnEach (XTimed D) (Call D U)
  erase_child child key val call =
      if Value.eq f val.value (XValue.object child)
      then (OnEachRes.erase_stop, val, record call { placed = (child, key) ∷ call.placed })
      else (OnEachRes.next, val, call)

  -- PrivateErase in the container: by the name, else by the value.
  unfoldable pub erase_from :
      Bytes → ℕ → IContainer (XTimed D) → Call D U → XKey × IContainer (XTimed D) × Call D U
  erase_from child_name child c call =
      let (erased, c1, call1) =
        Any.erase (mapped f) (erased_value time) c (name child_name) none call in
      let start : IContainer (XTimed D) = if is_nil child_name then c else c1 in
      let start_call : Call D U = if is_nil child_name then call else call1 in
      let (found, c2, call2) =
        Any.for_each (mapped f) (erased_value time) start (some (erase_child child)) none none
          start_call in
      if not (is_nil child_name) && is_some erased
      then (XKey.string child_name, c1, call1)
      else elim call2.placed [
        | [] ↦ (XKey.empty, c2, call2)
        | (_, key) ∷ _ ↦ (node_key key, c2, call2)
      ]

  unfoldable pub private_erase : World D U → ℕ → ℕ → XKey × World D U
  private_erase w a child =
      let (res, w') = on_container w a (erase_from (name_get w child) child) XKey.empty in
      (res.0, w')

  -- SetAsChild_
  unfoldable pub set_as_child : ℕ → World D U → ℕ → ℕ → Option Bytes → Bool × World D U
  set_as_child depth w this child child_name =
      let ((success, previous), w1) = private_parent_set depth w child (some this) child_name in
      if success
      then (true, elim previous [ none ↦ w1 | some p ↦ (private_erase w1 p child).1 ])
      else (false, w1)
