-- ===== src/Node/Items.antt =====
-- The items of XNode (src/xnode/impl/xnode_impl.cpp): At, Set, Insert, Erase, ForPatch and the
-- tests; PrivateSet, PrivateInsert, ParentSet and ParentDetach. The times of values that are
-- only compared are not read.
use xnode.Prelude.{
  ℕ, Bool, true, false, not, ◌&&◌, Option, none, some, List, [], ◌∷◌, if◌then◌else◌, is_some,
}
use mathlib.Core.Option
use xnode.Prelude.Int.{ℤ}
use xnode.Bytes.{Bytes}
use xnode.Key
use xnode.Key.{XKey, Kind}
use xnode.Value
use xnode.Value.{XValue, Double, object_ptr_c}
use xnode.Timed.{XTimed, mapped, absent, absent_rt}
use xnode.Container.{KeyType, monostate, OnItem, idx_end}
use xnode.Container.Any
use xnode.Container.Any.{IContainer, ContainerType, container_type}
use xnode.Node.Heap.{
  World, Call, query_ptr, on_container, read_container, on_change, stamp, erased_value,
}
use xnode.Node.Match.{node_key, container_key}
use xnode.Node.Validator.{IParentValidator, find_duplicates, remove_duplicates}
use xnode.Node.Parents.{
  name_get, is_map, is_valid_child, private_parent_set, private_erase, set_as_child,
}

-- INode::InsertRes
pub record InsertRes (D : Type 0) : Type 0 where
  pub succeeded : Bool
  pub inserted_at : XKey
  pub existed : XTimed D

-- `_from_key ? optional(ContainerKey_(_from_key, true)) : nullopt`
abbrev pub from_key : XKey → KeyType → Option KeyType
from_key key found = if Key.is_empty key then none else some found

module _ {D : Type 0} where
  abbrev pub failed_insert : InsertRes D
  failed_insert = record { succeeded = false; inserted_at = XKey.empty; existed = absent }

  -- MakeConst_
  unfoldable pub make_const : XTimed D → XTimed D
  make_const v = elim v.value [
    | XValue.object p ↦ record { value = XValue.const_object p; timestamp = v.timestamp }
    | _ ↦ v
  ]

  -- The validator that a node is given with its container.
  unfoldable pub validator_of : IContainer (XTimed D) → IParentValidator
  validator_of c = elim (container_type c) [
    | ContainerType.map ↦ IParentValidator.map
    | ContainerType.array ↦ IParentValidator.array
  ]

  abbrev pub unstamped : XValue D → XTimed D
  unstamped v = record { value = v; timestamp = absent_rt }

  -- A child as a value; a null pointer is the null value.
  abbrev pub value_of_child : Option ℕ → XValue D
  value_of_child none = XValue.null
  value_of_child (some p) = XValue.object p

  abbrev no_mark : KeyType → XTimed D × KeyType
  no_mark s = (absent, s)

  -- `parent_validator_p_->RemoveDuplicates`
  unfoldable pub drop_duplicates :
      Double D → IContainer (XTimed D) → Option ℕ → KeyType → IContainer (XTimed D)
  drop_duplicates f c child key =
      (remove_duplicates (mapped f) no_mark (validator_of c) c (unstamped (value_of_child child))
        key).1

  -- `parent_validator_p_->FindDuplicates`
  unfoldable pub duplicate_of : Double D → IContainer (XTimed D) → Option ℕ → KeyType × XTimed D
  duplicate_of f c child =
      find_duplicates (mapped f) (validator_of c) c (unstamped (value_of_child child))

module _ {D U : Type 0} (f : Double D) where
  unfoldable pub is_key_valid : World D U → ℕ → Bool → XKey → Bool
  is_key_valid w a map_access_by_index key =
      read_container w a
        (λ c. Any.is_key_valid c (container_key (mapped f) c key map_access_by_index)) false

  unfoldable pub size : World D U → ℕ → ℕ
  size w a = read_container w a Any.size 0

  unfoldable pub empty : World D U → ℕ → Bool
  empty w a = read_container w a Any.empty true

  unfoldable pub at : World D U → ℕ → XKey → XTimed D
  at w a key =
      read_container w a
        (λ c. Option.get_or (Any.at c (container_key (mapped f) c key true)) absent) absent

  -- At of a const node
  unfoldable pub at_const : World D U → ℕ → XKey → XTimed D
  at_const w a key = make_const (at w a key)

  unfoldable pub for_patch :
      {S : Type 0} → World D U → ℕ → Option (XKey → XTimed D → S → Bool × S) → XKey → S → Bool × S
  for_patch {S = S} w a on_item key s =
      let call_item : Option (OnItem (XTimed D) S) =
        Option.map (λ g. λ k v t. g (node_key k) v t) on_item in
      read_container w a
        (λ c.
          Any.for_patch (mapped f) c call_item (from_key key (container_key (mapped f) c key true))
            s)
        (false, s)

module _ {D U : Type 0} (f : Double D) (time : ℕ → ℤ) (depth : ℕ) where
  -- The containers' part of Set: {success, previous value, the key}.
  unfoldable pub set_in :
      ℕ
      → XKey
      → XValue D
      → Option ℕ
      → IContainer (XTimed D)
      → Call D U
      → (Bool × XTimed D × KeyType) × IContainer (XTimed D) × Call D U
  set_in a key val child c call =
      let key_set = container_key (mapped f) c key true in
      let (v, call1) = stamp time val call in
      let (ok, replaced, c1, call2) = Any.set (mapped f) c key_set v (on_change a false) call1 in
      let c2 : IContainer (XTimed D) = if ok then drop_duplicates f c1 child key_set else c1 in
      ((ok, replaced, key_set), elim child [ none ↦ c1 | some p ↦ c2 ], call2)

  -- PrivateSet: the duplicates are removed for a value that is no node, too.
  unfoldable pub private_set : World D U → ℕ → XKey → XValue D → (Bool × XTimed D) × World D U
  private_set w a key val =
      let child = query_ptr w val in
      let set_all : IContainer (XTimed D)
          → Call D U
          → (Bool × XTimed D) × IContainer (XTimed D) × Call D U =
        λ c call.
          let ((ok, replaced, key_set), c1, call1) = set_in a key val none c call in
          ((ok, replaced), (if ok then drop_duplicates f c1 child key_set else c1), call1) in
      let (res, w') = on_container w a set_all (false, absent) in (res.0, w')

  -- The containers' part of Insert.
  unfoldable pub insert_in :
      ℕ
      → XKey
      → XValue D
      → Option ℕ
      → IContainer (XTimed D)
      → Call D U
      → InsertRes D × IContainer (XTimed D) × Call D U
  insert_in a key val child c call =
      let (key_existed, val_existed) = duplicate_of f c child in
      let (v, call1) = stamp time val call in
      let (res, c1, call2) =
        Any.emplace (mapped f) c (container_key (mapped f) c key false) v (on_change a false)
          call1 in
      if is_some child && not (Value.is_empty val_existed.value)
      then (
        record { succeeded = false; inserted_at = node_key key_existed; existed = absent },
        c,
        call,
      )
      else (
        record {
          succeeded = res.succeeded;
          inserted_at = node_key res.inserted_at;
          existed = res.existed;
        },
        c1,
        call2,
      )

  unfoldable pub private_insert : World D U → ℕ → XKey → XValue D → InsertRes D × World D U
  private_insert w a key val =
      let (res, w') = on_container w a (insert_in a key val (query_ptr w val)) failed_insert in
      (res.0, w')

  -- ParentSet: {success, previous parent}
  unfoldable pub parent_set :
      World D U → ℕ → Option ℕ → Option Bytes → (Bool × Option ℕ) × World D U
  parent_set w a parent name_for_new_parent =
      let ((success, previous), w1) = private_parent_set depth w a parent name_for_new_parent in
      let w2 : World D U = elim previous [ none ↦ w1 | some p ↦ (private_erase f time w1 p a).1 ] in
      let w3 : World D U = elim parent [
        | none ↦ w2
        | some p ↦
            if is_map w2 p
            then (private_set w2 p (XKey.string (name_get w2 a)) (XValue.object a)).1
            else (private_insert w2 p (XKey.index idx_end) (XValue.object a)).1
      ] in
      if success then ((true, previous), w3) else ((success, previous), w1)

  unfoldable pub parent_detach : World D U → ℕ → Option ℕ × World D U
  parent_detach w a = let (res, w') = parent_set w a none none in (res.1, w')

  -- Detaches each of the nodes.
  unfoldable pub detach_all : List ℕ → World D U → World D U
  detach_all [] w = w
  detach_all (a ∷ l) w = detach_all l (parent_detach w a).1

  -- SetAsChild_ for each node that was placed, under its key.
  unfoldable pub adopt_all : ℕ → List (ℕ × KeyType) → World D U → World D U
  adopt_all this [] w = w
  adopt_all this ((a, key) ∷ l) w =
      adopt_all this l (set_as_child f time depth w this a (Key.string_get (node_key key))).1

  abbrev pub adopt : ℕ → Option ℕ → KeyType → World D U → World D U
  adopt this none key w = w
  adopt this (some child) key w = adopt_all this ((child, key) ∷ []) w

  unfoldable pub set : World D U → ℕ → XKey → XValue D → (Bool × XTimed D) × World D U
  set w a key val =
      let (is_valid, child) = is_valid_child depth w a val in
      let ((res, _, _), w1) =
        on_container w a (set_in a key val child) (false, absent, monostate) in
      let (ok, replaced, key_set) = res in
      let w2 : World D U = elim (query_ptr w1 replaced.value) [
        | none ↦ w1
        | some p ↦ (private_parent_set depth w1 p none none).1
      ] in
      if not is_valid
      then ((false, absent), w)
      else if not ok
      then ((false, replaced), w1)
      else ((true, replaced), adopt a child key_set w2)

  unfoldable pub insert : World D U → ℕ → XKey → XValue D → InsertRes D × World D U
  insert w a key val =
      let (is_valid, child) = is_valid_child depth w a val in
      let ((res, _, _), w1) = on_container w a (insert_in a key val child) failed_insert in
      let w2 : World D U = elim child [
        | none ↦ w1
        | some p ↦ (set_as_child f time depth w1 a p (Key.string_get res.inserted_at)).1
      ] in
      if not is_valid then (failed_insert, w) else if res.succeeded then (res, w2) else (res, w1)

  -- The containers' part of Erase.
  unfoldable pub erase_in :
      ℕ → XKey → IContainer (XTimed D) → Call D U → XTimed D × IContainer (XTimed D) × Call D U
  erase_in a key c call =
      let (erased, c1, call1) =
        Any.erase (mapped f) (erased_value time) c (container_key (mapped f) c key true)
          (on_change a false) call in
      (Option.get_or erased absent, c1, call1)

  unfoldable pub erase : World D U → ℕ → XKey → XTimed D × World D U
  erase w a key =
      let ((erased, _, _), w1) = on_container w a (erase_in a key) absent in
      (erased, elim (query_ptr w1 erased.value) [ none ↦ w1 | some p ↦ (parent_detach w1 p).1 ])
