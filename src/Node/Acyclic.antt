-- ===== src/Node/Acyclic.antt =====
-- The parents under the private methods and the methods for one item of XNode
-- (src/xnode/impl/xnode_impl.cpp).
use xnode.Prelude.{
  ℕ, ◌≡◌, Bool, false, not, Option, none, some, List, [], ◌∷◌, if◌then◌else◌, arith, ==_iff,
  Bool-cases, inl, inr, if_intro,
}
use xnode.Prelude.Int.{ℤ}
use xnode.Bytes.{Bytes}
use xnode.Key.{XKey}
use xnode.Key
use xnode.Value.{XValue, Double}
use xnode.Timed.{XTimed, absent}
use xnode.Container.{KeyType, monostate, idx_end}
use xnode.Container.Any.{IContainer}
use xnode.Node.{NodeType}
use xnode.Node.Heap.{XNode, World, Call, write, query_ptr, on_container, create}
use xnode.Node.Match.{node_key}
use xnode.Node.Parents.{
  parent_of, private_parent_set, private_erase, private_name_set, set_as_child, is_map, name_get,
  is_valid_child,
}
use xnode.Node.Items
use xnode.Node.Items.{
  private_set, private_insert, parent_set, parent_detach, detach_all, adopt_all, adopt, set_in,
  insert_in, erase_in, failed_insert, InsertRes,
}
use xnode.Node.BulkInsert.{move_all, adopt_unnamed}
use xnode.Node.Forest.{
  IsForest, FewerParents-IsForest, same_parents-IsForest, private_parent_set-IsForest,
}

module _ {D U : Type 0} where
  pub write-parent_of :
      (w : World D U) (a : ℕ) (n n' : XNode D U) (x : ℕ)
      → w.nodes a ≡ some n
      → n'.parent ≡ n.parent
      → parent_of (write w a n') x ≡ parent_of w x
  unfolding parent_of write
  write-parent_of w a n n' x at_a same = ground (arith, ==_iff x a)

  on_container-parent_of :
      {R : Type 0} (w : World D U) (a : ℕ)
      (f : IContainer (XTimed D) → Call D U → R × IContainer (XTimed D) × Call D U) (fallback : R)
      (x : ℕ)
      → parent_of (on_container w a f fallback).1 x ≡ parent_of w x
  unfolding on_container parent_of write
  on_container-parent_of w a f fallback x = ground (arith, ==_iff x a)

  pub on_container-IsForest :
      {R : Type 0} (w : World D U) (a : ℕ)
      (f : IContainer (XTimed D) → Call D U → R × IContainer (XTimed D) × Call D U) (fallback : R)
      → IsForest w
      → IsForest (on_container w a f fallback).1
  on_container-IsForest w a f fallback =
      same_parents-IsForest (on_container-parent_of w a f fallback)

  pub private_name_set-IsForest :
      (w : World D U) (a : ℕ) (name : Bytes) → IsForest w → IsForest (private_name_set w a name).1
  private_name_set-IsForest w a name = same_parents-IsForest (same w a name)
    where
      same :
          (w : World D U) (a : ℕ) (name : Bytes) (x : ℕ)
          → parent_of (private_name_set w a name).1 x ≡ parent_of w x
      same w a name x = unfold private_name_set parent_of write in ground (arith, ==_iff x a)

  -- The node that a factory creates has no parent.
  pub create-IsForest :
      (w : World D U) (type : NodeType) (name : Bytes) (uid : ℕ)
      → IsForest w
      → IsForest (create w type name uid).1
  create-IsForest w type name uid = FewerParents-IsForest (fewer w type name uid)
    where
      fewer :
          (w : World D U) (type : NodeType) (name : Bytes) (uid x y : ℕ)
          → parent_of (create w type name uid).1 x ≡ some y
          → parent_of w x ≡ some y
      fewer w type name uid x y e = unfold create parent_of write in ground (arith, ==_iff x w.next)

module _ {D U : Type 0} (f : Double D) (time : ℕ → ℤ) (depth : ℕ) where
  pub private_erase-IsForest :
      (w : World D U) (a child : ℕ) → IsForest w → IsForest (private_erase f time w a child).1
  unfolding private_erase
  private_erase-IsForest w a child = on_container-IsForest w a _ _

  pub private_set-IsForest :
      (w : World D U) (a : ℕ) (key : XKey) (val : XValue D)
      → IsForest w
      → IsForest (private_set f time depth w a key val).1
  unfolding private_set
  private_set-IsForest w a key val = on_container-IsForest w a _ _

  pub private_insert-IsForest :
      (w : World D U) (a : ℕ) (key : XKey) (val : XValue D)
      → IsForest w
      → IsForest (private_insert f time depth w a key val).1
  unfolding private_insert
  private_insert-IsForest w a key val = on_container-IsForest w a _ _

  erase_from_parent-IsForest :
      (w : World D U) (p : Option ℕ) (child : ℕ)
      → IsForest w
      → IsForest (elim p [ none ↦ w | some q ↦ (private_erase f time w q child).1 ])
  erase_from_parent-IsForest w none child h = h
  erase_from_parent-IsForest w (some q) child h = private_erase-IsForest w q child h

  pub set_as_child-IsForest :
      (w : World D U) (this child : ℕ) (name : Option Bytes)
      → IsForest w
      → IsForest (set_as_child f time depth w this child name).1
  unfolding set_as_child
  set_as_child-IsForest w this child name h =
      let ((success, previous), w1) = private_parent_set depth w child (some this) name in
      let h1 = private_parent_set-IsForest depth w child (some this) name h in
      elim (Bool-cases success) [
        | inl e ↦ rw e (erase_from_parent-IsForest w1 previous child h1)
        | inr e ↦ rw e h1
      ]

  put_child-IsForest :
      (w : World D U) (p : Option ℕ) (a : ℕ)
      → IsForest w
      → IsForest (elim p [
        | none ↦ w
        | some q ↦
            if is_map w q
            then (private_set f time depth w q (XKey.string (name_get w a)) (XValue.object a)).1
            else (private_insert f time depth w q (XKey.index idx_end) (XValue.object a)).1
      ])
  put_child-IsForest w none a h = h
  put_child-IsForest w (some q) a h =
      if_intro IsForest (is_map w q)
        (λ e. private_set-IsForest w q (XKey.string (name_get w a)) (XValue.object a) h)
        (λ e. private_insert-IsForest w q (XKey.index idx_end) (XValue.object a) h)

  pub parent_set-IsForest :
      (w : World D U) (a : ℕ) (p : Option ℕ) (name : Option Bytes)
      → IsForest w
      → IsForest (parent_set f time depth w a p name).1
  unfolding parent_set
  parent_set-IsForest w a p name h =
      let ((success, previous), w1) = private_parent_set depth w a p name in
      let h1 = private_parent_set-IsForest depth w a p name h in
      let w2 : World D U = elim previous [ none ↦ w1 | some q ↦ (private_erase f time w1 q a).1 ] in
      let h2 : IsForest w2 = erase_from_parent-IsForest w1 previous a h1 in
      elim (Bool-cases success) [ inl e ↦ rw e (put_child-IsForest w2 p a h2) | inr e ↦ rw e h1 ]

  parent_detach-IsForest :
      (w : World D U) (a : ℕ) → IsForest w → IsForest (parent_detach f time depth w a).1
  unfolding parent_detach
  parent_detach-IsForest w a h = parent_set-IsForest w a none none h

  pub detach_all-IsForest :
      (l : List ℕ) (w : World D U) → IsForest w → IsForest (detach_all f time depth l w)
  unfolding detach_all
  detach_all-IsForest [] w h = h
  detach_all-IsForest (a ∷ l) w h =
      detach_all-IsForest l (parent_detach f time depth w a).1 (parent_detach-IsForest w a h)

  pub adopt_all-IsForest :
      (this : ℕ) (l : List (ℕ × KeyType)) (w : World D U)
      → IsForest w
      → IsForest (adopt_all f time depth this l w)
  unfolding adopt_all
  adopt_all-IsForest this [] w h = h
  adopt_all-IsForest this ((a, key) ∷ l) w h =
      adopt_all-IsForest this l
        (set_as_child f time depth w this a (Key.string_get (node_key key))).1
        (set_as_child-IsForest w this a (Key.string_get (node_key key)) h)

  pub adopt_unnamed-IsForest :
      (this : ℕ) (l : List (ℕ × KeyType)) (w : World D U)
      → IsForest w
      → IsForest (adopt_unnamed f time depth this l w)
  unfolding adopt_unnamed
  adopt_unnamed-IsForest this [] w h = h
  adopt_unnamed-IsForest this ((a, key) ∷ l) w h =
      adopt_unnamed-IsForest this l (set_as_child f time depth w this a none).1
        (set_as_child-IsForest w this a none h)

  pub move_all-IsForest :
      (this : ℕ) (l : List (ℕ × KeyType)) (w : World D U)
      → IsForest w
      → IsForest (move_all f time depth this l w)
  unfolding move_all
  move_all-IsForest this [] w h = h
  move_all-IsForest this ((a, key) ∷ l) w h =
      let w1 = (parent_detach f time depth w a).1 in
      move_all-IsForest this l
        (set_as_child f time depth w1 this a (Key.string_get (node_key key))).1
        (set_as_child-IsForest w1 this a (Key.string_get (node_key key))
          (parent_detach-IsForest w a h))

  adopt-IsForest :
      (this : ℕ) (child : Option ℕ) (key : KeyType) (w : World D U)
      → IsForest w
      → IsForest (adopt f time depth this child key w)
  adopt-IsForest this none key w h = h
  adopt-IsForest this (some child) key w h = adopt_all-IsForest this ((child, key) ∷ []) w h

  -- A node that is given no parent any more, if there is one.
  orphan-IsForest :
      (w : World D U) (p : Option ℕ)
      → IsForest w
      → IsForest (elim p [ none ↦ w | some q ↦ (private_parent_set depth w q none none).1 ])
  orphan-IsForest w none h = h
  orphan-IsForest w (some q) h = private_parent_set-IsForest depth w q none none h

  detach-IsForest :
      (w : World D U) (p : Option ℕ)
      → IsForest w
      → IsForest (elim p [ none ↦ w | some q ↦ (parent_detach f time depth w q).1 ])
  detach-IsForest w none h = h
  detach-IsForest w (some q) h = parent_detach-IsForest w q h

  pub set_child-IsForest :
      (w : World D U) (this : ℕ) (p : Option ℕ) (name : Option Bytes)
      → IsForest w
      → IsForest (elim p [ none ↦ w | some q ↦ (set_as_child f time depth w this q name).1 ])
  set_child-IsForest w this none name h = h
  set_child-IsForest w this (some q) name h = set_as_child-IsForest w this q name h

  pub set-IsForest :
      (w : World D U) (a : ℕ) (key : XKey) (val : XValue D)
      → IsForest w
      → IsForest (Items.set f time depth w a key val).1
  unfolding Items.set
  set-IsForest w a key val h =
      let (is_valid, child) = is_valid_child depth w a val in
      let fallback : Bool × XTimed D × KeyType = (false, absent, monostate) in
      let done = on_container w a (set_in f time depth a key val child) fallback in
      let h1 = on_container-IsForest w a (set_in f time depth a key val child) fallback h in
      let h2 = orphan-IsForest done.1 (query_ptr done.1 done.0.0.1.value) h1 in
      if_intro (λ (r : (Bool × XTimed D) × World D U). IsForest r.1) (not is_valid) (λ e. h)
        (λ e.
          if_intro (λ (r : (Bool × XTimed D) × World D U). IsForest r.1) (not done.0.0.0) (λ e'. h1)
            (λ e'. adopt-IsForest a child done.0.0.2 _ h2))

  pub insert-IsForest :
      (w : World D U) (a : ℕ) (key : XKey) (val : XValue D)
      → IsForest w
      → IsForest (Items.insert f time depth w a key val).1
  unfolding Items.insert
  insert-IsForest w a key val h =
      let (is_valid, child) = is_valid_child depth w a val in
      let done = on_container w a (insert_in f time depth a key val child) failed_insert in
      let h1 = on_container-IsForest w a (insert_in f time depth a key val child) failed_insert h in
      if_intro (λ (r : InsertRes D × World D U). IsForest r.1) (not is_valid) (λ e. h)
        (λ e.
          if_intro (λ (r : InsertRes D × World D U). IsForest r.1) done.0.0.succeeded
            (λ e'. set_child-IsForest done.1 a child (Key.string_get done.0.0.inserted_at) h1)
            (λ e'. h1))

  pub erase-IsForest :
      (w : World D U) (a : ℕ) (key : XKey)
      → IsForest w
      → IsForest (Items.erase f time depth w a key).1
  unfolding Items.erase
  erase-IsForest w a key h =
      let done = on_container w a (erase_in f time depth a key) absent in
      detach-IsForest done.1 (query_ptr done.1 done.0.0.value)
        (on_container-IsForest w a (erase_in f time depth a key) absent h)
