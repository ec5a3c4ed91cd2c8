-- ===== src/Node/Calls.antt =====
-- The methods of XNode (src/xnode/impl/xnode_impl.cpp) as the steps of the store, in any order.
use xnode.Prelude.{ℕ, refl, Bool, Option, List, Option-cases, inl, inr}
use xnode.Prelude.Int.{ℤ}
use xnode.Bytes.{Bytes}
use xnode.Key.{XKey}
use xnode.Value.{XValue, Double}
use xnode.Timed.{XTimed}
use xnode.Callbacks.{Callback}
use xnode.Container.{OnEachRes}
use xnode.Node.{NodeType}
use xnode.Node.Heap.{World, create}
use xnode.Node.Items.{set, insert, erase, parent_set}
use xnode.Node.Changes.{
  on_change_add, on_change_remove, on_change_reset, clear, for_each, key_change, name_set,
}
use xnode.Node.Atomic.{append, increment, compare_exchange}
use xnode.Node.BulkSet.{bulk_set}
use xnode.Node.BulkInsert.{bulk_insert, bulk_insert_at, bulk_erase}
use xnode.Node.Forest.{IsForest, same_parents-IsForest}
use xnode.Node.Acyclic.{
  write-parent_of, parent_set-IsForest, set-IsForest, insert-IsForest, erase-IsForest,
  create-IsForest,
}
use xnode.Node.Trees.{
  clear-IsForest, for_each-IsForest, append-IsForest, increment-IsForest, compare_exchange-IsForest,
  bulk_set-IsForest, bulk_insert-IsForest, bulk_insert_at-IsForest, bulk_erase-IsForest,
  key_change-IsForest, name_set-IsForest,
}

module _ {D U : Type 0} (f : Double D) (time : ℕ → ℤ) (depth : ℕ) where
  -- One call of a method, or of the factory.
  pub data Step (w : World D U) : World D U → Type 0 where
    make : (type : NodeType) (name : Bytes) (uid : ℕ) → Step w (create w type name uid).1
    set_item : (a : ℕ) (key : XKey) (val : XValue D) → Step w (set f time depth w a key val).1
    insert_item : (a : ℕ) (key : XKey) (val : XValue D) → Step w (insert f time depth w a key val).1
    erase_item : (a : ℕ) (key : XKey) → Step w (erase f time depth w a key).1
    clear_items : (a : ℕ) → Step w (clear f time depth w a)
    each :
        (a : ℕ) (on_item : Option (XKey → XTimed D → U → OnEachRes × XTimed D × U)) (key : XKey)
        → Step w (for_each f time depth w a on_item key).1
    append_text : (a : ℕ) (key : XKey) (text : Bytes) → Step w (append f time depth w a key text).1
    increment_by :
        (a : ℕ) (key : XKey) (val : XValue D) → Step w (increment f time depth w a key val).1
    exchange :
        (a : ℕ) (key : XKey) (expected to : XValue D)
        → Step w (compare_exchange f time depth w a key expected to).1
    set_bulk :
        (a : ℕ) (values : List (XKey × XValue D)) → Step w (bulk_set f time depth w a values).1
    insert_bulk :
        (a : ℕ) (values : List (XKey × XValue D)) → Step w (bulk_insert f time depth w a values).1
    insert_bulk_at :
        (a : ℕ) (key : XKey) (values : List (XValue D))
        → Step w (bulk_insert_at f time depth w a key values).1
    erase_bulk : (a : ℕ) (keys : List XKey) → Step w (bulk_erase f time depth w a keys).1
    set_parent :
        (a : ℕ) (parent : Option ℕ) (name : Option Bytes)
        → Step w (parent_set f time depth w a parent name).1
    change_key : (a : ℕ) (from to : XKey) → Step w (key_change f time depth w a from to).1
    set_name :
        (a : ℕ) (name : Bytes) (update : Bool) → Step w (name_set f time depth w a name update).1
    callback_add :
        (a uid : ℕ) (callback : Option (Callback ℕ (XTimed D) U)) (id : ℕ)
        → Step w (on_change_add w a uid callback id).1
    callback_remove : (a id : ℕ) → Step w (on_change_remove w a id).1
    callback_reset : (a : ℕ) → Step w (on_change_reset w a).1

  -- Calls one after the other.
  pub data Reaches (w : World D U) : World D U → Type 0 where
    start : Reaches w w
    next : {w1 w2 : World D U} → Reaches w w1 → Step w1 w2 → Reaches w w2

  on_change_add-IsForest :
      (w : World D U) (a uid : ℕ) (callback : Option (Callback ℕ (XTimed D) U)) (id : ℕ)
      → IsForest w
      → IsForest (on_change_add w a uid callback id).1
  unfolding on_change_add
  on_change_add-IsForest w a uid callback id h = elim (Option-cases (w.nodes a)) [
    | inl e ↦ rw (e, on_change_add) h
    | inr (n, e) ↦
        rw (e, on_change_add) (same_parents-IsForest (λ x. write-parent_of w a n _ x e refl) h)
  ]

  on_change_remove-IsForest :
      (w : World D U) (a id : ℕ) → IsForest w → IsForest (on_change_remove w a id).1
  unfolding on_change_remove
  on_change_remove-IsForest w a id h = elim (Option-cases (w.nodes a)) [
    | inl e ↦ rw (e, on_change_remove) h
    | inr (n, e) ↦
        rw (e, on_change_remove) (same_parents-IsForest (λ x. write-parent_of w a n _ x e refl) h)
  ]

  on_change_reset-IsForest : (w : World D U) (a : ℕ) → IsForest w → IsForest (on_change_reset w a).1
  unfolding on_change_reset
  on_change_reset-IsForest w a h = elim (Option-cases (w.nodes a)) [
    | inl e ↦ rw (e, on_change_reset) h
    | inr (n, e) ↦
        rw (e, on_change_reset) (same_parents-IsForest (λ x. write-parent_of w a n _ x e refl) h)
  ]

  Step-IsForest : {w w' : World D U} → Step w w' → IsForest w → IsForest w'
  Step-IsForest {w} (make type name uid) h = create-IsForest w type name uid h
  Step-IsForest {w} (set_item a key val) h = set-IsForest f time depth w a key val h
  Step-IsForest {w} (insert_item a key val) h = insert-IsForest f time depth w a key val h
  Step-IsForest {w} (erase_item a key) h = erase-IsForest f time depth w a key h
  Step-IsForest {w} (clear_items a) h = clear-IsForest f time depth w h a
  Step-IsForest {w} (each a on_item key) h = for_each-IsForest f time depth w h a on_item key
  Step-IsForest {w} (append_text a key text) h = append-IsForest f time depth w h a key text
  Step-IsForest {w} (increment_by a key val) h = increment-IsForest f time depth w h a key val
  Step-IsForest {w} (exchange a key expected to) h =
      compare_exchange-IsForest f time depth w h a key expected to
  Step-IsForest {w} (set_bulk a values) h = bulk_set-IsForest f time depth w h a values
  Step-IsForest {w} (insert_bulk a values) h = bulk_insert-IsForest f time depth w h a values
  Step-IsForest {w} (insert_bulk_at a key values) h =
      bulk_insert_at-IsForest f time depth w h a key values
  Step-IsForest {w} (erase_bulk a keys) h = bulk_erase-IsForest f time depth w h a keys
  Step-IsForest {w} (set_parent a parent name) h =
      parent_set-IsForest f time depth w a parent name h
  Step-IsForest {w} (change_key a from to) h = key_change-IsForest f time depth w a from to h
  Step-IsForest {w} (set_name a name update) h = name_set-IsForest f time depth w a name update h
  Step-IsForest {w} (callback_add a uid callback id) h =
      on_change_add-IsForest w a uid callback id h
  Step-IsForest {w} (callback_remove a id) h = on_change_remove-IsForest w a id h
  Step-IsForest {w} (callback_reset a) h = on_change_reset-IsForest w a h

  -- Where no node is above itself in the parents of a store, none is after any sequence of calls of
  -- the methods and of the factory, whatever they are given and answer.
  pub Reaches-IsForest : {w w' : World D U} → Reaches w w' → IsForest w → IsForest w'
  Reaches-IsForest start h = h
  Reaches-IsForest (next r s) h = Step-IsForest s (Reaches-IsForest r h)
