-- ===== src/Node/Trees.antt =====
-- The parents under the methods of XNode for many items, and under KeyChange and NameSet
-- (src/xnode/impl/xnode_impl.cpp).
use xnode.Prelude.{
  ℕ, ◌≡◌, refl, Bool, false, not, ◌||◌, Option, none, some, List, [], if_intro, Option-cases, inl,
  inr,
}
use mathlib.Core.Option
use xnode.Prelude.Int.{ℤ}
use xnode.Bytes.{Bytes, same}
use xnode.Key
use xnode.Key.{XKey, Kind}
use xnode.Value.{XValue, Double}
use xnode.Timed.{XTimed, absent}
use xnode.Container.{KeyType, monostate, OnEachRes, idx_end}
use xnode.Node.Heap.{XNode, World, write, query_ptr, on_container}
use xnode.Node.Match.{node_key}
use xnode.Node.Parents.{parent_get, private_name_set, is_map, name_or_null}
use xnode.Node.Changes.{
  clear, for_each, key_change, name_set, move_in, same_kind, rename_moved, change_name, name_set_in,
}
use xnode.Node.Atomic.{append, increment, compare_exchange, exchange_in}
use xnode.Node.BulkSet.{bulk_set}
use xnode.Node.BulkInsert.{
  bulk_insert, bulk_insert_at, bulk_erase, is_array, is_string, insert_at_each,
}
use xnode.Node.Bulk.{invalid_children}
use xnode.Node.Forest.{IsForest, same_parents-IsForest}
use xnode.Node.Acyclic.{
  write-parent_of, on_container-IsForest, private_name_set-IsForest, detach_all-IsForest,
  adopt_all-IsForest, adopt_unnamed-IsForest, move_all-IsForest, set_child-IsForest,
}

module _ {D U : Type 0} (f : Double D) (time : ℕ → ℤ) (depth : ℕ) (w : World D U)
    (h : IsForest w) where
  pub clear-IsForest : (a : ℕ) → IsForest (clear f time depth w a)
  unfolding clear
  clear-IsForest a = detach_all-IsForest f time depth _ _ (on_container-IsForest w a _ [] h)

  pub for_each-IsForest :
      (a : ℕ) (g : Option (XKey → XTimed D → U → OnEachRes × XTimed D × U)) (key : XKey)
      → IsForest (for_each f time depth w a g key).1
  unfolding for_each
  for_each-IsForest a g key =
      adopt_all-IsForest f time depth a _ _
        (detach_all-IsForest f time depth _ _ (on_container-IsForest w a _ false h))

  pub append-IsForest :
      (a : ℕ) (key : XKey) (text : Bytes) → IsForest (append f time depth w a key text).1
  unfolding append
  append-IsForest a key text = on_container-IsForest w a _ absent h

  pub increment-IsForest :
      (a : ℕ) (key : XKey) (val : XValue D) → IsForest (increment f time depth w a key val).1
  unfolding increment
  increment-IsForest a key val = on_container-IsForest w a _ absent h

  pub compare_exchange-IsForest :
      (a : ℕ) (key : XKey) (expected to : XValue D)
      → IsForest (compare_exchange f time depth w a key expected to).1
  unfolding compare_exchange
  compare_exchange-IsForest a key expected to =
      let fallback : Bool × XTimed D × KeyType = (false, absent, monostate) in
      let done = on_container w a (exchange_in f time depth a key expected to) fallback in
      let h1 = on_container-IsForest w a (exchange_in f time depth a key expected to) fallback h in
      if_intro (λ (r : (Bool × XTimed D) × World D U). IsForest r.1) done.0.0.0
        (λ e.
          set_child-IsForest f time depth done.1 a (query_ptr w to)
            (Key.string_get (node_key done.0.0.2)) h1)
        (λ e. h1)

  pub bulk_set-IsForest :
      (a : ℕ) (values : List (XKey × XValue D)) → IsForest (bulk_set f time depth w a values).1
  unfolding bulk_set
  bulk_set-IsForest a values =
      adopt_all-IsForest f time depth a _ _
        (detach_all-IsForest f time depth _ _ (on_container-IsForest w a _ _ h))

  pub bulk_insert-IsForest :
      (a : ℕ) (values : List (XKey × XValue D)) → IsForest (bulk_insert f time depth w a values).1
  unfolding bulk_insert
  bulk_insert-IsForest a values =
      move_all-IsForest f time depth a _ _ (on_container-IsForest w a _ _ h)

  pub bulk_insert_at-IsForest :
      (a : ℕ) (key : XKey) (values : List (XValue D))
      → IsForest (bulk_insert_at f time depth w a key values).1
  unfolding bulk_insert_at
  bulk_insert_at-IsForest a key values =
      let invalid = invalid_children depth w a values in
      let start = Option.get_or (Key.index_get key) idx_end in
      let step = insert_at_each f time depth w a invalid start monostate values in
      let fallback : ℕ × KeyType = (0, monostate) in
      let done = on_container w a step fallback in
      let h1 = on_container-IsForest w a step fallback h in
      if_intro (λ (r : (ℕ × XKey) × World D U). IsForest r.1) (is_string key) (λ e. h)
        (λ e.
          if_intro (λ (r : (ℕ × XKey) × World D U). IsForest r.1) (is_array f time depth w a)
            (λ e'. adopt_unnamed-IsForest f time depth a done.0.2 done.1 h1) (λ e'. h))

  pub bulk_erase-IsForest :
      (a : ℕ) (keys : List XKey) → IsForest (bulk_erase f time depth w a keys).1
  unfolding bulk_erase
  bulk_erase-IsForest a keys =
      detach_all-IsForest f time depth _ _ (on_container-IsForest w a _ [] h)

module _ {D U : Type 0} (f : Double D) (time : ℕ → ℤ) (depth : ℕ) where
  named-IsForest :
      (w : World D U) (p : Option ℕ) (s : Bytes)
      → IsForest w
      → IsForest (elim p [ none ↦ w | some q ↦ (private_name_set w q s).1 ])
  named-IsForest w none s h = h
  named-IsForest w (some q) s h = private_name_set-IsForest w q s h

  rename_moved-IsForest :
      (w : World D U) (moved : Option (XTimed D)) (to : XKey)
      → IsForest w
      → IsForest (rename_moved f time depth w moved to)
  unfolding rename_moved
  rename_moved-IsForest w none to h = h
  rename_moved-IsForest w (some v) XKey.empty h = h
  rename_moved-IsForest w (some v) (XKey.index i) h = h
  rename_moved-IsForest w (some v) (XKey.string s) h = named-IsForest w (query_ptr w v.value) s h

  pub key_change-IsForest :
      (w : World D U) (a : ℕ) (from to : XKey)
      → IsForest w
      → IsForest (key_change f time depth w a from to).1
  unfolding key_change
  key_change-IsForest w a from to h =
      let done = on_container w a (move_in f time depth a from to) none in
      let h1 = on_container-IsForest w a (move_in f time depth a from to) none h in
      if_intro (λ (r : Bool × World D U). IsForest r.1)
        (Key.is_empty from || (Key.is_empty to || not (same_kind (Key.kind from) (Key.kind to))))
        (λ e. h) (λ e. rename_moved-IsForest done.1 done.0.0 to h1)

  renamed-IsForest :
      (w : World D U) (a : ℕ) (n : XNode D U) (name : Bytes)
      → w.nodes a ≡ some n
      → IsForest w
      → IsForest (write w a (record n { name = name_or_null name }))
  renamed-IsForest w a n name at_a =
      same_parents-IsForest (λ x. write-parent_of w a n _ x at_a refl)

  change_name-IsForest :
      (w : World D U) (a : ℕ) (n : XNode D U) (s : Bytes) (p : Option ℕ) (name : Bytes)
      (update : Bool)
      → w.nodes a ≡ some n
      → IsForest w
      → IsForest (change_name f time depth w a n s p name update).1
  unfolding change_name
  change_name-IsForest w a n s none name update at_a h = renamed-IsForest w a n name at_a h
  change_name-IsForest w a n s (some p) name update at_a h =
      if_intro (λ (r : (Bool × Bytes) × World D U). IsForest r.1) (not (is_map w p))
        (λ e. renamed-IsForest w a n name at_a h)
        (λ e.
          if_intro (λ (r : (Bool × Bytes) × World D U). IsForest r.1) (not update) (λ e'. h)
            (λ e'. key_change-IsForest w p (XKey.string s) (XKey.string name) h))

  name_set_in-IsForest :
      (w : World D U) (a : ℕ) (n : XNode D U) (old : Option Bytes) (name : Bytes) (update : Bool)
      → w.nodes a ≡ some n
      → IsForest w
      → IsForest (name_set_in f time depth w a n old name update).1
  unfolding name_set_in
  name_set_in-IsForest w a n none name update at_a h =
      if_intro (λ (r : (Bool × Bytes) × World D U). IsForest r.1) (same name []) (λ e. h)
        (λ e. renamed-IsForest w a n name at_a h)
  name_set_in-IsForest w a n (some s) name update at_a h =
      if_intro (λ (r : (Bool × Bytes) × World D U). IsForest r.1) (same name s) (λ e. h)
        (λ e. change_name-IsForest w a n s (parent_get w a) name update at_a h)

  pub name_set-IsForest :
      (w : World D U) (a : ℕ) (name : Bytes) (update : Bool)
      → IsForest w
      → IsForest (name_set f time depth w a name update).1
  unfolding name_set
  name_set-IsForest w a name update h = elim (Option-cases (w.nodes a)) [
    | inl e ↦ rw (e, name_set) h
    | inr (n, e) ↦ rw (e, name_set) (name_set_in-IsForest w a n n.name name update e h)
  ]
