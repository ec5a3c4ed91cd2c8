-- ===== src/Node/Atomic.antt =====
-- Append, Increment and CompareExchange of XNode (src/xnode/impl/xnode_impl.cpp).
use xnode.Prelude.{
  ℕ, ◌+◌, ◌%◌, ◌^◌, Bool, true, false, not, none, some, [], ◌++◌, if◌then◌else◌, word,
}
use mathlib.Core.Option
use xnode.Prelude.Int.{ℤ, pos, ◌+ℤ◌, to_signed, to_unsigned}
use xnode.Bytes.{Bytes}
use xnode.Key
use xnode.Key.{XKey, Kind}
use xnode.Value
use xnode.Value.{XValue, ValueType, Double}
use xnode.Value.Convert
use xnode.Timed.{XTimed, mapped, absent}
use xnode.Container.{KeyType, monostate, OnEachRes, OnEach, approve}
use xnode.Container.Any
use xnode.Container.Any.{IContainer}
use xnode.Node.Heap.{World, Call, query_ptr, on_container, on_change, stamp, erased_value}
use xnode.Node.Match.{node_key, container_key}
use xnode.Node.Parents.{set_as_child}

module _ {D : Type 0} (f : Double D) where
  -- `appended` of Increment; where a sum of int64_t overflows, which the source leaves undefined,
  -- it wraps around.
  unfoldable pub sum_of : XValue D → XValue D → XValue D
  sum_of v increment = elim (Value.value_type increment) [
    | ValueType.k_double ↦ XValue.double (
        f.add (Convert.double_of f (f.from_uint 0) v)
          (Convert.double_of f (f.from_uint 0) increment))
    | ValueType.k_uint64 ↦
        XValue.uint64 ((Convert.uint64_of f 0 0 v + Convert.uint64_of f 0 0 increment) % word)
    | _ ↦ XValue.int64 (
        to_signed (2 ^ 63)
          (to_unsigned word (Value.int64_of f (pos 0) v +ℤ Value.int64_of f (pos 0) increment)))
  ]

module _ {D U : Type 0} (f : Double D) (time : ℕ → ℤ) (depth : ℕ) where
  -- The callback of Append: the value that it makes is kept in `taken`; the item keeps its time.
  unfoldable pub append_item : Bytes → OnEach (XTimed D) (Call D U)
  append_item append_str key val call =
      let appended : XTimed D = record val {
        value = XValue.string (Convert.string_of f [] val.value ++ append_str);
      } in
      (OnEachRes.stop, appended, record call { taken = some appended })

  unfoldable pub increment_item : XValue D → OnEach (XTimed D) (Call D U)
  increment_item increment key val call =
      let appended : XTimed D = record val { value = sum_of f val.value increment } in
      (OnEachRes.stop, appended, record call { taken = some appended })

  -- Append and Increment: the callback at the key, or `start` where ForEach finds none.
  unfoldable pub change_in :
      ℕ
      → XKey
      → OnEach (XTimed D) (Call D U)
      → XValue D
      → IContainer (XTimed D)
      → Call D U
      → XTimed D × IContainer (XTimed D) × Call D U
  change_in a key change start c call =
      let (found, c1, call1) =
        Any.for_each (mapped f) (erased_value time) c (some change)
          (some (container_key (mapped f) c key true)) (on_change a false) call in
      let (v, call2) = stamp time start call1 in
      let (res, c2, call3) =
        Any.emplace (mapped f) c1 (container_key (mapped f) c1 key false) v (on_change a false)
          call2 in
      let (taken, call4) = stamp time (Option.get_or call1.taken absent).value call1 in
      if found
      then (taken, c1, call4)
      else if res.succeeded
      then (res.existed, c2, call3)
      else (absent, c2, call3)

  unfoldable pub append : World D U → ℕ → XKey → Bytes → XTimed D × World D U
  append w a key append_str =
      let (res, w1) =
        on_container w a (change_in a key (append_item append_str) (XValue.string append_str))
          absent in
      (res.0, w1)

  unfoldable pub increment : World D U → ℕ → XKey → XValue D → XTimed D × World D U
  increment w a key increment_val =
      let (res, w1) =
        on_container w a (change_in a key (increment_item increment_val) increment_val) absent in
      (res.0, w1)

  -- The callback of CompareExchange: `value_other` is kept in `taken`. It asks the node's callbacks
  -- itself.
  unfoldable pub exchange_item : ℕ → XValue D → XValue D → OnEach (XTimed D) (Call D U)
  exchange_item a expected exchange_to key val call =
      let (to, call1) = stamp time exchange_to call in
      let (allowed, call2) = approve (on_change a false) key val to call1 in
      if not (Value.eq f val.value expected)
      then (OnEachRes.stop, val, record call { taken = some val })
      else if allowed
      then (OnEachRes.stop, record val { value = exchange_to }, call2)
      else (OnEachRes.stop, val, record call2 { taken = some val })

  -- The containers' part of CompareExchange: {success, the value, the key}.
  unfoldable pub exchange_in :
      ℕ
      → XKey
      → XValue D
      → XValue D
      → IContainer (XTimed D)
      → Call D U
      → (Bool × XTimed D × KeyType) × IContainer (XTimed D) × Call D U
  exchange_in a key expected exchange_to c call =
      let key_set = container_key (mapped f) c key true in
      let (found, c1, call1) =
        Any.for_each (mapped f) (erased_value time) c (some (exchange_item a expected exchange_to))
          (some key_set) none call in
      let (v, call2) = stamp time exchange_to call1 in
      let (ok, replaced, c2, call3) = Any.set (mapped f) c1 key_set v (on_change a false) call2 in
      let (exp1, call4) = stamp time expected call1 in
      let (exp3, call5) = stamp time expected call3 in
      elim call1.taken [
        | some other ↦ ((false, other, key_set), c1, call1)
        | none ↦
            if found
            then ((true, exp1, key_set), c1, call4)
            else if not (Value.is_empty expected)
            then ((false, absent, key_set), c1, call1)
            else ((true, exp3, key_set), c2, call5)
      ]

  unfoldable pub compare_exchange :
      World D U → ℕ → XKey → XValue D → XValue D → (Bool × XTimed D) × World D U
  compare_exchange w a key expected exchange_to =
      let ((res, _, _), w1) =
        on_container w a (exchange_in a key expected exchange_to) (false, absent, monostate) in
      let (ok, val, key_set) = res in
      let w2 : World D U = elim (query_ptr w exchange_to) [
        | none ↦ w1
        | some p ↦ (set_as_child f time depth w1 a p (Key.string_get (node_key key_set))).1
      ] in
      if ok then ((true, val), w2) else ((false, val), w1)
