-- ===== src/Functions/Same.antt =====
-- Compare of src/xnode/functions/compare.cpp, of a node and itself.
use xnode.Prelude.{
  ℕ, suc, ◌≡◌, refl, ap, ◌∙◌, Bool, true, false, Option, some, List, [], ◌∷◌, All, Ordering,
  if◌then◌else◌, map, arith,
}
use xnode.Prelude.Int.{ℤ, pos, eqb_ℤ}
use xnode.Bytes.{compare_bytes_self}
use xnode.Key.{XKey}
use xnode.Value
use xnode.Value.{XValue, Double}
use xnode.Timed.{XTimed, mapped}
use xnode.Container.{KeyType}
use xnode.Node.Heap.{World, XNode}
use xnode.Node.Match.{node_key}
use xnode.Node.Items
use xnode.Node.Bulk.{OnCopyRes}
use xnode.Node.View.{shown, collect, bulk_get_all-shown}
use xnode.Functions.{type_at}
use xnode.Functions.Compare
use xnode.Functions.Compare.{
  Compared, OnDifferent, key_order, compare_step, compare_items, compare_nodes, right_items,
}

module _ {D : Type 0} (f : Double D) where
  -- A value that is there and equal to itself, as a floating-point number may not be.
  unfoldable pub is_plain : XValue D → Bool
  is_plain XValue.empty = false
  is_plain (XValue.double d) = f.eq d d
  is_plain _ = true

  eq-is_plain : (v : XValue D) → is_plain v ≡ true → Value.eq f v v ≡ true
  unfolding is_plain Value.eq
  eq-is_plain XValue.empty h = refl
  eq-is_plain XValue.null h = refl
  eq-is_plain (XValue.bool true) h = refl
  eq-is_plain (XValue.bool false) h = refl
  eq-is_plain (XValue.int64 i) h = ground (arith, h)
  eq-is_plain (XValue.uint64 i) h = ground (arith, h)
  eq-is_plain (XValue.double d) h = ground (arith, h)
  eq-is_plain (XValue.string s) h = ground (arith, compare_bytes_self (Value.c_str s))
  eq-is_plain (XValue.const_object p) h = ground (arith, h)
  eq-is_plain (XValue.object p) h = ground (arith, h)

  has_value-is_plain : (v : XValue D) → is_plain v ≡ true → Value.has_value v ≡ true
  unfolding is_plain Value.has_value
  has_value-is_plain XValue.empty h = h
  has_value-is_plain _ h = refl

  const-is_plain :
      (v : XTimed D) → is_plain v.value ≡ true → is_plain (Items.make_const v).value ≡ true
  unfolding is_plain Items.make_const
  const-is_plain v h = go v.value h
    where
      go :
          (x : XValue D)
          → is_plain x ≡ true
          → is_plain (Items.make_const (record v { value = x })).value ≡ true
      go (XValue.object p) h = refl
      go x h = h

  abbrev pub IsPlain : KeyType × XTimed D → Type 0
  IsPlain e = is_plain e.1.value ≡ true

  -- What the walk over the left node, and that over the right one, show.
  abbrev item : KeyType × XTimed D → XKey × XTimed D
  item e = (node_key e.0, Items.make_const e.1)

  abbrev items : List (KeyType × XTimed D) → List (XKey × XTimed D)
  items l = map item l

key_order_self : (k : XKey) → key_order k k ≡ Ordering.eq
key_order_self XKey.empty = refl
key_order_self (XKey.index i) = ground arith
key_order_self (XKey.string s) = compare_bytes_self s

eqb_ℤ_self : (i : ℤ) → eqb_ℤ i i ≡ true
eqb_ℤ_self i = ground arith

module _ {D U S : Type 0} (f : Double D) (time : ℕ → ℤ) (on_different : OnDifferent D S)
    (w : World D U) where
  -- The step at an item that is the next of the right node, too, passes it.
  compare_step-same :
      (node : ℕ) (unwrap : Bool) (key : XKey) (val : XTimed D) (rest : List (XKey × XTimed D))
      (c : Compared D (S × ℕ))
      → is_plain f val.value ≡ true
      → compare_step f time on_different w node unwrap key val
          (record c { right = (key, val) ∷ rest })
        ≡ (OnCopyRes.skip, record c { right = rest })
  unfolding compare_step Compare.compare_item
  compare_step-same node unwrap key val rest c h =
      rw (compare_step, key_order_self key, Compare.compare_item, eq-is_plain f val.value h) refl

  collect-same :
      (node : ℕ) (unwrap : Bool) (l : List (KeyType × XTimed D)) (c : Compared D (S × ℕ))
      → All (IsPlain f) l
      → (collect true
          (some (compare_step f time on_different w node unwrap))
          l
          (record c { right = items f l })).0
        ≡ record c { right = [] }
  unfolding collect
  collect-same node unwrap [] c h = refl
  collect-same node unwrap ((k, v) ∷ l) c h =
      let step =
        compare_step-same node unwrap (node_key k) (Items.make_const v) (items f l) c
          (const-is_plain f v h.0) in
      rw step (collect-same node unwrap l c h.1)

  collect-plain :
      (l : List (KeyType × XTimed D))
      → All (IsPlain f) l
      → (collect true
          (some λ key val (s : Unit {0}).
            (if Value.has_value val.value then OnCopyRes.take else OnCopyRes.skip, s))
          l
          tt).1
        ≡ items f l
  unfolding collect
  collect-plain [] h = refl
  collect-plain ((k, v) ∷ l) h =
      rw (has_value-is_plain f (Items.make_const v).value (const-is_plain f v h.0))
        (ap (λ t. item f (k, v) ∷ t) (collect-plain l h.1))

  right_items-same :
      (a : ℕ) (n : XNode D U)
      → w.nodes a ≡ some n
      → All (IsPlain f) (shown (mapped f) n.container)
      → right_items f time on_different w a ≡ items f (shown (mapped f) n.container)
  unfolding right_items
  right_items-same a n e h =
      ap (λ r. r.1) (bulk_get_all-shown f true w a n _ tt e)
      ∙ collect-plain (shown (mapped f) n.container) h

  compare_items-same :
      (a : ℕ) (n : XNode D U) (unwrap : Bool) (s : S × ℕ)
      → w.nodes a ≡ some n
      → All (IsPlain f) (shown (mapped f) n.container)
      → compare_items f time on_different w a a unwrap s
        ≡ record { compare_res = pos 0; right = []; compare_nodes = []; state = s }
  unfolding compare_items
  compare_items-same a n unwrap s e h =
      rw (compare_items, right_items-same a n e h)
        (ap (λ r. r.0) (bulk_get_all-shown f true w a n _ _ e)
          ∙ collect-same a unwrap (shown (mapped f) n.container)
              (record { compare_res = pos 0; right = []; compare_nodes = []; state = s }) h)

  -- Compare of a node with itself is 0 at once, whatever the nodes in it hold, and calls the callback
  -- for no item and reads no clock, where the node shows no empty value and no floating-point number that is not equal to
  -- itself.
  pub compare_nodes-same :
      (rounds a : ℕ) (n : XNode D U) (unwrap : Bool) (s : S × ℕ)
      → w.nodes a ≡ some n
      → All (IsPlain f) (shown (mapped f) n.container)
      → compare_nodes f time on_different (suc rounds) w unwrap a a s ≡ some (pos 0, s)
  unfolding compare_nodes Compare.compare_all
  compare_nodes-same rounds a n unwrap s e h =
      let same = compare_items-same a n unwrap s e h in
      let again : ℕ → ℕ → S × ℕ → Option (ℤ × (S × ℕ)) =
        compare_nodes f time on_different rounds w true in
      rw (compare_nodes, same, eqb_ℤ_self (Compare.type_code (type_at w a)))
        (ap (λ c. Compare.compare_all again c.compare_nodes c.state) same)
