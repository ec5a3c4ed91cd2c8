-- ===== src/Functions/Compare.antt =====
-- src/xnode/functions/compare.cpp: the comparison of two nodes, a patch, and the copy of a node's
-- items into another.
use xnode.Prelude.{
  ℕ, zero, suc, compare, Ordering, ◌+◌, ◌||◌, Bool, true, not, Option, none, some, List, [], ◌∷◌,
  ◌++◌, if◌then◌else◌,
}
use mathlib.Core.Option
use xnode.Prelude.Int.{ℤ, pos, negsuc, eqb_ℤ, ◌-ℤ◌}
use xnode.Bytes.{compare_bytes}
use xnode.Key.{XKey}
use xnode.Value
use xnode.Value.{XValue, ValueType, Double}
use xnode.Timed.{XTimed, empty_with_time}
use xnode.Node.{NodeType}
use xnode.Node.Heap.{World, query_ptr_c}
use xnode.Node.Bulk.{OnCopyRes, bulk_get_all}
use xnode.Functions.{type_at, same_type}

-- `<` and `>` of the variants of two keys.
abbrev pub key_order : XKey → XKey → Ordering
key_order XKey.empty XKey.empty = Ordering.eq
key_order XKey.empty _ = Ordering.lt
key_order (XKey.index i) XKey.empty = Ordering.gt
key_order (XKey.index i) (XKey.index j) = compare i j
key_order (XKey.index i) (XKey.string t) = Ordering.lt
key_order (XKey.string s) (XKey.string t) = compare_bytes s t
key_order (XKey.string s) _ = Ordering.gt

-- The callback of Compare: whether it stops at the difference.
abbrev pub OnDifferent : Type 0 → Type 0 → Type 0
OnDifferent D S = Option (ℕ → XKey → XTimed D → XTimed D → S → Bool × S)

-- What the comparison has come to: the result, the items of the right node that are left, and the
-- nodes to compare next.
pub record Compared (D S : Type 0) : Type 0 where
  pub compare_res : ℤ
  pub right : List (XKey × XTimed D)
  pub compare_nodes : List (ℕ × ℕ)
  pub state : S

abbrev pub type_code : Option NodeType → ℤ
type_code none = pos 0
type_code (some NodeType.map) = pos 1
type_code (some NodeType.array) = pos 2

module _ {S : Type 0} where
  -- The nodes that were found under the same keys; the first that differ give the result.
  unfoldable pub compare_all : (ℕ → ℕ → S → Option (ℤ × S)) → List (ℕ × ℕ) → S → Option (ℤ × S)
  compare_all again [] s = some (pos 0, s)
  compare_all again ((p, q) ∷ nodes) s = elim (again p q s) [
    | none ↦ none
    | some r ↦ if eqb_ℤ r.0 (pos 0) then compare_all again nodes r.1 else some r
  ]

module _ {D S : Type 0} where
  -- The result, where a difference stops the comparison; else the item on the right is passed.
  abbrev stop_or_next :
      ℤ → List (XKey × XTimed D) → Bool × S → Compared D S → OnCopyRes × Compared D S
  stop_or_next res rest answer c =
      let (stop, s) = answer in
      if stop
      then (OnCopyRes.stop, record c { compare_res = res; state = s })
      else (OnCopyRes.skip, record c { right = rest; state = s })

module _ {D S : Type 0} (time : ℕ → ℤ) (on_different : OnDifferent D S) where
  -- `!_pf_on_different || _pf_on_different(...)`. The state is the callback's and the number of the
  -- clock's readings.
  abbrev pub different : ℕ → XKey → XTimed D → XTimed D → S × ℕ → Bool × (S × ℕ)
  different node key left right s = elim on_different [
    | none ↦ (true, s)
    | some g ↦ let (stop, s') = g node key left right s.0 in (stop, (s', s.1))
  ]

  -- The same with `XValue()` on the right, which becomes an empty value with the current time.
  abbrev pub only_left : ℕ → XKey → XTimed D → S × ℕ → Bool × (S × ℕ)
  only_left node key left s = elim on_different [
    | none ↦ (true, s)
    | some g ↦
        let (stop, s') = g node key left (empty_with_time (time s.1)) s.0 in (stop, (s', s.1 + 1))
  ]

  abbrev pub only_right : ℕ → XKey → XTimed D → S × ℕ → Bool × (S × ℕ)
  only_right node key right s = elim on_different [
    | none ↦ (true, s)
    | some g ↦
        let (stop, s') = g node key (empty_with_time (time s.1)) right s.0 in (stop, (s', s.1 + 1))
  ]

module _ {D U S : Type 0} (f : Double D) (time : ℕ → ℤ) (on_different : OnDifferent D S) where
  -- Two values under one key.
  unfoldable pub compare_item :
      World D U
      → ℕ
      → Bool
      → XKey
      → XTimed D
      → XTimed D
      → List (XKey × XTimed D)
      → Compared D (S × ℕ)
      → OnCopyRes × Compared D (S × ℕ)
  compare_item w node unwrap key left right rest c =
      let res = Value.compare_values f left.value right.value in
      let differ =
        stop_or_next res rest (different time on_different node key left right c.state) c in
      let passed : OnCopyRes × Compared D (S × ℕ) = (OnCopyRes.skip, record c { right = rest }) in
      if Value.eq f left.value right.value || eqb_ℤ res (pos 0)
      then passed
      else if not unwrap
      then differ
      else elim (query_ptr_c w left.value) [
        | none ↦ differ
        | some p ↦ elim (query_ptr_c w right.value) [
          | none ↦ differ
          | some q ↦
              if same_type (Option.get_or (type_at w p) NodeType.map)
                (Option.get_or (type_at w q) NodeType.map)
              then (
                OnCopyRes.skip,
                record c { right = rest; compare_nodes = c.compare_nodes ++ (p, q) ∷ [] },
              )
              else differ
        ]
      ]

  -- The callback that walks over the items of the left node.
  unfoldable pub compare_step :
      World D U → ℕ → Bool → XKey → XTimed D → Compared D (S × ℕ) → OnCopyRes × Compared D (S × ℕ)
  compare_step w node unwrap key left c = elim c.right [
    | [] ↦ stop_or_next (pos 1) [] (only_left time on_different node key left c.state) c
    | (key_right, right) ∷ rest ↦ elim (key_order key key_right) [
      | Ordering.lt ↦
          stop_or_next (pos 1) ((key_right, right) ∷ rest)
            (only_left time on_different node key left c.state) c
      | Ordering.gt ↦
          stop_or_next (negsuc 0) rest (only_right time on_different node key_right right c.state) c
      | Ordering.eq ↦ compare_item w node unwrap key left right rest c
    ]
  ]

  -- The items whose values are not empty, which `operator bool` asks.
  unfoldable pub right_items : World D U → ℕ → List (XKey × XTimed D)
  right_items w node =
      (bulk_get_all f true w node
        (some
          λ key val s. (if Value.has_value val.value then OnCopyRes.take else OnCopyRes.skip, s))
        XKey.empty tt).1

  unfoldable pub compare_items : World D U → ℕ → ℕ → Bool → S × ℕ → Compared D (S × ℕ)
  compare_items w left right unwrap s =
      (bulk_get_all f true w left (some (compare_step w left unwrap)) XKey.empty record {
        compare_res = pos 0;
        right = right_items w right;
        compare_nodes = [];
        state = s;
      }).0

  -- Compare of two nodes that are there.
  unfoldable pub compare_nodes : ℕ → World D U → Bool → ℕ → ℕ → S × ℕ → Option (ℤ × (S × ℕ))
  compare_nodes zero w unwrap left right s = none
  compare_nodes (suc rounds) w unwrap left right s =
      let c = compare_items w left right unwrap s in
      let later = compare_all (compare_nodes rounds w true) c.compare_nodes c.state in
      let left_type = type_code (type_at w left) in
      let right_type = type_code (type_at w right) in
      if not (eqb_ℤ left_type right_type)
      then some (left_type -ℤ right_type, s)
      else if not (eqb_ℤ c.compare_res (pos 0))
      then some (c.compare_res, c.state)
      else elim c.right [ [] ↦ later | item ∷ rest ↦ some (negsuc 0, c.state) ]
