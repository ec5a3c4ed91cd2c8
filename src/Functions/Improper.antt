-- ===== src/Functions/Improper.antt =====
-- src/xnode/functions/improper.cpp: the children whose parent is another node, and ParentsFix, which
-- is meant to give them their parent.
use xnode.Prelude.{
  ℕ, zero, suc, ◌≡◌, refl, Bool, true, false, not, Option, none, some, List, [], ◌∷◌, if◌then◌else◌,
  arith, ==_iff, Option-cases, inl, inr,
}
use xnode.Prelude.Int.{ℤ, pos, negsuc}
use xnode.Key.{XKey}
use xnode.Value
use xnode.Value.{XValue, Double}
use xnode.Timed.{XTimed}
use xnode.Node.Heap.{World, query_ptr, query_ptr_c}
use xnode.Node.Parents.{parent_get, same_pointer, private_parent_set, is_valid_parent, is_free_of}
use xnode.Node.Items.{parent_set}
use xnode.Functions.Paths.{nodes_of, nodes_const_list}

module _ {D : Type 0} (f : Double D) where
  abbrev is_less : XValue D → XValue D → Bool
  is_less a b = elim (Value.compare_values f a b) [ pos n ↦ false | negsuc n ↦ true ]

  -- `std::map<XValueRT, XValueRT>`, in the order of its keys: `count` and `emplace`.
  unfoldable pub has_key : XTimed D → List (XTimed D × XTimed D) → Bool
  has_key key [] = false
  has_key key ((k, v) ∷ entries) =
      let later = has_key key entries in
      if is_less k.value key.value then later else not (is_less key.value k.value)

  unfoldable pub emplace :
      XTimed D → XTimed D → List (XTimed D × XTimed D) → List (XTimed D × XTimed D)
  emplace key val [] = (key, val) ∷ []
  emplace key val ((k, v) ∷ entries) =
      let later = emplace key val entries in
      if is_less k.value key.value
      then (k, v) ∷ later
      else if is_less key.value k.value
      then (key, val) ∷ (k, v) ∷ entries
      else (k, v) ∷ entries

  module _ {U : Type 0} where
    unfoldable pub children_of : World D U → XTimed D → Bool → List (XKey × XTimed D)
    children_of w root include_const = elim (query_ptr w root.value) [
      | some p ↦ nodes_of f w include_const p
      | none ↦ nodes_const_list f w (query_ptr_c w root.value) []
    ]

    -- The loop over the children; `again` is ParentsCheck of a child.
    unfoldable pub check_each :
        World D U
        → XTimed D
        → (XTimed D → List (XTimed D × XTimed D) → Option (List (XTimed D × XTimed D)))
        → List (XKey × XTimed D)
        → List (XTimed D × XTimed D)
        → Option (List (XTimed D × XTimed D))
    check_each w root again [] improper = some improper
    check_each w root again ((key, val) ∷ children) improper =
        let child = query_ptr_c w val.value in
        let parent : Option ℕ = elim child [ none ↦ none | some p ↦ parent_get w p ] in
        let noted : List (XTimed D × XTimed D) =
          if same_pointer parent (query_ptr_c w root.value)
          then improper
          else emplace val root improper in
        let rest : Option (List (XTimed D × XTimed D)) = elim (again val noted) [
          | none ↦ none
          | some found ↦ check_each w root again children found
        ] in
        let skipped = check_each w root again children improper in
        if has_key val improper then skipped else rest

    -- ParentsCheck; none where the rounds are used up.
    unfoldable pub parents_check :
        ℕ
        → World D U
        → Bool
        → XTimed D
        → List (XTimed D × XTimed D)
        → Option (List (XTimed D × XTimed D))
    parents_check zero w include_const root improper = none
    parents_check (suc rounds) w include_const root improper =
        let again = parents_check rounds w include_const in
        elim (query_ptr_c w root.value) [
          | none ↦ some improper
          | some node ↦ check_each w root again (children_of w root include_const) improper
        ]

module _ {D U : Type 0} (f : Double D) (time : ℕ → ℤ) (depth : ℕ) where
  -- One entry of ParentsFix: `node_child` is the parent, too.
  unfoldable pub fix_entry : XTimed D → XTimed D → World D U → World D U
  fix_entry child parent w = elim (query_ptr w parent.value) [
    | none ↦ w
    | some node_parent ↦ elim (query_ptr w parent.value) [
      | none ↦ w
      | some node_child ↦ (parent_set f time depth w node_child (some node_parent) none).1
    ]
  ]

  -- ParentsFix
  unfoldable pub parents_fix :
      World D U
      → List (XTimed D × XTimed D)
      → List (XTimed D × XTimed D)
      → List (XTimed D × XTimed D) × World D U
  parents_fix w [] fixed = (fixed, w)
  parents_fix w ((child, parent) ∷ entries) fixed =
      parents_fix (fix_entry child parent w) entries (emplace f child parent fixed)

  is_free_of_self :
      (fuel : ℕ) (w : World D U) (this : ℕ) (start : Option ℕ)
      → is_free_of fuel w this start (some this) ≡ false
  unfolding is_free_of
  is_free_of_self zero w this start = refl
  is_free_of_self (suc fuel) w this start = ground (arith, ==_iff this this)

  is_valid_parent_self : (w : World D U) (p : ℕ) → is_valid_parent depth w p (some p) ≡ false
  unfolding is_valid_parent
  is_valid_parent_self w p = is_free_of_self depth w p (some p)

  own_parent : (w : World D U) (p : ℕ) → (private_parent_set depth w p (some p) none).0.0 ≡ false
  unfolding private_parent_set
  own_parent w p = ground (arith, is_valid_parent_self w p)

  own_parent-world : (w : World D U) (p : ℕ) → (private_parent_set depth w p (some p) none).1 ≡ w
  unfolding private_parent_set
  own_parent-world w p = ground (arith, is_valid_parent_self w p)

  own_parent_set : (w : World D U) (p : ℕ) → (parent_set f time depth w p (some p) none).1 ≡ w
  unfolding parent_set
  own_parent_set w p = rw (own_parent w p) (own_parent-world w p)

  fix_entry-same : (child parent : XTimed D) (w : World D U) → fix_entry child parent w ≡ w
  unfolding fix_entry
  fix_entry-same child parent w = elim (Option-cases (query_ptr w parent.value)) [
    | inl e ↦ rw (e, fix_entry) refl
    | inr (p, e) ↦ rw (e, fix_entry, e) (own_parent_set w p)
  ]

  -- ParentsFix changes no node, whatever it is given.
  pub parents_fix-same :
      (w : World D U) (entries fixed : List (XTimed D × XTimed D))
      → (parents_fix w entries fixed).1 ≡ w
  unfolding parents_fix
  parents_fix-same w [] fixed = refl
  parents_fix-same w ((child, parent) ∷ entries) fixed =
      rw (fix_entry-same child parent w, parents_fix)
        (parents_fix-same w entries (emplace f child parent fixed))
