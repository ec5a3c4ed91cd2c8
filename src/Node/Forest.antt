-- ===== src/Node/Forest.antt =====
-- The parents of the nodes (src/xnode/impl/xnode_impl.cpp): what is above a node, and what
-- IsValidParent_ and PrivateParentSet have to do with it.
use xnode.Prelude.{
  ℕ, zero, suc, ◌-◌, ◌≡◌, ◌≢◌, sym, ◌∙◌, subst, true, false, Option, none, some, ◌==◌, is_some,
  arith, ==_iff, ◌⊎◌, inl, inr,
}
use xnode.Bytes.{Bytes}
use xnode.Node.Heap.{World, write, node_of}
use xnode.Node.Parents.{parent_of, parent_get, is_free_of, is_valid_parent, private_parent_set}

module _ {D U : Type 0} where
  -- The second node is the parent of the first, or above its parent.
  pub data Above (w : World D U) : ℕ → ℕ → Type 0 where
    parent : {x y : ℕ} → parent_of w x ≡ some y → Above w x y
    beyond : {x y z : ℕ} → parent_of w x ≡ some y → Above w y z → Above w x z

  -- No node is above itself.
  abbrev pub IsForest : World D U → Type 0
  IsForest w = (x : ℕ) → ¬ Above w x x

  -- Every parent of the second store is one of the first.
  abbrev pub FewerParents : World D U → World D U → Type 0
  FewerParents w w' = (x y : ℕ) → parent_of w' x ≡ some y → parent_of w x ≡ some y

  Above-FewerParents :
      {w w' : World D U} → FewerParents w w' → {x y : ℕ} → Above w' x y → Above w x y
  Above-FewerParents fewer (parent e) = parent (fewer _ _ e)
  Above-FewerParents fewer (beyond e up) = beyond (fewer _ _ e) (Above-FewerParents fewer up)

  pub FewerParents-IsForest : {w w' : World D U} → FewerParents w w' → IsForest w → IsForest w'
  FewerParents-IsForest fewer forest x up = forest x (Above-FewerParents fewer up)

  pub same_parents-IsForest :
      {w w' : World D U} → ((x : ℕ) → parent_of w' x ≡ parent_of w x) → IsForest w → IsForest w'
  same_parents-IsForest same = FewerParents-IsForest (λ x y e. sym (same x) ∙ e)

  parent_of-there : (w : World D U) (x y : ℕ) → parent_of w x ≡ some y → is_some (w.nodes x) ≡ true
  unfolding parent_of
  parent_of-there w x y e = ground arith

  Above-there : {w : World D U} {x y : ℕ} → Above w x y → is_some (w.nodes x) ≡ true
  Above-there {w} (parent e) = parent_of-there w _ _ e
  Above-there {w} (beyond e up) = parent_of-there w _ _ e

  parent_get-there :
      (w : World D U) (x y : ℕ)
      → parent_of w x ≡ some y
      → is_some (w.nodes y) ≡ true
      → parent_get w x ≡ some y
  unfolding parent_get node_of
  parent_get-there w x y e there = ground arith

  -- One round of the loop, where the parent is there.
  is_free_of-step :
      (fuel : ℕ) (w : World D U) (this : ℕ) (start : Option ℕ) (p q : ℕ)
      → parent_get w p ≡ some q
      → is_free_of fuel w this start (some p) ≡ true
      → ((p == this) ≡ false) × (is_free_of (fuel - 1) w this start (some q) ≡ true)
  unfolding is_free_of
  is_free_of-step zero w this start p q e h = cc
  is_free_of-step (suc fuel) w this start p q e h = ground arith

  is_free_of_self :
      (fuel : ℕ) (w : World D U) (this : ℕ) (start : Option ℕ)
      → is_free_of fuel w this start (some this) ≡ true
      → ⊥
  unfolding is_free_of
  is_free_of_self zero w this start h = cc
  is_free_of_self (suc fuel) w this start h = ground (arith, ==_iff this this)

  not-Above :
      (w : World D U) (start : Option ℕ) (fuel : ℕ) {x this : ℕ}
      → Above w x this
      → is_some (w.nodes this) ≡ true
      → is_free_of fuel w this start (some x) ≡ true
      → ⊥
  not-Above w start fuel {x} {this} (parent e) there h =
      is_free_of_self (fuel - 1) w this start
        (is_free_of-step fuel w this start x this (parent_get-there w x this e there) h).1
  not-Above w start fuel {x} {this} (beyond {y = y} e up) there h =
      not-Above w start (fuel - 1) up there
        (is_free_of-step fuel w this start x y (parent_get-there w x y e (Above-there up)) h).1

  -- A loop that answers `true` has met every node from its start on, and not the one it looks for.
  pub is_free_of_sound :
      (fuel : ℕ) (w : World D U) (this : ℕ) (start : Option ℕ) (p : ℕ)
      → is_some (w.nodes this) ≡ true
      → is_free_of fuel w this start (some p) ≡ true
      → (p ≢ this) × (¬ Above w p this)
  is_free_of_sound fuel w this start p there h = (
    (λ e.
        is_free_of_self fuel w this start
          (subst (λ q. is_free_of fuel w this start (some q) ≡ true) e h)),
    λ up. not-Above w start fuel up there h,
  )

  abbrev From : World D U → ℕ → ℕ → Type 0
  From w x y = (x ≡ y) ⊎ Above w x y

  beyond-From : {w : World D U} {x y z : ℕ} → parent_of w x ≡ some y → From w y z → Above w x z
  beyond-From {w} {x} e (inl same) = parent (subst (λ t. parent_of w x ≡ some t) same e)
  beyond-From e (inr up) = beyond e up

  Above-trans : {w : World D U} {x y z : ℕ} → Above w x y → From w y z → Above w x z
  Above-trans (parent e) r = beyond-From e r
  Above-trans (beyond e up) r = beyond e (Above-trans up r)

  From-trans : {w : World D U} {x y z : ℕ} → From w x y → From w y z → From w x z
  From-trans {w} {z = z} (inl e) r = subst (λ t. From w t z) (sym e) r
  From-trans (inr up) r = inr (Above-trans up r)

  -- The links of a store in which `a` has been given the parent p, and no other link is new.
  abbrev NewParent : World D U → World D U → ℕ → ℕ → Type 0
  NewParent w w' a p =
      (x y : ℕ) → parent_of w' x ≡ some y → (parent_of w x ≡ some y) ⊎ ((x ≡ a) × (y ≡ p))

  Above-NewParent :
      (w w' : World D U) (a p : ℕ)
      → NewParent w w' a p
      → {x y : ℕ} → Above w' x y
      → Above w x y ⊎ (From w x a × From w p y)
  Above-NewParent w w' a p new (parent {x = x} {y = y} e) = elim (new x y e) [
    | inl old ↦ inl (parent old)
    | inr (is_a, is_p) ↦ inr (inl is_a, inl (sym is_p))
  ]
  Above-NewParent w w' a p new (beyond {x = x} {y = y} {z = z} e up) = elim (new x y e) [
    | inl old ↦ elim (Above-NewParent w w' a p new up) [
      | inl above ↦ inl (beyond old above)
      | inr (to_a, from_p) ↦ inr (inr (beyond-From old to_a), from_p)
    ]
    | inr (is_a, is_p) ↦ elim (Above-NewParent w w' a p new up) [
      | inl above ↦ inr (inl is_a, inr (subst (λ t. Above w t z) is_p above))
      | inr (to_a, from_p) ↦ inr (inl is_a, from_p)
    ]
  ]

  NewParent-IsForest :
      (w w' : World D U) (a p : ℕ)
      → NewParent w w' a p
      → (p ≢ a) × (¬ Above w p a)
      → IsForest w
      → IsForest w'
  NewParent-IsForest w w' a p new (other, free) forest x up =
      elim (Above-NewParent w w' a p new up) [
        | inl above ↦ forest x above
        | inr (to_a, from_p) ↦ elim (From-trans from_p to_a) [
          | inl same ↦ other same
          | inr above ↦ free above
        ]
      ]

  -- What PrivateParentSet does to the parents: nothing, or its own node gets the new parent.
  private_parent_set-parents :
      (depth : ℕ) (w : World D U) (a : ℕ) (p : Option ℕ) (name : Option Bytes) (x : ℕ)
      → let w' = (private_parent_set depth w a p name).1 in
        (parent_of w' x ≡ parent_of w x)
        ⊎ ((x ≡ a)
            × (parent_of w' x ≡ p)
            × (is_valid_parent depth w a p ≡ true)
            × (is_some (w.nodes a) ≡ true))
  unfolding private_parent_set parent_of write
  private_parent_set-parents depth w a p name x = ground (arith, ==_iff x a)

  pub valid_loop :
      (depth : ℕ) (w : World D U) (a p : ℕ)
      → is_valid_parent depth w a (some p) ≡ true
      → is_free_of depth w a (some p) (some p) ≡ true
  unfolding is_valid_parent
  valid_loop depth w a p h = h

  pub private_parent_set-IsForest :
      (depth : ℕ) (w : World D U) (a : ℕ) (p : Option ℕ) (name : Option Bytes)
      → IsForest w
      → IsForest (private_parent_set depth w a p name).1
  private_parent_set-IsForest depth w a none name forest =
      FewerParents-IsForest
        (λ x y e. elim (private_parent_set-parents depth w a none name x) [
          | inl same ↦ sym same ∙ e
          | inr (_, nothing, _, _) ↦ cc
        ])
        forest
  private_parent_set-IsForest depth w a (some p) name forest =
      let w' = (private_parent_set depth w a (some p) name).1 in
      let parents = private_parent_set-parents depth w a (some p) name in
      elim (parents a) [
        | inl same ↦
            same_parents-IsForest
              (λ x. elim (parents x) [ inl e ↦ e | inr (is_a, _, _, _) ↦ rw is_a same ]) forest
        | inr (_, _, valid, there) ↦
            NewParent-IsForest w w' a p
              (λ x y e. elim (parents x) [
                | inl same ↦ inl (sym same ∙ e)
                | inr (is_a, is_p, _, _) ↦ inr (is_a, ground (arith, is_p, e))
              ])
              (is_free_of_sound depth w a (some p) p there (valid_loop depth w a p valid)) forest
      ]
