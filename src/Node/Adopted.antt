-- ===== src/Node/Adopted.antt =====
-- What SetAsChild_ and Set of XNode (src/xnode/impl/xnode_impl.cpp) leave in a child.
use xnode.Prelude.{
  ℕ, zero, suc, ◌≡◌, refl, sym, ap, ◌∙◌, subst, Bool, true, false, not, Option, none, some, [], ◌∷◌,
  is_some, arith, ==_iff, Option-cases, ◌⊎◌, inl, inr, if_intro,
}
use xnode.Prelude.Int.{ℤ}
use xnode.Bytes.{Bytes}
use xnode.Key
use xnode.Key.{XKey}
use xnode.Value.{XValue, Double, object_ptr, object_ptr_c}
use xnode.Timed.{XTimed, mapped, absent}
use xnode.Container.{KeyType, monostate}
use xnode.Container.Any.{IContainer, container_type}
use xnode.Node.Heap.{World, Call, write, node_of, query_ptr, query_ptr_c, on_container}
use xnode.Node.Match.{node_key, container_key, map_key, plain_key}
use xnode.Node.Parents.{
  parent_of, parent_get, is_free_of, is_valid_parent, is_valid_child, private_parent_set,
  private_erase, set_as_child,
}
use xnode.Node.Items
use xnode.Node.Items.{set_in, adopt_all}

module _ {D U : Type 0} where
  -- The nodes of the second store have their parents in the first, or none.
  abbrev Loosened : World D U → World D U → Type 0
  Loosened w w' =
      ((x : ℕ) → (parent_get w' x ≡ parent_get w x) ⊎ (parent_get w' x ≡ none))
      × ((x : ℕ) → is_some (w'.nodes x) ≡ is_some (w.nodes x))

  is_free_of-none :
      (fuel : ℕ) (w : World D U) (this : ℕ) (start : Option ℕ)
      → is_free_of fuel w this start none ≡ true
  unfolding is_free_of
  is_free_of-none zero w this start = refl
  is_free_of-none (suc fuel) w this start = refl

  is_free_of-Loosened :
      (fuel : ℕ) (w w' : World D U) (this s : ℕ) (p : Option ℕ)
      → Loosened w w'
      → is_free_of fuel w this (some s) p ≡ true
      → is_free_of fuel w' this (some s) p ≡ true
  unfolding is_free_of
  is_free_of-Loosened zero w w' this s none loose h = refl
  is_free_of-Loosened zero w w' this s (some p) loose h = h
  is_free_of-Loosened (suc fuel) w w' this s none loose h = refl
  is_free_of-Loosened (suc fuel) w w' this s (some p) loose h = elim (loose.0 p) [
    | inl same ↦ ground (arith, same, is_free_of-Loosened fuel w w' this s (parent_get w p) loose)
    | inr gone ↦ ground (arith, gone, is_free_of-none fuel w' this (some s))
  ]

  -- The new parent and the name, where PrivateParentSet succeeds or the parent is the same already.
  private_parent_set-parent :
      (depth : ℕ) (w : World D U) (child this : ℕ) (b : ℕ) (s : Bytes)
      → is_some (w.nodes child) ≡ true
      → is_valid_parent depth w child (some this) ≡ true
      → parent_of (private_parent_set depth w child (some this) (some (b ∷ s))).1 child ≡ some this
  unfolding private_parent_set parent_of parent_get node_of write
  private_parent_set-parent depth w child this b s there valid = ground (arith, ==_iff child child)

  on_container-parent_of :
      {R : Type 0} (w : World D U) (a : ℕ)
      (f : IContainer (XTimed D) → Call D U → R × IContainer (XTimed D) × Call D U) (fallback : R)
      (x : ℕ)
      → (parent_of (on_container w a f fallback).1 x ≡ parent_of w x)
        × (is_some ((on_container w a f fallback).1.nodes x) ≡ is_some (w.nodes x))
  unfolding on_container parent_of write
  on_container-parent_of w a f fallback x = ground (arith, ==_iff x a)

  Loosened-trans : (w1 w2 w3 : World D U) → Loosened w1 w2 → Loosened w2 w3 → Loosened w1 w3
  Loosened-trans w1 w2 w3 (up, there) (up', there') = (
    (λ x. elim (up' x) [
      | inl same ↦ elim (up x) [ inl e ↦ inl (same ∙ e) | inr e ↦ inr (same ∙ e) ]
      | inr gone ↦ inr gone
    ]),
    λ x. there' x ∙ there x,
  )

  same-Loosened :
      (w w' : World D U)
      → ((x : ℕ) → (parent_of w' x ≡ parent_of w x) × (is_some (w'.nodes x) ≡ is_some (w.nodes x)))
      → Loosened w w'
  same-Loosened w w' h = ((λ x. inl (same_get w w' x h)), λ x. (h x).1)
    where
      same_get :
          (w w' : World D U) (x : ℕ)
          → ((x : ℕ)
              → (parent_of w' x ≡ parent_of w x) × (is_some (w'.nodes x) ≡ is_some (w.nodes x)))
          → parent_get w' x ≡ parent_get w x
      same_get w w' x h =
          unfold parent_get node_of in
          elim (Option-cases (parent_of w x)) [
            | inl e ↦ rw ((h x).0, e) refl
            | inr (y, e) ↦ rw ((h x).0, e, (h y).1) refl
          ]

  orphan-parent_of :
      (depth : ℕ) (w : World D U) (p x : ℕ)
      → ((parent_of (private_parent_set depth w p none none).1 x ≡ parent_of w x)
          ⊎ (parent_of (private_parent_set depth w p none none).1 x ≡ none))
        × (is_some ((private_parent_set depth w p none none).1.nodes x) ≡ is_some (w.nodes x))
  unfolding private_parent_set parent_of write
  orphan-parent_of depth w p x = ground (arith, ==_iff x p)

  orphan-Loosened :
      (depth : ℕ) (w : World D U) (p : ℕ) → Loosened w (private_parent_set depth w p none none).1
  orphan-Loosened depth w p =
      ((λ x. get depth w p x (orphan-parent_of depth w p x)), λ x. (orphan-parent_of depth w p x).1)
    where
      get :
          (depth : ℕ) (w : World D U) (p x : ℕ)
          → let w' = (private_parent_set depth w p none none).1 in
            ((parent_of w' x ≡ parent_of w x) ⊎ (parent_of w' x ≡ none))
              × (is_some (w'.nodes x) ≡ is_some (w.nodes x))
            → (parent_get w' x ≡ parent_get w x) ⊎ (parent_get w' x ≡ none)
      get depth w p x h =
          unfold parent_get node_of in
          elim h.0 [
            | inl e ↦ elim (Option-cases (parent_of w x)) [
              | inl n ↦ inr (rw (e, n) refl)
              | inr (y, s) ↦ inl (rw (e, s, (orphan-parent_of depth w p y).1) refl)
            ]
            | inr e ↦ inr (rw e refl)
          ]

pub not-not : {b : Bool} → not b ≡ false → b ≡ true
not-not {b = true} e = refl
not-not {b = false} e = cc

module _ {D : Type 0} (f : Double D) where
  string_key :
      (c : IContainer (XTimed D)) (b : ℕ) (s : Bytes)
      → Key.string_get (node_key (container_key (mapped f) c (XKey.string (b ∷ s)) true))
        ≡ some (b ∷ s)
  unfolding container_key map_key plain_key node_key Key.string_get container_type
  string_key (IContainer.plain c) b s = refl
  string_key (IContainer.with_erase c) b s = refl
  string_key (IContainer.array c) b s = refl

module _ {D U : Type 0} (f : Double D) (time : ℕ → ℤ) (depth : ℕ) where
  private_erase-parent_of :
      (w : World D U) (a child x : ℕ)
      → parent_of (private_erase f time w a child).1 x ≡ parent_of w x
  unfolding private_erase
  private_erase-parent_of w a child x = (on_container-parent_of w a _ _ x).0

  erased-parent_of :
      (w : World D U) (p : Option ℕ) (child x : ℕ)
      → parent_of (elim p [ none ↦ w | some q ↦ (private_erase f time w q child).1 ]) x
        ≡ parent_of w x
  erased-parent_of w none child x = refl
  erased-parent_of w (some q) child x = private_erase-parent_of w q child x

  -- SetAsChild_ of a node that may be a child: this is its parent then.
  set_as_child-parent :
      (w : World D U) (this child b : ℕ) (s : Bytes)
      → is_some (w.nodes child) ≡ true
      → is_valid_parent depth w child (some this) ≡ true
      → parent_of (set_as_child f time depth w this child (some (b ∷ s))).1 child ≡ some this
  unfolding set_as_child
  set_as_child-parent w this child b s there valid =
      let done = private_parent_set depth w child (some this) (some (b ∷ s)) in
      let set = private_parent_set-parent depth w child this b s there valid in
      if_intro (λ (r : Bool × World D U). parent_of r.1 child ≡ some this) done.0.0
        (λ e. erased-parent_of done.1 done.0.1 child child ∙ set) (λ e. set)

  pub child_valid :
      (w : World D U) (a p : ℕ)
      → is_some (w.nodes p) ≡ true
      → is_valid_child depth w a (XValue.object p)
        ≡ (is_free_of depth w p (some a) (some a), some p)
  unfolding is_valid_child query_ptr query_ptr_c node_of object_ptr object_ptr_c
  child_valid w a p there = ground arith

  -- The key under which Set has put its value.
  set_in-key :
      (w : World D U) (a b : ℕ) (s : Bytes) (val : XValue D) (child : Option ℕ)
      → let step = set_in {U = U} f time depth a (XKey.string (b ∷ s)) val child in
        let done = on_container w a step (false, absent, monostate) in
        done.0.0.0 ≡ true → Key.string_get (node_key done.0.0.2) ≡ some (b ∷ s)
  unfolding on_container set_in
  set_in-key w a b s val child h = elim (Option-cases (w.nodes a)) [
    | inl e ↦ ground (arith, e)
    | inr (n, e) ↦ rw (e, on_container, set_in) (string_key f n.container b s)
  ]

  on_container-Loosened :
      {R : Type 0} (w : World D U) (a : ℕ)
      (g : IContainer (XTimed D) → Call D U → R × IContainer (XTimed D) × Call D U) (fallback : R)
      → Loosened w (on_container w a g fallback).1
  on_container-Loosened w a g fallback = same-Loosened w _ (on_container-parent_of w a g fallback)

  orphaned-Loosened :
      (w : World D U) (p : Option ℕ)
      → Loosened w (elim p [ none ↦ w | some q ↦ (private_parent_set depth w q none none).1 ])
  orphaned-Loosened w none = ((λ x. inl refl), λ x. refl)
  orphaned-Loosened w (some q) = orphan-Loosened depth w q

  adopt_all-one :
      (w : World D U) (a p b : ℕ) (s : Bytes) (key : KeyType)
      → Key.string_get (node_key key) ≡ some (b ∷ s)
      → is_some (w.nodes p) ≡ true
      → is_valid_parent depth w p (some a) ≡ true
      → parent_of (adopt_all f time depth a ((p, key) ∷ []) w) p ≡ some a
  unfolding adopt_all
  adopt_all-one w a p b s key e there valid =
      rw (e, adopt_all) (set_as_child-parent w a p b s there valid)

  still_valid :
      (w w' : World D U) (a p : ℕ)
      → Loosened w w'
      → is_free_of depth w p (some a) (some a) ≡ true
      → is_valid_parent depth w' p (some a) ≡ true
  unfolding is_valid_parent
  still_valid w w' a p loose free = is_free_of-Loosened depth w w' p a (some a) loose free

  -- Where Set of a node that is there, under a name that is not empty, succeeds, the node that it is
  -- called on is the child's parent then.
  pub set-parent :
      (w : World D U) (a p b : ℕ) (s : Bytes)
      → is_some (w.nodes p) ≡ true
      → (Items.set f time depth w a (XKey.string (b ∷ s)) (XValue.object p)).0.0 ≡ true
      → parent_of (Items.set f time depth w a (XKey.string (b ∷ s)) (XValue.object p)).1 p ≡ some a
  unfolding Items.set
  set-parent w a p b s there =
      let key = XKey.string (b ∷ s) in
      let valid = is_valid_child depth w a (XValue.object p) in
      let is_child = child_valid w a p there in
      let step = set_in {U = U} f time depth a key (XValue.object p) valid.1 in
      let done = on_container w a step (false, absent, monostate) in
      let replaced = query_ptr done.1 done.0.0.1.value in
      let w2 : World D U = elim replaced [
        | none ↦ done.1
        | some q ↦ (private_parent_set depth done.1 q none none).1
      ] in
      let loose =
        Loosened-trans w done.1 w2 (on_container-Loosened w a step (false, absent, monostate))
          (orphaned-Loosened done.1 replaced) in
      let Placed : (Bool × XTimed D) × World D U → Type 0 =
        λ r. r.0.0 ≡ true → parent_of r.1 p ≡ some a in
      if_intro Placed (not valid.0) (λ e h. cc)
        (λ e.
          if_intro Placed (not done.0.0.0) (λ e' h. cc)
            (λ e' h.
              subst (λ t. parent_of (Items.adopt f time depth a t done.0.0.2 w2) p ≡ some a)
                (sym (ap (λ v. v.1) is_child))
                (adopt_all-one w2 a p b s done.0.0.2
                  (set_in-key w a b s (XValue.object p) valid.1 (not-not e')) (loose.1 p ∙ there)
                  (still_valid w w2 a p loose (sym (ap (λ v. v.0) is_child) ∙ not-not e)))))
