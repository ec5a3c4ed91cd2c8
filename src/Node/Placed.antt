-- ===== src/Node/Placed.antt =====
-- What Set of XNode (src/xnode/impl/xnode_impl.cpp) leaves in the node that it is called on.
use xnode.Prelude.{
  ℕ, ◌≡◌, ◌≢◌, refl, sym, ap, ◌∙◌, subst, Bool, true, false, not, Option, none, some, [], ◌∷◌,
  arith, ==_iff, if_intro,
}
use mathlib.Core.Option
use xnode.Prelude.Int.{ℤ}
use xnode.Bytes.{Bytes, same_iff}
use xnode.Key.{XKey}
use xnode.Value.{XValue, Double}
use xnode.Timed.{XTimed, mapped, absent, timed}
use xnode.Container.{KeyType, monostate, name, OnChange}
use xnode.Container.Map
use xnode.Container.Map.Lookup
use xnode.Container.Erase
use xnode.Container.Erase.{XContainerMapWithErase, detect_erase}
use xnode.Container.Any
use xnode.Container.Any.{IContainer, container_type}
use xnode.Node.Heap.{
  XNode, World, Call, write, on_container, on_change, read_container, stamp, query_ptr,
}
use xnode.Node.Match.{container_key, map_key, plain_key}
use xnode.Node.Validator.{remove_duplicates}
use xnode.Node.Parents.{private_parent_set, private_erase, set_as_child, is_valid_child}
use xnode.Node.Items
use xnode.Node.Items.{set_in, adopt_all, validator_of, drop_duplicates}
use xnode.Node.Adopted.{not-not}

module _ {D U : Type 0} where
  unfoldable pub container_at : World D U → ℕ → Option (IContainer (XTimed D))
  container_at w a = elim (w.nodes a) [ none ↦ none | some n ↦ some n.container ]

  private_parent_set-container_at :
      (depth : ℕ) (w : World D U) (q : ℕ) (p : Option ℕ) (s : Option Bytes) (x : ℕ)
      → container_at (private_parent_set depth w q p s).1 x ≡ container_at w x
  unfolding private_parent_set container_at write
  private_parent_set-container_at depth w q p s x = ground (arith, ==_iff x q)

  on_container-other :
      {R : Type 0} (w : World D U) (a : ℕ)
      (f : IContainer (XTimed D) → Call D U → R × IContainer (XTimed D) × Call D U) (fallback : R)
      (x : ℕ)
      → x ≢ a
      → container_at (on_container w a f fallback).1 x ≡ container_at w x
  unfolding on_container container_at write
  on_container-other w a f fallback x other = ground (arith, ==_iff x a)

  abbrev pub started : World D U → XNode D U → Call D U
  started w n = record {
    callbacks = n.callbacks;
    user = w.user;
    clock = w.clock;
    removed = [];
    placed = [];
    taken = none;
  }

  pub on_container-own :
      {R : Type 0} (w : World D U) (a : ℕ) (n : XNode D U)
      (f : IContainer (XTimed D) → Call D U → R × IContainer (XTimed D) × Call D U) (fallback : R)
      → w.nodes a ≡ some n
      → ((on_container w a f fallback).0.0 ≡ (f n.container (started w n)).0)
        × (container_at (on_container w a f fallback).1 a ≡ some (f n.container (started w n)).1)
  unfolding on_container container_at write
  on_container-own w a n f fallback e = rw (e, on_container) (refl, ground (arith, ==_iff a a))

  previous_other :
      (depth : ℕ) (w : World D U) (child this q : ℕ) (s : Option Bytes)
      → (private_parent_set depth w child (some this) s).0.0 ≡ true
      → (private_parent_set depth w child (some this) s).0.1 ≡ some q
      → this ≢ q
  unfolding private_parent_set
  previous_other depth w child this q s done previous e = ground (arith, ==_iff q this)

module _ {D : Type 0} (f : Double D) where
  abbrev pub read_at : Option (IContainer (XTimed D)) → XKey → XTimed D
  read_at none key = absent
  read_at (some c) key = Option.get_or (Any.at c (container_key (mapped f) c key true)) absent

  -- A map drops no duplicates.
  drop_duplicates-map :
      (c : XContainerMapWithErase (XTimed D)) (child : Option ℕ) (key : KeyType)
      → drop_duplicates f (IContainer.with_erase c) child key ≡ IContainer.with_erase c
  unfolding drop_duplicates validator_of container_type remove_duplicates
  drop_duplicates-map c child key = refl

  pub read_at-map :
      (c : XContainerMapWithErase (XTimed D)) (b : ℕ) (s : Bytes)
      → read_at (some (IContainer.with_erase c)) (XKey.string (b ∷ s))
        ≡ Option.get_or (Map.at c.base (name (b ∷ s))) absent
  unfolding container_key map_key plain_key container_type Any.at
  read_at-map c b s = refl

  set-read :
      {S : Type 0} (c : XContainerMapWithErase (XTimed D)) (b : ℕ) (s : Bytes) (v : XTimed D)
      (on : OnChange (XTimed D) S) (state : S)
      → (Erase.set (mapped f) c (name (b ∷ s)) v on state).0 ≡ true
      → Map.at (Erase.set (mapped f) c (name (b ∷ s)) v on state).2.base (name (b ∷ s)) ≡ some v
  unfolding Erase.set
  set-read c b s v on state ok =
      Lookup.at-set (mapped f) c.base (name (b ∷ s)) (name (b ∷ s)) v (detect_erase (mapped f) on)
        (state, c.erased_values)
      ∙ ground (arith, ok, same_iff (b ∷ s) (b ∷ s))

module _ {D U : Type 0} (f : Double D) (time : ℕ → ℤ) (depth : ℕ) where
  erased-container_at :
      (w : World D U) (p : Option ℕ) (child x : ℕ)
      → ((q : ℕ) → p ≡ some q → x ≢ q)
      → container_at (elim p [ none ↦ w | some q ↦ (private_erase f time w q child).1 ]) x
        ≡ container_at w x
  unfolding private_erase
  erased-container_at w none child x other = refl
  erased-container_at w (some q) child x other = on_container-other w q _ _ x (other q refl)

  pub set_as_child-container_at :
      (w : World D U) (this child : ℕ) (s : Option Bytes)
      → container_at (set_as_child f time depth w this child s).1 this ≡ container_at w this
  unfolding set_as_child
  set_as_child-container_at w this child s =
      let done = private_parent_set depth w child (some this) s in
      let same = private_parent_set-container_at depth w child (some this) s this in
      if_intro (λ (r : Bool × World D U). container_at r.1 this ≡ container_at w this) done.0.0
        (λ e.
          erased-container_at done.1 done.0.1 child this
            (λ q. previous_other depth w child this q s e)
          ∙ same)
        (λ e. same)

  pub adopt-container_at :
      (w : World D U) (this : ℕ) (child : Option ℕ) (key : KeyType)
      → container_at (Items.adopt f time depth this child key w) this ≡ container_at w this
  unfolding adopt_all
  adopt-container_at w this none key = refl
  adopt-container_at w this (some p) key = set_as_child-container_at w this p _

  pub orphaned-container_at :
      (w : World D U) (p : Option ℕ) (x : ℕ)
      → container_at (elim p [ none ↦ w | some q ↦ (private_parent_set depth w q none none).1 ]) x
        ≡ container_at w x
  orphaned-container_at w none x = refl
  orphaned-container_at w (some q) x = private_parent_set-container_at depth w q none none x

  pub at-container_at :
      (w : World D U) (a : ℕ) (key : XKey) → Items.at f w a key ≡ read_at f (container_at w a) key
  unfolding Items.at read_container container_at
  at-container_at w a key = ground arith

  -- The map that the containers' part of Set leaves, and its answer.
  pub set_in-map :
      (c : XContainerMapWithErase (XTimed D)) (call : Call D U) (a b : ℕ) (s : Bytes)
      (val : XValue D) (child : Option ℕ)
      → let step =
          set_in f time depth a (XKey.string (b ∷ s)) val child (IContainer.with_erase c) call in
        let (v, call1) = stamp time val call in
        let set = Erase.set (mapped f) c (name (b ∷ s)) v (on_change a false) call1 in
        (step.0.0 ≡ set.0) × (step.1 ≡ IContainer.with_erase set.2)
  unfolding set_in container_key map_key plain_key container_type Any.set
  set_in-map c call a b s val none = (refl, refl)
  set_in-map c call a b s val (some p) =
      let (v, call1) = stamp time val call in
      let set = Erase.set (mapped f) c (name (b ∷ s)) v (on_change a false) call1 in
      (
        refl,
        if_intro (λ d. d ≡ IContainer.with_erase set.2) set.0
            (λ e. drop_duplicates-map f set.2 (some p) (name (b ∷ s))) (λ e. refl),
      )

  set_in-read :
      (c : XContainerMapWithErase (XTimed D)) (call : Call D U) (a b : ℕ) (s : Bytes)
      (val : XValue D) (child : Option ℕ)
      → let step =
          set_in f time depth a (XKey.string (b ∷ s)) val child (IContainer.with_erase c) call in
        step.0.0 ≡ true → (read_at f (some step.1) (XKey.string (b ∷ s))).value ≡ val
  set_in-read c call a b s val child ok =
      let (answer, left) = set_in-map c call a b s val child in
      let (v, call1) = stamp time val call in
      let set = Erase.set (mapped f) c (name (b ∷ s)) v (on_change a false) call1 in
      rw left (
        rw (read_at-map f set.2 b s)
          (rw (set-read f c b s v (on_change a false) call1 (sym answer ∙ ok)) (stamped val call)))
    where
      stamped : (val : XValue D) (call : Call D U) → (stamp time val call).0.value ≡ val
      stamped val call = unfold stamp timed in refl

  -- Where a node keeps its items in a map that marks erased entries, as NodeCreate makes it, and Set of
  -- a value under a name that is not empty succeeds, At of the name gives the value then, also if it is
  -- a child that is taken out of another node.
  pub items_at-set :
      (w : World D U) (a b : ℕ) (s : Bytes) (val : XValue D) (n : XNode D U)
      (c : XContainerMapWithErase (XTimed D))
      → w.nodes a ≡ some n
      → n.container ≡ IContainer.with_erase c
      → (Items.set f time depth w a (XKey.string (b ∷ s)) val).0.0 ≡ true
      → (Items.at f
          (Items.set f time depth w a (XKey.string (b ∷ s)) val).1
          a
          (XKey.string (b ∷ s))).value
        ≡ val
  unfolding Items.set
  items_at-set w a b s val n c at_a is_map =
      let key = XKey.string (b ∷ s) in
      let valid = is_valid_child depth w a val in
      let step = set_in {U = U} f time depth a key val valid.1 in
      let done = on_container w a step (false, absent, monostate) in
      let replaced = query_ptr done.1 done.0.0.1.value in
      let w2 : World D U = elim replaced [
        | none ↦ done.1
        | some q ↦ (private_parent_set depth done.1 q none none).1
      ] in
      let (answer, left) = on_container-own w a n step (false, absent, monostate) at_a in
      let kept =
        adopt-container_at w2 a valid.1 done.0.0.2
        ∙ orphaned-container_at done.1 replaced a
        ∙ left in
      let Placed : (Bool × XTimed D) × World D U → Type 0 =
        λ r. r.0.0 ≡ true → (Items.at f r.1 a key).value ≡ val in
      if_intro Placed (not valid.0) (λ e h. cc)
        (λ e.
          if_intro Placed (not done.0.0.0) (λ e' h. cc)
            (λ e' h.
              let ok : (step n.container (started w n)).0.0 ≡ true =
                ap (λ r. r.0) (sym answer) ∙ not-not e' in
              rw (at-container_at (Items.adopt f time depth a valid.1 done.0.0.2 w2) a key, kept)
                (subst
                  (λ d.
                    (step d (started w n)).0.0 ≡ true
                    → (read_at f (some (step d (started w n)).1) key).value ≡ val)
                  (sym is_map) (set_in-read c (started w n) a b s val valid.1) ok)))
