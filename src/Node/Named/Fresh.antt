-- ===== src/Node/Named/Fresh.antt =====
-- Insert (src/xnode/impl/xnode_impl.cpp) into a node without callbacks, as the readers of JSON and XML
-- make it.
use xnode.Prelude.{
  ℕ, ◌≡◌, refl, ap, ◌∙◌, true, false, not, Option, none, some, List, [], ◌∷◌, if◌then◌else◌, arith,
  ==_iff, if_intro,
}
use xnode.Prelude.Int.{ℤ}
use xnode.Bytes.{Bytes, same}
use xnode.Key
use xnode.Key.{XKey}
use xnode.Value.{XValue, Double}
use xnode.Timed.{XTimed, mapped, absent, timed}
use xnode.Callbacks
use xnode.Callbacks.{XNodeCallbacks, do_callbacks}
use xnode.Container.{name, KeyType, approve}
use xnode.Container.Map
use xnode.Container.Map.Lookup
use xnode.Container.Erase
use xnode.Container.Erase.{XContainerMapWithErase, detect_erase}
use xnode.Container.Any
use xnode.Container.Any.{IContainer}
use xnode.Node.Heap.{XNode, World, Call, write, on_container, on_change, stamp, query_ptr_c}
use xnode.Node.Match.{container_key, map_key, plain_key}
use xnode.Node.Parents.{set_as_child, is_valid_child}
use xnode.Node.Items
use xnode.Node.Items.{insert_in, failed_insert}
use xnode.Node.Placed.{started}

module _ {D U : Type 0} where
  abbrev IsSilent : XNodeCallbacks ℕ (XTimed D) U → Type 0
  IsSilent callbacks = callbacks.callbacks_map ≡ []

  -- A node that has a map and no callbacks.
  abbrev pub IsFresh : World D U → ℕ → XContainerMapWithErase (XTimed D) → Type 0
  IsFresh w a c =
      (n : XNode D U) × (w.nodes a ≡ some n)
      × (n.container ≡ IContainer.with_erase c)
      × IsSilent n.callbacks

  silent :
      (a : ℕ) (k : KeyType) (from to : XTimed D) (call : Call D U)
      → IsSilent call.callbacks
      → let r = approve (on_change a false) k from to call in (r.0 ≡ true) × IsSilent r.1.callbacks
  unfolding on_change do_callbacks Callbacks.call_all Callbacks.remove_all
  silent a k from to call e = rw e (refl, refl)

  on_container-nodes :
      {R : Type 0} (w : World D U) (a : ℕ) (n : XNode D U)
      (g : IContainer (XTimed D) → Call D U → R × IContainer (XTimed D) × Call D U) (fallback : R)
      → w.nodes a ≡ some n
      → (on_container w a g fallback).1.nodes a
        ≡ some (record n {
          container = (g n.container (started w n)).1;
          callbacks = (g n.container (started w n)).2.callbacks;
        })
  unfolding on_container write
  on_container-nodes w a n g fallback e = rw (e, on_container) (ground (arith, ==_iff a a))

module _ {D U : Type 0} (f : Double D) (time : ℕ → ℤ) (depth : ℕ) where
  emplace-IsSilent :
      (a : ℕ) (c : XContainerMapWithErase (XTimed D)) (b : ℕ) (s : Bytes) (v : XTimed D)
      (call : Call D U)
      → IsSilent call.callbacks
      → IsSilent (Erase.emplace (mapped f) c (name (b ∷ s)) v (on_change a false) call).2.callbacks
  unfolding Erase.emplace Map.emplace detect_erase
  emplace-IsSilent a c b s v call e =
      let later =
        silent a (name (b ∷ s)) (Map.value_at (mapped f) (Map.map_find c.base (name (b ∷ s)))) v
          call e in
      ground (arith, later, e)

  emplace-free :
      (a : ℕ) (c : XContainerMapWithErase (XTimed D)) (b : ℕ) (s : Bytes) (v : XTimed D)
      (call : Call D U) (j : Bytes)
      → IsSilent call.callbacks
      → Map.at c.base (name (b ∷ s)) ≡ none
      → Map.at
          (Erase.emplace (mapped f) c (name (b ∷ s)) v (on_change a false) call).1.base
          (name j)
        ≡ (if same (b ∷ s) j then some v else Map.at c.base (name j))
  unfolding Erase.emplace detect_erase Map.is_key_valid
  emplace-free a c b s v call j e free = ground (
    arith,
    Lookup.at-emplace (mapped f) c.base (name (b ∷ s)) (name j) v
        (detect_erase (mapped f) (on_change a false)) (call, c.erased_values),
    silent a (name (b ∷ s)) absent v call e,
    free,
  )

  -- A value that no child is made of stands in any node.
  no_child :
      (w : World D U) (a : ℕ) (val : XValue D)
      → query_ptr_c w val ≡ none
      → is_valid_child depth w a val ≡ (true, none)
  unfolding is_valid_child
  no_child w a val e = rw (e, is_valid_child) refl

  module _ (w : World D U) (a : ℕ) (c : XContainerMapWithErase (XTimed D)) (b : ℕ) (s : Bytes)
      (val : XValue D) (loose : query_ptr_c w val ≡ none) where
    abbrev after : World D U
    after = (Items.insert f time depth w a (XKey.string (b ∷ s)) val).1

    abbrev stamped : XTimed D
    stamped = timed (time w.clock) val

    -- What Insert does with a value that is no child.
    insert-on_container :
        after
        ≡ (on_container w a
            (insert_in f time depth a (XKey.string (b ∷ s)) val none)
            failed_insert).1
    unfolding Items.insert
    insert-on_container =
        let valid = is_valid_child depth w a val in
        let fits = no_child w a val loose in
        let step : Option ℕ → (Items.InsertRes D × List ℕ × List (ℕ × KeyType)) × World D U =
          λ child.
            on_container w a (insert_in f time depth a (XKey.string (b ∷ s)) val child)
              failed_insert in
        let Done : Items.InsertRes D × World D U → Type 0 = λ r. r.1 ≡ (step none).1 in
        let is_valid = ap (λ v. v.0) fits in
        if_intro Done (not valid.0) (λ e. absurd (ground (arith, e, is_valid)))
          (λ e.
            if_intro Done (step valid.1).0.0.succeeded
              (λ e'.
                ap
                  (λ v. elim v.1 [
                    | none ↦ (step v.1).1
                    | some p ↦
                        (set_as_child f time depth (step v.1).1 a p
                          (Key.string_get (step v.1).0.0.inserted_at)).1
                  ])
                  fits)
              (λ e'. ap (λ v. (step v.1).1) fits))

    insert_in-IsSilent :
        (call : Call D U)
        → IsSilent call.callbacks
        → let step =
            insert_in f time depth a
              (XKey.string (b ∷ s))
              val
              none
              (IContainer.with_erase c)
              call in
          let (v, call1) = stamp time val call in
          let insert = Erase.emplace (mapped f) c (name (b ∷ s)) v (on_change a false) call1 in
          (step.1 ≡ IContainer.with_erase insert.1) × IsSilent step.2.callbacks
    unfolding insert_in Any.emplace container_key map_key plain_key Any.container_type stamp
    insert_in-IsSilent call e = (refl, emplace-IsSilent a c b s _ _ e)

    pub insert-IsFresh :
        IsFresh w a c
        → Map.at c.base (name (b ∷ s)) ≡ none
        → (c' : XContainerMapWithErase (XTimed D)) × IsFresh after a c'
          × ((j : Bytes)
              → Map.at c'.base (name j)
                ≡ (if same (b ∷ s) j then some stamped else Map.at c.base (name j)))
    unfolding stamp
    insert-IsFresh (n, at_a, is_map, quiet) free =
        let (v, call) = stamp time val (started w n) in
        let insert = Erase.emplace (mapped f) c (name (b ∷ s)) v (on_change a false) call in
        let step = insert_in f time depth a (XKey.string (b ∷ s)) val none in
        let (kept, still) = insert_in-IsSilent (started w n) quiet in
        let left = on_container-nodes w a n step failed_insert at_a in
        let held = ap (λ (x : World D U). x.nodes a) insert-on_container ∙ left in
        let same_map : (step n.container (started w n)).1 ≡ IContainer.with_erase insert.1 =
          ap (λ d. (step d (started w n)).1) is_map ∙ kept in
        let quiet_still : IsSilent (step n.container (started w n)).2.callbacks =
          ap (λ d. (step d (started w n)).2.callbacks.callbacks_map) is_map ∙ still in
        (insert.1, (_, held, same_map, quiet_still), λ j. emplace-free a c b s v call j quiet free)
