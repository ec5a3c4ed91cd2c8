-- ===== src/Node/Named/Contract.antt =====
-- Set, Insert and Erase (src/xnode/impl/xnode_impl.cpp) of a node that keeps its items in a map, as
-- operations on the values by their names.
use xnode.Prelude.{
  ℕ, ◌≡◌, refl, sym, ap, ◌∙◌, Bool, true, false, not, ◌&&◌, none, some, ◌∷◌, if◌then◌else◌, is_some,
}
use mathlib.Core.Option
use xnode.Prelude.Int.{ℤ}
use xnode.Bytes.{Bytes, same}
use xnode.Key.{XKey}
use xnode.Value
use xnode.Value.{XValue, Double}
use xnode.Timed.{XTimed, mapped, absent, timed, empty_with_time}
use xnode.Callbacks.{do_callbacks}
use xnode.Container.{name}
use xnode.Container.Map
use xnode.Container.Erase
use xnode.Container.Erase.{XContainerMapWithErase}
use xnode.Container.Any.{IContainer}
use xnode.Node.Heap.{XNode, World, on_change, erased_value, stamp}
use xnode.Node.Match.{node_key}
use xnode.Node.Parents.{is_valid_child}
use xnode.Node.Items
use xnode.Node.Placed.{started}
use xnode.Node.Named.{
  put, reads, set-reads, emplace-reads, erase-reads, erase-answer, set-succeeds, emplace-succeeds,
}
use xnode.Node.Named.Steps.{
  values, set-Leaves, insert-Leaves, erase-Leaves, values-reads, own-container_at,
}

module _ {D : Type 0} where
  -- The item that the map holds under the name, the default one where there is none; an erased one is
  -- held with an empty value.
  abbrev pub held : XContainerMapWithErase (XTimed D) → Bytes → XTimed D
  held c key = Option.get_or (Map.at c.base (name key)) absent

module _ {D U : Type 0} where
  -- Whether the node's callbacks agree to a change of the item.
  abbrev pub agree : World D U → ℕ → XNode D U → Bytes → XTimed D → XTimed D → Bool
  agree w a n key from to =
      (do_callbacks (record { node = a; key = XKey.string key; from = from; to = to }) false
        n.callbacks w.user).0.0

module _ {D U : Type 0} (f : Double D) (time : ℕ → ℤ) (depth : ℕ) (w : World D U) (a : ℕ)
    (n : XNode D U) (c : XContainerMapWithErase (XTimed D)) (at_a : w.nodes a ≡ some n)
    (is_map : n.container ≡ IContainer.with_erase c) (b : ℕ) (s : Bytes) where
  abbrev k : Bytes
  k = b ∷ s

  module _ (b' : ℕ) (s' : Bytes) where
    abbrev j : Bytes
    j = b' ∷ s'

    -- What the map held is what At gave.
    before :
        (done : Bool) (val : XValue D)
        → put done k val (reads f c) j ≡ put done k val (values f time depth w a) j
    before done val =
        ap (λ v. if done && same k j then val else v)
          (sym (
            values-reads f time depth w a c b' s'
              (own-container_at f time depth w a n c at_a is_map)))

    -- Set of a value that may stand in the node succeeds exactly where the value under the name is another
    -- one and the callbacks agree; then At of the name gives the new value. At of every other name, and of
    -- every name where it fails, gives what it gave before, also if the value is a child that is taken out
    -- of another node.
    pub set-put :
        (val : XValue D)
        → (is_valid_child depth w a val).0 ≡ true
        → let r = Items.set f time depth w a (XKey.string k) val in
          (r.0.0 ≡ (
            not (Value.eq f (held c k).value val)
            && agree w a n k (held c k) (timed (time w.clock) val)))
          × (values f time depth r.1 a j ≡ put r.0.0 k val (values f time depth w a) j)
    unfolding stamp on_change node_key timed Map.is_key_valid
    set-put val fits =
        let r = Items.set f time depth w a (XKey.string k) val in
        let (v, call) = stamp time val (started w n) in
        let (left, done) = set-Leaves f time depth w a n c at_a is_map b s val fits in
        let set = Erase.set (mapped f) c (name k) v (on_change a false) call in
        (
          done ∙ set-succeeds f c k j (on_change a false) call v,
          values-reads f time depth r.1 a set.2 b' s' left
              ∙ set-reads f c k j (on_change a false) call v
              ∙ ap (λ d. put d k val (reads f c) j) (sym done)
              ∙ before r.0.0 val,
        )

    -- Insert of a value that may stand in the node succeeds exactly where the map holds nothing under the
    -- name, not even an item that was erased, and the callbacks agree; then At of the name gives the new
    -- value. At of every other name, and of every name where it fails, gives what it gave before.
    pub insert-put :
        (val : XValue D)
        → (is_valid_child depth w a val).0 ≡ true
        → let r = Items.insert f time depth w a (XKey.string k) val in
          (r.0.succeeded ≡ (
            not (is_some (Map.at c.base (name k)))
            && agree w a n k absent (timed (time w.clock) val)))
          × (values f time depth r.1 a j ≡ put r.0.succeeded k val (values f time depth w a) j)
    unfolding stamp on_change node_key timed Map.is_key_valid
    insert-put val fits =
        let r = Items.insert f time depth w a (XKey.string k) val in
        let (v, call) = stamp time val (started w n) in
        let (left, done) = insert-Leaves f time depth w a n c at_a is_map b s val fits in
        let insert = Erase.emplace (mapped f) c (name k) v (on_change a false) call in
        (
          done ∙ emplace-succeeds f c k j (on_change a false) call v,
          values-reads f time depth r.1 a insert.1 b' s' left
              ∙ emplace-reads f c k j (on_change a false) call v
              ∙ ap (λ d. put d k val (reads f c) j) (sym done)
              ∙ before r.0.succeeded val,
        )

    -- Erase of a name whose value is no node gives the value that At gave, where the callbacks agree that
    -- it goes, and else an empty one. Where it gives a value, At of the name gives an empty one then; At of
    -- every other name, and of every name where it gives none, gives what it gave before.
    pub erase-put :
        Value.object_ptr (values f time depth w a k) ≡ none
        → let r = Items.erase f time depth w a (XKey.string k) in
          (r.0.value ≡ (
            if agree w a n k (held c k) (empty_with_time (time w.clock))
            then values f time depth w a k
            else XValue.empty))
          × (values f time depth r.1 a j
              ≡ put (Value.has_value r.0.value) k XValue.empty (values f time depth w a) j)
    unfolding empty_with_time timed erased_value on_change node_key Map.is_key_valid
    erase-put loose =
        let r = Items.erase f time depth w a (XKey.string k) in
        let (left, done) = erase-Leaves f time depth w a n c at_a is_map b s loose in
        let erase =
          Erase.erase (mapped f) (erased_value time) c (name k) (on_change a false) (started w n) in
        let (after, there) =
          erase-reads f c k j (on_change a false) (started w n) (erased_value time) refl in
        (
          ap (λ v. v.value) done
              ∙ erase-answer f c k j (on_change a false) (started w n) (erased_value time) refl refl
              ∙ ap
                  (λ v.
                    if agree w a n k (held c k) (empty_with_time (time w.clock))
                    then v
                    else XValue.empty)
                  (sym (
                    values-reads f time depth w a c b s
                      (own-container_at f time depth w a n c at_a is_map))),
          values-reads f time depth r.1 a erase.1 b' s' left
              ∙ after
              ∙ ap (λ v. put (Value.has_value v.value) k XValue.empty (reads f c) j) (sym done)
              ∙ before (Value.has_value r.0.value) XValue.empty,
        )
