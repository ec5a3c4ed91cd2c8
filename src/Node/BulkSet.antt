-- ===== src/Node/BulkSet.antt =====
-- BulkSet of XNode (src/xnode/impl/xnode_impl.cpp).
use xnode.Prelude.{
  ℕ, ◌+◌, Bool, true, false, not, ◌&&◌, Option, none, some, List, [], ◌∷◌, if◌then◌else◌, is_some,
  map,
}
use xnode.Prelude.Int.{ℤ}
use xnode.Key.{XKey}
use xnode.Value.{XValue, Double}
use xnode.Timed.{XTimed, mapped}
use xnode.Container.Any
use xnode.Container.Any.{IContainer, ContainerType, container_type}
use xnode.Node.Heap.{World, Call, query_ptr, on_container, on_change, stamp, erased_value}
use xnode.Node.Match.{container_key}
use xnode.Node.Items.{detach_all, adopt_all}
use xnode.Node.Changes.{drop_all, note}
use xnode.Node.Bulk.{find_placed, erase_placed, put_placed, is_among, invalid_children}

module _ {D U : Type 0} (f : Double D) (time : ℕ → ℤ) (depth : ℕ) where
  -- The check of BulkSet for a node that was set before: whether it could be removed from there.
  unfoldable pub unset_earlier :
      ℕ → Option ℕ → IContainer (XTimed D) → Call D U → Bool × IContainer (XTimed D) × Call D U
  unset_earlier a node c call = elim (find_placed node call.placed) [
    | none ↦ (true, c, call)
    | some earlier ↦
        let (erased, c1, call1) =
          Any.erase (mapped f) (erased_value time) c earlier (on_change a false) call in
        let cleared = record call1 { placed = erase_placed node call1.placed } in
        if is_some erased then (true, c1, cleared) else (false, c1, call1)
  ]

  -- One round of the loop of BulkSet: whether the entry is left, and the node that the next round
  -- takes for its own. Where a node cannot be removed from where it was set, the source moves on to
  -- the next entry but not to the next round.
  unfoldable pub set_step :
      World D U
      → ℕ
      → List (XValue D)
      → Option (Option ℕ)
      → XKey × XValue D
      → IContainer (XTimed D)
      → Call D U
      → (Option (Option ℕ) × Bool) × IContainer (XTimed D) × Call D U
  set_step w a invalid carried (key, val) c call =
      let node : Option ℕ = elim carried [ none ↦ query_ptr w val | some p ↦ p ] in
      let (free, c1, call1) : Bool × IContainer (XTimed D) × Call D U = elim carried [
        | none ↦ unset_earlier a node c call
        | some p ↦ (true, c, call)
      ] in
      let key_set = container_key (mapped f) c1 key true in
      let (v, call2) = stamp time val call1 in
      let (ok, replaced, c2, call3) = Any.set (mapped f) c1 key_set v (on_change a false) call2 in
      let set = record call3 {
        removed = note (query_ptr w replaced.value) call3.removed;
        placed = put_placed node key_set call3.placed;
      } in
      if not (is_some carried) && is_among f val invalid
      then ((none, true), c, call)
      else if not free
      then ((some node, true), c1, call1)
      else if ok
      then ((none, false), c2, set)
      else ((none, true), c2, call3)

  -- The loop of BulkSet: {succeeded, what is left of `_values`}. After an entry that the source moves
  -- on from at the end of `_values` it reads past that end; the loop ends here.
  unfoldable pub set_each :
      World D U
      → ℕ
      → List (XValue D)
      → Option (Option ℕ)
      → List (XKey × XValue D)
      → IContainer (XTimed D)
      → Call D U
      → (ℕ × List (XKey × XValue D)) × IContainer (XTimed D) × Call D U
  set_each w a invalid carried [] c call = ((0, []), c, call)
  set_each w a invalid carried (entry ∷ values) c call =
      let ((next, kept), c1, call1) = set_step w a invalid carried entry c call in
      let ((succeeded, left), c2, call2) = set_each w a invalid next values c1 call1 in
      ((if kept then (succeeded, entry ∷ left) else (succeeded + 1, left)), c2, call2)

  unfoldable pub bulk_set :
      World D U → ℕ → List (XKey × XValue D) → (ℕ × List (XKey × XValue D)) × World D U
  bulk_set w a values =
      let invalid = invalid_children depth w a (map (λ e. e.1) values) in
      let set_in : IContainer (XTimed D)
          → Call D U
          → (ℕ × List (XKey × XValue D)) × IContainer (XTimed D) × Call D U =
        λ c call.
          let (res, c1, call1) = set_each w a invalid none values c call in
          (res, drop_all f call1.placed c1, call1) in
      let ((res, removed, placed), w1) = on_container w a set_in (0, values) in
      (res, adopt_all f time depth a placed (detach_all f time depth removed w1))
