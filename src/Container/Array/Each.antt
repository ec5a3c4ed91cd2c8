-- ===== src/Container/Array/Each.antt =====
-- The changing ForEach of XContainerArray (src/xcontainer/impl/xcontainer_array.cpp).
use xnode.Prelude.{
  ℕ, ◌+◌, Bool, true, false, not, Option, none, some, List, [], ◌∷◌, ◌++◌, if◌then◌else◌,
}
use xnode.Container.{
  KeyType, index, Mapped, OnEachRes, OnChange, OnEach, approve, wants_erase, wants_stop,
}
use xnode.Container.Array.{XContainerArray, Iterator, at_end, deq_find}

module _ {ℓ} {V S : Type ℓ} (m : Mapped V) where
  -- `val != *it && (!_pf_on_change || …)`: the value that stays in its place.
  unfoldable pub store : ℕ → V → V → OnChange V S → S → List V × S
  store idx v val on_change s =
      let (changing, s') = approve on_change (index idx) v val s in
      if m.eq val v then (v ∷ [], s) else (if changing then val ∷ [] else v ∷ [], s')

  -- One round after the callback, whose index has been counted on: what is left of the value.
  unfoldable pub settle : ℕ → V → OnEachRes × V → OnChange V S → S → List V × S
  unfolding store
  settle idx v (res, val) on_change s =
      let (erasing, s1) = approve on_change (index idx) v m.default s in
      if not (wants_erase res)
      then store idx v val on_change s
      else if erasing
      then ([], s1)
      else store idx v val on_change s1

  unfoldable pub each : OnEach V S → OnChange V S → ℕ → List V → S → List V × S
  unfolding settle
  each f on_change idx [] s = ([], s)
  each f on_change idx (v ∷ l) s =
      let (res, val, s1) = f (index idx) v s in
      let (kept, s2) = settle (idx + 1) v (res, val) on_change s1 in
      let go = each f on_change (idx + 1) l s2 in
      if wants_stop res then (kept ++ l, s2) else (kept ++ go.0, go.1)

  unfoldable pub for_each :
      XContainerArray V
      → Option (OnEach V S)
      → Option KeyType
      → OnChange V S
      → S
      → Bool × XContainerArray V × S
  unfolding each deq_find
  for_each c on_each from on_change s =
      let it : Iterator V = elim from [
        | none ↦ record { passed = []; rest = c.values_deq }
        | some key ↦ deq_find m c key false
      ] in
      if at_end it then (false, c, s) else elim on_each [
        | none ↦ (true, c, s)
        | some f ↦
            let go = each f on_change 0 it.rest s in
            (true, record { values_deq = it.passed ++ go.0 }, go.1)
      ]
