-- ===== src/Functions/AtEnd.antt =====
-- The methods at the end of a path (src/xnode/functions/path.cpp) whose nodes are there.
use xnode.Prelude.{
  ℕ, suc, ◌≡◌, refl, ap, ◌∙◌, true, false, Option, none, some, [], ◌∷◌, ◌++◌, if◌then◌else◌,
  is_some,
}
use xnode.Prelude.Int.{ℤ}
use xnode.Key
use xnode.Key.{XKey}
use xnode.Path.{XPath}
use xnode.Path.Ends.{pop_back, pop_ends}
use xnode.Value.{XValue, Double}
use xnode.Timed.{absent}
use xnode.Node.{NodeType, type_of_key}
use xnode.Node.Heap.{World}
use xnode.Node.Items
use xnode.Node.Items.{failed_insert}
use xnode.Node.Atomic
use xnode.Functions.{Exec, pure, call}
use xnode.Functions.Paths
use xnode.Functions.Follow.{follow, bind_here, node_before-follow}
use xnode.Functions.Paths.{no_type, node_get, node_before, at_end}

is_some-type_of_key : (key : XKey) → Key.is_empty key ≡ false → is_some (type_of_key key) ≡ true
unfolding type_of_key Key.is_empty
is_some-type_of_key XKey.empty h = cc
is_some-type_of_key (XKey.index i) h = refl
is_some-type_of_key (XKey.string s) h = refl

module _ {D U : Type 0} (f : Double D) (time : ℕ → ℤ) (depth rounds : ℕ) (w : World D U) where
  -- The method at the end of a path that is followed, or the result where the way is barred.
  at_end-follow :
      {A : Type 0} (want : XKey → Option NodeType) (this : ℕ) (path : XPath) (last : XKey)
      (dest : Option ℕ) (missing : A) (method : ℕ → XKey → World D U → A × World D U)
      → ((key : XKey) → (if is_some (want last) then type_of_key key else none) ≡ want key)
      → follow f want last w this path ≡ some dest
      → at_end f time depth (suc rounds) (some this) (path ++ last ∷ []) want missing method w
        ≡ some (elim dest [ none ↦ (missing, w) | some p ↦ method p last w ])
  unfolding at_end node_before pure call
  at_end-follow {A = A} want this path last dest missing method types h = rw pop (
      bind_here w _ _ dest
        (node_before-follow f time depth rounds w want last types this path dest h)
      ∙ finish dest (pop_back (path ++ last ∷ [])).0 (ap (λ r. r.0) pop))
    where
      pop : pop_back (path ++ last ∷ []) ≡ (last, path)
      pop = (pop_ends path last).0 ∙ ap (λ key. (key, path)) (pop_ends path last).1

      finish :
          (dest : Option ℕ) (key : XKey)
          → key ≡ last
          → (let m : Exec D U A = elim dest [
            | none ↦ pure missing
            | some p ↦ call (method p key)
          ] in
              m w)
            ≡ some (elim dest [ none ↦ (missing, w) | some p ↦ method p last w ])
      finish none key e = refl
      finish (some p) key e = ap (λ k. some (method p k w)) e

  -- At, Erase and Increment of a path: where the path before the last key leads from the node through
  -- nodes that are there, each of them is the node's own method at the last key of the node at the end,
  -- and nothing else is changed. Where a value that is neither empty nor a node bars the way, the result
  -- is an empty value and nothing is changed. Nothing is said of a path that meets an empty value, where
  -- a node would be made. One round of the loop of NodeGetByKey is enough.
  pub at-erase-follow :
      (this : ℕ) (path : XPath) (last : XKey) (val : XValue D) (dest : Option ℕ)
      → follow f no_type last w this path ≡ some dest
      → let p = path ++ last ∷ [] in
        (Paths.at f time depth (suc rounds) (some this) p w
          ≡ some (elim dest [ none ↦ (absent, w) | some q ↦ (Items.at f w q last, w) ]))
        × (Paths.erase f time depth (suc rounds) (some this) p w
            ≡ some (elim dest [ none ↦ (absent, w) | some q ↦ Items.erase f time depth w q last ]))
        × (Paths.increment f time depth (suc rounds) (some this) p val w
            ≡ some (elim dest [
              | none ↦ (absent, w)
              | some q ↦ Atomic.increment f time depth w q last val
            ]))
  unfolding Paths.at Paths.erase Paths.increment
  at-erase-follow this path last val dest h = (
    at_end-follow no_type this path last dest absent _ (λ key. refl) h,
    at_end-follow no_type this path last dest absent _ (λ key. refl) h,
    at_end-follow no_type this path last dest absent _ (λ key. refl) h,
  )

  -- Set and Insert of a path whose last key is not empty: where the path before the last key leads from
  -- the node through nodes that are there, each of the type that the next key wants (an array for an
  -- index, a map for a text), each of them is the node's own method at the last key of the node at the
  -- end. Where a value that is neither empty nor such a node bars the way, they fail and change nothing.
  -- Nothing is said of a path that meets an empty value, where a node would be made. One round of the
  -- loop of NodeGetByKey is enough.
  pub set-insert-follow :
      (this : ℕ) (path : XPath) (last : XKey) (val : XValue D) (dest : Option ℕ)
      → Key.is_empty last ≡ false
      → follow f type_of_key last w this path ≡ some dest
      → let p = path ++ last ∷ [] in
        (Paths.set f time depth (suc rounds) (some this) p val w
          ≡ some (elim dest [
            | none ↦ ((false, absent), w)
            | some q ↦ Items.set f time depth w q last val
          ]))
        × (Paths.insert f time depth (suc rounds) (some this) p val w
            ≡ some (elim dest [
              | none ↦ (failed_insert, w)
              | some q ↦ Items.insert f time depth w q last val
            ]))
  unfolding Paths.set Paths.insert
  set-insert-follow this path last val dest named h =
      let types : (key : XKey)
          → (if is_some (type_of_key last) then type_of_key key else none) ≡ type_of_key key =
        λ key. rw (is_some-type_of_key last named) refl in
      (
        at_end-follow type_of_key this path last dest (false, absent) _ types h,
        at_end-follow type_of_key this path last dest failed_insert _ types h,
      )
