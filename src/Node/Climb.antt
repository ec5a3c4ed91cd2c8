-- ===== src/Node/Climb.antt =====
-- The loop of IsValidParent_ (src/xnode/impl/xnode_impl.cpp): how long it runs and what it
-- answers.
use xnode.Prelude.{
  ℕ, zero, suc, ◌≡◌, ◌≢◌, refl, ap, subst, ◌↔◌, ◌≤◌, ◌<◌, true, false, Option, none, some, ◌==◌,
  is_some, arith, ==_iff, Option-cases, Bool-cases, inl, inr,
}
use xnode.Node.Heap.{World, node_of}
use xnode.Node.Parents.{parent_of, parent_get, is_free_of, is_valid_parent, same_pointer}
use xnode.Node.Forest.{Above, is_free_of_sound, valid_loop, parent, beyond}

module _ {D U : Type 0} where
  -- The number of nodes that ParentGet gives, one after the other, the first included.
  pub data Height (w : World D U) : Option ℕ → ℕ → Type 0 where
    top : Height w none 0
    under : {x n : ℕ} → Height w (parent_get w x) n → Height w (some x) (suc n)

  parent_get-parent_of :
      (w : World D U) (x y : ℕ) → parent_get w x ≡ some y → parent_of w x ≡ some y
  unfolding parent_get node_of
  parent_get-parent_of w x y e = ground arith

  Height-unique : {w : World D U} {p : Option ℕ} {m n : ℕ} → Height w p m → Height w p n → m ≡ n
  Height-unique top top = refl
  Height-unique (under h) (under k) = ap suc (Height-unique h k)

  -- A parent that is met later is not the one that the loop starts at.
  not_start :
      {w : World D U} {p start : Option ℕ} {k n : ℕ}
      → Height w p k
      → Height w start n
      → k < n
      → same_pointer p start ≡ false
  not_start top top less = ground arith
  not_start top (under h') less = refl
  not_start (under h) top less = refl
  not_start {w} (under {x = x} {n = k} h) (under {x = y} {n = n} h') less =
      elim (Bool-cases (x == y)) [
        | inl e ↦
            let at_y : Height w (some y) (suc k) =
              subst (λ t. Height w (some t) (suc k)) ((==_iff x y).0 e) (under h) in
            let same : suc k ≡ suc n = Height-unique at_y (under h') in ground arith
        | inr e ↦ e
      ]

  is_free_of-none :
      (fuel : ℕ) (w : World D U) (this : ℕ) (start : Option ℕ)
      → is_free_of fuel w this start none ≡ true
  unfolding is_free_of
  is_free_of-none zero w this start = refl
  is_free_of-none (suc fuel) w this start = refl

  -- One more round of the loop.
  is_free_of-round :
      (fuel : ℕ) (w : World D U) (this : ℕ) (start : Option ℕ) (x : ℕ)
      → x ≢ this
      → same_pointer (parent_get w x) start ≡ false
      → is_free_of fuel w this start (parent_get w x) ≡ true
      → is_free_of (suc fuel) w this start (some x) ≡ true
  unfolding is_free_of
  is_free_of-round fuel w this start x other later rest = ground (arith, ==_iff x this)

  is_free_of_complete :
      {w : World D U} (this : ℕ) {start : Option ℕ} {n : ℕ} (depth x : ℕ) {k : ℕ}
      → Height w start n
      → Height w (some x) k
      → k ≤ n
      → k ≤ depth
      → x ≢ this
      → ¬ Above w x this
      → is_free_of depth w this start (some x) ≡ true
  is_free_of_complete {w} this zero x hs (under h) le enough other free = ground arith
  is_free_of_complete {w} this {start} (suc depth) x hs (under {n = k} h) le enough other free =
      is_free_of-round depth w this start x other (not_start h hs (omega arith))
        (elim (Option-cases (parent_get w x)) [
          | inl e ↦ rw e (is_free_of-none depth w this start)
          | inr (y, e) ↦
              let up = parent_get-parent_of w x y e in
              rw e (
                is_free_of_complete this depth y hs (subst (λ q. Height w q k) e h) (omega arith)
                  (omega arith)
                  (λ same. free (parent (subst (λ t. parent_of w x ≡ some t) same up)))
                  (λ above. free (beyond up above)))
        ])

  -- IsValidParent_ ends where the new parent has `n` nodes above it, itself included, and `depth` is
  -- no less; it then answers true exactly if the parent is not the node itself and the node, which is
  -- there, is not above it.
  pub is_valid_parent-exact :
      (depth : ℕ) (w : World D U) (this p n : ℕ)
      → is_some (w.nodes this) ≡ true
      → Height w (some p) n
      → n ≤ depth
      → (is_valid_parent depth w this (some p) ≡ true) ↔ ((p ≢ this) × (¬ Above w p this))
  is_valid_parent-exact depth w this p n there h enough = (
    (λ valid. is_free_of_sound depth w this (some p) p there (valid_loop depth w this p valid)),
    λ (other, free).
        unfold is_valid_parent in
        is_free_of_complete this depth p h h (omega arith) enough other free,
  )
