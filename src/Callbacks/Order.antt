-- ===== src/Callbacks/Order.antt =====
-- The callbacks of XNodeCallbacks (src/xnode/impl/xnode_callbacks.cpp) by their ids: adding and
-- removing them.
use xnode.Prelude.{
  ℕ, ◌+◌, ◌%◌, max, ◌≤◌, ◌<◌, ◌≡◌, refl, none, some, List, [], ◌∷◌, ◌==◌, if◌then◌else◌, is_some,
  word, arith,
}
use xnode.Callbacks.{
  Callback, XNodeCallbacks, last_id, put, remove, find, choose_id, on_change_add, on_change_remove,
}

module _ {ℓ} {N V S : Type ℓ} where
  -- The ids ascend strictly, from above k.
  abbrev pub Ascends : ℕ → List (ℕ × Callback N V S) → Type 0
  Ascends k [] = Unit
  Ascends k ((i, f) ∷ l) = (k < i) × Ascends i l

  -- The ids ascend strictly and none is 0, which stands for no callback.
  abbrev pub IsOrdered : XNodeCallbacks N V S → Type 0
  IsOrdered c = Ascends 0 c.callbacks_map

  Ascends-weaken : {j k : ℕ} (l : List (ℕ × Callback N V S)) → j ≤ k → Ascends k l → Ascends j l
  Ascends-weaken [] le h = tt
  Ascends-weaken ((i, f) ∷ l) le h = (omega arith, h.1)

  Ascends-put :
      (k id : ℕ) (f : Callback N V S) (l : List (ℕ × Callback N V S))
      → k < id
      → Ascends k l
      → Ascends k (put id f l)
  unfolding put
  Ascends-put k id f [] lt h = (lt, tt)
  Ascends-put k id f ((i, g) ∷ l) lt h = ground (arith, Ascends-put i id f l)

  pub Ascends-remove :
      (k id : ℕ) (l : List (ℕ × Callback N V S)) → Ascends k l → Ascends k (remove id l)
  unfolding remove
  Ascends-remove k id [] h = tt
  Ascends-remove k id ((i, g) ∷ l) h =
      ground (arith, Ascends-weaken {j = k} {k = i} l, Ascends-remove i id l)

  find-below : (k j : ℕ) (l : List (ℕ × Callback N V S)) → j ≤ k → Ascends k l → find j l ≡ none
  unfolding find
  find-below k j [] le h = refl
  find-below k j ((i, g) ∷ l) le h = ground (arith, find-below i j l)

  last_id-above :
      (k : ℕ) (e : ℕ × Callback N V S) (l : List (ℕ × Callback N V S))
      → Ascends k (e ∷ l)
      → k < last_id (e ∷ l)
  unfolding last_id
  last_id-above k (i, g) [] h = h.0
  last_id-above k (i, g) (e ∷ l) h = omega (arith, last_id-above i e l h.1)

  find-above :
      (k j : ℕ) (l : List (ℕ × Callback N V S)) → last_id l < j → Ascends k l → find j l ≡ none
  unfolding find last_id
  find-above k j [] lt h = refl
  find-above k j ((i, g) ∷ []) lt h = ground arith
  find-above k j ((i, g) ∷ e ∷ l) lt h = ground (arith, find-above i j (e ∷ l), last_id-above i e l)

  find-put :
      (k id j : ℕ) (f : Callback N V S) (l : List (ℕ × Callback N V S))
      → Ascends k l
      → find j (put id f l) ≡ (if j == id then some f else find j l)
  unfolding find put
  find-put k id j f [] h = refl
  find-put k id j f ((i, g) ∷ l) h = ground (arith, find-put i id j f l)

  pub find-remove :
      (k id j : ℕ) (l : List (ℕ × Callback N V S))
      → Ascends k l
      → find j (remove id l) ≡ (if j == id then none else find j l)
  unfolding find remove
  find-remove k id j [] h = ground arith
  find-remove k id j ((i, g) ∷ l) h = ground (arith, find-remove i id j l, find-below i j l)

  choose_id-positive :
      (uid id : ℕ) (l : List (ℕ × Callback N V S)) → 0 < uid → 0 < choose_id uid id l
  unfolding choose_id
  choose_id-positive uid id [] h = ground arith
  choose_id-positive uid id (e ∷ l) h = ground arith

  choose_id-fresh :
      (k uid : ℕ) (l : List (ℕ × Callback N V S))
      → last_id l + 1 < word
      → Ascends k l
      → find (choose_id uid 0 l) l ≡ none
  unfolding choose_id find
  choose_id-fresh k uid [] room h = refl
  choose_id-fresh k uid (e ∷ l) room h =
      find-above k (max ((last_id (e ∷ l) + 1) % word) uid) (e ∷ l) (omega arith) h

  -- OnChangeAdd of a callback keeps the ids in order, returns an id that is not 0, under which that
  -- callback is found, and leaves the others as they were; if it is given no id, the one it takes
  -- is no other callback's. This supposes that the uid it is given is not 0, and that the ids have
  -- not run to the end of their range.
  pub on_change_add-find :
      (uid id j : ℕ) (f : Callback N V S) (c : XNodeCallbacks N V S)
      → IsOrdered c
      → 0 < uid
      → last_id c.callbacks_map + 1 < word
      → IsOrdered (on_change_add uid (some f) id c).1
        × (0 < (on_change_add uid (some f) id c).0)
        × (find j (on_change_add uid (some f) id c).1.callbacks_map
            ≡ (if j == (on_change_add uid (some f) id c).0 then some f else find j c.callbacks_map))
        × (find (on_change_add uid (some f) 0 c).0 c.callbacks_map ≡ none)
  unfolding on_change_add
  on_change_add-find uid id j f c ordered h room =
      let l = c.callbacks_map in
      let chosen = choose_id uid id l in
      let positive = choose_id-positive uid id l h in
      (
        Ascends-put 0 chosen f l positive ordered,
        positive,
        find-put 0 chosen j f l ordered,
        choose_id-fresh 0 uid l room ordered,
      )

  -- OnChangeRemove keeps the ids in order, says whether a callback had the id, and leaves the
  -- callbacks with other ids, and none with this one.
  pub on_change_remove-find :
      (id j : ℕ) (c : XNodeCallbacks N V S)
      → IsOrdered c
      → IsOrdered (on_change_remove id c).1
        × ((on_change_remove id c).0 ≡ is_some (find id c.callbacks_map))
        × (find j (on_change_remove id c).1.callbacks_map
            ≡ (if j == id then none else find j c.callbacks_map))
  unfolding on_change_remove
  on_change_remove-find id j c ordered =
      let l = c.callbacks_map in (Ascends-remove 0 id l ordered, refl, find-remove 0 id j l ordered)
