-- ===== src/Callbacks/Run.antt =====
-- DoCallbacks of XNodeCallbacks (src/xnode/impl/xnode_callbacks.cpp): which callbacks are told of a
-- change, and which of its rollback.
use xnode.Prelude.{
  ℕ, ◌<◌, ◌≡◌, refl, ap, ◌∙◌, subst, Bool, true, false, Option, none, some, List, [], ◌∷◌, ◌++◌,
  ◌==◌, if◌then◌else◌, is_some, arith,
}
use xnode.Callbacks.{
  CallbackReason, Change, Callback, XNodeCallbacks, refuses, reason, reversed, call_all, roll_back,
  remove_all, do_callbacks, remove, find,
}
use xnode.Callbacks.Order.{Ascends, IsOrdered, Ascends-remove, find-remove}

refuses-true : (answer : Option Bool) → refuses true answer ≡ false
refuses-true answer = ground arith

abbrev pub has_id : ℕ → List ℕ → Bool
has_id j [] = false
has_id j (i ∷ ids) = if j == i then true else has_id j ids

module _ {ℓ} {N V S : Type ℓ} where
  -- Every callback is called once, in the order of the ids.
  unfoldable pub call_each : CallbackReason → Change N V → List (ℕ × Callback N V S) → S → S
  call_each why change [] s = s
  call_each why change ((i, f) ∷ l) s = call_each why change l (f why change s).1

  -- None of the callbacks refuses the change, as each is called after those before it.
  abbrev pub Accepts : Bool → Change N V → List (ℕ × Callback N V S) → S → Type 0
  Accepts no_discard change [] s = Unit
  Accepts no_discard change ((i, f) ∷ l) s =
      (refuses no_discard (f (reason no_discard) change s).0 ≡ false)
      × Accepts no_discard change l (f (reason no_discard) change s).1

  -- The ids of the callbacks that answer that they have expired.
  unfoldable pub expired_ids : CallbackReason → Change N V → List (ℕ × Callback N V S) → S → List ℕ
  expired_ids why change [] s = []
  expired_ids why change ((i, f) ∷ l) s =
      let later = expired_ids why change l (f why change s).1 in
      if is_some (f why change s).0 then later else i ∷ later

  call_all-accepted :
      (no_discard : Bool) (change : Change N V) (l : List (ℕ × Callback N V S)) (s : S)
      → Accepts no_discard change l s
      → call_all no_discard change l s ≡ (
        (expired_ids (reason no_discard) change l s, 0),
        call_each (reason no_discard) change l s,
      )
  unfolding call_all expired_ids call_each
  call_all-accepted no_discard change [] s h = refl
  call_all-accepted no_discard change ((i, f) ∷ l) s h =
      ground (arith, call_all-accepted no_discard change l (f (reason no_discard) change s).1 h.1)

  call_all-refused :
      (no_discard : Bool) (change : Change N V) (before after : List (ℕ × Callback N V S)) (id : ℕ)
      (f : Callback N V S) (s : S)
      → Accepts no_discard change before s
      → refuses no_discard
          (f (reason no_discard) change (call_each (reason no_discard) change before s)).0
        ≡ true
      → call_all no_discard change (before ++ (id, f) ∷ after) s ≡ (
        (expired_ids (reason no_discard) change before s, id),
        (f (reason no_discard) change (call_each (reason no_discard) change before s)).1,
      )
  unfolding call_all expired_ids call_each
  call_all-refused no_discard change [] after id f s h r = ground arith
  call_all-refused no_discard change ((i, g) ∷ before) after id f s h r = ground (
    arith,
    call_all-refused no_discard change before after id f (g (reason no_discard) change s).1 h.1 r,
  )

  roll_back-before :
      (k id : ℕ) (change : Change N V) (before after : List (ℕ × Callback N V S))
      (f : Callback N V S) (s : S)
      → Ascends k (before ++ (id, f) ∷ after)
      → (k < id)
        × (roll_back id change (before ++ (id, f) ∷ after) s
            ≡ call_each CallbackReason.rollback (reversed change) before s)
  unfolding roll_back call_each
  roll_back-before k id change [] after f s h = (h.0, ground arith)
  roll_back-before k id change ((i, g) ∷ before) after f s h =
      let ih =
        roll_back-before i id change before after f
          (g CallbackReason.rollback (reversed change) s).1 h.1 in
      (omega (arith, ih.0, h.0), ground (arith, ih))

  Accepts-no_discard :
      (change : Change N V) (l : List (ℕ × Callback N V S)) (s : S) → Accepts true change l s
  Accepts-no_discard change [] s = tt
  Accepts-no_discard change ((i, f) ∷ l) s = (
    refuses-true (f (reason true) change s).0,
    Accepts-no_discard change l (f (reason true) change s).1,
  )

  Ascends-remove_all :
      (ids : List ℕ) (l : List (ℕ × Callback N V S)) → Ascends 0 l → Ascends 0 (remove_all ids l)
  unfolding remove_all
  Ascends-remove_all [] l h = h
  Ascends-remove_all (i ∷ ids) l h = Ascends-remove_all ids (remove i l) (Ascends-remove 0 i l h)

  find-remove_all :
      (j : ℕ) (ids : List ℕ) (l : List (ℕ × Callback N V S))
      → Ascends 0 l
      → find j (remove_all ids l) ≡ (if has_id j ids then none else find j l)
  unfolding remove_all
  find-remove_all j [] l h = refl
  find-remove_all j (i ∷ ids) l h =
      ground
        (arith, find-remove_all j ids (remove i l) (Ascends-remove 0 i l h), find-remove 0 i j l h)

  -- If no callback refuses the change, DoCallbacks says so, and it has called each callback once, in
  -- the order of the ids, and removed those, and only those, that answered nothing, which stands for
  -- their having expired. This holds for a change that is not to be discarded, too.
  pub do_callbacks-accepted :
      (no_discard : Bool) (change : Change N V) (c : XNodeCallbacks N V S) (s : S) (j : ℕ)
      → IsOrdered c
      → Accepts no_discard change c.callbacks_map s
      → ((do_callbacks change no_discard c s).0.0 ≡ true)
        × ((do_callbacks change no_discard c s).1
            ≡ call_each (reason no_discard) change c.callbacks_map s)
        × IsOrdered (do_callbacks change no_discard c s).0.1
        × (find j (do_callbacks change no_discard c s).0.1.callbacks_map ≡ (
            if has_id j (expired_ids (reason no_discard) change c.callbacks_map s)
            then none
            else find j c.callbacks_map))
  unfolding do_callbacks
  do_callbacks-accepted no_discard change c s j ordered h =
      let ids = expired_ids (reason no_discard) change c.callbacks_map s in
      rw (call_all-accepted no_discard change c.callbacks_map s h) (
        refl,
        refl,
        Ascends-remove_all ids c.callbacks_map ordered,
        find-remove_all j ids c.callbacks_map ordered,
      )

  -- A change that is not to be discarded is accepted whatever the callbacks answer, and each of them
  -- is called once, in the order of the ids.
  pub do_callbacks-no_discard :
      (change : Change N V) (c : XNodeCallbacks N V S) (s : S)
      → IsOrdered c
      → ((do_callbacks change true c s).0.0 ≡ true)
        × ((do_callbacks change true c s).1
            ≡ call_each CallbackReason.changes_no_discard change c.callbacks_map s)
  do_callbacks-no_discard change c s ordered =
      let (answer, called, kept, found) =
        do_callbacks-accepted true change c s 0 ordered
          (Accepts-no_discard change c.callbacks_map s) in
      (answer, called)

  -- If a callback refuses a change that may be discarded, and none before it does, DoCallbacks says
  -- so: the callbacks up to that one have been told of the change and those before it, the expired
  -- ones among them too, of its rollback, in the same order, and those after it of nothing. The
  -- expired ones are removed.
  pub do_callbacks-refused :
      (change : Change N V) (c : XNodeCallbacks N V S) (before after : List (ℕ × Callback N V S))
      (id : ℕ) (f : Callback N V S) (s : S)
      → IsOrdered c
      → c.callbacks_map ≡ before ++ (id, f) ∷ after
      → Accepts false change before s
      → (f CallbackReason.changes change (call_each CallbackReason.changes change before s)).0
        ≡ some false
      → ((do_callbacks change false c s).0.0 ≡ false)
        × ((do_callbacks change false c s).1
            ≡ call_each CallbackReason.rollback
                (reversed change)
                before
                (f CallbackReason.changes change
                  (call_each CallbackReason.changes change before s)).1)
        × ((do_callbacks change false c s).0.1.callbacks_map
            ≡ remove_all (expired_ids CallbackReason.changes change before s) c.callbacks_map)
  unfolding do_callbacks
  do_callbacks-refused change c before after id f s ordered at_f accepted refused =
      let s1 =
        (f CallbackReason.changes change (call_each CallbackReason.changes change before s)).1 in
      let called =
        ap (λ l. call_all false change l s) at_f
        ∙ call_all-refused false change before after id f s accepted (rw refused refl) in
      let (positive, rolled) =
        roll_back-before 0 id change before after f s1 (subst (Ascends 0) at_f ordered) in
      let rolled_back = ap (λ l. roll_back id change l s1) at_f ∙ rolled in
      let nonzero : (id == 0) ≡ false = ground (arith, positive) in
      rw (called, nonzero) (refl, rolled_back, refl)
