-- ===== src/Callbacks.antt =====
-- XNodeCallbacks (src/xnode/impl/xnode_callbacks.h and .cpp): the change callbacks of a node. What
-- the callbacks capture is a state that is passed through; the lock is held throughout a model's
-- operation, and the uid that `xbase::NextUid` gives is an argument.
pub mod Order
pub mod Run
use xnode.Prelude.{
  ℕ, suc, ◌+◌, ◌%◌, max, Bool, true, false, not, ◌&&◌, Option, none, some, List, [], ◌∷◌, ltb, ◌==◌,
  if◌then◌else◌, length, is_some, word,
}
use xnode.Key.{XKey}

-- INode::CallbackReason
pub data CallbackReason : Type 0 where
  changes changes_no_discard rollback : CallbackReason

-- What a change is shown with: the node, the key, the old and the new value.
pub record Change {ℓ} (N V : Type ℓ) : Type ℓ where
  pub node : N
  pub key : XKey
  pub from : V
  pub to : V

module _ {ℓ} (N V S : Type ℓ) where
  -- INode::OnChangePF: no answer if it has expired, else whether it agrees.
  abbrev pub Callback : Type ℓ
  Callback = CallbackReason → Change N V → S → Option Bool × S

  pub record XNodeCallbacks : Type ℓ where
    pub callbacks_map : List (ℕ × Callback)

-- Whether the answer stops the change: `!_no_discard && !res_opt.value()`.
abbrev pub refuses : Bool → Option Bool → Bool
refuses no_discard (some false) = not no_discard
refuses no_discard _ = false

abbrev pub reason : Bool → CallbackReason
reason true = CallbackReason.changes_no_discard
reason false = CallbackReason.changes

-- The change that undoes one.
abbrev pub reversed {ℓ} : {N V : Type ℓ} → Change N V → Change N V
reversed change = record change { from = change.to; to = change.from }

module _ {ℓ} {N V S : Type ℓ} where
  -- `callbacks_map_.rbegin()->first`, or 0.
  unfoldable pub last_id : List (ℕ × Callback N V S) → ℕ
  last_id [] = 0
  last_id ((i, f) ∷ []) = i
  last_id (_ ∷ e ∷ l) = last_id (e ∷ l)

  -- `callbacks_map_[id] = f`
  unfoldable pub put : ℕ → Callback N V S → List (ℕ × Callback N V S) → List (ℕ × Callback N V S)
  put id f [] = (id, f) ∷ []
  put id f ((i, g) ∷ l) =
      let rest = put id f l in
      if ltb id i then (id, f) ∷ (i, g) ∷ l else if id == i then (id, f) ∷ l else (i, g) ∷ rest

  -- `callbacks_map_.erase(id)`
  unfoldable pub remove : ℕ → List (ℕ × Callback N V S) → List (ℕ × Callback N V S)
  remove id [] = []
  remove id ((i, g) ∷ l) = let rest = remove id l in if id == i then l else (i, g) ∷ rest

  unfoldable pub find : ℕ → List (ℕ × Callback N V S) → Option (Callback N V S)
  find id [] = none
  find id ((i, g) ∷ l) = let later = find id l in if id == i then some g else later

  -- The id that OnChangeAdd takes.
  unfoldable pub choose_id : ℕ → ℕ → List (ℕ × Callback N V S) → ℕ
  unfolding last_id
  choose_id next_uid id [] = if id == 0 then next_uid else id
  choose_id next_uid id (e ∷ l) =
      if id == 0 then max ((last_id (e ∷ l) + 1) % word) next_uid else id

  unfoldable pub on_change_add :
      ℕ → Option (Callback N V S) → ℕ → XNodeCallbacks N V S → ℕ × XNodeCallbacks N V S
  unfolding choose_id put
  on_change_add next_uid none id c = (0, c)
  on_change_add next_uid (some f) id c =
      let chosen = choose_id next_uid id c.callbacks_map in
      (chosen, record { callbacks_map = put chosen f c.callbacks_map })

  unfoldable pub on_change_remove : ℕ → XNodeCallbacks N V S → Bool × XNodeCallbacks N V S
  unfolding remove find
  on_change_remove id c =
      (is_some (find id c.callbacks_map), record { callbacks_map = remove id c.callbacks_map })

  unfoldable pub on_change_reset : XNodeCallbacks N V S → ℕ × XNodeCallbacks N V S
  on_change_reset c = (length c.callbacks_map, record { callbacks_map = [] })

  -- The loop over the callbacks: those that have expired, and the one that failed or 0.
  unfoldable pub call_all : Bool → Change N V → List (ℕ × Callback N V S) → S → (List ℕ × ℕ) × S
  call_all no_discard change [] s = (([], 0), s)
  call_all no_discard change ((i, f) ∷ l) s =
      let (answer, s1) = f (reason no_discard) change s in
      let ((expired, failed), s2) = call_all no_discard change l s1 in
      if refuses no_discard answer
      then (([], i), s1)
      else if is_some answer
      then ((expired, failed), s2)
      else ((i ∷ expired, failed), s2)

  -- The loop that rolls back the callbacks before the one that failed.
  unfoldable pub roll_back : ℕ → Change N V → List (ℕ × Callback N V S) → S → S
  roll_back failed change [] s = s
  roll_back failed change ((i, f) ∷ l) s =
      let (answer, s1) = f CallbackReason.rollback (reversed change) s in
      let later = roll_back failed change l s1 in if i == failed then s else later

  unfoldable pub remove_all : List ℕ → List (ℕ × Callback N V S) → List (ℕ × Callback N V S)
  unfolding remove
  remove_all [] l = l
  remove_all (i ∷ expired) l = remove_all expired (remove i l)

  unfoldable pub do_callbacks :
      Change N V → Bool → XNodeCallbacks N V S → S → (Bool × XNodeCallbacks N V S) × S
  unfolding call_all roll_back remove_all
  do_callbacks change no_discard c s =
      let ((expired, failed), s1) = call_all no_discard change c.callbacks_map s in
      let s2 = if failed == 0 then s1 else roll_back failed change c.callbacks_map s1 in
      ((failed == 0, record { callbacks_map = remove_all expired c.callbacks_map }), s2)
