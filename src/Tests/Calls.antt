-- ===== src/Tests/Calls.antt =====
-- The change callbacks: src/xnode/impl/xnode_callbacks.cpp.
use xnode.Prelude.{
  ℕ, ◌+◌, ◌<◌, ◌≡◌, refl, Bool, true, false, Option, none, some, List, [], ◌∷◌, ◌++◌, arith, ◌==◌,
  if◌then◌else◌, is_some,
}
use xnode.Key.{XKey}
use xnode.Callbacks.{
  CallbackReason, Change, Callback, XNodeCallbacks, last_id, choose_id, put, find, remove,
  remove_all, on_change_add, on_change_remove, on_change_reset, do_callbacks, call_all, roll_back,
  reversed,
}
use xnode.Callbacks.Order.{IsOrdered, on_change_add-find, on_change_remove-find}
use xnode.Callbacks.Run.{
  call_each, expired_ids, has_id, do_callbacks-accepted, do_callbacks-no_discard,
  do_callbacks-refused,
}

program : Unit {0}
unfolding last_id choose_id put find remove remove_all on_change_add on_change_remove
    on_change_reset do_callbacks call_all roll_back call_each expired_ids
program = tt

-- A callback that writes down its number, and 10 more for a rollback, and gives one answer.
abbrev writes : ℕ → Option Bool → Callback ℕ ℕ (List ℕ)
writes n answer CallbackReason.rollback change s = (answer, s ++ (n + 10) ∷ [])
writes n answer _ change s = (answer, s ++ n ∷ [])

abbrev change : Change ℕ ℕ
change = record { node = 1; key = XKey.empty; from = 5; to = 6 }

-- The second has expired and the third refuses.
abbrev four : XNodeCallbacks ℕ ℕ (List ℕ)
four = record {
  callbacks_map =
      (1, writes 1 (some true))
      ∷ (4, writes 4 none)
      ∷ (6, writes 6 (some false))
      ∷ (9, writes 9 (some true))
      ∷ [];
}

abbrev before : List (ℕ × Callback ℕ ℕ (List ℕ))
before = (1, writes 1 (some true)) ∷ (4, writes 4 none) ∷ []

four-IsOrdered : IsOrdered four
four-IsOrdered = (omega arith, (omega arith, (omega arith, (omega arith, tt))))

refused_calls : (do_callbacks change false four []).1 ≡ 1 ∷ 4 ∷ 6 ∷ 11 ∷ 14 ∷ []
unfolding program
refused_calls = refl

reset_counts : (on_change_reset four).0 ≡ 4
unfolding program
reset_counts = refl

on_change_add-find_example :
    IsOrdered (on_change_add 3 (some (writes 2 none)) 0 four).1
    × (0 < (on_change_add 3 (some (writes 2 none)) 0 four).0)
    × (find 9 (on_change_add 3 (some (writes 2 none)) 0 four).1.callbacks_map ≡ (
        if 9 == (on_change_add 3 (some (writes 2 none)) 0 four).0
        then some (writes 2 none)
        else find 9 four.callbacks_map))
    × (find (on_change_add 3 (some (writes 2 none)) 0 four).0 four.callbacks_map ≡ none)
unfolding program
on_change_add-find_example =
    on_change_add-find 3 0 9 (writes 2 none) four four-IsOrdered (omega arith) (omega arith)

fourth_removed :
    IsOrdered (on_change_remove 4 four).1
    × ((on_change_remove 4 four).0 ≡ is_some (find 4 four.callbacks_map))
    × (find 6 (on_change_remove 4 four).1.callbacks_map
        ≡ (if 6 == 4 then none else find 6 four.callbacks_map))
fourth_removed = on_change_remove-find 4 6 four four-IsOrdered

abbrev two : XNodeCallbacks ℕ ℕ (List ℕ)
two = record { callbacks_map = before }

do_callbacks-accepted_example :
    ((do_callbacks change false two []).0.0 ≡ true)
    × ((do_callbacks change false two []).1 ≡ call_each CallbackReason.changes change before [])
    × IsOrdered (do_callbacks change false two []).0.1
    × (find 4 (do_callbacks change false two []).0.1.callbacks_map ≡ (
        if has_id 4 (expired_ids CallbackReason.changes change before [])
        then none
        else find 4 before))
do_callbacks-accepted_example =
    do_callbacks-accepted false change two [] 4 (omega arith, (omega arith, tt)) (refl, (refl, tt))

do_callbacks-no_discard_example :
    ((do_callbacks change true four []).0.0 ≡ true)
    × ((do_callbacks change true four []).1
        ≡ call_each CallbackReason.changes_no_discard change four.callbacks_map [])
do_callbacks-no_discard_example = do_callbacks-no_discard change four [] four-IsOrdered

do_callbacks-refused_example :
    ((do_callbacks change false four []).0.0 ≡ false)
    × ((do_callbacks change false four []).1
        ≡ call_each CallbackReason.rollback (reversed change) before (1 ∷ 4 ∷ 6 ∷ []))
    × ((do_callbacks change false four []).0.1.callbacks_map
        ≡ remove_all (expired_ids CallbackReason.changes change before []) four.callbacks_map)
unfolding program
do_callbacks-refused_example =
    do_callbacks-refused change four before ((9, writes 9 (some true)) ∷ []) 6
      (writes 6 (some false)) [] four-IsOrdered refl (refl, (refl, tt)) refl
