-- ===== src/Tests/Contracts.antt =====
-- Set, Insert and Erase of a node that holds a child and a number.
use xnode.Prelude.{
  some, ℕ, ◌≡◌, refl, Bool, true, not, ◌&&◌, none, List, [], ◌∷◌, codes, is_some, if◌then◌else◌,
  ◌==◌,
}
use xnode.Prelude.Int.{pos}
use xnode.Key.{XKey}
use xnode.Value
use xnode.Value.{XValue}
use xnode.Timed.{XTimed, absent, timed, empty_with_time}
use xnode.Container.{name}
use xnode.Container.Map
use xnode.Container.Erase.{XContainerMapWithErase}
use xnode.Node.Heap
use xnode.Node.Heap.{World}
use xnode.Node.Parents
use xnode.Node.Items
use xnode.Node.Atomic
use xnode.Container.Erase
use xnode.Container.Any
use xnode.Container.Any.{with_erase}
use xnode.Node.Items.{InsertRes}
use xnode.Node.Named.{put}
use xnode.Node.Named.Steps.{values}
use xnode.Node.Named.Contract.{agree, held, set-put, insert-put, erase-put}
use xnode.Tests.Data.{Item, floats}
use xnode.Tests.Heaps
use xnode.Tests.Heaps.{time, family, family_node, of_a, of_b}

abbrev items : XContainerMapWithErase Item
items = record { base = record { values_map = of_a ∷ of_b ∷ [] }; erased_values = 0 }

abbrev nine : XValue ℕ
nine = XValue.int64 (pos 9)

number_fits : (Parents.is_valid_child 5 family 0 nine).0 ≡ true
unfolding Heaps.program
number_fits = refl

abbrev old : XTimed ℕ
old = held items (codes "b")

abbrev after_set : (Bool × XTimed ℕ) × World ℕ (List ℕ)
after_set = Items.set floats time 5 family 0 (XKey.string (codes "b")) nine

set-put_example :
    (after_set.0.0 ≡ (
      not (Value.eq floats old.value nine)
      && agree family 0 family_node (codes "b") old (timed (pos 100) nine)))
    × (values floats time 5 after_set.1 0 (codes "a")
        ≡ put after_set.0.0 (codes "b") nine (values floats time 5 family 0) (codes "a"))
set-put_example =
    set-put floats time 5 family 0 family_node items refl refl 98 [] 97 [] nine number_fits

abbrev after_insert : InsertRes ℕ × World ℕ (List ℕ)
after_insert = Items.insert floats time 5 family 0 (XKey.string (codes "c")) nine

insert-put_example :
    (after_insert.0.succeeded ≡ (
      not (is_some (Map.at items.base (name (codes "c"))))
      && agree family 0 family_node (codes "c") absent (timed (pos 100) nine)))
    × (values floats time 5 after_insert.1 0 (codes "c")
        ≡ put after_insert.0.succeeded (codes "c") nine (values floats time 5 family 0) (codes "c"))
insert-put_example =
    insert-put floats time 5 family 0 family_node items refl refl 99 [] 99 [] nine number_fits

abbrev after_erase : XTimed ℕ × World ℕ (List ℕ)
after_erase = Items.erase floats time 5 family 0 (XKey.string (codes "b"))

number_is_no_node : Value.object_ptr (values floats time 5 family 0 (codes "b")) ≡ none
unfolding Heaps.program
number_is_no_node = refl

erase-put_example :
    (after_erase.0.value ≡ (
      if agree family 0 family_node (codes "b") old (empty_with_time (pos 100))
      then values floats time 5 family 0 (codes "b")
      else XValue.empty))
    × (values floats time 5 after_erase.1 0 (codes "a")
        ≡ put
            (Value.has_value after_erase.0.value)
            (codes "b")
            XValue.empty
            (values floats time 5 family 0)
            (codes "a"))
erase-put_example =
    erase-put floats time 5 family 0 family_node items refl refl 98 [] 97 [] number_is_no_node

erased :
    (values floats time 5 family 0 (codes "b") ≡ XValue.int64 (pos 7))
    × (values floats time 5 after_erase.1 0 (codes "b") ≡ XValue.empty)
unfolding Heaps.program Items.erase Items.erase_in Heap.erased_value
erased = (refl, refl)

-- Node 0 after the item under "a" was erased.
abbrev erased_items : XContainerMapWithErase Item
erased_items = record {
  base = record {
    values_map = (codes "a", record { value = XValue.empty; timestamp = pos 3 }) ∷ of_b ∷ [];
  };
  erased_values = 1;
}

abbrev erased_world : World ℕ (List ℕ)
erased_world = record family {
  nodes = λ p.
      if p == 0 then some (record family_node { container = with_erase erased_items }) else none;
}

abbrev after_append : XTimed ℕ × World ℕ (List ℕ)
after_append = Atomic.append floats time 5 erased_world 0 (XKey.string (codes "a")) (codes "x")

-- Append to a name whose item was erased leaves it erased: Emplace finds the mark.
not_appended : values floats time 5 after_append.1 0 (codes "a") ≡ XValue.empty
unfolding Heaps.program Atomic.append Atomic.change_in Atomic.append_item Heap.erased_value
    Erase.for_each Erase.visit_live Erase.detect_erase Map.for_each Any.for_each
not_appended = refl
