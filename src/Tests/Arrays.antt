-- ===== src/Tests/Arrays.antt =====
-- The deque: src/xcontainer/impl/xcontainer_array.cpp.
use xnode.Prelude.{ℕ, ◌+◌, ◌≡◌, refl, true, false, none, some, [], ◌∷◌, arith, length, codes}
use xnode.Container.{index, name, monostate, idx_last, idx_end}
use xnode.Container.Array
use xnode.Container.Array.{XContainerArray, Iterator, special_pos}
use xnode.Container.Array.Each
use xnode.Container.Array.Positions.{at-get_elem?}
use xnode.Container.Array.Writes.{set_positions}
use xnode.Container.Array.Inserts.{erase-emplace}
use xnode.Container.Array.Visits.{
  look_for, first_shown, for_each_const-positions, for_each_const-from_index,
}
use xnode.Value
use xnode.Tests.Data.{items, one, two, three, one_two, counting}

program : Unit {0}
unfolding Array.advance Array.locate Array.deq_find_const Array.deq_find Array.grow Array.at
    Array.set Array.emplace Array.erase Array.visit Array.for_each_const Each.settle Each.each
    Each.for_each Value.eq
program = tt

-- The deque grows to the index, also where the callback then refuses.
set_past_end :
    Array.set items one_two (index 3) three (some λ key from to (s : ℕ). (false, s + 1)) 0 ≡ (
      false,
      items.default,
      record { values_deq = one ∷ two ∷ items.default ∷ items.default ∷ [] },
      1,
    )
unfolding program
set_past_end = refl

-- The last of two values.
at-get_elem?_example :
    (Array.at one_two (index idx_last) ≡ some two)
    × (Array.at one_two (index idx_end) ≡ none)
    × (Array.at one_two (name (codes "a")) ≡ none)
    × (Array.at one_two monostate ≡ none)
at-get_elem?_example = at-get_elem? one_two idx_last (codes "a") (omega arith)

set_positions_example :
    ((Array.set items one_two (index 1) three counting 0).0 ≡ true)
    × ((Array.set items one_two (index 1) three counting 0).2.values_deq ≡ one ∷ three ∷ [])
unfolding program
set_positions_example = set_positions items one_two (index 1) three counting 0

erase-emplace_example :
    let e = Array.emplace items one_two (index 1) three counting 0 in
    (e.0.inserted_at ≡ index 1)
    × (length e.1.values_deq ≡ 3)
    × ((Array.erase items e.1 e.0.inserted_at counting 0).0 ≡ some three)
    × ((Array.erase items e.1 e.0.inserted_at counting 0).1 ≡ one_two)
unfolding program
erase-emplace_example =
    erase-emplace items one_two (index 1) three counting counting 0 0 (omega arith) refl refl

shown_positions : (Array.for_each_const one_two (some (look_for 1)) none none).1 ≡ some two
shown_positions = for_each_const-positions one_two 1

shown_from_index :
    Array.for_each_const one_two (some first_shown) (some (index 1)) none
    ≡ (true, some (index 0, two))
shown_from_index = for_each_const-from_index one_two 1 (omega arith) refl
