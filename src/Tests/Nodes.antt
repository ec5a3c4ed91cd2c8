-- ===== src/Tests/Nodes.antt =====
-- The parts of a node: src/xnode/impl/xcontainer_match_impl.cpp and xparent_validator_impl.cpp.
use xnode.Prelude.{◌≡◌, refl, true, false, [], ◌∷◌, arith, codes}
use xnode.Key.{XKey}
use xnode.Container.{KeyType, index, monostate, name, idx_last}
use xnode.Container.Erase.{XContainerMapWithErase}
use xnode.Container.Array
use xnode.Container.Array.{XContainerArray}
use xnode.Container.Any.{IContainer, with_erase}
use xnode.Container.Erase.Live.{live}
use xnode.Container.Erase.Count.{count_erased}
use xnode.Node
use xnode.Node.{NodeType}
use xnode.Node.Match.{container_key, node_key, container_key-live}
use xnode.Node.Validator.{
  IParentValidator, find_duplicates, remove_duplicates, first_index, remove_at,
  find_duplicates-first_index, remove_duplicates-first_index, set_last_removed,
}
use xnode.Value
use xnode.Timed
use xnode.Tests.Data.{Item, items, one, two, three, mark, one_two, counting}

program : Unit {0}
unfolding container_key find_duplicates remove_duplicates first_index remove_at live count_erased
    Value.eq Value.is_empty Timed.time_is_absent Array.deq_find Array.set Array.grow
    Node.node_container node_key
program = tt

-- "a" is erased, so "b" and "c" are at the positions 0 and 1.
abbrev a_gone : XContainerMapWithErase Item
a_gone = record {
  base = record { values_map = (codes "a", mark) ∷ (codes "b", two) ∷ (codes "c", three) ∷ [] };
  erased_values = 1;
}

new_map :
    Node.node_container {V = Item} NodeType.map
    ≡ with_erase record { base = record { values_map = [] }; erased_values = 0 }
unfolding program
new_map = refl

container_key-live_example :
    (container_key items (with_erase a_gone) (XKey.index 1) true ≡ name (codes "c"))
    × ((container_key items (with_erase a_gone) (XKey.string (codes "x")) true ≡ name (codes "x"))
        × (container_key items (with_erase a_gone) XKey.empty true ≡ monostate)
        × (container_key items (with_erase a_gone) (XKey.index 1) false ≡ index 1))
    × (container_key items (IContainer.array one_two) (XKey.index 7) true ≡ index 7)
unfolding program
container_key-live_example =
    container_key-live items a_gone 1 (codes "x") (index 7) one_two true refl (omega arith)

abbrev clock : KeyType → Item × KeyType
clock s = (mark, s)

two_found_first :
    (find_duplicates items IParentValidator.array (IContainer.array one_two) two ≡ (index 1, two))
    × (find_duplicates items IParentValidator.map (with_erase a_gone) two
        ≡ (monostate, items.default))
unfolding program
two_found_first = find_duplicates-first_index items one_two (with_erase a_gone) two

abbrev two_one_two : XContainerArray Item
two_one_two = record { values_deq = two ∷ one ∷ two ∷ [] }

remove_duplicates-first_index_example :
    (remove_duplicates items clock IParentValidator.array
        (IContainer.array two_one_two)
        two
        (index 0)
      ≡ (index 2, IContainer.array record { values_deq = two ∷ one ∷ [] }))
    × (remove_duplicates items clock IParentValidator.map (with_erase a_gone) two (index 0)
        ≡ (monostate, with_erase a_gone))
unfolding program
remove_duplicates-first_index_example =
    remove_duplicates-first_index items clock two_one_two (with_erase a_gone) two (index 0)

set_last_removes :
    remove_duplicates items clock IParentValidator.array
      (IContainer.array (Array.set items one_two (index idx_last) three counting 0).2)
      three
      (index idx_last)
    ≡ (index 1, IContainer.array record { values_deq = one ∷ [] })
unfolding program
set_last_removes =
    set_last_removed items clock (one ∷ []) two three counting 0 (refl, tt) refl (omega arith) refl
