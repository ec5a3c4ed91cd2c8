-- ===== src/Tests/Containers.antt =====
-- The maps: src/xcontainer/impl/xcontainer_map.cpp and xcontainer_map_w_erase.cpp.
use xnode.Prelude.{◌≡◌, refl, true, false, none, some, List, [], ◌∷◌, codes, arith}
use xnode.Bytes.{compare_bytes}
use xnode.Container.{KeyType}
use xnode.Container.Map
use xnode.Container.Map.{XContainerMap}
use xnode.Container.Map.Order.{IsSorted}
use xnode.Container.Map.Lookup.{at-set, set-answer, at-emplace, at-erase}
use xnode.Container.Erase
use xnode.Container.Erase.{XContainerMapWithErase, is_erased_value}
use xnode.Container.Erase.Count.{IsCounted, count_erased}
use xnode.Container.Erase.Counted.{operations-IsCounted, size-count_live, count_live}
use xnode.Container.Erase.Live.{for_each_const-live, at-erase-mark, emplace_after_erase, live}
use xnode.Value
use xnode.Timed
use xnode.Tests.Data.{
  Item, items, one, two, three, mark, a, b, c, a_b, a_b_live, counting, clock, to_three,
}

program : Unit {0}
unfolding Map.find Map.insert_sorted Map.map_find Map.at Map.set Map.emplace Map.erase Map.settle
    Map.each Map.for_each Map.visit Map.for_each_const compare_bytes Erase.recount
    Erase.detect_erase Erase.size Erase.empty Erase.clear Erase.set Erase.emplace Erase.erase
    Erase.visit_live Erase.mark_erased Erase.for_each Erase.skip_erased Erase.for_each_const
    Value.eq Value.is_empty Timed.time_is_absent count_erased live count_live Map.is_key_valid
program = tt

sorted : IsSorted a_b.values_map
unfolding compare_bytes
sorted = ((refl, tt), (tt, tt))

after_set : Map.set items a_b c three counting 0 ≡ (
  true,
  items.default,
  record { values_map = (codes "a", one) ∷ (codes "b", two) ∷ (codes "c", three) ∷ [] },
  1,
)
unfolding program
after_set = refl

at-set_example : Map.at (Map.set items a_b b three counting 0).2 b ≡ some three
unfolding program
at-set_example = at-set items a_b b b three counting 0

set_answered :
    ((Map.set items a_b b three counting 0).0 ≡ true)
    × ((Map.set items a_b b three counting 0).1 ≡ two)
    × ((Map.set items a_b b three counting 0).3 ≡ 1)
unfolding program
set_answered = set-answer items a_b b b three counting 0

at-emplace_example :
    ((Map.emplace items a_b c three counting 0).0.succeeded ≡ true)
    × (Map.at (Map.emplace items a_b c three counting 0).1 a ≡ some one)
unfolding program
at-emplace_example = at-emplace items a_b c a three counting 0

at-erase_example :
    ((Map.erase items a_b a counting 0).0 ≡ some one)
    × (Map.at (Map.erase items a_b a counting 0).1 b ≡ some two)
unfolding program
at-erase_example = at-erase items a_b a b counting 0 sorted

operations-IsCounted_example :
    IsCounted items (Erase.set items a_b_live b mark counting 0).2
    × IsCounted items (Erase.emplace items a_b_live b mark counting 0).1
    × IsCounted items (Erase.erase items clock a_b_live b counting 0).1
    × IsCounted items (Erase.for_each items clock a_b_live (some to_three) none counting 0).1
    × IsCounted items (Erase.clear a_b_live)
unfolding program
operations-IsCounted_example =
    operations-IsCounted items clock a_b_live b mark (some to_three) none counting 0 refl refl

size-count_live_example : (Erase.size a_b_live ≡ 2) × (Erase.empty a_b_live ≡ false)
unfolding program
size-count_live_example = size-count_live items a_b_live refl (omega arith)

abbrev a_gone : XContainerMapWithErase Item
a_gone = record {
  base = record { values_map = (codes "a", mark) ∷ (codes "b", two) ∷ [] };
  erased_values = 1;
}

for_each_const-live_example :
    Erase.for_each_const items a_gone
      (some (λ key val (s : List KeyType). (false, key ∷ s)))
      none
      []
    ≡ (true, b ∷ [])
unfolding program
for_each_const-live_example =
    for_each_const-live items a_gone (λ key val (s : List KeyType). (false, key ∷ s)) none []

at-erase-mark_example :
    ((Erase.erase items clock a_b_live a counting 0).0 ≡ some one)
    × (Map.at (Erase.erase items clock a_b_live a counting 0).1.base a ≡ some mark)
unfolding program
at-erase-mark_example = at-erase-mark items clock a_b_live a a counting 0

no_emplace_after_erase :
    Erase.emplace items (Erase.erase items clock a_b_live a counting 0).1 a three counting 0 ≡ (
      record { succeeded = false; inserted_at = a; existed = mark },
      (Erase.erase items clock a_b_live a counting 0).1,
      0,
    )
unfolding program
no_emplace_after_erase = emplace_after_erase items clock a_b_live a three counting counting 0 0 refl
