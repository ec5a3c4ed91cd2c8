-- ===== src/Tests/Data.antt =====
-- Values, containers and callbacks that the tests share.
use xnode.Prelude.{ℕ, ◌+◌, ◌==◌, ltb, true, some, [], ◌∷◌, codes}
use xnode.Prelude.Int.{pos, pos_part}
use xnode.Container.{KeyType, name, next, Mapped, OnChange, OnEach}
use xnode.Container.Map.{XContainerMap}
use xnode.Container.Array.{XContainerArray}
use xnode.Container.Erase.{XContainerMapWithErase}
use xnode.Value.{Double, XValue}
use xnode.Timed.{XTimed, mapped}

-- Numbers in place of doubles.
abbrev pub floats : Double ℕ
floats = record {
  eq = λ a b. a == b;
  lt = λ a b. ltb a b;
  is_positive = λ a. ltb 0 a;
  llround = λ a. pos a;
  from_int = λ a. pos_part a;
  from_uint = λ n. n;
  atof = λ s. 0;
  to_text = λ d. [];
  add = λ a b. a + b;
}

abbrev pub Item : Type 0
Item = XTimed ℕ

abbrev pub items : Mapped Item
items = mapped floats

abbrev pub one : Item
one = record { value = XValue.int64 (pos 1); timestamp = pos 11 }

abbrev pub two : Item
two = record { value = XValue.int64 (pos 2); timestamp = pos 12 }

abbrev pub three : Item
three = record { value = XValue.int64 (pos 3); timestamp = pos 13 }

-- The mark of an entry that was erased at time 14.
abbrev pub mark : Item
mark = record { value = XValue.empty; timestamp = pos 14 }

abbrev pub a : KeyType
a = name (codes "a")

abbrev pub b : KeyType
b = name (codes "b")

abbrev pub c : KeyType
c = name (codes "c")

abbrev pub a_b : XContainerMap Item
a_b = record { values_map = (codes "a", one) ∷ (codes "b", two) ∷ [] }

abbrev pub a_b_live : XContainerMapWithErase Item
a_b_live = record { base = a_b; erased_values = 0 }

abbrev pub one_two : XContainerArray Item
one_two = record { values_deq = one ∷ two ∷ [] }

-- A callback that approves and counts its calls.
abbrev pub counting : OnChange Item ℕ
counting = some λ key from to s. (true, s + 1)

abbrev pub clock : ℕ → Item × ℕ
clock s = (mark, s)

-- Puts `three` in the place of each value and goes on.
abbrev pub to_three : OnEach Item ℕ
to_three key val s = (next, three, s)
