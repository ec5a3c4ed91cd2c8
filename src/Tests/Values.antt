-- ===== src/Tests/Values.antt =====
-- Values: src/xvalue/xvalue.cpp.
use xnode.Prelude.{
  ℕ, ◌+◌, ◌-◌, ◌^◌, ◌≡◌, refl, true, false, some, none, arith, codes, ◌⊎◌, min, ◌↔◌,
}
use xnode.Prelude.Int.{pos, negsuc, ◌≤ℤ◌, int64_max}
use xnode.Bytes.{compare_bytes}
use xnode.Path
use xnode.Value
use xnode.Value.{XValue, is_object, object_ptr, object_ptr_c}
use xnode.Value.Make.{of_object, of_const_object, reset, object_ptr-of_object}
use xnode.Value.Text
use xnode.Value.Convert
use xnode.Value.Convert.Ranges.{int32_of_bounds, uint32_of-min, int64_of-string_of}
use xnode.Value.Convert.Compare.{eq_comm, compare_values_near, compare_values_far, eq_clamped}
use xnode.Tests.Data.{floats}

program : Unit {0}
unfolding Value.int64_of Value.eq Value.compare_values Text.skip_spaces Text.digit_of
    Text.read_digits Text.read_number Text.read_signed Text.strtoll Text.strtoull Text.show_ℕ
    Text.show_ℤ Convert.uint64_of Convert.int32_of Convert.uint32_of Convert.string_of Path.decimal
    compare_bytes
program = tt

-- Uint64 of a text that is no number but starts with a minus is 0, not the default.
minus_alone : Convert.uint64_of floats 7 9 (XValue.string (codes "-")) ≡ 0
unfolding program
minus_alone = refl

-- Uint64 of a negative number behind a space wraps around.
space_minus : Convert.uint64_of floats 7 9 (XValue.string (codes " -5")) ≡ 2 ^ 64 - 5
unfolding program
space_minus = refl

hexadecimal : Value.int64_of floats (pos 0) (XValue.string (codes "-0x1F")) ≡ negsuc 30
unfolding program
hexadecimal = refl

abbrev big : XValue ℕ
big = XValue.int64 (pos (2 ^ 40))

int32_of_bounds_example :
    (negsuc (2 ^ 31 - 1) ≤ℤ Convert.int32_of floats (pos 0) big)
    × (Convert.int32_of floats (pos 0) big ≤ℤ pos (2 ^ 31 - 1))
    × ((Convert.int32_of floats (pos 0) big ≡ Value.int64_of floats (pos 0) big)
        ⊎ (((Convert.int32_of floats (pos 0) big ≡ pos (2 ^ 31 - 1))
              × (Convert.int32_of floats (pos 0) big ≤ℤ Value.int64_of floats (pos 0) big))
            ⊎ ((Convert.int32_of floats (pos 0) big ≡ negsuc (2 ^ 31 - 1))
                × (Value.int64_of floats (pos 0) big ≤ℤ Convert.int32_of floats (pos 0) big))))
int32_of_bounds_example = int32_of_bounds floats big (pos 0)

large_clamped :
    Convert.uint32_of floats 0 0 big ≡ min (Convert.uint64_of floats 0 0 big) (2 ^ 32 - 1)
large_clamped = uint32_of-min floats big 0 0

int64_of-string_of_example :
    Value.int64_of floats
      (pos 7)
      (XValue.string (Convert.string_of floats (codes "") (XValue.int64 (negsuc 1041))))
    ≡ negsuc 1041
int64_of-string_of_example =
    int64_of-string_of floats (negsuc 1041) (pos 7) (codes "") (omega arith)

floats_comm : (c d : ℕ) → floats.eq c d ≡ floats.eq d c
floats_comm c d = ground arith

eq_both_ways :
    Value.eq floats (XValue.string (codes "a")) big
    ≡ Value.eq floats big (XValue.string (codes "a"))
eq_both_ways = eq_comm floats (XValue.string (codes "a")) big floats_comm

compare_values_near_example :
    (Value.compare_values floats (XValue.int64 (pos 3)) (XValue.int64 (negsuc 4)) ≡ pos 8)
    × ((Value.compare_values floats (XValue.int64 (pos 3)) (XValue.int64 (negsuc 4)) ≡ pos 0)
        ↔ (Value.eq floats (XValue.int64 (pos 3)) (XValue.int64 (negsuc 4)) ≡ true))
compare_values_near_example =
    compare_values_near floats (pos 3) (negsuc 4) (omega arith) (omega arith)

compared_by_multiples :
    (Value.compare_values floats (XValue.int64 (pos (2 ^ 32 + 5))) (XValue.int64 (pos 5)) ≡ pos 0)
    × (Value.eq floats (XValue.int64 (pos (2 ^ 32 + 5))) (XValue.int64 (pos 5)) ≡ false)
compared_by_multiples = compare_values_far floats (pos 5) 0

clamped_values :
    (Value.eq floats (XValue.uint64 int64_max) (XValue.uint64 (int64_max + 7)) ≡ true)
    × (Value.eq floats (XValue.uint64 int64_max) (XValue.int64 (pos int64_max)) ≡ true)
clamped_values = eq_clamped floats int64_max (int64_max + 7) (omega arith) (omega arith)

five_as_object :
    (object_ptr (of_object {D = ℕ} (some 5)) ≡ some 5)
    × (object_ptr_c (of_object {D = ℕ} (some 5)) ≡ some 5)
    × (object_ptr_c (of_const_object {D = ℕ} (some 5)) ≡ some 5)
    × (object_ptr (of_const_object {D = ℕ} (some 5)) ≡ none)
    × (is_object (of_object {D = ℕ} (some 5)) ≡ true)
    × (is_object (of_const_object {D = ℕ} (some 5)) ≡ true)
    × (is_object (reset (of_object {D = ℕ} (some 5))) ≡ false)
five_as_object = object_ptr-of_object ℕ (some 5)
