-- ===== src/Value/Convert/Compare.antt =====
-- `operator==` and Compare of XValue on integers, strings and objects.
use xnode.Prelude.{ℕ, suc, ◌*◌, ◌^◌, ◌≤◌, ◌<◌, ◌≡◌, refl, true, false, arith, ◌↔◌}
use xnode.Prelude.Int.{ℤ, pos, ◌-ℤ◌, ◌+ℤ◌, int64_max, pos_part, neg_part}
use xnode.Bytes.{compare_bytes_self, eq_of_compare_bytes}
use xnode.Value.{
  Double, XValue, empty, null, bool, int64, uint64, double, string, const_object, object, eq,
  compare_values, c_str,
}

module _ {D : Type 0} (f : Double D) where
  -- `==` does not depend on the order of its operands, if it does not on doubles.
  pub eq_comm : (a b : XValue D) → ((c d : D) → f.eq c d ≡ f.eq d c) → eq f a b ≡ eq f b a
  unfolding eq
  eq_comm empty empty h = refl
  eq_comm null null h = refl
  eq_comm (bool a) (bool b) h = ground arith
  eq_comm (int64 a) (int64 b) h = ground arith
  eq_comm (uint64 m) (uint64 n) h = ground arith
  eq_comm (double c) (double d) h = ground (arith, h c d)
  eq_comm (string s) (string t) h = ground (
    arith,
    eq_of_compare_bytes (c_str s) (c_str t),
    eq_of_compare_bytes (c_str t) (c_str s),
    compare_bytes_self (c_str s),
  )
  eq_comm (const_object p) (const_object q) h = ground arith
  eq_comm (object p) (object q) h = ground arith
  eq_comm _ _ h = ground arith

  -- Compare of two int64_t that differ by less than 2 ^ 31 is their difference, so its sign tells
  -- which is less, and it is 0 exactly where they are equal.
  pub compare_values_near :
      (a b : ℤ)
      → pos_part (a -ℤ b) < 2 ^ 31
      → neg_part (a -ℤ b) < 2 ^ 31
      → (compare_values f (int64 a) (int64 b) ≡ a -ℤ b)
        × ((compare_values f (int64 a) (int64 b) ≡ pos 0) ↔ (eq f (int64 a) (int64 b) ≡ true))
  unfolding compare_values eq
  compare_values_near a b p n = ground arith

  -- Compare of two int64_t that differ by a multiple of 2 ^ 32 is 0, although `==` tells them apart.
  pub compare_values_far :
      (a : ℤ) (k : ℕ)
      → (compare_values f (int64 (a +ℤ pos (suc k * 2 ^ 32))) (int64 a) ≡ pos 0)
        × (eq f (int64 (a +ℤ pos (suc k * 2 ^ 32))) (int64 a) ≡ false)
  unfolding compare_values eq
  compare_values_far a k = ground arith

  -- `==` finds any two uint64_t equal that are at least the greatest int64_t, since both are
  -- compared as the greatest int64_t.
  pub eq_clamped :
      (m n : ℕ)
      → int64_max ≤ m
      → int64_max ≤ n
      → (eq f (uint64 m) (uint64 n) ≡ true) × (eq f (uint64 m) (int64 (pos int64_max)) ≡ true)
  unfolding eq
  eq_clamped m n p q = ground arith
