-- ===== src/Value.antt =====
-- XValue (include/xvalue/xvalue.h, src/xvalue/xvalue.cpp): the variant, its tests and comparisons.
-- An object is its address, counted in objects. The kind of the bytes that `std::strcmp` compares
-- ends at the first zero byte.
pub mod Text
pub mod Convert
pub mod Make
use xnode.Prelude.{
  ℕ, ◌≤◌, Bool, true, false, not, ◌&&◌, ◌||◌, Option, none, some, List, [], ◌∷◌, if◌then◌else◌, ltb,
  leb, ◌==◌, min, Ordering,
}
use xnode.Prelude.Int.{ℤ, pos, negsuc, ◌-ℤ◌, eqb_ℤ, ltb_ℤ, to_int32, int64_max}
use xnode.Bytes.{Bytes, compare_bytes}
use xnode.Value.Text.{strtoll}

-- What the code uses of `double` and of the library's functions on it: the comparisons, `std::llround`,
-- the conversions, `std::atof`, `std::to_string` and the sum.
pub record Double (D : Type 0) : Type 0 where
  pub eq : D → D → Bool
  pub lt : D → D → Bool
  pub is_positive : D → Bool
  pub llround : D → ℤ
  pub from_int : ℤ → D
  pub from_uint : ℕ → D
  pub atof : Bytes → D
  pub to_text : D → Bytes
  pub add : D → D → D

-- XVariant, with the alternatives in its order.
pub data XValue (D : Type 0) : Type 0 where
  empty : XValue D
  null : XValue D
  bool : Bool → XValue D
  int64 : ℤ → XValue D
  uint64 : ℕ → XValue D
  double : D → XValue D
  string : Bytes → XValue D
  const_object : ℕ → XValue D
  object : ℕ → XValue D

-- XValue::ValueType
pub data ValueType : Type 0 where
  k_empty k_null k_bool k_int64 k_uint64 k_double k_string k_const_object k_object : ValueType

-- `std::strcmp` over the bytes before the first zero.
abbrev pub c_str : Bytes → Bytes
c_str [] = []
c_str (c ∷ s) = if c == 0 then [] else c ∷ c_str s

module _ {D : Type 0} where
  unfoldable pub variant_index : XValue D → ℕ
  variant_index empty = 0
  variant_index null = 1
  variant_index (bool b) = 2
  variant_index (int64 a) = 3
  variant_index (uint64 n) = 4
  variant_index (double d) = 5
  variant_index (string s) = 6
  variant_index (const_object p) = 7
  variant_index (object p) = 8

  unfoldable pub value_type : XValue D → ValueType
  value_type empty = k_empty
  value_type null = k_null
  value_type (bool b) = k_bool
  value_type (int64 a) = k_int64
  value_type (uint64 n) = k_uint64
  value_type (double d) = k_double
  value_type (string s) = k_string
  value_type (const_object p) = k_const_object
  value_type (object p) = k_object

  unfoldable pub is_object : XValue D → Bool
  is_object (const_object p) = true
  is_object (object p) = true
  is_object _ = false

  unfoldable pub is_attribute : XValue D → Bool
  is_attribute (bool b) = true
  is_attribute (int64 a) = true
  is_attribute (uint64 n) = true
  is_attribute (double d) = true
  is_attribute (string s) = true
  is_attribute _ = false

  unfoldable pub is_integer : XValue D → Bool
  is_integer (int64 a) = true
  is_integer (uint64 n) = true
  is_integer _ = false

  unfoldable pub is_empty : XValue D → Bool
  is_empty empty = true
  is_empty null = true
  is_empty (string []) = true
  is_empty _ = false

  -- `operator bool`
  unfoldable pub has_value : XValue D → Bool
  has_value empty = false
  has_value _ = true

  -- `StringView().data()`, null for what is no string
  unfoldable pub string_data : XValue D → Option Bytes
  string_data (string s) = some s
  string_data _ = none

  unfoldable pub object_ptr : XValue D → Option ℕ
  object_ptr (object p) = some p
  object_ptr _ = none

  unfoldable pub object_ptr_c : XValue D → Option ℕ
  object_ptr_c (const_object p) = some p
  object_ptr_c (object p) = some p
  object_ptr_c _ = none

abbrev bool_eq : Bool → Bool → Bool
bool_eq true b = b
bool_eq false b = not b

module _ {D : Type 0} (f : Double D) where
  unfoldable pub int64_of : ℤ → XValue D → ℤ
  int64_of default (bool b) = if b then pos 1 else pos 0
  int64_of default (int64 a) = a
  int64_of default (uint64 n) = pos (min n int64_max)
  int64_of default (double d) = f.llround d
  int64_of default (string s) = elim (strtoll s) [ none ↦ default | some a ↦ a ]
  int64_of default _ = default

  -- `==` of the variants. Two strings are equal there only if they are one object, in which case the
  -- comparison by bytes that follows finds them equal too.
  abbrev pub variant_eq : XValue D → XValue D → Bool
  variant_eq empty empty = true
  variant_eq null null = true
  variant_eq (bool a) (bool b) = bool_eq a b
  variant_eq (int64 a) (int64 b) = eqb_ℤ a b
  variant_eq (uint64 m) (uint64 n) = m == n
  variant_eq (double a) (double b) = f.eq a b
  variant_eq (const_object p) (const_object q) = p == q
  variant_eq (object p) (object q) = p == q
  variant_eq _ _ = false

  -- `<` of the variants, where both are no strings, no integers and no objects or differ in kind.
  abbrev pub variant_lt : XValue D → XValue D → Bool
  variant_lt (bool a) (bool b) = not a && b
  variant_lt (double a) (double b) = f.lt a b
  variant_lt a b = ltb (variant_index a) (variant_index b)

  -- `operator==`
  unfoldable pub eq : XValue D → XValue D → Bool
  unfolding is_integer int64_of string_data object_ptr_c
  eq a b =
      if variant_eq a b
      then true
      else if is_integer a && is_integer b
      then eqb_ℤ (int64_of (pos 0) a) (int64_of (pos 0) b)
      else elim (string_data a) [
        | some s ↦ elim (string_data b) [
          | some t ↦ elim (compare_bytes (c_str s) (c_str t)) [ Ordering.eq ↦ true | _ ↦ false ]
          | none ↦ false
        ]
        | none ↦ elim (object_ptr_c a) [
          | some p ↦ elim (object_ptr_c b) [ some q ↦ p == q | none ↦ false ]
          | none ↦ false
        ]
      ]

  -- Compare. Of `std::strcmp` only the sign is known.
  unfoldable pub compare_values : XValue D → XValue D → ℤ
  unfolding is_integer int64_of string_data object_ptr_c variant_index
  compare_values a b =
      let by_index : ℤ = if variant_lt a b then negsuc 0 else pos 1 in
      if variant_eq a b
      then pos 0
      else if is_integer a && is_integer b
      then to_int32 (int64_of (pos 0) a -ℤ int64_of (pos 0) b)
      else elim (string_data a) [
        | some s ↦ elim (string_data b) [
          | some t ↦ elim (compare_bytes (c_str s) (c_str t)) [
            | Ordering.lt ↦ negsuc 0
            | Ordering.eq ↦ pos 0
            | Ordering.gt ↦ pos 1
          ]
          | none ↦ by_index
        ]
        | none ↦ elim (object_ptr_c a) [
          | some p ↦ elim (object_ptr_c b) [ some q ↦ to_int32 (pos p -ℤ pos q) | none ↦ by_index ]
          | none ↦ by_index
        ]
      ]
