-- ===== src/Value/Make.antt =====
-- The constructors of XValue (include/xvalue/xvalue.h), by the type of what they are given. A
-- pointer that may be null is an option; of the widths of integers only the signedness is kept.
use xnode.Prelude.{ℕ, ◌≡◌, refl, Bool, false, Option, none, some, [], is_some}
use xnode.Prelude.Int.{ℤ}
use xnode.Bytes.{Bytes}
use xnode.Value.{XValue, c_str, is_object, object_ptr, object_ptr_c}

module _ {D : Type 0} where
  -- XValue(nullptr), XValue(const void*): the pointer itself is dropped.
  unfoldable pub of_null : XValue D
  of_null = XValue.null

  unfoldable pub of_bool : Bool → XValue D
  of_bool b = XValue.bool b

  unfoldable pub of_signed : ℤ → XValue D
  of_signed z = XValue.int64 z

  unfoldable pub of_unsigned : ℕ → XValue D
  of_unsigned n = XValue.uint64 n

  unfoldable pub of_double : D → XValue D
  of_double d = XValue.double d

  -- A std::string or std::string_view, which may hold zero bytes.
  unfoldable pub of_string : Bytes → XValue D
  of_string s = XValue.string s

  -- A char*, which ends at its first zero byte; null is the empty text.
  unfoldable pub of_psz : Option Bytes → XValue D
  of_psz none = XValue.string []
  of_psz (some s) = XValue.string (c_str s)

  -- A shared_ptr of an object, const or not; null is the null value.
  unfoldable pub of_object : Option ℕ → XValue D
  of_object none = XValue.null
  of_object (some p) = XValue.object p

  unfoldable pub of_const_object : Option ℕ → XValue D
  of_const_object none = XValue.null
  of_const_object (some p) = XValue.const_object p

  unfoldable pub reset : XValue D → XValue D
  reset v = XValue.empty

module _ (D : Type 0) where
  -- A value that is made of a pointer gives that pointer back: as a const one in either case, as
  -- one that is not const only if it was given so. It is an object exactly where the pointer is not
  -- null, and no object once it is reset.
  pub object_ptr-of_object :
      (p : Option ℕ)
      → (object_ptr (of_object {D = D} p) ≡ p)
        × (object_ptr_c (of_object {D = D} p) ≡ p)
        × (object_ptr_c (of_const_object {D = D} p) ≡ p)
        × (object_ptr (of_const_object {D = D} p) ≡ none)
        × (is_object (of_object {D = D} p) ≡ is_some p)
        × (is_object (of_const_object {D = D} p) ≡ is_some p)
        × (is_object (reset (of_object {D = D} p)) ≡ false)
  unfolding object_ptr object_ptr_c of_object of_const_object is_object reset
  object_ptr-of_object none = (refl, refl, refl, refl, refl, refl, refl)
  object_ptr-of_object (some p) = (refl, refl, refl, refl, refl, refl, refl)
