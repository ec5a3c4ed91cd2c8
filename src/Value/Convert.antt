-- ===== src/Value/Convert.antt =====
-- The conversions of XValue (src/xvalue/xvalue.cpp): Bool to String.
pub mod Ranges
pub mod Compare
use xnode.Prelude.{
  ℕ, ◌-◌, ◌^◌, ◌≤◌, Bool, true, false, ◌||◌, Option, none, some, List, [], ◌∷◌, if◌then◌else◌, ltb,
  leb, ◌==◌, length, codes,
}
use xnode.Prelude.Int.{ℤ, pos, negsuc, ltb_ℤ, int64_max}
use xnode.Bytes.{Bytes, same}
use xnode.Value.{
  Double, XValue, empty, null, bool, int64, uint64, double, string, const_object, object, int64_of,
  c_str,
}
use xnode.Value.Text.{strtoll, strtoull, show_ℕ, show_ℤ}

abbrev nonneg_or : ℤ → ℕ → ℕ
nonneg_or (pos n) r = n
nonneg_or (negsuc n) r = r

module _ {D : Type 0} (f : Double D) where
  unfoldable pub bool_of : Bool → XValue D → Bool
  bool_of default (bool b) = b
  bool_of default (int64 a) = ltb_ℤ (pos 0) a
  bool_of default (uint64 n) = ltb 0 n
  bool_of default (double d) = f.is_positive d
  bool_of default (string s) = same s (codes "true") || f.is_positive (f.atof s)
  bool_of default _ = default

  -- A string that starts with a minus is read as a signed number.
  unfoldable pub uint64_of : ℕ → ℕ → XValue D → ℕ
  uint64_of default negative_res (bool b) = if b then 1 else 0
  uint64_of default negative_res (uint64 n) = n
  uint64_of default negative_res (int64 a) = nonneg_or a negative_res
  uint64_of default negative_res (double d) = nonneg_or (f.llround d) negative_res
  uint64_of default negative_res (string []) = elim (strtoull []) [ none ↦ default | some n ↦ n ]
  uint64_of default negative_res (string (c ∷ s)) =
      if c == b'-'
      then elim (strtoll (c ∷ s)) [ none ↦ 0 | some a ↦ nonneg_or a negative_res ]
      else elim (strtoull (c ∷ s)) [ none ↦ default | some n ↦ n ]
  uint64_of default negative_res _ = default

  unfoldable pub int32_of : ℤ → XValue D → ℤ
  unfolding int64_of
  int32_of default v =
      let ll = int64_of f default v in
      if ltb_ℤ ll (negsuc (2 ^ 31 - 1))
      then negsuc (2 ^ 31 - 1)
      else if ltb_ℤ (pos (2 ^ 31 - 1)) ll
      then pos (2 ^ 31 - 1)
      else ll

  unfoldable pub uint32_of : ℕ → ℕ → XValue D → ℕ
  unfolding uint64_of
  uint32_of default negative_res v =
      let ull = uint64_of default negative_res v in if ltb (2 ^ 32 - 1) ull then 2 ^ 32 - 1 else ull

  unfoldable pub double_of : D → XValue D → D
  double_of default (bool b) = if b then f.from_uint 1 else f.from_uint 0
  double_of default (int64 a) = f.from_int a
  double_of default (uint64 n) = f.from_uint n
  double_of default (double d) = d
  double_of default (string s) = f.atof s
  double_of default _ = default

  unfoldable pub string_of : Bytes → XValue D → Bytes
  string_of default (bool b) = if b then codes "true" else codes "false"
  string_of default (int64 a) = show_ℤ a
  string_of default (uint64 n) = show_ℕ n
  string_of default (double d) = f.to_text d
  string_of default (string s) = s
  string_of default _ = default

module _ {D : Type 0} where
  unfoldable pub string_view_of : Bytes → XValue D → Bytes
  string_view_of default (string s) = s
  string_view_of default _ = default
