-- ===== src/Value/Text.antt =====
-- `std::strtoll` and `std::strtoull` at base 0, and `std::to_string` of integers, as
-- src/xvalue/xvalue.cpp calls them.
use xnode.Prelude.{
  ℕ, suc, ◌+◌, ◌-◌, ◌*◌, ◌%◌, Bool, true, false, ◌&&◌, ◌||◌, Option, none, some, [], ◌∷◌,
  if◌then◌else◌, ltb, leb, ◌==◌, min, word, is_some,
}
use xnode.Prelude.Int.{ℤ, pos, negsuc, int64_max, sub_ℕ}
use xnode.Bytes.{Bytes}
use xnode.Path.{decimal}

abbrev is_space : ℕ → Bool
is_space c = c == b' ' || (leb 9 c && leb c 13)

unfoldable pub skip_spaces : Bytes → Bytes
skip_spaces [] = []
skip_spaces (c ∷ s) = if is_space c then skip_spaces s else c ∷ s

-- The digit that a byte is, below 36.
unfoldable pub digit_of : ℕ → Option ℕ
digit_of c =
    if leb b'0' c && leb c b'9'
    then some (c - b'0')
    else if leb b'a' c && leb c b'z'
    then some (c - b'a' + 10)
    else if leb b'A' c && leb c b'Z'
    then some (c - b'A' + 10)
    else none

abbrev pub digit_in : ℕ → ℕ → Option ℕ
digit_in base c = elim (digit_of c) [ none ↦ none | some d ↦ if ltb d base then some d else none ]

unfoldable pub read_digits : ℕ → ℕ → Bytes → ℕ
read_digits base acc [] = acc
read_digits base acc (c ∷ s) = elim (digit_in base c) [
  | none ↦ acc
  | some d ↦ read_digits base (acc * base + d) s
]

-- The number at the start of the text in the base, where there is one.
abbrev pub read_base : ℕ → Bytes → Option ℕ
read_base base [] = none
read_base base (c ∷ s) =
    if is_some (digit_in base c) then some (read_digits base 0 (c ∷ s)) else none

-- Base 0: hexadecimal after `0x`, octal after `0`, else decimal.
unfoldable pub read_number : Bytes → Option ℕ
unfolding read_digits digit_of
read_number (c ∷ d ∷ s) =
    if c == b'0' && (d == b'x' || d == b'X')
    then elim (read_base 16 s) [ none ↦ some 0 | some n ↦ some n ]
    else read_base (if c == b'0' then 8 else 10) (c ∷ d ∷ s)
read_number s = read_base 10 s

-- The sign, and the number behind it; `none` where nothing is converted.
unfoldable pub read_signed : Bytes → Option (Bool × ℕ)
read_signed (c ∷ s) =
    if c == b'-'
    then elim (read_number s) [ none ↦ none | some n ↦ some (true, n) ]
    else if c == b'+'
    then elim (read_number s) [ none ↦ none | some n ↦ some (false, n) ]
    else elim (read_number (c ∷ s)) [ none ↦ none | some n ↦ some (false, n) ]
read_signed [] = none

-- Out of range the result is the nearest `int64_t`.
unfoldable pub strtoll : Bytes → Option ℤ
strtoll s = elim (read_signed (skip_spaces s)) [
  | none ↦ none
  | some (negative, n) ↦
      some (if negative then sub_ℕ 0 (min n (int64_max + 1)) else pos (min n int64_max))
]

-- A number with a minus is negated in the word; out of range the result is the greatest one.
unfoldable pub strtoull : Bytes → Option ℕ
unfolding skip_spaces read_signed
strtoull s = elim (read_signed (skip_spaces s)) [
  | none ↦ none
  | some (negative, n) ↦
      some (if ltb n word then (if negative then (word - n) % word else n) else word - 1)
]

unfoldable pub show_ℕ : ℕ → Bytes
show_ℕ n = decimal (suc n) n

unfoldable pub show_ℤ : ℤ → Bytes
unfolding show_ℕ
show_ℤ (pos n) = show_ℕ n
show_ℤ (negsuc n) = b'-' ∷ show_ℕ (suc n)
