-- ===== src/Path.antt =====
-- XPath (include/xkey/xpath.h, src/xkey/xpath.cpp): the list of keys, its text and its parser. The
-- position that `find` returns is an option, `none` for `npos`.
pub mod Find
pub mod Number
pub mod Split
pub mod RoundTrip
pub mod Ends
pub mod Fuel
use xnode.Prelude.{
  ℕ, zero, suc, ◌+◌, ◌-◌, ◌*◌, ◌/◌, ◌%◌, ◌^◌, Bool, true, false, not, ◌&&◌, ◌||◌, Option, none,
  some, List, [], ◌∷◌, ◌++◌, length, if◌then◌else◌, ltb, leb, ◌==◌, take, drop, is_some,
}
use mathlib.Core.Option
use xnode.Bytes.{Bytes}
use xnode.Key.{XKey, string_get, index_get, kind}
use xnode.Key

abbrev pub XPath : Type 0
XPath = List XKey

-- `_str.find("::")`, kKeyDelimiter of include/xconstant.h
unfoldable pub find_delimiter : Bytes → Option ℕ
find_delimiter [] = none
find_delimiter (c ∷ []) = none
find_delimiter (c ∷ d ∷ s) =
    if c == b':' && d == b':' then some 0 else Option.map suc (find_delimiter (d ∷ s))

-- `_str.find("[")`, `_str.find("]")`
unfoldable pub find_char : ℕ → Bytes → Option ℕ
find_char x [] = none
find_char x (c ∷ s) = if c == x then some 0 else Option.map suc (find_char x s)

abbrev pub is_digit : ℕ → Bool
is_digit c = leb b'0' c && leb c b'9'

abbrev pub starts_digit : Bytes → Bool
starts_digit [] = false
starts_digit (c ∷ s) = is_digit c

-- `pos_brace < pos_dots`, where `npos` is the greatest position
abbrev pub is_before : Option ℕ → Option ℕ → Bool
is_before none d = false
is_before (some b) none = true
is_before (some b) (some d) = ltb b d

-- The decimal digits at the start of a text.
unfoldable pub digits : ℕ → Bytes → ℕ
digits n [] = n
digits n (c ∷ s) = if is_digit c then digits (n * 10 + (c - b'0')) s else n

-- What follows the brace that closes a key.
abbrev pub after_brace : Option ℕ → Bytes → Bytes
after_brace none s = []
after_brace (some e) s = if leb (length s) (e + 1) then [] else drop (e + 1) s

-- `std::atoi` of a number that no `int` can hold is not defined: it is the parameter.
module _ (overflow : ℕ → ℕ) where
  unfoldable pub atoi : Bytes → ℕ
  unfolding digits
  atoi s = let n = digits 0 s in if ltb n (2 ^ 31) then n else overflow n

  -- The branch of _split_key for a text that starts with a brace.
  unfoldable pub split_brace : Bytes → XKey × Bytes
  unfolding atoi find_char
  split_brace s =
      let close = find_char b']' s in
      let inner : Bytes = elim close [ none ↦ drop 1 s | some e ↦ take (e - 1) (drop 1 s) ] in
      if starts_digit (drop 1 s)
      then (XKey.index (atoi (drop 1 s)), after_brace close s)
      else (XKey.string inner, after_brace close s)

  -- The branches of _split_key for a text that starts with neither a brace nor a delimiter.
  unfoldable pub split_plain : Bytes → XKey × Bytes
  unfolding find_char find_delimiter
  split_plain s =
      let brace = find_char b'[' s in
      let dots = find_delimiter s in
      if is_before brace dots
      then elim brace [
        | none ↦ (XKey.string s, [])
        | some b ↦
            if leb (length s) (b + 1)
            then (XKey.string s, [])
            else (XKey.string (take b s), drop b s)
      ]
      else elim dots [
        | none ↦ (XKey.string s, [])
        | some d ↦
            if leb (length s) (d + 2)
            then (XKey.string (take d s), [])
            else (XKey.string (take d s), drop (d + 2) s)
      ]

  -- _split_key. The fuel is the length of the text: each delimiter that is skipped shortens it.
  unfoldable pub split_key : ℕ → Bytes → XKey × Bytes
  unfolding split_brace split_plain
  split_key zero s = (XKey.string s, [])
  split_key (suc fuel) s =
      let skipped = split_key fuel (drop 2 s) in
      let brace = find_char b'[' s in
      let starts_with_brace : Bool = elim brace [
        | none ↦ false
        | some b ↦ b == 0 && ltb 1 (length s)
      ] in
      elim (find_delimiter s) [
        | none ↦ if starts_with_brace then split_brace s else split_plain s
        | some d ↦
            if d == 0 then skipped else if starts_with_brace then split_brace s else split_plain s
      ]

  -- _add_keys_str. The fuel is the length of the text: each key that is split off shortens it.
  unfoldable pub add_keys : ℕ → Bytes → XPath
  add_keys zero s = []
  add_keys (suc fuel) [] = []
  add_keys (suc fuel) (c ∷ s) =
      let (key, next_str) = split_key (length (c ∷ s)) (c ∷ s) in
      let later = add_keys fuel next_str in
      elim key [ XKey.string [] ↦ later | found ↦ found ∷ later ]

  unfoldable pub from_string : Bytes → XPath
  from_string s = add_keys (length s) s

-- `out << size_t`
unfoldable pub decimal : ℕ → ℕ → Bytes
decimal zero n = []
decimal (suc fuel) n =
    let more = decimal fuel (n / 10) in
    if ltb n 10 then (n + b'0') ∷ [] else more ++ ((n % 10 + b'0') ∷ [])

abbrev pub braced : Bytes → Bytes
braced s = b'[' ∷ s ++ b']' ∷ []

-- The keys that `to_string` puts in braces.
abbrev pub needs_braces : Bytes → Bool
needs_braces s =
    is_some (find_delimiter s) || (is_some (find_char b']' s) || is_some (find_char b'[' s))

-- The delimiter, unless nothing has been written.
abbrev pub delimiter : Bytes → Bytes
delimiter [] = []
delimiter (c ∷ s) = b':' ∷ b':' ∷ []

-- The loop of `to_string`, over what has been written.
unfoldable pub write : Bytes → XPath → Bytes
write out [] = out
write out (XKey.empty ∷ path) = write out path
write out (XKey.index i ∷ path) = write (out ++ braced (decimal (suc i) i)) path
write out (XKey.string s ∷ path) =
    write (if needs_braces s then out ++ braced s else out ++ (delimiter out ++ s)) path

unfoldable pub to_string : XPath → Bytes
to_string path = write [] path
