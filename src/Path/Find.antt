-- ===== src/Path/Find.antt =====
-- `find`, `take` and `drop` over a text that is put together of parts.
use xnode.Prelude.{
  ℕ, suc, ◌+◌, ◌≡◌, refl, ap, Bool, false, none, [], ◌∷◌, ◌++◌, length, ◌==◌, take, drop, arith,
}
use mathlib.Core.Option
use xnode.Bytes.{Bytes}
use xnode.Path.{find_delimiter, find_char}

pub take-append : (b r : Bytes) → take (length b) (b ++ r) ≡ b
take-append [] r = refl
take-append (c ∷ b) r = ap (◌∷◌ c) (take-append b r)

pub drop-append : (b r : Bytes) → drop (length b) (b ++ r) ≡ r
drop-append [] r = refl
drop-append (c ∷ b) r = drop-append b r

pub drop-append_more : (b r : Bytes) (n : ℕ) → drop (length b + n) (b ++ r) ≡ drop n r
drop-append_more [] r n = ap (λ t. drop t r) (omega arith)
drop-append_more (c ∷ b) r n =
    let e : suc (length b) + n ≡ suc (length b + n) = omega arith in rw e (drop-append_more b r n)

pub find_char-append :
    (x : ℕ) (b r : Bytes)
    → find_char x b ≡ none
    → find_char x (b ++ r) ≡ Option.map (λ n. length b + n) (find_char x r)
unfolding find_char
find_char-append x [] r h = ground arith
find_char-append x (c ∷ b) r h = ground (arith, find_char-append x b r)

abbrev pub ends_colon : Bytes → Bool
ends_colon [] = false
ends_colon (c ∷ []) = c == b':'
ends_colon (c ∷ d ∷ s) = ends_colon (d ∷ s)

pub find_delimiter-append :
    (c : ℕ) (b r : Bytes)
    → find_delimiter (c ∷ b) ≡ none
    → ends_colon (c ∷ b) ≡ false
    → find_delimiter ((c ∷ b) ++ r) ≡ Option.map (λ n. suc (length b) + n) (find_delimiter r)
unfolding find_delimiter
find_delimiter-append c [] [] h e = refl
find_delimiter-append c [] (d ∷ r) h e = ground arith
find_delimiter-append c (d ∷ b) r h e = ground (arith, find_delimiter-append d b r)
