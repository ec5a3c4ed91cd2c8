-- ===== src/Path/Number.antt =====
-- The digits that an index is written with, read back.
use xnode.Prelude.{
  ℕ, zero, suc, ◌+◌, ◌/◌, ◌%◌, ◌<◌, ◌≡◌, refl, ◌∙◌, true, none, [], ◌∷◌, ◌++◌, ltb, arith,
  append_assoc, Bool-cases, inl, inr,
}
use xnode.Bytes.{Bytes}
use xnode.Path.{digits, decimal, starts_digit, find_char}
use xnode.Path.Find.{find_char-append}

pub digits-decimal : (f n : ℕ) (r : Bytes) → n < f → digits 0 (decimal f n ++ r) ≡ digits n r
unfolding digits decimal
digits-decimal zero n r h = elim h [ ]
digits-decimal (suc f) n r h = elim (Bool-cases (ltb n 10)) [
  | inl e ↦ rw e (ground arith)
  | inr e ↦
      rw (e, append_assoc)
        (digits-decimal f (n / 10) ((n % 10 + b'0') ∷ r) (ground arith) ∙ ground arith)
]

pub decimal_starts : (f n : ℕ) (r : Bytes) → n < f → starts_digit (decimal f n ++ r) ≡ true
unfolding decimal
decimal_starts zero n r h = elim h [ ]
decimal_starts (suc f) n r h = elim (Bool-cases (ltb n 10)) [
  | inl e ↦ rw e (ground arith)
  | inr e ↦ rw (e, append_assoc) (decimal_starts f (n / 10) ((n % 10 + b'0') ∷ r) (ground arith))
]

pub find_char-decimal : (f n : ℕ) → find_char b']' (decimal f n) ≡ none
unfolding decimal find_char
find_char-decimal zero n = refl
find_char-decimal (suc f) n = ground (
  arith,
  find_char-append b']' (decimal f (n / 10)) ((n % 10 + b'0') ∷ []),
  find_char-decimal f (n / 10),
)
