-- ===== src/Value/Convert/Ranges.antt =====
-- The ranges of the conversions of XValue, and the text of an integer read back.
use xnode.Prelude.{
  ℕ, zero, suc, ◌+◌, ◌-◌, ◌/◌, ◌%◌, ◌^◌, ◌≤◌, ◌<◌, ◌≡◌, ◌≢◌, refl, sym, ap, ◌∙◌, true, false, some,
  [], ◌∷◌, ◌++◌, append_assoc, append-nil, ltb, min, arith, Bool-cases, inl, inr, ◌⊎◌,
}
use xnode.Prelude.Int.{ℤ, pos, negsuc, ◌≤ℤ◌, int64_max, pos_part, neg_part}
use xnode.Bytes.{Bytes}
use xnode.Path.{decimal}
use xnode.Value.{Double, XValue, int64, string, int64_of}
use xnode.Value.Text.{
  skip_spaces, digit_of, read_digits, read_number, read_signed, strtoll, show_ℕ, show_ℤ,
}
use xnode.Value.Convert.{uint64_of, int32_of, uint32_of, string_of}

abbrev pub FitsInt64 : ℤ → Type 0
FitsInt64 a = (pos_part a ≤ int64_max) × (neg_part a ≤ int64_max + 1)

module _ {D : Type 0} (f : Double D) (v : XValue D) where
  -- Int32 is within the range of int32_t: it is Int64, or the end of the range that Int64 is past.
  pub int32_of_bounds :
      (default : ℤ)
      → (negsuc (2 ^ 31 - 1) ≤ℤ int32_of f default v)
        × (int32_of f default v ≤ℤ pos (2 ^ 31 - 1))
        × ((int32_of f default v ≡ int64_of f default v)
            ⊎ (((int32_of f default v ≡ pos (2 ^ 31 - 1))
                  × (int32_of f default v ≤ℤ int64_of f default v))
                ⊎ ((int32_of f default v ≡ negsuc (2 ^ 31 - 1))
                    × (int64_of f default v ≤ℤ int32_of f default v))))
  unfolding int32_of
  int32_of_bounds default = ground arith

  -- Uint32 is the lesser of Uint64 and the greatest uint32_t.
  pub uint32_of-min :
      (default negative_res : ℕ)
      → uint32_of f default negative_res v ≡ min (uint64_of f default negative_res v) (2 ^ 32 - 1)
  unfolding uint32_of
  uint32_of-min default negative_res = ground arith

-- A decimal text starts with a digit, and with the digit 0 only if it is the text of 0.
decimal_first :
    (f n : ℕ) (r : Bytes)
    → n < f
    → (c : ℕ) × (t : Bytes) × (decimal f n ++ r ≡ c ∷ t)
      × (b'0' ≤ c)
      × (c ≤ b'9')
      × ((c ≡ b'0') → n ≡ 0)
unfolding decimal
decimal_first zero n r h = elim h [ ]
decimal_first (suc f) n r h = elim (Bool-cases (ltb n 10)) [
  | inl e ↦ (n + b'0', r, rw e, omega arith, ground arith, λ p. omega arith)
  | inr e ↦
      let (c, t, q, lo, hi, z) = decimal_first f (n / 10) ((n % 10 + b'0') ∷ r) (ground arith) in
      (
        c,
        t,
        rw (e, append_assoc) q,
        lo,
        hi,
        λ p. let big : 10 ≤ n = ground arith in omega (arith, z p),
      )
]

read_digits-decimal :
    (f n : ℕ) (r : Bytes) → n < f → read_digits 10 0 (decimal f n ++ r) ≡ read_digits 10 n r
unfolding read_digits digit_of decimal
read_digits-decimal zero n r h = elim h [ ]
read_digits-decimal (suc f) n r h = elim (Bool-cases (ltb n 10)) [
  | inl e ↦ rw e (ground arith)
  | inr e ↦
      rw (e, append_assoc)
        (read_digits-decimal f (n / 10) ((n % 10 + b'0') ∷ r) (ground arith) ∙ ground arith)
]

read_digits-nil : (n : ℕ) → read_digits 10 n [] ≡ n
unfolding read_digits
read_digits-nil n = refl

read_number-positive :
    (c : ℕ) (t : Bytes) (n : ℕ)
    → b'0' ≤ c
    → c ≤ b'9'
    → c ≢ b'0'
    → read_digits 10 0 (c ∷ t) ≡ n
    → read_number (c ∷ t) ≡ some n
unfolding read_number
read_number-positive c [] n lo hi z v = ground arith
read_number-positive c (d ∷ t) n lo hi z v = ground arith

read_number-decimal : (n : ℕ) → read_number (decimal (suc n) n) ≡ some n
unfolding read_number decimal
read_number-decimal zero = refl
read_number-decimal (suc n) =
    let (c, t, q, lo, hi, z) = decimal_first (suc (suc n)) (suc n) [] (omega arith) in
    let text = decimal (suc (suc n)) (suc n) in
    let e : text ≡ c ∷ t = sym (append-nil text) ∙ q in
    let value : read_digits 10 0 (c ∷ t) ≡ suc n =
      ap (read_digits 10 0) (sym q)
      ∙ read_digits-decimal (suc (suc n)) (suc n) [] (omega arith)
      ∙ read_digits-nil (suc n) in
    ap read_number e ∙ read_number-positive c t (suc n) lo hi (λ p. omega (arith, z p)) value

-- A text of decimal digits has neither a sign nor spaces in front.
skip_spaces-digit : (c : ℕ) (t : Bytes) → b'0' ≤ c → skip_spaces (c ∷ t) ≡ c ∷ t
unfolding skip_spaces
skip_spaces-digit c t lo = ground arith

read_signed-digit :
    (c : ℕ) (t : Bytes) (n : ℕ)
    → b'0' ≤ c
    → read_number (c ∷ t) ≡ some n
    → read_signed (c ∷ t) ≡ some (false, n)
unfolding read_signed
read_signed-digit c t n lo h = ground arith

read_signed-minus :
    (t : Bytes) (n : ℕ)
    → read_number t ≡ some n
    → read_signed (skip_spaces (b'-' ∷ t)) ≡ some (true, n)
unfolding read_signed skip_spaces
read_signed-minus t n h = rw h

read_signed-decimal : (n : ℕ) → read_signed (skip_spaces (decimal (suc n) n)) ≡ some (false, n)
read_signed-decimal n =
    let (c, t, q, lo, hi, z) = decimal_first (suc n) n [] (omega arith) in
    let e : decimal (suc n) n ≡ c ∷ t = sym (append-nil (decimal (suc n) n)) ∙ q in
    let number : read_number (c ∷ t) ≡ some n = ap read_number (sym e) ∙ read_number-decimal n in
    ap (λ s. read_signed (skip_spaces s)) e
    ∙ ap read_signed (skip_spaces-digit c t lo)
    ∙ read_signed-digit c t n lo number

strtoll-show_ℤ : (a : ℤ) → FitsInt64 a → strtoll (show_ℤ a) ≡ some a
unfolding strtoll show_ℤ show_ℕ
strtoll-show_ℤ (pos n) h = ground (arith, read_signed-decimal n)
strtoll-show_ℤ (negsuc n) h =
    ground (
      arith,
      read_signed-minus (decimal (suc (suc n)) (suc n)) (suc n) (read_number-decimal (suc n)),
    )

module _ {D : Type 0} (f : Double D) where
  -- The text of an int64_t, stored as a string, is read by Int64 as the number, whatever the default.
  pub int64_of-string_of :
      (a default : ℤ) (blank : Bytes)
      → FitsInt64 a
      → int64_of f default (string (string_of f blank (int64 a))) ≡ a
  unfolding int64_of string_of
  int64_of-string_of a default blank h = ground (arith, strtoll-show_ℤ a h)
