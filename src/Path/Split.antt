-- ===== src/Path/Split.antt =====
-- What _split_key of XPath takes off a text that `to_string` put together.
use xnode.Prelude.{
  ℕ, suc, ◌^◌, ◌≤◌, ◌<◌, ◌≡◌, ◌≢◌, refl, ◌∙◌, true, false, none, some, [], ◌∷◌, ◌++◌, length,
  length-append, arith, append-nil, is_some,
}
use xnode.Bytes.{Bytes}
use xnode.Key.{XKey}
use xnode.Path.{
  find_delimiter, find_char, digits, is_digit, starts_digit, after_brace, split_brace, split_plain,
  split_key, decimal, needs_braces,
}
use xnode.Path.Find.{
  take-append, drop-append, drop-append_more, find_char-append, find_delimiter-append, ends_colon,
}
use xnode.Path.Number.{digits-decimal, decimal_starts, find_char-decimal}

-- The text behind a key that is written without braces, and what is left of it to parse.
pub data Joint : Bytes → Bytes → Type 0 where
  finish : Joint [] []
  delimited : (x : ℕ) (r : Bytes) → Joint (b':' ∷ b':' ∷ x ∷ r) (x ∷ r)
  opened : (x : ℕ) (r : Bytes) → Joint (b'[' ∷ x ∷ r) (b'[' ∷ x ∷ r)

find_close :
    (b r : Bytes)
    → find_char b']' b ≡ none
    → find_char b']' (b'[' ∷ (b ++ b']' ∷ r)) ≡ some (suc (length b))
unfolding find_char
find_close b r h = ground (arith, find_char-append b']' b (b']' ∷ r))

after_close : (b r : Bytes) → after_brace (some (suc (length b))) (b'[' ∷ (b ++ b']' ∷ r)) ≡ r
after_close b r =
    ground (arith, drop-append_more b (b']' ∷ r) 1, length-append b (b']' ∷ r), short r)
  where
    short : (r : Bytes) → length r ≤ 0 → r ≡ []
    short [] h = refl
    short (x ∷ r) h = absurd (omega arith)

find_char_not_first :
    (c : ℕ) (s r : Bytes)
    → is_some (find_char b'[' (c ∷ s)) ≡ false
    → find_char b'[' ((c ∷ s) ++ r) ≢ some 0
unfolding find_char
find_char_not_first c s r h = ground arith

module _ (overflow : ℕ → ℕ) where
  -- A text that starts with a brace, and is no brace alone, is split at the closing brace.
  split_key-brace :
      (f c : ℕ) (s : Bytes)
      → split_key overflow (suc f) (b'[' ∷ c ∷ s) ≡ split_brace overflow (b'[' ∷ c ∷ s)
  unfolding split_key find_delimiter find_char
  split_key-brace f c s = ground arith

  split_key-digit :
      (f : ℕ) (s : Bytes)
      → starts_digit s ≡ true
      → split_key overflow (suc f) (b'[' ∷ s) ≡ split_brace overflow (b'[' ∷ s)
  split_key-digit f [] h = cc
  split_key-digit f (c ∷ s) h = split_key-brace f c s

  pub split_key-delimiter :
      (f : ℕ) (s : Bytes) → split_key overflow (suc f) (b':' ∷ b':' ∷ s) ≡ split_key overflow f s
  unfolding split_key find_delimiter
  split_key-delimiter f s = refl

  split_brace-index :
      (i : ℕ) (r : Bytes)
      → i < 2 ^ 31
      → split_brace overflow (b'[' ∷ (decimal (suc i) i ++ b']' ∷ r)) ≡ (XKey.index i, r)
  unfolding split_brace digits
  split_brace-index i r small = ground (
    arith,
    find_close (decimal (suc i) i) r,
    find_char-decimal (suc i) i,
    after_close (decimal (suc i) i) r,
    decimal_starts (suc i) i (b']' ∷ r),
    digits-decimal (suc i) i (b']' ∷ r),
  )

  split_brace-string :
      (c : ℕ) (s r : Bytes)
      → find_char b']' (c ∷ s) ≡ none
      → is_digit c ≡ false
      → split_brace overflow (b'[' ∷ ((c ∷ s) ++ b']' ∷ r)) ≡ (XKey.string (c ∷ s), r)
  unfolding split_brace
  split_brace-string c s r h d =
      ground (arith, find_close (c ∷ s) r, after_close (c ∷ s) r, take-append (c ∷ s) (b']' ∷ r))

  -- A key without braces, with what may follow it.
  split_plain-Joint :
      (c : ℕ) (s : Bytes) {r next : Bytes}
      → Joint r next
      → needs_braces (c ∷ s) ≡ false
      → ends_colon (c ∷ s) ≡ false
      → split_plain overflow ((c ∷ s) ++ r) ≡ (XKey.string (c ∷ s), next)
  unfolding split_plain find_char find_delimiter
  split_plain-Joint c s finish plain e = ground (arith, append-nil s)
  split_plain-Joint c s (delimited x r) plain e = ground (
    arith,
    find_char-append b'[' (c ∷ s) (b':' ∷ b':' ∷ x ∷ r),
    find_delimiter-append c s (b':' ∷ b':' ∷ x ∷ r),
    take-append (c ∷ s) (b':' ∷ b':' ∷ x ∷ r),
    drop-append_more (c ∷ s) (b':' ∷ b':' ∷ x ∷ r) 2,
    length-append (c ∷ s) (b':' ∷ b':' ∷ x ∷ r),
  )
  split_plain-Joint c s (opened x r) plain e = ground (
    arith,
    find_char-append b'[' (c ∷ s) (b'[' ∷ x ∷ r),
    find_delimiter-append c s (b'[' ∷ x ∷ r),
    take-append (c ∷ s) (b'[' ∷ x ∷ r),
    drop-append (c ∷ s) (b'[' ∷ x ∷ r),
    length-append (c ∷ s) (b'[' ∷ x ∷ r),
  )

  -- What _split_key takes off: a key without braces, an index, a string in braces.
  pub split_key-plain :
      (f c : ℕ) (s : Bytes) {r next : Bytes}
      → Joint r next
      → needs_braces (c ∷ s) ≡ false
      → ends_colon (c ∷ s) ≡ false
      → split_key overflow (suc f) ((c ∷ s) ++ r) ≡ (XKey.string (c ∷ s), next)
  unfolding split_key
  split_key-plain f c s {r} {next} j plain e = ground (
    arith,
    split_plain-Joint c s j plain e,
    find_char_not_first c s r,
    find_delimiter-append c s r,
  )

  pub split_key-index :
      (f i : ℕ) (r : Bytes)
      → i < 2 ^ 31
      → split_key overflow (suc f) (b'[' ∷ (decimal (suc i) i ++ b']' ∷ r)) ≡ (XKey.index i, r)
  split_key-index f i r small =
      split_key-digit f (decimal (suc i) i ++ b']' ∷ r)
        (decimal_starts (suc i) i (b']' ∷ r) (omega arith))
      ∙ split_brace-index i r small

  pub split_key-braced :
      (f c : ℕ) (s r : Bytes)
      → find_char b']' (c ∷ s) ≡ none
      → is_digit c ≡ false
      → split_key overflow (suc f) (b'[' ∷ ((c ∷ s) ++ b']' ∷ r)) ≡ (XKey.string (c ∷ s), r)
  split_key-braced f c s r h d = split_key-brace f c (s ++ b']' ∷ r) ∙ split_brace-string c s r h d
