-- ===== src/Path/Fuel.antt =====
-- The fuel of the parser of XPath (_split_key and _add_keys_str of src/xkey/xpath.cpp): each call
-- of the loop shortens the text.
use xnode.Prelude.{
  ℕ, zero, suc, ◌+◌, ◌-◌, ◌≤◌, ◌≡◌, refl, ap, ◌∙◌, sym, false, Option, none, some, [], ◌∷◌, length,
  drop, arith, inl, inr, Option-cases, ◌==◌, Bool-cases, ltb, ◌&&◌,
}
use xnode.Bytes.{Bytes}
use xnode.Key.{XKey}
use xnode.Path.{
  XPath, find_delimiter, find_char, split_brace, split_plain, split_key, add_keys, from_string,
  after_brace, starts_digit,
}

length-drop : (n : ℕ) (s : Bytes) → length (drop n s) ≡ length s - n
length-drop zero s = omega arith
length-drop (suc n) [] = omega arith
length-drop (suc n) (c ∷ s) = omega (arith, length-drop n s)

find_delimiter-0 : (s : Bytes) → find_delimiter s ≡ some 0 → 2 ≤ length s
unfolding find_delimiter
find_delimiter-0 [] h = cc
find_delimiter-0 (c ∷ []) h = cc
find_delimiter-0 (c ∷ d ∷ s) h = omega arith

find_char-0 : (x : ℕ) (s : Bytes) → find_char x s ≡ some 0 → 1 ≤ length s
unfolding find_char
find_char-0 x [] h = cc
find_char-0 x (c ∷ s) h = omega arith

-- A key that is not the empty text goes before the keys that follow it.
abbrev pub key_then : XKey → XPath → XPath
key_then (XKey.string []) later = later
key_then found later = found ∷ later

module _ (overflow : ℕ → ℕ) where
  after_brace-shorter : (e : Option ℕ) (s : Bytes) → length (after_brace e s) ≤ length s - 1
  after_brace-shorter none s = omega arith
  after_brace-shorter (some e) s = ground (arith, length-drop (e + 1) s)

  split_brace-shorter : (s : Bytes) → length (split_brace overflow s).1 ≤ length s - 1
  unfolding split_brace
  split_brace-shorter s = elim (Bool-cases (starts_digit (drop 1 s))) [
    | inl e ↦ rw e (after_brace-shorter (find_char b']' s) s)
    | inr e ↦ rw e (after_brace-shorter (find_char b']' s) s)
  ]

  split_plain-shorter :
      (s : Bytes)
      → ((b : ℕ) → find_char b'[' s ≡ some b → (b == 0 && ltb 1 (length s)) ≡ false)
      → length (split_plain overflow s).1 ≤ length s - 1
  unfolding split_plain
  split_plain-shorter s h = elim (Option-cases (find_char b'[' s)) [
    | inl e ↦ elim (Option-cases (find_delimiter s)) [
      | inl d ↦ rw (e, d) (omega arith)
      | inr (j, d) ↦ rw (e, d) (ground (arith, length-drop (j + 2) s))
    ]
    | inr (i, e) ↦
        let small = h i e in
        elim (Option-cases (find_delimiter s)) [
          | inl d ↦ rw (e, d) (ground (arith, length-drop i s))
          | inr (j, d) ↦ rw (e, d) (ground (arith, length-drop i s, length-drop (j + 2) s))
        ]
  ]

  opening : (s : Bytes) (i b : ℕ) → find_char b'[' s ≡ some i → find_char b'[' s ≡ some b → i ≡ b
  opening s i b e f = ground arith

  split_key-split :
      (fuel : ℕ) (s : Bytes)
      → length (split_key overflow fuel (drop 2 s)).1 ≤ length (drop 2 s) - 1
      → length (split_key overflow (suc fuel) s).1 ≤ length s - 1
  unfolding split_key
  split_key-split fuel s h = elim (Option-cases (find_char b'[' s)) [
    | inl e ↦ let plain = split_plain-shorter s (λ b f. cc) in ground (arith, length-drop 2 s)
    | inr (i, e) ↦ elim (Bool-cases (i == 0 && ltb 1 (length s))) [
      | inl t ↦ let brace = split_brace-shorter s in ground (arith, length-drop 2 s)
      | inr t ↦
          let plain = split_plain-shorter s (λ b f. rw (opening s b i f e) t) in
          ground (arith, length-drop 2 s)
    ]
  ]

  pub split_key-shorter :
      (fuel : ℕ) (s : Bytes) → length (split_key overflow fuel s).1 ≤ length s - 1
  unfolding split_key
  split_key-shorter zero s = omega arith
  split_key-shorter (suc fuel) s = split_key-split fuel s (split_key-shorter fuel (drop 2 s))

  split_key-enough :
      (f g : ℕ) (s : Bytes)
      → length s ≤ suc f
      → length s ≤ suc g
      → split_key overflow (suc f) s ≡ split_key overflow (suc g) s
  unfolding split_key
  split_key-enough zero zero s hf hg = refl
  split_key-enough zero (suc g) s hf hg = ground (arith, find_delimiter-0 s)
  split_key-enough (suc f) zero s hf hg = ground (arith, find_delimiter-0 s)
  split_key-enough (suc f) (suc g) s hf hg = elim (Option-cases (find_delimiter s)) [
    | inl d ↦ rw (d, split_key) refl
    | inr (zero, d) ↦
        let ih =
          split_key-enough f g (drop 2 s) (omega (arith, length-drop 2 s))
            (omega (arith, length-drop 2 s)) in
        rw (d, split_key) ih
    | inr (suc i, d) ↦
        let later : (suc i == 0) ≡ false = ground arith in rw (d, split_key, later) refl
  ]

  add_keys-enough :
      (f : ℕ) (s : Bytes) → length s ≤ f → add_keys overflow (suc f) s ≡ add_keys overflow f s
  unfolding add_keys
  add_keys-enough zero [] h = refl
  add_keys-enough (suc f) [] h = refl
  add_keys-enough zero (c ∷ s) h = absurd (omega arith)
  add_keys-enough (suc f) (c ∷ s) h =
      let (key, next) = split_key overflow (length (c ∷ s)) (c ∷ s) in
      let shorter = split_key-shorter (length (c ∷ s)) (c ∷ s) in
      let ih : add_keys overflow (suc f) next ≡ add_keys overflow f next =
        add_keys-enough f next (omega arith) in
      ground arith

  -- The iterations beyond the length of the text are spare.
  add_keys-more :
      (n : ℕ) (s : Bytes) → add_keys overflow (n + length s) s ≡ add_keys overflow (length s) s
  add_keys-more zero s = ap (λ n. add_keys overflow n s) (omega arith)
  add_keys-more (suc n) s =
      ap (λ n. add_keys overflow n s) (omega arith)
      ∙ add_keys-enough (n + length s) s (omega arith)
      ∙ add_keys-more n s

  add_keys-exact :
      (f : ℕ) (s : Bytes) → length s ≤ f → add_keys overflow f s ≡ from_string overflow s
  unfolding from_string
  add_keys-exact f s h =
      ap (λ n. add_keys overflow n s) (omega arith) ∙ add_keys-more (f - length s) s

  add_keys_once :
      (f : ℕ) (c : ℕ) (s : Bytes)
      → let split = split_key overflow (length (c ∷ s)) (c ∷ s) in
        add_keys overflow (suc f) (c ∷ s) ≡ key_then split.0 (add_keys overflow f split.1)
  unfolding add_keys
  add_keys_once f c s =
      let split = split_key overflow (length (c ∷ s)) (c ∷ s) in
      go split.0 (add_keys overflow f split.1)
    where
      go :
          (key : XKey) (later : XPath)
          → (elim key [ XKey.string [] ↦ later | found ↦ found ∷ later ]) ≡ key_then key later
      go XKey.empty later = refl
      go (XKey.index i) later = refl
      go (XKey.string []) later = refl
      go (XKey.string (x ∷ t)) later = refl

  -- The parser does not depend on the fuel that _add_keys_str and _split_key are given: on a text that
  -- is not empty, with at least as many calls as the text is long for each, its keys are the key that
  -- _split_key splits off, if that is not the empty text, and then those of the rest, which is shorter.
  pub add_keys-from_string :
      (f g c : ℕ) (s : Bytes)
      → length (c ∷ s) ≤ f
      → length (c ∷ s) ≤ g
      → let split = split_key overflow g (c ∷ s) in
        (add_keys overflow f (c ∷ s) ≡ key_then split.0 (from_string overflow split.1))
        × (from_string overflow (c ∷ s) ≡ key_then split.0 (from_string overflow split.1))
        × (length split.1 ≤ length s)
  add_keys-from_string zero g c s hf hg = absurd (omega arith)
  add_keys-from_string (suc f) zero c s hf hg = absurd (omega arith)
  add_keys-from_string (suc f) (suc g) c s hf hg =
      let same = split_key-enough (length s) g (c ∷ s) (omega arith) hg in
      let shorter = split_key-shorter (suc g) (c ∷ s) in
      let first =
        add_keys_once f c s
        ∙ ap (λ r. key_then r.0 (add_keys overflow f r.1)) same
        ∙ ap (key_then (split_key overflow (suc g) (c ∷ s)).0)
            (add_keys-exact f (split_key overflow (suc g) (c ∷ s)).1 (omega arith)) in
      (first, sym (add_keys-exact (suc f) (c ∷ s) hf) ∙ first, omega arith)
