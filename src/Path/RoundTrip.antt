-- ===== src/Path/RoundTrip.antt =====
-- The text of an XPath, parsed again.
use xnode.Prelude.{
  ℕ, zero, suc, ◌^◌, ◌≤◌, ◌<◌, ◌≡◌, refl, sym, ap, ◌∙◌, Bool, true, false, not, ◌&&◌, [], ◌∷◌, ◌++◌,
  append-nil, append_assoc, length, length-append, if◌then◌else◌, ltb, All, arith, is_some,
  Bool-cases, inl, inr,
}
use xnode.Bytes.{Bytes}
use xnode.Key.{XKey}
use xnode.Path.{
  XPath, find_char, is_digit, starts_digit, split_key, add_keys, from_string, decimal, braced,
  needs_braces, write, to_string,
}
use xnode.Path.Find.{ends_colon}
use xnode.Path.Number.{decimal_starts}
use xnode.Path.Split.{
  Joint, finish, delimited, opened, split_key-plain, split_key-index, split_key-braced,
  split_key-delimiter,
}

-- A key whose text is read back as it: an index below 2 ^ 31, or a string that is not empty and,
-- where it needs braces, has no closing brace and starts with no digit, or else ends with no colon.
abbrev pub readable : XKey → Bool
readable XKey.empty = false
readable (XKey.index i) = ltb i (2 ^ 31)
readable (XKey.string []) = false
readable (XKey.string (c ∷ s)) =
    if needs_braces (c ∷ s)
    then not (is_some (find_char b']' (c ∷ s))) && not (is_digit c)
    else not (ends_colon (c ∷ s))

abbrev pub IsReadable : XPath → Type 0
IsReadable = All (λ k. readable k ≡ true)

-- The text of the keys behind a text that is empty or not.
render : Bool → XPath → Bytes
render first [] = []
render first (XKey.empty ∷ path) = render first path
render first (XKey.index i ∷ path) = b'[' ∷ (decimal (suc i) i ++ b']' ∷ render false path)
render first (XKey.string s ∷ path) =
    let more = render false path in
    if needs_braces s
    then b'[' ∷ (s ++ b']' ∷ more)
    else (if first then s ++ more else b':' ∷ b':' ∷ (s ++ more))

abbrev is_nil : Bytes → Bool
is_nil [] = true
is_nil (c ∷ s) = false

is_nil-append : (out : Bytes) (c : ℕ) (s : Bytes) → is_nil (out ++ c ∷ s) ≡ false
is_nil-append [] c s = refl
is_nil-append (o ∷ out) c s = refl

braced-append : (b r : Bytes) → braced b ++ r ≡ b'[' ∷ (b ++ b']' ∷ r)
braced-append b r = ap (◌∷◌ b'[') (append_assoc b (b']' ∷ []) r)

write-render :
    (out : Bytes) (path : XPath)
    → IsReadable path
    → write out path ≡ out ++ render (is_nil out) path
unfolding write render
write-render out [] h = sym (append-nil out)
write-render out (XKey.empty ∷ path) h = cc
write-render out (XKey.index i ∷ path) h =
    let ih = write-render (out ++ braced (decimal (suc i) i)) path h.1 in
    ih ∙ rw (is_nil-append, append_assoc, braced-append)
write-render out (XKey.string [] ∷ path) h = cc
write-render [] (XKey.string (c ∷ s) ∷ path) h = elim (Bool-cases (needs_braces (c ∷ s))) [
  | inl e ↦
      rw e (write-render (braced (c ∷ s)) path h.1 ∙ braced-append (c ∷ s) (render false path))
  | inr e ↦ rw e (write-render (c ∷ s) path h.1)
]
write-render (o ∷ out) (XKey.string (c ∷ s) ∷ path) h = elim (Bool-cases (needs_braces (c ∷ s))) [
  | inl e ↦ rw e (
      write-render (o ∷ out ++ braced (c ∷ s)) path h.1
      ∙ ap (◌∷◌ o) (
          append_assoc out (braced (c ∷ s)) (render false path)
          ∙ ap (λ t. out ++ t) (braced-append (c ∷ s) (render false path))))
  | inr e ↦ rw e (
      write-render (o ∷ out ++ b':' ∷ b':' ∷ c ∷ s) path h.1
      ∙ ap (◌∷◌ o) (append_assoc out (b':' ∷ b':' ∷ c ∷ s) (render false path)))
]

opened_of : (s : Bytes) → starts_digit s ≡ true → Joint (b'[' ∷ s) (b'[' ∷ s)
opened_of [] h = cc
opened_of (c ∷ s) h = opened c s

Joint-length : {r next : Bytes} → Joint r next → length next ≤ length r
Joint-length finish = omega arith
Joint-length (delimited x r) = omega arith
Joint-length (opened x r) = omega arith

-- What follows a key that is written without braces, for the parser.
render-Joint :
    (path : XPath)
    → IsReadable path
    → (first : Bool) × Joint (render false path) (render first path)
unfolding render
render-Joint [] h = (true, finish)
render-Joint (XKey.empty ∷ path) h = cc
render-Joint (XKey.index i ∷ path) h =
    (false, opened_of _ (decimal_starts (suc i) i _ (omega arith)))
render-Joint (XKey.string [] ∷ path) h = cc
render-Joint (XKey.string (c ∷ s) ∷ path) h = elim (Bool-cases (needs_braces (c ∷ s))) [
  | inl e ↦ (false, rw e (opened c (s ++ b']' ∷ render false path)))
  | inr e ↦ (true, rw e (delimited c (s ++ render false path)))
]

module _ (overflow : ℕ → ℕ) where
  -- The first key of a text is split off, and the text of the others is left.
  Splits : Bytes → XKey → XPath → Type 0
  Splits text key path =
      (first : Bool) × (split_key overflow (length text) text ≡ (key, render first path))
      × (length (render first path) < length text)

  Splits-plain :
      (first : Bool) (c : ℕ) (s : Bytes) (path : XPath)
      → IsReadable path
      → needs_braces (c ∷ s) ≡ false
      → ends_colon (c ∷ s) ≡ false
      → Splits (render first (XKey.string (c ∷ s) ∷ path)) (XKey.string (c ∷ s)) path
  unfolding render Splits
  Splits-plain first c s path h plain e =
      let (next, j) = render-Joint path h in
      let longer = Joint-length j in
      let total = length-append s (render false path) in
      elim first
        as (λ f.
          Splits
            (if needs_braces (c ∷ s)
              then b'[' ∷ ((c ∷ s) ++ b']' ∷ render false path)
              else (if f
                  then (c ∷ s) ++ render false path
                  else b':' ∷ b':' ∷ ((c ∷ s) ++ render false path)))
            (XKey.string (c ∷ s)) path) [
              | true ↦ rw plain (next, split_key-plain overflow _ c s j plain e, omega arith)
              | false ↦ rw plain (
                next,
                split_key-delimiter overflow _ _ ∙ split_key-plain overflow _ c s j plain e,
                omega arith,
              )
            ]

  splits :
      (first : Bool) (key : XKey) (path : XPath)
      → readable key ≡ true
      → IsReadable path
      → Splits (render first (key ∷ path)) key path
  unfolding render Splits
  splits first XKey.empty path r h = cc
  splits first (XKey.index i) path r h =
      let total = length-append (decimal (suc i) i) (b']' ∷ render false path) in
      (false, split_key-index overflow _ i (render false path) (ground arith), omega arith)
  splits first (XKey.string []) path r h = cc
  splits first (XKey.string (c ∷ s)) path r h = elim (Bool-cases (needs_braces (c ∷ s))) [
    | inl e ↦
        let total = length-append s (b']' ∷ render false path) in
        rw e (
          false,
          split_key-braced overflow _ c s (render false path) (ground arith) (ground arith),
          omega arith,
        )
    | inr e ↦ Splits-plain first c s path h e (ground arith)
  ]

  add_keys-cons :
      (f : ℕ) (text next : Bytes) (key : XKey)
      → 0 < length text
      → readable key ≡ true
      → split_key overflow (length text) text ≡ (key, next)
      → add_keys overflow (suc f) text ≡ key ∷ add_keys overflow f next
  unfolding add_keys
  add_keys-cons f [] next key h r e = elim h [ ]
  add_keys-cons f (c ∷ text) next XKey.empty h r e = cc
  add_keys-cons f (c ∷ text) next (XKey.index i) h r e = ground arith
  add_keys-cons f (c ∷ text) next (XKey.string []) h r e = cc
  add_keys-cons f (c ∷ text) next (XKey.string (d ∷ s)) h r e = ground arith

  add_keys-render :
      (f : ℕ) (first : Bool) (path : XPath)
      → IsReadable path
      → length (render first path) ≤ f
      → add_keys overflow f (render first path) ≡ path
  unfolding add_keys render Splits
  add_keys-render zero first [] h b = refl
  add_keys-render (suc f) first [] h b = refl
  add_keys-render zero first (key ∷ path) h b =
      absurd (omega (arith, (splits first key path h.0 h.1).2))
  add_keys-render (suc f) first (key ∷ path) h b =
      let (next, split, shorter) = splits first key path h.0 h.1 in
      add_keys-cons f _ _ key (omega arith) h.0 split
      ∙ ap (◌∷◌ key) (add_keys-render f next path h.1 (omega arith))

  -- Parsing the text of a path gives the path back, if each of its keys is readable; whatever atoi
  -- makes of a number that is out of range.
  pub from_string-to_string :
      (path : XPath) → IsReadable path → from_string overflow (to_string path) ≡ path
  unfolding from_string to_string
  from_string-to_string path h =
      rw (write-render [] path h) (add_keys-render _ true path h (omega arith))
