-- ===== src/Container/Array/Positions.antt =====
-- Positions in XContainerArray: what the operations read, write and shift.
use xnode.Prelude.{
  ℕ, zero, suc, ◌+◌, ◌-◌, ◌≤◌, ◌<◌, ◌≡◌, refl, ap, sym, false, ◌&&◌, none, some, List, [], ◌∷◌,
  ◌++◌, append-nil, append_assoc, length, get_elem?, set as set_at, replicate, length-append,
  if◌then◌else◌, ltb, leb, ◌==◌, Option, ◌∙◌, arith, Bool-cases, inl, inr,
}
use mathlib.Core.Option
use xnode.Bytes.{Bytes}
use xnode.Container.{KeyType, index, name, monostate, Mapped, idx_end, idx_last}
use xnode.Container.Array.{
  XContainerArray, max_size_increase, key_to_index, at_end, advance, special_pos, locate, grow, at,
}

module _ {ℓ} {V : Type ℓ} where
  pub locate_split : (i : ℕ) (l : List V) → (locate i l).passed ++ (locate i l).rest ≡ l
  unfolding locate
  locate_split i l = elim (Bool-cases (ltb i (length l))) [
    | inl e ↦ rw e (go i l)
    | inr e ↦ rw e (append-nil l)
  ]
    where
      go : (i : ℕ) (l : List V) → (advance i l).passed ++ (advance i l).rest ≡ l
      go zero l = refl
      go (suc i) [] = refl
      go (suc i) (v ∷ l) = ap (◌∷◌ v) (go i l)

  pub get_elem?_beyond : (l : List V) (i : ℕ) → length l ≤ i → get_elem? l i ≡ none
  get_elem?_beyond [] i h = refl
  get_elem?_beyond (v ∷ l) zero h = absurd (omega arith)
  get_elem?_beyond (v ∷ l) (suc i) h = get_elem?_beyond l i (omega arith)

  advance-get_elem? :
      (i : ℕ) (l : List V)
      → (elim (advance i l).rest [ [] ↦ none | v ∷ r ↦ some v ]) ≡ get_elem? l i
  unfolding advance
  advance-get_elem? zero [] = refl
  advance-get_elem? zero (v ∷ l) = refl
  advance-get_elem? (suc i) [] = refl
  advance-get_elem? (suc i) (v ∷ l) = advance-get_elem? i l

  pub locate-get_elem? :
      (i : ℕ) (l : List V) → (elim (locate i l).rest [ [] ↦ none | v ∷ r ↦ some v ]) ≡ get_elem? l i
  unfolding locate
  locate-get_elem? i l = ground (arith, advance-get_elem? i l, get_elem?_beyond l i)

  at-special_pos :
      (c : XContainerArray V) (key : KeyType)
      → at c key
        ≡ get_elem? c.values_deq
            (special_pos (Option.get_or (key_to_index key) idx_end) c.values_deq)
  unfolding at
  at-special_pos c key = locate-get_elem? _ c.values_deq

  -- The last value of a list, if there is one.
  abbrev pub last_of : List V → Option V
  last_of [] = none
  last_of (v ∷ []) = some v
  last_of (v ∷ w ∷ l) = last_of (w ∷ l)

  get_elem?-last_of : (v : V) (l : List V) → get_elem? (v ∷ l) (length l) ≡ last_of (v ∷ l)
  get_elem?-last_of v [] = refl
  get_elem?-last_of v (w ∷ l) = get_elem?-last_of w l

  at_last : (l : List V) → get_elem? l (special_pos idx_last l) ≡ last_of l
  at_last [] = refl
  at_last (v ∷ []) = refl
  at_last (v ∷ w ∷ l) =
      let pos : special_pos idx_last (v ∷ w ∷ l) ≡ suc (length l) = ground arith in
      ap (get_elem? (v ∷ w ∷ l)) pos ∙ get_elem?-last_of w l

  at_index :
      (l : List V) (i : ℕ)
      → get_elem? l (special_pos i l) ≡ (if i == idx_last then last_of l else get_elem? l i)
  at_index l i = elim (Bool-cases (i == idx_last)) [
    | inl e ↦ let same : i ≡ idx_last = ground arith in rw same (at_last l)
    | inr e ↦ rw e refl
  ]

  -- At of an index reads the value that stands there, if there is one; kIdxLast, which is 2 ^ 64 - 2
  -- here, reads the last value of the deque, not the one before it. At kIdxEnd, at a text and without
  -- a key it reads nothing, in a deque of fewer than 2 ^ 64 - 1 values.
  pub at-get_elem? :
      (c : XContainerArray V) (i : ℕ) (t : Bytes)
      → length c.values_deq ≤ idx_end
      → (at c (index i)
          ≡ (if i == idx_last then last_of c.values_deq else get_elem? c.values_deq i))
        × (at c (index idx_end) ≡ none)
        × (at c (name t) ≡ none)
        × (at c monostate ≡ none)
  at-get_elem? c i t small =
      let beyond = get_elem?_beyond c.values_deq idx_end small in
      (
        at-special_pos c (index i) ∙ at_index c.values_deq i,
        at-special_pos c (index idx_end) ∙ beyond,
        at-special_pos c (name t) ∙ beyond,
        at-special_pos c monostate ∙ beyond,
      )

  pub advance-length : (i : ℕ) (l : List V) → i ≤ length l → length (advance i l).passed ≡ i
  unfolding advance
  advance-length zero l h = refl
  advance-length (suc i) [] h = absurd (omega arith)
  advance-length (suc i) (v ∷ l) h = ap suc (advance-length i l (omega arith))

  advance-set :
      (i : ℕ) (l : List V) (v : V)
      → (advance i l).passed ++ (elim (advance i l).rest [ [] ↦ [] | w ∷ r ↦ v ∷ r ]) ≡ set_at l i v
  unfolding advance
  advance-set zero [] v = refl
  advance-set zero (w ∷ l) v = refl
  advance-set (suc i) [] v = refl
  advance-set (suc i) (w ∷ l) v = ap (◌∷◌ w) (advance-set i l v)

  pub locate-set :
      (i : ℕ) (l : List V) (v : V)
      → i < length l
      → (locate i l).passed ++ (elim (locate i l).rest [ [] ↦ [] | w ∷ r ↦ v ∷ r ]) ≡ set_at l i v
  unfolding locate
  locate-set i l v h = ground (arith, advance-set i l v)

  pub locate-at_end : (i : ℕ) (l : List V) → at_end (locate i l) ≡ leb (length l) i
  unfolding locate
  locate-at_end i l = ground (arith, go i l)
    where
      go : (i : ℕ) (l : List V) → i < length l → at_end (advance i l) ≡ false
      go i [] h = absurd (omega arith)
      go zero (v ∷ l) h = refl
      go (suc i) (v ∷ l) h = go i l (omega arith)

module _ {ℓ} {V : Type ℓ} (m : Mapped V) where
  grow_rounds :
      (n rounds idx : ℕ) (l : List V)
      → length l + n ≡ suc idx
      → n ≤ rounds
      → n ≤ max_size_increase
      → grow m rounds idx l ≡ l ++ replicate n m.default
  unfolding grow
  grow_rounds zero zero idx l e r b = sym (append-nil l)
  grow_rounds zero (suc rounds) idx l e r b = ground (arith, append-nil l)
  grow_rounds (suc n) zero idx l e r b = absurd (omega arith)
  grow_rounds (suc n) (suc rounds) idx l e r b = ground (
    arith,
    length-append l (m.default ∷ []),
    grow_rounds n rounds idx (l ++ m.default ∷ []),
    append_assoc l (m.default ∷ []) (replicate n m.default),
  )

  grow_none :
      (rounds idx : ℕ) (l : List V)
      → (leb (length l) idx && ltb idx (length l + max_size_increase)) ≡ false
      → grow m rounds idx l ≡ l
  unfolding grow
  grow_none zero idx l h = refl
  grow_none (suc rounds) idx l h = rw h

  -- What a position that is within `max_size_increase` of the end makes of the deque.
  abbrev pub grown : ℕ → List V → List V
  grown idx l =
      if ltb idx (length l + max_size_increase)
      then l ++ replicate (suc idx - length l) m.default
      else l

  pub grow-grown : (idx : ℕ) (l : List V) → grow m max_size_increase idx l ≡ grown idx l
  grow-grown idx l =
      elim (Bool-cases (leb (length l) idx && ltb idx (length l + max_size_increase))) [
        | inl e ↦
            rw
              (grow_rounds (suc idx - length l) max_size_increase idx l (ground arith)
                (ground arith) (ground arith))
              (ground arith)
        | inr e ↦ rw (grow_none max_size_increase idx l e) (inside e)
      ]
    where
      inside :
          (leb (length l) idx && ltb idx (length l + max_size_increase)) ≡ false → l ≡ grown idx l
      inside e = elim (Bool-cases (ltb idx (length l + max_size_increase))) [
        | inl far ↦
            let none_missing : suc idx - length l ≡ 0 = ground arith in
            rw (far, none_missing) (sym (append-nil l))
        | inr far ↦ rw far
      ]
