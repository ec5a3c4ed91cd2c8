-- ===== src/Container/Array/Writes.antt =====
-- What Set, Emplace and Erase of XContainerArray do to the deque.
use xnode.Prelude.{
  ℕ, zero, suc, ◌+◌, ◌-◌, ◌≤◌, ◌≡◌, refl, sym, ap, ◌∙◌, true, false, not, ◌&&◌, Option, none, some,
  List, [], ◌∷◌, ◌++◌, append-nil, length, get_elem?, set as set_at, replicate, length-append,
  if◌then◌else◌, ltb, ◌==◌, arith, Option-cases, inl, inr,
}
use mathlib.Core.Option
use xnode.Container.{KeyType, monostate, index, name, Mapped, OnChange, approve, idx_end, idx_last}
use xnode.Container.Array.{
  XContainerArray, max_size_increase, key_to_index, special_pos, locate, deq_find, value_at, set,
}
use xnode.Container.Array.Positions.{
  locate_split, locate-get_elem?, locate-set, locate-at_end, grow-grown,
}

module _ {ℓ} {V : Type ℓ} where
  length-replicate : (n : ℕ) (v : V) → length (replicate n v) ≡ n
  length-replicate zero v = refl
  length-replicate (suc n) v = ap suc (length-replicate n v)

  get_or-extended :
      (l : List V) (n i : ℕ) (d : V)
      → Option.get_or (get_elem? (l ++ replicate n d) i) d ≡ Option.get_or (get_elem? l i) d
  get_or-extended [] zero i d = refl
  get_or-extended [] (suc n) zero d = refl
  get_or-extended [] (suc n) (suc i) d = get_or-extended [] n i d
  get_or-extended (v ∷ l) n zero d = refl
  get_or-extended (v ∷ l) n (suc i) d = get_or-extended l n i d

  -- Where Set may write: not past the end by `max_size_increase` or more, nor at kIdxEnd.
  abbrev pub writable : KeyType → List V → Option ℕ
  writable key l = elim (key_to_index key) [
    | none ↦ none
    | some i ↦
        if i == idx_end
        then none
        else if ltb (special_pos i l) (length l + max_size_increase)
        then some (special_pos i l)
        else none
  ]

  -- The position of the last value; 0 in an empty list.
  abbrev pub last_position : List V → ℕ
  last_position [] = 0
  last_position (v ∷ l) = length l

  -- Where a key lets Set write: at an index that is less than `max_size_increase` past the end, at the
  -- last value for kIdxLast, and nowhere for kIdxEnd and a key that is no index.
  abbrev pub place : KeyType → List V → Option ℕ
  place (index i) l =
      if i == idx_end
      then none
      else if i == idx_last
      then some (last_position l)
      else if ltb i (length l + max_size_increase)
      then some i
      else none
  place _ l = none

  writable-place : (key : KeyType) (l : List V) → writable key l ≡ place key l
  writable-place monostate l = refl
  writable-place (name b) l = refl
  writable-place (index i) [] = ground arith
  writable-place (index i) (v ∷ l) = ground arith

  locate-past :
      (pos : ℕ) (l : List V) → length l ≤ pos → locate pos l ≡ record { passed = l; rest = [] }
  unfolding locate
  locate-past pos l h = ground arith

  value_at-locate :
      (m : Mapped V) (i : ℕ) (l : List V)
      → value_at m (locate i l) ≡ Option.get_or (get_elem? l i) m.default
  value_at-locate m i l = ground (arith, locate-get_elem? i l)

module _ {ℓ} {V : Type ℓ} (m : Mapped V) where
  abbrev pub extended : ℕ → List V → List V
  extended pos l = l ++ replicate (suc pos - length l) m.default

  deq_find-writable :
      (c : XContainerArray V) (key : KeyType)
      → deq_find m c key true ≡ (elim (writable key c.values_deq) [
        | none ↦ record { passed = c.values_deq; rest = [] }
        | some pos ↦ locate pos (extended pos c.values_deq)
      ])
  unfolding deq_find
  deq_find-writable c monostate = refl
  deq_find-writable c (name b) = refl
  deq_find-writable c (index i) = ground (
    arith,
    grow-grown m (special_pos i c.values_deq) c.values_deq,
    locate-past (special_pos i c.values_deq) c.values_deq,
  )

  length-extended :
      (pos : ℕ) (l : List V) → length (extended pos l) ≡ length l + (suc pos - length l)
  length-extended pos l =
      length-append l (replicate (suc pos - length l) m.default)
      ∙ ap (λ t. length l + t) (length-replicate (suc pos - length l) m.default)

module _ {ℓ} {V S : Type ℓ} (m : Mapped V) (c : XContainerArray V) where
  set-writable :
      (key : KeyType) (val : V) (on_change : OnChange V S) (s : S) (pos : ℕ)
      → writable key c.values_deq ≡ some pos
      → let old = Option.get_or (get_elem? c.values_deq pos) m.default in
        let l = extended m pos c.values_deq in
        ((set m c key val on_change s).0
          ≡ (not (m.eq old val) && (approve on_change key old val s).0))
        × ((set m c key val on_change s).2.values_deq
            ≡ (if (set m c key val on_change s).0 then set_at l pos val else l))
  unfolding set
  set-writable key val on_change s pos h = ground (
    arith,
    deq_find-writable m c key,
    value_at-locate m pos (extended m pos c.values_deq),
    get_or-extended c.values_deq (suc pos - length c.values_deq) pos m.default,
    length-extended m pos c.values_deq,
    locate_split pos (extended m pos c.values_deq),
    locate-at_end pos (extended m pos c.values_deq),
    locate-set pos (extended m pos c.values_deq) val,
  )

  set_not_writable :
      (key : KeyType) (val : V) (on_change : OnChange V S) (s : S)
      → writable key c.values_deq ≡ none
      → set m c key val on_change s ≡ (false, m.default, c, s)
  unfolding set
  set_not_writable key val on_change s h =
      ground (arith, deq_find-writable m c key, append-nil c.values_deq)

  pub set_anywhere :
      (key : KeyType) (val : V) (on_change : OnChange V S) (s : S)
      → ((set m c key val on_change s).0 ≡ (elim (writable key c.values_deq) [
        | none ↦ false
        | some pos ↦
            not (m.eq (Option.get_or (get_elem? c.values_deq pos) m.default) val)
            && (approve on_change key
                (Option.get_or (get_elem? c.values_deq pos) m.default)
                val
                s).0
      ]))
        × ((set m c key val on_change s).2.values_deq ≡ (elim (writable key c.values_deq) [
          | none ↦ c.values_deq
          | some pos ↦
              if (set m c key val on_change s).0
              then set_at (extended m pos c.values_deq) pos val
              else extended m pos c.values_deq
        ]))
  set_anywhere key val on_change s = elim (Option-cases (writable key c.values_deq)) [
    | inl e ↦ rw (e, set_not_writable key val on_change s e) (refl, refl)
    | inr (pos, e) ↦ rw e (set-writable key val on_change s pos e)
  ]

  -- Set under any key. At kIdxLast, which is 2 ^ 64 - 2 here, the place that it writes is that of the
  -- last value, and the first one of an empty deque; at any other index, but kIdxEnd, that is less
  -- than `max_size_increase` past the end, it is the index; under every other key there is none, and
  -- Set fails and changes nothing. Where there is a place, Set succeeds exactly where the value in it
  -- (the default one past the end) differs from the new one and the callback approves; and, whether it
  -- succeeds or not, the deque is filled up with default values to reach the place, in which a success
  -- writes the new value.
  pub set_positions :
      (key : KeyType) (val : V) (on_change : OnChange V S) (s : S)
      → ((set m c key val on_change s).0 ≡ (elim (place key c.values_deq) [
        | none ↦ false
        | some pos ↦
            not (m.eq (Option.get_or (get_elem? c.values_deq pos) m.default) val)
            && (approve on_change key
                (Option.get_or (get_elem? c.values_deq pos) m.default)
                val
                s).0
      ]))
        × ((set m c key val on_change s).2.values_deq ≡ (elim (place key c.values_deq) [
          | none ↦ c.values_deq
          | some pos ↦
              if (set m c key val on_change s).0
              then set_at (extended m pos c.values_deq) pos val
              else extended m pos c.values_deq
        ]))
  set_positions key val on_change s =
      rw (sym (writable-place key c.values_deq)) (set_anywhere key val on_change s)
