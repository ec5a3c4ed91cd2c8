-- ===== src/Container/Array/Inserts.antt =====
-- Emplace of XContainerArray, and Erase after it.
use xnode.Prelude.{
  ℕ, ◌+◌, ◌<◌, ◌≡◌, refl, ap, ◌∙◌, true, false, none, some, List, [], ◌∷◌, ◌++◌, append-nil, length,
  length-append, arith, min,
}
use xnode.Container.{KeyType, monostate, index, name, Mapped, OnChange, approve, idx_last}
use xnode.Container.Array.{
  XContainerArray, Iterator, key_to_index, advance, special_pos, locate, deq_find, emplace, erase,
}
use xnode.Container.Array.Positions.{locate_split, advance-length}

module _ {ℓ} {V : Type ℓ} where
  -- Where Emplace inserts: before the index, or at the end where that is past it or no index.
  abbrev pub insert_pos : XContainerArray V → KeyType → ℕ
  insert_pos c key = elim (key_to_index key) [
    | none ↦ length c.values_deq
    | some i ↦ min (special_pos i c.values_deq) (length c.values_deq)
  ]

  advance-append : (p r : List V) → advance (length p) (p ++ r) ≡ record { passed = p; rest = r }
  unfolding advance
  advance-append [] r = refl
  advance-append (v ∷ p) r =
      ap (λ (it : Iterator V). record { passed = v ∷ it.passed; rest = it.rest })
        (advance-append p r)

  locate-append :
      (p r : List V) (v : V) → locate (length p) (p ++ v ∷ r) ≡ record { passed = p; rest = v ∷ r }
  unfolding locate
  locate-append p r v = ground (arith, advance-append p (v ∷ r), length-append p (v ∷ r))

  length-locate : (i : ℕ) (l : List V) → length (locate i l).passed ≡ min i (length l)
  unfolding locate
  length-locate i l = ground (arith, advance-length i l)

module _ {ℓ} {V : Type ℓ} (m : Mapped V) (c : XContainerArray V) where
  -- The iterator that Emplace inserts at.
  deq_find-insert :
      (key : KeyType)
      → length c.values_deq < idx_last
      → ((deq_find m c key false).passed ++ (deq_find m c key false).rest ≡ c.values_deq)
        × (length (deq_find m c key false).passed ≡ insert_pos c key)
  unfolding deq_find
  deq_find-insert monostate short = (append-nil c.values_deq, refl)
  deq_find-insert (name b) short = (append-nil c.values_deq, refl)
  deq_find-insert (index i) short = ground (
    arith,
    append-nil c.values_deq,
    locate_split (special_pos i c.values_deq) c.values_deq,
    length-locate (special_pos i c.values_deq) c.values_deq,
  )

module _ {ℓ} {V S : Type ℓ} (m : Mapped V) where
  emplace_approved :
      (c : XContainerArray V) (key : KeyType) (val : V) (on_change : OnChange V S) (s : S)
      → (emplace m c key val on_change s).0.succeeded ≡ true
      → ((emplace m c key val on_change s).0.inserted_at
          ≡ index (length (deq_find m c key false).passed))
        × ((emplace m c key val on_change s).1 ≡ record {
          values_deq = (deq_find m c key false).passed ++ val ∷ (deq_find m c key false).rest;
        })
  unfolding emplace
  emplace_approved c key val on_change s ok = ground arith

  erase_between :
      (p r : List V) (val : V) (on_change : OnChange V S) (s : S)
      → length p < idx_last
      → (approve on_change (index (length p)) val m.default s).0 ≡ true
      → ((erase m (record { values_deq = p ++ val ∷ r }) (index (length p)) on_change s).0
          ≡ some val)
        × ((erase m
              (record { values_deq = p ++ val ∷ r })
              (index (length p))
              on_change
              s).1.values_deq
            ≡ p ++ r)
  unfolding erase deq_find
  erase_between p r val on_change s short approved = ground (arith, locate-append p r val)

module _ {ℓ} {V S : Type ℓ} (m : Mapped V) (c : XContainerArray V) where
  -- Emplace that the callback approves puts the value at a position between the old values, all of
  -- which stay in order, reports that position, and Erase of the reported index, where its callback
  -- approves, returns the value and restores the deque; for a deque that is shorter than 2 ^ 64 - 2.
  pub erase-emplace :
      (key : KeyType) (val : V) (on_change later : OnChange V S) (s s' : S)
      → length c.values_deq < idx_last
      → (emplace m c key val on_change s).0.succeeded ≡ true
      → (approve later (emplace m c key val on_change s).0.inserted_at val m.default s').0 ≡ true
      → ((emplace m c key val on_change s).0.inserted_at ≡ index (insert_pos c key))
        × (length (emplace m c key val on_change s).1.values_deq ≡ length c.values_deq + 1)
        × ((erase m
              (emplace m c key val on_change s).1
              (emplace m c key val on_change s).0.inserted_at
              later
              s').0
            ≡ some val)
        × ((erase m
              (emplace m c key val on_change s).1
              (emplace m c key val on_change s).0.inserted_at
              later
              s').1
            ≡ c)
  erase-emplace key val on_change later s s' short ok approved =
      let it = deq_find m c key false in
      let done = emplace_approved m c key val on_change s ok in
      let place = deq_find-insert m c key short in
      let total = ap (λ (l : List V). length l) place.0 in
      let sum = length-append it.passed it.rest in
      let sum' = length-append it.passed (val ∷ it.rest) in
      let gone =
        erase_between m it.passed it.rest val later s' (omega arith) (rw done.0 at approved) in
      rw (done.0, done.1)
        (
          ap index place.1,
          omega arith,
          gone.0,
          ap (λ (l : List V). record { values_deq = l }) (gone.1 ∙ place.0),
        )
