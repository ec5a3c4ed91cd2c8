-- ===== src/Node/Validator.antt =====
-- XParentValidatorMap and XParentValidatorArray (src/xnode/impl/xparent_validator_impl.h and .cpp):
-- the search for a child that an array holds already.
use mathlib.Core.Option
use xnode.Prelude.{
  ℕ, zero, suc, ◌+◌, ◌-◌, ◌<◌, ◌≡◌, refl, ap, ◌∙◌, Bool, true, false, not, ◌&&◌, Option, none, some,
  List, [], ◌∷◌, ◌++◌, get_elem?, set as set_at, length, length-append, append-nil, All,
  if◌then◌else◌, arith, Bool-cases, inl, inr,
}
use xnode.Container.{
  KeyType, monostate, index, Mapped, OnChange, OnItem, OnEach, OnEachRes, key_eq, idx_last,
}
use xnode.Container.Array
use xnode.Container.Array.{XContainerArray}
use xnode.Container.Array.Each
use xnode.Container.Array.Writes.{writable, extended, set_anywhere}
use xnode.Container.Any
use xnode.Container.Any.{IContainer}

-- The class of the validator, which is that of the container.
pub data IParentValidator : Type 0 where
  map array : IParentValidator

module _ {V : Type 0} (m : Mapped V) where
  -- The callback of FindDuplicates: its state is `key_existed` and `val_existed`.
  unfoldable pub check_same : V → OnItem V (KeyType × V)
  check_same value_check key val existed =
      if m.eq val value_check then (true, (key, val)) else (false, existed)

  unfoldable pub find_duplicates : IParentValidator → IContainer V → V → KeyType × V
  unfolding Any.for_each_const check_same
  find_duplicates IParentValidator.map c value_check = (monostate, m.default)
  find_duplicates IParentValidator.array c value_check =
      (Any.for_each_const m c (some (check_same value_check)) none (monostate, m.default)).1

  -- The callback of RemoveDuplicates: its state is `key_removed`.
  unfoldable pub remove_same : V → KeyType → OnEach V KeyType
  remove_same value_remove key_keep key val removed =
      if not (key_eq key key_keep) && m.eq val value_remove
      then (OnEachRes.erase_stop, val, key)
      else (OnEachRes.next, val, removed)

  module _ (erased_value : KeyType → V × KeyType) where
    unfoldable pub remove_duplicates :
        IParentValidator → IContainer V → V → KeyType → KeyType × IContainer V
    unfolding Any.for_each remove_same
    remove_duplicates IParentValidator.map c value_remove key_keep = (monostate, c)
    remove_duplicates IParentValidator.array c value_remove key_keep =
        let (_, c', removed) =
          Any.for_each m erased_value c (some (remove_same value_remove key_keep)) none none
            monostate in
        (removed, c')

-- The first position where a value passes a test, which is given the position counted from n on.
unfoldable pub first_index {ℓ} : {V : Type ℓ} → (ℕ → V → Bool) → ℕ → List V → Option ℕ
first_index test n [] = none
first_index test n (v ∷ l) =
    let later = first_index test (n + 1) l in if test n v then some 0 else Option.map suc later

unfoldable pub remove_at {ℓ} : {V : Type ℓ} → List V → ℕ → List V
remove_at [] i = []
remove_at (v ∷ l) zero = l
remove_at (v ∷ l) (suc i) = v ∷ remove_at l i

module _ {V : Type 0} (m : Mapped V) where
  abbrev pub same_value : V → ℕ → V → Bool
  same_value v n w = m.eq w v

  -- An equal value under another key than the one that is kept.
  abbrev pub duplicate : V → KeyType → ℕ → V → Bool
  duplicate v key_keep n w = not (key_eq (index n) key_keep) && m.eq w v

  visit-check_same :
      (v : V) (n : ℕ) (l : List V) (existed : KeyType × V)
      → Array.visit (check_same m v) n l existed ≡ (elim (first_index (same_value v) n l) [
        | none ↦ existed
        | some j ↦ (index (n + j), Option.get_or (get_elem? l j) existed.1)
      ])
  unfolding Array.visit check_same first_index
  visit-check_same v n [] existed = refl
  visit-check_same v n (w ∷ l) existed = elim (Bool-cases (m.eq w v)) [
    | inl e ↦ ground arith
    | inr e ↦ ground (arith, visit-check_same v (n + 1) l existed)
  ]

  -- FindDuplicates of an array gives the first key whose value equals the one that is looked for,
  -- and the value that stands there, or no key and an empty value if there is none; of a map it
  -- never finds any.
  pub find_duplicates-first_index :
      (c : XContainerArray V) (d : IContainer V) (v : V)
      → (find_duplicates m IParentValidator.array (IContainer.array c) v
          ≡ (elim (first_index (same_value v) 0 c.values_deq) [
            | none ↦ (monostate, m.default)
            | some j ↦ (index j, Option.get_or (get_elem? c.values_deq j) m.default)
          ]))
        × (find_duplicates m IParentValidator.map d v ≡ (monostate, m.default))
  unfolding find_duplicates Any.for_each_const Array.for_each_const first_index
  find_duplicates-first_index c d v =
      (ground (arith, visit-check_same v 0 c.values_deq (monostate, m.default)), refl)

  each-remove_same :
      (v : V) (keep : KeyType) (n : ℕ) (l : List V) (removed : KeyType)
      → Each.each m (remove_same m v keep) none n l removed
        ≡ (elim (first_index (duplicate v keep) n l) [
          | none ↦ (l, removed)
          | some j ↦ (remove_at l j, index (n + j))
        ])
  unfolding Each.each Each.settle Each.store remove_same first_index remove_at
  each-remove_same v keep n [] removed = refl
  each-remove_same v keep n (w ∷ l) removed = elim (Bool-cases (duplicate v keep n w)) [
    | inl e ↦ ground arith
    | inr e ↦ ground (arith, each-remove_same v keep (n + 1) l removed)
  ]

  module _ (erased_value : KeyType → V × KeyType) where
    -- RemoveDuplicates of an array takes out the first value that equals the one it is given and
    -- stands under another key than the one to keep, and gives its key; it takes out no other value,
    -- and nothing where there is no such value; of a map it takes out nothing.
    pub remove_duplicates-first_index :
        (c : XContainerArray V) (d : IContainer V) (v : V) (keep : KeyType)
        → (remove_duplicates m erased_value IParentValidator.array (IContainer.array c) v keep
            ≡ (elim (first_index (duplicate v keep) 0 c.values_deq) [
              | none ↦ (monostate, IContainer.array c)
              | some j ↦
                  (index j, IContainer.array record { values_deq = remove_at c.values_deq j })
            ]))
          × (remove_duplicates m erased_value IParentValidator.map d v keep ≡ (monostate, d))
    unfolding remove_duplicates Any.for_each Each.for_each first_index
    remove_duplicates-first_index c d v keep =
        (ground (arith, each-remove_same v keep 0 c.values_deq monostate), refl)

  first_index-last :
      (l : List V) (v : V) (n : ℕ)
      → All (λ w. m.eq w v ≡ false) l
      → m.eq v v ≡ true
      → n + length l < idx_last
      → first_index (duplicate v (index idx_last)) n (l ++ v ∷ []) ≡ some (length l)
  unfolding first_index
  first_index-last [] v n other same small = ground arith
  first_index-last (w ∷ l) v n other same small =
      ground (arith, first_index-last l v (n + 1) other.1 same (omega arith))

  remove_at-last : (l : List V) (v : V) → remove_at (l ++ v ∷ []) (length l) ≡ l
  unfolding remove_at
  remove_at-last [] v = refl
  remove_at-last (w ∷ l) v = ap (◌∷◌ w) (remove_at-last l v)

  set_at-last : (l : List V) (w v : V) → set_at (l ++ w ∷ []) (length l) v ≡ l ++ v ∷ []
  set_at-last [] w v = refl
  set_at-last (x ∷ l) w v = ap (◌∷◌ x) (set_at-last l w v)

  get_elem?-last : (l : List V) (w : V) → get_elem? (l ++ w ∷ []) (length l) ≡ some w
  get_elem?-last [] w = refl
  get_elem?-last (x ∷ l) w = get_elem?-last l w

  writable-last : (l : List V) (w : V) → writable (index idx_last) (l ++ w ∷ []) ≡ some (length l)
  writable-last l w = ground (arith, length-append l (w ∷ []))

module _ {V S : Type 0} (m : Mapped V) where
  set-last :
      (l : List V) (w v : V) (on_change : OnChange V S) (s : S)
      → (Array.set m (record { values_deq = l ++ w ∷ [] }) (index idx_last) v on_change s).0 ≡ true
      → (Array.set m
          (record { values_deq = l ++ w ∷ [] })
          (index idx_last)
          v
          on_change
          s).2.values_deq
        ≡ l ++ v ∷ []
  set-last l w v on_change s ok =
      let c : XContainerArray V = record { values_deq = l ++ w ∷ [] } in
      let none_missing : suc (length l) - length (l ++ w ∷ []) ≡ 0 =
        omega (arith, length-append l (w ∷ [])) in
      let same_length : extended m (length l) (l ++ w ∷ []) ≡ l ++ w ∷ [] =
        rw none_missing (append-nil (l ++ w ∷ [])) in
      (set_anywhere m c (index idx_last) v on_change s).1
      ∙ rw (writable-last m l w, ok, same_length) (set_at-last m l w v)

  -- A node's Set of a child at kIdxLast of an array that does not hold the child: once the
  -- container's Set has put the child in the last place, RemoveDuplicates, told to keep kIdxLast,
  -- takes it out again, since the child stands under its position and not under kIdxLast, and the
  -- array is one value shorter than before.
  pub set_last_removed :
      (erased_value : KeyType → V × KeyType) (l : List V) (w v : V) (on_change : OnChange V S)
      (s : S)
      → All (λ x. m.eq x v ≡ false) l
      → m.eq v v ≡ true
      → length l < idx_last
      → (Array.set m (record { values_deq = l ++ w ∷ [] }) (index idx_last) v on_change s).0 ≡ true
      → remove_duplicates m erased_value IParentValidator.array
          (IContainer.array
            (Array.set m (record { values_deq = l ++ w ∷ [] }) (index idx_last) v on_change s).2)
          v
          (index idx_last)
        ≡ (index (length l), IContainer.array record { values_deq = l })
  set_last_removed erased_value l w v on_change s other same small ok =
      let c =
        (Array.set m (record { values_deq = l ++ w ∷ [] }) (index idx_last) v on_change s).2 in
      let e : c ≡ record { values_deq = l ++ v ∷ [] } =
        ap (λ q. record { values_deq = q }) (set-last l w v on_change s ok) in
      rw e (
        (remove_duplicates-first_index m erased_value (record { values_deq = l ++ v ∷ [] })
          (IContainer.array record { values_deq = [] }) v (index idx_last)).0
        ∙ rw (first_index-last m l v 0 other same (omega arith), remove_at-last m l v) refl)
