-- ===== src/Container/Array.antt =====
-- XContainerArray (src/xcontainer/impl/xcontainer_array.h and .cpp): a `std::deque`. A deque of
-- values holds far fewer than 2 ^ 64 - 1000 of them, so `size() + max_size_increase` does not wrap.
pub mod Each
pub mod Positions
pub mod Writes
pub mod Visits
pub mod Inserts
use xnode.Prelude.{
  ℕ, zero, suc, ◌+◌, ◌-◌, Bool, true, false, not, ◌&&◌, Option, none, some, List, [], ◌∷◌, ◌++◌,
  length, if◌then◌else◌, ltb, leb, ◌==◌,
}
use mathlib.Core.Option
use xnode.Container.{
  KeyType, monostate, index, Mapped, EmplaceRes, OnChange, OnItem, OnEach, approve, wants_erase,
  wants_stop, idx_end, idx_last,
}

pub record XContainerArray {ℓ} (V : Type ℓ) : Type ℓ where
  pub values_deq : List V

-- An iterator: the values before it, and those from it on. It is `end()` when none are left.
pub record Iterator {ℓ} (V : Type ℓ) : Type ℓ where
  pub passed : List V
  pub rest : List V

abbrev pub max_size_increase : ℕ
max_size_increase = 1000

-- KeyToIndex_
abbrev pub key_to_index : KeyType → Option ℕ
key_to_index (index i) = some i
key_to_index _ = none

unfoldable pub is_key_valid : KeyType → Bool
is_key_valid key = elim (key_to_index key) [ none ↦ false | some i ↦ true ]

module _ {ℓ} {V : Type ℓ} where
  abbrev pub at_end : Iterator V → Bool
  at_end it = elim it.rest [ [] ↦ true | _ ↦ false ]

  abbrev pub deque_of : Iterator V → XContainerArray V
  deque_of it = record { values_deq = it.passed ++ it.rest }

  -- `std::advance(begin(), idx)`
  unfoldable pub advance : ℕ → List V → Iterator V
  advance zero l = record { passed = []; rest = l }
  advance (suc i) [] = record { passed = []; rest = [] }
  advance (suc i) (v ∷ l) = record { passed = v ∷ (advance i l).passed; rest = (advance i l).rest }

  -- `idx == kIdxLast` stands for the last value.
  abbrev pub special_pos : ℕ → List V → ℕ
  special_pos idx l =
      if idx == idx_last then (if ltb 1 (length l) then length l - 1 else 0) else idx

  -- The end of both overloads of DeqFind_.
  unfoldable pub locate : ℕ → List V → Iterator V
  unfolding advance
  locate idx l = if ltb idx (length l) then advance idx l else record { passed = l; rest = [] }

  -- DeqFind_ of a deque that is only read.
  unfoldable pub deq_find_const : XContainerArray V → KeyType → Iterator V
  unfolding locate
  deq_find_const c key =
      locate (special_pos (Option.get_or (key_to_index key) idx_end) c.values_deq) c.values_deq

  unfoldable pub size : XContainerArray V → ℕ
  size c = length c.values_deq

  unfoldable pub empty : XContainerArray V → Bool
  empty c = elim c.values_deq [ [] ↦ true | _ ↦ false ]

  unfoldable pub clear : XContainerArray V → XContainerArray V
  clear c = record { values_deq = [] }

  unfoldable pub at : XContainerArray V → KeyType → Option V
  unfolding deq_find_const
  at c key = elim (deq_find_const c key).rest [ [] ↦ none | v ∷ l ↦ some v ]

-- ValueAt_
abbrev pub value_at {ℓ} : {V : Type ℓ} → Mapped V → Iterator V → V
value_at m it = elim it.rest [ [] ↦ m.default | v ∷ l ↦ v ]

module _ {ℓ} {V : Type ℓ} (m : Mapped V) where
  -- The loop that appends default values; each round adds one, so `max_size_increase` rounds do.
  unfoldable pub grow : ℕ → ℕ → List V → List V
  grow zero idx l = l
  grow (suc rounds) idx l =
      let longer = grow rounds idx (l ++ m.default ∷ []) in
      if leb (length l) idx && ltb idx (length l + max_size_increase) then longer else l

  -- DeqFind_ of a deque that may grow: its values are those of the iterator.
  unfoldable pub deq_find : XContainerArray V → KeyType → Bool → Iterator V
  unfolding locate
  deq_find c key increase_size =
      let l = c.values_deq in
      let idx = Option.get_or (key_to_index key) idx_end in
      let pos = special_pos idx l in
      if idx == idx_end
      then record { passed = l; rest = [] }
      else locate pos (if increase_size then grow max_size_increase pos l else l)

module _ {ℓ} {V S : Type ℓ} where
  -- The loop of the reading ForEach; the index counts from where the loop starts.
  unfoldable pub visit : OnItem V S → ℕ → List V → S → S
  visit f idx [] s = s
  visit f idx (v ∷ l) s =
      let (done, s') = f (index idx) v s in
      let go = visit f (idx + 1) l s' in if done then s' else go

  unfoldable pub for_each_const :
      XContainerArray V → Option (OnItem V S) → Option KeyType → S → Bool × S
  unfolding visit deq_find_const
  for_each_const c on_item from s =
      let it : Iterator V = elim from [
        | none ↦ record { passed = []; rest = c.values_deq }
        | some key ↦ deq_find_const c key
      ] in
      if at_end it
      then (false, s)
      else (true, elim on_item [ none ↦ s | some f ↦ visit f 0 it.rest s ])

module _ {ℓ} {V S : Type ℓ} (m : Mapped V) where
  -- Both overloads of `Set`; the deque has grown before the value is compared and the callback asked.
  unfoldable pub set :
      XContainerArray V → KeyType → V → OnChange V S → S → Bool × V × XContainerArray V × S
  set c key val on_change s =
      let it = deq_find m c key true in
      let (allowed, s') = approve on_change key (value_at m it) val s in
      if at_end it
      then (false, m.default, deque_of it, s)
      else if m.eq (value_at m it) val
      then (false, value_at m it, deque_of it, s)
      else if not allowed
      then (false, value_at m it, deque_of it, s')
      else (
        true,
        value_at m it,
        record { values_deq = it.passed ++ elim it.rest [ [] ↦ [] | v ∷ l ↦ val ∷ l ] },
        s',
      )

  -- Both overloads of `Emplace`.
  unfoldable pub emplace :
      XContainerArray V → KeyType → V → OnChange V S → S → EmplaceRes V × XContainerArray V × S
  emplace c key val on_change s =
      let it = deq_find m c key false in
      let (allowed, s') = approve on_change key (value_at m it) val s in
      if not allowed
      then (record { succeeded = false; inserted_at = monostate; existed = value_at m it }, c, s')
      else (
        record { succeeded = true; inserted_at = index (length it.passed); existed = m.default },
        record { values_deq = it.passed ++ val ∷ it.rest },
        s',
      )

  unfoldable pub erase :
      XContainerArray V → KeyType → OnChange V S → S → Option V × XContainerArray V × S
  erase c key on_change s =
      let it = deq_find m c key false in
      let (allowed, s') = approve on_change key (value_at m it) m.default s in
      if at_end it then (none, c, s) else if not allowed then (none, c, s') else (
        some (value_at m it),
        record { values_deq = it.passed ++ elim it.rest [ [] ↦ [] | v ∷ l ↦ l ] },
        s',
      )
