-- ===== src/Container/Map.antt =====
-- XContainerMap (src/xcontainer/impl/xcontainer_map.h and .cpp): a `std::map` by ascending keys.
pub mod Order
pub mod Lookup
use xnode.Prelude.{
  ℕ, Bool, true, false, not, ◌&&◌, Option, none, some, List, [], ◌∷◌, ◌++◌, length, if◌then◌else◌,
  Ordering,
}
use xnode.Bytes.{Bytes, compare_bytes, same}
use xnode.Container.{
  KeyType, name, OnEachRes, Mapped, EmplaceRes, OnChange, OnItem, OnEach, approve, wants_erase,
  wants_stop,
}

pub record XContainerMap {ℓ} (V : Type ℓ) : Type ℓ where
  pub values_map : List (Bytes × V)

-- An iterator: the entries before it, and those from it on. It is `end()` when none are left.
pub record Iterator {ℓ} (V : Type ℓ) : Type ℓ where
  pub passed : List (Bytes × V)
  pub rest : List (Bytes × V)

-- KeyToString_: a key that is no string is the empty string.
abbrev pub key_to_string : KeyType → Bytes
key_to_string (name b) = b
key_to_string _ = []

abbrev pub is_nil : Bytes → Bool
is_nil [] = true
is_nil (c ∷ b) = false

abbrev pub string_to_key : Bytes → KeyType
string_to_key b = name b

unfoldable pub is_key_valid : KeyType → Bool
is_key_valid key = not (is_nil (key_to_string key))

module _ {ℓ} {V : Type ℓ} where
  -- `std::map::find`
  unfoldable pub find : Bytes → List (Bytes × V) → Iterator V
  find k [] = record { passed = []; rest = [] }
  find k ((j, v) ∷ l) =
      if same k j
      then record { passed = []; rest = (j, v) ∷ l }
      else record { passed = (j, v) ∷ (find k l).passed; rest = (find k l).rest }

  -- `std::map::emplace`: in order, and nothing where the key is there.
  unfoldable pub insert_sorted : Bytes → V → List (Bytes × V) → List (Bytes × V)
  insert_sorted k v [] = (k, v) ∷ []
  insert_sorted k v ((j, w) ∷ l) = elim (compare_bytes k j) [
    | Ordering.lt ↦ (k, v) ∷ (j, w) ∷ l
    | Ordering.eq ↦ (j, w) ∷ l
    | Ordering.gt ↦ (j, w) ∷ insert_sorted k v l
  ]

  abbrev pub begin_of : XContainerMap V → Iterator V
  begin_of c = record { passed = []; rest = c.values_map }

  abbrev pub end_of : XContainerMap V → Iterator V
  end_of c = record { passed = c.values_map; rest = [] }

  abbrev pub at_end : Iterator V → Bool
  at_end it = elim it.rest [ [] ↦ true | _ ↦ false ]

  -- MapFind_
  unfoldable pub map_find : XContainerMap V → KeyType → Iterator V
  unfolding find
  map_find c key =
      if is_nil (key_to_string key) then end_of c else find (key_to_string key) c.values_map

  unfoldable pub size : XContainerMap V → ℕ
  size c = length c.values_map

  unfoldable pub empty : XContainerMap V → Bool
  empty c = elim c.values_map [ [] ↦ true | _ ↦ false ]

  unfoldable pub at : XContainerMap V → KeyType → Option V
  unfolding map_find
  at c key = elim (map_find c key).rest [ [] ↦ none | (j, v) ∷ l ↦ some v ]

  -- `it->second = v`
  abbrev pub assign : Iterator V → V → XContainerMap V
  assign it v = record {
    values_map = it.passed ++ elim it.rest [ [] ↦ [] | (j, w) ∷ l ↦ (j, v) ∷ l ];
  }

  -- `values_map_.erase(it)`
  abbrev pub erase_at : Iterator V → XContainerMap V
  erase_at it = record { values_map = it.passed ++ elim it.rest [ [] ↦ [] | e ∷ l ↦ l ] }

  abbrev pub start : XContainerMap V → Option KeyType → Iterator V
  start c none = begin_of c
  start c (some key) = map_find c key

  unfoldable pub clear : XContainerMap V → XContainerMap V
  clear c = record { values_map = [] }

module _ {ℓ} {V S : Type ℓ} where
  -- The loop of the reading `ForEach`.
  unfoldable pub visit : OnItem V S → List (Bytes × V) → S → S
  visit f [] s = s
  visit f ((k, v) ∷ l) s =
      let (done, s') = f (string_to_key k) v s in let go = visit f l s' in if done then s' else go

  unfoldable pub for_each_const :
      XContainerMap V → Option (OnItem V S) → Option KeyType → S → Bool × S
  unfolding visit map_find
  for_each_const c on_item from s =
      let it = start c from in
      if at_end it
      then (false, s)
      else (true, elim on_item [ none ↦ s | some f ↦ visit f it.rest s ])

-- ValueAt_
abbrev pub value_at {ℓ} : {V : Type ℓ} → Mapped V → Iterator V → V
value_at m it = elim it.rest [ [] ↦ m.default | (j, v) ∷ l ↦ v ]

module _ {ℓ} {V S : Type ℓ} (m : Mapped V) where
  -- Both overloads of `Set`: {success, previous value}, the map and the callback's state.
  unfoldable pub set :
      XContainerMap V → KeyType → V → OnChange V S → S → Bool × V × XContainerMap V × S
  unfolding map_find insert_sorted
  set c key val on_change s =
      let it = map_find c key in
      let (allowed, s') = approve on_change key (value_at m it) val s in
      if at_end it && is_nil (key_to_string key)
      then (false, m.default, c, s)
      else if m.eq (value_at m it) val
      then (false, value_at m it, c, s)
      else if not allowed
      then (false, value_at m it, c, s')
      else if at_end it
      then (
        true,
        m.default,
        record { values_map = insert_sorted (key_to_string key) val c.values_map },
        s',
      )
      else (true, value_at m it, assign it val, s')

  -- Both overloads of `Emplace`.
  unfoldable pub emplace :
      XContainerMap V → KeyType → V → OnChange V S → S → EmplaceRes V × XContainerMap V × S
  unfolding map_find insert_sorted
  emplace c key val on_change s =
      let it = map_find c key in
      let (allowed, s') = approve on_change key (value_at m it) val s in
      if is_nil (key_to_string key)
      then (record { succeeded = false; inserted_at = key; existed = value_at m it }, c, s)
      else if not (at_end it)
      then (record { succeeded = false; inserted_at = key; existed = value_at m it }, c, s)
      else if not allowed
      then (record { succeeded = false; inserted_at = key; existed = m.default }, c, s')
      else (
        record {
          succeeded = true;
          inserted_at = string_to_key (key_to_string key);
          existed = m.default;
        },
        record { values_map = insert_sorted (key_to_string key) val c.values_map },
        s',
      )

  unfoldable pub erase :
      XContainerMap V → KeyType → OnChange V S → S → Option V × XContainerMap V × S
  unfolding map_find
  erase c key on_change s =
      let it = map_find c key in
      let (allowed, s') = approve on_change key (value_at m it) m.default s in
      if at_end it
      then (none, c, s)
      else if not allowed
      then (none, c, s')
      else (some (value_at m it), erase_at it, s')

  -- One round of the changing loop, after the callback: what is left of the entry.
  unfoldable pub settle : Bytes → V → OnEachRes × V → OnChange V S → S → List (Bytes × V) × S
  settle k v (res, val) on_change s =
      let (erasing, s1) = approve on_change (string_to_key k) v m.default s in
      let (changing, s2) = approve on_change (string_to_key k) v val s in
      if wants_erase res
      then (if erasing then [] else (k, v) ∷ [], s1)
      else if m.eq val v
      then ((k, v) ∷ [], s)
      else (if changing then (k, val) ∷ [] else (k, v) ∷ [], s2)

  -- The changing loop: the entries that are left from the iterator on.
  unfoldable pub each : OnEach V S → OnChange V S → List (Bytes × V) → S → List (Bytes × V) × S
  unfolding settle
  each f on_change [] s = ([], s)
  each f on_change ((k, v) ∷ l) s =
      let (res, val, s1) = f (string_to_key k) v s in
      let (kept, s2) = settle k v (res, val) on_change s1 in
      let go = each f on_change l s2 in
      if wants_stop res then (kept ++ l, s2) else (kept ++ go.0, go.1)

  unfoldable pub for_each :
      XContainerMap V
      → Option (OnEach V S)
      → Option KeyType
      → OnChange V S
      → S
      → Bool × XContainerMap V × S
  unfolding each map_find
  for_each c on_each from on_change s =
      let it = start c from in
      if at_end it then (false, c, s) else elim on_each [
        | none ↦ (true, c, s)
        | some f ↦
            let go = each f on_change it.rest s in
            (true, record { values_map = it.passed ++ go.0 }, go.1)
      ]
