-- ===== src/Container/Erase/Live.antt =====
-- What XContainerMapWithErase shows of its entries, and what an erasure leaves behind.
use xnode.Prelude.{
  ◌≡◌, refl, true, false, not, ◌&&◌, Option, none, some, List, [], ◌∷◌, if◌then◌else◌, arith,
  is_some,
}
use mathlib.Core.Option
use xnode.Bytes.{Bytes, same, same_iff}
use xnode.Container.{KeyType, name, Mapped, OnChange, OnItem, approve}
use xnode.Container.Map
use xnode.Container.Map.{XContainerMap, at, at_end, is_key_valid, key_to_string}
use xnode.Container.Map.Lookup.{at-set, set-answer, emplace_existing}
use xnode.Container.Erase.{
  XContainerMapWithErase, is_erased_value, detect_erase, skip_erased, for_each_const, erase,
  emplace,
}

module _ {ℓ} {V : Type ℓ} (m : Mapped V) where
  -- The entries that are not erased, in the order of their keys.
  unfoldable pub live : List (Bytes × V) → List (Bytes × V)
  live [] = []
  live ((k, v) ∷ l) = if is_erased_value m v then live l else (k, v) ∷ live l

module _ {ℓ} {V S : Type ℓ} (m : Mapped V) where
  visit-live :
      (f : OnItem V S) (l : List (Bytes × V)) (s : S)
      → Map.visit (skip_erased m (some f)) l s ≡ Map.visit f (live m l) s
  unfolding Map.visit skip_erased live
  visit-live f [] s = refl
  visit-live f ((k, v) ∷ l) s = ground (arith, visit-live f l s, visit-live f l (f (name k) v s).1)

  -- The reading ForEach shows its callback the entries that are not erased, from the start on, in
  -- order and until it asks to stop, as the map that holds only those would. It answers `false`
  -- exactly where the start is the end of the map that still holds the erased entries: from the
  -- beginning of a map that holds erased entries only, so that it is empty, it answers `true`.
  pub for_each_const-live :
      (c : XContainerMapWithErase V) (f : OnItem V S) (from : Option KeyType) (s : S)
      → for_each_const m c (some f) from s ≡ (
        not (at_end (Map.start c.base from)),
        Map.visit f (live m (Map.start c.base from).rest) s,
      )
  unfolding for_each_const Map.for_each_const live Map.visit
  for_each_const-live c f from s = ground (arith, visit-live f (Map.start c.base from).rest s)

  module _ (erased_value : S → V × S) (c : XContainerMapWithErase V) (key j : KeyType)
      (on_change : OnChange V S) (s : S) where
    -- What the key holds before, and the mark that the erasure writes.
    abbrev held : V
    held = Option.get_or (at c.base key) m.default

    abbrev mark : V
    mark = (erased_value s).0

    -- Erase returns the stored value exactly where the key is a non-empty string, the stored value
    -- (the default one where there is none) differs from the mark of an erased entry and the callback
    -- approves the change to that mark. Then the key still reads the mark; every other key, and every
    -- key after a failure, reads as before.
    pub at-erase-mark :
        ((erase m erased_value c key on_change s).0 ≡ (
          if is_key_valid key
            && (not (m.eq held mark) && (approve on_change key held mark (erased_value s).1).0)
          then some held
          else none))
        × (at (erase m erased_value c key on_change s).1.base j ≡ (
            if is_some (erase m erased_value c key on_change s).0
              && same (key_to_string key) (key_to_string j)
            then some mark
            else at c.base j))
    unfolding erase detect_erase
    at-erase-mark = ground (
      arith,
      set-answer m c.base key j mark (detect_erase m on_change)
          ((erased_value s).1, c.erased_values),
      at-set m c.base key j mark (detect_erase m on_change) ((erased_value s).1, c.erased_values),
    )

  module _ (erased_value : S → V × S) (c : XContainerMapWithErase V) (key : KeyType) where
    -- Once Erase has returned a value for a key, Emplace of any value under that key fails, changes
    -- no entry and no counter, calls no callback and reports the mark of the erased entry as what is
    -- there.
    pub emplace_after_erase :
        (val : V) (on_change later : OnChange V S) (s s' : S)
        → is_some (erase m erased_value c key on_change s).0 ≡ true
        → emplace m (erase m erased_value c key on_change s).1 key val later s' ≡ (
          record { succeeded = false; inserted_at = key; existed = (erased_value s).0 },
          (erase m erased_value c key on_change s).1,
          s',
        )
    unfolding emplace
    emplace_after_erase val on_change later s s' erased =
        let c' = (erase m erased_value c key on_change s).1 in
        let reads : at c'.base key ≡ some (erased_value s).0 = ground (
          arith,
          at-erase-mark erased_value c key key on_change s,
          same_iff (key_to_string key) (key_to_string key),
        ) in
        ground (
          arith,
          emplace_existing m c'.base key key val (erased_value s).0 (detect_erase m later)
              (s', c'.erased_values) reads,
        )
