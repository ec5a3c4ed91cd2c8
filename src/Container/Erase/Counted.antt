-- ===== src/Container/Erase/Counted.antt =====
-- Every operation of XContainerMapWithErase keeps its counter of erased entries.
use xnode.Prelude.{
  ℕ, ◌+◌, ◌%◌, ◌<◌, ◌≡◌, refl, ap, ◌∙◌, Bool, false, Option, some, List, [], ◌∷◌, if◌then◌else◌,
  word, length, arith, inl, inr, Bool-cases, ◌==◌,
}
use xnode.Bytes.{Bytes}
use xnode.Container.{KeyType, name, OnEachRes, wants_stop, Mapped, OnChange, OnEach}
use xnode.Container.Map
use xnode.Container.Map.{XContainerMap, find, insert_sorted, assign, map_find, at_end, value_at}
use xnode.Container.Erase.{
  XContainerMapWithErase, is_erased_value, detect_erase, with_found, size, set, emplace, erase,
  for_each, mark_erased, clear, empty,
}
use xnode.Container.Erase.Count.{
  erased_bit, count_erased, count_erased-append, IsCounted, recount_lem, others, count_erased-at,
  count_erased-assign, count_erased-new, count_erased-start,
}

module _ {ℓ} {V S : Type ℓ} (m : Mapped V) (blank : is_erased_value m m.default ≡ false) where
  module _ (c : XContainerMap V) (key : KeyType) (val : V) (on_change : OnChange V S) (s : S)
      (n : ℕ) (h : n ≡ count_erased m c.values_map % word) where
    set-counts :
        (Map.set m c key val (detect_erase m on_change) (s, n)).3.1
        ≡ count_erased m (Map.set m c key val (detect_erase m on_change) (s, n)).2.values_map % word
    unfolding Map.set detect_erase
    set-counts = ground (
      arith,
      recount_lem m (value_at m (map_find c key)) val (others m (map_find c key)) n,
      count_erased-at m c key blank,
      count_erased-assign m (map_find c key) val,
      count_erased-new m c key val,
    )

    emplace-counts :
        (Map.emplace m c key val (detect_erase m on_change) (s, n)).2.1
        ≡ count_erased m (Map.emplace m c key val (detect_erase m on_change) (s, n)).1.values_map
          % word
    unfolding Map.emplace detect_erase
    emplace-counts = ground (
      arith,
      recount_lem m (value_at m (map_find c key)) val (others m (map_find c key)) n,
      count_erased-at m c key blank,
      count_erased-new m c key val,
    )

  settle-counts :
      (k : Bytes) (v : V) (res : OnEachRes) (val : V) (on_change : OnChange V S) (s : S) (r n : ℕ)
      → n ≡ (erased_bit m v + r) % word
      → (Map.settle m k v (res, val) (detect_erase m on_change) (s, n)).1.1
        ≡ (count_erased m (Map.settle m k v (res, val) (detect_erase m on_change) (s, n)).0 + r)
          % word
  unfolding Map.settle detect_erase count_erased
  settle-counts k v res val on_change s r n h =
      ground (arith, recount_lem m v val r n, recount_lem m v m.default r n)

  -- A callback that leaves the counter alone.
  abbrev KeepsCount : OnEach V (S × ℕ) → Type ℓ
  KeepsCount f = (key : KeyType) (val : V) (s : S × ℕ) → (f key val s).2.1 ≡ s.1

  each-counts :
      (f : OnEach V (S × ℕ)) (on_change : OnChange V S) (l : List (Bytes × V)) (s : S × ℕ) (r : ℕ)
      → KeepsCount f
      → s.1 ≡ (count_erased m l + r) % word
      → (Map.each m f (detect_erase m on_change) l s).1.1
        ≡ (count_erased m (Map.each m f (detect_erase m on_change) l s).0 + r) % word
  unfolding Map.each count_erased
  each-counts f on_change [] s r keeps h = h
  each-counts f on_change ((k, v) ∷ l) s r keeps h =
      let (res, val, s1) = f (name k) v s in
      let (kept, s2) = Map.settle m k v (res, val) (detect_erase m on_change) s1 in
      let go = Map.each m f (detect_erase m on_change) l s2 in
      let settled : s2.1 ≡ (count_erased m kept + (count_erased m l + r)) % word =
        settle-counts k v res val on_change s1.0 (count_erased m l + r) s1.1
          (keeps (name k) v s ∙ h ∙ ap (λ t. t % word) (omega arith)) in
      elim (Bool-cases (wants_stop res)) [
        | inl e ↦ rw e (omega (arith, settled, count_erased-append m kept l))
        | inr e ↦ rw e (
            omega (
              arith,
              each-counts f on_change l s2 (count_erased m kept + r) keeps (omega (arith, settled)),
              count_erased-append m kept go.0,
            ))
      ]

  for_each_base-counts :
      (f : OnEach V (S × ℕ)) (on_change : OnChange V S) (c : XContainerMap V)
      (from : Option KeyType) (s : S × ℕ)
      → KeepsCount f
      → s.1 ≡ count_erased m c.values_map % word
      → (Map.for_each m c (some f) from (detect_erase m on_change) s).2.1
        ≡ count_erased m (Map.for_each m c (some f) from (detect_erase m on_change) s).1.values_map
          % word
  unfolding Map.for_each
  for_each_base-counts f on_change c from s keeps h =
      let it = Map.start c from in
      let go = Map.each m f (detect_erase m on_change) it.rest s in
      elim (Bool-cases (at_end it)) [
        | inl e ↦ rw e h
        | inr e ↦ rw e (
            omega (
              arith,
              count_erased-append m it.passed go.0,
              each-counts f on_change it.rest s (count_erased m it.passed) keeps
                  (h ∙ ap (λ t. t % word) (count_erased-start m c from)),
            ))
      ]

module _ {ℓ} {V S : Type ℓ} (m : Mapped V) (erased_value : S → V × S) where
  mark_erased-KeepsCount :
      (on_each : Option (OnEach V S)) (from : Option KeyType) (on_change : OnChange V S)
      (key : KeyType) (val : V) (s : (S × Bool) × ℕ)
      → (mark_erased m erased_value on_each from on_change key val s).2.1 ≡ s.1
  unfolding mark_erased
  mark_erased-KeepsCount on_each from on_change key val s = ground arith

  -- However the callbacks answer, Set, Emplace, Erase, Clear and the changing ForEach leave the
  -- counter at the number of erased entries (modulo the range of size_t) if it was that before and
  -- a value built by default does not count as erased.
  pub operations-IsCounted :
      (c : XContainerMapWithErase V) (key : KeyType) (val : V) (f : Option (OnEach V S))
      (from : Option KeyType) (on_change : OnChange V S) (s : S)
      → is_erased_value m m.default ≡ false
      → IsCounted m c
      → IsCounted m (set m c key val on_change s).2
        × IsCounted m (emplace m c key val on_change s).1
        × IsCounted m (erase m erased_value c key on_change s).1
        × IsCounted m (for_each m erased_value c f from on_change s).1
        × IsCounted m (clear c)
  unfolding set emplace erase for_each clear count_erased
  operations-IsCounted c key val f from on_change s blank h = (
    set-counts m blank c.base key val on_change s c.erased_values h,
    emplace-counts m blank c.base key val on_change s c.erased_values h,
    set-counts m blank c.base key (erased_value s).0 on_change (erased_value s).1 c.erased_values h,
    for_each_base-counts m blank (mark_erased m erased_value f from on_change)
        (with_found on_change) c.base from ((s, false), c.erased_values)
        (mark_erased-KeepsCount f from on_change) h,
    refl,
  )

module _ {ℓ} {V : Type ℓ} (m : Mapped V) where
  unfoldable pub count_live : List (Bytes × V) → ℕ
  count_live [] = 0
  count_live ((k, v) ∷ l) = (if is_erased_value m v then 0 else 1) + count_live l

  count_live-length : (l : List (Bytes × V)) → count_live l + count_erased m l ≡ length l
  unfolding count_live count_erased
  count_live-length [] = refl
  count_live-length ((k, v) ∷ l) = ground (arith, count_live-length l)

  -- Where fewer than 2 ^ 64 entries are stored and the counter is right, Size() is the number of
  -- entries that are not erased, and Empty() tells whether there are none.
  pub size-count_live :
      (c : XContainerMapWithErase V)
      → IsCounted m c
      → length c.base.values_map < word
      → (size c ≡ count_live c.base.values_map) × (empty c ≡ (count_live c.base.values_map == 0))
  unfolding size empty
  size-count_live c h small =
      let e : size c ≡ count_live c.base.values_map =
        omega (arith, h, count_live-length c.base.values_map) in
      (e, ap (λ t. t == 0) e)
