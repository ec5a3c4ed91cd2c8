-- ===== src/Container/Erase.antt =====
-- XContainerMapWithErase (src/xcontainer/impl/xcontainer_map_w_erase.h and .cpp): a map in which an
-- erased entry stays as an empty value with the time of its erasure.
pub mod Count
pub mod Counted
pub mod Live
use xnode.Prelude.{
  ℕ, ◌+◌, ◌-◌, ◌%◌, Bool, true, false, not, ◌&&◌, Option, none, some, if◌then◌else◌, word, ◌==◌,
}
use xnode.Bytes.{same}
use xnode.Container.{
  KeyType, monostate, index, name, OnEachRes, wants_erase, Mapped, EmplaceRes, OnChange, OnItem,
  OnEach, approve, key_eq,
}
use xnode.Container.Map
use xnode.Container.Map.{XContainerMap}

pub record XContainerMapWithErase {ℓ} (V : Type ℓ) : Type ℓ where
  pub base : XContainerMap V
  pub erased_values : ℕ

module _ {ℓ} {V : Type ℓ} (m : Mapped V) where
  -- IsErasedValue_
  abbrev pub is_erased_value : V → Bool
  is_erased_value v = m.is_empty v && not (m.time_is_absent v)

  -- `++erased_values_` or `--erased_values_` in DetectErase_.
  unfoldable pub recount : V → V → ℕ → ℕ
  recount from to n =
      if not (is_erased_value from) && is_erased_value to
      then (n + 1) % word
      else if is_erased_value from && not (is_erased_value to)
      then (n + word - 1) % word
      else n

  -- DetectErase_: the counter is a part of the state that the callback changes.
  unfoldable pub detect_erase : {S : Type ℓ} → OnChange V S → OnChange V (S × ℕ)
  unfolding recount
  detect_erase on_change = some λ key from to s.
      let (allowed, s') = approve on_change key from to s.0 in
      (allowed, (s', if allowed then recount from to s.1 else s.1))

module _ {ℓ} {V : Type ℓ} where
  unfoldable pub size : XContainerMapWithErase V → ℕ
  unfolding Map.size
  size c = (Map.size c.base + word - c.erased_values) % word

  unfoldable pub empty : XContainerMapWithErase V → Bool
  unfolding size
  empty c = size c == 0

  unfoldable pub clear : XContainerMapWithErase V → XContainerMapWithErase V
  unfolding Map.clear
  clear c = record { base = Map.clear c.base; erased_values = 0 }

module _ {ℓ} {V S : Type ℓ} where
  unfoldable pub for_patch :
      XContainerMapWithErase V → Option (OnItem V S) → Option KeyType → S → Bool × S
  for_patch c on_item from s = Map.for_each_const c.base on_item from s

  -- The callback of the changing ForEach carries whether an entry was found, too.
  abbrev pub with_found : OnChange V S → OnChange V (S × Bool)
  with_found none = none
  with_found (some f) =
      some λ key from to s. let (allowed, s') = f key from to s.0 in (allowed, (s', s.1))

module _ {ℓ} {V S : Type ℓ} (m : Mapped V) where
  -- The callback that the reading ForEach hands to the map.
  unfoldable pub skip_erased : Option (OnItem V S) → OnItem V S
  skip_erased on_item key val s =
      if is_erased_value m val
      then (false, s)
      else elim on_item [ none ↦ (true, s) | some f ↦ f key val s ]

  unfoldable pub for_each_const :
      XContainerMapWithErase V → Option (OnItem V S) → Option KeyType → S → Bool × S
  unfolding skip_erased
  for_each_const c on_item from s = Map.for_each_const c.base (some (skip_erased on_item)) from s

  unfoldable pub set :
      XContainerMapWithErase V
      → KeyType
      → V
      → OnChange V S
      → S
      → Bool × V × XContainerMapWithErase V × S
  set c key val on_change s =
      let (ok, previous, base, s') =
        Map.set m c.base key val (detect_erase m on_change) (s, c.erased_values) in
      (ok, previous, record { base = base; erased_values = s'.1 }, s'.0)

  unfoldable pub emplace :
      XContainerMapWithErase V
      → KeyType
      → V
      → OnChange V S
      → S
      → EmplaceRes V × XContainerMapWithErase V × S
  emplace c key val on_change s =
      let (res, base, s') =
        Map.emplace m c.base key val (detect_erase m on_change) (s, c.erased_values) in
      (res, record { base = base; erased_values = s'.1 }, s'.0)

  -- `ErasedValue_` reads the clock, which is in the state.
  module _ (erased_value : S → V × S) where
    unfoldable pub erase :
        XContainerMapWithErase V
        → KeyType
        → OnChange V S
        → S
        → Option V × XContainerMapWithErase V × S
    unfolding set
    erase c key on_change s =
        let (mark, s1) = erased_value s in
        let (ok, previous, c', s2) = set c key mark on_change s1 in
        (if ok then some previous else none, c', s2)

    -- What the callback of the changing ForEach does with an entry that is not erased.
    unfoldable pub visit_live : OnEach V S → OnChange V S → KeyType → V → S → OnEachRes × V × S
    visit_live on_each on_change key val s =
        let (res, val', s1) = on_each key val s in
        let (allowed, s2) = approve on_change key val' m.default s1 in
        let (mark, s3) = erased_value s2 in
        let res' : OnEachRes = elim res [
          | OnEachRes.erase_stop ↦ OnEachRes.stop
          | _ ↦ OnEachRes.next
        ] in
        if wants_erase res
        then (if allowed then (res', mark, s3) else (res', val', s2))
        else (res, val', s1)

    -- The callback that the changing ForEach hands to the map.
    unfoldable pub mark_erased :
        Option (OnEach V S) → Option KeyType → OnChange V S → OnEach V ((S × Bool) × ℕ)
    unfolding visit_live
    mark_erased on_each from on_change key val ((s, found), n) =
        if is_erased_value m val
        then (if not found && elim from [ none ↦ false | some k ↦ key_eq k key ]
            then (OnEachRes.stop, val, ((s, found), n))
            else (OnEachRes.next, val, ((s, found), n)))
        else elim on_each [
          | none ↦ (OnEachRes.stop, val, ((s, true), n))
          | some f ↦
              let (res, val', s') = visit_live f on_change key val s in (res, val', ((s', true), n))
        ]

    unfoldable pub for_each :
        XContainerMapWithErase V
        → Option (OnEach V S)
        → Option KeyType
        → OnChange V S
        → S
        → Bool × XContainerMapWithErase V × S
    unfolding mark_erased
    for_each c on_each from on_change s =
        let (_, base, s') =
          Map.for_each m c.base (some (mark_erased on_each from on_change)) from
            (detect_erase m (with_found on_change)) ((s, false), c.erased_values) in
        (s'.0.1, record { base = base; erased_values = s'.1 }, s'.0.0)
