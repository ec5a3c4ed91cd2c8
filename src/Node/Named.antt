-- ===== src/Node/Named.antt =====
-- The items of a map (src/xnode/impl/xnode_impl.cpp) as a function of their names, which Set, Insert and
-- Erase of a value that is no node change.
pub mod Steps
pub mod Contract
pub mod Fresh
use xnode.Prelude.{
  ℕ, ◌≡◌, ◌≢◌, refl, sym, ap, ◌∙◌, subst, Bool, true, false, not, ◌&&◌, Option, none, some, [], ◌∷◌,
  if◌then◌else◌, is_some, arith, ==_iff, if_intro, option_intro, Bool-cases, inl, inr,
}
use mathlib.Core.Option
use xnode.Prelude.Int.{ℤ}
use xnode.Bytes.{Bytes, same, same_iff}
use xnode.Key
use xnode.Key.{XKey}
use xnode.Value
use xnode.Value.{XValue, Double}
use xnode.Timed.{XTimed, mapped, absent, timed, empty_with_time}
use xnode.Container.{KeyType, monostate, name, OnChange, approve}
use xnode.Container.Map
use xnode.Container.Map.Lookup
use xnode.Container.Erase
use xnode.Container.Erase.Live
use xnode.Container.Erase.{XContainerMapWithErase, detect_erase}
use xnode.Container.Any
use xnode.Container.Any.{IContainer}
use xnode.Node.Heap.{
  XNode, World, Call, write, on_container, on_change, erased_value, stamp, query_ptr, node_of,
}
use xnode.Node.Match.{container_key, map_key, plain_key}
use xnode.Node.Validator.{find_duplicates}
use xnode.Node.Parents.{private_parent_set, is_valid_child}
use xnode.Node.Items
use xnode.Node.Items.{InsertRes, set_in, insert_in, erase_in, failed_insert}
use xnode.Node.Adopted.{not-not}
use xnode.Node.Placed.{
  container_at, on_container-own, started, read_at, at-container_at, adopt-container_at,
  set_as_child-container_at, orphaned-container_at, set_in-map, read_at-map,
}

-- The values by name after a value is put under one, or not.
abbrev pub put : {V : Type 0} → Bool → Bytes → V → (Bytes → V) → Bytes → V
put done k v values j = if done && same k j then v else values j

module _ {D : Type 0} (f : Double D) where
  abbrev pub reads : XContainerMapWithErase (XTimed D) → Bytes → XValue D
  reads c j = (Option.get_or (Map.at c.base (name j)) absent).value

  -- What differs from the mark of an erased entry is a value.
  not_mark-has_value :
      (v mark : XValue D)
      → mark ≡ XValue.empty
      → Value.eq f v mark ≡ false
      → Value.has_value v ≡ true
  unfolding Value.eq Value.has_value
  not_mark-has_value XValue.empty mark e h =
      absurd (cc_of (subst (λ m. Value.eq f XValue.empty m ≡ false) e h))
    where
      cc_of : true ≡ false → ⊥
      cc_of e = cc
  not_mark-has_value XValue.null mark e h = refl
  not_mark-has_value (XValue.bool b) mark e h = refl
  not_mark-has_value (XValue.int64 i) mark e h = refl
  not_mark-has_value (XValue.uint64 i) mark e h = refl
  not_mark-has_value (XValue.double d) mark e h = refl
  not_mark-has_value (XValue.string t) mark e h = refl
  not_mark-has_value (XValue.const_object p) mark e h = refl
  not_mark-has_value (XValue.object p) mark e h = refl

  -- What is equal to the mark is empty.
  eq-mark : (v mark : XValue D) → mark ≡ XValue.empty → Value.eq f v mark ≡ true → v ≡ XValue.empty
  unfolding Value.eq
  eq-mark v mark e h = go v (subst (λ m. Value.eq f v m ≡ true) e h)
    where
      go : (v : XValue D) → Value.eq f v XValue.empty ≡ true → v ≡ XValue.empty
      go XValue.empty h = refl
      go XValue.null h = absurd (cc)
      go (XValue.bool b) h = absurd (cc)
      go (XValue.int64 i) h = absurd (cc)
      go (XValue.uint64 i) h = absurd (cc)
      go (XValue.double d) h = absurd (cc)
      go (XValue.string t) h = absurd (cc)
      go (XValue.const_object p) h = absurd (cc)
      go (XValue.object p) h = absurd (cc)

  pub empty-object_ptr : (v : XValue D) → Value.has_value v ≡ false → Value.object_ptr v ≡ none
  unfolding Value.has_value Value.object_ptr
  empty-object_ptr XValue.empty h = refl
  empty-object_ptr (XValue.object p) h = cc
  empty-object_ptr _ h = refl

  module _ {S : Type 0} (c : XContainerMapWithErase (XTimed D)) (k j : Bytes)
      (on : OnChange (XTimed D) S) (state : S) where
    pub set-reads :
        (v : XTimed D)
        → reads (Erase.set (mapped f) c (name k) v on state).2 j
          ≡ put (Erase.set (mapped f) c (name k) v on state).0 k v.value (reads c) j
    unfolding Erase.set
    set-reads v = ground (
      arith,
      Lookup.at-set (mapped f) c.base (name k) (name j) v (detect_erase (mapped f) on)
          (state, c.erased_values),
    )

    pub emplace-reads :
        (v : XTimed D)
        → reads (Erase.emplace (mapped f) c (name k) v on state).1 j
          ≡ put (Erase.emplace (mapped f) c (name k) v on state).0.succeeded k v.value (reads c) j
    unfolding Erase.emplace
    emplace-reads v = ground (
      arith,
      Lookup.at-emplace (mapped f) c.base (name k) (name j) v (detect_erase (mapped f) on)
          (state, c.erased_values),
    )

    -- A value that was erased was there.
    pub erase-reads :
        (erased : S → XTimed D × S)
        → (erased state).0.value ≡ XValue.empty
        → let res = Erase.erase (mapped f) erased c (name k) on state in
          let old = Option.get_or res.0 absent in
          (reads res.1 j ≡ put (Value.has_value old.value) k XValue.empty (reads c) j)
          × (Value.has_value old.value ≡ true → old.value ≡ reads c k)
    unfolding Value.has_value
    erase-reads erased mark =
        let (answer, after) = Live.at-erase-mark (mapped f) erased c (name k) (name j) on state in
        let held = Option.get_or (Map.at c.base (name k)) absent in
        let there = not_mark-has_value held.value (erased state).0.value mark in
        ground (arith, answer, after, there, mark)

    -- What Erase of a name that is not empty gives.
    pub erase-answer :
        (erased : S → XTimed D × S)
        → (erased state).0.value ≡ XValue.empty
        → Map.is_key_valid (name k) ≡ true
        → (Option.get_or (Erase.erase (mapped f) erased c (name k) on state).0 absent).value ≡ (
            if (approve on
              (name k)
              (Option.get_or (Map.at c.base (name k)) absent)
              (erased state).0
              (erased state).1).0
            then reads c k
            else XValue.empty)
    erase-answer erased mark valid =
        let (answer, after) = Live.at-erase-mark (mapped f) erased c (name k) (name j) on state in
        let gone = eq-mark (reads c k) (erased state).0.value mark in
        ground (arith, answer, gone, valid)

    -- When Set and Emplace succeed.
    pub set-succeeds :
        (v : XTimed D)
        → let old = Option.get_or (Map.at c.base (name k)) absent in
          (Erase.set (mapped f) c (name k) v on state).0 ≡ (
            Map.is_key_valid (name k)
            && (not (Value.eq f old.value v.value) && (approve on (name k) old v state).0))
    unfolding Erase.set detect_erase
    set-succeeds v =
        (Lookup.set-answer (mapped f) c.base (name k) (name k) v (detect_erase (mapped f) on)
          (state, c.erased_values)).0

    pub emplace-succeeds :
        (v : XTimed D)
        → (Erase.emplace (mapped f) c (name k) v on state).0.succeeded ≡ (
            Map.is_key_valid (name k)
            && (not (is_some (Map.at c.base (name k))) && (approve on (name k) absent v state).0))
    unfolding Erase.emplace detect_erase
    emplace-succeeds v =
        (Lookup.at-emplace (mapped f) c.base (name k) (name k) v (detect_erase (mapped f) on)
          (state, c.erased_values)).0
