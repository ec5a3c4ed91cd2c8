-- ===== src/Node/Named/Steps.antt =====
-- What Set, Insert and Erase (src/xnode/impl/xnode_impl.cpp) leave in a node that keeps its items in a
-- map, by the container's operations.
use xnode.Prelude.{
  ℕ, ◌≡◌, refl, sym, ap, ◌∙◌, Bool, true, false, not, Option, none, some, ◌∷◌, arith, if_intro,
  option_intro, Bool-cases, inl, inr,
}
use mathlib.Core.Option
use xnode.Prelude.Int.{ℤ}
use xnode.Bytes.{Bytes}
use xnode.Key
use xnode.Key.{XKey}
use xnode.Value
use xnode.Value.{XValue, Double}
use xnode.Timed.{XTimed, mapped, absent, timed, empty_with_time}
use xnode.Container.{monostate, name}
use xnode.Container.Erase
use xnode.Container.Erase.{XContainerMapWithErase, detect_erase}
use xnode.Container.Any
use xnode.Container.Any.{IContainer}
use xnode.Node.Heap.{
  XNode, World, Call, on_container, on_change, erased_value, stamp, query_ptr, node_of,
}
use xnode.Node.Match.{container_key, map_key, plain_key}
use xnode.Node.Validator.{find_duplicates}
use xnode.Node.Parents.{private_parent_set, is_valid_child}
use xnode.Node.Items
use xnode.Node.Items.{InsertRes, set_in, insert_in, erase_in, failed_insert}
use xnode.Node.Adopted.{not-not}
use xnode.Node.Named.{reads, erase-reads, empty-object_ptr}
use xnode.Node.Placed.{
  container_at, on_container-own, started, read_at, at-container_at, adopt-container_at,
  set_as_child-container_at, orphaned-container_at, set_in-map, read_at-map,
}

module _ {D U : Type 0} (f : Double D) (time : ℕ → ℤ) (depth : ℕ) where
  -- The values of a node by their names.
  abbrev pub values : World D U → ℕ → Bytes → XValue D
  values w a j = (Items.at f w a (XKey.string j)).value

  -- What a step leaves in a map, and its answer, as the values by name.
  abbrev pub Leaves : Bool → ℕ → XContainerMapWithErase (XTimed D) → World D U → Bool → Type 0
  Leaves done a c w' answer = (container_at w' a ≡ some (IContainer.with_erase c)) × (answer ≡ done)

  pub values-reads :
      (w : World D U) (a : ℕ) (c : XContainerMapWithErase (XTimed D)) (b : ℕ) (s : Bytes)
      → container_at w a ≡ some (IContainer.with_erase c)
      → values w a (b ∷ s) ≡ reads f c (b ∷ s)
  values-reads w a c b s e =
      let key = XKey.string (b ∷ s) in
      ap (λ v. v.value)
        (at-container_at f time depth w a key ∙ ap (λ o. read_at f o key) e ∙ read_at-map f c b s)

  pub own-container_at :
      (w : World D U) (a : ℕ) (n : XNode D U) (c : XContainerMapWithErase (XTimed D))
      → w.nodes a ≡ some n
      → n.container ≡ IContainer.with_erase c
      → container_at w a ≡ some (IContainer.with_erase c)
  unfolding container_at
  own-container_at w a n c e m = rw (e, container_at, m) refl

  insert_in-map :
      (c : XContainerMapWithErase (XTimed D)) (call : Call D U) (a b : ℕ) (s : Bytes)
      (val : XValue D) (child : Option ℕ)
      → let step =
          insert_in f time depth a (XKey.string (b ∷ s)) val child (IContainer.with_erase c) call in
        let (v, call1) = stamp time val call in
        let insert = Erase.emplace (mapped f) c (name (b ∷ s)) v (on_change a false) call1 in
        (step.0.succeeded ≡ insert.0.succeeded) × (step.1 ≡ IContainer.with_erase insert.1)
  unfolding insert_in Any.emplace Items.duplicate_of Items.validator_of container_key map_key
      plain_key Any.container_type find_duplicates Value.is_empty
  insert_in-map c call a b s val none = (refl, refl)
  insert_in-map c call a b s val (some p) = (refl, refl)

  module _ (w : World D U) (a : ℕ) (n : XNode D U) (c : XContainerMapWithErase (XTimed D))
      (at_a : w.nodes a ≡ some n) (is_map : n.container ≡ IContainer.with_erase c) (b : ℕ)
      (s : Bytes) where
    abbrev key : XKey
    key = XKey.string (b ∷ s)

    pub set-Leaves :
        (val : XValue D)
        → (is_valid_child depth w a val).0 ≡ true
        → let r = Items.set f time depth w a key val in
          let (v, call) = stamp time val (started w n) in
          let set = Erase.set (mapped f) c (name (b ∷ s)) v (on_change a false) call in
          Leaves set.0 a set.2 r.1 r.0.0
    unfolding Items.set
    set-Leaves val fits =
        let (v, call) = stamp time val (started w n) in
        let set = Erase.set (mapped f) c (name (b ∷ s)) v (on_change a false) call in
        let valid = is_valid_child depth w a val in
        let step = set_in {U = U} f time depth a key val valid.1 in
        let done = on_container w a step (false, absent, monostate) in
        let replaced = query_ptr done.1 done.0.0.1.value in
        let w2 : World D U = elim replaced [
          | none ↦ done.1
          | some q ↦ (private_parent_set depth done.1 q none none).1
        ] in
        let (answer, left) = on_container-own w a n step (false, absent, monostate) at_a in
        let (answer', left') = set_in-map f time depth c (started w n) a b s val valid.1 in
        let ok : done.0.0.0 ≡ set.0 =
          ap (λ r. r.0) answer ∙ ap (λ d. (step d (started w n)).0.0) is_map ∙ answer' in
        let kept : container_at done.1 a ≡ some (IContainer.with_erase set.2) =
          left ∙ ap (λ d. some (step d (started w n)).1) is_map ∙ ap (λ d. some d) left' in
        let adopted =
          adopt-container_at f time depth w2 a valid.1 done.0.0.2
          ∙ orphaned-container_at f time depth done.1 replaced a
          ∙ kept in
        let Left : (Bool × XTimed D) × World D U → Type 0 = λ r. Leaves set.0 a set.2 r.1 r.0.0 in
        if_intro Left (not valid.0) (λ e. ground (arith, e, fits))
          (λ e.
            if_intro Left (not done.0.0.0) (λ e'. (kept, ground (arith, e', ok)))
              (λ e'. (adopted, sym (not-not e') ∙ ok)))

    pub insert-Leaves :
        (val : XValue D)
        → (is_valid_child depth w a val).0 ≡ true
        → let r = Items.insert f time depth w a key val in
          let (v, call) = stamp time val (started w n) in
          let insert = Erase.emplace (mapped f) c (name (b ∷ s)) v (on_change a false) call in
          Leaves insert.0.succeeded a insert.1 r.1 r.0.succeeded
    unfolding Items.insert
    insert-Leaves val fits =
        let (v, call) = stamp time val (started w n) in
        let insert = Erase.emplace (mapped f) c (name (b ∷ s)) v (on_change a false) call in
        let valid = is_valid_child depth w a val in
        let step = insert_in {U = U} f time depth a key val valid.1 in
        let done = on_container w a step failed_insert in
        let (answer, left) = on_container-own w a n step failed_insert at_a in
        let (answer', left') = insert_in-map c (started w n) a b s val valid.1 in
        let ok : done.0.0.succeeded ≡ insert.0.succeeded =
          ap (λ r. r.succeeded) answer
          ∙ ap (λ d. (step d (started w n)).0.succeeded) is_map
          ∙ answer' in
        let kept : container_at done.1 a ≡ some (IContainer.with_erase insert.1) =
          left ∙ ap (λ d. some (step d (started w n)).1) is_map ∙ ap (λ d. some d) left' in
        let Left : InsertRes D × World D U → Type 0 =
          λ r. Leaves insert.0.succeeded a insert.1 r.1 r.0.succeeded in
        if_intro Left (not valid.0) (λ e. ground (arith, e, fits))
          (λ e.
            if_intro Left done.0.0.succeeded
              (λ e'. (
                option_intro
                    (λ (x : World D U). container_at x a ≡ some (IContainer.with_erase insert.1))
                    valid.1 kept
                    (λ p.
                      set_as_child-container_at f time depth done.1 a p
                        (Key.string_get done.0.0.inserted_at)
                      ∙ kept),
                ok,
              ))
              (λ e'. (kept, ok)))

    pub erase-Leaves :
        Value.object_ptr (values w a (b ∷ s)) ≡ none
        → let r = Items.erase f time depth w a key in
          let erase =
            Erase.erase
              (mapped f)
              (erased_value time)
              c
              (name (b ∷ s))
              (on_change a false)
              (started w n) in
          (container_at r.1 a ≡ some (IContainer.with_erase erase.1))
          × (r.0 ≡ Option.get_or erase.0 absent)
    unfolding Items.erase query_ptr node_of erased_value empty_with_time timed erase_in Any.erase
        container_key map_key plain_key Any.container_type
    erase-Leaves loose =
        let erase =
          Erase.erase (mapped f) (erased_value time) c (name (b ∷ s)) (on_change a false)
            (started w n) in
        let step = erase_in {U = U} f time depth a key in
        let done = on_container w a step absent in
        let (answer, left) = on_container-own w a n step absent at_a in
        let ok : done.0.0 ≡ Option.get_or erase.0 absent =
          answer ∙ ap (λ d. (step d (started w n)).0) is_map in
        let kept : container_at done.1 a ≡ some (IContainer.with_erase erase.1) =
          left ∙ ap (λ d. some (step d (started w n)).1) is_map in
        let old = Option.get_or erase.0 absent in
        let there : Value.has_value old.value ≡ true → old.value ≡ reads f c (b ∷ s) =
          (erase-reads f c (b ∷ s) (b ∷ s) (on_change a false) (started w n) (erased_value time)
            refl).1 in
        let at_key = values-reads w a c b s (own-container_at w a n c at_a is_map) in
        let no_pointer : Value.object_ptr old.value ≡ none =
          elim (Bool-cases (Value.has_value old.value)) [
            | inl h ↦ ap Value.object_ptr (there h ∙ sym at_key) ∙ loose
            | inr h ↦ empty-object_ptr f old.value h
          ] in
        let gone : query_ptr done.1 done.0.0.value ≡ none =
          ap (λ v. node_of done.1 (Value.object_ptr v.value)) ok ∙ ap (node_of done.1) no_pointer in
        (
          ap
                (λ o.
                  container_at
                    (elim o [
                      | none ↦ done.1
                      | some p ↦ (Items.parent_detach f time depth done.1 p).1
                    ])
                    a)
                gone
              ∙ kept,
          ok,
        )
