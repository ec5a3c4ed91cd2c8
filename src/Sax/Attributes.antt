-- ===== src/Sax/Attributes.antt =====
-- The attributes of an element, which startElement of src/xnode/xml/sax_handler.cpp puts into its node.
use xnode.Prelude.{
  ℕ, ◌≡◌, ◌≢◌, refl, sym, ap, ◌∙◌, Bool, Bool-cases, inl, inr, true, false, Option, none, some,
  List, [], ◌∷◌, ◌++◌, All, if◌then◌else◌,
}
use mathlib.Core.Option
use mathlib.Core.List.{append_cancel_left}
use xnode.Prelude.Int.{ℤ}
use xnode.Bytes.{Bytes, same, same_iff}
use xnode.Key
use xnode.Key.{XKey}
use xnode.Value
use xnode.Value.{XValue, Double}
use xnode.Value.Make
use xnode.Timed.{XTimed, absent, timed}
use xnode.Container.{name}
use xnode.Container.Map
use xnode.Container.Erase.{XContainerMapWithErase}
use xnode.Node.Heap
use xnode.Node.Heap.{World, query_ptr_c}
use xnode.Node.Items
use xnode.Node.Named.Steps.{values, values-reads, own-container_at}
use xnode.Node.Named.Fresh.{IsFresh, insert-IsFresh}
use xnode.Functions
use xnode.Functions.{Exec}
use xnode.Sax
use xnode.Sax.{XNodeSaxHandler}
use xnode.Sax.Handler

-- The names are different from one another.
abbrev pub Distinct : List (Bytes × Bytes) → Type 0
Distinct [] = Unit {0}
Distinct (e ∷ l) = All (λ x. e.0 ≢ x.0) l × Distinct l

All-map : {A : Type 0} {P Q : A → Type 0} (l : List A) → ((x : A) → P x → Q x) → All P l → All Q l
All-map [] h all = tt
All-map (x ∷ l) h (p, all) = (h x p, All-map l h all)

All-both :
    {A : Type 0} {P Q R : A → Type 0} (l : List A)
    → ((x : A) → P x → Q x → R x)
    → All P l
    → All Q l
    → All R l
All-both [] h all all' = tt
All-both (x ∷ l) h (p, all) (q, all') = (h x p q, All-both l h all all')

skipped : {A : Type 0} {c : Bool} (x y : A) → c ≡ false → (if c then x else y) ≡ y
skipped x y e = ap (λ c. if c then x else y) e

taken : {A : Type 0} {c : Bool} (x y : A) → c ≡ true → (if c then x else y) ≡ x
taken x y e = ap (λ c. if c then x else y) e

module _ (b : ℕ) (p : Bytes) where
  -- The key of an attribute: the prefix, which is not empty, and its name.
  abbrev pub key_of : Bytes × Bytes → Bytes
  key_of e = b ∷ (p ++ e.0)

  key_of-same : (e e' : Bytes × Bytes) → e.0 ≢ e'.0 → same (key_of e) (key_of e') ≡ false
  key_of-same e e' other = elim (Bool-cases (same (key_of e) (key_of e'))) [
    | inl s ↦
        absurd (other (append_cancel_left (b ∷ p) e.0 e'.0 ((same_iff (key_of e) (key_of e')).0 s)))
    | inr s ↦ s
  ]

module _ {D : Type 0} (b : ℕ) (p : Bytes) where
  -- What a map holds under the keys of the attributes, and what else it holds as before.
  abbrev Held : List (Bytes × Bytes) → XContainerMapWithErase (XTimed D) → Type 0
  Held attrs c =
      All
        (λ e.
          (Option.get_or (Map.at c.base (name (key_of b p e))) absent).value ≡ XValue.string e.1)
        attrs

  abbrev IsFree : XContainerMapWithErase (XTimed D) → Bytes × Bytes → Type 0
  IsFree c e = Map.at c.base (name (key_of b p e)) ≡ none

  abbrev IsKept :
      List (Bytes × Bytes)
      → XContainerMapWithErase (XTimed D)
      → XContainerMapWithErase (XTimed D)
      → Type 0
  IsKept attrs c c' =
      (j : Bytes)
      → All (λ e. same (key_of b p e) j ≡ false) attrs
      → Map.at c'.base (name j) ≡ Map.at c.base (name j)

  -- An attribute that the map has no item for, whose key is not that of the texts.
  abbrev pub Fits : XNodeSaxHandler D → XContainerMapWithErase (XTimed D) → Bytes × Bytes → Type 0
  Fits h c e = IsFree c e × (same (key_of b p e) h.value_name ≡ false)

module _ {D U : Type 0} (f : Double D) (time : ℕ → ℤ) (depth rounds : ℕ) (a : ℕ) where
  put_value-attribute :
      (rest : List ℕ) (h : XNodeSaxHandler D) (w : World D U) (t : Bytes) (k : Bytes)
      → h.nodes_stack ≡ a ∷ rest
      → h.key ≡ XKey.string k
      → same k h.value_name ≡ false
      → Sax.put_value f time depth rounds (XValue.string t) false h w
        ≡ some (h, (Items.insert f time depth w a (XKey.string k) (XValue.string t)).1)
  unfolding Sax.put_value Sax.put_at Functions.◌>>=◌ Functions.pure Functions.call Key.string_get
  put_value-attribute rest h w t k e e' plain =
      rw (e, Sax.put_value, e', plain)
        (ap
          (λ l. some (
            record h { key = XKey.string k; nodes_stack = l },
            (Items.insert f time depth w a (XKey.string k) (XValue.string t)).1,
          ))
          e)

  text_is_loose : (w : World D U) (t : Bytes) → query_ptr_c w (XValue.string t) ≡ none
  unfolding query_ptr_c Heap.node_of Value.object_ptr_c
  text_is_loose w t = refl

  module _ (b : ℕ) (p : Bytes) where
    -- The attributes are put one after the other.
    put_attributes-Held :
        (attrs : List (Bytes × Bytes)) (rest : List ℕ) (h : XNodeSaxHandler D) (w : World D U)
        (c : XContainerMapWithErase (XTimed D))
        → h.nodes_stack ≡ a ∷ rest
        → h.attr_prefix ≡ b ∷ p
        → IsFresh w a c
        → Distinct attrs
        → All (Fits b p h c) attrs
        → (h' : XNodeSaxHandler D) × (w' : World D U) × (c' : XContainerMapWithErase (XTimed D))
          × (Handler.put_attributes f time depth rounds attrs h w ≡ some (h', w'))
          × IsFresh w' a c'
          × Held b p attrs c'
          × IsKept b p attrs c c'
    unfolding Handler.put_attributes Functions.◌>>=◌ Functions.pure Make.of_string Key.of_text timed
    put_attributes-Held [] rest h w c on_top prefix fresh distinct fit =
        (h, w, c, refl, fresh, tt, λ j none_is. refl)
    put_attributes-Held ((n, t) ∷ attrs) rest h w c on_top prefix fresh (other, distinct)
          ((free, plain), fit) =
        let k = b ∷ (p ++ n) in
        let keyed = record h { key = XKey.string (h.attr_prefix ++ n) } in
        let key_is = ap (λ q. XKey.string (q ++ n)) prefix in
        let first = put_value-attribute rest keyed w t k on_top key_is plain in
        let (c1, fresh1, reads1) =
          insert-IsFresh f time depth w a c b (p ++ n) (XValue.string t) (text_is_loose w t) fresh
            free in
        let w1 = (Items.insert f time depth w a (XKey.string k) (XValue.string t)).1 in
        let apart : All (λ e. same k (key_of b p e) ≡ false) attrs =
          All-map attrs (λ e d. key_of-same b p (n, t) e d) other in
        let fit1 : All (Fits b p keyed c1) attrs =
          All-both attrs (λ e d q. (reads1 (key_of b p e) ∙ skipped _ _ d ∙ q.0, q.1)) apart fit in
        let (h', w', c', done, fresh', held, kept) =
          put_attributes-Held attrs rest keyed w1 c1 on_top prefix fresh1 distinct fit1 in
        let apart' : All (λ e. same (key_of b p e) k ≡ false) attrs =
          All-map attrs (λ e d. key_of-same b p e (n, t) (λ q. d (sym q))) other in
        let then_others : Option (XNodeSaxHandler D × World D U)
            → Option (XNodeSaxHandler D × World D U) =
          λ o. elim o [
            | none ↦ none
            | some r ↦ Handler.put_attributes f time depth rounds attrs r.0 r.1
          ] in
        let run = ap then_others first in
        let own = kept k apart' ∙ reads1 k ∙ taken _ _ ((same_iff k k).1 refl) in
        (
          h',
          w',
          c',
          run ∙ done,
          fresh',
          (ap (λ o. (Option.get_or o absent).value) own, held),
          λ j others. kept j others.1 ∙ reads1 j ∙ skipped _ _ others.0,
        )

    -- Where the node on the stack's top has a map and no callbacks, the prefix of the attributes is not
    -- empty, their names are different from one another, and the map has no item under their keys and the
    -- texts another key: the attributes of an element are put there, and At of the prefix and a name gives
    -- the text of that attribute then.
    pub put_attributes-values :
        (attrs : List (Bytes × Bytes)) (rest : List ℕ) (h : XNodeSaxHandler D) (w : World D U)
        (c : XContainerMapWithErase (XTimed D))
        → h.nodes_stack ≡ a ∷ rest
        → h.attr_prefix ≡ b ∷ p
        → IsFresh w a c
        → Distinct attrs
        → All (Fits b p h c) attrs
        → (h' : XNodeSaxHandler D) × (w' : World D U) × (Handler.put_attributes f time depth rounds
              attrs h w
            ≡ some (h', w'))
          × All (λ e. values f time depth w' a (key_of b p e) ≡ XValue.string e.1) attrs
    put_attributes-values attrs rest h w c on_top prefix fresh distinct fit =
        let (h', w', c', done, (n, at_a, is_map, quiet), held, kept) =
          put_attributes-Held attrs rest h w c on_top prefix fresh distinct fit in
        let own = own-container_at f time depth w' a n c' at_a is_map in
        (
          h',
          w',
          done,
          All-map attrs (λ e q. values-reads f time depth w' a c' b (p ++ e.0) own ∙ q) held,
        )
