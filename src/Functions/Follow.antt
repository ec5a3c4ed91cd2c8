-- ===== src/Functions/Follow.antt =====
-- NodeGet of a path whose nodes are there (src/xnode/functions/path.cpp and insert_get.cpp).
use xnode.Prelude.{
  ℕ, suc, ◌≡◌, refl, ap, ◌∙◌, Bool, true, false, not, ◌&&◌, Option, none, some, [], ◌∷◌,
  if◌then◌else◌, is_some, arith,
}
use mathlib.Core.Option
use xnode.Prelude.Int.{ℤ}
use xnode.Key.{XKey}
use xnode.Path.{XPath}
use xnode.Value
use xnode.Value.{XValue, Double}
use xnode.Node.{NodeType, type_of_key}
use xnode.Node.Heap.{World, query_ptr}
use xnode.Node.Items
use xnode.Node.Items.{failed_insert}
use xnode.Functions.{Exec, ◌>>=◌, pure, look, type_at, same_type}
use xnode.Functions.Get.{node_of_type, get_loop, node_get_by_key}
use xnode.Functions.Paths.{node_get, node_before}

-- Whether a node is of the type that is asked for, if one is.
abbrev pub fits : Option NodeType → NodeType → Bool
fits none found = true
fits (some type) found = same_type found type

-- The key behind the first one of a path that the last key follows.
abbrev pub next_key : XPath → XKey → XKey
next_key [] last = last
next_key (key ∷ path) last = key

module _ {D U : Type 0} (w : World D U) where
  -- The node that a value holds, if it is of the type that is asked for.
  unfoldable pub wanted : Option NodeType → XValue D → Option ℕ
  wanted type val = elim (query_ptr w val) [
    | none ↦ none
    | some p ↦ elim (type_at w p) [
      | none ↦ none
      | some found ↦ if fits type found then some p else none
    ]
  ]

  wanted-node_of_type :
      (type : Option NodeType) (val : XValue D) → node_of_type type val w ≡ wanted type val
  unfolding wanted node_of_type
  wanted-node_of_type type val = go (query_ptr w val)
    where
      same_fits :
          (type : Option NodeType) (found : NodeType)
          → same_type found (Option.get_or type found) ≡ fits type found
      same_fits none NodeType.map = refl
      same_fits none NodeType.array = refl
      same_fits (some type) found = refl

      go :
          (o : Option ℕ)
          → (elim o [
            | none ↦ none
            | some p ↦ elim (type_at w p) [
              | none ↦ none
              | some found ↦ if same_type found (Option.get_or type found) then some p else none
            ]
          ])
            ≡ (elim o [
              | none ↦ none
              | some p ↦ elim (type_at w p) [
                | none ↦ none
                | some found ↦ if fits type found then some p else none
              ]
            ])
      go none = refl
      go (some p) = typed (type_at w p)
        where
          typed :
              (o : Option NodeType)
              → (elim o [
                | none ↦ none
                | some found ↦ if same_type found (Option.get_or type found) then some p else none
              ])
                ≡ (elim o [ none ↦ none | some found ↦ if fits type found then some p else none ])
          typed none = refl
          typed (some found) = ap (λ b. if b then some p else none) (same_fits type found)

  -- What a value is on the way: a node of the type that is asked for, or the end of the way (none inside)
  -- where it is not empty. At an empty value (none) a node would have to be made.
  unfoldable pub child : Option NodeType → XValue D → Option (Option ℕ)
  child type val = elim (wanted type val) [
    | none ↦ if Value.is_empty val then none else some none
    | some p ↦ some (some p)
  ]

  pub bind_here :
      {A B : Type 0} (m : Exec D U A) (g : A → Exec D U B) (a : A)
      → m w ≡ some (a, w)
      → (m >>= g) w ≡ g a w
  unfolding ◌>>=◌
  bind_here {A = A} {B = B} m g a h =
      let k : Option (A × World D U) → Option (B × World D U) =
        λ o. elim o [ none ↦ none | some r ↦ g r.0 r.1 ] in
      ap k h

module _ {D U : Type 0} (f : Double D) (want : XKey → Option NodeType) (last : XKey)
    (w : World D U) where
  -- Where a path leads from node to node: each key is to hold a node of the type that the key behind it
  -- wants, the last key being behind the path.
  unfoldable pub follow : ℕ → XPath → Option (Option ℕ)
  follow this [] = some (some this)
  follow this (key ∷ path) =
      elim (child w (want (next_key path last)) (Items.at f w this key).value) [
        | none ↦ none
        | some o ↦ elim o [ none ↦ some none | some p ↦ follow p path ]
      ]

module _ {D U : Type 0} (f : Double D) (time : ℕ → ℤ) (depth rounds : ℕ) (w : World D U) where
  found_then :
      (k : Exec D U (Option ℕ)) (o : Option ℕ) (p : ℕ)
      → o ≡ some p
      → let m : Exec D U (Option ℕ) = elim o [ none ↦ k | some q ↦ pure (some q) ] in
        m w ≡ some (some p, w)
  unfolding pure
  found_then k o p h = rw h refl

  none_then :
      (k : Exec D U (Option ℕ)) (b : Bool) (o : Option ℕ)
      → o ≡ none
      → b ≡ true
      → let m : Exec D U (Option ℕ) = elim o [
        | none ↦ if b then pure none else k
        | some q ↦ pure (some q)
      ] in
        m w ≡ some (none, w)
  unfolding pure
  none_then k b o h e = rw (h, e) refl

  get_loop-child :
      (this : ℕ) (key : XKey) (type : Option NodeType) (val : XValue D) (o : Option ℕ)
      → child w type val ≡ some o
      → get_loop f time depth (suc rounds) this key type false val none w ≡ some (o, w)
  unfolding get_loop ◌>>=◌ look child
  get_loop-child this key type val none h =
      none_then _ (not (Value.is_empty val) && true) (node_of_type type val w)
        (wanted-node_of_type w type val ∙ ground arith) (ground arith)
  get_loop-child this key type val (some p) h =
      found_then _ (node_of_type type val w) p (wanted-node_of_type w type val ∙ ground arith)

  by_key-child :
      (this : ℕ) (key : XKey) (type : Option NodeType) (o : Option ℕ)
      → child w type (Items.at f w this key).value ≡ some o
      → node_get_by_key f time depth (suc rounds) (some this) key type false w ≡ some (o, w)
  unfolding node_get_by_key ◌>>=◌ look
  by_key-child this key type o h = get_loop-child this key type (Items.at f w this key).value o h

  node_get-follow :
      (want : XKey → Option NodeType) (last : XKey)
      → ((key : XKey) → (if is_some (want last) then type_of_key key else none) ≡ want key)
      → (this : ℕ) (path : XPath) (dest : Option ℕ) → follow f want last w this path ≡ some dest
      → node_get f time depth (suc rounds) (some this) path (want last) false w ≡ some (dest, w)
  unfolding node_get follow pure
  node_get-follow want last types this [] dest h = ap (λ o. Option.map (λ d. (d, w)) o) h
  node_get-follow want last types this (key ∷ []) dest h =
      by_key-child this key (want last) dest
        (go (child w (want last) (Items.at f w this key).value) h)
    where
      go :
          (o : Option (Option ℕ))
          → (elim o [ none ↦ none | some o ↦ elim o [ none ↦ some none | some p ↦ some (some p) ] ])
            ≡ some dest
          → o ≡ some dest
      go none e = e
      go (some none) e = e
      go (some (some p)) e = e
  node_get-follow want last types this (key ∷ next ∷ path) dest h =
      go (child w (want next) (Items.at f w this key).value)
        (λ o e. rw (types next) (by_key-child this key (want next) o e))
        (λ p e. node_get-follow want last types p (next ∷ path) dest e) h
    where
      go :
          (c : Option (Option ℕ))
          → ((o : Option ℕ)
              → c ≡ some o
              → node_get_by_key f time depth
                  (suc rounds)
                  (some this)
                  key
                  (if is_some (want last) then type_of_key next else none)
                  false
                  w
                ≡ some (o, w))
          → ((p : ℕ)
              → follow f want last w p (next ∷ path) ≡ some dest
              → node_get f time depth (suc rounds) (some p) (next ∷ path) (want last) false w
                ≡ some (dest, w))
          → (elim c [
            | none ↦ none
            | some o ↦ elim o [ none ↦ some none | some p ↦ follow f want last w p (next ∷ path) ]
          ])
            ≡ some dest
          → node_get f time depth (suc rounds) (some this) (key ∷ next ∷ path) (want last) false w
            ≡ some (dest, w)
      go none here rest e = absurd cc
      go (some none) here rest e =
          bind_here w _ _ none (here none refl) ∙ ap (λ o. Option.map (λ d. (d, w)) o) e
      go (some (some p)) here rest e = bind_here w _ _ (some p) (here (some p) refl) ∙ rest p e

  pub node_before-follow :
      (want : XKey → Option NodeType) (last : XKey)
      → ((key : XKey) → (if is_some (want last) then type_of_key key else none) ≡ want key)
      → (this : ℕ) (path : XPath) (dest : Option ℕ) → follow f want last w this path ≡ some dest
      → node_before f time depth (suc rounds) (some this) path (want last) w ≡ some (dest, w)
  unfolding node_before follow pure
  node_before-follow want last types this [] dest h = ap (λ o. Option.map (λ d. (d, w)) o) h
  node_before-follow want last types this (key ∷ path) dest h =
      node_get-follow want last types this (key ∷ path) dest h
