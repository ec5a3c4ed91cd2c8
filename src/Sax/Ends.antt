-- ===== src/Sax/Ends.antt =====
-- The loop of GetLastAndNewKeys_ (src/xnode/xml/sax_handler.cpp), which looks for a key that a node
-- has no value under.
use xnode.Prelude.{
  ℕ, zero, suc, ◌+◌, ◌<◌, ◌≤◌, ◌≡◌, ◌⊎◌, inl, inr, refl, sym, ap, ◌∙◌, subst, Bool, Bool-cases,
  true, false, ◌||◌, Option, none, some, List, [], ◌∷◌, ◌++◌, if◌then◌else◌, if_intro, length, map,
  length-append, arith,
}
use mathlib.Core.List.{append_cancel_right}
use xnode.Prelude.Int.{ℤ}
use xnode.Bytes.{Bytes, same, same_iff}
use xnode.Key.{XKey}
use xnode.Path
use xnode.Path.{decimal}
use xnode.Path.Number.{digits-decimal, decimal_starts}
use xnode.Value
use xnode.Value.{Double}
use xnode.Container.{KeyType}
use xnode.Container.Any
use xnode.Container.Any.{IContainer, ContainerType, container_type}
use xnode.Container.Map
use xnode.Node.Heap
use xnode.Node.Heap.{World, XNode}
use xnode.Node.Match
use xnode.Node.Items
use xnode.Sax.{key_loop}

-- Whether a key is in a list, and the list without the first that it equals.
abbrev member : Bytes → List Bytes → Bool
member k [] = false
member k (j ∷ l) = same k j || member k l

abbrev without : Bytes → List Bytes → List Bytes
without k [] = []
without k (j ∷ l) = if same k j then l else j ∷ without k l

length-without :
    (k : Bytes) (l : List Bytes) → member k l ≡ true → length l ≡ suc (length (without k l))
length-without k [] h = absurd (ground arith)
length-without k (j ∷ l) h = ground (arith, length-without k l)

member-without :
    (k k' : Bytes) (l : List Bytes)
    → (k ≡ k' → ⊥)
    → member k' l ≡ true
    → member k' (without k l) ≡ true
member-without k k' [] d h = h
member-without k k' (j ∷ l) d h =
    ground (arith, member-without k k' l d, (same_iff k j).0, (same_iff k' j).0)

-- The keys that the loop tries after the first.
abbrev numbered : Bytes → ℕ → Bytes
numbered value_name i = decimal (suc i) i ++ value_name

decimal-injective : (i j : ℕ) → decimal (suc i) i ≡ decimal (suc j) j → i ≡ j
unfolding Path.digits
decimal-injective i j e =
    sym (digits-decimal (suc i) i [] (omega arith))
    ∙ ap (λ s. Path.digits 0 (s ++ [])) e
    ∙ digits-decimal (suc j) j [] (omega arith)

numbered-injective :
    (value_name : Bytes) (i j : ℕ) → numbered value_name i ≡ numbered value_name j → i ≡ j
numbered-injective value_name i j e =
    decimal-injective i j (append_cancel_right (decimal (suc i) i) (decimal (suc j) j) value_name e)

first-numbered : (value_name : Bytes) (i : ℕ) → value_name ≡ numbered value_name i → ⊥
first-numbered value_name i e =
    let short = positive (decimal (suc i) i) (decimal_starts (suc i) i [] (omega arith)) in
    let long = ap length e in let sum = length-append (decimal (suc i) i) value_name in omega arith
  where
    positive : (s : Bytes) → Path.starts_digit (s ++ []) ≡ true → 0 < length s
    positive [] h = absurd (cc)
    positive (c ∷ s) h = omega arith

-- The keys that a map holds, erased ones included.
unfoldable pub names_of {ℓ} : {V : Type ℓ} → IContainer V → List Bytes
names_of (IContainer.plain c) = map (λ e. e.0) c.values_map
names_of (IContainer.with_erase c) = map (λ e. e.0) c.base.values_map
names_of (IContainer.array c) = []

find-member {ℓ} :
    {V : Type ℓ} (k : Bytes) (l : List (Bytes × V))
    → member k (map (λ e. e.0) l) ≡ false
    → (Map.find k l).rest ≡ []
unfolding Map.find
find-member k [] h = refl
find-member k ((j, v) ∷ l) h = ground (arith, find-member k l)

at-map {ℓ} :
    {V : Type ℓ} (c : Map.XContainerMap V) (k : Bytes)
    → member k (map (λ e. e.0) c.values_map) ≡ false
    → Map.at c (KeyType.name k) ≡ none
unfolding Map.at Map.map_find
at-map c [] m = refl
at-map c (b ∷ k) m = rw (find-member (b ∷ k) c.values_map m, Map.at) refl

at-names_of {ℓ} :
    {V : Type ℓ} (c : IContainer V) (k : Bytes)
    → container_type c ≡ ContainerType.map
    → member k (names_of c) ≡ false
    → Any.at c (KeyType.name k) ≡ none
unfolding names_of container_type Any.at Map.at
at-names_of (IContainer.plain c) k h m = at-map c k m
at-names_of (IContainer.with_erase c) k h m = at-map c.base k m
at-names_of (IContainer.array c) k h m = absurd (cc)

module _ {D U : Type 0} (f : Double D) (time : ℕ → ℤ) (depth : ℕ) (w : World D U) (node : ℕ) where
  -- Whether the node has a value under a key.
  abbrev stored : Bytes → Bool
  stored k = Value.has_value (Items.at f w node (XKey.string k)).value

  -- A key that the container of a map does not hold has no value.
  not-stored :
      (n : XNode D U) (k : Bytes)
      → w.nodes node ≡ some n
      → container_type n.container ≡ ContainerType.map
      → member k (names_of n.container) ≡ false
      → stored k ≡ false
  unfolding Items.at Heap.read_container Match.container_key Match.map_key Match.plain_key
      Value.has_value
  not-stored n k e h m =
      rw (e, Items.at, Heap.read_container, Match.container_key, h, at-names_of n.container k h m)
        refl

  module _ (value_name : Bytes) where
    abbrev Found : XKey → Option (XKey × XKey) → Type 0
    Found last_key o =
        (keys : XKey × XKey) × (o ≡ some keys)
        × (Value.has_value (Items.at f w node keys.1).value ≡ false)
        × ((keys.0 ≡ last_key) ⊎ (Value.has_value (Items.at f w node keys.0).value ≡ true))

    later-Found :
        (last_key : XKey) (new_key : Bytes) (o : Option (XKey × XKey))
        → stored new_key ≡ true
        → Found (XKey.string new_key) o
        → Found last_key o
    later-Found last_key new_key o e (keys, found, free, before) = (
      keys,
      found,
      free,
      elim before [
        | inl same ↦
            inr (subst (λ k. Value.has_value (Items.at f w node k).value ≡ true) (sym same) e)
        | inr held ↦ inr held
      ],
    )

    -- The keys that are left to try: the new one, which is in `l` if it is stored, and the numbered ones.
    key_loop-Found :
        (rounds counter : ℕ) (l : List Bytes) (last_key : XKey) (new_key : Bytes)
        → length l < rounds
        → (stored new_key ≡ true → member new_key l ≡ true)
        → ((i : ℕ)
            → counter ≤ i
            → stored (numbered value_name i) ≡ true
            → member (numbered value_name i) l ≡ true)
        → ((i : ℕ) → counter ≤ i → new_key ≡ numbered value_name i → ⊥)
        → Found last_key
            (key_loop f time depth rounds w node value_name counter last_key (XKey.string new_key))
    unfolding key_loop
    key_loop-Found zero counter l last_key new_key h first rest other = absurd (omega arith)
    key_loop-Found (suc rounds) counter l last_key new_key h first rest other =
        if_intro (Found last_key) (stored new_key)
          (λ e.
            let one = length-without new_key l (first e) in
            let stays : (i : ℕ)
                → counter ≤ i
                → stored (numbered value_name i) ≡ true
                → member (numbered value_name i) (without new_key l) ≡ true =
              λ i h s. member-without new_key (numbered value_name i) l (other i h) (rest i h s) in
            later-Found last_key new_key _ e (
              key_loop-Found rounds (counter + 1) (without new_key l) (XKey.string new_key)
                (numbered value_name counter) (omega arith) (stays counter (omega arith))
                (λ i h. stays i (omega arith))
                λ i h same. let e = numbered-injective value_name counter i same in omega arith))
          λ e. ((last_key, XKey.string new_key), refl, e, inl refl)

    -- GetLastAndNewKeys_ of a map: where its loop is given more rounds than the map has keys, it ends; the
    -- new key has no value, and the last one has a value or is the first that was tried.
    pub key_loop_ends :
        (rounds : ℕ) (n : XNode D U)
        → w.nodes node ≡ some n
        → container_type n.container ≡ ContainerType.map
        → length (names_of n.container) < rounds
        → (keys : XKey × XKey) × (key_loop f time depth rounds w node value_name 0
              (XKey.string value_name)
              (XKey.string value_name)
            ≡ some keys)
          × (Value.has_value (Items.at f w node keys.1).value ≡ false)
          × ((keys.0 ≡ XKey.string value_name)
              ⊎ (Value.has_value (Items.at f w node keys.0).value ≡ true))
    key_loop_ends rounds n e h enough =
        key_loop-Found rounds 0 (names_of n.container) (XKey.string value_name) value_name enough
          (held value_name) (λ i z. held (numbered value_name i)) λ i z. first-numbered value_name i
      where
        held : (k : Bytes) → stored k ≡ true → member k (names_of n.container) ≡ true
        held k s = elim (Bool-cases (member k (names_of n.container))) [
          | inl m ↦ m
          | inr m ↦ let free = not-stored n k e h m in absurd (cc)
        ]
