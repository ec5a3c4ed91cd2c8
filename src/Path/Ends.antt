-- ===== src/Path/Ends.antt =====
-- How a path is built (the constructors of include/xkey/xpath.h) and taken apart at its ends
-- (`front`, `back` there, `pop_back` and `pop_front` of src/xkey/xpath.cpp). `empty_key`, which is
-- shared and mutable in the source, is read only.
use xnode.Prelude.{ℕ, ◌≡◌, refl, ap, List, [], ◌∷◌, ◌++◌}
use xnode.Bytes.{Bytes}
use xnode.Key.{XKey}
use xnode.Path.{XPath, from_string}

abbrev empty_key : XKey
empty_key = XKey.empty

unfoldable pub front : XPath → XKey
front [] = empty_key
front (key ∷ path) = key

unfoldable pub back : XPath → XKey
back [] = empty_key
back (key ∷ []) = key
back (key ∷ next ∷ path) = back (next ∷ path)

-- `deque::pop_back`
unfoldable drop_last : XPath → XPath
drop_last [] = []
drop_last (key ∷ []) = []
drop_last (key ∷ next ∷ path) = key ∷ drop_last (next ∷ path)

unfoldable pub pop_back : XPath → XKey × XPath
unfolding back drop_last
pop_back [] = (XKey.empty, [])
pop_back (key ∷ path) = (back (key ∷ path), drop_last (key ∷ path))

unfoldable pub pop_front : XPath → XKey × XPath
unfolding front
pop_front [] = (XKey.empty, [])
pop_front (key ∷ path) = (front (key ∷ path), path)

-- An argument of the constructors: a `size_t` or a text.
pub data Part : Type 0 where
  index : ℕ → Part
  text : Bytes → Part

-- XPath(XKey)
unfoldable pub of_key : XKey → XPath
of_key key = key ∷ []

-- XPath(_idx, _args...), XPath(_str, _args...): one `_add_keys` after the other.
module _ (overflow : ℕ → ℕ) where
  unfoldable pub of_parts : List Part → XPath
  unfolding from_string
  of_parts [] = []
  of_parts (index i ∷ parts) = XKey.index i ∷ of_parts parts
  of_parts (text s ∷ parts) = from_string overflow s ++ of_parts parts

back-append : (path : XPath) (key : XKey) → back (path ++ key ∷ []) ≡ key
unfolding back
back-append [] key = refl
back-append (k ∷ []) key = refl
back-append (k ∷ j ∷ path) key = back-append (j ∷ path) key

drop_last-append : (path : XPath) (key : XKey) → drop_last (path ++ key ∷ []) ≡ path
unfolding drop_last
drop_last-append [] key = refl
drop_last-append (k ∷ []) key = refl
drop_last-append (k ∷ j ∷ path) key = ap (◌∷◌ k) (drop_last-append (j ∷ path) key)

-- pop_back takes off the key that was put last and leaves what was before it, pop_front likewise
-- at the other end, and each gives what back and front show; an empty path gives an empty key.
pub pop_ends :
    (path : XPath) (key : XKey)
    → (pop_back (path ++ key ∷ []) ≡ (back (path ++ key ∷ []), path))
      × (back (path ++ key ∷ []) ≡ key)
      × (pop_front (key ∷ path) ≡ (front (key ∷ path), path))
      × (pop_back [] ≡ (back [], []))
      × (pop_front [] ≡ (front [], []))
unfolding pop_back pop_front back front
pop_ends [] key = (refl, refl, refl, refl, refl)
pop_ends (k ∷ path) key = (
  ap (λ p. (back (k ∷ path ++ key ∷ []), p)) (drop_last-append (k ∷ path) key),
  back-append (k ∷ path) key,
  refl,
  refl,
  refl,
)
