-- ===== src/Bytes.antt =====
-- `std::string` as a list of bytes, with the order of `std::string::compare`, by which `std::map`
-- keeps its keys (src/xcontainer/impl/xcontainer_map.h).
use xnode.Prelude.{ℕ, ◌≡◌, refl, ◌↔◌, Bool, true, false, List, [], ◌∷◌, compare, Ordering, arith}

abbrev pub Bytes : Type 0
Bytes = List ℕ

unfoldable pub compare_bytes : Bytes → Bytes → Ordering
compare_bytes [] [] = Ordering.eq
compare_bytes [] (y ∷ ys) = Ordering.lt
compare_bytes (x ∷ xs) [] = Ordering.gt
compare_bytes (x ∷ xs) (y ∷ ys) = elim (compare x y) [
  | Ordering.lt ↦ Ordering.lt
  | Ordering.eq ↦ compare_bytes xs ys
  | Ordering.gt ↦ Ordering.gt
]

abbrev pub before : Bytes → Bytes → Bool
before a b = elim (compare_bytes a b) [ Ordering.lt ↦ true | _ ↦ false ]

abbrev pub same : Bytes → Bytes → Bool
same a b = elim (compare_bytes a b) [ Ordering.eq ↦ true | _ ↦ false ]

pub compare_bytes_self : (a : Bytes) → compare_bytes a a ≡ Ordering.eq
unfolding compare_bytes
compare_bytes_self [] = refl
compare_bytes_self (x ∷ xs) = ground (arith, compare_bytes_self xs)

pub eq_of_compare_bytes : (a b : Bytes) → compare_bytes a b ≡ Ordering.eq → a ≡ b
unfolding compare_bytes
eq_of_compare_bytes [] [] h = refl
eq_of_compare_bytes [] (y ∷ ys) h = cc
eq_of_compare_bytes (x ∷ xs) [] h = cc
eq_of_compare_bytes (x ∷ xs) (y ∷ ys) h = ground (arith, eq_of_compare_bytes xs ys)

pub compare_bytes_trans :
    (a b c : Bytes)
    → compare_bytes a b ≡ Ordering.lt
    → compare_bytes b c ≡ Ordering.lt
    → compare_bytes a c ≡ Ordering.lt
unfolding compare_bytes
compare_bytes_trans [] [] c p q = cc
compare_bytes_trans [] (y ∷ ys) [] p q = cc
compare_bytes_trans [] (y ∷ ys) (z ∷ zs) p q = refl
compare_bytes_trans (x ∷ xs) [] c p q = cc
compare_bytes_trans (x ∷ xs) (y ∷ ys) [] p q = cc
compare_bytes_trans (x ∷ xs) (y ∷ ys) (z ∷ zs) p q = ground (arith, compare_bytes_trans xs ys zs)

pub compare_bytes_flip :
    (a b : Bytes) → compare_bytes a b ≡ Ordering.gt → compare_bytes b a ≡ Ordering.lt
unfolding compare_bytes
compare_bytes_flip [] [] h = cc
compare_bytes_flip [] (y ∷ ys) h = cc
compare_bytes_flip (x ∷ xs) [] h = refl
compare_bytes_flip (x ∷ xs) (y ∷ ys) h = ground (arith, compare_bytes_flip xs ys)

pub same_iff : (a b : Bytes) → (same a b ≡ true) ↔ (a ≡ b)
same_iff a b = ground (arith, eq_of_compare_bytes a b, compare_bytes_self a)

pub data Comparison (a b : Bytes) : Type 0 where
  less : compare_bytes a b ≡ Ordering.lt → Comparison a b
  equal : compare_bytes a b ≡ Ordering.eq → Comparison a b
  greater : compare_bytes a b ≡ Ordering.gt → Comparison a b

-- To split on a comparison and keep the equation.
pub compare_bytes-cases : (a b : Bytes) → Comparison a b
compare_bytes-cases a b = go (compare_bytes a b) refl
  where
    go : (o : Ordering) → compare_bytes a b ≡ o → Comparison a b
    go Ordering.lt e = less e
    go Ordering.eq e = equal e
    go Ordering.gt e = greater e
