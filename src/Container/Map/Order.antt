-- ===== src/Container/Map/Order.antt =====
-- Lists of entries whose keys ascend, which is what XContainerMap keeps in its std::map.
use xnode.Prelude.{◌≡◌, List, [], ◌∷◌, ◌++◌, All, Ordering}
use xnode.Bytes.{
  Bytes, compare_bytes, compare_bytes_trans, compare_bytes_flip, less, equal, greater,
  compare_bytes-cases,
}
use xnode.Container.Map.{insert_sorted}

module _ {ℓ} {V : Type ℓ} where
  abbrev pub AllAfter : Bytes → List (Bytes × V) → Type 0
  AllAfter k = All (λ e. compare_bytes k e.0 ≡ Ordering.lt)

  -- The keys ascend strictly, so none is there twice.
  abbrev pub IsSorted : List (Bytes × V) → Type 0
  IsSorted [] = Unit
  IsSorted ((k, v) ∷ l) = AllAfter k l × IsSorted l

  -- The keys of the first list are among those of the second, in the same order.
  pub data Thins : List (Bytes × V) → List (Bytes × V) → Type ℓ where
    done : Thins [] []
    keep :
        (k : Bytes) (v w : V) {l' l : List (Bytes × V)}
        → Thins l' l
        → Thins ((k, v) ∷ l') ((k, w) ∷ l)
    drop : (e : Bytes × V) {l' l : List (Bytes × V)} → Thins l' l → Thins l' (e ∷ l)

  pub Thins-refl : (l : List (Bytes × V)) → Thins l l
  Thins-refl [] = done
  Thins-refl ((k, v) ∷ l) = keep k v v (Thins-refl l)

  Thins-AllAfter : (k : Bytes) {l' l : List (Bytes × V)} → Thins l' l → AllAfter k l → AllAfter k l'
  Thins-AllAfter k done h = h
  Thins-AllAfter k (keep _ v w t) h = (h.0, Thins-AllAfter k t h.1)
  Thins-AllAfter k (drop e t) h = Thins-AllAfter k t h.1

  pub Thins-IsSorted : {l' l : List (Bytes × V)} → Thins l' l → IsSorted l → IsSorted l'
  Thins-IsSorted done h = h
  Thins-IsSorted (keep k v w t) h = (Thins-AllAfter k t h.0, Thins-IsSorted t h.1)
  Thins-IsSorted (drop e t) h = Thins-IsSorted t h.1

  pub Thins-append :
      (p : List (Bytes × V)) {l' l : List (Bytes × V)} → Thins l' l → Thins (p ++ l') (p ++ l)
  Thins-append [] t = t
  Thins-append ((k, v) ∷ p) t = keep k v v (Thins-append p t)

  AllAfter-trans :
      (k j : Bytes) (l : List (Bytes × V))
      → compare_bytes k j ≡ Ordering.lt
      → AllAfter j l
      → AllAfter k l
  AllAfter-trans k j [] lt h = tt
  AllAfter-trans k j ((i, v) ∷ l) lt h =
      (compare_bytes_trans k j i lt h.0, AllAfter-trans k j l lt h.1)

  AllAfter-insert_sorted :
      (j k : Bytes) (v : V) (l : List (Bytes × V))
      → compare_bytes j k ≡ Ordering.lt
      → AllAfter j l
      → AllAfter j (insert_sorted k v l)
  unfolding insert_sorted
  AllAfter-insert_sorted j k v [] lt h = (lt, tt)
  AllAfter-insert_sorted j k v ((i, w) ∷ l) lt h = elim (compare_bytes-cases k i) [
    | less e ↦ rw (e, insert_sorted) (lt, h)
    | equal e ↦ rw (e, insert_sorted) h
    | greater e ↦ rw (e, insert_sorted) (h.0, AllAfter-insert_sorted j k v l lt h.1)
  ]

  pub insert_sorted-IsSorted :
      (k : Bytes) (v : V) (l : List (Bytes × V)) → IsSorted l → IsSorted (insert_sorted k v l)
  unfolding insert_sorted
  insert_sorted-IsSorted k v [] h = (tt, tt)
  insert_sorted-IsSorted k v ((i, w) ∷ l) h = elim (compare_bytes-cases k i) [
    | less e ↦ rw (e, insert_sorted) ((e, AllAfter-trans k i l e h.0), h)
    | equal e ↦ rw (e, insert_sorted) h
    | greater e ↦
        rw (e, insert_sorted)
          (
            AllAfter-insert_sorted i k v l (compare_bytes_flip k i e) h.0,
            insert_sorted-IsSorted k v l h.1,
          )
  ]
