-- ===== src/Timed/Progress.antt =====
-- The loop of Monotonic::Next (include/xvalue/xvalue_rt.h), where one thread has the shared number to
-- itself.
use xnode.Prelude.{
  ℕ, suc, ◌+◌, ◌≤◌, ◌<◌, ◌≡◌, ◌≢◌, ◌⊎◌, refl, List, ◌∷◌, ◌++◌, ◌==◌, ==_iff, Bool-cases, inl, inr,
  word, arith,
}
use xnode.Timed.Monotonic.{Attempt, Sequence, Step, exchange, retry, next_attempt}

-- So many accesses, one after the other.
pub data Steps : ℕ → Sequence → Sequence → Type 0 where
  done : {s : Sequence} → Steps 0 s s
  next : {n : ℕ} {s t u : Sequence} → Step s t → Steps n t u → Steps (suc n) s u

module _ (s : Sequence) (before after : List Attempt) (a : Attempt) where
  -- The call has returned v.
  abbrev pub Returns : ℕ → Sequence → Type 0
  Returns v t =
      (t.pending ≡ before ++ after)
      × (t.returned ≡ v ∷ s.returned)
      × (a.val ≤ v)
      × (s.prev ≡ a.next_min ⊎ s.prev < v)

  -- A call of Next that is in its loop returns after at most two accesses of the shared number by its
  -- own thread, if no other thread comes between and the number is not the greatest: the value is not
  -- below the one that it had, and above the shared number where another thread had changed that.
  pub exchange-Returns :
      s.pending ≡ before ++ a ∷ after
      → s.prev + 1 < word
      → (n : ℕ) × (v : ℕ) × (t : Sequence) × (n ≤ 2) × Steps n s t × Returns v t
  unfolding next_attempt
  exchange-Returns at_a room = elim (Bool-cases (s.prev == a.next_min)) [
    | inl e ↦
        let same = (==_iff s.prev a.next_min).0 e in
        (
          1,
          a.val,
          _,
          omega arith,
          next (exchange s before after a at_a same) done,
          (refl, refl, omega arith, inl same),
        )
    | inr e ↦
        let later = next_attempt s.prev a in
        let other : s.prev ≢ a.next_min = λ same. ground (arith, e, same) in
        (
          2,
          later.val,
          _,
          omega arith,
          next (retry s before after a at_a other room) (
              next
                (exchange (record s { pending = before ++ later ∷ after }) before after later refl
                  refl)
                done),
          (refl, refl, ground arith, inr (ground arith)),
        )
  ]
