-- ===== src/Tests/Clock.antt =====
-- The clock's sequence: include/xvalue/xvalue_rt.h.
use xnode.Prelude.{ℕ, ◌≤◌, ◌<◌, ◌≡◌, refl, [], ◌∷◌, arith}
use xnode.Timed.Monotonic.{
  Sequence, Reach, start, step, fetch_add, exchange, retry, count, first_attempt, next_attempt,
  Reach-unique,
}
use xnode.Timed.Progress.{Steps, Returns, exchange-Returns}

abbrev initial : Sequence
initial = record { prev = 0; pending = []; returned = [] }

-- Two threads read the same time, 5: the call that began last returns it, and the other finds the
-- shared number changed, tries again and returns 6.
two_threads : Reach (record { prev = 6; pending = []; returned = 6 ∷ 5 ∷ [] })
unfolding first_attempt next_attempt
two_threads =
    let both = step (step start (fetch_add initial 5 (omega arith) (omega arith))) (
      fetch_add (record { prev = 1; pending = first_attempt 0 5 ∷ []; returned = [] }) 5
        (omega arith) (omega arith)) in
    let one = step both (
      exchange
        (record { prev = 2; pending = first_attempt 1 5 ∷ first_attempt 0 5 ∷ []; returned = [] })
        [] (first_attempt 0 5 ∷ []) (first_attempt 1 5) refl refl) in
    let again = step one (
      retry (record { prev = 5; pending = first_attempt 0 5 ∷ []; returned = 5 ∷ [] }) [] []
        (first_attempt 0 5) refl (λ e. omega (arith, e)) (omega arith)) in
    step again (
      exchange
        (record { prev = 5; pending = next_attempt 5 (first_attempt 0 5) ∷ []; returned = 5 ∷ [] })
        [] [] (next_attempt 5 (first_attempt 0 5)) refl refl)

Reach-unique_example :
    ((x : ℕ) → count x (6 ∷ 5 ∷ []) ≤ 1) × ((x : ℕ) → 6 < x → count x (6 ∷ 5 ∷ []) ≡ 0)
Reach-unique_example = Reach-unique two_threads

-- The thread whose number has been changed tries again.
abbrev behind : Sequence
behind = record { prev = 5; pending = first_attempt 0 5 ∷ []; returned = 5 ∷ [] }

exchange-Returns_example :
    (n : ℕ) × (v : ℕ) × (t : Sequence) × (n ≤ 2)
    × Steps n behind t
    × Returns behind [] [] (first_attempt 0 5) v t
exchange-Returns_example = exchange-Returns behind [] [] (first_attempt 0 5) refl (omega arith)
