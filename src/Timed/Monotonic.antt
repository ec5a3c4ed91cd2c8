-- ===== src/Timed/Monotonic.antt =====
-- Monotonic::Next and UniqueClock (include/xvalue/xvalue_rt.h): the sequence behind the time stamps,
-- as threads that share the atomic `prev`. A number x stands for the int64_t x - 2 ^ 63, so that
-- `prev` starts at 0. A thread may stop between any two accesses of `prev`; that `prev` runs past
-- the greatest int64_t, which the source leaves undefined, is no step.
use xnode.Prelude.{
  ℕ, ◌+◌, ◌≤◌, ◌<◌, max, ◌≡◌, ◌≢◌, refl, ap, ◌∙◌, subst, ◌&&◌, List, [], ◌∷◌, ◌++◌, All,
  if◌then◌else◌, ◌==◌, word, arith,
}

-- A call of Next in its loop: `next_min` and `val`.
pub record Attempt : Type 0 where
  pub next_min : ℕ
  pub val : ℕ

-- The shared `prev`, the calls in progress, and what the calls before returned.
pub record Sequence : Type 0 where
  pub prev : ℕ
  pub pending : List Attempt
  pub returned : List ℕ

-- `next_min = prev.fetch_add(1) + 1; val = std::max(_val, next_min)`
unfoldable pub first_attempt : ℕ → ℕ → Attempt
first_attempt prev val = record { next_min = prev + 1; val = max val (prev + 1) }

-- A compare_exchange_strong that fails: `next_min = prev`, and `val` is made greater.
unfoldable pub next_attempt : ℕ → Attempt → Attempt
next_attempt prev a = record { next_min = prev; val = max (prev + 1) a.val }

-- One access of `prev` by one thread.
pub data Step : Sequence → Sequence → Type 0 where
  fetch_add :
      (s : Sequence) (val : ℕ)
      → val < word
      → s.prev + 1 < word
      → Step s (record s { prev = s.prev + 1; pending = first_attempt s.prev val ∷ s.pending })
  exchange :
      (s : Sequence) (before after : List Attempt) (a : Attempt)
      → s.pending ≡ before ++ a ∷ after
      → s.prev ≡ a.next_min
      → Step s (record { prev = a.val; pending = before ++ after; returned = a.val ∷ s.returned })
  retry :
      (s : Sequence) (before after : List Attempt) (a : Attempt)
      → s.pending ≡ before ++ a ∷ after
      → s.prev ≢ a.next_min
      → s.prev + 1 < word
      → Step s (record s { pending = before ++ next_attempt s.prev a ∷ after })

pub data Reach : Sequence → Type 0 where
  start : Reach (record { prev = 0; pending = []; returned = [] })
  step : {s t : Sequence} → Reach s → Step s t → Reach t

unfoldable pub count : ℕ → List ℕ → ℕ
count x [] = 0
count x (y ∷ l) = (if x == y then 1 else 0) + count x l

-- The calls whose first fetch_add claimed x, which an exchange may return without any change.
unfoldable pub claims : ℕ → List Attempt → ℕ
claims x [] = 0
claims x (a ∷ l) = (if a.next_min == x && a.val == x then 1 else 0) + claims x l

abbrev IsAttempt : Attempt → Type 0
IsAttempt a = a.next_min ≤ a.val

-- A number is claimed or returned once at most, none above `prev` is, and an attempt never lowers
-- `prev`.
abbrev IsUnique : Sequence → Type 0
IsUnique s =
    ((x : ℕ) → claims x s.pending + count x s.returned ≤ 1)
    × ((x : ℕ) → s.prev < x → claims x s.pending + count x s.returned ≡ 0)
    × All IsAttempt s.pending

claims-append : (x : ℕ) (k l : List Attempt) → claims x (k ++ l) ≡ claims x k + claims x l
unfolding claims
claims-append x [] l = omega arith
claims-append x (a ∷ k) l = omega (arith, claims-append x k l)

All-drop :
    (k : List Attempt) (a : Attempt) (l : List Attempt)
    → All IsAttempt (k ++ a ∷ l)
    → IsAttempt a × All IsAttempt (k ++ l)
All-drop [] a l h = h
All-drop (b ∷ k) a l h = let (ok, rest) = All-drop k a l h.1 in (ok, (h.0, rest))

All-put :
    (k : List Attempt) (a : Attempt) (l : List Attempt)
    → IsAttempt a
    → All IsAttempt (k ++ l)
    → All IsAttempt (k ++ a ∷ l)
All-put [] a l ok h = (ok, h)
All-put (b ∷ k) a l ok h = (h.0, All-put k a l ok h.1)

claims-at :
    (x : ℕ) (before after : List Attempt) (a : Attempt) {pending : List Attempt}
    → pending ≡ before ++ a ∷ after
    → claims x pending
      ≡ claims x (before ++ after) + (if a.next_min == x && a.val == x then 1 else 0)
unfolding claims
claims-at x before after a h =
    ap (claims x) h
    ∙ omega (arith, claims-append x before after, claims-append x before (a ∷ after))

pending-ok :
    (before after : List Attempt) (a : Attempt) {pending : List Attempt}
    → pending ≡ before ++ a ∷ after
    → All IsAttempt pending
    → IsAttempt a × All IsAttempt (before ++ after)
pending-ok before after a h ok = All-drop before a after (subst (All IsAttempt) h ok)

Step-IsUnique : {s t : Sequence} → Step s t → IsUnique s → IsUnique t
unfolding claims count first_attempt next_attempt
Step-IsUnique (fetch_add s val small room) (once, above, ok) =
    (λ x. ground (arith, once x, above x), λ x h. ground (arith, above x), (ground arith, ok))
Step-IsUnique (exchange s before after a at_a same_min) (once, above, ok) = (
  λ x.
      ground (
        arith,
        once x,
        above x,
        claims-at x before after a at_a,
        pending-ok before after a at_a ok,
      ),
  λ x h.
      ground (arith, above x, claims-at x before after a at_a, pending-ok before after a at_a ok),
  (pending-ok before after a at_a ok).1,
)
Step-IsUnique (retry s before after a at_a other room) (once, above, ok) =
    let later = next_attempt s.prev a in
    let moved : (x : ℕ) → claims x (before ++ later ∷ after) ≤ claims x s.pending = λ x. ground (
      arith,
      claims-at x before after a at_a,
      claims-append x before (later ∷ after),
      claims-append x before after,
    ) in
    (
      λ x. omega (arith, once x, moved x),
      λ x h. omega (arith, above x h, moved x),
      All-put before later after (ground arith) (pending-ok before after a at_a ok).1,
    )

Reach-IsUnique : {s : Sequence} → Reach s → IsUnique s
unfolding claims count
Reach-IsUnique start = (λ x. omega arith, λ x h. refl, tt)
Reach-IsUnique (step r st) = Step-IsUnique st (Reach-IsUnique r)

-- However the threads' accesses of the shared number interleave, no two calls of Next return the
-- same value, and no value that was returned is above the shared number.
pub Reach-unique :
    {s : Sequence}
    → Reach s
    → ((x : ℕ) → count x s.returned ≤ 1) × ((x : ℕ) → s.prev < x → count x s.returned ≡ 0)
Reach-unique r =
    let (once, above, ok) = Reach-IsUnique r in
    (λ x. omega (arith, once x), λ x h. omega (arith, above x h))
