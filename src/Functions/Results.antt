-- ===== src/Functions/Results.antt =====
-- What the results of a function on the store have in common, where it has one.
use xnode.Prelude.{◌≡◌, refl, List, [], ◌∷◌, Bool, true, false, Option, none, some, if◌then◌else◌}
use xnode.Node.Heap.{World}
use xnode.Functions.{Exec, ◌>>=◌, pure, endless}

abbrev Any : {A : Type 0} → A → Type 0
Any a = Unit {0}

module _ (D U : Type 0) where
  -- What holds of a result, where there is one.
  abbrev pub OfResult : {A : Type 0} → (A → Type 0) → Option (A × World D U) → Type 0
  OfResult P none = Unit {0}
  OfResult P (some r) = P r.0

  unfoldable pub Gives : {A : Type 0} → (A → Type 0) → Exec D U A → Type 0
  Gives P m = (w : World D U) → OfResult P (m w)

  pub >>=-Gives :
      {A B : Type 0} (Q : A → Type 0) (P : B → Type 0) (m : Exec D U A) (g : A → Exec D U B)
      → Gives Q m
      → ((a : A) → Q a → Gives P (g a))
      → Gives P (m >>= g)
  unfolding Gives ◌>>=◌
  >>=-Gives {A = A} {B = B} Q P m g hm hg w = go (m w) (hm w)
    where
      go :
          (o : Option (A × World D U))
          → OfResult Q o
          → OfResult P (elim o [ none ↦ none | some r ↦ g r.0 r.1 ])
      go none e = tt
      go (some r) q = hg r.0 q r.1

  anything : {A : Type 0} (m : Exec D U A) → Gives Any m
  unfolding Gives
  anything m w = go (m w)
    where
      go : {A : Type 0} (o : Option (A × World D U)) → OfResult Any o
      go none = tt
      go (some r) = tt

  -- A step whose result does not matter.
  pub first :
      {A B : Type 0} (P : B → Type 0) (m : Exec D U A) (g : A → Exec D U B)
      → ((a : A) → Gives P (g a))
      → Gives P (m >>= g)
  first P m g h = >>=-Gives Any P m g (anything m) (λ a q. h a)

  pub pure-Gives : {A : Type 0} (P : A → Type 0) (a : A) → P a → Gives P (pure a)
  unfolding Gives pure
  pure-Gives P a p w = p

  pub endless-Gives : {A : Type 0} (P : A → Type 0) → Gives P endless
  unfolding Gives endless
  endless-Gives P w = tt

  pub if-Gives :
      {A : Type 0} (P : A → Type 0) (b : Bool) (m n : Exec D U A)
      → Gives P m
      → Gives P n
      → Gives P (if b then m else n)
  if-Gives P true m n hm hn = hm
  if-Gives P false m n hm hn = hn

  pub cases-Gives :
      {A B : Type 0} (P : B → Type 0) (o : Option A) (m : Exec D U B) (g : A → Exec D U B)
      → Gives P m
      → ((a : A) → Gives P (g a))
      → Gives P (elim o [ none ↦ m | some a ↦ g a ])
  cases-Gives P none m g hm hg = hm
  cases-Gives P (some a) m g hm hg = hg a

  pub weaken-Gives :
      {A : Type 0} (P Q : A → Type 0) (m : Exec D U A)
      → ((a : A) → P a → Q a)
      → Gives P m
      → Gives Q m
  unfolding Gives
  weaken-Gives {A = A} P Q m h hm w = go (m w) (hm w)
    where
      go : (o : Option (A × World D U)) → OfResult P o → OfResult Q o
      go none e = tt
      go (some r) p = h r.0 p

  pub list-Gives :
      {A B : Type 0} (P : B → Type 0) (l : List A) (m : Exec D U B) (g : A → List A → Exec D U B)
      → (l ≡ [] → Gives P m)
      → ((a : A) (rest : List A) → l ≡ a ∷ rest → Gives P (g a rest))
      → Gives P (elim l [ [] ↦ m | a ∷ rest ↦ g a rest ])
  list-Gives P [] m g hm hg = hm refl
  list-Gives P (a ∷ rest) m g hm hg = hg a rest refl
