-- ===== src/Functions.antt =====
-- The functions of src/xnode/functions: calls of the nodes' methods one after the other, on the store
-- of the nodes. A function that does not end within the rounds that it is given has no result.
pub mod Get
pub mod Paths
pub mod Build
pub mod Compare
pub mod Merge
pub mod Improper
pub mod Results
pub mod Follow
pub mod AtEnd
pub mod Same
use xnode.Prelude.{ℕ, Bool, true, false, Option, none, some}
use xnode.Node.{NodeType}
use xnode.Node.Heap.{XNode, World, node_type}

module _ (D U : Type 0) where
  abbrev pub Exec : Type 0 → Type 0
  Exec A = World D U → Option (A × World D U)

module _ {D U : Type 0} where
  infixl 5 ◌>>=◌
  unfoldable pub ◌>>=◌ : {A B : Type 0} → Exec D U A → (A → Exec D U B) → Exec D U B
  (m >>= g) w = elim (m w) [ none ↦ none | some r ↦ g r.0 r.1 ]

  unfoldable pub pure : {A : Type 0} → A → Exec D U A
  pure a w = some (a, w)

  -- A call that returns.
  unfoldable pub call : {A : Type 0} → (World D U → A × World D U) → Exec D U A
  call m w = some (m w)

  -- A call that only reads.
  unfoldable pub look : {A : Type 0} → (World D U → A) → Exec D U A
  look g w = some (g w, w)

  -- A loop that has no rounds left.
  unfoldable pub endless : {A : Type 0} → Exec D U A
  endless w = none

  -- `Type()` of a node that is there.
  abbrev pub type_at : World D U → ℕ → Option NodeType
  type_at w a = elim (w.nodes a) [ none ↦ none | some n ↦ some (node_type n) ]

abbrev pub same_type : NodeType → NodeType → Bool
same_type NodeType.map NodeType.map = true
same_type NodeType.array NodeType.array = true
same_type _ _ = false
