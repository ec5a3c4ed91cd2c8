-- ===== src/Functions/Merge.antt =====
-- PatchApply and CopyTo of src/xnode/functions/compare.cpp: the items of one node put into another.
use xnode.Prelude.{
  ℕ, zero, suc, ◌+◌, ◌-◌, ◌==◌, ltb, ◌&&◌, Bool, true, false, not, Option, none, some, List, [],
  ◌∷◌, ◌++◌, if◌then◌else◌, word, length,
}
use xnode.Prelude.Int.{ℤ}
use xnode.Key.{XKey}
use xnode.Value
use xnode.Value.{XValue, Double}
use xnode.Timed.{XTimed}
use xnode.Node.Heap.{World, query_ptr, query_ptr_c}
use xnode.Node.Items.{set, erase}
use xnode.Node.Items
use xnode.Node.Bulk.{bulk_get_all}
use xnode.Functions.{Exec, ◌>>=◌, pure, call, look, endless}
use xnode.Functions.Build.{clone}

abbrev pub is_null : {D : Type 0} → XValue D → Bool
is_null XValue.null = true
is_null _ = false

-- What PatchApply has done: the counts, and the nodes to patch next.
pub record Patched : Type 0 where
  pub added : ℕ
  pub erased : ℕ
  pub nodes_vec : List (ℕ × ℕ)

-- What CopyTo has done: the count, the nodes to clone and those to copy next.
pub record Copied : Type 0 where
  pub copied : ℕ
  pub nodes_for_copy : List (XKey × ℕ)
  pub copy_next : List (ℕ × ℕ)

module _ {D U : Type 0} (f : Double D) where
  -- The items of a const node.
  unfoldable pub const_items : World D U → ℕ → List (XKey × XTimed D)
  const_items w node = (bulk_get_all f true w node none XKey.empty tt).1

module _ {D U : Type 0} (f : Double D) (time : ℕ → ℤ) (depth : ℕ) where
  -- One item of the patch: null erases, a node is patched later, anything else is set.
  unfoldable pub patch_item : ℕ → XKey → XTimed D → Patched → World D U → Patched × World D U
  patch_item target key val done w =
      let (gone, w1) = erase f time depth w target key in
      let (answer, w2) = set f time depth w target key val.value in
      let erased : Patched × World D U = (
        (if Value.has_value gone.value then record done { erased = done.erased + 1 } else done),
        w1,
      ) in
      let added : Patched × World D U =
        ((if answer.0 then record done { added = done.added + 1 } else done), w2) in
      if is_null val.value then erased else elim (query_ptr w (Items.at f w target key).value) [
        | none ↦ added
        | some p ↦ elim (query_ptr_c w val.value) [
          | none ↦ added
          | some q ↦ (record done { nodes_vec = done.nodes_vec ++ (p, q) ∷ [] }, w)
        ]
      ]

  unfoldable pub patch_items :
      ℕ → List (XKey × XTimed D) → Patched → World D U → Patched × World D U
  patch_items target [] done w = (done, w)
  patch_items target ((key, val) ∷ items) done w =
      let (done1, w1) = patch_item target key val done w in patch_items target items done1 w1

  unfoldable pub patch_all : (ℕ → ℕ → Exec D U (ℕ × ℕ)) → List (ℕ × ℕ) → ℕ → ℕ → Exec D U (ℕ × ℕ)
  patch_all again [] added erased = pure (added, erased)
  patch_all again ((target, patch) ∷ nodes) added erased = do
    nested ← again target patch
    patch_all again nodes (added + nested.0) (erased + nested.1)

  -- PatchApply of two nodes: {added, erased}
  unfoldable pub patch_nodes : ℕ → ℕ → ℕ → Exec D U (ℕ × ℕ)
  patch_nodes zero target patch = endless
  patch_nodes (suc rounds) target patch =
      let again = patch_nodes rounds in
      let apply : Exec D U (ℕ × ℕ) = (do
        items ← look (λ w. const_items f w patch)
        done ← call (patch_items target items record { added = 0; erased = 0; nodes_vec = [] })
        patch_all again done.nodes_vec done.added done.erased) in
      if target == patch then pure (0, 0) else apply

  unfoldable pub patch_apply : ℕ → Option ℕ → Option ℕ → Exec D U (ℕ × ℕ)
  patch_apply rounds (some target) (some patch) = patch_nodes rounds target patch
  patch_apply rounds _ _ = pure (0, 0)

  -- One item of the source.
  unfoldable pub copy_item :
      ℕ → Bool → Bool → ℕ → XKey → XTimed D → Copied → World D U → Copied × World D U
  copy_item dest override nodes_as_refs levels key val done w =
      let there = (Items.at f w dest key).value in
      let as_ref : XValue D = elim (query_ptr_c w val.value) [
        | none ↦ val.value
        | some q ↦ XValue.const_object q
      ] in
      let (answer, w1) = set f time depth w dest key as_ref in
      let counted : Copied = record done { copied = done.copied + 1 } in
      if Value.has_value there && not override then (done, w) else elim (query_ptr_c w val.value) [
        | none ↦ ((if answer.0 then counted else done), w1)
        | some q ↦ elim (query_ptr w there) [
          | some p ↦
              if ltb 0 levels
              then (record done { copy_next = done.copy_next ++ (p, q) ∷ [] }, w)
              else (done, w)
          | none ↦
              if nodes_as_refs
              then (counted, w1)
              else (record done { nodes_for_copy = done.nodes_for_copy ++ (key, q) ∷ [] }, w)
        ]
      ]

  unfoldable pub copy_items :
      ℕ → Bool → Bool → ℕ → List (XKey × XTimed D) → Copied → World D U → Copied × World D U
  copy_items dest override nodes_as_refs levels [] done w = (done, w)
  copy_items dest override nodes_as_refs levels ((key, val) ∷ items) done w =
      let (done1, w1) = copy_item dest override nodes_as_refs levels key val done w in
      copy_items dest override nodes_as_refs levels items done1 w1

  -- `_dest->Set(key, xnode::Clone(src_node, true))`; the source is const.
  unfoldable pub copy_clones : ℕ → ℕ → List (XKey × ℕ) → Exec D U (Unit {0})
  copy_clones rounds dest [] = pure tt
  copy_clones rounds dest ((key, node) ∷ nodes) = do
    copy ← clone f time depth none rounds true [] 0 (XValue.const_object node)
    answer ← call (λ w. set f time depth w dest key (Items.value_of_child copy))
    copy_clones rounds dest nodes

  unfoldable pub copy_all : (ℕ → ℕ → Exec D U ℕ) → List (ℕ × ℕ) → ℕ → Exec D U ℕ
  copy_all again [] copied = pure copied
  copy_all again ((dest, source) ∷ nodes) copied = do
    nested ← again source dest
    copy_all again nodes (copied + nested)

  -- CopyTo of two nodes. The nested call gives `_depth - 1` as `_override`, and the default values
  -- for the rest.
  unfoldable pub copy_nodes : ℕ → Bool → Bool → ℕ → ℕ → ℕ → Exec D U ℕ
  copy_nodes zero override nodes_as_refs levels source dest = endless
  copy_nodes (suc rounds) override nodes_as_refs levels source dest =
      let again = copy_nodes rounds (not (levels == 1)) false (word - 1) in
      let nothing : Copied = record { copied = 0; nodes_for_copy = []; copy_next = [] } in
      let copy : Exec D U ℕ = (do
        items ← look (λ w. const_items f w source)
        done ← call (copy_items dest override nodes_as_refs levels items nothing)
        cloned ← copy_clones rounds dest done.nodes_for_copy
        copy_all again done.copy_next (done.copied + length done.nodes_for_copy)) in
      if source == dest then pure 0 else copy

  unfoldable pub copy_to : ℕ → Option ℕ → Option ℕ → Bool → Bool → ℕ → Exec D U ℕ
  copy_to rounds (some source) (some dest) override nodes_as_refs levels =
      copy_nodes rounds override nodes_as_refs levels source dest
  copy_to rounds _ _ override nodes_as_refs levels = pure 0
