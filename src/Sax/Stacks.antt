-- ===== src/Sax/Stacks.antt =====
-- The stacks of XNodeSaxHandler (src/xnode/xml/sax_handler.cpp): the nodes that it is building, and the
-- arrays among them that StartArray_ has started.
use xnode.Prelude.{
  ℕ, suc, ◌+◌, ◌≡◌, refl, sym, ap, ◌∙◌, Bool, true, false, List, ◌∷◌, length, arith,
}
use xnode.Prelude.Int.{ℤ}
use xnode.Bytes.{Bytes}
use xnode.Value.{XValue, Double}
use xnode.Functions.Results.{
  Gives, first, pure-Gives, endless-Gives, if-Gives, weaken-Gives, list-Gives,
}
use xnode.Sax
use xnode.Sax.{XNodeSaxHandler}
use xnode.Sax.Arrays

module _ {D : Type 0} where
  -- As many nodes are on the stack as elements are open and arrays started.
  abbrev pub IsBalanced : ℕ → XNodeSaxHandler D → Type 0
  IsBalanced n h = length h.nodes_stack ≡ n + length h.array_parent_nodes

  -- The stacks of two handlers are the same.
  abbrev SameStacks : XNodeSaxHandler D → XNodeSaxHandler D → Type 0
  SameStacks h h' =
      (h'.nodes_stack ≡ h.nodes_stack) × (h'.array_parent_nodes ≡ h.array_parent_nodes)

module _ {D : Type 0} (U : Type 0) (f : Double D) (time : ℕ → ℤ) (depth : ℕ) where
  put_at-SameStacks :
      (node : ℕ) (ordered : Bool) (val : XValue D) (h h' : XNodeSaxHandler D)
      → SameStacks h h'
      → Gives D U (SameStacks h) (Sax.put_at f time depth node ordered val h')
  unfolding Sax.put_at Sax.store_nodes_order
  put_at-SameStacks node true val h h' same = first D U _ _ _ λ inserted. pure-Gives D U _ _ same
  put_at-SameStacks node false val h h' same = first D U _ _ _ λ inserted. pure-Gives D U _ _ same

  put_text-SameStacks :
      (rounds node : ℕ) (val : XValue D) (h h' : XNodeSaxHandler D)
      → SameStacks h h'
      → Gives D U (SameStacks h) (Sax.put_text f time depth rounds node val h')
  unfolding Sax.put_text
  put_text-SameStacks rounds node val h h' same = first D U _ _ _ λ keys.
      if-Gives D U _ h'.has_more_chars _ _ (first D U _ _ _ λ v. pure-Gives D U _ _ same)
        (put_at-SameStacks node true val h _ same)

  put_value-SameStacks :
      (rounds : ℕ) (val : XValue D) (is_node : Bool) (h h' : XNodeSaxHandler D)
      → SameStacks h h'
      → Gives D U (SameStacks h) (Sax.put_value f time depth rounds val is_node h')
  unfolding Sax.put_value
  put_value-SameStacks rounds val is_node h h' same =
      list-Gives D U _ h'.nodes_stack _ _ (λ e. pure-Gives D U _ _ same)
        λ node rest e.
          if-Gives D U _ (Sax.is_text_key h'.key h'.value_name) _ _
            (put_text-SameStacks rounds node val h h' same)
            (put_at-SameStacks node is_node val h h' same)

  SameStacks-IsBalanced :
      (n : ℕ) (h h' : XNodeSaxHandler D) → IsBalanced n h → SameStacks h h' → IsBalanced n h'
  SameStacks-IsBalanced n h h' b same = ap length same.0 ∙ b ∙ ap (λ l. n + length l) (sym same.1)

  pub put_value-IsBalanced :
      (rounds n : ℕ) (val : XValue D) (is_node : Bool) (h : XNodeSaxHandler D)
      → IsBalanced n h
      → Gives D U (IsBalanced n) (Sax.put_value f time depth rounds val is_node h)
  put_value-IsBalanced rounds n val is_node h b =
      weaken-Gives D U (SameStacks h) _ _ (λ h' same. SameStacks-IsBalanced n h h' b same)
        (put_value-SameStacks rounds val is_node h h (refl, refl))

  pub start_array-IsBalanced :
      (n : ℕ) (name : Bytes) (h : XNodeSaxHandler D)
      → IsBalanced n h
      → Gives D U (IsBalanced n) (Arrays.start_array f time depth name h)
  unfolding Arrays.start_array
  start_array-IsBalanced n name h b =
      list-Gives D U _ h.nodes_stack _ _ (λ e. endless-Gives D U _)
        λ parent rest e.
          first D U _ _ _
            λ array. first D U _ _ _ λ moved. first D U _ _ _ λ set. pure-Gives D U _ _ one_more
    where
      one_more : suc (length h.nodes_stack) ≡ n + suc (length h.array_parent_nodes)
      one_more = omega arith

  pub end_array-IsBalanced :
      (m : ℕ) (h : XNodeSaxHandler D)
      → IsBalanced m h
      → Gives D U (λ r. IsBalanced m r.1) (Arrays.end_array f time depth h)
  unfolding Arrays.end_array
  end_array-IsBalanced m h b =
      list-Gives D U _ h.nodes_stack _ _ (λ e. endless-Gives D U _)
        λ last stack e.
          list-Gives D U _ h.array_parent_nodes _ _ (λ e'. endless-Gives D U _)
            λ array arrays e'.
              first D U _ _ _ λ collapsed. pure-Gives D U _ _ (one_less stack arrays e e')
    where
      one_less :
          {last array : ℕ} (stack arrays : List ℕ)
          → h.nodes_stack ≡ last ∷ stack
          → h.array_parent_nodes ≡ array ∷ arrays
          → length stack ≡ m + length arrays
      one_less stack arrays e e' =
          let same = sym (ap length e) ∙ b ∙ ap (λ l. m + length l) e' in omega arith
