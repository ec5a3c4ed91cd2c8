-- ===== src/Sax/Balance.antt =====
-- The handler's stacks (src/xnode/xml/sax_handler.cpp) as the elements of a document begin and end.
use xnode.Prelude.{
  ℕ, zero, suc, ◌+◌, ◌≡◌, sym, ap, ◌∙◌, subst, inl, inr, Option-cases, true, false, Option, none,
  some, List, [], ◌∷◌, length, arith,
}
use mathlib.Core.Option
use xnode.Prelude.Int.{ℤ}
use xnode.Bytes.{Bytes}
use xnode.Value.{XValue, Double}
use xnode.Functions.{Exec}
use xnode.Functions.Results.{Gives, >>=-Gives, first, pure-Gives, if-Gives, list-Gives}
use xnode.Sax
use xnode.Sax.{XNodeSaxHandler}
use xnode.Sax.Handler
use xnode.Sax.Stacks.{
  IsBalanced, put_value-IsBalanced, start_array-IsBalanced, end_array-IsBalanced,
}
use xnode.Sax.Handler.{SaxEvent, handle_all}

-- The elements that are open after an event, and after all of some events.
abbrev pub open_next : ℕ → SaxEvent → Option ℕ
open_next n (SaxEvent.start_element name attrs) = some (suc n)
open_next n (SaxEvent.characters chars) = some n
open_next zero (SaxEvent.end_element name) = none
open_next (suc n) (SaxEvent.end_element name) = some n

unfoldable pub open_after : ℕ → List SaxEvent → Option ℕ
open_after n [] = some n
open_after n (event ∷ events) = elim (open_next n event) [
  | none ↦ none
  | some m ↦ open_after m events
]

abbrev then_open : Option ℕ → List SaxEvent → Option ℕ
then_open o events = elim o [ none ↦ none | some m ↦ open_after m events ]

none-some : {n : ℕ} → none ≡ some n → ⊥
none-some e = subst (λ o. elim o [ none ↦ Unit {0} | some n ↦ ⊥ ]) e tt

some_same : {n m : ℕ} → some n ≡ some m → n ≡ m
some_same e = ap (λ o. Option.get_or o 0) e

module _ {D : Type 0} (U : Type 0) (f : Double D) (time : ℕ → ℤ) (depth : ℕ) where
  module _ (rounds : ℕ) where
    put_in_map-IsBalanced :
        (n parent node : ℕ) (name : Bytes) (h : XNodeSaxHandler D)
        → IsBalanced n h
        → Gives D U (IsBalanced n) (Handler.put_in_map f time depth rounds parent node name h)
    unfolding Handler.put_in_map
    put_in_map-IsBalanced n parent node name h b = first D U _ _ _ λ there.
        >>=-Gives D U (IsBalanced n) _ _ _
          (if-Gives D U _ there _ _ (start_array-IsBalanced U f time depth n name h b)
            (pure-Gives D U _ h b))
          λ started b'.
            put_value-IsBalanced U f time depth rounds n (XValue.object node) true started b'

    put_in_array-IsBalanced :
        (n parent node : ℕ) (name : Bytes) (h : XNodeSaxHandler D)
        → IsBalanced n h
        → Gives D U (IsBalanced n) (Handler.put_in_array f time depth rounds parent node name h)
    unfolding Handler.put_in_array
    put_in_array-IsBalanced n parent node name h b = first D U _ _ _ λ is_element.
        if-Gives D U _ is_element _ _
          (put_value-IsBalanced U f time depth rounds n (XValue.object node) true h b)
          (first D U _ _ _ λ wrapper.
            put_value-IsBalanced U f time depth rounds n (XValue.object wrapper) true h b)

    put_node-IsBalanced :
        (n : ℕ) (name : Bytes) (h : XNodeSaxHandler D)
        → IsBalanced n h
        → Gives D U (IsBalanced (suc n)) (Handler.put_node f time depth rounds name h)
    unfolding Handler.put_node
    put_node-IsBalanced n name h b = first D U _ _ _ λ node.
        >>=-Gives D U (IsBalanced n) _ _ _
          (list-Gives D U _ h.nodes_stack _ _
            (λ e. put_value-IsBalanced U f time depth rounds n (XValue.object node) true _ b)
            λ parent rest e. first D U _ _ _ λ in_map.
              if-Gives D U _ in_map _ _ (put_in_map-IsBalanced n parent node name _ b)
                (put_in_array-IsBalanced n parent node name _ b))
          λ placed b'. pure-Gives D U _ _ (one_more placed b')
      where
        one_more :
            (placed : XNodeSaxHandler D)
            → IsBalanced n placed
            → suc (length placed.nodes_stack) ≡ suc n + length placed.array_parent_nodes
        one_more placed b = omega arith

    put_attributes-IsBalanced :
        (n : ℕ) (attrs : List (Bytes × Bytes)) (h : XNodeSaxHandler D)
        → IsBalanced n h
        → Gives D U (IsBalanced n) (Handler.put_attributes f time depth rounds attrs h)
    unfolding Handler.put_attributes
    put_attributes-IsBalanced n [] h b = pure-Gives D U _ h b
    put_attributes-IsBalanced n ((name, val) ∷ attrs) h b =
        >>=-Gives D U (IsBalanced n) _ _ _
          (put_value-IsBalanced U f time depth rounds n _ false _ b)
          λ put b'. put_attributes-IsBalanced n attrs put b'

    end_node-IsBalanced :
        (n : ℕ) (name : Bytes) (h : XNodeSaxHandler D)
        → IsBalanced (suc n) h
        → Gives D U (IsBalanced n) (Handler.end_node f time depth rounds name h)
    unfolding Handler.end_node Handler.finish_node
    end_node-IsBalanced n name h b =
        list-Gives D U _ h.nodes_stack _ _ (λ e. absurd (none_open e))
          λ last stack e. first D U _ _ _ λ named.
            >>=-Gives D U (λ r. IsBalanced n r.1) _ _ _
              (if-Gives D U _ named _ _ (pure-Gives D U _ _ (one_less e))
                (end_array-IsBalanced U f time depth n _ (one_less e)))
              λ left b'. first D U _ _ _ λ nested.
                first D U _ _ _ λ converted. first D U _ _ _ λ renamed. pure-Gives D U _ _ b'
      where
        none_open : h.nodes_stack ≡ [] → ⊥
        none_open e = let same = sym (ap length e) ∙ b in omega arith

        one_less :
            {last : ℕ} {stack : List ℕ}
            → h.nodes_stack ≡ last ∷ stack
            → length stack ≡ n + length h.array_parent_nodes
        one_less e = let same = sym (ap length e) ∙ b in omega arith

    -- A count that is the same.
    leads :
        {n m : ℕ}
        → some n ≡ some m
        → (p : Exec D U (XNodeSaxHandler D)) → Gives D U (IsBalanced n) p
        → Gives D U (IsBalanced m) p
    leads e p = subst (λ k. Gives D U (IsBalanced k) p) (some_same e)

    handle-IsBalanced :
        (n m : ℕ) (event : SaxEvent) (h : XNodeSaxHandler D)
        → open_next n event ≡ some m
        → IsBalanced n h
        → Gives D U (IsBalanced m) (Handler.handle f time depth rounds event h)
    unfolding Handler.handle
    handle-IsBalanced n m (SaxEvent.start_element name attrs) h e b =
        >>=-Gives D U (IsBalanced (suc n)) _ _ _ (put_node-IsBalanced n name _ b)
          λ put b'. leads e _ (put_attributes-IsBalanced (suc n) attrs put b')
    handle-IsBalanced n m (SaxEvent.characters chars) h e b = leads e _ (
        if-Gives D U _ (Sax.is_formating chars) _ _ (pure-Gives D U _ _ b) (
          >>=-Gives D U (IsBalanced n) _ _ _
            (put_value-IsBalanced U f time depth rounds n _ false _ b)
            λ put b'. pure-Gives D U _ _ b'))
    handle-IsBalanced zero m (SaxEvent.end_element name) h e b = absurd (none-some e)
    handle-IsBalanced (suc n) m (SaxEvent.end_element name) h e b =
        leads e _ (end_node-IsBalanced n name _ b)

    -- Where the handler has a result, there are on its stack as many nodes as elements are open and
    -- arrays started, if that was so before the events and each element that they end is open.
    pub handle_all-IsBalanced :
        (n m : ℕ) (events : List SaxEvent) (h : XNodeSaxHandler D)
        → open_after n events ≡ some m
        → IsBalanced n h
        → Gives D U (IsBalanced m) (handle_all f time depth rounds events h)
    unfolding open_after handle_all
    handle_all-IsBalanced n m [] h e b = leads e _ (pure-Gives D U _ h b)
    handle_all-IsBalanced n m (event ∷ events) h e b = elim (Option-cases (open_next n event)) [
      | inl e' ↦ absurd (none-some (sym (ap (λ o. then_open o events) e') ∙ e))
      | inr (k, e') ↦
          >>=-Gives D U (IsBalanced k) _ _ _ (handle-IsBalanced n k event h e' b) λ after b'.
            handle_all-IsBalanced k m events after (sym (ap (λ o. then_open o events) e') ∙ e) b'
    ]
