-- ===== src/Json/Balance.antt =====
-- The stack of the nodes that XNodeJsonHandler of src/xnode/json/xnode_json.cpp is building.
use xnode.Prelude.{
  ℕ, suc, ◌≡◌, sym, ap, ◌∙◌, Option, none, some, List, [], ◌∷◌, map, length, arith, Option-cases,
  inl, inr, if_intro,
}
use xnode.Prelude.Int.{ℤ}
use xnode.Value.{XValue, Double}
use xnode.Node.{NodeType}
use xnode.Node.Heap.{World}
use xnode.Json.{Event, XNodeJsonHandler, put_value, put_node, end_node, handle, read}
use xnode.Json.Nested.{Open, opened, used, scan, scan_all}

used-length : (l l' : List Open) → used l ≡ some l' → length l' ≡ length l
unfolding used
used-length [] l' u = ground arith
used-length (Open.object_key ∷ l) l' u = cc
used-length (Open.object_value ∷ l) l' u = ground arith
used-length (Open.array_value ∷ l) l' u = ground arith

opened-length :
    (o : Open) (l l' : List Open) → opened o (used l) ≡ some l' → length l' ≡ suc (length l)
opened-length o l l' e = elim (Option-cases (used l)) [
  | inl n ↦ ground (arith, n, e)
  | inr (k, s) ↦
      let parts : l' ≡ o ∷ k = ground (arith, s, e) in rw parts (ap suc (used-length l k s))
]

module _ {D U : Type 0} (f : Double D) (time : ℕ → ℤ) (depth : ℕ) where
  put_value-nodes :
      (val : XValue D) (h : XNodeJsonHandler D) (w : World D U)
      → length (put_value f time depth val h w).1.nodes ≡ length h.nodes
  unfolding put_value
  put_value-nodes val h w = ground arith

  put_node-nodes :
      (type : NodeType) (h : XNodeJsonHandler D) (w : World D U)
      → length (put_node f time depth type h w).1.nodes ≡ suc (length h.nodes)
  unfolding put_node
  put_node-nodes type h w = ap suc (put_value-nodes _ h _)

  end_node-nodes :
      (h : XNodeJsonHandler D) (w : World D U) (n : ℕ)
      → length h.nodes ≡ suc n
      → length (end_node f time depth h w).1.nodes ≡ n
  unfolding end_node
  end_node-nodes h w n e = ground arith

  value-nodes :
      (val : XValue D) (h : XNodeJsonHandler D) (w : World D U) (l l' : List Open)
      → used l ≡ some l'
      → length h.nodes ≡ length l
      → length (put_value f time depth val h w).1.nodes ≡ length l'
  value-nodes val h w l l' u n = put_value-nodes val h w ∙ n ∙ sym (used-length l l' u)

  started :
      (type : NodeType) (o : Open) (h : XNodeJsonHandler D) (w : World D U) (l l' : List Open)
      → opened o (used l) ≡ some l'
      → length h.nodes ≡ length l
      → length (put_node f time depth type h w).1.nodes ≡ length l'
  started type o h w l l' e n = put_node-nodes type h w ∙ ap suc n ∙ sym (opened-length o l l' e)

  handle-nodes :
      (event : Event D) (h : XNodeJsonHandler D) (w : World D U) (l l' : List Open)
      → scan event l ≡ some l'
      → length h.nodes ≡ length l
      → length (handle f time depth event h w).1.nodes ≡ length l'
  unfolding handle scan
  handle-nodes Event.null h w l l' s n = value-nodes _ h w l l' s n
  handle-nodes (Event.bool b) h w l l' s n = value-nodes _ h w l l' s n
  handle-nodes (Event.int64 i) h w l l' s n = value-nodes _ h w l l' s n
  handle-nodes (Event.uint64 i) h w l l' s n = value-nodes _ h w l l' s n
  handle-nodes (Event.double d) h w l l' s n = value-nodes _ h w l l' s n
  handle-nodes (Event.string t) h w l l' s n = value-nodes _ h w l l' s n
  handle-nodes (Event.key t) h w [] l' s n = cc
  handle-nodes (Event.key t) h w (Open.object_key ∷ l) l' s n = ground (arith, s, n)
  handle-nodes (Event.key t) h w (Open.object_value ∷ l) l' s n = cc
  handle-nodes (Event.key t) h w (Open.array_value ∷ l) l' s n = cc
  handle-nodes Event.start_object h w l l' s n = started _ _ h w l l' s n
  handle-nodes Event.start_array h w l l' s n = started _ _ h w l l' s n
  handle-nodes Event.end_object h w [] l' s n = cc
  handle-nodes Event.end_object h w (Open.object_key ∷ l) l' s n =
      end_node-nodes h w (length l) n ∙ ground (arith, s)
  handle-nodes Event.end_object h w (Open.object_value ∷ l) l' s n = cc
  handle-nodes Event.end_object h w (Open.array_value ∷ l) l' s n = cc
  handle-nodes Event.end_array h w [] l' s n = cc
  handle-nodes Event.end_array h w (Open.object_key ∷ l) l' s n = cc
  handle-nodes Event.end_array h w (Open.object_value ∷ l) l' s n = cc
  handle-nodes Event.end_array h w (Open.array_value ∷ l) l' s n =
      end_node-nodes h w (length l) n ∙ ground (arith, s)

  -- Where the reader ends without an error on events that lead from one nesting to another, and the
  -- handler holds as many nodes as are open before them, it holds as many as are open after them.
  pub read-nodes :
      (events : List (Event D × ℕ)) (h : XNodeJsonHandler D) (w : World D U) (l l' : List Open)
      → scan_all (map (λ e. e.0) events) l ≡ some l'
      → length h.nodes ≡ length l
      → (read f time depth events none h w).0 ≡ none
      → length (read f time depth events none h w).1.nodes ≡ length l'
  unfolding read scan_all
  read-nodes [] h w l l' s n = λ ok. n ∙ ground (arith, s)
  read-nodes ((event, offset) ∷ events) h w l l' s n =
      let Result = Option ℕ × XNodeJsonHandler D × World D U in
      let (done, h1, w1) = handle f time depth event h w in
      let Balanced : Result → Type 0 = λ r. r.0 ≡ none → length r.1.nodes ≡ length l' in
      elim (Option-cases (scan event l)) [
        | inl e ↦ ground (arith, e, s)
        | inr (k, e) ↦
            if_intro Balanced done
              (λ t.
                read-nodes events h1 w1 k l' (ground (arith, e, s))
                  (handle-nodes event h w l k e n))
              (λ t bad. cc)
      ]
