-- ===== src/Json/Nested.antt =====
-- The form of the events that WriteXNode of src/xnode/json/xnode_json.cpp gives to the writer.
use xnode.Prelude.{
  ℕ, zero, suc, ◌≡◌, refl, ap, ◌∙◌, Bool, true, false, Option, none, some, List, [], ◌∷◌, ◌++◌,
  append_assoc, arith, Option-cases, inl, inr,
}
use mathlib.Core.Option
use xnode.Key
use xnode.Key.{XKey}
use xnode.Value.{XValue, Double}
use xnode.Timed.{XTimed}
use xnode.Node.{NodeType}
use xnode.Node.Heap.{World, query_ptr_c}
use xnode.Node.Bulk.{bulk_get_all}
use xnode.Functions.{type_at}
use xnode.Json.{Event, write_value, write_items, write_node, framed}

-- What is open, the innermost first, and what comes next there.
pub data Open : Type 0 where
  object_key object_value array_value : Open

-- A value, where one may stand.
unfoldable pub used : List Open → Option (List Open)
used [] = some []
used (Open.object_value ∷ l) = some (Open.object_key ∷ l)
used (Open.array_value ∷ l) = some (Open.array_value ∷ l)
used (Open.object_key ∷ l) = none

abbrev pub opened : Open → Option (List Open) → Option (List Open)
opened o none = none
opened o (some l) = some (o ∷ l)

module _ {D : Type 0} where
  unfoldable pub scan : Event D → List Open → Option (List Open)
  scan (Event.key s) (Open.object_key ∷ l) = some (Open.object_value ∷ l)
  scan (Event.key s) _ = none
  scan Event.start_object l = opened Open.object_key (used l)
  scan Event.start_array l = opened Open.array_value (used l)
  scan Event.end_object (Open.object_key ∷ l) = some l
  scan Event.end_object _ = none
  scan Event.end_array (Open.array_value ∷ l) = some l
  scan Event.end_array _ = none
  scan event l = used l

  unfoldable pub scan_all : List (Event D) → List Open → Option (List Open)
  scan_all [] l = some l
  scan_all (e ∷ events) l = elim (scan e l) [ none ↦ none | some l' ↦ scan_all events l' ]

  -- The events are one value, wherever a value may stand.
  abbrev IsValue : List (Event D) → Type 0
  IsValue events =
      (l l' : List Open) (rest : List (Event D))
      → used l ≡ some l'
      → scan_all (events ++ rest) l ≡ scan_all rest l'

  one-IsValue :
      (event : Event D) (events : List (Event D))
      → ((l : List Open) → scan event l ≡ used l)
      → some (event ∷ []) ≡ some events
      → IsValue events
  unfolding scan_all
  one-IsValue event events is_scalar e l l' rest u = ground (arith, is_scalar l)

module _ {D U : Type 0} (f : Double D) (w : World D U) where
  written_object :
      (again : ℕ → Option (List (Event D))) (p : Option ℕ) (events : List (Event D))
      → ((q : ℕ) (e : List (Event D)) → again q ≡ some e → IsValue e)
      → elim p [ none ↦ none | some q ↦ again q ] ≡ some events
      → IsValue events
  written_object again none events h e = cc
  written_object again (some q) events h e = h q events e

  write_value-IsValue :
      (again : ℕ → Option (List (Event D))) (val : XValue D) (events : List (Event D))
      → ((q : ℕ) (e : List (Event D)) → again q ≡ some e → IsValue e)
      → write_value f w again val ≡ some events
      → IsValue events
  unfolding write_value scan
  write_value-IsValue again XValue.empty events h e = one-IsValue _ events (λ l. refl) e
  write_value-IsValue again XValue.null events h e = one-IsValue _ events (λ l. refl) e
  write_value-IsValue again (XValue.bool b) events h e = one-IsValue _ events (λ l. refl) e
  write_value-IsValue again (XValue.int64 i) events h e = one-IsValue _ events (λ l. refl) e
  write_value-IsValue again (XValue.uint64 n) events h e = one-IsValue _ events (λ l. refl) e
  write_value-IsValue again (XValue.double d) events h e = one-IsValue _ events (λ l. refl) e
  write_value-IsValue again (XValue.string s) events h e = one-IsValue _ events (λ l. refl) e
  write_value-IsValue again (XValue.object p) events h e =
      written_object again (query_ptr_c w (XValue.object p)) events h e
  write_value-IsValue again (XValue.const_object p) events h e =
      written_object again (query_ptr_c w (XValue.const_object p)) events h e

  abbrev frame : Bool → Open
  frame true = Open.object_key
  frame false = Open.array_value

  abbrev entry : Bool → XKey → List (Event D) → List (Event D) → List (Event D)
  entry true k events later = Event.key (Option.get_or (Key.string_get k) []) ∷ (events ++ later)
  entry false k events later = events ++ later

  -- The parts that the events of items come from.
  write_items-parts :
      (again : ℕ → Option (List (Event D))) (with_keys : Bool) (k : XKey) (val : XTimed D)
      (items : List (XKey × XTimed D)) (events : List (Event D))
      → write_items f w again with_keys ((k, val) ∷ items) ≡ some events
      → (first : List (Event D)) × (later : List (Event D)) × (write_value f w again val.value
          ≡ some first)
        × (write_items f w again with_keys items ≡ some later)
        × (events ≡ entry with_keys k first later)
  unfolding write_items
  write_items-parts again with_keys k val items events e =
      elim (Option-cases (write_value f w again val.value)) [
        | inl n ↦ ground (arith, n, e)
        | inr (first, s) ↦ elim (Option-cases (write_items f w again with_keys items)) [
          | inl n ↦ ground (arith, n, s, e)
          | inr (later, t) ↦ (first, later, s, t, ground (arith, s, t, e))
        ]
      ]

  entry-scan :
      (with_keys : Bool) (k : XKey) (first later rest : List (Event D)) (l : List Open)
      → IsValue first
      → scan_all (later ++ rest) (frame with_keys ∷ l) ≡ scan_all rest (frame with_keys ∷ l)
      → scan_all (entry with_keys k first later ++ rest) (frame with_keys ∷ l)
        ≡ scan_all rest (frame with_keys ∷ l)
  unfolding scan_all scan used
  entry-scan true k first later rest l value ih =
      ap (λ t. scan_all t (Open.object_value ∷ l)) (append_assoc first later rest)
      ∙ value (Open.object_value ∷ l) (Open.object_key ∷ l) (later ++ rest) refl
      ∙ ih
  entry-scan false k first later rest l value ih =
      ap (λ t. scan_all t (Open.array_value ∷ l)) (append_assoc first later rest)
      ∙ value (Open.array_value ∷ l) (Open.array_value ∷ l) (later ++ rest) refl
      ∙ ih

  write_items-scan :
      (again : ℕ → Option (List (Event D))) (with_keys : Bool) (items : List (XKey × XTimed D))
      (events : List (Event D))
      → ((q : ℕ) (e : List (Event D)) → again q ≡ some e → IsValue e)
      → write_items f w again with_keys items ≡ some events
      → (l : List Open) (rest : List (Event D))
      → scan_all (events ++ rest) (frame with_keys ∷ l) ≡ scan_all rest (frame with_keys ∷ l)
  write_items-scan again with_keys [] events h e l rest = unfold write_items in ground (arith, e)
  write_items-scan again with_keys ((k, val) ∷ items) events h e l rest =
      let (first, later, s, t, parts) = write_items-parts again with_keys k val items events e in
      rw parts (
        entry-scan with_keys k first later rest l (write_value-IsValue again val.value first h s)
          (write_items-scan again with_keys items later h t l rest))

  abbrev first_of : Bool → Event D
  first_of true = Event.start_object
  first_of false = Event.start_array

  abbrev last_of : Bool → Event D
  last_of true = Event.end_object
  last_of false = Event.end_array

  first-scan :
      (b : Bool) (l l' : List Open) (rest : List (Event D))
      → used l ≡ some l'
      → scan_all (first_of b ∷ rest) l ≡ scan_all rest (frame b ∷ l')
  unfolding scan_all scan
  first-scan true l l' rest u = ground (arith, u)
  first-scan false l l' rest u = ground (arith, u)

  last-scan :
      (b : Bool) (l : List Open) (rest : List (Event D))
      → scan_all (last_of b ∷ rest) (frame b ∷ l) ≡ scan_all rest l
  unfolding scan_all scan
  last-scan true l rest = refl
  last-scan false l rest = refl

  framed-IsValue :
      (again : ℕ → Option (List (Event D))) (with_keys : Bool) (items : List (XKey × XTimed D))
      (events : List (Event D))
      → ((q : ℕ) (e : List (Event D)) → again q ≡ some e → IsValue e)
      → framed f w (first_of with_keys) (last_of with_keys) (write_items f w again with_keys items)
        ≡ some events
      → IsValue events
  framed-IsValue again with_keys items events h e l l' rest u =
      elim (Option-cases (write_items f w again with_keys items)) [
        | inl n ↦ ground (arith, n, e)
        | inr (middle, s) ↦
            let closing = last_of with_keys ∷ [] in
            let parts : events ≡ first_of with_keys ∷ (middle ++ closing) = ground (arith, s, e) in
            rw parts (
              first-scan with_keys l l' ((middle ++ closing) ++ rest) u
              ∙ ap (λ t. scan_all t (frame with_keys ∷ l')) (append_assoc middle closing rest)
              ∙ write_items-scan again with_keys items middle h s l' (closing ++ rest)
              ∙ last-scan with_keys l' rest)
      ]

  write_node-IsValue :
      (rounds node : ℕ) (events : List (Event D))
      → write_node f w rounds node ≡ some events
      → IsValue events
  unfolding write_node
  write_node-IsValue zero node events e = cc
  write_node-IsValue (suc rounds) node events e =
      let items = (bulk_get_all f true w node none XKey.empty tt).1 in
      let again = write_node f w rounds in
      let nested = write_node-IsValue rounds in
      let written = framed-IsValue again in
      elim (Option-cases (type_at w node)) [
        | inl n ↦ ground (arith, n, e)
        | inr (NodeType.map, t) ↦ written true items events nested (ground (arith, t, e))
        | inr (NodeType.array, t) ↦ written false items events nested (ground (arith, t, e))
      ]

  -- Where WriteXNode ends, the events that it has written take the place of one value, wherever a value
  -- may stand: a key stands before each value of an object and nowhere else, and what opens last closes
  -- first.
  pub write_node-scan_all :
      (rounds node : ℕ) (events : List (Event D)) (l l' : List Open) (rest : List (Event D))
      → write_node f w rounds node ≡ some events
      → used l ≡ some l'
      → scan_all (events ++ rest) l ≡ scan_all rest l'
  write_node-scan_all rounds node events l l' rest e u =
      write_node-IsValue rounds node events e l l' rest u
