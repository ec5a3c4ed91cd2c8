-- ===== src/Node/Heap.antt =====
-- The store of the nodes: the fields of XNode (src/xnode/impl/xnode_impl.h), a node by its address,
-- and what one call of a method reads and changes besides the items of its node. An address that
-- holds no node is an object of another class, or a node that is gone.
use xnode.Prelude.{ℕ, ◌+◌, Bool, Option, none, some, List, [], ◌∷◌, ◌==◌, if◌then◌else◌, is_some}
use xnode.Prelude.Int.{ℤ}
use xnode.Bytes.{Bytes}
use xnode.Value.{XValue, object_ptr, object_ptr_c}
use xnode.Timed.{XTimed, timed, empty_with_time}
use xnode.Callbacks.{XNodeCallbacks, Change, do_callbacks}
use xnode.Container.{KeyType, OnChange}
use xnode.Container.Any.{IContainer, ContainerType, container_type}
use xnode.Node.{NodeType, node_container}
use xnode.Node.Match.{node_key}

module _ (D U : Type 0) where
  -- `parent_wp_`, `name_p_` and `node_callbacks_`; the user's callbacks change a state of type U.
  pub record XNode : Type 0 where
    pub object_uid : ℕ
    pub container : IContainer (XTimed D)
    pub parent : Option ℕ
    pub name : Option Bytes
    pub callbacks : XNodeCallbacks ℕ (XTimed D) U

  -- `next` is the address that the next node is given, `clock` counts the readings of the clock.
  pub record World : Type 0 where
    pub nodes : ℕ → Option XNode
    pub next : ℕ
    pub user : U
    pub clock : ℕ

  -- The variables that the callbacks of one call share: the nodes that it removes and places, and
  -- a value that it takes.
  pub record Call : Type 0 where
    pub callbacks : XNodeCallbacks ℕ (XTimed D) U
    pub user : U
    pub clock : ℕ
    pub removed : List ℕ
    pub placed : List (ℕ × KeyType)
    pub taken : Option (XTimed D)

module _ {D U : Type 0} where
  unfoldable pub write : World D U → ℕ → XNode D U → World D U
  write w a n = record w { nodes = λ b. if b == a then some n else w.nodes b }

  -- `xobject::PtrQuery<INode>` of a pointer that may be null.
  unfoldable pub node_of : World D U → Option ℕ → Option ℕ
  node_of w none = none
  node_of w (some p) = if is_some (w.nodes p) then some p else none

  -- `QueryPtr<INode>` and `QueryPtrC<INode>` of a value.
  unfoldable pub query_ptr : World D U → XValue D → Option ℕ
  query_ptr w v = node_of w (object_ptr v)

  unfoldable pub query_ptr_c : World D U → XValue D → Option ℕ
  query_ptr_c w v = node_of w (object_ptr_c v)

  -- An operation of a node's container: the node is written back with the items and the callbacks
  -- that the operation leaves. The last argument is the result where there is no node.
  unfoldable pub on_container :
      {R : Type 0}
      → World D U
      → ℕ
      → (IContainer (XTimed D) → Call D U → R × IContainer (XTimed D) × Call D U)
      → R
      → (R × List ℕ × List (ℕ × KeyType)) × World D U
  on_container w a f fallback = elim (w.nodes a) [
    | none ↦ ((fallback, [], []), w)
    | some n ↦
        let (r, c, call) = f n.container record {
          callbacks = n.callbacks;
          user = w.user;
          clock = w.clock;
          removed = [];
          placed = [];
          taken = none;
        } in
        let w' = write w a (record n { container = c; callbacks = call.callbacks }) in
        ((r, call.removed, call.placed), record w' { user = call.user; clock = call.clock })
  ]

  -- A container that is only read.
  unfoldable pub read_container : {R : Type 0} → World D U → ℕ → (IContainer (XTimed D) → R) → R → R
  read_container w a f fallback = elim (w.nodes a) [ none ↦ fallback | some n ↦ f n.container ]

module _ {D U : Type 0} (time : ℕ → ℤ) where
  -- XValueRT(XValue): the value with the time of now.
  unfoldable pub stamp : XValue D → Call D U → XTimed D × Call D U
  stamp v call = (timed (time call.clock) v, record call { clock = call.clock + 1 })

  -- `ErasedValue_`
  unfoldable pub erased_value : Call D U → XTimed D × Call D U
  erased_value call = (empty_with_time (time call.clock), record call { clock = call.clock + 1 })

module _ {D U : Type 0} where
  -- OnChangePF_: the node's callbacks are asked.
  unfoldable pub on_change : ℕ → Bool → OnChange (XTimed D) (Call D U)
  on_change a no_discard = some λ key from to call.
      let change : Change ℕ (XTimed D) = record {
        node = a;
        key = node_key key;
        from = from;
        to = to;
      } in
      let ((allowed, callbacks), user) = do_callbacks change no_discard call.callbacks call.user in
      (allowed, record call { callbacks = callbacks; user = user })

  -- Type()
  unfoldable pub node_type : XNode D U → NodeType
  node_type n = elim (container_type n.container) [
    | ContainerType.map ↦ NodeType.map
    | ContainerType.array ↦ NodeType.array
  ]

  -- NodeCreate and XNode::XNode: a node with no items, no parent and no callbacks.
  unfoldable pub create : World D U → NodeType → Bytes → ℕ → ℕ × World D U
  create w type name uid =
      let node : XNode D U = record {
        object_uid = uid;
        container = node_container type;
        parent = none;
        name = elim name [ [] ↦ none | c ∷ s ↦ some (c ∷ s) ];
        callbacks = record { callbacks_map = [] };
      } in
      (w.next, record (write w w.next node) { next = w.next + 1 })
