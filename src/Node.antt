-- ===== src/Node.antt =====
-- What a node is made of besides its container: the type that a key asks for
-- (src/xnode/xkey_type_match.h) and the parts that the factory gives a node
-- (src/xnode/factory/xnode_factory_impl.cpp).
pub mod Heap
pub mod Parents
pub mod Items
pub mod Changes
pub mod Atomic
pub mod Bulk
pub mod View
pub mod BulkSet
pub mod BulkInsert
pub mod Forest
pub mod Climb
pub mod Acyclic
pub mod Trees
pub mod Calls
pub mod Adopted
pub mod Placed
pub mod Named
pub mod Match
pub mod Validator
use xnode.Prelude.{Bool, true, false, Option, none, some}
use xnode.Key.{XKey, Kind, kind}
use xnode.Container.Any.{ContainerType, IContainer, container_create}

-- INode::NodeType
pub data NodeType : Type 0 where
  map array : NodeType

-- XKeyToNodeType::Match
unfoldable pub type_of_key : XKey → Option NodeType
unfolding kind
type_of_key key = elim (kind key) [
  | Kind.empty ↦ none
  | Kind.index ↦ some NodeType.array
  | Kind.string ↦ some NodeType.map
]

-- The container that NodeCreate gives a node of the type.
unfoldable pub node_container {ℓ} : {V : Type ℓ} → NodeType → IContainer V
unfolding container_create
node_container NodeType.map = container_create ContainerType.map true
node_container NodeType.array = container_create ContainerType.array false
