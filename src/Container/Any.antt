-- ===== src/Container/Any.antt =====
-- IContainer (src/xcontainer/xcontainer.h): a container of any of the three classes, the calls that
-- go to its class, and the factory (src/xcontainer/factory/xcontainer_factory_impl.cpp).
use xnode.Prelude.{ℕ, Bool, true, false, Option, []}
use xnode.Container.{KeyType, Mapped, EmplaceRes, OnChange, OnItem, OnEach}
use xnode.Container.Map
use xnode.Container.Map.{XContainerMap}
use xnode.Container.Erase
use xnode.Container.Erase.{XContainerMapWithErase}
use xnode.Container.Array
use xnode.Container.Array.{XContainerArray}
use xnode.Container.Array.Each

-- IContainer::ContainerType
pub data ContainerType : Type 0 where
  map array : ContainerType

pub data IContainer {ℓ} (V : Type ℓ) : Type ℓ where
  plain : XContainerMap V → IContainer V
  with_erase : XContainerMapWithErase V → IContainer V
  array : XContainerArray V → IContainer V

module _ {ℓ} {V : Type ℓ} where
  -- ContainerCreate; the assertions on the type are left out.
  unfoldable pub container_create : ContainerType → Bool → IContainer V
  container_create ContainerType.array erase_detection = IContainer.array record { values_deq = [] }
  container_create ContainerType.map true =
      with_erase record { base = record { values_map = [] }; erased_values = 0 }
  container_create ContainerType.map false = plain record { values_map = [] }

  unfoldable pub container_type : IContainer V → ContainerType
  container_type (plain c) = ContainerType.map
  container_type (with_erase c) = ContainerType.map
  container_type (IContainer.array c) = ContainerType.array

  unfoldable pub is_key_valid : IContainer V → KeyType → Bool
  unfolding Map.is_key_valid Array.is_key_valid
  is_key_valid (plain c) key = Map.is_key_valid key
  is_key_valid (with_erase c) key = Map.is_key_valid key
  is_key_valid (IContainer.array c) key = Array.is_key_valid key

  unfoldable pub size : IContainer V → ℕ
  unfolding Map.size Erase.size Array.size
  size (plain c) = Map.size c
  size (with_erase c) = Erase.size c
  size (IContainer.array c) = Array.size c

  unfoldable pub empty : IContainer V → Bool
  unfolding Map.empty Erase.empty Array.empty
  empty (plain c) = Map.empty c
  empty (with_erase c) = Erase.empty c
  empty (IContainer.array c) = Array.empty c

  unfoldable pub at : IContainer V → KeyType → Option V
  unfolding Map.at Array.at
  at (plain c) key = Map.at c key
  at (with_erase c) key = Map.at c.base key
  at (IContainer.array c) key = Array.at c key

  unfoldable pub clear : IContainer V → IContainer V
  unfolding Map.clear Erase.clear Array.clear
  clear (plain c) = plain (Map.clear c)
  clear (with_erase c) = with_erase (Erase.clear c)
  clear (IContainer.array c) = IContainer.array (Array.clear c)

module _ {ℓ} {V S : Type ℓ} (m : Mapped V) where
  unfoldable pub for_each_const : IContainer V → Option (OnItem V S) → Option KeyType → S → Bool × S
  unfolding Map.for_each_const Erase.for_each_const Array.for_each_const
  for_each_const (plain c) on_item from s = Map.for_each_const c on_item from s
  for_each_const (with_erase c) on_item from s = Erase.for_each_const m c on_item from s
  for_each_const (IContainer.array c) on_item from s = Array.for_each_const c on_item from s

  -- ForPatch: that of the base class is ForEach.
  unfoldable pub for_patch : IContainer V → Option (OnItem V S) → Option KeyType → S → Bool × S
  unfolding for_each_const Erase.for_patch
  for_patch (plain c) on_item from s = for_each_const (plain c) on_item from s
  for_patch (with_erase c) on_item from s = Erase.for_patch c on_item from s
  for_patch (IContainer.array c) on_item from s = for_each_const (IContainer.array c) on_item from s

  unfoldable pub set : IContainer V → KeyType → V → OnChange V S → S → Bool × V × IContainer V × S
  unfolding Map.set Erase.set Array.set
  set (plain c) key val on_change s =
      let (ok, previous, c', s') = Map.set m c key val on_change s in (ok, previous, plain c', s')
  set (with_erase c) key val on_change s =
      let (ok, previous, c', s') = Erase.set m c key val on_change s in
      (ok, previous, with_erase c', s')
  set (IContainer.array c) key val on_change s =
      let (ok, previous, c', s') = Array.set m c key val on_change s in
      (ok, previous, IContainer.array c', s')

  unfoldable pub emplace :
      IContainer V → KeyType → V → OnChange V S → S → EmplaceRes V × IContainer V × S
  unfolding Map.emplace Erase.emplace Array.emplace
  emplace (plain c) key val on_change s =
      let (res, c', s') = Map.emplace m c key val on_change s in (res, plain c', s')
  emplace (with_erase c) key val on_change s =
      let (res, c', s') = Erase.emplace m c key val on_change s in (res, with_erase c', s')
  emplace (IContainer.array c) key val on_change s =
      let (res, c', s') = Array.emplace m c key val on_change s in (res, IContainer.array c', s')

  module _ (erased_value : S → V × S) where
    unfoldable pub erase : IContainer V → KeyType → OnChange V S → S → Option V × IContainer V × S
    unfolding Map.erase Erase.erase Array.erase
    erase (plain c) key on_change s =
        let (erased, c', s') = Map.erase m c key on_change s in (erased, plain c', s')
    erase (with_erase c) key on_change s =
        let (erased, c', s') = Erase.erase m erased_value c key on_change s in
        (erased, with_erase c', s')
    erase (IContainer.array c) key on_change s =
        let (erased, c', s') = Array.erase m c key on_change s in (erased, IContainer.array c', s')

    unfoldable pub for_each :
        IContainer V
        → Option (OnEach V S)
        → Option KeyType
        → OnChange V S
        → S
        → Bool × IContainer V × S
    unfolding Map.for_each Erase.for_each Each.for_each
    for_each (plain c) on_each from on_change s =
        let (found, c', s') = Map.for_each m c on_each from on_change s in (found, plain c', s')
    for_each (with_erase c) on_each from on_change s =
        let (found, c', s') = Erase.for_each m erased_value c on_each from on_change s in
        (found, with_erase c', s')
    for_each (IContainer.array c) on_each from on_change s =
        let (found, c', s') = Each.for_each m c on_each from on_change s in
        (found, IContainer.array c', s')
