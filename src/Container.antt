-- ===== src/Container.antt =====
-- The interface of the containers: IContainer of src/xcontainer/xcontainer.h and OnEachRes of
-- include/xconstant.h. What a callback captures and changes is a state that is passed through.
pub mod Map
pub mod Array
pub mod Erase
pub mod Any
use xnode.Prelude.{ℕ, Bool, true, false, ◌-◌, Option, none, some, word, ◌==◌}
use xnode.Bytes.{Bytes, same}

-- `std::variant<std::monostate, size_t, std::string>`.
pub data KeyType : Type 0 where
  monostate : KeyType
  index : ℕ → KeyType
  name : Bytes → KeyType

pub data OnEachRes : Type 0 where
  next erase erase_stop stop : OnEachRes

abbrev pub idx_begin : ℕ
idx_begin = 0

abbrev pub idx_end : ℕ
idx_end = word - 1

abbrev pub idx_last : ℕ
idx_last = word - 2

-- What the containers use of `MappedType`, which is `XValueRT`: `==`, `MappedType()`, `IsEmpty` and
-- `TimeIsAbsent`. A value built by the default constructor is empty and has no time.
pub record Mapped {ℓ} (V : Type ℓ) : Type ℓ where
  pub eq : V → V → Bool
  pub default : V
  pub is_empty : V → Bool
  pub time_is_absent : V → Bool

pub record EmplaceRes {ℓ} (V : Type ℓ) : Type ℓ where
  pub succeeded : Bool
  pub inserted_at : KeyType
  pub existed : V

module _ {ℓ} (V S : Type ℓ) where
  -- `OnChangePF`, which may be null: the key, the old and the new value.
  abbrev pub OnChange : Type ℓ
  OnChange = Option (KeyType → V → V → S → Bool × S)

  -- The callback of the `ForEach` that only reads: `true` stops.
  abbrev pub OnItem : Type ℓ
  OnItem = KeyType → V → S → Bool × S

  -- The callback of the `ForEach` that may change the item: the verdict and the item as it left it.
  abbrev pub OnEach : Type ℓ
  OnEach = KeyType → V → S → OnEachRes × V × S

-- `!_pf_on_change || _pf_on_change(key, from, to)`
abbrev pub approve {ℓ} : {V S : Type ℓ} → OnChange V S → KeyType → V → V → S → Bool × S
approve none key from to s = (true, s)
approve (some f) key from to s = f key from to s

abbrev pub wants_erase : OnEachRes → Bool
wants_erase erase = true
wants_erase erase_stop = true
wants_erase _ = false

abbrev pub wants_stop : OnEachRes → Bool
wants_stop stop = true
wants_stop erase_stop = true
wants_stop _ = false

-- `==` of two `std::variant`.
abbrev pub key_eq : KeyType → KeyType → Bool
key_eq monostate monostate = true
key_eq (index i) (index j) = i == j
key_eq (name a) (name b) = same a b
key_eq _ _ = false
