-- ===== src/Key.antt =====
-- XKey (include/xkey/xkey.h, src/xkey/xkey.cpp): a key by its variant. The holder of the string,
-- which keeps a `std::string_view` valid, is not modelled: a key owns its bytes.
use xnode.Prelude.{ℕ, Bool, true, false, Option, none, some, word}
use xnode.Prelude.Int.{ℤ, to_unsigned}
use xnode.Bytes.{Bytes}

pub data XKey : Type 0 where
  empty : XKey
  index : ℕ → XKey
  string : Bytes → XKey

-- XKey::KeyType
pub data Kind : Type 0 where
  empty index string : Kind

-- XKey(int64_t), XKey(int32_t) and XKey(uint32_t): the cast to size_t wraps.
unfoldable pub of_int : ℤ → XKey
of_int idx = XKey.index (to_unsigned word idx)

-- XKey(std::string_view) and the other constructors from a text.
unfoldable pub of_text : Bytes → XKey
of_text s = XKey.string s

unfoldable pub is_empty : XKey → Bool
is_empty XKey.empty = true
is_empty _ = false

unfoldable pub kind : XKey → Kind
kind XKey.empty = Kind.empty
kind (XKey.index i) = Kind.index
kind (XKey.string b) = Kind.string

unfoldable pub index_get : XKey → Option ℕ
index_get (XKey.index i) = some i
index_get _ = none

unfoldable pub string_get : XKey → Option Bytes
string_get (XKey.string b) = some b
string_get _ = none
