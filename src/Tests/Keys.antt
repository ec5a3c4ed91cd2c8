-- ===== src/Tests/Keys.antt =====
-- Keys and paths: src/xkey/xpath.cpp.
use xnode.Prelude.{◌++◌, ◌≤◌, length, arith, ℕ, zero, ◌≡◌, refl, [], ◌∷◌, codes}
use xnode.Prelude.Int.{negsuc}
use xnode.Container.{idx_last}
use xnode.Key.{XKey, of_int}
use xnode.Path
use xnode.Path.{XPath}
use xnode.Path.Ends.{pop_back, pop_front, back, front, pop_ends, of_parts, index, text}
use xnode.Path.Fuel.{add_keys-from_string, key_then}
use xnode.Path.RoundTrip.{IsReadable, from_string-to_string}

program : Unit {0}
unfolding Path.find_delimiter Path.find_char Path.digits Path.atoi Path.split_brace Path.split_plain
    Path.split_key Path.add_keys Path.from_string Path.decimal Path.write Path.to_string
program = tt

wild : ℕ → ℕ
wild n = zero

-- "node::array_subnode[12]::value", of include/xconstant.h
abbrev subnode : XPath
subnode =
    XKey.string (codes "node")
    ∷ XKey.string (codes "array_subnode")
    ∷ XKey.index 12
    ∷ XKey.string (codes "value")
    ∷ []

to_string-subnode : Path.to_string subnode ≡ codes "node::array_subnode[12]::value"
unfolding program
to_string-subnode = refl

with_delimiters :
    Path.from_string wild (codes "node[subnode_name::with_delimiters]")
    ≡ XKey.string (codes "node") ∷ XKey.string (codes "subnode_name::with_delimiters") ∷ []
unfolding program
with_delimiters = refl

-- A key that ends with a colon moves the colon to the key behind it.
colon_moves :
    Path.from_string wild (Path.to_string (XKey.string (codes "a:") ∷ XKey.string (codes "b") ∷ []))
    ≡ XKey.string (codes "a") ∷ XKey.string (codes ":b") ∷ []
unfolding program
colon_moves = refl

-- A string in braces that starts with a digit becomes an index.
digit_becomes_index :
    Path.from_string wild (Path.to_string (XKey.string (codes "1::2") ∷ [])) ≡ XKey.index 1 ∷ []
unfolding program
digit_becomes_index = refl

subnode-IsReadable : IsReadable subnode
unfolding program
subnode-IsReadable = (refl, (refl, (refl, (refl, tt))))

from_string-to_string_example : Path.from_string wild (Path.to_string subnode) ≡ subnode
from_string-to_string_example = from_string-to_string wild subnode subnode-IsReadable

both_ends_popped :
    (pop_back (subnode ++ XKey.index 7 ∷ []) ≡ (back (subnode ++ XKey.index 7 ∷ []), subnode))
    × (back (subnode ++ XKey.index 7 ∷ []) ≡ XKey.index 7)
    × (pop_front (XKey.index 7 ∷ subnode) ≡ (front (XKey.index 7 ∷ subnode), subnode))
    × (pop_back [] ≡ (back [], []))
    × (pop_front [] ≡ (front [], []))
both_ends_popped = pop_ends subnode (XKey.index 7)

add_keys-from_string_example :
    let split = Path.split_key wild 9 (codes "a::b[2]") in
    (Path.add_keys wild 7 (codes "a::b[2]") ≡ key_then split.0 (Path.from_string wild split.1))
    × (Path.from_string wild (codes "a::b[2]") ≡ key_then split.0 (Path.from_string wild split.1))
    × (length split.1 ≤ 6)
add_keys-from_string_example =
    add_keys-from_string wild 7 9 97 (codes "::b[2]") (omega arith) (omega arith)

-- The parts of a path are parsed one by one.
parts_parsed :
    of_parts wild (index 3 ∷ text (codes "a::b") ∷ [])
    ≡ XKey.index 3 ∷ XKey.string (codes "a") ∷ XKey.string (codes "b") ∷ []
unfolding program of_parts
parts_parsed = refl

-- The special indices are the negative ones, cast.
last_is_minus_two : of_int (negsuc 1) ≡ XKey.index idx_last
unfolding of_int
last_is_minus_two = refl
