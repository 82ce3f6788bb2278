-- ===== src/Bytes.antt =====
-- Byte strings, as `Vec<u8>` and `&[u8]`: equality, the lexicographic order of `Ord for [u8]`,
-- `starts_with`, and the key intervals that the service documents in proto/rpc.proto.
pub mod Order
use etcd_client.Prelude.{
  ℕ, ◌<◌, Bool, true, false, not, ◌&&◌, List, [], ◌∷◌, ltb, ◌==◌, if◌then◌else◌, is_empty,
}

abbrev pub Bytes : Type 0
Bytes = List ℕ

-- Every element is a byte.
abbrev pub IsBytes : Bytes → Type 0
IsBytes [] = Unit
IsBytes (x ∷ xs) = (x < 256) × IsBytes xs

unfoldable pub bytes_eq : Bytes → Bytes → Bool
bytes_eq [] [] = true
bytes_eq [] (y ∷ ys) = false
bytes_eq (x ∷ xs) [] = false
bytes_eq (x ∷ xs) (y ∷ ys) = (x == y) && bytes_eq xs ys

unfoldable pub lex_ltb : Bytes → Bytes → Bool
lex_ltb [] [] = false
lex_ltb [] (y ∷ ys) = true
lex_ltb (x ∷ xs) [] = false
lex_ltb (x ∷ xs) (y ∷ ys) = if ltb x y then true else if x == y then lex_ltb xs ys else false

abbrev pub lex_leb : Bytes → Bytes → Bool
lex_leb xs ys = not (lex_ltb ys xs)

-- xs.starts_with(prefix), with the prefix first
unfoldable pub starts_with : Bytes → Bytes → Bool
starts_with [] xs = true
starts_with (p ∷ ps) [] = false
starts_with (p ∷ ps) (x ∷ xs) = (p == x) && starts_with ps xs

-- The marker "\0" for an interval with no upper end.
unfoldable pub is_edge : Bytes → Bool
is_edge [] = false
is_edge (x ∷ []) = x == 0
is_edge (x ∷ y ∷ ys) = false

-- The keys that a request with `key` and `range_end` means, as proto/rpc.proto documents it:
-- no `range_end`: the key alone; "\0": every key from `key` on; else the interval [key, range_end).
unfoldable pub in_range : Bytes → Bytes → Bytes → Bool
in_range key range_end x =
    if is_empty range_end
    then bytes_eq key x
    else if is_edge range_end
    then lex_leb key x
    else (lex_leb key x && lex_ltb x range_end)
