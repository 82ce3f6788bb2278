-- ===== src/VecExt.antt =====
-- The operations that src/vec.rs adds to `Vec<u8>`, on the contents of the vector. Their unsafe
-- bodies, on the memory behind the vector, are in VecExt/Raw.antt.
pub mod Raw
pub mod Strip
pub mod Edge
pub mod Interval
pub mod Leak
use etcd_client.Prelude.{
  ◌+◌, ◌%◌, Bool, true, false, not, List, [], ◌∷◌, ◌++◌, reverse, ◌==◌, if◌then◌else◌, is_empty,
  length, drop,
}
use etcd_client.Bytes.{Bytes, starts_with, is_edge}

unfoldable pub strip_key_prefix : Bytes → Bytes → Bytes
strip_key_prefix prefix self =
    if is_empty prefix
    then self
    else if not (starts_with prefix self)
    then self
    else drop (length prefix) self

unfoldable pub prefix_with : Bytes → Bytes → Bytes
prefix_with prefix self = if is_empty prefix then self else prefix ++ self

-- `for i in (0..self.len()).rev()`, on the reversed vector: the new bytes, still reversed, and `ok`.
unfoldable pub edge_loop : Bytes → Bytes × Bool
edge_loop [] = ([], false)
edge_loop (v ∷ before) =
    let v' = (v + 1) % 256 in
    let rest = edge_loop before in if v' == 0 then (v' ∷ rest.0, rest.1) else (v' ∷ before, true)

-- The branch for the edge of the key space, where `self` is overwritten by the prefix.
unfoldable pub edge_of : Bytes → Bytes
unfolding edge_loop
edge_of prefix =
    let (bytes, success) = edge_loop (reverse prefix) in if success then reverse bytes else 0 ∷ []

unfoldable pub prefix_range_end_with : Bytes → Bytes → Bytes
prefix_range_end_with prefix self =
    if is_empty prefix
    then self
    else if is_edge self
    then edge_of prefix
    else if not (is_empty self)
    then prefix_with prefix self
    else self
