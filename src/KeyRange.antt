-- ===== src/KeyRange.antt =====
-- `get_prefix` and `KeyRange` of src/rpc/mod.rs.
pub mod Prefix
pub mod Build
use etcd_client.Prelude.{
  ◌+◌, Bool, true, false, List, [], ◌∷◌, reverse, ltb, if◌then◌else◌, is_empty,
}
use etcd_client.Bytes.{Bytes}

-- `for (i, v) in key.iter().enumerate().rev()`, on the reversed key: the rest of the list is
-- `key[..i]` reversed.
unfoldable pub get_prefix_loop : Bytes → Bytes
get_prefix_loop [] = 0 ∷ []
get_prefix_loop (v ∷ before) =
    let rest = get_prefix_loop before in if ltb v 0xff then reverse ((v + 1) ∷ before) else rest

unfoldable pub get_prefix : Bytes → Bytes
unfolding get_prefix_loop
get_prefix key = get_prefix_loop (reverse key)

pub record KeyRange : Type 0 where
  pub key : Bytes
  pub range_end : Bytes
  pub prefix_flag : Bool
  pub from_key_flag : Bool
  pub all_keys_flag : Bool

abbrev pub new : KeyRange
new = record {
  key = [];
  range_end = [];
  prefix_flag = false;
  from_key_flag = false;
  all_keys_flag = false;
}

unfoldable pub with_key : Bytes → KeyRange → KeyRange
with_key key r = record r { key = key }

unfoldable pub with_range : Bytes → KeyRange → KeyRange
with_range end_key r = record r {
  range_end = end_key;
  prefix_flag = false;
  from_key_flag = false;
  all_keys_flag = false;
}

unfoldable pub with_from_key : KeyRange → KeyRange
with_from_key r = record r { from_key_flag = true; prefix_flag = false; all_keys_flag = false }

unfoldable pub with_prefix : KeyRange → KeyRange
with_prefix r = record r { prefix_flag = true; from_key_flag = false; all_keys_flag = false }

unfoldable pub with_all_keys : KeyRange → KeyRange
with_all_keys r = record r { all_keys_flag = true; prefix_flag = false; from_key_flag = false }

unfoldable pub build : KeyRange → Bytes × Bytes
build r =
    if r.all_keys_flag
    then (0 ∷ [], 0 ∷ [])
    else if r.from_key_flag
    then (if is_empty r.key then 0 ∷ [] else r.key, 0 ∷ [])
    else if r.prefix_flag
    then (if is_empty r.key then (0 ∷ [], 0 ∷ []) else (r.key, get_prefix r.key))
    else (r.key, r.range_end)
