-- ===== src/Permission.antt =====
-- `Permission` of src/rpc/auth.rs: the keys that a role may use.
pub mod Wire
use etcd_client.Prelude.{
  ℕ, String, Bool, true, false, not, ◌&&◌, ◌||◌, [], ◌==◌, if◌then◌else◌, is_empty,
}
use etcd_client.Bytes.{Bytes, bytes_eq, is_edge}
use etcd_client.Error.{Foreign, Result}
use etcd_client.KeyRange
use etcd_client.KeyRange.{KeyRange, get_prefix}

pub data PermissionType : Type 0 where
  read_type write_type read_write_type : PermissionType

-- `perm_type.into()`
abbrev pub type_code : PermissionType → ℕ
type_code read_type = 0
type_code write_type = 1
type_code read_write_type = 2

pub record PbPermission : Type 0 where
  pub perm_type : ℕ
  pub key : Bytes
  pub range_end : Bytes

-- `with_prefix` and `with_from_key` of the source are `prefix_flag` and `from_key_flag`, since a
-- method has the same name.
pub record Permission : Type 0 where
  pub inner : PbPermission
  pub prefix_flag : Bool
  pub from_key_flag : Bool

unfoldable pub new : PermissionType → Bytes → Permission
new perm_type key = record {
  inner = record { perm_type = type_code perm_type; key = key; range_end = [] };
  prefix_flag = false;
  from_key_flag = false;
}

unfoldable pub read : Bytes → Permission
unfolding new
read key = new read_type key

unfoldable pub write : Bytes → Permission
unfolding new
write key = new write_type key

unfoldable pub read_write : Bytes → Permission
unfolding new
read_write key = new read_write_type key

unfoldable pub with_range_end : Bytes → Permission → Permission
with_range_end range_end self = record {
  inner = record self.inner { range_end = range_end };
  prefix_flag = false;
  from_key_flag = false;
}

unfoldable pub with_from_key : Permission → Permission
with_from_key self = record self { from_key_flag = true; prefix_flag = false }

unfoldable pub with_prefix : Permission → Permission
with_prefix self = record self { prefix_flag = true; from_key_flag = false }

unfoldable pub with_all_keys : Permission → Permission
unfolding with_from_key
with_all_keys self = with_from_key (record self { inner = record self.inner { key = [] } })

-- `std::str::from_utf8` with the conversion of its error is the first argument.
module _ {F : Foreign} (from_utf8 : Bytes → Result F String) where
  unfoldable pub perm_key_str : Permission → Result F String
  perm_key_str self = from_utf8 self.inner.key

  unfoldable pub range_end_str : Permission → Result F String
  range_end_str self = from_utf8 self.inner.range_end

-- `PartialEq`
unfoldable pub eq : Permission → Permission → Bool
eq self other =
    if (if self.prefix_flag then other.prefix_flag else not other.prefix_flag)
      && ((if self.from_key_flag then other.from_key_flag else not other.from_key_flag)
          && (self.inner.perm_type == other.inner.perm_type))
    then (if bytes_eq self.inner.key other.inner.key
        then true
        else ((is_empty self.inner.key && is_edge other.inner.key)
            || (is_edge self.inner.key && is_empty other.inner.key)))
    else false

-- `From<&PbPermission> for Permission`
unfoldable pub from_pb : PbPermission → Permission
from_pb src =
    if is_edge src.range_end
    then record { inner = src; prefix_flag = false; from_key_flag = true }
    else if not (is_empty src.range_end)
    then record {
      inner = src;
      prefix_flag = bytes_eq (get_prefix src.key) src.range_end;
      from_key_flag = false;
    }
    else record { inner = src; prefix_flag = false; from_key_flag = false }

-- The key range that `From<Permission> for PbPermission` builds.
abbrev pub range_of : Permission → KeyRange
range_of perm =
    let range =
      KeyRange.with_range perm.inner.range_end (KeyRange.with_key perm.inner.key KeyRange.new) in
    if perm.prefix_flag
    then KeyRange.with_prefix range
    else if perm.from_key_flag
    then KeyRange.with_from_key range
    else range

-- `From<Permission> for PbPermission`
unfoldable pub into_pb : Permission → PbPermission
into_pb perm =
    let (key, range_end) = KeyRange.build (range_of perm) in
    record perm.inner { key = key; range_end = range_end }
