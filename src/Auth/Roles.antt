-- ===== src/Auth/Roles.antt =====
-- The requests and responses of src/rpc/auth.rs for roles.
use etcd_client.Prelude.{String, Option, none, some, List, [], map}
use etcd_client.Bytes.{Bytes}
use etcd_client.Rpc.{ResponseHeader, HeaderResponse}
use etcd_client.KeyRange
use etcd_client.KeyRange.{KeyRange}
use etcd_client.Permission.{PbPermission, Permission, from_pb, into_pb}

-- A request that holds the name of a role or a user alone.
pub record NameRequest : Type 0 where
  pub name : String

abbrev pub RoleAddOptions : Type 0
RoleAddOptions = NameRequest

abbrev pub RoleAddResponse : Type 0
RoleAddResponse = HeaderResponse

abbrev pub RoleDeleteOptions : Type 0
RoleDeleteOptions = NameRequest

abbrev pub RoleDeleteResponse : Type 0
RoleDeleteResponse = HeaderResponse

abbrev pub RoleGetOptions : Type 0
RoleGetOptions = NameRequest

pub record RoleGetResponse : Type 0 where
  pub header : Option ResponseHeader
  pub perm : List PbPermission

unfoldable pub role_get_take_header : RoleGetResponse → RoleGetResponse × Option ResponseHeader
role_get_take_header self = (record self { header = none }, self.header)

unfoldable pub permissions : RoleGetResponse → List Permission
permissions self = map from_pb self.perm

pub record RoleListResponse : Type 0 where
  pub header : Option ResponseHeader
  pub roles : List String

unfoldable pub role_list_take_header : RoleListResponse → RoleListResponse × Option ResponseHeader
role_list_take_header self = (record self { header = none }, self.header)

pub record RoleGrantPermissionOptions : Type 0 where
  pub name : String
  pub perm : Option PbPermission

unfoldable pub grant_options : String → Permission → RoleGrantPermissionOptions
grant_options name perm = record { name = name; perm = some (into_pb perm) }

abbrev pub RoleGrantPermissionResponse : Type 0
RoleGrantPermissionResponse = HeaderResponse

pub record PbRevokeRequest : Type 0 where
  pub role : String
  pub key : Bytes
  pub range_end : Bytes

pub record RoleRevokePermissionOptions : Type 0 where
  pub req : PbRevokeRequest
  pub key_range : KeyRange

abbrev pub new_revoke : RoleRevokePermissionOptions
new_revoke = record {
  req = record { role = ""; key = []; range_end = [] };
  key_range = KeyRange.new;
}

unfoldable pub revoke_with_name : String → RoleRevokePermissionOptions → RoleRevokePermissionOptions
revoke_with_name name self = record self { req = record self.req { role = name } }

unfoldable pub revoke_with_key : Bytes → RoleRevokePermissionOptions → RoleRevokePermissionOptions
revoke_with_key key self = record self { key_range = KeyRange.with_key key self.key_range }

unfoldable pub revoke_with_range_end :
    Bytes → RoleRevokePermissionOptions → RoleRevokePermissionOptions
revoke_with_range_end range_end self = record self {
  key_range = KeyRange.with_range range_end self.key_range;
}

unfoldable pub revoke_with_prefix : RoleRevokePermissionOptions → RoleRevokePermissionOptions
revoke_with_prefix self = record self { key_range = KeyRange.with_prefix self.key_range }

unfoldable pub revoke_with_from_key : RoleRevokePermissionOptions → RoleRevokePermissionOptions
revoke_with_from_key self = record self { key_range = KeyRange.with_from_key self.key_range }

unfoldable pub revoke_with_all_keys : RoleRevokePermissionOptions → RoleRevokePermissionOptions
revoke_with_all_keys self = record self { key_range = KeyRange.with_all_keys self.key_range }

-- `From<RoleRevokePermissionOptions> for PbAuthRoleRevokePermissionRequest`
unfoldable pub into_revoke_request : RoleRevokePermissionOptions → PbRevokeRequest
into_revoke_request option =
    let (key, range_end) = KeyRange.build option.key_range in
    record option.req { key = key; range_end = range_end }

abbrev pub RoleRevokePermissionResponse : Type 0
RoleRevokePermissionResponse = HeaderResponse
