-- ===== src/Auth/Users.antt =====
-- The requests and responses of src/rpc/auth.rs for users.
use etcd_client.Prelude.{String, Bool, true, false, Option, none, some, List}
use etcd_client.Rpc.{ResponseHeader, HeaderResponse}
use etcd_client.Auth.Roles.{NameRequest}

-- `options` holds the flag `no_password` of the message `UserAddOptions`.
pub record UserAddOptions : Type 0 where
  pub name : String
  pub password : String
  pub options : Option Bool

unfoldable pub new_user : UserAddOptions
new_user = record { name = ""; password = ""; options = some false }

-- the derived `Default`
unfoldable pub default_user : UserAddOptions
default_user = record { name = ""; password = ""; options = none }

unfoldable pub with_name : String → UserAddOptions → UserAddOptions
with_name name self = record self { name = name }

unfoldable pub with_pwd : String → UserAddOptions → UserAddOptions
with_pwd password self = record self { password = password }

unfoldable pub with_no_pwd : UserAddOptions → UserAddOptions
with_no_pwd self = record self { options = some true }

abbrev pub UserAddResponse : Type 0
UserAddResponse = HeaderResponse

abbrev pub UserGetOptions : Type 0
UserGetOptions = NameRequest

pub record UserGetResponse : Type 0 where
  pub header : Option ResponseHeader
  pub roles : List String

unfoldable pub user_get_take_header : UserGetResponse → UserGetResponse × Option ResponseHeader
user_get_take_header self = (record self { header = none }, self.header)

pub record UserListResponse : Type 0 where
  pub header : Option ResponseHeader
  pub users : List String

unfoldable pub user_list_take_header : UserListResponse → UserListResponse × Option ResponseHeader
user_list_take_header self = (record self { header = none }, self.header)

abbrev pub UserDeleteOptions : Type 0
UserDeleteOptions = NameRequest

abbrev pub UserDeleteResponse : Type 0
UserDeleteResponse = HeaderResponse

pub record UserChangePasswordOptions : Type 0 where
  pub name : String
  pub password : String

abbrev pub UserChangePasswordResponse : Type 0
UserChangePasswordResponse = HeaderResponse

pub record UserGrantRoleOptions : Type 0 where
  pub user : String
  pub role : String

abbrev pub UserGrantRoleResponse : Type 0
UserGrantRoleResponse = HeaderResponse

pub record UserRevokeRoleOptions : Type 0 where
  pub name : String
  pub role : String

abbrev pub UserRevokeRoleResponse : Type 0
UserRevokeRoleResponse = HeaderResponse
