-- ===== src/Auth/Client.antt =====
-- `AuthClient` of src/rpc/auth.rs, and the authentication that the other clients use.
use etcd_client.Prelude.{String, Option}
use etcd_client.Bytes.{Bytes}
use etcd_client.Rpc.{unwrap_or}
use etcd_client.Error.{Foreign, Result}
use etcd_client.Exec.{Exec, pure, ◌>>=◌}
use etcd_client.Caller.{Session, AuthService}
use etcd_client.Kv.Client.{Unary, unary}
use etcd_client.Permission.{Permission}
use etcd_client.Auth.Messages.{
  AuthEnableOptions, AuthEnableResponse, AuthDisableOptions, AuthDisableResponse,
  AuthenticateOptions, AuthenticateResponse, new_authenticate, authenticate_with_user,
}
use etcd_client.Auth.Roles.{
  RoleAddOptions, RoleAddResponse, RoleDeleteOptions, RoleDeleteResponse, RoleGetOptions,
  RoleGetResponse, RoleListResponse, RoleGrantPermissionOptions, grant_options,
  RoleGrantPermissionResponse, PbRevokeRequest, RoleRevokePermissionOptions, new_revoke,
  revoke_with_name, revoke_with_key, into_revoke_request, RoleRevokePermissionResponse,
}
use etcd_client.Auth.Users.{
  UserAddOptions, default_user, with_name, with_pwd, UserAddResponse, UserGetOptions,
  UserGetResponse, UserListResponse, UserDeleteOptions, UserDeleteResponse,
  UserChangePasswordOptions, UserChangePasswordResponse, UserGrantRoleOptions,
  UserGrantRoleResponse, UserRevokeRoleOptions, UserRevokeRoleResponse,
}

-- The methods of the stub.
pub record AuthStub (F : Foreign) (S : Type 0) : Type 0 where
  pub auth_enable : Unary F S AuthEnableOptions AuthEnableResponse
  pub auth_disable : Unary F S AuthDisableOptions AuthDisableResponse
  pub authenticate : Unary F S AuthenticateOptions AuthenticateResponse
  pub role_add : Unary F S RoleAddOptions RoleAddResponse
  pub role_delete : Unary F S RoleDeleteOptions RoleDeleteResponse
  pub role_get : Unary F S RoleGetOptions RoleGetResponse
  pub role_list : Unary F S (Unit {0}) RoleListResponse
  pub role_grant_permission : Unary F S RoleGrantPermissionOptions RoleGrantPermissionResponse
  pub role_revoke_permission : Unary F S PbRevokeRequest RoleRevokePermissionResponse
  pub user_add : Unary F S UserAddOptions UserAddResponse
  pub user_get : Unary F S UserGetOptions UserGetResponse
  pub user_list : Unary F S (Unit {0}) UserListResponse
  pub user_delete : Unary F S UserDeleteOptions UserDeleteResponse
  pub user_change_password : Unary F S UserChangePasswordOptions UserChangePasswordResponse
  pub user_grant_role : Unary F S UserGrantRoleOptions UserGrantRoleResponse
  pub user_revoke_role : Unary F S UserRevokeRoleOptions UserRevokeRoleResponse

module _ {F : Foreign} {S : Type 0} (stub : AuthStub F S) where
  unfoldable pub auth_enable : Exec F S AuthEnableResponse
  auth_enable = unary stub.auth_enable tt

  unfoldable pub auth_disable : Exec F S AuthDisableResponse
  auth_disable = unary stub.auth_disable tt

  unfoldable pub authenticate : String → String → Exec F S AuthenticateResponse
  unfolding authenticate_with_user
  authenticate name password =
      unary stub.authenticate (authenticate_with_user name password new_authenticate)

  unfoldable pub role_add : String → Exec F S RoleAddResponse
  role_add name = unary stub.role_add (record { name = name })

  unfoldable pub role_delete : String → Exec F S RoleDeleteResponse
  role_delete name = unary stub.role_delete (record { name = name })

  unfoldable pub role_get : String → Exec F S RoleGetResponse
  role_get name = unary stub.role_get (record { name = name })

  unfoldable pub role_list : Exec F S RoleListResponse
  role_list = unary stub.role_list tt

  unfoldable pub role_grant_permission : String → Permission → Exec F S RoleGrantPermissionResponse
  role_grant_permission name perm = unary stub.role_grant_permission (grant_options name perm)

  unfoldable pub role_revoke_permission :
      String → Bytes → Option RoleRevokePermissionOptions → Exec F S RoleRevokePermissionResponse
  role_revoke_permission name key options = unary stub.role_revoke_permission (
      into_revoke_request
        (revoke_with_key key (revoke_with_name name (unwrap_or new_revoke options))))

  unfoldable pub user_add : String → String → Option UserAddOptions → Exec F S UserAddResponse
  user_add name password options =
      unary stub.user_add (with_pwd password (with_name name (unwrap_or default_user options)))

  unfoldable pub user_get : String → Exec F S UserGetResponse
  user_get name = unary stub.user_get (record { name = name })

  unfoldable pub user_list : Exec F S UserListResponse
  user_list = unary stub.user_list tt

  unfoldable pub user_delete : String → Exec F S UserDeleteResponse
  user_delete name = unary stub.user_delete (record { name = name })

  unfoldable pub user_change_password : String → String → Exec F S UserChangePasswordResponse
  user_change_password name password =
      unary stub.user_change_password (record { name = name; password = password })

  unfoldable pub user_grant_role : String → String → Exec F S UserGrantRoleResponse
  user_grant_role name role = unary stub.user_grant_role (record { user = name; role = role })

  unfoldable pub user_revoke_role : String → String → Exec F S UserRevokeRoleResponse
  user_revoke_role name role = unary stub.user_revoke_role (record { name = name; role = role })

-- What `ClientCaller::do_authenticate` asks of this client: the token of the response.
abbrev pub auth_service :
    {F : Foreign} {Token W : Type 0} (stub : AuthStub F (Session Token W))
    → (String → Result F Token)
    → AuthService F Token W
auth_service stub parse = record {
  authenticate = λ user password. authenticate stub user password >>= λ resp. pure resp.token;
  parse = parse;
}
