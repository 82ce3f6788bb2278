-- ===== src/Service/Methods.antt =====
-- The methods of the etcd services, as src/proto declares them, with the requests that this client
-- sends and the responses that it reads.
use etcd_client.Prelude.{ℕ, String, Bool, true, false}
use etcd_client.Kv.Put.{PutOptions, PutResponse}
use etcd_client.Kv.Get.{PbRangeRequest, GetResponse}
use etcd_client.Kv.Delete.{PbDeleteRequest, DeleteResponse}
use etcd_client.Kv.Compaction.{CompactionOptions, CompactionResponse}
use etcd_client.Kv.Txn.{PbTxnRequest, TxnResponse}
use etcd_client.Lease.{
  LeaseGrantOptions, LeaseGrantResponse, LeaseIdRequest, LeaseRevokeResponse,
  LeaseTimeToLiveOptions, LeaseTimeToLiveResponse, LeaseLeasesResponse,
}
use etcd_client.Lock.{LockOptions, LockResponse, UnlockOptions, UnlockResponse}
use etcd_client.Auth.{
  AuthEnableOptions, AuthEnableResponse, AuthDisableOptions, AuthDisableResponse,
  AuthenticateOptions, AuthenticateResponse, RoleAddOptions, RoleAddResponse, RoleDeleteOptions,
  RoleDeleteResponse, RoleGetOptions, RoleGetResponse, RoleListResponse, RoleGrantPermissionOptions,
  RoleGrantPermissionResponse, PbRevokeRequest, RoleRevokePermissionResponse, UserAddOptions,
  UserAddResponse, UserGetOptions, UserGetResponse, UserListResponse, UserDeleteOptions,
  UserDeleteResponse, UserChangePasswordOptions, UserChangePasswordResponse, UserGrantRoleOptions,
  UserGrantRoleResponse, UserRevokeRoleOptions, UserRevokeRoleResponse,
}
use etcd_client.Maintenance.{
  AlarmOptions, AlarmResponse, StatusResponse, DefragmentResponse, HashResponse, HashKvOptions,
  HashKvResponse, MoveLeaderOptions, MoveLeaderResponse,
}
use etcd_client.Cluster.{
  MemberAddOptions, MemberAddResponse, MemberRemoveOptions, MemberRemoveResponse,
  MemberUpdateOptions, MemberUpdateResponse, MemberListResponse, MemberPromoteOptions,
  MemberPromoteResponse,
}
use etcd_client.Election.{
  CampaignOptions, CampaignResponse, ProclaimOptions, ProclaimResponse, LeaderOptions,
  LeaderResponse, ResignOptions, ResignResponse,
}

pub data Method : Type 0 where
  kv_put kv_range kv_delete_range kv_compact kv_txn : Method
  watch_watch : Method
  lease_grant lease_revoke lease_keep_alive lease_time_to_live lease_leases : Method
  lock_lock lock_unlock : Method
  auth_enable auth_disable auth_authenticate auth_role_add auth_role_delete auth_role_get : Method
  auth_role_list auth_role_grant_permission auth_role_revoke_permission auth_user_add : Method
  auth_user_get auth_user_list auth_user_delete auth_user_change_password : Method
  auth_user_grant_role auth_user_revoke_role : Method
  maintenance_alarm maintenance_status maintenance_defragment maintenance_hash : Method
  maintenance_hash_kv maintenance_snapshot maintenance_move_leader : Method
  cluster_member_add cluster_member_remove cluster_member_update cluster_member_list : Method
  cluster_member_promote : Method
  election_campaign election_proclaim election_leader election_observe election_resign : Method

-- The service and the method of the extension `GrpcMethod`, which the generated stub sets.
unfoldable pub path : Method → String × String
path kv_put = ("etcdserverpb.KV", "Put")
path kv_range = ("etcdserverpb.KV", "Range")
path kv_delete_range = ("etcdserverpb.KV", "DeleteRange")
path kv_compact = ("etcdserverpb.KV", "Compact")
path kv_txn = ("etcdserverpb.KV", "Txn")
path watch_watch = ("etcdserverpb.Watch", "Watch")
path lease_grant = ("etcdserverpb.Lease", "LeaseGrant")
path lease_revoke = ("etcdserverpb.Lease", "LeaseRevoke")
path lease_keep_alive = ("etcdserverpb.Lease", "LeaseKeepAlive")
path lease_time_to_live = ("etcdserverpb.Lease", "LeaseTimeToLive")
path lease_leases = ("etcdserverpb.Lease", "LeaseLeases")
path lock_lock = ("v3lockpb.Lock", "Lock")
path lock_unlock = ("v3lockpb.Lock", "Unlock")
path auth_enable = ("etcdserverpb.Auth", "AuthEnable")
path auth_disable = ("etcdserverpb.Auth", "AuthDisable")
path auth_authenticate = ("etcdserverpb.Auth", "Authenticate")
path auth_role_add = ("etcdserverpb.Auth", "RoleAdd")
path auth_role_delete = ("etcdserverpb.Auth", "RoleDelete")
path auth_role_get = ("etcdserverpb.Auth", "RoleGet")
path auth_role_list = ("etcdserverpb.Auth", "RoleList")
path auth_role_grant_permission = ("etcdserverpb.Auth", "RoleGrantPermission")
path auth_role_revoke_permission = ("etcdserverpb.Auth", "RoleRevokePermission")
path auth_user_add = ("etcdserverpb.Auth", "UserAdd")
path auth_user_get = ("etcdserverpb.Auth", "UserGet")
path auth_user_list = ("etcdserverpb.Auth", "UserList")
path auth_user_delete = ("etcdserverpb.Auth", "UserDelete")
path auth_user_change_password = ("etcdserverpb.Auth", "UserChangePassword")
path auth_user_grant_role = ("etcdserverpb.Auth", "UserGrantRole")
path auth_user_revoke_role = ("etcdserverpb.Auth", "UserRevokeRole")
path maintenance_alarm = ("etcdserverpb.Maintenance", "Alarm")
path maintenance_status = ("etcdserverpb.Maintenance", "Status")
path maintenance_defragment = ("etcdserverpb.Maintenance", "Defragment")
path maintenance_hash = ("etcdserverpb.Maintenance", "Hash")
path maintenance_hash_kv = ("etcdserverpb.Maintenance", "HashKV")
path maintenance_snapshot = ("etcdserverpb.Maintenance", "Snapshot")
path maintenance_move_leader = ("etcdserverpb.Maintenance", "MoveLeader")
path cluster_member_add = ("etcdserverpb.Cluster", "MemberAdd")
path cluster_member_remove = ("etcdserverpb.Cluster", "MemberRemove")
path cluster_member_update = ("etcdserverpb.Cluster", "MemberUpdate")
path cluster_member_list = ("etcdserverpb.Cluster", "MemberList")
path cluster_member_promote = ("etcdserverpb.Cluster", "MemberPromote")
path election_campaign = ("v3electionpb.Election", "Campaign")
path election_proclaim = ("v3electionpb.Election", "Proclaim")
path election_leader = ("v3electionpb.Election", "Leader")
path election_observe = ("v3electionpb.Election", "Observe")
path election_resign = ("v3electionpb.Election", "Resign")

-- The request that the stub is given; a stream of requests is the number of the channel behind it.
abbrev pub Payload : Method → Type 0
Payload kv_put = PutOptions
Payload kv_range = PbRangeRequest
Payload kv_delete_range = PbDeleteRequest
Payload kv_compact = CompactionOptions
Payload kv_txn = PbTxnRequest
Payload watch_watch = ℕ
Payload lease_grant = LeaseGrantOptions
Payload lease_revoke = LeaseIdRequest
Payload lease_keep_alive = ℕ
Payload lease_time_to_live = LeaseTimeToLiveOptions
Payload lease_leases = Unit
Payload lock_lock = LockOptions
Payload lock_unlock = UnlockOptions
Payload auth_enable = AuthEnableOptions
Payload auth_disable = AuthDisableOptions
Payload auth_authenticate = AuthenticateOptions
Payload auth_role_add = RoleAddOptions
Payload auth_role_delete = RoleDeleteOptions
Payload auth_role_get = RoleGetOptions
Payload auth_role_list = Unit
Payload auth_role_grant_permission = RoleGrantPermissionOptions
Payload auth_role_revoke_permission = PbRevokeRequest
Payload auth_user_add = UserAddOptions
Payload auth_user_get = UserGetOptions
Payload auth_user_list = Unit
Payload auth_user_delete = UserDeleteOptions
Payload auth_user_change_password = UserChangePasswordOptions
Payload auth_user_grant_role = UserGrantRoleOptions
Payload auth_user_revoke_role = UserRevokeRoleOptions
Payload maintenance_alarm = AlarmOptions
Payload maintenance_status = Unit
Payload maintenance_defragment = Unit
Payload maintenance_hash = Unit
Payload maintenance_hash_kv = HashKvOptions
Payload maintenance_snapshot = Unit
Payload maintenance_move_leader = MoveLeaderOptions
Payload cluster_member_add = MemberAddOptions
Payload cluster_member_remove = MemberRemoveOptions
Payload cluster_member_update = MemberUpdateOptions
Payload cluster_member_list = Unit
Payload cluster_member_promote = MemberPromoteOptions
Payload election_campaign = CampaignOptions
Payload election_proclaim = ProclaimOptions
Payload election_leader = LeaderOptions
Payload election_observe = LeaderOptions
Payload election_resign = ResignOptions

-- The two ends of the streams that calls open.
pub record Streams : Type 1 where
  pub WatchSender : Type 0
  pub WatchStream : Type 0
  pub LeaseSender : Type 0
  pub LeaseStream : Type 0
  pub SnapshotStream : Type 0
  pub ObserveStream : Type 0

abbrev pub Reply : Streams → Method → Type 0
Reply streams kv_put = PutResponse
Reply streams kv_range = GetResponse
Reply streams kv_delete_range = DeleteResponse
Reply streams kv_compact = CompactionResponse
Reply streams kv_txn = TxnResponse
Reply streams watch_watch = streams.WatchStream
Reply streams lease_grant = LeaseGrantResponse
Reply streams lease_revoke = LeaseRevokeResponse
Reply streams lease_keep_alive = streams.LeaseStream
Reply streams lease_time_to_live = LeaseTimeToLiveResponse
Reply streams lease_leases = LeaseLeasesResponse
Reply streams lock_lock = LockResponse
Reply streams lock_unlock = UnlockResponse
Reply streams auth_enable = AuthEnableResponse
Reply streams auth_disable = AuthDisableResponse
Reply streams auth_authenticate = AuthenticateResponse
Reply streams auth_role_add = RoleAddResponse
Reply streams auth_role_delete = RoleDeleteResponse
Reply streams auth_role_get = RoleGetResponse
Reply streams auth_role_list = RoleListResponse
Reply streams auth_role_grant_permission = RoleGrantPermissionResponse
Reply streams auth_role_revoke_permission = RoleRevokePermissionResponse
Reply streams auth_user_add = UserAddResponse
Reply streams auth_user_get = UserGetResponse
Reply streams auth_user_list = UserListResponse
Reply streams auth_user_delete = UserDeleteResponse
Reply streams auth_user_change_password = UserChangePasswordResponse
Reply streams auth_user_grant_role = UserGrantRoleResponse
Reply streams auth_user_revoke_role = UserRevokeRoleResponse
Reply streams maintenance_alarm = AlarmResponse
Reply streams maintenance_status = StatusResponse
Reply streams maintenance_defragment = DefragmentResponse
Reply streams maintenance_hash = HashResponse
Reply streams maintenance_hash_kv = HashKvResponse
Reply streams maintenance_snapshot = streams.SnapshotStream
Reply streams maintenance_move_leader = MoveLeaderResponse
Reply streams cluster_member_add = MemberAddResponse
Reply streams cluster_member_remove = MemberRemoveResponse
Reply streams cluster_member_update = MemberUpdateResponse
Reply streams cluster_member_list = MemberListResponse
Reply streams cluster_member_promote = MemberPromoteResponse
Reply streams election_campaign = CampaignResponse
Reply streams election_proclaim = ProclaimResponse
Reply streams election_leader = LeaderResponse
Reply streams election_observe = streams.ObserveStream
Reply streams election_resign = ResignResponse

-- The methods that are called without a token.
abbrev pub is_open : Method → Bool
is_open auth_authenticate = true
is_open cluster_member_list = true
is_open _ = false
