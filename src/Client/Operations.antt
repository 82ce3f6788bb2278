-- ===== src/Client/Operations.antt =====
-- The methods of `Client` in src/client.rs that forward to the client of one service, as one function.
pub mod Refinement
pub mod Bounds
pub mod Recovery
pub mod Concurrent
pub mod Credentials
use etcd_client.Prelude.{ℤ, ℕ, String, Bool, true, false, Option, List}
use etcd_client.Bytes.{Bytes}
use etcd_client.Rpc.{unwrap_or}
use etcd_client.Error.{Foreign, Result}
use etcd_client.Exec.{Exec}
use etcd_client.Caller.{Session, AuthService}
use etcd_client.Kv
use etcd_client.Kv.Put
use etcd_client.Kv.Put.{PutOptions}
use etcd_client.Kv.Get
use etcd_client.Kv.Get.{GetOptions}
use etcd_client.Kv.Delete
use etcd_client.Kv.Delete.{DeleteOptions}
use etcd_client.Kv.Compaction
use etcd_client.Kv.Compaction.{CompactionOptions}
use etcd_client.Kv.Txn.{Txn}
use etcd_client.Kv.Client.{KvClient}
use etcd_client.Watch
use etcd_client.Watch.{WatchOptions, WatchRequest, WatchService}
use etcd_client.Lease
use etcd_client.Lease.{LeaseGrantOptions, LeaseTimeToLiveOptions, LeaseService}
use etcd_client.Lock
use etcd_client.Lock.{LockOptions, LockService}
use etcd_client.Auth
use etcd_client.Auth.{
  RoleRevokePermissionOptions, UserAddOptions, grant_options, into_revoke_request, revoke_with_key,
  revoke_with_name, new_revoke, with_pwd, with_name, default_user,
}
use etcd_client.Auth.Client.{AuthStub}
use etcd_client.Permission.{Permission}
use etcd_client.Maintenance
use etcd_client.Maintenance.{AlarmAction, AlarmType, AlarmOptions, MaintenanceService}
use etcd_client.Cluster
use etcd_client.Cluster.{MemberAddOptions, ClusterService}
use etcd_client.Election
use etcd_client.Election.{ProclaimOptions, ResignOptions, ElectionService}
use etcd_client.Client.Members.{member_urls}
use etcd_client.Intercept.{MetadataMap}
use etcd_client.Client.Forwards.{
  client_put, client_get, client_delete, client_compact, client_txn, client_lease_grant,
  client_lease_revoke, client_lease_time_to_live, client_leases, client_lock, client_unlock,
  client_auth_enable, client_auth_disable, client_role_add, client_role_delete, client_role_get,
  client_role_list, client_role_grant_permission, client_role_revoke_permission, client_user_add,
  client_user_get, client_user_list, client_user_delete, client_user_change_password,
  client_user_grant_role, client_user_revoke_role, client_alarm, client_status, client_defragment,
  client_hash, client_hash_kv, client_snapshot, client_move_leader, client_member_add,
  client_member_remove, client_member_update, client_member_promote, client_member_list,
  client_campaign, client_proclaim, client_leader, client_observe, client_resign,
}
use etcd_client.Service.{Method, Payload, Streams, Reply}
use etcd_client.Service.Channel.{Channel}
use etcd_client.Service.Stubs.{
  kv_service, watch_service, lease_service, lock_service, auth_stub, maintenance_service,
  cluster_service, election_service, authentication,
}
use etcd_client.Client.Requests.{
  Operation, method_of, put, get, delete, compact, txn, lease_grant, lease_revoke,
  lease_time_to_live, leases, lock, unlock, auth_enable, auth_disable, role_add, role_delete,
  role_get, role_list, role_grant_permission, role_revoke_permission, user_add, user_get, user_list,
  user_delete, user_change_password, user_grant_role, user_revoke_role, alarm, status, defragment,
  hash, hash_kv, snapshot, move_leader, member_add, member_remove, member_update, member_promote,
  member_list, campaign, proclaim, leader, observe, resign,
}

module _ {F : Foreign} {Token W : Type 0} (metadata : MetadataMap Token) (streams : Streams)
    (channel : Channel F metadata streams W) (leader_value : Token) (require_leader : Bool)
    (parse : String → Result F Token) (refresh : Bool) where
  unfoldable pub perform :
      (op : Operation) → Exec F (Session Token W) (Reply streams (method_of op))
  unfolding method_of
  perform (put key value options) =
      client_put metadata streams channel leader_value require_leader parse refresh key value
        options
  perform (get key options) =
      client_get metadata streams channel leader_value require_leader parse refresh key options
  perform (delete key options) =
      client_delete metadata streams channel leader_value require_leader parse refresh key options
  perform (compact revision options) =
      client_compact metadata streams channel leader_value require_leader parse refresh revision
        options
  perform (txn t) = client_txn metadata streams channel leader_value require_leader parse refresh t
  perform (lease_grant ttl options) =
      client_lease_grant metadata streams channel leader_value require_leader parse refresh ttl
        options
  perform (lease_revoke id) =
      client_lease_revoke metadata streams channel leader_value require_leader parse refresh id
  perform (lease_time_to_live id options) =
      client_lease_time_to_live metadata streams channel leader_value require_leader parse refresh
        id options
  perform leases = client_leases metadata streams channel leader_value require_leader parse refresh
  perform (lock name options) =
      client_lock metadata streams channel leader_value require_leader parse refresh name options
  perform (unlock key) =
      client_unlock metadata streams channel leader_value require_leader parse refresh key
  perform auth_enable =
      client_auth_enable metadata streams channel leader_value require_leader parse refresh
  perform auth_disable =
      client_auth_disable metadata streams channel leader_value require_leader parse refresh
  perform (role_add name) =
      client_role_add metadata streams channel leader_value require_leader parse refresh name
  perform (role_delete name) =
      client_role_delete metadata streams channel leader_value require_leader parse refresh name
  perform (role_get name) =
      client_role_get metadata streams channel leader_value require_leader parse refresh name
  perform role_list =
      client_role_list metadata streams channel leader_value require_leader parse refresh
  perform (role_grant_permission name perm) =
      client_role_grant_permission metadata streams channel leader_value require_leader parse
        refresh name perm
  perform (role_revoke_permission name key options) =
      client_role_revoke_permission metadata streams channel leader_value require_leader parse
        refresh name key options
  perform (user_add name password options) =
      client_user_add metadata streams channel leader_value require_leader parse refresh name
        password options
  perform (user_get name) =
      client_user_get metadata streams channel leader_value require_leader parse refresh name
  perform user_list =
      client_user_list metadata streams channel leader_value require_leader parse refresh
  perform (user_delete name) =
      client_user_delete metadata streams channel leader_value require_leader parse refresh name
  perform (user_change_password name password) =
      client_user_change_password metadata streams channel leader_value require_leader parse refresh
        name password
  perform (user_grant_role user role) =
      client_user_grant_role metadata streams channel leader_value require_leader parse refresh user
        role
  perform (user_revoke_role user role) =
      client_user_revoke_role metadata streams channel leader_value require_leader parse refresh
        user role
  perform (alarm alarm_action alarm_type options) =
      client_alarm metadata streams channel leader_value require_leader parse refresh alarm_action
        alarm_type options
  perform status = client_status metadata streams channel leader_value require_leader parse refresh
  perform defragment =
      client_defragment metadata streams channel leader_value require_leader parse refresh
  perform hash = client_hash metadata streams channel leader_value require_leader parse refresh
  perform (hash_kv revision) =
      client_hash_kv metadata streams channel leader_value require_leader parse refresh revision
  perform snapshot =
      client_snapshot metadata streams channel leader_value require_leader parse refresh
  perform (move_leader target_id) =
      client_move_leader metadata streams channel leader_value require_leader parse refresh
        target_id
  perform (member_add urls options) =
      client_member_add metadata streams channel leader_value require_leader parse refresh urls
        options
  perform (member_remove id) =
      client_member_remove metadata streams channel leader_value require_leader parse refresh id
  perform (member_update id url) =
      client_member_update metadata streams channel leader_value require_leader parse refresh id url
  perform (member_promote id) =
      client_member_promote metadata streams channel leader_value require_leader parse refresh id
  perform member_list =
      client_member_list metadata streams channel leader_value require_leader parse refresh
  perform (campaign name value lease_id) =
      client_campaign metadata streams channel leader_value require_leader parse refresh name value
        lease_id
  perform (proclaim value options) =
      client_proclaim metadata streams channel leader_value require_leader parse refresh value
        options
  perform (leader name) =
      client_leader metadata streams channel leader_value require_leader parse refresh name
  perform (observe name) =
      client_observe metadata streams channel leader_value require_leader parse refresh name
  perform (resign option) =
      client_resign metadata streams channel leader_value require_leader parse refresh option
