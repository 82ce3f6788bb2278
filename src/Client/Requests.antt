-- ===== src/Client/Requests.antt =====
-- The methods of `Client` in src/client.rs that forward to the client of one service, as data: which
-- method of etcd each calls, with what request.
use etcd_client.Prelude.{ℤ, ℕ, String, Option, List}
use etcd_client.Bytes.{Bytes}
use etcd_client.Rpc.{unwrap_or}
use etcd_client.Kv.Put
use etcd_client.Kv.Put.{PutOptions}
use etcd_client.Kv.Get
use etcd_client.Kv.Get.{GetOptions}
use etcd_client.Kv.Delete
use etcd_client.Kv.Delete.{DeleteOptions}
use etcd_client.Kv.Compaction
use etcd_client.Kv.Compaction.{CompactionOptions}
use etcd_client.Kv.Txn.{Txn}
use etcd_client.Lease
use etcd_client.Lease.{LeaseGrantOptions, LeaseTimeToLiveOptions, LeaseService}
use etcd_client.Lock
use etcd_client.Lock.{LockOptions, LockService}
use etcd_client.Auth.{
  RoleRevokePermissionOptions, UserAddOptions, grant_options, into_revoke_request, revoke_with_key,
  revoke_with_name, new_revoke, with_pwd, with_name, default_user,
}
use etcd_client.Permission.{Permission}
use etcd_client.Maintenance
use etcd_client.Maintenance.{AlarmAction, AlarmType, AlarmOptions, MaintenanceService}
use etcd_client.Cluster
use etcd_client.Cluster.{MemberAddOptions, ClusterService}
use etcd_client.Election
use etcd_client.Election.{ProclaimOptions, ResignOptions, ElectionService}
use etcd_client.Client.Members.{member_urls}
use etcd_client.Service.{Method, Payload}

-- The operations with their arguments; `watch` and `lease_keep_alive`, which open a channel of requests, are left to
-- Lease.antt.
pub data Operation : Type 0 where
  put : (key : Bytes) → (value : Bytes) → (options : Option PutOptions) → Operation
  get : (key : Bytes) → (options : Option GetOptions) → Operation
  delete : (key : Bytes) → (options : Option DeleteOptions) → Operation
  compact : (revision : ℤ) → (options : Option CompactionOptions) → Operation
  txn : (t : Txn) → Operation
  lease_grant : (ttl : ℤ) → (options : Option LeaseGrantOptions) → Operation
  lease_revoke : (id : ℤ) → Operation
  lease_time_to_live : (id : ℤ) → (options : Option LeaseTimeToLiveOptions) → Operation
  leases : Operation
  lock : (name : Bytes) → (options : Option LockOptions) → Operation
  unlock : (key : Bytes) → Operation
  auth_enable : Operation
  auth_disable : Operation
  role_add : (name : String) → Operation
  role_delete : (name : String) → Operation
  role_get : (name : String) → Operation
  role_list : Operation
  role_grant_permission : (name : String) → (perm : Permission) → Operation
  role_revoke_permission :
      (name : String) → (key : Bytes) → (options : Option RoleRevokePermissionOptions) → Operation
  user_add : (name : String) → (password : String) → (options : Option UserAddOptions) → Operation
  user_get : (name : String) → Operation
  user_list : Operation
  user_delete : (name : String) → Operation
  user_change_password : (name : String) → (password : String) → Operation
  user_grant_role : (user : String) → (role : String) → Operation
  user_revoke_role : (user : String) → (role : String) → Operation
  alarm :
      (alarm_action : AlarmAction)
      → (alarm_type : AlarmType) → (options : Option AlarmOptions) → Operation
  status : Operation
  defragment : Operation
  hash : Operation
  hash_kv : (revision : ℤ) → Operation
  snapshot : Operation
  move_leader : (target_id : ℕ) → Operation
  member_add : (urls : List String) → (options : Option MemberAddOptions) → Operation
  member_remove : (id : ℕ) → Operation
  member_update : (id : ℕ) → (url : List String) → Operation
  member_promote : (id : ℕ) → Operation
  member_list : Operation
  campaign : (name : Bytes) → (value : Bytes) → (lease_id : ℤ) → Operation
  proclaim : (value : Bytes) → (options : Option ProclaimOptions) → Operation
  leader : (name : Bytes) → Operation
  observe : (name : Bytes) → Operation
  resign : (option : Option ResignOptions) → Operation

unfoldable pub method_of : Operation → Method
method_of (put _ _ _) = Method.kv_put
method_of (get _ _) = Method.kv_range
method_of (delete _ _) = Method.kv_delete_range
method_of (compact _ _) = Method.kv_compact
method_of (txn _) = Method.kv_txn
method_of (lease_grant _ _) = Method.lease_grant
method_of (lease_revoke _) = Method.lease_revoke
method_of (lease_time_to_live _ _) = Method.lease_time_to_live
method_of leases = Method.lease_leases
method_of (lock _ _) = Method.lock_lock
method_of (unlock _) = Method.lock_unlock
method_of auth_enable = Method.auth_enable
method_of auth_disable = Method.auth_disable
method_of (role_add _) = Method.auth_role_add
method_of (role_delete _) = Method.auth_role_delete
method_of (role_get _) = Method.auth_role_get
method_of role_list = Method.auth_role_list
method_of (role_grant_permission _ _) = Method.auth_role_grant_permission
method_of (role_revoke_permission _ _ _) = Method.auth_role_revoke_permission
method_of (user_add _ _ _) = Method.auth_user_add
method_of (user_get _) = Method.auth_user_get
method_of user_list = Method.auth_user_list
method_of (user_delete _) = Method.auth_user_delete
method_of (user_change_password _ _) = Method.auth_user_change_password
method_of (user_grant_role _ _) = Method.auth_user_grant_role
method_of (user_revoke_role _ _) = Method.auth_user_revoke_role
method_of (alarm _ _ _) = Method.maintenance_alarm
method_of status = Method.maintenance_status
method_of defragment = Method.maintenance_defragment
method_of hash = Method.maintenance_hash
method_of (hash_kv _) = Method.maintenance_hash_kv
method_of snapshot = Method.maintenance_snapshot
method_of (move_leader _) = Method.maintenance_move_leader
method_of (member_add _ _) = Method.cluster_member_add
method_of (member_remove _) = Method.cluster_member_remove
method_of (member_update _ _) = Method.cluster_member_update
method_of (member_promote _) = Method.cluster_member_promote
method_of member_list = Method.cluster_member_list
method_of (campaign _ _ _) = Method.election_campaign
method_of (proclaim _ _) = Method.election_proclaim
method_of (leader _) = Method.election_leader
method_of (observe _) = Method.election_observe
method_of (resign _) = Method.election_resign

-- The request that goes to the stub.
unfoldable pub payload_of : (op : Operation) → Payload (method_of op)
unfolding method_of
payload_of (put key value options) = Put.with_kv key value (unwrap_or Put.new options)
payload_of (get key options) = Get.into_request (Get.with_key key (unwrap_or Get.new options))
payload_of (delete key options) =
    Delete.into_request (Delete.with_key key (unwrap_or Delete.new options))
payload_of (compact revision options) =
    Compaction.with_revision revision (unwrap_or Compaction.new options)
payload_of (txn t) = t.req
payload_of (lease_grant ttl options) = Lease.with_ttl ttl (unwrap_or Lease.new_grant options)
payload_of (lease_revoke id) = record { id = id }
payload_of (lease_time_to_live id options) =
    Lease.with_lease_id id (unwrap_or Lease.new_time_to_live options)
payload_of leases = tt
payload_of (lock name options) = Lock.lock_with_name name (unwrap_or Lock.new_lock options)
payload_of (unlock key) = Lock.unlock_with_key key Lock.new_unlock
payload_of auth_enable = tt
payload_of auth_disable = tt
payload_of (role_add name) = record { name = name }
payload_of (role_delete name) = record { name = name }
payload_of (role_get name) = record { name = name }
payload_of role_list = tt
payload_of (role_grant_permission name perm) = grant_options name perm
payload_of (role_revoke_permission name key options) =
    into_revoke_request (revoke_with_key key (revoke_with_name name (unwrap_or new_revoke options)))
payload_of (user_add name password options) =
    with_pwd password (with_name name (unwrap_or default_user options))
payload_of (user_get name) = record { name = name }
payload_of user_list = tt
payload_of (user_delete name) = record { name = name }
payload_of (user_change_password name password) = record { name = name; password = password }
payload_of (user_grant_role user role) = record { user = user; role = role }
payload_of (user_revoke_role user role) = record { name = user; role = role }
payload_of (alarm alarm_action alarm_type options) =
    Maintenance.with_action_and_type alarm_action alarm_type
      (unwrap_or Maintenance.new_alarm options)
payload_of status = tt
payload_of defragment = tt
payload_of hash = tt
payload_of (hash_kv revision) = record { revision = revision }
payload_of snapshot = tt
payload_of (move_leader target_id) =
    Maintenance.with_target_id target_id Maintenance.new_move_leader
payload_of (member_add urls options) =
    Cluster.with_urls (member_urls urls) (unwrap_or Cluster.new_member_add options)
payload_of (member_remove id) = Cluster.remove_with_id id Cluster.new_member_remove
payload_of (member_update id url) = Cluster.with_option id url Cluster.new_member_update
payload_of (member_promote id) = Cluster.promote_with_id id Cluster.new_member_promote
payload_of member_list = tt
payload_of (campaign name value lease_id) =
    Election.campaign_with_lease lease_id
      (Election.campaign_with_value value (Election.campaign_with_name name Election.new_campaign))
payload_of (proclaim value options) =
    Election.proclaim_with_value value (unwrap_or Election.new_proclaim options)
payload_of (leader name) = Election.leader_with_name name Election.new_leader
payload_of (observe name) = Election.leader_with_name name Election.new_leader
payload_of (resign option) = unwrap_or Election.new_resign option
