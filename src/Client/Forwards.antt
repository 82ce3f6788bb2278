-- ===== src/Client/Forwards.antt =====
-- The clients that `build_client` of src/client.rs makes over one channel, and the methods of `Client`
-- that forward to them.
use etcd_client.Prelude.{ℤ, ℕ, String, Bool, Option, List}
use etcd_client.Bytes.{Bytes}
use etcd_client.Error.{Foreign, Result}
use etcd_client.Exec.{Exec}
use etcd_client.Caller.{Session, AuthService, refresh_token, update_user}
use etcd_client.Kv
use etcd_client.Kv.Put.{PutOptions}
use etcd_client.Kv.Get.{GetOptions}
use etcd_client.Kv.Delete.{DeleteOptions}
use etcd_client.Kv.Compaction.{CompactionOptions}
use etcd_client.Kv.Txn.{Txn}
use etcd_client.Kv.Client.{KvClient}
use etcd_client.Watch
use etcd_client.Watch.{WatchOptions, WatchRequest, WatchService}
use etcd_client.Lease
use etcd_client.Lease.{LeaseGrantOptions, LeaseTimeToLiveOptions, LeaseService, LeaseKeeper}
use etcd_client.Lock
use etcd_client.Lock.{LockOptions, LockService}
use etcd_client.Auth
use etcd_client.Auth.{
  RoleRevokePermissionOptions, UserAddOptions, grant_options, into_revoke_request, revoke_with_key,
  revoke_with_name, new_revoke, with_pwd, with_name, default_user,
}
use etcd_client.Auth.Client.{AuthStub}
use etcd_client.Permission.{Permission}
use etcd_client.Maintenance
use etcd_client.Maintenance.{AlarmAction, AlarmType, AlarmOptions, MaintenanceService}
use etcd_client.Cluster
use etcd_client.Cluster.{MemberAddOptions, ClusterService}
use etcd_client.Election
use etcd_client.Election.{ProclaimOptions, ResignOptions, ElectionService}
use etcd_client.Client.Members.{member_urls}
use etcd_client.Intercept.{MetadataMap}
use etcd_client.Service.{Method, Streams, Reply}
use etcd_client.Service.Channel.{Channel}
use etcd_client.Service.Stubs.{
  kv_service, watch_service, lease_service, lock_service, auth_stub, maintenance_service,
  cluster_service, election_service, authentication,
}

module _ {F : Foreign} {Token W : Type 0} (metadata : MetadataMap Token) (streams : Streams)
    (channel : Channel F metadata streams W) (leader_value : Token) (require_leader : Bool)
    (parse : String → Result F Token) (refresh : Bool) where
  -- Each client of a service is over the same channel and has the same caller.
  abbrev pub auth : AuthService F Token W
  auth = authentication metadata streams channel leader_value require_leader parse

  abbrev pub kv : KvClient F Token W
  kv = record {
    auth = auth;
    stub = kv_service metadata streams channel leader_value require_leader;
    refresh_expired_token = refresh;
  }

  abbrev pub watcher : WatchService F (Session Token W)
  watcher = watch_service metadata streams channel leader_value require_leader

  abbrev pub lease_client : LeaseService F (Session Token W)
  lease_client = lease_service metadata streams channel leader_value require_leader

  abbrev pub locks : LockService F (Session Token W)
  locks = lock_service metadata streams channel leader_value require_leader

  abbrev pub users : AuthStub F (Session Token W)
  users = auth_stub metadata streams channel leader_value require_leader

  abbrev pub maintenance : MaintenanceService F (Session Token W)
  maintenance = maintenance_service metadata streams channel leader_value require_leader

  abbrev pub cluster : ClusterService F (Session Token W)
  cluster = cluster_service metadata streams channel leader_value require_leader

  abbrev pub election : ElectionService F (Session Token W)
  election = election_service metadata streams channel leader_value require_leader

  -- `Client::lease_keep_alive`
  unfoldable pub client_lease_keep_alive :
      ℤ → Exec F (Session Token W) (LeaseKeeper lease_client.Sender × lease_client.Stream)
  client_lease_keep_alive id = Lease.keep_alive auth lease_client refresh id

  -- `Client::refresh_token` and `Client::update_user`
  unfoldable pub client_refresh_token : Exec F (Session Token W) (Unit {0})
  client_refresh_token = refresh_token auth

  unfoldable pub client_update_user : Option (String × String) → Exec F (Session Token W) (Unit {0})
  client_update_user user = update_user auth user

  unfoldable pub client_put :
      Bytes → Bytes → Option PutOptions → Exec F (Session Token W) (Reply streams Method.kv_put)
  client_put key value options = Kv.Client.put kv key value options

  unfoldable pub client_get :
      Bytes → Option GetOptions → Exec F (Session Token W) (Reply streams Method.kv_range)
  client_get key options = Kv.Client.get kv key options

  unfoldable pub client_delete :
      Bytes → Option DeleteOptions → Exec F (Session Token W) (Reply streams Method.kv_delete_range)
  client_delete key options = Kv.Client.delete kv key options

  unfoldable pub client_compact :
      ℤ → Option CompactionOptions → Exec F (Session Token W) (Reply streams Method.kv_compact)
  client_compact revision options = Kv.Client.compact kv revision options

  unfoldable pub client_txn : Txn → Exec F (Session Token W) (Reply streams Method.kv_txn)
  client_txn t = Kv.Client.txn kv t

  unfoldable pub client_watch :
      Bytes → Option WatchOptions → Exec F (Session Token W) (watcher.Sender × watcher.Stream)
  client_watch key options = Watch.watch watcher auth refresh key options

  unfoldable pub client_lease_grant :
      ℤ → Option LeaseGrantOptions → Exec F (Session Token W) (Reply streams Method.lease_grant)
  client_lease_grant ttl options = Lease.grant auth lease_client refresh ttl options

  unfoldable pub client_lease_revoke :
      ℤ → Exec F (Session Token W) (Reply streams Method.lease_revoke)
  client_lease_revoke id = Lease.revoke auth lease_client refresh id

  unfoldable pub client_lease_time_to_live :
      ℤ
      → Option LeaseTimeToLiveOptions
      → Exec F (Session Token W) (Reply streams Method.lease_time_to_live)
  client_lease_time_to_live id options = Lease.time_to_live auth lease_client refresh id options

  unfoldable pub client_leases : Exec F (Session Token W) (Reply streams Method.lease_leases)
  client_leases = Lease.leases auth lease_client refresh

  unfoldable pub client_lock :
      Bytes → Option LockOptions → Exec F (Session Token W) (Reply streams Method.lock_lock)
  client_lock name options = Lock.lock auth locks refresh name options

  unfoldable pub client_unlock : Bytes → Exec F (Session Token W) (Reply streams Method.lock_unlock)
  client_unlock key = Lock.unlock auth locks refresh key

  unfoldable pub client_auth_enable : Exec F (Session Token W) (Reply streams Method.auth_enable)
  client_auth_enable = Auth.Client.auth_enable users

  unfoldable pub client_auth_disable : Exec F (Session Token W) (Reply streams Method.auth_disable)
  client_auth_disable = Auth.Client.auth_disable users

  unfoldable pub client_role_add :
      String → Exec F (Session Token W) (Reply streams Method.auth_role_add)
  client_role_add name = Auth.Client.role_add users name

  unfoldable pub client_role_delete :
      String → Exec F (Session Token W) (Reply streams Method.auth_role_delete)
  client_role_delete name = Auth.Client.role_delete users name

  unfoldable pub client_role_get :
      String → Exec F (Session Token W) (Reply streams Method.auth_role_get)
  client_role_get name = Auth.Client.role_get users name

  unfoldable pub client_role_list : Exec F (Session Token W) (Reply streams Method.auth_role_list)
  client_role_list = Auth.Client.role_list users

  unfoldable pub client_role_grant_permission :
      String
      → Permission
      → Exec F (Session Token W) (Reply streams Method.auth_role_grant_permission)
  client_role_grant_permission name perm = Auth.Client.role_grant_permission users name perm

  unfoldable pub client_role_revoke_permission :
      String
      → Bytes
      → Option RoleRevokePermissionOptions
      → Exec F (Session Token W) (Reply streams Method.auth_role_revoke_permission)
  client_role_revoke_permission name key options =
      Auth.Client.role_revoke_permission users name key options

  unfoldable pub client_user_add :
      String
      → String
      → Option UserAddOptions
      → Exec F (Session Token W) (Reply streams Method.auth_user_add)
  client_user_add name password options = Auth.Client.user_add users name password options

  unfoldable pub client_user_get :
      String → Exec F (Session Token W) (Reply streams Method.auth_user_get)
  client_user_get name = Auth.Client.user_get users name

  unfoldable pub client_user_list : Exec F (Session Token W) (Reply streams Method.auth_user_list)
  client_user_list = Auth.Client.user_list users

  unfoldable pub client_user_delete :
      String → Exec F (Session Token W) (Reply streams Method.auth_user_delete)
  client_user_delete name = Auth.Client.user_delete users name

  unfoldable pub client_user_change_password :
      String → String → Exec F (Session Token W) (Reply streams Method.auth_user_change_password)
  client_user_change_password name password = Auth.Client.user_change_password users name password

  unfoldable pub client_user_grant_role :
      String → String → Exec F (Session Token W) (Reply streams Method.auth_user_grant_role)
  client_user_grant_role user role = Auth.Client.user_grant_role users user role

  unfoldable pub client_user_revoke_role :
      String → String → Exec F (Session Token W) (Reply streams Method.auth_user_revoke_role)
  client_user_revoke_role user role = Auth.Client.user_revoke_role users user role

  unfoldable pub client_alarm :
      AlarmAction
      → AlarmType
      → Option AlarmOptions
      → Exec F (Session Token W) (Reply streams Method.maintenance_alarm)
  client_alarm alarm_action alarm_type options =
      Maintenance.alarm auth maintenance refresh alarm_action alarm_type options

  unfoldable pub client_status : Exec F (Session Token W) (Reply streams Method.maintenance_status)
  client_status = Maintenance.status auth maintenance refresh

  unfoldable pub client_defragment :
      Exec F (Session Token W) (Reply streams Method.maintenance_defragment)
  client_defragment = Maintenance.defragment auth maintenance refresh

  unfoldable pub client_hash : Exec F (Session Token W) (Reply streams Method.maintenance_hash)
  client_hash = Maintenance.hash auth maintenance refresh

  unfoldable pub client_hash_kv :
      ℤ → Exec F (Session Token W) (Reply streams Method.maintenance_hash_kv)
  client_hash_kv revision = Maintenance.hash_kv auth maintenance refresh revision

  unfoldable pub client_snapshot :
      Exec F (Session Token W) (Reply streams Method.maintenance_snapshot)
  client_snapshot = Maintenance.snapshot auth maintenance refresh

  unfoldable pub client_move_leader :
      ℕ → Exec F (Session Token W) (Reply streams Method.maintenance_move_leader)
  client_move_leader target_id = Maintenance.move_leader auth maintenance refresh target_id

  unfoldable pub client_member_add :
      List String
      → Option MemberAddOptions
      → Exec F (Session Token W) (Reply streams Method.cluster_member_add)
  client_member_add urls options =
      Cluster.member_add auth cluster refresh (member_urls urls) options

  unfoldable pub client_member_remove :
      ℕ → Exec F (Session Token W) (Reply streams Method.cluster_member_remove)
  client_member_remove id = Cluster.member_remove auth cluster refresh id

  unfoldable pub client_member_update :
      ℕ → List String → Exec F (Session Token W) (Reply streams Method.cluster_member_update)
  client_member_update id url = Cluster.member_update auth cluster refresh id url

  unfoldable pub client_member_promote :
      ℕ → Exec F (Session Token W) (Reply streams Method.cluster_member_promote)
  client_member_promote id = Cluster.member_promote auth cluster refresh id

  unfoldable pub client_member_list :
      Exec F (Session Token W) (Reply streams Method.cluster_member_list)
  client_member_list = Cluster.member_list auth cluster refresh

  unfoldable pub client_campaign :
      Bytes → Bytes → ℤ → Exec F (Session Token W) (Reply streams Method.election_campaign)
  client_campaign name value lease_id = Election.campaign auth election refresh name value lease_id

  unfoldable pub client_proclaim :
      Bytes
      → Option ProclaimOptions
      → Exec F (Session Token W) (Reply streams Method.election_proclaim)
  client_proclaim value options = Election.proclaim auth election refresh value options

  unfoldable pub client_leader :
      Bytes → Exec F (Session Token W) (Reply streams Method.election_leader)
  client_leader name = Election.leader auth election refresh name

  unfoldable pub client_observe :
      Bytes → Exec F (Session Token W) (Reply streams Method.election_observe)
  client_observe name = Election.observe auth election refresh name

  unfoldable pub client_resign :
      Option ResignOptions → Exec F (Session Token W) (Reply streams Method.election_resign)
  client_resign option = Election.resign auth election refresh option
