-- ===== src/Service/Stubs.antt =====
-- The stubs of the services over one intercepted channel, and the authentication over it.
use etcd_client.Prelude.{ℕ, String, Bool}
use etcd_client.Error.{Foreign, Result}
use etcd_client.Intercept.{MetadataMap}
use etcd_client.Caller.{Session, AuthService}
use etcd_client.Kv.Client.{Unary, KvService}
use etcd_client.Watch.{WatchService}
use etcd_client.Lease.{LeaseService}
use etcd_client.Lock.{LockService}
use etcd_client.Auth.Client.{AuthStub, auth_service}
use etcd_client.Maintenance.{MaintenanceService}
use etcd_client.Cluster.{ClusterService}
use etcd_client.Election.{ElectionService}
use etcd_client.Service.Methods.{
  Method, Payload, Streams, Reply, kv_put, kv_range, kv_delete_range, kv_compact, kv_txn,
  watch_watch, lease_grant, lease_revoke, lease_keep_alive, lease_time_to_live, lease_leases,
  lock_lock, lock_unlock, auth_enable, auth_disable, auth_authenticate, auth_role_add,
  auth_role_delete, auth_role_get, auth_role_list, auth_role_grant_permission,
  auth_role_revoke_permission, auth_user_add, auth_user_get, auth_user_list, auth_user_delete,
  auth_user_change_password, auth_user_grant_role, auth_user_revoke_role, maintenance_alarm,
  maintenance_status, maintenance_defragment, maintenance_hash, maintenance_hash_kv,
  maintenance_snapshot, maintenance_move_leader, cluster_member_add, cluster_member_remove,
  cluster_member_update, cluster_member_list, cluster_member_promote, election_campaign,
  election_proclaim, election_leader, election_observe, election_resign,
}
use etcd_client.Service.Channel.{Channel, invoke}

-- An operation on the world, in a session.
abbrev on_world : {Token W A : Type 0} → (W → A × W) → Session Token W → A × Session Token W
on_world f s = let (a, w) = f s.world in (a, record s { world = w })

module _ {F : Foreign} {Token W : Type 0} (metadata : MetadataMap Token) (streams : Streams)
    (channel : Channel F metadata streams W) (leader_value : Token) (require_leader : Bool) where
  abbrev pub stub_call : (m : Method) → Unary F (Session Token W) (Payload m) (Reply streams m)
  stub_call = invoke metadata streams channel leader_value require_leader

  abbrev pub kv_service : KvService F (Session Token W)
  kv_service = record {
    put = stub_call kv_put;
    range = stub_call kv_range;
    delete_range = stub_call kv_delete_range;
    compact = stub_call kv_compact;
    txn = stub_call kv_txn;
  }

  abbrev pub watch_service : WatchService F (Session Token W)
  watch_service = record {
    Sender = streams.WatchSender;
    Receiver = ℕ;
    Stream = streams.WatchStream;
    channel = λ size. on_world (channel.watch_channel size);
    watch = stub_call watch_watch;
    send = λ sender req. on_world (channel.watch_send sender req);
    message = λ stream. on_world (channel.watch_message stream);
  }

  abbrev pub lease_service : LeaseService F (Session Token W)
  lease_service = record {
    Sender = streams.LeaseSender;
    Receiver = ℕ;
    Stream = streams.LeaseStream;
    channel = λ size. on_world (channel.lease_channel size);
    lease_grant = stub_call lease_grant;
    lease_revoke = stub_call lease_revoke;
    lease_keep_alive = stub_call lease_keep_alive;
    lease_time_to_live = stub_call lease_time_to_live;
    lease_leases = stub_call lease_leases;
    message = λ stream. on_world (channel.lease_message stream);
    send = λ sender req. on_world (channel.lease_send sender req);
  }

  abbrev pub lock_service : LockService F (Session Token W)
  lock_service = record { lock = stub_call lock_lock; unlock = stub_call lock_unlock }

  abbrev pub auth_stub : AuthStub F (Session Token W)
  auth_stub = record {
    auth_enable = stub_call auth_enable;
    auth_disable = stub_call auth_disable;
    authenticate = stub_call auth_authenticate;
    role_add = stub_call auth_role_add;
    role_delete = stub_call auth_role_delete;
    role_get = stub_call auth_role_get;
    role_list = stub_call auth_role_list;
    role_grant_permission = stub_call auth_role_grant_permission;
    role_revoke_permission = stub_call auth_role_revoke_permission;
    user_add = stub_call auth_user_add;
    user_get = stub_call auth_user_get;
    user_list = stub_call auth_user_list;
    user_delete = stub_call auth_user_delete;
    user_change_password = stub_call auth_user_change_password;
    user_grant_role = stub_call auth_user_grant_role;
    user_revoke_role = stub_call auth_user_revoke_role;
  }

  abbrev pub maintenance_service : MaintenanceService F (Session Token W)
  maintenance_service = record {
    Stream = streams.SnapshotStream;
    alarm = stub_call maintenance_alarm;
    status = stub_call maintenance_status;
    defragment = stub_call maintenance_defragment;
    hash = stub_call maintenance_hash;
    hash_kv = stub_call maintenance_hash_kv;
    snapshot = stub_call maintenance_snapshot;
    move_leader = stub_call maintenance_move_leader;
    message = λ stream. on_world (channel.snapshot_message stream);
  }

  abbrev pub cluster_service : ClusterService F (Session Token W)
  cluster_service = record {
    member_add = stub_call cluster_member_add;
    member_remove = stub_call cluster_member_remove;
    member_update = stub_call cluster_member_update;
    member_list = stub_call cluster_member_list;
    member_promote = stub_call cluster_member_promote;
  }

  abbrev pub election_service : ElectionService F (Session Token W)
  election_service = record {
    Stream = streams.ObserveStream;
    campaign = stub_call election_campaign;
    proclaim = stub_call election_proclaim;
    leader = stub_call election_leader;
    observe = stub_call election_observe;
    resign = stub_call election_resign;
    message = λ stream. on_world (channel.observe_message stream);
  }

  abbrev pub authentication : (String → Result F Token) → AuthService F Token W
  authentication = auth_service auth_stub
