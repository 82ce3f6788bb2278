-- ===== src/Client/Operations/Refinement.antt =====
-- Every operation of a client is one call of its method with its request, under the refresh of the
-- token where the service's client has it.
use etcd_client.Prelude.{String, Bool, true, false, ◌≡◌, refl}
use etcd_client.Rpc.{unwrap_or}
use etcd_client.Error.{Foreign, Result}
use etcd_client.Exec.{Exec}
use etcd_client.Caller.{Session, AuthService, do_call}
use etcd_client.Caller.Retry.{do_call-eq}
use etcd_client.Kv
use etcd_client.Kv.Client.{unary}
use etcd_client.Kv.Get
use etcd_client.Kv.Delete
use etcd_client.Lease
use etcd_client.Lock
use etcd_client.Auth
use etcd_client.Maintenance
use etcd_client.Cluster
use etcd_client.Election
use etcd_client.Client.Members.{member_urls}
use etcd_client.Intercept.{MetadataMap}
use etcd_client.Service.{Method, Streams}
use etcd_client.Service.Channel.{Channel}
use etcd_client.Service.Stubs.{stub_call, authentication}
use etcd_client.Client.Forwards.{
  client_put, client_get, client_delete, client_compact, client_txn, client_lease_grant,
  client_lease_revoke, client_lease_time_to_live, client_leases, client_lock, client_unlock,
  client_auth_enable, client_auth_disable, client_role_add, client_role_delete, client_role_get,
  client_role_list, client_role_grant_permission, client_role_revoke_permission, client_user_add,
  client_user_get, client_user_list, client_user_delete, client_user_change_password,
  client_user_grant_role, client_user_revoke_role, client_alarm, client_status, client_defragment,
  client_hash, client_hash_kv, client_snapshot, client_move_leader, client_member_add,
  client_member_remove, client_member_update, client_member_promote, client_member_list,
  client_campaign, client_proclaim, client_leader, client_observe, client_resign,
}
use etcd_client.Client.Requests.{Operation, method_of, payload_of}
use etcd_client.Client.Operations.{perform}

-- A call whose request is made for each try is the call with the request that is made once.
do_call-map :
    {F : Foreign} {Token W A Req Ret : Type 0} (auth : AuthService F Token W) (refresh : Bool)
    (make : A → Req) (call : Req → Exec F (Session Token W) Ret) (a : A) (s : Session Token W)
    → do_call auth refresh a (λ b. call (make b)) s ≡ do_call auth refresh (make a) call s
do_call-map auth refresh make call a s =
    rw (do_call-eq auth (λ b. call (make b)) refresh a s, do_call-eq auth call refresh (make a) s)

-- The methods of `AuthClient`, which calls its stub without `do_call`.
abbrev pub is_direct : Method → Bool
is_direct Method.auth_enable = true
is_direct Method.auth_disable = true
is_direct Method.auth_role_add = true
is_direct Method.auth_role_delete = true
is_direct Method.auth_role_get = true
is_direct Method.auth_role_list = true
is_direct Method.auth_role_grant_permission = true
is_direct Method.auth_role_revoke_permission = true
is_direct Method.auth_user_add = true
is_direct Method.auth_user_get = true
is_direct Method.auth_user_list = true
is_direct Method.auth_user_delete = true
is_direct Method.auth_user_change_password = true
is_direct Method.auth_user_grant_role = true
is_direct Method.auth_user_revoke_role = true
is_direct Method.auth_authenticate = true
is_direct _ = false

-- The result and the state of one call of a method through a channel.
abbrev pub dispatch :
    {F : Foreign} {Token W Req Ret : Type 0}
    → AuthService F Token W
    → (refresh direct : Bool) → (Req → Exec F (Session Token W) Ret)
    → Req
    → Exec F (Session Token W) Ret
dispatch auth refresh true call req = call req
dispatch auth refresh false call req = do_call auth refresh req call

module _ {F : Foreign} {Token W : Type 0} (metadata : MetadataMap Token) (streams : Streams)
    (channel : Channel F metadata streams W) (leader_value : Token) (require_leader : Bool)
    (parse : String → Result F Token) (refresh : Bool) where
  -- Each operation, result and state, is a call of the one method that belongs to it, with the
  -- request that belongs to it: a plain call for the methods of the service of users and roles, and
  -- `do_call` over the same channel, with the authentication over that channel, for all others.
  pub perform-eq :
      (op : Operation) (s : Session Token W)
      → perform metadata streams channel leader_value require_leader parse refresh op s
        ≡ dispatch
            (authentication metadata streams channel leader_value require_leader parse)
            refresh
            (is_direct (method_of op))
            (unary (stub_call metadata streams channel leader_value require_leader (method_of op)))
            (payload_of op)
            s
  unfolding member_urls perform method_of payload_of client_put client_get client_delete
      client_compact client_txn client_lease_grant client_lease_revoke client_lease_time_to_live
      client_leases client_lock client_unlock client_auth_enable client_auth_disable client_role_add
      client_role_delete client_role_get client_role_list client_role_grant_permission
      client_role_revoke_permission client_user_add client_user_get client_user_list
      client_user_delete client_user_change_password client_user_grant_role client_user_revoke_role
      client_alarm client_status client_defragment client_hash client_hash_kv client_snapshot
      client_move_leader client_member_add client_member_remove client_member_update
      client_member_promote client_member_list client_campaign client_proclaim client_leader
      client_observe client_resign Kv.Client.put Kv.Client.get Kv.Client.delete Kv.Client.compact
      Kv.Client.txn Lease.grant Lease.revoke Lease.time_to_live Lease.leases Lock.lock Lock.unlock
      Auth.Client.auth_disable Auth.Client.auth_enable Auth.Client.role_add Auth.Client.role_delete
      Auth.Client.role_get Auth.Client.role_grant_permission Auth.Client.role_list
      Auth.Client.role_revoke_permission Auth.Client.user_add Auth.Client.user_change_password
      Auth.Client.user_delete Auth.Client.user_get Auth.Client.user_grant_role Auth.Client.user_list
      Auth.Client.user_revoke_role Cluster.member_add Cluster.member_list Cluster.member_promote
      Cluster.member_remove Cluster.member_update Election.campaign Election.leader Election.observe
      Election.proclaim Election.resign Maintenance.alarm Maintenance.defragment Maintenance.hash
      Maintenance.hash_kv Maintenance.move_leader Maintenance.snapshot Maintenance.status
  perform-eq (Operation.put key value options) s = refl
  perform-eq (Operation.get key options) s =
      do_call-map (authentication metadata streams channel leader_value require_leader parse)
        refresh Get.into_request
        (unary (stub_call metadata streams channel leader_value require_leader Method.kv_range))
        (Get.with_key key (unwrap_or Get.new options)) s
  perform-eq (Operation.delete key options) s =
      do_call-map (authentication metadata streams channel leader_value require_leader parse)
        refresh Delete.into_request
        (unary
          (stub_call metadata streams channel leader_value require_leader Method.kv_delete_range))
        (Delete.with_key key (unwrap_or Delete.new options)) s
  perform-eq (Operation.compact revision options) s = refl
  perform-eq (Operation.txn t) s =
      do_call-map (authentication metadata streams channel leader_value require_leader parse)
        refresh (λ u. u.req)
        (unary (stub_call metadata streams channel leader_value require_leader Method.kv_txn)) t s
  perform-eq (Operation.lease_grant ttl options) s = refl
  perform-eq (Operation.lease_revoke id) s = refl
  perform-eq (Operation.lease_time_to_live id options) s = refl
  perform-eq Operation.leases s = refl
  perform-eq (Operation.lock name options) s = refl
  perform-eq (Operation.unlock key) s = refl
  perform-eq Operation.auth_enable s = refl
  perform-eq Operation.auth_disable s = refl
  perform-eq (Operation.role_add name) s = refl
  perform-eq (Operation.role_delete name) s = refl
  perform-eq (Operation.role_get name) s = refl
  perform-eq Operation.role_list s = refl
  perform-eq (Operation.role_grant_permission name perm) s = refl
  perform-eq (Operation.role_revoke_permission name key options) s = refl
  perform-eq (Operation.user_add name password options) s = refl
  perform-eq (Operation.user_get name) s = refl
  perform-eq Operation.user_list s = refl
  perform-eq (Operation.user_delete name) s = refl
  perform-eq (Operation.user_change_password name password) s = refl
  perform-eq (Operation.user_grant_role user role) s = refl
  perform-eq (Operation.user_revoke_role user role) s = refl
  perform-eq (Operation.alarm alarm_action alarm_type options) s = refl
  perform-eq Operation.status s = refl
  perform-eq Operation.defragment s = refl
  perform-eq Operation.hash s = refl
  perform-eq (Operation.hash_kv revision) s = refl
  perform-eq Operation.snapshot s = refl
  perform-eq (Operation.move_leader target_id) s = refl
  perform-eq (Operation.member_add urls options) s = refl
  perform-eq (Operation.member_remove id) s = refl
  perform-eq (Operation.member_update id url) s = refl
  perform-eq (Operation.member_promote id) s = refl
  perform-eq Operation.member_list s = refl
  perform-eq (Operation.campaign name value lease_id) s = refl
  perform-eq (Operation.proclaim value options) s = refl
  perform-eq (Operation.leader name) s = refl
  perform-eq (Operation.observe name) s = refl
  perform-eq (Operation.resign option) s = refl
