-- ===== src/Examples/Leases.antt =====
-- A lease that the server keeps for 60 seconds.
use etcd_client.Prelude.{ℕ, pos, is_nonpositive, ◌≡◌, refl, true, false, none, some}
use etcd_client.Error.{ok}
use etcd_client.Caller.{Session, do_call}
use etcd_client.Kv.Client.{replied, refused}
use etcd_client.Lease.{
  LeaseService, LeaseKeeper, LeaseKeepAliveResponse, receive, keep_alive, keep_alive_impl,
  send_request,
}
use etcd_client.Lease.KeepAlive.{keep_alive_sound}
use etcd_client.Examples.{World, foreign, service, logged_out}

abbrev kept_60 : LeaseKeepAliveResponse
kept_60 = record { header = none; id = pos 1; ttl = pos 60 }

-- A server that answers the requests for keeping a lease alive, and refuses all others.
abbrev lessor : LeaseService foreign (Session ℕ World)
lessor = record {
  Sender = ℕ;
  Receiver = ℕ;
  Stream = ℕ;
  channel = λ size s. ((1, 3), s);
  lease_grant = λ req s. (refused true, s);
  lease_revoke = λ req s. (refused true, s);
  lease_keep_alive = λ receiver s. (replied 2, s);
  lease_time_to_live = λ req s. (refused true, s);
  lease_leases = λ req s. (refused true, s);
  message = λ stream s. (replied (some kept_60), s);
  send = λ sender req s. (none, s);
}

abbrev keeper : LeaseKeeper ℕ
keeper = record { id = pos 1; sender = 1 }

keep_alive_ok : (keep_alive service lessor true (pos 1) logged_out).0 ≡ ok (keeper, 2)
unfolding keep_alive keep_alive_impl send_request do_call
keep_alive_ok = refl

keep_alive_sound_example :
    (s : Session ℕ World) × (resp : LeaseKeepAliveResponse) × ((receive lessor 2 s).0
      ≡ ok (some resp))
    × (is_nonpositive resp.ttl ≡ false)
    × (pos 1 ≡ resp.id)
keep_alive_sound_example =
    keep_alive_sound service lessor true (pos 1) logged_out keeper 2 keep_alive_ok
