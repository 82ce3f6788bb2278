-- ===== src/Lease.antt =====
-- src/rpc/lease.rs: the messages of the lease service, `keep_alive` and the stripping of keys, and
-- src/namespace/lease.rs.
pub mod KeepAlive
use etcd_client.Prelude.{
  ℕ, ℤ, pos, is_nonpositive, String, Bool, true, false, Option, none, some, List, [], ◌∷◌, map,
  if◌then◌else◌,
}
use etcd_client.Bytes.{Bytes}
use etcd_client.Rpc.{ResponseHeader, unwrap_or}
use etcd_client.VecExt.{strip_key_prefix}
use etcd_client.Error.{
  Foreign, Error, Result, ok, err, grpc_status, watch_error, lease_keep_alive_error,
}
use etcd_client.Exec.{Exec, pure, raise, lift, ◌>>=◌}
use etcd_client.Caller.{Session, AuthService, do_call}
use etcd_client.Kv.Client.{Answer, Unary, unary, into_inner}

pub record LeaseGrantOptions : Type 0 where
  pub ttl : ℤ
  pub id : ℤ

abbrev pub new_grant : LeaseGrantOptions
new_grant = record { ttl = pos 0; id = pos 0 }

unfoldable pub with_ttl : ℤ → LeaseGrantOptions → LeaseGrantOptions
with_ttl ttl self = record self { ttl = ttl }

unfoldable pub with_id : ℤ → LeaseGrantOptions → LeaseGrantOptions
with_id id self = record self { id = id }

pub record LeaseGrantResponse : Type 0 where
  pub header : Option ResponseHeader
  pub id : ℤ
  pub ttl : ℤ
  pub error : String

unfoldable pub grant_take_header : LeaseGrantResponse → LeaseGrantResponse × Option ResponseHeader
grant_take_header self = (record self { header = none }, self.header)

-- `PbLeaseRevokeRequest` and `PbLeaseKeepAliveRequest`, which hold an id alone
pub record LeaseIdRequest : Type 0 where
  pub id : ℤ

pub record LeaseRevokeResponse : Type 0 where
  pub header : Option ResponseHeader

unfoldable pub revoke_take_header :
    LeaseRevokeResponse → LeaseRevokeResponse × Option ResponseHeader
revoke_take_header self = (record self { header = none }, self.header)

pub record LeaseKeepAliveResponse : Type 0 where
  pub header : Option ResponseHeader
  pub id : ℤ
  pub ttl : ℤ

unfoldable pub keep_alive_take_header :
    LeaseKeepAliveResponse → LeaseKeepAliveResponse × Option ResponseHeader
keep_alive_take_header self = (record self { header = none }, self.header)

pub record LeaseTimeToLiveOptions : Type 0 where
  pub id : ℤ
  pub keys : Bool

abbrev pub new_time_to_live : LeaseTimeToLiveOptions
new_time_to_live = record { id = pos 0; keys = false }

unfoldable pub with_lease_id : ℤ → LeaseTimeToLiveOptions → LeaseTimeToLiveOptions
with_lease_id id self = record self { id = id }

unfoldable pub with_keys : LeaseTimeToLiveOptions → LeaseTimeToLiveOptions
with_keys self = record self { keys = true }

pub record LeaseTimeToLiveResponse : Type 0 where
  pub header : Option ResponseHeader
  pub id : ℤ
  pub ttl : ℤ
  pub granted_ttl : ℤ
  pub keys : List Bytes

unfoldable pub time_to_live_take_header :
    LeaseTimeToLiveResponse → LeaseTimeToLiveResponse × Option ResponseHeader
time_to_live_take_header self = (record self { header = none }, self.header)

unfoldable pub strip_keys_prefix : Bytes → LeaseTimeToLiveResponse → LeaseTimeToLiveResponse
strip_keys_prefix prefix self = record self { keys = map (strip_key_prefix prefix) self.keys }

pub record LeaseStatus : Type 0 where
  pub id : ℤ

pub record LeaseLeasesResponse : Type 0 where
  pub header : Option ResponseHeader
  pub leases : List LeaseStatus

unfoldable pub leases_take_header :
    LeaseLeasesResponse → LeaseLeasesResponse × Option ResponseHeader
leases_take_header self = (record self { header = none }, self.header)

-- The stub. `keep_alive` opens a stream on which `options` is the first request: the channel for the
-- requests is new and holds 100, so its `send` succeeds. `Sender` and `Stream` are the two ends.
pub record LeaseService (F : Foreign) (S : Type 0) : Type 1 where
  pub Sender : Type 0
  pub Receiver : Type 0
  pub Stream : Type 0
  pub channel : ℕ → S → (Sender × Receiver) × S
  pub lease_grant : Unary F S LeaseGrantOptions LeaseGrantResponse
  pub lease_revoke : Unary F S LeaseIdRequest LeaseRevokeResponse
  pub lease_keep_alive : Unary F S Receiver Stream
  pub lease_time_to_live : Unary F S LeaseTimeToLiveOptions LeaseTimeToLiveResponse
  pub lease_leases : Unary F S (Unit {0}) LeaseLeasesResponse
  pub message : Stream → S → Answer F (Option LeaseKeepAliveResponse) × S
  pub send : Sender → LeaseIdRequest → S → Option String × S

-- `stream.message().await?`
abbrev pub receive :
    {F : Foreign} {S : Type 0} (stub : LeaseService F S)
    → stub.Stream
    → Exec F S (Option LeaseKeepAliveResponse)
receive stub stream s = let (answer, s') = stub.message stream s in (into_inner answer, s')

pub record LeaseKeeper (Sender : Type 0) : Type 0 where
  pub id : ℤ
  pub sender : Sender

module _ {F : Foreign} {Token W : Type 0} (auth : AuthService F Token W)
    (stub : LeaseService F (Session Token W)) (refresh_expired_token : Bool) where
  unfoldable pub grant : ℤ → Option LeaseGrantOptions → Exec F (Session Token W) LeaseGrantResponse
  grant ttl options =
      do_call auth refresh_expired_token (with_ttl ttl (unwrap_or new_grant options))
        (unary stub.lease_grant)

  unfoldable pub revoke : ℤ → Exec F (Session Token W) LeaseRevokeResponse
  revoke id = do_call auth refresh_expired_token (record { id = id }) (unary stub.lease_revoke)

  -- `send` with the text of its error as an error of the lease.
  unfoldable pub send_request : stub.Sender → LeaseIdRequest → Exec F (Session Token W) (Unit {0})
  send_request sender req s =
      let (failure, s') = stub.send sender req s in
      elim failure [ none ↦ (ok tt, s') | some e ↦ (err (lease_keep_alive_error e), s') ]

  abbrev create_channel : ℕ → Exec F (Session Token W) (stub.Sender × stub.Receiver)
  create_channel size s = let (ends, s') = stub.channel size s in (ok ends, s')

  unfoldable pub keep_alive_impl :
      LeaseIdRequest → Exec F (Session Token W) (stub.Sender × stub.Stream)
  unfolding send_request
  keep_alive_impl options = do
    (sender, receiver) ← create_channel 100
    _ ← send_request sender options
    resp ← unary stub.lease_keep_alive receiver
    pure (sender, resp)

  -- `match stream.message().await?`: the id of the lease that the server keeps.
  unfoldable pub first_answer : Option LeaseKeepAliveResponse → Exec F (Session Token W) ℤ
  first_answer (some resp) =
      if is_nonpositive resp.ttl
      then raise (lease_keep_alive_error "lease not found")
      else pure resp.id
  first_answer none = raise (watch_error "failed to create lease keeper")

  unfoldable pub keep_alive : ℤ → Exec F (Session Token W) (LeaseKeeper stub.Sender × stub.Stream)
  unfolding first_answer keep_alive_impl
  keep_alive id = do
    (sender, stream) ← do_call auth refresh_expired_token (record { id = id }) keep_alive_impl
    first ← receive stub stream
    kept ← first_answer first
    pure (record { id = kept; sender = sender }, stream)

  unfoldable pub time_to_live :
      ℤ → Option LeaseTimeToLiveOptions → Exec F (Session Token W) LeaseTimeToLiveResponse
  time_to_live id options =
      do_call auth refresh_expired_token (with_lease_id id (unwrap_or new_time_to_live options))
        (unary stub.lease_time_to_live)

  unfoldable pub leases : Exec F (Session Token W) LeaseLeasesResponse
  leases = do_call auth refresh_expired_token tt (unary stub.lease_leases)

  -- `LeaseClientPrefix::time_to_live`
  unfoldable pub prefix_time_to_live :
      (pfx : Bytes)
      → ℤ
      → Option LeaseTimeToLiveOptions
      → Exec F (Session Token W) LeaseTimeToLiveResponse
  prefix_time_to_live pfx id options = do
    resp ← time_to_live id options
    pure (strip_keys_prefix pfx resp)

  -- `LeaseKeeper::keep_alive`; the stub's `send` gives the text of its error.
  unfoldable pub send_keep_alive : LeaseKeeper stub.Sender → Exec F (Session Token W) (Unit {0})
  send_keep_alive keeper s =
      let (failure, s') = stub.send keeper.sender (record { id = keeper.id }) s in
      elim failure [ none ↦ (ok tt, s') | some e ↦ (err (lease_keep_alive_error e), s') ]
