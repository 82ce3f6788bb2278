-- ===== src/Service/Channel.antt =====
-- The intercepted channel of src/intercept.rs: each call of a generated stub goes through the
-- interceptor to the balanced channel.
use etcd_client.Prelude.{ℕ, String, Bool, Option, some}
use etcd_client.Error.{Foreign}
use etcd_client.Caller.{Session}
use etcd_client.Kv.Client.{Answer, Unary}
use etcd_client.Intercept
use etcd_client.Intercept.{MetadataMap, Request}
use etcd_client.Watch.{WatchRequest, WatchResponse}
use etcd_client.Lease.{LeaseIdRequest, LeaseKeepAliveResponse}
use etcd_client.Maintenance.{SnapshotResponse}
use etcd_client.Election.{LeaderResponse}
use etcd_client.Service.Methods.{Method, path, Payload, Streams, Reply}

-- The balanced channel: a call of a method with the metadata of its request. `empty` is the metadata
-- of a new request; the other fields are the two ends of open streams.
pub record Channel (F : Foreign) {Token : Type 0} (metadata : MetadataMap Token) (streams : Streams)
    (W : Type 0) : Type 0 where
  pub empty : metadata.Map
  pub rpc : (m : Method) → Request metadata.Map → Payload m → W → Answer F (Reply streams m) × W
  pub watch_channel : ℕ → W → (streams.WatchSender × ℕ) × W
  pub watch_send : streams.WatchSender → WatchRequest → W → Option String × W
  pub watch_message : streams.WatchStream → W → Answer F (Option WatchResponse) × W
  pub lease_channel : ℕ → W → (streams.LeaseSender × ℕ) × W
  pub lease_send : streams.LeaseSender → LeaseIdRequest → W → Option String × W
  pub lease_message : streams.LeaseStream → W → Answer F (Option LeaseKeepAliveResponse) × W
  pub snapshot_message : streams.SnapshotStream → W → Answer F (Option SnapshotResponse) × W
  pub observe_message : streams.ObserveStream → W → Answer F (Option LeaderResponse) × W

-- What the interceptor is given: the value "true" and the option of the connection.
module _ {F : Foreign} {Token W : Type 0} (metadata : MetadataMap Token) (streams : Streams)
    (channel : Channel F metadata streams W) (leader_value : Token) (require_leader : Bool) where
  -- The request of a method after the interceptor, with the token that is set when it is made.
  unfoldable pub intercepted : Method → Option Token → Request metadata.Map
  intercepted m auth_token =
      Intercept.call metadata leader_value require_leader auth_token
        (record { grpc_method = some (path m); metadata = channel.empty })

  -- A call of the generated stub.
  unfoldable pub invoke : (m : Method) → Unary F (Session Token W) (Payload m) (Reply streams m)
  invoke m payload s =
      let (answer, w) = channel.rpc m (intercepted m s.auth_token) payload s.world in
      (answer, record s { world = w })
