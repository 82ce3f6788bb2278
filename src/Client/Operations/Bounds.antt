-- ===== src/Client/Operations/Bounds.antt =====
-- How many requests one operation of a client makes.
use etcd_client.Prelude.{
  refl, ◌≡◌, ℕ, ◌+◌, ◌≤◌, String, Bool, true, false, if◌then◌else◌, arith, Option, Option-cases,
  inl, inr,
}
use etcd_client.Bytes.{Bytes}
use etcd_client.Rpc.{unwrap_or}
use etcd_client.Watch
use etcd_client.Watch.{
  WatchOptions, WatchRequest, WatchService, watch_impl, send, create_request, into_create_request,
}
use etcd_client.Watch.Requests.{watch_impl-delivered, watch_impl-failed}
use etcd_client.Client.Forwards.{client_watch}
use etcd_client.Error.{Foreign, Result}
use etcd_client.Exec.{continue-pure_state}
use etcd_client.Caller.{Session, AuthService}
use etcd_client.Caller.Retry.{Counters, do_call_bounds}
use etcd_client.Kv.Client.{unary}
use etcd_client.Intercept.{MetadataMap, Request}
use etcd_client.Auth.{authenticate_with_user, new_authenticate}
use etcd_client.Auth.Client.{authenticate}
use etcd_client.Service.{Method, Payload, Streams}
use etcd_client.Service.Channel.{Channel, intercepted, invoke}
use etcd_client.Service.Stubs.{stub_call, authentication, watch_service}
use etcd_client.Client.Requests.{Operation, method_of, payload_of}
use etcd_client.Client.Operations.{perform}
use etcd_client.Client.Operations.Refinement.{is_direct, dispatch, perform-eq}

abbrev pub is_authenticate : Method → Bool
is_authenticate Method.auth_authenticate = true
is_authenticate _ = false

-- What the world has seen of calls: authentications, and all others. The channels of requests on this
-- side are no calls.
pub record Meter {F : Foreign} {Token W : Type 0} {metadata : MetadataMap Token} {streams : Streams}
    (channel : Channel F metadata streams W) : Type 0 where
  pub sent : W → ℕ
  pub authenticated : W → ℕ
  pub sent_counts :
      (m : Method) (request : Request metadata.Map) (payload : Payload m) (w : W)
      → sent (channel.rpc m request payload w).1 ≡ sent w + (if is_authenticate m then 0 else 1)
  pub authenticated_counts :
      (m : Method) (request : Request metadata.Map) (payload : Payload m) (w : W)
      → authenticated (channel.rpc m request payload w).1
        ≡ authenticated w + (if is_authenticate m then 1 else 0)
  pub channel_counts :
      (size : ℕ) (w : W)
      → (sent (channel.watch_channel size w).1 ≡ sent w)
        × (authenticated (channel.watch_channel size w).1 ≡ authenticated w)
  pub send_counts :
      (sender : streams.WatchSender) (request : WatchRequest) (w : W)
      → (sent (channel.watch_send sender request w).1 ≡ sent w)
        × (authenticated (channel.watch_send sender request w).1 ≡ authenticated w)

-- No operation is an authentication.
is_authenticate-method_of : (op : Operation) → is_authenticate (method_of op) ≡ false
unfolding method_of
is_authenticate-method_of Operation.leases = refl
is_authenticate-method_of _ = refl

module _ {F : Foreign} {Token W : Type 0} (metadata : MetadataMap Token) (streams : Streams)
    (channel : Channel F metadata streams W) (leader_value : Token) (require_leader : Bool)
    (parse : String → Result F Token) (refresh : Bool) (meter : Meter channel) where
  open meter use {
    sent, authenticated, sent_counts, authenticated_counts, channel_counts, send_counts,
  }

  abbrev auth : AuthService F Token W
  auth = authentication metadata streams channel leader_value require_leader parse

  login_counts :
      (user password : String) (s : Session Token W)
      → (sent (auth.authenticate user password s).1.world ≡ sent s.world)
        × (authenticated (auth.authenticate user password s).1.world ≡ authenticated s.world + 1)
  unfolding authenticate invoke
  login_counts user password s =
      let request : Request metadata.Map =
        intercepted metadata streams channel leader_value require_leader Method.auth_authenticate
          s.auth_token in
      let login : Payload Method.auth_authenticate =
        authenticate_with_user user password new_authenticate in
      ground (
        arith,
        sent_counts Method.auth_authenticate request login s.world,
        authenticated_counts Method.auth_authenticate request login s.world,
      )

  counters :
      (m : Method)
      → is_authenticate m ≡ false
      → Counters auth (unary (stub_call metadata streams channel leader_value require_leader m))
  unfolding invoke
  counters m plain = record {
    sent = sent;
    authenticated = authenticated;
    call_counts = λ req s.
        let request : Request metadata.Map =
          intercepted metadata streams channel leader_value require_leader m s.auth_token in
        ground (
          arith,
          plain,
          sent_counts m request req s.world,
          authenticated_counts m request req s.world,
        );
    authenticate_counts = login_counts;
  }

  dispatch_bounds :
      (m : Method) (plain : is_authenticate m ≡ false) (direct : Bool) (req : Payload m)
      (s : Session Token W)
      → (sent
            (dispatch auth refresh direct
              (unary (stub_call metadata streams channel leader_value require_leader m))
              req
              s).1.world
          ≤ sent s.world + 2)
        × (authenticated
              (dispatch auth refresh direct
                (unary (stub_call metadata streams channel leader_value require_leader m))
                req
                s).1.world
            ≤ authenticated s.world + 1)
  unfolding counters
  dispatch_bounds m plain true req s = ground (arith, (counters m plain).call_counts req s)
  dispatch_bounds m plain false req s =
      do_call_bounds auth (unary (stub_call metadata streams channel leader_value require_leader m))
        (counters m plain) refresh req s

  abbrev streamed : WatchService F (Session Token W)
  streamed = watch_service metadata streams channel leader_value require_leader

  -- Opening a watch is one call, or none when its request does not get into the channel.
  watch_counts :
      (options : WatchOptions) (s : Session Token W)
      → (sent (watch_impl streamed options s).1.world ≤ sent s.world + 1)
        × (authenticated (watch_impl streamed options s).1.world ≡ authenticated s.world)
  unfolding invoke
  watch_counts options s =
      let (ends, s1) = streamed.channel 100 s in
      let req : WatchRequest = create_request (into_create_request options) in
      let s2 : Session Token W = (streamed.send ends.0 req s1).1 in
      elim (Option-cases (streamed.send ends.0 req s1).0) [
        | inr (text, failed) ↦
            rw (watch_impl-failed streamed options s text failed)
              (ground (arith, channel_counts 100 s.world, send_counts ends.0 req s1.world))
        | inl delivered ↦
            rw
              (
                watch_impl-delivered streamed options s delivered,
                continue-pure_state {B = streamed.Sender × streamed.Stream}
                    (unary streamed.watch ends.1 s2).0 (λ m. (ends.0, m))
                    (unary streamed.watch ends.1 s2).1,
              )
              (ground (
                arith,
                channel_counts 100 s.world,
                send_counts ends.0 req s1.world,
                sent_counts Method.watch_watch
                    (intercepted metadata streams channel leader_value require_leader
                      Method.watch_watch s2.auth_token)
                    ends.1 s2.world,
                authenticated_counts Method.watch_watch
                    (intercepted metadata streams channel leader_value require_leader
                      Method.watch_watch s2.auth_token)
                    ends.1 s2.world,
              ))
      ]

  watch_counters : Counters auth (watch_impl streamed)
  watch_counters = record {
    sent = sent;
    authenticated = authenticated;
    call_counts = watch_counts;
    authenticate_counts = login_counts;
  }

  watch_bounds :
      (key : Bytes) (options : Option WatchOptions) (s : Session Token W)
      → (sent
            (client_watch metadata streams channel leader_value require_leader parse refresh key
              options s).1.world
          ≤ sent s.world + 2)
        × (authenticated
              (client_watch metadata streams channel leader_value require_leader parse refresh key
                options s).1.world
            ≤ authenticated s.world + 1)
  unfolding client_watch Watch.watch watch_counters
  watch_bounds key options s =
      do_call_bounds auth (watch_impl streamed) watch_counters refresh
        (Watch.with_key key (unwrap_or Watch.new options)) s

  perform_counts :
      (op : Operation) (s : Session Token W)
      → (sent
            (perform metadata streams channel leader_value require_leader parse refresh op
              s).1.world
          ≤ sent s.world + 2)
        × (authenticated
              (perform metadata streams channel leader_value require_leader parse refresh op
                s).1.world
            ≤ authenticated s.world + 1)
  perform_counts op s =
      rw (perform-eq metadata streams channel leader_value require_leader parse refresh op s) (
        dispatch_bounds (method_of op) (is_authenticate-method_of op) (is_direct (method_of op))
          (payload_of op) s)

  -- When the world counts the calls of the channel: an operation, and the opening of a watch, makes at
  -- most two calls beside at most one authentication, whatever the server answers.
  pub perform_bounds :
      (op : Operation) (key : Bytes) (options : Option WatchOptions) (s : Session Token W)
      → (let (_, s') =
            perform metadata streams channel leader_value require_leader parse refresh op s in
          (sent s'.world ≤ sent s.world + 2) × (authenticated s'.world ≤ authenticated s.world + 1))
        × (let (_, s') =
              client_watch metadata streams channel leader_value require_leader parse refresh key
                options s in
            (sent s'.world ≤ sent s.world + 2)
            × (authenticated s'.world ≤ authenticated s.world + 1))
  perform_bounds op key options s = (perform_counts op s, watch_bounds key options s)
