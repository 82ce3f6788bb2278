-- ===== src/Caller/Handles/Clients.antt =====
-- The clients that `build_client` of src/client.rs makes, with the cells that they hold.
use etcd_client.Prelude.{
  ℕ, ◌≡◌, refl, String, Bool, Option, none, [], ◌∷◌, ◌++◌, length, length-append, arith,
}
use etcd_client.Error.{Foreign}
use etcd_client.Caller
use etcd_client.Caller.{Session}
use etcd_client.Caller.Handles.{
  Heap, CallOptions, InterceptedChannel, AuthClient, ClientCaller, Network, new_builder,
  build_caller, update_user_on_heap, do_call_on_heap,
}
use etcd_client.Caller.Handles.Cells.{read_cell_new}
use etcd_client.Caller.Handles.OnCells.{session_at, HasCells, IsOnCells}
use etcd_client.Caller.Handles.Callers.{session_auth, session_call, update_user_on_heap-IsOnCells}
use etcd_client.Caller.Handles.Calls.{do_call_on_heap-IsOnCells}

-- The clients of services with a caller.
pub data CalledService : Type 0 where
  kv_calls watch_calls lease_calls lock_calls cluster_calls maintenance_calls election_calls :
      CalledService

-- Each generated client is made of its channel, and calls through it.
pub record CallerClients : Type 0 where
  pub auth : AuthClient
  pub kv : ClientCaller InterceptedChannel
  pub watch : ClientCaller InterceptedChannel
  pub lease : ClientCaller InterceptedChannel
  pub lock : ClientCaller InterceptedChannel
  pub cluster : ClientCaller InterceptedChannel
  pub maintenance : ClientCaller InterceptedChannel
  pub election : ClientCaller InterceptedChannel
  pub client_caller : ClientCaller (Unit {0})

abbrev pub caller_of : CallerClients → CalledService → ClientCaller InterceptedChannel
caller_of clients kv_calls = clients.kv
caller_of clients watch_calls = clients.watch
caller_of clients lease_calls = clients.lease
caller_of clients lock_calls = clients.lock
caller_of clients cluster_calls = clients.cluster
caller_of clients maintenance_calls = clients.maintenance
caller_of clients election_calls = clients.election

module _ {Token W : Type 0} where
  -- `From<&ConnectOptions> for CallOptions`, with the options `user` and `refresh_expired_token`: a new
  -- cell with the user.
  unfoldable pub call_options :
      Option (String × String) → Bool → Heap Token W → CallOptions × Heap Token W
  call_options user refresh_expired_token h = (
    record { creds = length h.creds_cells; refresh_expired_token = refresh_expired_token },
    record h { creds_cells = h.creds_cells ++ user ∷ [] },
  )

  unfoldable pub build_caller_clients :
      InterceptedChannel
      → (auth_token : ℕ) → Option (String × String)
      → Bool
      → Heap Token W
      → CallerClients × Heap Token W
  unfolding call_options build_caller
  build_caller_clients channel auth_token user refresh_expired_token h =
      let auth : AuthClient = record { channel = channel } in
      let (options, h') = call_options user refresh_expired_token h in
      let builder = new_builder options auth_token auth channel in
      (
        record {
          auth = auth;
          kv = build_caller builder (λ inner. inner);
          watch = build_caller builder (λ inner. inner);
          lease = build_caller builder (λ inner. inner);
          lock = build_caller builder (λ inner. inner);
          cluster = build_caller builder (λ inner. inner);
          maintenance = build_caller builder (λ inner. inner);
          election = build_caller builder (λ inner. inner);
          client_caller = build_caller builder (λ inner. tt);
        },
        h',
      )

  -- The cell of the token, and the channel whose interceptor reads it.
  unfoldable pub open_handles :
      (require_leader : Bool)
      → Option (String × String)
      → Bool
      → Heap Token W
      → CallerClients × Heap Token W
  unfolding build_caller_clients
  open_handles require_leader user refresh_expired_token h =
      let auth_token = length h.token_cells in
      let channel : InterceptedChannel = record {
        require_leader = require_leader;
        auth_token = auth_token;
      } in
      build_caller_clients channel auth_token user refresh_expired_token
        (record h { token_cells = h.token_cells ++ none ∷ [] })

module _ {F : Foreign} {Token W Req Ret : Type 0} (network : Network F Token W Req Ret)
    (require_leader : Bool) (user : Option (String × String)) (refresh : Bool)
    (h : Heap Token W) where
  abbrev pub token_cell : ℕ
  token_cell = length h.token_cells

  abbrev pub creds_cell : ℕ
  creds_cell = length h.creds_cells

  abbrev pub opened : CallerClients
  opened = (open_handles require_leader user refresh h).0

  abbrev pub new_heap : Heap Token W
  new_heap = (open_handles require_leader user refresh h).1

  caller_of-IsOnCells :
      (i : CalledService) (req : Req)
      → IsOnCells token_cell creds_cell
          (do_call_on_heap network (caller_of opened i) req)
          (Caller.do_call (session_auth network) refresh req (session_call network))
  unfolding open_handles build_caller_clients build_caller call_options
  caller_of-IsOnCells kv_calls req = do_call_on_heap-IsOnCells network opened.kv refl refl req
  caller_of-IsOnCells watch_calls req = do_call_on_heap-IsOnCells network opened.watch refl refl req
  caller_of-IsOnCells lease_calls req = do_call_on_heap-IsOnCells network opened.lease refl refl req
  caller_of-IsOnCells lock_calls req = do_call_on_heap-IsOnCells network opened.lock refl refl req
  caller_of-IsOnCells cluster_calls req =
      do_call_on_heap-IsOnCells network opened.cluster refl refl req
  caller_of-IsOnCells maintenance_calls req =
      do_call_on_heap-IsOnCells network opened.maintenance refl refl req
  caller_of-IsOnCells election_calls req =
      do_call_on_heap-IsOnCells network opened.election refl refl req

  -- The clients of a new connection share one cell for the token and one for the credentials, which
  -- hold no token and the user of the options. Through any of them `do_call` is `do_call` on the
  -- session with the contents of these two cells, and `update_user` of the client is `update_user`
  -- on the same session; both leave all other cells as they are.
  pub clients_share_session :
      HasCells token_cell creds_cell new_heap
      × (session_at token_cell creds_cell new_heap
          ≡ record { auth_token = none; creds = user; world = h.world })
      × ((i : CalledService) (req : Req)
          → IsOnCells token_cell creds_cell
              (do_call_on_heap network (caller_of opened i) req)
              (Caller.do_call (session_auth network) refresh req (session_call network)))
      × ((creds : Option (String × String))
          → IsOnCells token_cell creds_cell
              (update_user_on_heap network opened.client_caller creds)
              (Caller.update_user (session_auth network) creds))
  unfolding open_handles build_caller_clients build_caller call_options
  clients_share_session = (
    record {
      token_cell = omega (arith, length-append h.token_cells (none ∷ []));
      creds_cell = omega (arith, length-append h.creds_cells (user ∷ []));
    },
    rw (read_cell_new none h.token_cells, read_cell_new user h.creds_cells) refl,
    caller_of-IsOnCells,
    λ creds. update_user_on_heap-IsOnCells network opened.client_caller refl creds,
  )
