-- ===== src/Caller/Handles.antt =====
-- The callers of src/caller.rs with the cells that they hold: `Arc<RwLock<_>>` is the number of a cell
-- of the heap, which a clone of a handle copies.
pub mod Cells
pub mod OnCells
pub mod Callers
pub mod Calls
pub mod Clients
use etcd_client.Prelude.{
  ℕ, zero, suc, String, Bool, true, false, not, ◌||◌, Option, none, some, List, [], ◌∷◌, ◌++◌,
  length, if◌then◌else◌,
}
use etcd_client.Error.{Foreign, Result, ok, err, grpc_status}
use etcd_client.Exec.{Exec, lift, modify, ◌>>=◌, ◌>>◌}
use etcd_client.Caller.{is_some}

-- A cell holds an optional value. Outside of the heap there is none.
module _ {A : Type 0} where
  unfoldable pub read_cell : ℕ → List (Option A) → Option A
  read_cell n [] = none
  read_cell zero (a ∷ cells) = a
  read_cell (suc n) (a ∷ cells) = read_cell n cells

  unfoldable pub write_cell : ℕ → Option A → List (Option A) → List (Option A)
  write_cell n b [] = []
  write_cell zero b (a ∷ cells) = b ∷ cells
  write_cell (suc n) b (a ∷ cells) = a ∷ write_cell n b cells

-- The token cells, the credential cells, and the rest of the world.
pub record Heap (Token W : Type 0) : Type 0 where
  pub token_cells : List (Option Token)
  pub creds_cells : List (Option (String × String))
  pub world : W

pub record CallOptions : Type 0 where
  pub creds : ℕ
  pub refresh_expired_token : Bool

-- The interceptor of a channel, with the cell that it reads the token from.
pub record InterceptedChannel : Type 0 where
  pub require_leader : Bool
  pub auth_token : ℕ

pub record AuthClient : Type 0 where
  pub channel : InterceptedChannel

pub record ClientCallerBuilder : Type 0 where
  pub options : CallOptions
  pub auth_token : ℕ
  pub auth_client : AuthClient
  pub channel : InterceptedChannel

pub record ClientCaller (T : Type 0) : Type 0 where
  pub inner : T
  pub auth_client : AuthClient
  pub auth_token : ℕ
  pub options : CallOptions

abbrev pub new_builder : CallOptions → ℕ → AuthClient → InterceptedChannel → ClientCallerBuilder
new_builder options auth_token auth_client channel = record {
  options = options;
  auth_token = auth_token;
  auth_client = auth_client;
  channel = channel;
}

abbrev pub new_caller : {T : Type 0} → T → AuthClient → ℕ → CallOptions → ClientCaller T
new_caller inner auth_client auth_token options = record {
  inner = inner;
  auth_client = auth_client;
  auth_token = auth_token;
  options = options;
}

unfoldable pub build_caller :
    {T : Type 0} → ClientCallerBuilder → (InterceptedChannel → T) → ClientCaller T
build_caller self f_inner =
    new_caller (f_inner self.channel) self.auth_client self.auth_token self.options

-- Mutates the inner client.
unfoldable pub with_inner : {T : Type 0} → ClientCaller T → (T → T) → ClientCaller T
with_inner self f = record self { inner = f self.inner }

-- What the network does: an authentication and a request, each with the token that the interceptor has
-- read, and the parser of a token.
pub record Network (F : Foreign) (Token W Req Ret : Type 0) : Type 0 where
  pub authenticate : Option Token → String → String → W → Result F String × W
  pub parse : String → Result F Token
  pub exchange : Req → Option Token → W → Result F Ret × W

module _ {F : Foreign} {Token W : Type 0} where
  abbrev pub set_token_cell : ℕ → Option Token → Exec F (Heap Token W) (Unit {0})
  set_token_cell n token = modify λ h. record h { token_cells = write_cell n token h.token_cells }

  abbrev pub set_creds_cell : ℕ → Option (String × String) → Exec F (Heap Token W) (Unit {0})
  set_creds_cell n creds = modify λ h. record h { creds_cells = write_cell n creds h.creds_cells }

  -- An action of the network with the token that an interceptor reads.
  abbrev pub through_channel :
      {A : Type 0}
      → InterceptedChannel
      → (Option Token → W → Result F A × W)
      → Exec F (Heap Token W) A
  through_channel channel send h =
      let (r, w) = send (read_cell channel.auth_token h.token_cells) h.world in
      (r, record h { world = w })

module _ {F : Foreign} {Token W Req Ret : Type 0} (network : Network F Token W Req Ret) where
  open network use {authenticate, parse, exchange}

  unfoldable pub authenticate_on_heap :
      {T : Type 0} → ClientCaller T → String → String → Exec F (Heap Token W) Token
  authenticate_on_heap self user password = do
    token ← through_channel self.auth_client.channel λ t. authenticate t user password
    lift (parse token)

  unfoldable pub refresh_with_on_heap :
      {T : Type 0} → ClientCaller T → Option (String × String) → Exec F (Heap Token W) (Unit {0})
  unfolding authenticate_on_heap
  refresh_with_on_heap self (some (user, password)) = do
    token ← authenticate_on_heap self user password
    set_token_cell self.auth_token (some token)
  refresh_with_on_heap self none = set_token_cell self.auth_token none

  unfoldable pub refresh_on_heap : {T : Type 0} → ClientCaller T → Exec F (Heap Token W) (Unit {0})
  unfolding refresh_with_on_heap
  refresh_on_heap self h = refresh_with_on_heap self (read_cell self.options.creds h.creds_cells) h

  unfoldable pub update_user_on_heap :
      {T : Type 0} → ClientCaller T → Option (String × String) → Exec F (Heap Token W) (Unit {0})
  unfolding authenticate_on_heap
  update_user_on_heap self (some (name, password)) = do
    token ← authenticate_on_heap self name password
    set_token_cell self.auth_token (some token)
    set_creds_cell self.options.creds (some (name, password))
  update_user_on_heap self none = do
    set_token_cell self.auth_token none
    set_creds_cell self.options.creds none

  abbrev pub send_inner : ClientCaller InterceptedChannel → Req → Exec F (Heap Token W) Ret
  send_inner self req = through_channel self.inner (exchange req)

  unfoldable pub retry_on_heap :
      ClientCaller InterceptedChannel → Req → Result F Ret → Exec F (Heap Token W) Ret
  retry_on_heap self req (err (grpc_status status)) =
      if F.is_unauthenticated status
      then refresh_on_heap self >> send_inner self req
      else lift (err (grpc_status status))
  retry_on_heap self req res = lift res

  unfoldable pub do_call_on_heap : ClientCaller InterceptedChannel → Req → Exec F (Heap Token W) Ret
  unfolding retry_on_heap
  do_call_on_heap self req h =
      let has_creds = is_some (read_cell self.options.creds h.creds_cells) in
      if not self.options.refresh_expired_token || not has_creds
      then send_inner self req h
      else let (resp, h') = send_inner self req h in retry_on_heap self req resp h'
