-- ===== src/Caller.antt =====
-- src/caller.rs: the dispatch of each client request, with the refresh of an expired token.
pub mod Tokens
pub mod Retry
pub mod Clones
pub mod Jobs
pub mod Handles
use etcd_client.Prelude.{String, Bool, true, false, not, ◌||◌, Option, none, some, if◌then◌else◌}
use etcd_client.Error.{Foreign, Error, Result, ok, err, grpc_status}
use etcd_client.Exec.{Exec, lift, modify, ◌>>=◌, ◌>>◌}

-- What the clones of a client share: the token and the credentials, each behind its lock, and the
-- rest of the world.
pub record Session (Token W : Type 0) : Type 0 where
  pub auth_token : Option Token
  pub creds : Option (String × String)
  pub world : W

-- The authentication service, and the parser of a token as a metadata value.
pub record AuthService (F : Foreign) (Token W : Type 0) : Type 0 where
  pub authenticate : String → String → Exec F (Session Token W) String
  pub parse : String → Result F Token

module _ {F : Foreign} {Token W : Type 0} where
  abbrev pub set_token : Option Token → Exec F (Session Token W) (Unit {0})
  set_token t = modify λ s. record s { auth_token = t }

  abbrev pub set_creds : Option (String × String) → Exec F (Session Token W) (Unit {0})
  set_creds c = modify λ s. record s { creds = c }

module _ {F : Foreign} {Token W : Type 0} (auth : AuthService F Token W) where
  unfoldable pub do_authenticate : String → String → Exec F (Session Token W) Token
  do_authenticate user password = do
    token ← auth.authenticate user password
    lift (auth.parse token)

  -- `refresh_token` with the credentials that were read from the lock
  unfoldable pub refresh_with : Option (String × String) → Exec F (Session Token W) (Unit {0})
  unfolding do_authenticate
  refresh_with (some (user, password)) = do
    token ← do_authenticate user password
    set_token (some token)
  refresh_with none = set_token none

  unfoldable pub refresh_token : Exec F (Session Token W) (Unit {0})
  unfolding refresh_with
  refresh_token s = refresh_with s.creds s

  unfoldable pub update_user : Option (String × String) → Exec F (Session Token W) (Unit {0})
  unfolding do_authenticate
  update_user (some (name, password)) = do
    token ← do_authenticate name password
    set_token (some token)
    set_creds (some (name, password))
  update_user none = do set_token none; set_creds none

abbrev pub is_some {ℓ} : {A : Type ℓ} → Option A → Bool
is_some none = false
is_some (some a) = true

module _ {F : Foreign} {Token W Req Ret : Type 0} (auth : AuthService F Token W) where
  -- `match resp` of `do_call`
  retry : (Req → Exec F (Session Token W) Ret) → Req → Result F Ret → Exec F (Session Token W) Ret
  retry call req (err (grpc_status status)) =
      if F.is_unauthenticated status
      then refresh_token auth >> call req
      else lift (err (grpc_status status))
  retry call req res = lift res

  -- `call` sends the request with the client's inner stub.
  unfoldable pub do_call :
      (refresh_expired_token : Bool)
      → Req
      → (Req → Exec F (Session Token W) Ret)
      → Exec F (Session Token W) Ret
  unfolding retry
  do_call refresh_expired_token req call s =
      let has_creds = is_some s.creds in
      if not refresh_expired_token || not has_creds
      then call req s
      else let (resp, s') = call req s in retry call req resp s'
