-- ===== src/Caller/Jobs.antt =====
-- Requests of clones that run at the same time: the steps of `do_call` of src/caller.rs between which
-- other clones may run. `do_call` reads the credentials, the interceptor reads the token, the request
-- goes out and its answer comes back, and the refresh has the steps of Caller/Clones.
pub mod Order
pub mod Tokens
pub mod Senders
use etcd_client.Prelude.{
  ℕ, zero, suc, Bool, true, false, not, ◌||◌, Option, List, [], ◌∷◌, if◌then◌else◌,
}
use etcd_client.Error.{Foreign, Result, ok, err, grpc_status}
use etcd_client.Caller.{Session, AuthService, is_some}
use etcd_client.Caller.Clones.{Task, refresh_start, finished, advance}

-- Where a call stands.
pub data Job (F : Foreign) (Token Req Ret : Type 0) : Type 0 where
  maintain : (task : Task F Token) → Job F Token Req Ret
  call_start : (req : Req) → Job F Token Req Ret
  first_read : (req : Req) → Job F Token Req Ret
  first_send : (req : Req) (token : Option Token) → Job F Token Req Ret
  refreshing : (req : Req) (task : Task F Token) → Job F Token Req Ret
  last_read : (req : Req) → Job F Token Req Ret
  last_send : (req : Req) (token : Option Token) → Job F Token Req Ret
  returned : (result : Result F Ret) → Job F Token Req Ret

abbrev pub task_over : {F : Foreign} {Token : Type 0} → Task F Token → Bool
task_over (finished result) = true
task_over _ = false

module _ {F : Foreign} {Token Req Ret : Type 0} where
  -- `match resp`, after the first answer.
  abbrev pub with_answer : Req → Result F Ret → Job F Token Req Ret
  with_answer req (err (grpc_status status)) =
      if F.is_unauthenticated status
      then refreshing req refresh_start
      else returned (err (grpc_status status))
  with_answer req res = returned res

  -- `self.refresh_token().await?`
  abbrev pub with_refresh : Req → Task F Token → Job F Token Req Ret
  with_refresh req (finished (ok u)) = last_read req
  with_refresh req (finished (err e)) = returned (err e)
  with_refresh req task = refreshing req task

  -- A call that has its result.
  abbrev pub is_over : Job F Token Req Ret → Bool
  is_over (maintain task) = task_over task
  is_over (returned result) = true
  is_over _ = false

-- What the clones have in common: the authentication, the option, and the inner client, which sends a
-- request with the token that the interceptor has read.
pub record Shared (F : Foreign) (Token W Req Ret : Type 0) : Type 0 where
  pub auth : AuthService F Token W
  pub refresh_expired_token : Bool
  pub exchange : Req → Option Token → Session Token W → Result F Ret × Session Token W

module _ {F : Foreign} {Token W Req Ret : Type 0} (shared : Shared F Token W Req Ret) where
  open shared use {auth, refresh_expired_token, exchange}

  -- One step of a call.
  unfoldable pub proceed :
      Job F Token Req Ret → Session Token W → Job F Token Req Ret × Session Token W
  proceed (maintain task) s = let (task', s') = advance auth task s in (maintain task', s')
  proceed (call_start req) s =
      let has_creds = is_some s.creds in
      (if not refresh_expired_token || not has_creds then last_read req else first_read req, s)
  proceed (first_read req) s = (first_send req s.auth_token, s)
  proceed (first_send req token) s =
      let (resp, s') = exchange req token s in (with_answer req resp, s')
  proceed (refreshing req task) s =
      let (task', s') = advance auth task s in (with_refresh req task', s')
  proceed (last_read req) s = (last_send req s.auth_token, s)
  proceed (last_send req token) s = let (resp, s') = exchange req token s in (returned resp, s')
  proceed (returned result) s = (returned result, s)
