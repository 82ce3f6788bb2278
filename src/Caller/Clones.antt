-- ===== src/Caller/Clones.antt =====
-- Clones of a client that run at the same time: the steps of `refresh_token` and `update_user` of
-- src/caller.rs between which other clones may run, since each takes its lock only for one access and
-- waits for the server without any.
pub mod Tokens
pub mod Race
pub mod Termination
use etcd_client.Prelude.{String, ◌≡◌, refl, Option, none, some, List, [], ◌∷◌}
use etcd_client.Error.{Foreign, Error, Result, ok, err}
use etcd_client.Caller.{
  Session, AuthService, do_authenticate, refresh_with, refresh_token, update_user, set_token,
  set_creds,
}
use etcd_client.Exec.{continue, ◌>>◌}

-- Where a call stands: what it does next, with what it holds.
pub data Task (F : Foreign) (Token : Type 0) : Type 0 where
  refresh_start : Task F Token
  refresh_login : (user password : String) → Task F Token
  refresh_clear : Task F Token
  refresh_store : (token : Token) → Task F Token
  update_login : (name password : String) → Task F Token
  update_clear : Task F Token
  update_store : (token : Token) (name password : String) → Task F Token
  update_creds : (creds : Option (String × String)) → Task F Token
  finished : (result : Result F (Unit {0})) → Task F Token

module _ {F : Foreign} {Token : Type 0} where
  -- After the credentials are read.
  abbrev pub with_creds : Option (String × String) → Task F Token
  with_creds (some (user, password)) = refresh_login user password
  with_creds none = refresh_clear

  -- The start of `update_user`.
  abbrev pub update_start : Option (String × String) → Task F Token
  update_start (some (name, password)) = update_login name password
  update_start none = update_clear

  -- After the server's answer, with what is done with a token.
  abbrev pub with_token : (Token → Task F Token) → Result F Token → Task F Token
  with_token store (ok token) = store token
  with_token store (err e) = finished (err e)

module _ {F : Foreign} {Token W : Type 0} (auth : AuthService F Token W) where
  abbrev pub log_in :
      String → String → (Token → Task F Token) → Session Token W → Task F Token × Session Token W
  log_in user password store s =
      let (r, s') = do_authenticate auth user password s in (with_token store r, s')

  -- One step of a call.
  unfoldable pub advance : Task F Token → Session Token W → Task F Token × Session Token W
  advance refresh_start s = (with_creds s.creds, s)
  advance (refresh_login user password) s = log_in user password refresh_store s
  advance refresh_clear s = (finished (ok tt), record s { auth_token = none })
  advance (refresh_store token) s = (finished (ok tt), record s { auth_token = some token })
  advance (update_login name password) s =
      log_in name password (λ token. update_store token name password) s
  advance update_clear s = (update_creds none, record s { auth_token = none })
  advance (update_store token name password) s =
      (update_creds (some (name, password)), record s { auth_token = some token })
  advance (update_creds creds) s = (finished (ok tt), record s { creds = creds })
  advance (finished result) s = (finished result, s)

  -- One of the clones takes a step.
  pub data Step
      : List (Task F Token) × Session Token W → List (Task F Token) × Session Token W → Type 0 where
    here :
        {task : Task F Token} {tasks : List (Task F Token)} {s : Session Token W}
        → Step (task ∷ tasks, s) ((advance task s).0 ∷ tasks, (advance task s).1)
    next :
        {task : Task F Token} {tasks tasks' : List (Task F Token)} {s s' : Session Token W}
        → Step (tasks, s) (tasks', s')
        → Step (task ∷ tasks, s) (task ∷ tasks', s')

  -- Any number of steps, in any order of the clones.
  pub data Reach
      : List (Task F Token) × Session Token W → List (Task F Token) × Session Token W → Type 0 where
    stop : {c : List (Task F Token) × Session Token W} → Reach c c
    step : {b c d : List (Task F Token) × Session Token W} → Step b c → Reach c d → Reach b d
