-- ===== src/Caller/Clones/Tokens.antt =====
-- Whose token the clones of a client share.
use etcd_client.Prelude.{String, ◌≡◌, refl, ◌∙◌, arith, Option, none, some}
use etcd_client.Error.{Foreign, Result, ok, err}
use etcd_client.Caller.{Session, AuthService, do_authenticate}
use etcd_client.Caller.Tokens.{Leaves}
use etcd_client.Caller.Clones.{
  Task, refresh_start, refresh_login, refresh_clear, refresh_store, finished, with_creds,
  with_token, advance, update_login,
}

-- The name and the password of the login that is the next step.
abbrev pub task_login : {F : Foreign} {Token : Type 0} → Task F Token → Option (String × String)
task_login (refresh_login user password) = some (user, password)
task_login (update_login name password) = some (name, password)
task_login _ = none

-- `Gives` are tokens that were given for a name and a password.
module _ {F : Foreign} {Token W : Type 0} (auth : AuthService F Token W) (kept : Leaves auth)
    (Gives : String → String → Token → Type 0) where
  -- The token, if there is one, belongs to the credentials.
  abbrev pub Matches : Option (String × String) → Option Token → Type 0
  Matches creds none = Unit
  Matches none (some token) = ⊥
  Matches (some (user, password)) (some token) = Gives user password token

  -- The call is a refresh, and what it holds belongs to the credentials.
  abbrev pub IsRefresh : Option (String × String) → Task F Token → Type 0
  IsRefresh creds refresh_start = Unit
  IsRefresh creds (refresh_login user password) = creds ≡ some (user, password)
  IsRefresh creds refresh_clear = creds ≡ none
  IsRefresh creds (refresh_store token) = Matches creds (some token)
  IsRefresh creds (finished result) = Unit
  IsRefresh creds _ = ⊥

  -- The shared credentials are these, and the shared token belongs to them.
  abbrev pub IsMatched : Option (String × String) → Session Token W → Type 0
  IsMatched creds s = (s.creds ≡ creds) × Matches creds s.auth_token

  pub do_authenticate_keeps :
      (user password : String) (s : Session Token W)
      → ((do_authenticate auth user password s).1.creds ≡ s.creds)
        × ((do_authenticate auth user password s).1.auth_token ≡ s.auth_token)
  unfolding do_authenticate
  do_authenticate_keeps user password s =
      ground (arith, kept.creds_kept user password s, kept.token_kept user password s)

  with_creds-IsRefresh : (creds : Option (String × String)) → IsRefresh creds (with_creds creds)
  with_creds-IsRefresh none = refl
  with_creds-IsRefresh (some (user, password)) = refl

  with_token-IsRefresh :
      (user password : String) (s : Session Token W) (r : Result F Token)
      → ((token : Token) → r ≡ ok token → Gives user password token)
      → IsRefresh (some (user, password)) (with_token refresh_store r)
  with_token-IsRefresh user password s (ok token) gives = gives token refl
  with_token-IsRefresh user password s (err e) gives = tt

  -- A step keeps all this, when a login that it makes gives its token.
  pub advance-IsRefresh :
      (creds : Option (String × String)) (task : Task F Token) (s : Session Token W)
      → ((user password : String) (token : Token)
          → task_login task ≡ some (user, password)
          → (do_authenticate auth user password s).0 ≡ ok token
          → Gives user password token)
      → IsRefresh creds task
      → IsMatched creds s
      → IsRefresh creds (advance auth task s).0 × IsMatched creds (advance auth task s).1
  unfolding advance
  advance-IsRefresh creds refresh_start s gives fits (same, matched) =
      (rw same (with_creds-IsRefresh creds), (same, matched))
  advance-IsRefresh creds (refresh_login user password) s gives fits (same, matched) =
      let (creds_kept, token_kept) = do_authenticate_keeps user password s in
      (
        rw fits (
            with_token-IsRefresh user password s (do_authenticate auth user password s).0
              (λ token given. gives user password token refl given)),
        (creds_kept ∙ same, rw token_kept matched),
      )
  advance-IsRefresh creds refresh_clear s gives fits (same, matched) = (tt, (same, tt))
  advance-IsRefresh creds (refresh_store token) s gives fits (same, matched) = (tt, (same, fits))
  advance-IsRefresh creds (finished result) s gives fits matched = (tt, matched)
  advance-IsRefresh creds _ s gives fits matched = absurd fits
