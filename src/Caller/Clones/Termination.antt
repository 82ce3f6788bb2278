-- ===== src/Caller/Clones/Termination.antt =====
-- That a call ends whatever the other clones do.
use etcd_client.Prelude.{String, ◌≡◌, refl, ap, Option, none, some}
use etcd_client.Error.{Foreign, Result, ok, err}
use etcd_client.Caller.{Session, AuthService, do_authenticate}
use etcd_client.Caller.Clones.{
  Task, refresh_start, refresh_login, refresh_store, update_login, update_store, finished,
  with_creds, with_token, advance,
}

module _ {F : Foreign} {Token W : Type 0} (auth : AuthService F Token W) where
  abbrev pub after : Task F Token → Session Token W → Task F Token
  after task s = (advance auth task s).0

  abbrev pub IsFinished : Task F Token → Type 0
  IsFinished task = (result : Result F (Unit {0})) × (task ≡ finished result)

  answered_refresh :
      (r : Result F Token) (s3 : Session Token W)
      → IsFinished (after (with_token refresh_store r) s3)
  unfolding advance
  answered_refresh (ok token) s3 = (ok tt, refl)
  answered_refresh (err e) s3 = (err e, refl)

  answered_update :
      (name password : String) (r : Result F Token) (s2 s3 : Session Token W)
      → IsFinished (after (after (with_token (λ token. update_store token name password) r) s2) s3)
  unfolding advance
  answered_update name password (ok token) s2 s3 = (ok tt, refl)
  answered_update name password (err e) s2 s3 = (err e, refl)

  refresh_rest :
      (creds : Option (String × String)) (s2 s3 : Session Token W)
      → IsFinished (after (after (with_creds creds) s2) s3)
  unfolding advance
  refresh_rest none s2 s3 = (ok tt, refl)
  refresh_rest (some (user, password)) s2 s3 =
      answered_refresh (do_authenticate auth user password s2).0 s3

  -- Every call, wherever it stands, is finished after three steps of its own, whatever the other clones
  -- have made of the shared state before each of them.
  pub ends_in_three_steps :
      (task : Task F Token) (s1 s2 s3 : Session Token W)
      → IsFinished (after (after (after task s1) s2) s3)
  unfolding advance
  ends_in_three_steps refresh_start s1 s2 s3 = refresh_rest s1.creds s2 s3
  ends_in_three_steps (refresh_login user password) s1 s2 s3 =
      let (result, e) = answered_refresh (do_authenticate auth user password s1).0 s2 in
      (result, ap (λ task. after task s3) e)
  ends_in_three_steps (update_login name password) s1 s2 s3 =
      answered_update name password (do_authenticate auth name password s1).0 s2 s3
  ends_in_three_steps (finished result) s1 s2 s3 = (result, refl)
  ends_in_three_steps _ s1 s2 s3 = (ok tt, refl)
