-- ===== src/Caller/Clones/Race.antt =====
-- A refresh of the token during an update of the user.
use etcd_client.Prelude.{String, ◌≡◌, sym, subst, some, List, [], ◌∷◌}
use etcd_client.Error.{Foreign, ok}
use etcd_client.Caller.{Session, AuthService, do_authenticate}
use etcd_client.Caller.Clones.{
  Task, refresh_start, update_login, finished, advance, here, next, Reach, stop, step,
  refresh_login, with_creds,
}

module _ {F : Foreign} {Token W : Type 0} (auth : AuthService F Token W) where
  abbrev Clones : Type 0
  Clones = List (Task F Token) × Session Token W

  -- When the server gives the old user a token and then one to the new user: one clone's refresh and
  -- another's update to the new user may run so that both succeed and leave the new user's
  -- credentials with the old user's token.
  pub race_token :
      (user password name new_password : String) (old_token new_token : Token) (s : Session Token W)
      → s.creds ≡ some (user, password)
      → (do_authenticate auth user password s).0 ≡ ok old_token
      → (do_authenticate auth name new_password (do_authenticate auth user password s).1).0
        ≡ ok new_token
      → Reach auth
          (refresh_start ∷ update_login name new_password ∷ [], s)
          (
            finished (ok tt) ∷ finished (ok tt) ∷ [],
            record (do_authenticate auth name new_password
                (do_authenticate auth user password s).1).1 {
                  auth_token = some old_token;
                  creds = some (name, new_password);
                },
          )
  unfolding advance
  race_token user password name new_password old_token new_token s set old new =
      let end : Clones = (
        finished (ok tt) ∷ finished (ok tt) ∷ [],
        record (do_authenticate auth name new_password (do_authenticate auth user password s).1).1 {
          auth_token = some old_token;
          creds = some (name, new_password);
        },
      ) in
      let rest : List (Task F Token) = update_login name new_password ∷ [] in
      let logged_in : Reach auth (refresh_login user password ∷ rest, s) end = step here (
        rw old
          (step (next here) (rw new (step (next here) (step (next here) (step here stop)))))) in
      step here (subst (λ c. Reach auth (with_creds c ∷ rest, s) end) (sym set) logged_in)
