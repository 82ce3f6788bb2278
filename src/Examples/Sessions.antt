-- ===== src/Examples/Sessions.antt =====
-- A client with credentials whose token has expired, and one that logs in and out.
use etcd_client.Prelude.{ℕ, ◌≡◌, refl, String, false, Option, none, some}
use etcd_client.Error.{Error, ok, err}
use etcd_client.Caller.{AuthService, update_user}
use etcd_client.Caller.Tokens.{Leaves, update_user_atomic}
use etcd_client.Examples.{World, foreign, service, logged_out, expired, count_login}

-- A server that refuses every authentication.
abbrev closed : AuthService foreign ℕ World
closed = record {
  authenticate = λ user password s. (err (Error.grpc_status false), count_login s);
  parse = λ text. ok 7;
}

closed_leaves : Leaves closed
closed_leaves = record {
  token_kept = λ user password s. refl;
  creds_kept = λ user password s. refl;
}

abbrev pub login : Option (String × String)
login = some ("root", "secret")

update_user_refused : (update_user closed login expired).0 ≡ err (Error.grpc_status false)
unfolding update_user
update_user_refused = refl

update_user_atomic_example :
    ((update_user closed login expired).1.auth_token ≡ none)
    × ((update_user closed login expired).1.creds ≡ some ("root", "secret"))
update_user_atomic_example =
    update_user_atomic closed closed_leaves login expired (Error.grpc_status false)
      update_user_refused

update_user_ok : (update_user service login logged_out).0 ≡ ok tt
unfolding update_user
update_user_ok = refl
