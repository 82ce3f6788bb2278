-- ===== src/Examples/Clones.antt =====
-- Clones of a client with credentials and no token yet.
use text.Mathlib.Text.{◌==◌}
use etcd_client.Prelude.{if◌then◌else◌, ℕ, ◌≡◌, refl, some, [], ◌∷◌}
use etcd_client.Error.{ok}
use etcd_client.Caller.{AuthService, Session, do_authenticate}
use etcd_client.Caller.Clones.{refresh_start, update_login, finished, Reach}
use etcd_client.Caller.Clones.Race.{race_token}
use etcd_client.Examples.{foreign, count_login, World, expired}

-- A server that answers a login with the name of the user, and a parser that tells two users apart.
abbrev two_users : AuthService foreign ℕ World
two_users = record {
  authenticate = λ user password s. (ok user, count_login s);
  parse = λ text. ok (if text == "root" then 7 else 8);
}

root_gives : (s : Session ℕ World) → (do_authenticate two_users "root" "secret" s).0 ≡ ok 7
unfolding do_authenticate
root_gives s = refl

new_gives : (s : Session ℕ World) → (do_authenticate two_users "new" "word" s).0 ≡ ok 8
unfolding do_authenticate
new_gives s = refl

race_token_example :
    Reach two_users
      (refresh_start ∷ update_login "new" "word" ∷ [], expired)
      (
        finished (ok tt) ∷ finished (ok tt) ∷ [],
        record (do_authenticate two_users "new" "word"
            (do_authenticate two_users "root" "secret" expired).1).1 {
              auth_token = some 7;
              creds = some ("new", "word");
            },
      )
race_token_example =
    race_token two_users "root" "secret" "new" "word" 7 8 expired refl (root_gives expired)
      (new_gives (do_authenticate two_users "root" "secret" expired).1)
