-- ===== src/Examples/Concurrent.antt =====
-- A client without a token asks for a lock, another clone lists the members, and a third one refreshes
-- the token.
use etcd_client.Prelude.{◌⊎◌, String, ◌≡◌, refl, true, some, none, List, [], ◌∷◌}
use etcd_client.Caller.{Session, do_authenticate}
use etcd_client.Caller.Clones.{refresh_store, advance}
use etcd_client.Caller.Jobs.Tokens.{RunLogs}
use etcd_client.Caller.Jobs.{maintain, first_read, last_send, proceed}
use etcd_client.Caller.Jobs.Order.{Config, here, next, Run, stop, turn}
use etcd_client.Intercept
use etcd_client.Auth.Client.{authenticate}
use etcd_client.Service.{path}
use etcd_client.Service.Channel.{intercepted, invoke}
use etcd_client.Client.Requests.{Operation, method_of, payload_of}
use etcd_client.Client.Operations.Credentials.{shared, jobs_of, AllSendOwn, operations_send_own}
use etcd_client.Examples.{World}
use etcd_client.Examples.Headers.{entries, entries-IsMultimap}
use etcd_client.Examples.Channels.{unit_streams, channel, parse}
use etcd_client.Examples.Operations.{lock_foo}

abbrev fresh : Session String World
fresh = record {
  auth_token = none;
  creds = some ("root", "secret");
  world = record { sent = 0; authenticated = 0 };
}

abbrev Point : Type 0
Point = Config (shared entries entries-IsMultimap unit_streams channel refl "true" true parse true)

abbrev two_operations : List Operation
two_operations = lock_foo ∷ Operation.member_list ∷ []

-- The first try of the lock was refused; it is about to go out again with the new token.
abbrev locking : Point
locking = (
  last_send (method_of lock_foo, payload_of lock_foo) (some "seven")
      ∷ first_read (method_of Operation.member_list, payload_of Operation.member_list)
      ∷ maintain (refresh_store "seven")
      ∷ [],
  record {
    auth_token = some "seven";
    creds = some ("root", "secret");
    world = record { sent = 1; authenticated = 2 };
  },
)

until_locking :
    Run
      (shared entries entries-IsMultimap unit_streams channel refl "true" true parse true)
      10
      (
        jobs_of entries entries-IsMultimap unit_streams channel refl "true" true parse true
            two_operations 1,
        fresh,
      )
      locking
unfolding proceed advance do_authenticate method_of payload_of intercepted invoke authenticate
    Intercept.call path
until_locking = turn (here refl) (
    turn (here refl) (
      turn (here refl) (
        turn (next (here refl)) (
          turn (next (next (here refl))) (
            turn (next (next (here refl)))
              (turn (here refl) (turn (here refl) (turn (here refl) (turn (here refl) stop)))))))))

operations_send_own_example :
    AllSendOwn entries entries-IsMultimap unit_streams channel refl "true" true parse true
      (λ token.
        (fresh.auth_token ≡ some token)
        ⊎ RunLogs
            (shared entries entries-IsMultimap unit_streams channel refl "true" true parse true)
            until_locking
            "root"
            "secret"
            token)
      locking.0
    × (locking.1.creds ≡ some ("root", "secret"))
operations_send_own_example =
    operations_send_own entries entries-IsMultimap unit_streams channel refl "true" true parse true
      "root" "secret" two_operations 1 fresh 10 locking refl until_locking
