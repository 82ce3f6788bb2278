-- ===== src/Examples/Jobs.antt =====
-- A request of one clone and a refresh of another, on a session whose token has expired.
use etcd_client.Prelude.{◌⊎◌, ℕ, ◌*◌, ◌≤◌, refl, true, some, [], ◌∷◌, length}
use etcd_client.Caller.{do_authenticate}
use etcd_client.Caller.Clones.{refresh_start, refresh_store, advance}
use etcd_client.Caller.Jobs.{maintain, call_start, last_send, Shared, proceed}
use etcd_client.Caller.Jobs.Order.{
  Config, Turn, here, next, Run, stop, turn, AllOver, all_calls_end,
}
use etcd_client.Examples.{foreign, World, service, expired, answer, count_request, count_login}

abbrev shared : Shared foreign ℕ World ℕ ℕ
shared = record {
  auth = service;
  refresh_expired_token = true;
  exchange = λ req token s. answer req token (count_request s);
}

abbrev both_start : Config shared
both_start = (call_start 3 ∷ maintain refresh_start ∷ [], expired)

-- The first request was refused, both clones have logged in and stored the token, and the request is
-- about to go out again with it.
abbrev sending : Config shared
sending = (
  last_send 3 (some 7) ∷ maintain (refresh_store 7) ∷ [],
  record (count_login (count_login (count_request expired))) { auth_token = some 7 },
)

until_sending : Run shared 9 both_start sending
unfolding proceed advance do_authenticate
until_sending = turn (here refl) (
    turn (here refl) (
      turn (next (here refl)) (
        turn (here refl) (
          turn (here refl) (
            turn (next (here refl))
              (turn (here refl) (turn (here refl) (turn (here refl) stop))))))))

all_calls_end_example :
    (9 ≤ 8 * length both_start.0)
    × (AllOver shared sending.0 ⊎ ((d : Config shared) × Turn shared sending d))
all_calls_end_example = all_calls_end shared 9 both_start sending until_sending
