-- ===== src/Examples/Watchers.antt =====
-- A watch of "foo" that then watches "bar", asks for the progress and cancels, on a channel whose
-- requests are the world.
use etcd_client.Prelude.{ℕ, pos, ◌≡◌, refl, true, none, some, List, [], ◌∷◌, ◌++◌, map}
use etcd_client.Error.{ok}
use etcd_client.Caller.{Session, AuthService, do_call}
use etcd_client.Kv.Client.{replied}
use etcd_client.Watch.{
  new, with_prefix, WatchRequest, WatchService, watch, watch_impl, send_watch, cancel,
  request_progress, send,
}
use etcd_client.Watch.Requests.{
  Delivered, Call, call_watch, call_cancel, call_progress, request_of, run_calls,
  watch_session_sends,
}
use etcd_client.Examples.{foreign, foo, bar}

abbrev Received : Type 0
Received = List WatchRequest

abbrev watch_service : WatchService foreign (Session ℕ Received)
watch_service = record {
  Sender = ℕ;
  Receiver = ℕ;
  Stream = ℕ;
  channel = λ size s. ((1, 3), record s { world = [] });
  watch = λ receiver s. (replied 2, s);
  send = λ sender req s. (none, record s { world = s.world ++ req ∷ [] });
  message = λ stream s. (replied none, s);
}

abbrev delivered : Delivered watch_service
delivered = record {
  sent = λ sender s. s.world;
  created = λ size s. refl;
  sends = λ sender req s h. refl;
  call_keeps = λ sender receiver s. refl;
}

abbrev open_service : AuthService foreign ℕ Received
open_service = record { authenticate = λ user password s. (ok "seven", s); parse = λ text. ok 7 }

abbrev fresh : Session ℕ Received
fresh = record { auth_token = none; creds = none; world = [] }

abbrev three_calls : List Call
three_calls = call_watch bar (some (with_prefix new)) ∷ call_progress ∷ call_cancel (pos 1) ∷ []

watch_foo : (watch watch_service open_service true foo none fresh).0 ≡ ok (1, 2)
unfolding watch watch_impl send do_call
watch_foo = refl

calls_run :
    (run_calls watch_service 1 three_calls
      (watch watch_service open_service true foo none fresh).1).0
    ≡ ok tt
unfolding watch watch_impl do_call run_calls send_watch cancel request_progress send
calls_run = refl

watch_session_sends_example :
    (run_calls watch_service 1 three_calls
      (watch watch_service open_service true foo none fresh).1).1.world
    ≡ request_of (call_watch foo none) ∷ map request_of three_calls
watch_session_sends_example =
    watch_session_sends watch_service delivered open_service true foo none three_calls fresh 1 2 tt
      watch_foo calls_run
