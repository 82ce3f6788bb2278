-- ===== src/Examples/Handles.antt =====
-- A new connection on a heap where another client has its cells.
use etcd_client.Prelude.{◌+◌, Option, ℕ, String, ◌≡◌, true, some, none, [], ◌∷◌}
use etcd_client.Error.{ok}
use etcd_client.Caller
use etcd_client.Caller.Handles.{Heap, Network, do_call_on_heap, update_user_on_heap}
use etcd_client.Caller.Handles.OnCells.{session_at, HasCells, IsOnCells}
use etcd_client.Caller.Handles.Callers.{session_auth, session_call}
use etcd_client.Caller.Handles.Clients.{
  CalledService, caller_of, clients_share_session, opened, new_heap,
}
use etcd_client.Examples.{foreign}
use etcd_client.Examples.Sessions.{login}

-- The server counts its calls, gives the token 7 and answers with the request.
abbrev network : Network foreign ℕ ℕ ℕ ℕ
network = record {
  authenticate = λ token user password w. (ok "seven", w + 1);
  parse = λ text. ok 7;
  exchange = λ req token w. (ok req, w + 1);
}

-- Another client has the token 3 and the user "other".
abbrev used_heap : Heap ℕ ℕ
used_heap = record {
  token_cells = some 3 ∷ [];
  creds_cells = some ("other", "word") ∷ [];
  world = 0;
}

clients_share_session_example :
    HasCells 1 1 (new_heap network true login true used_heap)
    × (session_at 1 1 (new_heap network true login true used_heap)
        ≡ record { auth_token = none; creds = login; world = 0 })
    × ((i : CalledService) (req : ℕ)
        → IsOnCells 1 1
            (do_call_on_heap network (caller_of (opened network true login true used_heap) i) req)
            (Caller.do_call (session_auth network) true req (session_call network)))
    × ((creds : Option (String × String))
        → IsOnCells 1 1
            (update_user_on_heap network
              (opened network true login true used_heap).client_caller
              creds)
            (Caller.update_user (session_auth network) creds))
clients_share_session_example = clients_share_session network true login true used_heap
