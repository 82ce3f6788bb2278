-- ===== src/Examples/Channels.antt =====
-- A server behind the channel of all services, that answers a call with the token "seven", and gives
-- this token to everyone.
use text.Mathlib.Text.{◌==◌}
use etcd_client.Prelude.{
  ◌+◌, pos, String, Bool, true, false, ◌||◌, none, List, [], ◌∷◌, ◌≡◌, refl, ap, ◌∙◌, if◌then◌else◌,
  arith,
}
use etcd_client.Kv.Txn.{txn_response, no_responses}
use etcd_client.Error.{Result, ok}
use etcd_client.Kv.Client.{Answer, replied, refused, into_inner}
use etcd_client.Caller.Retry.{is_rejected}
use etcd_client.Intercept.{token_header}
use etcd_client.Auth.{AuthenticateResponse}
use etcd_client.Service.{Method, Streams, Reply, is_open}
use etcd_client.Service.Channel.{Channel}
use etcd_client.Client.Operations.Bounds.{is_authenticate, Meter}
use etcd_client.Client.Operations.Recovery.{Serves}
use etcd_client.Examples.{foreign, World}
use etcd_client.Examples.Headers.{entries}

abbrev pub unit_streams : Streams
unit_streams = record {
  WatchSender = Unit;
  WatchStream = Unit;
  LeaseSender = Unit;
  LeaseStream = Unit;
  SnapshotStream = Unit;
  ObserveStream = Unit;
}

abbrev reply : (m : Method) → Reply unit_streams m
reply Method.kv_put = record { header = none; prev_kv = none }
reply Method.kv_range = record { header = none; kvs = []; more = false; count = pos 0 }
reply Method.kv_delete_range = record { header = none; deleted = pos 0; prev_kvs = [] }
reply Method.kv_compact = record { header = none }
reply Method.kv_txn = txn_response none true no_responses
reply Method.watch_watch = tt
reply Method.lease_grant = record { header = none; id = pos 7; ttl = pos 60; error = "" }
reply Method.lease_revoke = record { header = none }
reply Method.lease_keep_alive = tt
reply Method.lease_time_to_live = record {
  header = none;
  id = pos 7;
  ttl = pos 60;
  granted_ttl = pos 60;
  keys = [];
}
reply Method.lease_leases = record { header = none; leases = [] }
reply Method.lock_lock = record { header = none; key = [] }
reply Method.lock_unlock = record { header = none }
reply Method.auth_enable = record { header = none }
reply Method.auth_disable = record { header = none }
reply Method.auth_authenticate = record { header = none; token = "seven" }
reply Method.auth_role_add = record { header = none }
reply Method.auth_role_delete = record { header = none }
reply Method.auth_role_get = record { header = none; perm = [] }
reply Method.auth_role_list = record { header = none; roles = [] }
reply Method.auth_role_grant_permission = record { header = none }
reply Method.auth_role_revoke_permission = record { header = none }
reply Method.auth_user_add = record { header = none }
reply Method.auth_user_get = record { header = none; roles = [] }
reply Method.auth_user_list = record { header = none; users = [] }
reply Method.auth_user_delete = record { header = none }
reply Method.auth_user_change_password = record { header = none }
reply Method.auth_user_grant_role = record { header = none }
reply Method.auth_user_revoke_role = record { header = none }
reply Method.maintenance_alarm = record { header = none; alarms = [] }
reply Method.maintenance_status = record {
  header = none;
  version = "3";
  db_size = pos 0;
  leader = 1;
  raft_index = 1;
  raft_term = 1;
  raft_applied_index = 1;
  errors = [];
  db_size_in_use = pos 0;
  is_learner = false;
}
reply Method.maintenance_defragment = record { header = none }
reply Method.maintenance_hash = record { header = none; hash = 0 }
reply Method.maintenance_hash_kv = record { header = none; hash = 0; compact_revision = pos 0 }
reply Method.maintenance_snapshot = tt
reply Method.maintenance_move_leader = record { header = none }
reply Method.cluster_member_add = record { header = none; member = none; members = [] }
reply Method.cluster_member_remove = record { header = none; members = [] }
reply Method.cluster_member_update = record { header = none; members = [] }
reply Method.cluster_member_list = record { header = none; members = [] }
reply Method.cluster_member_promote = record { header = none; members = [] }
reply Method.election_campaign = record { header = none; leader = none }
reply Method.election_proclaim = record { header = none }
reply Method.election_leader = record { header = none; kv = none }
reply Method.election_observe = tt
reply Method.election_resign = record { header = none }

abbrev is_seven : List String → Bool
is_seven [] = false
is_seven (token ∷ []) = token == "seven"
is_seven (token ∷ other ∷ rest) = false

abbrev count : Bool → World → World
count true w = record w { authenticated = w.authenticated + 1 }
count false w = record w { sent = w.sent + 1 }

abbrev respond : (m : Method) → Bool → Answer foreign (Reply unit_streams m)
respond m true = replied (reply m)
respond m false = refused true

abbrev pub channel : Channel foreign entries unit_streams World
channel = record {
  empty = [];
  rpc = λ m request payload w. (
    respond m (is_open m || is_seven (entries.get_all token_header request.metadata)),
    count (is_authenticate m) w,
  );
  watch_channel = λ size w. ((tt, 1), w);
  watch_send = λ sender request w. (none, w);
  watch_message = λ stream w. (replied none, w);
  lease_channel = λ size w. ((tt, 1), w);
  lease_send = λ sender request w. (none, w);
  lease_message = λ stream w. (replied none, w);
  snapshot_message = λ stream w. (replied none, w);
  observe_message = λ stream w. (replied none, w);
}

pub count_sent : (b : Bool) (w : World) → (count b w).sent ≡ w.sent + (if b then 0 else 1)
count_sent true w = ground arith
count_sent false w = refl

pub count_authenticated :
    (b : Bool) (w : World) → (count b w).authenticated ≡ w.authenticated + (if b then 1 else 0)
count_authenticated true w = refl
count_authenticated false w = ground arith

abbrev pub meter : Meter channel
meter = record {
  sent = λ w. w.sent;
  authenticated = λ w. w.authenticated;
  sent_counts = λ m request payload w. count_sent (is_authenticate m) w;
  authenticated_counts = λ m request payload w. count_authenticated (is_authenticate m) w;
  channel_counts = λ size w. (refl, refl);
  send_counts = λ sender request w. (refl, refl);
}

abbrev pub parse : String → Result foreign String
parse text = ok text

accepted :
    (m : Method) (b : Bool) (tokens : List String) (token : String)
    → tokens ≡ token ∷ []
    → token ≡ "seven"
    → is_rejected (into_inner (respond m (b || is_seven tokens))) ≡ false
accepted m true tokens token carried seven = refl
accepted m false tokens token carried seven =
    ap (λ t. is_rejected (into_inner (respond m (is_seven t)))) (carried ∙ ap (λ t. t ∷ []) seven)

gives_seven :
    (resp : AuthenticateResponse) (token : String)
    → ◌≡◌ {A = Answer foreign AuthenticateResponse}
        (replied (reply Method.auth_authenticate))
        (replied resp)
    → parse resp.token ≡ ok token
    → token ≡ "seven"
gives_seven resp token answered parsed = cc

pub server : Serves channel parse "root" "secret"
server = record {
  Accepts = λ token w. token ≡ "seven";
  accepted = λ m request payload w token carried seven.
      accepted m (is_open m) (entries.get_all token_header request.metadata) token carried seven;
  open_accepted = λ m request payload w free. rw free refl;
  logs_in = λ request w resp token answered parsed. gives_seven resp token answered parsed;
  parses = λ text. refl;
}
