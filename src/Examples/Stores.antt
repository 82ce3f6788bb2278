-- ===== src/Examples/Stores.antt =====
-- The calls of namespace clients on a concrete server.
mod Server
use etcd_client.Prelude.{
  ℕ, pos, ◌≡◌, refl, sym, ap, ◌∙◌, fun_ext, String, Bool, Bool-cases, inl, inr, true, false, not,
  ◌&&◌, Option, some, none, List, [], ◌∷◌, ◌++◌, arith, is_empty, ltb, select, subst, lt→ltb,
  ltb→lt,
}
use etcd_client.Bytes.{Bytes, IsBytes, bytes_eq, in_range, starts_with}
use etcd_client.Bytes.Order.{bytes_eq→eq}
use etcd_client.Error.{Foreign, ok, err, grpc_status, eq_of_ok, Result}
use etcd_client.Caller.{Session, AuthService}
use etcd_client.Rpc.{KeyValue}
use etcd_client.VecExt.Edge.{carries}
use etcd_client.Kv.Put
use etcd_client.Kv.Put.{PutOptions, PutResponse}
use etcd_client.Kv.Get
use etcd_client.Kv.Get.{GetResponse, PbRangeRequest}
use etcd_client.Kv.Delete
use etcd_client.Kv.Delete.{DeleteResponse, PbDeleteRequest}
use etcd_client.Kv.Client.{KvService, KvClient, Answer, replied, refused, into_inner}
use etcd_client.Namespace.{KvClientPrefix}
use etcd_client.Namespace.Store.{
  Store, Applies, put_at, remove, restrict, lookup, IsKey, AreKeyed, StoreServer, IsRead,
}
use etcd_client.Kv.Client
use etcd_client.KeyRange
use etcd_client.Kv.Delete.{DeleteOptions}
use etcd_client.Caller.{do_call, refresh_token, refresh_with, do_authenticate}
use etcd_client.Namespace.{put, get, delete, prefixed_key}
use etcd_client.VecExt.{prefix_with, strip_key_prefix}
use etcd_client.Kv.Put.{strip_prev_key_prefix}
use etcd_client.Namespace.Store.{
  Op, put_op, get_op, delete_op, OpReply, put_reply, get_reply, delete_reply, Agrees, Served,
  ArePlainOps, IsPlainOp,
}
use etcd_client.Namespace.Store.Performs.{run, after}
use etcd_client.Namespace.Store.Refinement.{Calls-Served, call, no_calls, run_outside}
use etcd_client.Namespace.Store.Sharing.{
  IsNamespace, AreApart, Both-Served, left_call, right_call, neither,
}
use etcd_client.Examples.{foreign, foo, bar, foobar, foo-IsBytes, bar-IsBytes}
use etcd_client.Examples.Stores.Server.{
  Kept, put_response, get_response, delete_response, kept_kv, kept_server,
}

abbrev foo_kept : KvClientPrefix foreign ℕ (List KeyValue)
foo_kept = record { pfx = foo; kv = kept_kv }

abbrev bar_kept : KvClientPrefix foreign ℕ (List KeyValue)
bar_kept = record { pfx = bar; kv = kept_kv }

-- The credentials are set, there is no token yet, and "foobar" is not stored.
abbrev start : Kept
start = record { auth_token = none; creds = some ("root", "secret"); world = [] }

abbrev one : Bytes
one = 1 ∷ []

abbrev nothing : Store
nothing x = none

abbrev put_bar : Op
put_bar = put_op bar one none

abbrev get_bar : Op
get_bar = get_op bar none

abbrev prefix_options : DeleteOptions
prefix_options = record Delete.new { key_range = record KeyRange.new { prefix_flag = true } }

abbrev delete_all : Op
delete_all = delete_op bar (some prefix_options)

-- What the client returns: the first call gets a token on the way.
abbrev bar_pair : KeyValue
bar_pair = record {
  key = bar;
  create_revision = pos 1;
  mod_revision = pos 1;
  version = pos 1;
  value = one;
  lease = pos 0;
}

abbrev results : List (Result foreign OpReply)
results =
    ok (put_reply put_response)
    ∷ ok (get_reply (get_response (bar_pair ∷ [])))
    ∷ ok (delete_reply delete_response)
    ∷ []

abbrev foo_namespace : IsNamespace foo
foo_namespace = record { bytes = foo-IsBytes; no_carry = unfold carries in refl }

abbrev bar_namespace : IsNamespace bar
bar_namespace = record { bytes = bar-IsBytes; no_carry = unfold carries in refl }

abbrev plain_read : IsRead Get.new.req
plain_read = record {
  plain = record {
    limit = refl;
    revision = refl;
    sort_order = refl;
    sort_target = refl;
    count_only = refl;
    min_mod_revision = refl;
    max_mod_revision = refl;
    min_create_revision = refl;
    max_create_revision = refl;
  };
  serializable = refl;
  keys_only = refl;
}

abbrev plain_delete : IsPlainOp delete_all
plain_delete = (bar-IsBytes, record { not_from_key = refl; not_all_keys = refl })

abbrev plain_ops : ArePlainOps (put_bar ∷ get_bar ∷ delete_all ∷ [])
plain_ops = (
  refl,
  (
    (bar-IsBytes, record { not_from_key = refl; not_all_keys = refl }, plain_read),
    (plain_delete, tt),
  ),
)

none_stored : (pfx : Bytes) → Agrees pfx (λ x. lookup x []) nothing
unfolding lookup
none_stored pfx x hx = refl

abbrev end_kept : Kept
end_kept = after foo_kept delete_all (after foo_kept get_bar (after foo_kept put_bar start))

Calls-Served_example :
    (e' : Store) × Served {F = foreign} (put_bar ∷ get_bar ∷ delete_all ∷ []) results nothing e'
    × Agrees foo (λ x. lookup x end_kept.world) e'
unfolding run put get delete Client.put Client.get Client.delete do_call prefixed_key prefix_with
    Put.with_kv strip_prev_key_prefix refresh_token refresh_with do_authenticate
    Get.strip_kvs_prefix Delete.strip_prev_kvs_prefix in_range Get.into_request KeyRange.build
    Get.with_key KeyRange.with_key bytes_eq strip_key_prefix starts_with
Calls-Served_example =
    Calls-Served foo_kept kept_server {s = start} nothing (call (call (call no_calls))) foo-IsBytes
      foo_namespace.no_carry plain_ops (none_stored foo)

run_outside_example : lookup bar (after foo_kept delete_all start).world ≡ lookup bar start.world
run_outside_example =
    run_outside foo_kept kept_server delete_all start bar foo-IsBytes foo_namespace.no_carry
      plain_delete (bar-IsBytes, refl) (unfold starts_with in refl)

abbrev both_apart : AreApart foo bar
both_apart = record { left = unfold starts_with in refl; right = unfold starts_with in refl }

abbrev shared_end : Kept
shared_end = after bar_kept get_bar (after foo_kept put_bar start)

Both-Served_example :
    ((f : Store) × Served {F = foreign} (put_bar ∷ []) (ok (put_reply put_response) ∷ []) nothing f
      × Agrees foo (λ x. lookup x shared_end.world) f)
    × ((f' : Store) × Served {F = foreign}
          (get_bar ∷ [])
          (ok (get_reply (get_response [])) ∷ [])
          nothing
          f'
        × Agrees bar (λ x. lookup x shared_end.world) f')
unfolding run put get delete Client.put Client.get Client.delete do_call prefixed_key prefix_with
    Put.with_kv strip_prev_key_prefix refresh_token refresh_with do_authenticate
    Get.strip_kvs_prefix Delete.strip_prev_kvs_prefix in_range Get.into_request KeyRange.build
    Get.with_key KeyRange.with_key bytes_eq strip_key_prefix starts_with
Both-Served_example =
    Both-Served kept_kv kept_server foo bar foo_namespace bar_namespace both_apart {s = start}
      nothing nothing (left_call (right_call neither)) (refl, tt) (plain_ops.1.0, tt)
      (none_stored foo) (none_stored bar)
