-- ===== src/Examples/Stores/Server.antt =====
-- A server that holds a list of pairs and accepts requests with a token only.
use etcd_client.Prelude.{
  ℕ, pos, ◌≡◌, refl, ap, fun_ext, Bool, Bool-cases, inl, inr, true, false, not, ◌&&◌, Option, some,
  none, List, [], ◌∷◌, arith, is_empty, ltb, select, subst, lt→ltb, ltb→lt,
}
use etcd_client.Bytes.{Bytes, IsBytes, bytes_eq, in_range}
use etcd_client.Bytes.Order.{bytes_eq→eq}
use etcd_client.Error.{ok, eq_of_ok}
use etcd_client.Caller.{Session, AuthService}
use etcd_client.Rpc.{KeyValue}
use etcd_client.Kv.Put.{PutOptions, PutResponse}
use etcd_client.Kv.Get.{GetResponse, PbRangeRequest}
use etcd_client.Kv.Delete.{DeleteResponse, PbDeleteRequest}
use etcd_client.Kv.Client.{KvService, KvClient, Answer, replied, refused, into_inner}
use etcd_client.Namespace.Store.{
  Store, Applies, put_at, remove, restrict, lookup, IsKey, AreKeyed, StoreServer,
}
use etcd_client.Examples.{foreign}

abbrev pub Kept : Type 0
Kept = Session ℕ (List KeyValue)

abbrev are_bytes : Bytes → Bool
are_bytes [] = true
are_bytes (b ∷ x) = ltb b 256 && are_bytes x

abbrev is_key : Bytes → Bool
is_key x = not (is_empty x) && are_bytes x

are_bytes-IsBytes : (x : Bytes) → are_bytes x ≡ true → IsBytes x
are_bytes-IsBytes [] h = tt
are_bytes-IsBytes (b ∷ x) h = (ltb→lt b 256 (ground arith), are_bytes-IsBytes x (ground arith))

IsBytes-are_bytes : (x : Bytes) → IsBytes x → are_bytes x ≡ true
IsBytes-are_bytes [] h = refl
IsBytes-are_bytes (b ∷ x) h = ground (arith, lt→ltb b 256 h.0, IsBytes-are_bytes x h.1)

abbrev pair_of : PutOptions → KeyValue
pair_of req = record {
  key = req.key;
  create_revision = pos 1;
  mod_revision = pos 1;
  version = pos 1;
  value = req.value;
  lease = req.lease;
}

-- A pair of the interval, with a key that may be stored.
abbrev is_asked : PbRangeRequest → KeyValue → Bool
is_asked req kv = in_range req.key req.range_end kv.key && is_key kv.key

abbrev is_left : PbDeleteRequest → KeyValue → Bool
is_left req kv = not (in_range req.key req.range_end kv.key)

-- The answer with a token, and the refusal without one.
abbrev when_logged_in : {A : Type 0} → Option ℕ → A → Kept → Kept → Answer foreign A × Kept
when_logged_in none a s s' = (refused true, s)
when_logged_in (some token) a s s' = (replied a, s')

abbrev pub put_response : PutResponse
put_response = record { header = none; prev_kv = none }

abbrev pub get_response : List KeyValue → GetResponse
get_response kvs = record { header = none; kvs = kvs; more = false; count = pos 0 }

abbrev pub delete_response : DeleteResponse
delete_response = record { header = none; deleted = pos 0; prev_kvs = [] }

abbrev keeper : KvService foreign Kept
keeper = record {
  put = λ req s.
      when_logged_in s.auth_token put_response s (record s { world = pair_of req ∷ s.world });
  range = λ req s. when_logged_in s.auth_token (get_response (select (is_asked req) s.world)) s s;
  delete_range = λ req s.
      when_logged_in s.auth_token delete_response s
        (record s { world = select (is_left req) s.world });
  compact = λ req s. (refused false, s);
  txn = λ req s. (refused false, s);
}

-- Everyone gets the token 7.
abbrev doorman : AuthService foreign ℕ (List KeyValue)
doorman = record { authenticate = λ user password s. (ok "seven", s); parse = λ text. ok 7 }

abbrev pub kept_kv : KvClient foreign ℕ (List KeyValue)
kept_kv = record { auth = doorman; stub = keeper; refresh_expired_token = true }

pub lookup-select_left :
    (req : PbDeleteRequest) (kvs : List KeyValue) (x : Bytes)
    → lookup x (select (is_left req) kvs)
      ≡ remove (in_range req.key req.range_end) (λ y. lookup y kvs) x
unfolding lookup
lookup-select_left req [] x = ground arith
lookup-select_left req (kv ∷ kvs) x = elim (Bool-cases (bytes_eq kv.key x)) [
  | inl same ↦ ground (
    arith,
    ap (in_range req.key req.range_end) (bytes_eq→eq kv.key x same),
    lookup-select_left req kvs x,
  )
  | inr other ↦ ground (arith, lookup-select_left req kvs x)
]

AreKeyed-next :
    (asked : Bool) (kv : KeyValue) (kvs : List KeyValue)
    → (asked ≡ true → IsKey kv.key)
    → AreKeyed kvs
    → AreKeyed (elim asked [ true ↦ kv ∷ kvs | false ↦ kvs ])
AreKeyed-next true kv kvs k rest = (k refl, rest)
AreKeyed-next false kv kvs k rest = rest

AreKeyed-select :
    (req : PbRangeRequest) (kvs : List KeyValue) → AreKeyed (select (is_asked req) kvs)
AreKeyed-select req [] = tt
AreKeyed-select req (kv ∷ kvs) =
    AreKeyed-next (is_asked req kv) kv (select (is_asked req) kvs)
      (λ asked. (are_bytes-IsBytes kv.key (ground arith), ground arith)) (AreKeyed-select req kvs)

lookup-select_asked :
    (req : PbRangeRequest) (kvs : List KeyValue) (x : Bytes)
    → IsKey x
    → lookup x (select (is_asked req) kvs)
      ≡ restrict (in_range req.key req.range_end) (λ y. lookup y kvs) x
unfolding lookup
lookup-select_asked req [] x hx = ground arith
lookup-select_asked req (kv ∷ kvs) x (hx, n) = elim (Bool-cases (bytes_eq kv.key x)) [
  | inl same ↦ ground (
    arith,
    ap (in_range req.key req.range_end) (bytes_eq→eq kv.key x same),
    ap is_key (bytes_eq→eq kv.key x same),
    IsBytes-are_bytes x hx,
    lookup-select_asked req kvs x (hx, n),
  )
  | inr other ↦ ground (arith, lookup-select_asked req kvs x (hx, n))
]

-- A call without a token does nothing, and with one what the request says.
pub Applies-when_logged_in :
    {A : Type 0} (token : Option ℕ) (a : A) (s s' : Kept) (f : Store → Store)
    → (λ x. lookup x s'.world) ≡ f (λ x. lookup x s.world)
    → Applies
        (into_inner (when_logged_in token a s s').0)
        f
        (λ x. lookup x s.world)
        (λ x. lookup x (when_logged_in token a s s').1.world)
Applies-when_logged_in none a s s' f e = inl refl
Applies-when_logged_in (some t) a s s' f e = e

pub returned :
    (req : PbRangeRequest) (token : Option ℕ) (s : Kept) (resp : GetResponse)
    → into_inner (when_logged_in token (get_response (select (is_asked req) s.world)) s s).0
      ≡ ok resp
    → AreKeyed resp.kvs
      × ((x : Bytes)
          → IsKey x
          → lookup x resp.kvs ≡ restrict (in_range req.key req.range_end) (λ y. lookup y s.world) x)
returned req none s resp e = cc
returned req (some t) s resp e =
    subst
      (λ r.
        AreKeyed r.kvs
        × ((x : Bytes)
            → IsKey x
            → lookup x r.kvs ≡ restrict (in_range req.key req.range_end) (λ y. lookup y s.world) x))
      (eq_of_ok e) (AreKeyed-select req s.world, lookup-select_asked req s.world)

pub range_kept :
    (a : GetResponse) (token : Option ℕ) (s : Kept) → (when_logged_in token a s s).1 ≡ s
range_kept a none s = refl
range_kept a (some t) s = refl

pub put_kept :
    (req : PutOptions) (kvs : List KeyValue)
    → (λ x. lookup x (pair_of req ∷ kvs)) ≡ put_at req.key req.value (λ x. lookup x kvs)
unfolding lookup
put_kept req kvs = refl

abbrev pub kept_server : StoreServer kept_kv
kept_server = record {
  data_of = λ kvs x. lookup x kvs;
  put_sets = λ req s value.
      Applies-when_logged_in s.auth_token put_response s
        (record s { world = pair_of req ∷ s.world }) _ (put_kept req s.world);
  delete_removes = λ req s.
      Applies-when_logged_in s.auth_token delete_response s
        (record s { world = select (is_left req) s.world }) _
        (fun_ext (lookup-select_left req s.world));
  range_keeps = λ req s.
      ap (λ s' x. lookup x s'.world)
        (range_kept (get_response (select (is_asked req) s.world)) s.auth_token s);
  range_returns = λ req s resp read e. returned req s.auth_token s resp e;
  authenticate_keeps = λ user password s. refl;
}
