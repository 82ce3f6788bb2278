-- ===== src/Namespace/Isolation.antt =====
-- What `get` of a namespace client returns, when the server answers range requests as documented.
use etcd_client.Prelude.{
  pos, ◌≡◌, refl, sym, ◌∙◌, ap, Bool, false, some, List, [], ◌∷◌, map, arith, is_empty, select,
}
use etcd_client.Error.{Foreign, ok}
use etcd_client.Exec.{continue-pure_ok}
use etcd_client.Bytes.{Bytes, IsBytes, in_range}
use etcd_client.Rpc.{KeyValue}
use etcd_client.KeyRange.Build.{covers}
use etcd_client.VecExt.{strip_key_prefix}
use etcd_client.VecExt.Edge.{carries}
use etcd_client.VecExt.Interval.{namespace_view}
use etcd_client.Caller.{Session}
use etcd_client.Caller.Retry.{do_call_origin}
use etcd_client.Kv.Get
use etcd_client.Kv.Get.{GetOptions, PbRangeRequest, GetResponse, strip_kvs, strip_kvs_prefix}
use etcd_client.Kv.Client
use etcd_client.Kv.Client.{KvService, unary}
use etcd_client.Namespace.{KvClientPrefix, get}
use etcd_client.Namespace.Requests.{IsBounded, sent_get, sent_get_exact}

-- A request that asks for all keys of its interval, in the order of the keys.
pub record IsPlain (req : PbRangeRequest) : Type 0 where
  pub limit : req.limit ≡ pos 0
  pub revision : req.revision ≡ pos 0
  pub sort_order : req.sort_order ≡ 0
  pub sort_target : req.sort_target ≡ 0
  pub count_only : req.count_only ≡ false
  pub min_mod_revision : req.min_mod_revision ≡ pos 0
  pub max_mod_revision : req.max_mod_revision ≡ pos 0
  pub min_create_revision : req.min_create_revision ≡ pos 0
  pub max_create_revision : req.max_create_revision ≡ pos 0

-- A key that is a byte string, and is not the prefix of the namespace itself.
abbrev pub AreKeys : Bytes → List Bytes → Type 0
AreKeys pfx [] = Unit
AreKeys pfx (x ∷ xs) = IsBytes x × (is_empty (strip_key_prefix pfx x) ≡ false) × AreKeys pfx xs

-- The documented behaviour of a range request (proto/rpc.proto): the response holds the stored keys
-- of the interval, in their order.
pub record RangeServer {F : Foreign} {S : Type 0} (stub : KvService F S) : Type 0 where
  pub stored : S → List Bytes
  pub range_keys :
      (req : PbRangeRequest) (s : S) (resp : GetResponse)
      → IsPlain req
      → (unary stub.range req s).0 ≡ ok resp
      → map (λ kv. kv.key) resp.kvs ≡ select (in_range req.key req.range_end) (stored s)

keys-strip_kvs :
    (pfx : Bytes) (kvs : List KeyValue)
    → map (λ kv. kv.key) (strip_kvs pfx kvs) ≡ map (strip_key_prefix pfx) (map (λ kv. kv.key) kvs)
keys-strip_kvs pfx [] = refl
keys-strip_kvs pfx (kv ∷ kvs) = ap (λ t. strip_key_prefix pfx kv.key ∷ t) (keys-strip_kvs pfx kvs)

pub IsPlain-sent_get :
    (pfx key : Bytes) (options : GetOptions)
    → IsPlain options.req
    → IsPlain (sent_get pfx key options)
unfolding sent_get Get.into_request Get.with_key Get.map_range_end
IsPlain-sent_get pfx key options p = record {
  limit = p.limit;
  revision = p.revision;
  sort_order = p.sort_order;
  sort_target = p.sort_target;
  count_only = p.count_only;
  min_mod_revision = p.min_mod_revision;
  max_mod_revision = p.max_mod_revision;
  min_create_revision = p.min_create_revision;
  max_create_revision = p.max_create_revision;
}

module _ (pfx key : Bytes) (options : GetOptions) (hp : IsBytes pfx) (hk : IsBytes key)
    (c : carries pfx ≡ false) (b : IsBounded options.key_range) where
  abbrev sent : PbRangeRequest
  sent = sent_get pfx key options

  abbrev wanted : Bytes → Bool
  wanted = covers (record options.key_range { key = key })

  -- The keys that the sent request means, stripped, are those that the caller's request means in the
  -- namespace.
  select-sent_get :
      (keys : List Bytes)
      → AreKeys pfx keys
      → map (strip_key_prefix pfx) (select (in_range sent.key sent.range_end) keys)
        ≡ select wanted (namespace_view pfx keys)
  select-sent_get [] hx = refl
  select-sent_get (x ∷ keys) (hx, n, rest) =
      ground (arith, sent_get_exact pfx key x hp hk hx c n options b, select-sent_get keys rest)

  -- Every answer of the server to that request, stripped, holds the wanted keys of the namespace.
  answer_keys :
      {F : Foreign} {S : Type 0} (stub : KvService F S) (server : RangeServer stub)
      → IsPlain options.req
      → (s : S) (resp : GetResponse) → AreKeys pfx (server.stored s)
      → (unary stub.range sent s).0 ≡ ok resp
      → map (λ kv. kv.key) (strip_kvs_prefix pfx resp).kvs
        ≡ select wanted (namespace_view pfx (server.stored s))
  unfolding strip_kvs_prefix
  answer_keys stub server p s resp keys e =
      keys-strip_kvs pfx resp.kvs
      ∙ ap (map (strip_key_prefix pfx))
          (server.range_keys sent s resp (IsPlain-sent_get pfx key options p) e)
      ∙ select-sent_get (server.stored s) keys

-- When the server answers range requests as documented, the request asks for all keys of its
-- interval in their order, no stored key is the prefix itself, and the increment of the prefix
-- carries out of no last byte 0xff: a `get` of a namespace client that succeeds returns, for some
-- state of the store during the call, exactly the keys that the caller's request, in interval or
-- prefix mode, means in the namespace, in the store's order and without the prefix: it is the
-- request run on a store of that namespace alone.
pub get-namespace_view :
    {F : Foreign} {Token W : Type 0} (self : KvClientPrefix F Token W)
    (server : RangeServer self.kv.stub) (key : Bytes) (options : GetOptions) (s : Session Token W)
    (resp : GetResponse)
    → IsBytes self.pfx
    → IsBytes key
    → carries self.pfx ≡ false
    → IsBounded options.key_range
    → IsPlain options.req
    → ((s' : Session Token W) → AreKeys self.pfx (server.stored s'))
    → (get self key (some options) s).0 ≡ ok resp
    → (s' : Session Token W) × (map (λ kv. kv.key) resp.kvs
        ≡ select
            (covers (record options.key_range { key = key }))
            (namespace_view self.pfx (server.stored s')))
unfolding get Client.get sent_get
get-namespace_view self server key options s resp hp hk c b p keys e =
    let (raw, got, stripped) = continue-pure_ok _ (strip_kvs_prefix self.pfx) _ resp e in
    let (s', run, answered) =
      do_call_origin self.kv.auth _ self.kv.refresh_expired_token _ s raw got in
    (
      s',
      ap (λ r. map (λ kv. kv.key) r.kvs) (sym stripped)
          ∙ answer_keys self.pfx key options hp hk c b self.kv.stub server p s' raw (keys s')
              answered,
    )
