-- ===== src/Namespace/Store.antt =====
-- The store behind the key-value service as its clients see it, and the store of one namespace: what
-- each operation of src/namespace/kv.rs means for a client that has the keys of its namespace alone.
pub mod Effects
pub mod Calls
pub mod Lookup
pub mod Performs
pub mod Answers
pub mod Refinement
pub mod Sharing
use etcd_client.Prelude.{
  ◌≡◌, String, Bool, true, false, Option, none, some, List, [], ◌∷◌, ◌++◌, if◌then◌else◌, is_empty,
  ◌⊎◌, pos,
}
use etcd_client.Bytes.{Bytes, IsBytes, bytes_eq, in_range}
use etcd_client.Error.{Foreign, Result, ok, err}
use etcd_client.Rpc.{KeyValue, unwrap_or}
use etcd_client.KeyRange.{KeyRange}
use etcd_client.KeyRange.Build.{covers}
use etcd_client.Kv.Put
use etcd_client.Kv.Put.{PutOptions, PutResponse}
use etcd_client.Kv.Get
use etcd_client.Kv.Get.{GetOptions, GetResponse, PbRangeRequest}
use etcd_client.Kv.Delete
use etcd_client.Kv.Delete.{DeleteOptions, DeleteResponse}
use etcd_client.Kv.Client.{KvClient, KvService, unary}
use etcd_client.Caller.{Session, AuthService}
use etcd_client.Namespace.Requests.{IsBounded}
use etcd_client.Namespace.Isolation.{IsPlain}

-- The value of each key.
abbrev pub Store : Type 0
Store = Bytes → Option Bytes

abbrev pub put_at : Bytes → Bytes → Store → Store
put_at key value d x = if bytes_eq key x then some value else d x

abbrev pub remove : (Bytes → Bool) → Store → Store
remove p d x = if p x then none else d x

abbrev pub restrict : (Bytes → Bool) → Store → Store
restrict p d x = if p x then d x else none

-- The value of a key in a response.
unfoldable pub lookup : Bytes → List KeyValue → Option Bytes
lookup x [] = none
lookup x (kv ∷ kvs) = if bytes_eq kv.key x then some kv.value else lookup x kvs

-- A key that a store may hold.
abbrev pub IsKey : Bytes → Type 0
IsKey x = IsBytes x × (is_empty x ≡ false)

-- The keys of the first store with the prefix are those of the second.
abbrev pub Agrees : Bytes → Store → Store → Type 0
Agrees pfx d e = (x : Bytes) → IsKey x → d (pfx ++ x) ≡ e x

pub data Op : Type 0 where
  put_op : (key value : Bytes) (options : Option PutOptions) → Op
  get_op : (key : Bytes) (options : Option GetOptions) → Op
  delete_op : (key : Bytes) (options : Option DeleteOptions) → Op

pub data OpReply : Type 0 where
  put_reply : PutResponse → OpReply
  get_reply : GetResponse → OpReply
  delete_reply : DeleteResponse → OpReply

-- The keys that a caller's range means.
abbrev pub wanted : Bytes → KeyRange → Bytes → Bool
wanted key r = covers (record r { key = key })

abbrev pub get_wanted : Bytes → Option GetOptions → Bytes → Bool
get_wanted key options = wanted key (unwrap_or Get.new options).key_range

abbrev pub delete_wanted : Bytes → Option DeleteOptions → Bytes → Bool
delete_wanted key options = wanted key (unwrap_or Delete.new options).key_range

-- What an operation does to a store of the namespace alone.
unfoldable pub effect : Op → Store → Store
effect (put_op key value options) e = put_at key value e
effect (get_op key options) e = e
effect (delete_op key options) e = remove (delete_wanted key options) e

-- What a reply says of such a store.
abbrev pub Answers : Op → OpReply → Store → Type 0
Answers (get_op key options) (get_reply resp) e =
    (x : Bytes) → IsKey x → lookup x resp.kvs ≡ restrict (get_wanted key options) e x
Answers _ _ e = Unit

-- A call that succeeds is done; one that fails is done or not.
abbrev pub Applies :
    {F : Foreign} {A : Type 0} → Result F A → (Store → Store) → Store → Store → Type 0
Applies (ok a) f d d' = d' ≡ f d
Applies (err x) f d d' = (d' ≡ d) ⊎ (d' ≡ f d)

abbrev pub AnswersOk : {F : Foreign} → Op → Result F OpReply → Store → Type 0
AnswersOk op (ok reply) e = Answers op reply e
AnswersOk op (err x) e = Unit

-- Calls one after the other on a store of the namespace alone, with their results.
pub data Served {F : Foreign} : List Op → List (Result F OpReply) → Store → Store → Type 0 where
  served_none : {e : Store} → Served [] [] e e
  served :
      {op : Op} {ops : List Op} {r : Result F OpReply} {rs : List (Result F OpReply)}
      {e e' e'' : Store}
      → Applies r (effect op) e e'
      → AnswersOk op r e
      → Served ops rs e' e''
      → Served (op ∷ ops) (r ∷ rs) e e''

-- A linearizable request for the keys and values of its interval, without a limit.
pub record IsRead (req : PbRangeRequest) : Type 0 where
  pub plain : IsPlain req
  pub serializable : req.serializable ≡ false
  pub keys_only : req.keys_only ≡ false

-- Operations whose range is an interval or a prefix, and whose put has a value.
abbrev pub IsPlainOp : Op → Type 0
IsPlainOp (put_op key value options) = (unwrap_or Put.new options).ignore_value ≡ false
IsPlainOp (get_op key options) =
    IsBytes key
    × IsBounded (unwrap_or Get.new options).key_range
    × IsRead (unwrap_or Get.new options).req
IsPlainOp (delete_op key options) = IsBytes key × IsBounded (unwrap_or Delete.new options).key_range

abbrev pub AreKeyed : List KeyValue → Type 0
AreKeyed [] = Unit
AreKeyed (kv ∷ kvs) = IsKey kv.key × AreKeyed kvs

-- The documented behaviour of the key-value service (proto/rpc.proto), against the store that the
-- world holds: a put sets its key, a delete removes the keys of its interval, a range request changes
-- nothing and returns the keys of its interval; a call that is answered with a status may have been
-- applied or not. A call of `Authenticate` leaves the store alone.
pub record StoreServer {F : Foreign} {Token W : Type 0} (kv : KvClient F Token W) : Type 0 where
  pub data_of : W → Store
  pub put_sets :
      (req : PutOptions) (s : Session Token W)
      → req.ignore_value ≡ false
      → Applies
          (unary kv.stub.put req s).0
          (put_at req.key req.value)
          (data_of s.world)
          (data_of (unary kv.stub.put req s).1.world)
  pub delete_removes :
      (req : Delete.PbDeleteRequest) (s : Session Token W)
      → Applies
          (unary kv.stub.delete_range req s).0
          (remove (in_range req.key req.range_end))
          (data_of s.world)
          (data_of (unary kv.stub.delete_range req s).1.world)
  pub range_keeps :
      (req : PbRangeRequest) (s : Session Token W)
      → data_of (unary kv.stub.range req s).1.world ≡ data_of s.world
  pub range_returns :
      (req : PbRangeRequest) (s : Session Token W) (resp : GetResponse)
      → IsRead req
      → (unary kv.stub.range req s).0 ≡ ok resp
      → AreKeyed resp.kvs
        × ((x : Bytes)
            → IsKey x
            → lookup x resp.kvs ≡ restrict (in_range req.key req.range_end) (data_of s.world) x)
  pub authenticate_keeps :
      (user password : String) (s : Session Token W)
      → data_of (kv.auth.authenticate user password s).1.world ≡ data_of s.world

abbrev pub ArePlainOps : List Op → Type 0
ArePlainOps [] = Unit
ArePlainOps (op ∷ ops) = IsPlainOp op × ArePlainOps ops
