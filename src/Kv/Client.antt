-- ===== src/Kv/Client.antt =====
-- `KvClient` of src/rpc/kv.rs. The generated stub is a parameter: a request and the state before
-- give an answer and the state after.
use etcd_client.Prelude.{ℤ, Bool, Option}
use etcd_client.Bytes.{Bytes}
use etcd_client.Rpc.{unwrap_or}
use etcd_client.Error.{Foreign, Result, ok, err, grpc_status}
use etcd_client.Exec.{Exec}
use etcd_client.Caller.{Session, AuthService, do_call}
use etcd_client.Kv.Put
use etcd_client.Kv.Put.{PutOptions, PutResponse}
use etcd_client.Kv.Get
use etcd_client.Kv.Get.{GetOptions, PbRangeRequest, GetResponse}
use etcd_client.Kv.Delete
use etcd_client.Kv.Delete.{DeleteOptions, PbDeleteRequest, DeleteResponse}
use etcd_client.Kv.Compaction
use etcd_client.Kv.Compaction.{CompactionOptions, CompactionResponse}
use etcd_client.Kv.Txn.{Txn, PbTxnRequest, TxnResponse}

-- What a unary call of a stub returns: a response, or a status.
pub data Answer (F : Foreign) (A : Type 0) : Type 0 where
  replied : A → Answer F A
  refused : F.Status → Answer F A

-- `client.method(req).await?.into_inner()`: a status becomes an error by `From<tonic::Status>`.
abbrev pub into_inner : {F : Foreign} {A : Type 0} → Answer F A → Result F A
into_inner (replied a) = ok a
into_inner (refused status) = err (grpc_status status)

abbrev pub Unary : Foreign → Type 0 → Type 0 → Type 0 → Type 0
Unary F S Req A = Req → S → Answer F A × S

abbrev pub unary : {F : Foreign} {S Req A : Type 0} → Unary F S Req A → Req → Exec F S A
unary method req s = let (answer, s') = method req s in (into_inner answer, s')

-- The methods of the key-value stub.
pub record KvService (F : Foreign) (S : Type 0) : Type 0 where
  pub put : Unary F S PutOptions PutResponse
  pub range : Unary F S PbRangeRequest GetResponse
  pub delete_range : Unary F S PbDeleteRequest DeleteResponse
  pub compact : Unary F S CompactionOptions CompactionResponse
  pub txn : Unary F S PbTxnRequest TxnResponse

-- A client: its authentication, its stub and its option `refresh_expired_token`.
pub record KvClient (F : Foreign) (Token W : Type 0) : Type 0 where
  pub auth : AuthService F Token W
  pub stub : KvService F (Session Token W)
  pub refresh_expired_token : Bool

module _ {F : Foreign} {Token W : Type 0} (kv : KvClient F Token W) where
  unfoldable pub put : Bytes → Bytes → Option PutOptions → Exec F (Session Token W) PutResponse
  put key value options =
      do_call kv.auth kv.refresh_expired_token (Put.with_kv key value (unwrap_or Put.new options))
        (unary kv.stub.put)

  abbrev get_impl : GetOptions → Exec F (Session Token W) GetResponse
  get_impl req = unary kv.stub.range (Get.into_request req)

  unfoldable pub get : Bytes → Option GetOptions → Exec F (Session Token W) GetResponse
  get key options =
      do_call kv.auth kv.refresh_expired_token (Get.with_key key (unwrap_or Get.new options))
        get_impl

  abbrev delete_impl : DeleteOptions → Exec F (Session Token W) DeleteResponse
  delete_impl req = unary kv.stub.delete_range (Delete.into_request req)

  unfoldable pub delete : Bytes → Option DeleteOptions → Exec F (Session Token W) DeleteResponse
  delete key options =
      do_call kv.auth kv.refresh_expired_token (Delete.with_key key (unwrap_or Delete.new options))
        delete_impl

  unfoldable pub compact :
      ℤ → Option CompactionOptions → Exec F (Session Token W) CompactionResponse
  compact revision options =
      do_call kv.auth kv.refresh_expired_token
        (Compaction.with_revision revision (unwrap_or Compaction.new options))
        (unary kv.stub.compact)

  abbrev txn_impl : Txn → Exec F (Session Token W) TxnResponse
  txn_impl t = unary kv.stub.txn t.req

  unfoldable pub txn : Txn → Exec F (Session Token W) TxnResponse
  txn t = do_call kv.auth kv.refresh_expired_token t txn_impl
