-- ===== src/Namespace.antt =====
-- src/namespace/kv.rs: the key-value client of a namespace.
pub mod Requests
pub mod Isolation
pub mod Store
use etcd_client.Prelude.{Option, none, some}
use etcd_client.Bytes.{Bytes}
use etcd_client.VecExt.{prefix_with, prefix_range_end_with}
use etcd_client.Error.{Foreign}
use etcd_client.Exec.{Exec, pure, ◌>>=◌}
use etcd_client.Caller.{Session}
use etcd_client.Kv.Put.{PutOptions, PutResponse, strip_prev_key_prefix}
use etcd_client.Kv.Get
use etcd_client.Kv.Get.{GetOptions, GetResponse, strip_kvs_prefix}
use etcd_client.Kv.Delete
use etcd_client.Kv.Delete.{DeleteOptions, DeleteResponse, strip_prev_kvs_prefix}
use etcd_client.Kv.Txn.{Txn, TxnResponse, prefix_txn, strip_response}
use etcd_client.Kv.Client
use etcd_client.Kv.Client.{KvClient}

pub record KvClientPrefix (F : Foreign) (Token W : Type 0) : Type 0 where
  pub pfx : Bytes
  pub kv : KvClient F Token W

abbrev pub map_option : {A B : Type 0} → (A → B) → Option A → Option B
map_option f none = none
map_option f (some a) = some (f a)

-- `options.map(|mut opts| { opts.key_range_end_mut().prefix_range_end_with(&self.pfx); opts })`
abbrev pub prefix_get : Bytes → GetOptions → GetOptions
prefix_get pfx = Get.map_range_end (prefix_range_end_with pfx)

abbrev pub prefix_delete : Bytes → DeleteOptions → DeleteOptions
prefix_delete pfx = Delete.map_range_end (prefix_range_end_with pfx)

module _ {F : Foreign} {Token W : Type 0} (self : KvClientPrefix F Token W) where
  unfoldable pub prefixed_key : Bytes → Bytes
  prefixed_key key = prefix_with self.pfx key

  unfoldable pub put : Bytes → Bytes → Option PutOptions → Exec F (Session Token W) PutResponse
  unfolding prefixed_key
  put key value options = do
    resp ← Client.put self.kv (prefixed_key key) value options
    pure (strip_prev_key_prefix self.pfx resp)

  unfoldable pub get : Bytes → Option GetOptions → Exec F (Session Token W) GetResponse
  unfolding prefixed_key
  get key options = do
    resp ← Client.get self.kv (prefixed_key key) (map_option (prefix_get self.pfx) options)
    pure (strip_kvs_prefix self.pfx resp)

  unfoldable pub delete : Bytes → Option DeleteOptions → Exec F (Session Token W) DeleteResponse
  unfolding prefixed_key
  delete key options = do
    resp ← Client.delete self.kv (prefixed_key key) (map_option (prefix_delete self.pfx) options)
    pure (strip_prev_kvs_prefix self.pfx resp)

  unfoldable pub txn : Txn → Exec F (Session Token W) TxnResponse
  txn t = do resp ← Client.txn self.kv (prefix_txn self.pfx t); pure (strip_response self.pfx resp)
