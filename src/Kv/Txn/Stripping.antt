-- ===== src/Kv/Txn/Stripping.antt =====
-- `strip_key_prefix` of a transaction's response, at every depth.
use etcd_client.Prelude.{
  ◌≡◌, refl, ap₂, ◌∙◌, sym, Option, none, some, List, [], ◌∷◌, ◌++◌, map, map-append,
}
use etcd_client.Bytes.{Bytes}
use etcd_client.Rpc.{KeyValue, map_key}
use etcd_client.VecExt.{strip_key_prefix}
use etcd_client.Kv.Put.{strip_prev_key_prefix, strip_kv}
use etcd_client.Kv.Get.{strip_kvs_prefix}
use etcd_client.Kv.Delete.{strip_prev_kvs_prefix}
use etcd_client.Kv.Txn.{
  TxnOpResponse, response_put, response_range, response_delete_range, response_txn, OpResponses,
  no_responses, no_response, response, TxnResponse, txn_response, strip_op, strip_ops,
  strip_response,
}

abbrev to_list : Option KeyValue → List KeyValue
to_list none = []
to_list (some kv) = kv ∷ []

-- The key-value pairs of a response, in order, nested transactions included.
mutual
  pub op_pairs : TxnOpResponse → List KeyValue
  op_pairs (response_put r) = to_list r.prev_kv
  op_pairs (response_range r) = r.kvs
  op_pairs (response_delete_range r) = r.prev_kvs
  op_pairs (response_txn r) = pairs r

  pub ops_pairs : OpResponses → List KeyValue
  ops_pairs no_responses = []
  ops_pairs (no_response ops) = ops_pairs ops
  ops_pairs (response op ops) = op_pairs op ++ ops_pairs ops

  pub pairs : TxnResponse → List KeyValue
  pairs (txn_response header succeeded responses) = ops_pairs responses

to_list-strip_kv :
    (prefix : Bytes) (kv : Option KeyValue)
    → to_list (strip_kv prefix kv) ≡ map (map_key (strip_key_prefix prefix)) (to_list kv)
to_list-strip_kv prefix none = refl
to_list-strip_kv prefix (some kv) = refl

mutual
  unfolding strip_response pairs strip_kvs_prefix strip_prev_key_prefix strip_prev_kvs_prefix

  op_pairs-strip :
      (prefix : Bytes) (op : TxnOpResponse)
      → op_pairs (strip_op prefix op) ≡ map (map_key (strip_key_prefix prefix)) (op_pairs op)
  op_pairs-strip prefix (response_put r) = to_list-strip_kv prefix r.prev_kv
  op_pairs-strip prefix (response_range r) = refl
  op_pairs-strip prefix (response_delete_range r) = refl
  op_pairs-strip prefix (response_txn r) = pairs-strip prefix r

  ops_pairs-strip :
      (prefix : Bytes) (ops : OpResponses)
      → ops_pairs (strip_ops prefix ops) ≡ map (map_key (strip_key_prefix prefix)) (ops_pairs ops)
  ops_pairs-strip prefix no_responses = refl
  ops_pairs-strip prefix (no_response ops) = ops_pairs-strip prefix ops
  ops_pairs-strip prefix (response op ops) =
      ap₂ ◌++◌ (op_pairs-strip prefix op) (ops_pairs-strip prefix ops)
      ∙ sym (map-append (map_key (strip_key_prefix prefix)) (op_pairs op) (ops_pairs ops))

  pairs-strip :
      (prefix : Bytes) (r : TxnResponse)
      → pairs (strip_response prefix r) ≡ map (map_key (strip_key_prefix prefix)) (pairs r)
  pairs-strip prefix (txn_response header succeeded responses) = ops_pairs-strip prefix responses

-- Stripping the response of a transaction strips the key of every pair in it, at any depth and from
-- every kind of operation, and keeps the pairs' order and their other fields.
pub pairs-strip_response :
    (prefix : Bytes) (r : TxnResponse)
    → pairs (strip_response prefix r) ≡ map (map_key (strip_key_prefix prefix)) (pairs r)
pairs-strip_response prefix r = pairs-strip prefix r
