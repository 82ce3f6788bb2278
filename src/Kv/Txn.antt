-- ===== src/Kv/Txn.antt =====
-- `Txn`, `TxnOp` and `TxnResponse` of src/rpc/kv.rs. A request operation is a message with an optional
-- operation inside; a list of them is `Ops`, a list of response operations is `OpResponses`.
pub mod Builder
pub mod Prefixing
pub mod Stripping
use etcd_client.Prelude.{
  Bool, true, false, not, ◌&&◌, ◌||◌, Option, none, some, List, [], ◌∷◌, map, if◌then◌else◌,
}
use etcd_client.Bytes.{Bytes}
use etcd_client.Rpc.{ResponseHeader, unwrap_or}
use etcd_client.VecExt.{prefix_with, prefix_range_end_with}
use etcd_client.Kv.Put
use etcd_client.Kv.Put.{PutOptions, PutResponse, strip_prev_key_prefix}
use etcd_client.Kv.Get
use etcd_client.Kv.Get.{GetOptions, PbRangeRequest, GetResponse, strip_kvs_prefix}
use etcd_client.Kv.Delete
use etcd_client.Kv.Delete.{DeleteOptions, PbDeleteRequest, DeleteResponse, strip_prev_kvs_prefix}
use etcd_client.Kv.Compare.{Compare}

mutual
  -- `PbTxnOp`, which `TxnOp` wraps
  pub data TxnOp : Type 0 where
    request_range : PbRangeRequest → TxnOp
    request_put : PutOptions → TxnOp
    request_delete_range : PbDeleteRequest → TxnOp
    request_txn : PbTxnRequest → TxnOp

  pub data Ops : Type 0 where
    no_ops : Ops
    no_request : Ops → Ops
    request : TxnOp → Ops → Ops

  pub data PbTxnRequest : Type 0 where
    txn_request : (compare : List Compare) (success failure : Ops) → PbTxnRequest

pub record Txn : Type 0 where
  pub req : PbTxnRequest
  pub c_when : Bool
  pub c_then : Bool
  pub c_else : Bool

abbrev pub new : Txn
new = record { req = txn_request [] no_ops no_ops; c_when = false; c_then = false; c_else = false }

-- `TxnOp::put`, `TxnOp::get`, `TxnOp::delete`, `TxnOp::txn`
unfoldable pub put : Bytes → Bytes → Option PutOptions → TxnOp
put key value options = request_put (Put.with_kv key value (unwrap_or Put.new options))

unfoldable pub get : Bytes → Option GetOptions → TxnOp
get key options = request_range (Get.into_request (Get.with_key key (unwrap_or Get.new options)))

unfoldable pub delete : Bytes → Option DeleteOptions → TxnOp
delete key options =
    request_delete_range (Delete.into_request (Delete.with_key key (unwrap_or Delete.new options)))

unfoldable pub txn : Txn → TxnOp
txn t = request_txn t.req

-- `operations.into_iter().map(|op| PbTxnRequestOp { request: Some(op.into()) })`
abbrev pub to_ops : List TxnOp → Ops
to_ops [] = no_ops
to_ops (op ∷ ops) = request op (to_ops ops)

abbrev set_compare : List Compare → PbTxnRequest → PbTxnRequest
set_compare compares (txn_request compare success failure) = txn_request compares success failure

abbrev set_success : Ops → PbTxnRequest → PbTxnRequest
set_success ops (txn_request compare success failure) = txn_request compare ops failure

abbrev set_failure : Ops → PbTxnRequest → PbTxnRequest
set_failure ops (txn_request compare success failure) = txn_request compare success ops

-- A failed `assert!` panics: `none`.
unfoldable pub when : List Compare → Txn → Option Txn
when compares self =
    if self.c_when || (self.c_then || self.c_else)
    then none
    else some (record self { c_when = true; req = set_compare compares self.req })

unfoldable pub and_then : List TxnOp → Txn → Option Txn
and_then operations self =
    if self.c_then || self.c_else
    then none
    else some (record self { c_then = true; req = set_success (to_ops operations) self.req })

unfoldable pub or_else : List TxnOp → Txn → Option Txn
or_else operations self =
    if self.c_else
    then none
    else some (record self { c_else = true; req = set_failure (to_ops operations) self.req })

abbrev pub prefix_compare : Bytes → Compare → Compare
prefix_compare prefix cmp = record cmp {
  key = prefix_with prefix cmp.key;
  range_end = prefix_range_end_with prefix cmp.range_end;
}

-- `PbTxnRequest::prefix_with`; `prefix_op` is its closure, `prefix_ops` the loop over a list.
unfoldable mutual
  pub prefix_op : Bytes → TxnOp → TxnOp
  prefix_op prefix (request_range req) = request_range (record req {
    key = prefix_with prefix req.key;
    range_end = prefix_range_end_with prefix req.range_end;
  })
  prefix_op prefix (request_put req) = request_put (record req { key = prefix_with prefix req.key })
  prefix_op prefix (request_delete_range req) = request_delete_range (record req {
    key = prefix_with prefix req.key;
    range_end = prefix_range_end_with prefix req.range_end;
  })
  prefix_op prefix (request_txn req) = request_txn (prefix_request prefix req)

  pub prefix_ops : Bytes → Ops → Ops
  prefix_ops prefix no_ops = no_ops
  prefix_ops prefix (no_request ops) = no_request (prefix_ops prefix ops)
  prefix_ops prefix (request op ops) = request (prefix_op prefix op) (prefix_ops prefix ops)

  pub prefix_request : Bytes → PbTxnRequest → PbTxnRequest
  prefix_request prefix (txn_request compare success failure) =
      txn_request (map (prefix_compare prefix) compare) (prefix_ops prefix success)
        (prefix_ops prefix failure)

-- `Txn::prefix_with`
unfoldable pub prefix_txn : Bytes → Txn → Txn
prefix_txn prefix self = record self { req = prefix_request prefix self.req }

mutual
  pub data TxnOpResponse : Type 0 where
    response_put : PutResponse → TxnOpResponse
    response_range : GetResponse → TxnOpResponse
    response_delete_range : DeleteResponse → TxnOpResponse
    response_txn : TxnResponse → TxnOpResponse

  pub data OpResponses : Type 0 where
    no_responses : OpResponses
    no_response : OpResponses → OpResponses
    response : TxnOpResponse → OpResponses → OpResponses

  pub data TxnResponse : Type 0 where
    txn_response :
        (header : Option ResponseHeader) (succeeded : Bool) (responses : OpResponses) → TxnResponse

-- `PbTxnResponse::strip_key_prefix`
unfoldable mutual
  pub strip_op : Bytes → TxnOpResponse → TxnOpResponse
  strip_op prefix (response_range r) = response_range (strip_kvs_prefix prefix r)
  strip_op prefix (response_put r) = response_put (strip_prev_key_prefix prefix r)
  strip_op prefix (response_delete_range r) = response_delete_range (strip_prev_kvs_prefix prefix r)
  strip_op prefix (response_txn r) = response_txn (strip_response prefix r)

  pub strip_ops : Bytes → OpResponses → OpResponses
  strip_ops prefix no_responses = no_responses
  strip_ops prefix (no_response ops) = no_response (strip_ops prefix ops)
  strip_ops prefix (response op ops) = response (strip_op prefix op) (strip_ops prefix ops)

  pub strip_response : Bytes → TxnResponse → TxnResponse
  strip_response prefix (txn_response header succeeded responses) =
      txn_response header succeeded (strip_ops prefix responses)

-- `op_responses`, where the unwrapping of a missing response panics: `none`.
abbrev pub collect : OpResponses → Option (List TxnOpResponse)
collect no_responses = some []
collect (no_response ops) = none
collect (response op ops) = elim (collect ops) [ none ↦ none | some rest ↦ some (op ∷ rest) ]

unfoldable pub op_responses : TxnResponse → Option (List TxnOpResponse)
op_responses (txn_response header succeeded responses) = collect responses
