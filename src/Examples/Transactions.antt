-- ===== src/Examples/Transactions.antt =====
-- A transaction with a nested one, its response, and calls of the builder.
use etcd_client.Prelude.{◌≡◌, pos, true, none, some, List, [], ◌∷◌, map}
use etcd_client.Rpc.{KeyValue, map_key}
use etcd_client.VecExt.{strip_key_prefix}
use etcd_client.Kv.Compare
use etcd_client.Kv.Put
use etcd_client.Kv.Txn.{
  TxnOp, PbTxnRequest, txn_request, request_put, request_txn, no_ops, request, prefix_request,
  TxnResponse, txn_response, response_put, response_txn, no_responses, response, strip_response,
  new,
}
use etcd_client.Kv.Txn.Builder.{
  Call, call_when, call_and_then, run_calls, in_order, is_some, run_calls-eq-in_order,
}
use etcd_client.Kv.Txn.Prefixing.{intervals, prefix_interval, intervals-prefix_request}
use etcd_client.Kv.Txn.Stripping.{pairs, pairs-strip_response}
use etcd_client.Examples.{foo, bar, foobar}

abbrev put_bar : TxnOp
put_bar = request_put (record Put.new { key = bar })

-- When the version of "bar" is 1, put it, in a nested transaction.
abbrev nested : PbTxnRequest
nested =
    txn_request (Compare.version bar Compare.equal (pos 1) ∷ [])
      (request (request_txn (txn_request [] (request put_bar no_ops) no_ops)) no_ops) no_ops

intervals-prefix_request_example :
    intervals (prefix_request foo nested) ≡ map (prefix_interval foo) (intervals nested)
intervals-prefix_request_example = intervals-prefix_request foo nested

abbrev old_pair : KeyValue
old_pair = record {
  key = foobar;
  create_revision = pos 1;
  mod_revision = pos 1;
  version = pos 1;
  value = [];
  lease = pos 0;
}

abbrev nested_response : TxnResponse
nested_response = txn_response none true (
    response
      (response_txn (
        txn_response none true (
          response (response_put (record { header = none; prev_kv = some old_pair }))
            no_responses)))
      no_responses)

pairs-strip_response_example :
    pairs (strip_response foo nested_response)
    ≡ map (map_key (strip_key_prefix foo)) (pairs nested_response)
pairs-strip_response_example = pairs-strip_response foo nested_response

-- `when` behind `and_then`
abbrev swapped : List Call
swapped = call_and_then (put_bar ∷ []) ∷ call_when [] ∷ []

run_calls-eq-in_order_example : is_some (run_calls swapped new) ≡ in_order 0 swapped
run_calls-eq-in_order_example = run_calls-eq-in_order swapped
