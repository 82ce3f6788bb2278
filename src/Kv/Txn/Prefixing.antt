-- ===== src/Kv/Txn/Prefixing.antt =====
-- `prefix_with` of a transaction, at every depth of its nested transactions.
use etcd_client.Prelude.{◌≡◌, refl, ap, ap₂, ◌∙◌, sym, List, [], ◌∷◌, ◌++◌, map, map-append}
use etcd_client.Bytes.{Bytes, is_edge}
use etcd_client.VecExt.{prefix_with, prefix_range_end_with}
use etcd_client.Kv.Compare.{Compare}
use etcd_client.Kv.Txn.{
  TxnOp, request_range, request_put, request_delete_range, request_txn, Ops, no_ops, no_request,
  request, PbTxnRequest, txn_request, prefix_compare, prefix_op, prefix_ops, prefix_request,
}

-- The key intervals that a transaction names, in order: those of its comparisons, and of the
-- operations of both branches, nested transactions included. A put names its key alone.
mutual
  pub op_intervals : TxnOp → List (Bytes × Bytes)
  op_intervals (request_range req) = (req.key, req.range_end) ∷ []
  op_intervals (request_put req) = (req.key, []) ∷ []
  op_intervals (request_delete_range req) = (req.key, req.range_end) ∷ []
  op_intervals (request_txn req) = intervals req

  pub ops_intervals : Ops → List (Bytes × Bytes)
  ops_intervals no_ops = []
  ops_intervals (no_request ops) = ops_intervals ops
  ops_intervals (request op ops) = op_intervals op ++ ops_intervals ops

  pub intervals : PbTxnRequest → List (Bytes × Bytes)
  intervals (txn_request compare success failure) =
      map (λ c. (c.key, c.range_end)) compare ++ (ops_intervals success ++ ops_intervals failure)

-- The translation of an interval into a namespace.
abbrev pub prefix_interval : Bytes → Bytes × Bytes → Bytes × Bytes
prefix_interval prefix (key, range_end) =
    (prefix_with prefix key, prefix_range_end_with prefix range_end)

abbrev compare_intervals : List Compare → List (Bytes × Bytes)
compare_intervals = map (λ c. (c.key, c.range_end))

prefix_range_end_with-nil : (prefix : Bytes) → prefix_range_end_with prefix [] ≡ []
unfolding prefix_range_end_with is_edge
prefix_range_end_with-nil [] = refl
prefix_range_end_with-nil (x ∷ prefix) = refl

compare_intervals-prefix :
    (prefix : Bytes) (compare : List Compare)
    → compare_intervals (map (prefix_compare prefix) compare)
      ≡ map (prefix_interval prefix) (compare_intervals compare)
compare_intervals-prefix prefix [] = refl
compare_intervals-prefix prefix (c ∷ compare) =
    ap (λ t. prefix_interval prefix (c.key, c.range_end) ∷ t)
      (compare_intervals-prefix prefix compare)

mutual
  unfolding prefix_request intervals

  op_intervals-prefix :
      (prefix : Bytes) (op : TxnOp)
      → op_intervals (prefix_op prefix op) ≡ map (prefix_interval prefix) (op_intervals op)
  op_intervals-prefix prefix (request_range req) = refl
  op_intervals-prefix prefix (request_put req) =
      ap (λ e. (prefix_with prefix req.key, e) ∷ []) (sym (prefix_range_end_with-nil prefix))
  op_intervals-prefix prefix (request_delete_range req) = refl
  op_intervals-prefix prefix (request_txn req) = intervals-prefix prefix req

  ops_intervals-prefix :
      (prefix : Bytes) (ops : Ops)
      → ops_intervals (prefix_ops prefix ops) ≡ map (prefix_interval prefix) (ops_intervals ops)
  ops_intervals-prefix prefix no_ops = refl
  ops_intervals-prefix prefix (no_request ops) = ops_intervals-prefix prefix ops
  ops_intervals-prefix prefix (request op ops) =
      ap₂ ◌++◌ (op_intervals-prefix prefix op) (ops_intervals-prefix prefix ops)
      ∙ sym (map-append (prefix_interval prefix) (op_intervals op) (ops_intervals ops))

  intervals-prefix :
      (prefix : Bytes) (req : PbTxnRequest)
      → intervals (prefix_request prefix req) ≡ map (prefix_interval prefix) (intervals req)
  intervals-prefix prefix (txn_request compare success failure) =
      ap₂ ◌++◌ (compare_intervals-prefix prefix compare) (
        ap₂ ◌++◌ (ops_intervals-prefix prefix success) (ops_intervals-prefix prefix failure)
        ∙ sym (map-append (prefix_interval prefix) (ops_intervals success) (ops_intervals failure)))
      ∙ sym (
          map-append (prefix_interval prefix) (compare_intervals compare)
            (ops_intervals success ++ ops_intervals failure))

-- Prefixing a transaction translates every interval that it names by key and range end, at any depth:
-- the key by `prefix_with`, the range end by `prefix_range_end_with`; and it keeps their order.
pub intervals-prefix_request :
    (prefix : Bytes) (req : PbTxnRequest)
    → intervals (prefix_request prefix req) ≡ map (prefix_interval prefix) (intervals req)
intervals-prefix_request prefix req = intervals-prefix prefix req
