-- ===== src/Kv/Txn/Builder.antt =====
-- The order in which the parts of a transaction may be given.
use etcd_client.Prelude.{
  ℕ, ◌+◌, ◌≡◌, refl, Bool, true, false, ◌&&◌, Option, none, some, List, [], ◌∷◌, arith, leb,
  if◌then◌else◌,
}
use etcd_client.Kv.Compare.{Compare}
use etcd_client.Kv.Txn.{
  Txn, TxnOp, new, when, and_then, or_else, set_compare, set_success, set_failure, to_ops,
}

-- A call of one of the builder's methods.
pub data Call : Type 0 where
  call_when : List Compare → Call
  call_and_then : List TxnOp → Call
  call_or_else : List TxnOp → Call

abbrev pub apply : Call → Txn → Option Txn
apply (call_when compares) t = when compares t
apply (call_and_then ops) t = and_then ops t
apply (call_or_else ops) t = or_else ops t

abbrev pub run_calls : List Call → Txn → Option Txn
run_calls [] t = some t
run_calls (c ∷ calls) t = elim (apply c t) [ none ↦ none | some t' ↦ run_calls calls t' ]

abbrev pub rank : Call → ℕ
rank (call_when compares) = 0
rank (call_and_then ops) = 1
rank (call_or_else ops) = 2

-- Each call stands behind all earlier ones in the order `when`, `and_then`, `or_else`.
abbrev pub in_order : ℕ → List Call → Bool
in_order lowest [] = true
in_order lowest (c ∷ calls) = leb lowest (rank c) && in_order (rank c + 1) calls

-- The first rank that the transaction still accepts.
abbrev level : Txn → ℕ
level t = if t.c_else then 3 else if t.c_then then 2 else if t.c_when then 1 else 0

abbrev pub is_some {ℓ} : {A : Type ℓ} → Option A → Bool
is_some none = false
is_some (some a) = true

run_calls-in_order :
    (calls : List Call) (t : Txn) → is_some (run_calls calls t) ≡ in_order (level t) calls
unfolding when and_then or_else
run_calls-in_order [] t = refl
run_calls-in_order (call_when compares ∷ calls) t =
    ground (
      arith,
      run_calls-in_order calls (record t { c_when = true; req = set_compare compares t.req }),
    )
run_calls-in_order (call_and_then ops ∷ calls) t = ground (
  arith,
  run_calls-in_order calls (record t { c_then = true; req = set_success (to_ops ops) t.req }),
)
run_calls-in_order (call_or_else ops ∷ calls) t = ground (
  arith,
  run_calls-in_order calls (record t { c_else = true; req = set_failure (to_ops ops) t.req }),
)

-- The builder's methods succeed on exactly those call sequences in which each of `when`, `and_then`
-- and `or_else` is called at most once and in this order; on every other sequence one panics.
pub run_calls-eq-in_order : (calls : List Call) → is_some (run_calls calls new) ≡ in_order 0 calls
run_calls-eq-in_order calls = run_calls-in_order calls new
