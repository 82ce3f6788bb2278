-- ===== src/Namespace/Store/Effects.antt =====
-- What the requests of a namespace client do to the whole store, against what the operations do to
-- the store of the namespace.
use etcd_client.Prelude.{
  ◌≡◌, refl, ◌∙◌, ap, fun_ext, false, Option, [], ◌∷◌, ◌++◌, arith, is_empty, Bool,
}
use etcd_client.Bytes.{Bytes, IsBytes, in_range, starts_with}
use etcd_client.Bytes.Order.{
  bytes_eq-append_left, bytes_eq-starts_with, starts_with-append, IsBytes-append,
}
use etcd_client.Rpc.{unwrap_or}
use etcd_client.VecExt.{prefix_with}
use etcd_client.VecExt.Strip.{
  prefix_with-eq-append, strip_key_prefix-append, strip_key_prefix_other,
}
use etcd_client.VecExt.Edge.{carries}
use etcd_client.KeyRange.Build.{covers}
use etcd_client.Kv.Delete
use etcd_client.Namespace.Requests.{sent_delete, sent_delete_exact}
use etcd_client.Namespace.Store.{
  Store, put_at, remove, IsKey, Agrees, Op, put_op, get_op, delete_op, effect, IsPlainOp,
}

-- What the request of an operation does to the whole store.
unfoldable pub sent_effect : Bytes → Op → Store → Store
sent_effect pfx (put_op key value options) d = put_at (prefix_with pfx key) value d
sent_effect pfx (get_op key options) d = d
sent_effect pfx (delete_op key options) d =
    let req = sent_delete pfx key (unwrap_or Delete.new options) in
    remove (in_range req.key req.range_end) d

-- A request that is applied twice does what it does once.
pub put_at_idem :
    (key value : Bytes) (d : Store) → put_at key value (put_at key value d) ≡ put_at key value d
put_at_idem key value d = fun_ext λ x. ground arith

pub remove_idem : (p : Bytes → Bool) (d : Store) → remove p (remove p d) ≡ remove p d
remove_idem p d = fun_ext λ x. ground arith

is_empty-append : (p x : Bytes) → is_empty x ≡ false → is_empty (p ++ x) ≡ false
is_empty-append [] x h = h
is_empty-append (a ∷ p) x h = refl

pub IsKey-append : (p x : Bytes) → IsBytes p → IsKey x → IsKey (p ++ x)
IsKey-append p x hp (hx, n) = (IsBytes-append p x hp hx, is_empty-append p x n)

module _ (pfx : Bytes) (hp : IsBytes pfx) (c : carries pfx ≡ false) where
  deleted_inside :
      (key x : Bytes) (options : Option Delete.DeleteOptions)
      → IsPlainOp (delete_op key options)
      → IsKey x
      → (let req = sent_delete pfx key (unwrap_or Delete.new options) in
          in_range req.key req.range_end (pfx ++ x))
        ≡ covers (record (unwrap_or Delete.new options).key_range { key = key }) x
  deleted_inside key x options (hk, b) (hx, n) =
      sent_delete_exact pfx key (pfx ++ x) hp hk (IsBytes-append pfx x hp hx) c
        (ap is_empty (strip_key_prefix-append pfx x) ∙ n) (unwrap_or Delete.new options) b
      ∙ rw (starts_with-append pfx x, strip_key_prefix-append pfx x) refl

  -- In the namespace a request does what the operation does to the store of the namespace.
  pub effect-Agrees :
      (op : Op) (d e : Store)
      → IsPlainOp op
      → Agrees pfx d e
      → Agrees pfx (sent_effect pfx op d) (effect op e)
  unfolding effect sent_effect
  effect-Agrees (put_op key value options) d e plain agrees x hx =
      rw (prefix_with-eq-append pfx key, bytes_eq-append_left pfx key x, agrees x hx) refl
  effect-Agrees (get_op key options) d e plain agrees x hx = agrees x hx
  effect-Agrees (delete_op key options) d e plain agrees x hx =
      rw (deleted_inside key x options plain hx, agrees x hx) refl

  -- Outside the namespace a request changes nothing.
  pub effect_outside :
      (op : Op) (d : Store) (x : Bytes)
      → IsPlainOp op
      → IsKey x
      → starts_with pfx x ≡ false
      → sent_effect pfx op d x ≡ d x
  unfolding sent_effect
  effect_outside (put_op key value options) d x plain hx out =
      rw (prefix_with-eq-append pfx key, bytes_eq-starts_with pfx key x out) refl
  effect_outside (get_op key options) d x plain hx out = refl
  effect_outside (delete_op key options) d x (hk, b) (hx, n) out =
      rw
        (
          sent_delete_exact pfx key x hp hk hx c
              (ap is_empty (strip_key_prefix_other pfx x out) ∙ n) (unwrap_or Delete.new options) b,
          out,
        )
        refl
