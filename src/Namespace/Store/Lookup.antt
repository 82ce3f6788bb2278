-- ===== src/Namespace/Store/Lookup.antt =====
-- The values in a response to a range request, after `strip_kvs_prefix`.
use etcd_client.Prelude.{
  ◌≡◌, refl, ◌∙◌, ap, false, Bool-cases, inl, inr, none, List, [], ◌∷◌, ◌++◌, arith, is_empty,
}
use etcd_client.Bytes.{Bytes, IsBytes, starts_with, in_range}
use etcd_client.Bytes.Order.{
  bytes_eq-append_left, starts_with→append, bytes_eq_refl, starts_with-append, IsBytes-append,
}
use etcd_client.Rpc.{KeyValue}
use etcd_client.VecExt.Strip.{strip_key_prefix-append, strip_key_prefix_other}
use etcd_client.VecExt.Edge.{carries}
use etcd_client.KeyRange.Build.{covers}
use etcd_client.Kv.Get.{strip_kvs, GetOptions}
use etcd_client.Namespace.Requests.{sent_get, sent_get_exact, IsBounded}
use etcd_client.Namespace.Store.{Store, restrict, lookup, IsKey, Agrees, AreKeyed}
use etcd_client.Namespace.Store.Effects.{IsKey-append}

-- The response has keys of the namespace only.
abbrev pub IsInside : Bytes → List KeyValue → Type 0
IsInside pfx kvs = (y : Bytes) → IsKey y → starts_with pfx y ≡ false → lookup y kvs ≡ none

lookup_tail :
    (kv : KeyValue) (kvs : List KeyValue) (y : Bytes)
    → lookup y (kv ∷ kvs) ≡ none
    → lookup y kvs ≡ none
unfolding lookup
lookup_tail kv kvs y h = ground arith

IsInside-head :
    (pfx : Bytes) (kv : KeyValue) (kvs : List KeyValue)
    → IsKey kv.key
    → IsInside pfx (kv ∷ kvs)
    → starts_with pfx kv.key ≡ false
    → ⊥
unfolding lookup
IsInside-head pfx kv kvs k inside out = ground (arith, inside kv.key k out, bytes_eq_refl kv.key)

pub lookup-strip_kvs :
    (pfx : Bytes) (kvs : List KeyValue) (x : Bytes)
    → AreKeyed kvs
    → IsInside pfx kvs
    → lookup x (strip_kvs pfx kvs) ≡ lookup (pfx ++ x) kvs
unfolding lookup
lookup-strip_kvs pfx [] x keyed inside = refl
lookup-strip_kvs pfx (kv ∷ kvs) x (k, keyed) inside = elim (Bool-cases (starts_with pfx kv.key)) [
  | inr out ↦ absurd (IsInside-head pfx kv kvs k inside out)
  | inl found ↦
      let (j, e) = starts_with→append pfx kv.key found in
      rw
        (
          e,
          strip_key_prefix-append pfx j,
          bytes_eq-append_left pfx j x,
          lookup-strip_kvs pfx kvs x keyed (λ y hy out. lookup_tail kv kvs y (inside y hy out)),
        )
        refl
]

module _ (pfx key : Bytes) (options : GetOptions) (hp : IsBytes pfx) (hk : IsBytes key)
    (c : carries pfx ≡ false) (b : IsBounded options.key_range) (d : Store) (kvs : List KeyValue)
    (keyed : AreKeyed kvs)
    (returned : (x : Bytes)
      → IsKey x
      → lookup x kvs
        ≡ restrict
            (in_range (sent_get pfx key options).key (sent_get pfx key options).range_end)
            d
            x) where
  IsInside-kvs : IsInside pfx kvs
  IsInside-kvs y (hy, n) out =
      returned y (hy, n)
      ∙ rw
          (
            sent_get_exact pfx key y hp hk hy c (ap is_empty (strip_key_prefix_other pfx y out) ∙ n)
                options b,
            out,
          )
          refl

  -- Stripped, the answer to the sent request is that of the caller's request in the namespace.
  pub lookup_stripped :
      (e : Store) (x : Bytes)
      → Agrees pfx d e
      → IsKey x
      → lookup x (strip_kvs pfx kvs)
        ≡ restrict (covers (record options.key_range { key = key })) e x
  lookup_stripped e x agrees (hx, n) =
      lookup-strip_kvs pfx kvs x keyed IsInside-kvs
      ∙ returned (pfx ++ x) (IsKey-append pfx x hp (hx, n))
      ∙ rw
          (
            sent_get_exact pfx key (pfx ++ x) hp hk (IsBytes-append pfx x hp hx) c
                (ap is_empty (strip_key_prefix-append pfx x) ∙ n) options b,
            starts_with-append pfx x,
            strip_key_prefix-append pfx x,
            agrees x (hx, n),
          )
          refl
