-- ===== src/VecExt/Interval.antt =====
-- The translation of a key interval into a namespace, as the namespace clients make it: `prefix_with`
-- on the key and `prefix_range_end_with` on the range end.
use etcd_client.Prelude.{
  ℕ, ◌≡◌, refl, ap, subst, Bool, false, not, ◌&&◌, List, [], ◌∷◌, ◌++◌, map, arith, inl, inr,
  Option-cases, Bool-cases, select,
}
use etcd_client.Bytes.{Bytes, IsBytes, lex_ltb, lex_leb, starts_with, is_edge, in_range}
use etcd_client.Bytes.Order.{
  starts_with-append, lex_ltb-append_left, bytes_eq-append_left, between-starts_with,
  bytes_eq-starts_with, starts_with→append, is_edge-append,
}
use etcd_client.KeyRange.{get_prefix}
use etcd_client.KeyRange.Prefix.{
  next_prefix, get_prefix-eq-next_prefix, next_prefix_proper, lex_leb-next_prefix-none,
  interval-next_prefix,
}
use etcd_client.VecExt.{strip_key_prefix, prefix_with, prefix_range_end_with}
use etcd_client.VecExt.Strip.{strip_key_prefix-append}
use etcd_client.VecExt.Edge.{carries, edge_of-eq-get_prefix}

-- Below a prefix nothing is reached from the prefix on.
lex_leb-append_false : (p k x : Bytes) → lex_leb p x ≡ false → lex_leb (p ++ k) x ≡ false
unfolding lex_ltb
lex_leb-append_false [] [] x h = h
lex_leb-append_false [] (b ∷ k) [] h = refl
lex_leb-append_false [] (b ∷ k) (c ∷ x) h = ground arith
lex_leb-append_false (a ∷ p) k [] h = refl
lex_leb-append_false (a ∷ p) k (c ∷ x) h = ground (arith, lex_leb-append_false p k x)

-- From the key on up to the end of the prefix interval there are the keys of the namespace from the
-- key on.
edge_interval :
    (p k x : Bytes)
    → IsBytes p
    → IsBytes x
    → in_range (p ++ k) (get_prefix p) x ≡ (starts_with p x && lex_leb (p ++ k) x)
unfolding in_range
edge_interval p k x hp hx = elim (Option-cases (next_prefix p)) [
  | inl last ↦
      rw (get_prefix-eq-next_prefix, last)
        (unfold is_edge in
          ground (arith, lex_leb-next_prefix-none p x last hp hx, lex_leb-append_false p k x))
  | inr (e, next) ↦
      rw (get_prefix-eq-next_prefix, next)
        (ground (
          arith,
          next_prefix_proper p e next,
          interval-next_prefix p x e next hp hx,
          lex_leb-append_false p k x,
        ))
]

-- The interval that the namespace clients send for a key and a range end.
abbrev pub in_namespaced_range : Bytes → Bytes → Bytes → Bytes → Bool
in_namespaced_range p key range_end =
    in_range (prefix_with p key) (prefix_range_end_with p range_end)

-- A key without the prefix is in no translated interval.
interval_outside :
    (a : ℕ) (p key range_end x : Bytes)
    → IsBytes (a ∷ p)
    → IsBytes x
    → carries (a ∷ p) ≡ false
    → starts_with (a ∷ p) x ≡ false
    → in_namespaced_range (a ∷ p) key range_end x ≡ false
unfolding prefix_with prefix_range_end_with
interval_outside a p key [] x hp hx c out =
    unfold in_range is_edge in bytes_eq-starts_with (a ∷ p) key x out
interval_outside a p key (b ∷ j) x hp hx c out = elim (Bool-cases (is_edge (b ∷ j))) [
  | inl edge ↦ rw (edge, edge_of-eq-get_prefix (a ∷ p) hp c, edge_interval (a ∷ p) key x hp hx, out)
  | inr other ↦ rw other (
      unfold in_range in
      rw (is_edge-append a p (b ∷ j) refl) (between-starts_with (a ∷ p) key (b ∷ j) x out))
]

interval_inside :
    (a : ℕ) (p key range_end k : Bytes)
    → IsBytes (a ∷ p)
    → IsBytes (a ∷ p ++ k)
    → carries (a ∷ p) ≡ false
    → in_namespaced_range (a ∷ p) key range_end (a ∷ p ++ k) ≡ in_range key range_end k
unfolding prefix_with prefix_range_end_with
interval_inside a p key [] k hp hx c = unfold in_range is_edge in bytes_eq-append_left (a ∷ p) key k
interval_inside a p key (b ∷ j) k hp hx c = elim (Bool-cases (is_edge (b ∷ j))) [
  | inl edge ↦
      rw
        (
          edge,
          edge_of-eq-get_prefix (a ∷ p) hp c,
          edge_interval (a ∷ p) key (a ∷ p ++ k) hp hx,
          starts_with-append (a ∷ p) k,
        )
        (unfold in_range in rw edge (ap not (lex_ltb-append_left (a ∷ p) k key)))
  | inr other ↦ rw other (
      unfold in_range in
      rw (is_edge-append a p (b ∷ j) refl, other)
        (ground (arith, lex_ltb-append_left (a ∷ p) k key, lex_ltb-append_left (a ∷ p) k (b ∷ j))))
]

-- The translated interval holds exactly the keys of the namespace whose rest, behind the prefix, is
-- in the interval that the caller asked for: nothing of the namespace is lost and nothing outside
-- it is reached. The prefix is any byte string whose increment does not carry out of a last byte 0xff.
pub namespaced_range_exact :
    (p key range_end x : Bytes)
    → IsBytes p
    → IsBytes x
    → carries p ≡ false
    → in_namespaced_range p key range_end x
      ≡ (starts_with p x && in_range key range_end (strip_key_prefix p x))
namespaced_range_exact [] key range_end x hp hx c =
    unfold prefix_with prefix_range_end_with strip_key_prefix starts_with in refl
namespaced_range_exact (a ∷ p) key range_end x hp hx c = elim (Bool-cases (starts_with (a ∷ p) x)) [
  | inr out ↦ rw out (interval_outside a p key range_end x hp hx c out)
  | inl found ↦
      let (k, e) = starts_with→append (a ∷ p) x found in
      rw found (
        rw (e, strip_key_prefix-append (a ∷ p) k)
          (interval_inside a p key range_end k hp (subst IsBytes e hx) c))
]

-- Every key of the list is a byte string.
abbrev pub AreBytes : List Bytes → Type 0
AreBytes [] = Unit
AreBytes (x ∷ xs) = IsBytes x × AreBytes xs

-- The keys of the store as a client of the namespace sees them.
abbrev pub namespace_view : Bytes → List Bytes → List Bytes
namespace_view p keys = map (strip_key_prefix p) (select (starts_with p) keys)

-- For a prefix whose increment does not carry out of a last byte 0xff, a range request of a namespace
-- client, its answer stripped, is the request that the caller made,
-- run on the store's keys of the namespace alone, in the same order.
pub namespaced_range_refines :
    (p key range_end : Bytes) (keys : List Bytes)
    → IsBytes p
    → AreBytes keys
    → carries p ≡ false
    → map (strip_key_prefix p) (select (in_namespaced_range p key range_end) keys)
      ≡ select (in_range key range_end) (namespace_view p keys)
namespaced_range_refines p key range_end [] hp hk c = refl
namespaced_range_refines p key range_end (x ∷ keys) hp hk c = ground (
  arith,
  namespaced_range_exact p key range_end x hp hk.0 c,
  namespaced_range_refines p key range_end keys hp hk.1 c,
)
