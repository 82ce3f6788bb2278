-- ===== src/VecExt/Leak.antt =====
-- What the namespace clients reach when the increment of a prefix carries out of a last byte 0xff.
use etcd_client.Prelude.{
  ℕ, suc, ◌≡◌, refl, true, false, some, [], ◌∷◌, ◌++◌, arith, is_empty, inl, inr, Option-cases,
  replicate,
}
use etcd_client.Bytes.{Bytes, IsBytes, lex_ltb, lex_leb, starts_with, is_edge, in_range}
use etcd_client.Bytes.Order.{is_edge-append}
use etcd_client.KeyRange.{get_prefix}
use etcd_client.KeyRange.Prefix.{next_prefix, get_prefix-eq-next_prefix, next_prefix_proper}
use etcd_client.VecExt.{prefix_with, prefix_range_end_with, edge_of}
use etcd_client.VecExt.Edge.{carries, edge_of-carries}
use etcd_client.VecExt.Interval.{in_namespaced_range}

pub not-starts_with-next_prefix : (p e : Bytes) → next_prefix p ≡ some e → starts_with p e ≡ false
unfolding next_prefix starts_with
not-starts_with-next_prefix [] e h = ground arith
not-starts_with-next_prefix (v ∷ r) e h = elim (Option-cases (next_prefix r)) [
  | inl last ↦ ground (arith, last)
  | inr (e', inner) ↦ ground (arith, inner, not-starts_with-next_prefix r e' inner)
]

-- The end of a prefix interval is above every key with the prefix.
pub lex_leb-next_prefix : (p k e : Bytes) → next_prefix p ≡ some e → lex_leb (p ++ k) e ≡ true
unfolding next_prefix lex_ltb
lex_leb-next_prefix [] k e h = ground arith
lex_leb-next_prefix (v ∷ r) k e h = elim (Option-cases (next_prefix r)) [
  | inl last ↦ ground (arith, last)
  | inr (e', inner) ↦ ground (arith, inner, lex_leb-next_prefix r k e' inner)
]

lex_ltb-append_right : (e : Bytes) (b : ℕ) (z : Bytes) → lex_ltb e (e ++ (b ∷ z)) ≡ true
unfolding lex_ltb
lex_ltb-append_right [] b z = refl
lex_ltb-append_right (a ∷ e) b z = ground (arith, lex_ltb-append_right e b z)

long_interval :
    (key e z : Bytes)
    → is_empty e ≡ false
    → lex_leb key e ≡ true
    → in_range key (e ++ (0 ∷ z)) e ≡ true
unfolding in_range
long_interval key [] z h le = absurd (ground arith)
long_interval key (b ∷ e) z h le =
    rw (is_edge-append b e (0 ∷ z) refl, le) (lex_ltb-append_right (b ∷ e) 0 z)

reaches :
    (v : ℕ) (r key e : Bytes) (n : ℕ)
    → next_prefix (v ∷ r) ≡ some e
    → edge_of (v ∷ r) ≡ e ++ replicate (suc n) 0
    → in_namespaced_range (v ∷ r) key (0 ∷ []) e ≡ true
unfolding prefix_with prefix_range_end_with is_edge
reaches v r key e n b a = rw a (
    long_interval (v ∷ r ++ key) e (replicate n 0) (next_prefix_proper (v ∷ r) e b).0
      (lex_leb-next_prefix (v ∷ r) key e b))

-- For a prefix whose increment carries out of a last byte 0xff the open interval of the namespace
-- is too long: it reaches a key outside the namespace, whatever the key it starts from.
pub carried_range_leaks :
    (p key : Bytes)
    → IsBytes p
    → carries p ≡ true
    → (in_namespaced_range p key (0 ∷ []) (get_prefix p) ≡ true)
      × (starts_with p (get_prefix p) ≡ false)
carried_range_leaks [] key hp c = absurd (unfold carries in ground arith)
carried_range_leaks (v ∷ r) key hp c =
    let (e, n, b, a) = edge_of-carries (v ∷ r) hp c in
    rw (get_prefix-eq-next_prefix, b)
      (reaches v r key e n b a, not-starts_with-next_prefix (v ∷ r) e b)
