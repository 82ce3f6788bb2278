-- ===== src/VecExt/Edge.antt =====
-- The branch of `prefix_range_end_with` for the edge of the key space, against `get_prefix`.
use etcd_client.Prelude.{
  ℕ, zero, suc, ◌+◌, ◌<◌, ◌≡◌, refl, sym, ◌∙◌, ap, Bool, true, false, not, ◌&&◌, Option, none, some,
  [], ◌∷◌, ◌++◌, reverse, append-nil, reverse-append, reverse-reverse, arith, ltb, ◌==◌,
  if◌then◌else◌, inl, inr, Option-cases, Bool-cases, length, replicate,
}
use etcd_client.Bytes.{Bytes, IsBytes}
use etcd_client.KeyRange.{get_prefix}
use etcd_client.KeyRange.Prefix.{
  next_prefix, or_zero, get_prefix-eq-next_prefix, reverse-cons_append,
}
use etcd_client.VecExt.{edge_loop, edge_of}

abbrev zeros : ℕ → Bytes
zeros n = replicate n 0

-- `edge_loop` computed from the front. Trailing bytes 0xff become zero bytes and stay.
unfoldable pub next_edge : Bytes → Option Bytes
next_edge [] = none
next_edge (v ∷ r) = elim (next_edge r) [
  | some e ↦ some (v ∷ e)
  | none ↦ if ltb v 0xff then some ((v + 1) ∷ zeros (length r)) else none
]

zeros-append : (n : ℕ) (xs : Bytes) → zeros n ++ (0 ∷ xs) ≡ zeros (suc n) ++ xs
zeros-append zero xs = refl
zeros-append (suc n) xs = ap (λ t. 0 ∷ t) (zeros-append n xs)

reverse-zeros : (n : ℕ) → reverse (zeros n) ≡ zeros n
reverse-zeros zero = refl
reverse-zeros (suc n) =
    reverse-append (0 ∷ []) (zeros n)
    ∙ ap (λ t. t ++ 0 ∷ []) (reverse-zeros n)
    ∙ zeros-append n []
    ∙ append-nil (zeros (suc n))

-- What the loop gives when it has gone through `n` bytes that all became zero.
abbrev carried : ℕ → Bytes × Bool → Bytes × Bool
carried n rest = (zeros n ++ rest.0, rest.1)

abbrev edge_result : Bytes → ℕ → Option Bytes → Bytes × Bool
edge_result acc n none = carried n (edge_loop acc)
edge_result acc n (some e) = (reverse e ++ acc, true)

edge_result-next_edge :
    (v : ℕ) (r acc : Bytes)
    → v < 256
    → edge_result (v ∷ acc) (length r) (next_edge r)
      ≡ edge_result acc (suc (length r)) (next_edge (v ∷ r))
unfolding next_edge edge_loop
edge_result-next_edge v r acc h = elim (Option-cases (next_edge r)) [
  | inl last ↦ rw last (
      ground (
        arith,
        zeros-append (length r) (edge_loop acc).0,
        reverse-cons_append (v + 1) (zeros (length r)) acc,
        reverse-zeros (length r),
      ))
  | inr (e, inner) ↦
      rw inner (ap {B = Bytes × Bool} (λ t. (t, true)) (sym (reverse-cons_append v e acc)))
]

edge_loop-append :
    (r acc : Bytes)
    → IsBytes r
    → edge_loop (reverse r ++ acc) ≡ edge_result acc (length r) (next_edge r)
unfolding next_edge edge_loop
edge_loop-append [] acc h = refl
edge_loop-append (v ∷ r) acc h =
    ap edge_loop (reverse-cons_append v r acc)
    ∙ edge_loop-append r (v ∷ acc) h.1
    ∙ edge_result-next_edge v r acc h.0

abbrev read_edge : Bytes × Bool → Bytes
read_edge (bytes, success) = if success then reverse bytes else 0 ∷ []

read_edge-edge_result :
    (n : ℕ) (found : Option Bytes) → read_edge (edge_result [] n found) ≡ or_zero found
unfolding edge_loop
read_edge-edge_result n none = refl
read_edge-edge_result n (some e) = ap reverse (append-nil (reverse e)) ∙ reverse-reverse e

edge_of-eq-next_edge : (p : Bytes) → IsBytes p → edge_of p ≡ or_zero (next_edge p)
unfolding edge_of
edge_of-eq-next_edge p h =
    ap (λ t. read_edge (edge_loop t)) (sym (append-nil (reverse p)))
    ∙ ap read_edge (edge_loop-append p [] h)
    ∙ read_edge-edge_result (length p) (next_edge p)

-- The last byte of the prefix is 0xff.
unfoldable pub ends_in_ff : Bytes → Bool
ends_in_ff [] = false
ends_in_ff (v ∷ []) = v == 0xff
ends_in_ff (v ∷ w ∷ r) = ends_in_ff (w ∷ r)

-- Every byte of the prefix is 0xff.
unfoldable pub is_all_ff : Bytes → Bool
is_all_ff [] = true
is_all_ff (v ∷ r) = (v == 0xff) && is_all_ff r

-- The increment carries out of the last byte, and stops at another one.
unfoldable pub carries : Bytes → Bool
unfolding ends_in_ff is_all_ff
carries p = ends_in_ff p && not (is_all_ff p)

next_edge_all_ff :
    (p : Bytes) → IsBytes p → is_all_ff p ≡ true → (next_edge p ≡ none) × (next_prefix p ≡ none)
unfolding next_edge next_prefix is_all_ff
next_edge_all_ff [] h f = (refl, refl)
next_edge_all_ff (v ∷ r) h f = ground (arith, next_edge_all_ff r h.1)

next_edge_no_ff :
    (v : ℕ) (r : Bytes)
    → v < 256
    → IsBytes r
    → ends_in_ff (v ∷ r) ≡ false
    → (e : Bytes) × (next_edge (v ∷ r) ≡ some e) × (next_prefix (v ∷ r) ≡ some e)
unfolding next_edge next_prefix ends_in_ff
next_edge_no_ff v [] k h f = ((v + 1) ∷ [], ground arith, ground arith)
next_edge_no_ff v (w ∷ r) k h f =
    let (e, a, b) = next_edge_no_ff w r h.0 h.1 f in (v ∷ e, ground (arith, a), ground (arith, b))

next_edge_no_carry : (p : Bytes) → IsBytes p → carries p ≡ false → next_edge p ≡ next_prefix p
unfolding carries
next_edge_no_carry [] h f = unfold next_edge next_prefix in refl
next_edge_no_carry (v ∷ r) h f = elim (Bool-cases (is_all_ff (v ∷ r))) [
  | inl all ↦ let (a, b) = next_edge_all_ff (v ∷ r) h all in a ∙ sym b
  | inr some_other ↦ let (e, a, b) = next_edge_no_ff v r h.0 h.1 (ground arith) in a ∙ sym b
]

-- Without a carry out of the last byte the edge of a namespace is the end of its prefix interval.
pub edge_of-eq-get_prefix : (p : Bytes) → IsBytes p → carries p ≡ false → edge_of p ≡ get_prefix p
edge_of-eq-get_prefix p h f =
    edge_of-eq-next_edge p h
    ∙ ap or_zero (next_edge_no_carry p h f)
    ∙ sym (get_prefix-eq-next_prefix p)

next_edge_carry :
    (v : ℕ) (r : Bytes)
    → v < 256
    → IsBytes r
    → ends_in_ff (v ∷ r) ≡ true
    → is_all_ff (v ∷ r) ≡ false
    → (e : Bytes) × (n : ℕ) × (next_prefix (v ∷ r) ≡ some e)
      × (next_edge (v ∷ r) ≡ some (e ++ zeros (suc n)))
unfolding next_edge next_prefix ends_in_ff is_all_ff
next_edge_carry v [] k h f g = absurd (ground arith)
next_edge_carry v (w ∷ r) k h f g = elim (Bool-cases (is_all_ff (w ∷ r))) [
  | inl all ↦
      let (a, b) = next_edge_all_ff (w ∷ r) h all in
      ((v + 1) ∷ [], length r, ground (arith, b), ground (arith, a))
  | inr other ↦
      let (e, n, b, a) = next_edge_carry w r h.0 h.1 f other in
      (v ∷ e, n, ground (arith, b), ground (arith, a))
]

-- With a carry it is that end, and at least one zero byte behind it.
pub edge_of-carries :
    (p : Bytes)
    → IsBytes p
    → carries p ≡ true
    → (e : Bytes) × (n : ℕ) × (next_prefix p ≡ some e) × (edge_of p ≡ e ++ zeros (suc n))
unfolding carries
edge_of-carries [] h f = absurd (unfold ends_in_ff in ground arith)
edge_of-carries (v ∷ r) h f =
    let (e, n, b, a) = next_edge_carry v r h.0 h.1 (ground arith) (ground arith) in
    (e, n, b, edge_of-eq-next_edge (v ∷ r) h ∙ ap or_zero a)
