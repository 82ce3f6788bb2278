-- ===== src/KeyRange/Prefix.antt =====
-- The end that `get_prefix` gives an interval, against the keys with a prefix.
use etcd_client.Prelude.{
  ℕ, ◌+◌, ◌≡◌, refl, sym, ◌∙◌, ap, false, ◌&&◌, Option, none, some, [], ◌∷◌, ◌++◌, reverse,
  append-nil, append_assoc, reverse-append, arith, ltb, if◌then◌else◌, is_empty, inl, inr,
  Option-cases,
}
use etcd_client.Bytes.{Bytes, IsBytes, lex_ltb, lex_leb, starts_with, is_edge, in_range}
use etcd_client.Bytes.Order.{lex_ltb-nil}
use etcd_client.KeyRange.{get_prefix_loop, get_prefix}

-- The least string above all strings with a prefix, computed from the front; there is none for a
-- prefix of bytes 0xff.
unfoldable pub next_prefix : Bytes → Option Bytes
next_prefix [] = none
next_prefix (v ∷ r) = elim (next_prefix r) [
  | some e ↦ some (v ∷ e)
  | none ↦ if ltb v 0xff then some ((v + 1) ∷ []) else none
]

abbrev or_edge : Bytes → Option Bytes → Bytes
or_edge acc none = get_prefix_loop acc
or_edge acc (some e) = reverse acc ++ e

pub reverse-cons_append : (v : ℕ) (acc e : Bytes) → reverse (v ∷ acc) ++ e ≡ reverse acc ++ (v ∷ e)
reverse-cons_append v acc e =
    ap (λ t. t ++ e) (reverse-append (v ∷ []) acc) ∙ append_assoc (reverse acc) (v ∷ []) e

or_edge-next_prefix :
    (v : ℕ) (r acc : Bytes) → or_edge (v ∷ acc) (next_prefix r) ≡ or_edge acc (next_prefix (v ∷ r))
unfolding get_prefix_loop next_prefix
or_edge-next_prefix v r acc = elim (Option-cases (next_prefix r)) [
  | inl last ↦ rw last (ground (arith, reverse-append ((v + 1) ∷ []) acc))
  | inr (e, inner) ↦ rw inner (reverse-cons_append v acc e)
]

-- The loop on `r` reversed, with `acc` still to be searched.
get_prefix_loop-append :
    (r acc : Bytes) → get_prefix_loop (reverse r ++ acc) ≡ or_edge acc (next_prefix r)
unfolding get_prefix_loop next_prefix
get_prefix_loop-append [] acc = refl
get_prefix_loop-append (v ∷ r) acc =
    ap get_prefix_loop (reverse-cons_append v r acc)
    ∙ get_prefix_loop-append r (v ∷ acc)
    ∙ or_edge-next_prefix v r acc

abbrev pub or_zero : Option Bytes → Bytes
or_zero none = 0 ∷ []
or_zero (some e) = e

or_edge-or_zero : (o : Option Bytes) → or_edge [] o ≡ or_zero o
unfolding get_prefix_loop
or_edge-or_zero none = refl
or_edge-or_zero (some e) = refl

pub get_prefix-eq-next_prefix : (key : Bytes) → get_prefix key ≡ or_zero (next_prefix key)
unfolding get_prefix
get_prefix-eq-next_prefix key =
    ap get_prefix_loop (sym (append-nil (reverse key)))
    ∙ get_prefix_loop-append key []
    ∙ or_edge-or_zero (next_prefix key)

-- A string of bytes 0xff has the prefixed keys and nothing else above it.
pub lex_leb-next_prefix-none :
    (r y : Bytes) → next_prefix r ≡ none → IsBytes r → IsBytes y → lex_leb r y ≡ starts_with r y
unfolding next_prefix lex_ltb starts_with
lex_leb-next_prefix-none [] y n hr hy = ground (arith, lex_ltb-nil y)
lex_leb-next_prefix-none (v ∷ r) [] n hr hy = refl
lex_leb-next_prefix-none (v ∷ r) (w ∷ y) n hr hy = ground (arith, lex_leb-next_prefix-none r y)

pub interval-next_prefix :
    (r y e : Bytes)
    → next_prefix r ≡ some e
    → IsBytes r
    → IsBytes y
    → (lex_leb r y && lex_ltb y e) ≡ starts_with r y
unfolding next_prefix lex_ltb starts_with
interval-next_prefix [] y e n hr hy = ground arith
interval-next_prefix (v ∷ r) [] e n hr hy = refl
interval-next_prefix (v ∷ r) (w ∷ y) e n hr hy = elim (Option-cases (next_prefix r)) [
  | inl last ↦ ground (arith, last, lex_leb-next_prefix-none r y, lex_ltb-nil y)
  | inr (e', inner) ↦ ground (arith, inner, interval-next_prefix r y e')
]

-- The end is no marker: it is not empty and not "\0".
pub next_prefix_proper :
    (r e : Bytes) → next_prefix r ≡ some e → (is_empty e ≡ false) × (is_edge e ≡ false)
unfolding next_prefix is_edge
next_prefix_proper [] e n = ground arith
next_prefix_proper (v ∷ r) e n = elim (Option-cases (next_prefix r)) [
  | inl last ↦ ground (arith, last)
  | inr (e', inner) ↦ ground (arith, inner, next_prefix_proper r e' inner)
]

-- The interval from a byte string to its `get_prefix` holds exactly the byte strings that start
-- with it: no key with the prefix is missed and no other key is taken. This covers prefixes of
-- bytes 0xff, for which the interval has no upper end.
pub in_range-get_prefix :
    (key x : Bytes) → IsBytes key → IsBytes x → in_range key (get_prefix key) x ≡ starts_with key x
unfolding in_range
in_range-get_prefix key x hk hx = elim (Option-cases (next_prefix key)) [
  | inl last ↦
      rw (get_prefix-eq-next_prefix, last)
        (unfold is_edge in lex_leb-next_prefix-none key x last hk hx)
  | inr (e, next) ↦
      rw (get_prefix-eq-next_prefix, next)
        (ground (arith, next_prefix_proper key e next, interval-next_prefix key x e next hk hx))
]
