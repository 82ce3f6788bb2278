-- ===== src/KeyRange/Build.antt =====
-- The keys that the request built from a `KeyRange` means, for each of its modes.
use etcd_client.Prelude.{
  ◌≡◌, refl, sym, ◌∙◌, Bool, true, false, [], ◌∷◌, arith, is_empty, if◌then◌else◌,
}
use etcd_client.Bytes.{Bytes, IsBytes, lex_ltb, lex_leb, starts_with, is_edge, in_range}
use etcd_client.Bytes.Order.{lex_ltb-nil}
use etcd_client.KeyRange.{
  KeyRange, with_range, with_from_key, with_prefix, with_all_keys, build, get_prefix,
}
use etcd_client.KeyRange.Prefix.{in_range-get_prefix}

-- The key `x` is one of those that the request built from `r` means.
unfoldable pub covers : KeyRange → Bytes → Bool
covers r x = let (key, range_end) = build r in in_range key range_end x

-- "\0" is the least key that is not empty.
pub lex_leb-zero : (x : Bytes) → is_empty x ≡ false → lex_leb (0 ∷ []) x ≡ true
unfolding lex_ltb
lex_leb-zero [] h = ground arith
lex_leb-zero (w ∷ x) h = ground (arith, lex_ltb-nil x)

lex_leb-nil : (x : Bytes) → lex_leb [] x ≡ true
unfolding lex_ltb
lex_leb-nil [] = refl
lex_leb-nil (w ∷ x) = refl

-- The two ends that `build` takes in prefix mode.
abbrev pub prefix_ends : Bytes → Bytes × Bytes
prefix_ends key = if is_empty key then (0 ∷ [], 0 ∷ []) else (key, get_prefix key)

pub prefix_range :
    (key x : Bytes)
    → IsBytes key
    → IsBytes x
    → is_empty x ≡ false
    → in_range (prefix_ends key).0 (prefix_ends key).1 x ≡ starts_with key x
unfolding in_range starts_with is_edge
prefix_range [] x hk hx h = lex_leb-zero x h
prefix_range (k ∷ key) x hk hx h = in_range-get_prefix (k ∷ key) x hk hx

from_key_range :
    (key x : Bytes)
    → is_empty x ≡ false
    → lex_leb (if is_empty key then 0 ∷ [] else key) x ≡ lex_leb key x
from_key_range [] x h = lex_leb-zero x h ∙ sym (lex_leb-nil x)
from_key_range (k ∷ key) x h = refl

module _ (r : KeyRange) (x : Bytes) where
  pub covers-with_prefix :
      IsBytes r.key
      → IsBytes x
      → is_empty x ≡ false
      → covers (with_prefix r) x ≡ starts_with r.key x
  unfolding covers build with_prefix
  covers-with_prefix hk hx h = prefix_range r.key x hk hx h

  pub covers-with_from_key : is_empty x ≡ false → covers (with_from_key r) x ≡ lex_leb r.key x
  unfolding covers build with_from_key in_range is_edge
  covers-with_from_key h = from_key_range r.key x h

  pub covers-with_all_keys : is_empty x ≡ false → covers (with_all_keys r) x ≡ true
  unfolding covers build with_all_keys in_range is_edge
  covers-with_all_keys h = lex_leb-zero x h

  pub covers-with_range :
      (end_key : Bytes) → covers (with_range end_key r) x ≡ in_range r.key end_key x
  unfolding covers build with_range
  covers-with_range end_key = refl

  -- Whatever was called on the options before, the last call decides what the request means, for
  -- every stored (so not empty) key: `with_prefix` the keys that start with the key, `with_from_key`
  -- those from the key on, `with_all_keys` all, and `with_range` the interval up to its argument.
  pub covers_modes :
      (end_key : Bytes)
      → IsBytes r.key
      → IsBytes x
      → is_empty x ≡ false
      → (covers (with_prefix r) x ≡ starts_with r.key x)
        × (covers (with_from_key r) x ≡ lex_leb r.key x)
        × (covers (with_all_keys r) x ≡ true)
        × (covers (with_range end_key r) x ≡ in_range r.key end_key x)
  covers_modes end_key hk hx h = (
    covers-with_prefix hk hx h,
    covers-with_from_key h,
    covers-with_all_keys h,
    covers-with_range end_key,
  )
