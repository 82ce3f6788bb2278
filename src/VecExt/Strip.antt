-- ===== src/VecExt/Strip.antt =====
-- Adding a prefix and stripping it.
use etcd_client.Prelude.{
  if◌then◌else◌, Bool-cases, inl, inr, ◌≡◌, refl, false, [], ◌∷◌, ◌++◌, drop-length_append, ap, ◌∙◌,
}
use etcd_client.Bytes.{Bytes, starts_with}
use etcd_client.Bytes.Order.{starts_with-append, starts_with→append}
use etcd_client.VecExt.{strip_key_prefix, prefix_with}

pub prefix_with-eq-append : (p k : Bytes) → prefix_with p k ≡ p ++ k
unfolding prefix_with
prefix_with-eq-append [] k = refl
prefix_with-eq-append (x ∷ p) k = refl

pub strip_key_prefix-append : (p k : Bytes) → strip_key_prefix p (p ++ k) ≡ k
unfolding strip_key_prefix
strip_key_prefix-append [] k = refl
strip_key_prefix-append (x ∷ p) k = rw (starts_with-append (x ∷ p) k) (drop-length_append (x ∷ p) k)

pub strip_key_prefix_other : (p x : Bytes) → starts_with p x ≡ false → strip_key_prefix p x ≡ x
unfolding strip_key_prefix
strip_key_prefix_other [] x h = refl
strip_key_prefix_other (a ∷ p) x h = rw h

-- Stripping undoes adding; adding undoes stripping for a key with the prefix, and a key without the
-- prefix, which stripping leaves as it is, gets it.
pub strip_key_prefix-prefix_with :
    (p k x : Bytes)
    → (strip_key_prefix p (prefix_with p k) ≡ k)
      × (prefix_with p (strip_key_prefix p x) ≡ (if starts_with p x then x else p ++ x))
strip_key_prefix-prefix_with p k x = (
  ap (strip_key_prefix p) (prefix_with-eq-append p k) ∙ strip_key_prefix-append p k,
  elim (Bool-cases (starts_with p x)) [
    | inr out ↦ rw (out, strip_key_prefix_other p x out) (prefix_with-eq-append p x)
    | inl found ↦
        let (j, e) = starts_with→append p x found in
        rw found
          (rw e (ap (prefix_with p) (strip_key_prefix-append p j) ∙ prefix_with-eq-append p j))
  ],
)
