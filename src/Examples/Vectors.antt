-- ===== src/Examples/Vectors.antt =====
-- The unit tests of src/vec.rs, and its operations on concrete vectors.
use etcd_client.Prelude.{
  ℕ, zero, suc, ◌≤◌, ◌≡◌, refl, true, false, ◌&&◌, [], ◌∷◌, arith, length, replicate,
}
use etcd_client.Bytes.{in_range, starts_with, is_edge}
use etcd_client.KeyRange.{get_prefix}
use etcd_client.VecExt
use etcd_client.VecExt.{strip_key_prefix, prefix_with, prefix_range_end_with}
use etcd_client.VecExt.Raw
use etcd_client.VecExt.Raw.{RawVec, Allocator, contents, IsValid}
use etcd_client.VecExt.Raw.Safety.{Yields, strip_key_prefix_safe, prefix_with_safe}
use etcd_client.VecExt.Edge.{carries}
use etcd_client.VecExt.Interval.{in_namespaced_range, namespaced_range_exact}
use etcd_client.VecExt.Leak.{carried_range_leaks}
use etcd_client.Examples.{foo, bar, foobar, foo-IsBytes, foobar-IsBytes}

prefix_range_end_single : prefix_range_end_with foo [] ≡ []
unfolding prefix_range_end_with VecExt.edge_of is_edge
prefix_range_end_single = refl

prefix_range_end_all : prefix_range_end_with foo (0 ∷ []) ≡ 102 ∷ 111 ∷ 112 ∷ []
unfolding prefix_range_end_with VecExt.edge_of is_edge
prefix_range_end_all = refl

prefix_range_end_last : prefix_range_end_with (0xff ∷ 0xff ∷ []) (0 ∷ []) ≡ 0 ∷ []
unfolding prefix_range_end_with VecExt.edge_of is_edge
prefix_range_end_last = refl

length-replicate_le : (n : ℕ) → n ≤ length {A = ℕ} (replicate n 0)
length-replicate_le zero = omega arith
length-replicate_le (suc n) = omega (arith, length-replicate_le n)

-- The allocator that adds what is missing, as zero bytes.
abbrev zero_fill : Allocator
zero_fill = record { spare = λ n. replicate n 0; enough = length-replicate_le }

abbrev full : RawVec
full = record { cells = foobar; len = 6 }

strip_key_prefix_safe_example : Yields (Raw.strip_key_prefix foo full) (strip_key_prefix foo foobar)
strip_key_prefix_safe_example = strip_key_prefix_safe foo full (omega arith)

prefix_with_safe_example : Yields (Raw.prefix_with zero_fill bar full) (prefix_with bar foobar)
prefix_with_safe_example = prefix_with_safe zero_fill bar full (omega arith)

carries-foo : carries foo ≡ false
unfolding carries
carries-foo = refl

namespaced_range_exact_example :
    in_namespaced_range foo bar (0 ∷ []) foobar
    ≡ (starts_with foo foobar && in_range bar (0 ∷ []) (strip_key_prefix foo foobar))
namespaced_range_exact_example =
    namespaced_range_exact foo bar (0 ∷ []) foobar foo-IsBytes foobar-IsBytes carries-foo

carried_range_leaks_example :
    (in_namespaced_range (102 ∷ 0xff ∷ []) bar (0 ∷ []) (get_prefix (102 ∷ 0xff ∷ [])) ≡ true)
    × (starts_with (102 ∷ 0xff ∷ []) (get_prefix (102 ∷ 0xff ∷ [])) ≡ false)
carried_range_leaks_example =
    carried_range_leaks (102 ∷ 0xff ∷ []) bar (ground arith) (unfold carries in refl)
