-- ===== src/Permission/Wire.antt =====
-- Permissions on the wire and back, and their comparison.
use etcd_client.Prelude.{
  ◌≡◌, refl, true, ◌&&◌, [], ◌∷◌, arith, is_empty, if◌then◌else◌, Bool-cases, inl, inr,
}
use etcd_client.Bytes.{Bytes, bytes_eq, is_edge}
use etcd_client.Bytes.Order.{bytes_eq→eq, bytes_eq_refl}
use etcd_client.KeyRange
use etcd_client.KeyRange.{get_prefix, get_prefix_loop, build}
use etcd_client.Permission.{PbPermission, Permission, with_range_end, eq, from_pb, into_pb}

eq_of_is_edge : (x : Bytes) → is_edge x ≡ true → x ≡ 0 ∷ []
unfolding is_edge
eq_of_is_edge [] h = ground arith
eq_of_is_edge (v ∷ []) h = ground arith
eq_of_is_edge (v ∷ w ∷ x) h = ground arith

is_edge-get_prefix_empty : (key : Bytes) → is_empty key ≡ true → is_edge (get_prefix key) ≡ true
unfolding get_prefix is_edge
is_edge-get_prefix_empty [] h = refl
is_edge-get_prefix_empty (v ∷ key) h = ground arith

-- The key that goes out: "\0" for the empty key of a permission with no upper end.
abbrev pub wire_key : PbPermission → Bytes
wire_key p = if is_empty p.key && is_edge p.range_end then 0 ∷ [] else p.key

-- A permission that the server has sent, turned into a `Permission` and sent again, is the same, with
-- its type and its range end; the empty key of a permission with no upper end becomes "\0".
pub into_pb-from_pb : (p : PbPermission) → into_pb (from_pb p) ≡ record p { key = wire_key p }
unfolding into_pb from_pb build KeyRange.with_key KeyRange.with_range KeyRange.with_prefix
    KeyRange.with_from_key
into_pb-from_pb p = elim (Bool-cases (is_edge p.range_end)) [
  | inl edge ↦ ground (arith, edge, eq_of_is_edge p.range_end edge)
  | inr other ↦ elim (Bool-cases (is_empty p.range_end)) [
    | inl single ↦ ground (arith, other, single)
    | inr range ↦ elim (Bool-cases (bytes_eq (get_prefix p.key) p.range_end)) [
      | inr apart ↦ ground (arith, other, range, apart)
      | inl same ↦ ground (
        arith,
        other,
        range,
        same,
        bytes_eq→eq (get_prefix p.key) p.range_end same,
        is_edge-get_prefix_empty p.key,
      )
    ]
  ]
]

-- The comparison of permissions does not see their range ends: two permissions that differ in nothing
-- else are equal.
pub eq-with_range_end :
    (p : Permission) (a b : Bytes) → eq (with_range_end a p) (with_range_end b p) ≡ true
unfolding eq with_range_end
eq-with_range_end p a b = ground (arith, bytes_eq_refl p.inner.key)
