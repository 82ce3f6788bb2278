-- ===== src/Examples/Permissions.antt =====
-- A permission for the keys with the prefix "foo", and one for the key "foo" alone.
use etcd_client.Prelude.{◌≡◌, refl, true, [], ◌∷◌}
use etcd_client.Permission.{
  PbPermission, Permission, new, read_type, with_range_end, eq, from_pb, into_pb,
}
use etcd_client.Permission.Wire.{wire_key, into_pb-from_pb, eq-with_range_end}
use etcd_client.Auth.{new_revoke}
use etcd_client.Auth.Scopes.{
  prefix, up_to, widen, widen_revoke, granted, revoked, granted-eq-revoked,
}
use etcd_client.Examples.{foo}

abbrev foo_prefix : PbPermission
foo_prefix = record { perm_type = 0; key = foo; range_end = 102 ∷ 111 ∷ 112 ∷ [] }

into_pb-from_pb_example :
    into_pb (from_pb foo_prefix) ≡ record foo_prefix { key = wire_key foo_prefix }
into_pb-from_pb_example = into_pb-from_pb foo_prefix

abbrev foo_alone : Permission
foo_alone = new read_type foo

eq-with_range_end_example : eq (with_range_end foo foo_alone) (with_range_end [] foo_alone) ≡ true
eq-with_range_end_example = eq-with_range_end foo_alone foo []

-- A read permission that was for a prefix, and is now for the interval from "foo" to "fop".
granted-eq-revoked_example :
    granted (widen (up_to (102 ∷ 111 ∷ 112 ∷ [])) (widen prefix (new read_type foo)))
    ≡ revoked 0 foo (widen_revoke (up_to (102 ∷ 111 ∷ 112 ∷ [])) (widen_revoke prefix new_revoke))
granted-eq-revoked_example =
    granted-eq-revoked (prefix ∷ []) (up_to (102 ∷ 111 ∷ 112 ∷ [])) read_type foo refl
