-- ===== src/Kv/Compare.antt =====
-- `Compare` of src/rpc/kv.rs: one comparison of a transaction.
use etcd_client.Prelude.{ℕ, ℤ, Option, some, []}
use etcd_client.Bytes.{Bytes}
use etcd_client.KeyRange.{get_prefix}

pub data CompareOp : Type 0 where
  equal greater less not_equal : CompareOp

abbrev pub op_code : CompareOp → ℕ
op_code equal = 0
op_code greater = 1
op_code less = 2
op_code not_equal = 3

pub data CompareTarget : Type 0 where
  version_target create_target mod_target value_target lease_target : CompareTarget

abbrev pub target_code : CompareTarget → ℕ
target_code version_target = 0
target_code create_target = 1
target_code mod_target = 2
target_code value_target = 3
target_code lease_target = 4

pub data TargetUnion : Type 0 where
  version_union : ℤ → TargetUnion
  create_revision_union : ℤ → TargetUnion
  mod_revision_union : ℤ → TargetUnion
  value_union : Bytes → TargetUnion
  lease_union : ℤ → TargetUnion

-- `PbCompare`, which `Compare` wraps
pub record Compare : Type 0 where
  pub result : ℕ
  pub target : ℕ
  pub key : Bytes
  pub range_end : Bytes
  pub target_union : Option TargetUnion

unfoldable pub new : Bytes → CompareOp → CompareTarget → TargetUnion → Compare
new key cmp target target_union = record {
  result = op_code cmp;
  target = target_code target;
  key = key;
  range_end = [];
  target_union = some target_union;
}

unfoldable pub version : Bytes → CompareOp → ℤ → Compare
unfolding new
version key cmp expected = new key cmp version_target (version_union expected)

unfoldable pub create_revision : Bytes → CompareOp → ℤ → Compare
unfolding new
create_revision key cmp revision = new key cmp create_target (create_revision_union revision)

unfoldable pub mod_revision : Bytes → CompareOp → ℤ → Compare
unfolding new
mod_revision key cmp revision = new key cmp mod_target (mod_revision_union revision)

unfoldable pub value : Bytes → CompareOp → Bytes → Compare
unfolding new
value key cmp expected = new key cmp value_target (value_union expected)

unfoldable pub lease : Bytes → CompareOp → ℤ → Compare
unfolding new
lease key cmp expected = new key cmp lease_target (lease_union expected)

unfoldable pub with_range : Bytes → Compare → Compare
with_range end self = record self { range_end = end }

unfoldable pub with_prefix : Compare → Compare
with_prefix self = record self { range_end = get_prefix self.key }
