-- ===== src/Kv/Compaction.antt =====
-- `CompactionOptions` and `CompactionResponse` of src/rpc/kv.rs.
use etcd_client.Prelude.{ℤ, pos, Bool, true, false, Option, none}
use etcd_client.Rpc.{ResponseHeader}

-- `PbCompactionRequest`, which `CompactionOptions` wraps
pub record CompactionOptions : Type 0 where
  pub revision : ℤ
  pub physical : Bool

abbrev pub new : CompactionOptions
new = record { revision = pos 0; physical = false }

unfoldable pub with_revision : ℤ → CompactionOptions → CompactionOptions
with_revision revision self = record self { revision = revision }

unfoldable pub with_physical : CompactionOptions → CompactionOptions
with_physical self = record self { physical = true }

pub record CompactionResponse : Type 0 where
  pub header : Option ResponseHeader

unfoldable pub take_header : CompactionResponse → CompactionResponse × Option ResponseHeader
take_header self = (record self { header = none }, self.header)
