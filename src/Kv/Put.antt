-- ===== src/Kv/Put.antt =====
-- `PutOptions` and `PutResponse` of src/rpc/kv.rs.
use etcd_client.Prelude.{ℤ, pos, Bool, true, false, Option, none, some, []}
use etcd_client.Bytes.{Bytes}
use etcd_client.Rpc.{ResponseHeader, KeyValue, map_key}
use etcd_client.VecExt.{strip_key_prefix}

-- `PbPutRequest`, which `PutOptions` wraps
pub record PutOptions : Type 0 where
  pub key : Bytes
  pub value : Bytes
  pub lease : ℤ
  pub prev_kv : Bool
  pub ignore_value : Bool
  pub ignore_lease : Bool

abbrev pub new : PutOptions
new = record {
  key = [];
  value = [];
  lease = pos 0;
  prev_kv = false;
  ignore_value = false;
  ignore_lease = false;
}

unfoldable pub with_kv : Bytes → Bytes → PutOptions → PutOptions
with_kv key value self = record self { key = key; value = value }

unfoldable pub with_lease : ℤ → PutOptions → PutOptions
with_lease lease self = record self { lease = lease }

unfoldable pub with_prev_key : PutOptions → PutOptions
with_prev_key self = record self { prev_kv = true }

unfoldable pub with_ignore_value : PutOptions → PutOptions
with_ignore_value self = record self { ignore_value = true }

unfoldable pub with_ignore_lease : PutOptions → PutOptions
with_ignore_lease self = record self { ignore_lease = true }

pub record PutResponse : Type 0 where
  pub header : Option ResponseHeader
  pub prev_kv : Option KeyValue

unfoldable pub take_header : PutResponse → PutResponse × Option ResponseHeader
take_header self = (record self { header = none }, self.header)

unfoldable pub take_prev_key : PutResponse → PutResponse × Option KeyValue
take_prev_key self = (record self { prev_kv = none }, self.prev_kv)

abbrev pub strip_kv : Bytes → Option KeyValue → Option KeyValue
strip_kv prefix none = none
strip_kv prefix (some kv) = some (map_key (strip_key_prefix prefix) kv)

unfoldable pub strip_prev_key_prefix : Bytes → PutResponse → PutResponse
strip_prev_key_prefix prefix self = record self { prev_kv = strip_kv prefix self.prev_kv }
