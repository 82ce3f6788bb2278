-- ===== src/Kv/Delete.antt =====
-- `DeleteOptions` and `DeleteResponse` of src/rpc/kv.rs.
use etcd_client.Prelude.{ℤ, Bool, true, false, Option, none, List, []}
use etcd_client.Bytes.{Bytes}
use etcd_client.Rpc.{ResponseHeader, KeyValue}
use etcd_client.KeyRange
use etcd_client.KeyRange.{KeyRange}
use etcd_client.Kv.Get.{strip_kvs}

pub record PbDeleteRequest : Type 0 where
  pub key : Bytes
  pub range_end : Bytes
  pub prev_kv : Bool

pub record DeleteOptions : Type 0 where
  pub req : PbDeleteRequest
  pub key_range : KeyRange

abbrev pub new : DeleteOptions
new = record {
  req = record { key = []; range_end = []; prev_kv = false };
  key_range = KeyRange.new;
}

unfoldable pub with_key : Bytes → DeleteOptions → DeleteOptions
with_key key self = record self { key_range = KeyRange.with_key key self.key_range }

unfoldable pub with_range : Bytes → DeleteOptions → DeleteOptions
with_range end_key self = record self { key_range = KeyRange.with_range end_key self.key_range }

unfoldable pub with_from_key : DeleteOptions → DeleteOptions
with_from_key self = record self { key_range = KeyRange.with_from_key self.key_range }

unfoldable pub with_prefix : DeleteOptions → DeleteOptions
with_prefix self = record self { key_range = KeyRange.with_prefix self.key_range }

unfoldable pub with_all_keys : DeleteOptions → DeleteOptions
with_all_keys self = record self { key_range = KeyRange.with_all_keys self.key_range }

unfoldable pub with_prev_key : DeleteOptions → DeleteOptions
with_prev_key self = record self { req = record self.req { prev_kv = true } }

-- A write through `key_range_end_mut`
unfoldable pub map_range_end : (Bytes → Bytes) → DeleteOptions → DeleteOptions
map_range_end f self = record self {
  key_range = record self.key_range { range_end = f self.key_range.range_end };
}

-- `From<DeleteOptions> for PbDeleteRequest`
unfoldable pub into_request : DeleteOptions → PbDeleteRequest
into_request options =
    let (key, range_end) = KeyRange.build options.key_range in
    record options.req { key = key; range_end = range_end }

pub record DeleteResponse : Type 0 where
  pub header : Option ResponseHeader
  pub deleted : ℤ
  pub prev_kvs : List KeyValue

unfoldable pub take_header : DeleteResponse → DeleteResponse × Option ResponseHeader
take_header self = (record self { header = none }, self.header)

unfoldable pub take_prev_kvs : DeleteResponse → DeleteResponse × List KeyValue
take_prev_kvs self = (record self { prev_kvs = [] }, self.prev_kvs)

unfoldable pub strip_prev_kvs_prefix : Bytes → DeleteResponse → DeleteResponse
strip_prev_kvs_prefix prefix self = record self { prev_kvs = strip_kvs prefix self.prev_kvs }
