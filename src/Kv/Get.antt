-- ===== src/Kv/Get.antt =====
-- `GetOptions` and `GetResponse` of src/rpc/kv.rs.
use etcd_client.Prelude.{ℕ, ℤ, pos, Bool, true, false, Option, none, List, [], map, if◌then◌else◌}
use etcd_client.Bytes.{Bytes}
use etcd_client.Rpc.{ResponseHeader, KeyValue, map_key}
use etcd_client.KeyRange
use etcd_client.KeyRange.{KeyRange}
use etcd_client.VecExt.{strip_key_prefix}

pub data SortOrder : Type 0 where
  none_order ascend descend : SortOrder

pub data SortTarget : Type 0 where
  key_target version_target create_target mod_target value_target : SortTarget

-- `order as i32`
abbrev pub order_code : SortOrder → ℕ
order_code none_order = 0
order_code ascend = 1
order_code descend = 2

abbrev pub target_code : SortTarget → ℕ
target_code key_target = 0
target_code version_target = 1
target_code create_target = 2
target_code mod_target = 3
target_code value_target = 4

pub record PbRangeRequest : Type 0 where
  pub key : Bytes
  pub range_end : Bytes
  pub limit : ℤ
  pub revision : ℤ
  pub sort_order : ℕ
  pub sort_target : ℕ
  pub serializable : Bool
  pub keys_only : Bool
  pub count_only : Bool
  pub min_mod_revision : ℤ
  pub max_mod_revision : ℤ
  pub min_create_revision : ℤ
  pub max_create_revision : ℤ

pub record GetOptions : Type 0 where
  pub req : PbRangeRequest
  pub key_range : KeyRange

abbrev pub new : GetOptions
new = record {
  req = record {
    key = [];
    range_end = [];
    limit = pos 0;
    revision = pos 0;
    sort_order = 0;
    sort_target = 0;
    serializable = false;
    keys_only = false;
    count_only = false;
    min_mod_revision = pos 0;
    max_mod_revision = pos 0;
    min_create_revision = pos 0;
    max_create_revision = pos 0;
  };
  key_range = KeyRange.new;
}

unfoldable pub with_key : Bytes → GetOptions → GetOptions
with_key key self = record self { key_range = KeyRange.with_key key self.key_range }

unfoldable pub with_range : Bytes → GetOptions → GetOptions
with_range end_key self = record self { key_range = KeyRange.with_range end_key self.key_range }

unfoldable pub with_from_key : GetOptions → GetOptions
with_from_key self = record self { key_range = KeyRange.with_from_key self.key_range }

unfoldable pub with_prefix : GetOptions → GetOptions
with_prefix self = record self { key_range = KeyRange.with_prefix self.key_range }

unfoldable pub with_all_keys : GetOptions → GetOptions
with_all_keys self = record self { key_range = KeyRange.with_all_keys self.key_range }

unfoldable pub with_limit : ℤ → GetOptions → GetOptions
with_limit limit self = record self { req = record self.req { limit = limit } }

unfoldable pub with_revision : ℤ → GetOptions → GetOptions
with_revision revision self = record self { req = record self.req { revision = revision } }

-- `target == SortTarget::Key && order == SortOrder::Ascend`
abbrev is_default_sort : SortTarget → SortOrder → Bool
is_default_sort key_target ascend = true
is_default_sort _ _ = false

unfoldable pub with_sort : SortTarget → SortOrder → GetOptions → GetOptions
with_sort target order self = record self {
  req = record self.req {
    sort_order = if is_default_sort target order then order_code none_order else order_code order;
    sort_target = target_code target;
  };
}

unfoldable pub with_serializable : GetOptions → GetOptions
with_serializable self = record self { req = record self.req { serializable = true } }

unfoldable pub with_keys_only : GetOptions → GetOptions
with_keys_only self = record self { req = record self.req { keys_only = true } }

unfoldable pub with_count_only : GetOptions → GetOptions
with_count_only self = record self { req = record self.req { count_only = true } }

unfoldable pub with_min_mod_revision : ℤ → GetOptions → GetOptions
with_min_mod_revision revision self = record self {
  req = record self.req { min_mod_revision = revision };
}

unfoldable pub with_max_mod_revision : ℤ → GetOptions → GetOptions
with_max_mod_revision revision self = record self {
  req = record self.req { max_mod_revision = revision };
}

unfoldable pub with_min_create_revision : ℤ → GetOptions → GetOptions
with_min_create_revision revision self = record self {
  req = record self.req { min_create_revision = revision };
}

unfoldable pub with_max_create_revision : ℤ → GetOptions → GetOptions
with_max_create_revision revision self = record self {
  req = record self.req { max_create_revision = revision };
}

-- A write through `key_range_end_mut`
unfoldable pub map_range_end : (Bytes → Bytes) → GetOptions → GetOptions
map_range_end f self = record self {
  key_range = record self.key_range { range_end = f self.key_range.range_end };
}

-- `From<GetOptions> for PbRangeRequest`
unfoldable pub into_request : GetOptions → PbRangeRequest
into_request options =
    let (key, range_end) = KeyRange.build options.key_range in
    record options.req { key = key; range_end = range_end }

pub record GetResponse : Type 0 where
  pub header : Option ResponseHeader
  pub kvs : List KeyValue
  pub more : Bool
  pub count : ℤ

unfoldable pub take_header : GetResponse → GetResponse × Option ResponseHeader
take_header self = (record self { header = none }, self.header)

unfoldable pub take_kvs : GetResponse → GetResponse × List KeyValue
take_kvs self = (record self { kvs = [] }, self.kvs)

-- `for kv in kvs.iter_mut()`
abbrev pub strip_kvs : Bytes → List KeyValue → List KeyValue
strip_kvs prefix kvs = map (map_key (strip_key_prefix prefix)) kvs

unfoldable pub strip_kvs_prefix : Bytes → GetResponse → GetResponse
strip_kvs_prefix prefix self = record self { kvs = strip_kvs prefix self.kvs }
