-- ===== src/Rpc.antt =====
-- The message types of src/rpc/mod.rs that the services share: `ResponseHeader` and `KeyValue`, each
-- a wrapper of the message of the same name. `From<&Pb…>` reads the wrapped message as it is.
use etcd_client.Prelude.{ℕ, ℤ, String, Option, none, some}
use etcd_client.Error.{Foreign, Result}
use etcd_client.Bytes.{Bytes}

pub record ResponseHeader : Type 0 where
  pub cluster_id : ℕ
  pub member_id : ℕ
  pub revision : ℤ
  pub raft_term : ℕ

-- A response that holds a header alone. `take_header` takes the header out and leaves none.
pub record HeaderResponse : Type 0 where
  pub header : Option ResponseHeader

unfoldable pub take_header : HeaderResponse → HeaderResponse × Option ResponseHeader
take_header self = (record self { header = none }, self.header)

pub record KeyValue : Type 0 where
  pub key : Bytes
  pub create_revision : ℤ
  pub mod_revision : ℤ
  pub version : ℤ
  pub value : Bytes
  pub lease : ℤ

-- `into_key_value`
unfoldable pub into_key_value : KeyValue → Bytes × Bytes
into_key_value kv = (kv.key, kv.value)

-- `std::str::from_utf8` with the conversion of its error is the first argument.
module _ {F : Foreign} (from_utf8 : Bytes → Result F String) where
  unfoldable pub key_str : KeyValue → Result F String
  key_str kv = from_utf8 kv.key

  unfoldable pub value_str : KeyValue → Result F String
  value_str kv = from_utf8 kv.value

-- `kv.key` replaced in place
abbrev pub map_key : (Bytes → Bytes) → KeyValue → KeyValue
map_key f kv = record kv { key = f kv.key }

abbrev pub unwrap_or {ℓ} : {A : Type ℓ} → A → Option A → A
unwrap_or d none = d
unwrap_or d (some a) = a
