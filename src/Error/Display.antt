-- ===== src/Error/Display.antt =====
-- `Display` and the conversions of src/error.rs. The texts of the errors of other crates are
-- parameters.
use Prim.Native.String.{◌++◌}
use etcd_client.Prelude.{String}
use etcd_client.Error.{
  Foreign, Error, invalid_args, invalid_uri, io_error, transport_error, grpc_status, watch_error,
  utf8_error, lease_keep_alive_error, elect_error, invalid_metadata_value, endpoint_error,
  endpoints_not_managed, open_ssl, internal,
}

pub record Texts (F : Foreign) : Type 0 where
  pub invalid_uri_text : F.InvalidUri → String
  pub io_text : F.IoError → String
  pub transport_text : F.TransportError → String
  pub status_text : F.Status → String
  pub utf8_text : F.Utf8Error → String
  pub metadata_text : F.InvalidMetadataValue → String
  pub stack_text : F.ErrorStack → String

module _ {F : Foreign} where
  unfoldable pub fmt : Texts F → Error F → String
  fmt texts (invalid_args e) = "invalid arguments: " ++ e
  fmt texts (invalid_uri e) = "invalid uri: " ++ texts.invalid_uri_text e
  fmt texts (io_error e) = "io error: " ++ texts.io_text e
  fmt texts (transport_error e) = "transport error: " ++ texts.transport_text e
  fmt texts (grpc_status e) = "grpc request error: " ++ texts.status_text e
  fmt texts (watch_error e) = "watch error: " ++ e
  fmt texts (utf8_error e) = "utf8 error: " ++ texts.utf8_text e
  fmt texts (lease_keep_alive_error e) = "lease keep alive error: " ++ e
  fmt texts (elect_error e) = "election error: " ++ e
  fmt texts (invalid_metadata_value e) = "invalid metadata value: " ++ texts.metadata_text e
  fmt texts (endpoint_error e) = "endpoint error: " ++ e
  fmt texts endpoints_not_managed = "endpoints not managed by this client"
  fmt texts (open_ssl e) = "open ssl error: " ++ texts.stack_text e
  fmt texts (internal e) = "internal error: " ++ e

  unfoldable pub from_invalid_uri : F.InvalidUri → Error F
  from_invalid_uri e = invalid_uri e

  unfoldable pub from_io_error : F.IoError → Error F
  from_io_error e = io_error e

  unfoldable pub from_transport_error : F.TransportError → Error F
  from_transport_error e = transport_error e

  unfoldable pub from_status : F.Status → Error F
  from_status e = grpc_status e

  unfoldable pub from_utf8_error : F.Utf8Error → Error F
  from_utf8_error e = utf8_error e

  unfoldable pub from_invalid_metadata_value : F.InvalidMetadataValue → Error F
  from_invalid_metadata_value e = invalid_metadata_value e

  unfoldable pub from_error_stack : F.ErrorStack → Error F
  from_error_stack e = open_ssl e
