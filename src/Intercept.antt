-- ===== src/Intercept.antt =====
-- src/intercept.rs: the metadata that is attached to each request.
pub mod Headers
use text.Mathlib.Text.{◌==◌, starts_with}
use etcd_client.Prelude.{
  String, Bool, true, false, ◌&&◌, ◌||◌, Option, none, some, List, if◌then◌else◌,
}

-- The metadata map of a request, by its documented behaviour: `append` adds a value behind those that
-- the key has.
pub record MetadataMap (Value : Type 0) : Type 1 where
  pub Map : Type 0
  pub append : String → Value → Map → Map
  pub get_all : String → Map → List Value

-- A request as the interceptor sees it: the `GrpcMethod` extension (service, method), and the metadata.
pub record Request (Map : Type 0) : Type 0 where
  pub grpc_method : Option (String × String)
  pub metadata : Map

abbrev pub require_leader_key : String
require_leader_key = "hasleader"

abbrev pub token_header : String
token_header = "token"

-- The methods that must not carry a token.
abbrev pub is_public : String → String → Bool
is_public service method =
    (service == "etcdserverpb.Auth" && method == "Authenticate")
    || (service == "etcdserverpb.Cluster" && method == "MemberList")

-- The services of etcd.
abbrev pub is_etcd_service : String → Bool
is_etcd_service service =
    starts_with service "etcdserverpb"
    || (starts_with service "v3electionpb" || starts_with service "v3lockpb")

-- `leader_value` is `AsciiMetadataValue::from_static("true")`, `auth_token` what is behind the lock
-- when the request is made.
module _ {Value : Type 0} (map : MetadataMap Value) (leader_value : Value) where
  append_token : Option Value → Request map.Map → Request map.Map
  append_token none request = request
  append_token (some token) request = record request {
    metadata = map.append token_header token request.metadata;
  }

  -- The `match` on the service and the method.
  attach : Option Value → Option (String × String) → Request map.Map → Request map.Map
  attach auth_token none request = request
  attach auth_token (some (service, method)) request =
      if is_public service method
      then request
      else if is_etcd_service service
      then append_token auth_token request
      else request

  unfoldable pub call : (require_leader : Bool) → Option Value → Request map.Map → Request map.Map
  unfolding append_token attach
  call require_leader auth_token request =
      let request' = attach auth_token request.grpc_method request in
      if require_leader
      then record request' {
        metadata = map.append require_leader_key leader_value request'.metadata;
      }
      else request'
