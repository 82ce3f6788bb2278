-- ===== src/Intercept/Headers.antt =====
-- Which headers a request gets.
use text.Mathlib.Text.{◌==◌}
use etcd_client.Prelude.{
  String, ◌≡◌, Bool, false, not, ◌&&◌, Option, none, some, List, [], ◌∷◌, ◌++◌, append-nil, arith,
  if◌then◌else◌,
}
use etcd_client.Intercept.{
  MetadataMap, Request, require_leader_key, token_header, is_public, is_etcd_service, call, attach,
  append_token,
}

-- The documented law of `append`.
pub record IsMultimap {Value : Type 0} (map : MetadataMap Value) : Type 0 where
  pub get_all-append :
      (k j : String) (v : Value) (m : map.Map)
      → map.get_all j (map.append k v m)
        ≡ (if k == j then map.get_all j m ++ v ∷ [] else map.get_all j m)

-- The method takes a token: it is one of etcd's, and not one that works without authentication.
abbrev pub takes_token : Option (String × String) → Bool
takes_token none = false
takes_token (some (service, method)) = not (is_public service method) && is_etcd_service service

abbrev pub to_list {ℓ} : {A : Type ℓ} → Option A → List A
to_list none = []
to_list (some a) = a ∷ []

module _ {Value : Type 0} (map : MetadataMap Value) (law : IsMultimap map)
    (leader_value : Value) where
  append_token_headers :
      (auth_token : Option Value) (request : Request map.Map) (key : String)
      → map.get_all key (append_token map leader_value auth_token request).metadata
        ≡ map.get_all key request.metadata
          ++ (if token_header == key then to_list auth_token else [])
  unfolding append_token
  append_token_headers none request key =
      ground (arith, append-nil (map.get_all key request.metadata))
  append_token_headers (some token) request key = ground (
    arith,
    law.get_all-append token_header key token request.metadata,
    append-nil (map.get_all key request.metadata),
  )

  attach_headers :
      (auth_token : Option Value) (method : Option (String × String)) (request : Request map.Map)
      (key : String)
      → map.get_all key (attach map leader_value auth_token method request).metadata
        ≡ map.get_all key request.metadata
          ++ (if token_header == key && takes_token method then to_list auth_token else [])
  unfolding attach
  attach_headers auth_token none request key =
      ground (arith, append-nil (map.get_all key request.metadata))
  attach_headers auth_token (some (service, method)) request key = ground (
    arith,
    append_token_headers auth_token request key,
    append-nil (map.get_all key request.metadata),
  )

  -- With a metadata map that follows the law of `append`: of every header the request keeps the values
  -- that it had. Behind them it gets, under "token", the current token, if there is one and the method
  -- takes it, and, under "hasleader", the leader requirement, if it is asked for; no other header
  -- changes.
  pub call_headers :
      (require_leader : Bool) (auth_token : Option Value) (request : Request map.Map) (key : String)
      → map.get_all key (call map leader_value require_leader auth_token request).metadata
        ≡ (map.get_all key request.metadata
            ++ (if token_header == key && takes_token request.grpc_method
                then to_list auth_token
                else []))
          ++ (if require_leader_key == key && require_leader then leader_value ∷ [] else [])
  unfolding call
  call_headers require_leader auth_token request key =
      let before : List Value =
        map.get_all key request.metadata
        ++ (if token_header == key && takes_token request.grpc_method
            then to_list auth_token
            else []) in
      ground (
        arith,
        attach_headers auth_token request.grpc_method request key,
        law.get_all-append require_leader_key key leader_value
            (attach map leader_value auth_token request.grpc_method request).metadata,
        append-nil before,
      )
