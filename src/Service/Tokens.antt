-- ===== src/Service/Tokens.antt =====
-- Which token the request of each method carries.
use etcd_client.Prelude.{
  ◌≡◌, refl, Bool, true, false, not, Option, some, [], ◌++◌, append-nil, if◌then◌else◌,
}
use etcd_client.Error.{Foreign}
use etcd_client.Intercept.{MetadataMap, Request, token_header}
use etcd_client.Intercept.Headers.{IsMultimap, takes_token, to_list, call_headers}
use etcd_client.Service.Methods.{
  Method, path, Streams, is_open, auth_authenticate, cluster_member_list,
}
use etcd_client.Service.Channel.{Channel, intercepted}

-- The interceptor recognises by its texts exactly the methods that are open, and every service.
pub takes_token-path : (m : Method) → takes_token (some (path m)) ≡ not (is_open m)
unfolding path
takes_token-path auth_authenticate = refl
takes_token-path cluster_member_list = refl
takes_token-path _ = refl

module _ {F : Foreign} {Token W : Type 0} (metadata : MetadataMap Token) (law : IsMultimap metadata)
    (streams : Streams) (channel : Channel F metadata streams W) (leader_value : Token)
    (require_leader : Bool) where
  -- When the metadata map follows the law of `append` and the metadata of a new request has no token:
  -- the request of a method carries no token when the method is one of the two that work without
  -- one, and else the current token alone, if there is one.
  pub intercepted_tokens :
      (m : Method) (auth_token : Option Token)
      → metadata.get_all token_header channel.empty ≡ []
      → metadata.get_all token_header
          (intercepted metadata streams channel leader_value require_leader m auth_token).metadata
        ≡ (if is_open m then [] else to_list auth_token)
  unfolding intercepted
  intercepted_tokens m auth_token fresh =
      let request : Request metadata.Map = record {
        grpc_method = some (path m);
        metadata = channel.empty;
      } in
      rw
        (
          call_headers metadata law leader_value require_leader auth_token request token_header,
          fresh,
          takes_token-path m,
        )
        (choose (is_open m))
    where
      choose :
          (b : Bool)
          → ((if not b then to_list auth_token else []) ++ [])
            ≡ (if b then [] else to_list auth_token)
      choose true = refl
      choose false = append-nil (to_list auth_token)
