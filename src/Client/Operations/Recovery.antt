-- ===== src/Client/Operations/Recovery.antt =====
-- That an operation is not refused because of an expired token.
use etcd_client.Prelude.{◌≡◌, String, Bool, true, false, [], ◌∷◌}
use etcd_client.Error.{Foreign, Error, Result, ok}
use etcd_client.Exec.{Exec}
use etcd_client.Caller.{Session, AuthService}
use etcd_client.Caller.Retry.{is_rejected}
use etcd_client.Kv.Client.{replied, unary, into_inner}
use etcd_client.Intercept.{MetadataMap, Request, token_header}
use etcd_client.Intercept.Headers.{IsMultimap}
use etcd_client.Auth.{AuthenticateResponse, authenticate_with_user, new_authenticate}
use etcd_client.Service.{Method, Payload, Streams, Reply, is_open}
use etcd_client.Service.Channel.{Channel}
use etcd_client.Service.Stubs.{stub_call, authentication}

-- What etcd does with tokens. `Accepts` are the tokens that are good in a state of the world. Only a
-- token that is not good is answered by Unauthenticated: neither a request with a good one, nor a
-- request of Authenticate or MemberList, which needs none. A login of the user that is answered
-- gives a good token; it may also fail, with another status. Other errors may come at any time.
pub record Serves {F : Foreign} {Token W : Type 0} {metadata : MetadataMap Token}
    {streams : Streams} (channel : Channel F metadata streams W) (parse : String → Result F Token)
    (user password : String) : Type 1 where
  pub Accepts : Token → W → Type 0
  pub accepted :
      (m : Method) (request : Request metadata.Map) (payload : Payload m) (w : W) (token : Token)
      → metadata.get_all token_header request.metadata ≡ token ∷ []
      → Accepts token w
      → is_rejected (into_inner (channel.rpc m request payload w).0) ≡ false
  pub open_accepted :
      (m : Method) (request : Request metadata.Map) (payload : Payload m) (w : W)
      → is_open m ≡ true
      → is_rejected (into_inner (channel.rpc m request payload w).0) ≡ false
  pub logs_in :
      (request : Request metadata.Map) (w : W) (resp : AuthenticateResponse) (token : Token)
      → (channel.rpc Method.auth_authenticate request
          (authenticate_with_user user password new_authenticate)
          w).0
        ≡ replied resp
      → parse resp.token ≡ ok token
      → Accepts token
          (channel.rpc Method.auth_authenticate request
            (authenticate_with_user user password new_authenticate)
            w).1
  -- A token that cannot be a metadata value is no status.
  pub parses : (text : String) → is_rejected (parse text) ≡ false

module _ {F : Foreign} {Token W : Type 0} (metadata : MetadataMap Token) (law : IsMultimap metadata)
    (streams : Streams) (channel : Channel F metadata streams W)
    (fresh : metadata.get_all token_header channel.empty ≡ []) (leader_value : Token)
    (require_leader : Bool) (parse : String → Result F Token) (user password : String)
    (server : Serves channel parse user password) where
  abbrev auth : AuthService F Token W
  auth = authentication metadata streams channel leader_value require_leader parse

  abbrev run : (m : Method) → Payload m → Exec F (Session Token W) (Reply streams m)
  run m = unary (stub_call metadata streams channel leader_value require_leader m)
