-- ===== src/Client/Operations/Concurrent.antt =====
-- The operations of the clones of a client at the same time, over one channel.
use etcd_client.Prelude.{String, refl, ap, Bool, if◌then◌else◌}
use etcd_client.Error.{Foreign, Result, ok, err}
use etcd_client.Exec.{continue-pure_state}
use etcd_client.Caller.{Session}
use etcd_client.Caller.Tokens.{Leaves}
use etcd_client.Caller.Jobs.{Job, call_start, last_read, Shared}
use etcd_client.Caller.Jobs.Tokens.{LeavesCalls}
use etcd_client.Kv.Client.{into_inner}
use etcd_client.Intercept.{MetadataMap}
use etcd_client.Auth.Client.{authenticate}
use etcd_client.Service.{Method, Payload, Streams, Reply}
use etcd_client.Service.Channel.{Channel, intercepted, invoke}
use etcd_client.Service.Stubs.{authentication}
use etcd_client.Client.Requests.{Operation, method_of, payload_of}
use etcd_client.Client.Operations.Refinement.{is_direct}

-- A request with its method, and a response with its method.
abbrev pub AnyRequest : Type 0
AnyRequest = (m : Method) × Payload m

abbrev pub AnyReply : Streams → Type 0
AnyReply streams = (m : Method) × Reply streams m

-- A result and a state with a changed response.
abbrev pub mapped_result : {F : Foreign} {A B : Type 0} → (A → B) → Result F A → Result F B
mapped_result f (ok a) = ok (f a)
mapped_result f (err e) = err e

module _ {F : Foreign} {Token W : Type 0} (metadata : MetadataMap Token) (streams : Streams)
    (channel : Channel F metadata streams W) (leader_value : Token) (require_leader : Bool)
    (parse : String → Result F Token) (refresh : Bool) where
  -- What the clones share: a request goes through the interceptor, which has read the token, to the
  -- balanced channel.
  abbrev pub client_shared : Shared F Token W AnyRequest (AnyReply streams)
  client_shared = record {
    auth = authentication metadata streams channel leader_value require_leader parse;
    refresh_expired_token = refresh;
    exchange = λ (m, payload) token s.
        let (answer, w) =
          channel.rpc m (intercepted metadata streams channel leader_value require_leader m token)
            payload s.world in
        (mapped_result (λ reply. (m, reply)) (into_inner answer), record s { world = w });
  }

  -- An operation as a call.
  abbrev pub job_of : Operation → Job F Token AnyRequest (AnyReply streams)
  job_of op =
      if is_direct (method_of op)
      then last_read (method_of op, payload_of op)
      else call_start (method_of op, payload_of op)

  pub client_leaves : Leaves client_shared.auth
  unfolding authenticate invoke
  client_leaves = record {
    token_kept = λ user password s.
        ap {A = Session Token W} (λ s'. s'.auth_token) (continue-pure_state _ _ _);
    creds_kept =
        λ user password s. ap {A = Session Token W} (λ s'. s'.creds) (continue-pure_state _ _ _);
  }

  pub client_leaves_calls : LeavesCalls client_shared
  client_leaves_calls = record {
    token_kept = λ req token s. refl;
    creds_kept = λ req token s. refl;
  }
