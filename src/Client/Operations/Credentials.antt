-- ===== src/Client/Operations/Credentials.antt =====
-- The token header of each request, when clones of a client work at the same time.
use etcd_client.Prelude.{
  ℕ, zero, suc, String, ◌≡◌, refl, Bool, true, false, Bool-cases, inl, inr, ◌⊎◌, Option, none, some,
  List, [], ◌∷◌, if◌then◌else◌,
}
use etcd_client.Error.{Foreign, Result}
use etcd_client.Caller.{Session}
use etcd_client.Caller.Clones.{refresh_start}
use etcd_client.Caller.Jobs.{Job, maintain, first_send, last_send, Shared}
use etcd_client.Caller.Jobs.Order.{Config, Run}
use etcd_client.Caller.Tokens.{Leaves}
use etcd_client.Caller.Jobs.Tokens.{LeavesCalls, Discipline, RunLogs, IsGoodJob, AreGoodJobs}
use etcd_client.Caller.Jobs.Senders.{Found, matched, requests_match}
use etcd_client.Intercept.{MetadataMap, token_header}
use etcd_client.Intercept.Headers.{IsMultimap, to_list}
use etcd_client.Service.{Method, Streams, is_open}
use etcd_client.Service.Channel.{Channel, intercepted}
use etcd_client.Service.Tokens.{intercepted_tokens}
use etcd_client.Client.Requests.{Operation, method_of}
use etcd_client.Client.Operations.Refinement.{is_direct}
use etcd_client.Client.Operations.Concurrent.{
  AnyRequest, AnyReply, client_shared, client_leaves, client_leaves_calls, job_of,
}

module _ {F : Foreign} {Token W : Type 0} (metadata : MetadataMap Token) (law : IsMultimap metadata)
    (streams : Streams) (channel : Channel F metadata streams W)
    (fresh : metadata.get_all token_header channel.empty ≡ []) (leader_value : Token)
    (require_leader : Bool) (parse : String → Result F Token) (refresh : Bool) where
  abbrev pub shared : Shared F Token W AnyRequest (AnyReply streams)
  shared = client_shared metadata streams channel leader_value require_leader parse refresh

  abbrev leaves : Leaves shared.auth
  leaves = client_leaves metadata streams channel leader_value require_leader parse refresh

  abbrev kept : LeavesCalls shared
  kept = client_leaves_calls metadata streams channel leader_value require_leader parse refresh

  -- The values of the token header of a request.
  abbrev pub header_of : Method → Option Token → List Token
  header_of m token =
      metadata.get_all token_header
        (intercepted metadata streams channel leader_value require_leader m token).metadata

  -- There is no token in the header, or one alone, which is one of these.
  abbrev pub IsOwn : (Token → Type 0) → List Token → Type 0
  IsOwn Given values = (values ≡ []) ⊎ ((token : Token) × (values ≡ token ∷ []) × Given token)

  -- So it is for the request that the call is about to send.
  abbrev pub SendsOwn : (Token → Type 0) → Job F Token AnyRequest (AnyReply streams) → Type 0
  SendsOwn Given (first_send (m, payload) token) = IsOwn Given (header_of m token)
  SendsOwn Given (last_send (m, payload) token) = IsOwn Given (header_of m token)
  SendsOwn Given _ = Unit

  abbrev pub AllSendOwn :
      (Token → Type 0) → List (Job F Token AnyRequest (AnyReply streams)) → Type 0
  AllSendOwn Given [] = Unit
  AllSendOwn Given (job ∷ jobs) = SendsOwn Given job × AllSendOwn Given jobs

  -- Calls that begin: one for each operation, and a number of calls of `refresh_token`.
  abbrev pub jobs_of : List Operation → ℕ → List (Job F Token AnyRequest (AnyReply streams))
  jobs_of [] zero = []
  jobs_of [] (suc refreshes) = maintain refresh_start ∷ jobs_of [] refreshes
  jobs_of (op ∷ ops) refreshes =
      job_of metadata streams channel leader_value require_leader parse refresh op
      ∷ jobs_of ops refreshes

  module _ (user password : String) (Given : String → String → Token → Type 0) where
    abbrev own : Discipline shared.auth
    own = matched shared.auth leaves Given (some (user, password))

    IsOwn-values :
        (open_method : Bool) (token : Option Token)
        → own.IsGoodToken token
        → IsOwn (Given user password) (if open_method then [] else to_list token)
    IsOwn-values true token fits = inl refl
    IsOwn-values false none fits = inl refl
    IsOwn-values false (some token) fits = inr (token, refl, fits)

    IsOwn-header_of :
        (m : Method) (token : Option Token)
        → own.IsGoodToken token
        → IsOwn (Given user password) (header_of m token)
    IsOwn-header_of m token fits =
        rw
          (intercepted_tokens metadata law streams channel leader_value require_leader m token
            fresh)
          (IsOwn-values (is_open m) token fits)

    SendsOwn_lem :
        (job : Job F Token AnyRequest (AnyReply streams))
        → IsGoodJob shared kept own job
        → SendsOwn (Given user password) job
    SendsOwn_lem (first_send (m, payload) token) good = IsOwn-header_of m token good
    SendsOwn_lem (last_send (m, payload) token) good = IsOwn-header_of m token good
    SendsOwn_lem _ good = tt

    AllSendOwn_lem :
        (jobs : List (Job F Token AnyRequest (AnyReply streams)))
        → AreGoodJobs shared kept own jobs
        → AllSendOwn (Given user password) jobs
    AllSendOwn_lem [] good = tt
    AllSendOwn_lem (job ∷ jobs) (good, rest) = (SendsOwn_lem job good, AllSendOwn_lem jobs rest)

    start-IsGoodJob :
        (op : Operation)
        → IsGoodJob shared kept own
            (job_of metadata streams channel leader_value require_leader parse refresh op)
    start-IsGoodJob op = elim (Bool-cases (is_direct (method_of op))) [
      | inl direct ↦ rw direct tt
      | inr called ↦ rw called tt
    ]

    jobs_of-AreGoodJobs :
        (ops : List Operation) (refreshes : ℕ) → AreGoodJobs shared kept own (jobs_of ops refreshes)
    jobs_of-AreGoodJobs [] zero = tt
    jobs_of-AreGoodJobs [] (suc refreshes) = (tt, jobs_of-AreGoodJobs [] refreshes)
    jobs_of-AreGoodJobs (op ∷ ops) refreshes =
        (start-IsGoodJob op, jobs_of-AreGoodJobs ops refreshes)

  -- When the metadata map follows the law of append and new requests have no token: clones of a client
  -- whose credentials are set run operations that forward to a service and calls of `refresh_token`
  -- (no `update_user`, and none that opens a watch or keeps a lease alive), with their steps in any
  -- order and the rest of the world changing between them. At any time the credentials are still
  -- these, and the header of each request that is about to go out holds no token, or exactly one,
  -- which was set at the start or is what the server answered in this run to a login with these
  -- credentials.
  pub operations_send_own :
      (user password : String) (ops : List Operation) (refreshes : ℕ) (s : Session Token W) (n : ℕ)
      (c : Config shared)
      → s.creds ≡ some (user, password)
      → (run : Run shared n (jobs_of ops refreshes, s) c)
      → AllSendOwn
          (λ token. (s.auth_token ≡ some token) ⊎ RunLogs shared run user password token)
          c.0
        × (c.1.creds ≡ some (user, password))
  operations_send_own user password ops refreshes s n c set run =
      let (jobs, good) =
        requests_match shared leaves kept user password run
          (jobs_of-AreGoodJobs user password (Found shared leaves kept run) ops refreshes) set in
      (AllSendOwn_lem user password (Found shared leaves kept run) c.0 jobs, good.0)
