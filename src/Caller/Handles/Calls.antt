-- ===== src/Caller/Handles/Calls.antt =====
-- `do_call` through the cells of a caller.
use etcd_client.Prelude.{ℕ, ◌≡◌, ◌∙◌, ap, Bool, true, false, Bool-cases, inl, inr, if◌then◌else◌}
use etcd_client.Error.{Foreign, Result, err, grpc_status}
use etcd_client.Caller
use etcd_client.Caller.{Session, AuthService, is_some, set_token, set_creds}
use etcd_client.Caller.Handles.{
  Heap, InterceptedChannel, ClientCaller, Network, send_inner, retry_on_heap, do_call_on_heap,
}
use etcd_client.Caller.Handles.OnCells.{
  session_at, HasCells, on_cells, IsOnCells, from_session, bind-IsOnCells,
}
use etcd_client.Caller.Handles.Callers.{
  session_auth, session_call, lift-IsOnCells, through_channel-IsOnCells, refresh_on_heap-IsOnCells,
}

-- The interceptor of the inner client reads that cell too.
module _ {F : Foreign} {Token W Req Ret : Type 0} (network : Network F Token W Req Ret)
    (self : ClientCaller InterceptedChannel)
    (same_cell : self.auth_client.channel.auth_token ≡ self.auth_token)
    (same_inner : self.inner.auth_token ≡ self.auth_token) where
  abbrev t : ℕ
  t = self.auth_token

  abbrev c : ℕ
  c = self.options.creds

  send-IsOnCells :
      (req : Req) → IsOnCells t c (send_inner network self req) (session_call network req)
  send-IsOnCells req = through_channel-IsOnCells t c self.inner (network.exchange req) same_inner

  retry-IsOnCells :
      (req : Req) (r : Result F Ret)
      → IsOnCells t c
          (retry_on_heap network self req r)
          (Caller.retry (session_auth network) (session_call network) req r)
  unfolding retry_on_heap Caller.retry
  retry-IsOnCells req (err (grpc_status status)) h has =
      elim (Bool-cases (F.is_unauthenticated status)) [
        | inl refused ↦ rw refused (
            bind-IsOnCells t c _ (Caller.refresh_token (session_auth network)) _
              (λ _. session_call network req) (refresh_on_heap-IsOnCells network self same_cell)
              (λ u. send-IsOnCells req) h has)
        | inr other ↦ rw other (lift-IsOnCells t c (err (grpc_status status)) h has)
      ]
  retry-IsOnCells req r h has = lift-IsOnCells t c r h has

  choose :
      {A : Type 0} (b : Bool) (h : Heap Token W) (x y : Result F A × Heap Token W)
      (x' y' : Result F A × Session Token W)
      → x ≡ on_cells t c h x'
      → y ≡ on_cells t c h y'
      → (if b then x else y) ≡ on_cells t c h (if b then x' else y')
  choose true h x y x' y' e e' = e
  choose false h x y x' y' e e' = e'

  answered :
      (req : Req) (h : Heap Token W)
      → HasCells t c h
      → (let (resp, h') = send_inner network self req h in retry_on_heap network self req resp h')
        ≡ on_cells t c h (
            let (resp, s') = session_call network req (session_at t c h) in
            Caller.retry (session_auth network) (session_call network) req resp s')
  answered req h has =
      let s = session_at t c h in
      ap (λ m. retry_on_heap network self req m.0 m.1) (send-IsOnCells req h has)
      ∙ from_session t c _
          (Caller.retry (session_auth network) (session_call network) req
            (session_call network req s).0)
          (retry-IsOnCells req (session_call network req s).0) (session_call network req s).1 h has

  -- `do_call` through a caller is `do_call` on the session of its cells, and leaves all other cells
  -- as they are.
  pub do_call_on_heap-IsOnCells :
      (req : Req)
      → IsOnCells t c (do_call_on_heap network self req) (
          Caller.do_call
            (session_auth network)
            self.options.refresh_expired_token
            req
            (session_call network))
  unfolding do_call_on_heap Caller.do_call
  do_call_on_heap-IsOnCells req h has =
      choose _ h _ _ _ _ (send-IsOnCells req h has) (answered req h has)
