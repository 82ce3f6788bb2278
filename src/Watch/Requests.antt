-- ===== src/Watch/Requests.antt =====
-- What the server receives on a watch stream.
use etcd_client.Prelude.{
  ℕ, ℤ, ◌≡◌, refl, sym, ◌∙◌, ap, Bool, Option, none, some, String, List, [], ◌∷◌, ◌++◌, map,
  append-nil, append_assoc, arith, inl, inr, Option-cases,
}
use etcd_client.Bytes.{Bytes}
use etcd_client.Rpc.{unwrap_or}
use etcd_client.Error.{Foreign, ok, err, watch_error}
use etcd_client.Exec.{Exec, pure, continue, ◌>>◌, ◌>>=◌, continue-pure_ok}
use etcd_client.Caller.{Session, AuthService}
use etcd_client.Caller.Retry.{do_call_origin}
use etcd_client.Kv.Client.{unary}
use etcd_client.Watch.{
  WatchOptions, new, with_key, into_create_request, WatchRequest, create_request, cancel_request,
  progress_request, WatchService, watch_impl, watch, send, send_watch, cancel, request_progress,
}

-- What the channels of requests do: `sent` is what a sender has put into its channel. A new channel has
-- nothing in it, a `send` without an error adds its request behind, and opening a stream adds nothing.
pub record Delivered {F : Foreign} {S : Type 0} (stub : WatchService F S) : Type 0 where
  pub sent : stub.Sender → S → List WatchRequest
  pub created : (size : ℕ) (s : S) → sent (stub.channel size s).0.0 (stub.channel size s).1 ≡ []
  pub sends :
      (sender : stub.Sender) (req : WatchRequest) (s : S)
      → (stub.send sender req s).0 ≡ none
      → sent sender (stub.send sender req s).1 ≡ sent sender s ++ req ∷ []
  pub call_keeps :
      (sender : stub.Sender) (receiver : stub.Receiver) (s : S)
      → sent sender (stub.watch receiver s).1 ≡ sent sender s

-- A call on the sender of an open stream.
pub data Call : Type 0 where
  call_watch : Bytes → Option WatchOptions → Call
  call_cancel : ℤ → Call
  call_progress : Call

-- The request that a call stands for.
abbrev pub request_of : Call → WatchRequest
request_of (call_watch key options) =
    create_request (into_create_request (with_key key (unwrap_or new options)))
request_of (call_cancel watch_id) = cancel_request watch_id
request_of call_progress = progress_request

module _ {F : Foreign} {Token W : Type 0} (stub : WatchService F (Session Token W)) where
  unfoldable pub run_call : stub.Sender → Call → Exec F (Session Token W) (Unit {0})
  unfolding send_watch cancel request_progress
  run_call sender (call_watch key options) = send_watch stub sender key options
  run_call sender (call_cancel watch_id) = cancel stub sender watch_id
  run_call sender call_progress = request_progress stub sender

  unfoldable pub run_calls : stub.Sender → List Call → Exec F (Session Token W) (Unit {0})
  unfolding run_call
  run_calls sender [] = pure tt
  run_calls sender (c ∷ calls) = run_call sender c >> run_calls sender calls

  run_call-eq-send :
      (sender : stub.Sender) (c : Call) → run_call sender c ≡ send stub sender (request_of c)
  unfolding run_call send_watch cancel request_progress
  run_call-eq-send sender (call_watch key options) = refl
  run_call-eq-send sender (call_cancel watch_id) = refl
  run_call-eq-send sender call_progress = refl

  pub send-delivered :
      (sender : stub.Sender) (req : WatchRequest) (s : Session Token W)
      → (stub.send sender req s).0 ≡ none
      → send stub sender req s ≡ (ok tt, (stub.send sender req s).1)
  unfolding send
  send-delivered sender req s delivered = ground (arith, delivered)

  pub send-failed :
      (sender : stub.Sender) (req : WatchRequest) (s : Session Token W) (text : String)
      → (stub.send sender req s).0 ≡ some text
      → send stub sender req s ≡ (err (watch_error text), (stub.send sender req s).1)
  unfolding send
  send-failed sender req s text failed = ground (arith, failed)

  -- What `watch_impl` does after its request is in the channel.
  pub watch_impl-delivered :
      (options : WatchOptions) (s : Session Token W)
      → (let (ends, s1) = stub.channel 100 s in
          (stub.send ends.0 (create_request (into_create_request options)) s1).0 ≡ none)
      → watch_impl stub options s ≡ (
          let (ends, s1) = stub.channel 100 s in
          let s2 = (stub.send ends.0 (create_request (into_create_request options)) s1).1 in
          let (r, s3) = unary stub.watch ends.1 s2 in
          continue r (λ stream. pure (ends.0, stream)) s3)
  unfolding watch_impl
  watch_impl-delivered options s delivered =
      let (ends, s1) = stub.channel 100 s in
      ap (λ m. continue m.0 (λ _. unary stub.watch ends.1 >>= λ stream. pure (ends.0, stream)) m.1)
        (send-delivered ends.0 (create_request (into_create_request options)) s1 delivered)

  -- and when the channel did not take it.
  pub watch_impl-failed :
      (options : WatchOptions) (s : Session Token W) (text : String)
      → (let (ends, s1) = stub.channel 100 s in
          (stub.send ends.0 (create_request (into_create_request options)) s1).0 ≡ some text)
      → watch_impl stub options s ≡ (
          let (ends, s1) = stub.channel 100 s in
          let s2 = (stub.send ends.0 (create_request (into_create_request options)) s1).1 in
          (err (watch_error text), s2))
  unfolding watch_impl
  watch_impl-failed options s text failed =
      let (ends, s1) = stub.channel 100 s in
      ap (λ m. continue m.0 (λ _. unary stub.watch ends.1 >>= λ stream. pure (ends.0, stream)) m.1)
        (send-failed ends.0 (create_request (into_create_request options)) s1 text failed)

  module _ (d : Delivered stub) where
    run_calls_sends :
        (sender : stub.Sender) (calls : List Call) (s : Session Token W) (u : Unit {0})
        → (run_calls sender calls s).0 ≡ ok u
        → d.sent sender (run_calls sender calls s).1 ≡ d.sent sender s ++ map request_of calls
    unfolding run_calls send
    run_calls_sends sender [] s u h = sym (append-nil (d.sent sender s))
    run_calls_sends sender (c ∷ calls) s u h =
        elim (Option-cases (stub.send sender (request_of c) s).0) [
          | inr (text, failed) ↦ absurd (ground (arith, run_call-eq-send sender c, failed))
          | inl delivered ↦ ground (
            arith,
            run_call-eq-send sender c,
            delivered,
            d.sends sender (request_of c) s delivered,
            run_calls_sends sender calls (stub.send sender (request_of c) s).1 u,
            append_assoc (d.sent sender s) (request_of c ∷ []) (map request_of calls),
          )
        ]

    -- A `watch_impl` that succeeds has put its request, and nothing else, into the channel.
    watch_impl-sent :
        (options : WatchOptions) (s : Session Token W) (sender : stub.Sender) (stream : stub.Stream)
        → (watch_impl stub options s).0 ≡ ok (sender, stream)
        → d.sent sender (watch_impl stub options s).1
          ≡ create_request (into_create_request options) ∷ []
    watch_impl-sent options s sender stream h =
        let (ends, s1) = stub.channel 100 s in
        let req : WatchRequest = create_request (into_create_request options) in
        elim (Option-cases (stub.send ends.0 req s1).0) [
          | inr (text, failed) ↦
              absurd (cc (ap (λ m. m.0) (watch_impl-failed options s text failed), h))
          | inl delivered ↦
              let s2 : Session Token W = (stub.send ends.0 req s1).1 in
              let (opened, answered, same) =
                continue-pure_ok (unary stub.watch ends.1 s2).0 (λ m. (ends.0, m))
                  (unary stub.watch ends.1 s2).1 (sender, stream)
                  (rw (watch_impl-delivered options s delivered) at h) in
              rw (watch_impl-delivered options s delivered, answered, ← ap (λ p. p.0) same)
                (d.call_keeps ends.0 ends.1 s2
                  ∙ d.sends ends.0 req s1 delivered
                  ∙ ap (λ t. t ++ req ∷ []) (d.created 100 s))
        ]

    watch_opens :
        (auth : AuthService F Token W) (refresh_expired_token : Bool) (key : Bytes)
        (options : Option WatchOptions) (s : Session Token W) (sender : stub.Sender)
        (stream : stub.Stream)
        → (watch stub auth refresh_expired_token key options s).0 ≡ ok (sender, stream)
        → d.sent sender (watch stub auth refresh_expired_token key options s).1
          ≡ request_of (call_watch key options) ∷ []
    unfolding watch
    watch_opens auth refresh_expired_token key options s sender stream h =
        let (s', run, answered) =
          do_call_origin auth (watch_impl stub) refresh_expired_token
            (with_key key (unwrap_or new options)) s (sender, stream) h in
        ap (λ m. d.sent sender m.1) run
        ∙ watch_impl-sent (with_key key (unwrap_or new options)) s' sender stream answered

    -- With channels that hold what is sent on them without an error, in order, and that are empty when
    -- they are new: when a watch is opened and calls on its sender all succeed, what has been put into
    -- the channel of that sender is the request of the opening and behind it, in order, the requests of
    -- the calls, each once, also when the opening was made again after a token refresh.
    pub watch_session_sends :
        (auth : AuthService F Token W) (refresh_expired_token : Bool) (key : Bytes)
        (options : Option WatchOptions) (calls : List Call) (s : Session Token W)
        (sender : stub.Sender) (stream : stub.Stream) (u : Unit {0})
        → (watch stub auth refresh_expired_token key options s).0 ≡ ok (sender, stream)
        → (run_calls sender calls (watch stub auth refresh_expired_token key options s).1).0 ≡ ok u
        → d.sent sender
            (run_calls sender calls (watch stub auth refresh_expired_token key options s).1).1
          ≡ request_of (call_watch key options) ∷ map request_of calls
    watch_session_sends auth refresh_expired_token key options calls s sender stream u h k =
        run_calls_sends sender calls (watch stub auth refresh_expired_token key options s).1 u k
        ∙ ap (λ t. t ++ map request_of calls)
            (watch_opens auth refresh_expired_token key options s sender stream h)
