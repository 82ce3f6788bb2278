-- ===== src/Transport.antt =====
-- src/channel.rs: a channel over one of three transports, which are other crates' code.
use etcd_client.Prelude.{ℕ, zero, suc, ◌⊎◌, inl, inr, ◌≡◌, refl}
use etcd_client.BackOff.{Poll, ready, pending}

-- A transport, as a service: its own state, and the state of a call that it has begun.
pub record Inner (Request Response Fault : Type 0) : Type 1 where
  pub State : Type 0
  pub Future : Type 0
  pub poll_ready : State → Poll (Fault ⊎ Unit {0}) × State
  pub call : State → Request → Future × State
  pub poll : Future → Poll (Fault ⊎ Response) × Future

-- `ready!(..)` and `map_err`.
abbrev pub map_fault : {E B A : Type 0} → (E → B) → Poll (E ⊎ A) → Poll (B ⊎ A)
map_fault box pending = pending
map_fault box (ready (inl e)) = ready (inl (box e))
map_fault box (ready (inr a)) = ready (inr a)

-- The result of a future when it is polled once more than `n` times.
abbrev pub polls : {Fut A : Type 0} → (Fut → Poll A × Fut) → ℕ → Fut → Poll A
polls poll zero fut = (poll fut).0
polls poll (suc n) fut = polls poll n (poll fut).1

module _ {Request Response TonicError BoxError : Type 0} (tonic : Inner Request Response TonicError)
    (openssl : Inner Request Response BoxError) (custom : Inner Request Response BoxError)
    (box : TonicError → BoxError) where
  -- `Channel`
  pub data AnyChannel : Type 0 where
    tonic_channel : tonic.State → AnyChannel
    openssl_channel : openssl.State → AnyChannel
    custom_channel : custom.State → AnyChannel

  pub data ChannelFuture : Type 0 where
    tonic_future : tonic.Future → ChannelFuture
    openssl_future : openssl.Future → ChannelFuture
    custom_future : custom.Future → ChannelFuture

  -- `Service::poll_ready` of the channel
  unfoldable pub channel_poll_ready : AnyChannel → Poll (BoxError ⊎ Unit {0}) × AnyChannel
  channel_poll_ready (tonic_channel c) =
      let (result, c') = tonic.poll_ready c in (map_fault box result, tonic_channel c')
  channel_poll_ready (openssl_channel c) =
      let (result, c') = openssl.poll_ready c in (result, openssl_channel c')
  channel_poll_ready (custom_channel c) =
      let (result, c') = custom.poll_ready c in (result, custom_channel c')

  -- `Service::call` of the channel
  unfoldable pub channel_call : AnyChannel → Request → ChannelFuture × AnyChannel
  channel_call (tonic_channel c) req =
      let (future, c') = tonic.call c req in (tonic_future future, tonic_channel c')
  channel_call (openssl_channel c) req =
      let (future, c') = openssl.call c req in (openssl_future future, openssl_channel c')
  channel_call (custom_channel c) req =
      let (future, c') = custom.call c req in (custom_future future, custom_channel c')

  -- `ChannelFuture::poll`
  unfoldable pub future_poll : ChannelFuture → Poll (BoxError ⊎ Response) × ChannelFuture
  future_poll (tonic_future fut) =
      let (result, fut') = tonic.poll fut in (map_fault box result, tonic_future fut')
  future_poll (openssl_future fut) =
      let (result, fut') = openssl.poll fut in (result, openssl_future fut')
  future_poll (custom_future fut) =
      let (result, fut') = custom.poll fut in (result, custom_future fut')

  -- Whenever the future of a channel is polled, it gives what the future of the transport gives, with
  -- an error of tonic put into a box.
  pub polls-future_poll :
      (n : ℕ) (t : tonic.Future) (o : openssl.Future) (c : custom.Future)
      → (polls future_poll n (tonic_future t) ≡ map_fault box (polls tonic.poll n t))
        × (polls future_poll n (openssl_future o) ≡ polls openssl.poll n o)
        × (polls future_poll n (custom_future c) ≡ polls custom.poll n c)
  unfolding future_poll
  polls-future_poll zero t o c = (refl, refl, refl)
  polls-future_poll (suc n) t o c =
      polls-future_poll n (tonic.poll t).1 (openssl.poll o).1 (custom.poll c).1
