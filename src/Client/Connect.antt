-- ===== src/Client/Connect.antt =====
-- `connect_with_balanced_channel`, `from_channel`, `add_endpoint` and `remove_endpoint` of
-- src/client.rs. The balanced channel is a parameter, as it is in the source.
use Prim.Native.String.{◌++◌}
use etcd_client.Prelude.{ℕ, String, Option, none, some, List, [], ◌∷◌}
use etcd_client.Error.{
  Foreign, Error, Result, ok, err, invalid_args, invalid_uri, internal, endpoint_error,
  endpoints_not_managed,
}
use etcd_client.Error
use etcd_client.Exec.{Exec, pure, raise, lift, ◌>>=◌, ◌>>◌}
use etcd_client.Caller.{Session, AuthService, refresh_token}
use etcd_client.Rpc.{unwrap_or}
use etcd_client.Client.{
  Features, Transport, ConnectOptions, default_options, parse_url, build_endpoint,
}

-- `Change<Uri, Endpoint>`
pub data Change {F : Foreign} (t : Transport F) : Type 0 where
  insert : t.Uri → t.Endpoint → Change t
  remove : t.Uri → Change t

-- `BalancedChannelBuilder`, its error converted, and the `Sender` of changes: `send` gives the text
-- of its error.
pub record Balancer {F : Foreign} (t : Transport F) (W : Type 0) : Type 1 where
  pub Channel : Type 0
  pub Updater : Type 0
  pub balanced_channel : ℕ → Result F (Channel × Updater)
  pub send : Updater → Change t → W → Option String × W

-- The parts of a `Client` that its own methods use; the credentials and the token are the session's.
pub record Client {F : Foreign} {t : Transport F} {W : Type 0} (b : Balancer t W) : Type 0 where
  pub channel : b.Channel
  pub options : ConnectOptions t
  pub tx : Option b.Updater

module _ {F : Foreign} (t : Transport F) (features : Features) where
  -- The loop over the endpoints.
  unfoldable pub build_endpoints : ConnectOptions t → List String → Result F (List t.Endpoint)
  build_endpoints options [] = ok []
  build_endpoints options (e ∷ endpoints) =
      Error.◌>>=◌ (build_endpoint t features e options)
        λ channel. Error.◌>>=◌ (build_endpoints options endpoints) λ eps. ok (channel ∷ eps)

  -- A failed `send` with the error that the caller makes of its text.
  abbrev pub send_change :
      {Token W : Type 0} (b : Balancer t W)
      → (String → Error F)
      → b.Updater
      → Change t
      → Exec F (Session Token W) (Unit {0})
  send_change b on_error tx change s =
      let (failure, w) = b.send tx change s.world in
      elim failure [
        | none ↦ (ok tt, record s { world = w })
        | some text ↦ (err (on_error text), record s { world = w })
      ]

  unfoldable pub insert_all :
      {Token W : Type 0} (b : Balancer t W)
      → b.Updater
      → List t.Endpoint
      → Exec F (Session Token W) (Unit {0})
  insert_all b tx [] = pure tt
  insert_all b tx (endpoint ∷ endpoints) =
      send_change b (λ text. internal "failed to insert endpoint into the balanced channel") tx
        (insert (t.uri endpoint) endpoint)
      >> insert_all b tx endpoints

  abbrev require_some : List t.Endpoint → Result F (Unit {0})
  require_some [] = err (invalid_args "empty endpoints")
  require_some (e ∷ endpoints) = ok tt

  module _ {Token W : Type 0} (auth : AuthService F Token W) (b : Balancer t W) where
    -- The session of a new client, before it has authenticated.
    abbrev pub new_session : ConnectOptions t → W → Session Token W
    new_session options w = record { auth_token = none; creds = options.user; world = w }

    -- What follows the building of the endpoints.
    unfoldable pub open_client :
        ConnectOptions t → List t.Endpoint → Exec F (Session Token W) (Client b)
    unfolding insert_all
    open_client options endpoints = do
      _ ← lift (require_some endpoints)
      (channel, tx) ← lift (b.balanced_channel 64)
      _ ← insert_all b tx endpoints
      _ ← refresh_token auth
      pure (record { channel = channel; options = options; tx = some tx })

    -- On an error the session goes with the client.
    unfoldable pub connect_with_balanced_channel :
        List String → Option (ConnectOptions t) → W → Result F (Client b) × Session Token W
    unfolding build_endpoints open_client
    connect_with_balanced_channel endpoints options w =
        let opts = unwrap_or default_options options in
        (lift (build_endpoints opts endpoints) >>= open_client opts) (new_session opts w)

    unfoldable pub from_channel :
        b.Channel → Option (ConnectOptions t) → W → Result F (Client b) × Session Token W
    from_channel channel options w =
        let opts = unwrap_or default_options options in
        (refresh_token auth >> pure (record { channel = channel; options = opts; tx = none }))
          (new_session opts w)

    -- `let Some(tx) = &self.tx else { … }`, and the sending of the change.
    abbrev pub update_endpoints :
        String → Option b.Updater → Change t → Exec F (Session Token W) (Unit {0})
    update_endpoints text none change = raise endpoints_not_managed
    update_endpoints text (some tx) change =
        send_change b (λ e. endpoint_error (text ++ e)) tx change

    unfoldable pub add_endpoint : String → Client b → Exec F (Session Token W) (Unit {0})
    add_endpoint endpoint self = do
      endpoint ← lift (build_endpoint t features endpoint self.options)
      update_endpoints "failed to add endpoint because of " self.tx
          (insert (t.uri endpoint) endpoint)

    unfoldable pub remove_endpoint : String → Client b → Exec F (Session Token W) (Unit {0})
    remove_endpoint endpoint self = do
      uri ← lift (parse_url t endpoint)
      update_endpoints "failed to remove endpoint because of " self.tx (remove uri)
