-- ===== src/Client/Connecting.antt =====
-- What a successful connection, and a successful change of the endpoints, has sent to the balanced
-- channel.
use etcd_client.Prelude.{
  String, ◌≡◌, refl, sym, false, Option, none, some, List, [], ◌∷◌, ◌++◌, map, is_empty, append-nil,
  append_assoc, arith, inl, inr, Option-cases, Sum-cases,
}
use etcd_client.Error.{Foreign, Result, ok, Result-cases}
use etcd_client.Caller.{Session, AuthService, refresh_token, refresh_with, is_some}
use etcd_client.Caller.Tokens.{Leaves, refresh_token-IsConsistent}
use etcd_client.Rpc.{unwrap_or}
use etcd_client.Client.{Features, Transport, ConnectOptions, default_options, build_endpoint}
use etcd_client.Client.Connect.{
  Change, insert, remove, Balancer, Client, build_endpoints, insert_all, open_client,
  connect_with_balanced_channel, add_endpoint, remove_endpoint, new_session,
}

-- The insertion of each endpoint under its own URL.
abbrev pub inserts : {F : Foreign} (t : Transport F) → List t.Endpoint → List (Change t)
inserts t = map (λ e. insert (t.uri e) e)

-- The changes that the balanced channel has received, in the world: a `send` without an error is
-- received, behind the earlier ones.
pub record Received {F : Foreign} {t : Transport F} {W : Type 0} (b : Balancer t W) : Type 0 where
  pub log : W → List (Change t)
  pub send_logs :
      (tx : b.Updater) (change : Change t) (w : W)
      → (b.send tx change w).0 ≡ none
      → log (b.send tx change w).1 ≡ log w ++ change ∷ []

-- Authentication sends nothing to the balanced channel.
pub record IsQuiet {F : Foreign} {t : Transport F} {Token W : Type 0} {b : Balancer t W}
    (r : Received b) (auth : AuthService F Token W) : Type 0 where
  pub quiet :
      (user password : String) (s : Session Token W)
      → r.log (auth.authenticate user password s).1.world ≡ r.log s.world

module _ {F : Foreign} (t : Transport F) (features : Features) {Token W : Type 0} (b : Balancer t W)
    (r : Received b) where
  open r use {log, send_logs}

  -- A successful `insert_all` sends an insertion for each endpoint, and touches nothing else.
  insert_all_logs :
      (tx : b.Updater) (endpoints : List t.Endpoint) (s : Session Token W) (u : Unit {0})
      → (insert_all t features b tx endpoints s).0 ≡ ok u
      → (log (insert_all t features b tx endpoints s).1.world ≡ log s.world ++ inserts t endpoints)
        × ((insert_all t features b tx endpoints s).1.creds ≡ s.creds)
  unfolding insert_all
  insert_all_logs tx [] s u h = (sym (append-nil (log s.world)), refl)
  insert_all_logs tx (e ∷ endpoints) s u h =
      elim (Option-cases (b.send tx (insert (t.uri e) e) s.world).0) [
        | inr (text, failed) ↦ absurd (ground (arith, failed))
        | inl sent ↦ ground (
          arith,
          sent,
          send_logs tx (insert (t.uri e) e) s.world sent,
          insert_all_logs tx endpoints
              (record s { world = (b.send tx (insert (t.uri e) e) s.world).1 }) u,
          append_assoc (log s.world) (insert (t.uri e) e ∷ []) (inserts t endpoints),
        )
      ]

  module _ (auth : AuthService F Token W) (kept : Leaves auth) (q : IsQuiet r auth) where
    refresh_token_quiet : (s : Session Token W) → log (refresh_token auth s).1.world ≡ log s.world
    unfolding refresh_token refresh_with
    refresh_token_quiet s = elim (Option-cases s.creds) [
      | inl unset ↦ ground (arith, unset)
      | inr ((user, password), set) ↦ ground (arith, set, q.quiet user password s)
    ]

    open_client_logs :
        (options : ConnectOptions t) (endpoints : List t.Endpoint) (s : Session Token W)
        (client : Client b)
        → (open_client t features auth b options endpoints s).0 ≡ ok client
        → (is_empty endpoints ≡ false)
          × (log (open_client t features auth b options endpoints s).1.world
              ≡ log s.world ++ inserts t endpoints)
          × (is_some (open_client t features auth b options endpoints s).1.auth_token
              ≡ is_some s.creds)
    unfolding open_client
    open_client_logs options [] s client h = absurd (ground arith)
    open_client_logs options (e ∷ es) s client h = elim (Result-cases (b.balanced_channel 64)) [
      | inr (x, failed) ↦ absurd (ground (arith, failed))
      | inl ((channel, tx), opened) ↦
          let inserted : Result F (Unit {0}) × Session Token W =
            insert_all t features b tx (e ∷ es) s in
          elim (Result-cases inserted.0) [
            | inr (x, failed) ↦ absurd (ground (arith, opened, failed))
            | inl (u, sent) ↦ elim (Result-cases (refresh_token auth inserted.1).0) [
              | inr (x, failed) ↦ absurd (ground (arith, opened, sent, failed))
              | inl (v, refreshed) ↦ ground (
                arith,
                opened,
                sent,
                refreshed,
                insert_all_logs tx (e ∷ es) s u sent,
                refresh_token_quiet inserted.1,
                refresh_token-IsConsistent auth kept inserted.1 v refreshed,
              )
            ]
          ]
    ]

    -- When the balanced channel receives what is sent without an error, and authentication leaves the
    -- channel, the token and the credentials alone: a successful `connect_with_balanced_channel` was given at least one endpoint, all of them were
    -- built, the balanced channel has received an insertion for each of them, in their order and under
    -- its own URL, and the client has a token exactly when the options name a user.
    pub connect_inserts :
        (endpoints : List String) (options : Option (ConnectOptions t)) (w : W) (client : Client b)
        → (connect_with_balanced_channel t features auth b endpoints options w).0 ≡ ok client
        → (built : List t.Endpoint) × (build_endpoints t features
              (unwrap_or default_options options)
              endpoints
            ≡ ok built)
          × (is_empty built ≡ false)
          × (log (connect_with_balanced_channel t features auth b endpoints options w).1.world
              ≡ log w ++ inserts t built)
          × (is_some
                (connect_with_balanced_channel t features auth b endpoints options w).1.auth_token
              ≡ is_some (unwrap_or default_options options).user)
    unfolding connect_with_balanced_channel
    connect_inserts endpoints options w client h =
        let opts : ConnectOptions t = unwrap_or default_options options in
        elim (Result-cases (build_endpoints t features opts endpoints)) [
          | inr (x, failed) ↦ absurd (ground (arith, failed))
          | inl (built, made) ↦
              let (some_built, logged, consistent) =
                open_client_logs opts built (new_session t features auth b opts w) client
                  (rw made at h) in
              (built, made, some_built, rw made logged, rw made consistent)
        ]

    -- When the balanced channel receives what is sent without an error: an `add_endpoint` that succeeds
    -- had a managed channel, and has sent one change on it, the insertion of the built endpoint, and
    -- left the token and the credentials alone.
    pub add_endpoint_logs :
        (endpoint : String) (client : Client b) (s : Session Token W) (u : Unit {0})
        → (add_endpoint t features auth b endpoint client s).0 ≡ ok u
        → (tx : b.Updater) × (built : t.Endpoint) × (client.tx ≡ some tx)
          × (build_endpoint t features endpoint client.options ≡ ok built)
          × (log (add_endpoint t features auth b endpoint client s).1.world
              ≡ log s.world ++ insert (t.uri built) built ∷ [])
          × ((add_endpoint t features auth b endpoint client s).1.auth_token ≡ s.auth_token)
          × ((add_endpoint t features auth b endpoint client s).1.creds ≡ s.creds)
    unfolding add_endpoint
    add_endpoint_logs endpoint client s u h =
        elim (Result-cases (build_endpoint t features endpoint client.options)) [
          | inr (x, failed) ↦ absurd (ground (arith, failed))
          | inl (built, made) ↦ elim (Option-cases client.tx) [
            | inl unmanaged ↦ absurd (ground (arith, made, unmanaged))
            | inr (tx, managed) ↦
                elim (Option-cases (b.send tx (insert (t.uri built) built) s.world).0) [
                  | inr (text, failed) ↦ absurd (ground (arith, made, managed, failed))
                  | inl sent ↦ (
                    tx,
                    built,
                    managed,
                    made,
                    ground (
                      arith,
                      made,
                      managed,
                      sent,
                      send_logs tx (insert (t.uri built) built) s.world sent,
                    ),
                    ground (arith, made, managed, sent),
                    ground (arith, made, managed, sent),
                  )
                ]
          ]
        ]

    -- When the balanced channel receives what is sent without an error: a `remove_endpoint` that succeeds
    -- had a managed channel, and has sent one change on it, the removal of the parsed URL.
    pub remove_endpoint_logs :
        (endpoint : String) (client : Client b) (s : Session Token W) (u : Unit {0})
        → (remove_endpoint t features auth b endpoint client s).0 ≡ ok u
        → (tx : b.Updater) × (uri : t.Uri) × (client.tx ≡ some tx)
          × (t.parse endpoint ≡ inr uri)
          × (log (remove_endpoint t features auth b endpoint client s).1.world
              ≡ log s.world ++ remove uri ∷ [])
    unfolding remove_endpoint
    remove_endpoint_logs endpoint client s u h = elim (Sum-cases (t.parse endpoint)) [
      | inl (x, failed) ↦ absurd (ground (arith, failed))
      | inr (uri, parsed) ↦ elim (Option-cases client.tx) [
        | inl unmanaged ↦ absurd (ground (arith, parsed, unmanaged))
        | inr (tx, managed) ↦ elim (Option-cases (b.send tx (remove uri) s.world).0) [
          | inr (text, failed) ↦ absurd (ground (arith, parsed, managed, failed))
          | inl sent ↦ (
            tx,
            uri,
            managed,
            parsed,
            ground (arith, parsed, managed, sent, send_logs tx (remove uri) s.world sent),
          )
        ]
      ]
    ]
