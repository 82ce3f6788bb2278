-- ===== src/Caller/Handles/Callers.antt =====
-- The refresh of the token and the update of the user through the cells of a caller.
use etcd_client.Prelude.{ℕ, ◌≡◌, refl, String, Option, none, some}
use etcd_client.Error.{Foreign, Result}
use etcd_client.Exec.{Exec, lift, ◌>>◌}
use etcd_client.Caller
use etcd_client.Caller.{Session, AuthService, is_some, set_token, set_creds}
use etcd_client.Caller.Handles.{
  read_cell, InterceptedChannel, ClientCaller, Network, set_token_cell, set_creds_cell,
  through_channel, authenticate_on_heap, refresh_with_on_heap, refresh_on_heap, update_user_on_heap,
}
use etcd_client.Caller.Handles.Cells.{write_cell-read_cell}
use etcd_client.Caller.Handles.OnCells.{IsOnCells, bind-IsOnCells}

module _ {F : Foreign} {Token W Req Ret : Type 0} (network : Network F Token W Req Ret) where
  -- The authentication and the requests over the network, in a session.
  abbrev pub session_auth : AuthService F Token W
  session_auth = record {
    authenticate = λ user password s.
        let (r, w) = network.authenticate s.auth_token user password s.world in
        (r, record s { world = w });
    parse = network.parse;
  }

  abbrev pub session_call : Req → Exec F (Session Token W) Ret
  session_call req s =
      let (r, w) = network.exchange req s.auth_token s.world in (r, record s { world = w })

module _ {F : Foreign} {Token W : Type 0} (t c : ℕ) where
  pub set_token-IsOnCells :
      (token : Option Token)
      → IsOnCells {Token = Token} {W = W} t c {F = F} (set_token_cell t token) (set_token token)
  set_token-IsOnCells token h has = rw (write_cell-read_cell c h.creds_cells) refl

  pub set_creds-IsOnCells :
      (creds : Option (String × String))
      → IsOnCells {Token = Token} {W = W} t c {F = F} (set_creds_cell c creds) (set_creds creds)
  set_creds-IsOnCells creds h has = rw (write_cell-read_cell t h.token_cells) refl

  pub lift-IsOnCells :
      {A : Type 0} (r : Result F A) → IsOnCells {Token = Token} {W = W} t c (lift r) (lift r)
  lift-IsOnCells r h has =
      rw (write_cell-read_cell t h.token_cells, write_cell-read_cell c h.creds_cells) refl

  pub through_channel-IsOnCells :
      {A : Type 0} (channel : InterceptedChannel) (send : Option Token → W → Result F A × W)
      → channel.auth_token ≡ t
      → IsOnCells t c
          (through_channel channel send)
          (λ s. let (r, w) = send s.auth_token s.world in (r, record s { world = w }))
  through_channel-IsOnCells channel send e h has =
      rw (e, write_cell-read_cell t h.token_cells, write_cell-read_cell c h.creds_cells) refl

-- The interceptor of the authentication client reads the cell that the caller writes.
module _ {F : Foreign} {Token W Req Ret T : Type 0} (network : Network F Token W Req Ret)
    (self : ClientCaller T)
    (same_cell : self.auth_client.channel.auth_token ≡ self.auth_token) where
  abbrev t : ℕ
  t = self.auth_token

  abbrev c : ℕ
  c = self.options.creds

  abbrev session_authenticate : String → String → Exec F (Session Token W) Token
  session_authenticate = Caller.do_authenticate (session_auth network)

  authenticate-IsOnCells :
      (user password : String)
      → IsOnCells t c
          (authenticate_on_heap network self user password)
          (session_authenticate user password)
  unfolding authenticate_on_heap Caller.do_authenticate
  authenticate-IsOnCells user password =
      bind-IsOnCells t c _ ((session_auth network).authenticate user password) _
        (λ text. lift (network.parse text))
        (through_channel-IsOnCells t c self.auth_client.channel
          (λ token. network.authenticate token user password) same_cell)
        (λ text. lift-IsOnCells t c (network.parse text))

  refresh_with-IsOnCells :
      (creds : Option (String × String))
      → IsOnCells t c
          (refresh_with_on_heap network self creds)
          (Caller.refresh_with (session_auth network) creds)
  unfolding refresh_with_on_heap Caller.refresh_with
  refresh_with-IsOnCells none = set_token-IsOnCells t c none
  refresh_with-IsOnCells (some (user, password)) =
      bind-IsOnCells t c _ (session_authenticate user password) _ (λ token. set_token (some token))
        (authenticate-IsOnCells user password) (λ token. set_token-IsOnCells t c (some token))

  -- `refresh_token` through a caller is `refresh_token` on the session of its cells.
  pub refresh_on_heap-IsOnCells :
      IsOnCells t c (refresh_on_heap network self) (Caller.refresh_token (session_auth network))
  unfolding refresh_on_heap Caller.refresh_token
  refresh_on_heap-IsOnCells h has = refresh_with-IsOnCells (read_cell c h.creds_cells) h has

  -- `update_user` through a caller is `update_user` on the session of its cells.
  pub update_user_on_heap-IsOnCells :
      (creds : Option (String × String))
      → IsOnCells t c
          (update_user_on_heap network self creds)
          (Caller.update_user (session_auth network) creds)
  unfolding update_user_on_heap Caller.update_user
  update_user_on_heap-IsOnCells none =
      bind-IsOnCells t c _ (set_token none) _ (λ u. set_creds none) (set_token-IsOnCells t c none)
        (λ u. set_creds-IsOnCells t c none)
  update_user_on_heap-IsOnCells (some (name, password)) =
      bind-IsOnCells t c _ (session_authenticate name password) _
        (λ token. set_token (some token) >> set_creds (some (name, password)))
        (authenticate-IsOnCells name password)
        (λ token.
          bind-IsOnCells t c _ (set_token (some token)) _ (λ u. set_creds (some (name, password)))
            (set_token-IsOnCells t c (some token))
            (λ u. set_creds-IsOnCells t c (some (name, password))))
