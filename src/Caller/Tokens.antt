-- ===== src/Caller/Tokens.antt =====
-- What `refresh_token` and `update_user` leave in the shared token and credentials.
use etcd_client.Prelude.{String, ◌≡◌, refl, Option, none, some, arith, inl, inr}
use etcd_client.Error.{Foreign, Error, ok, err, Result-cases}
use etcd_client.Caller.{Session, AuthService, refresh_with, refresh_token, update_user, is_some}

-- The authentication request itself leaves this client's token and credentials alone.
pub record Leaves {F : Foreign} {Token W : Type 0} (auth : AuthService F Token W) : Type 0 where
  pub token_kept :
      (user password : String) (s : Session Token W)
      → (auth.authenticate user password s).1.auth_token ≡ s.auth_token
  pub creds_kept :
      (user password : String) (s : Session Token W)
      → (auth.authenticate user password s).1.creds ≡ s.creds

module _ {F : Foreign} {Token W : Type 0} (auth : AuthService F Token W) (kept : Leaves auth) where
  -- When the authentication request leaves the client's token and credentials alone: a client whose
  -- `update_user` fails keeps its token and its credentials.
  pub update_user_atomic :
      (creds : Option (String × String)) (s : Session Token W) (e : Error F)
      → (update_user auth creds s).0 ≡ err e
      → ((update_user auth creds s).1.auth_token ≡ s.auth_token)
        × ((update_user auth creds s).1.creds ≡ s.creds)
  unfolding update_user
  update_user_atomic none s e h = ground arith
  update_user_atomic (some (name, password)) s e h =
      ground (arith, kept.token_kept name password s, kept.creds_kept name password s)

  -- There is a token exactly when there are credentials.
  abbrev pub IsConsistent : Session Token W → Type 0
  IsConsistent s = is_some s.auth_token ≡ is_some s.creds

  refresh_with-IsConsistent :
      (creds : Option (String × String)) (s : Session Token W) (u : Unit {0})
      → s.creds ≡ creds
      → (refresh_with auth creds s).0 ≡ ok u
      → IsConsistent (refresh_with auth creds s).1 × ((refresh_with auth creds s).1.creds ≡ s.creds)
  unfolding refresh_with
  refresh_with-IsConsistent none s u c h = ground arith
  refresh_with-IsConsistent (some (user, password)) s u c h =
      ground (arith, kept.creds_kept user password s)

  -- When the authentication request leaves the client's token and credentials alone: after a
  -- successful `refresh_token`, from any state, there is a token exactly when there are credentials,
  -- and the credentials are the old ones.
  pub refresh_token-IsConsistent :
      (s : Session Token W) (u : Unit {0})
      → (refresh_token auth s).0 ≡ ok u
      → IsConsistent (refresh_token auth s).1 × ((refresh_token auth s).1.creds ≡ s.creds)
  unfolding refresh_token
  refresh_token-IsConsistent s u h = refresh_with-IsConsistent s.creds s u refl h

  -- After a successful `update_user` the credentials are the given ones, and there is a token
  -- exactly when there are credentials.
  pub update_user-IsConsistent :
      (creds : Option (String × String)) (s : Session Token W) (u : Unit {0})
      → (update_user auth creds s).0 ≡ ok u
      → IsConsistent (update_user auth creds s).1 × ((update_user auth creds s).1.creds ≡ creds)
  unfolding update_user
  update_user-IsConsistent none s u h = ground arith
  update_user-IsConsistent (some (name, password)) s u h = ground arith

  -- The token that a successful `update_user` to credentials leaves is the parsed reply of the server
  -- to exactly these credentials.
  pub update_user_token :
      (name password : String) (s : Session Token W) (u : Unit {0})
      → (update_user auth (some (name, password)) s).0 ≡ ok u
      → (reply : String) × (token : Token) × ((auth.authenticate name password s).0 ≡ ok reply)
        × (auth.parse reply ≡ ok token)
        × ((update_user auth (some (name, password)) s).1.auth_token ≡ some token)
  unfolding update_user
  update_user_token name password s u h =
      elim (Result-cases (auth.authenticate name password s).0) [
        | inr (e, refused) ↦ absurd (ground (arith, refused))
        | inl (reply, replied) ↦ elim (Result-cases (auth.parse reply)) [
          | inr (e, bad) ↦ absurd (ground (arith, replied, bad))
          | inl (token, parsed) ↦ (reply, token, replied, parsed, ground (arith, replied, parsed))
        ]
      ]
