-- ===== src/Caller/Retry.antt =====
-- How often `do_call` sends a request and authenticates, and where its result comes from.
use etcd_client.Prelude.{
  ℕ, ◌+◌, ◌≤◌, String, ◌≡◌, refl, inl, inr, Bool, true, false, Option, none, some, arith, ◌&&◌,
  if◌then◌else◌, Bool-cases,
}
use etcd_client.Error.{Foreign, Result, ok, err, err, grpc_status}
use etcd_client.Exec.{Exec, continue, ◌>>◌}
use etcd_client.Caller.{Session, AuthService, refresh_with, refresh_token, do_call, retry, is_some}

-- The result says that the server did not accept the token.
abbrev pub is_rejected : {F : Foreign} {Ret : Type 0} → Result F Ret → Bool
is_rejected {F} (err (grpc_status status)) = F.is_unauthenticated status
is_rejected _ = false

-- Whether `do_call` tries again, from the outcome of its first request.
abbrev pub retries :
    {F : Foreign} {Token W Ret : Type 0} → Bool → Session Token W → Result F Ret → Bool
retries refresh_expired_token s first =
    refresh_expired_token && (is_some s.creds && is_rejected first)

module _ {F : Foreign} {Token W Req Ret : Type 0} (auth : AuthService F Token W)
    (call : Req → Exec F (Session Token W) Ret) where
  retry-eq :
      (req : Req) (first : Result F Ret) (s : Session Token W)
      → retry auth call req first s
        ≡ (if is_rejected first then (refresh_token auth >> call req) s else (first, s))
  unfolding retry
  retry-eq req (err (grpc_status status)) s = ground arith
  retry-eq req _ s = refl

  -- `do_call` by its first result: when it is a refusal of the token, the refresh is enabled and
  -- credentials are set, the refresh follows, and if that succeeds, the same request again.
  pub do_call-eq :
      (refresh_expired_token : Bool) (req : Req) (s : Session Token W)
      → do_call auth refresh_expired_token req call s ≡ (
          if retries refresh_expired_token s (call req s).0
          then (refresh_token auth >> call req) (call req s).1
          else call req s)
  unfolding do_call
  do_call-eq false req s = refl
  do_call-eq true req s = elim (Bool-cases (is_some s.creds)) [
    | inl set ↦ rw set (retry-eq req (call req s).0 (call req s).1)
    | inr unset ↦ rw unset
  ]

  -- A `do_call` that succeeds ends, result and state, as one run of the given request from some
  -- state.
  pub do_call_origin :
      (refresh_expired_token : Bool) (req : Req) (s : Session Token W) (a : Ret)
      → (do_call auth refresh_expired_token req call s).0 ≡ ok a
      → (s' : Session Token W) × (do_call auth refresh_expired_token req call s ≡ call req s')
        × ((call req s').0 ≡ ok a)
  do_call_origin refresh_expired_token req s a h =
      elim (Bool-cases (retries refresh_expired_token s (call req s).0)) [
        | inr once ↦ (
          s,
          rw (do_call-eq refresh_expired_token req s, once) refl,
          rw (do_call-eq refresh_expired_token req s, once) at h,
        )
        | inl again ↦
            let (s', run, answered) =
              second (refresh_token auth (call req s).1)
                (rw (do_call-eq refresh_expired_token req s, again) at h) in
            (s', rw (do_call-eq refresh_expired_token req s, again) run, answered)
      ]
    where
      second :
          (m : Result F (Unit {0}) × Session Token W)
          → (continue m.0 (λ _. call req) m.1).0 ≡ ok a
          → (s' : Session Token W) × (continue m.0 (λ _. call req) m.1 ≡ call req s')
            × ((call req s').0 ≡ ok a)
      second (ok u, s') e = (s', refl, e)
      second (err x, s') e = cc

-- Counters over the world: requests that `call` sent, one or none, and authentications.
pub record Counters {F : Foreign} {Token W Req Ret : Type 0} (auth : AuthService F Token W)
    (call : Req → Exec F (Session Token W) Ret) : Type 0 where
  pub sent : W → ℕ
  pub authenticated : W → ℕ
  pub call_counts :
      (req : Req) (s : Session Token W)
      → (sent (call req s).1.world ≤ sent s.world + 1)
        × (authenticated (call req s).1.world ≡ authenticated s.world)
  pub authenticate_counts :
      (user password : String) (s : Session Token W)
      → (sent (auth.authenticate user password s).1.world ≡ sent s.world)
        × (authenticated (auth.authenticate user password s).1.world ≡ authenticated s.world + 1)

module _ {F : Foreign} {Token W Req Ret : Type 0} (auth : AuthService F Token W)
    (call : Req → Exec F (Session Token W) Ret) (counters : Counters auth call) where
  open counters use {sent, authenticated, call_counts, authenticate_counts}

  refresh_with_counts :
      (creds : Option (String × String)) (s : Session Token W)
      → (sent (refresh_with auth creds s).1.world ≡ sent s.world)
        × (authenticated (refresh_with auth creds s).1.world ≤ authenticated s.world + 1)
  unfolding refresh_with
  refresh_with_counts none s = (refl, omega arith)
  refresh_with_counts (some (user, password)) s =
      ground (arith, authenticate_counts user password s)

  second_counts :
      (req : Req) (s : Session Token W)
      → (sent ((refresh_token auth >> call req) s).1.world ≤ sent s.world + 1)
        × (authenticated ((refresh_token auth >> call req) s).1.world ≤ authenticated s.world + 1)
  unfolding refresh_token
  second_counts req s =
      ground (arith, refresh_with_counts s.creds s, call_counts req (refresh_with auth s.creds s).1)

  -- `do_call` sends the request at most twice and authenticates at most once, whatever the server
  -- answers.
  pub do_call_bounds :
      (refresh_expired_token : Bool) (req : Req) (s : Session Token W)
      → (sent (do_call auth refresh_expired_token req call s).1.world ≤ sent s.world + 2)
        × (authenticated (do_call auth refresh_expired_token req call s).1.world
            ≤ authenticated s.world + 1)
  do_call_bounds refresh_expired_token req s =
      elim (Bool-cases (retries refresh_expired_token s (call req s).0)) [
        | inl again ↦
            rw (do_call-eq auth call refresh_expired_token req s, again)
              (ground (arith, call_counts req s, second_counts req (call req s).1))
        | inr once ↦
            rw (do_call-eq auth call refresh_expired_token req s, once)
              (ground (arith, call_counts req s))
      ]
