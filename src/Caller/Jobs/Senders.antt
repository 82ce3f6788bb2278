-- ===== src/Caller/Jobs/Senders.antt =====
-- Whose token a request carries.
use etcd_client.Prelude.{ℕ, String, ◌≡◌, refl, Option, none, some, inl, inr, ◌⊎◌}
use etcd_client.Error.{Foreign}
use etcd_client.Caller.{AuthService}
use etcd_client.Caller.Tokens.{Leaves}
use etcd_client.Caller.Clones.Tokens.{IsRefresh, IsMatched, Matches, advance-IsRefresh}
use etcd_client.Caller.Jobs.{Shared}
use etcd_client.Caller.Jobs.Order.{Config, Run}
use etcd_client.Caller.Jobs.Tokens.{LeavesCalls, Discipline, AreGoodJobs, RunLogs, Run-IsGood}

-- Tokens belong to these credentials.
abbrev pub matched :
    {F : Foreign} {Token W : Type 0} (auth : AuthService F Token W) (leaves : Leaves auth)
    → (String → String → Token → Type 0)
    → Option (String × String)
    → Discipline auth
matched auth leaves Gives creds = record {
  Gives = Gives;
  IsGoodTask = IsRefresh auth leaves Gives creds;
  IsGoodToken = Matches auth leaves Gives creds;
  IsGoodSession = λ c token. (c ≡ creds) × Matches auth leaves Gives creds token;
  start_good = tt;
  token_good = λ c token good. good.1;
  advance_good = advance-IsRefresh auth leaves Gives creds;
}

module _ {F : Foreign} {Token W Req Ret : Type 0} (shared : Shared F Token W Req Ret)
    (leaves : Leaves shared.auth) (kept : LeavesCalls shared) where
  -- What a call may find: the token of the start, or one of a login during the run.
  abbrev pub Found :
      {n : ℕ} {b c : Config shared} → Run shared n b c → String → String → Token → Type 0
  Found {b} run user password token =
      (b.1.auth_token ≡ some token) ⊎ RunLogs shared run user password token

  Matches-Found :
      {n : ℕ} {b c : Config shared} (run : Run shared n b c) (user password : String)
      (token : Option Token)
      → b.1.auth_token ≡ token
      → Matches shared.auth leaves (Found run) (some (user, password)) token
  Matches-Found run user password none h = tt
  Matches-Found run user password (some token) h = inl h

  -- When requests and authentications leave the client's token and credentials alone: calls and
  -- refreshes of the token run in any order of their steps. If the shared credentials are these at the
  -- start, they stay so, and a call holds no token, or one that it may find.
  pub requests_match :
      (user password : String) {n : ℕ} {b c : Config shared} (run : Run shared n b c)
      → AreGoodJobs shared kept (matched shared.auth leaves (Found run) (some (user, password))) b.0
      → b.1.creds ≡ some (user, password)
      → AreGoodJobs shared kept (matched shared.auth leaves (Found run) (some (user, password))) c.0
        × IsMatched shared.auth leaves (Found run) (some (user, password)) c.1
  requests_match user password {b} run jobs set =
      Run-IsGood shared kept (matched shared.auth leaves (Found run) (some (user, password))) run
        (λ user' password' token logs. inr logs) jobs
        (set, Matches-Found run user password b.1.auth_token refl)
