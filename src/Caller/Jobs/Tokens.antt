-- ===== src/Caller/Jobs/Tokens.antt =====
-- With which tokens requests go out, in any order of the steps of the calls.
use etcd_client.Prelude.{
  ℕ, String, ◌≡◌, Bool, true, false, Bool-cases, inl, inr, ◌⊎◌, Option, none, some, if◌then◌else◌,
  List, [], ◌∷◌,
}
use etcd_client.Error.{Foreign, Result, ok, err, grpc_status}
use etcd_client.Caller.{Session, AuthService, do_authenticate}
use etcd_client.Caller.Clones.Tokens.{task_login}
use etcd_client.Caller.Clones.{Task, refresh_start, finished, advance}
use etcd_client.Caller.Jobs.{
  Job, maintain, call_start, first_read, first_send, refreshing, last_read, last_send, returned,
  Shared, proceed, with_answer, with_refresh,
}
use etcd_client.Caller.Jobs.Order.{Config, Turn, here, next, Run, stop, turn, meanwhile}

-- A request and its answer leave this client's token and credentials alone.
pub record LeavesCalls {F : Foreign} {Token W Req Ret : Type 0} (shared : Shared F Token W Req Ret)
    : Type 0 where
  pub token_kept :
      (req : Req) (token : Option Token) (s : Session Token W)
      → (shared.exchange req token s).1.auth_token ≡ s.auth_token
  pub creds_kept :
      (req : Req) (token : Option Token) (s : Session Token W)
      → (shared.exchange req token s).1.creds ≡ s.creds

-- The name and the password of the login that is the next step.
abbrev pub job_login :
    {F : Foreign} {Token Req Ret : Type 0} → Job F Token Req Ret → Option (String × String)
job_login (maintain task) = task_login task
job_login (refreshing req task) = task_login task
job_login _ = none

module _ {F : Foreign} {Token W Req Ret : Type 0} (shared : Shared F Token W Req Ret) where
  -- The turn is a login with the name and the password, that gives the token.
  abbrev pub TurnLogs : {b c : Config shared} → Turn shared b c → String → String → Token → Type 0
  TurnLogs (here {job} {jobs} {s} h) user password token =
      (job_login job ≡ some (user, password))
      × ((do_authenticate shared.auth user password s).0 ≡ ok token)
  TurnLogs (next t) user password token = TurnLogs t user password token

  -- One of the turns is.
  abbrev pub RunLogs :
      {n : ℕ} {b c : Config shared} → Run shared n b c → String → String → Token → Type 0
  RunLogs stop user password token = ⊥
  RunLogs (turn t run) user password token =
      TurnLogs t user password token ⊎ RunLogs run user password token
  RunLogs (meanwhile w run) user password token = RunLogs run user password token

-- A property of the shared session, of what a refresh or an update holds, and of a token that has been
-- read, that each step of a refresh or an update keeps, when a login that it makes gives its token.
pub record Discipline {F : Foreign} {Token W : Type 0} (auth : AuthService F Token W) : Type 1 where
  pub Gives : String → String → Token → Type 0
  pub IsGoodTask : Task F Token → Type 0
  pub IsGoodToken : Option Token → Type 0
  pub IsGoodSession : Option (String × String) → Option Token → Type 0
  pub start_good : IsGoodTask refresh_start
  pub token_good :
      (creds : Option (String × String)) (token : Option Token)
      → IsGoodSession creds token
      → IsGoodToken token
  pub advance_good :
      (task : Task F Token) (s : Session Token W)
      → ((user password : String) (token : Token)
          → task_login task ≡ some (user, password)
          → (do_authenticate auth user password s).0 ≡ ok token
          → Gives user password token)
      → IsGoodTask task
      → IsGoodSession s.creds s.auth_token
      → IsGoodTask (advance auth task s).0
        × IsGoodSession (advance auth task s).1.creds (advance auth task s).1.auth_token

module _ {F : Foreign} {Token W Req Ret : Type 0} (shared : Shared F Token W Req Ret)
    (kept : LeavesCalls shared) (d : Discipline shared.auth) where
  open d use {Gives, IsGoodTask, IsGoodToken, IsGoodSession, start_good, token_good, advance_good}

  -- What a call holds is good, above all the token that its next request carries.
  abbrev pub IsGoodJob : Job F Token Req Ret → Type 0
  IsGoodJob (maintain task) = IsGoodTask task
  IsGoodJob (first_send req token) = IsGoodToken token
  IsGoodJob (refreshing req task) = IsGoodTask task
  IsGoodJob (last_send req token) = IsGoodToken token
  IsGoodJob _ = Unit

  abbrev pub AreGoodJobs : List (Job F Token Req Ret) → Type 0
  AreGoodJobs [] = Unit
  AreGoodJobs (job ∷ jobs) = IsGoodJob job × AreGoodJobs jobs

  abbrev pub IsGood : Session Token W → Type 0
  IsGood s = IsGoodSession s.creds s.auth_token

  IsGoodJob-with_answer : (req : Req) (r : Result F Ret) → IsGoodJob (with_answer req r)
  IsGoodJob-with_answer req (err (grpc_status status)) =
      elim (Bool-cases (F.is_unauthenticated status)) [
        | inl refused ↦ rw refused start_good
        | inr other ↦ rw other tt
      ]
  IsGoodJob-with_answer req _ = tt

  IsGoodJob-with_refresh :
      (req : Req) (task : Task F Token) → IsGoodTask task → IsGoodJob (with_refresh req task)
  IsGoodJob-with_refresh req (finished (ok u)) good = tt
  IsGoodJob-with_refresh req (finished (err e)) good = tt
  IsGoodJob-with_refresh req _ good = good

  IsGoodJob-guard :
      (direct : Bool) (req : Req) → IsGoodJob (if direct then last_read req else first_read req)
  IsGoodJob-guard true req = tt
  IsGoodJob-guard false req = tt

  exchange-IsGood :
      (req : Req) (token : Option Token) (s : Session Token W)
      → IsGood s
      → IsGood (shared.exchange req token s).1
  exchange-IsGood req token s good =
      rw (kept.token_kept req token s, kept.creds_kept req token s) good

  proceed-IsGood :
      (job : Job F Token Req Ret) (s : Session Token W)
      → ((user password : String) (token : Token)
          → job_login job ≡ some (user, password)
          → (do_authenticate shared.auth user password s).0 ≡ ok token
          → Gives user password token)
      → IsGoodJob job
      → IsGood s
      → IsGoodJob (proceed shared job s).0 × IsGood (proceed shared job s).1
  unfolding proceed
  proceed-IsGood (maintain task) s gives job good = advance_good task s gives job good
  proceed-IsGood (call_start req) s gives job good = (IsGoodJob-guard _ req, good)
  proceed-IsGood (first_read req) s gives job good = (token_good s.creds s.auth_token good, good)
  proceed-IsGood (first_send req token) s gives job good =
      (IsGoodJob-with_answer req (shared.exchange req token s).0, exchange-IsGood req token s good)
  proceed-IsGood (refreshing req task) s gives job good =
      let (task', s') = advance_good task s gives job good in
      (IsGoodJob-with_refresh req _ task', s')
  proceed-IsGood (last_read req) s gives job good = (token_good s.creds s.auth_token good, good)
  proceed-IsGood (last_send req token) s gives job good = (tt, exchange-IsGood req token s good)
  proceed-IsGood (returned r) s gives job good = (tt, good)

  Turn-IsGood :
      {b c : Config shared} (t : Turn shared b c)
      → ((user password : String) (token : Token)
          → TurnLogs shared t user password token
          → Gives user password token)
      → AreGoodJobs b.0
      → IsGood b.1
      → AreGoodJobs c.0 × IsGood c.1
  Turn-IsGood (here {job} {jobs} {s} h) gives (job_good, rest) good =
      let (job', s') =
        proceed-IsGood job s
          (λ user password token login given. gives user password token (login, given)) job_good
          good in
      ((job', rest), s')
  Turn-IsGood (next t) gives (job_good, rest) good =
      let (rest', s') = Turn-IsGood t gives rest good in ((job_good, rest'), s')

  pub Run-IsGood :
      {n : ℕ} {b c : Config shared} (run : Run shared n b c)
      → ((user password : String) (token : Token)
          → RunLogs shared run user password token
          → Gives user password token)
      → AreGoodJobs b.0
      → IsGood b.1
      → AreGoodJobs c.0 × IsGood c.1
  Run-IsGood stop gives jobs good = (jobs, good)
  Run-IsGood (turn t run) gives jobs good =
      let (jobs', good') =
        Turn-IsGood t (λ user password token logs. gives user password token (inl logs)) jobs
          good in
      Run-IsGood run (λ user password token logs. gives user password token (inr logs)) jobs' good'
  Run-IsGood (meanwhile w run) gives jobs good = Run-IsGood run gives jobs good
