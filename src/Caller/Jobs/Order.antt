-- ===== src/Caller/Jobs/Order.antt =====
-- The orders in which the calls of clones may run, and that all of them end.
use etcd_client.Prelude.{
  ℕ, suc, ◌+◌, ◌*◌, ◌≤◌, ◌<◌, ◌≡◌, true, false, Bool-cases, inl, inr, ◌⊎◌, Option, none, some, List,
  [], ◌∷◌, length, arith, String,
}
use etcd_client.Error.{Foreign, Result, ok, err, grpc_status}
use etcd_client.Caller.{Session, do_authenticate}
use etcd_client.Caller.Clones.{
  Task, refresh_start, refresh_login, refresh_clear, refresh_store, update_login, update_clear,
  update_store, update_creds, finished, with_creds, with_token, advance,
}
use etcd_client.Caller.Jobs.{
  Job, maintain, call_start, first_read, first_send, refreshing, last_read, last_send, returned,
  Shared, proceed, with_answer, with_refresh, is_over, task_over,
}

module _ {F : Foreign} {Token W Req Ret : Type 0} (shared : Shared F Token W Req Ret) where
  open shared use {auth, refresh_expired_token, exchange}

  abbrev pub Config : Type 0
  Config = List (Job F Token Req Ret) × Session Token W

  -- One of the calls that are not over takes a step.
  pub data Turn : Config → Config → Type 0 where
    here :
        {job : Job F Token Req Ret} {jobs : List (Job F Token Req Ret)} {s : Session Token W}
        → is_over job ≡ false
        → Turn (job ∷ jobs, s) ((proceed shared job s).0 ∷ jobs, (proceed shared job s).1)
    next :
        {job : Job F Token Req Ret} {jobs jobs' : List (Job F Token Req Ret)}
        {s s' : Session Token W}
        → Turn (jobs, s) (jobs', s')
        → Turn (job ∷ jobs, s) (job ∷ jobs', s')

  -- A number of steps, in any order of the calls; between them the rest of the world may change.
  pub data Run : ℕ → Config → Config → Type 0 where
    stop : {c : Config} → Run 0 c c
    turn : {n : ℕ} {b c d : Config} → Turn b c → Run n c d → Run (suc n) b d
    meanwhile :
        {n : ℕ} {jobs : List (Job F Token Req Ret)} {s : Session Token W} {d : Config} (w : W)
        → Run n (jobs, record s { world = w }) d
        → Run n (jobs, s) d

-- The steps that a call has left, at most.
module _ {F : Foreign} {Token : Type 0} where
  abbrev pub task_left : Task F Token → ℕ
  task_left refresh_start = 3
  task_left (refresh_login user password) = 2
  task_left refresh_clear = 1
  task_left (refresh_store token) = 1
  task_left (update_login name password) = 3
  task_left update_clear = 2
  task_left (update_store token name password) = 2
  task_left (update_creds creds) = 1
  task_left (finished result) = 0

  abbrev pub refresh_left : Task F Token → ℕ
  refresh_left (finished result) = 3
  refresh_left task = task_left task + 2

  abbrev pub left : {Req Ret : Type 0} → Job F Token Req Ret → ℕ
  left (maintain task) = task_left task
  left (call_start req) = 8
  left (first_read req) = 7
  left (first_send req token) = 6
  left (refreshing req task) = refresh_left task
  left (last_read req) = 2
  left (last_send req token) = 1
  left (returned result) = 0

  abbrev pub all_left : {Req Ret : Type 0} → List (Job F Token Req Ret) → ℕ
  all_left [] = 0
  all_left (job ∷ jobs) = left job + all_left jobs

module _ {F : Foreign} {Token W Req Ret : Type 0} (shared : Shared F Token W Req Ret) where
  open shared use {auth, refresh_expired_token, exchange}

  task_left-with_creds :
      (creds : Option (String × String)) → task_left {F = F} {Token = Token} (with_creds creds) ≤ 2
  task_left-with_creds none = omega arith
  task_left-with_creds (some (user, password)) = omega arith

  task_left-with_token :
      (store : Token → Task F Token) (n : ℕ) (r : Result F Token)
      → ((token : Token) → task_left (store token) ≤ n)
      → task_left (with_token store r) ≤ n
  task_left-with_token store n (ok token) h = h token
  task_left-with_token store n (err e) h = omega arith

  advance-task_left :
      (task : Task F Token) (s : Session Token W)
      → task_over task ≡ false
      → task_left (advance auth task s).0 < task_left task
  unfolding advance
  advance-task_left refresh_start s h = omega (arith, task_left-with_creds s.creds)
  advance-task_left (refresh_login user password) s h = omega (
    arith,
    task_left-with_token refresh_store 1 (do_authenticate auth user password s).0
        (λ token. omega arith),
  )
  advance-task_left (update_login name password) s h = omega (
    arith,
    task_left-with_token (λ token. update_store token name password) 2
        (do_authenticate auth name password s).0 (λ token. omega arith),
  )
  advance-task_left (finished result) s h = absurd (ground arith)
  advance-task_left _ s h = omega arith

  left-with_refresh :
      (req : Req) (task : Task F Token)
      → left {Req = Req} {Ret = Ret} (with_refresh req task) ≤ task_left task + 2
  left-with_refresh req (finished (ok u)) = omega arith
  left-with_refresh req (finished (err e)) = omega arith
  left-with_refresh req _ = omega arith

  refreshing-left :
      (req : Req) (task : Task F Token) (s : Session Token W)
      → left {Req = Req} {Ret = Ret} (with_refresh req (advance auth task s).0) < refresh_left task
  unfolding advance
  refreshing-left req (finished (ok u)) s = omega arith
  refreshing-left req (finished (err e)) s = omega arith
  refreshing-left req refresh_start s =
      omega (arith, left-with_refresh req (with_creds s.creds), task_left-with_creds s.creds)
  refreshing-left req (refresh_login user password) s = omega (
    arith,
    left-with_refresh req (with_token refresh_store (do_authenticate auth user password s).0),
    task_left-with_token refresh_store 1 (do_authenticate auth user password s).0
        (λ token. omega arith),
  )
  refreshing-left req (update_login name password) s = omega (
    arith,
    left-with_refresh req (
        with_token (λ token. update_store token name password)
          (do_authenticate auth name password s).0),
    task_left-with_token (λ token. update_store token name password) 2
        (do_authenticate auth name password s).0 (λ token. omega arith),
  )
  refreshing-left req _ s = omega arith

  left-with_answer :
      (req : Req) (r : Result F Ret)
      → left {Req = Req} {Ret = Ret} (with_answer {Token = Token} req r) ≤ 5
  left-with_answer req (err (grpc_status status)) = ground arith
  left-with_answer req _ = omega arith

  proceed-left :
      (job : Job F Token Req Ret) (s : Session Token W)
      → is_over job ≡ false
      → left (proceed shared job s).0 < left job
  unfolding proceed
  proceed-left (maintain task) s h = advance-task_left task s h
  proceed-left (call_start req) s h = ground arith
  proceed-left (first_send req token) s h =
      omega (arith, left-with_answer req (exchange req token s).0)
  proceed-left (refreshing req task) s h = refreshing-left req task s
  proceed-left (returned result) s h = absurd (ground arith)
  proceed-left _ s h = omega arith

  Turn-left : {b c : Config shared} → Turn shared b c → all_left c.0 + 1 ≤ all_left b.0
  Turn-left (here {job} {jobs} {s} h) = omega (arith, proceed-left job s h)
  Turn-left (next t) = omega (arith, Turn-left t)

  task_left_bound : (task : Task F Token) → task_left task ≤ 3
  task_left_bound refresh_start = omega arith
  task_left_bound _ = omega arith

  refresh_left_bound : (task : Task F Token) → refresh_left task ≤ 8
  refresh_left_bound refresh_start = omega arith
  refresh_left_bound _ = omega arith

  left_bound : (job : Job F Token Req Ret) → left job ≤ 8
  left_bound (maintain task) = omega (arith, task_left_bound task)
  left_bound (refreshing req task) = refresh_left_bound task
  left_bound _ = omega arith

  all_left-length : (jobs : List (Job F Token Req Ret)) → all_left jobs ≤ 8 * length jobs
  all_left-length [] = omega arith
  all_left-length (job ∷ jobs) = omega (arith, left_bound job, all_left-length jobs)

  Run-left : {n : ℕ} {b c : Config shared} → Run shared n b c → n + all_left c.0 ≤ all_left b.0
  Run-left stop = omega arith
  Run-left (turn t run) = omega (arith, Turn-left t, Run-left run)
  Run-left (meanwhile w run) = Run-left run

  abbrev pub AllOver : List (Job F Token Req Ret) → Type 0
  AllOver [] = Unit
  AllOver (job ∷ jobs) = (is_over job ≡ true) × AllOver jobs

  -- Calls are over, or one of them takes a step.
  progress :
      (jobs : List (Job F Token Req Ret)) (s : Session Token W)
      → AllOver jobs ⊎ ((d : Config shared) × Turn shared (jobs, s) d)
  progress [] s = inl tt
  progress (job ∷ jobs) s = elim (Bool-cases (is_over job)) [
    | inr open_job ↦
        inr (((proceed shared job s).0 ∷ jobs, (proceed shared job s).1), here open_job)
    | inl over ↦ elim (progress jobs s) [
      | inl rest ↦ inl (over, rest)
      | inr ((jobs', s'), t) ↦ inr ((job ∷ jobs', s'), next t)
    ]
  ]

  -- In every order of the steps of the calls, with any changes of the rest of the world between them,
  -- there are at most eight steps for each call, and where no call can take one, all calls are over:
  -- no call waits for another, and no order makes one refresh set off others without end.
  pub all_calls_end :
      (n : ℕ) (b c : Config shared)
      → Run shared n b c
      → (n ≤ 8 * length b.0) × (AllOver c.0 ⊎ ((d : Config shared) × Turn shared c d))
  all_calls_end n b c run = (omega (arith, Run-left run, all_left-length b.0), progress c.0 c.1)
