-- ===== src/BackOff.antt =====
-- src/openssl_tls/backoff.rs: the load of a connection that has failed. Durations and instants are
-- numbers of nanoseconds; the clock's readings are arguments.
pub mod Bounds
pub mod Schedule
use etcd_client.Prelude.{
  ℕ, ◌+◌, ◌-◌, ◌*◌, ◌^◌, min, Bool, true, false, not, Option, none, some, ltb, leb, if◌then◌else◌,
}
use etcd_client.Error.{Foreign, Result, ok, err}

pub record BackOffStatus : Type 0 where
  pub initial_backoff_dur : ℕ
  pub max_backoff_dur : ℕ
  pub next_backoff_dur : ℕ
  pub last_failure : Option ℕ
  pub current_backoff_dur : ℕ

unfoldable pub new : ℕ → ℕ → BackOffStatus
new initial max = record {
  initial_backoff_dur = initial;
  max_backoff_dur = max;
  next_backoff_dur = initial;
  last_failure = none;
  current_backoff_dur = initial;
}

-- `Duration::MAX`; `Duration * u32` panics above it.
abbrev pub duration_max : ℕ
duration_max = 2 ^ 64 * 1_000_000_000 - 1

abbrev pub double : ℕ → Option ℕ
double d = if leb (d * 2) duration_max then some (d * 2) else none

-- The first half of `failed`: a failure whose back-off time has passed is forgotten.
unfoldable pub expire : ℕ → BackOffStatus → BackOffStatus
expire now st = elim st.last_failure [
  | none ↦ st
  | some lf ↦
      if ltb st.current_backoff_dur (now - lf) then record st { last_failure = none } else st
]

abbrev pub is_some {ℓ} : {A : Type ℓ} → Option A → Bool
is_some none = false
is_some (some a) = true

unfoldable pub failed : ℕ → BackOffStatus → BackOffStatus × Bool
unfolding expire
failed now st = let st' = expire now st in (st', is_some st'.last_failure)

-- `none` is the panic of the doubling. `checked` is the clock's reading in `failed`, `now` the one
-- that is stored.
unfoldable pub fail : ℕ → ℕ → BackOffStatus → Option BackOffStatus
unfolding failed
fail checked now st =
    let (st', was_failed) = failed checked st in
    if was_failed
    then some (record st' { last_failure = some now })
    else elim (double st'.next_backoff_dur) [
      | none ↦ none
      | some doubled ↦ some (record st' {
        current_backoff_dur = st'.next_backoff_dur;
        next_backoff_dur = min doubled st'.max_backoff_dur;
        last_failure = some now;
      })
    ]

unfoldable pub success : BackOffStatus → BackOffStatus
success st = record st {
  last_failure = none;
  next_backoff_dur = st.initial_backoff_dur;
  current_backoff_dur = st.initial_backoff_dur;
}

pub data Poll (A : Type 0) : Type 0 where
  ready : A → Poll A
  pending : Poll A

module _ {F : Foreign} {T : Type 0} where
  -- `TraceFailFuture::poll`: what the answer of the inner service does to the status.
  unfoldable pub trace_poll : ℕ → ℕ → Poll (Result F T) → BackOffStatus → Option BackOffStatus
  unfolding fail success
  trace_poll checked now pending st = some st
  trace_poll checked now (ready (ok a)) st = some (success st)
  trace_poll checked now (ready (err e)) st = fail checked now st

-- `Load::load` of the service.
unfoldable pub load : ℕ → BackOffStatus → BackOffStatus × Bool
unfolding failed
load now st = failed now st
