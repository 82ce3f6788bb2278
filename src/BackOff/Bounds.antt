-- ===== src/BackOff/Bounds.antt =====
-- The order of the back-off durations, and the panic of their doubling.
use etcd_client.Prelude.{
  ℕ, ◌*◌, ◌≤◌, ◌≡◌, refl, ap, none, some, arith, min, if◌then◌else◌, subst, sym, ◌∙◌, ◌≢◌,
  eq_of_some,
}
use etcd_client.Error.{Foreign, Result, ok, err}
use etcd_client.BackOff.{
  BackOffStatus, new, duration_max, failed, fail, Poll, ready, pending, trace_poll, load,
}

pub record IsValid (st : BackOffStatus) : Type 0 where
  pub initial_least : st.initial_backoff_dur ≤ st.current_backoff_dur
  pub grows : st.current_backoff_dur ≤ st.next_backoff_dur
  pub capped : st.next_backoff_dur ≤ st.max_backoff_dur
  pub doubles : st.next_backoff_dur ≤ st.current_backoff_dur * 2
  pub representable : st.max_backoff_dur * 2 ≤ duration_max

pub IsValid-new :
    (initial max : ℕ) → initial ≤ max → max * 2 ≤ duration_max → IsValid (new initial max)
unfolding new
IsValid-new initial max h k = omega arith

pub failed-IsValid : (now : ℕ) (st : BackOffStatus) → IsValid st → IsValid (failed now st).0
unfolding failed
failed-IsValid now st v = ground arith

-- What happens on the shared status of a connection.
pub data Step (F : Foreign) (T : Type 0) : BackOffStatus → BackOffStatus → Type 0 where
  polled :
      {st st' : BackOffStatus} (checked now : ℕ) (answer : Poll (Result F T))
      → trace_poll checked now answer st ≡ some st'
      → Step F T st st'
  loaded : {st : BackOffStatus} (now : ℕ) → Step F T st (load now st).0

pub data Reach (F : Foreign) (T : Type 0) (st : BackOffStatus) : BackOffStatus → Type 0 where
  here : Reach F T st st
  next : {t u : BackOffStatus} → Reach F T st t → Step F T t u → Reach F T st u

-- The status after a failure, with no test for the overflow.
abbrev pub after_failure : ℕ → ℕ → BackOffStatus → BackOffStatus
after_failure checked now st =
    let (st', was_failed) = failed checked st in
    if was_failed then record st' { last_failure = some now } else record st' {
      current_backoff_dur = st'.next_backoff_dur;
      next_backoff_dur = min (st'.next_backoff_dur * 2) st'.max_backoff_dur;
      last_failure = some now;
    }

pub fail-eq-after_failure :
    (checked now : ℕ) (st : BackOffStatus)
    → st.next_backoff_dur * 2 ≤ duration_max
    → fail checked now st ≡ some (after_failure checked now st)
unfolding fail
fail-eq-after_failure checked now st h = ground arith

after_failure-IsValid :
    (checked now : ℕ) (st : BackOffStatus) → IsValid st → IsValid (after_failure checked now st)
unfolding failed
after_failure-IsValid checked now st v = ground arith

fail-IsValid :
    (checked now : ℕ) (st st' : BackOffStatus)
    → IsValid st
    → fail checked now st ≡ some st'
    → IsValid st'
fail-IsValid checked now st st' v e =
    subst IsValid (eq_of_some (sym (fail-eq-after_failure checked now st (omega arith)) ∙ e))
      (after_failure-IsValid checked now st v)

trace_poll-IsValid :
    {F : Foreign} {T : Type 0} (checked now : ℕ) (answer : Poll (Result F T))
    (st st' : BackOffStatus)
    → IsValid st
    → trace_poll checked now answer st ≡ some st'
    → IsValid st'
unfolding trace_poll
trace_poll-IsValid checked now pending st st' v e = subst IsValid (eq_of_some e) v
trace_poll-IsValid checked now (ready (ok a)) st st' v e =
    subst IsValid (eq_of_some e) (omega arith)
trace_poll-IsValid checked now (ready (err x)) st st' v e = fail-IsValid checked now st st' v e

Step-IsValid :
    {F : Foreign} {T : Type 0} {st st' : BackOffStatus} → Step F T st st' → IsValid st → IsValid st'
Step-IsValid {st} {st'} (polled checked now answer e) v =
    trace_poll-IsValid checked now answer st st' v e
Step-IsValid {st} (loaded now) v = unfold load in failed-IsValid now st v

Reach-IsValid_from :
    {F : Foreign} {T : Type 0} {st st' : BackOffStatus}
    → IsValid st
    → Reach F T st st'
    → IsValid st'
Reach-IsValid_from v here = v
Reach-IsValid_from v (next r step) = Step-IsValid step (Reach-IsValid_from v r)

-- When the initial duration is at most the maximal one and the maximal one can be doubled: whatever
-- answers a connection gives and whenever its load is asked for, its status stays valid, with
-- initial ≤ current ≤ next ≤ maximal duration, and next at most twice the current one.
pub Reach-IsValid :
    {F : Foreign} {T : Type 0} (initial max : ℕ) (st : BackOffStatus)
    → initial ≤ max
    → max * 2 ≤ duration_max
    → Reach F T (new initial max) st
    → IsValid st
Reach-IsValid initial max st h k r = Reach-IsValid_from (IsValid-new initial max h k) r

-- When the initial duration is at most the maximal one and the maximal one can be doubled: in every
-- reachable status, no answer makes the doubling of the duration panic.
pub trace_poll_total :
    {F : Foreign} {T : Type 0} (initial max : ℕ) (st : BackOffStatus)
    → initial ≤ max
    → max * 2 ≤ duration_max
    → Reach F T (new initial max) st
    → (checked now : ℕ) (answer : Poll (Result F T)) → trace_poll checked now answer st ≢ none
unfolding trace_poll
trace_poll_total initial max st h k r checked now pending e = cc
trace_poll_total initial max st h k r checked now (ready (ok a)) e = cc
trace_poll_total {F} {T} initial max st h k r checked now (ready (err x)) e =
    let v : IsValid st = Reach-IsValid initial max st h k r in
    ground (arith, fail-eq-after_failure checked now st (omega arith))

after_failure-max :
    (checked now : ℕ) (st : BackOffStatus)
    → (after_failure checked now st).max_backoff_dur ≡ st.max_backoff_dur
unfolding failed
after_failure-max checked now st = ground arith

load-max : (now : ℕ) (st : BackOffStatus) → (load now st).0.max_backoff_dur ≡ st.max_backoff_dur
unfolding load
load-max now st = ground arith

trace_poll-max :
    {F : Foreign} {T : Type 0} (checked now : ℕ) (answer : Poll (Result F T))
    (st st' : BackOffStatus)
    → IsValid st
    → trace_poll checked now answer st ≡ some st'
    → st'.max_backoff_dur ≡ st.max_backoff_dur
unfolding trace_poll
trace_poll-max checked now pending st st' v e = ap (λ t. t.max_backoff_dur) (sym (eq_of_some e))
trace_poll-max checked now (ready (ok a)) st st' v e =
    ap (λ t. t.max_backoff_dur) (sym (eq_of_some e))
trace_poll-max checked now (ready (err x)) st st' v e =
    ap (λ t. t.max_backoff_dur)
      (sym (eq_of_some (sym (fail-eq-after_failure checked now st (omega arith)) ∙ e)))
    ∙ after_failure-max checked now st

-- The maximal duration of a status stays.
pub Reach-max :
    {F : Foreign} {T : Type 0} {st st' : BackOffStatus}
    → IsValid st
    → Reach F T st st'
    → st'.max_backoff_dur ≡ st.max_backoff_dur
Reach-max v here = refl
Reach-max v (next {t} {u} r (polled checked now answer e)) =
    trace_poll-max checked now answer t u (Reach-IsValid_from v r) e ∙ Reach-max v r
Reach-max v (next {t} r (loaded now)) = load-max now t ∙ Reach-max v r
