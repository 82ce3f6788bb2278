-- ===== src/BackOff/Schedule.antt =====
-- How the back-off time grows with failures in a row, and how long a failure counts.
use etcd_client.Prelude.{
  ℕ, suc, ◌+◌, ◌*◌, ◌-◌, ◌^◌, ◌≤◌, ◌≡◌, refl, Bool, true, false, Option, none, some, List, [], ◌∷◌,
  arith, subst, min, leb, if◌then◌else◌,
}
use native.Mathlib.Nat.{add-zero, zero-add, pow-suc, pow-zero, mul-one}
use etcd_client.BackOff.{BackOffStatus, new, duration_max, failed, fail, load}
use etcd_client.BackOff.Bounds.{after_failure, fail-eq-after_failure}

-- Failures in a row, each with its two readings of the clock: the status after them and how many of
-- them found the connection healthy.
unfoldable pub run_failures : List (ℕ × ℕ) → BackOffStatus → Option (BackOffStatus × ℕ)
run_failures [] st = some (st, 0)
run_failures ((checked, now) ∷ rest) st = elim (fail checked now st) [
  | none ↦ none
  | some st' ↦ elim (run_failures rest st') [
    | none ↦ none
    | some (last, n) ↦ some (last, if (failed checked st).1 then n else suc n)
  ]
]

-- The status after `j` such failures.
record IsAt (initial max j : ℕ) (st : BackOffStatus) : Type 0 where
  maximal : st.max_backoff_dur ≡ max
  current : st.current_backoff_dur ≡ min (initial * 2 ^ (j - 1)) max
  next : st.next_backoff_dur ≡ min (initial * 2 ^ j) max

doubled : (initial j : ℕ) → initial * 2 ^ suc j ≡ initial * 2 ^ j * 2
doubled initial j = grind (arith, pow-suc)

IsAt-new : (initial max : ℕ) → initial ≤ max → IsAt initial max 0 (new initial max)
unfolding new
IsAt-new initial max h = omega (arith, pow-zero 2, mul-one initial)

after_failure-IsAt :
    (initial max j checked now : ℕ) (st : BackOffStatus)
    → IsAt initial max j st
    → IsAt initial max (if (failed checked st).1 then j else suc j) (after_failure checked now st)
unfolding failed
after_failure-IsAt initial max j checked now st at = ground (arith, doubled initial j)

counted : (b : Bool) (j n : ℕ) → (if b then j else suc j) + n ≡ j + (if b then n else suc n)
counted true j n = refl
counted false j n = omega arith

run_failures_total :
    (initial max j : ℕ) (times : List (ℕ × ℕ)) (st : BackOffStatus)
    → max * 2 ≤ duration_max
    → IsAt initial max j st
    → (last : BackOffStatus) × (n : ℕ) × (run_failures times st ≡ some (last, n))
      × IsAt initial max (j + n) last
unfolding run_failures
run_failures_total initial max j [] st h at = (st, 0, refl, rw add-zero at)
run_failures_total initial max j ((checked, now) ∷ rest) st h at =
    let was_failed = (failed checked st).1 in
    let (last, n, ran, at') =
      run_failures_total initial max (if was_failed then j else suc j) rest
        (after_failure checked now st) h (after_failure-IsAt initial max j checked now st at) in
    (
      last,
      if was_failed then n else suc n,
      ground (arith, fail-eq-after_failure checked now st (omega arith), ran),
      subst (λ k. IsAt initial max k last) (counted was_failed j n) at',
    )

-- When the initial duration is at most the maximal one and the maximal one can be doubled: after any
-- failures of a new connection, at any times, nothing has panicked, and the current back-off time is the initial one doubled once for each failure that found the connection healthy,
-- the first excepted, and at most the maximal one.
pub run_failures_schedule :
    (initial max : ℕ) (times : List (ℕ × ℕ))
    → initial ≤ max
    → max * 2 ≤ duration_max
    → (last : BackOffStatus) × (n : ℕ) × (run_failures times (new initial max) ≡ some (last, n))
      × (last.current_backoff_dur ≡ min (initial * 2 ^ (n - 1)) max)
run_failures_schedule initial max times h k =
    let (last, n, ran, at) =
      run_failures_total initial max 0 times (new initial max) k (IsAt-new initial max h) in
    (
      last,
      n,
      ran,
      subst (λ j. last.current_backoff_dur ≡ min (initial * 2 ^ (j - 1)) max) (zero-add n)
          at.current,
    )

-- A connection that has just failed reports a load until more than its current back-off time has
-- passed since the failure, and no load after that.
pub load-fail :
    (checked now later : ℕ) (st st' : BackOffStatus)
    → fail checked now st ≡ some st'
    → (load later st').1 ≡ leb (later - now) st'.current_backoff_dur
unfolding fail load
load-fail checked now later st st' h = ground arith
