-- ===== src/Examples/Connections.antt =====
-- A connection that fails twice, five nanoseconds apart, with back-off times from 10 to 40.
use etcd_client.Prelude.{ℕ, ◌-◌, ◌*◌, ◌^◌, ◌≡◌, refl, some, [], ◌∷◌, min, arith}
use etcd_client.Error.{Result, err, internal}
use etcd_client.BackOff.{BackOffStatus, new, fail, trace_poll, ready, load}
use etcd_client.BackOff.Bounds.{IsValid, polled, loaded, Reach, here, next, Reach-IsValid}
use etcd_client.BackOff.Schedule.{run_failures, run_failures_schedule}
use etcd_client.Examples.{foreign}

abbrev once : BackOffStatus
once = record {
  initial_backoff_dur = 10;
  max_backoff_dur = 40;
  next_backoff_dur = 20;
  last_failure = some 100;
  current_backoff_dur = 10;
}

abbrev failure : Result foreign ℕ
failure = err (internal "connection refused")

first_failure : trace_poll 100 100 (ready failure) (new 10 40) ≡ some once
unfolding trace_poll new
first_failure = refl

history : Reach foreign ℕ (new 10 40) (load 105 once).0
history = next (next here (polled 100 100 (ready failure) first_failure)) (loaded 105)

Reach-IsValid_example : IsValid (load 105 once).0
Reach-IsValid_example = Reach-IsValid 10 40 (load 105 once).0 (omega arith) (omega arith) history

run_failures_schedule_example :
    (last : BackOffStatus) × (n : ℕ) × (run_failures ((100, 100) ∷ (105, 105) ∷ []) (new 10 40)
      ≡ some (last, n))
    × (last.current_backoff_dur ≡ min (10 * 2 ^ (n - 1)) 40)
run_failures_schedule_example =
    run_failures_schedule 10 40 ((100, 100) ∷ (105, 105) ∷ []) (omega arith) (omega arith)

fail-once : fail 100 100 (new 10 40) ≡ some once
unfolding fail new
fail-once = refl
