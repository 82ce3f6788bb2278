-- ===== src/OpenSsl/Discover.antt =====
-- What the task of the discovery sends.
use mathlib.Core.List.{Memᴰ}
use mathlib.Core.List.Memᴰ.{not-nil}
use etcd_client.Prelude.{
  subst, ◌∙◌, ℕ, suc, ◌+◌, ◌≤◌, ◌*◌, ◌≡◌, ◌≢◌, refl, ap, Bool, true, false, none, List, [], ◌∷◌,
  map, take, arith, if◌then◌else◌, Bool-cases, inl, inr,
}
use etcd_client.Error.{Foreign, Result}
use etcd_client.BackOff
use etcd_client.BackOff.{BackOffStatus, Poll, trace_poll}
use etcd_client.BackOff.Bounds.{
  IsValid, IsValid-new, Reach-max, Reach, Reach-IsValid, trace_poll_total,
}
use etcd_client.OpenSsl.{Change, insert, remove, second, to_connection, discover}

-- How many changes the receiver takes, from the change number `n` on.
abbrev pub taken_count : {A : Type 0} → (ℕ → Bool) → ℕ → List A → ℕ
taken_count taken n [] = 0
taken_count taken n (x ∷ incoming) =
    let rest = taken_count taken (n + 1) incoming in if taken n then suc rest else 0

abbrev fresh : BackOffStatus
fresh = BackOff.new (1 * second) (256 * second)

module _ {K Endpoint Channel : Type 0} (connect_lazy : Endpoint → Channel) where
  -- The task sends the changes that come in, in order and each once, with the endpoints connected,
  -- up to the first that the receiver does not take.
  pub discover-eq :
      (taken : ℕ → Bool) (n : ℕ) (incoming : List (Change K Endpoint))
      → discover connect_lazy taken n incoming
        ≡ map (to_connection connect_lazy) (take (taken_count taken n incoming) incoming)
  unfolding discover
  discover-eq taken n [] = refl
  discover-eq taken n (x ∷ incoming) = elim (Bool-cases (taken n)) [
    | inl accepts ↦ rw (accepts, discover-eq taken (n + 1) incoming) refl
    | inr refuses ↦ rw refuses refl
  ]

  abbrev status_of : Change K (Channel × BackOffStatus) → BackOffStatus
  status_of (insert name (channel, st)) = st
  status_of (remove name) = fresh

  status_of-to_connection :
      (x : Change K Endpoint) → status_of (to_connection connect_lazy x) ≡ fresh
  unfolding to_connection
  status_of-to_connection (insert name e) = refl
  status_of-to_connection (remove name) = refl

  status_of_sent :
      (taken : ℕ → Bool) (n : ℕ) (incoming : List (Change K Endpoint))
      (x : Change K (Channel × BackOffStatus))
      → Memᴰ x (discover connect_lazy taken n incoming)
      → status_of x ≡ fresh
  unfolding discover
  status_of_sent taken n [] x m = absurd (not-nil m)
  status_of_sent taken n (y ∷ incoming) x m =
      choose (taken n) m (status_of_sent taken (n + 1) incoming x)
    where
      choose :
          (b : Bool)
          → Memᴰ x (
              if b
              then to_connection connect_lazy y ∷ discover connect_lazy taken (n + 1) incoming
              else [])
          → (Memᴰ x (discover connect_lazy taken (n + 1) incoming) → status_of x ≡ fresh)
          → status_of x ≡ fresh
      choose true (Memᴰ.head e) rest = ap status_of e ∙ status_of-to_connection y
      choose true (Memᴰ.tail m) rest = rest m
      choose false m rest = absurd (not-nil m)

  -- Every connection that the task sends backs off well: in each status that it reaches, whatever its
  -- answers and whenever its load is asked for, the durations are in order, the back-off time is at
  -- most 256 seconds, and no answer makes the doubling panic.
  pub discover_backs_off :
      {F : Foreign} {T : Type 0} (taken : ℕ → Bool) (n : ℕ) (incoming : List (Change K Endpoint))
      (name : K) (channel : Channel) (st st' : BackOffStatus)
      → Memᴰ (insert name (channel, st)) (discover connect_lazy taken n incoming)
      → Reach F T st st'
      → IsValid st'
        × (st'.current_backoff_dur ≤ 256 * second)
        × ((checked now : ℕ) (answer : Poll (Result F T))
            → trace_poll checked now answer st' ≢ none)
  unfolding BackOff.new
  discover_backs_off {F} {T} taken n incoming name channel st st' m r =
      let sent : st ≡ fresh = status_of_sent taken n incoming (insert name (channel, st)) m in
      let reached : Reach F T fresh st' = subst (λ s. Reach F T s st') sent r in
      let first : IsValid fresh =
        IsValid-new (1 * second) (256 * second) (omega arith) (omega arith) in
      let valid : IsValid st' =
        Reach-IsValid (1 * second) (256 * second) st' (omega arith) (omega arith) reached in
      let longest : st'.max_backoff_dur ≡ 256 * second = Reach-max first reached in
      (
        valid,
        omega arith,
        trace_poll_total (1 * second) (256 * second) st' (omega arith) (omega arith) reached,
      )
