-- ===== src/Namespace/Store/Calls.antt =====
-- What a call of `do_call` does to the store, with its second request after a refresh of the token.
use etcd_client.Prelude.{
  arith, ◌≡◌, refl, ◌∙◌, ap, subst, true, Bool-cases, inl, inr, String, Option, none, some, ◌⊎◌,
  Bool,
}
use etcd_client.Error.{Foreign, Result, ok, err, Result-cases}
use etcd_client.Exec.{Exec, continue, ◌>>◌}
use etcd_client.Caller.{Session, AuthService, refresh_with, refresh_token, do_call, do_authenticate}
use etcd_client.Caller.Retry.{do_call-eq, retries}
use etcd_client.Namespace.Store.{Store, Applies}

-- The first request failed, and may have been applied; the second decides.
Applies_twice :
    {F : Foreign} {A : Type 0} (r : Result F A) (f : Store → Store) (d d' d'' : Store)
    → ((d : Store) → f (f d) ≡ f d)
    → ((d' ≡ d) ⊎ (d' ≡ f d))
    → Applies r f d' d''
    → Applies r f d d''
Applies_twice (ok a) f d d' d'' idem (inl kept) done = done ∙ ap f kept
Applies_twice (ok a) f d d' d'' idem (inr first) done = done ∙ ap f first ∙ idem d
Applies_twice (err x) f d d' d'' idem (inl kept) (inl e) = inl (e ∙ kept)
Applies_twice (err x) f d d' d'' idem (inl kept) (inr e) = inr (e ∙ ap f kept)
Applies_twice (err x) f d d' d'' idem (inr first) (inl e) = inr (e ∙ first)
Applies_twice (err x) f d d' d'' idem (inr first) (inr e) = inr (e ∙ ap f first ∙ idem d)

module _ {F : Foreign} {Token W : Type 0} (auth : AuthService F Token W) (data_of : W → Store)
    (authenticate_keeps : (user password : String) (s : Session Token W)
      → data_of (auth.authenticate user password s).1.world ≡ data_of s.world) where
  refresh_with_keeps :
      (creds : Option (String × String)) (s : Session Token W)
      → data_of (refresh_with auth creds s).1.world ≡ data_of s.world
  unfolding refresh_with do_authenticate
  refresh_with_keeps none s = refl
  refresh_with_keeps (some (user, password)) s = ground (arith, authenticate_keeps user password s)

  pub refresh_token_keeps :
      (s : Session Token W) → data_of (refresh_token auth s).1.world ≡ data_of s.world
  unfolding refresh_token
  refresh_token_keeps s = refresh_with_keeps s.creds s

  module _ {Req Ret : Type 0} (call : Req → Exec F (Session Token W) Ret) (req : Req)
      (f : Store → Store) (idem : (d : Store) → f (f d) ≡ f d)
      (once : (s : Session Token W)
        → Applies (call req s).0 f (data_of s.world) (data_of (call req s).1.world)) where
    failed :
        (refresh : Bool) (s : Session Token W)
        → retries refresh s (call req s).0 ≡ true
        → (data_of (call req s).1.world ≡ data_of s.world)
          ⊎ (data_of (call req s).1.world ≡ f (data_of s.world))
    failed refresh s again = elim (Result-cases (call req s).0) [
      | inl (a, answered) ↦ absurd (ground (arith, answered))
      | inr (x, answered) ↦
          subst (λ r. Applies r f (data_of s.world) (data_of (call req s).1.world)) answered
            (once s)
    ]

    after_refresh :
        (m : Result F (Unit {0}) × Session Token W) (d : Store)
        → (data_of m.1.world ≡ d) ⊎ (data_of m.1.world ≡ f d)
        → Applies
            (continue m.0 (λ _. call req) m.1).0
            f
            d
            (data_of (continue m.0 (λ _. call req) m.1).1.world)
    after_refresh (ok u, s') d first =
        Applies_twice (call req s').0 f d (data_of s'.world) _ idem first (once s')
    after_refresh (err x, s') d first = first

    second :
        (s s' : Session Token W)
        → (data_of s'.world ≡ data_of s.world) ⊎ (data_of s'.world ≡ f (data_of s.world))
        → Applies
            ((refresh_token auth >> call req) s').0
            f
            (data_of s.world)
            (data_of ((refresh_token auth >> call req) s').1.world)
    second s s' first =
        after_refresh (refresh_token auth s') (data_of s.world) (rw (refresh_token_keeps s') first)

    -- A call with an effect that is the same once and twice has it, however often `do_call` sends it.
    pub do_call-Applies :
        (refresh : Bool) (s : Session Token W)
        → Applies
            (do_call auth refresh req call s).0
            f
            (data_of s.world)
            (data_of (do_call auth refresh req call s).1.world)
    do_call-Applies refresh s = elim (Bool-cases (retries refresh s (call req s).0)) [
      | inl again ↦
          rw (do_call-eq auth call refresh req s, again)
            (second s (call req s).1 (failed refresh s again))
      | inr single ↦ rw (do_call-eq auth call refresh req s, single) (once s)
    ]

  module _ {Req Ret : Type 0} (call : Req → Exec F (Session Token W) Ret) (req : Req)
      (keeps : (s : Session Token W) → data_of (call req s).1.world ≡ data_of s.world) where
    after_refresh_reads :
        (m : Result F (Unit {0}) × Session Token W) (d : Store) (a : Ret)
        → data_of m.1.world ≡ d
        → (continue m.0 (λ _. call req) m.1).0 ≡ ok a
        → (s' : Session Token W) × (data_of s'.world ≡ d) × ((call req s').0 ≡ ok a)
    after_refresh_reads (ok u, s') d a kept e = (s', kept, e)
    after_refresh_reads (err x, s') d a kept e = cc

    -- A `do_call` of a call that changes nothing returns what the call returns on the same store.
    pub do_call_reads :
        (refresh : Bool) (s : Session Token W) (a : Ret)
        → (do_call auth refresh req call s).0 ≡ ok a
        → (s' : Session Token W) × (data_of s'.world ≡ data_of s.world) × ((call req s').0 ≡ ok a)
    do_call_reads refresh s a e = elim (Bool-cases (retries refresh s (call req s).0)) [
      | inr single ↦ (s, refl, rw (do_call-eq auth call refresh req s, single) at e)
      | inl again ↦
          after_refresh_reads (refresh_token auth (call req s).1) (data_of s.world) a
            (refresh_token_keeps (call req s).1 ∙ keeps s)
            (rw (do_call-eq auth call refresh req s, again) at e)
    ]
