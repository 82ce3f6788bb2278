-- ===== src/Exec.antt =====
-- Asynchronous methods as actions: from the state before the call to the result and the state after
-- it. Effects that came before an error stay, so the state comes back beside the error too.
use etcd_client.Prelude.{◌≡◌, refl}
use etcd_client.Error.{eq_of_ok, Foreign, Error, Result, ok, err}

abbrev pub Exec : Foreign → Type 0 → Type 0 → Type 0
Exec F S A = S → Result F A × S

module _ {F : Foreign} {S A : Type 0} where
  abbrev pub pure : A → Exec F S A
  pure a s = (ok a, s)

  abbrev pub raise : Error F → Exec F S A
  raise e s = (err e, s)

  abbrev pub lift : Result F A → Exec F S A
  lift r s = (r, s)

module _ {F : Foreign} {S : Type 0} where
  abbrev pub modify : (S → S) → Exec F S (Unit {0})
  modify f s = (ok tt, f s)

module _ {F : Foreign} {S A B : Type 0} where
  abbrev pub continue : Result F A → (A → Exec F S B) → Exec F S B
  continue (ok a) f s = f a s
  continue (err e) f s = (err e, s)

  infixl 10 ◌>>=◌ ◌>>◌
  abbrev pub ◌>>=◌ : Exec F S A → (A → Exec F S B) → Exec F S B
  ◌>>=◌ m f s = let (r, s') = m s in continue r f s'

  abbrev pub ◌>>◌ : Exec F S A → Exec F S B → Exec F S B
  m >> n = m >>= λ _. n

-- A successful run of a call whose response is mapped.
pub continue-pure_ok :
    {F : Foreign} {S A B : Type 0} (r : Result F A) (g : A → B) (s : S) (b : B)
    → (continue r (λ a. pure (g a)) s).0 ≡ ok b
    → (a : A) × (r ≡ ok a) × (g a ≡ b)
continue-pure_ok (ok a) g s b h = (a, refl, eq_of_ok h)
continue-pure_ok (err e) g s b h = cc

-- A successful run of a call with what follows it.
pub continue_ok :
    {F : Foreign} {S A B : Type 0} (r : Result F A) (f : A → Exec F S B) (s : S) (b : B)
    → (continue r f s).0 ≡ ok b
    → (a : A) × (r ≡ ok a) × ((f a s).0 ≡ ok b)
continue_ok (ok a) f s b h = (a, refl, h)
continue_ok (err e) f s b h = cc

-- A mapped response leaves the state alone.
pub continue-pure_state :
    {F : Foreign} {S A B : Type 0} (r : Result F A) (g : A → B) (s : S)
    → (continue r (λ a. pure (g a)) s).1 ≡ s
continue-pure_state (ok a) g s = refl
continue-pure_state (err e) g s = refl
