-- ===== src/Effect.antt =====
-- Methods that change an object and may fail: Go's (value, error) results, run-time panics, and
-- loops on fuel. What was done before a failure stays done, so the state comes back beside it.
pub mod Halts
pub mod Keeps
pub mod Falls
pub mod Settles
use hmgo.Prelude.{Bool, true, false, ◌≡◌, refl, ap}

-- `fail` returns an error, `panic` is an index out of range, which ends the program, and `stuck` is
-- no Go outcome: a loop of the model ran out of fuel.
pub data Outcome {ℓ} (E A : Type ℓ) : Type ℓ where
  ok : A → Outcome E A
  fail : E → Outcome E A
  panic : Outcome E A
  stuck : Outcome E A

abbrev pub Effect {ℓ} : Type ℓ → Type ℓ → Type ℓ → Type ℓ
Effect S E A = S → Outcome E A × S

module _ {ℓ} {S E A : Type ℓ} where
  abbrev pub pure : A → Effect S E A
  pure a s = (ok a, s)

  abbrev pub throw : E → Effect S E A
  throw e s = (fail e, s)

  abbrev pub crash : Effect S E A
  crash s = (panic, s)

  abbrev pub out_of_fuel : Effect S E A
  out_of_fuel s = (stuck, s)

  abbrev pub gets : (S → A) → Effect S E A
  gets f s = (ok (f s), s)

  abbrev pub lift : Outcome E A → Effect S E A
  lift r s = (r, s)

module _ {ℓ} {S E A B : Type ℓ} where
  abbrev pub continue : Outcome E A → S → (A → Effect S E B) → Outcome E B × S
  continue (ok a) s f = f a s
  continue (fail e) s f = (fail e, s)
  continue panic s f = (panic, s)
  continue stuck s f = (stuck, s)

  infixl 5 ◌>>=◌ ◌>>◌
  abbrev pub ◌>>=◌ : Effect S E A → (A → Effect S E B) → Effect S E B
  ◌>>=◌ m f s = continue (m s).0 (m s).1 f

  abbrev pub ◌>>◌ : Effect S E A → Effect S E B → Effect S E B
  m >> n = m >>= λ _. n

module _ {ℓ} {S E : Type ℓ} where
  abbrev pub modify : (S → S) → Effect S E (Unit {ℓ})
  modify f s = (ok tt, f s)

  -- Goes on if the test holds, and else returns the error.
  abbrev pub guard : Bool → E → Effect S E (Unit {ℓ})
  guard true e s = (ok tt, s)
  guard false e s = (fail e, s)

continue-eq-ok {ℓ} :
    {S E A B : Type ℓ} (o : Outcome E A) (r : S) (f : A → Effect S E B) {b : B} {t : S}
    → continue o r f ≡ (ok b, t)
    → (a : A) × (o ≡ ok a) × (f a r ≡ (ok b, t))
continue-eq-ok (ok a) r f h = (a, refl, h)
continue-eq-ok (fail e) r f h = cc
continue-eq-ok panic r f h = cc
continue-eq-ok stuck r f h = cc

-- Inversion of a block that returned.
pub bind-eq-ok {ℓ} :
    {S E A B : Type ℓ} (m : Effect S E A) (f : A → Effect S E B) (s : S) {b : B} {t : S}
    → (m >>= f) s ≡ (ok b, t)
    → (a : A) × (r : S) × (m s ≡ (ok a, r)) × (f a r ≡ (ok b, t))
bind-eq-ok m f s h =
    let (a, e, g) = continue-eq-ok (m s).0 (m s).1 f h in (a, (m s).1, ap (λ o. (o, (m s).1)) e, g)
