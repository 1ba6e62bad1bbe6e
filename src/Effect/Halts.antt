-- ===== src/Effect/Halts.antt =====
-- An action halts if it does not run out of fuel. One rule for each way to build an action.
use hmgo.Prelude.{Bool, true, false, ◌≡◌, refl, ap, if◌then◌else◌}
use hmgo.Effect.{Outcome, ok, fail, panic, stuck, Effect, continue, ◌>>=◌, guard}

abbrev pub Halts {ℓ} : {E A : Type ℓ} → Outcome E A → Type 0
Halts (ok a) = Unit {0}
Halts (fail e) = Unit {0}
Halts panic = Unit {0}
Halts stuck = ⊥

Halts-continue {ℓ} :
    {S E A B : Type ℓ} (o : Outcome E A) (r : S) (f : A → Effect S E B)
    → Halts o
    → ((a : A) → o ≡ ok a → Halts (f a r).0)
    → Halts (continue o r f).0
Halts-continue (ok a) r f h k = k a refl
Halts-continue (fail e) r f h k = tt
Halts-continue panic r f h k = tt
Halts-continue stuck r f h k = h

pub Halts-bind {ℓ} :
    {S E A B : Type ℓ} (m : Effect S E A) (f : A → Effect S E B) (s : S)
    → Halts (m s).0
    → ((a : A) (r : S) → m s ≡ (ok a, r) → Halts (f a r).0)
    → Halts ((m >>= f) s).0
Halts-bind m f s h k =
    Halts-continue (m s).0 (m s).1 f h (λ a e. k a (m s).1 (ap (λ o. (o, (m s).1)) e))

pub Halts-if {ℓ} :
    {S E A : Type ℓ} (b : Bool) (m n : Effect S E A) (s : S)
    → Halts (m s).0
    → Halts (n s).0
    → Halts ((if b then m else n) s).0
Halts-if true m n s hm hn = hm
Halts-if false m n s hm hn = hn

pub Halts-guard {ℓ} : {S E : Type ℓ} (b : Bool) (e : E) (s : S) → Halts (guard b e s).0
Halts-guard true e s = tt
Halts-guard false e s = tt
