-- ===== src/Effect/Settles.antt =====
-- An action that ends in every state and lets a size of the state not grow. One rule for each way to
-- build one.
use hmgo.Prelude.{ℕ, ◌≤◌, ◌≡◌, refl, arith, Bool, true, false, if◌then◌else◌}
use hmgo.Effect.{Outcome, ok, fail, panic, stuck, Effect, continue, ◌>>=◌, ◌>>◌, guard, modify}
use hmgo.Effect.Halts.{Halts}

pub record Settles {S E A : Type 0} (size : S → ℕ) (m : Effect S E A) : Type 0 where
  pub halts : (s : S) → Halts (m s).0
  pub falls : (s : S) → size (m s).1 ≤ size s

-- An action that returns at once and changes nothing.
pub Settles-lift :
    {S E A : Type 0} (size : S → ℕ) (o : Outcome E A) → Halts o → Settles {S = S} size (λ s. (o, s))
Settles-lift size o h = record { halts = λ s. h; falls = λ s. omega arith }

pub Settles-modify :
    {S E : Type 0} (size : S → ℕ) (f : S → S)
    → ((s : S) → size (f s) ≡ size s)
    → Settles {E = E} size (modify f)
Settles-modify size f e = record { halts = λ s. tt; falls = λ s. omega (arith, e s) }

Settles-continue :
    {S E A B : Type 0} (size : S → ℕ) (o : Outcome E A) (r : S) (f : A → Effect S E B)
    → Halts o
    → ((a : A) → o ≡ ok a → Halts (f a r).0 × (size (f a r).1 ≤ size r))
    → Halts (continue o r f).0 × (size (continue o r f).1 ≤ size r)
Settles-continue size (ok a) r f h k = k a refl
Settles-continue size (fail e) r f h k = (tt, omega arith)
Settles-continue size panic r f h k = (tt, omega arith)
Settles-continue size stuck r f h k = (h, omega arith)

module _ {S E A B : Type 0} where
  pub Settles-bind :
      (size : S → ℕ) (m : Effect S E A) (f : A → Effect S E B)
      → Settles size m
      → ((a : A) → Settles size (f a))
      → Settles size (m >>= f)
  Settles-bind size m f km kf = record {
    halts = λ s.
        (Settles-continue size (m s).0 (m s).1 f (km.halts s)
          (λ a e. ((kf a).halts (m s).1, (kf a).falls (m s).1))).0;
    falls = λ s. omega (
      arith,
      (Settles-continue size (m s).0 (m s).1 f (km.halts s)
          (λ a e. ((kf a).halts (m s).1, (kf a).falls (m s).1))).1,
      km.falls s,
    );
  }

module _ {S E B : Type 0} where
  pub Settles-then :
      (size : S → ℕ) (m : Effect S E (Unit {0})) (n : Effect S E B)
      → Settles size m
      → Settles size n
      → Settles size (m >> n)
  Settles-then size m n km kn = Settles-bind size m (λ _. n) km (λ _. kn)

module _ {S E A : Type 0} where
  pub Settles-if :
      (size : S → ℕ) (b : Bool) (m n : Effect S E A)
      → Settles size m
      → Settles size n
      → Settles size (if b then m else n)
  Settles-if size true m n km kn = km
  Settles-if size false m n km kn = kn

pub Settles-guard :
    {S E : Type 0} (size : S → ℕ) (b : Bool) (e : E) → Settles size (guard {S = S} b e)
Settles-guard size true e = record { halts = λ s. tt; falls = λ s. omega arith }
Settles-guard size false e = record { halts = λ s. tt; falls = λ s. omega arith }

-- The two halves at one state, to build an action that looks at its state.
module _ {S E A : Type 0} (size : S → ℕ) where
  abbrev pub Ends : Outcome E A × S → S → Type 0
  Ends o s = Halts o.0 × (size o.1 ≤ size s)

  pub if-Ends :
      (b : Bool) (o r : Outcome E A × S) (s : S) → Ends o s → Ends r s → Ends (if b then o else r) s
  if-Ends true o r s ho hr = ho
  if-Ends false o r s ho hr = hr

  pub Settles-by : (m : Effect S E A) → ((s : S) → Ends (m s) s) → Settles size m
  Settles-by m k = record { halts = λ s. (k s).0; falls = λ s. (k s).1 }

  pub ends : {m : Effect S E A} → Settles size m → (s : S) → Ends (m s) s
  ends h s = (h.halts s, h.falls s)
