-- ===== src/Effect/Falls.antt =====
-- A size of the state does not grow under an action, whatever its outcome. One rule for each way to
-- build one.
use hmgo.Prelude.{ℕ, ◌≤◌, arith, Bool, true, false, if◌then◌else◌}
use hmgo.Effect.{Outcome, ok, fail, panic, stuck, Effect, continue, ◌>>=◌, guard}

pub record Falls {S E A : Type 0} (size : S → ℕ) (m : Effect S E A) : Type 0 where
  pub at : (s : S) → size (m s).1 ≤ size s

Falls-continue :
    {S E A B : Type 0} (size : S → ℕ) (o : Outcome E A) (r : S) (f : A → Effect S E B)
    → ((a : A) → Falls size (f a))
    → size (continue o r f).1 ≤ size r
Falls-continue size (ok a) r f k = (k a).at r
Falls-continue size (fail e) r f k = omega arith
Falls-continue size panic r f k = omega arith
Falls-continue size stuck r f k = omega arith

module _ {S E A B : Type 0} where
  pub Falls-bind :
      (size : S → ℕ) (m : Effect S E A) (f : A → Effect S E B)
      → Falls size m
      → ((a : A) → Falls size (f a))
      → Falls size (m >>= f)
  Falls-bind size m f km kf = record {
    at = λ s. omega (arith, Falls-continue size (m s).0 (m s).1 f kf, km.at s);
  }

module _ {S E A : Type 0} where
  pub Falls-if :
      (size : S → ℕ) (b : Bool) (m n : Effect S E A)
      → Falls size m
      → Falls size n
      → Falls size (if b then m else n)
  Falls-if size true m n km kn = km
  Falls-if size false m n km kn = kn

pub Falls-guard : {S E : Type 0} (size : S → ℕ) (b : Bool) (e : E) → Falls size (guard {S = S} b e)
Falls-guard size true e = record { at = λ s. omega arith }
Falls-guard size false e = record { at = λ s. omega arith }
