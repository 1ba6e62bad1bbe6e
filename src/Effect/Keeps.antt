-- ===== src/Effect/Keeps.antt =====
-- An action keeps a part of the state, whatever its outcome. One rule for each way to build one.
use hmgo.Prelude.{Bool, true, false, ◌≡◌, refl, ◌∙◌, if◌then◌else◌}
use hmgo.Effect.{Outcome, ok, fail, panic, stuck, Effect, continue, ◌>>=◌, guard}

pub record Keeps {S E A X : Type 0} (part : S → X) (m : Effect S E A) : Type 0 where
  pub at : (s : S) → part (m s).1 ≡ part s

Keeps-continue :
    {S E A B X : Type 0} (part : S → X) (o : Outcome E A) (r : S) (f : A → Effect S E B)
    → ((a : A) → Keeps part (f a))
    → part (continue o r f).1 ≡ part r
Keeps-continue part (ok a) r f k = (k a).at r
Keeps-continue part (fail e) r f k = refl
Keeps-continue part panic r f k = refl
Keeps-continue part stuck r f k = refl

module _ {S E A B X : Type 0} where
  pub Keeps-bind :
      (part : S → X) (m : Effect S E A) (f : A → Effect S E B)
      → Keeps part m
      → ((a : A) → Keeps part (f a))
      → Keeps part (m >>= f)
  Keeps-bind part m f km kf = record {
    at = λ s. Keeps-continue part (m s).0 (m s).1 f kf ∙ km.at s;
  }

module _ {S E A X : Type 0} where
  pub Keeps-if :
      (part : S → X) (b : Bool) (m n : Effect S E A)
      → Keeps part m
      → Keeps part n
      → Keeps part (if b then m else n)
  Keeps-if part true m n km kn = km
  Keeps-if part false m n km kn = kn

pub Keeps-guard :
    {S E X : Type 0} (part : S → X) (b : Bool) (e : E) → Keeps part (guard {S = S} b e)
Keeps-guard part true e = record { at = λ s. refl }
Keeps-guard part false e = record { at = λ s. refl }
