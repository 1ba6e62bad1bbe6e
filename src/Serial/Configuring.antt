-- ===== src/Serial/Configuring.antt =====
-- What Configure makes of the settings of a port.
use hmgo.Prelude.{ℕ, zero, suc, ◌<◌, ◌≡◌, refl, ap, ◌∙◌, arith, List, [], ◌∷◌, Option, none, some}
use hmgo.Prelude.{length, get_elem?, set, bit_or}
use hmgo.Effect.{Outcome, ok, fail}
use hmgo.Serial.{Constants, Termios, Line, tcgets, tcsets, raw, configure}

get_elem?-set {ℓ} :
    {A : Type ℓ} (xs : List A) (i : ℕ) (x : A) → i < length xs → get_elem? (set xs i x) i ≡ some x
get_elem?-set [] i x h = absurd (omega arith)
get_elem?-set (y ∷ ys) zero x h = refl
get_elem?-set (y ∷ ys) (suc i) x h = get_elem?-set ys i x (omega arith)

get_elem?-set_else {ℓ} :
    {A : Type ℓ} (xs : List A) (i j : ℕ) (x : A)
    → ¬ (j ≡ i)
    → get_elem? (set xs i x) j ≡ get_elem? xs j
get_elem?-set_else [] i j x h = refl
get_elem?-set_else (y ∷ ys) zero zero x h = absurd (h refl)
get_elem?-set_else (y ∷ ys) zero (suc j) x h = refl
get_elem?-set_else (y ∷ ys) (suc i) zero x h = refl
get_elem?-set_else (y ∷ ys) (suc i) (suc j) x h = get_elem?-set_else ys i j x (λ e. h (ap suc e))

length-set {ℓ} : {A : Type ℓ} (xs : List A) (i : ℕ) (x : A) → length (set xs i x) ≡ length xs
length-set [] i x = refl
length-set (y ∷ ys) zero x = refl
length-set (y ∷ ys) (suc i) x = ap suc (length-set ys i x)

-- 115200 baud, eight bits, no processing, and a read waits for a byte, with no time limit. The line
-- discipline and the other control characters are as before.
pub record IsRaw (c : Constants) (old new : Termios) : Type 0 where
  pub iflag_is : new.iflag ≡ 0
  pub oflag_is : new.oflag ≡ 0
  pub lflag_is : new.lflag ≡ 0
  pub ispeed_is : new.ispeed ≡ c.b115200
  pub ospeed_is : new.ospeed ≡ c.b115200
  pub cflag_is : new.cflag ≡ bit_or (bit_or c.b115200 c.cs8) c.cread
  pub vmin_is : get_elem? new.cc c.vmin ≡ some 1
  pub vtime_is : get_elem? new.cc c.vtime ≡ some 0
  pub line_is : new.line ≡ old.line
  pub others_are :
      (i : ℕ) → ¬ (i ≡ c.vmin) → ¬ (i ≡ c.vtime) → get_elem? new.cc i ≡ get_elem? old.cc i

-- The places of the two control characters are different ones of the array.
pub record IsSound (c : Constants) (t : Termios) : Type 0 where
  pub vmin_inside : c.vmin < length t.cc
  pub vtime_inside : c.vtime < length t.cc
  pub apart : ¬ (c.vmin ≡ c.vtime)

raw-IsRaw : (c : Constants) (t : Termios) → IsSound c t → IsRaw c t (raw c t)
unfolding raw
raw-IsRaw c t h = record {
  iflag_is = refl;
  oflag_is = refl;
  lflag_is = refl;
  ispeed_is = refl;
  ospeed_is = refl;
  cflag_is = refl;
  vmin_is =
      get_elem?-set_else (set t.cc c.vmin 1) c.vtime c.vmin 0 h.apart
      ∙ get_elem?-set t.cc c.vmin 1 h.vmin_inside;
  vtime_is =
      get_elem?-set (set t.cc c.vmin 1) c.vtime 0
        (let l = length-set t.cc c.vmin 1 in let i = h.vtime_inside in omega arith);
  line_is = refl;
  others_are = λ i a b.
      get_elem?-set_else (set t.cc c.vmin 1) c.vtime i 0 b ∙ get_elem?-set_else t.cc c.vmin i 1 a;
}

-- Configure asks for the settings and sets them, and if both calls succeed the port is raw; if one of
-- them fails, it returns that error, and the settings are as before.
pub record Configured (c : Constants) (l : Line) (o : Outcome ℕ (Unit {0}) × Line) : Type 0 where
  pub gets_is : o.1.gets ≡ l.gets
  pub sets_is : o.1.sets ≡ l.sets
  pub if_both : l.gets ≡ none → l.sets ≡ none → (o.0 ≡ ok tt) × IsRaw c l.termios o.1.termios
  pub if_gets_fails :
      (errno : ℕ) → l.gets ≡ some errno → (o.0 ≡ fail errno) × (o.1.termios ≡ l.termios)
  pub if_sets_fails :
      (errno : ℕ)
      → l.gets ≡ none
      → l.sets ≡ some errno
      → (o.0 ≡ fail errno) × (o.1.termios ≡ l.termios)

pub configure-Configured :
    (c : Constants) (t : Termios) (g s : Option ℕ)
    → IsSound c t
    → Configured c
        (record { termios = t; gets = g; sets = s })
        (configure c (record { termios = t; gets = g; sets = s }))
unfolding configure tcgets tcsets
configure-Configured c t none none h = record {
  gets_is = refl;
  sets_is = refl;
  if_both = λ a b. (refl, raw-IsRaw c t h);
  if_gets_fails = λ e a. cc;
  if_sets_fails = λ e a b. cc;
}
configure-Configured c t none (some n) h = record {
  gets_is = refl;
  sets_is = refl;
  if_both = λ a b. cc;
  if_gets_fails = λ e a. cc;
  if_sets_fails = λ e a b. (let x : n ≡ e = cc in ap fail x, refl);
}
configure-Configured c t (some n) s h = record {
  gets_is = refl;
  sets_is = refl;
  if_both = λ a b. cc;
  if_gets_fails = λ e a. (let x : n ≡ e = cc in ap fail x, refl);
  if_sets_fails = λ e a b. cc;
}
