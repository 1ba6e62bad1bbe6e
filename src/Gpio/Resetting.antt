-- ===== src/Gpio/Resetting.antt =====
-- Which calls ResetUARTGW makes, whichever of them fail.
use hmgo.Prelude.{ℕ, zero, suc, ◌≡◌, refl, ap, ◌∙◌, List, [], ◌∷◌, ◌++◌, Option, none, some}
use hmgo.Prelude.{append_assoc, take, get_elem?, ◌⊎◌, inl, inr}
use hmgo.Effect.{Outcome, ok, fail, Effect, ◌>>◌}
use hmgo.Gpio.{
  Request, open_chip, get_linehandle, set_line_values, flush_input, Call, request, sleep,
  close_chip, handlereq, GpioError, failure, Kernel, log, perform, call, pause, closing, toggle,
  reset_uartgw,
}

-- Either all calls were made and succeeded, or they were made up to one that failed.
abbrev Ran : List Call → Kernel → Outcome GpioError (Unit {0}) × Kernel → Type 0
Ran cs k o =
    ((o.0 ≡ ok tt) × (o.1.calls ≡ k.calls ++ cs))
    ⊎ ((n : ℕ) × (r : Request) × (errno : ℕ) × (get_elem? cs n ≡ some (request r))
        × (o.0 ≡ fail (failure r errno))
        × (o.1.calls ≡ k.calls ++ take (suc n) cs))

Ran-later :
    (c : Call) (cs : List Call) (k t : Kernel) (o : Outcome GpioError (Unit {0}) × Kernel)
    → t.calls ≡ k.calls ++ c ∷ []
    → Ran cs t o
    → Ran (c ∷ cs) k o
Ran-later c cs k t o e (inl (s, f)) =
    inl (s, f ∙ ap (λ z. z ++ cs) e ∙ append_assoc k.calls (c ∷ []) cs)
Ran-later c cs k t o e (inr (n, d, errno, g, s, f)) = inr (
  suc n,
  d,
  errno,
  g,
  s,
  f ∙ ap (λ z. z ++ take (suc n) cs) e ∙ append_assoc k.calls (c ∷ []) (take (suc n) cs),
)

Ran-perform :
    (r : Request) (cs : List Call) (m : Effect Kernel GpioError (Unit {0}))
    (results : List (Option ℕ)) (k : Kernel)
    → ((t : Kernel) → Ran cs t (m t))
    → Ran (request r ∷ cs) k ((perform r results >> m) k)
unfolding perform
Ran-perform r cs m [] k h =
    let t = log (request r) k in Ran-later (request r) cs k t (m t) refl (h t)
Ran-perform r cs m (none ∷ later) k h =
    let t = log (request r) (record k { results = later }) in
    Ran-later (request r) cs k t (m t) refl (h t)
Ran-perform r cs m (some errno ∷ later) k h = inr (0, r, errno, refl, refl, refl)

Ran-call :
    (r : Request) (cs : List Call) (m : Effect Kernel GpioError (Unit {0})) (k : Kernel)
    → ((t : Kernel) → Ran cs t (m t))
    → Ran (request r ∷ cs) k ((call r >> m) k)
unfolding call
Ran-call r cs m k h = Ran-perform r cs m k.results k h

Ran-last :
    (r : Request) (results : List (Option ℕ)) (k : Kernel)
    → Ran (request r ∷ []) k (perform r results k)
unfolding perform
Ran-last r [] k = inl (refl, refl)
Ran-last r (none ∷ later) k = inl (refl, refl)
Ran-last r (some errno ∷ later) k = inr (0, r, errno, refl, refl, refl)

-- Held low for 150 milliseconds, while the input is flushed, and then high.
abbrev pub toggling : List Call
toggling =
    request (get_linehandle handlereq)
    ∷ request (set_line_values (0 ∷ []))
    ∷ sleep 150
    ∷ request flush_input
    ∷ request (set_line_values (1 ∷ []))
    ∷ []

toggle-Ran : (k : Kernel) → Ran toggling k (toggle k)
unfolding toggle pause call
toggle-Ran k = Ran-call (get_linehandle handlereq) _ _ k λ a.
    Ran-call (set_line_values (0 ∷ [])) _ _ a λ b.
      let t = log (sleep 150) b in
      Ran-later (sleep 150) _ b t ((call flush_input >> call (set_line_values (1 ∷ []))) t) refl
        (Ran-call flush_input _ _ t λ c. Ran-last (set_line_values (1 ∷ [])) c.results c)

-- The chip is closed if it was opened.
abbrev pub closed : ℕ → List Call
closed zero = []
closed (suc n) = close_chip ∷ []

-- The same around it: the chip is opened before the calls, and closed behind them.
abbrev Reset : List Call → Kernel → Outcome GpioError (Unit {0}) × Kernel → Type 0
Reset cs k o =
    ((o.0 ≡ ok tt) × (o.1.calls ≡ k.calls ++ (request open_chip ∷ (cs ++ close_chip ∷ []))))
    ⊎ ((n : ℕ) × (r : Request) × (errno : ℕ) × (get_elem? (request open_chip ∷ cs) n
          ≡ some (request r))
        × (o.0 ≡ fail (failure r errno))
        × (o.1.calls ≡ k.calls ++ (take (suc n) (request open_chip ∷ cs) ++ closed n)))

Reset-opened :
    (cs : List Call) (k t o : Kernel)
    → t.calls ≡ k.calls ++ request open_chip ∷ []
    → o.calls ≡ t.calls ++ cs
    → (log close_chip o).calls ≡ k.calls ++ (request open_chip ∷ (cs ++ close_chip ∷ []))
Reset-opened cs k t o e f =
    ap (λ z. z ++ close_chip ∷ []) (f ∙ ap (λ z. z ++ cs) e)
    ∙ append_assoc (k.calls ++ request open_chip ∷ []) cs (close_chip ∷ [])
    ∙ append_assoc k.calls (request open_chip ∷ []) (cs ++ close_chip ∷ [])

Reset-closing :
    (cs : List Call) (k t : Kernel) (m : Effect Kernel GpioError (Unit {0}))
    → t.calls ≡ k.calls ++ request open_chip ∷ []
    → Ran cs t (m t)
    → Reset cs k (closing m t)
unfolding closing
Reset-closing cs k t m e (inl (s, f)) = inl (s, Reset-opened cs k t (m t).1 e f)
Reset-closing cs k t m e (inr (n, r, errno, g, s, f)) =
    inr (suc n, r, errno, g, s, Reset-opened (take (suc n) cs) k t (m t).1 e f)

Reset-open :
    (results : List (Option ℕ)) (k : Kernel)
    → Reset toggling k ((perform open_chip results >> closing toggle) k)
unfolding perform
Reset-open [] k =
    let t = log (request open_chip) k in Reset-closing toggling k t toggle refl (toggle-Ran t)
Reset-open (none ∷ later) k =
    let t = log (request open_chip) (record k { results = later }) in
    Reset-closing toggling k t toggle refl (toggle-Ran t)
Reset-open (some errno ∷ later) k = inr (0, open_chip, errno, refl, refl, refl)

-- ResetUARTGW opens the chip, asks for the line, holds it low for 150 milliseconds, flushes the
-- input and sets the line high, and closes the chip; it returns no error then. If a call fails,
-- whichever it is, the calls up to it were made and no more, but for closing the chip if it was
-- opened, and the error is that of the call.
pub reset_uartgw_cases :
    (k : Kernel)
    → (((reset_uartgw k).0 ≡ ok tt)
        × ((reset_uartgw k).1.calls
            ≡ k.calls ++ (request open_chip ∷ (toggling ++ close_chip ∷ []))))
      ⊎ ((n : ℕ) × (r : Request) × (errno : ℕ) × (get_elem? (request open_chip ∷ toggling) n
            ≡ some (request r))
          × ((reset_uartgw k).0 ≡ fail (failure r errno))
          × ((reset_uartgw k).1.calls
              ≡ k.calls ++ (take (suc n) (request open_chip ∷ toggling) ++ closed n)))
unfolding reset_uartgw call
reset_uartgw_cases k = Reset-open k.results k
