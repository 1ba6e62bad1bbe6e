-- ===== src/Ccu/Opening/Prepared.antt =====
-- The ways that main can go before NewUARTGW.
use hmgo.Prelude.{ℕ, ◌≡◌, refl, sym, ap, ◌∙◌, [], ◌∷◌, ◌++◌, true, false}
use hmgo.Prelude.{Option, none, some, inl, inr, subst}
use hmgo.Effect.{Outcome, ok, fail, continue, ◌>>◌}
use hmgo.Gpio.{GpioError, request, open_chip, close_chip, reset_uartgw}
use hmgo.Gpio.Resetting.{toggling, reset_uartgw_cases}
use hmgo.Serial.{Constants, configure}
use hmgo.Serial.Configuring.{IsSound, IsRaw, Configured, configure-Configured}
use hmgo.Ccu.Opening.{
  Fatal, open_failed, configure_failed, nonblock_failed, reset_failed, Machine, fatal, open_port,
  configure_port, reset_port, set_blocking, prepare,
}

-- What main has done when it has ended in one of its four ways, or when it goes on.
pub data Prepared (c : Constants) (m : Machine) : Outcome Fatal (Unit {0}) × Machine → Type 0 where
  not_opened : (errno : ℕ) → m.opening ≡ some errno → Prepared c m (fail (open_failed errno), m)
  not_configured :
      {n : Machine} (errno : ℕ)
      → n.line.termios ≡ m.line.termios
      → n.kernel ≡ m.kernel
      → Prepared c m (fail (configure_failed errno), n)
  not_reset :
      {n : Machine} (e : GpioError)
      → IsRaw c m.line.termios n.line.termios
      → (reset_uartgw m.kernel).0 ≡ fail e
      → n.blocks ≡ false
      → Prepared c m (fail (reset_failed e), n)
  not_blocking :
      {n : Machine} (errno : ℕ)
      → IsRaw c m.line.termios n.line.termios
      → m.unblocking ≡ some errno
      → n.blocks ≡ false
      → Prepared c m (fail (nonblock_failed errno), n)
  prepared :
      {n : Machine}
      → IsRaw c m.line.termios n.line.termios
      → n.kernel.calls ≡ m.kernel.calls ++ (request open_chip ∷ (toggling ++ close_chip ∷ []))
      → n.blocks ≡ true
      → Prepared c m (ok tt, n)

module _ (c : Constants) (m : Machine) where
  -- Behind the reset, which has succeeded.
  unblocks :
      (n : Machine) (u : Option ℕ)
      → n.unblocking ≡ u
      → m.unblocking ≡ u
      → n.blocks ≡ false
      → IsRaw c m.line.termios n.line.termios
      → n.kernel.calls ≡ m.kernel.calls ++ (request open_chip ∷ (toggling ++ close_chip ∷ []))
      → Prepared c m (set_blocking n)
  unfolding set_blocking
  unblocks n none e f b r k = rw e (prepared r k refl)
  unblocks n (some errno) e f b r k = rw e (not_blocking errno r f b)

  -- Behind Configure, which has succeeded.
  resets :
      (n : Machine)
      → n.unblocking ≡ m.unblocking
      → n.kernel ≡ m.kernel
      → n.blocks ≡ false
      → IsRaw c m.line.termios n.line.termios
      → Prepared c m ((reset_port >> set_blocking) n)
  unfolding reset_port
  resets n u k b r = elim (reset_uartgw_cases n.kernel) [
    | inl (s, calls) ↦
        subst
          (λ o. Prepared c m (
            continue (fatal reset_failed o) (record n { kernel = (reset_uartgw n.kernel).1 })
              (λ _. set_blocking)))
          (sym s)
          (unblocks (record n { kernel = (reset_uartgw n.kernel).1 }) m.unblocking u refl b r
            (calls ∙ ap (λ z. z.calls ++ (request open_chip ∷ (toggling ++ close_chip ∷ []))) k))
    | inr (i, q, errno, at, s, calls) ↦
        subst
          (λ o. Prepared c m (
            continue (fatal reset_failed o) (record n { kernel = (reset_uartgw n.kernel).1 })
              (λ _. set_blocking)))
          (sym s) (not_reset _ r (ap (λ z. (reset_uartgw z).0) (sym k) ∙ s) b)
  ]

  -- The machine behind Configure, whose result is `o`.
  go_on : Outcome ℕ (Unit {0}) → Outcome Fatal (Unit {0}) × Machine
  go_on o =
      continue (fatal configure_failed o)
        (record m { line = (configure c m.line).1; blocks = false })
        (λ _. reset_port >> set_blocking)

  configures :
      (g s : Option ℕ)
      → m.line.gets ≡ g
      → m.line.sets ≡ s
      → Configured c m.line (configure c m.line)
      → Prepared c m (go_on (configure c m.line).0)
  unfolding go_on
  configures none none e f k =
      let (done, raw) = k.if_both e f in
      subst (λ o. Prepared c m (go_on o)) (sym done)
        (resets (record m { line = (configure c m.line).1; blocks = false }) refl refl refl raw)
  configures none (some errno) e f k =
      let (failed, same) = k.if_sets_fails errno e f in
      subst (λ o. Prepared c m (go_on o)) (sym failed) (not_configured errno same refl)
  configures (some errno) s e f k =
      let (failed, same) = k.if_gets_fails errno e in
      subst (λ o. Prepared c m (go_on o)) (sym failed) (not_configured errno same refl)

  first : Option ℕ → Outcome Fatal (Unit {0}) × Machine
  first none = (ok tt, record m { blocks = false })
  first (some errno) = (fail (open_failed errno), m)

  behind : Outcome Fatal (Unit {0}) × Machine → Outcome Fatal (Unit {0}) × Machine
  behind o = continue o.0 o.1 (λ _. configure_port c >> (reset_port >> set_blocking))

  opens :
      (o : Option ℕ) → m.opening ≡ o → IsSound c m.line.termios → Prepared c m (behind (first o))
  unfolding behind first configure_port go_on
  opens none e h =
      configures m.line.gets m.line.sets refl refl
        (configure-Configured c m.line.termios m.line.gets m.line.sets h)
  opens (some errno) e h = not_opened errno e

-- Before NewUARTGW, main either ends because the port cannot be opened; or because it cannot be
-- configured, with its settings and the gateway as they were; or because the reset fails, with the
-- error of ResetUARTGW; or because the port cannot be made blocking; or it has a port that is raw and
-- blocks, and the gateway was held low for 150 milliseconds and then high. The last three have the
-- port raw, and only the last has it blocking.
pub prepare_cases :
    (c : Constants) (m : Machine) → IsSound c m.line.termios → Prepared c m (prepare c m)
unfolding prepare open_port behind first
prepare_cases c m h = opens c m m.opening refl h
