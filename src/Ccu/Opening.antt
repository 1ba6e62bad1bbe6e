-- ===== src/Ccu/Opening.antt =====
-- ccu.go: how main opens the serial port, sets it up and resets the gateway before NewUARTGW.
pub mod Prepared
use hmgo.Prelude.{ℕ, Bool, true, false, Option, none, some}
use hmgo.Effect.{Outcome, ok, fail, panic, stuck, Effect, ◌>>=◌, ◌>>◌}
use hmgo.Gpio.{GpioError, Kernel, reset_uartgw}
use hmgo.Serial.{Constants, Line, configure}

-- What ends the program.
pub data Fatal : Type 0 where
  open_failed configure_failed nonblock_failed : ℕ → Fatal
  reset_failed : GpioError → Fatal

-- The results of OpenFile and SetNonblock, `none` for success, the port and the chip, and whether
-- calls on the port block.
pub record Machine : Type 0 where
  pub opening : Option ℕ
  pub unblocking : Option ℕ
  pub line : Line
  pub kernel : Kernel
  pub blocks : Bool

-- `if err := …; err != nil { log.Fatal(err) }`.
abbrev pub fatal : {E : Type 0} → (E → Fatal) → Outcome E (Unit {0}) → Outcome Fatal (Unit {0})
fatal wrap (ok x) = ok x
fatal wrap (fail e) = fail (wrap e)
fatal wrap panic = panic
fatal wrap stuck = stuck

-- With `unix.O_NONBLOCK`.
unfoldable pub open_port : Effect Machine Fatal (Unit {0})
open_port m = elim m.opening [
  | none ↦ (ok tt, record m { blocks = false })
  | some errno ↦ (fail (open_failed errno), m)
]

unfoldable pub configure_port : Constants → Effect Machine Fatal (Unit {0})
configure_port c m =
    let o = configure c m.line in (fatal configure_failed o.0, record m { line = o.1 })

unfoldable pub reset_port : Effect Machine Fatal (Unit {0})
reset_port m = let o = reset_uartgw m.kernel in (fatal reset_failed o.0, record m { kernel = o.1 })

-- `SetNonblock(fd, false)`.
unfoldable pub set_blocking : Effect Machine Fatal (Unit {0})
set_blocking m = elim m.unblocking [
  | none ↦ (ok tt, record m { blocks = true })
  | some errno ↦ (fail (nonblock_failed errno), m)
]

-- main up to NewUARTGW.
unfoldable pub prepare : Constants → Effect Machine Fatal (Unit {0})
unfolding open_port configure_port reset_port set_blocking
prepare c = do open_port; configure_port c; reset_port; set_blocking
