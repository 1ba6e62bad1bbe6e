-- ===== src/Serial.antt =====
-- internal/serial: Configure, as two calls of ioctl. The kernel says which settings the port has, and
-- which of the calls fail.
pub mod Configuring
use hmgo.Prelude.{ℕ, List, Option, none, some, set, bit_or}
use hmgo.Effect.{ok, fail, Effect, ◌>>=◌}

-- The constants of package syscall.
pub record Constants : Type 0 where
  pub b115200 : ℕ
  pub cs8 : ℕ
  pub cread : ℕ
  pub vmin : ℕ
  pub vtime : ℕ

-- `syscall.Termios`.
pub record Termios : Type 0 where
  pub iflag : ℕ
  pub oflag : ℕ
  pub cflag : ℕ
  pub lflag : ℕ
  pub line : ℕ
  pub cc : List ℕ
  pub ispeed : ℕ
  pub ospeed : ℕ

-- A serial port: its settings, and what the two calls will return, `none` for success.
pub record Line : Type 0 where
  pub termios : Termios
  pub gets : Option ℕ
  pub sets : Option ℕ

-- The ioctl calls TCGETS and TCSETS.
unfoldable pub tcgets : Effect Line ℕ Termios
tcgets l = elim l.gets [ none ↦ (ok l.termios, l) | some errno ↦ (fail errno, l) ]

unfoldable pub tcsets : Termios → Effect Line ℕ (Unit {0})
tcsets t l = elim l.sets [ none ↦ (ok tt, record l { termios = t }) | some errno ↦ (fail errno, l) ]

module _ (c : Constants) where
  -- The assignments between the calls.
  unfoldable pub raw : Termios → Termios
  raw t = record t {
    iflag = 0;
    oflag = 0;
    lflag = 0;
    ispeed = c.b115200;
    ospeed = c.b115200;
    cflag = bit_or (bit_or c.b115200 c.cs8) c.cread;
    cc = set (set t.cc c.vmin 1) c.vtime 0;
  }

  -- `Configure`.
  unfoldable pub configure : Effect Line ℕ (Unit {0})
  unfolding tcgets tcsets raw
  configure = tcgets >>= λ t. tcsets (raw t)
