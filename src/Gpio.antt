-- ===== src/Gpio.antt =====
-- internal/gpio/reset.go: ResetUARTGW as the system calls that it makes. Which of them fail is up to
-- the kernel.
pub mod Resetting
use hmgo.Prelude.{ℕ, List, [], ◌∷◌, ◌++◌, Option, none, some, Bytes, codes}
use hmgo.Effect.{ok, fail, Effect, modify, ◌>>=◌, ◌>>◌}

-- `gpiohandlerequest`, with the entries of its arrays that are not zero.
pub record HandleRequest : Type 0 where
  pub line_offsets : List ℕ
  pub flags : ℕ
  pub default_values : List ℕ
  pub consumer_label : Bytes
  pub lines : ℕ

abbrev pub handlereq : HandleRequest
handlereq = record {
  line_offsets = 18 ∷ [];
  flags = 0x2;
  default_values = 1 ∷ [];
  consumer_label = codes "hmgo";
  lines = 1;
}

-- The calls whose errors are looked at, of the chip, of the handle that it returned, and of the
-- serial port; and the others. Sleeping is in milliseconds.
pub data Request : Type 0 where
  open_chip : Request
  get_linehandle : HandleRequest → Request
  set_line_values : List ℕ → Request
  flush_input : Request

pub data Call : Type 0 where
  request : Request → Call
  sleep : ℕ → Call
  close_chip : Call

-- The errors, each with the number of the system.
pub data GpioError : Type 0 where
  open_failed : ℕ → GpioError
  linehandle_failed : ℕ → GpioError
  line_values_failed : ℕ → GpioError
  flush_failed : ℕ → GpioError

-- The error that is returned for a request.
unfoldable pub failure : Request → ℕ → GpioError
failure open_chip errno = open_failed errno
failure (get_linehandle r) errno = linehandle_failed errno
failure (set_line_values vs) errno = line_values_failed errno
failure flush_input errno = flush_failed errno

-- What the kernel will answer, `none` for success, and the calls that were made.
pub record Kernel : Type 0 where
  pub results : List (Option ℕ)
  pub calls : List Call

abbrev pub log : Call → Kernel → Kernel
log c k = record k { calls = k.calls ++ c ∷ [] }

unfoldable pub perform : Request → List (Option ℕ) → Effect Kernel GpioError (Unit {0})
unfolding failure
perform r [] k = (ok tt, log (request r) k)
perform r (none ∷ later) k = (ok tt, log (request r) (record k { results = later }))
perform r (some errno ∷ later) k =
    (fail (failure r errno), log (request r) (record k { results = later }))

unfoldable pub call : Request → Effect Kernel GpioError (Unit {0})
unfolding perform
call r k = perform r k.results k

unfoldable pub pause : ℕ → Effect Kernel GpioError (Unit {0})
pause ms k = (ok tt, log (sleep ms) k)

-- `defer f.Close()`.
unfoldable pub closing : Effect Kernel GpioError (Unit {0}) → Effect Kernel GpioError (Unit {0})
closing m k = ((m k).0, log close_chip (m k).1)

unfoldable pub toggle : Effect Kernel GpioError (Unit {0})
unfolding call pause
toggle = do
  call (get_linehandle handlereq)
  call (set_line_values (0 ∷ []))
  pause 150
  call flush_input
  call (set_line_values (1 ∷ []))

-- `ResetUARTGW`.
unfoldable pub reset_uartgw : Effect Kernel GpioError (Unit {0})
unfolding closing toggle
reset_uartgw = call open_chip >> closing toggle
