-- ===== src/Uart.antt =====
-- The serial port behind `io.ReadWriter`, and the helpers of Go's library that read from it.
-- The device is the environment: what it will send, in which pieces a read gets to see it, and
-- which writes fail are data, over which the theorems quantify.
pub mod Reads
use hmgo.Prelude.{ℕ, zero, suc, ◌+◌, ◌-◌, min, max, Option, none, some, List, [], ◌∷◌, ◌++◌}
use hmgo.Prelude.{Bytes, length, take, drop}
use hmgo.Effect.{Effect, Outcome, ok, fail, pure, out_of_fuel, ◌>>=◌}
use hmgo.Fault.{Error, read_waits, write_failed}

-- `pending` is what the device still sends. The next reads see at most `chunks` bytes each, and
-- at least one (serial.Configure sets VMIN to 1); past the end of the list a read is filled.
-- `sent` is what was written. A write fails after k bytes if the head of `faults` is `some k`.
pub record Port : Type 0 where
  pub pending : Bytes
  pub chunks : List ℕ
  pub sent : Bytes
  pub faults : List (Option ℕ)

abbrev pub chunk : ℕ → List ℕ → ℕ
chunk n [] = n
chunk n (c ∷ cs) = min n (max 1 c)

abbrev pub rest_of {ℓ} : {A : Type ℓ} → List A → List A
rest_of [] = []
rest_of (x ∷ xs) = xs

-- The read with these bytes still to come: without one it waits.
unfoldable pub serve : ℕ → Port → Bytes → Outcome Error Bytes × Port
serve n p [] = (fail read_waits, p)
serve n p (b ∷ bs) =
    let k = chunk n p.chunks in
    (ok (take k (b ∷ bs)), record p { pending = drop k (b ∷ bs); chunks = rest_of p.chunks })

-- `uart.Read(p)` with `len(p)` = n. At the end of the input the read of the program waits for ever; a
-- run of the model stops there with `read_waits`, which nothing in the program handles.
unfoldable pub uart_read : ℕ → Effect Port Error Bytes
unfolding serve
uart_read n p = serve n p p.pending

unfoldable pub deliver : Bytes → Port → List (Option ℕ) → Outcome Error (Unit {0}) × Port
deliver bs p (some k ∷ fs) =
    (fail write_failed, record p { sent = p.sent ++ take k bs; faults = fs })
deliver bs p (none ∷ fs) = (ok tt, record p { sent = p.sent ++ bs; faults = fs })
deliver bs p [] = (ok tt, record p { sent = p.sent ++ bs })

-- `uart.Write(p)`.
unfoldable pub uart_write : Bytes → Effect Port Error (Unit {0})
unfolding deliver
uart_write bs p = deliver bs p p.faults

-- `io.ReadFull` and `io.CopyN`: read again until n bytes are there. The first number is fuel, and
-- every read that succeeds gets a byte, so n is enough.
unfoldable pub read_loop : ℕ → (ℕ → Effect Port Error Bytes) → ℕ → Effect Port Error Bytes
read_loop fuel read zero = pure []
read_loop zero read (suc n) = out_of_fuel
read_loop (suc fuel) read (suc n) = do
  got ← read (suc n)
  more ← read_loop fuel read (suc n - length got)
  pure (got ++ more)

unfoldable pub read_full : (ℕ → Effect Port Error Bytes) → ℕ → Effect Port Error Bytes
unfolding read_loop
read_full read n = read_loop n read n
