-- ===== src/Uartgw/Escaping.antt =====
-- internal/uartgw/escaping.go: the writer that escapes and the reader that unescapes.

mod Cuts
pub mod Reader
pub mod Bounds
pub mod Writer
use hmgo.Prelude.{ℕ, zero, suc, bit_and, bit_or, Bool, true, false, ◌||◌, List, [], ◌∷◌, ◌++◌}
use hmgo.Prelude.{Bytes, get_or, ◌==◌, if◌then◌else◌}
use hmgo.Effect.{Effect, pure, ◌>>=◌}
use hmgo.Fault.{Error}
use hmgo.Uart.{Port, uart_read, uart_write}

-- The loop of `Write`.
unfoldable pub escape : Bytes → Bytes
escape [] = []
escape (b ∷ bs) =
    if b == 0xfd || b == 0xfc then 0xfc ∷ bit_and b 0x7f ∷ escape bs else b ∷ escape bs

-- `escapingWriter.Write`.
unfoldable pub escaping_write : Bytes → Effect Port Error (Unit {0})
unfolding escape
escaping_write [] = pure tt
escaping_write (b ∷ bs) = uart_write (escape (b ∷ bs))

-- The loop of `Read`: the bytes put into `p`, and `escapeByte` at the end.
unfoldable pub unescape : Bool → Bytes → Bytes × Bool
unescape esc [] = ([], esc)
unescape esc (b ∷ bs) =
    let rest = unescape (b == 0xfc) bs in
    if b == 0xfc then rest else ((if esc then bit_or b 0x80 else b) ∷ rest.0, rest.1)

-- The read of one more byte that a trailing escape byte forces.
unfoldable pub force_read : Bytes → Bool → Effect Port Error Bytes
force_read out false = pure out
force_read out true = do last ← uart_read 1; pure (out ++ bit_or (get_or last 0 0) 0x80 ∷ [])

-- `unescapingReader.Read(p)` with `len(p)` = n.
unfoldable pub unescaping_read : ℕ → Effect Port Error Bytes
unfolding unescape force_read
unescaping_read zero = pure []
unescaping_read (suc n) = do
  raw ← uart_read (suc n)
  force_read (unescape false raw).0 (unescape false raw).1
