-- ===== src/Tests/Escaping.antt =====
-- The escaping theorems at a message with both special bytes.
use hmgo.Prelude.{ℕ, ◌≡◌, refl, List, [], ◌∷◌, Bytes, All}
use hmgo.Effect.{ok}
use hmgo.Uart.{Port, uart_read, read_full}
use hmgo.Uart.Reads.{after}
use hmgo.Uartgw.Escaping.{escape, unescaping_read}
use hmgo.Uartgw.Escaping.Reader.{read_full-escape}
use hmgo.Uartgw.Escaping.Writer.{IsNoDelimiter, escape-IsNoDelimiter}
use hmgo.Uartgw.Escaping.Bounds.{Takes, unescaping_read-Takes}
use hmgo.Tests.Wire.{port_with}

abbrev special : Bytes
special = 0xfd ∷ 0xb0 ∷ 0xfc ∷ []

escape-special_bytes : escape special ≡ 0xfc ∷ 0x7d ∷ 0xb0 ∷ 0xfc ∷ 0x7c ∷ []
unfolding escape
escape-special_bytes = refl

abbrev busy : Port
busy = port_with (0xfc ∷ 0x7d ∷ 0xb0 ∷ 0xfc ∷ 0x7c ∷ 7 ∷ [])

read_full-escape_example :
    (later : List ℕ) × (read_full unescaping_read 3 busy ≡ (ok special, after busy (7 ∷ []) later))
unfolding escape
read_full-escape_example = read_full-escape special (7 ∷ []) busy refl

escape-IsNoDelimiter_example : All IsNoDelimiter (escape special)
escape-IsNoDelimiter_example = escape-IsNoDelimiter special

unescaping_read-Takes_example :
    Takes 2 (0xfd ∷ []) (0xfc ∷ 0x7d ∷ 0xb0 ∷ 0xfc ∷ 0x7c ∷ 7 ∷ []) (0xb0 ∷ 0xfc ∷ 0x7c ∷ 7 ∷ [])
unfolding unescaping_read uart_read
unescaping_read-Takes_example =
    unescaping_read-Takes 1 busy (0xfd ∷ []) (after busy (0xb0 ∷ 0xfc ∷ 0x7c ∷ 7 ∷ []) (2 ∷ 1 ∷ []))
      refl
