-- ===== src/Uartgw/Packet.antt =====
-- Packets and frames of internal/uartgw/uartgw.go: the state of a UARTGW, ReadPacket, WritePacket.

pub mod Frame
pub mod Reading
pub mod Frames
pub mod RoundTrip
pub mod Termination
pub mod Consumption
pub mod Silence
pub mod Writing
use hmgo.Prelude.{ℕ, zero, suc, ◌+◌, ◌*◌, ◌/◌, ◌%◌, ◌^◌, List, [], ◌∷◌, ◌++◌}
use hmgo.Prelude.{Bytes, length, get_or, ◌==◌, if◌then◌else◌}
use hmgo.Effect.{Effect, Outcome, pure, lift, gets, modify, guard, crash, out_of_fuel, ◌>>=◌, ◌>>◌}
use hmgo.Fault.{Error, unexpected_checksum}
use hmgo.Uart.{Port, uart_write, read_full}
use hmgo.Uartgw.Escaping.{escaping_write, unescaping_read}
use hmgo.Uartgw.Command.{UartCmd, command, byte}

pub record Packet : Type 0 where
  pub dst : ℕ
  pub msgcnt : ℕ
  pub cmd : UartCmd
  pub payload : Bytes

-- A BidCoS address, Go's `[3]byte`.
abbrev pub Addr : Type 0
Addr = ℕ × ℕ × ℕ

abbrev pub addr_bytes : Addr → Bytes
addr_bytes (a, b, c) = a ∷ b ∷ c ∷ []

-- `FirmwareVersion` is kept as the numbers that the string joins by dots.
pub record Uartgw : Type 0 where
  pub firmware_version : List ℕ
  pub serial_number : Bytes
  pub hmid : Addr
  pub port : Port
  pub msgcnt : ℕ
  pub devstate : ℕ

-- The gateway's `uart` field is the port.
abbrev pub in_port : {A : Type 0} → Uartgw → Outcome Error A × Port → Outcome Error A × Uartgw
in_port u o = (o.0, record u { port = o.1 })

abbrev pub on_port : {A : Type 0} → Effect Port Error A → Effect Uartgw Error A
on_port m u = in_port u (m u.port)

-- `binary.BigEndian` on a uint16.
abbrev pub be16 : ℕ → Bytes
be16 v = (v / 256 % 256) ∷ (v % 256) ∷ []

abbrev pub from_be16 : Bytes → ℕ
from_be16 bs = get_or bs 0 0 * 256 + get_or bs 1 0

-- `frame[0]`, `frame[1]` and `frame[2]` are out of range in a frame of less than three bytes.
unfoldable pub parse_packet : ℕ → Bytes → Effect Port Error Packet
parse_packet state (dst ∷ cnt ∷ k ∷ payload) = do
  cmd ← lift (command state k)
  pure (record { dst = dst; msgcnt = cnt; cmd = cmd; payload = payload })
parse_packet state _ = crash

-- The checksum is `crc16.Checksum` of github.com/sigurn/crc16 with the table `bidcosTable`.
module _ (checksum : Bytes → ℕ) where
  -- The body of the loop of `ReadPacket` behind the delimiter. `fullpkt` is all that was read.
  unfoldable pub read_frame : ℕ → Effect Port Error Packet
  unfolding parse_packet
  read_frame state = do
    len ← read_full unescaping_read 2
    payload ← read_full unescaping_read (from_be16 len)
    let want = checksum (0xfd ∷ (len ++ payload))
    got ← read_full unescaping_read 2
    guard (from_be16 got == want) (unexpected_checksum (from_be16 got) want)
    parse_packet state payload

  -- The loop of `ReadPacket`: bytes that are no delimiter are skipped.
  unfoldable pub receive : ℕ → ℕ → Effect Port Error Packet
  receive zero state = out_of_fuel
  receive (suc fuel) state =
      let again = receive fuel state in
      unescaping_read 1 >>= λ b. if get_or b 0 0 == 0xfd then read_frame state else again

  -- `UARTGW.ReadPacket`. A round takes a byte at least, so this fuel is enough.
  unfoldable pub read_packet : Effect Uartgw Error Packet
  read_packet u = on_port (receive (suc (length u.port.pending)) u.devstate) u

  -- `UARTGW.WritePacket`. The device's message counter is that of the gateway.
  unfoldable pub write_packet : Packet → Effect Uartgw Error (Unit {0})
  write_packet pkt = do
    on_port (uart_write (0xfd ∷ []))
    let len = be16 ((3 + length pkt.payload) % 2 ^ 16)
    on_port (escaping_write len)
    cmd ← lift (byte pkt.cmd)
    cnt ← gets (λ u. u.msgcnt)
    let head = pkt.dst ∷ cnt ∷ cmd ∷ []
    on_port (escaping_write head)
    modify (λ u. record u { msgcnt = (u.msgcnt + 1) % 2 ^ 8 })
    on_port (escaping_write pkt.payload)
    on_port (escaping_write (be16 (checksum (0xfd ∷ (len ++ head ++ pkt.payload)))))
