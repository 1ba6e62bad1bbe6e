-- ===== src/Tests/Frames.antt =====
-- The frame theorems on concrete frames, behind two bytes of noise.
use hmgo.Prelude.{ℕ, ◌≡◌, ◌≢◌, refl, arith, List, [], ◌∷◌, ◌++◌, Bytes}
use hmgo.Effect.{ok, fail, panic}
use hmgo.Fault.{unexpected_checksum, no_command_byte}
use hmgo.Uart.Reads.{after}
use hmgo.Uartgw.Escaping.{escape}
use hmgo.Uartgw.Command.{app_recv, app_send, app_get_hmid, app_set_hmid, command, byte, app}
use hmgo.Uartgw.Command.Codes.{home, command-byte}
use hmgo.Uartgw.Packet.{Uartgw, Packet, be16, read_packet, write_packet}
use hmgo.Uartgw.Packet.Frame.{covered, frame, frame_with}
use hmgo.Uartgw.Packet.Frames.{read_packet-frame, read_packet_damaged, read_packet_short}
use hmgo.Uartgw.Packet.RoundTrip.{read_packet-write_packet}
use hmgo.Uartgw.Packet.Writing.{wrote, write_packet_unknown}
use hmgo.Tests.Crc.{crc, crc_bounded}
use hmgo.Tests.Wire.{gateway_with}

abbrev noise : Bytes
noise = 0x00 ∷ 0x11 ∷ []

abbrev body : Bytes
body = 1 ∷ 9 ∷ 0x05 ∷ 0xfd ∷ []

abbrev good : Uartgw
good = gateway_with app (noise ++ (frame crc body ++ 7 ∷ []))

read_packet-frame_example :
    (later : List ℕ) × (read_packet crc good ≡ (
      ok (record { dst = 1; msgcnt = 9; cmd = app_recv; payload = 0xfd ∷ [] }),
      record good { port = after good.port (7 ∷ []) later },
    ))
read_packet-frame_example =
    read_packet-frame crc good noise 1 9 0x05 (0xfd ∷ []) (7 ∷ []) app_recv (omega arith)
      (omega arith) crc_bounded (unfold command in refl) refl

abbrev damaged : Uartgw
damaged = gateway_with app (noise ++ (frame_with 0 body ++ 7 ∷ []))

crc-ne-zero : 0 ≢ crc (covered body)
unfolding crc
crc-ne-zero = omega arith

read_packet_damaged_example :
    (later : List ℕ) × (read_packet crc damaged ≡ (
      fail (unexpected_checksum 0 (crc (covered body))),
      record damaged { port = after damaged.port (7 ∷ []) later },
    ))
read_packet_damaged_example =
    read_packet_damaged crc damaged noise 0 body (7 ∷ []) (omega arith) (omega arith) (omega arith)
      crc-ne-zero refl

abbrev short : Uartgw
short = gateway_with app (noise ++ (frame crc (1 ∷ 9 ∷ []) ++ []))

read_packet_short_example :
    (later : List ℕ) × (read_packet crc short
      ≡ (panic, record short { port = after short.port [] later }))
read_packet_short_example =
    read_packet_short crc short noise (1 ∷ 9 ∷ []) [] (omega arith) (omega arith) crc_bounded refl

abbrev sender : Uartgw
sender = record (gateway_with app []) { msgcnt = 255 }

abbrev outgoing : Packet
outgoing = record { dst = app; msgcnt = 0; cmd = app_send; payload = 0xfd ∷ [] }

write_packet_unknown_example : write_packet crc (record outgoing { cmd = app_get_hmid }) sender ≡ (
  fail (no_command_byte 13),
  record sender { port = wrote (wrote sender.port (0xfd ∷ [])) (escape (be16 4)) },
)
write_packet_unknown_example =
    write_packet_unknown crc sender (record outgoing { cmd = app_get_hmid }) (no_command_byte 13)
      refl (unfold byte in refl)

abbrev receiver : Uartgw
receiver = gateway_with app ((write_packet crc outgoing sender).1.port.sent ++ 7 ∷ [])

read_packet-write_packet_example :
    (later : List ℕ) × (read_packet crc receiver ≡ (
      ok (record outgoing { msgcnt = 255 }),
      record receiver { port = after receiver.port (7 ∷ []) later },
    ))
unfolding home
read_packet-write_packet_example =
    read_packet-write_packet crc sender receiver outgoing 0x02 (7 ∷ []) crc_bounded refl
      (omega arith) (unfold byte in refl) (ground arith) (omega arith) refl refl

command-byte_example : (command app 0x05 ≡ ok app_recv) × (command app 0x00 ≢ ok app_set_hmid)
unfolding byte home
command-byte_example = command-byte app_recv 0x05 0x00 (ground arith) refl
