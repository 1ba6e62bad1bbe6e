-- ===== src/Tests/Radio.antt =====
-- The radio theorems on a packet for the power switch.
use hmgo.Prelude.{ℕ, ◌≡◌, ◌≢◌, refl, arith, [], ◌∷◌, ◌++◌, Bytes}
use hmgo.Effect.{ok}
use hmgo.Uartgw.Command.{app}
use hmgo.Uartgw.Packet.{Uartgw}
use hmgo.Uartgw.Packet.Frame.{frame}
use hmgo.Uartgw.Session.Handshake.{Ready, Reply, message}
use hmgo.Uartgw.Traffic.Confirming.{received}
use hmgo.Bidcos.{Packet, Sender, encode, chosen, default_flags, read_packet, write_packet}
use hmgo.Bidcos.Codec.{counter_after, chosen_distinct}
use hmgo.Bidcos.Radio.{uartgw, read_packet-encode, write_packet_acknowledged}
use hmgo.Tests.Crc.{crc, crc_bounded}
use hmgo.Tests.Wire.{gateway_with}

abbrev switch_on : Packet
switch_on = record {
  status = 0;
  info = 0;
  rssi = 0;
  msgcnt = 0;
  flags = default_flags;
  cmd = 0x11;
  source = (0xfd, 0xb0, 0x2c);
  dest = (0x40, 0xc2, 0xa8);
  payload = 0x02 ∷ 0x01 ∷ 0xc8 ∷ 0x00 ∷ 0x00 ∷ [];
}

abbrev received_bytes : Bytes
received_bytes = 3 ∷ 4 ∷ 5 ∷ 9 ∷ 0xa0 ∷ 0x11 ∷ 0xfd ∷ 0xb0 ∷ 0x2c ∷ 0x40 ∷ 0xc2 ∷ 0xa8 ∷ 1 ∷ []

abbrev received_packet : Packet
received_packet = record switch_on { status = 3; info = 4; rssi = 5; msgcnt = 9; payload = 1 ∷ [] }

chosen_distinct_example :
    chosen switch_on (counter_after [] 0) ≢ chosen switch_on (counter_after (switch_on ∷ []) 0)
chosen_distinct_example =
    chosen_distinct [] (switch_on ∷ []) switch_on switch_on 0 (omega arith) (omega arith)
      (omega arith) refl refl (omega arith) (omega arith)

ready : (bs : Bytes) → Ready bs app [] [] (gateway_with app bs)
ready bs = record {
  no_faults = refl;
  pending_is = refl;
  state_is = refl;
  version_is = refl;
  serial_is = refl;
}

abbrev radio_with : Bytes → Sender Uartgw
radio_with bs = record { gateway = gateway_with app bs; addr = (0xfd, 0xb0, 0x2c); counter = 18 }

abbrev forwarded : Bytes
forwarded =
    message crc crc_bounded 0x05 (record { dst = 1; cnt = 3; payload = (encode switch_on 27).0 })
    ++ 7 ∷ []

read_packet-encode_example :
    (later : Sender Uartgw) × (read_packet (uartgw crc) (radio_with forwarded)
      ≡ (ok (record switch_on { msgcnt = 27 }), later))
    × Ready (7 ∷ []) app [] [] later.gateway
    × (later.counter ≡ 18)
read_packet-encode_example =
    read_packet-encode crc crc_bounded switch_on 27 1 3 (7 ∷ []) [] [] (radio_with forwarded)
      (omega arith) (ready forwarded)

abbrev reply : ℕ → Bytes → Reply
reply cnt payload = record { dst = 1; cnt = cnt; payload = payload }

abbrev acknowledged : Bytes
acknowledged =
    received crc crc_bounded (reply 3 (9 ∷ []) ∷ [])
      (message crc crc_bounded 0x04 (reply 4 (0x01 ∷ [])) ++ 7 ∷ [])

write_packet_acknowledged_example :
    (later : Sender Uartgw) × (write_packet (uartgw crc) switch_on (radio_with acknowledged)
      ≡ (ok tt, later))
    × Ready (7 ∷ []) app [] [] later.gateway
    × (later.gateway.port.sent ≡ frame crc (app ∷ 0 ∷ 0x02 ∷ (encode switch_on 18).0))
    × (later.counter ≡ (encode switch_on 18).1)
write_packet_acknowledged_example =
    write_packet_acknowledged crc crc_bounded switch_on (reply 3 (9 ∷ []) ∷ [])
      (reply 4 (0x01 ∷ [])) (7 ∷ []) [] [] (radio_with acknowledged) (omega arith) (omega arith)
      (omega arith) (ready acknowledged)
