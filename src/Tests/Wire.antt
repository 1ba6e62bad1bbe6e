-- ===== src/Tests/Wire.antt =====
-- The gateway that the tests run, and the transcript of an initialisation from uartgw.go.
use hmgo.Prelude.{ℕ, ◌≡◌, refl, [], ◌∷◌, Bytes, codes}
use hmgo.Effect.{ok}
use hmgo.Uart.{Port, uart_read, uart_write, read_full}
use hmgo.Uartgw.Escaping.{escaping_write, unescaping_read}
use hmgo.Uartgw.Command.{command, byte}
use hmgo.Uartgw.Packet.{Uartgw, read_packet, receive, read_frame, write_packet}
use hmgo.Uartgw.Session.{
  Time, east, init, switch_to_app, get_firmware_version, enable_csmaca, get_serial_number, set_time,
  set_current_key, set_hmid,
}
use hmgo.Tests.Crc.{crc}

-- The port delivers `bs` in pieces of 1, 3, 2 and then as many bytes as are asked for.
abbrev pub port_with : Bytes → Port
port_with bs = record { pending = bs; chunks = 1 ∷ 3 ∷ 2 ∷ 1 ∷ []; sent = []; faults = [] }

abbrev pub gateway_with : ℕ → Bytes → Uartgw
gateway_with state bs = record {
  firmware_version = [];
  serial_number = [];
  hmid = (0xfd, 0xb0, 0x2c);
  port = port_with bs;
  msgcnt = 0;
  devstate = state;
}

-- What the device sends.
abbrev pub device_side : Bytes
device_side =
    0xfd ∷ 0x00 ∷ 0x0c ∷ 0x00 ∷ 0x00 ∷ 0x00 ∷ 0x43 ∷ 0x6f ∷ 0x5f ∷ 0x43 ∷ 0x50 ∷ 0x55 ∷ 0x5f ∷ 0x42
    ∷ 0x4c ∷ 0x72 ∷ 0x51 ∷ 0xfd ∷ 0x00 ∷ 0x04 ∷ 0x00 ∷ 0x00 ∷ 0x04 ∷ 0x01 ∷ 0x99 ∷ 0x3d ∷ 0xfd
    ∷ 0x00 ∷ 0x0d ∷ 0x00 ∷ 0x00 ∷ 0x00 ∷ 0x43 ∷ 0x6f ∷ 0x5f ∷ 0x43 ∷ 0x50 ∷ 0x55 ∷ 0x5f ∷ 0x41
    ∷ 0x70 ∷ 0x70 ∷ 0xd8 ∷ 0x31 ∷ 0xfd ∷ 0x00 ∷ 0x0a ∷ 0x00 ∷ 0x01 ∷ 0x04 ∷ 0x02 ∷ 0x01 ∷ 0x00
    ∷ 0x03 ∷ 0x01 ∷ 0x02 ∷ 0x01 ∷ 0xaa ∷ 0x8a ∷ 0xfd ∷ 0x00 ∷ 0x04 ∷ 0x00 ∷ 0x02 ∷ 0x04 ∷ 0x01
    ∷ 0x19 ∷ 0x16 ∷ 0xfd ∷ 0x00 ∷ 0x0e ∷ 0x00 ∷ 0x03 ∷ 0x04 ∷ 0x02 ∷ 0x4e ∷ 0x45 ∷ 0x51 ∷ 0x31
    ∷ 0x33 ∷ 0x33 ∷ 0x30 ∷ 0x39 ∷ 0x38 ∷ 0x30 ∷ 0x6a ∷ 0xb9 ∷ 0xfd ∷ 0x00 ∷ 0x04 ∷ 0x00 ∷ 0x04
    ∷ 0x04 ∷ 0x01 ∷ 0x19 ∷ 0x6e ∷ 0xfd ∷ 0x00 ∷ 0x04 ∷ 0x01 ∷ 0x05 ∷ 0x04 ∷ 0x01 ∷ 0x0d ∷ 0x7a
    ∷ 0xfd ∷ 0x00 ∷ 0x04 ∷ 0x01 ∷ 0x06 ∷ 0x04 ∷ 0x01 ∷ 0x0d ∷ 0x46 ∷ []

abbrev pub host_side : Bytes
host_side =
    0xfd ∷ 0x00 ∷ 0x03 ∷ 0x00 ∷ 0x00 ∷ 0x03 ∷ 0x18 ∷ 0x0a ∷ 0xfd ∷ 0x00 ∷ 0x03 ∷ 0x00 ∷ 0x01 ∷ 0x02
    ∷ 0x1e ∷ 0x0c ∷ 0xfd ∷ 0x00 ∷ 0x04 ∷ 0x00 ∷ 0x02 ∷ 0x0a ∷ 0x01 ∷ 0xbd ∷ 0x15 ∷ 0xfd ∷ 0x00
    ∷ 0x03 ∷ 0x00 ∷ 0x03 ∷ 0x0b ∷ 0x92 ∷ 0x39 ∷ 0xfd ∷ 0x00 ∷ 0x08 ∷ 0x00 ∷ 0x04 ∷ 0x0e ∷ 0x58
    ∷ 0xa7 ∷ 0x11 ∷ 0x63 ∷ 0x00 ∷ 0x54 ∷ 0x8e ∷ 0xfd ∷ 0x00 ∷ 0x14 ∷ 0x01 ∷ 0x05 ∷ 0x03 ∷ 0x00
    ∷ 0x11 ∷ 0x22 ∷ 0x33 ∷ 0x44 ∷ 0x55 ∷ 0x66 ∷ 0x77 ∷ 0x88 ∷ 0x99 ∷ 0xaa ∷ 0xbb ∷ 0xcc ∷ 0xdd
    ∷ 0xee ∷ 0xff ∷ 0x02 ∷ 0x4c ∷ 0x6d ∷ 0xfd ∷ 0x00 ∷ 0x06 ∷ 0x01 ∷ 0x06 ∷ 0x00 ∷ 0xfc ∷ 0x7d
    ∷ 0xb0 ∷ 0x2c ∷ 0xd1 ∷ 0x66 ∷ []

abbrev pub noon : Time
noon = record { unix = 0x58a71163; zone = east 0 }

-- The initialisation writes the host's side of the transcript. It differs from the comments in one
-- message: the comment of `enableCSMACA` has the payload 0x00, and the code sends 0x01.
init_transcript :
    ((init crc noon (gateway_with 0 device_side)).0 ≡ ok tt)
    × ((init crc noon (gateway_with 0 device_side)).1.port.sent ≡ host_side)
    × ((init crc noon (gateway_with 0 device_side)).1.firmware_version ≡ 1 ∷ 2 ∷ 1 ∷ [])
    × ((init crc noon (gateway_with 0 device_side)).1.serial_number ≡ codes "NEQ1330980")
unfolding init switch_to_app get_firmware_version enable_csmaca get_serial_number set_time
    set_current_key set_hmid read_packet receive read_frame write_packet unescaping_read
    escaping_write uart_read uart_write read_full command byte crc
init_transcript = (refl, refl, refl, refl)
