-- ===== src/Tests/Central.antt =====
-- The central of ccu.go on a gateway that has received a few messages.
use hmgo.Prelude.{ℕ, refl, List, [], ◌∷◌, Option, none, some, Bytes, codes}
use hmgo.Effect.Halts.{Halts}
use hmgo.Effect.Settles.{Settles}
use hmgo.Uartgw.Command.{app}
use hmgo.Uartgw.Session.Handshake.{Ready, Reply}
use hmgo.Uartgw.Traffic.Confirming.{received}
use hmgo.Uartgw.Traffic.Peers.{acks}
use hmgo.Bidcos.{Packet, device_info}
use hmgo.Ccu.Devices.{Event, Ccu}
use hmgo.Ccu.Dispatch.{handle_packet}
use hmgo.Ccu.Loop.{rounds}
use hmgo.Hm.Acknowledged.{Turn, turns}
use hmgo.Ccu.Peering.{Decided, peering_cases}
use hmgo.Ccu.House.{by_addr_map, home, fresh}
use hmgo.Ccu.Startup.{start_up}
use hmgo.Ccu.Termination.{due, start_up-Halts, rounds-Settles}
use hmgo.Ccu.Wired.{by_addr_map-IsWired}
use hmgo.Tests.Crc.{crc, crc_bounded}
use hmgo.Tests.Wire.{gateway_with, port_with, noon, device_side}

abbrev pub marshal : Event → Option Bytes
marshal ev = some (codes "{}")

abbrev pub central : Bytes → Ccu
central bs = fresh (record { gateway = gateway_with app bs; addr = home; counter = 0 })

-- A power event of the power switch, a packet that is too short, and one from an unknown address.
abbrev pub messages : List Reply
messages =
    record {
      dst = 1;
      cnt = 7;
      payload =
          0 ∷ 0 ∷ 0x3c ∷ 0x12 ∷ 0x84 ∷ 0x5f ∷ 0x40 ∷ 0xc2 ∷ 0xa8 ∷ 0 ∷ 0 ∷ 0 ∷ 0x80 ∷ 0x1b ∷ 0x4c
          ∷ 0x00 ∷ 0x1b ∷ 0x3c ∷ 0x01 ∷ 0x1a ∷ 0x09 ∷ 0x06 ∷ 0x7c ∷ [];
    }
    ∷ record { dst = 1; cnt = 8; payload = 1 ∷ 2 ∷ [] }
    ∷ record {
      dst = 1;
      cnt = 9;
      payload = 0 ∷ 0 ∷ 0 ∷ 1 ∷ 0x84 ∷ 0x70 ∷ 1 ∷ 2 ∷ 3 ∷ 0 ∷ 0 ∷ 0 ∷ 0 ∷ 0 ∷ [];
    }
    ∷ []

abbrev pub on_the_air : Bytes
on_the_air = received crc crc_bounded messages []

pub ready : (bs : Bytes) → Ready bs app [] [] (gateway_with app bs)
ready bs = record {
  no_faults = refl;
  pending_is = refl;
  state_is = refl;
  version_is = refl;
  serial_is = refl;
}

start_up-Halts_example : Halts (start_up crc noon by_addr_map 1 7 12 (port_with device_side)).0
start_up-Halts_example = start_up-Halts crc noon by_addr_map 1 7 12 (port_with device_side)

rounds-Settles_example : Settles due (rounds crc marshal (some noon ∷ none ∷ []))
rounds-Settles_example = rounds-Settles crc marshal (some noon ∷ none ∷ [])

-- The living room's wall thermostat asks to be peered.
abbrev pub request : Packet
request = record {
  status = 0;
  info = 0;
  rssi = 0;
  msgcnt = 1;
  flags = 0x84;
  cmd = device_info;
  source = (0x39, 0x06, 0xeb);
  dest = (0, 0, 0);
  payload = 0x12 ∷ 0x00 ∷ 0xad ∷ codes "MEQ0089016";
}

peering_cases_example :
    Decided crc marshal request (central []) (handle_packet crc marshal request (central []))
peering_cases_example =
    peering_cases crc marshal request (central [])
      (by_addr_map-IsWired (record { gateway = gateway_with app []; addr = home; counter = 0 }))
      refl

abbrev pub ack : ℕ → Reply
ack cnt = record { dst = 1; cnt = cnt; payload = 1 ∷ [] }

-- The turns of Pair, with a radio packet before the second acknowledgement.
abbrev pub first_turn : Turn
first_turn = record { noise = []; ack = ack 5 }

abbrev pub second_turn : Turn
second_turn = record { noise = record { dst = 1; cnt = 6; payload = 4 ∷ 5 ∷ [] } ∷ []; ack = ack 7 }

abbrev pub third_turn : Turn
third_turn = record { noise = []; ack = ack 8 }

abbrev all_acks : Bytes
all_acks =
    acks crc crc_bounded (ack 0 ∷ ack 1 ∷ ack 2 ∷ ack 3 ∷ ack 4 ∷ [])
      (turns crc crc_bounded (first_turn ∷ second_turn ∷ third_turn ∷ []) (9 ∷ []))
