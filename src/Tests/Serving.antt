-- ===== src/Tests/Serving.antt =====
-- The main loop on three messages, and on a peering request that it answers.
use hmgo.Prelude.{ℕ, ◌≡◌, refl, arith, List, [], ◌∷◌, map, none, false, Bytes, codes, ◌==◌}
use hmgo.Effect.{ok}
use hmgo.Uartgw.Session.Handshake.{Reply}
use hmgo.Bidcos.{Packet, decode, device_info}
use hmgo.Ccu.Devices.{Ccu, find_addr, find_serial}
use hmgo.Effect.{continue}
use hmgo.Ccu.House.{home, fresh, by_addr_map, thermal_wohnzimmer}
use hmgo.Ccu.Startup.{unopened, start_up}
use hmgo.Ccu.Started.{main_continues}
use hmgo.Tests.Wire.{noon}
use hmgo.Tests.Sessions.{answers, proper}
use hmgo.Tests.Startup.{
  configurations, peerings, script, script_bytes, plugged, nine, spelled-Spells, script-All,
  nine-AreWelcome,
}
use hmgo.Ccu.Loop.{rounds}
use hmgo.Ccu.Conversing.{Welcome}
use hmgo.Ccu.Serving.{Visit, plain, pairing, Asks, IsServed, Serves, visited}
use hmgo.Tests.Crc.{crc, crc_bounded}
use hmgo.Tests.Central.{ack, marshal, request, first_turn, second_turn, third_turn}

silent :
    (r : Reply) (pkt : Packet) (s : Ccu) (p : ℕ)
    → decode r.payload ≡ ok pkt
    → (pkt.cmd == device_info) ≡ false
    → ¬ Asks r s p
silent r pkt s p e c x =
    let d = x.decodes in let a = x.cmd_is in let same : pkt ≡ x.packet = cc in cc

abbrev asking : Reply
asking = record {
  dst = 1;
  cnt = 3;
  payload =
      0
      ∷ 0
      ∷ 0
      ∷ 1
      ∷ 0x84
      ∷ 0
      ∷ 0x39
      ∷ 0x06
      ∷ 0xeb
      ∷ 0
      ∷ 0
      ∷ 0
      ∷ 0x12
      ∷ 0x00
      ∷ 0xad
      ∷ codes "MEQ0089016";
}

abbrev power_event : Reply
power_event = record {
  dst = 1;
  cnt = 7;
  payload =
      0 ∷ 0 ∷ 0x3c ∷ 0x12 ∷ 0x84 ∷ 0x5f ∷ 0x40 ∷ 0xc2 ∷ 0xa8 ∷ 0 ∷ 0 ∷ 0 ∷ 0x80 ∷ 0x1b ∷ 0x4c ∷ 0x00
      ∷ 0x1b ∷ 0x3c ∷ 0x01 ∷ 0x1a ∷ 0x09 ∷ 0x06 ∷ 0x7c ∷ [];
}

abbrev welcome : Welcome
welcome = record { first = ack 0; second = ack 1; third = ack 2; fourth = ack 3; fifth = ack 4 }

abbrev visits : List Visit
visits =
    plain power_event
    ∷ pairing asking welcome first_turn second_turn third_turn
    ∷ plain (record { dst = 1; cnt = 8; payload = 1 ∷ 2 ∷ [] })
    ∷ []

abbrev line : Bytes
line = visited crc crc_bounded visits (9 ∷ [])

abbrev maps : Ccu
maps = fresh (record { gateway = unopened crc (plugged line); addr = home; counter = 0 })

asks : Asks asking maps thermal_wohnzimmer
unfolding decode find_addr find_serial
asks = record {
  packet = request;
  decodes = refl;
  cmd_is = refl;
  configured = record { long = omega arith; by_addr_is = refl; by_serial_is = refl };
}

power_event-IsServed : IsServed maps (plain power_event)
unfolding decode
power_event-IsServed = (omega arith, λ p. silent power_event _ maps p refl refl)

short-IsServed : IsServed maps (plain (record { dst = 1; cnt = 8; payload = 1 ∷ 2 ∷ [] }))
unfolding decode
short-IsServed = (omega arith, λ p x. let d = x.decodes in cc)

main_continues_example :
    Serves
      (9 ∷ [])
      (1 ∷ 2 ∷ 1 ∷ [])
      (codes "NEQ1330980")
      (start_up crc noon by_addr_map 1 7 12 (plugged line)).1
      (continue
        (start_up crc noon by_addr_map 1 7 12 (plugged line)).0
        (start_up crc noon by_addr_map 1 7 12 (plugged line)).1
        (λ _. rounds crc marshal (map (λ x. none) visits)))
main_continues_example =
    main_continues crc crc_bounded marshal noon by_addr_map 1 7 12 (plugged line) answers 1 2 1
      (codes "NEQ1330980") nine configurations peerings (script_bytes line) visits (9 ∷ []) refl
      proper nine-AreWelcome refl (spelled-Spells line script script-All)
      (
        power_event-IsServed,
        (
          (
            omega arith,
            (thermal_wohnzimmer, asks),
            (omega arith, (omega arith, (omega arith, (omega arith, (omega arith, tt))))),
            ((tt, omega arith), (((omega arith, tt), omega arith), ((tt, omega arith), tt))),
          ),
          (short-IsServed, tt),
        ),
      )
