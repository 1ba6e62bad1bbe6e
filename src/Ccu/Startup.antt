-- ===== src/Ccu/Startup.antt =====
-- ccu.go: what main does with the devices before its loop.
use hmgo.Prelude.{ℕ, suc, ◌%◌, ◌^◌, List, [], ◌∷◌, Option, none, some, Bytes, length}
use hmgo.Prelude.{get_elem?, set}
use hmgo.Effect.{Outcome, ok, Effect, pure, crash, ◌>>◌}
use hmgo.Fault.{Error}
use hmgo.Uart.{Port}
use hmgo.Uartgw.Packet.{Addr, addr_bytes, Uartgw}
use hmgo.Uartgw.Session.{Time, init}
use hmgo.Uartgw.Traffic.{add_peer}
use hmgo.Bidcos.Radio.{uartgw}
use hmgo.Hm.Config.{ensure_configured}
use hmgo.Hm.Peering.{ensure_peered_with}
use hmgo.Hm.Programs.{set_programs}
use hmgo.Ccu.{override_winter}
use hmgo.Ccu.Devices.{channels, Device, Ccu, on_gateway, on_device}
use hmgo.Ccu.House.{
  home, thermal_bad, thermal_wohnzimmer, thermal_schlafzimmer, thermal_lea, thermostat_bad,
  thermostat_wohnzimmer, thermostat_schlafzimmer, thermostat_lea, fresh, room_programs,
  lea_programs,
}

-- The four callbacks of EnsureConfigured, in the month of the call.
unfoldable pub room_callback : ℕ → Bytes → Outcome Error Bytes
room_callback month mem = ok (set_programs mem (override_winter month room_programs))

unfoldable pub bad_callback : ℕ → Bytes → Outcome Error Bytes
bad_callback month mem =
    ok (set_programs (set mem 11 (100 % 2 ^ 7)) (override_winter month room_programs))

unfoldable pub lea_callback : Bytes → Outcome Error Bytes
lea_callback mem = ok (set_programs mem lea_programs)

module _ (checksum : Bytes → ℕ) where
  -- Every packet read takes a byte, so the number of bytes to come is enough fuel.
  abbrev pub fuel_of : Ccu → ℕ
  fuel_of s = suc (length s.bcs.gateway.port.pending)

  -- `EnsureConfigured(0, 7, cb)` of the device at `p`.
  unfoldable pub configure : ℕ → (Bytes → Outcome Error Bytes) → Effect Ccu Error (Unit {0})
  configure p cb s = on_device p (ensure_configured (uartgw checksum) (fuel_of s) 0 7 cb) s

  -- `EnsurePeeredWith` of the device at `p`; both channel constants are 2.
  unfoldable pub peer_with : ℕ → Addr → Effect Ccu Error (Unit {0})
  peer_with p addr s =
      on_device p
        (ensure_peered_with (uartgw checksum) (fuel_of s) 2 (record { peer = addr; channel = 2 })) s

  -- The loop over `byAddr`, whose order Go leaves open.
  unfoldable pub add_peer_of : Addr → Option Device → Effect Ccu Error (Unit {0})
  add_peer_of addr none = crash
  add_peer_of addr (some d) = on_gateway (add_peer checksum (addr_bytes addr) (channels d.model))

  unfoldable pub add_peers : List (Addr × ℕ) → Effect Ccu Error (Unit {0})
  unfolding add_peer_of
  add_peers [] = pure tt
  add_peers ((addr, p) ∷ entries) =
      (λ s. add_peer_of addr (get_elem? s.devices p) s) >> add_peers entries

  unfoldable pub configure_all : ℕ → ℕ → ℕ → Effect Ccu Error (Unit {0})
  unfolding configure
  configure_all month_wohnzimmer month_bad month_schlafzimmer = do
    configure thermal_wohnzimmer (room_callback month_wohnzimmer)
    configure thermal_bad (bad_callback month_bad)
    configure thermal_schlafzimmer (room_callback month_schlafzimmer)
    configure thermal_lea lea_callback

  unfoldable pub peer_all : Effect Ccu Error (Unit {0})
  unfolding peer_with
  peer_all = do
    peer_with thermal_wohnzimmer (0x38, 0xf5, 0x9c)
    peer_with thermostat_wohnzimmer (0x39, 0x06, 0xeb)
    peer_with thermal_bad (0x73, 0xf7, 0xee)
    peer_with thermostat_bad (0x39, 0x0f, 0x17)
    peer_with thermal_schlafzimmer (0x38, 0xe8, 0xe3)
    peer_with thermostat_schlafzimmer (0x39, 0x06, 0xda)
    peer_with thermal_lea (0x38, 0xe8, 0xef)
    peer_with thermostat_lea (0x39, 0x0f, 0x27)

  -- `NewUARTGW`, and the gateway before `init`.
  abbrev pub unopened : Port → Uartgw
  unopened port = record {
    firmware_version = [];
    serial_number = [];
    hmid = home;
    port = port;
    msgcnt = 0;
    devstate = 0;
  }

  -- main from the opened port up to its loop, with the order in which the map is iterated.
  unfoldable pub start_up :
      Time → List (Addr × ℕ) → ℕ → ℕ → ℕ → Port → Outcome Error (Unit {0}) × Ccu
  unfolding add_peers configure_all peer_all
  start_up now order month_wohnzimmer month_bad month_schlafzimmer port =
      let (o, gw) = init checksum now (unopened port) in
      let s = fresh (record { gateway = gw; addr = home; counter = 0 }) in
      ((λ z. (o, z))
          >> (add_peers order
              >> (configure_all month_wohnzimmer month_bad month_schlafzimmer >> peer_all)))
        s
