-- ===== src/Ccu/Dispatch.antt =====
-- ccu.go: what the main loop does with a packet that comes from one of the devices.
use hmgo.Prelude.{ℕ, Bool, false, Option, none, some}
use hmgo.Prelude.{Bytes, codes, length, take, drop, get_elem?, set, ltb, ◌==◌, ◌||◌}
use hmgo.Prelude.{if◌then◌else◌}
use hmgo.Effect.{Outcome, ok, Effect, crash, ◌>>◌}
use hmgo.Fault.{Error}
use hmgo.Uartgw.Packet.{Addr, addr_bytes}
use hmgo.Uartgw.Traffic.{add_peer}
use hmgo.Bidcos.{Packet, device_info, info, power_event_cyclic, timestamp}
use hmgo.Bidcos
use hmgo.Bidcos.Radio.{uartgw}
use hmgo.Hm.{pair}
use hmgo.Hm.Power.{decode_power_event}
use hmgo.Hm.Thermal.{decode_weather_event, decode_thermal_control_event}
use hmgo.Hm.Thermal
use hmgo.Hm.Heating
use hmgo.Mqtt.{publish_mqtt}
use hmgo.Ccu.Devices.{
  Model, power, thermal, heating, channels, homematic_type, Device, Event, weather, thermal_control,
  wall_info, radiator_info, power_event, Ccu, find_addr, find_serial, on_gateway, on_device,
}

-- The device after a decoder, and the event with its name if there was no error.
unfoldable pub decoded :
    {E T : Type 0}
    → (T → Model)
    → (E → Event)
    → Bytes
    → Outcome Error E × T
    → Model × Option (Bytes × Event)
decoded model event name (ok e, t) = (model t, some (name, event e))
decoded model event name (_, t) = (model t, none)

-- The `case`s of the events, each with its `switch` on the type of the device.
unfoldable pub weather_case : Bytes → Model → Model × Option (Bytes × Event)
unfolding decoded
weather_case payload (thermal tc) =
    decoded thermal weather (codes "weather") (decode_weather_event payload tc)
weather_case payload m = (m, none)

unfoldable pub thermal_control_case : Bytes → Model → Model × Option (Bytes × Event)
unfolding decoded
thermal_control_case payload (thermal tc) =
    decoded thermal thermal_control (codes "thermal-control")
      (decode_thermal_control_event payload tc)
thermal_control_case payload m = (m, none)

unfoldable pub power_case : Bytes → Model → Model × Option (Bytes × Event)
unfolding decoded
power_case payload (power ps) =
    decoded power power_event (codes "power") (decode_power_event payload ps)
power_case payload m = (m, none)

unfoldable pub info_case : Bytes → Model → Model × Option (Bytes × Event)
unfolding decoded
info_case payload (thermal tc) =
    decoded thermal wall_info (codes "info") (Thermal.decode_info_event payload tc)
info_case payload (heating t) =
    decoded heating radiator_info (codes "info") (Heating.decode_info_event payload t)
info_case payload m = (m, none)

-- The `switch` on the command, less the case of DeviceInfo; a command without a case and Timestamp
-- are only logged.
unfoldable pub event_case : ℕ → Bytes → Model → Model × Option (Bytes × Event)
unfolding weather_case thermal_control_case power_case info_case
event_case cmd payload m =
    if cmd == Bidcos.weather_event
    then weather_case payload m
    else if cmd == Bidcos.thermal_control
    then thermal_control_case payload m
    else if cmd == power_event_cyclic || cmd == Bidcos.power_event
    then power_case payload m
    else if cmd == info
    then info_case payload m
    else (m, none)

-- `json.Marshal` of Go's library is a parameter; `none` is an error.
module _ (marshal : Event → Option Bytes) where
  -- The device at `p` after the packet, and the event published.
  unfoldable pub store_event :
      ℕ → Device → Model × Option (Bytes × Event) → Effect Ccu Error (Unit {0})
  store_event p d (m, none) s =
      (ok tt, record s { devices = set s.devices p (record d { model = m }) })
  store_event p d (m, some (name, ev)) s = (
    ok tt,
    record s {
      devices = set s.devices p (record d { model = m });
      requests = publish_mqtt (marshal ev) (homematic_type m) d.name name s.requests;
    },
  )

-- Whether the device with the serial number is the one at the address.
unfoldable pub is_configured : Option ℕ → Option ℕ → Bool
is_configured (some p) (some q) = p == q
is_configured _ _ = false

module _ (checksum : Bytes → ℕ) where
  -- AddPeer and Pair for the device at `q`.
  unfoldable pub answer_peer : Addr → ℕ → Option Device → Effect Ccu Error (Unit {0})
  answer_peer source q none = crash
  answer_peer source q (some d) =
      on_gateway (add_peer checksum (addr_bytes source) (channels d.model))
      >> on_device q (pair (uartgw checksum))

  unfoldable pub answer_serial : Addr → Option ℕ → Option ℕ → Effect Ccu Error (Unit {0})
  unfolding is_configured answer_peer
  answer_serial source at none s = (ok tt, s)
  answer_serial source at (some q) s =
      if is_configured at (some q)
      then answer_peer source q (get_elem? s.devices q) s
      else (ok tt, s)

  -- The `case bidcos.DeviceInfo`.
  unfoldable pub peer_request : Packet → Effect Ccu Error (Unit {0})
  unfolding answer_serial
  peer_request pkt s =
      if ltb (length pkt.payload) 13
      then (ok tt, s)
      else answer_serial pkt.source (find_addr s.by_addr pkt.source)
          (find_serial s.by_serial (take 10 (drop 3 pkt.payload))) s

  module _ (marshal : Event → Option Bytes) where
    -- The `switch` of the main loop, for the device at `p`.
    unfoldable pub handle : Packet → ℕ → Option Device → Effect Ccu Error (Unit {0})
    unfolding store_event event_case peer_request
    handle pkt p none = crash
    handle pkt p (some d) =
        if pkt.cmd == device_info
        then peer_request pkt
        else store_event marshal p d (event_case pkt.cmd pkt.payload d.model)

    unfoldable pub handle_at : Packet → Option ℕ → Effect Ccu Error (Unit {0})
    unfolding handle
    handle_at pkt none s = (ok tt, s)
    handle_at pkt (some p) s = handle pkt p (get_elem? s.devices p) s

    -- A decoded packet: packets from unknown addresses are ignored.
    unfoldable pub handle_packet : Packet → Effect Ccu Error (Unit {0})
    unfolding handle_at
    handle_packet pkt s = handle_at pkt (find_addr s.by_addr pkt.source) s
