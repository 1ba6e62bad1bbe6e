-- ===== src/Ccu/Devices.antt =====
-- ccu.go: the devices that main sets up, and the state that its loop works on. A pointer to a device
-- is its place in the list of devices, to which both maps point.
use hmgo.Prelude.{ℕ, List, [], ◌∷◌, Option, none, some, Bytes, codes, equal, get_elem?, set}
use hmgo.Prelude.{if◌then◌else◌}
use hmgo.Effect.{panic, Effect}
use hmgo.Fault.{Error}
use hmgo.Uartgw.Packet.{Addr, addr_bytes, Uartgw}
use hmgo.Bidcos.{Sender}
use hmgo.Hm.{StandardDevice}
use hmgo.Hm.Power.{PowerSwitch, PowerEvent}
use hmgo.Hm.Thermal.{ThermalControl, WeatherEvent, ThermalControlEvent}
use hmgo.Hm.Thermal
use hmgo.Hm.Heating.{Thermostat}
use hmgo.Hm.Heating
use hmgo.Mqtt.{PublishRequest}

-- The types that implement the interface `hm.Device`.
pub data Model : Type 0 where
  power : PowerSwitch Uartgw → Model
  thermal : ThermalControl Uartgw → Model
  heating : Thermostat Uartgw → Model

-- The embedded `StandardDevice`.
unfoldable pub standard : Model → StandardDevice Uartgw
standard (power ps) = ps.device
standard (thermal tc) = tc.device
standard (heating t) = t.device

unfoldable pub with_standard : StandardDevice Uartgw → Model → Model
with_standard sd (power ps) = power (record ps { device = sd })
with_standard sd (thermal tc) = thermal (record tc { device = sd })
with_standard sd (heating t) = heating (record t { device = sd })

-- `Channels`.
unfoldable pub channels : Model → ℕ
channels (power ps) = 6
channels (thermal tc) = 7
channels (heating t) = 6

-- `HomeMaticType`.
unfoldable pub homematic_type : Model → Bytes
homematic_type (power ps) = codes "power"
homematic_type (thermal tc) = codes "thermal"
homematic_type (heating t) = codes "heating"

pub record Device : Type 0 where
  pub name : Bytes
  pub model : Model

-- What is decoded and published.
pub data Event : Type 0 where
  weather : WeatherEvent → Event
  thermal_control : ThermalControlEvent → Event
  wall_info : Thermal.InfoEvent → Event
  radiator_info : Heating.InfoEvent → Event
  power_event : PowerEvent → Event

-- All devices have the sender `bcs`; what a device in the list holds in its place is not read.
pub record Ccu : Type 0 where
  pub bcs : Sender Uartgw
  pub devices : List Device
  pub by_addr : List (Addr × ℕ)
  pub by_serial : List (Bytes × ℕ)
  pub requests : List PublishRequest

-- `byAddr[addr]` and `bySerial[serial]`.
unfoldable pub find_addr : List (Addr × ℕ) → Addr → Option ℕ
find_addr [] addr = none
find_addr ((a, p) ∷ entries) addr =
    if equal (addr_bytes a) (addr_bytes addr) then some p else find_addr entries addr

unfoldable pub find_serial : List (Bytes × ℕ) → Bytes → Option ℕ
find_serial [] serial = none
find_serial ((s, p) ∷ entries) serial =
    if equal s serial then some p else find_serial entries serial

-- An action on the gateway `gw`, which is the one of `bcs`.
abbrev pub on_gateway : {A : Type 0} → Effect Uartgw Error A → Effect Ccu Error A
on_gateway m s =
    ((m s.bcs.gateway).0, record s { bcs = record s.bcs { gateway = (m s.bcs.gateway).1 } })

-- A method of the device at `p` that uses the sender.
unfoldable pub on_found :
    {A : Type 0} → Option Device → ℕ → Effect (StandardDevice Uartgw) Error A → Effect Ccu Error A
unfolding standard with_standard
on_found none p m s = (panic, s)
on_found (some d) p m s =
    let o = m (record (standard d.model) { bcs = s.bcs }) in
    (
      o.0,
      record s {
        bcs = o.1.bcs;
        devices = set s.devices p (record d { model = with_standard o.1 d.model });
      },
    )

abbrev pub on_device :
    {A : Type 0} → ℕ → Effect (StandardDevice Uartgw) Error A → Effect Ccu Error A
on_device p m s = on_found (get_elem? s.devices p) p m s
