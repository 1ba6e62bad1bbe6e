-- ===== src/Tests/Gauges.antt =====
-- The gauges of a radiator thermostat that reports a low battery.
use hmgo.Prelude.{◌≡◌, ◌≤◌, ◌/◌, ◌%◌, ◌^◌, refl, [], ◌∷◌, none, some, codes}
use hmgo.Effect.{ok}
use hmgo.Prelude.{arith, ap}
use hmgo.Uartgw.Packet.{Addr}
use hmgo.Hm.Names.{addr_hex}
use hmgo.Hm.Power.{PowerEvent}
use hmgo.Hm.Thermal.{WeatherEvent, ThermalControlEvent}
use hmgo.Hm.Thermal
use hmgo.Hm.Gauges.{power_gauges, weather_gauges, thermal_control_gauges, wall_gauges}
use hmgo.Hm.Gauges.Apart.{gauges_apart}
use hmgo.Hm.Gauges.{Gauge, value_of, set_all, radiator_gauges}
use hmgo.Hm.Gauges.Faults.{faults, flags, total, radiator_gauges_faults}
use hmgo.Hm.Heating.{InfoEvent, Thermostat, decode_info_event}
use hmgo.Hm.Link.{Link}

abbrev radiator : Thermostat Link
radiator = record {
  device = record {
    bcs = record {
      gateway = record { inbox = []; outbox = [] };
      addr = (0xfd, 0xb0, 0x2c);
      counter = 0;
    };
    addr = (0x38, 0xe8, 0xef);
    msgcnt = 0;
  };
  latest_info_event = none;
}

abbrev elsewhere : Gauge
elsewhere = record {
  metric = codes "hmheating_InfoEventFault";
  more = (codes "fault", codes "lowbat") ∷ [];
  name = codes "Lea";
  address = codes "38f59c";
}

lowbat_test : flags (0xd0 / 2 ^ 5 % 2 ^ 3) ≡ 0 ∷ 0 ∷ 0 ∷ 0 ∷ 1 ∷ 0 ∷ []
lowbat_test = refl

radiator_gauges_faults_example :
    (ie : InfoEvent) × (decode_info_event (0x0a ∷ 0xb0 ∷ 0xe2 ∷ 0xd0 ∷ 0 ∷ 0 ∷ []) radiator
      ≡ (ok ie, record radiator { latest_info_event = some ie }))
    × (faults
          (codes "Lea")
          (codes "38e8ef")
          (set_all (radiator_gauges (codes "Lea") (codes "38e8ef") ie) ((elsewhere, (1, 1)) ∷ []))
        ≡ flags (0xd0 / 2 ^ 5 % 2 ^ 3))
    × (total (
          faults (codes "Lea") (codes "38e8ef") (
            set_all (radiator_gauges (codes "Lea") (codes "38e8ef") ie) ((elsewhere, (1, 1)) ∷ [])))
        ≤ 1)
    × (value_of elsewhere
          (set_all (radiator_gauges (codes "Lea") (codes "38e8ef") ie) ((elsewhere, (1, 1)) ∷ []))
        ≡ value_of elsewhere ((elsewhere, (1, 1)) ∷ []))
radiator_gauges_faults_example =
    radiator_gauges_faults 0x0a 0xb0 0xe2 0xd0 0 0 radiator (codes "Lea") (codes "38e8ef")
      ((elsewhere, (1, 1)) ∷ []) elsewhere refl

abbrev here : Addr
here = (0x38, 0xe8, 0xef)

abbrev there : Addr
there = (0x38, 0xf5, 0x9c)

other : ¬ (here ≡ there)
other e = let f = ap (λ (a : Addr). a.2) e in omega (arith, f)

-- Two radiator thermostats with the same name.
gauges_apart_example :
    ((ev : PowerEvent)
      → value_of elsewhere (set_all (power_gauges (codes "Lea") (addr_hex here) ev) [])
        ≡ value_of elsewhere [])
    × ((ev : WeatherEvent)
        → value_of elsewhere (set_all (weather_gauges (codes "Lea") (addr_hex here) ev) [])
          ≡ value_of elsewhere [])
    × ((ev : ThermalControlEvent)
        → value_of elsewhere (set_all (thermal_control_gauges (codes "Lea") (addr_hex here) ev) [])
          ≡ value_of elsewhere [])
    × ((ev : Thermal.InfoEvent)
        → value_of elsewhere (set_all (wall_gauges (codes "Lea") (addr_hex here) ev) [])
          ≡ value_of elsewhere [])
    × ((ev : InfoEvent)
        → value_of elsewhere (set_all (radiator_gauges (codes "Lea") (addr_hex here) ev) [])
          ≡ value_of elsewhere [])
unfolding addr_hex
gauges_apart_example =
    gauges_apart (codes "Lea") here there elsewhere [] (omega arith) (omega arith) other refl
