-- ===== src/Tests/Events.antt =====
-- The payloads of the packages' own tests, and the event theorems at concrete inputs.
use hmgo.Prelude.{Bytes, List, ◌<◌, ◌≤◌, ◌⊎◌}
use hmgo.Prelude.{◌≡◌, refl, arith, [], ◌∷◌, true, false, none, some}
use hmgo.Effect.{ok}
use hmgo.Hm.{StandardDevice}
use hmgo.Hm.Link.{Link}
use hmgo.Hm.Power.{
  PowerEvent, PowerSwitch, power_event_of, decode_power_event, most_recent_events, power_payload,
  decode_power_event-power_payload,
}
use hmgo.Hm.Thermal.{
  ThermalControl, InfoEvent, weather_event_of, thermal_control_event_of, decode_info_event,
  lowbat_hides_flags,
}
use hmgo.Hm.Heating.{info_event_of as heating_event_of}
use hmgo.Ccu.{in_summer, heat_entry, override_winter, HeatedPrograms, override_winter_cases}
use hmgo.Hm.Programs.{Program, ProgramEntry}

abbrev device : StandardDevice Link
device = record {
  bcs = record {
    gateway = record { inbox = []; outbox = [] };
    addr = (0xfd, 0xee, 0xdd);
    counter = 18;
  };
  addr = (0xaa, 0xbb, 0xcc);
  msgcnt = 0;
}

abbrev measured : PowerEvent
measured = record {
  boot = true;
  energy_counter = 906;
  power = 187;
  current = 16;
  voltage = 2312;
  frequency = 5255;
}

power_event_test :
    power_event_of (128 ∷ 3 ∷ 138 ∷ 0 ∷ 0 ∷ 187 ∷ 0 ∷ 16 ∷ 9 ∷ 8 ∷ 255 ∷ []) ≡ some measured
unfolding power_event_of
power_event_test = refl

weather_event_test :
    weather_event_of (0 ∷ 253 ∷ 57 ∷ []) ≡ some (record { temperature = 253; humidity = 57 })
unfolding weather_event_of
weather_event_test = refl

thermal_control_event_test :
    thermal_control_event_of (200 ∷ 215 ∷ 65 ∷ [])
    ≡ some (record { set_temperature = 50; actual_temperature = 215; actual_humidity = 65 })
unfolding thermal_control_event_of
thermal_control_event_test = refl

-- A room at 26.0 ℃ is the number 260, the bit 8 of which is in the first byte. The event says 0.5 ℃.
warm_room_test :
    thermal_control_event_of (201 ∷ 4 ∷ 65 ∷ [])
    ≡ some (record { set_temperature = 50; actual_temperature = 5; actual_humidity = 65 })
unfolding thermal_control_event_of
warm_room_test = refl

heating_event_test :
    heating_event_of (0x0a ∷ 0xb0 ∷ 0xe2 ∷ 0x08 ∷ 0x00 ∷ 0x00 ∷ [])
    ≡ some (record {
      set_temperature = 44;
      actual_temperature = 226;
      fault = 0;
      battery_state = 23;
      valve_state = 0;
      control = 0;
      boost_state = 0;
    })
unfolding heating_event_of
heating_event_test = refl

abbrev switch : PowerSwitch Link
switch = record { device = device; latest_power_event = none }

decode_power_event-power_payload_example :
    (decode_power_event (power_payload measured) switch
      ≡ (ok measured, record switch { latest_power_event = some measured }))
    × (most_recent_events (decode_power_event (power_payload measured) switch).1 ≡ measured ∷ [])
decode_power_event-power_payload_example =
    decode_power_event-power_payload measured switch (omega arith) (omega arith)

abbrev wall : ThermalControl Link
wall = record {
  device = device;
  latest_weather_event = none;
  latest_thermal_control_event = none;
  latest_info_event = none;
}

lowbat_hides_flags_example :
    (ie : InfoEvent) × (decode_info_event (0x0b ∷ 0xb0 ∷ 0xdf ∷ 0xee ∷ 0x00 ∷ []) wall
      ≡ (ok ie, record wall { latest_info_event = some ie }))
    × (ie.lowbat_reporting ≡ true)
    × (ie.communication_reporting ≡ false)
    × (ie.window_open_reporting ≡ false)
lowbat_hides_flags_example =
    lowbat_hides_flags 0x0b 0xb0 0xdf 0xee 0x00 wall (omega arith) (omega arith)

abbrev morning : ProgramEntry
morning = record { endtime = 602; temperature = 44 }

abbrev weather_bytes : Bytes
weather_bytes = 0 ∷ 253 ∷ 57 ∷ []

abbrev nothing : ProgramEntry
nothing = record { endtime = 0; temperature = 0 }

abbrev week : List Program
week =
    record {
      day_mask = 62;
      endtimes =
          morning ∷ nothing ∷ nothing ∷ nothing ∷ nothing ∷ nothing ∷ nothing ∷ nothing ∷ nothing
          ∷ nothing ∷ nothing ∷ nothing ∷ nothing ∷ [];
    }
    ∷ []

override_winter_cases_example :
    (5 ≤ 1) × (1 ≤ 8) × (override_winter 1 week ≡ week)
    ⊎ ((1 < 5) ⊎ (8 < 1)) × HeatedPrograms week (override_winter 1 week)
override_winter_cases_example = override_winter_cases 1 week

winter_week_test :
    (in_summer 1 ≡ false) × (heat_entry morning ≡ record { endtime = 602; temperature = 48 })
unfolding in_summer heat_entry
winter_week_test = (refl, refl)
