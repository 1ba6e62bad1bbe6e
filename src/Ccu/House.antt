-- ===== src/Ccu/House.antt =====
-- ccu.go: the devices of the house, their addresses and serial numbers, and the heating programs.
use hmgo.Prelude.{ℕ, ◌+◌, ◌*◌, ◌^◌, List, [], ◌∷◌, none, Bytes, codes}
use hmgo.Uartgw.Packet.{Addr, Uartgw}
use hmgo.Bidcos.{Sender}
use hmgo.Hm.{StandardDevice}
use hmgo.Hm.Programs.{Program, ProgramEntry}
use hmgo.Ccu.Devices.{Model, power, thermal, heating, Device, Ccu}

abbrev pub home : Addr
home = (0xfd, 0xb0, 0x2c)

-- The places of the devices, in the order of their declarations.
abbrev pub avr : ℕ
avr = 0

abbrev pub thermal_bad : ℕ
thermal_bad = 1

abbrev pub thermal_wohnzimmer : ℕ
thermal_wohnzimmer = 2

abbrev pub thermal_schlafzimmer : ℕ
thermal_schlafzimmer = 3

abbrev pub thermal_lea : ℕ
thermal_lea = 4

abbrev pub thermostat_bad : ℕ
thermostat_bad = 5

abbrev pub thermostat_wohnzimmer : ℕ
thermostat_wohnzimmer = 6

abbrev pub thermostat_schlafzimmer : ℕ
thermostat_schlafzimmer = 7

abbrev pub thermostat_lea : ℕ
thermostat_lea = 8

-- `hm.StandardDevice{BCS: bcs, Addr: addr, …}`, and the three constructors.
abbrev pub standard_device : Sender Uartgw → Addr → StandardDevice Uartgw
standard_device bcs addr = record { bcs = bcs; addr = addr; msgcnt = 0 }

abbrev pub new_power_switch : StandardDevice Uartgw → Model
new_power_switch sd = power (record { device = sd; latest_power_event = none })

abbrev pub new_thermal_control : StandardDevice Uartgw → Model
new_thermal_control sd = thermal (record {
  device = sd;
  latest_weather_event = none;
  latest_thermal_control_event = none;
  latest_info_event = none;
})

abbrev pub new_thermostat : StandardDevice Uartgw → Model
new_thermostat sd = heating (record { device = sd; latest_info_event = none })

abbrev pub named : Bytes → (StandardDevice Uartgw → Model) → Sender Uartgw → Addr → Device
named name new bcs addr = record { name = name; model = new (standard_device bcs addr) }

abbrev pub devices_of : Sender Uartgw → List Device
devices_of bcs =
    named (codes "avr") new_power_switch bcs (0x40, 0xc2, 0xa8)
    ∷ named (codes "Bad") new_thermal_control bcs (0x39, 0x0f, 0x17)
    ∷ named (codes "Wohnzimmer") new_thermal_control bcs (0x39, 0x06, 0xeb)
    ∷ named (codes "Schlafzimmer") new_thermal_control bcs (0x39, 0x06, 0xda)
    ∷ named (codes "Lea") new_thermal_control bcs (0x39, 0x0f, 0x27)
    ∷ named (codes "Bad") new_thermostat bcs (0x73, 0xf7, 0xee)
    ∷ named (codes "Wohnzimmer") new_thermostat bcs (0x38, 0xf5, 0x9c)
    ∷ named (codes "Schlafzimmer") new_thermostat bcs (0x38, 0xe8, 0xe3)
    ∷ named (codes "Lea") new_thermostat bcs (0x38, 0xe8, 0xef)
    ∷ []

abbrev pub by_addr_map : List (Addr × ℕ)
by_addr_map =
    ((0x39, 0x0f, 0x17), thermal_bad)
    ∷ ((0x39, 0x06, 0xeb), thermal_wohnzimmer)
    ∷ ((0x39, 0x06, 0xda), thermal_schlafzimmer)
    ∷ ((0x39, 0x0f, 0x27), thermal_lea)
    ∷ ((0x38, 0xf5, 0x9c), thermostat_wohnzimmer)
    ∷ ((0x73, 0xf7, 0xee), thermostat_bad)
    ∷ ((0x38, 0xe8, 0xe3), thermostat_schlafzimmer)
    ∷ ((0x38, 0xe8, 0xef), thermostat_lea)
    ∷ ((0x40, 0xc2, 0xa8), avr)
    ∷ []

abbrev pub by_serial_map : List (Bytes × ℕ)
by_serial_map =
    (codes "MEQ0090662", thermal_bad)
    ∷ (codes "MEQ0089016", thermal_wohnzimmer)
    ∷ (codes "MEQ0088999", thermal_schlafzimmer)
    ∷ (codes "MEQ0090675", thermal_lea)
    ∷ (codes "MEQ0059922", thermostat_wohnzimmer)
    ∷ (codes "REQ1905196", thermostat_bad)
    ∷ (codes "MEQ0059220", thermostat_schlafzimmer)
    ∷ (codes "MEQ0059216", thermostat_lea)
    ∷ (codes "MEQ1341845", avr)
    ∷ []

abbrev pub fresh : Sender Uartgw → Ccu
fresh bcs = record {
  bcs = bcs;
  devices = devices_of bcs;
  by_addr = by_addr_map;
  by_serial = by_serial_map;
  requests = [];
}

-- `{endtime, temperature}` with the end time in hours and the temperature in halves of ℃.
abbrev pub entry : ℕ → ℕ → ProgramEntry
entry hours halves = record { endtime = hours * 60; temperature = halves }

abbrev pub unset : ProgramEntry
unset = record { endtime = 0; temperature = 0 }

-- Arrays of thirteen entries, of which four and two are given.
abbrev pub four_entries :
    ProgramEntry → ProgramEntry → ProgramEntry → ProgramEntry → List ProgramEntry
four_entries a b c d =
    a ∷ b ∷ c ∷ d ∷ unset ∷ unset ∷ unset ∷ unset ∷ unset ∷ unset ∷ unset ∷ unset ∷ unset ∷ []

abbrev pub two_entries : ProgramEntry → ProgramEntry → List ProgramEntry
two_entries a b =
    a ∷ b ∷ unset ∷ unset ∷ unset ∷ unset ∷ unset ∷ unset ∷ unset ∷ unset ∷ unset ∷ unset ∷ unset
    ∷ []

-- `WeekdayMask` and `WeekendMask`.
abbrev pub weekday_mask : ℕ
weekday_mask = 2 ^ 1 + 2 ^ 2 + 2 ^ 3 + 2 ^ 4 + 2 ^ 5

abbrev pub weekend_mask : ℕ
weekend_mask = 2 ^ 6 + 2 ^ 0

-- The programs of three rooms, and those of `thermalLea`.
abbrev pub room_programs : List Program
room_programs =
    record {
      day_mask = weekday_mask;
      endtimes = four_entries (entry 6 34) (entry 10 44) (entry 17 34) (entry 23 44);
    }
    ∷ record { day_mask = weekend_mask; endtimes = two_entries (entry 6 34) (entry 23 44) }
    ∷ []

abbrev pub lea_programs : List Program
lea_programs =
    record {
      day_mask = weekday_mask;
      endtimes = four_entries (entry 6 48) (entry 10 48) (entry 17 48) (entry 23 48);
    }
    ∷ record { day_mask = weekend_mask; endtimes = two_entries (entry 6 48) (entry 23 48) }
    ∷ []
