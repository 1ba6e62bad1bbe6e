-- ===== src/Hm/Gauges.antt =====
-- The Prometheus gauges that the decoders of internal/hm set: powerevent.go, infoevent.go,
-- weatherevent.go and thermalcontrolevent.go.
pub mod Faults
pub mod Apart
use hmgo.Prelude.{
  ℕ, ◌+◌, ◌*◌, List, [], ◌∷◌, ◌++◌, Bool, true, false, Option, none, some, Bytes, codes,
}
use hmgo.Prelude.{equal, ◌&&◌, ◌==◌, if◌then◌else◌}
use hmgo.Hm.Power.{PowerEvent}
use hmgo.Hm.Thermal.{WeatherEvent, ThermalControlEvent}
use hmgo.Hm.Thermal
use hmgo.Hm.Heating

-- One gauge of a GaugeVec: the labels `name` and `address`, and those that not all of them have.
pub record Gauge : Type 0 where
  pub metric : Bytes
  pub more : List (Bytes × Bytes)
  pub name : Bytes
  pub address : Bytes

unfoldable pub equal_labels : List (Bytes × Bytes) → List (Bytes × Bytes) → Bool
equal_labels [] [] = true
equal_labels ((k, v) ∷ ls) ((l, w) ∷ ms) = equal k l && equal v w && equal_labels ls ms
equal_labels _ _ = false

unfoldable pub equal_gauge : Gauge → Gauge → Bool
unfolding equal_labels
equal_gauge g h =
    equal g.metric h.metric
    && equal_labels g.more h.more
    && equal g.name h.name
    && equal g.address h.address

-- What was set, the latest first. A value is a numerator and a denominator.
abbrev pub Registry : Type 0
Registry = List (Gauge × (ℕ × ℕ))

unfoldable pub value_of : Gauge → Registry → Option (ℕ × ℕ)
unfolding equal_gauge
value_of g [] = none
value_of g ((h, v) ∷ r) = if equal_gauge h g then some v else value_of g r

-- `With(…).Set(…)`, one after the other.
abbrev pub set_all : Registry → Registry → Registry
set_all [] r = r
set_all (s ∷ later) r = set_all later (s ∷ r)

-- `boolToFloat64`.
abbrev pub bool_to_float64 : Bool → ℕ × ℕ
bool_to_float64 val = (if val then 1 else 0, 1)

-- A gauge of the device, by its namespace and name.
abbrev pub gauge : Bytes → Bytes → Bytes → List (Bytes × Bytes) → Bytes → Gauge
gauge name address namespace more metric = record {
  metric = namespace ++ (codes "_" ++ metric);
  more = more;
  name = name;
  address = address;
}

module _ (name address : Bytes) where
  abbrev in_power : Bytes → Gauge
  in_power = gauge name address (codes "hmpower") []

  abbrev in_thermal : Bytes → Gauge
  in_thermal = gauge name address (codes "hmthermal") []

  abbrev in_heating : Bytes → Gauge
  in_heating = gauge name address (codes "hmheating") []

  -- DecodePowerEvent.
  abbrev pub power_gauges : PowerEvent → Registry
  power_gauges pe =
      (in_power (codes "PowerEventBoot"), bool_to_float64 pe.boot)
      ∷ (in_power (codes "PowerEventEnergyCounter"), (pe.energy_counter, 10))
      ∷ (in_power (codes "PowerEventPower"), (pe.power, 100))
      ∷ (in_power (codes "PowerEventCurrent"), (pe.current, 1))
      ∷ (in_power (codes "PowerEventVoltage"), (pe.voltage, 10))
      ∷ (in_power (codes "PowerEventFrequency"), (pe.frequency, 100))
      ∷ []

  -- DecodeWeatherEvent, DecodeThermalControlEvent and DecodeInfoEvent of the wall thermostat.
  abbrev pub weather_gauges : WeatherEvent → Registry
  weather_gauges we =
      (in_thermal (codes "WeatherEventTemperature"), (we.temperature, 10))
      ∷ (in_thermal (codes "WeatherEventHumidity"), (we.humidity, 1))
      ∷ []

  abbrev pub thermal_control_gauges : ThermalControlEvent → Registry
  thermal_control_gauges tce =
      (in_thermal (codes "ThermalControlEventSetTemperature"), (tce.set_temperature, 2))
      ∷ (in_thermal (codes "ThermalControlEventActualTemperature"), (tce.actual_temperature, 10))
      ∷ (in_thermal (codes "ThermalControlEventActualHumidity"), (tce.actual_humidity, 1))
      ∷ []

  abbrev pub wall_gauges : Thermal.InfoEvent → Registry
  wall_gauges ie =
      (in_thermal (codes "InfoEventSetTemperature"), (ie.set_temperature, 2))
      ∷ (in_thermal (codes "InfoEventActualTemperature"), (ie.actual_temperature, 10))
      ∷ (in_thermal (codes "InfoEventLowbatReporting"), bool_to_float64 ie.lowbat_reporting)
      ∷ (
        in_thermal (codes "InfoEventCommunicationReporting"),
        bool_to_float64 ie.communication_reporting,
      )
      ∷ (
        in_thermal (codes "InfoEventWindowOpenReporting"),
        bool_to_float64 ie.window_open_reporting,
      )
      ∷ (
        gauge name address (codes "hmthermal") ((codes "hmtype", codes "thermal") ∷ [])
            (codes "InfoEventBatteryState"),
        (ie.battery_state, 10),
      )
      ∷ (in_thermal (codes "InfoEventControl"), (ie.control, 1))
      ∷ (in_thermal (codes "InfoEventBoostState"), (ie.boost_state, 1))
      ∷ []

  -- DecodeInfoEvent of the radiator thermostat: a gauge for each fault and for each mode but auto.
  abbrev pub fault_gauge : Bytes → Gauge
  fault_gauge fault =
      gauge name address (codes "hmheating") ((codes "fault", fault) ∷ []) (codes "InfoEventFault")

  abbrev pub mode_gauge : Bytes → Gauge
  mode_gauge mode =
      gauge name address (codes "hmheating") ((codes "mode", mode) ∷ []) (codes "InfoEventControl")

  abbrev pub radiator_gauges : Heating.InfoEvent → Registry
  radiator_gauges ie =
      (in_heating (codes "InfoEventSetTemperature"), (ie.set_temperature, 2))
      ∷ (in_heating (codes "InfoEventActualTemperature"), (ie.actual_temperature, 10))
      ∷ (fault_gauge (codes "valvetight"), bool_to_float64 (ie.fault == 1))
      ∷ (fault_gauge (codes "adjustingrangetoosmall"), bool_to_float64 (ie.fault == 3))
      ∷ (fault_gauge (codes "adjustingrangetoolarge"), bool_to_float64 (ie.fault == 2))
      ∷ (fault_gauge (codes "communicationerror"), bool_to_float64 (ie.fault == 4))
      ∷ (fault_gauge (codes "lowbat"), bool_to_float64 (ie.fault == 6))
      ∷ (fault_gauge (codes "valveerrorposition"), bool_to_float64 (ie.fault == 7))
      ∷ (
        gauge name address (codes "hmheating") ((codes "hmtype", codes "heating") ∷ [])
            (codes "InfoEventBatteryState"),
        (ie.battery_state, 10),
      )
      ∷ (in_heating (codes "InfoEventValveState"), (ie.valve_state, 1))
      ∷ (mode_gauge (codes "manu"), bool_to_float64 (ie.control == 1))
      ∷ (mode_gauge (codes "party"), bool_to_float64 (ie.control == 2))
      ∷ (mode_gauge (codes "boost"), bool_to_float64 (ie.control == 3))
      ∷ (in_heating (codes "InfoEventBoostState"), (ie.boost_state, 1))
      ∷ []
