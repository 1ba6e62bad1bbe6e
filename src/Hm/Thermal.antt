-- ===== src/Hm/Thermal.antt =====
-- internal/hm/thermal: the wall thermostat's events. Temperatures are in the unit that the source
-- divides down to; `>> n` is `/ 2 ^ n`, and `& hm.MaskNBit` is `% 2 ^ n`.
use hmgo.Prelude.{ℕ, ◌+◌, ◌*◌, ◌/◌, ◌%◌, ◌^◌, ◌≡◌, ◌≤◌, refl, arith, List, [], ◌∷◌, ◌++◌, bit_or}
use hmgo.Prelude.{
  ◌<◌, ◌≢◌, ◌⊎◌, inl, inr, Bool, true, false, Option, none, some, Bytes, IsByte, length, ◌==◌,
}
use hmgo.Effect.{ok, fail, Effect}
use hmgo.Fault.{Error, unexpected_payload_size}
use hmgo.Hm.{StandardDevice}

-- In tenths of ℃, and percentage points.
pub record WeatherEvent : Type 0 where
  pub temperature : ℕ
  pub humidity : ℕ

-- The target temperature is in halves of ℃, the actual one in tenths.
pub record ThermalControlEvent : Type 0 where
  pub set_temperature : ℕ
  pub actual_temperature : ℕ
  pub actual_humidity : ℕ

-- The battery state is in tenths of V; the control mode is its number, from AutoMode 0 on.
pub record InfoEvent : Type 0 where
  pub set_temperature : ℕ
  pub actual_temperature : ℕ
  pub lowbat_reporting : Bool
  pub communication_reporting : Bool
  pub window_open_reporting : Bool
  pub battery_state : ℕ
  pub control : ℕ
  pub boost_state : ℕ

pub record ThermalControl (S : Type 0) : Type 0 where
  pub device : StandardDevice S
  pub latest_weather_event : Option WeatherEvent
  pub latest_thermal_control_event : Option ThermalControlEvent
  pub latest_info_event : Option InfoEvent

-- `int16(payload[0])<<8 | int16(payload[1])`, of which the mask keeps 14 bits.
unfoldable pub weather_event_of : Bytes → Option WeatherEvent
weather_event_of (b0 ∷ b1 ∷ b2 ∷ []) =
    some (record { temperature = (b0 * 2 ^ 8 + b1) % 2 ^ 14; humidity = b2 })
weather_event_of _ = none

unfoldable pub thermal_control_event_of : Bytes → Option ThermalControlEvent
thermal_control_event_of (b0 ∷ b1 ∷ b2 ∷ []) = some (record {
  set_temperature = b0 / 2 ^ 2 % 2 ^ 6;
  actual_temperature = bit_or (b0 % 2 ^ 2) b1;
  actual_humidity = b2;
})
thermal_control_event_of _ = none

unfoldable pub info_event_of : Bytes → Option InfoEvent
info_event_of (b0 ∷ b1 ∷ b2 ∷ b3 ∷ b4 ∷ []) = some (record {
  set_temperature = b1 / 2 ^ 2 % 2 ^ 6;
  actual_temperature = bit_or (b1 % 2 ^ 2) b2;
  lowbat_reporting = b3 / 2 ^ 7 == 1;
  communication_reporting = b3 / 2 ^ 6 == 1;
  window_open_reporting = b3 / 2 ^ 5 == 1;
  battery_state = b3 % 2 ^ 5 + 15;
  control = b4 / 2 ^ 6 % 2 ^ 2;
  boost_state = b4 % 2 ^ 6;
})
info_event_of _ = none

module _ {S : Type 0} where
  -- `DecodeWeatherEvent`, which also stores the event, as the two others do.
  unfoldable pub decode_weather_event : Bytes → Effect (ThermalControl S) Error WeatherEvent
  unfolding weather_event_of
  decode_weather_event payload tc = elim (weather_event_of payload) [
    | none ↦ (fail (unexpected_payload_size (length payload) 3), tc)
    | some we ↦ (ok we, record tc { latest_weather_event = some we })
  ]

  unfoldable pub decode_thermal_control_event :
      Bytes → Effect (ThermalControl S) Error ThermalControlEvent
  unfolding thermal_control_event_of
  decode_thermal_control_event payload tc = elim (thermal_control_event_of payload) [
    | none ↦ (fail (unexpected_payload_size (length payload) 3), tc)
    | some tce ↦ (ok tce, record tc { latest_thermal_control_event = some tce })
  ]

  unfoldable pub decode_info_event : Bytes → Effect (ThermalControl S) Error InfoEvent
  unfolding info_event_of
  decode_info_event payload tc = elim (info_event_of payload) [
    | none ↦ (fail (unexpected_payload_size (length payload) 5), tc)
    | some ie ↦ (ok ie, record tc { latest_info_event = some ie })
  ]

-- What `MostRecentEvents` returns as values of the interface `hm.Event`.
pub data Event : Type 0 where
  weather : WeatherEvent → Event
  thermal_control : ThermalControlEvent → Event
  info : InfoEvent → Event

unfoldable pub if_present : {A : Type 0} → (A → Event) → Option A → List Event
if_present f none = []
if_present f (some e) = f e ∷ []

-- `MostRecentEvents`.
unfoldable pub most_recent_events : {S : Type 0} → ThermalControl S → List Event
unfolding if_present
most_recent_events tc =
    if_present weather tc.latest_weather_event
    ++ if_present thermal_control tc.latest_thermal_control_event
    ++ if_present info tc.latest_info_event

byte_flag : (b : ℕ) → 2 ^ 7 ≤ b → IsByte b → (b / 2 ^ 7 == 1) ≡ true
byte_flag b h l = ground arith

no_other_flag : (b : ℕ) → 2 ^ 7 ≤ b → ((b / 2 ^ 6 == 1) ≡ false) × ((b / 2 ^ 5 == 1) ≡ false)
no_other_flag b h = (ground arith, ground arith)

-- If the highest bit of the fourth byte is set, the decoded event reports a low battery, and it
-- reports neither the communication flag nor an open window, whatever the two bits below say.
pub lowbat_hides_flags :
    {S : Type 0} (b0 b1 b2 b3 b4 : ℕ) (tc : ThermalControl S)
    → 2 ^ 7 ≤ b3
    → IsByte b3
    → (ie : InfoEvent) × (decode_info_event (b0 ∷ b1 ∷ b2 ∷ b3 ∷ b4 ∷ []) tc
        ≡ (ok ie, record tc { latest_info_event = some ie }))
      × (ie.lowbat_reporting ≡ true)
      × (ie.communication_reporting ≡ false)
      × (ie.window_open_reporting ≡ false)
unfolding decode_info_event info_event_of
lowbat_hides_flags b0 b1 b2 b3 b4 tc h l =
    (_, refl, byte_flag b3 h l, (no_other_flag b3 h).0, (no_other_flag b3 h).1)

-- DecodeWeatherEvent on any payload: with three bytes it returns an event with a temperature of 14
-- bits, which is the first of the most recent events then, and else it returns the error on the
-- size and changes nothing.
pub decode_weather_event_cases :
    {S : Type 0} (payload : Bytes) (tc : ThermalControl S)
    → ((we : WeatherEvent) × (later : ThermalControl S) × (rest : List Event) × (length payload ≡ 3)
        × (decode_weather_event payload tc ≡ (ok we, later))
        × (we.temperature < 2 ^ 14)
        × (most_recent_events later ≡ weather we ∷ rest))
      ⊎ ((length payload ≢ 3)
          × (decode_weather_event payload tc
              ≡ (fail (unexpected_payload_size (length payload) 3), tc)))
unfolding decode_weather_event weather_event_of most_recent_events
decode_weather_event_cases [] tc = inr (ground arith, refl)
decode_weather_event_cases (a ∷ []) tc = inr (ground arith, refl)
decode_weather_event_cases (a ∷ b ∷ []) tc = inr (ground arith, refl)
decode_weather_event_cases (a ∷ b ∷ c ∷ []) tc = inl (_, _, _, refl, refl, omega arith, refl)
decode_weather_event_cases (a ∷ b ∷ c ∷ d ∷ rest) tc = inr (ground arith, refl)
