-- ===== src/Hm/Heating.antt =====
-- internal/hm/heating: the radiator thermostat's events, in the units of Hm/Thermal.antt.
use hmgo.Prelude.{ℕ, ◌+◌, ◌/◌, ◌%◌, ◌^◌, [], ◌∷◌, bit_or, Option, none, some, Bytes, length, List}
use hmgo.Effect.{ok, fail, Effect}
use hmgo.Fault.{Error, unexpected_payload_size}
use hmgo.Hm.{StandardDevice}

-- The fault and the control mode are their numbers, from NoFault 0 and AutoMode 0 on.
pub record InfoEvent : Type 0 where
  pub set_temperature : ℕ
  pub actual_temperature : ℕ
  pub fault : ℕ
  pub battery_state : ℕ
  pub valve_state : ℕ
  pub control : ℕ
  pub boost_state : ℕ

pub record Thermostat (S : Type 0) : Type 0 where
  pub device : StandardDevice S
  pub latest_info_event : Option InfoEvent

unfoldable pub info_event_of : Bytes → Option InfoEvent
info_event_of (b0 ∷ b1 ∷ b2 ∷ b3 ∷ b4 ∷ b5 ∷ []) = some (record {
  set_temperature = b1 / 2 ^ 2 % 2 ^ 6;
  actual_temperature = bit_or (b1 % 2 ^ 2) b2;
  fault = b3 / 2 ^ 5 % 2 ^ 3;
  battery_state = b3 % 2 ^ 5 + 15;
  valve_state = b4 % 2 ^ 7;
  control = b5 / 2 ^ 6 % 2 ^ 2;
  boost_state = b5 % 2 ^ 6;
})
info_event_of _ = none

module _ {S : Type 0} where
  -- `DecodeInfoEvent`, which also stores the event.
  unfoldable pub decode_info_event : Bytes → Effect (Thermostat S) Error InfoEvent
  unfolding info_event_of
  decode_info_event payload t = elim (info_event_of payload) [
    | none ↦ (fail (unexpected_payload_size (length payload) 6), t)
    | some ie ↦ (ok ie, record t { latest_info_event = some ie })
  ]

  -- `MostRecentEvents`.
  unfoldable pub most_recent_events : Thermostat S → List InfoEvent
  most_recent_events t = elim t.latest_info_event [ none ↦ [] | some ie ↦ ie ∷ [] ]
