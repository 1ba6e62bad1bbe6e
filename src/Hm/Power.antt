-- ===== src/Hm/Power.antt =====
-- internal/hm/power: the power switch. Floating-point fields are kept as whole numbers of the unit
-- that the source divides down to; `>> n` is `/ 2 ^ n`, and `& hm.MaskNBit` is `% 2 ^ n`.
use hmgo.Prelude.{ℕ, ◌+◌, ◌-◌, ◌*◌, ◌/◌, ◌%◌, ◌^◌, ◌<◌, ◌≤◌, ◌≡◌, ap, ◌∙◌, arith, List, [], ◌∷◌}
use hmgo.Prelude.{Bool, true, false, Option, none, some, Bytes, length, ◌==◌, if◌then◌else◌}
use hmgo.Effect.{ok, fail, Effect}
use hmgo.Fault.{Error, unexpected_payload_size}
use hmgo.Bidcos.{Gateway, default_flags, write_packet}
use hmgo.Hm.{StandardDevice, on_sender}

-- Energy in tenths of Wh, power in hundredths of W, current in mA, voltage in tenths of V, frequency
-- in hundredths of Hz.
pub record PowerEvent : Type 0 where
  pub boot : Bool
  pub energy_counter : ℕ
  pub power : ℕ
  pub current : ℕ
  pub voltage : ℕ
  pub frequency : ℕ

pub record PowerSwitch (S : Type 0) : Type 0 where
  pub device : StandardDevice S
  pub latest_power_event : Option PowerEvent

-- Bytes put together with `<<` and `|` have no common bits, so the sum is meant.
unfoldable pub power_event_of : Bytes → Option PowerEvent
power_event_of (b0 ∷ b1 ∷ b2 ∷ b3 ∷ b4 ∷ b5 ∷ b6 ∷ b7 ∷ b8 ∷ b9 ∷ b10 ∷ []) = some (record {
  boot = b0 / 2 ^ 7 % 2 ^ 1 == 1;
  energy_counter = b0 % 2 ^ 7 * 2 ^ 16 + b1 * 2 ^ 8 + b2;
  power = b3 * 2 ^ 16 + b4 * 2 ^ 8 + b5;
  current = b6 * 2 ^ 8 + b7;
  voltage = b8 * 2 ^ 8 + b9;
  frequency = b10 + 50 * 100;
})
power_event_of _ = none

module _ {S : Type 0} where
  -- `DecodePowerEvent`, which also stores the event.
  unfoldable pub decode_power_event : Bytes → Effect (PowerSwitch S) Error PowerEvent
  unfolding power_event_of
  decode_power_event payload ps = elim (power_event_of payload) [
    | none ↦ (fail (unexpected_payload_size (length payload) 11), ps)
    | some pe ↦ (ok pe, record ps { latest_power_event = some pe })
  ]

  -- `MostRecentEvents`.
  unfoldable pub most_recent_events : PowerSwitch S → List PowerEvent
  most_recent_events ps = elim ps.latest_power_event [ none ↦ [] | some pe ↦ pe ∷ [] ]

  -- `LevelSet`.
  unfoldable pub level_set : Gateway S → ℕ → ℕ → ℕ → Effect (PowerSwitch S) Error (Unit {0})
  level_set gw channel state on_time ps =
      let m = on_sender (
        write_packet gw (record {
          status = 0;
          info = 0;
          rssi = 0;
          msgcnt = 0;
          flags = default_flags;
          cmd = 0x11;
          source = (0, 0, 0);
          dest = ps.device.addr;
          payload = 0x02 ∷ channel ∷ state ∷ 0x00 ∷ on_time ∷ [];
        })) in
      ((m ps.device).0, record ps { device = (m ps.device).1 })

-- The payload with the layout of POWER_EVENT.
abbrev pub power_payload : PowerEvent → Bytes
power_payload e =
    ((if e.boot then 128 else 0) + e.energy_counter / 2 ^ 16)
    ∷ (e.energy_counter / 2 ^ 8 % 2 ^ 8)
    ∷ (e.energy_counter % 2 ^ 8)
    ∷ (e.power / 2 ^ 16)
    ∷ (e.power / 2 ^ 8 % 2 ^ 8)
    ∷ (e.power % 2 ^ 8)
    ∷ (e.current / 2 ^ 8)
    ∷ (e.current % 2 ^ 8)
    ∷ (e.voltage / 2 ^ 8)
    ∷ (e.voltage % 2 ^ 8)
    ∷ (e.frequency - 5000)
    ∷ []

boot_bit : (b : Bool) (n : ℕ) → n < 2 ^ 7 → (((if b then 128 else 0) + n) / 2 ^ 7 % 2 ^ 1 == 1) ≡ b
boot_bit true n h = ground arith
boot_bit false n h = ground arith

low_bits : (b : Bool) (n : ℕ) → n < 2 ^ 7 → ((if b then 128 else 0) + n) % 2 ^ 7 ≡ n
low_bits true n h = omega (arith, h)
low_bits false n h = omega (arith, h)

three_bytes : (n : ℕ) → n / 2 ^ 16 * 2 ^ 16 + n / 2 ^ 8 % 2 ^ 8 * 2 ^ 8 + n % 2 ^ 8 ≡ n
three_bytes n = omega arith

two_bytes : (n : ℕ) → n / 2 ^ 8 * 2 ^ 8 + n % 2 ^ 8 ≡ n
two_bytes n = omega arith

energy_bytes :
    (b : Bool) (n : ℕ)
    → n < 2 ^ 23
    → ((if b then 128 else 0) + n / 2 ^ 16) % 2 ^ 7 * 2 ^ 16 + n / 2 ^ 8 % 2 ^ 8 * 2 ^ 8 + n % 2 ^ 8
      ≡ n
energy_bytes b n h =
    ap (λ x. x * 2 ^ 16 + n / 2 ^ 8 % 2 ^ 8 * 2 ^ 8 + n % 2 ^ 8)
      (low_bits b (n / 2 ^ 16) (omega (arith, h)))
    ∙ three_bytes n

-- An event whose energy counter has 23 bits and whose frequency is at least 50 Hz is decoded from
-- its payload, and it is the most recent event of the switch then.
pub decode_power_event-power_payload :
    {S : Type 0} (e : PowerEvent) (ps : PowerSwitch S)
    → e.energy_counter < 2 ^ 23
    → 5000 ≤ e.frequency
    → (decode_power_event (power_payload e) ps ≡ (ok e, record ps { latest_power_event = some e }))
      × (most_recent_events (decode_power_event (power_payload e) ps).1 ≡ e ∷ [])
unfolding decode_power_event power_event_of most_recent_events
decode_power_event-power_payload {S = S} e ps h f =
    let same : Path PowerEvent
        (record {
          boot = ((if e.boot then 128 else 0) + e.energy_counter / 2 ^ 16) / 2 ^ 7 % 2 ^ 1 == 1;
          energy_counter =
              ((if e.boot then 128 else 0) + e.energy_counter / 2 ^ 16) % 2 ^ 7 * 2 ^ 16
              + e.energy_counter / 2 ^ 8 % 2 ^ 8 * 2 ^ 8
              + e.energy_counter % 2 ^ 8;
          power = e.power / 2 ^ 16 * 2 ^ 16 + e.power / 2 ^ 8 % 2 ^ 8 * 2 ^ 8 + e.power % 2 ^ 8;
          current = e.current / 2 ^ 8 * 2 ^ 8 + e.current % 2 ^ 8;
          voltage = e.voltage / 2 ^ 8 * 2 ^ 8 + e.voltage % 2 ^ 8;
          frequency = e.frequency - 5000 + 50 * 100;
        })
        e =
      λ i. record {
        boot = boot_bit e.boot (e.energy_counter / 2 ^ 16) (omega (arith, h)) i;
        energy_counter = energy_bytes e.boot e.energy_counter h i;
        power = three_bytes e.power i;
        current = two_bytes e.current i;
        voltage = two_bytes e.voltage i;
        frequency = back i;
      } in
    (ap (λ x. (ok x, record ps { latest_power_event = some x })) same, ap (λ x. x ∷ []) same)
  where
    back : e.frequency - 5000 + 50 * 100 ≡ e.frequency
    back = omega (arith, f)
