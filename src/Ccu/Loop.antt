-- ===== src/Ccu/Loop.antt =====
-- ccu.go: the main loop, and the two handlers that switch the power on and off beside it.
use hmgo.Prelude.{ℕ, List, [], ◌∷◌, Bool, true, false, Option, none, some, Bytes, get_elem?, set}
use hmgo.Effect.{Outcome, ok, fail, panic, stuck, Effect, pure, guard, ◌>>=◌, ◌>>◌}
use hmgo.Fault.{Error, unexpected_cmd}
use hmgo.Uartgw.Command.{app_recv, same_cmd, iota}
use hmgo.Uartgw.Packet.{Packet, read_packet}
use hmgo.Uartgw.Session.{Time, set_time}
use hmgo.Bidcos.{decode}
use hmgo.Bidcos
use hmgo.Bidcos.Radio.{uartgw}
use hmgo.Hm.Power.{level_set}
use hmgo.Ccu.Devices.{Model, power, Device, Event, Ccu, on_gateway}
use hmgo.Ccu.Dispatch.{handle_packet}

module _ (checksum : Bytes → ℕ) where
  -- The tick of the clock, if there is one.
  unfoldable pub tick : Option Time → Effect Ccu Error (Unit {0})
  tick none s = (ok tt, s)
  tick (some now) s = on_gateway (set_time checksum now) s

  -- `avr.LevelSet(power.ChannelSwitch, state, 0x00)`. The handlers write an error into the response
  -- and go on: the result says whether the response is `OK`.
  unfoldable pub respond : {A : Type 0} → Outcome Error A → Outcome Error Bool
  respond (ok a) = ok true
  respond (fail e) = ok false
  respond panic = panic
  respond stuck = stuck

  unfoldable pub set_level : ℕ → Model → Bytes → ℕ → Effect Ccu Error Bool
  unfolding respond
  set_level p (power ps) name state s =
      let o =
        level_set (uartgw checksum) 0x01 state 0x00
          (record ps { device = record ps.device { bcs = s.bcs } }) in
      (
        respond o.0,
        record s {
          bcs = o.1.device.bcs;
          devices = set s.devices p (record { name = name; model = power o.1 });
        },
      )
  set_level p m name state s = (panic, s)

  unfoldable pub set_level_at : ℕ → Option Device → ℕ → Effect Ccu Error Bool
  unfolding set_level
  set_level_at p none state s = (panic, s)
  set_level_at p (some d) state s = set_level p d.model d.name state s

  -- The handlers of /power/on and /power/off, for the power switch at `p`.
  unfoldable pub power_on : ℕ → Effect Ccu Error Bool
  unfolding set_level_at
  power_on p s = set_level_at p (get_elem? s.devices p) 0xc8 s

  unfoldable pub power_off : ℕ → Effect Ccu Error Bool
  unfolding set_level_at
  power_off p s = set_level_at p (get_elem? s.devices p) 0x00 s

  module _ (marshal : Event → Option Bytes) where
    -- An invalid BidCoS packet is skipped.
    unfoldable pub handle_decoded : Outcome Error Bidcos.Packet → Effect Ccu Error (Unit {0})
    handle_decoded (ok pkt) = handle_packet checksum marshal pkt
    handle_decoded _ = pure tt

    -- A packet of the gateway; other commands than AppRecv end the program.
    unfoldable pub handle_received : Packet → Effect Ccu Error (Unit {0})
    unfolding handle_decoded decode
    handle_received pkt =
        guard (same_cmd pkt.cmd app_recv) (unexpected_cmd (iota pkt.cmd) (iota app_recv))
        >> handle_decoded (decode pkt.payload)

    -- One round of the main loop. An error ends the program.
    unfoldable pub round : Option Time → Effect Ccu Error (Unit {0})
    unfolding tick handle_received
    round now = tick now >> (on_gateway (read_packet checksum) >>= handle_received)

    -- The rounds that come, with the ticks of the clock.
    unfoldable pub rounds : List (Option Time) → Effect Ccu Error (Unit {0})
    rounds [] = pure tt
    rounds (now ∷ later) = round now >> rounds later
