-- ===== src/Ccu/Threads/Whole.antt =====
-- The pieces of the code that the threads run, put together again, and sequences of whole steps.
use hmgo.Prelude.{ℕ, ◌≡◌, refl, Option, Bytes}
use hmgo.Effect.{Outcome, ◌>>◌}
use hmgo.Fault.{Error}
use hmgo.Uartgw.Packet.{Packet, Addr, Uartgw, read_packet}
use hmgo.Uartgw.Session.{Time, set_time}
use hmgo.Bidcos.{Sender, write_packet}
use hmgo.Bidcos.Radio.{uartgw}
use hmgo.Hm.Power.{PowerSwitch, level_set}
use hmgo.Ccu.Devices.{Event, Ccu, on_gateway}
use hmgo.Ccu.Threads.{
  level_packet, Loop, selecting, unlocking, handling, ended, with_bcs, next, sends, confirms,
  asks_time, takes_answer, process,
}

-- The loop with whole steps: before its next ReadPacket, with what ReadPacket returned, and at the end.
pub data Turn : Type 0 where
  ready : Turn
  got : Outcome Error Packet → Turn
  over : Turn

abbrev pub turn_of : Loop → Turn
turn_of (unlocking o) = got o
turn_of (handling o) = got o
turn_of ended = over
turn_of _ = ready

module _ (checksum : Bytes → ℕ) where
  -- The pieces make up the code.
  pub write_packet_pieces :
      (addr : Addr) (state : ℕ) (b : Sender Uartgw)
      → write_packet (uartgw checksum) (level_packet addr state) b
        ≡ (sends checksum addr state >> confirms checksum) b
  unfolding write_packet sends confirms
  write_packet_pieces addr state b = refl

  level_set_packet :
      (state : ℕ) (ps : PowerSwitch Uartgw)
      → level_set (uartgw checksum) 1 state 0 ps ≡ (
          let o =
            write_packet (uartgw checksum) (level_packet ps.device.addr state) ps.device.bcs in
          (o.0, record ps { device = record ps.device { bcs = o.1 } }))
  unfolding level_set
  level_set_packet state ps = refl

  set_time_pieces :
      (now : Time) (u : Uartgw)
      → set_time checksum now u ≡ (asks_time checksum now >> takes_answer checksum) u
  unfolding set_time asks_time takes_answer
  set_time_pieces now u = refl

module _ (checksum : Bytes → ℕ) (marshal : Event → Option Bytes) (addr : Addr) where
  -- Whole steps from the central `c`: a LevelSet, a ReadPacket of the loop, and what the loop does
  -- with its result.
  pub data Whole (c : Ccu) : Ccu → Turn → Type 0 where
    opens : Whole c c ready
    switched :
        {a : Ccu} {t : Turn} (state : ℕ)
        → Whole c a t
        → Whole c (with_bcs (write_packet (uartgw checksum) (level_packet addr state) a.bcs).1 a) t
    received :
        {a : Ccu}
        → Whole c a ready
        → Whole c
            (on_gateway (read_packet checksum) a).1
            (got (read_packet checksum a.bcs.gateway).0)
    handled :
        {a : Ccu} (o : Outcome Error Packet)
        → Whole c a (got o)
        → Whole c
            (process checksum marshal o a).1
            (turn_of (next selecting (process checksum marshal o a).0))
