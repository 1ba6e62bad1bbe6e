-- ===== src/Ccu/Switching.antt =====
-- The handlers of /power/on and /power/off, down to the serial line.
use hmgo.Prelude.{ℕ, ◌<◌, ◌≡◌, refl, sym, ap, ◌∙◌, arith, List, ◌∷◌, ◌++◌, Bool, true, some}
use hmgo.Prelude.{Bytes, All, get_elem?}
use hmgo.Effect.{Outcome, ok}
use hmgo.Fault.{Error}
use hmgo.Uartgw.Command.{app}
use hmgo.Uartgw.Packet.{Uartgw, Addr}
use hmgo.Uartgw.Packet.Frame.{frame}
use hmgo.Uartgw.Session.Handshake.{Ready, Reply, Fits, message}
use hmgo.Uartgw.Traffic.Confirming.{received}
use hmgo.Bidcos.{Sender, encode}
use hmgo.Bidcos.Radio.{write_packet_acknowledged}
use hmgo.Hm.Power.{PowerSwitch, level_set}
use hmgo.Ccu.Devices.{power, Device, Ccu}
use hmgo.Prelude.{subst}
use hmgo.Ccu.Devices.{standard, with_standard}
use hmgo.Ccu.Kept.{Kept, stored, Same-with}
use hmgo.Ccu.Loop.{respond, set_level, set_level_at, power_on, power_off}
use hmgo.Ccu.Threads.{level_packet}

module _ (checksum : Bytes → ℕ) (bounded : (bs : Bytes) → checksum bs < 65536) where
  -- The frame that switches the power switch at `addr`, at the counters of the sender.
  abbrev pub level_frame : Addr → ℕ → Sender Uartgw → Bytes
  level_frame addr state b = frame checksum (
      app
      ∷ b.gateway.msgcnt
      ∷ 0x02
      ∷ (encode (record (level_packet addr state) { source = b.addr }) b.counter).0)

  -- The response is `OK`, one frame is on the line, and the central is ready for the rest with its
  -- maps, its requests and its devices as they were, but for what a device holds of the sender.
  pub record Switched (addr : Addr) (state : ℕ) (rest : Bytes) (v : List ℕ) (n : Bytes) (s : Ccu)
      (o : Outcome Error Bool × Ccu) : Type 0 where
    pub responds : o.0 ≡ ok true
    pub ready : Ready rest app v n o.1.bcs.gateway
    pub sent_is :
        o.1.bcs.gateway.port.sent ≡ s.bcs.gateway.port.sent ++ level_frame addr state s.bcs
    pub kept : Kept s o.1

  set_level-Switched :
      (name : Bytes) (ps : PowerSwitch Uartgw) (p state : ℕ) (rs : List Reply) (ack : Reply)
      (rest : Bytes) (v : List ℕ) (n : Bytes) (s : Ccu)
      → get_elem? s.devices p ≡ some (record { name = name; model = power ps })
      → All Fits rs
      → Fits ack
      → Ready
          (received checksum bounded rs (message checksum bounded 0x04 ack ++ rest))
          app
          v
          n
          s.bcs.gateway
      → Switched ps.device.addr state rest v n s (set_level checksum p (power ps) name state s)
  unfolding set_level level_set respond with_standard standard
  set_level-Switched name ps p state rs ack rest v n s e hs ha g =
      let (b, runs, ready, sent, _) =
        write_packet_acknowledged checksum bounded (level_packet ps.device.addr state) rs ack rest v
          n s.bcs (omega arith) hs ha g in
      let d : Device = record { name = name; model = power ps } in
      record {
        responds = ap (λ o. respond checksum o.0) runs;
        ready = subst (λ o. Ready rest app v n o.1.gateway) (sym runs) ready;
        sent_is = ap (λ o. o.1.gateway.port.sent) runs ∙ sent;
        kept = record {
          by_addr_is = refl;
          by_serial_is = refl;
          requests_is = refl;
          at = stored s.devices p d _ e (Same-with d (record ps.device { bcs = _ }) refl);
        };
      }

  set_level_at-Switched :
      (name : Bytes) (ps : PowerSwitch Uartgw) (p state : ℕ) (rs : List Reply) (ack : Reply)
      (rest : Bytes) (v : List ℕ) (n : Bytes) (s : Ccu)
      → get_elem? s.devices p ≡ some (record { name = name; model = power ps })
      → All Fits rs
      → Fits ack
      → Ready
          (received checksum bounded rs (message checksum bounded 0x04 ack ++ rest))
          app
          v
          n
          s.bcs.gateway
      → Switched ps.device.addr state rest v n s
          (set_level_at checksum p (get_elem? s.devices p) state s)
  unfolding set_level_at
  set_level_at-Switched name ps p state rs ack rest v n s e hs ha g =
      subst (λ d. Switched ps.device.addr state rest v n s (set_level_at checksum p d state s))
        (sym e) (set_level-Switched name ps p state rs ack rest v n s e hs ha g)

  -- If the gateway acknowledges the packet, radio packets of any device before, the handler responds
  -- with `OK`: it has put one frame on the line, which sends the level to the power switch, 200 for on
  -- and 0 for off, and it has read the acknowledgement and no more. The maps, the requests to publish
  -- and the events of the devices are as they were.
  pub power_responds :
      (name : Bytes) (ps : PowerSwitch Uartgw) (p : ℕ) (rs : List Reply) (ack : Reply)
      (rest : Bytes) (v : List ℕ) (n : Bytes) (s : Ccu)
      → get_elem? s.devices p ≡ some (record { name = name; model = power ps })
      → All Fits rs
      → Fits ack
      → Ready
          (received checksum bounded rs (message checksum bounded 0x04 ack ++ rest))
          app
          v
          n
          s.bcs.gateway
      → Switched ps.device.addr 200 rest v n s (power_on checksum p s)
        × Switched ps.device.addr 0 rest v n s (power_off checksum p s)
  unfolding power_on power_off
  power_responds name ps p rs ack rest v n s e hs ha g = (
    set_level_at-Switched name ps p 200 rs ack rest v n s e hs ha g,
    set_level_at-Switched name ps p 0 rs ack rest v n s e hs ha g,
  )
