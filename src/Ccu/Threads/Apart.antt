-- ===== src/Ccu/Threads/Apart.antt =====
-- What the main loop does with an event does not concern the sender.
use hmgo.Prelude.{ℕ, ◌≡◌, refl, ap, Bool, true, false, Option, none, some, Bytes, ◌==◌, get_elem?}
use hmgo.Effect.{Outcome, ok, fail, panic, stuck, Effect, guard, continue}
use hmgo.Fault.{Error, unexpected_cmd}
use hmgo.Uartgw.Command.{app_recv, same_cmd, iota}
use hmgo.Uartgw.Packet.{Uartgw, Packet}
use hmgo.Bidcos.{Sender, decode, device_info}
use hmgo.Bidcos
use hmgo.Ccu.Devices.{Model, Device, Event, Ccu, find_addr}
use hmgo.Ccu.Dispatch.{store_event, handle, handle_at, handle_packet}
use hmgo.Ccu.Loop.{handle_decoded, handle_received}
use hmgo.Ccu.Threads.{with_bcs, process, is_request, asks_peering}

-- An action of the central that does the same on another sender, and keeps it.
abbrev pub IsApart : Effect Ccu Error (Unit {0}) → Type 0
IsApart m = (b : Sender Uartgw) (c : Ccu) → m (with_bcs b c) ≡ ((m c).0, with_bcs b (m c).1)

module _ (checksum : Bytes → ℕ) (marshal : Event → Option Bytes) where
  store_event-IsApart :
      (p : ℕ) (d : Device) (r : Model × Option (Bytes × Event))
      → IsApart (store_event marshal p d r)
  unfolding store_event
  store_event-IsApart p d (m, none) b c = refl
  store_event-IsApart p d (m, some (name, ev)) b c = refl

  handle-IsApart :
      (pkt : Bidcos.Packet) (p : ℕ) (o : Option Device)
      → (pkt.cmd == device_info) ≡ false
      → IsApart (handle checksum marshal pkt p o)
  unfolding handle
  handle-IsApart pkt p none h b c = refl
  handle-IsApart pkt p (some d) h b c = rw h (store_event-IsApart p d _ b c)

  handle_at-IsApart :
      (pkt : Bidcos.Packet) (o : Option ℕ)
      → (pkt.cmd == device_info) ≡ false
      → IsApart (handle_at checksum marshal pkt o)
  unfolding handle_at
  handle_at-IsApart pkt none h b c = refl
  handle_at-IsApart pkt (some p) h b c = handle-IsApart pkt p (get_elem? c.devices p) h b c

  handle_packet-IsApart :
      (pkt : Bidcos.Packet)
      → (pkt.cmd == device_info) ≡ false
      → IsApart (handle_packet checksum marshal pkt)
  unfolding handle_packet
  handle_packet-IsApart pkt h b c = handle_at-IsApart pkt (find_addr c.by_addr pkt.source) h b c

  handle_decoded-IsApart :
      (o : Outcome Error Bidcos.Packet)
      → is_request o ≡ false
      → IsApart (handle_decoded checksum marshal o)
  unfolding handle_decoded
  handle_decoded-IsApart (ok pkt) h b c = handle_packet-IsApart pkt h b c
  handle_decoded-IsApart (fail e) h b c = refl
  handle_decoded-IsApart panic h b c = refl
  handle_decoded-IsApart stuck h b c = refl

  guarded :
      (test : Bool) (e : Error) (m : Effect Ccu Error (Unit {0}))
      → IsApart m
      → IsApart (λ c. continue (guard test e c).0 (guard test e c).1 (λ _. m))
  guarded true e m h b c = h b c
  guarded false e m h b c = refl

  -- Unless the packet is a peering request.
  pub process-IsApart :
      (o : Outcome Error Packet) → asks_peering o ≡ false → IsApart (process checksum marshal o)
  unfolding process handle_received
  process-IsApart (ok pkt) h b c =
      guarded (same_cmd pkt.cmd app_recv) (unexpected_cmd (iota pkt.cmd) (iota app_recv))
        (handle_decoded checksum marshal (decode pkt.payload))
        (handle_decoded-IsApart (decode pkt.payload) h) b c
  process-IsApart (fail e) h b c = refl
  process-IsApart panic h b c = refl
  process-IsApart stuck h b c = refl

  pub process_bcs :
      (o : Outcome Error Packet) (c : Ccu)
      → asks_peering o ≡ false
      → (process checksum marshal o c).1.bcs ≡ c.bcs
  process_bcs o c h = ap (λ r. r.1.bcs) (process-IsApart o h c.bcs c)
