-- ===== src/Ccu/Termination.antt =====
-- The start-up of main and the rounds of its loop: the loops in them end, or wait for the device.
use hmgo.Prelude.{ℕ, ◌≤◌, arith, List, [], ◌∷◌, Option, none, some}
use hmgo.Prelude.{Bytes, length, take, drop, get_elem?, ltb, ◌==◌}
use hmgo.Effect.{Outcome, ok, fail, panic, stuck, Effect, guard}
use hmgo.Effect.Halts.{Halts}
use hmgo.Effect.Settles.{
  Settles-by, if-Ends, ends, Settles, Settles-lift, Settles-bind, Settles-then, Settles-if,
  Settles-guard,
}
use hmgo.Effect.Falls.{Falls}
use hmgo.Fault.{Error, unexpected_cmd}
use hmgo.Uart.{Port}
use hmgo.Uartgw.Command.{app_recv, same_cmd, iota}
use hmgo.Uartgw.Packet.{Addr, addr_bytes, Uartgw, read_packet}
use hmgo.Uartgw.Packet
use hmgo.Uartgw.Packet.Consumption.{to_come}
use hmgo.Uartgw.Settling.{read_packet-Settles, set_time-Settles, add_peer-Settles, init-Settles}
use hmgo.Uartgw.Session.{Time, set_time, init}
use hmgo.Uartgw.Traffic.{add_peer}
use hmgo.Bidcos.{decode, device_info}
use hmgo.Bidcos
use hmgo.Bidcos.Radio.{uartgw}
use hmgo.Hm.{StandardDevice, pair}
use hmgo.Hm.Settling.{ahead, pair-Settles}
use hmgo.Hm.Termination.{
  ensure_configured-Halts, ensure_configured-Falls, ensure_peered_with-Halts,
  ensure_peered_with-Falls,
}
use hmgo.Ccu.Devices.{
  Model, channels, Device, Event, Ccu, find_addr, find_serial, on_gateway, on_found,
}
use hmgo.Ccu.Dispatch.{
  event_case, store_event, answer_peer, is_configured, answer_serial, peer_request, handle,
  handle_at, handle_packet,
}
use hmgo.Ccu.Loop.{tick, handle_decoded, handle_received, round, rounds}
use hmgo.Ccu.House.{fresh, home}
use hmgo.Ccu.Startup.{
  configure, peer_with, add_peer_of, add_peers, configure_all, peer_all, start_up, unopened,
  room_callback, bad_callback, lea_callback,
}

abbrev pub due : Ccu → ℕ
due s = to_come s.bcs.gateway

on_gateway-Settles :
    {A : Type 0} (m : Effect Uartgw Error A) → Settles to_come m → Settles due (on_gateway m)
on_gateway-Settles m h = record {
  halts = λ s. h.halts s.bcs.gateway;
  falls = λ s. h.falls s.bcs.gateway;
}

on_found-Halts :
    {A : Type 0} (o : Option Device) (p : ℕ) (m : Effect (StandardDevice Uartgw) Error A) (s : Ccu)
    → ((d : StandardDevice Uartgw) → ahead d ≤ due s → Halts (m d).0)
    → Halts (on_found o p m s).0
unfolding on_found
on_found-Halts none p m s k = tt
on_found-Halts (some d) p m s k = k _ (omega arith)

on_found-Falls :
    {A : Type 0} (o : Option Device) (p : ℕ) (m : Effect (StandardDevice Uartgw) Error A) (s : Ccu)
    → Falls ahead m
    → due (on_found o p m s).1 ≤ due s
unfolding on_found
on_found-Falls none p m s k = omega arith
on_found-Falls (some d) p m s k = k.at _

module _ (checksum : Bytes → ℕ) where
  configure-Settles :
      (p : ℕ) (cb : Bytes → Outcome Error Bytes)
      → ((mem : Bytes) → Halts (cb mem))
      → Settles due (configure checksum p cb)
  unfolding configure
  configure-Settles p cb c = record {
    halts = λ s.
        on_found-Halts (get_elem? s.devices p) p _ s
          (λ d h. ensure_configured-Halts checksum _ 0 7 cb d c (omega (arith, h)));
    falls = λ s.
        on_found-Falls (get_elem? s.devices p) p _ s (ensure_configured-Falls checksum _ 0 7 cb);
  }

  peer_with-Settles : (p : ℕ) (addr : Addr) → Settles due (peer_with checksum p addr)
  unfolding peer_with
  peer_with-Settles p addr = record {
    halts = λ s.
        on_found-Halts (get_elem? s.devices p) p _ s
          (λ d h. ensure_peered_with-Halts checksum _ 2 _ d (omega (arith, h)));
    falls =
        λ s. on_found-Falls (get_elem? s.devices p) p _ s (ensure_peered_with-Falls checksum _ 2 _);
  }

  add_peer_of-Settles :
      (addr : Addr) (o : Option Device) → Settles due (add_peer_of checksum addr o)
  unfolding add_peer_of
  add_peer_of-Settles addr none = record { halts = λ s. tt; falls = λ s. omega arith }
  add_peer_of-Settles addr (some d) =
      on_gateway-Settles (add_peer checksum (addr_bytes addr) (channels d.model))
        (add_peer-Settles checksum _ _)

  add_peers-Settles : (entries : List (Addr × ℕ)) → Settles due (add_peers checksum entries)
  unfolding add_peers
  add_peers-Settles [] = Settles-lift due (ok tt) tt
  add_peers-Settles ((addr, p) ∷ entries) =
      Settles-then due (λ s. add_peer_of checksum addr (get_elem? s.devices p) s) _
        (record {
          halts = λ s. (add_peer_of-Settles addr (get_elem? s.devices p)).halts s;
          falls = λ s. (add_peer_of-Settles addr (get_elem? s.devices p)).falls s;
        })
        (add_peers-Settles entries)

  configure_all-Settles : (a b c : ℕ) → Settles due (configure_all checksum a b c)
  unfolding configure_all room_callback bad_callback lea_callback
  configure_all-Settles a b c =
      Settles-then due (configure checksum _ _) _ (configure-Settles _ _ (λ mem. tt)) (
        Settles-then due (configure checksum _ _) _ (configure-Settles _ _ (λ mem. tt)) (
          Settles-then due (configure checksum _ _) _ (configure-Settles _ _ (λ mem. tt))
            (configure-Settles _ _ (λ mem. tt))))

  peer_all-Settles : Settles due (peer_all checksum)
  unfolding peer_all
  peer_all-Settles = Settles-then due (peer_with checksum _ _) _ (peer_with-Settles _ _) (
      Settles-then due (peer_with checksum _ _) _ (peer_with-Settles _ _) (
        Settles-then due (peer_with checksum _ _) _ (peer_with-Settles _ _) (
          Settles-then due (peer_with checksum _ _) _ (peer_with-Settles _ _) (
            Settles-then due (peer_with checksum _ _) _ (peer_with-Settles _ _) (
              Settles-then due (peer_with checksum _ _) _ (peer_with-Settles _ _) (
                Settles-then due (peer_with checksum _ _) _ (peer_with-Settles _ _)
                  (peer_with-Settles _ _)))))))

  -- From the opened port to the loop, main ends, gets to its loop, or waits in a `Read` of the port for
  -- a byte that the device does not send: no loop of the initialisation, of AddPeer, EnsureConfigured
  -- or EnsurePeeredWith goes on for ever on what the device sends, whatever that is, in whichever
  -- pieces, and whichever writes fail. In the model, none of them runs out of fuel.
  pub start_up-Halts :
      (now : Time) (order : List (Addr × ℕ)) (a b c : ℕ) (port : Port)
      → Halts (start_up checksum now order a b c port).0
  unfolding start_up
  start_up-Halts now order a b c port =
      let (o, gw) = init checksum now (unopened checksum port) in
      let s = fresh (record { gateway = gw; addr = home; counter = 0 }) in
      (Settles-then due (λ z. (o, z)) _
          (Settles-lift due o ((init-Settles checksum now).halts (unopened checksum port)))
          (Settles-then due (add_peers checksum order) _ (add_peers-Settles order) (
            Settles-then due (configure_all checksum a b c) _ (configure_all-Settles a b c)
              peer_all-Settles))).halts
        s

  answer_peer-Settles :
      (source : Addr) (q : ℕ) (o : Option Device) → Settles due (answer_peer checksum source q o)
  unfolding answer_peer
  answer_peer-Settles source q none = record { halts = λ s. tt; falls = λ s. omega arith }
  answer_peer-Settles source q (some d) =
      Settles-then due (on_gateway (add_peer checksum (addr_bytes source) (channels d.model))) _
        (on_gateway-Settles (add_peer checksum (addr_bytes source) (channels d.model))
          (add_peer-Settles checksum _ _))
        (record {
          halts = λ s.
              on_found-Halts (get_elem? s.devices q) q (pair (uartgw checksum)) s
                (λ e h. (pair-Settles checksum).halts e);
          falls = λ s.
              on_found-Falls (get_elem? s.devices q) q (pair (uartgw checksum)) s
                (record { at = (pair-Settles checksum).falls });
        })

  answer_serial-Settles :
      (source : Addr) (at found : Option ℕ) → Settles due (answer_serial checksum source at found)
  unfolding answer_serial
  answer_serial-Settles source at none = record { halts = λ s. tt; falls = λ s. omega arith }
  answer_serial-Settles source at (some q) = Settles-by due _ λ s.
      if-Ends due (is_configured at (some q)) _ (ok tt, s) s
        (ends due (answer_peer-Settles source q (get_elem? s.devices q)) s) (tt, omega arith)

  peer_request-Settles : (pkt : Bidcos.Packet) → Settles due (peer_request checksum pkt)
  unfolding peer_request
  peer_request-Settles pkt = Settles-by due _ λ s.
      if-Ends due (ltb (length pkt.payload) 13) (ok tt, s) _ s (tt, omega arith)
        (ends due
          (answer_serial-Settles pkt.source (find_addr s.by_addr pkt.source)
            (find_serial s.by_serial (take 10 (drop 3 pkt.payload))))
          s)

module _ (checksum : Bytes → ℕ) (marshal : Event → Option Bytes) where
  store_event-Settles :
      (p : ℕ) (d : Device) (r : Model × Option (Bytes × Event))
      → Settles due (store_event marshal p d r)
  unfolding store_event
  store_event-Settles p d (m, none) = record { halts = λ s. tt; falls = λ s. omega arith }
  store_event-Settles p d (m, some (name, ev)) = record {
    halts = λ s. tt;
    falls = λ s. omega arith;
  }

  handle-Settles :
      (pkt : Bidcos.Packet) (p : ℕ) (o : Option Device)
      → Settles due (handle checksum marshal pkt p o)
  unfolding handle
  handle-Settles pkt p none = record { halts = λ s. tt; falls = λ s. omega arith }
  handle-Settles pkt p (some d) =
      Settles-if due (pkt.cmd == device_info) _ _ (peer_request-Settles checksum pkt)
        (store_event-Settles p d (event_case pkt.cmd pkt.payload d.model))

  handle_at-Settles :
      (pkt : Bidcos.Packet) (a : Option ℕ) → Settles due (handle_at checksum marshal pkt a)
  unfolding handle_at
  handle_at-Settles pkt none = record { halts = λ s. tt; falls = λ s. omega arith }
  handle_at-Settles pkt (some p) =
      Settles-by due _ λ s. ends due (handle-Settles pkt p (get_elem? s.devices p)) s

  handle_packet-Settles : (pkt : Bidcos.Packet) → Settles due (handle_packet checksum marshal pkt)
  unfolding handle_packet
  handle_packet-Settles pkt =
      Settles-by due _ λ s. ends due (handle_at-Settles pkt (find_addr s.by_addr pkt.source)) s

  handle_decoded-Settles :
      (o : Outcome Error Bidcos.Packet) → Settles due (handle_decoded checksum marshal o)
  unfolding handle_decoded
  handle_decoded-Settles (ok pkt) = handle_packet-Settles pkt
  handle_decoded-Settles (fail e) = Settles-lift due (ok tt) tt
  handle_decoded-Settles panic = Settles-lift due (ok tt) tt
  handle_decoded-Settles stuck = Settles-lift due (ok tt) tt

  handle_received-Settles :
      (pkt : Packet.Packet) → Settles due (handle_received checksum marshal pkt)
  unfolding handle_received
  handle_received-Settles pkt =
      Settles-then due
        (guard (same_cmd pkt.cmd app_recv) (unexpected_cmd (iota pkt.cmd) (iota app_recv))) _
        (Settles-guard due _ _) (handle_decoded-Settles (decode pkt.payload))

  tick-Settles : (now : Option Time) → Settles due (tick checksum now)
  unfolding tick
  tick-Settles none = Settles-lift due (ok tt) tt
  tick-Settles (some now) =
      on_gateway-Settles (set_time checksum now) (set_time-Settles checksum now)

  round-Settles : (now : Option Time) → Settles due (round checksum marshal now)
  unfolding round
  round-Settles now = Settles-then due (tick checksum now) _ (tick-Settles now) (
      Settles-bind due (on_gateway (read_packet checksum)) _
        (on_gateway-Settles (read_packet checksum) (read_packet-Settles checksum))
        handle_received-Settles)

  -- From every state and whatever the device sends, any number of rounds of the main loop end, or one
  -- of them waits in a `Read` of the port for a byte that the device does not send: neither reading a
  -- packet, nor setting the time, nor answering a peering request goes on for ever, which in the model
  -- is to run out of fuel. No round puts a byte back into the stream.
  pub rounds-Settles : (nows : List (Option Time)) → Settles due (rounds checksum marshal nows)
  unfolding rounds
  rounds-Settles [] = Settles-lift due (ok tt) tt
  rounds-Settles (now ∷ nows) =
      Settles-then due (round checksum marshal now) _ (round-Settles now) (rounds-Settles nows)
