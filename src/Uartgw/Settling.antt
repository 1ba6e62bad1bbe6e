-- ===== src/Uartgw/Settling.antt =====
-- The conversations of uartgw.go end on every stream, and put no byte back.
use hmgo.Prelude.{ℕ, zero, suc, ◌<◌, ◌≡◌, refl, ap, arith, List, [], ◌∷◌, Bytes}
use hmgo.Prelude.{codes, length, leb, Option, none, some}
use hmgo.Effect.{
  Outcome, ok, fail, panic, stuck, Effect, lift, guard, modify, gets, pure, bind-eq-ok, ◌>>=◌, ◌>>◌,
}
use hmgo.Effect.Halts.{Halts, Halts-bind, Halts-if}
use hmgo.Effect.Falls.{Falls, Falls-bind, Falls-if}
use hmgo.Effect.Settles.{Settles, Settles-lift, Settles-bind, Settles-then, Settles-guard}
use hmgo.Fault.{
  Stage, Error, switching_to_application, getting_firmware_version, enabling_csmaca,
  getting_serial_number, setting_time, setting_current_key, buffer_too_short,
}
use hmgo.Uart.{Port, deliver, uart_write}
use hmgo.Uartgw.Escaping.{escape, escaping_write}
use hmgo.Uartgw.Command.{UartCmd, os_get_app, os_ack, byte, same_cmd, app_recv, app_ack}
use hmgo.Uartgw.Packet.{Packet, Uartgw, on_port, read_packet, write_packet}
use hmgo.Uartgw.Packet.Termination.{read_packet-Halts}
use hmgo.Uartgw.Packet.Consumption.{to_come, read_packet-Falls, read_packet_shrinks}
use hmgo.Uartgw.Session.{
  expect_cmd, expect_application, staged, wrap, store_version, store_serial, Time, switch_to_app,
  get_firmware_version, enable_csmaca, get_serial_number, set_time, set_current_key, set_hmid, init,
}
use hmgo.Uartgw.Traffic.{
  add_peer_payload, repeat, add_peer_message, add_peer, confirm_loop, confirm, send, read,
}

delivered :
    (bs : Bytes) (p : Port) (fs : List (Option ℕ))
    → Halts (deliver bs p fs).0 × ((deliver bs p fs).1.pending ≡ p.pending)
unfolding deliver
delivered bs p [] = (tt, refl)
delivered bs p (none ∷ fs) = (tt, refl)
delivered bs p (some k ∷ fs) = (tt, refl)

uart_write-Settles : (bs : Bytes) → Settles to_come (on_port (uart_write bs))
unfolding uart_write
uart_write-Settles bs = record {
  halts = λ u. (delivered bs u.port u.port.faults).0;
  falls = λ u. omega (arith, ap length (delivered bs u.port u.port.faults).1);
}

escaping_write-Settles : (bs : Bytes) → Settles to_come (on_port (escaping_write bs))
unfolding escaping_write
escaping_write-Settles [] = record { halts = λ u. tt; falls = λ u. omega arith }
escaping_write-Settles (b ∷ bs) = uart_write-Settles (escape (b ∷ bs))

byte-Halts : (c : UartCmd) → Halts (byte c)
unfolding byte
byte-Halts os_get_app = tt
byte-Halts _ = tt

module _ (checksum : Bytes → ℕ) where
  pub read_packet-Settles : Settles to_come (read_packet checksum)
  read_packet-Settles = record {
    halts = read_packet-Halts checksum;
    falls = (read_packet-Falls checksum).at;
  }

  pub write_packet-Settles : (pkt : Packet) → Settles to_come (write_packet checksum pkt)
  unfolding write_packet
  write_packet-Settles pkt =
      Settles-then to_come (on_port (uart_write (0xfd ∷ []))) _ (uart_write-Settles _) (
        Settles-then to_come (on_port (escaping_write _)) _ (escaping_write-Settles _) (
          Settles-bind to_come (lift (byte pkt.cmd)) _
            (Settles-lift to_come (byte pkt.cmd) (byte-Halts pkt.cmd))
            λ cmd.
              Settles-bind to_come (gets (λ (u : Uartgw). u.msgcnt)) _
                (record { halts = λ u. tt; falls = λ u. omega arith })
                λ cnt.
                  Settles-then to_come (on_port (escaping_write _)) _ (escaping_write-Settles _) (
                    Settles-then to_come (modify _) _
                      (record { halts = λ u. tt; falls = λ u. omega arith })
                      (Settles-then to_come (on_port (escaping_write pkt.payload)) _
                        (escaping_write-Settles _) (escaping_write-Settles _)))))

  expect_cmd-Settles : (pkt : Packet) (want : UartCmd) → Settles to_come (expect_cmd pkt want)
  unfolding expect_cmd
  expect_cmd-Settles pkt want = Settles-guard to_come _ _

  -- A request, and what is done with its answer.
  exchange-Settles :
      {A : Type 0} (pkt : Packet) (f : Packet → Effect Uartgw Error A)
      → ((reply : Packet) → Settles to_come (f reply))
      → Settles to_come (write_packet checksum pkt >> (read_packet checksum >>= f))
  exchange-Settles pkt f k =
      Settles-then to_come (write_packet checksum pkt) (read_packet checksum >>= f)
        (write_packet-Settles pkt)
        (Settles-bind to_come (read_packet checksum) f read_packet-Settles k)

  pub set_time-Settles : (now : Time) → Settles to_come (set_time checksum now)
  unfolding set_time
  set_time-Settles now = exchange-Settles _ _ (λ reply. expect_cmd-Settles reply app_ack)

  confirm_loop-Halts :
      (fuel : ℕ) (u : Uartgw) → to_come u < fuel → Halts (confirm_loop checksum fuel u).0
  unfolding confirm_loop
  confirm_loop-Halts zero u h = absurd (omega arith)
  confirm_loop-Halts (suc fuel) u h =
      Halts-bind (read_packet checksum) _ u (read_packet-Halts checksum u) λ pkt t e.
        Halts-if (same_cmd pkt.cmd app_recv) (confirm_loop checksum fuel) (expect_cmd pkt app_ack) t
          (confirm_loop-Halts fuel t (omega (arith, read_packet_shrinks checksum u pkt t e)))
          ((expect_cmd-Settles pkt app_ack).halts t)

  confirm_loop-Falls : (fuel : ℕ) → Falls to_come (confirm_loop checksum fuel)
  unfolding confirm_loop
  confirm_loop-Falls zero = record { at = λ u. omega arith }
  confirm_loop-Falls (suc fuel) =
      Falls-bind to_come (read_packet checksum) _ (read_packet-Falls checksum) λ pkt.
        Falls-if to_come (same_cmd pkt.cmd app_recv) (confirm_loop checksum fuel)
          (expect_cmd pkt app_ack) (confirm_loop-Falls fuel)
          (record { at = (expect_cmd-Settles pkt app_ack).falls })

  -- The fuel of `Confirm` is enough.
  pub confirm-Settles : Settles to_come (confirm checksum)
  unfolding confirm
  confirm-Settles = record {
    halts = λ u. confirm_loop-Halts (suc (to_come u)) u (omega arith);
    falls = λ u. (confirm_loop-Falls (suc (to_come u))).at u;
  }

  pub send-Settles : (payload : Bytes) → Settles to_come (send checksum payload)
  unfolding send
  send-Settles payload = write_packet-Settles _

  read_rest-Settles :
      (n : ℕ) (pkt : Packet)
      → Settles to_come (
          expect_cmd pkt app_recv
          >> (guard (leb (length pkt.payload) n) (buffer_too_short n (length pkt.payload))
              >> pure pkt.payload))
  read_rest-Settles n pkt =
      Settles-then to_come (expect_cmd pkt app_recv) _ (expect_cmd-Settles pkt app_recv) (
        Settles-then to_come
          (guard (leb (length pkt.payload) n) (buffer_too_short n (length pkt.payload))) _
          (Settles-guard to_come _ _) (Settles-lift to_come (ok pkt.payload) tt))

  pub read-Settles : (n : ℕ) → Settles to_come (read checksum n)
  unfolding read
  read-Settles n =
      Settles-bind to_come (read_packet checksum) _ read_packet-Settles (read_rest-Settles n)

  -- A read that succeeds has taken a byte off the stream.
  pub read_shrinks :
      (n : ℕ) (u : Uartgw) (bs : Bytes) (t : Uartgw)
      → read checksum n u ≡ (ok bs, t)
      → to_come t < to_come u
  unfolding read
  read_shrinks n u bs t h =
      let (pkt, r, e, f) = bind-eq-ok (read_packet checksum) _ u h in
      omega (
        arith,
        read_packet_shrinks checksum u pkt r e,
        (read_rest-Settles n pkt).falls r,
        ap (λ o. to_come o.1) f,
      )

  add_peer_payload-Halts : (addr : Bytes) → Halts (add_peer_payload addr)
  unfolding add_peer_payload
  add_peer_payload-Halts [] = tt
  add_peer_payload-Halts (a ∷ []) = tt
  add_peer_payload-Halts (a ∷ b ∷ []) = tt
  add_peer_payload-Halts (a ∷ b ∷ c ∷ rest) = tt

  add_peer_message-Settles : (addr : Bytes) → Settles to_come (add_peer_message checksum addr)
  unfolding add_peer_message
  add_peer_message-Settles addr =
      Settles-bind to_come (lift (add_peer_payload addr)) _
        (Settles-lift to_come _ (add_peer_payload-Halts addr))
        (λ payload. exchange-Settles _ _ (λ reply. expect_cmd-Settles reply app_ack))

  repeat-Settles :
      (n : ℕ) (body : Effect Uartgw Error (Unit {0}))
      → Settles to_come body
      → Settles to_come (repeat n body)
  unfolding repeat
  repeat-Settles zero body h = record { halts = λ u. tt; falls = λ u. omega arith }
  repeat-Settles (suc n) body h =
      Settles-then to_come body (repeat n body) h (repeat-Settles n body h)

  pub add_peer-Settles : (addr : Bytes) (n : ℕ) → Settles to_come (add_peer checksum addr n)
  unfolding add_peer
  add_peer-Settles addr n =
      let once = add_peer_message-Settles addr in
      Settles-then to_come (repeat 2 (add_peer_message checksum addr)) _ (repeat-Settles 2 _ once) (
        Settles-then to_come (write_packet checksum _) _ (write_packet-Settles _) (
          Settles-bind to_come (read_packet checksum) _ read_packet-Settles λ pkt.
            Settles-then to_come (expect_cmd pkt app_ack) _ (expect_cmd-Settles pkt app_ack)
              (Settles-then to_come (add_peer_message checksum addr) _ once once)))

  expect_application-Settles :
      (pkt : Packet) (want : Bytes) → Settles to_come (expect_application pkt want)
  unfolding expect_application
  expect_application-Settles pkt want = Settles-guard to_come _ _

  store_version-Settles : (payload : Bytes) → Settles to_come (store_version payload)
  unfolding store_version
  store_version-Settles (a ∷ b ∷ c ∷ d ∷ x ∷ y ∷ z ∷ rest) = record {
    halts = λ u. tt;
    falls = λ u. omega arith;
  }
  store_version-Settles _ = record { halts = λ u. tt; falls = λ u. omega arith }

  store_serial-Settles : (payload : Bytes) → Settles to_come (store_serial payload)
  unfolding store_serial
  store_serial-Settles [] = record { halts = λ u. tt; falls = λ u. omega arith }
  store_serial-Settles (a ∷ rest) = record { halts = λ u. tt; falls = λ u. omega arith }

  wrap-Halts : {A : Type 0} (stage : Stage) (o : Outcome Error A) → Halts o → Halts (wrap stage o)
  unfolding wrap
  wrap-Halts stage (ok a) h = h
  wrap-Halts stage (fail e) h = h
  wrap-Halts stage panic h = h
  wrap-Halts stage stuck h = h

  staged-Settles :
      {A : Type 0} (stage : Stage) (m : Effect Uartgw Error A)
      → Settles to_come m
      → Settles to_come (staged stage m)
  unfolding staged
  staged-Settles stage m h = record {
    halts = λ u. wrap-Halts stage (m u).0 (h.halts u);
    falls = h.falls;
  }

  switch_to_app-Settles : Settles to_come (switch_to_app checksum)
  unfolding switch_to_app
  switch_to_app-Settles = exchange-Settles _ _ λ ack.
      Settles-then to_come (expect_cmd ack os_ack) _ (expect_cmd-Settles ack os_ack) (
        Settles-bind to_come (read_packet checksum) _ read_packet-Settles λ pkt.
          Settles-then to_come (expect_cmd pkt os_get_app) _ (expect_cmd-Settles pkt os_get_app) (
            Settles-then to_come (expect_application pkt (codes "Co_CPU_App")) _
              (expect_application-Settles pkt (codes "Co_CPU_App"))
              (record { halts = λ u. tt; falls = λ u. omega arith })))

  get_firmware_version-Settles : Settles to_come (get_firmware_version checksum)
  unfolding get_firmware_version
  get_firmware_version-Settles = exchange-Settles _ _ λ pkt.
      Settles-then to_come (expect_cmd pkt app_ack) _ (expect_cmd-Settles pkt app_ack)
        (store_version-Settles pkt.payload)

  get_serial_number-Settles : Settles to_come (get_serial_number checksum)
  unfolding get_serial_number
  get_serial_number-Settles = exchange-Settles _ _ λ pkt.
      Settles-then to_come (expect_cmd pkt app_ack) _ (expect_cmd-Settles pkt app_ack)
        (store_serial-Settles pkt.payload)

  enable_csmaca-Settles : Settles to_come (enable_csmaca checksum)
  unfolding enable_csmaca
  enable_csmaca-Settles = exchange-Settles _ _ (λ pkt. expect_cmd-Settles pkt app_ack)

  set_current_key-Settles : Settles to_come (set_current_key checksum)
  unfolding set_current_key
  set_current_key-Settles = exchange-Settles _ _ (λ pkt. expect_cmd-Settles pkt app_ack)

  set_hmid-Settles : Settles to_come (set_hmid checksum)
  unfolding set_hmid
  set_hmid-Settles = record {
    halts = λ u. (exchange-Settles _ _ (λ pkt. expect_cmd-Settles pkt app_ack)).halts u;
    falls = λ u. (exchange-Settles _ _ (λ pkt. expect_cmd-Settles pkt app_ack)).falls u;
  }

  -- The initialisation ends on every stream.
  pub init-Settles : (now : Time) → Settles to_come (init checksum now)
  unfolding init
  init-Settles now = Settles-bind to_come (read_packet checksum) _ read_packet-Settles λ pkt.
      Settles-then to_come (expect_cmd pkt os_get_app) _ (expect_cmd-Settles pkt os_get_app) (
        Settles-then to_come (expect_application pkt (codes "Co_CPU_BL")) _
          (expect_application-Settles pkt (codes "Co_CPU_BL"))
          (Settles-then to_come (staged switching_to_application (switch_to_app checksum)) _
            (staged-Settles _ _ switch_to_app-Settles)
            (Settles-then to_come (staged getting_firmware_version (get_firmware_version checksum))
              _ (staged-Settles _ _ get_firmware_version-Settles)
              (Settles-then to_come (staged enabling_csmaca (enable_csmaca checksum)) _
                (staged-Settles _ _ enable_csmaca-Settles)
                (Settles-then to_come (staged getting_serial_number (get_serial_number checksum)) _
                  (staged-Settles _ _ get_serial_number-Settles)
                  (Settles-then to_come (staged setting_time (set_time checksum now)) _
                    (staged-Settles _ _ (set_time-Settles now))
                    (Settles-then to_come (staged setting_current_key (set_current_key checksum)) _
                      (staged-Settles _ _ set_current_key-Settles)
                      (staged-Settles _ _ set_hmid-Settles))))))))
