-- ===== src/Uartgw/Packet/Consumption.antt =====
-- Reading takes bytes off the stream: no action of the port puts any back, and a packet that is read
-- has taken one at least.
use hmgo.Prelude.{ℕ, zero, suc, ◌-◌, ◌≤◌, ◌<◌, ◌≡◌, refl, ap, arith, Bool, true, false, [], ◌∷◌}
use hmgo.Prelude.{Bytes, length, length-append, length-drop, if◌then◌else◌, get_or, ◌==◌}
use hmgo.Effect.{ok, lift, guard, bind-eq-ok}
use hmgo.Effect.Falls.{Falls, Falls-bind, Falls-if, Falls-guard}
use hmgo.Uart.{Port, chunk, uart_read, serve, read_loop, read_full}
use hmgo.Uartgw.Escaping.{force_read, unescaping_read}
use hmgo.Uartgw.Escaping.Bounds.{unescaping_read-Takes}
use hmgo.Uartgw.Command.{command}
use hmgo.Uartgw.Packet.{Packet, Uartgw, from_be16, parse_packet, read_frame, receive, read_packet}

abbrev pub left : Port → ℕ
left p = length p.pending

abbrev pub to_come : Uartgw → ℕ
to_come u = length u.port.pending

serve-Falls : (n : ℕ) (p : Port) (bs : Bytes) → p.pending ≡ bs → left (serve n p bs).1 ≤ left p
unfolding serve
serve-Falls n p [] e = omega arith
serve-Falls n p (b ∷ bs) e = omega (arith, length-drop (chunk n p.chunks) (b ∷ bs), ap length e)

uart_read-Falls : (n : ℕ) → Falls left (uart_read n)
unfolding uart_read
uart_read-Falls n = record { at = λ p. serve-Falls n p p.pending refl }

force_read-Falls : (out : Bytes) (esc : Bool) → Falls left (force_read out esc)
unfolding force_read
force_read-Falls out false = record { at = λ p. omega arith }
force_read-Falls out true =
    Falls-bind left (uart_read 1) _ (uart_read-Falls 1) (λ a. record { at = λ p. omega arith })

unescaping_read-Falls : (n : ℕ) → Falls left (unescaping_read n)
unfolding unescaping_read
unescaping_read-Falls zero = record { at = λ p. omega arith }
unescaping_read-Falls (suc n) =
    Falls-bind left (uart_read (suc n)) _ (uart_read-Falls (suc n)) (λ raw. force_read-Falls _ _)

read_loop-Falls : (fuel n : ℕ) → Falls left (read_loop fuel unescaping_read n)
unfolding read_loop
read_loop-Falls fuel zero = record { at = λ p. omega arith }
read_loop-Falls zero (suc n) = record { at = λ p. omega arith }
read_loop-Falls (suc fuel) (suc n) =
    Falls-bind left (unescaping_read (suc n)) _ (unescaping_read-Falls (suc n)) λ got.
      Falls-bind left (read_loop fuel unescaping_read (suc n - length got)) _
        (read_loop-Falls fuel (suc n - length got)) (λ more. record { at = λ p. omega arith })

read_full-Falls : (n : ℕ) → Falls left (read_full unescaping_read n)
unfolding read_full
read_full-Falls n = read_loop-Falls n n

parse_packet-Falls : (state : ℕ) (body : Bytes) → Falls left (parse_packet state body)
unfolding parse_packet
parse_packet-Falls state (dst ∷ cnt ∷ k ∷ payload) =
    Falls-bind left (lift (command state k)) _ (record { at = λ p. omega arith })
      (λ c. record { at = λ p. omega arith })
parse_packet-Falls state _ = record { at = λ p. omega arith }

module _ (checksum : Bytes → ℕ) where
  read_frame-Falls : (state : ℕ) → Falls left (read_frame checksum state)
  unfolding read_frame
  read_frame-Falls state =
      Falls-bind left (read_full unescaping_read 2) _ (read_full-Falls 2) λ len.
        Falls-bind left (read_full unescaping_read (from_be16 len)) _ (read_full-Falls _) λ body.
          Falls-bind left (read_full unescaping_read 2) _ (read_full-Falls 2) λ got.
            Falls-bind left (guard _ _) _ (Falls-guard left _ _) λ u. parse_packet-Falls state body

  receive-Falls : (fuel state : ℕ) → Falls left (receive checksum fuel state)
  unfolding receive
  receive-Falls zero state = record { at = λ p. omega arith }
  receive-Falls (suc fuel) state =
      Falls-bind left (unescaping_read 1) _ (unescaping_read-Falls 1) λ b.
        Falls-if left _ (read_frame checksum state) (receive checksum fuel state)
          (read_frame-Falls state) (receive-Falls fuel state)

  receive_shrinks :
      (fuel state : ℕ) (p : Port) (pkt : Packet) (q : Port)
      → receive checksum fuel state p ≡ (ok pkt, q)
      → left q < left p
  unfolding receive
  receive_shrinks zero state p pkt q h = cc
  receive_shrinks (suc fuel) state p pkt q h =
      let after = λ (b : Bytes).
        if get_or b 0 0 == 0xfd then read_frame checksum state else receive checksum fuel state in
      let (b, t, e, f) = bind-eq-ok (unescaping_read 1) after p h in
      let (raw, splits, some_raw) = (unescaping_read-Takes 0 p b t e).2 in
      let falls =
        (Falls-if left (get_or b 0 0 == 0xfd) (read_frame checksum state)
            (receive checksum fuel state) (read_frame-Falls state) (receive-Falls fuel state)).at
          t in
      omega (
        arith,
        falls,
        ap (λ o. left o.1) f,
        ap length splits,
        length-append raw t.pending,
        some_raw,
      )

  pub read_packet-Falls : Falls to_come (read_packet checksum)
  unfolding read_packet
  read_packet-Falls = record { at = λ u. (receive-Falls _ u.devstate).at u.port }

  -- A packet that is read has taken a byte off the stream.
  pub read_packet_shrinks :
      (u : Uartgw) (pkt : Packet) (t : Uartgw)
      → read_packet checksum u ≡ (ok pkt, t)
      → to_come t < to_come u
  unfolding read_packet
  read_packet_shrinks u pkt t h =
      let o = receive checksum (suc (to_come u)) u.devstate u.port in
      let ran : o ≡ (ok pkt, t.port) = λ i. ((h i).0, (h i).1.port) in
      receive_shrinks (suc (to_come u)) u.devstate u.port pkt t.port ran
