-- ===== src/Uartgw/Packet/Termination.antt =====
-- ReadPacket ends on every stream: each read takes a byte, so the fuel of its loops is enough.
use hmgo.Prelude.{ℕ, zero, suc, ◌-◌, ◌≤◌, ◌<◌, ap, arith}
use hmgo.Prelude.{Bool, true, false, [], ◌∷◌, Bytes, length, length-append}
use hmgo.Effect.{lift, guard}
use hmgo.Effect.Halts.{Halts, Halts-bind, Halts-if, Halts-guard}
use hmgo.Uart.{Port, uart_read, serve, read_loop, read_full}
use hmgo.Uartgw.Escaping.{force_read, unescaping_read}
use hmgo.Uartgw.Escaping.Bounds.{unescaping_read-Takes}
use hmgo.Uartgw.Command.{command}
use hmgo.Uartgw.Packet.{Uartgw, from_be16, parse_packet, read_frame, receive, read_packet}

serve-Halts : (n : ℕ) (p : Port) (bs : Bytes) → Halts (serve n p bs).0
unfolding serve
serve-Halts n p [] = tt
serve-Halts n p (b ∷ bs) = tt

uart_read-Halts : (n : ℕ) (p : Port) → Halts (uart_read n p).0
unfolding uart_read
uart_read-Halts n p = serve-Halts n p p.pending

force_read-Halts : (out : Bytes) (esc : Bool) (p : Port) → Halts (force_read out esc p).0
unfolding force_read
force_read-Halts out false p = tt
force_read-Halts out true p = Halts-bind (uart_read 1) _ p (uart_read-Halts 1 p) (λ a r e. tt)

unescaping_read-Halts : (n : ℕ) (p : Port) → Halts (unescaping_read n p).0
unfolding unescaping_read
unescaping_read-Halts zero p = tt
unescaping_read-Halts (suc n) p =
    Halts-bind (uart_read (suc n)) _ p (uart_read-Halts (suc n) p) (λ a r e. force_read-Halts _ _ r)

read_loop-Halts : (fuel n : ℕ) (p : Port) → n ≤ fuel → Halts (read_loop fuel unescaping_read n p).0
unfolding read_loop
read_loop-Halts fuel zero p h = tt
read_loop-Halts zero (suc n) p h = absurd (omega arith)
read_loop-Halts (suc fuel) (suc n) p h =
    Halts-bind (unescaping_read (suc n)) _ p (unescaping_read-Halts (suc n) p) λ got q e.
      Halts-bind (read_loop fuel unescaping_read (suc n - length got)) _ q
        (read_loop-Halts fuel (suc n - length got) q
          (omega (arith, (unescaping_read-Takes n p got q e).1)))
        (λ more r f. tt)

read_full-Halts : (n : ℕ) (p : Port) → Halts (read_full unescaping_read n p).0
unfolding read_full
read_full-Halts n p = read_loop-Halts n n p (omega arith)

command-Halts : (state k : ℕ) → Halts (command state k)
unfolding command
command-Halts state k = ground arith

parse_packet-Halts : (state : ℕ) (body : Bytes) (p : Port) → Halts (parse_packet state body p).0
unfolding parse_packet
parse_packet-Halts state (dst ∷ cnt ∷ k ∷ payload) p =
    Halts-bind (lift (command state k)) _ p (command-Halts state k) (λ c r e. tt)
parse_packet-Halts state _ p = tt

module _ (checksum : Bytes → ℕ) where
  read_frame-Halts : (state : ℕ) (p : Port) → Halts (read_frame checksum state p).0
  unfolding read_frame
  read_frame-Halts state p =
      Halts-bind (read_full unescaping_read 2) _ p (read_full-Halts 2 p) λ len q e.
        Halts-bind (read_full unescaping_read (from_be16 len)) _ q (read_full-Halts _ q) λ body r f.
          Halts-bind (read_full unescaping_read 2) _ r (read_full-Halts 2 r) λ got s g.
            Halts-bind (guard _ _) _ s (Halts-guard _ _ s) λ u t i. parse_packet-Halts state body t

  receive-Halts :
      (fuel state : ℕ) (p : Port)
      → length p.pending < fuel
      → Halts (receive checksum fuel state p).0
  unfolding receive
  receive-Halts zero state p h = absurd (omega arith)
  receive-Halts (suc fuel) state p h =
      Halts-bind (unescaping_read 1) _ p (unescaping_read-Halts 1 p) λ b q e.
        let (raw, splits, some) = (unescaping_read-Takes 0 p b q e).2 in
        Halts-if _ (read_frame checksum state) (receive checksum fuel state) q
          (read_frame-Halts state q)
          (receive-Halts fuel state q
            (omega (arith, ap length splits, length-append raw q.pending)))

  -- ReadPacket returns on every stream and every schedule of pieces: it does not run out of fuel.
  pub read_packet-Halts : (u : Uartgw) → Halts (read_packet checksum u).0
  unfolding read_packet
  read_packet-Halts u = receive-Halts _ u.devstate u.port (omega arith)
