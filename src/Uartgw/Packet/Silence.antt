-- ===== src/Uartgw/Packet/Silence.antt =====
-- Reading writes nothing.
use hmgo.Prelude.{
  ℕ, zero, suc, ◌-◌, ◌≡◌, refl, Bool, true, false, [], ◌∷◌, ◌++◌, Bytes, length, get_or,
}
use hmgo.Prelude.{◌==◌}
use hmgo.Effect.{lift, guard}
use hmgo.Effect.Keeps.{Keeps, Keeps-bind, Keeps-if, Keeps-guard}
use hmgo.Fault.{unexpected_checksum}
use hmgo.Uart.{Port, serve, uart_read, read_loop, read_full}
use hmgo.Uartgw.Escaping.{unescape, force_read, unescaping_read}
use hmgo.Uartgw.Command.{command}
use hmgo.Uartgw.Packet.{Uartgw, from_be16, parse_packet, read_frame, receive, read_packet}

abbrev sent_of : Port → Bytes
sent_of p = p.sent

serve_silent : (n : ℕ) (p : Port) (bs : Bytes) → (serve n p bs).1.sent ≡ p.sent
unfolding serve
serve_silent n p [] = refl
serve_silent n p (b ∷ bs) = refl

uart_read_silent : (n : ℕ) → Keeps sent_of (uart_read n)
unfolding uart_read
uart_read_silent n = record { at = λ p. serve_silent n p p.pending }

force_read_silent : (out : Bytes) (esc : Bool) → Keeps sent_of (force_read out esc)
unfolding force_read
force_read_silent out false = record { at = λ p. refl }
force_read_silent out true =
    Keeps-bind sent_of (uart_read 1) _ (uart_read_silent 1) (λ last. record { at = λ p. refl })

unescaping_read_silent : (n : ℕ) → Keeps sent_of (unescaping_read n)
unfolding unescaping_read
unescaping_read_silent zero = record { at = λ p. refl }
unescaping_read_silent (suc n) =
    Keeps-bind sent_of (uart_read (suc n)) _ (uart_read_silent (suc n))
      λ raw. force_read_silent (unescape false raw).0 (unescape false raw).1

read_loop_silent : (fuel n : ℕ) → Keeps sent_of (read_loop fuel unescaping_read n)
unfolding read_loop
read_loop_silent fuel zero = record { at = λ p. refl }
read_loop_silent zero (suc n) = record { at = λ p. refl }
read_loop_silent (suc fuel) (suc n) =
    Keeps-bind sent_of (unescaping_read (suc n)) _ (unescaping_read_silent (suc n)) λ got.
      Keeps-bind sent_of (read_loop fuel unescaping_read (suc n - length got)) _
        (read_loop_silent fuel (suc n - length got)) (λ more. record { at = λ p. refl })

read_full_silent : (n : ℕ) → Keeps sent_of (read_full unescaping_read n)
unfolding read_full
read_full_silent n = read_loop_silent n n

parse_packet_silent : (state : ℕ) (body : Bytes) → Keeps sent_of (parse_packet state body)
unfolding parse_packet
parse_packet_silent state (dst ∷ cnt ∷ k ∷ payload) =
    Keeps-bind sent_of (lift (command state k)) _ (record { at = λ p. refl })
      (λ cmd. record { at = λ p. refl })
parse_packet_silent state _ = record { at = λ p. refl }

module _ (checksum : Bytes → ℕ) where
  read_frame_silent : (state : ℕ) → Keeps sent_of (read_frame checksum state)
  unfolding read_frame
  read_frame_silent state =
      Keeps-bind sent_of (read_full unescaping_read 2) _ (read_full_silent 2) λ len.
        Keeps-bind sent_of (read_full unescaping_read (from_be16 len)) _ (read_full_silent _)
          λ body. Keeps-bind sent_of (read_full unescaping_read 2) _ (read_full_silent 2) λ got.
            Keeps-bind sent_of
              (guard (from_be16 got == checksum (0xfd ∷ (len ++ body)))
                (unexpected_checksum (from_be16 got) (checksum (0xfd ∷ (len ++ body)))))
              _ (Keeps-guard sent_of _ _) (λ _. parse_packet_silent state body)

  receive_silent : (fuel state : ℕ) → Keeps sent_of (receive checksum fuel state)
  unfolding receive
  receive_silent zero state = record { at = λ p. refl }
  receive_silent (suc fuel) state =
      Keeps-bind sent_of (unescaping_read 1) _ (unescaping_read_silent 1) λ b.
        Keeps-if sent_of (get_or b 0 0 == 0xfd) (read_frame checksum state)
          (receive checksum fuel state) (read_frame_silent state) (receive_silent fuel state)

  pub read_packet_silent : Keeps (λ (u : Uartgw). u.port.sent) (read_packet checksum)
  unfolding read_packet
  read_packet_silent = record { at = λ u. (receive_silent _ u.devstate).at u.port }
