-- ===== src/Bidcos/Settling.antt =====
-- The sender on top of the UARTGW ends on every stream.
use hmgo.Prelude.{ℕ, ◌<◌, ◌≡◌, ap, arith, ◌∷◌, Bytes}
use hmgo.Effect.{ok, Effect, lift, bind-eq-ok}
use hmgo.Effect.Halts.{Halts}
use hmgo.Effect.Settles.{Settles, Settles-lift, Settles-bind, Settles-then}
use hmgo.Fault.{Error}
use hmgo.Uartgw.Packet.{Uartgw}
use hmgo.Uartgw.Packet.Consumption.{to_come}
use hmgo.Uartgw.Settling.{read-Settles, read_shrinks, send-Settles, confirm-Settles}
use hmgo.Uartgw.Traffic.{send, read, confirm}
use hmgo.Bidcos.{Packet, Sender, on_gateway, encoded, decode, read_packet, write_packet}
use hmgo.Bidcos.Radio.{uartgw}

abbrev pub to_come_at : Sender Uartgw → ℕ
to_come_at s = to_come s.gateway

on_gateway-Settles :
    {A : Type 0} (m : Effect Uartgw Error A) → Settles to_come m → Settles to_come_at (on_gateway m)
on_gateway-Settles m h = record { halts = λ s. h.halts s.gateway; falls = λ s. h.falls s.gateway }

pub decode-Halts : (bs : Bytes) → Halts (decode bs)
unfolding decode
decode-Halts (b0 ∷ b1 ∷ b2 ∷ b3 ∷ b4 ∷ b5 ∷ b6 ∷ b7 ∷ b8 ∷ b9 ∷ b10 ∷ b11 ∷ payload) = tt
decode-Halts _ = tt

module _ (checksum : Bytes → ℕ) where
  pub read_packet-Settles : Settles to_come_at (read_packet (uartgw checksum))
  unfolding read_packet
  read_packet-Settles =
      Settles-bind to_come_at (on_gateway (read checksum 29)) _
        (on_gateway-Settles (read checksum 29) (read-Settles checksum 29))
        (λ buf. Settles-lift to_come_at (decode buf) (decode-Halts buf))

  pub read_packet_shrinks :
      (s : Sender Uartgw) (pkt : Packet) (t : Sender Uartgw)
      → read_packet (uartgw checksum) s ≡ (ok pkt, t)
      → to_come_at t < to_come_at s
  unfolding read_packet
  read_packet_shrinks s pkt t h =
      let (buf, r, e, f) =
        bind-eq-ok (on_gateway (read checksum 29)) (λ buf. lift (decode buf)) s h in
      omega (
        arith,
        read_shrinks checksum 29 s.gateway buf r.gateway (λ i. ((e i).0, (e i).1.gateway)),
        ap (λ o. to_come_at o.1) f,
      )

  pub write_packet-Settles :
      (pkt : Packet) → Settles to_come_at (write_packet (uartgw checksum) pkt)
  unfolding write_packet
  write_packet-Settles pkt =
      Settles-bind to_come_at (encoded pkt) _ (record { halts = λ s. tt; falls = λ s. omega arith })
        λ bs.
          Settles-then to_come_at (on_gateway (send checksum bs)) _
            (on_gateway-Settles (send checksum bs) (send-Settles checksum bs))
            (on_gateway-Settles (confirm checksum) (confirm-Settles checksum))
