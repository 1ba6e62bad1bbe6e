-- ===== src/Uartgw/Packet/RoundTrip.antt =====
-- What one gateway writes, another one reads; and what else starts a frame.
use hmgo.Prelude.{ℕ, ◌+◌, ◌<◌, ◌≡◌, ◌≢◌, ap, ◌∙◌, append_assoc}
use hmgo.Prelude.{List, [], ◌++◌, Bytes, length, All}
use hmgo.Effect.{ok}
use hmgo.Uart.Reads.{after}
use hmgo.Uartgw.Command.{app_set_hmid, command, byte}
use hmgo.Uartgw.Command.Codes.{home, read_back}
use hmgo.Uartgw.Packet.{Uartgw, Packet, write_packet, read_packet}
use hmgo.Uartgw.Packet.Reading.{IsNoise}
use hmgo.Uartgw.Packet.Frames.{read_packet-frame}
use hmgo.Uartgw.Packet.Writing.{write_packet-frame}

module _ (checksum : Bytes → ℕ) where
  -- A gateway `a` none of whose writes fails, and that has only sent bytes that start no frame, writes
  -- a packet with a command other than AppSetHMID and a payload that fits a frame. A gateway `b` in
  -- the state that the command belongs to, which has all that `a` has sent before it, then reads this
  -- packet, with its destination, command and payload and the counter of `a`, and nothing behind it,
  -- in whatever chunks it is delivered. The checksum has 16 bits.
  pub read_packet-write_packet :
      (a b : Uartgw) (pkt : Packet) (k : ℕ) (rest : Bytes)
      → ((bs : Bytes) → checksum bs < 65536)
      → a.port.faults ≡ []
      → All IsNoise a.port.sent
      → byte pkt.cmd ≡ ok k
      → pkt.cmd ≢ app_set_hmid
      → length pkt.payload + 3 < 65536
      → b.devstate ≡ home pkt.cmd
      → b.port.pending ≡ (write_packet checksum pkt a).1.port.sent ++ rest
      → (later : List ℕ) × (read_packet checksum b
          ≡ (ok (record pkt { msgcnt = a.msgcnt }), record b { port = after b.port rest later }))
  read_packet-write_packet a b pkt k rest hc nf hn e ne hl hs hp =
      let sent = ap (λ o. o.1.port.sent) (write_packet-frame checksum a pkt k nf e hl) in
      let read : command b.devstate k ≡ ok pkt.cmd = rw hs (read_back pkt.cmd k ne e) in
      read_packet-frame checksum b a.port.sent pkt.dst a.msgcnt k pkt.payload rest pkt.cmd hn hl hc
        read (hp ∙ ap (λ z. z ++ rest) sent ∙ append_assoc a.port.sent _ rest)
