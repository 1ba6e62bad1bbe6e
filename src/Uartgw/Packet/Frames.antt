-- ===== src/Uartgw/Packet/Frames.antt =====
-- ReadPacket on whole frames: a good one, a damaged one, and one that is too short for a packet.
use hmgo.Prelude.{ℕ, ◌+◌, ◌<◌, ◌≡◌, ◌≢◌, refl, ap, ◌∙◌, arith, ==-self, ◌==◌}
use hmgo.Prelude.{false, List, [], ◌∷◌, ◌++◌, Bytes, length, length-append, All}
use hmgo.Effect.{ok, fail, panic, guard, ◌>>◌}
use hmgo.Fault.{unexpected_checksum}
use hmgo.Uart.{Port}
use hmgo.Uart.Reads.{after}
use hmgo.Uartgw.Command.{UartCmd, command}
use hmgo.Uartgw.Packet.{Uartgw, in_port, parse_packet, read_packet}
use hmgo.Uartgw.Packet.Frame.{covered, frame, frame_with, frame_with_parts}
use hmgo.Uartgw.Packet.Reading.{IsNoise, receive-noise}

module _ (checksum : Bytes → ℕ) where
  -- What `ReadPacket` makes of a frame with the checksum `crc` behind noise.
  read_packet-noise :
      (u : Uartgw) (noise : Bytes) (crc : ℕ) (body rest : Bytes)
      → All IsNoise noise
      → length body < 65536
      → crc < 65536
      → u.port.pending ≡ noise ++ (frame_with crc body ++ rest)
      → (later : List ℕ) × (read_packet checksum u
          ≡ in_port u (
              (guard
                    (crc == checksum (covered body))
                    (unexpected_checksum crc (checksum (covered body)))
                  >> parse_packet u.devstate body)
                (after u.port rest later)))
  unfolding read_packet
  read_packet-noise u noise crc body rest hn hl hc e =
      let parts = e ∙ ap (λ z. noise ++ z) (frame_with_parts crc body rest) in
      let (later, r) =
        receive-noise checksum noise _ u.devstate crc body rest u.port hn
          (omega (arith, ap length e, length-append noise (frame_with crc body ++ rest))) hl hc
          parts in
      (later, ap (in_port u) r)

  -- A frame in the documented format is read as its packet, whatever noise without a delimiter or
  -- an escape byte stands before it, and however the port cuts the stream into pieces. What stands
  -- behind the frame stays unread, and nothing else of the gateway changes.
  pub read_packet-frame :
      (u : Uartgw) (noise : Bytes) (dst cnt k : ℕ) (payload rest : Bytes) (cmd : UartCmd)
      → All IsNoise noise
      → length payload + 3 < 65536
      → ((bs : Bytes) → checksum bs < 65536)
      → command u.devstate k ≡ ok cmd
      → u.port.pending ≡ noise ++ (frame checksum (dst ∷ cnt ∷ k ∷ payload) ++ rest)
      → (later : List ℕ) × (read_packet checksum u ≡ (
        ok (record { dst = dst; msgcnt = cnt; cmd = cmd; payload = payload }),
        record u { port = after u.port rest later },
      ))
  unfolding parse_packet
  read_packet-frame u noise dst cnt k payload rest cmd hn hl hc e p =
      let body = dst ∷ cnt ∷ k ∷ payload in
      let crc = checksum (covered body) in
      let (later, r) = read_packet-noise u noise crc body rest hn (omega arith) (hc _) p in
      (later, r ∙ rw (==-self crc, e))

  -- A frame with a wrong checksum is refused with both checksums, and is consumed.
  pub read_packet_damaged :
      (u : Uartgw) (noise : Bytes) (crc : ℕ) (body rest : Bytes)
      → All IsNoise noise
      → length body < 65536
      → crc < 65536
      → crc ≢ checksum (covered body)
      → u.port.pending ≡ noise ++ (frame_with crc body ++ rest)
      → (later : List ℕ) × (read_packet checksum u ≡ (
        fail (unexpected_checksum crc (checksum (covered body))),
        record u { port = after u.port rest later },
      ))
  read_packet_damaged u noise crc body rest hn hl hc ne p =
      let (later, r) = read_packet-noise u noise crc body rest hn hl hc p in
      let wrong : (crc == checksum (covered body)) ≡ false = ground arith in (later, r ∙ rw wrong)

  parse_packet_short :
      (state : ℕ) (body : Bytes) (p : Port)
      → length body < 3
      → parse_packet state body p ≡ (panic, p)
  unfolding parse_packet
  parse_packet_short state [] p h = refl
  parse_packet_short state (a ∷ []) p h = refl
  parse_packet_short state (a ∷ b ∷ []) p h = refl
  parse_packet_short state (a ∷ b ∷ c ∷ bs) p h = absurd (omega arith)

  -- A frame of less than three bytes with a valid checksum makes `ReadPacket` index out of range.
  pub read_packet_short :
      (u : Uartgw) (noise : Bytes) (body rest : Bytes)
      → All IsNoise noise
      → length body < 3
      → ((bs : Bytes) → checksum bs < 65536)
      → u.port.pending ≡ noise ++ (frame checksum body ++ rest)
      → (later : List ℕ) × (read_packet checksum u
          ≡ (panic, record u { port = after u.port rest later }))
  read_packet_short u noise body rest hn hl hc p =
      let crc = checksum (covered body) in
      let (later, r) = read_packet-noise u noise crc body rest hn (omega arith) (hc _) p in
      (later, r ∙ rw (==-self crc, parse_packet_short u.devstate body _ hl))
