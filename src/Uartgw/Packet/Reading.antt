-- ===== src/Uartgw/Packet/Reading.antt =====
-- ReadPacket on the line: frames, garbage before them, and damaged frames.
use hmgo.Prelude.{ℕ, zero, suc, ◌<◌, ◌≡◌, ◌≢◌, refl, ◌∙◌, arith}
use hmgo.Prelude.{false, List, [], ◌∷◌, ◌++◌, Bytes, length, All}
use hmgo.Prelude.{◌==◌}
use hmgo.Effect.{guard, ◌>>◌}
use hmgo.Fault.{unexpected_checksum}
use hmgo.Uart.{Port, rest_of}
use hmgo.Uart.Reads.{after}
use hmgo.Uartgw.Escaping.{escape}
use hmgo.Uartgw.Escaping.Reader.{read_full-escape, unescaping_read_plain}
use hmgo.Uartgw.Packet.{be16, parse_packet, read_frame, receive}
use hmgo.Uartgw.Packet.Frame.{covered, from_be16-be16}

-- A byte that neither starts a frame nor escapes the next one.
abbrev pub IsNoise : ℕ → Type 0
IsNoise b = (b ≢ 0xfd) × (b ≢ 0xfc)

module _ (checksum : Bytes → ℕ) where
  -- Behind the delimiter: the length, the packet, then any checksum `crc`.
  read_frame-parts :
      (state crc : ℕ) (body rest : Bytes) (p : Port)
      → length body < 65536
      → crc < 65536
      → p.pending ≡ escape (be16 (length body)) ++ (escape body ++ (escape (be16 crc) ++ rest))
      → (later : List ℕ) × (read_frame checksum state p
          ≡ (guard
                  (crc == checksum (covered body))
                  (unexpected_checksum crc (checksum (covered body)))
                >> parse_packet state body)
              (after p rest later))
  unfolding read_frame
  read_frame-parts state crc body rest p hl hc e =
      let r3 = escape (be16 crc) ++ rest in
      let r2 = escape body ++ r3 in
      let (l1, e1) = read_full-escape (be16 (length body)) r2 p e in
      let (l2, e2) = read_full-escape body r3 (after p r2 l1) refl in
      let (l3, e3) = read_full-escape (be16 crc) rest (after p r3 l2) refl in
      (l3, rw (e1, from_be16-be16 (length body) hl, e2, e3, from_be16-be16 crc hc))

  receive_delimiter :
      (fuel state : ℕ) (bs : Bytes) (p : Port)
      → p.pending ≡ 0xfd ∷ bs
      → receive checksum (suc fuel) state p
        ≡ read_frame checksum state (after p bs (rest_of p.chunks))
  unfolding receive
  receive_delimiter fuel state bs p e = rw (unescaping_read_plain 0xfd bs p refl e)

  receive_skip :
      (fuel state b : ℕ) (bs : Bytes) (p : Port)
      → IsNoise b
      → p.pending ≡ b ∷ bs
      → receive checksum (suc fuel) state p
        ≡ receive checksum fuel state (after p bs (rest_of p.chunks))
  unfolding receive
  receive_skip fuel state b bs p (nd, ne) e =
      let fd : (b == 0xfd) ≡ false = ground arith in
      let fc : (b == 0xfc) ≡ false = ground arith in rw (unescaping_read_plain b bs p fc e, fd)

  -- The frame, with any two bytes for a checksum, behind any noise.
  pub receive-noise :
      (noise : Bytes) (fuel state crc : ℕ) (body rest : Bytes) (p : Port)
      → All IsNoise noise
      → length noise < fuel
      → length body < 65536
      → crc < 65536
      → p.pending
        ≡ noise
          ++ 0xfd ∷ (escape (be16 (length body)) ++ (escape body ++ (escape (be16 crc) ++ rest)))
      → (later : List ℕ) × (receive checksum fuel state p
          ≡ (guard
                  (crc == checksum (covered body))
                  (unexpected_checksum crc (checksum (covered body)))
                >> parse_packet state body)
              (after p rest later))
  receive-noise noise zero state crc body rest p hn hf hl hc e = absurd (omega arith)
  receive-noise [] (suc fuel) state crc body rest p hn hf hl hc e =
      let q = after p _ (rest_of p.chunks) in
      let (later, r) = read_frame-parts state crc body rest q hl hc refl in
      (later, receive_delimiter fuel state _ p e ∙ r)
  receive-noise (b ∷ bs) (suc fuel) state crc body rest p (h, hs) hf hl hc e =
      let (later, r) =
        receive-noise bs fuel state crc body rest (after p _ (rest_of p.chunks)) hs (omega arith) hl
          hc refl in
      (later, receive_skip fuel state b _ p h e ∙ r)
