-- ===== src/Uartgw/Packet/Writing.antt =====
-- WritePacket on a port that takes every write.
use hmgo.Prelude.{ℕ, suc, ◌+◌, ◌%◌, ◌<◌, ◌≡◌, sym, ap, arith, append-nil, append_assoc}
use hmgo.Prelude.{[], ◌∷◌, ◌++◌, Bytes, length}
use hmgo.Effect.{ok, fail}
use hmgo.Fault.{Error}
use hmgo.Uart.{Port, deliver, uart_write}
use hmgo.Uartgw.Escaping.{escape, escaping_write}
use hmgo.Uartgw.Escaping.Writer.{escape-append}
use hmgo.Uartgw.Command.{byte}
use hmgo.Uartgw.Packet.{Uartgw, Packet, be16, write_packet}
use hmgo.Uartgw.Packet.Frame.{frame}

-- The port after a write.
abbrev pub wrote : Port → Bytes → Port
wrote p bs = record p { sent = p.sent ++ bs }

uart_write_ok : (bs : Bytes) (p : Port) → p.faults ≡ [] → uart_write bs p ≡ (ok tt, wrote p bs)
unfolding uart_write
uart_write_ok bs p e = ap (deliver bs p) e

escaping_write_ok :
    (bs : Bytes) (p : Port) → p.faults ≡ [] → escaping_write bs p ≡ (ok tt, wrote p (escape bs))
unfolding escaping_write
escaping_write_ok [] p e = ap (λ z. (ok tt, record p { sent = z })) (sym (append-nil p.sent))
escaping_write_ok (b ∷ bs) p e = uart_write_ok (escape (b ∷ bs)) p e

-- The five pieces that are written make up the frame.
five_writes :
    (sent len head payload crc : Bytes)
    → (((sent ++ 0xfd ∷ []) ++ escape len) ++ escape head) ++ escape payload ++ escape crc
      ≡ sent ++ 0xfd ∷ escape (len ++ ((head ++ payload) ++ crc))
five_writes sent len head payload crc = simp (escape-append, append_assoc)

module _ (checksum : Bytes → ℕ) where
  -- A packet whose command has a byte goes out as one frame, and the counter counts it modulo 256.
  pub write_packet-frame :
      (u : Uartgw) (pkt : Packet) (k : ℕ)
      → u.port.faults ≡ []
      → byte pkt.cmd ≡ ok k
      → length pkt.payload + 3 < 65536
      → write_packet checksum pkt u ≡ (
        ok tt,
        record u {
          port = wrote u.port (frame checksum (pkt.dst ∷ u.msgcnt ∷ k ∷ pkt.payload));
          msgcnt = (u.msgcnt + 1) % 256;
        },
      )
  unfolding write_packet
  write_packet-frame u pkt k nf e h =
      let len : (3 + length pkt.payload) % 65536 ≡ suc (suc (suc (length pkt.payload))) =
        omega arith in
      let l = be16 (suc (suc (suc (length pkt.payload)))) in
      let head = pkt.dst ∷ u.msgcnt ∷ k ∷ [] in
      let crc = be16 (checksum (0xfd ∷ (l ++ head ++ pkt.payload))) in
      let p1 = wrote u.port (0xfd ∷ []) in
      let p2 = wrote p1 (escape l) in
      let p3 = wrote p2 (escape head) in
      let p4 = wrote p3 (escape pkt.payload) in
      rw
        (
          uart_write_ok (0xfd ∷ []) u.port nf,
          len,
          escaping_write_ok l p1 nf,
          e,
          escaping_write_ok head p2 nf,
          escaping_write_ok pkt.payload p3 nf,
          escaping_write_ok crc p4 nf,
        )
        (ap
          (λ z.
            (ok tt, record u { port = record u.port { sent = z }; msgcnt = (u.msgcnt + 1) % 256 }))
          (five_writes u.port.sent l head pkt.payload crc))

  -- A command without a byte is noticed when delimiter and length are already on the line. The
  -- error is that of `Byte`, and the counter does not move.
  pub write_packet_unknown :
      (u : Uartgw) (pkt : Packet) (e : Error)
      → u.port.faults ≡ []
      → byte pkt.cmd ≡ fail e
      → write_packet checksum pkt u ≡ (
        fail e,
        record u {
          port =
              wrote (wrote u.port (0xfd ∷ [])) (escape (be16 ((3 + length pkt.payload) % 65536)));
        },
      )
  unfolding write_packet
  write_packet_unknown u pkt e nf b =
      rw (uart_write_ok (0xfd ∷ []) u.port nf, escaping_write_ok _ (wrote u.port (0xfd ∷ [])) nf, b)
