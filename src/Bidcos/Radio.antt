-- ===== src/Bidcos/Radio.antt =====
-- The sender on top of the UARTGW: packets through all layers down to the serial line.
use hmgo.Prelude.{ℕ, ◌+◌, ◌<◌, ◌≤◌, ◌≡◌, refl, sym, ap, ◌∙◌, arith, List, ◌∷◌, ◌++◌}
use hmgo.Prelude.{Bytes, length, All}
use hmgo.Effect.{ok, lift, continue}
use hmgo.Uartgw.Command.{app_send, byte, app}
use hmgo.Uartgw.Packet.{Uartgw}
use hmgo.Uartgw.Packet.Frame.{frame}
use hmgo.Uartgw.Packet.Writing.{write_packet-frame as on_the_line}
use hmgo.Uartgw.Session.{request}
use hmgo.Uartgw.Session.Handshake.{Ready, Reply, Fits, message, writes}
use hmgo.Uartgw.Traffic.{send, read, confirm}
use hmgo.Uartgw.Traffic.Confirming.{received, confirm_drops, confirm_silent, read_receives}
use hmgo.Bidcos.{Packet, Gateway, Sender, encode, decode, chosen, burst, read_packet, write_packet}
use hmgo.Bidcos.Codec.{decode-encode}

-- `*UARTGW` implements `bidcos.Gateway`.
abbrev pub uartgw : (Bytes → ℕ) → Gateway Uartgw
uartgw checksum = record { read = read checksum; write = send checksum; confirm = confirm checksum }

module _ {S : Type 0} (gw : Gateway S) where
  pub read_packet_step :
      (s : Sender S) (bs : Bytes) (t : S)
      → gw.read 29 s.gateway ≡ (ok bs, t)
      → read_packet gw s ≡ (decode bs, record s { gateway = t })
  unfolding read_packet
  read_packet_step s bs t e =
      ap (λ o. continue o.0 (record s { gateway = o.1 }) (λ buf. lift (decode buf))) e

  pub write_packet_step :
      (pkt : Packet) (s : Sender S) (t w : S)
      → gw.write (encode (record pkt { source = s.addr }) s.counter).0 s.gateway ≡ (ok tt, t)
      → gw.confirm t ≡ (ok tt, w)
      → write_packet gw pkt s ≡ (
        ok tt,
        record s { gateway = w; counter = (encode (record pkt { source = s.addr }) s.counter).1 },
      )
  unfolding write_packet
  write_packet_step pkt s t w e f = rw (e, f)

module _ (checksum : Bytes → ℕ) (bounded : (bs : Bytes) → checksum bs < 65536) where
  -- If the device forwards the radio packet `p`, encoded at any counter, in an AppRecv message, and its
  -- payload has at most 17 bytes, `ReadPacket` of the sender returns it with status and info 0, the
  -- burst bit for its signal strength and the counter that the encoding chose, and with the flags,
  -- command, addresses and payload of `p`. It reads that message and no more, and the counter of the
  -- sender stays.
  pub read_packet-encode :
      (p : Packet) (counter dst cnt : ℕ) (rest : Bytes) (v : List ℕ) (n : Bytes) (s : Sender Uartgw)
      → length p.payload ≤ 17
      → Ready
          (message checksum bounded 0x05
              (record { dst = dst; cnt = cnt; payload = (encode p counter).0 })
            ++ rest)
          app
          v
          n
          s.gateway
      → (later : Sender Uartgw) × (read_packet (uartgw checksum) s ≡ (
        ok (record p { status = 0; info = 0; rssi = burst p; msgcnt = chosen p counter }),
        later,
      ))
        × Ready rest app v n later.gateway
        × (later.counter ≡ s.counter)
  unfolding read_packet
  read_packet-encode p counter dst cnt rest v n s h g =
      let r : Reply = record { dst = dst; cnt = cnt; payload = (encode p counter).0 } in
      let size : length (encode p counter).0 ≡ 12 + length p.payload =
        unfold encode in omega arith in
      let x =
        read_receives checksum bounded 29 r rest v n s.gateway (omega arith) (omega arith) g in
      let later = record s { gateway = x.later } in
      (
        later,
        read_packet_step (uartgw checksum) s _ _ x.runs
            ∙ ap (λ d. (d, later)) (decode-encode p counter),
        x.holds,
        refl,
      )

  -- `WritePacket` of the sender puts one AppSend frame with the encoded packet on the line, from
  -- the sender's address, and returns when the device has acknowledged it; radio packets that come
  -- in before that are dropped.
  pub write_packet_acknowledged :
      (pkt : Packet) (rs : List Reply) (ack : Reply) (rest : Bytes) (v : List ℕ) (n : Bytes)
      (s : Sender Uartgw)
      → length pkt.payload ≤ 1000
      → All Fits rs
      → Fits ack
      → Ready
          (received checksum bounded rs (message checksum bounded 0x04 ack ++ rest))
          app
          v
          n
          s.gateway
      → (later : Sender Uartgw) × (write_packet (uartgw checksum) pkt s ≡ (ok tt, later))
        × Ready rest app v n later.gateway
        × (later.gateway.port.sent
            ≡ s.gateway.port.sent
              ++ frame checksum (
                  app
                  ∷ s.gateway.msgcnt
                  ∷ 0x02
                  ∷ (encode (record pkt { source = s.addr }) s.counter).0))
        × (later.counter ≡ (encode (record pkt { source = s.addr }) s.counter).1)
  write_packet_acknowledged pkt rs ack rest v n s h hs ha g =
      let bs = (encode (record pkt { source = s.addr }) s.counter).0 in
      let size : length bs ≡ 12 + length pkt.payload = unfold encode in omega arith in
      let w =
        writes checksum bounded (request app app_send bs) 0x02 _ app v n s.gateway
          (unfold byte in refl) (omega arith) g in
      let x = confirm_drops checksum bounded rs ack rest v n w.later hs ha w.holds in
      (
        _,
        write_packet_step (uartgw checksum) pkt s w.later x.later (unfold send in w.runs) x.runs,
        x.holds,
        sym (ap (λ o. o.1.port.sent) x.runs)
            ∙ confirm_silent checksum w.later
            ∙ ap (λ o. o.1.port.sent)
                (sym w.runs
                  ∙ on_the_line checksum s.gateway (request app app_send bs) 0x02 g.no_faults
                      (unfold byte in refl) (omega arith)),
        refl,
      )
