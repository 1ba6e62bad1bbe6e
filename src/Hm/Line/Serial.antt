-- ===== src/Hm/Line/Serial.antt =====
-- The serial line of the UARTGW as a line for devices.
use hmgo.Prelude.{ℕ, ◌<◌, ◌≤◌, ◌≡◌, refl, ap, arith, List, [], ◌∷◌, ◌++◌}
use hmgo.Prelude.{Bytes, length, length-append, subst}
use hmgo.Uartgw.Command.{app_send, byte, app}
use hmgo.Uartgw.Packet.{Uartgw}
use hmgo.Uartgw.Session.{request}
use hmgo.Uartgw.Session.Handshake.{Ready, message, writes}
use hmgo.Uartgw.Traffic.{send}
use hmgo.Uartgw.Traffic.Confirming.{received, length-received, confirm_drops, read_receives}
use hmgo.Bidcos.Radio.{uartgw}
use hmgo.Hm.Acknowledged.{Turn, IsTurn}
use hmgo.Hm.Line.{Item, acked, heard, Told, Heard, IsLine}

module _ (checksum : Bytes → ℕ) (bounded : (bs : Bytes) → checksum bs < 65536) where
  -- The bytes of items on the serial line, then others: an acknowledgement has AppRecv messages before
  -- it, and a radio packet is the payload of an AppRecv message.
  abbrev pub Spells : Bytes → List Item → Bytes → Type 0
  Spells rest [] bytes = bytes ≡ rest
  Spells rest (acked ∷ items) bytes =
      (t : Turn) × (more : Bytes) × IsTurn t
      × (bytes ≡ received checksum bounded t.noise (message checksum bounded 0x04 t.ack ++ more))
      × Spells rest items more
  Spells rest (heard bs ∷ items) bytes =
      (dst : ℕ) × (cnt : ℕ) × (more : Bytes) × (length bs ≤ 29)
      × (bytes
          ≡ message checksum bounded 0x05 (record { dst = dst; cnt = cnt; payload = bs }) ++ more)
      × Spells rest items more

  -- What the gateway has to read spells the items.
  pub record Carries (rest : Bytes) (v : List ℕ) (n : Bytes) (items : List Item) (u : Uartgw)
      : Type 0 where
    pub bytes : Bytes
    pub spells : Spells rest items bytes
    pub ready : Ready bytes app v n u

  module _ (rest : Bytes) (v : List ℕ) (n : Bytes) where
    tells :
        (bs : Bytes) (items : List Item) (u : Uartgw)
        → length bs ≤ 1012
        → Carries rest v n (acked ∷ items) u
        → Told (uartgw checksum) (Carries rest v n) bs items u
    tells bs items u h g =
        let (t, more, (fits, ack_fits), e, spells) = g.spells in
        let w =
          writes checksum bounded (request app app_send bs) 0x02 _ app v n u (unfold byte in refl)
            (omega arith) (subst (λ b. Ready b app v n u) e g.ready) in
        let x =
          confirm_drops checksum bounded t.noise t.ack more v n w.later fits ack_fits w.holds in
        record {
          between = w.later;
          later = x.later;
          writes = unfold send in w.runs;
          confirms = x.runs;
          holds = record { bytes = more; spells = spells; ready = x.holds };
        }

    hears :
        (bs : Bytes) (items : List Item) (u : Uartgw)
        → Carries rest v n (heard bs ∷ items) u
        → Heard (uartgw checksum) (Carries rest v n) bs items u
    hears bs items u g =
        let (dst, cnt, more, h, e, spells) = g.spells in
        let x =
          read_receives checksum bounded 29 (record { dst = dst; cnt = cnt; payload = bs }) more v n
            u (omega arith) h (subst (λ b. Ready b app v n u) e g.ready) in
        record {
          later = x.later;
          reads = x.runs;
          holds = record { bytes = more; spells = spells; ready = x.holds };
        }

    -- The gateway keeps the laws of a line: it sends a packet and then takes the acknowledgement that
    -- is spelled, and it hands out the payload of the next AppRecv message.
    pub uartgw-IsLine : IsLine (uartgw checksum) (Carries rest v n)
    uartgw-IsLine = record { tells = tells; hears = hears }

  -- Every item takes a byte.
  pub length-Spells :
      (rest : Bytes) (items : List Item) (bytes : Bytes)
      → Spells rest items bytes
      → length items ≤ length bytes
  length-Spells rest [] bytes e = omega arith
  length-Spells rest (acked ∷ items) bytes (t, more, f, e, s) =
      let ack = message checksum bounded 0x04 t.ack in
      omega (
        arith,
        ap length e,
        length-received checksum bounded t.noise (ack ++ more),
        length-append ack more,
        length-Spells rest items more s,
      )
  length-Spells rest (heard bs ∷ items) bytes (dst, cnt, more, h, e, s) =
      let m = message checksum bounded 0x05 (record { dst = dst; cnt = cnt; payload = bs }) in
      omega (arith, ap length e, length-append m more, length-Spells rest items more s)
