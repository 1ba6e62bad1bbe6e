-- ===== src/Uartgw/Session/Sending.antt =====
-- What WritePacket puts on the line where it returns, whichever writes may fail.
use hmgo.Prelude.{ℕ, suc, ◌+◌, ◌%◌, ◌^◌, ◌<◌, ◌≡◌, refl, sym, ap, ◌∙◌, arith, subst}
use hmgo.Prelude.{List, [], ◌∷◌, ◌++◌, append-nil, append_assoc, Option, none, some, Bytes, length}
use hmgo.Effect.{Outcome, ok, fail, Effect, lift, gets, modify}
use hmgo.Effect.{◌>>=◌, ◌>>◌, continue}
use hmgo.Fault.{Error, write_failed}
use hmgo.Uart.{Port, deliver, uart_write}
use hmgo.Uartgw.Escaping.{escape, escaping_write}
use hmgo.Uartgw.Escaping.Writer.{escape-append}
use hmgo.Uartgw.Packet.Frame.{frame}
use hmgo.Uartgw.Packet.Silence.{read_packet_silent}
use hmgo.Uartgw.Command.{byte}
use hmgo.Uartgw.Packet.{Addr, Packet, Uartgw, be16, on_port, write_packet, read_packet}
use hmgo.Uartgw.Session.Growth.{stay, Grows, Grows-bind, Grows-same}

deliver_grows :
    (bs : Bytes) (p : Port) (fs : List (Option ℕ)) (a : Unit {0}) (q : Port)
    → deliver bs p fs ≡ (ok a, q)
    → q.sent ≡ p.sent ++ bs
unfolding deliver
deliver_grows bs p [] a q e = sym (ap (λ o. o.1.sent) e)
deliver_grows bs p (none ∷ fs) a q e = sym (ap (λ o. o.1.sent) e)
deliver_grows bs p (some k ∷ fs) a q e = absurd (failed (ap (λ o. o.0) e))
  where
    failed : fail write_failed ≡ ok a → ⊥
    failed k = cc

escaping_grows :
    (bs : Bytes) (p : Port) (a : Unit {0}) (q : Port)
    → escaping_write bs p ≡ (ok a, q)
    → q.sent ≡ p.sent ++ escape bs
unfolding escaping_write uart_write escape
escaping_grows [] p a q e = sym (ap (λ o. o.1.sent) e) ∙ sym (append-nil p.sent)
escaping_grows (b ∷ bs) p a q e = deliver_grows (escape (b ∷ bs)) p p.faults a q e

module _ (h : Addr) (n : ℕ) where
  -- A write on the port.
  Grows-port :
      (bs : Bytes) (m : Effect Port Error (Unit {0}))
      → ((p : Port) (a : Unit {0}) (q : Port) → m p ≡ (ok a, q) → q.sent ≡ p.sent ++ bs)
      → Grows h n bs n stay (on_port m)
  Grows-port bs m w = record {
    at = λ u a t i c e.
        let done : m u.port ≡ (ok a, (m u.port).1) = ap (λ o. (o.0, (m u.port).1)) e in
        (
          sym (ap (λ o. o.1.port.sent) e) ∙ w u.port a (m u.port).1 done,
          sym (ap (λ o. o.1.msgcnt) e) ∙ c,
          sym (ap (λ o. o.1.hmid) e) ∙ i,
          sym (ap (λ o. o.1.devstate) e),
        );
  }

  Grows-escaping : (bs : Bytes) → Grows h n (escape bs) n stay (on_port (escaping_write bs))
  Grows-escaping bs = Grows-port (escape bs) (escaping_write bs) (escaping_grows bs)

  Grows-delimiter : Grows h n (0xfd ∷ []) n stay (on_port (uart_write (0xfd ∷ [])))
  Grows-delimiter =
      Grows-port (0xfd ∷ []) (uart_write (0xfd ∷ []))
        (unfold uart_write in λ p. deliver_grows _ p _)

  Grows-tick :
      Grows h n []
        ((n + 1) % 256)
        stay
        (modify {E = Error} (λ (u : Uartgw). record u { msgcnt = (u.msgcnt + 1) % 2 ^ 8 }))
  Grows-tick = record {
    at = λ u a t i c e. (
      sym (ap (λ o. o.1.port.sent) e) ∙ sym (append-nil u.port.sent),
      sym (ap (λ o. o.1.msgcnt) e) ∙ ap (λ k. (k + 1) % 256) c,
      sym (ap (λ o. o.1.hmid) e) ∙ i,
      sym (ap (λ o. o.1.devstate) e),
    );
  }

module _ (checksum : Bytes → ℕ) (h : Addr) (n : ℕ) where
  pub Grows-read_packet : Grows h n [] n stay (read_packet checksum)
  Grows-read_packet = Grows-same h n (read_packet checksum) λ u. (
    (read_packet_silent checksum).at u,
    unfold read_packet in refl,
    unfold read_packet in refl,
    unfold read_packet in refl,
  )

  Grows-lift :
      (n' : ℕ) (bs : Bytes) (o : Outcome Error ℕ) (k : ℕ) (f : ℕ → Effect Uartgw Error (Unit {0}))
      → o ≡ ok k
      → Grows h n bs n' stay (f k)
      → Grows h n bs n' stay (lift o >>= f)
  Grows-lift n' bs o k f w g = record {
    at = λ u a t i c e. g.at u a t i c (sym (ap (λ z. continue z u f) w) ∙ e);
  }

  -- The counter is read, and used.
  Grows-counter :
      (n' : ℕ) (bs : Bytes) (f : ℕ → Effect Uartgw Error (Unit {0}))
      → Grows h n bs n' stay (f n)
      → Grows h n bs n' stay (gets (λ u. u.msgcnt) >>= f)
  Grows-counter n' bs f g = record {
    at = λ u a t i c e. g.at u a t i c (sym (ap (λ z. f z u) c) ∙ e);
  }

  -- The last three of the five writes, and the counter.
  written :
      (payload crc : Bytes) (dst k : ℕ)
      → Grows h n
          (escape (dst ∷ n ∷ k ∷ []) ++ (escape payload ++ escape crc))
          ((n + 1) % 256)
          stay
          (on_port (escaping_write (dst ∷ n ∷ k ∷ []))
            >> (modify (λ (u : Uartgw). record u { msgcnt = (u.msgcnt + 1) % 2 ^ 8 })
                >> (on_port (escaping_write payload) >> on_port (escaping_write crc))))
  written payload crc dst k =
      let next = (n + 1) % 256 in
      Grows-bind h n n next _ _ (on_port (escaping_write (dst ∷ n ∷ k ∷ []))) _
        (Grows-escaping h n (dst ∷ n ∷ k ∷ []))
        λ _. Grows-bind h n next next [] _ _ _ (Grows-tick h n) λ _.
          Grows-bind h next next next (escape payload) (escape crc)
            (on_port (escaping_write payload)) _ (Grows-escaping h next payload)
            λ _. Grows-escaping h next crc

  five_parts :
      (len head payload crc : Bytes)
      → (0xfd ∷ []) ++ (escape len ++ (escape head ++ (escape payload ++ escape crc)))
        ≡ 0xfd ∷ escape (len ++ ((head ++ payload) ++ crc))
  five_parts len head payload crc = simp (escape-append, append_assoc)

  -- WritePacket, where it returns, has put one frame on the line.
  pub Grows-write_packet :
      (pkt : Packet) (k : ℕ)
      → byte pkt.cmd ≡ ok k
      → length pkt.payload + 3 < 65536
      → Grows h n
          (frame checksum (pkt.dst ∷ n ∷ k ∷ pkt.payload))
          ((n + 1) % 256)
          stay
          (write_packet checksum pkt)
  unfolding write_packet
  Grows-write_packet pkt k w lt =
      let next = (n + 1) % 256 in
      let len = be16 ((3 + length pkt.payload) % 2 ^ 16) in
      let head = pkt.dst ∷ n ∷ k ∷ [] in
      let crc = be16 (checksum (0xfd ∷ (len ++ head ++ pkt.payload))) in
      let after : ℕ → Effect Uartgw Error (Unit {0}) = λ cnt.
        on_port (escaping_write (pkt.dst ∷ cnt ∷ k ∷ []))
        >> (modify (λ (u : Uartgw). record u { msgcnt = (u.msgcnt + 1) % 2 ^ 8 })
            >> (on_port (escaping_write pkt.payload)
                >> on_port (
                    escaping_write (
                      be16
                        (checksum (0xfd ∷ (len ++ (pkt.dst ∷ cnt ∷ k ∷ []) ++ pkt.payload))))))) in
      let size : (3 + length pkt.payload) % 2 ^ 16 ≡ suc (suc (suc (length pkt.payload))) =
        omega (arith, lt) in
      subst (λ bs. Grows h n bs next stay (write_packet checksum pkt))
        (five_parts len head pkt.payload crc
          ∙ ap
              (λ z.
                0xfd
                ∷ escape (
                    be16 z
                    ++ ((head ++ pkt.payload)
                        ++ be16 (checksum (0xfd ∷ (be16 z ++ head ++ pkt.payload))))))
              size)
        (Grows-bind h n n next (0xfd ∷ []) _ (on_port (uart_write (0xfd ∷ []))) _
          (Grows-delimiter h n)
          λ _.
            Grows-bind h n n next (escape len) _ (on_port (escaping_write len)) _
              (Grows-escaping h n len)
              λ _.
                Grows-lift next _ (byte pkt.cmd) k _ w
                  (Grows-counter next _ after (written pkt.payload crc pkt.dst k)))
