-- ===== src/Uartgw/Traffic/Peers.antt =====
-- The conversation of `AddPeer` with a device that acknowledges its messages.
use hmgo.Prelude.{
  ℕ, zero, suc, ◌+◌, ◌%◌, ◌<◌, ◌≤◌, ◌≡◌, refl, sym, ap, ◌∙◌, arith, List, [], ◌∷◌, ◌++◌,
}
use hmgo.Prelude.{append_assoc, append-nil, Bytes, length, All}
use hmgo.Effect.{ok, ◌>>=◌, ◌>>◌}
use hmgo.Uartgw.Command.{UartCmd, app_ack, app_add_peer, app_peer_remove_aes, byte, command, app}
use hmgo.Uartgw.Packet.{Addr, addr_bytes, Uartgw, write_packet, read_packet}
use hmgo.Uartgw.Packet.Frame.{frame}
use hmgo.Uartgw.Packet.Silence.{read_packet_silent}
use hmgo.Uartgw.Packet.Writing.{write_packet-frame as on_the_line}
use hmgo.Uartgw.Session.{request, expect_cmd}
use hmgo.Uartgw.Session.Handshake.{
  Ready, Reply, Fits, Leads, Leads-bind, Leads-then, message, parsed, writes, reads,
}
use hmgo.Uartgw.Traffic.{add_peer_payload, channel_bytes, repeat, add_peer_message, add_peer}

-- The payloads of AddPeer, behind the command.
abbrev pub added : Addr → Bytes
added (a, b, c) = 0x06 ∷ a ∷ b ∷ c ∷ 0x00 ∷ 0x00 ∷ 0x00 ∷ []

abbrev pub without_aes : Addr → ℕ → Bytes
without_aes addr channels = 0x0a ∷ (addr_bytes addr ++ channel_bytes 0 channels)

abbrev pub peer_requests : Addr → ℕ → List Bytes
peer_requests addr channels =
    added addr ∷ added addr ∷ without_aes addr channels ∷ added addr ∷ added addr ∷ []

module _ (checksum : Bytes → ℕ) where
  -- Requests to the application, with the counter going up from `count`.
  abbrev pub requests : ℕ → List Bytes → Bytes
  requests count [] = []
  requests count (m ∷ ms) = frame checksum (app ∷ count ∷ m) ++ requests ((count + 1) % 256) ms

  -- The line after requests.
  abbrev pub line : Bytes → ℕ → List Bytes → Bytes
  line sent count [] = sent
  line sent count (m ∷ ms) = line (sent ++ frame checksum (app ∷ count ∷ m)) ((count + 1) % 256) ms

  line-requests :
      (sent : Bytes) (count : ℕ) (ms : List Bytes) → line sent count ms ≡ sent ++ requests count ms
  line-requests sent count [] = sym (append-nil sent)
  line-requests sent count (m ∷ ms) =
      line-requests (sent ++ frame checksum (app ∷ count ∷ m)) ((count + 1) % 256) ms
      ∙ append_assoc sent (frame checksum (app ∷ count ∷ m)) (requests ((count + 1) % 256) ms)

  -- What `u` has become: ready for the rest, with these requests put on the line.
  pub record Asked (rest : Bytes) (v : List ℕ) (n : Bytes) (u : Uartgw) (ms : List Bytes)
      (t : Uartgw) : Type 0 where
    pub ready : Ready rest app v n t
    pub sent_is : t.port.sent ≡ u.port.sent ++ requests u.msgcnt ms

  -- Ready for what the device still sends; `sent` is on the line, and `count` is the counter.
  pub record Told (rest : Bytes) (v : List ℕ) (n sent : Bytes) (count : ℕ) (u : Uartgw)
      : Type 0 where
    pub ready : Ready rest app v n u
    pub sent_is : u.port.sent ≡ sent
    pub count_is : u.msgcnt ≡ count

  read_packet_count : (u : Uartgw) → (read_packet checksum u).1.msgcnt ≡ u.msgcnt
  unfolding read_packet
  read_packet_count u = refl

module _ (checksum : Bytes → ℕ) (bounded : (bs : Bytes) → checksum bs < 65536) where
  abbrev pub acks : List Reply → Bytes → Bytes
  acks [] rest = rest
  acks (r ∷ rs) rest = message checksum bounded 0x04 r ++ acks rs rest

  write-Told :
      (cmd : UartCmd) (kb : ℕ) (payload rest : Bytes) (v : List ℕ) (n sent : Bytes) (count : ℕ)
      (u : Uartgw)
      → byte cmd ≡ ok kb
      → length payload + 3 < 65536
      → Told checksum rest v n sent count u
      → Leads (write_packet checksum (request app cmd payload)) u tt (
          Told checksum rest v n
            (sent ++ frame checksum (app ∷ count ∷ kb ∷ payload))
            ((count + 1) % 256))
  write-Told cmd kb payload rest v n sent count u b h g =
      let pkt = request app cmd payload in
      let w = writes checksum bounded pkt kb rest app v n u b h g.ready in
      let same = ap (λ o. o.1) (sym w.runs ∙ on_the_line checksum u pkt kb g.ready.no_faults b h) in
      record {
        later = w.later;
        runs = w.runs;
        holds = record {
          ready = w.holds;
          sent_is =
              ap (λ t. t.port.sent) same
              ∙ ap (λ z. z ++ frame checksum (app ∷ u.msgcnt ∷ kb ∷ payload)) g.sent_is
              ∙ ap (λ z. sent ++ frame checksum (app ∷ z ∷ kb ∷ payload)) g.count_is;
          count_is = ap (λ t. t.msgcnt) same ∙ ap (λ z. (z + 1) % 256) g.count_is;
        };
      }

  read-Told :
      (ack : Reply) (rest : Bytes) (v : List ℕ) (n sent : Bytes) (count : ℕ) (u : Uartgw)
      → Fits ack
      → Told checksum (message checksum bounded 0x04 ack ++ rest) v n sent count u
      → Leads
          (read_packet checksum)
          u
          (parsed checksum bounded app_ack ack)
          (Told checksum rest v n sent count)
  read-Told ack rest v n sent count u fa g =
      let x =
        reads checksum bounded 0x04 app_ack ack rest app v n u (unfold command in refl) fa
          g.ready in
      record {
        later = x.later;
        runs = x.runs;
        holds = record {
          ready = x.holds;
          sent_is =
              ap (λ o. o.1.port.sent) (sym x.runs) ∙ (read_packet_silent checksum).at u ∙ g.sent_is;
          count_is = ap (λ o. o.1.msgcnt) (sym x.runs) ∙ read_packet_count checksum u ∙ g.count_is;
        };
      }

  -- A request is sent, and its acknowledgement read.
  tells :
      (cmd : UartCmd) (kb : ℕ) (payload : Bytes) (ack : Reply) (rest : Bytes) (v : List ℕ)
      (n sent : Bytes) (count : ℕ) (u : Uartgw)
      → byte cmd ≡ ok kb
      → length payload + 3 < 65536
      → Fits ack
      → Told checksum (message checksum bounded 0x04 ack ++ rest) v n sent count u
      → Leads
          (write_packet checksum (request app cmd payload)
            >> (read_packet checksum >>= λ reply. expect_cmd reply app_ack))
          u
          tt
          (Told checksum rest v n
            (sent ++ frame checksum (app ∷ count ∷ kb ∷ payload))
            ((count + 1) % 256))
  unfolding expect_cmd
  tells cmd kb payload ack rest v n sent count u b h fa g =
      Leads-then (write_packet checksum (request app cmd payload)) _ u
        (write-Told cmd kb payload _ v n sent count u b h g)
        λ t gt.
          Leads-bind (read_packet checksum) _ t (read-Told ack rest v n _ _ t fa gt)
            (λ w gw. record { later = w; runs = refl; holds = gw })

  length-channel_bytes : (i left : ℕ) → length (channel_bytes i left) ≡ left
  unfolding channel_bytes
  length-channel_bytes i zero = refl
  length-channel_bytes i (suc left) = ap suc (length-channel_bytes (i + 1) left)

  once :
      (addr : Addr) (ack : Reply) (rest : Bytes) (v : List ℕ) (n sent : Bytes) (count : ℕ)
      (u : Uartgw)
      → Fits ack
      → Told checksum (message checksum bounded 0x04 ack ++ rest) v n sent count u
      → Leads (add_peer_message checksum (addr_bytes addr)) u tt (
          Told checksum rest v n
            (sent ++ frame checksum (app ∷ count ∷ added addr))
            ((count + 1) % 256))
  unfolding add_peer_message add_peer_payload
  once (a, b, c) ack rest v n sent count u fa g =
      let x =
        tells app_add_peer 0x06 (a ∷ b ∷ c ∷ 0 ∷ 0 ∷ 0 ∷ []) ack rest v n sent count u
          (unfold byte in refl) (omega arith) fa g in
      record { later = x.later; runs = x.runs; holds = x.holds }

  ends :
      (addr : Addr) (r1 r2 : Reply) (rest : Bytes) (v : List ℕ) (n sent : Bytes) (count : ℕ)
      (u : Uartgw)
      → Fits r1
      → Fits r2
      → Told checksum (acks (r1 ∷ r2 ∷ []) rest) v n sent count u
      → Leads
          (add_peer_message checksum (addr_bytes addr)
            >> add_peer_message checksum (addr_bytes addr))
          u
          tt
          (Told checksum rest v n
            (line checksum sent count (added addr ∷ added addr ∷ []))
            (((count + 1) % 256 + 1) % 256))
  ends addr r1 r2 rest v n sent count u f1 f2 g =
      Leads-then (add_peer_message checksum (addr_bytes addr)) _ u
        (once addr r1 _ v n sent count u f1 g) (λ t gt. once addr r2 rest v n _ _ t f2 gt)

  repeats :
      (addr : Addr) (r1 r2 : Reply) (rest : Bytes) (v : List ℕ) (n sent : Bytes) (count : ℕ)
      (u : Uartgw)
      → Fits r1
      → Fits r2
      → Told checksum (acks (r1 ∷ r2 ∷ []) rest) v n sent count u
      → Leads (repeat 2 (add_peer_message checksum (addr_bytes addr))) u tt (
          Told checksum rest v n
            (line checksum sent count (added addr ∷ added addr ∷ []))
            (((count + 1) % 256 + 1) % 256))
  unfolding repeat
  repeats addr r1 r2 rest v n sent count u f1 f2 g =
      Leads-then (add_peer_message checksum (addr_bytes addr)) _ u
        (once addr r1 _ v n sent count u f1 g)
        λ t gt.
          Leads-then (add_peer_message checksum (addr_bytes addr)) (λ w. (ok tt, w)) t
            (once addr r2 rest v n _ _ t f2 gt)
            (λ w gw. record { later = w; runs = refl; holds = gw })

  -- If the device acknowledges five messages, AddPeer returns no error and reads no more than that.
  -- What it puts on the line is the request to add the peer, twice, the request to switch AES off
  -- on the channels 0 up to their number, and the first request twice more.
  pub add_peer_acknowledged :
      (addr : Addr) (channels : ℕ) (r1 r2 r3 r4 r5 : Reply) (rest : Bytes) (v : List ℕ) (n : Bytes)
      (u : Uartgw)
      → channels ≤ 60000
      → All Fits (r1 ∷ r2 ∷ r3 ∷ r4 ∷ r5 ∷ [])
      → Ready (acks (r1 ∷ r2 ∷ r3 ∷ r4 ∷ r5 ∷ []) rest) app v n u
      → Leads
          (add_peer checksum (addr_bytes addr) channels)
          u
          tt
          (Asked checksum rest v n u (peer_requests addr channels))
  unfolding add_peer expect_cmd
  add_peer_acknowledged addr channels r1 r2 r3 r4 r5 rest v n u h (f1, (f2, (f3, (f4, (f5, _)))))
        g =
      let remove = addr_bytes addr ++ channel_bytes 0 channels in
      let size = length-channel_bytes 0 channels in
      let remove_byte : byte app_peer_remove_aes ≡ ok 0x0a = unfold byte in refl in
      let start : Told checksum (acks (r1 ∷ r2 ∷ r3 ∷ r4 ∷ r5 ∷ []) rest) v n u.port.sent u.msgcnt
          u =
        record { ready = g; sent_is = refl; count_is = refl } in
      Leads-then (repeat 2 (add_peer_message checksum (addr_bytes addr))) _ u
        (repeats addr r1 r2 _ v n _ _ u f1 f2 start)
        λ t gt.
          Leads-then (write_packet checksum (request app app_peer_remove_aes remove)) _ t
            (write-Told app_peer_remove_aes 0x0a remove _ v n _ _ t remove_byte
              (omega (arith, size)) gt)
            λ w gw. Leads-bind (read_packet checksum) _ w (read-Told r3 _ v n _ _ w f3 gw) λ x gx.
              let y = ends addr r4 r5 rest v n _ _ x f4 f5 gx in
              record {
                later = y.later;
                runs = y.runs;
                holds = record {
                  ready = y.holds.ready;
                  sent_is =
                      y.holds.sent_is
                      ∙ line-requests checksum u.port.sent u.msgcnt (peer_requests addr channels);
                };
              }
