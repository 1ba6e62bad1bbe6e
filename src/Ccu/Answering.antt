-- ===== src/Ccu/Answering.antt =====
-- A peering request that the main loop answers, down to the serial line.
use hmgo.Prelude.{ℕ, ◌<◌, ◌≤◌, ◌≡◌, refl, sym, ap, ◌∙◌, arith, List, [], ◌∷◌, ◌++◌, Option, some}
use hmgo.Prelude.{Bytes, append_assoc, All, inl, inr, subst, get_elem?, ◌==◌, true}
use hmgo.Prelude.{zero, suc, set}
use hmgo.Effect.{Outcome, ok, continue}
use hmgo.Fault.{Error}
use hmgo.Uartgw.Command.{app}
use hmgo.Uartgw.Session.Handshake.{Ready, Reply, Fits}
use hmgo.Uartgw.Traffic.Peers.{acks, peer_requests, requests, add_peer_acknowledged}
use hmgo.Bidcos.{Packet, device_info}
use hmgo.Bidcos.Radio.{uartgw}
use hmgo.Hm.{pair}
use hmgo.Hm.Acknowledged.{Turn, IsTurn, turns, pair-Acked}
use hmgo.Ccu.Devices.{
  Model, power, thermal, heating, standard, channels, Device, Event, Ccu, on_found, on_device,
}
use hmgo.Ccu.Dispatch.{handle_packet}
use hmgo.Ccu.Observed.{IsWired}
use hmgo.Ccu.Peering.{IsConfigured, peer_device, peering_cases}

pub channels_few : (m : Model) → channels m ≤ 60000
unfolding channels
channels_few (power ps) = omega arith
channels_few (thermal tc) = omega arith
channels_few (heating t) = omega arith

set_keeps {ℓ} :
    {A : Type ℓ} (xs : List A) (p q : ℕ) (v : A) {c : A}
    → get_elem? xs q ≡ some c
    → (e : A) × (get_elem? (set xs p v) q ≡ some e)
set_keeps [] p q v h = cc
set_keeps (x ∷ xs) zero zero v h = (v, refl)
set_keeps (x ∷ xs) zero (suc q) v h = (_, h)
set_keeps (x ∷ xs) (suc p) zero v h = (x, refl)
set_keeps (x ∷ xs) (suc p) (suc q) v h = set_keeps xs p q v h

-- The central goes on, ready for `rest`, with its maps as they were, and with devices at the places
-- that they lead to, if it had them. On the line are the bytes `said` and then others.
pub record GoesOn (rest : Bytes) (v : List ℕ) (n said : Bytes) (s : Ccu)
    (o : Outcome Error (Unit {0}) × Ccu) : Type 0 where
  pub succeeds : o.0 ≡ ok tt
  pub ready : Ready rest app v n o.1.bcs.gateway
  pub by_addr_is : o.1.by_addr ≡ s.by_addr
  pub by_serial_is : o.1.by_serial ≡ s.by_serial
  pub requests_is : o.1.requests ≡ s.requests
  pub still_wired : IsWired s.by_addr s.devices → IsWired o.1.by_addr o.1.devices
  pub more : Bytes
  pub sent_is : o.1.bcs.gateway.port.sent ≡ s.bcs.gateway.port.sent ++ (said ++ more)

module _ (checksum : Bytes → ℕ) (bounded : (bs : Bytes) → checksum bs < 65536) where
  pairs :
      (p : ℕ) (d : Device) (a b c : Turn) (rest : Bytes) (v : List ℕ) (n : Bytes) (s : Ccu)
      → get_elem? s.devices p ≡ some d
      → All IsTurn (a ∷ b ∷ c ∷ [])
      → Ready (turns checksum bounded (a ∷ b ∷ c ∷ []) rest) app v n s.bcs.gateway
      → GoesOn rest v n [] s (on_device p (pair (uartgw checksum)) s)
  unfolding on_found
  pairs p d a b c rest v n s e h g =
      let x =
        pair-Acked checksum bounded a b c rest v n (record (standard d.model) { bcs = s.bcs }) h
          g in
      rw e (record {
        succeeds = ap (λ o. o.0) x.runs;
        ready = subst (λ o. Ready rest app v n o.1.bcs.gateway) (sym x.runs) x.ready;
        by_addr_is = refl;
        by_serial_is = refl;
        requests_is = refl;
        still_wired = λ w q k f. let (c, g) = w q k f in set_keeps s.devices p k _ g;
        more = x.more;
        sent_is = ap (λ o. o.1.bcs.gateway.port.sent) x.runs ∙ x.sent_is;
      })

  abbrev answer_bytes : List Reply → List Turn → Bytes → Bytes
  answer_bytes rs ts rest = acks checksum bounded rs (turns checksum bounded ts rest)

  module _ (marshal : Event → Option Bytes) where
    -- The requests of AddPeer for the device.
    abbrev asked : Packet → Device → Ccu → Bytes
    asked pkt d s =
        requests checksum s.bcs.gateway.msgcnt (peer_requests pkt.source (channels d.model))

    answers :
        (pkt : Packet) (p : ℕ) (d : Device) (r1 r2 r3 r4 r5 : Reply) (a b c : Turn) (rest : Bytes)
        (v : List ℕ) (n : Bytes) (s : Ccu)
        → get_elem? s.devices p ≡ some d
        → All Fits (r1 ∷ r2 ∷ r3 ∷ r4 ∷ r5 ∷ [])
        → All IsTurn (a ∷ b ∷ c ∷ [])
        → Ready
            (answer_bytes (r1 ∷ r2 ∷ r3 ∷ r4 ∷ r5 ∷ []) (a ∷ b ∷ c ∷ []) rest)
            app
            v
            n
            s.bcs.gateway
        → GoesOn rest v n (asked pkt d s) s (peer_device checksum marshal pkt p d s)
    answers pkt p d r1 r2 r3 r4 r5 a b c rest v n s e hr ht g =
        let x =
          add_peer_acknowledged checksum bounded pkt.source (channels d.model) r1 r2 r3 r4 r5 _ v n
            s.bcs.gateway (channels_few d.model) hr g in
        let t : Ccu = record s { bcs = record s.bcs { gateway = x.later } } in
        let y = pairs p d a b c rest v n t e ht x.holds.ready in
        let runs : peer_device checksum marshal pkt p d s ≡ on_device p (pair (uartgw checksum)) t =
          ap
            (λ o.
              continue o.0 (record s { bcs = record s.bcs { gateway = o.1 } })
                (λ _. on_device p (pair (uartgw checksum))))
            x.runs in
        subst (GoesOn rest v n (asked pkt d s) s) (sym runs) (record {
          succeeds = y.succeeds;
          ready = y.ready;
          by_addr_is = y.by_addr_is;
          by_serial_is = y.by_serial_is;
          requests_is = y.requests_is;
          still_wired = y.still_wired;
          more = y.more;
          sent_is =
              y.sent_is
              ∙ ap (λ z. z ++ y.more) x.holds.sent_is
              ∙ append_assoc s.bcs.gateway.port.sent (asked pkt d s) y.more;
        })

    pub peering_acknowledged :
        (pkt : Packet) (p : ℕ) (d : Device) (r1 r2 r3 r4 r5 : Reply) (a b c : Turn) (rest : Bytes)
        (v : List ℕ) (n : Bytes) (s : Ccu)
        → IsWired s.by_addr s.devices
        → (pkt.cmd == device_info) ≡ true
        → IsConfigured pkt s p
        → get_elem? s.devices p ≡ some d
        → All Fits (r1 ∷ r2 ∷ r3 ∷ r4 ∷ r5 ∷ [])
        → All IsTurn (a ∷ b ∷ c ∷ [])
        → Ready
            (answer_bytes (r1 ∷ r2 ∷ r3 ∷ r4 ∷ r5 ∷ []) (a ∷ b ∷ c ∷ []) rest)
            app
            v
            n
            s.bcs.gateway
        → GoesOn rest v n
            (requests checksum s.bcs.gateway.msgcnt (peer_requests pkt.source (channels d.model)))
            s
            (handle_packet checksum marshal pkt s)
    peering_acknowledged pkt p d r1 r2 r3 r4 r5 a b c rest v n s w i k e hr ht g =
        elim (peering_cases checksum marshal pkt s w i) [
          | inl x ↦
              let same : x.place ≡ p =
                let f = x.configured.by_addr_is in let h = k.by_addr_is in cc in
              let device_same : x.device ≡ d = let f = x.device_is in cc in
              subst (GoesOn rest v n (asked pkt d s) s)
                (ap (λ q. peer_device checksum marshal pkt q d s) (sym same)
                  ∙ ap (λ z. peer_device checksum marshal pkt x.place z s) (sym device_same)
                  ∙ sym x.answer)
                (answers pkt p d r1 r2 r3 r4 r5 a b c rest v n s e hr ht g)
          | inr x ↦ absurd (x.unconfigured (p, k))
        ]
