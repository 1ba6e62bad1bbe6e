-- ===== src/Ccu/Serving.antt =====
-- The main loop on any traffic of the gateway.
use hmgo.Prelude.{ℕ, ◌<◌, ◌≡◌, refl, sym, ap, ◌∙◌, List, [], ◌∷◌, ◌++◌, map, true, Option, none}
use hmgo.Prelude.{Bytes, All, ◌==◌, Bool-cases, inl, inr, subst}
use hmgo.Effect.{Outcome, ok, fail, panic, stuck, continue}
use hmgo.Fault.{Error}
use hmgo.Uartgw.Command.{app_recv, same_cmd, command, app}
use hmgo.Uartgw.Packet.{Uartgw}
use hmgo.Uartgw.Session.Handshake.{Ready, Reply, Fits, message, reads}
use hmgo.Uartgw.Traffic.Peers.{acks}
use hmgo.Bidcos.{Packet, decode, device_info}
use hmgo.Hm.Acknowledged.{Turn, IsTurn, turns}
use hmgo.Ccu.Devices.{Event, Ccu}
use hmgo.Prelude.{take, drop}
use hmgo.Ccu.Devices.{find_addr, find_serial}
use hmgo.Ccu.Loop.{tick, handle_decoded, handle_received, round, rounds}
use hmgo.Ccu.Observed.{IsWired, handle_packet-Seen, After-Seen, After-IsWired}
use hmgo.Ccu.Peering.{IsConfigured, peering_cases}
use hmgo.Ccu.Answering.{peering_acknowledged}
use hmgo.Ccu.Rounds.{with_gateway}
use hmgo.Ccu.Conversing.{Welcome, replies_of}

-- An AppRecv message; and one with a peering request that is answered, with the acknowledgements of
-- the answer.
pub data Visit : Type 0 where
  plain : Reply → Visit
  pairing : Reply → Welcome → Turn → Turn → Turn → Visit

-- Whether the message asks a central with the maps of `s` to be peered, as the device at `p`.
pub record Asks (r : Reply) (s : Ccu) (p : ℕ) : Type 0 where
  pub packet : Packet
  pub decodes : decode r.payload ≡ ok packet
  pub cmd_is : (packet.cmd == device_info) ≡ true
  pub configured : IsConfigured packet s p

abbrev pub IsServed : Ccu → Visit → Type 0
IsServed s (plain r) = Fits r × ((p : ℕ) → ¬ Asks r s p)
IsServed s (pairing r w a b c) =
    Fits r × ((p : ℕ) × Asks r s p) × All Fits (replies_of w) × All IsTurn (a ∷ b ∷ c ∷ [])

-- The maps of two centrals are the same.
pub record Alike (s t : Ccu) : Type 0 where
  pub by_addr_is : t.by_addr ≡ s.by_addr
  pub by_serial_is : t.by_serial ≡ s.by_serial

Asks-Alike : {s t : Ccu} (r : Reply) (p : ℕ) → Alike s t → Asks r s p → Asks r t p
Asks-Alike r p k x =
    let c = x.configured in
    record {
      packet = x.packet;
      decodes = x.decodes;
      cmd_is = x.cmd_is;
      configured = record {
        long = c.long;
        by_addr_is = ap (λ m. find_addr m x.packet.source) k.by_addr_is ∙ c.by_addr_is;
        by_serial_is =
            ap (λ m. find_serial m (take 10 (drop 3 x.packet.payload))) k.by_serial_is
            ∙ c.by_serial_is;
      };
    }

Alike-sym : {s t : Ccu} → Alike s t → Alike t s
Alike-sym k = record { by_addr_is = sym k.by_addr_is; by_serial_is = sym k.by_serial_is }

Alike-IsServed : {s t : Ccu} (v : Visit) → Alike s t → IsServed s v → IsServed t v
Alike-IsServed (plain r) k (f, n) = (f, λ p x. n p (Asks-Alike r p (Alike-sym k) x))
Alike-IsServed (pairing r w a b c) k (f, (p, x), h, g) = (f, (p, Asks-Alike r p k x), h, g)

pub IsServed-Alike :
    {s t : Ccu} (visits : List Visit)
    → Alike s t
    → All (IsServed s) visits
    → All (IsServed t) visits
IsServed-Alike [] k h = tt
IsServed-Alike (x ∷ xs) k (h, hs) = (Alike-IsServed x k h, IsServed-Alike xs k hs)

-- The central goes on, ready for `rest`, with the same maps, and wired.
pub record Serves (rest : Bytes) (v : List ℕ) (n : Bytes) (s : Ccu)
    (o : Outcome Error (Unit {0}) × Ccu) : Type 0 where
  pub succeeds : o.0 ≡ ok tt
  pub ready : Ready rest app v n o.1.bcs.gateway
  pub by_addr_is : o.1.by_addr ≡ s.by_addr
  pub by_serial_is : o.1.by_serial ≡ s.by_serial
  pub wired : IsWired o.1.by_addr o.1.devices

module _ (checksum : Bytes → ℕ) (marshal : Event → Option Bytes) (rest : Bytes) (v : List ℕ)
    (n : Bytes) where
  unmoved :
      (s : Ccu)
      → IsWired s.by_addr s.devices
      → Ready rest app v n s.bcs.gateway
      → Serves rest v n s (ok tt, s)
  unmoved s w g = record {
    succeeds = refl;
    ready = g;
    by_addr_is = refl;
    by_serial_is = refl;
    wired = w;
  }

  -- A packet that is no peering request that is answered.
  serves :
      (r : Reply) (d : Outcome Error Packet) (s : Ccu)
      → decode r.payload ≡ d
      → ((p : ℕ) → ¬ Asks r s p)
      → IsWired s.by_addr s.devices
      → Ready rest app v n s.bcs.gateway
      → Serves rest v n s (handle_decoded checksum marshal d s)
  unfolding handle_decoded
  serves r (ok pkt) s e h w g = elim (Bool-cases (pkt.cmd == device_info)) [
    | inl asked ↦ elim (peering_cases checksum marshal pkt s w asked) [
      | inl x ↦ absurd (
          h x.place
            (record { packet = pkt; decodes = e; cmd_is = asked; configured = x.configured }))
      | inr x ↦ subst (Serves rest v n s) (sym x.nothing) (unmoved s w g)
    ]
    | inr event ↦
        let x = handle_packet-Seen checksum marshal pkt s w event in
        record {
          succeeds = x.succeeds;
          ready = subst (λ b. Ready rest app v n b.gateway) (sym x.bcs_is) g;
          by_addr_is = x.by_addr_is;
          by_serial_is = x.by_serial_is;
          wired = After-IsWired _ s _ (After-Seen pkt s _ x) w;
        }
  ]
  serves r (fail e) s d h w g = unmoved s w g
  serves r panic s d h w g = unmoved s w g
  serves r stuck s d h w g = unmoved s w g

module _ (checksum : Bytes → ℕ) (bounded : (bs : Bytes) → checksum bs < 65536) where
  -- What the gateway sends for a visit, and for several, and then the rest.
  abbrev pub visit_bytes : Visit → Bytes → Bytes
  visit_bytes (plain r) rest = message checksum bounded 0x05 r ++ rest
  visit_bytes (pairing r w a b c) rest =
      message checksum bounded 0x05 r
      ++ acks checksum bounded (replies_of w) (turns checksum bounded (a ∷ b ∷ c ∷ []) rest)

  abbrev pub visited : List Visit → Bytes → Bytes
  visited [] rest = rest
  visited (visit ∷ visits) rest = visit_bytes visit (visited visits rest)

module _ (checksum : Bytes → ℕ) (bounded : (bs : Bytes) → checksum bs < 65536)
    (marshal : Event → Option Bytes) where
  -- A round reads its message, and goes on with its packet.
  reads_message :
      (r : Reply) (mid rest : Bytes) (v : List ℕ) (n : Bytes) (s : Ccu)
      → Fits r
      → Ready (message checksum bounded 0x05 r ++ mid) app v n s.bcs.gateway
      → ((u : Uartgw)
          → Ready mid app v n u
          → Serves rest v n
              (with_gateway u s)
              (handle_decoded checksum marshal (decode r.payload) (with_gateway u s)))
      → Serves rest v n s (round checksum marshal none s)
  unfolding round tick handle_received same_cmd
  reads_message r mid rest v n s h g k =
      let x =
        reads checksum bounded 0x05 app_recv r mid app v n s.bcs.gateway (unfold command in refl) h
          g in
      let y = k x.later x.holds in
      let runs : round checksum marshal none s
          ≡ handle_decoded checksum marshal (decode r.payload) (with_gateway x.later s) =
        ap (λ o. continue o.0 (with_gateway o.1 s) (handle_received checksum marshal)) x.runs in
      subst (Serves rest v n s) (sym runs) (record {
        succeeds = y.succeeds;
        ready = y.ready;
        by_addr_is = y.by_addr_is;
        by_serial_is = y.by_serial_is;
        wired = y.wired;
      })

  answers_visit :
      (r : Reply) (w : Welcome) (a b c : Turn) (rest : Bytes) (v : List ℕ) (n : Bytes) (s : Ccu)
      (p : ℕ)
      → Asks r s p
      → All Fits (replies_of w)
      → All IsTurn (a ∷ b ∷ c ∷ [])
      → IsWired s.by_addr s.devices
      → Ready
          (acks checksum bounded (replies_of w) (turns checksum bounded (a ∷ b ∷ c ∷ []) rest))
          app
          v
          n
          s.bcs.gateway
      → Serves rest v n s (handle_decoded checksum marshal (decode r.payload) s)
  unfolding handle_decoded
  answers_visit r w a b c rest v n s p x hr ht wired g =
      let (d, e) = wired x.packet.source p x.configured.by_addr_is in
      let y =
        peering_acknowledged checksum bounded marshal x.packet p d w.first w.second w.third w.fourth
          w.fifth a b c rest v n s wired x.cmd_is x.configured e hr ht g in
      subst (λ o. Serves rest v n s (handle_decoded checksum marshal o s)) (sym x.decodes)
        (record {
          succeeds = y.succeeds;
          ready = y.ready;
          by_addr_is = y.by_addr_is;
          by_serial_is = y.by_serial_is;
          wired = y.still_wired wired;
        })

  one_visit :
      (visit : Visit) (rest : Bytes) (v : List ℕ) (n : Bytes) (s : Ccu)
      → IsServed s visit
      → IsWired s.by_addr s.devices
      → Ready (visit_bytes checksum bounded visit rest) app v n s.bcs.gateway
      → Serves rest v n s (round checksum marshal none s)
  one_visit (plain r) rest v n s (h, silent) w g = reads_message r rest rest v n s h g λ u gu.
      serves checksum marshal rest v n r (decode r.payload) (with_gateway u s) refl
        (λ p x. silent p (Asks-Alike r p (record { by_addr_is = refl; by_serial_is = refl }) x)) w
        gu
  one_visit (pairing r y a b c) rest v n s (h, (p, x), hr, ht) w g =
      reads_message r _ rest v n s h g λ u gu.
        answers_visit r y a b c rest v n (with_gateway u s) p
          (Asks-Alike r p (record { by_addr_is = refl; by_serial_is = refl }) x) hr ht w gu

  -- Whatever AppRecv messages the gateway sends, invalid packets, events, and peering requests of
  -- which those that are answered are followed by the acknowledgements of the answer, radio packets in
  -- between, main goes on through as many rounds of its loop: it reads all that was sent and no more,
  -- and its maps are the same and lead to devices.
  pub rounds_serve :
      (visits : List Visit) (rest : Bytes) (v : List ℕ) (n : Bytes) (s : Ccu)
      → All (IsServed s) visits
      → IsWired s.by_addr s.devices
      → Ready (visited checksum bounded visits rest) app v n s.bcs.gateway
      → Serves rest v n s (rounds checksum marshal (map (λ x. none) visits) s)
  unfolding rounds
  rounds_serve [] rest v n s h w g = unmoved checksum marshal rest v n s w g
  rounds_serve (x ∷ xs) rest v n s (h, hs) w g =
      let y = one_visit x (visited checksum bounded xs rest) v n s h w g in
      let t = (round checksum marshal none s).1 in
      let alike : Alike s t = record { by_addr_is = y.by_addr_is; by_serial_is = y.by_serial_is } in
      let z = rounds_serve xs rest v n t (IsServed-Alike xs alike hs) y.wired y.ready in
      let runs : rounds checksum marshal (none ∷ map (λ e. none) xs) s
          ≡ rounds checksum marshal (map (λ e. none) xs) t =
        ap (λ o. continue o t (λ e. rounds checksum marshal (map (λ i. none) xs))) y.succeeds in
      subst (Serves rest v n s) (sym runs) (record {
        succeeds = z.succeeds;
        ready = z.ready;
        by_addr_is = z.by_addr_is ∙ y.by_addr_is;
        by_serial_is = z.by_serial_is ∙ y.by_serial_is;
        wired = z.wired;
      })
