-- ===== src/Ccu/Rounds.antt =====
-- Rounds of the main loop, from the bytes on the line to what the devices show.
use hmgo.Prelude.{ℕ, ◌<◌, ◌≡◌, refl, sym, ap, List, [], ◌∷◌, ◌++◌, map, false}
use hmgo.Prelude.{Option, none, Bytes, All, All-split, ◌==◌, subst}
use hmgo.Effect.{Outcome, ok, fail, panic, stuck, continue}
use hmgo.Fault.{Error}
use hmgo.Uartgw.Command.{app_recv, same_cmd, command, app}
use hmgo.Uartgw.Packet.{Uartgw}
use hmgo.Uartgw.Session.Handshake.{Ready, Reply, Fits, message, reads}
use hmgo.Uartgw.Traffic.Confirming.{received}
use hmgo.Bidcos.{Packet, decode, device_info}
use hmgo.Ccu.Devices.{Event, Ccu}
use hmgo.Ccu.Loop.{tick, handle_decoded, handle_received, round, rounds}
use hmgo.Ccu.Observed.{
  IsWired, handle_packet-Seen, After, After-nil, After-Seen, After-append, After-IsWired,
}

-- The radio packets in a list of messages; invalid ones are skipped.
abbrev pub valid : Outcome Error Packet → List Packet
valid (ok pkt) = pkt ∷ []
valid _ = []

abbrev pub heard : List Reply → List Packet
heard [] = []
heard (r ∷ rs) = valid (decode r.payload) ++ heard rs

abbrev pub IsEvent : Packet → Type 0
IsEvent pkt = (pkt.cmd == device_info) ≡ false

-- The central with another gateway.
abbrev pub with_gateway : Uartgw → Ccu → Ccu
with_gateway u s = record s { bcs = record s.bcs { gateway = u } }

module _ (checksum : Bytes → ℕ) (marshal : Event → Option Bytes) where
  -- The messages of a list are handled one by one.
  record Handles (pkts : List Packet) (s : Ccu) (o : Outcome Error (Unit {0}) × Ccu) : Type 0 where
    succeeds : o.0 ≡ ok tt
    bcs_is : o.1.bcs ≡ s.bcs
    after : After pkts s o.1

  handles :
      (d : Outcome Error Packet) (s : Ccu)
      → IsWired s.by_addr s.devices
      → All IsEvent (valid d)
      → Handles (valid d) s (handle_decoded checksum marshal d s)
  unfolding handle_decoded
  handles (ok pkt) s w (c, _) =
      let h = handle_packet-Seen checksum marshal pkt s w c in
      record { succeeds = h.succeeds; bcs_is = h.bcs_is; after = After-Seen pkt s _ h }
  handles (fail e) s w c = record { succeeds = refl; bcs_is = refl; after = After-nil s }
  handles panic s w c = record { succeeds = refl; bcs_is = refl; after = After-nil s }
  handles stuck s w c = record { succeeds = refl; bcs_is = refl; after = After-nil s }

module _ (checksum : Bytes → ℕ) (bounded : (bs : Bytes) → checksum bs < 65536)
    (marshal : Event → Option Bytes) where
  -- The central after rounds that read the messages in front of `rest`.
  record Reads (rest : Bytes) (v : List ℕ) (n : Bytes) (pkts : List Packet) (s : Ccu)
      (o : Outcome Error (Unit {0}) × Ccu) : Type 0 where
    succeeds : o.0 ≡ ok tt
    ready : Ready rest app v n o.1.bcs.gateway
    after : After pkts s o.1

  one_round :
      (r : Reply) (rest : Bytes) (v : List ℕ) (n : Bytes) (s : Ccu)
      → Fits r
      → IsWired s.by_addr s.devices
      → All IsEvent (valid (decode r.payload))
      → Ready (message checksum bounded 0x05 r ++ rest) app v n s.bcs.gateway
      → Reads rest v n (valid (decode r.payload)) s (round checksum marshal none s)
  unfolding round tick handle_received same_cmd
  one_round r rest v n s h w c g =
      let x =
        reads checksum bounded 0x05 app_recv r rest app v n s.bcs.gateway (unfold command in refl) h
          g in
      let t = with_gateway x.later s in
      let y = handles checksum marshal (decode r.payload) t w c in
      let runs : round checksum marshal none s
          ≡ handle_decoded checksum marshal (decode r.payload) t =
        ap (λ o. continue o.0 (with_gateway o.1 s) (handle_received checksum marshal)) x.runs in
      subst (Reads rest v n (valid (decode r.payload)) s) (sym runs) (record {
        succeeds = y.succeeds;
        ready = subst (λ b. Ready rest app v n b.gateway) (sym y.bcs_is) x.holds;
        after = record {
          by_addr_is = y.after.by_addr_is;
          by_serial_is = y.after.by_serial_is;
          at = y.after.at;
        };
      })

  many_rounds :
      (rs : List Reply) (rest : Bytes) (v : List ℕ) (n : Bytes) (s : Ccu)
      → All Fits rs
      → IsWired s.by_addr s.devices
      → All IsEvent (heard rs)
      → Ready (received checksum bounded rs rest) app v n s.bcs.gateway
      → Reads rest v n (heard rs) s (rounds checksum marshal (map (λ r. none) rs) s)
  unfolding rounds
  many_rounds [] rest v n s h w c g = record { succeeds = refl; ready = g; after = After-nil s }
  many_rounds (r ∷ rs) rest v n s (h, hs) w c g =
      let (here, there) = All-split IsEvent (valid (decode r.payload)) (heard rs) c in
      let x = one_round r (received checksum bounded rs rest) v n s h w here g in
      let t = (round checksum marshal none s).1 in
      let y = many_rounds rs rest v n t hs (After-IsWired _ s t x.after w) there x.ready in
      let runs : rounds checksum marshal (none ∷ map (λ r. none) rs) s
          ≡ rounds checksum marshal (map (λ r. none) rs) t =
        ap (λ o. continue o t (λ _. rounds checksum marshal (map (λ r. none) rs))) x.succeeds in
      subst (Reads rest v n (heard (r ∷ rs)) s) (sym runs) (record {
        succeeds = y.succeeds;
        ready = y.ready;
        after = After-append (valid (decode r.payload)) (heard rs) s t _ x.after y.after;
      })

  -- If the device sends AppRecv messages none of which carries a peering request, as many rounds of
  -- the main loop read them all and no more, and the program goes on. The maps are the same, and
  -- each device shows what the decoders make of the packets from its address, in their order.
  pub rounds_observe :
      (rs : List Reply) (rest : Bytes) (v : List ℕ) (n : Bytes) (s : Ccu)
      → All Fits rs
      → IsWired s.by_addr s.devices
      → All IsEvent (heard rs)
      → Ready (received checksum bounded rs rest) app v n s.bcs.gateway
      → (later : Ccu) × (rounds checksum marshal (map (λ r. none) rs) s ≡ (ok tt, later))
        × Ready rest app v n later.bcs.gateway
        × After (heard rs) s later
  rounds_observe rs rest v n s h w c g =
      let x = many_rounds rs rest v n s h w c g in
      let o = rounds checksum marshal (map (λ r. none) rs) s in
      (o.1, ap (λ z. (z, o.1)) x.succeeds, x.ready, x.after)
