-- ===== src/Ccu/Started.antt =====
-- main up to its loop: against a gateway and devices that answer, it succeeds.
use hmgo.Prelude.{ℕ, ◌<◌, ◌≡◌, refl, sym, ap, ◌∙◌, List, [], ◌∷◌}
use hmgo.Prelude.{Bytes, All, map, none, Option, subst}
use hmgo.Effect.{Outcome, ok, ◌>>◌}
use hmgo.Fault.{Error}
use hmgo.Uart.{Port}
use hmgo.Uartgw.Command.{app}
use hmgo.Uartgw.Packet.{Addr, Uartgw}
use hmgo.Uartgw.Session.{Time}
use hmgo.Uartgw.Session.Handshake.{Ready, Reply, Fits}
use hmgo.Uartgw.Session.Success.{Answers, IsProper, transcript, init_succeeds}
use hmgo.Uartgw.Traffic.Confirming.{received}
use hmgo.Bidcos.{Sender}
use hmgo.Hm.Line.Serial.{Spells}
use hmgo.Ccu.Devices.{Event, Ccu}
use hmgo.Ccu.House.{home, fresh}
use hmgo.Ccu.Startup.{add_peers, configure_all, peer_all, unopened, start_up}
use hmgo.Ccu.Loop.{rounds}
use hmgo.Ccu.Shown.{Shows, After-Shows}
use hmgo.Ccu.Rounds.{heard, IsEvent, rounds_observe}
use hmgo.Ccu.Wired.{by_addr_map-IsWired}
use hmgo.Ccu.Kept.{Kept, Kept-IsWired}
use hmgo.Effect.{continue}
use hmgo.Ccu.Serving.{Visit, IsServed, Serves, visited, IsServed-Alike, rounds_serve}
use hmgo.Ccu.Conversations.{
  Configurations, Peerings, configuring_all, peering_all, Stands, configures_all, peers_all,
}
use hmgo.Ccu.Conversing.{Goes, Goes-then, Welcome, welcomes, AreWelcome, add_peers-Goes}

-- The sender that main makes for a gateway.
abbrev sender : Uartgw → Sender Uartgw
sender gw = record { gateway = gw; addr = home; counter = 0 }

module _ (checksum : Bytes → ℕ) (bounded : (bs : Bytes) → checksum bs < 65536) where
  -- main up to its loop has succeeded: the gateway is ready for `rest` with this version and serial
  -- number, and the maps and devices are as declared, apart from the counters.
  pub record Started (rest : Bytes) (v : List ℕ) (n : Bytes) (o : Outcome Error (Unit {0}) × Ccu)
      : Type 0 where
    pub succeeds : o.0 ≡ ok tt
    pub ready : Ready rest app v n o.1.bcs.gateway
    pub opened : Uartgw
    pub kept : Kept (fresh (sender opened)) o.1

  after_init :
      (order : List (Addr × ℕ)) (a b c : ℕ) (ws : List Welcome) (t : Configurations a b c)
      (w : Peerings) (bytes rest : Bytes) (v : List ℕ) (n : Bytes) (gw : Uartgw)
      → AreWelcome 9 order ws
      → Spells checksum bounded rest (configuring_all t (peering_all w [])) bytes
      → Ready (welcomes checksum bounded ws bytes) app v n gw
      → Goes
          (add_peers checksum order >> (configure_all checksum a b c >> peer_all checksum))
          (fresh (sender gw))
          (Stands checksum bounded rest v n (sender gw) [])
  after_init order a b c ws t w bytes rest v n gw h sp g =
      let s = fresh (sender gw) in
      Goes-then (add_peers checksum order) _ s
        (add_peers-Goes checksum bounded order ws bytes v n s h g)
        λ s1 k1 g1.
          Goes-then (configure_all checksum a b c) (peer_all checksum) s1
            (configures_all checksum bounded rest v n (sender gw) a b c t _ s1
              (record { kept = k1; carries = record { bytes = bytes; spells = sp; ready = g1 } }))
            λ s2 k2 g2. peers_all checksum bounded rest v n (sender gw) w [] s2 g2

  -- If no write fails, and the port gives, in messages that fit a frame, the nine of the
  -- initialisation with the payloads that `init` looks for, then for each
  -- entry of the map, whose places are those of devices, the acknowledgements of its five AddPeer
  -- messages, nothing in between, and then what the conversations with the devices take, main
  -- succeeds up to its loop, in whatever order the map is iterated and whatever the devices had
  -- stored. In the conversations the gateway acknowledges each packet that main sends, after any
  -- number of AppRecv messages; each device sends the configuration, and a list of at most one peer,
  -- that it is asked for, in packets of at most 29 bytes with those of other devices in between; and
  -- where its peer is replaced or added, its acceptance follows directly on the acknowledgement of
  -- the gateway. Main reads all of that and no more; the maps are the declared ones, nothing has been
  -- published, and each device has its name, its address and no event.
  pub start_up_succeeds :
      (now : Time) (order : List (Addr × ℕ)) (a b c : ℕ) (port : Port) (m : Answers) (x y z : ℕ)
      (serial : Bytes) (ws : List Welcome) (t : Configurations a b c) (w : Peerings)
      (bytes rest : Bytes)
      → port.faults ≡ []
      → IsProper m x y z serial
      → AreWelcome 9 order ws
      → port.pending ≡ transcript checksum bounded m (welcomes checksum bounded ws bytes)
      → Spells checksum bounded rest (configuring_all t (peering_all w [])) bytes
      → Started rest (x ∷ y ∷ z ∷ []) serial (start_up checksum now order a b c port)
  unfolding start_up
  start_up_succeeds now order a b c port m x y z serial ws t w bytes rest f p h e sp =
      let i =
        init_succeeds checksum bounded now m x y z serial _ [] [] (unopened checksum port) p
          (record {
            no_faults = f;
            pending_is = e;
            state_is = refl;
            version_is = refl;
            serial_is = refl;
          }) in
      let g = after_init order a b c ws t w bytes rest _ _ i.later h sp i.holds in
      let runs : start_up checksum now order a b c port ≡ (ok tt, g.later) =
        ap
          (λ o.
            ((λ r. (o.0, r))
                >> (add_peers checksum order
                    >> (configure_all checksum a b c >> peer_all checksum)))
              (fresh (sender o.1)))
          i.runs
        ∙ g.runs in
      subst (Started rest (x ∷ y ∷ z ∷ []) serial) (sym runs) (record {
        succeeds = refl;
        ready =
            subst (λ k. Ready k app (x ∷ y ∷ z ∷ []) serial g.later.bcs.gateway)
              g.holds.carries.spells g.holds.carries.ready;
        opened = i.later;
        kept = g.holds.kept;
      })

  -- Under the conditions of `start_up_succeeds`, if the device then sends AppRecv messages none of
  -- which carries a peering request, and no tick of the clock is handled meanwhile, main goes on
  -- through as many rounds of its loop: it reads all that was sent and no more. In the end the maps
  -- are the declared ones, and each of the nine devices shows what the decoders for its type make of
  -- the packets from its own address with the numbers of its events, in their order, on top of what
  -- it was before the loop.
  pub main_observes :
      (marshal : Event → Option Bytes) (now : Time) (order : List (Addr × ℕ)) (a b c : ℕ)
      (port : Port) (m : Answers) (x y z : ℕ) (serial : Bytes) (ws : List Welcome)
      (t : Configurations a b c) (w : Peerings) (bytes : Bytes) (rs : List Reply) (rest : Bytes)
      → port.faults ≡ []
      → IsProper m x y z serial
      → AreWelcome 9 order ws
      → port.pending ≡ transcript checksum bounded m (welcomes checksum bounded ws bytes)
      → Spells checksum bounded
          (received checksum bounded rs rest)
          (configuring_all t (peering_all w []))
          bytes
      → All Fits rs
      → All IsEvent (heard rs)
      → (later : Ccu) × (continue
            (start_up checksum now order a b c port).0
            (start_up checksum now order a b c port).1
            (λ _. rounds checksum marshal (map (λ r. none) rs))
          ≡ (ok tt, later))
        × Ready rest app (x ∷ y ∷ z ∷ []) serial later.bcs.gateway
        × Shows (heard rs) (start_up checksum now order a b c port).1 later
  main_observes marshal now order a b c port m x y z serial ws t w bytes rs rest f p h e sp fits
        events =
      let o = start_up checksum now order a b c port in
      let x1 = start_up_succeeds now order a b c port m x y z serial ws t w bytes _ f p h e sp in
      let wired = Kept-IsWired x1.kept (by_addr_map-IsWired (sender x1.opened)) in
      let (later, runs, ready, after) =
        rounds_observe checksum bounded marshal rs rest _ serial o.1 fits wired events x1.ready in
      (
        later,
        ap (λ r. continue r o.1 (λ _. rounds checksum marshal (map (λ r. none) rs))) x1.succeeds
            ∙ runs,
        ready,
        After-Shows (heard rs) (sender x1.opened) o.1 later x1.kept after,
      )

  -- Under the conditions of `start_up_succeeds`, if the gateway then sends AppRecv messages, with
  -- invalid packets, events, and peering requests, and no tick of the clock is handled meanwhile,
  -- main goes on through as many rounds of its loop. A request that is answered is followed by the
  -- five acknowledgements of AddPeer, nothing in between, and by those of the three packets of Pair,
  -- each after any number of AppRecv messages. Main reads all that was sent and no more, and its maps
  -- are the same and lead to devices.
  pub main_continues :
      (marshal : Event → Option Bytes) (now : Time) (order : List (Addr × ℕ)) (a b c : ℕ)
      (port : Port) (m : Answers) (x y z : ℕ) (serial : Bytes) (ws : List Welcome)
      (t : Configurations a b c) (w : Peerings) (bytes : Bytes) (visits : List Visit) (rest : Bytes)
      → port.faults ≡ []
      → IsProper m x y z serial
      → AreWelcome 9 order ws
      → port.pending ≡ transcript checksum bounded m (welcomes checksum bounded ws bytes)
      → Spells checksum bounded
          (visited checksum bounded visits rest)
          (configuring_all t (peering_all w []))
          bytes
      → All (IsServed (fresh (sender (unopened checksum port)))) visits
      → Serves rest (x ∷ y ∷ z ∷ []) serial (start_up checksum now order a b c port).1 (
          continue
            (start_up checksum now order a b c port).0
            (start_up checksum now order a b c port).1
            (λ _. rounds checksum marshal (map (λ x. none) visits)))
  main_continues marshal now order a b c port m x y z serial ws t w bytes visits rest f p h e sp
        served =
      let o = start_up checksum now order a b c port in
      let x1 = start_up_succeeds now order a b c port m x y z serial ws t w bytes _ f p h e sp in
      let wired = Kept-IsWired x1.kept (by_addr_map-IsWired (sender x1.opened)) in
      let alike =
        IsServed-Alike visits
          (record { by_addr_is = x1.kept.by_addr_is; by_serial_is = x1.kept.by_serial_is })
          served in
      subst
        (λ r.
          Serves rest (x ∷ y ∷ z ∷ []) serial o.1
            (continue r o.1 (λ _. rounds checksum marshal (map (λ x. none) visits))))
        (sym x1.succeeds)
        (rounds_serve checksum bounded marshal visits rest (x ∷ y ∷ z ∷ []) serial o.1 alike wired
          x1.ready)
