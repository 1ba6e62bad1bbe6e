-- ===== src/Ccu/Conversations.antt =====
-- The conversations with all devices, in the order of main.
use hmgo.Prelude.{ℕ, ◌<◌, refl, List}
use hmgo.Prelude.{Bytes}
use hmgo.Effect.{Outcome}
use hmgo.Fault.{Error}
use hmgo.Uartgw.Packet.{Addr, Uartgw}
use hmgo.Bidcos.{Sender}
use hmgo.Hm.Line.{Item}
use hmgo.Ccu.Devices.{standard, Ccu}
use hmgo.Ccu.House.{
  thermal_bad, thermal_wohnzimmer, thermal_schlafzimmer, thermal_lea, thermostat_bad,
  thermostat_wohnzimmer, thermostat_schlafzimmer, thermostat_lea, fresh,
}
use hmgo.Ccu.Startup.{
  room_callback, bad_callback, lea_callback, configure, peer_with, configure_all, peer_all,
}
use hmgo.Ccu.Kept.{Kept, Kept-trans, IsAt, Kept-IsAt}
use hmgo.Ccu.Conversing.{
  Goes, Goes-then, Configures, Peers, configuring, peering, On, configure-Goes, peer_with-Goes,
}

-- What the devices send when main configures them, in the months of the three calls that ask for one.
pub record Configurations (month_wohnzimmer month_bad month_schlafzimmer : ℕ) : Type 0 where
  pub wohnzimmer : Configures (0x39, 0x06, 0xeb) (room_callback month_wohnzimmer)
  pub bad : Configures (0x39, 0x0f, 0x17) (bad_callback month_bad)
  pub schlafzimmer : Configures (0x39, 0x06, 0xda) (room_callback month_schlafzimmer)
  pub lea : Configures (0x39, 0x0f, 0x27) lea_callback

-- What the devices send when main peers them.
pub record Peerings : Type 0 where
  pub wall_wohnzimmer : Peers (0x39, 0x06, 0xeb) (0x38, 0xf5, 0x9c)
  pub radiator_wohnzimmer : Peers (0x38, 0xf5, 0x9c) (0x39, 0x06, 0xeb)
  pub wall_bad : Peers (0x39, 0x0f, 0x17) (0x73, 0xf7, 0xee)
  pub radiator_bad : Peers (0x73, 0xf7, 0xee) (0x39, 0x0f, 0x17)
  pub wall_schlafzimmer : Peers (0x39, 0x06, 0xda) (0x38, 0xe8, 0xe3)
  pub radiator_schlafzimmer : Peers (0x38, 0xe8, 0xe3) (0x39, 0x06, 0xda)
  pub wall_lea : Peers (0x39, 0x0f, 0x27) (0x38, 0xe8, 0xef)
  pub radiator_lea : Peers (0x38, 0xe8, 0xef) (0x39, 0x0f, 0x27)

abbrev pub configuring_all : {a b c : ℕ} → Configurations a b c → List Item → List Item
configuring_all t items =
    configuring t.wohnzimmer
      (configuring t.bad (configuring t.schlafzimmer (configuring t.lea items)))

abbrev pub peering_all : Peerings → List Item → List Item
peering_all t items = peering t.wall_wohnzimmer (
    peering t.radiator_wohnzimmer (
      peering t.wall_bad (
        peering t.radiator_bad (
          peering t.wall_schlafzimmer (
            peering t.radiator_schlafzimmer (peering t.wall_lea (peering t.radiator_lea items)))))))

module _ (checksum : Bytes → ℕ) (bounded : (bs : Bytes) → checksum bs < 65536) (rest : Bytes)
    (v : List ℕ) (n : Bytes) (bcs : Sender Uartgw) where
  -- The devices are as declared, and the line carries the items.
  pub record Stands (items : List Item) (s : Ccu) : Type 0 where
    pub kept : Kept (fresh bcs) s
    pub carries : On checksum bounded rest v n items s

  configures :
      (p : ℕ) (cb : Bytes → Outcome Error Bytes) (addr : Addr) (c : Configures addr cb)
      (items : List Item) (s : Ccu)
      → IsAt (fresh bcs) p addr
      → Stands (configuring c items) s
      → Goes (configure checksum p cb) s (Stands items)
  configures p cb addr c items s i g =
      let x =
        configure-Goes checksum bounded rest v n p cb addr c items s (Kept-IsAt p addr g.kept i)
          g.carries in
      record {
        later = x.later;
        runs = x.runs;
        kept = x.kept;
        holds = record { kept = Kept-trans g.kept x.kept; carries = x.holds };
      }

  peers :
      (p : ℕ) (other addr : Addr) (c : Peers addr other) (items : List Item) (s : Ccu)
      → IsAt (fresh bcs) p addr
      → Stands (peering c items) s
      → Goes (peer_with checksum p other) s (Stands items)
  peers p other addr c items s i g =
      let x =
        peer_with-Goes checksum bounded rest v n p other addr c items s (Kept-IsAt p addr g.kept i)
          g.carries in
      record {
        later = x.later;
        runs = x.runs;
        kept = x.kept;
        holds = record { kept = Kept-trans g.kept x.kept; carries = x.holds };
      }

  pub configures_all :
      (a b c : ℕ) (t : Configurations a b c) (items : List Item) (s : Ccu)
      → Stands (configuring_all t items) s
      → Goes (configure_all checksum a b c) s (Stands items)
  unfolding configure_all standard
  configures_all a b c t items s g =
      Goes-then (configure checksum thermal_wohnzimmer (room_callback a)) _ s
        (configures thermal_wohnzimmer (room_callback a) _ t.wohnzimmer _ s (_, refl, refl) g)
        λ s0 k0 g0.
          Goes-then (configure checksum thermal_bad (bad_callback b)) _ s0
            (configures thermal_bad (bad_callback b) _ t.bad _ s0 (_, refl, refl) g0)
            λ s1 k1 g1.
              Goes-then (configure checksum thermal_schlafzimmer (room_callback c)) _ s1
                (configures thermal_schlafzimmer (room_callback c) _ t.schlafzimmer _ s1
                  (_, refl, refl) g1)
                λ s2 k2 g2. configures thermal_lea lea_callback _ t.lea _ s2 (_, refl, refl) g2

  pub peers_all :
      (t : Peerings) (items : List Item) (s : Ccu)
      → Stands (peering_all t items) s
      → Goes (peer_all checksum) s (Stands items)
  unfolding peer_all standard
  peers_all t items s g =
      Goes-then (peer_with checksum thermal_wohnzimmer (0x38, 0xf5, 0x9c)) _ s
        (peers thermal_wohnzimmer (0x38, 0xf5, 0x9c) _ t.wall_wohnzimmer _ s (_, refl, refl) g)
        λ s0 k0 g0.
          Goes-then (peer_with checksum thermostat_wohnzimmer (0x39, 0x06, 0xeb)) _ s0
            (peers thermostat_wohnzimmer (0x39, 0x06, 0xeb) _ t.radiator_wohnzimmer _ s0
              (_, refl, refl) g0)
            λ s1 k1 g1.
              Goes-then (peer_with checksum thermal_bad (0x73, 0xf7, 0xee)) _ s1
                (peers thermal_bad (0x73, 0xf7, 0xee) _ t.wall_bad _ s1 (_, refl, refl) g1)
                λ s2 k2 g2.
                  Goes-then (peer_with checksum thermostat_bad (0x39, 0x0f, 0x17)) _ s2
                    (peers thermostat_bad (0x39, 0x0f, 0x17) _ t.radiator_bad _ s2 (_, refl, refl)
                      g2)
                    λ s3 k3 g3.
                      Goes-then (peer_with checksum thermal_schlafzimmer (0x38, 0xe8, 0xe3)) _ s3
                        (peers thermal_schlafzimmer (0x38, 0xe8, 0xe3) _ t.wall_schlafzimmer _ s3
                          (_, refl, refl) g3)
                        λ s4 k4 g4.
                          Goes-then (peer_with checksum thermostat_schlafzimmer (0x39, 0x06, 0xda))
                            _ s4
                            (peers thermostat_schlafzimmer (0x39, 0x06, 0xda) _
                              t.radiator_schlafzimmer _ s4 (_, refl, refl) g4)
                            λ s5 k5 g5.
                              Goes-then (peer_with checksum thermal_lea (0x38, 0xe8, 0xef)) _ s5
                                (peers thermal_lea (0x38, 0xe8, 0xef) _ t.wall_lea _ s5
                                  (_, refl, refl) g5)
                                λ s6 k6 g6.
                                  peers thermostat_lea (0x39, 0x0f, 0x27) _ t.radiator_lea _ s6
                                    (_, refl, refl) g6
