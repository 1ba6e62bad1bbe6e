-- ===== src/Tests/Startup.antt =====
-- main on a gateway and devices that answer.
use hmgo.Prelude.{ℕ, zero, suc, ◌≤◌, ◌≡◌, refl, arith, List, [], ◌∷◌, ◌++◌, map}
use hmgo.Prelude.{none, equal, equal_iff, Bytes, codes, length, All, true}
use hmgo.Effect.{Outcome, ok, continue}
use hmgo.Fault.{Error}
use hmgo.Uart.{Port}
use hmgo.Uartgw.Command.{app}
use hmgo.Uartgw.Packet.{Addr, addr_bytes}
use hmgo.Uartgw.Session.Handshake.{Ready, Reply, Fits, message}
use hmgo.Uartgw.Session.Success.{transcript}
use hmgo.Uartgw.Traffic.Confirming.{received}
use hmgo.Bidcos.{Packet, decode}
use hmgo.Hm.{FullyQualifiedChannel}
use hmgo.Hm.Config.{zeros, param_response, pairs_response, store_pairs, store}
use hmgo.Hm.Configured.{Loads}
use hmgo.Hm.Configured
use hmgo.Hm.Peered.{Lists}
use hmgo.Hm.Peered
use hmgo.Hm.Peering.{peer_entries}
use hmgo.Hm.Replaced.{Accepts}
use hmgo.Hm.Line.{Item, acked, heard}
use hmgo.Hm.Line.Configuring.{heards, ackeds, updates}
use hmgo.Hm.Line.Peers.{adds, replaces}
use hmgo.Hm.Line.Serial.{Spells}
use hmgo.Ccu.Devices.{Ccu}
use hmgo.Ccu.House.{by_addr_map}
use hmgo.Ccu.Startup.{room_callback, bad_callback, lea_callback, start_up}
use hmgo.Ccu.Loop.{rounds}
use hmgo.Ccu.Shown.{Shows}
use hmgo.Ccu.Rounds
use hmgo.Ccu.Conversing.{Welcome, Configures, Peers, configuring, peering, welcomes, AreWelcome}
use hmgo.Ccu.Conversations.{Configurations, Peerings, configuring_all, peering_all}
use hmgo.Ccu.Started.{Started, start_up_succeeds, main_observes}
use hmgo.Tests.Crc.{crc, crc_bounded}
use hmgo.Tests.Wire.{noon}
use hmgo.Tests.Sessions.{answers, proper}
use hmgo.Tests.Central.{ack, marshal, messages, on_the_air}

-- A packet of the device to the central, with this command.
abbrev said : Addr → ℕ → Bytes → Packet
said addr cmd payload = record {
  status = 0;
  info = 0;
  rssi = 0;
  msgcnt = 1;
  flags = 0xa0;
  cmd = cmd;
  source = addr;
  dest = (0xfd, 0xb0, 0x2c);
  payload = payload;
}

abbrev says : Addr → ℕ → Bytes → Bytes
says (a, b, c) cmd payload = 0 ∷ 0 ∷ 0 ∷ 1 ∷ 0xa0 ∷ cmd ∷ a ∷ b ∷ c ∷ 0xfd ∷ 0xb0 ∷ 0x2c ∷ payload

decodes :
    (addr : Addr) (cmd : ℕ) (payload : Bytes)
    → decode (says addr cmd payload) ≡ ok (said addr cmd payload)
unfolding decode
decodes (a, b, c) cmd payload = refl

own : (addr : Addr) → equal (addr_bytes addr) (addr_bytes addr) ≡ true
own addr = (equal_iff (addr_bytes addr) (addr_bytes addr)).1 refl

-- One byte of the memory is set, and the list ends.
abbrev stored : Bytes
stored = 0 ∷ 7 ∷ zeros 254

abbrev reports : Addr → List Bytes
reports addr = says addr 0x10 (2 ∷ 1 ∷ 7 ∷ []) ∷ says addr 0x10 (2 ∷ 0 ∷ 0 ∷ []) ∷ []

pub loads : (addr : Addr) → Loads addr (zeros 256) (reports addr) stored
unfolding zeros param_response pairs_response store_pairs store
loads addr =
    Configured.part (decodes addr 0x10 (2 ∷ 1 ∷ 7 ∷ [])) (own addr) refl
      (Configured.last (decodes addr 0x10 (2 ∷ 0 ∷ 0 ∷ [])) (own addr) refl)

abbrev configures :
    (addr : Addr) (cb : Bytes → Outcome Error Bytes) (target : Bytes)
    → cb stored ≡ ok target
    → Configures addr cb
configures addr cb target e = record {
  mem = stored;
  target = target;
  reports = reports addr;
  loads = loads addr;
  target_is = e;
}

-- The device has no peer, and accepts the one it is given.
pub accepts : (addr : Addr) (cmd : ℕ) → Accepts cmd (says addr cmd (0 ∷ []))
accepts addr cmd = record {
  packet = said addr cmd (0 ∷ []);
  more = [];
  decodes = decodes addr cmd (0 ∷ []);
  cmd_is = refl;
  payload_is = refl;
}

pub no_peers : (addr : Addr) → Lists addr [] (says addr 0x10 (1 ∷ 0 ∷ 0 ∷ 0 ∷ 0 ∷ []) ∷ []) []
unfolding peer_entries
no_peers addr = Peered.last (decodes addr 0x10 (1 ∷ 0 ∷ 0 ∷ 0 ∷ 0 ∷ [])) (own addr) refl refl

abbrev peers : (addr other : Addr) → Peers addr other
peers addr other = record {
  peers = [];
  after = λ items. acked ∷ heard (says addr 2 (0 ∷ [])) ∷ items;
  reports = says addr 0x10 (1 ∷ 0 ∷ 0 ∷ 0 ∷ 0 ∷ []) ∷ [];
  lists = no_peers addr;
  settles = adds (accepts addr 2);
}

-- The wall thermostat of the bathroom has another peer, and a packet of a stranger comes first.
abbrev stale : FullyQualifiedChannel
stale = record { peer = (0x38, 0xe8, 0xe3); channel = 2 }

abbrev bad : Addr
bad = (0x39, 0x0f, 0x17)

abbrev stale_reports : List Bytes
stale_reports =
    says (1, 2, 3) 0x70 (1 ∷ [])
    ∷ says bad 0x10 (1 ∷ 0x38 ∷ 0xe8 ∷ 0xe3 ∷ 2 ∷ 0 ∷ 0 ∷ 0 ∷ 0 ∷ [])
    ∷ []

pub stale-Lists : Lists bad [] stale_reports (stale ∷ [])
unfolding peer_entries
stale-Lists = Peered.foreign (decodes (1, 2, 3) 0x70 (1 ∷ [])) refl (
    Peered.last (decodes bad 0x10 (1 ∷ 0x38 ∷ 0xe8 ∷ 0xe3 ∷ 2 ∷ 0 ∷ 0 ∷ 0 ∷ 0 ∷ [])) refl refl refl)

abbrev replaced : Peers bad (0x73, 0xf7, 0xee)
replaced = record {
  peers = stale ∷ [];
  after =
      λ items. acked ∷ heard (says bad 0x10 (0 ∷ [])) ∷ acked ∷ heard (says bad 2 (0 ∷ [])) ∷ items;
  reports = stale_reports;
  lists = stale-Lists;
  settles = replaces refl (accepts bad 0x10) (accepts bad 2);
}

abbrev pub configurations : Configurations 1 7 12
unfolding room_callback bad_callback lea_callback
configurations = record {
  wohnzimmer = configures (0x39, 0x06, 0xeb) (room_callback 1) _ refl;
  bad = configures bad (bad_callback 7) _ refl;
  schlafzimmer = configures (0x39, 0x06, 0xda) (room_callback 12) _ refl;
  lea = configures (0x39, 0x0f, 0x27) lea_callback _ refl;
}

abbrev pub peerings : Peerings
peerings = record {
  wall_wohnzimmer = peers (0x39, 0x06, 0xeb) (0x38, 0xf5, 0x9c);
  radiator_wohnzimmer = peers (0x38, 0xf5, 0x9c) (0x39, 0x06, 0xeb);
  wall_bad = replaced;
  radiator_bad = peers (0x73, 0xf7, 0xee) bad;
  wall_schlafzimmer = peers (0x39, 0x06, 0xda) (0x38, 0xe8, 0xe3);
  radiator_schlafzimmer = peers (0x38, 0xe8, 0xe3) (0x39, 0x06, 0xda);
  wall_lea = peers (0x39, 0x0f, 0x27) (0x38, 0xe8, 0xef);
  radiator_lea = peers (0x38, 0xe8, 0xef) (0x39, 0x0f, 0x27);
}

abbrev stranger : Reply
stranger = record { dst = 1; cnt = 9; payload = 1 ∷ 2 ∷ [] }

-- The bytes of items, with a radio packet of a stranger before each acknowledgement.
abbrev spelled : List Item → Bytes → Bytes
spelled [] rest = rest
spelled (acked ∷ items) rest =
    received crc crc_bounded (stranger ∷ [])
      (message crc crc_bounded 0x04 (ack 3) ++ spelled items rest)
spelled (heard bs ∷ items) rest =
    message crc crc_bounded 0x05 (record { dst = 1; cnt = 9; payload = bs }) ++ spelled items rest

abbrev IsShort : Item → Type 0
IsShort acked = Unit {0}
IsShort (heard bs) = length bs ≤ 29

pub spelled-Spells :
    (rest : Bytes) (items : List Item)
    → All IsShort items
    → Spells crc crc_bounded rest items (spelled items rest)
spelled-Spells rest [] h = refl
spelled-Spells rest (acked ∷ items) (h, hs) = (
  record { noise = stranger ∷ []; ack = ack 3 },
  spelled items rest,
  ((omega arith, tt), omega arith),
  refl,
  spelled-Spells rest items hs,
)
spelled-Spells rest (heard bs ∷ items) (h, hs) =
    (1, 9, spelled items rest, h, refl, spelled-Spells rest items hs)

ackeds-All : (n : ℕ) (items : List Item) → All IsShort items → All IsShort (ackeds n items)
ackeds-All zero items h = h
ackeds-All (suc n) items h = (tt, ackeds-All n items h)

updates-All :
    (pairs : Bytes) (items : List Item) → All IsShort items → All IsShort (updates pairs items)
updates-All [] items h = h
updates-All (x ∷ pairs) items h = (tt, ackeds-All _ (acked ∷ items) (tt, h))

heards-All :
    (bss : List Bytes) (items : List Item)
    → All (λ bs. length bs ≤ 29) bss
    → All IsShort items
    → All IsShort (heards bss items)
heards-All [] items h k = k
heards-All (bs ∷ bss) items (h, hs) k = (h, heards-All bss items hs k)

configuring-All :
    {addr : Addr} {cb : Bytes → Outcome Error Bytes} (c : Configures addr cb) (items : List Item)
    → All (λ bs. length bs ≤ 29) c.reports
    → All IsShort items
    → All IsShort (configuring c items)
configuring-All c items h k = (tt, heards-All c.reports _ h (updates-All _ items k))

peering-All :
    (addr other : Addr) (items : List Item)
    → All IsShort items
    → All IsShort (peering (peers addr other) items)
peering-All addr other items h = (tt, (omega arith, (tt, (omega arith, h))))

replaced-All : (items : List Item) → All IsShort items → All IsShort (peering replaced items)
replaced-All items h =
    (tt, (omega arith, (omega arith, (tt, (omega arith, (tt, (omega arith, h)))))))

abbrev pub script : List Item
script = configuring_all configurations (peering_all peerings [])

abbrev Short : Type 0
Short = (items : List Item) × All IsShort items

abbrev before : Addr → Addr → Short → Short
before addr other x = (peering (peers addr other) x.0, peering-All addr other x.0 x.1)

abbrev replacing : Short → Short
replacing x = (peering replaced x.0, replaced-All x.0 x.1)

abbrev peering_script : Short
peering_script =
    before (0x39, 0x06, 0xeb) (0x38, 0xf5, 0x9c)
      (before (0x38, 0xf5, 0x9c) (0x39, 0x06, 0xeb)
        (replacing (
          before (0x73, 0xf7, 0xee) bad
            (before (0x39, 0x06, 0xda) (0x38, 0xe8, 0xe3)
              (before (0x38, 0xe8, 0xe3) (0x39, 0x06, 0xda)
                (before (0x39, 0x0f, 0x27) (0x38, 0xe8, 0xef)
                  (before (0x38, 0xe8, 0xef) (0x39, 0x0f, 0x27) ([], tt))))))))

pub script-All : All IsShort script
unfolding configurations
script-All =
    let c = configurations in
    configuring-All c.wohnzimmer _ (omega arith, (omega arith, tt))
      (configuring-All c.bad _ (omega arith, (omega arith, tt))
        (configuring-All c.schlafzimmer _ (omega arith, (omega arith, tt))
          (configuring-All c.lea (peering_all peerings []) (omega arith, (omega arith, tt))
            peering_script.1)))

abbrev welcome : Welcome
welcome = record { first = ack 0; second = ack 1; third = ack 2; fourth = ack 3; fifth = ack 4 }

abbrev pub nine : List Welcome
nine = welcome ∷ welcome ∷ welcome ∷ welcome ∷ welcome ∷ welcome ∷ welcome ∷ welcome ∷ welcome ∷ []

welcome-Fits : All Fits (ack 0 ∷ ack 1 ∷ ack 2 ∷ ack 3 ∷ ack 4 ∷ [])
welcome-Fits = (omega arith, (omega arith, (omega arith, (omega arith, (omega arith, tt)))))

pub nine-AreWelcome : AreWelcome 9 by_addr_map nine
nine-AreWelcome =
    let f = welcome-Fits in
    (
      omega arith,
      f,
      (
        omega arith,
        f,
        (
          omega arith,
          f,
          (
            omega arith,
            f,
            (
              omega arith,
              f,
              (omega arith, f, (omega arith, f, (omega arith, f, (omega arith, f, tt)))),
            ),
          ),
        ),
      ),
    )

abbrev pub script_bytes : Bytes → Bytes
script_bytes rest = spelled script rest

abbrev pub plugged : Bytes → Port
plugged rest = record {
  pending = transcript crc crc_bounded answers (welcomes crc crc_bounded nine (script_bytes rest));
  chunks = 1 ∷ 3 ∷ 2 ∷ 1 ∷ [];
  sent = [];
  faults = [];
}

start_up_succeeds_example :
    Started crc crc_bounded
      (7 ∷ [])
      (1 ∷ 2 ∷ 1 ∷ [])
      (codes "NEQ1330980")
      (start_up crc noon by_addr_map 1 7 12 (plugged (7 ∷ [])))
start_up_succeeds_example =
    start_up_succeeds crc crc_bounded noon by_addr_map 1 7 12 (plugged (7 ∷ [])) answers 1 2 1
      (codes "NEQ1330980") nine configurations peerings (script_bytes (7 ∷ [])) (7 ∷ []) refl proper
      nine-AreWelcome refl (spelled-Spells (7 ∷ []) script script-All)

main_observes_example :
    (later : Ccu) × (continue
        (start_up crc noon by_addr_map 1 7 12 (plugged on_the_air)).0
        (start_up crc noon by_addr_map 1 7 12 (plugged on_the_air)).1
        (λ _. rounds crc marshal (map (λ r. none) messages))
      ≡ (ok tt, later))
    × Ready [] app (1 ∷ 2 ∷ 1 ∷ []) (codes "NEQ1330980") later.bcs.gateway
    × Shows
        (Rounds.heard messages)
        (start_up crc noon by_addr_map 1 7 12 (plugged on_the_air)).1
        later
unfolding decode
main_observes_example =
    main_observes crc crc_bounded marshal noon by_addr_map 1 7 12 (plugged on_the_air) answers 1 2 1
      (codes "NEQ1330980") nine configurations peerings (script_bytes on_the_air) messages [] refl
      proper nine-AreWelcome refl (spelled-Spells on_the_air script script-All)
      (omega arith, (omega arith, (omega arith, tt))) (refl, (refl, tt))
