-- ===== src/Tests/Peers.antt =====
-- The peering theorems on a wall thermostat and a radiator thermostat.
use hmgo.Prelude.{ℕ, refl, arith, List, [], ◌∷◌, ◌++◌, Bytes}
use hmgo.Bidcos.{Packet, decode}
use hmgo.Hm.{StandardDevice, FullyQualifiedChannel}
use hmgo.Hm.Link.{Link, link}
use hmgo.Hm.Peering.{peer_entries, ensure_peered_with}
use hmgo.Hm.Peered.{Lists, foreign, last}
use hmgo.Effect.{fail}
use hmgo.Fault.{unexpected_ack_status}
use hmgo.Hm.Refused.{Rejects, not_replaced, ensure_peered_refused}
use hmgo.Hm.Replaced.{Ends}
use hmgo.Hm.Replaced.{
  Talks, Accepts, list_request, add_request, remove_request, ensure_peered_replaces,
  ensure_peered_already,
}

abbrev heard : ℕ → Bytes → Bytes
heard cmd payload = 0 ∷ 0 ∷ 0 ∷ 1 ∷ 0xa0 ∷ cmd ∷ 0x39 ∷ 0x06 ∷ 0xeb ∷ 0xfd ∷ 0xb0 ∷ 0x2c ∷ payload

abbrev heard_packet : ℕ → Bytes → Packet
heard_packet cmd payload = record {
  status = 0;
  info = 0;
  rssi = 0;
  msgcnt = 1;
  flags = 0xa0;
  cmd = cmd;
  source = (0x39, 0x06, 0xeb);
  dest = (0xfd, 0xb0, 0x2c);
  payload = payload;
}

abbrev stray : Bytes
stray = 0 ∷ 0 ∷ 0 ∷ 1 ∷ 0xa0 ∷ 0x70 ∷ 0x39 ∷ 0x0f ∷ 0x17 ∷ 0xfd ∷ 0xb0 ∷ 0x2c ∷ 1 ∷ []

accepts : (cmd : ℕ) → Accepts cmd (heard cmd (0 ∷ 9 ∷ []))
unfolding decode
accepts cmd = record {
  packet = heard_packet cmd (0 ∷ 9 ∷ []);
  more = 9 ∷ [];
  decodes = refl;
  cmd_is = refl;
  payload_is = refl;
}

abbrev at_wall : List Bytes → StandardDevice Link
at_wall bss = record {
  bcs = record {
    gateway = record { inbox = bss; outbox = [] };
    addr = (0xfd, 0xb0, 0x2c);
    counter = 18;
  };
  addr = (0x39, 0x06, 0xeb);
  msgcnt = 0;
}

abbrev wanted : FullyQualifiedChannel
wanted = record { peer = (0x38, 0xf5, 0x9c); channel = 2 }

abbrev stale : FullyQualifiedChannel
stale = record { peer = (0x38, 0xe8, 0xe3); channel = 2 }

abbrev other_channel : FullyQualifiedChannel
other_channel = record { peer = (0x38, 0xf5, 0x9c); channel = 4 }

abbrev no_peers : List Bytes
no_peers = stray ∷ heard 0x10 (1 ∷ 0 ∷ 0 ∷ 0 ∷ 0 ∷ []) ∷ []

no_peers-Lists : Lists (0x39, 0x06, 0xeb) [] no_peers []
unfolding decode peer_entries
no_peers-Lists = foreign refl refl (last refl refl refl refl)

abbrev one_peer : ℕ → ℕ → ℕ → ℕ → List Bytes
one_peer a b c ch = heard 0x10 (1 ∷ a ∷ b ∷ c ∷ ch ∷ 0 ∷ 0 ∷ 0 ∷ 0 ∷ []) ∷ []

stale-Lists : Lists (0x39, 0x06, 0xeb) [] (one_peer 0x38 0xe8 0xe3 2) (stale ∷ [])
unfolding decode peer_entries
stale-Lists = last refl refl refl refl

other_channel-Lists : Lists (0x39, 0x06, 0xeb) [] (one_peer 0x38 0xf5 0x9c 4) (other_channel ∷ [])
unfolding decode peer_entries
other_channel-Lists = last refl refl refl refl

ensure_peered_replaces_example :
    Talks
      (ensure_peered_with link 5 2 wanted)
      (at_wall
        (one_peer 0x38 0xe8 0xe3 2 ++ heard 0x10 (0 ∷ 9 ∷ []) ∷ heard 2 (0 ∷ 9 ∷ []) ∷ stray ∷ []))
      (stray ∷ [])
      (list_request 2 ∷ remove_request 2 stale ∷ add_request 2 wanted ∷ [])
ensure_peered_replaces_example =
    ensure_peered_replaces 5 2 wanted stale (heard 0x10 (0 ∷ 9 ∷ [])) (heard 2 (0 ∷ 9 ∷ []))
      (stray ∷ [])
      (at_wall
        (one_peer 0x38 0xe8 0xe3 2 ++ heard 0x10 (0 ∷ 9 ∷ []) ∷ heard 2 (0 ∷ 9 ∷ []) ∷ stray ∷ []))
      stale-Lists (omega arith) refl refl (accepts 0x10) (accepts 2)

ensure_peered_already_example :
    Talks
      (ensure_peered_with link 1 2 wanted)
      (at_wall (one_peer 0x38 0xf5 0x9c 4 ++ stray ∷ []))
      (stray ∷ [])
      (list_request 2 ∷ [])
ensure_peered_already_example =
    ensure_peered_already 1 2 wanted other_channel (stray ∷ [])
      (at_wall (one_peer 0x38 0xf5 0x9c 4 ++ stray ∷ [])) other_channel-Lists (omega arith) refl
      refl

-- The wall thermostat gives up its peer, and answers the new one with the status 1.
nack : Rejects 2 (heard 2 (1 ∷ [])) (unexpected_ack_status 1)
unfolding decode
nack = record { packet = heard_packet 2 (1 ∷ []); decodes = refl; wrong_is = refl }

ensure_peered_refused_example :
    Ends
      (ensure_peered_with link 5 2 wanted)
      (at_wall (
        one_peer 0x38 0xe8 0xe3 2
        ++ (heard 0x10 (0 ∷ 9 ∷ []) ∷ heard 2 (1 ∷ []) ∷ [])
        ++ stray ∷ []))
      (fail (unexpected_ack_status 1))
      (stray ∷ [])
      (list_request 2 ∷ remove_request 2 stale ∷ add_request 2 wanted ∷ [])
ensure_peered_refused_example =
    ensure_peered_refused (unexpected_ack_status 1) 5 2 wanted (stray ∷ [])
      (at_wall (
        one_peer 0x38 0xe8 0xe3 2
        ++ (heard 0x10 (0 ∷ 9 ∷ []) ∷ heard 2 (1 ∷ []) ∷ [])
        ++ stray ∷ []))
      stale-Lists (omega arith) (not_replaced refl (accepts 0x10) nack) refl
