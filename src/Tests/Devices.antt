-- ===== src/Tests/Devices.antt =====
-- The configuration theorems on a wall thermostat.
use hmgo.Prelude.{◌≡◌, refl, arith, List, [], ◌∷◌, ◌++◌, Bytes, length, set}
use hmgo.Effect.{Outcome, ok}
use hmgo.Fault.{Error}
use hmgo.Bidcos.{decode}
use hmgo.Hm.{StandardDevice}
use hmgo.Hm.Config.{
  param_response, pairs_response, seq_response, store_pairs, store, store_seq, changes, zeros,
  ensure_configured,
}
use hmgo.Hm.Blocks.{store_pairs-changes}
use hmgo.Hm.Link.{Link, link, payloads}
use hmgo.Hm.Cutting.{differences}
use hmgo.Hm.Configured.{Loads, foreign, part, last, update_messages, ensure_configured_sends}

store_pairs-changes_example :
    store_pairs (1 ∷ 2 ∷ 3 ∷ []) (changes 0 (1 ∷ 2 ∷ 3 ∷ []) (1 ∷ 9 ∷ 8 ∷ [])) ≡ ok (1 ∷ 9 ∷ 8 ∷ [])
store_pairs-changes_example =
    store_pairs-changes (1 ∷ 2 ∷ 3 ∷ []) (1 ∷ 9 ∷ 8 ∷ []) (omega arith) refl

abbrev sixteen : Bytes
sixteen = 1 ∷ 2 ∷ 3 ∷ 4 ∷ 5 ∷ 6 ∷ 7 ∷ 8 ∷ 9 ∷ 10 ∷ 11 ∷ 12 ∷ 13 ∷ 14 ∷ 15 ∷ 16 ∷ []

abbrev from_device : Bytes → Bytes
from_device payload =
    0 ∷ 0 ∷ 0 ∷ 1 ∷ 0xa0 ∷ 0x10 ∷ 0x39 ∷ 0x06 ∷ 0xeb ∷ 0xfd ∷ 0xb0 ∷ 0x2c ∷ payload

abbrev from_other : Bytes
from_other = 0 ∷ 0 ∷ 0 ∷ 1 ∷ 0xa0 ∷ 0x70 ∷ 0x39 ∷ 0x0f ∷ 0x17 ∷ 0xfd ∷ 0xb0 ∷ 0x2c ∷ 1 ∷ []

abbrev replies : List Bytes
replies =
    from_device (2 ∷ 5 ∷ 7 ∷ [])
    ∷ from_other
    ∷ from_device (3 ∷ 9 ∷ 1 ∷ 2 ∷ [])
    ∷ from_device (3 ∷ 0 ∷ [])
    ∷ []

abbrev wall_thermostat : StandardDevice Link
wall_thermostat = record {
  bcs = record {
    gateway = record { inbox = replies ++ (7 ∷ []) ∷ []; outbox = [] };
    addr = (0xfd, 0xb0, 0x2c);
    counter = 18;
  };
  addr = (0x39, 0x06, 0xeb);
  msgcnt = 0;
}

abbrev loaded : Bytes
loaded = set (set (set (zeros 256) 5 7) 9 1) 10 2

replies-Loads : Loads wall_thermostat.addr (zeros 256) replies loaded
unfolding decode param_response pairs_response seq_response store_pairs store_seq store zeros
replies-Loads = part refl refl refl (foreign refl refl (part refl refl refl (last refl refl refl)))

abbrev set_five : Bytes → Outcome Error Bytes
set_five mem = ok (set mem 5 8)

ensure_configured_sends_example :
    (later : StandardDevice Link) × (ensure_configured link 4 0 7 set_five wall_thermostat
      ≡ (ok tt, later))
    × (payloads later
        ≡ (0 ∷ 4 ∷ 0 ∷ 0 ∷ 0 ∷ 0 ∷ 7 ∷ [])
          ∷ update_messages 0 7 (differences (length loaded) 0 loaded (set loaded 5 8)))
    × (later.bcs.gateway.inbox ≡ (7 ∷ []) ∷ [])
ensure_configured_sends_example =
    ensure_configured_sends (set loaded 5 8) set_five 4 0 7 ((7 ∷ []) ∷ []) wall_thermostat
      replies-Loads (omega arith) refl refl
