-- ===== src/Tests/Programs.antt =====
-- The programs of the living room, on a wall thermostat that has them already.
use hmgo.Prelude.{◌≡◌, refl, arith, List, [], ◌∷◌, ◌++◌, Bytes, take, drop, true, false}
use hmgo.Effect.{ok}
use hmgo.Bidcos.{decode}
use hmgo.Hm.{StandardDevice}
use hmgo.Hm.Config.{zeros, ensure_configured, param_response, seq_response, store_seq, store}
use hmgo.Hm.Configured.{Loads, last, part}
use hmgo.Hm.Link.{Link, link, payloads}
use hmgo.Hm.Placed.{last_for, weekday_at, week_placed, set_programs-placed}
use hmgo.Prelude.{◌<◌, ◌≤◌, ◌⊎◌, get_elem?, some}
use hmgo.Hm.Programs.{encode_entry, set_programs}
use hmgo.Hm.Reconfigured.{reconfigured_sends}
use hmgo.Ccu.House.{room_programs}

set_programs-placed_example :
    (set_programs (zeros 256) room_programs ≡ week_placed room_programs (zeros 256))
    × ((20 ≤ 46) × (46 < 202) × ((bs : Bytes) × (last_for (weekday_at 46) room_programs ≡ some bs))
        ⊎ (get_elem? (set_programs (zeros 256) room_programs) 46 ≡ get_elem? (zeros 256) 46))
set_programs-placed_example = set_programs-placed (zeros 256) room_programs 46 (refl, (refl, tt))

-- The parameters as they are set, and the answers of a device that has them.
abbrev stored : Bytes
stored = set_programs (zeros 256) room_programs

abbrev answer : Bytes → Bytes
answer payload = 0 ∷ 0 ∷ 0 ∷ 5 ∷ 0x80 ∷ 0x10 ∷ 0x39 ∷ 0x06 ∷ 0xeb ∷ 0xfd ∷ 0xb0 ∷ 0x2c ∷ payload

abbrev answers : List Bytes
answers = answer (3 ∷ 20 ∷ take 182 (drop 20 stored)) ∷ answer (3 ∷ 0 ∷ []) ∷ []

abbrev thermostat : StandardDevice Link
thermostat = record {
  bcs = record {
    gateway = record { inbox = answers ++ (7 ∷ []) ∷ []; outbox = [] };
    addr = (0xfd, 0xb0, 0x2c);
    counter = 18;
  };
  addr = (0x39, 0x06, 0xeb);
  msgcnt = 0;
}

answered : param_response (zeros 256) (3 ∷ 20 ∷ take 182 (drop 20 stored)) ≡ (ok stored, false)
unfolding param_response seq_response store_seq store zeros set_programs encode_entry
answered = refl

ended : param_response stored (3 ∷ 0 ∷ []) ≡ (ok stored, true)
unfolding param_response seq_response
ended = refl

answers-Loads : Loads thermostat.addr (zeros 256) answers stored
unfolding decode
answers-Loads = part refl refl answered (last refl refl ended)

reconfigured_sends_example :
    (later : StandardDevice Link) × (ensure_configured link 2 0 7
        (λ m. ok (set_programs m room_programs))
        thermostat
      ≡ (ok tt, later))
    × (payloads later ≡ (0 ∷ 4 ∷ 0 ∷ 0 ∷ 0 ∷ 0 ∷ 7 ∷ []) ∷ [])
    × (later.bcs.gateway.inbox ≡ (7 ∷ []) ∷ [])
reconfigured_sends_example =
    reconfigured_sends (zeros 256) room_programs 2 0 7 ((7 ∷ []) ∷ []) thermostat (refl, (refl, tt))
      answers-Loads (omega arith) refl
