-- ===== src/Tests/Sessions.antt =====
-- The session theorems on the transcript of uartgw.go.
use hmgo.Prelude.{ℕ, refl, arith, [], ◌∷◌, ◌++◌, Bytes, codes}
use hmgo.Uartgw.Command.{os, app}
use hmgo.Uartgw.Packet.{Uartgw}
use hmgo.Uartgw.Session.{init}
use hmgo.Uartgw.Session.Handshake.{Ready, Reply, Leads, message}
use hmgo.Uartgw.Session.Success.{Answers, IsProper, transcript, init_succeeds}
use hmgo.Uartgw.Traffic.Confirming.{received}
use hmgo.Tests.Crc.{crc, crc_bounded}
use hmgo.Tests.Wire.{gateway_with, noon}

abbrev reply : ℕ → ℕ → Bytes → Reply
reply dst cnt payload = record { dst = dst; cnt = cnt; payload = payload }

abbrev pub answers : Answers
answers = record {
  bootloader = reply 0 0 (codes "Co_CPU_BL");
  changed = reply 0 0 (0x01 ∷ []);
  application = reply 0 0 (codes "Co_CPU_App");
  firmware = reply 0 1 (2 ∷ 1 ∷ 0 ∷ 3 ∷ 1 ∷ 2 ∷ 1 ∷ []);
  csmaca = reply 0 2 (0x01 ∷ []);
  serial = reply 0 3 (0x02 ∷ codes "NEQ1330980");
  time = reply 0 4 (0x01 ∷ []);
  key = reply 1 5 (0x01 ∷ []);
  hmid = reply 1 6 (0x01 ∷ []);
}

abbrev fresh : Uartgw
fresh = gateway_with os (transcript crc crc_bounded answers (7 ∷ []))

pub proper : IsProper answers 1 2 1 (codes "NEQ1330980")
proper = record {
  bootloader_fits = omega arith;
  bootloader_is = refl;
  changed_fits = omega arith;
  application_fits = omega arith;
  application_is = refl;
  firmware_fits = omega arith;
  before_version = record { a = 2; b = 1; c = 0; d = 3 };
  after_version = [];
  firmware_is = refl;
  csmaca_fits = omega arith;
  serial_fits = omega arith;
  before_serial = 0x02;
  serial_is = refl;
  time_fits = omega arith;
  key_fits = omega arith;
  hmid_fits = omega arith;
}

-- A gateway of the tests is ready for what its port holds.
ready : (state : ℕ) (bs : Bytes) → Ready bs state [] [] (gateway_with state bs)
ready state bs = record {
  no_faults = refl;
  pending_is = refl;
  state_is = refl;
  version_is = refl;
  serial_is = refl;
}

abbrev Started : Type 0
Started = Leads (init crc noon) fresh tt (Ready (7 ∷ []) app (1 ∷ 2 ∷ 1 ∷ []) (codes "NEQ1330980"))

init_succeeds_example : Started
init_succeeds_example =
    init_succeeds crc crc_bounded noon answers 1 2 1 (codes "NEQ1330980") (7 ∷ []) [] [] fresh
      proper (ready os (transcript crc crc_bounded answers (7 ∷ [])))

abbrev waiting_bytes : Bytes
waiting_bytes =
    received crc crc_bounded (reply 1 3 (9 ∷ []) ∷ [])
      (message crc crc_bounded 0x04 (reply 1 4 (0x01 ∷ [])) ++ 7 ∷ [])
