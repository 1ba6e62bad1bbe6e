-- ===== src/Tests/Machine.antt =====
-- main on a machine whose kernel refuses to flush the input, and a handler on a gateway.
use hmgo.Prelude.{refl, arith, [], ◌∷◌, ◌++◌, none, some, Bytes, codes}
use hmgo.Uartgw.Command.{app}
use hmgo.Uartgw.Session.Handshake.{message}
use hmgo.Uartgw.Traffic.Confirming.{received}
use hmgo.Uartgw.Packet.{Uartgw}
use hmgo.Prelude.{true}
use hmgo.Serial.{Constants, Termios}
use hmgo.Serial.Configuring.{IsSound}
use hmgo.Hm.Power.{PowerSwitch}
use hmgo.Ccu.House.{avr, home}
use hmgo.Ccu.Loop.{power_on, power_off}
use hmgo.Ccu.Opening.{Machine, prepare}
use hmgo.Ccu.Opening.Prepared.{Prepared, prepare_cases}
use hmgo.Ccu.Switching.{Switched, power_responds}
use hmgo.Tests.Crc.{crc, crc_bounded}
use hmgo.Tests.Wire.{gateway_with}
use hmgo.Tests.Central.{ack, messages, central, ready}

-- The values on Linux.
abbrev linux : Constants
linux = record { b115200 = 0x1002; cs8 = 0x30; cread = 0x80; vmin = 6; vtime = 5 }

abbrev cooked : Termios
cooked = record {
  iflag = 0x500;
  oflag = 5;
  cflag = 0xbf;
  lflag = 0x8a3b;
  line = 0;
  cc = 3 ∷ 28 ∷ 127 ∷ 21 ∷ 4 ∷ 0 ∷ 1 ∷ 0 ∷ 17 ∷ 19 ∷ 26 ∷ 0 ∷ 18 ∷ 15 ∷ 23 ∷ 22 ∷ 0 ∷ 0 ∷ 0 ∷ [];
  ispeed = 15;
  ospeed = 15;
}

abbrev machine : Machine
machine = record {
  opening = none;
  unblocking = none;
  line = record { termios = cooked; gets = none; sets = none };
  kernel = record { results = none ∷ none ∷ none ∷ some 25 ∷ []; calls = [] };
  blocks = true;
}

sound : IsSound linux cooked
sound = record {
  vmin_inside = omega arith;
  vtime_inside = omega arith;
  apart = λ e. omega (arith, e);
}

prepare_cases_example : Prepared linux machine (prepare linux machine)
prepare_cases_example = prepare_cases linux machine sound

-- The three messages come before the acknowledgement.
abbrev waiting_bytes : Bytes
waiting_bytes = received crc crc_bounded messages (message crc crc_bounded 0x04 (ack 3) ++ 7 ∷ [])

abbrev switch : PowerSwitch Uartgw
switch = record {
  device = record {
    bcs = record { gateway = gateway_with app waiting_bytes; addr = home; counter = 0 };
    addr = (0x40, 0xc2, 0xa8);
    msgcnt = 0;
  };
  latest_power_event = none;
}

power_responds_example :
    Switched crc crc_bounded
      (0x40, 0xc2, 0xa8)
      200
      (7 ∷ [])
      []
      []
      (central waiting_bytes)
      (power_on crc avr (central waiting_bytes))
    × Switched crc crc_bounded
        (0x40, 0xc2, 0xa8)
        0
        (7 ∷ [])
        []
        []
        (central waiting_bytes)
        (power_off crc avr (central waiting_bytes))
power_responds_example =
    power_responds crc crc_bounded (codes "avr") switch avr messages (ack 3) (7 ∷ []) [] []
      (central waiting_bytes) refl (omega arith, (omega arith, (omega arith, tt))) (omega arith)
      (ready waiting_bytes)
