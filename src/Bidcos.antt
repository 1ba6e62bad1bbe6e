-- ===== src/Bidcos.antt =====
-- Package internal/bidcos/bidcos.go: the radio protocol. Packets, the message counter that all
-- senders share, and the sender on top of a gateway.
pub mod Codec
pub mod Radio
pub mod Settling
use hmgo.Prelude.{ℕ, ◌+◌, ◌%◌, ◌^◌, [], ◌∷◌, ◌++◌, bit_and, bit_or}
use hmgo.Prelude.{Bytes, length, ◌==◌, if◌then◌else◌}
use hmgo.Effect.{Outcome, ok, fail, Effect, lift, ◌>>=◌, ◌>>◌}
use hmgo.Fault.{Error, too_short_for_bidcos}
use hmgo.Uartgw.Packet.{Addr, addr_bytes}

-- BidCoS commands.
abbrev pub device_info : ℕ
device_info = 0

abbrev pub config : ℕ
config = 1

abbrev pub ack : ℕ
ack = 2

abbrev pub info : ℕ
info = 0x10

abbrev pub thermal_control : ℕ
thermal_control = 0x5a

abbrev pub power_event_cyclic : ℕ
power_event_cyclic = 0x5e

abbrev pub power_event : ℕ
power_event = 0x5f

abbrev pub weather_event : ℕ
weather_event = 0x70

abbrev pub timestamp : ℕ
timestamp = 0x3f

-- Packet flags.
abbrev pub burst_flag : ℕ
burst_flag = 0x10

abbrev pub default_flags : ℕ
default_flags = bit_or 0x80 0x20

pub record Packet : Type 0 where
  pub status : ℕ
  pub info : ℕ
  pub rssi : ℕ
  pub msgcnt : ℕ
  pub flags : ℕ
  pub cmd : ℕ
  pub source : Addr
  pub dest : Addr
  pub payload : Bytes

-- The counter that `Encode` puts in, and what it leaves in `messageCounter.counter`.
abbrev pub chosen : Packet → ℕ → ℕ
chosen p counter = if p.msgcnt == 0 then counter else p.msgcnt

abbrev pub advanced : Packet → ℕ → ℕ
advanced p counter = if p.msgcnt == 0 then (counter + 9) % 2 ^ 8 else counter

abbrev pub burst : Packet → ℕ
burst p = if bit_and p.flags 0x10 == 0x10 then 0x01 else 0

-- `Packet.Encode`, at the shared counter.
unfoldable pub encode : Packet → ℕ → Bytes × ℕ
encode p counter = (
  0x00
      ∷ 0x00
      ∷ burst p
      ∷ chosen p counter
      ∷ p.flags
      ∷ p.cmd
      ∷ (addr_bytes p.source ++ addr_bytes p.dest ++ p.payload),
  advanced p counter,
)

-- `Decode`.
unfoldable pub decode : Bytes → Outcome Error Packet
decode (b0 ∷ b1 ∷ b2 ∷ b3 ∷ b4 ∷ b5 ∷ b6 ∷ b7 ∷ b8 ∷ b9 ∷ b10 ∷ b11 ∷ payload) = ok (record {
  status = b0;
  info = b1;
  rssi = b2;
  msgcnt = b3;
  flags = b4;
  cmd = b5;
  source = (b6, b7, b8);
  dest = (b9, b10, b11);
  payload = payload;
})
decode bs = fail (too_short_for_bidcos (length bs))

-- The interface `Gateway`, over the gateway's state.
pub record Gateway (S : Type 0) : Type 0 where
  pub read : ℕ → Effect S Error Bytes
  pub write : Bytes → Effect S Error (Unit {0})
  pub confirm : Effect S Error (Unit {0})

-- A `Sender`, with the state of its gateway and the shared message counter.
pub record Sender (S : Type 0) : Type 0 where
  pub gateway : S
  pub addr : Addr
  pub counter : ℕ

module _ {S : Type 0} where
  abbrev pub on_gateway : {A : Type 0} → Effect S Error A → Effect (Sender S) Error A
  on_gateway m s = ((m s.gateway).0, record s { gateway = (m s.gateway).1 })

  abbrev pub encoded : Packet → Effect (Sender S) Error Bytes
  encoded pkt s = (
    ok (encode (record pkt { source = s.addr }) s.counter).0,
    record s { counter = (encode (record pkt { source = s.addr }) s.counter).1 },
  )

module _ {S : Type 0} (gw : Gateway S) where
  -- `Sender.ReadPacket`: the buffer has 17 + 12 bytes.
  unfoldable pub read_packet : Effect (Sender S) Error Packet
  unfolding decode
  read_packet = do buf ← on_gateway (gw.read 29); lift (decode buf)

  -- `Sender.WritePacket`.
  unfoldable pub write_packet : Packet → Effect (Sender S) Error (Unit {0})
  write_packet pkt = do bs ← encoded pkt; on_gateway (gw.write bs); on_gateway gw.confirm
