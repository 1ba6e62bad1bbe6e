-- ===== src/Uartgw/Session.antt =====
-- The conversations of internal/uartgw/uartgw.go: initialisation, peers, sending and receiving.
mod Growth
mod Sending
pub mod Initialised
pub mod Handshake
pub mod Success
use hmgo.Prelude.{ℕ, zero, suc, ◌+◌, ◌-◌, ◌*◌, ◌/◌, ◌%◌, ◌^◌, List, [], ◌∷◌, ◌++◌}
use hmgo.Prelude.{Bytes, codes, length, equal, ltb, not, if◌then◌else◌}
use hmgo.Effect.{Effect, Outcome, ok, fail, pure, throw, crash, modify, guard, out_of_fuel}
use hmgo.Effect.{◌>>=◌, ◌>>◌}
use hmgo.Fault.{
  Stage, switching_to_application, getting_firmware_version, enabling_csmaca, getting_serial_number,
  setting_time, setting_current_key, setting_hmid, Error, unexpected_cmd, unexpected_application,
  buffer_too_short, in_stage,
}
use hmgo.Uartgw.Command.{
  UartCmd, os_get_app, os_get_firmware, os_change_app, os_ack, os_enable_csmaca, os_get_serial,
  os_set_time, app_set_hmid, app_send, app_set_current_key, app_ack, app_recv, app_add_peer,
  app_peer_remove_aes, iota, same_cmd, os, app,
}
use hmgo.Uartgw.Packet.{Packet, Uartgw, addr_bytes, read_packet, write_packet}

-- `time.Time`: the seconds since the epoch, and the zone's offset, east of Greenwich or west of it.
pub data Offset : Type 0 where
  east west : ℕ → Offset

pub record Time : Type 0 where
  pub unix : ℕ
  pub zone : Offset

-- `&Packet{Dst: …, Cmd: …, Payload: …}`.
abbrev pub request : ℕ → UartCmd → Bytes → Packet
request dst cmd payload = record { dst = dst; msgcnt = 0; cmd = cmd; payload = payload }

-- `if got, want := pkt.Cmd, …; got != want { return … }`.
unfoldable pub expect_cmd : Packet → UartCmd → Effect Uartgw Error (Unit {0})
unfolding same_cmd iota
expect_cmd pkt want = guard (same_cmd pkt.cmd want) (unexpected_cmd (iota pkt.cmd) (iota want))

-- `if got, want := string(pkt.Payload), …; got != want { return … }`.
unfoldable pub expect_application : Packet → Bytes → Effect Uartgw Error (Unit {0})
expect_application pkt want =
    guard (equal pkt.payload want) (unexpected_application pkt.payload want)

-- `if err := …; err != nil { return fmt.Errorf("…: %v", err) }`.
unfoldable pub wrap : {A : Type 0} → Stage → Outcome Error A → Outcome Error A
wrap stage (fail e) = fail (in_stage stage e)
wrap stage o = o

unfoldable pub staged : {A : Type 0} → Stage → Effect Uartgw Error A → Effect Uartgw Error A
unfolding wrap
staged stage m u = (wrap stage (m u).0, (m u).1)

-- `pkt.Payload[4:]`, then `version[0]`, `version[1]` and `version[2]`.
unfoldable pub store_version : Bytes → Effect Uartgw Error (Unit {0})
store_version (a ∷ b ∷ c ∷ d ∷ x ∷ y ∷ z ∷ rest) =
    modify (λ u. record u { firmware_version = x ∷ y ∷ z ∷ [] })
store_version _ = crash

-- `pkt.Payload[1:]`.
unfoldable pub store_serial : Bytes → Effect Uartgw Error (Unit {0})
store_serial [] = crash
store_serial (a ∷ rest) = modify (λ u. record u { serial_number = rest })

-- `byte(offset / 1800)`: Go divides toward zero and keeps the lowest eight bits.
unfoldable pub half_hours : Offset → ℕ
half_hours (east n) = n / 1800 % 256
half_hours (west n) = (256 - n / 1800 % 256) % 256

-- `binary.BigEndian` on a uint32.
unfoldable pub be32 : ℕ → Bytes
be32 v = (v / 2 ^ 24 % 256) ∷ (v / 2 ^ 16 % 256) ∷ (v / 2 ^ 8 % 256) ∷ (v % 256) ∷ []

abbrev pub key_payload : Bytes
key_payload =
    0x00 ∷ 0x11 ∷ 0x22 ∷ 0x33 ∷ 0x44 ∷ 0x55 ∷ 0x66 ∷ 0x77 ∷ 0x88 ∷ 0x99 ∷ 0xaa ∷ 0xbb ∷ 0xcc ∷ 0xdd
    ∷ 0xee ∷ 0xff ∷ 2 ∷ []

module _ (checksum : Bytes → ℕ) where
  unfoldable pub switch_to_app : Effect Uartgw Error (Unit {0})
  unfolding expect_cmd expect_application
  switch_to_app = do
    write_packet checksum (request os os_change_app [])
    ack ← read_packet checksum
    expect_cmd ack os_ack
    pkt ← read_packet checksum
    expect_cmd pkt os_get_app
    expect_application pkt (codes "Co_CPU_App")
    modify (λ u. record u { devstate = app })

  unfoldable pub get_firmware_version : Effect Uartgw Error (Unit {0})
  unfolding expect_cmd store_version
  get_firmware_version = do
    write_packet checksum (request os os_get_firmware [])
    pkt ← read_packet checksum
    expect_cmd pkt app_ack
    store_version pkt.payload

  unfoldable pub enable_csmaca : Effect Uartgw Error (Unit {0})
  unfolding expect_cmd
  enable_csmaca = do
    write_packet checksum (request os os_enable_csmaca (0x01 ∷ []))
    pkt ← read_packet checksum
    expect_cmd pkt app_ack

  unfoldable pub get_serial_number : Effect Uartgw Error (Unit {0})
  unfolding expect_cmd store_serial
  get_serial_number = do
    write_packet checksum (request os os_get_serial [])
    pkt ← read_packet checksum
    expect_cmd pkt app_ack
    store_serial pkt.payload

  unfoldable pub set_time : Time → Effect Uartgw Error (Unit {0})
  unfolding expect_cmd be32 half_hours
  set_time now = do
    let payload = be32 (now.unix % 2 ^ 32) ++ half_hours now.zone ∷ []
    write_packet checksum (request os os_set_time payload)
    pkt ← read_packet checksum
    expect_cmd pkt app_ack

  unfoldable pub set_current_key : Effect Uartgw Error (Unit {0})
  unfolding expect_cmd
  set_current_key = do
    write_packet checksum (request app app_set_current_key key_payload)
    pkt ← read_packet checksum
    expect_cmd pkt app_ack

  unfoldable pub set_hmid : Effect Uartgw Error (Unit {0})
  unfolding expect_cmd
  set_hmid u =
      (do
        write_packet checksum (request app app_set_hmid (addr_bytes u.hmid))
        pkt ← read_packet checksum
        expect_cmd pkt app_ack)
        u

  -- `UARTGW.init`.
  unfoldable pub init : Time → Effect Uartgw Error (Unit {0})
  unfolding expect_cmd expect_application staged
  init now = do
    pkt ← read_packet checksum
    expect_cmd pkt os_get_app
    expect_application pkt (codes "Co_CPU_BL")
    staged switching_to_application switch_to_app
    staged getting_firmware_version get_firmware_version
    staged enabling_csmaca enable_csmaca
    staged getting_serial_number get_serial_number
    staged setting_time (set_time now)
    staged setting_current_key set_current_key
    staged setting_hmid set_hmid
