-- ===== src/Uartgw/Traffic.antt =====
-- internal/uartgw/uartgw.go: peers, and the io.ReadWriter that the bidcos package uses.
pub mod Confirming
pub mod Peers
use hmgo.Prelude.{ℕ, zero, suc, ◌+◌, ◌%◌, List, [], ◌∷◌, ◌++◌, Bool, true, false}
use hmgo.Prelude.{Bytes, length, leb, if◌then◌else◌}
use hmgo.Effect.{Effect, Outcome, pure, throw, crash, guard, out_of_fuel, lift, ok, panic}
use hmgo.Effect.{◌>>=◌, ◌>>◌}
use hmgo.Fault.{Error, buffer_too_short, unexpected_cmd}
use hmgo.Uartgw.Command.{
  UartCmd, app_send, app_ack, app_recv, app_add_peer, app_peer_remove_aes, iota, same_cmd, app,
}
use hmgo.Uartgw.Packet.{Packet, Uartgw, read_packet, write_packet}
use hmgo.Uartgw.Session.{request, expect_cmd}

-- `[6]byte{addr[0], addr[1], addr[2], 0x00, 0x00, 0x00}`.
unfoldable pub add_peer_payload : Bytes → Outcome Error Bytes
add_peer_payload (a ∷ b ∷ c ∷ rest) = ok (a ∷ b ∷ c ∷ 0x00 ∷ 0x00 ∷ 0x00 ∷ [])
add_peer_payload _ = panic

-- `for i := 0; i < channels; i++ { … = append(…, byte(i)) }`, from i on.
unfoldable pub channel_bytes : ℕ → ℕ → Bytes
channel_bytes i zero = []
channel_bytes i (suc left) = (i % 256) ∷ channel_bytes (i + 1) left

unfoldable pub repeat : ℕ → Effect Uartgw Error (Unit {0}) → Effect Uartgw Error (Unit {0})
repeat zero body = pure tt
repeat (suc n) body = body >> repeat n body

module _ (checksum : Bytes → ℕ) where
  -- One AppAddPeer message and its acknowledgement.
  unfoldable pub add_peer_message : Bytes → Effect Uartgw Error (Unit {0})
  unfolding add_peer_payload
  add_peer_message addr = do
    payload ← lift (add_peer_payload addr)
    write_packet checksum (request app app_add_peer payload)
    pkt ← read_packet checksum
    expect_cmd pkt app_ack

  -- `UARTGW.AddPeer`.
  unfoldable pub add_peer : Bytes → ℕ → Effect Uartgw Error (Unit {0})
  unfolding add_peer_message channel_bytes repeat
  add_peer addr channels = do
    repeat 2 (add_peer_message addr)
    write_packet checksum (request app app_peer_remove_aes (addr ++ channel_bytes 0 channels))
    pkt ← read_packet checksum
    expect_cmd pkt app_ack
    add_peer_message addr
    add_peer_message addr

  -- The loop of `Confirm`: AppRecv packets are dropped.
  unfoldable pub confirm_loop : ℕ → Effect Uartgw Error (Unit {0})
  confirm_loop zero = out_of_fuel
  confirm_loop (suc fuel) =
      let again = confirm_loop fuel in
      read_packet checksum >>= λ pkt.
      if same_cmd pkt.cmd app_recv then again else expect_cmd pkt app_ack

  -- `UARTGW.Confirm`. Every packet read takes a byte, so this fuel is enough.
  unfoldable pub confirm : Effect Uartgw Error (Unit {0})
  confirm u = confirm_loop (suc (length u.port.pending)) u

  -- `UARTGW.AppSend` and `UARTGW.Write`.
  unfoldable pub send : Bytes → Effect Uartgw Error (Unit {0})
  send payload = write_packet checksum (request app app_send payload)

  -- `UARTGW.Read(p)` with `len(p)` = n.
  unfoldable pub read : ℕ → Effect Uartgw Error Bytes
  read n = do
    pkt ← read_packet checksum
    expect_cmd pkt app_recv
    guard (leb (length pkt.payload) n) (buffer_too_short n (length pkt.payload))
    pure pkt.payload
