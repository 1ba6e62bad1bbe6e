-- ===== src/Hm/Peering.antt =====
-- internal/hm/hm.go: EnsurePeeredWith.
use hmgo.Prelude.{ℕ, zero, suc, List, [], ◌∷◌, ◌++◌, Bool, true, false}
use hmgo.Prelude.{Bytes, equal, ◌==◌, if◌then◌else◌}
use hmgo.Effect.{Effect, pure, throw, crash, guard, out_of_fuel, ◌>>=◌, ◌>>◌}
use hmgo.Fault.{Error, unexpected_payload, unpeering_not_implemented, unexpected_response_command}
use hmgo.Fault.{unexpected_response_length, unexpected_ack_status}
use hmgo.Uartgw.Packet.{addr_bytes}
use hmgo.Bidcos.{Packet, Gateway, read_packet}
use hmgo.Hm.{StandardDevice, FullyQualifiedChannel, on_sender, config_peer_list_req}
use hmgo.Hm.{config_peer_add, config_peer_remove}

-- The loop over entries of four bytes: the peers so far, and whether the list has ended.
unfoldable pub peer_entries : List FullyQualifiedChannel → Bytes → List FullyQualifiedChannel × Bool
peer_entries peers (a ∷ b ∷ c ∷ ch ∷ rest) =
    let more = peer_entries (peers ++ record { peer = (a, b, c); channel = ch } ∷ []) rest in
    if equal (a ∷ b ∷ c ∷ ch ∷ []) (0x00 ∷ 0x00 ∷ 0x00 ∷ 0x00 ∷ []) then (peers, true) else more
peer_entries peers _ = (peers, false)

-- The checks of a response: its command, and the status in its first byte.
unfoldable pub expect_status : {S : Type 0} → Bytes → Effect (StandardDevice S) Error (Unit {0})
expect_status [] = throw (unexpected_response_length 0)
expect_status (status ∷ rest) = guard (status == 0x00) (unexpected_ack_status status)

unfoldable pub check_response :
    {S : Type 0} → ℕ → Packet → Effect (StandardDevice S) Error (Unit {0})
unfolding expect_status
check_response want pkt =
    guard (pkt.cmd == want) (unexpected_response_command pkt.cmd want) >> expect_status pkt.payload

module _ {S : Type 0} (gw : Gateway S) where
  -- `pkt.Payload[0]` and `pkt.Payload[1:]`, and the loop over the entries.
  unfoldable pub peer_list :
      (List FullyQualifiedChannel → Effect (StandardDevice S) Error (List FullyQualifiedChannel))
      → List FullyQualifiedChannel
      → Bytes
      → Effect (StandardDevice S) Error (List FullyQualifiedChannel)
  unfolding peer_entries
  peer_list again peers [] = crash
  peer_list again peers (kind ∷ list) =
      guard (kind == 0x01) (unexpected_payload kind)
      >> (if (peer_entries peers list).1
          then pure (peer_entries peers list).0
          else again (peer_entries peers list).0)

  -- The body of the loop `ReadPeers`: packets from other devices are dropped.
  unfoldable pub peer_reply :
      (List FullyQualifiedChannel → Effect (StandardDevice S) Error (List FullyQualifiedChannel))
      → List FullyQualifiedChannel
      → Packet
      → Effect (StandardDevice S) Error (List FullyQualifiedChannel)
  unfolding peer_list
  peer_reply again peers pkt d =
      (if equal (addr_bytes pkt.source) (addr_bytes d.addr)
          then peer_list again peers pkt.payload
          else again peers)
        d

  -- The loop `ReadPeers`.
  unfoldable pub read_peers :
      ℕ → List FullyQualifiedChannel → Effect (StandardDevice S) Error (List FullyQualifiedChannel)
  unfolding peer_reply
  read_peers zero peers = out_of_fuel
  read_peers (suc fuel) peers = on_sender (read_packet gw) >>= peer_reply (read_peers fuel) peers

  unfoldable pub expect_response : ℕ → Effect (StandardDevice S) Error (Unit {0})
  unfolding check_response
  expect_response want = on_sender (read_packet gw) >>= check_response want

  unfoldable pub add_new_peer :
      ℕ → FullyQualifiedChannel → Effect (StandardDevice S) Error (Unit {0})
  unfolding expect_response
  add_new_peer channel dest = config_peer_add gw channel dest >> expect_response 0x02

  -- What is done with the existing peers.
  unfoldable pub replace_peers :
      ℕ
      → FullyQualifiedChannel
      → List FullyQualifiedChannel
      → Effect (StandardDevice S) Error (Unit {0})
  unfolding add_new_peer expect_response
  replace_peers channel dest [] = add_new_peer channel dest
  replace_peers channel dest (existing ∷ []) =
      if equal (addr_bytes existing.peer) (addr_bytes dest.peer)
      then pure tt
      else config_peer_remove gw channel existing
        >> expect_response 0x10
        >> add_new_peer channel dest
  replace_peers channel dest _ = throw unpeering_not_implemented

  unfoldable pub ensure_peered_with :
      ℕ → ℕ → FullyQualifiedChannel → Effect (StandardDevice S) Error (Unit {0})
  unfolding read_peers replace_peers
  ensure_peered_with fuel channel dest = do
    config_peer_list_req gw channel
    peers ← read_peers fuel []
    replace_peers channel dest peers
