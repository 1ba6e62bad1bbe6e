-- ===== src/Hm/Termination.antt =====
-- The conversations with a device on the UARTGW end on every stream, on one unit of fuel more than
-- there are bytes to come.
use hmgo.Prelude.{ℕ, zero, suc, ◌+◌, ◌<◌, ap, arith, List, [], ◌∷◌}
use hmgo.Prelude.{Bytes, equal, ◌==◌}
use hmgo.Effect.{Outcome, ok, lift, guard, pure, ◌>>◌}
use hmgo.Effect.Halts.{Halts, Halts-bind}
use hmgo.Effect.Falls.{Falls, Falls-bind}
use hmgo.Effect.Settles.{
  Settles, Settles-lift, Settles-bind, Settles-then, Settles-if, Settles-guard,
}
use hmgo.Fault.{Error, unexpected_response_command}
use hmgo.Uartgw.Packet.{Uartgw, addr_bytes}
use hmgo.Bidcos.{read_packet}
use hmgo.Bidcos.Radio.{uartgw}
use hmgo.Hm.{
  StandardDevice, FullyQualifiedChannel, on_sender, config_start, config_write_index, config_end,
  config_param_req, config_peer_list_req, config_peer_add, config_peer_remove,
}
use hmgo.Hm.Config.{
  config_reply, read_config, load_config, zeros, changes, block, write_blocks, write_changes,
  ensure_configured,
}
use hmgo.Hm.Peering.{
  peer_reply, read_peers, expect_status, check_response, expect_response, add_new_peer,
  replace_peers, ensure_peered_with,
}
use hmgo.Hm.Settling.{
  ahead, read_packet-Settles, write_config-Settles, reading-Halts, config_reply-Halts,
  config_reply-Falls, peer_reply-Halts, peer_reply-Falls,
}

module _ (checksum : Bytes → ℕ) where
  reads-Falls : Falls ahead (on_sender (read_packet (uartgw checksum)))
  reads-Falls = record { at = (read_packet-Settles checksum).falls }

  read_config-Halts :
      (fuel : ℕ) (mem : Bytes) (d : StandardDevice Uartgw)
      → ahead d < fuel
      → Halts (read_config (uartgw checksum) fuel mem d).0
  unfolding read_config
  read_config-Halts zero mem d h = absurd (omega arith)
  read_config-Halts (suc fuel) mem d h =
      reading-Halts checksum (config_reply (read_config (uartgw checksum) fuel) mem) fuel d h
        λ pkt e less.
          config_reply-Halts (read_config (uartgw checksum) fuel) mem pkt e
            (λ m. read_config-Halts fuel m e less)

  read_config-Falls :
      (fuel : ℕ) (mem : Bytes) → Falls ahead (read_config (uartgw checksum) fuel mem)
  unfolding read_config
  read_config-Falls zero mem = record { at = λ d. omega arith }
  read_config-Falls (suc fuel) mem =
      Falls-bind ahead (on_sender (read_packet (uartgw checksum)))
        (config_reply (read_config (uartgw checksum) fuel) mem) reads-Falls
        (λ pkt.
          config_reply-Falls (read_config (uartgw checksum) fuel) mem pkt (read_config-Falls fuel))

  read_peers-Halts :
      (fuel : ℕ) (peers : List FullyQualifiedChannel) (d : StandardDevice Uartgw)
      → ahead d < fuel
      → Halts (read_peers (uartgw checksum) fuel peers d).0
  unfolding read_peers
  read_peers-Halts zero peers d h = absurd (omega arith)
  read_peers-Halts (suc fuel) peers d h =
      reading-Halts checksum
        (peer_reply (uartgw checksum) (read_peers (uartgw checksum) fuel) peers) fuel d h
        λ pkt e less.
          peer_reply-Halts checksum (read_peers (uartgw checksum) fuel) peers pkt e
            (λ ps. read_peers-Halts fuel ps e less)

  read_peers-Falls :
      (fuel : ℕ) (peers : List FullyQualifiedChannel)
      → Falls ahead (read_peers (uartgw checksum) fuel peers)
  unfolding read_peers
  read_peers-Falls zero peers = record { at = λ d. omega arith }
  read_peers-Falls (suc fuel) peers =
      Falls-bind ahead (on_sender (read_packet (uartgw checksum)))
        (peer_reply (uartgw checksum) (read_peers (uartgw checksum) fuel) peers) reads-Falls
        (λ pkt.
          peer_reply-Falls checksum (read_peers (uartgw checksum) fuel) peers pkt
            (read_peers-Falls fuel))

  write_blocks-Settles :
      (left i : ℕ) (pairs : Bytes) → Settles ahead (write_blocks (uartgw checksum) left i pairs)
  unfolding write_blocks config_write_index
  write_blocks-Settles zero i pairs = Settles-lift ahead (ok tt) tt
  write_blocks-Settles (suc left) i pairs =
      Settles-then ahead (config_write_index (uartgw checksum) 0 (block pairs i)) _
        (write_config-Settles checksum _ _) (write_blocks-Settles left (i + 1) pairs)

  write_changes-Settles :
      (channel paramlist : ℕ) (pairs : Bytes)
      → Settles ahead (write_changes (uartgw checksum) channel paramlist pairs)
  unfolding write_changes config_start config_end
  write_changes-Settles channel paramlist [] = Settles-lift ahead (ok tt) tt
  write_changes-Settles channel paramlist (x ∷ pairs) =
      Settles-then ahead (config_start (uartgw checksum) channel paramlist) _
        (write_config-Settles checksum _ _)
        (Settles-then ahead (write_blocks (uartgw checksum) _ 0 (x ∷ pairs)) _
          (write_blocks-Settles _ 0 (x ∷ pairs)) (write_config-Settles checksum _ _))

  config_param_req-Settles :
      (channel paramlist : ℕ) → Settles ahead (config_param_req (uartgw checksum) channel paramlist)
  unfolding config_param_req
  config_param_req-Settles channel paramlist = write_config-Settles checksum _ _

  load_config-Halts :
      (fuel channel paramlist : ℕ) (mem : Bytes) (d : StandardDevice Uartgw)
      → ahead d < fuel
      → Halts (load_config (uartgw checksum) fuel mem channel paramlist d).0
  unfolding load_config
  load_config-Halts fuel channel paramlist mem d h =
      let req = config_param_req-Settles channel paramlist in
      Halts-bind (config_param_req (uartgw checksum) channel paramlist) _ d (req.halts d)
        λ u e r. read_config-Halts fuel mem e (omega (arith, req.falls d, ap (λ o. ahead o.1) r))

  -- EnsureConfigured ends, if the callback does.
  pub ensure_configured-Halts :
      (fuel channel paramlist : ℕ) (cb : Bytes → Outcome Error Bytes) (d : StandardDevice Uartgw)
      → ((mem : Bytes) → Halts (cb mem))
      → ahead d < fuel
      → Halts (ensure_configured (uartgw checksum) fuel channel paramlist cb d).0
  unfolding ensure_configured
  ensure_configured-Halts fuel channel paramlist cb d c h =
      Halts-bind (load_config (uartgw checksum) fuel (zeros 256) channel paramlist) _ d
        (load_config-Halts fuel channel paramlist (zeros 256) d h)
        λ mem e r.
          Halts-bind (lift (cb mem)) _ e (c mem)
            λ target t q. (write_changes-Settles channel paramlist (changes 0 mem target)).halts t

  pub ensure_configured-Falls :
      (fuel channel paramlist : ℕ) (cb : Bytes → Outcome Error Bytes)
      → Falls ahead (ensure_configured (uartgw checksum) fuel channel paramlist cb)
  unfolding ensure_configured load_config
  ensure_configured-Falls fuel channel paramlist cb =
      Falls-bind ahead
        (config_param_req (uartgw checksum) channel paramlist
          >> read_config (uartgw checksum) fuel (zeros 256))
        _
        (Falls-bind ahead (config_param_req (uartgw checksum) channel paramlist) _
          (record { at = (config_param_req-Settles channel paramlist).falls })
          (λ u. read_config-Falls fuel (zeros 256)))
        λ mem.
          Falls-bind ahead (lift (cb mem)) _ (record { at = λ d. omega arith })
            λ target. record {
              at = (write_changes-Settles channel paramlist (changes 0 mem target)).falls;
            }

  expect_status-Settles : (payload : Bytes) → Settles ahead (expect_status payload)
  unfolding expect_status
  expect_status-Settles [] = record { halts = λ d. tt; falls = λ d. omega arith }
  expect_status-Settles (status ∷ rest) = Settles-guard ahead _ _

  expect_response-Settles : (want : ℕ) → Settles ahead (expect_response (uartgw checksum) want)
  unfolding expect_response check_response
  expect_response-Settles want =
      Settles-bind ahead (on_sender (read_packet (uartgw checksum))) _
        (read_packet-Settles checksum)
        λ pkt.
          Settles-then ahead (guard (pkt.cmd == want) (unexpected_response_command pkt.cmd want)) _
            (Settles-guard ahead _ _) (expect_status-Settles pkt.payload)

  add_new_peer-Settles :
      (channel : ℕ) (dest : FullyQualifiedChannel)
      → Settles ahead (add_new_peer (uartgw checksum) channel dest)
  unfolding add_new_peer config_peer_add
  add_new_peer-Settles channel dest =
      Settles-then ahead (config_peer_add (uartgw checksum) channel dest) _
        (write_config-Settles checksum _ _) (expect_response-Settles 0x02)

  replace_peers-Settles :
      (channel : ℕ) (dest : FullyQualifiedChannel) (peers : List FullyQualifiedChannel)
      → Settles ahead (replace_peers (uartgw checksum) channel dest peers)
  unfolding replace_peers config_peer_remove
  replace_peers-Settles channel dest [] = add_new_peer-Settles channel dest
  replace_peers-Settles channel dest (old ∷ []) =
      Settles-if ahead (equal (addr_bytes old.peer) (addr_bytes dest.peer)) (pure tt) _
        (Settles-lift ahead (ok tt) tt)
        (Settles-then ahead
          (config_peer_remove (uartgw checksum) channel old
            >> expect_response (uartgw checksum) 0x10)
          _
          (Settles-then ahead (config_peer_remove (uartgw checksum) channel old) _
            (write_config-Settles checksum _ _) (expect_response-Settles 0x10))
          (add_new_peer-Settles channel dest))
  replace_peers-Settles channel dest (old ∷ older ∷ peers) = record {
    halts = λ d. tt;
    falls = λ d. omega arith;
  }

  list_req-Settles : (channel : ℕ) → Settles ahead (config_peer_list_req (uartgw checksum) channel)
  unfolding config_peer_list_req
  list_req-Settles channel = write_config-Settles checksum _ _

  -- EnsurePeeredWith ends.
  pub ensure_peered_with-Halts :
      (fuel channel : ℕ) (dest : FullyQualifiedChannel) (d : StandardDevice Uartgw)
      → ahead d < fuel
      → Halts (ensure_peered_with (uartgw checksum) fuel channel dest d).0
  unfolding ensure_peered_with
  ensure_peered_with-Halts fuel channel dest d h =
      let req = list_req-Settles channel in
      Halts-bind (config_peer_list_req (uartgw checksum) channel) _ d (req.halts d) λ u e r.
        Halts-bind (read_peers (uartgw checksum) fuel []) _ e
          (read_peers-Halts fuel [] e (omega (arith, req.falls d, ap (λ o. ahead o.1) r)))
          (λ peers t q. (replace_peers-Settles channel dest peers).halts t)

  pub ensure_peered_with-Falls :
      (fuel channel : ℕ) (dest : FullyQualifiedChannel)
      → Falls ahead (ensure_peered_with (uartgw checksum) fuel channel dest)
  unfolding ensure_peered_with
  ensure_peered_with-Falls fuel channel dest =
      Falls-bind ahead (config_peer_list_req (uartgw checksum) channel) _
        (record { at = (list_req-Settles channel).falls })
        λ u.
          Falls-bind ahead (read_peers (uartgw checksum) fuel []) _ (read_peers-Falls fuel [])
            (λ peers. record { at = (replace_peers-Settles channel dest peers).falls })
