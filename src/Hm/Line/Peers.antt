-- ===== src/Hm/Line/Peers.antt =====
-- EnsurePeeredWith on a line.
use hmgo.Prelude.{ℕ, zero, suc, ◌≤◌, ◌≡◌, ap, ◌∙◌, arith, List, [], ◌∷◌}
use hmgo.Prelude.{Bytes, length, true, false, equal, equal_iff, ==-self}
use hmgo.Effect.{ok, ◌>>◌, pure}
use hmgo.Uartgw.Packet.{Addr, addr_bytes}
use hmgo.Bidcos.{Packet, Gateway, decode, read_packet}
use hmgo.Hm.{
  StandardDevice, FullyQualifiedChannel, on_sender, config_peer_list_req, config_peer_add,
  config_peer_remove,
}
use hmgo.Hm.Peering.{
  peer_reply, read_peers, expect_status, check_response, expect_response, add_new_peer,
  replace_peers, ensure_peered_with,
}
use hmgo.Hm.Peered.{
  Lists, foreign, part, last, peer_reply_foreign, peer_reply_part, peer_reply_last,
}
use hmgo.Hm.Replaced.{Accepts}
use hmgo.Hm.Line.{
  Item, acked, heard, IsLine, Converses, Converses-as, Converses-pure, Converses-bind,
  Converses-then, write_config-Converses, read_packet-Converses,
}
use hmgo.Hm.Line.Configuring.{heards, moved}

-- What comes in after the list of peers, for a device with these peers: nothing if it is peered with
-- `dest`, and otherwise the answers to the packets that remove its peer and add the new one.
pub data Settles (dest : FullyQualifiedChannel)
    : List FullyQualifiedChannel → (List Item → List Item) → Type 0 where
  already :
      {old : FullyQualifiedChannel}
      → old.peer ≡ dest.peer
      → Settles dest (old ∷ []) (λ items. items)
  adds : {added : Bytes} → Accepts 2 added → Settles dest [] (λ items. acked ∷ heard added ∷ items)
  replaces :
      {old : FullyQualifiedChannel} {gone added : Bytes}
      → equal (addr_bytes old.peer) (addr_bytes dest.peer) ≡ false
      → Accepts 0x10 gone
      → Accepts 2 added
      → Settles dest (old ∷ []) (λ items. acked ∷ heard gone ∷ acked ∷ heard added ∷ items)

module _ {S : Type 0} (gw : Gateway S) (Holds : List Item → S → Type 0)
    (line : IsLine gw Holds) where
  next_peers :
      (fuel : ℕ) (ps qs : List FullyQualifiedChannel) (bs : Bytes) (p : Packet)
      (items left : List Item) (d : StandardDevice S)
      → decode bs ≡ ok p
      → Holds (heard bs ∷ items) d.bcs.gateway
      → ((e : StandardDevice S)
          → e.addr ≡ d.addr
          → Holds items e.bcs.gateway
          → Converses Holds (peer_reply gw (read_peers gw fuel) ps p) e qs left)
      → Converses Holds (read_peers gw (suc fuel) ps) d qs left
  unfolding read_peers
  next_peers fuel ps qs bs p items left d e g next =
      Converses-bind Holds (on_sender (read_packet gw)) _ d
        (read_packet-Converses gw Holds line bs p items d e g) next

  read_peers-Converses :
      {ps qs : List FullyQualifiedChannel} {bss : List Bytes} (fuel : ℕ) (addr : Addr)
      (items : List Item) (d : StandardDevice S)
      → Lists addr ps bss qs
      → length bss ≤ fuel
      → d.addr ≡ addr
      → Holds (heards bss items) d.bcs.gateway
      → Converses Holds (read_peers gw fuel ps) d qs items
  read_peers-Converses {bss = []} fuel addr items d l h i g = elim l [ ]
  read_peers-Converses {bss = b ∷ bss} zero addr items d l h i g = ground arith
  read_peers-Converses {ps = ps} {qs = m} (suc fuel) addr items d (foreign {bs = bs} {p = p} e f l)
        h i g =
      next_peers fuel ps m bs p _ items d e g λ t ta gt.
        Converses-as Holds _ (read_peers gw fuel ps) t
          (peer_reply_foreign gw (read_peers gw fuel) ps p t (moved false p t addr (ta ∙ i) f))
          (read_peers-Converses fuel addr items t l (omega (arith, h)) (ta ∙ i) gt)
  read_peers-Converses {ps = ps} {qs = m} (suc fuel) addr items d
        (part {qs = n} {bs = bs} {p = p} e f q r l) h i g =
      next_peers fuel ps m bs p _ items d e g λ t ta gt.
        Converses-as Holds _ (read_peers gw fuel n) t
          (peer_reply_part gw (read_peers gw fuel) ps p t (moved true p t addr (ta ∙ i) f) q r)
          (read_peers-Converses fuel addr items t l (omega (arith, h)) (ta ∙ i) gt)
  read_peers-Converses {ps = ps} {qs = m} (suc fuel) addr items d (last {bs = bs} {p = p} e f q r) h
        i g =
      next_peers fuel ps m bs p _ items d e g λ t ta gt.
        Converses-as Holds _ (pure m) t
          (peer_reply_last gw (read_peers gw fuel) ps p t (moved true p t addr (ta ∙ i) f) q r)
          (Converses-pure Holds m t items gt)

  response-Converses :
      (want : ℕ) (bs : Bytes) (items : List Item) (d : StandardDevice S)
      → Accepts want bs
      → Holds (heard bs ∷ items) d.bcs.gateway
      → Converses Holds (expect_response gw want) d tt items
  unfolding expect_response check_response expect_status
  response-Converses want bs items d a g =
      Converses-bind Holds (on_sender (read_packet gw)) (check_response want) d
        (read_packet-Converses gw Holds line bs a.packet items d a.decodes g)
        λ e ea ge.
          Converses-as Holds (check_response want a.packet) (pure tt) e
            (rw (a.cmd_is, ==-self want, a.payload_is)) (Converses-pure Holds tt e items ge)

  add_new_peer-Converses :
      (channel : ℕ) (dest : FullyQualifiedChannel) (bs : Bytes) (items : List Item)
      (d : StandardDevice S)
      → Accepts 2 bs
      → Holds (acked ∷ heard bs ∷ items) d.bcs.gateway
      → Converses Holds (add_new_peer gw channel dest) d tt items
  unfolding add_new_peer config_peer_add
  add_new_peer-Converses channel dest bs items d a g =
      Converses-then Holds (config_peer_add gw channel dest) (expect_response gw 2) d
        (write_config-Converses gw Holds line _ _ _ d (omega arith) g)
        λ e ea ge. response-Converses 2 bs items e a ge

  replace_peers-Converses :
      {peers : List FullyQualifiedChannel} {after : List Item → List Item} (channel : ℕ)
      (dest : FullyQualifiedChannel) (items : List Item) (d : StandardDevice S)
      → Settles dest peers after
      → Holds (after items) d.bcs.gateway
      → Converses Holds (replace_peers gw channel dest peers) d tt items
  unfolding replace_peers config_peer_remove
  replace_peers-Converses channel dest items d (already {old = old} same) g =
      Converses-as Holds (replace_peers gw channel dest (old ∷ [])) (pure tt) d
        (rw ((equal_iff (addr_bytes old.peer) (addr_bytes dest.peer)).1 (ap addr_bytes same)))
        (Converses-pure Holds tt d items g)
  replace_peers-Converses channel dest items d (adds {added = bs} a) g =
      add_new_peer-Converses channel dest bs items d a g
  replace_peers-Converses channel dest items d
        (replaces {old = old} {gone = gone} {added = added} ne a b) g =
      rw ne (
        Converses-then Holds (config_peer_remove gw channel old >> expect_response gw 0x10)
          (add_new_peer gw channel dest) d
          (Converses-then Holds (config_peer_remove gw channel old) (expect_response gw 0x10) d
            (write_config-Converses gw Holds line _ _ _ d (omega arith) g)
            λ e ea ge. response-Converses 0x10 gone _ e a ge)
          λ e ea ge. add_new_peer-Converses channel dest added items e b ge)

  -- EnsurePeeredWith on a line where the device lists no peer or one, packets of other devices in
  -- between, and accepts the changes: it succeeds.
  pub ensure_peered_with-Converses :
      {peers : List FullyQualifiedChannel} {after : List Item → List Item} {bss : List Bytes}
      (fuel channel : ℕ) (dest : FullyQualifiedChannel) (addr : Addr) (items : List Item)
      (d : StandardDevice S)
      → Lists addr [] bss peers
      → length bss ≤ fuel
      → Settles dest peers after
      → d.addr ≡ addr
      → Holds (acked ∷ heards bss (after items)) d.bcs.gateway
      → Converses Holds (ensure_peered_with gw fuel channel dest) d tt items
  unfolding ensure_peered_with config_peer_list_req
  ensure_peered_with-Converses {peers = peers} fuel channel dest addr items d l h s i g =
      Converses-then Holds (config_peer_list_req gw channel) _ d
        (write_config-Converses gw Holds line _ _ _ d (omega arith) g)
        λ e ea ge.
          Converses-bind Holds (read_peers gw fuel []) (replace_peers gw channel dest) e
            (read_peers-Converses fuel addr _ e l h (ea ∙ i) ge)
            λ f fa gf. replace_peers-Converses channel dest items f s gf
