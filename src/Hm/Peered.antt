-- ===== src/Hm/Peered.antt =====
-- What EnsurePeeredWith sends for the peers that the device reports.
use hmgo.Prelude.{ℕ, zero, suc, ◌≡◌, ◌≤◌, ap, ◌∙◌, arith, List, [], ◌∷◌, ◌++◌}
use hmgo.Prelude.{Bytes, length, true, false, equal}
use hmgo.Effect.{ok, Effect, continue}
use hmgo.Fault.{Error}
use hmgo.Uartgw.Packet.{Addr, addr_bytes}
use hmgo.Bidcos.{Packet, Gateway, decode}
use hmgo.Hm.{StandardDevice, FullyQualifiedChannel}
use hmgo.Hm.Link.{Link, link}
use hmgo.Hm.Configured.{with_inbox, next_packet}
use hmgo.Hm.Peering.{peer_entries, peer_list, peer_reply, read_peers}

-- Received bytes that make up the peer list of the device `addr`, with the peers before and after.
pub data Lists (addr : Addr)
    : List FullyQualifiedChannel → List Bytes → List FullyQualifiedChannel → Type 0 where
  foreign :
      {ps qs : List FullyQualifiedChannel} {bs : Bytes} {rest : List Bytes} {p : Packet}
      → decode bs ≡ ok p
      → equal (addr_bytes p.source) (addr_bytes addr) ≡ false
      → Lists addr ps rest qs
      → Lists addr ps (bs ∷ rest) qs
  part :
      {ps qs rs : List FullyQualifiedChannel} {bs list : Bytes} {rest : List Bytes} {p : Packet}
      → decode bs ≡ ok p
      → equal (addr_bytes p.source) (addr_bytes addr) ≡ true
      → p.payload ≡ 1 ∷ list
      → peer_entries ps list ≡ (qs, false)
      → Lists addr qs rest rs
      → Lists addr ps (bs ∷ rest) rs
  last :
      {ps qs : List FullyQualifiedChannel} {bs list : Bytes} {p : Packet}
      → decode bs ≡ ok p
      → equal (addr_bytes p.source) (addr_bytes addr) ≡ true
      → p.payload ≡ 1 ∷ list
      → peer_entries ps list ≡ (qs, true)
      → Lists addr ps (bs ∷ []) qs

module _ {S : Type 0} (gw : Gateway S)
    (again : List FullyQualifiedChannel
      → Effect (StandardDevice S) Error (List FullyQualifiedChannel))
    (ps : List FullyQualifiedChannel) (pkt : Packet) (d : StandardDevice S) where
  pub peer_reply_foreign :
      equal (addr_bytes pkt.source) (addr_bytes d.addr) ≡ false
      → peer_reply gw again ps pkt d ≡ again ps d
  unfolding peer_reply
  peer_reply_foreign e = rw e

  pub peer_reply_part :
      {qs : List FullyQualifiedChannel} {list : Bytes}
      → equal (addr_bytes pkt.source) (addr_bytes d.addr) ≡ true
      → pkt.payload ≡ 1 ∷ list
      → peer_entries ps list ≡ (qs, false)
      → peer_reply gw again ps pkt d ≡ again qs d
  unfolding peer_reply peer_list
  peer_reply_part e f g = rw (e, f, g)

  pub peer_reply_last :
      {qs : List FullyQualifiedChannel} {list : Bytes}
      → equal (addr_bytes pkt.source) (addr_bytes d.addr) ≡ true
      → pkt.payload ≡ 1 ∷ list
      → peer_entries ps list ≡ (qs, true)
      → peer_reply gw again ps pkt d ≡ (ok qs, d)
  unfolding peer_reply peer_list
  peer_reply_last e f g = rw (e, f, g)

read_peers_step :
    (fuel : ℕ) (ps : List FullyQualifiedChannel) (bs : Bytes) (rest : List Bytes) (p : Packet)
    (d : StandardDevice Link)
    → decode bs ≡ ok p
    → read_peers link (suc fuel) ps (with_inbox (bs ∷ rest) d)
      ≡ peer_reply link (read_peers link fuel) ps p (with_inbox rest d)
unfolding read_peers
read_peers_step fuel ps bs rest p d e =
    ap (λ o. continue o.0 o.1 (peer_reply link (read_peers link fuel) ps))
      (next_packet bs rest p d e)

pub read_peers-Lists :
    {ps qs : List FullyQualifiedChannel} {bss : List Bytes} (fuel : ℕ) (rest : List Bytes)
    (d : StandardDevice Link)
    → Lists d.addr ps bss qs
    → length bss ≤ fuel
    → read_peers link fuel ps (with_inbox (bss ++ rest) d) ≡ (ok qs, with_inbox rest d)
read_peers-Lists {bss = []} zero rest d l h = elim l [ ]
read_peers-Lists {bss = b ∷ bss} zero rest d l h = ground arith
read_peers-Lists {ps = ps} (suc fuel) rest d (foreign {bs = bs} {rest = more} {p = p} e f l) h =
    read_peers_step fuel ps bs (more ++ rest) p d e
    ∙ peer_reply_foreign link (read_peers link fuel) ps p (with_inbox (more ++ rest) d) f
    ∙ read_peers-Lists fuel rest d l (omega (arith, h))
read_peers-Lists {ps = ps} (suc fuel) rest d (part {bs = bs} {rest = more} {p = p} e f g r l) h =
    read_peers_step fuel ps bs (more ++ rest) p d e
    ∙ peer_reply_part link (read_peers link fuel) ps p (with_inbox (more ++ rest) d) f g r
    ∙ read_peers-Lists fuel rest d l (omega (arith, h))
read_peers-Lists {ps = ps} (suc fuel) rest d (last {bs = bs} {p = p} e f g r) h =
    read_peers_step fuel ps bs rest p d e
    ∙ peer_reply_last link (read_peers link fuel) ps p (with_inbox rest d) f g r
