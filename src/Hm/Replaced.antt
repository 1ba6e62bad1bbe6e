-- ===== src/Hm/Replaced.antt =====
-- The conversations of EnsurePeeredWith, one for each number of peers that the device reports.
use hmgo.Prelude.{ℕ, ◌≡◌, ◌≤◌, refl, sym, ap, ◌∙◌, List, [], ◌∷◌, ◌++◌, subst}
use hmgo.Prelude.{==-self, equal_iff, append-nil, append_assoc, Bytes, length, true, false, equal}
use hmgo.Effect.{Outcome, ok, Effect, continue, ◌>>=◌, ◌>>◌}
use hmgo.Fault.{Error}
use hmgo.Uartgw.Packet.{addr_bytes}
use hmgo.Bidcos.{Packet, decode}
use hmgo.Hm.{StandardDevice, FullyQualifiedChannel, config_peer_list_req, config_peer_add}
use hmgo.Hm.{config_peer_remove}
use hmgo.Hm.Link.{Link, link, payloads, Sends, write_config-Sends}
use hmgo.Hm.Configured.{with_inbox, next_packet}
use hmgo.Hm.Peering.{
  read_peers, expect_status, check_response, expect_response, add_new_peer, replace_peers,
  ensure_peered_with,
}
use hmgo.Hm.Peered.{Lists, read_peers-Lists}

-- An action on a device has this result, sends these payloads and leaves this inbox.
pub record Ends (m : Effect (StandardDevice Link) Error (Unit {0})) (d : StandardDevice Link)
    (o : Outcome Error (Unit {0})) (rest : List Bytes) (ps : List Bytes) : Type 0 where
  pub later : StandardDevice Link
  pub runs : m d ≡ (o, later)
  pub sends : payloads later ≡ payloads d ++ ps
  pub inbox_is : later.bcs.gateway.inbox ≡ rest

-- It succeeds.
abbrev pub Talks :
    Effect (StandardDevice Link) Error (Unit {0})
    → StandardDevice Link
    → List Bytes
    → List Bytes
    → Type 0
Talks m d rest ps = Ends m d (ok tt) rest ps

pub Talks-then :
    {m n : Effect (StandardDevice Link) Error (Unit {0})} {d : StandardDevice Link}
    {o : Outcome Error (Unit {0})} {more rest ps qs : List Bytes}
    → Talks m d more ps
    → ((e : StandardDevice Link) → e.bcs.gateway.inbox ≡ more → Ends n e o rest qs)
    → Ends (m >> n) d o rest (ps ++ qs)
Talks-then {n = n} {d = d} {ps = ps} {qs = qs} a f =
    let b = f a.later a.inbox_is in
    record {
      later = b.later;
      runs = ap (λ o. continue o.0 o.1 (λ _. n)) a.runs ∙ b.runs;
      sends = b.sends ∙ ap (λ x. x ++ qs) a.sends ∙ append_assoc (payloads d) ps qs;
      inbox_is = b.inbox_is;
    }

pub Talks-Sends :
    {m : Effect (StandardDevice Link) Error (Unit {0})} {ps rest : List Bytes}
    (d : StandardDevice Link)
    → Sends m ps
    → d.bcs.gateway.inbox ≡ rest
    → Talks m d rest ps
Talks-Sends d s e = record {
  later = s.after d;
  runs = s.runs d;
  sends = s.sends d;
  inbox_is = s.inbox_is d ∙ e;
}

-- Received bytes that are a positive answer with the command `want`.
pub record Accepts (want : ℕ) (bs : Bytes) : Type 0 where
  pub packet : Packet
  pub more : Bytes
  pub decodes : decode bs ≡ ok packet
  pub cmd_is : packet.cmd ≡ want
  pub payload_is : packet.payload ≡ 0 ∷ more

accepted :
    (want : ℕ) (bs : Bytes) (d : StandardDevice Link) (a : Accepts want bs)
    → check_response want a.packet d ≡ (ok tt, d)
unfolding check_response expect_status
accepted want bs d a = rw (a.cmd_is, ==-self want, a.payload_is)

pub response :
    (want : ℕ) (bs : Bytes) (rest : List Bytes) (d : StandardDevice Link)
    → Accepts want bs
    → d.bcs.gateway.inbox ≡ bs ∷ rest
    → Talks (expect_response link want) d rest []
unfolding expect_response
response want bs rest d a e = record {
  later = with_inbox rest d;
  runs =
      ap (λ x. expect_response link want (with_inbox x d)) e
      ∙ ap (λ o. continue o.0 o.1 (check_response want)) (next_packet bs rest a.packet d a.decodes)
      ∙ accepted want bs (with_inbox rest d) a;
  sends = sym (append-nil (payloads d));
  inbox_is = refl;
}

-- The payloads of the three requests.
abbrev pub list_request : ℕ → Bytes
list_request channel = channel ∷ 3 ∷ []

abbrev pub add_request : ℕ → FullyQualifiedChannel → Bytes
add_request channel p = channel ∷ 1 ∷ (addr_bytes p.peer ++ (p.channel ∷ 0 ∷ []))

abbrev pub remove_request : ℕ → FullyQualifiedChannel → Bytes
remove_request channel p = channel ∷ 2 ∷ (addr_bytes p.peer ++ (p.channel ∷ 0 ∷ []))

list_request-Sends :
    (channel : ℕ) → Sends (config_peer_list_req link channel) (list_request channel ∷ [])
unfolding config_peer_list_req
list_request-Sends channel = write_config-Sends _ _

pub add_request-Sends :
    (channel : ℕ) (p : FullyQualifiedChannel)
    → Sends (config_peer_add link channel p) (add_request channel p ∷ [])
unfolding config_peer_add
add_request-Sends channel p = write_config-Sends _ _

pub remove_request-Sends :
    (channel : ℕ) (p : FullyQualifiedChannel)
    → Sends (config_peer_remove link channel p) (remove_request channel p ∷ [])
unfolding config_peer_remove
remove_request-Sends channel p = write_config-Sends _ _

adds :
    (channel : ℕ) (dest : FullyQualifiedChannel) (bs : Bytes) (rest : List Bytes)
    (d : StandardDevice Link)
    → Accepts 2 bs
    → d.bcs.gateway.inbox ≡ bs ∷ rest
    → Talks (add_new_peer link channel dest) d rest (add_request channel dest ∷ [])
unfolding add_new_peer
adds channel dest bs rest d a e =
    Talks-then (Talks-Sends d (add_request-Sends channel dest) e) (λ f i. response 2 bs rest f a i)

replaces :
    (channel : ℕ) (dest old : FullyQualifiedChannel) (gone added : Bytes) (rest : List Bytes)
    (d : StandardDevice Link)
    → equal (addr_bytes old.peer) (addr_bytes dest.peer) ≡ false
    → Accepts 0x10 gone
    → Accepts 2 added
    → d.bcs.gateway.inbox ≡ gone ∷ added ∷ rest
    → Talks
        (replace_peers link channel dest (old ∷ []))
        d
        rest
        (remove_request channel old ∷ add_request channel dest ∷ [])
unfolding replace_peers
replaces channel dest old gone added rest d ne a b e = rw ne (
    Talks-then
      (Talks-then (Talks-Sends d (remove_request-Sends channel old) e)
        (λ f i. response 0x10 gone (added ∷ rest) f a i))
      (λ f i. adds channel dest added rest f b i))

-- The request for the peers, and the peers as they are read.
pub listed :
    {peers : List FullyQualifiedChannel} {o : Outcome Error (Unit {0})}
    {bss rest after ps : List Bytes} (fuel channel : ℕ) (dest : FullyQualifiedChannel)
    (d : StandardDevice Link)
    → Lists d.addr [] bss peers
    → length bss ≤ fuel
    → d.bcs.gateway.inbox ≡ bss ++ rest
    → ((e : StandardDevice Link)
        → e.bcs.gateway.inbox ≡ rest
        → Ends (replace_peers link channel dest peers) e o after ps)
    → Ends (ensure_peered_with link fuel channel dest) d o after (list_request channel ∷ ps)
unfolding ensure_peered_with
listed {peers = peers} {bss = bss} {rest = rest} {ps = ps} fuel channel dest d l h e k =
    let s = list_request-Sends channel in
    let r = with_inbox rest (s.after d) in
    let t = k r refl in
    record {
      later = t.later;
      runs =
          ap
            (λ o.
              continue o.0 o.1 (λ _. read_peers link fuel [] >>= replace_peers link channel dest))
            (s.runs d)
          ∙ ap (λ o. continue o.0 o.1 (replace_peers link channel dest))
              (ap (λ x. read_peers link fuel [] (with_inbox x (s.after d))) (s.inbox_is d ∙ e)
                ∙ read_peers-Lists fuel rest (s.after d)
                    (subst (λ a. Lists a [] bss peers) (sym (s.addr_is d)) l) h)
          ∙ t.runs;
      sends =
          t.sends
          ∙ ap (λ x. x ++ ps) (s.sends d)
          ∙ append_assoc (payloads d) (list_request channel ∷ []) ps;
      inbox_is = t.inbox_is;
    }

-- If the device reports one peer with another address and accepts both changes, EnsurePeeredWith
-- succeeds: it asks for the peers, removes the one that is there and adds the new one, and it reads
-- the list and the two answers and no more.
pub ensure_peered_replaces :
    {bss : List Bytes} (fuel channel : ℕ) (dest old : FullyQualifiedChannel) (gone added : Bytes)
    (rest : List Bytes) (d : StandardDevice Link)
    → Lists d.addr [] bss (old ∷ [])
    → length bss ≤ fuel
    → d.bcs.gateway.inbox ≡ bss ++ gone ∷ added ∷ rest
    → equal (addr_bytes old.peer) (addr_bytes dest.peer) ≡ false
    → Accepts 0x10 gone
    → Accepts 2 added
    → Talks
        (ensure_peered_with link fuel channel dest)
        d
        rest
        (list_request channel ∷ remove_request channel old ∷ add_request channel dest ∷ [])
ensure_peered_replaces fuel channel dest old gone added rest d l h e ne a b =
    listed fuel channel dest d l h e (λ f i. replaces channel dest old gone added rest f ne a b i)

-- If the device reports no peer and accepts the new one, EnsurePeeredWith succeeds: it asks for the
-- peers and adds the new one.
pub ensure_peered_adds :
    {bss : List Bytes} (fuel channel : ℕ) (dest : FullyQualifiedChannel) (added : Bytes)
    (rest : List Bytes) (d : StandardDevice Link)
    → Lists d.addr [] bss []
    → length bss ≤ fuel
    → d.bcs.gateway.inbox ≡ bss ++ added ∷ rest
    → Accepts 2 added
    → Talks
        (ensure_peered_with link fuel channel dest)
        d
        rest
        (list_request channel ∷ add_request channel dest ∷ [])
ensure_peered_adds fuel channel dest added rest d l h e a =
    listed fuel channel dest d l h e
      (λ f i. unfold replace_peers in adds channel dest added rest f a i)

-- If the one peer that the device reports has the address that is wanted, EnsurePeeredWith only
-- asks for the peers and succeeds, whatever the channel of that peer is.
pub ensure_peered_already :
    {bss : List Bytes} (fuel channel : ℕ) (dest old : FullyQualifiedChannel) (rest : List Bytes)
    (d : StandardDevice Link)
    → Lists d.addr [] bss (old ∷ [])
    → length bss ≤ fuel
    → d.bcs.gateway.inbox ≡ bss ++ rest
    → old.peer ≡ dest.peer
    → Talks (ensure_peered_with link fuel channel dest) d rest (list_request channel ∷ [])
unfolding replace_peers
ensure_peered_already fuel channel dest old rest d l h e same =
    listed fuel channel dest d l h e λ f i. record {
      later = f;
      runs = found f;
      sends = sym (append-nil (payloads f));
      inbox_is = i;
    }
  where
    known : equal (addr_bytes old.peer) (addr_bytes dest.peer) ≡ true
    known = (equal_iff (addr_bytes old.peer) (addr_bytes dest.peer)).1 (ap addr_bytes same)

    found : (f : StandardDevice Link) → replace_peers link channel dest (old ∷ []) f ≡ (ok tt, f)
    found f = rw known
