-- ===== src/Hm/Configured.antt =====
-- What EnsureConfigured sends, and what LoadConfig reads.
use hmgo.Prelude.{ℕ, zero, suc, ◌+◌, ◌≡◌, ◌≤◌, refl, sym, ap, ◌∙◌, arith, List, [], ◌∷◌, ◌++◌}
use hmgo.Prelude.{map, subst, append-nil, append_assoc, Bytes, length, true, false, equal}
use hmgo.Effect.{Outcome, ok, Effect, continue, lift, pure, ◌>>=◌}
use hmgo.Fault.{Error}
use hmgo.Uartgw.Packet.{Addr, addr_bytes}
use hmgo.Bidcos.{Packet, decode, read_packet}
use hmgo.Hm.{
  StandardDevice, on_sender, config_start, config_write_index, config_end, config_param_req,
}
use hmgo.Hm.Config.{
  param_response, config_reply, read_config, load_config, changes, blocks, block, zeros,
}
use hmgo.Hm.Config.{write_blocks, write_changes, ensure_configured}
use hmgo.Hm.Cutting.{differences, pieces, numbered, changes-differences, blocks-pieces}
use hmgo.Hm.Link.{Link, link, payloads, Sends, Sends-then, write_config-Sends}

-- Received bytes that make up the reply of the device `addr` to a request for its configuration,
-- with the memory before and after it.
pub data Loads (addr : Addr) : Bytes → List Bytes → Bytes → Type 0 where
  foreign :
      {mem m bs : Bytes} {rest : List Bytes} {p : Packet}
      → decode bs ≡ ok p
      → equal (addr_bytes p.source) (addr_bytes addr) ≡ false
      → Loads addr mem rest m
      → Loads addr mem (bs ∷ rest) m
  part :
      {mem n m bs : Bytes} {rest : List Bytes} {p : Packet}
      → decode bs ≡ ok p
      → equal (addr_bytes p.source) (addr_bytes addr) ≡ true
      → param_response mem p.payload ≡ (ok n, false)
      → Loads addr n rest m
      → Loads addr mem (bs ∷ rest) m
  last :
      {mem m bs : Bytes} {p : Packet}
      → decode bs ≡ ok p
      → equal (addr_bytes p.source) (addr_bytes addr) ≡ true
      → param_response mem p.payload ≡ (ok m, true)
      → Loads addr mem (bs ∷ []) m

-- A device whose sender has this inbox.
abbrev pub with_inbox : List Bytes → StandardDevice Link → StandardDevice Link
with_inbox bss d = record d {
  bcs = record d.bcs { gateway = record d.bcs.gateway { inbox = bss } };
}

pub next_packet :
    (bs : Bytes) (rest : List Bytes) (p : Packet) (d : StandardDevice Link)
    → decode bs ≡ ok p
    → on_sender (read_packet link) (with_inbox (bs ∷ rest) d) ≡ (ok p, with_inbox rest d)
unfolding read_packet
next_packet bs rest p d e = ap (λ o. (o, with_inbox rest d)) e

module _ {S : Type 0} (again : Bytes → Effect (StandardDevice S) Error Bytes) (mem : Bytes)
    (pkt : Packet) (d : StandardDevice S) where
  pub reply_foreign :
      equal (addr_bytes pkt.source) (addr_bytes d.addr) ≡ false
      → config_reply again mem pkt d ≡ again mem d
  unfolding config_reply
  reply_foreign e = rw e

  pub reply_part :
      {m : Bytes}
      → equal (addr_bytes pkt.source) (addr_bytes d.addr) ≡ true
      → param_response mem pkt.payload ≡ (ok m, false)
      → config_reply again mem pkt d ≡ again m d
  unfolding config_reply
  reply_part e f = rw (e, f)

  pub reply_last :
      {m : Bytes}
      → equal (addr_bytes pkt.source) (addr_bytes d.addr) ≡ true
      → param_response mem pkt.payload ≡ (ok m, true)
      → config_reply again mem pkt d ≡ (ok m, d)
  unfolding config_reply
  reply_last e f = rw (e, f)

read_config_step :
    (fuel : ℕ) (mem bs : Bytes) (rest : List Bytes) (p : Packet) (d : StandardDevice Link)
    → decode bs ≡ ok p
    → read_config link (suc fuel) mem (with_inbox (bs ∷ rest) d)
      ≡ config_reply (read_config link fuel) mem p (with_inbox rest d)
unfolding read_config
read_config_step fuel mem bs rest p d e =
    ap (λ o. continue o.0 o.1 (config_reply (read_config link fuel) mem))
      (next_packet bs rest p d e)

-- On enough fuel, the memory is what the device's packets make of it.
read_config-Loads :
    {mem m : Bytes} {bss : List Bytes} (fuel : ℕ) (rest : List Bytes) (d : StandardDevice Link)
    → Loads d.addr mem bss m
    → length bss ≤ fuel
    → read_config link fuel mem (with_inbox (bss ++ rest) d) ≡ (ok m, with_inbox rest d)
read_config-Loads {bss = []} zero rest d l h = elim l [ ]
read_config-Loads {bss = b ∷ bss} zero rest d l h = ground arith
read_config-Loads {mem = mem} (suc fuel) rest d (foreign {bs = bs} {rest = more} {p = p} e f l) h =
    read_config_step fuel mem bs (more ++ rest) p d e
    ∙ reply_foreign (read_config link fuel) mem p (with_inbox (more ++ rest) d) f
    ∙ read_config-Loads fuel rest d l (omega (arith, h))
read_config-Loads {mem = mem} (suc fuel) rest d (part {bs = bs} {rest = more} {p = p} e f r l) h =
    read_config_step fuel mem bs (more ++ rest) p d e
    ∙ reply_part (read_config link fuel) mem p (with_inbox (more ++ rest) d) f r
    ∙ read_config-Loads fuel rest d l (omega (arith, h))
read_config-Loads {mem = mem} (suc fuel) rest d (last {bs = bs} {p = p} e f r) h =
    read_config_step fuel mem bs rest p d e
    ∙ reply_last (read_config link fuel) mem p (with_inbox rest d) f r

config_param_req-Sends :
    (channel paramlist : ℕ)
    → Sends
        (config_param_req link channel paramlist)
        ((channel ∷ 4 ∷ 0 ∷ 0 ∷ 0 ∷ 0 ∷ paramlist ∷ []) ∷ [])
unfolding config_param_req
config_param_req-Sends channel paramlist = write_config-Sends _ _

config_start-Sends :
    (channel paramlist : ℕ)
    → Sends
        (config_start link channel paramlist)
        ((channel ∷ 5 ∷ 0 ∷ 0 ∷ 0 ∷ 0 ∷ paramlist ∷ []) ∷ [])
unfolding config_start
config_start-Sends channel paramlist = write_config-Sends _ _

config_write_index-Sends :
    (channel : ℕ) (kv : Bytes)
    → Sends (config_write_index link channel kv) ((channel ∷ 8 ∷ kv) ∷ [])
unfolding config_write_index
config_write_index-Sends channel kv = write_config-Sends _ _

config_end-Sends : (channel : ℕ) → Sends (config_end link channel) ((channel ∷ 6 ∷ []) ∷ [])
unfolding config_end
config_end-Sends channel = write_config-Sends _ _

-- The payload that carries a piece of the pairs.
abbrev pub piece_message : Bytes → Bytes
piece_message piece = 0 ∷ 8 ∷ piece

-- The payloads that write the pairs: none if there are no pairs.
abbrev pub update_messages : ℕ → ℕ → Bytes → List Bytes
update_messages channel paramlist [] = []
update_messages channel paramlist (x ∷ pairs) =
    (channel ∷ 5 ∷ 0 ∷ 0 ∷ 0 ∷ 0 ∷ paramlist ∷ [])
    ∷ (map piece_message (pieces (length (x ∷ pairs)) (x ∷ pairs)) ++ (channel ∷ 6 ∷ []) ∷ [])

pure-Sends : Sends (pure tt) []
pure-Sends = record {
  after = λ d. d;
  runs = λ d. refl;
  sends = λ d. sym (append-nil (payloads d));
  inbox_is = λ d. refl;
  addr_is = λ d. refl;
}

write_blocks-Sends :
    (left i : ℕ) (pairs : Bytes)
    → Sends (write_blocks link left i pairs) (map piece_message (numbered left i pairs))
unfolding write_blocks
write_blocks-Sends zero i pairs = pure-Sends
write_blocks-Sends (suc left) i pairs =
    Sends-then (config_write_index-Sends 0 (block pairs i)) (write_blocks-Sends left (i + 1) pairs)

write_pieces-Sends :
    (pairs : Bytes)
    → Sends
        (write_blocks link (blocks (length pairs)) 0 pairs)
        (map piece_message (pieces (length pairs) pairs))
write_pieces-Sends pairs =
    subst (λ bss. Sends (write_blocks link (blocks (length pairs)) 0 pairs) (map piece_message bss))
      (blocks-pieces pairs) (write_blocks-Sends (blocks (length pairs)) 0 pairs)

write_changes-Sends :
    (channel paramlist : ℕ) (pairs : Bytes)
    → Sends (write_changes link channel paramlist pairs) (update_messages channel paramlist pairs)
unfolding write_changes
write_changes-Sends channel paramlist [] = pure-Sends
write_changes-Sends channel paramlist (x ∷ pairs) =
    Sends-then (config_start-Sends channel paramlist)
      (Sends-then (write_pieces-Sends (x ∷ pairs)) (config_end-Sends channel))

read_config_inbox :
    {mem m : Bytes} {bss : List Bytes} (fuel : ℕ) (rest : List Bytes) (d : StandardDevice Link)
    → Loads d.addr mem bss m
    → length bss ≤ fuel
    → d.bcs.gateway.inbox ≡ bss ++ rest
    → read_config link fuel mem d ≡ (ok m, with_inbox rest d)
read_config_inbox {mem = mem} fuel rest d l h e =
    ap (λ x. read_config link fuel mem (with_inbox x d)) e ∙ read_config-Loads fuel rest d l h

load_config-Loads :
    {mem m : Bytes} {bss : List Bytes} (fuel channel paramlist : ℕ) (rest : List Bytes)
    (d : StandardDevice Link)
    → Loads d.addr mem bss m
    → length bss ≤ fuel
    → d.bcs.gateway.inbox ≡ bss ++ rest
    → load_config link fuel mem channel paramlist d
      ≡ (ok m, with_inbox rest ((config_param_req-Sends channel paramlist).after d))
unfolding load_config
load_config-Loads {mem = mem} {m = m} {bss = bss} fuel channel paramlist rest d l h e =
    let q = config_param_req-Sends channel paramlist in
    ap (λ o. continue o.0 o.1 (λ _. read_config link fuel mem)) (q.runs d)
    ∙ read_config_inbox fuel rest (q.after d) (subst (λ a. Loads a mem bss m) (sym (q.addr_is d)) l)
        h (q.inbox_is d ∙ e)

-- EnsureConfigured on a link where the device sends its configuration, packets of other devices in
-- between, and where the callback gives a target for the memory: it succeeds and sends the request.
-- Then, only if there are bytes of the memory that differ from the target, it sends the start, the
-- pairs of index, as a byte, and new value for just these bytes, in their order and cut into pieces
-- of 14 bytes of which the last may be shorter, and the end. It reads the configuration and no more.
pub ensure_configured_sends :
    {mem : Bytes} {bss : List Bytes} (target : Bytes) (cb : Bytes → Outcome Error Bytes)
    (fuel channel paramlist : ℕ) (rest : List Bytes) (d : StandardDevice Link)
    → Loads d.addr (zeros 256) bss mem
    → length bss ≤ fuel
    → d.bcs.gateway.inbox ≡ bss ++ rest
    → cb mem ≡ ok target
    → (later : StandardDevice Link) × (ensure_configured link fuel channel paramlist cb d
        ≡ (ok tt, later))
      × (payloads later
          ≡ payloads d
            ++ (channel ∷ 4 ∷ 0 ∷ 0 ∷ 0 ∷ 0 ∷ paramlist ∷ [])
              ∷ update_messages channel paramlist (differences (length mem) 0 mem target))
      × (later.bcs.gateway.inbox ≡ rest)
unfolding ensure_configured
ensure_configured_sends {mem = mem} target cb fuel channel paramlist rest d l h e f =
    let q = config_param_req-Sends channel paramlist in
    let w = write_changes-Sends channel paramlist (changes 0 mem target) in
    let r = with_inbox rest (q.after d) in
    (
      w.after r,
      ap
            (λ o. continue o.0 o.1 (λ devmem.
              lift (cb devmem) >>= λ t. write_changes link channel paramlist (changes 0 devmem t)))
            (load_config-Loads fuel channel paramlist rest d l h e)
          ∙ ap (λ o. continue o r (λ t. write_changes link channel paramlist (changes 0 mem t))) f
          ∙ w.runs r,
      w.sends r
          ∙ ap (λ x. x ++ update_messages channel paramlist (changes 0 mem target)) (q.sends d)
          ∙ append_assoc (payloads d) _ _
          ∙ ap
              (λ pairs.
                payloads d
                ++ (channel ∷ 4 ∷ 0 ∷ 0 ∷ 0 ∷ 0 ∷ paramlist ∷ [])
                  ∷ update_messages channel paramlist pairs)
              (changes-differences mem target),
      w.inbox_is r,
    )
