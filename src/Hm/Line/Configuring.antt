-- ===== src/Hm/Line/Configuring.antt =====
-- EnsureConfigured on a line.
use hmgo.Prelude.{ℕ, zero, suc, ◌+◌, ◌≤◌, ◌≡◌, sym, ap, ◌∙◌, arith, List, [], ◌∷◌}
use hmgo.Prelude.{Bytes, length, Bool, true, false, equal, subst}
use hmgo.Effect.{Outcome, ok, lift, pure}
use hmgo.Fault.{Error}
use hmgo.Uartgw.Packet.{Addr, addr_bytes}
use hmgo.Bidcos.{Packet, Gateway, decode, read_packet, default_flags}
use hmgo.Hm.{
  StandardDevice, on_sender, config_param_req, config_start, config_write_index, config_end,
}
use hmgo.Hm.Config.{
  config_reply, read_config, load_config, changes, blocks, block, zeros, write_blocks,
  write_changes, ensure_configured,
}
use hmgo.Hm.Blocks.{block_bounded}
use hmgo.Hm.Configured.{Loads, foreign, part, last, reply_foreign, reply_part, reply_last}
use hmgo.Hm.Line.{
  Item, acked, heard, IsLine, Converses, Converses-as, Converses-pure, Converses-bind,
  Converses-then, write_config-Converses, read_packet-Converses,
}

-- Radio packets, and acknowledgements, before other items.
abbrev pub heards : List Bytes → List Item → List Item
heards [] items = items
heards (bs ∷ bss) items = heard bs ∷ heards bss items

abbrev pub ackeds : ℕ → List Item → List Item
ackeds zero items = items
ackeds (suc n) items = acked ∷ ackeds n items

-- The acknowledgements of the packets that write the pairs, of none if there are no pairs.
abbrev pub updates : Bytes → List Item → List Item
updates [] items = items
updates (x ∷ pairs) items = acked ∷ ackeds (blocks (length (x ∷ pairs))) (acked ∷ items)

-- A comparison with the address of a device.
pub moved :
    {S : Type 0} (b : Bool) (p : Packet) (d : StandardDevice S) (addr : Addr)
    → d.addr ≡ addr
    → equal (addr_bytes p.source) (addr_bytes addr) ≡ b
    → equal (addr_bytes p.source) (addr_bytes d.addr) ≡ b
moved b p d addr i f = subst (λ a. equal (addr_bytes p.source) (addr_bytes a) ≡ b) (sym i) f

module _ {S : Type 0} (gw : Gateway S) (Holds : List Item → S → Type 0)
    (line : IsLine gw Holds) where
  lift-Converses :
      {A : Type 0} (o : Outcome Error A) (a : A) (items : List Item) (d : StandardDevice S)
      → o ≡ ok a
      → Holds items d.bcs.gateway
      → Converses Holds (lift o) d a items
  lift-Converses o a items d e g =
      Converses-as Holds (lift o) (λ z. (ok a, z)) d (ap (λ x. (x, d)) e)
        (Converses-pure Holds a d items g)

  -- The next packet goes to the body of the loop.
  reads_next :
      (fuel : ℕ) (mem m bs : Bytes) (p : Packet) (items left : List Item) (d : StandardDevice S)
      → decode bs ≡ ok p
      → Holds (heard bs ∷ items) d.bcs.gateway
      → ((e : StandardDevice S)
          → e.addr ≡ d.addr
          → Holds items e.bcs.gateway
          → Converses Holds (config_reply (read_config gw fuel) mem p) e m left)
      → Converses Holds (read_config gw (suc fuel) mem) d m left
  unfolding read_config
  reads_next fuel mem m bs p items left d e g next =
      Converses-bind Holds (on_sender (read_packet gw)) _ d
        (read_packet-Converses gw Holds line bs p items d e g) next

  read_config-Converses :
      {mem m : Bytes} {bss : List Bytes} (fuel : ℕ) (addr : Addr) (items : List Item)
      (d : StandardDevice S)
      → Loads addr mem bss m
      → length bss ≤ fuel
      → d.addr ≡ addr
      → Holds (heards bss items) d.bcs.gateway
      → Converses Holds (read_config gw fuel mem) d m items
  read_config-Converses {bss = []} fuel addr items d l h i g = elim l [ ]
  read_config-Converses {bss = b ∷ bss} zero addr items d l h i g = ground arith
  read_config-Converses {mem = mem} {m = m} (suc fuel) addr items d
        (foreign {bs = bs} {p = p} e f l) h i g =
      reads_next fuel mem m bs p _ items d e g λ t ta gt.
        Converses-as Holds _ (read_config gw fuel mem) t
          (reply_foreign (read_config gw fuel) mem p t (moved false p t addr (ta ∙ i) f))
          (read_config-Converses fuel addr items t l (omega (arith, h)) (ta ∙ i) gt)
  read_config-Converses {mem = mem} {m = m} (suc fuel) addr items d
        (part {n = n} {bs = bs} {p = p} e f q l) h i g =
      reads_next fuel mem m bs p _ items d e g λ t ta gt.
        Converses-as Holds _ (read_config gw fuel n) t
          (reply_part (read_config gw fuel) mem p t (moved true p t addr (ta ∙ i) f) q)
          (read_config-Converses fuel addr items t l (omega (arith, h)) (ta ∙ i) gt)
  read_config-Converses {mem = mem} {m = m} (suc fuel) addr items d (last {bs = bs} {p = p} e f q) h
        i g =
      reads_next fuel mem m bs p _ items d e g λ t ta gt.
        Converses-as Holds _ (pure m) t
          (reply_last (read_config gw fuel) mem p t (moved true p t addr (ta ∙ i) f) q)
          (Converses-pure Holds m t items gt)

  write_blocks-Converses :
      (left i : ℕ) (pairs : Bytes) (items : List Item) (d : StandardDevice S)
      → Holds (ackeds left items) d.bcs.gateway
      → Converses Holds (write_blocks gw left i pairs) d tt items
  unfolding write_blocks config_write_index
  write_blocks-Converses zero i pairs items d g = Converses-pure Holds tt d items g
  write_blocks-Converses (suc left) i pairs items d g =
      Converses-then Holds (config_write_index gw 0 (block pairs i)) _ d
        (write_config-Converses gw Holds line default_flags (0 ∷ 8 ∷ block pairs i) _ d
          (omega (arith, block_bounded pairs i)) g)
        λ e ea ge. write_blocks-Converses left (i + 1) pairs items e ge

  write_changes-Converses :
      (channel paramlist : ℕ) (pairs : Bytes) (items : List Item) (d : StandardDevice S)
      → Holds (updates pairs items) d.bcs.gateway
      → Converses Holds (write_changes gw channel paramlist pairs) d tt items
  unfolding write_changes config_start config_end
  write_changes-Converses channel paramlist [] items d g = Converses-pure Holds tt d items g
  write_changes-Converses channel paramlist (x ∷ pairs) items d g =
      let all = x ∷ pairs in
      Converses-then Holds (config_start gw channel paramlist) _ d
        (write_config-Converses gw Holds line default_flags _ _ d (omega arith) g)
        λ e ea ge.
          Converses-then Holds (write_blocks gw (blocks (length all)) 0 all) (config_end gw channel)
            e (write_blocks-Converses (blocks (length all)) 0 all _ e ge)
            λ f fa gf. write_config-Converses gw Holds line default_flags _ items f (omega arith) gf

  -- EnsureConfigured on a line where the device sends its configuration, packets of other devices
  -- in between: it succeeds.
  pub ensure_configured-Converses :
      {mem target : Bytes} {bss : List Bytes} (cb : Bytes → Outcome Error Bytes)
      (fuel channel paramlist : ℕ) (addr : Addr) (items : List Item) (d : StandardDevice S)
      → Loads addr (zeros 256) bss mem
      → length bss ≤ fuel
      → cb mem ≡ ok target
      → d.addr ≡ addr
      → Holds (acked ∷ heards bss (updates (changes 0 mem target) items)) d.bcs.gateway
      → Converses Holds (ensure_configured gw fuel channel paramlist cb) d tt items
  unfolding ensure_configured load_config config_param_req
  ensure_configured-Converses {mem = mem} {target = target} cb fuel channel paramlist addr items d l
        h c i g =
      Converses-bind Holds (load_config gw fuel (zeros 256) channel paramlist) _ d
        (Converses-then Holds (config_param_req gw channel paramlist) _ d
          (write_config-Converses gw Holds line _ _ _ d (omega arith) g)
          λ e ea ge. read_config-Converses fuel addr _ e l h (ea ∙ i) ge)
        λ e ea ge.
          Converses-bind Holds (lift (cb mem)) _ e (lift-Converses (cb mem) target _ e c ge)
            λ f fa gf. write_changes-Converses channel paramlist (changes 0 mem target) items f gf
