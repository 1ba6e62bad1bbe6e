-- ===== src/Ccu/Conversing.antt =====
-- The steps of main up to its loop, on the serial line.
use hmgo.Prelude.{ℕ, zero, suc, ◌<◌, ◌≤◌, ◌≡◌, refl, sym, ap, ◌∙◌, arith, List, [], ◌∷◌}
use hmgo.Prelude.{Bytes, length, some, All, get_elem?, set, subst}
use hmgo.Effect.{Outcome, ok, Effect, continue, pure, ◌>>◌}
use hmgo.Fault.{Error}
use hmgo.Uartgw.Command.{app}
use hmgo.Uartgw.Packet.{Addr, Uartgw}
use hmgo.Uartgw.Session.Handshake.{Ready, Reply, Fits}
use hmgo.Uartgw.Traffic.Peers.{acks, add_peer_acknowledged}
use hmgo.Bidcos.Radio.{uartgw}
use hmgo.Hm.{StandardDevice, FullyQualifiedChannel}
use hmgo.Hm.Config.{changes, zeros}
use hmgo.Hm.Configured.{Loads}
use hmgo.Hm.Peered.{Lists}
use hmgo.Hm.Line.{Item, acked, Converses}
use hmgo.Hm.Line.Configuring.{heards, updates, ensure_configured-Converses}
use hmgo.Hm.Line.Peers.{Settles, ensure_peered_with-Converses}
use hmgo.Hm.Line.Serial.{Carries, length-Spells, uartgw-IsLine}
use hmgo.Ccu.Answering.{channels_few}
use hmgo.Ccu.Devices.{standard, with_standard, channels, Device, Ccu, on_found, on_device}
use hmgo.Ccu.Startup.{fuel_of, configure, peer_with, add_peer_of, add_peers}
use hmgo.Ccu.Kept.{Same-with, Kept, Kept-refl, Kept-trans, stored, IsAt}

-- A step of main succeeds, keeps the devices in their places, and leaves a central with `P`.
pub record Goes (m : Effect Ccu Error (Unit {0})) (s : Ccu) (P : Ccu → Type 0) : Type 0 where
  pub later : Ccu
  pub runs : m s ≡ (ok tt, later)
  pub kept : Kept s later
  pub holds : P later

pub Goes-pure : (s : Ccu) {P : Ccu → Type 0} → P s → Goes (pure tt) s P
Goes-pure s h = record { later = s; runs = refl; kept = Kept-refl s; holds = h }

pub Goes-then :
    (m k : Effect Ccu Error (Unit {0})) (s : Ccu) {P Q : Ccu → Type 0}
    → Goes m s P
    → ((t : Ccu) → Kept s t → P t → Goes k t Q)
    → Goes (m >> k) s Q
Goes-then m k s x next =
    let y = next x.later x.kept x.holds in
    record {
      later = y.later;
      runs = ap (λ o. continue o.0 o.1 (λ _. k)) x.runs ∙ y.runs;
      kept = Kept-trans x.kept y.kept;
      holds = y.holds;
    }

-- The five acknowledgements of AddPeer.
pub record Welcome : Type 0 where
  pub first : Reply
  pub second : Reply
  pub third : Reply
  pub fourth : Reply
  pub fifth : Reply

abbrev pub replies_of : Welcome → List Reply
replies_of w = w.first ∷ w.second ∷ w.third ∷ w.fourth ∷ w.fifth ∷ []

-- What a device sends for its configuration, and what becomes of it.
pub record Configures (addr : Addr) (cb : Bytes → Outcome Error Bytes) : Type 0 where
  pub mem : Bytes
  pub target : Bytes
  pub reports : List Bytes
  pub loads : Loads addr (zeros 256) reports mem
  pub target_is : cb mem ≡ ok target

-- What a device sends for its peers, and for the changes of them.
pub record Peers (addr other : Addr) : Type 0 where
  pub peers : List FullyQualifiedChannel
  pub after : List Item → List Item
  pub reports : List Bytes
  pub lists : Lists addr [] reports peers
  pub settles : Settles (record { peer = other; channel = 2 }) peers after

abbrev pub configuring :
    {addr : Addr} {cb : Bytes → Outcome Error Bytes} → Configures addr cb → List Item → List Item
configuring c items = acked ∷ heards c.reports (updates (changes 0 c.mem c.target) items)

abbrev pub peering : {addr other : Addr} → Peers addr other → List Item → List Item
peering c items = acked ∷ heards c.reports (c.after items)

length-heards : (bss : List Bytes) (items : List Item) → length bss ≤ length (heards bss items)
length-heards [] items = omega arith
length-heards (bs ∷ bss) items = omega (arith, length-heards bss items)

module _ (checksum : Bytes → ℕ) (bounded : (bs : Bytes) → checksum bs < 65536) (rest : Bytes)
    (v : List ℕ) (n : Bytes) where
  -- The line of the central carries the items.
  abbrev pub On : List Item → Ccu → Type 0
  On items s = Carries checksum bounded rest v n items s.bcs.gateway

  on_device-Goes :
      (p : ℕ) (d : Device) (m : Effect (StandardDevice Uartgw) Error (Unit {0})) (items : List Item)
      (s : Ccu)
      → get_elem? s.devices p ≡ some d
      → Converses
          (Carries checksum bounded rest v n)
          m
          (record (standard d.model) { bcs = s.bcs })
          tt
          items
      → Goes (on_device p m) s (On items)
  unfolding on_found
  on_device-Goes p d m items s e x = record {
    later = record s {
      bcs = x.later.bcs;
      devices = set s.devices p (record d { model = with_standard x.later d.model });
    };
    runs =
        ap (λ o. on_found o p m s) e
        ∙ ap
            (λ o. (
              o.0,
              record s {
                bcs = o.1.bcs;
                devices = set s.devices p (record d { model = with_standard o.1 d.model });
              },
            ))
            x.runs;
    kept = record {
      by_addr_is = refl;
      by_serial_is = refl;
      requests_is = refl;
      at = stored s.devices p d _ e (Same-with d x.later x.addr_is);
    };
    holds = x.holds;
  }

  -- The bytes on the line are enough fuel.
  enough :
      (bss : List Bytes) (items : List Item) (s : Ccu)
      → On (acked ∷ heards bss items) s
      → length bss ≤ fuel_of checksum s
  enough bss items s g = omega (
    arith,
    length-heards bss items,
    length-Spells checksum bounded rest (acked ∷ heards bss items) g.bytes g.spells,
    ap length g.ready.pending_is,
  )

  -- The device at `p` sends its configuration, and the gateway acknowledges the changes.
  pub configure-Goes :
      (p : ℕ) (cb : Bytes → Outcome Error Bytes) (addr : Addr) (c : Configures addr cb)
      (items : List Item) (s : Ccu)
      → IsAt s p addr
      → On (configuring c items) s
      → Goes (configure checksum p cb) s (On items)
  unfolding configure
  configure-Goes p cb addr c items s (d, e, a) g =
      let x = on_device-Goes p d _ items s e (
        ensure_configured-Converses (uartgw checksum) (Carries checksum bounded rest v n)
          (uartgw-IsLine checksum bounded rest v n) cb (fuel_of checksum s) 0 7 addr items
          (record (standard d.model) { bcs = s.bcs }) c.loads (enough c.reports _ s g) c.target_is a
          g) in
      record { later = x.later; runs = x.runs; kept = x.kept; holds = x.holds }

  -- The device at `p` sends its peers, and accepts the changes.
  pub peer_with-Goes :
      (p : ℕ) (other addr : Addr) (c : Peers addr other) (items : List Item) (s : Ccu)
      → IsAt s p addr
      → On (peering c items) s
      → Goes (peer_with checksum p other) s (On items)
  unfolding peer_with
  peer_with-Goes p other addr c items s (d, e, a) g =
      let x = on_device-Goes p d _ items s e (
        ensure_peered_with-Converses (uartgw checksum) (Carries checksum bounded rest v n)
          (uartgw-IsLine checksum bounded rest v n) (fuel_of checksum s) 2
          (record { peer = other; channel = 2 }) addr items
          (record (standard d.model) { bcs = s.bcs }) c.lists (enough c.reports _ s g) c.settles a
          g) in
      record { later = x.later; runs = x.runs; kept = x.kept; holds = x.holds }

-- The acknowledgements for the entries of a map.
abbrev pub welcomes :
    (checksum : Bytes → ℕ) → ((bs : Bytes) → checksum bs < 65536) → List Welcome → Bytes → Bytes
welcomes checksum bounded [] rest = rest
welcomes checksum bounded (w ∷ ws) rest =
    acks checksum bounded (replies_of w) (welcomes checksum bounded ws rest)

-- One welcome for each entry of a map, whose places are below `count`.
abbrev pub AreWelcome : ℕ → List (Addr × ℕ) → List Welcome → Type 0
AreWelcome count [] [] = Unit {0}
AreWelcome count ((addr, p) ∷ entries) (w ∷ ws) =
    (p < count) × All Fits (replies_of w) × AreWelcome count entries ws
AreWelcome count _ _ = ⊥

get_elem?-some {ℓ} :
    {A : Type ℓ} (xs : List A) (p : ℕ) → p < length xs → (x : A) × (get_elem? xs p ≡ some x)
get_elem?-some [] p h = absurd (omega arith)
get_elem?-some (x ∷ xs) zero h = (x, refl)
get_elem?-some (x ∷ xs) (suc p) h = get_elem?-some xs p (omega arith)

module _ (checksum : Bytes → ℕ) (bounded : (bs : Bytes) → checksum bs < 65536) where
  -- AddPeer for the entries of a map, each of which is acknowledged.
  pub add_peers-Goes :
      (entries : List (Addr × ℕ)) (ws : List Welcome) (rest : Bytes) (v : List ℕ) (n : Bytes)
      (s : Ccu)
      → AreWelcome (length s.devices) entries ws
      → Ready (welcomes checksum bounded ws rest) app v n s.bcs.gateway
      → Goes (add_peers checksum entries) s (λ t. Ready rest app v n t.bcs.gateway)
  unfolding add_peers add_peer_of
  add_peers-Goes [] [] rest v n s h g = Goes-pure s g
  add_peers-Goes [] (w ∷ ws) rest v n s h g = elim h [ ]
  add_peers-Goes ((addr, p) ∷ entries) [] rest v n s h g = elim h [ ]
  add_peers-Goes ((addr, p) ∷ entries) (w ∷ ws) rest v n s (lt, fits, h) g =
      let (d, e) = get_elem?-some s.devices p lt in
      let x =
        add_peer_acknowledged checksum bounded addr (channels d.model) w.first w.second w.third
          w.fourth w.fifth _ v n s.bcs.gateway (channels_few d.model) fits g in
      Goes-then (λ t. add_peer_of checksum addr (get_elem? t.devices p) t)
        (add_peers checksum entries) s
        {P = λ t.
          (t.devices ≡ s.devices) × Ready (welcomes checksum bounded ws rest) app v n t.bcs.gateway}
        (record {
          later = record s { bcs = record s.bcs { gateway = x.later } };
          runs =
              ap (λ o. add_peer_of checksum addr o s) e
              ∙ ap (λ o. (o.0, record s { bcs = record s.bcs { gateway = o.1 } })) x.runs;
          kept = record {
            by_addr_is = refl;
            by_serial_is = refl;
            requests_is = refl;
            at = (Kept-refl s).at;
          };
          holds = (refl, x.holds.ready);
        })
        λ t k (same, ready).
          add_peers-Goes entries ws rest v n t
            (subst (λ ds. AreWelcome (length ds) entries ws) (sym same) h) ready
