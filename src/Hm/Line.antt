-- ===== src/Hm/Line.antt =====
-- What a conversation with a device relies on: a gateway that acknowledges each packet it is given,
-- and that hands out the radio packets in between.
pub mod Configuring
pub mod Peers
pub mod Serial
use hmgo.Prelude.{ℕ, suc, ◌+◌, ◌%◌, ◌≤◌, ◌≡◌, refl, sym, ap, ◌∙◌, arith, List, [], ◌∷◌, ◌++◌, map}
use hmgo.Prelude.{Bytes, length, Option, none, some}
use hmgo.Effect.{Outcome, ok, Effect, continue, ◌>>=◌, ◌>>◌}
use hmgo.Fault.{Error}
use hmgo.Bidcos.{Packet, Gateway, Sender, encode, decode, read_packet}
use hmgo.Bidcos.Radio.{read_packet_step, write_packet_step}
use hmgo.Hm.{StandardDevice, count, config_packet, write_config, on_sender}

-- What comes in: the acknowledgement of a packet, or the bytes of a radio packet.
pub data Item : Type 0 where
  acked : Item
  heard : Bytes → Item

module _ {S : Type 0} (gw : Gateway S) (Holds : List Item → S → Type 0) where
  pub record Told (bs : Bytes) (items : List Item) (s : S) : Type 0 where
    pub between : S
    pub later : S
    pub writes : gw.write bs s ≡ (ok tt, between)
    pub confirms : gw.confirm between ≡ (ok tt, later)
    pub holds : Holds items later

  pub record Heard (bs : Bytes) (items : List Item) (s : S) : Type 0 where
    pub later : S
    pub reads : gw.read 29 s ≡ (ok bs, later)
    pub holds : Holds items later

  -- The laws of the interface, for what is still to come.
  pub record IsLine : Type 0 where
    pub tells :
        (bs : Bytes) (items : List Item) (s : S)
        → length bs ≤ 1012
        → Holds (acked ∷ items) s
        → Told bs items s
    pub hears :
        (bs : Bytes) (items : List Item) (s : S) → Holds (heard bs ∷ items) s → Heard bs items s

-- An action succeeds on a device with the result `a`, and these items are left.
pub record Converses {S A : Type 0} (Holds : List Item → S → Type 0)
    (m : Effect (StandardDevice S) Error A) (d : StandardDevice S) (a : A) (items : List Item)
    : Type 0 where
  pub later : StandardDevice S
  pub runs : m d ≡ (ok a, later)
  pub holds : Holds items later.bcs.gateway
  pub addr_is : later.addr ≡ d.addr

module _ {S : Type 0} (Holds : List Item → S → Type 0) where
  pub Converses-pure :
      {A : Type 0} (a : A) (d : StandardDevice S) (items : List Item)
      → Holds items d.bcs.gateway
      → Converses Holds (λ e. (ok a, e)) d a items
  Converses-pure a d items h = record { later = d; runs = refl; holds = h; addr_is = refl }

  -- An action that does what another does.
  pub Converses-as :
      {A : Type 0} (m k : Effect (StandardDevice S) Error A) (d : StandardDevice S) {a : A}
      {items : List Item}
      → m d ≡ k d
      → Converses Holds k d a items
      → Converses Holds m d a items
  Converses-as m k d e x = record {
    later = x.later;
    runs = e ∙ x.runs;
    holds = x.holds;
    addr_is = x.addr_is;
  }

  pub Converses-bind :
      {A B : Type 0} (m : Effect (StandardDevice S) Error A)
      (f : A → Effect (StandardDevice S) Error B) (d : StandardDevice S) {a : A} {b : B}
      {mid items : List Item}
      → Converses Holds m d a mid
      → ((e : StandardDevice S)
          → e.addr ≡ d.addr
          → Holds mid e.bcs.gateway
          → Converses Holds (f a) e b items)
      → Converses Holds (m >>= f) d b items
  Converses-bind m f d x k =
      let y = k x.later x.addr_is x.holds in
      record {
        later = y.later;
        runs = ap (λ o. continue o.0 o.1 f) x.runs ∙ y.runs;
        holds = y.holds;
        addr_is = y.addr_is ∙ x.addr_is;
      }

  pub Converses-then :
      {B : Type 0} (m : Effect (StandardDevice S) Error (Unit {0}))
      (k : Effect (StandardDevice S) Error B) (d : StandardDevice S) {b : B} {mid items : List Item}
      → Converses Holds m d tt mid
      → ((e : StandardDevice S)
          → e.addr ≡ d.addr
          → Holds mid e.bcs.gateway
          → Converses Holds k e b items)
      → Converses Holds (m >> k) d b items
  Converses-then m k d x next = Converses-bind m (λ _. k) d x next

module _ {S : Type 0} (gw : Gateway S) (Holds : List Item → S → Type 0)
    (line : IsLine gw Holds) where
  pub write_config-Converses :
      (flags : ℕ) (payload : Bytes) (items : List Item) (d : StandardDevice S)
      → length payload ≤ 1000
      → Holds (acked ∷ items) d.bcs.gateway
      → Converses Holds (write_config gw flags payload) d tt items
  unfolding write_config count
  write_config-Converses flags payload items d h g =
      let pkt = config_packet d.addr flags d.msgcnt payload in
      let bs = (encode (record pkt { source = d.bcs.addr }) d.bcs.counter).0 in
      let size : length bs ≡ 12 + length payload = unfold encode in omega arith in
      let x = line.tells bs items d.bcs.gateway (omega arith) g in
      let runs = write_packet_step gw pkt d.bcs x.between x.later x.writes x.confirms in
      record {
        later = _;
        runs = ap (λ o. (o.0, record d { bcs = o.1; msgcnt = (d.msgcnt + 9) % 256 })) runs;
        holds = x.holds;
        addr_is = refl;
      }

  pub read_packet-Converses :
      (bs : Bytes) (p : Packet) (items : List Item) (d : StandardDevice S)
      → decode bs ≡ ok p
      → Holds (heard bs ∷ items) d.bcs.gateway
      → Converses Holds (on_sender (read_packet gw)) d p items
  read_packet-Converses bs p items d e g =
      let x = line.hears bs items d.bcs.gateway g in
      let runs = read_packet_step gw d.bcs bs x.later x.reads in
      record {
        later = _;
        runs =
            ap (λ o. (o.0, record d { bcs = o.1 })) runs
            ∙ ap (λ z. (z, record d { bcs = record d.bcs { gateway = x.later } })) e;
        holds = x.holds;
        addr_is = refl;
      }
