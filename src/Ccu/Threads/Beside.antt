-- ===== src/Ccu/Threads/Beside.antt =====
-- The central of the threads beside one that whole steps have reached.
use hmgo.Prelude.{ℕ, ◌≡◌, refl, sym, ap, ◌∙◌, arith, false, Option, Bytes, ◌==◌}
use hmgo.Prelude.{Bool-cases, inl, inr, subst, if◌then◌else◌, ==-self}
use hmgo.Effect.{Outcome, ok, fail, panic, stuck, continue}
use hmgo.Fault.{Error}
use hmgo.Uartgw.Packet.{Packet, Addr, Uartgw}
use hmgo.Bidcos.{Sender, write_packet}
use hmgo.Bidcos.Radio.{uartgw}
use hmgo.Ccu.Devices.{Event, Ccu}
use hmgo.Ccu.Threads.{
  level_packet, Handler, gone, waiting, sending, confirming, leaving, Holder, free, main, handler,
  System, update, with_bcs, when_sent, sends, confirms, process, asks_peering,
}
use hmgo.Ccu.Threads.Apart.{process-IsApart, process_bcs}
use hmgo.Ccu.Threads.Whole.{Turn, turn_of, write_packet_pieces, Whole, switched}

pub update_self : (hs : ℕ → Handler) (i : ℕ) (h : Handler) → update hs i h i ≡ h
update_self hs i h = ap (λ b. if b then h else hs i) (==-self i)

module _ (checksum : Bytes → ℕ) (marshal : Event → Option Bytes) (addr : Addr) where
  -- The central of the threads, beside one that whole steps have reached: a handler that awaits its
  -- answer is ahead.
  abbrev pub At : Handler → Ccu → Ccu → Type 0
  At (confirming state) c a =
      (b : Sender Uartgw) × (sends checksum addr state a.bcs ≡ (ok tt, b)) × (c ≡ with_bcs b a)
  At _ c a = c ≡ a

  abbrev pub Beside : Holder → (ℕ → Handler) → Ccu → Ccu → Type 0
  Beside (handler i) hs c a = At (hs i) c a
  Beside _ hs c a = c ≡ a

  pub record IsSerial (c : Ccu) (s : System) : Type 0 where
    pub reached : Ccu
    pub whole : Whole checksum marshal addr c reached (turn_of s.loop)
    pub beside : Beside s.read_mu s.handlers s.central reached

  -- The thread that holds readMu, when another one changes.
  pub request_keeps :
      (m : Holder) (hs : ℕ → Handler) (i state : ℕ) (c a : Ccu)
      → hs i ≡ gone
      → Beside m hs c a
      → Beside m (update hs i (waiting state)) c a
  request_keeps free hs i state c a e x = x
  request_keeps main hs i state c a e x = x
  request_keeps (handler j) hs i state c a e x = elim (Bool-cases (i == j)) [
    | inl hit ↦
        let same : i ≡ j = ground arith in
        subst (λ h. At h c a) (sym (ap (λ b. if b then waiting state else hs j) hit))
          (subst (λ h. At h c a) e (subst (λ k. At (hs k) c a) (sym same) x))
    | inr miss ↦ subst (λ h. At h c a) (sym (ap (λ b. if b then waiting state else hs j) miss)) x
  ]

  -- LevelSet after its first half.
  pub after_sending :
      (state : ℕ) (b : Sender Uartgw) {o : Outcome Error (Unit {0})} {d : Sender Uartgw}
      → sends checksum addr state b ≡ (o, d)
      → write_packet (uartgw checksum) (level_packet addr state) b
        ≡ continue o d (λ _. confirms checksum)
  after_sending state b e =
      write_packet_pieces checksum addr state b
      ∙ ap (λ r. continue r.0 r.1 (λ _. confirms checksum)) e

  pub record Advances (c : Ccu) (t : Turn) (h : Handler) (now : Ccu) : Type 0 where
    pub reached : Ccu
    pub whole : Whole checksum marshal addr c reached t
    pub at : At h now reached

  -- A LevelSet that has failed is a whole step.
  failed :
      (c a : Ccu) (t : Turn) (state : ℕ) (d : Sender Uartgw)
      → Whole checksum marshal addr c a t
      → (write_packet (uartgw checksum) (level_packet addr state) a.bcs).1 ≡ d
      → Advances c t leaving (with_bcs d a)
  failed c a t state d w e = record {
    reached = _;
    whole = switched state w;
    at = ap (λ b. with_bcs b a) (sym e);
  }

  pub sent :
      (c a : Ccu) (t : Turn) (state : ℕ) (o : Outcome Error (Unit {0})) (d : Sender Uartgw)
      → Whole checksum marshal addr c a t
      → sends checksum addr state a.bcs ≡ (o, d)
      → Advances c t (when_sent state o) (with_bcs d a)
  sent c a t state (ok x) d w e = record { reached = a; whole = w; at = (d, e, refl) }
  sent c a t state (fail x) d w e =
      failed c a t state d w (ap (λ r. r.1) (after_sending state a.bcs e))
  sent c a t state panic d w e =
      failed c a t state d w (ap (λ r. r.1) (after_sending state a.bcs e))
  sent c a t state stuck d w e =
      failed c a t state d w (ap (λ r. r.1) (after_sending state a.bcs e))

  event_same :
      (c a : Ccu) (o : Outcome Error Packet)
      → c ≡ a
      → ((process checksum marshal o c).0 ≡ (process checksum marshal o a).0)
        × ((process checksum marshal o c).1 ≡ (process checksum marshal o a).1)
  event_same c a o e =
      (ap (λ z. (process checksum marshal o z).0) e, ap (λ z. (process checksum marshal o z).1) e)

  -- The loop handles an event, whoever holds readMu.
  event_keeps :
      (h : Handler) (c a : Ccu) (o : Outcome Error Packet)
      → asks_peering o ≡ false
      → At h c a
      → ((process checksum marshal o c).0 ≡ (process checksum marshal o a).0)
        × At h (process checksum marshal o c).1 (process checksum marshal o a).1
  event_keeps gone c a o n e = event_same c a o e
  event_keeps (waiting state) c a o n e = event_same c a o e
  event_keeps (sending state) c a o n e = event_same c a o e
  event_keeps leaving c a o n e = event_same c a o e
  event_keeps (confirming state) c a o n (b, f, e) =
      let x = ap (process checksum marshal o) e ∙ process-IsApart checksum marshal o n b a in
      (
        ap (λ r. r.0) x,
        (
          b,
          ap (sends checksum addr state) (process_bcs checksum marshal o a n) ∙ f,
          ap (λ r. r.1) x,
        ),
      )

  pub event_stays :
      (m : Holder) (hs : ℕ → Handler) (c a : Ccu) (o : Outcome Error Packet)
      → asks_peering o ≡ false
      → Beside m hs c a
      → ((process checksum marshal o c).0 ≡ (process checksum marshal o a).0)
        × Beside m hs (process checksum marshal o c).1 (process checksum marshal o a).1
  event_stays free hs c a o n e = event_same c a o e
  event_stays main hs c a o n e = event_same c a o e
  event_stays (handler i) hs c a o n e = event_keeps (hs i) c a o n e
