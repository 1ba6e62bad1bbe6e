-- ===== src/Ccu/Threads/Serial.antt =====
-- What the threads do in pieces is what whole steps do in some order.
use hmgo.Prelude.{ℕ, ◌≡◌, refl, sym, ap, ◌∙◌, Bool, false, Option, Bytes}
use hmgo.Prelude.{subst}
use hmgo.Uartgw.Packet.{Addr, read_packet}
use hmgo.Ccu.Devices.{Event, Ccu, on_gateway}
use hmgo.Ccu.Threads.{
  Handler, sending, confirming, leaving, Loop, selecting, locking, free, System, update, with_bcs,
  next, when_sent, sends, confirms, Move, requested, enters, writes, reads_answer, leaves, no_tick,
  tick, time_set, locks, reads, unlocks, handles, Reach, begins, later,
}
use hmgo.Ccu.Threads.Exclusion.{IsInside, IsReading, Held, reach-Held}
use hmgo.Ccu.Threads.Whole.{got, turn_of, Whole, opens, switched, received, handled}
use hmgo.Ccu.Threads.Beside.{
  update_self, At, Beside, IsSerial, Advances, request_keeps, after_sending, sent, event_stays,
}

module _ (checksum : Bytes → ℕ) (marshal : Event → Option Bytes) (addr : Addr) where
  -- The handler `i` holds readMu.
  mine :
      {c : Ccu} {s : System} (i : ℕ) (h : Handler)
      → IsInside h
      → Held s
      → s.handlers i ≡ h
      → (x : IsSerial checksum marshal addr c s) → At checksum marshal addr h s.central x.reached
  mine {s = s} i h v k e x =
      let holds = k.handlers_hold i (subst IsInside (sym e) v) in
      subst (λ g. At checksum marshal addr g s.central x.reached) e
        (subst (λ m. Beside checksum marshal addr m s.handlers s.central x.reached) holds x.beside)

  -- The handler `i`, which holds readMu, has moved.
  moved :
      {c : Ccu} {s : System} (i : ℕ) (h g : Handler) (now : Ccu)
      → IsInside h
      → Held s
      → s.handlers i ≡ h
      → Advances checksum marshal addr c (turn_of s.loop) g now
      → IsSerial checksum marshal addr c
          (record s { central = now; handlers = update s.handlers i g })
  moved {s = s} i h g now v k e x =
      let holds = k.handlers_hold i (subst IsInside (sym e) v) in
      record {
        reached = x.reached;
        whole = x.whole;
        beside =
            subst (λ m. Beside checksum marshal addr m (update s.handlers i g) now x.reached)
              (sym holds)
              (subst (λ z. At checksum marshal addr z now x.reached)
                (sym (update_self s.handlers i g)) x.at);
      }

  -- The loop goes on within the same turn.
  turns :
      {c : Ccu} {s : System} (l k : Loop)
      → s.loop ≡ k
      → turn_of k ≡ turn_of l
      → IsSerial checksum marshal addr c s
      → IsSerial checksum marshal addr c (record s { loop = l })
  turns l k e f x = record {
    reached = x.reached;
    whole = subst (Whole checksum marshal addr _ x.reached) (ap turn_of e ∙ f) x.whole;
    beside = x.beside;
  }

  move-IsSerial :
      {c : Ccu} {s t : System} {b : Bool}
      → Move checksum marshal addr b s t
      → b ≡ false
      → Held s
      → IsSerial checksum marshal addr c s
      → IsSerial checksum marshal addr c t
  move-IsSerial {s = s} (requested i state e) n k x = record {
    reached = x.reached;
    whole = x.whole;
    beside =
        request_keeps checksum marshal addr s.read_mu s.handlers i state s.central x.reached e
          x.beside;
  }
  move-IsSerial {s = s} (enters i state e f) n k x = record {
    reached = x.reached;
    whole = x.whole;
    beside =
        subst (λ z. At checksum marshal addr z s.central x.reached)
          (sym (update_self s.handlers i (sending state)))
          (subst (λ m. Beside checksum marshal addr m s.handlers s.central x.reached) f x.beside);
  }
  move-IsSerial {c = c} {s = s} (writes i state e) n k x =
      let same = mine i (sending state) tt k e x in
      moved i (sending state) (when_sent state (sends checksum addr state s.central.bcs).0) _ tt k e
        (subst
          (λ z.
            Advances checksum marshal addr c (turn_of s.loop)
              (when_sent state (sends checksum addr state z.bcs).0)
              (with_bcs (sends checksum addr state z.bcs).1 z))
          (sym same) (sent checksum marshal addr c x.reached _ state _ _ x.whole refl))
  move-IsSerial {c = c} {s = s} (reads_answer i state e) n k x =
      let (d, f, g) = mine i (confirming state) tt k e x in
      moved i (confirming state) leaving _ tt k e (record {
        reached = _;
        whole = switched state x.whole;
        at =
            ap (λ z. with_bcs (confirms checksum z.bcs).1 z) g
            ∙ ap (λ z. with_bcs z x.reached)
                (sym (ap (λ r. r.1) (after_sending checksum marshal addr state x.reached.bcs f)));
      })
  move-IsSerial {s = s} (leaves i e) n k x = record {
    reached = x.reached;
    whole = x.whole;
    beside = mine i leaving tt k e x;
  }
  move-IsSerial (no_tick e) n k x = turns locking selecting e refl x
  move-IsSerial (tick now e) n k x = cc
  move-IsSerial (time_set e) n k x = cc
  move-IsSerial {s = s} (locks e f) n k x = record {
    reached = x.reached;
    whole = subst (Whole checksum marshal addr _ x.reached) (ap turn_of e) x.whole;
    beside = subst (λ m. Beside checksum marshal addr m s.handlers s.central x.reached) f x.beside;
  }
  move-IsSerial {c = c} {s = s} (reads e) n k x =
      let holds = k.loop_holds (subst IsReading (sym e) tt) in
      let same =
        subst (λ m. Beside checksum marshal addr m s.handlers s.central x.reached) holds x.beside in
      let now = (on_gateway (read_packet checksum) s.central).1 in
      record {
        reached = now;
        whole =
            subst
              (λ z.
                Whole checksum marshal addr c (on_gateway (read_packet checksum) z).1
                  (got (read_packet checksum z.bcs.gateway).0))
              (sym same)
              (received (subst (Whole checksum marshal addr c x.reached) (ap turn_of e) x.whole));
        beside = subst (λ m. Beside checksum marshal addr m s.handlers now now) (sym holds) refl;
      }
  move-IsSerial {s = s} (unlocks o e) n k x =
      let holds = k.loop_holds (subst IsReading (sym e) tt) in
      record {
        reached = x.reached;
        whole = subst (Whole checksum marshal addr _ x.reached) (ap turn_of e) x.whole;
        beside =
            subst (λ m. Beside checksum marshal addr m s.handlers s.central x.reached) holds
              x.beside;
      }
  move-IsSerial {c = c} {s = s} (handles o e) n k x =
      let (f, g) =
        event_stays checksum marshal addr s.read_mu s.handlers s.central x.reached o n x.beside in
      record {
        reached = _;
        whole =
            subst (Whole checksum marshal addr c _) (ap (λ r. turn_of (next selecting r)) (sym f))
              (handled o (subst (Whole checksum marshal addr c x.reached) (ap turn_of e) x.whole));
        beside = g;
      }

  reach-IsSerial :
      {c : Ccu} {s : System}
      → Reach checksum marshal addr (λ b. b ≡ false) c s
      → IsSerial checksum marshal addr c s
  reach-IsSerial begins = record { reached = _; whole = opens; beside = refl }
  reach-IsSerial (later r n p m) =
      move-IsSerial m p (reach-Held checksum marshal addr r) (reach-IsSerial r)

  -- While the clock does not tick and no device asks to be peered, whenever readMu is free, the
  -- central is what whole steps have made of it in some order: each of the LevelSets of the handlers,
  -- each ReadPacket of the loop and what it does with the packet, one after the other, the last two
  -- in turn. No handler and no ReadPacket has seen another one half done.
  pub threads-Whole :
      (c : Ccu) (s : System)
      → Reach checksum marshal addr (λ b. b ≡ false) c s
      → s.read_mu ≡ free
      → Whole checksum marshal addr c s.central (turn_of s.loop)
  threads-Whole c s r e =
      let x = reach-IsSerial r in
      let same =
        subst (λ m. Beside checksum marshal addr m s.handlers s.central x.reached) e x.beside in
      subst (λ z. Whole checksum marshal addr c z (turn_of s.loop)) (sym same) x.whole
