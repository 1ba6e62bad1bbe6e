-- ===== src/Ccu/Threads/Exclusion.antt =====
-- readMu keeps the handlers and ReadPacket of the main loop apart.
use hmgo.Prelude.{ℕ, ◌≡◌, refl, sym, ap, ◌∙◌, arith, Bool, false, Option, Bytes, ◌==◌}
use hmgo.Prelude.{Bool-cases, inl, inr, subst, if◌then◌else◌}
use hmgo.Effect.{Outcome, ok, fail, panic, stuck}
use hmgo.Fault.{Error}
use hmgo.Uartgw.Packet.{Addr}
use hmgo.Ccu.Devices.{Event, Ccu}
use hmgo.Ccu.Threads.{
  Handler, gone, waiting, sending, confirming, leaving, Loop, selecting, setting_time, locking,
  reading, unlocking, Holder, free, main, handler, System, update, next, Move, requested, enters,
  writes, reads_answer, leaves, no_tick, tick, time_set, locks, reads, unlocks, handles, Reach,
  begins, later,
}

-- A thread between `readMu.Lock()` and `readMu.Unlock()`.
abbrev pub IsInside : Handler → Type 0
IsInside (sending state) = Unit {0}
IsInside (confirming state) = Unit {0}
IsInside leaving = Unit {0}
IsInside _ = ⊥

abbrev pub IsReading : Loop → Type 0
IsReading reading = Unit {0}
IsReading (unlocking o) = Unit {0}
IsReading _ = ⊥

-- Who is inside holds readMu.
pub record Held (s : System) : Type 0 where
  pub handlers_hold : (i : ℕ) → IsInside (s.handlers i) → s.read_mu ≡ handler i
  pub loop_holds : IsReading s.loop → s.read_mu ≡ main

abbrev handler_of : Holder → ℕ
handler_of (handler i) = i
handler_of _ = 0

-- One handler changes, and the others are outside or keep what they have.
changed :
    (hs : ℕ → Handler) (i : ℕ) (h : Handler) (m n : Holder)
    → ((j : ℕ) → IsInside (hs j) → m ≡ handler j)
    → (IsInside h → n ≡ handler i)
    → ((j : ℕ) → m ≡ handler j → (i == j) ≡ false → n ≡ handler j)
    → (j : ℕ) → IsInside (update hs i h j)
    → n ≡ handler j
changed hs i h m n old here there j w = elim (Bool-cases (i == j)) [
  | inl hit ↦
      let e : i ≡ j = ground arith in
      subst (λ k. n ≡ handler k) e (here (subst IsInside (ap (λ b. if b then h else hs j) hit) w))
  | inr miss ↦ there j (old j (subst IsInside (ap (λ b. if b then h else hs j) miss) w)) miss
]

module _ (checksum : Bytes → ℕ) (marshal : Event → Option Bytes) (addr : Addr) where
  -- A move of a handler that is inside and stays so.
  stays :
      (s : System) (i : ℕ) (g h : Handler) (c : Ccu)
      → Held s
      → s.handlers i ≡ g
      → IsInside g
      → Held (record s { central = c; handlers = update s.handlers i h })
  stays s i g h c k e w = record {
    handlers_hold =
        changed s.handlers i h s.read_mu s.read_mu k.handlers_hold
          (λ v. k.handlers_hold i (subst IsInside (sym e) w)) (λ j f m. f);
    loop_holds = k.loop_holds;
  }

  -- A move of the loop that does not enter.
  passes :
      (s : System) (c : Ccu) (l : Loop)
      → Held s
      → (IsReading l → IsReading s.loop)
      → Held (record s { central = c; loop = l })
  passes s c l k f = record {
    handlers_hold = k.handlers_hold;
    loop_holds = λ w. k.loop_holds (f w);
  }

  next_outside : (l : Loop) (o : Outcome Error (Unit {0})) → ¬ IsReading l → ¬ IsReading (next l o)
  next_outside l (ok x) h w = h w
  next_outside l (fail e) h w = w
  next_outside l panic h w = w
  next_outside l stuck h w = w

  move-Held : {s t : System} {b : Bool} → Move checksum marshal addr b s t → Held s → Held t
  move-Held {s = s} (requested i state e) k = record {
    handlers_hold =
        changed s.handlers i (waiting state) s.read_mu s.read_mu k.handlers_hold (λ v. elim v [ ])
          (λ j f m. f);
    loop_holds = k.loop_holds;
  }
  move-Held {s = s} (enters i state e f) k = record {
    handlers_hold =
        changed s.handlers i (sending state) s.read_mu (handler i) k.handlers_hold (λ v. refl)
          (λ j g m. cc);
    loop_holds = λ w. let g = k.loop_holds w in cc;
  }
  move-Held {s = s} (writes i state e) k = stays s i (sending state) _ _ k e tt
  move-Held {s = s} (reads_answer i state e) k = stays s i (confirming state) leaving _ k e tt
  move-Held {s = s} (leaves i e) k =
      let mine = k.handlers_hold i (subst IsInside (sym e) tt) in
      record {
        handlers_hold =
            changed s.handlers i gone s.read_mu free k.handlers_hold (λ v. elim v [ ])
              (λ j g m. let x : i ≡ j = ap handler_of (sym mine ∙ g) in ground arith);
        loop_holds = λ w. let g = k.loop_holds w in cc;
      }
  move-Held {s = s} (no_tick e) k = passes s s.central locking k (λ w. elim w [ ])
  move-Held {s = s} (tick now e) k =
      passes s _ _ k (λ w. absurd (next_outside setting_time _ (λ v. v) w))
  move-Held {s = s} (time_set e) k =
      passes s _ _ k (λ w. absurd (next_outside locking _ (λ v. v) w))
  move-Held {s = s} (locks e f) k = record {
    handlers_hold = λ i w. let g = k.handlers_hold i w in cc;
    loop_holds = λ w. refl;
  }
  move-Held {s = s} (reads e) k = passes s _ _ k (λ w. subst IsReading (sym e) tt)
  move-Held {s = s} (unlocks o e) k =
      let mine = k.loop_holds (subst IsReading (sym e) tt) in
      record {
        handlers_hold = λ i w. let g = k.handlers_hold i w in cc;
        loop_holds = λ w. elim w [ ];
      }
  move-Held {s = s} (handles o e) k =
      passes s _ _ k (λ w. absurd (next_outside selecting _ (λ v. v) w))

  pub reach-Held :
      {P : Bool → Type 0} {c : Ccu} {s : System} → Reach checksum marshal addr P c s → Held s
  reach-Held begins = record { handlers_hold = λ i w. elim w [ ]; loop_holds = λ w. elim w [ ] }
  reach-Held (later r n p m) = move-Held m (reach-Held r)

  -- Whatever the threads do, with peering requests and the hourly clock, at most one of them is
  -- between locking and unlocking readMu: two handlers that are inside are the same, and none is
  -- inside while the main loop is.
  pub read_mu_excludes :
      (P : Bool → Type 0) (c : Ccu) (s : System)
      → Reach checksum marshal addr P c s
      → ((i j : ℕ) → IsInside (s.handlers i) → IsInside (s.handlers j) → i ≡ j)
        × ((i : ℕ) → IsInside (s.handlers i) → ¬ IsReading s.loop)
  read_mu_excludes P c s r =
      let k = reach-Held r in
      (
        λ i j v w. ap handler_of (sym (k.handlers_hold i v) ∙ k.handlers_hold j w),
        λ i v w. let a = k.handlers_hold i v in let b = k.loop_holds w in cc,
      )
