-- ===== src/Hm/Gauges/Faults.antt =====
-- What the gauges of the radiator thermostat say about faults.
use hmgo.Prelude.{
  ℕ, ◌+◌, ◌/◌, ◌%◌, ◌^◌, bit_or, ◌≡◌, ◌≤◌, refl, arith, List, [], ◌∷◌, map, Bool, true, false, ap,
  ◌∙◌, All, ◌&&◌, Option, none, some, Bytes, codes,
}
use hmgo.Prelude.{equal, equal_iff, ◌==◌, if◌then◌else◌}
use hmgo.Hm.Gauges.{
  Gauge, Registry, equal_labels, equal_gauge, value_of, set_all, fault_gauge, radiator_gauges,
}
use hmgo.Effect.{ok}
use hmgo.Hm.Heating.{InfoEvent, Thermostat, decode_info_event}

-- The numerator of a gauge that was set.
abbrev pub level : Option (ℕ × ℕ) → ℕ
level none = 0
level (some v) = v.0

abbrev pub faults : Bytes → Bytes → Registry → List ℕ
faults name address r =
    map (λ fault. level (value_of (fault_gauge name address fault) r))
      (codes "valvetight"
        ∷ codes "adjustingrangetoolarge"
        ∷ codes "adjustingrangetoosmall"
        ∷ codes "communicationerror"
        ∷ codes "lowbat"
        ∷ codes "valveerrorposition"
        ∷ [])

-- 1 at the place of the fault, in the order of the numbers of `FaultReporting`.
abbrev pub flags : ℕ → List ℕ
flags fault = map (λ k. if fault == k then 1 else 0) (1 ∷ 2 ∷ 3 ∷ 4 ∷ 6 ∷ 7 ∷ [])

abbrev pub total : List ℕ → ℕ
total [] = 0
total (x ∷ xs) = x + total xs

and_false : (x y z w : Bool) → w ≡ false → (x && y && z && w) ≡ false
and_false x y z w e = rw e (ends x y z)
  where
    ends : (x y z : Bool) → (x && y && z && false) ≡ false
    ends false y z = refl
    ends true false z = refl
    ends true true false = refl
    ends true true true = refl

other_device :
    (h g : Gauge) (v : ℕ × ℕ) (r : Registry)
    → equal h.address g.address ≡ false
    → value_of g ((h, v) ∷ r) ≡ value_of g r
unfolding value_of equal_gauge
other_device h g v r e =
    rw (and_false (equal h.metric g.metric) (equal_labels h.more g.more) (equal h.name g.name) _ e)
      refl

-- Settings of one device.
abbrev IsOf : Bytes → Gauge × (ℕ × ℕ) → Type 0
IsOf address s = s.0.address ≡ address

others_keep :
    (address : Bytes) (ss : Registry) (g : Gauge) (r : Registry)
    → All (IsOf address) ss
    → equal address g.address ≡ false
    → value_of g (set_all ss r) ≡ value_of g r
others_keep address [] g r h e = refl
others_keep address ((k, v) ∷ ss) g r (h, hs) e =
    others_keep address ss g ((k, v) ∷ r) hs e
    ∙ other_device k g v r (ap (λ a. equal a g.address) h ∙ e)

fault_levels :
    (name address : Bytes) (ie : InfoEvent) (r : Registry)
    → faults name address (set_all (radiator_gauges name address ie) r) ≡ flags ie.fault
unfolding value_of
fault_levels name address ie r =
    rw ((equal_iff name name).1 refl, (equal_iff address address).1 refl) refl

-- The event of six bytes.
abbrev radiator_event : ℕ → ℕ → ℕ → ℕ → ℕ → ℕ → InfoEvent
radiator_event b0 b1 b2 b3 b4 b5 = record {
  set_temperature = b1 / 2 ^ 2 % 2 ^ 6;
  actual_temperature = bit_or (b1 % 2 ^ 2) b2;
  fault = b3 / 2 ^ 5 % 2 ^ 3;
  battery_state = b3 % 2 ^ 5 + 15;
  valve_state = b4 % 2 ^ 7;
  control = b5 / 2 ^ 6 % 2 ^ 2;
  boost_state = b5 % 2 ^ 6;
}

one_flag : (k : ℕ) → total (flags k) ≤ 1
one_flag k = ground arith

-- DecodeInfoEvent of the radiator thermostat decodes six bytes, and sets the gauges so, whatever they
-- were before, that the one of the fault in the highest three bits of the fourth byte is 1 and those
-- of the other faults are 0: no two are 1 at a time, and none is for NoFault and for the number 5,
-- which stands for no fault. The gauges of devices with another address are as they were.
pub radiator_gauges_faults :
    {S : Type 0} (b0 b1 b2 b3 b4 b5 : ℕ) (t : Thermostat S) (name address : Bytes) (r : Registry)
    (other : Gauge)
    → equal address other.address ≡ false
    → (ie : InfoEvent) × (decode_info_event (b0 ∷ b1 ∷ b2 ∷ b3 ∷ b4 ∷ b5 ∷ []) t
        ≡ (ok ie, record t { latest_info_event = some ie }))
      × (faults name address (set_all (radiator_gauges name address ie) r)
          ≡ flags (b3 / 2 ^ 5 % 2 ^ 3))
      × (total (faults name address (set_all (radiator_gauges name address ie) r)) ≤ 1)
      × (value_of other (set_all (radiator_gauges name address ie) r) ≡ value_of other r)
unfolding decode_info_event
radiator_gauges_faults b0 b1 b2 b3 b4 b5 t name address r other e =
    let ie = radiator_event b0 b1 b2 b3 b4 b5 in
    let levels = fault_levels name address ie r in
    (
      ie,
      refl,
      levels,
      omega (arith, ap total levels, one_flag ie.fault),
      others_keep address (radiator_gauges name address ie) other r
          (
            refl,
            (
              refl,
              (
                refl,
                (
                  refl,
                  (
                    refl,
                    (refl, (refl, (refl, (refl, (refl, (refl, (refl, (refl, (refl, tt))))))))),
                  ),
                ),
              ),
            ),
          )
          e,
    )
