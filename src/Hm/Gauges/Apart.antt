-- ===== src/Hm/Gauges/Apart.antt =====
-- The gauges that a device sets are its own.
use hmgo.Prelude.{◌≡◌, refl, sym, ap, ◌∙◌, [], ◌∷◌, Bool, true, false, ◌&&◌, Bytes}
use hmgo.Prelude.{some, equal, equal_iff, All, Bool-cases, inl, inr, if◌then◌else◌}
use hmgo.Uartgw.Packet.{Addr}
use hmgo.Hm.Names.{addr_hex, IsAddr, addr_hex_distinct}
use hmgo.Hm.Power.{PowerEvent}
use hmgo.Hm.Thermal.{WeatherEvent, ThermalControlEvent}
use hmgo.Hm.Thermal
use hmgo.Hm.Heating
use hmgo.Hm.Gauges.{
  Gauge, equal_labels, equal_gauge, Registry, value_of, set_all, power_gauges, weather_gauges,
  thermal_control_gauges, wall_gauges, radiator_gauges,
}

both : (x y : Bool) → (x && y) ≡ true → (x ≡ true) × (y ≡ true)
both true y h = (refl, h)
both false y h = cc

same_address : (g h : Gauge) → equal_gauge g h ≡ true → g.address ≡ h.address
unfolding equal_gauge
same_address g h e =
    let metric = equal g.metric h.metric in
    let labels = equal_labels g.more h.more in
    let (f, address) =
      both (metric && labels && equal g.name h.name) (equal g.address h.address) e in
    (equal_iff g.address h.address).0 address

-- The gauges of a list are labelled with this address.
abbrev AreAt : Bytes → Registry → Type 0
AreAt address l = All (λ x. x.0.address ≡ address) l

unset :
    (h : Gauge) (address : Bytes) (l r : Registry)
    → AreAt address l
    → ¬ (address ≡ h.address)
    → value_of h (set_all l r) ≡ value_of h r
unfolding value_of
unset h address [] r k ne = refl
unset h address ((g, v) ∷ l) r (e, k) ne =
    unset h address l ((g, v) ∷ r) k ne ∙ elim (Bool-cases (equal_gauge g h)) [
      | inl same ↦ absurd (ne (sym e ∙ same_address g h same))
      | inr other ↦ ap (λ b. if b then some v else value_of h r) other
    ]

-- The gauges that the decoders set for a device, whatever the event, do not change those of a device
-- with another address, whatever its name is.
pub gauges_apart :
    (name : Bytes) (a b : Addr) (h : Gauge) (r : Registry)
    → IsAddr a
    → IsAddr b
    → ¬ (a ≡ b)
    → h.address ≡ addr_hex b
    → ((ev : PowerEvent)
        → value_of h (set_all (power_gauges name (addr_hex a) ev) r) ≡ value_of h r)
      × ((ev : WeatherEvent)
          → value_of h (set_all (weather_gauges name (addr_hex a) ev) r) ≡ value_of h r)
      × ((ev : ThermalControlEvent)
          → value_of h (set_all (thermal_control_gauges name (addr_hex a) ev) r) ≡ value_of h r)
      × ((ev : Thermal.InfoEvent)
          → value_of h (set_all (wall_gauges name (addr_hex a) ev) r) ≡ value_of h r)
      × ((ev : Heating.InfoEvent)
          → value_of h (set_all (radiator_gauges name (addr_hex a) ev) r) ≡ value_of h r)
gauges_apart name a b h r ia ib ne hb =
    let other : ¬ (addr_hex a ≡ h.address) = λ e. ne (addr_hex_distinct a b ia ib (e ∙ hb)) in
    (
      λ ev.
          unset h (addr_hex a) (power_gauges name (addr_hex a) ev) r
            (refl, (refl, (refl, (refl, (refl, (refl, tt)))))) other,
      λ ev. unset h (addr_hex a) (weather_gauges name (addr_hex a) ev) r (refl, (refl, tt)) other,
      λ ev.
          unset h (addr_hex a) (thermal_control_gauges name (addr_hex a) ev) r
            (refl, (refl, (refl, tt))) other,
      λ ev.
          unset h (addr_hex a) (wall_gauges name (addr_hex a) ev) r
            (refl, (refl, (refl, (refl, (refl, (refl, (refl, (refl, tt)))))))) other,
      λ ev.
          unset h (addr_hex a) (radiator_gauges name (addr_hex a) ev) r
            (
              refl,
              (
                refl,
                (
                  refl,
                  (
                    refl,
                    (
                      refl,
                      (refl, (refl, (refl, (refl, (refl, (refl, (refl, (refl, (refl, tt))))))))),
                    ),
                  ),
                ),
              ),
            )
            other,
    )
