-- ===== src/Ccu/Shown.antt =====
-- What a device shows after packets from its own address, by the numbers of the commands of
-- internal/bidcos/bidcos.go, with neither the `switch` nor the maps of ccu.go.
use hmgo.Prelude.{
  ℕ, zero, suc, ◌<◌, ◌≡◌, refl, sym, ap, ◌∙◌, arith, List, [], ◌∷◌, Bool, true, false,
}
use hmgo.Prelude.{Option, none, some, Bytes, get_elem?, ◌==◌, ◌||◌, ◌&&◌, equal, equal_iff, subst}
use hmgo.Prelude.{Bool-cases, inl, inr, if◌then◌else◌}
use hmgo.Effect.{Outcome, ok, fail, panic, stuck}
use hmgo.Fault.{Error}
use hmgo.Uartgw.Packet.{Addr, addr_bytes, Uartgw}
use hmgo.Bidcos.{Packet, Sender}
use hmgo.Hm.Power.{decode_power_event}
use hmgo.Hm.Thermal.{decode_weather_event, decode_thermal_control_event}
use hmgo.Hm.Thermal
use hmgo.Hm.Heating
use hmgo.Ccu.Devices.{Model, power, thermal, heating, standard, Device, Event, Ccu, find_addr}
use hmgo.Ccu.Dispatch.{
  decoded, weather_case, thermal_control_case, power_case, info_case, event_case,
}
use hmgo.Ccu.House.{fresh, devices_of, by_addr_map}
use hmgo.Ccu.Kept.{Kept}
use hmgo.Ccu.Observed.{comes_from, shown, observed, on_model, After}

-- A power switch listens to 0x5e and 0x5f, a wall thermostat to 0x70, 0x5a and 0x10, and a radiator
-- thermostat to 0x10; whether or not the decoder fails, the device is as the decoder leaves it.
unfoldable pub after_event : ℕ → Bytes → Model → Model
after_event cmd payload (power ps) =
    if cmd == 0x5e || cmd == 0x5f then power (decode_power_event payload ps).1 else power ps
after_event cmd payload (thermal tc) =
    if cmd == 0x70
    then thermal (decode_weather_event payload tc).1
    else if cmd == 0x5a
    then thermal (decode_thermal_control_event payload tc).1
    else if cmd == 0x10
    then thermal (Thermal.decode_info_event payload tc).1
    else thermal tc
after_event cmd payload (heating t) =
    if cmd == 0x10 then heating (Heating.decode_info_event payload t).1 else heating t

-- The device of the address `addr` after the packets, of which only those from `addr` count.
unfoldable pub remembered : Addr → List Packet → Model → Model
remembered addr [] m = m
remembered addr (pkt ∷ pkts) m = remembered addr pkts (
    if equal (addr_bytes addr) (addr_bytes pkt.source)
    then after_event pkt.cmd pkt.payload m
    else m)

abbrev pub after_packets : List Packet → Option Device → Option Device
after_packets pkts none = none
after_packets pkts (some d) =
    some (record d { model = remembered (standard d.model).addr pkts d.model })

-- The central `t` after the packets of a history, from `s`: the maps are the same, and each of the
-- nine devices shows what the packets from its own address make of it.
pub record Shows (pkts : List Packet) (s t : Ccu) : Type 0 where
  pub by_addr_is : t.by_addr ≡ s.by_addr
  pub by_serial_is : t.by_serial ≡ s.by_serial
  pub at : (q : ℕ) → q < 9 → get_elem? t.devices q ≡ after_packets pkts (get_elem? s.devices q)

decoded_model :
    {E T : Type 0} (model : T → Model) (event : E → Event) (name : Bytes) (o : Outcome Error E × T)
    → (decoded model event name o).0 ≡ model o.1
unfolding decoded
decoded_model model event name (ok e, t) = refl
decoded_model model event name (fail e, t) = refl
decoded_model model event name (panic, t) = refl
decoded_model model event name (stuck, t) = refl

event_case-after_event :
    (cmd : ℕ) (payload : Bytes) (m : Model)
    → (event_case cmd payload m).0 ≡ after_event cmd payload m
unfolding event_case weather_case thermal_control_case power_case info_case after_event
event_case-after_event cmd payload (power ps) = ground (arith, decoded_model power)
event_case-after_event cmd payload (thermal tc) = ground (arith, decoded_model thermal)
event_case-after_event cmd payload (heating t) = ground (arith, decoded_model heating)

-- Every entry that leads to `q` is for the address.
abbrev leads_only : List (Addr × ℕ) → ℕ → Addr → Bool
leads_only [] q addr = true
leads_only ((a, p) ∷ entries) q addr =
    if p == q
    then equal (addr_bytes a) (addr_bytes addr) && leads_only entries q addr
    else leads_only entries q addr

found_elsewhere :
    (entries : List (Addr × ℕ)) (q : ℕ) (addr source : Addr)
    → leads_only entries q addr ≡ true
    → equal (addr_bytes addr) (addr_bytes source) ≡ false
    → comes_from (find_addr entries source) q ≡ false
unfolding find_addr
found_elsewhere [] q addr source h e = refl
found_elsewhere ((a, p) ∷ entries) q addr source h e =
    let rest = found_elsewhere entries q addr source in
    ground (arith, equal_iff (addr_bytes a) (addr_bytes addr), rest)

find_addr-equal :
    (entries : List (Addr × ℕ)) (addr source : Addr)
    → equal (addr_bytes addr) (addr_bytes source) ≡ true
    → find_addr entries source ≡ find_addr entries addr
unfolding find_addr
find_addr-equal [] addr source e = refl
find_addr-equal ((a, p) ∷ entries) addr source e =
    let same = (equal_iff (addr_bytes addr) (addr_bytes source)).0 e in
    ap (λ bs. if equal (addr_bytes a) bs then some p else find_addr entries source) (sym same)
    ∙ ap (λ o. if equal (addr_bytes a) (addr_bytes addr) then some p else o)
        (find_addr-equal entries addr source e)

-- The packets that the map gives to `q` are those from the address.
abbrev IsHome : List (Addr × ℕ) → ℕ → Addr → Type 0
IsHome entries q addr =
    (leads_only entries q addr ≡ true) × (comes_from (find_addr entries addr) q ≡ true)

comes_from_home :
    (entries : List (Addr × ℕ)) (q : ℕ) (addr source : Addr)
    → IsHome entries q addr
    → comes_from (find_addr entries source) q ≡ equal (addr_bytes addr) (addr_bytes source)
comes_from_home entries q addr source (only, own) =
    elim (Bool-cases (equal (addr_bytes addr) (addr_bytes source))) [
      | inl e ↦ ap (λ o. comes_from o q) (find_addr-equal entries addr source e) ∙ own ∙ sym e
      | inr e ↦ found_elsewhere entries q addr source only e ∙ sym e
    ]

observed-remembered :
    (entries : List (Addr × ℕ)) (q : ℕ) (addr : Addr) (pkts : List Packet) (m : Model)
    → IsHome entries q addr
    → observed entries q pkts m ≡ remembered addr pkts m
unfolding observed remembered
observed-remembered entries q addr [] m h = refl
observed-remembered entries q addr (pkt ∷ pkts) m h =
    observed-remembered entries q addr pkts (shown entries q pkt m) h
    ∙ ap (remembered addr pkts) (
        ap (λ b. if b then (event_case pkt.cmd pkt.payload m).0 else m)
          (comes_from_home entries q addr pkt.source h)
        ∙ ap (λ n. if equal (addr_bytes addr) (addr_bytes pkt.source) then n else m)
            (event_case-after_event pkt.cmd pkt.payload m))

housed :
    (bcs : Sender Uartgw) (q : ℕ)
    → q < 9
    → (d : Device) × (get_elem? (devices_of bcs) q ≡ some d)
      × IsHome by_addr_map q (standard d.model).addr
unfolding standard find_addr
housed bcs zero h = (_, refl, (refl, refl))
housed bcs (suc zero) h = (_, refl, (refl, refl))
housed bcs (suc (suc zero)) h = (_, refl, (refl, refl))
housed bcs (suc (suc (suc zero))) h = (_, refl, (refl, refl))
housed bcs (suc (suc (suc (suc zero)))) h = (_, refl, (refl, refl))
housed bcs (suc (suc (suc (suc (suc zero))))) h = (_, refl, (refl, refl))
housed bcs (suc (suc (suc (suc (suc (suc zero)))))) h = (_, refl, (refl, refl))
housed bcs (suc (suc (suc (suc (suc (suc (suc zero))))))) h = (_, refl, (refl, refl))
housed bcs (suc (suc (suc (suc (suc (suc (suc (suc zero)))))))) h = (_, refl, (refl, refl))
housed bcs (suc (suc (suc (suc (suc (suc (suc (suc (suc q))))))))) h = absurd (omega (arith, h))

-- After main's start-up, the description agrees with the maps of the code.
pub After-Shows :
    (pkts : List Packet) (bcs : Sender Uartgw) (s t : Ccu)
    → Kept (fresh bcs) s
    → After pkts s t
    → Shows pkts s t
After-Shows pkts bcs s t k a = record {
  by_addr_is = a.by_addr_is;
  by_serial_is = a.by_serial_is;
  at = λ q h.
      let (d, e, home) = housed bcs q h in
      let (f, g, same) = k.at q d e in
      a.at q
      ∙ ap (on_model (observed s.by_addr q pkts)) g
      ∙ ap (λ m. some (record f { model = m }))
          (ap (λ m. observed m q pkts f.model) k.by_addr_is
            ∙ observed-remembered by_addr_map q (standard f.model).addr pkts f.model
                (subst (IsHome by_addr_map q) (sym same.addr_is) home))
      ∙ sym (ap (after_packets pkts) g);
}
