-- ===== src/Ccu/Kept.antt =====
-- What the steps of main leave as it was, while its devices send and receive.
use hmgo.Prelude.{ℕ, ◌≡◌, refl, sym, ap, ◌∙◌, arith, List, some}
use hmgo.Prelude.{Bool-cases, inl, inr, ◌==◌, get_elem?, set, subst}
use hmgo.Uartgw.Packet.{Addr, Uartgw}
use hmgo.Hm.{StandardDevice}
use hmgo.Ccu.Devices.{
  Model, power, thermal, heating, standard, with_standard, Device, Ccu, find_addr,
}
use hmgo.Ccu.Observed.{IsWired, get_elem?-set_self, get_elem?-set_other}

-- A device with the same name, address and events, and maybe another counter.
pub record Same (d e : Device) : Type 0 where
  pub name_is : e.name ≡ d.name
  pub addr_is : (standard e.model).addr ≡ (standard d.model).addr
  pub model_is : e.model ≡ with_standard (standard e.model) d.model

standard_with : (sd : StandardDevice Uartgw) (m : Model) → standard (with_standard sd m) ≡ sd
unfolding standard with_standard
standard_with sd (power ps) = refl
standard_with sd (thermal tc) = refl
standard_with sd (heating t) = refl

with_twice :
    (sd se : StandardDevice Uartgw) (m : Model)
    → with_standard sd (with_standard se m) ≡ with_standard sd m
unfolding with_standard
with_twice sd se (power ps) = refl
with_twice sd se (thermal tc) = refl
with_twice sd se (heating t) = refl

with_own : (m : Model) → m ≡ with_standard (standard m) m
unfolding standard with_standard
with_own (power ps) = refl
with_own (thermal tc) = refl
with_own (heating t) = refl

Same-refl : (d : Device) → Same d d
Same-refl d = record { name_is = refl; addr_is = refl; model_is = with_own d.model }

Same-trans : (d e f : Device) → Same d e → Same e f → Same d f
Same-trans d e f x y = record {
  name_is = y.name_is ∙ x.name_is;
  addr_is = y.addr_is ∙ x.addr_is;
  model_is =
      y.model_is
      ∙ ap (with_standard (standard f.model)) x.model_is
      ∙ with_twice (standard f.model) (standard e.model) d.model;
}

pub Same-with :
    (d : Device) (sd : StandardDevice Uartgw)
    → sd.addr ≡ (standard d.model).addr
    → Same d (record d { model = with_standard sd d.model })
Same-with d sd a =
    let e = standard_with sd d.model in
    record {
      name_is = refl;
      addr_is = ap (λ s. s.addr) e ∙ a;
      model_is = ap (λ s. with_standard s d.model) (sym e);
    }

-- The maps and the requests to publish are the same, and each device is at its place.
pub record Kept (s t : Ccu) : Type 0 where
  pub by_addr_is : t.by_addr ≡ s.by_addr
  pub by_serial_is : t.by_serial ≡ s.by_serial
  pub requests_is : t.requests ≡ s.requests
  pub at :
      (p : ℕ) (d : Device)
      → get_elem? s.devices p ≡ some d
      → (e : Device) × (get_elem? t.devices p ≡ some e) × Same d e

pub Kept-refl : (s : Ccu) → Kept s s
Kept-refl s = record {
  by_addr_is = refl;
  by_serial_is = refl;
  requests_is = refl;
  at = λ p d e. (d, e, Same-refl d);
}

pub Kept-trans : {s t w : Ccu} → Kept s t → Kept t w → Kept s w
Kept-trans x y = record {
  by_addr_is = y.by_addr_is ∙ x.by_addr_is;
  by_serial_is = y.by_serial_is ∙ x.by_serial_is;
  requests_is = y.requests_is ∙ x.requests_is;
  at = λ p d e.
      let (d1, e1, same1) = x.at p d e in
      let (d2, e2, same2) = y.at p d1 e1 in (d2, e2, Same-trans d d1 d2 same1 same2);
}

-- One device is put in its place again.
pub stored :
    (devices : List Device) (p : ℕ) (d new : Device)
    → get_elem? devices p ≡ some d
    → Same d new
    → (q : ℕ) (c : Device) → get_elem? devices q ≡ some c
    → (e : Device) × (get_elem? (set devices p new) q ≡ some e) × Same c e
stored devices p d new h same q c f = elim (Bool-cases (p == q)) [
  | inl hit ↦
      let k : p ≡ q = ground arith in
      let dc : d ≡ c = cc in
      (
        new,
        subst (λ z. get_elem? (set devices p new) z ≡ some new) k
            (get_elem?-set_self devices p new h),
        subst (λ z. Same z new) dc same,
      )
  | inr miss ↦ (c, get_elem?-set_other devices p q new miss ∙ f, Same-refl c)
]

-- The device with the address `addr` is at the place `p`.
abbrev pub IsAt : Ccu → ℕ → Addr → Type 0
IsAt s p addr = (d : Device) × (get_elem? s.devices p ≡ some d) × ((standard d.model).addr ≡ addr)

pub Kept-IsAt : {s t : Ccu} (p : ℕ) (addr : Addr) → Kept s t → IsAt s p addr → IsAt t p addr
Kept-IsAt p addr k (d, e, a) = let (c, f, same) = k.at p d e in (c, f, same.addr_is ∙ a)

pub Kept-IsWired :
    {s t : Ccu} → Kept s t → IsWired s.by_addr s.devices → IsWired t.by_addr t.devices
Kept-IsWired {t = t} k w addr p f =
    let (d, e) = w addr p (ap (λ m. find_addr m addr) (sym k.by_addr_is) ∙ f) in
    let (c, g, same) = k.at p d e in (c, g)
