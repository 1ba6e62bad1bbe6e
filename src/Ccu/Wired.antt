-- ===== src/Ccu/Wired.antt =====
-- The map of the addresses that main builds points to the devices that it declares.
use hmgo.Prelude.{ℕ, ◌≡◌, refl, List, [], ◌∷◌, Bool, true, false, Option, some}
use hmgo.Prelude.{equal, get_elem?, All, subst, if◌then◌else◌}
use hmgo.Uartgw.Packet.{Addr, addr_bytes, Uartgw}
use hmgo.Bidcos.{Sender}
use hmgo.Ccu.Devices.{Device, find_addr}
use hmgo.Ccu.House.{devices_of, by_addr_map}
use hmgo.Ccu.Observed.{IsWired}

abbrev IsEntry : List Device → Addr × ℕ → Type 0
IsEntry devices (addr, p) = (d : Device) × (get_elem? devices p ≡ some d)

first_or_later :
    (devices : List Device) (b : Bool) (q p : ℕ) (o : Option ℕ)
    → (d : Device) × (get_elem? devices q ≡ some d)
    → (o ≡ some p → (d : Device) × (get_elem? devices p ≡ some d))
    → (if b then some q else o) ≡ some p
    → (d : Device) × (get_elem? devices p ≡ some d)
first_or_later devices true q p o (d, e) later f =
    let i : q ≡ p = cc in (d, subst (λ k. get_elem? devices k ≡ some d) i e)
first_or_later devices false q p o e later f = later f

entries-IsWired :
    (by_addr : List (Addr × ℕ)) (devices : List Device)
    → All (IsEntry devices) by_addr
    → IsWired by_addr devices
unfolding find_addr
entries-IsWired [] devices h addr p f = cc
entries-IsWired ((a, q) ∷ entries) devices (e, h) addr p f =
    first_or_later devices (equal (addr_bytes a) (addr_bytes addr)) q p (find_addr entries addr) e
      (entries-IsWired entries devices h addr p) f

pub by_addr_map-IsWired : (bcs : Sender Uartgw) → IsWired by_addr_map (devices_of bcs)
by_addr_map-IsWired bcs = entries-IsWired by_addr_map (devices_of bcs) (
  (_, refl),
  (
    (_, refl),
    ((_, refl), ((_, refl), ((_, refl), ((_, refl), ((_, refl), ((_, refl), ((_, refl), tt))))))),
  ),
)
