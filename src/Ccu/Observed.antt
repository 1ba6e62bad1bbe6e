-- ===== src/Ccu/Observed.antt =====
-- What the devices show after packets from the radio, against a description with no tables.
use hmgo.Prelude.{ℕ, zero, suc, ◌≡◌, refl, sym, ap, ◌∙◌, fun_ext, arith, List, [], ◌∷◌, ◌++◌}
use hmgo.Prelude.{Bool, false, Option, none, some, Bytes, get_elem?, set, ◌==◌}
use hmgo.Prelude.{==_iff, Bool-cases, inl, inr, if◌then◌else◌, subst}
use hmgo.Effect.{Outcome, ok}
use hmgo.Fault.{Error}
use hmgo.Uartgw.Packet.{Addr}
use hmgo.Bidcos.{Packet, device_info}
use hmgo.Ccu.Devices.{Model, Device, Event, Ccu, find_addr}
use hmgo.Ccu.Dispatch.{event_case, store_event, handle, handle_at, handle_packet}

pub get_elem?-set_self {ℓ} :
    {A : Type ℓ} (xs : List A) (p : ℕ) (v : A) {d : A}
    → get_elem? xs p ≡ some d
    → get_elem? (set xs p v) p ≡ some v
get_elem?-set_self [] p v h = cc
get_elem?-set_self (x ∷ xs) zero v h = refl
get_elem?-set_self (x ∷ xs) (suc p) v h = get_elem?-set_self xs p v h

pub get_elem?-set_other {ℓ} :
    {A : Type ℓ} (xs : List A) (p q : ℕ) (v : A)
    → (p == q) ≡ false
    → get_elem? (set xs p v) q ≡ get_elem? xs q
get_elem?-set_other [] p q v h = refl
get_elem?-set_other (x ∷ xs) zero zero v h = ground arith
get_elem?-set_other (x ∷ xs) zero (suc q) v h = refl
get_elem?-set_other (x ∷ xs) (suc p) zero v h = refl
get_elem?-set_other (x ∷ xs) (suc p) (suc q) v h = get_elem?-set_other xs p q v (ground arith)

-- Whether a packet comes from the device at `q`.
abbrev pub comes_from : Option ℕ → ℕ → Bool
comes_from none q = false
comes_from (some p) q = p == q

-- The description: what a device shows after the packets of a history is the result of the decoders
-- on those packets that come from it, one after the other.
abbrev pub shown_by : Option ℕ → ℕ → Packet → Model → Model
shown_by from q pkt m = if comes_from from q then (event_case pkt.cmd pkt.payload m).0 else m

abbrev pub shown : List (Addr × ℕ) → ℕ → Packet → Model → Model
shown by_addr q pkt m = shown_by (find_addr by_addr pkt.source) q pkt m

unfoldable pub observed : List (Addr × ℕ) → ℕ → List Packet → Model → Model
observed by_addr q [] m = m
observed by_addr q (pkt ∷ pkts) m = observed by_addr q pkts (shown by_addr q pkt m)

abbrev pub on_model : (Model → Model) → Option Device → Option Device
on_model f none = none
on_model f (some d) = some (record d { model = f d.model })

-- Both maps point to devices of the list.
abbrev pub IsWired : List (Addr × ℕ) → List Device → Type 0
IsWired by_addr devices =
    (addr : Addr) (p : ℕ)
    → find_addr by_addr addr ≡ some p
    → (d : Device) × (get_elem? devices p ≡ some d)

-- The central after one packet that is no peering request.
pub record Seen (pkt : Packet) (s : Ccu) (o : Outcome Error (Unit {0}) × Ccu) : Type 0 where
  pub succeeds : o.0 ≡ ok tt
  pub bcs_is : o.1.bcs ≡ s.bcs
  pub by_addr_is : o.1.by_addr ≡ s.by_addr
  pub by_serial_is : o.1.by_serial ≡ s.by_serial
  pub at :
      (q : ℕ) → get_elem? o.1.devices q ≡ on_model (shown s.by_addr q pkt) (get_elem? s.devices q)

on_model_same : (o : Option Device) → on_model (λ m. m) o ≡ o
on_model_same none = refl
on_model_same (some d) = refl

stored_at :
    (devices : List Device) (p q : ℕ) (d : Device) (f : Model → Model)
    → get_elem? devices p ≡ some d
    → get_elem? (set devices p (record d { model = f d.model })) q
      ≡ on_model (λ m. if p == q then f m else m) (get_elem? devices q)
stored_at devices p q d f h = elim (Bool-cases (p == q)) [
  | inl same ↦ rw same (
      subst
        (λ k.
          get_elem? (set devices p (record d { model = f d.model })) k
          ≡ on_model f (get_elem? devices k))
        ((==_iff p q).0 same) (get_elem?-set_self devices p _ h ∙ sym (ap (on_model f) h)))
  | inr other ↦
      rw other (get_elem?-set_other devices p q _ other ∙ sym (on_model_same (get_elem? devices q)))
]

shown_at :
    (pkt : Packet) (p : ℕ) (d : Device) (s : Ccu) (m : Model)
    → find_addr s.by_addr pkt.source ≡ some p
    → get_elem? s.devices p ≡ some d
    → (event_case pkt.cmd pkt.payload d.model).0 ≡ m
    → (q : ℕ)
    → get_elem? (set s.devices p (record d { model = m })) q
      ≡ on_model (shown s.by_addr q pkt) (get_elem? s.devices q)
shown_at pkt p d s m f g e q =
    ap (λ z. get_elem? (set s.devices p (record d { model = z })) q) (sym e)
    ∙ stored_at s.devices p q d (λ x. (event_case pkt.cmd pkt.payload x).0) g
    ∙ ap (λ a. on_model (shown_by a q pkt) (get_elem? s.devices q)) (sym f)

module _ (marshal : Event → Option Bytes) where
  store_event-Seen :
      (pkt : Packet) (p : ℕ) (d : Device) (s : Ccu)
      → find_addr s.by_addr pkt.source ≡ some p
      → get_elem? s.devices p ≡ some d
      → (r : Model × Option (Bytes × Event)) → event_case pkt.cmd pkt.payload d.model ≡ r
      → Seen pkt s (store_event marshal p d r s)
  unfolding store_event
  store_event-Seen pkt p d s f g (m, none) e = record {
    succeeds = refl;
    bcs_is = refl;
    by_addr_is = refl;
    by_serial_is = refl;
    at = shown_at pkt p d s m f g (ap (λ z. z.0) e);
  }
  store_event-Seen pkt p d s f g (m, some (name, ev)) e = record {
    succeeds = refl;
    bcs_is = refl;
    by_addr_is = refl;
    by_serial_is = refl;
    at = shown_at pkt p d s m f g (ap (λ z. z.0) e);
  }

ignored-Seen :
    (pkt : Packet) (s : Ccu) → find_addr s.by_addr pkt.source ≡ none → Seen pkt s (ok tt, s)
ignored-Seen pkt s f = record {
  succeeds = refl;
  bcs_is = refl;
  by_addr_is = refl;
  by_serial_is = refl;
  at = λ q.
      sym (on_model_same (get_elem? s.devices q))
      ∙ ap (λ a. on_model (shown_by a q pkt) (get_elem? s.devices q)) (sym f);
}

module _ (checksum : Bytes → ℕ) (marshal : Event → Option Bytes) where
  handle-Seen :
      (pkt : Packet) (p : ℕ) (d : Device) (s : Ccu)
      → (pkt.cmd == device_info) ≡ false
      → find_addr s.by_addr pkt.source ≡ some p
      → get_elem? s.devices p ≡ some d
      → Seen pkt s (handle checksum marshal pkt p (get_elem? s.devices p) s)
  unfolding handle
  handle-Seen pkt p d s c f g = rw (g, c) (store_event-Seen marshal pkt p d s f g _ refl)

  handle_at-Seen :
      (pkt : Packet) (s : Ccu) (a : Option ℕ)
      → find_addr s.by_addr pkt.source ≡ a
      → IsWired s.by_addr s.devices
      → (pkt.cmd == device_info) ≡ false
      → Seen pkt s (handle_at checksum marshal pkt a s)
  unfolding handle_at
  handle_at-Seen pkt s none f w c = ignored-Seen pkt s f
  handle_at-Seen pkt s (some p) f w c = let (d, g) = w pkt.source p f in handle-Seen pkt p d s c f g

  pub handle_packet-Seen :
      (pkt : Packet) (s : Ccu)
      → IsWired s.by_addr s.devices
      → (pkt.cmd == device_info) ≡ false
      → Seen pkt s (handle_packet checksum marshal pkt s)
  unfolding handle_packet
  handle_packet-Seen pkt s w c = handle_at-Seen pkt s _ refl w c

on_model-some :
    (f : Model → Model) (o : Option Device) (d : Device)
    → o ≡ some d
    → (e : Device) × (on_model f o ≡ some e)
on_model-some f none d h = cc
on_model-some f (some e) d h = (_, refl)

-- The central `t` after the packets of a history, from `s`: the maps are the same, and each device
-- shows what the description says.
pub record After (pkts : List Packet) (s t : Ccu) : Type 0 where
  pub by_addr_is : t.by_addr ≡ s.by_addr
  pub by_serial_is : t.by_serial ≡ s.by_serial
  pub at :
      (q : ℕ) → get_elem? t.devices q ≡ on_model (observed s.by_addr q pkts) (get_elem? s.devices q)

pub After-nil : (s : Ccu) → After [] s s
unfolding observed
After-nil s = record {
  by_addr_is = refl;
  by_serial_is = refl;
  at = λ q. sym (on_model_same (get_elem? s.devices q));
}

pub After-Seen :
    (pkt : Packet) (s : Ccu) (o : Outcome Error (Unit {0}) × Ccu)
    → Seen pkt s o
    → After (pkt ∷ []) s o.1
unfolding observed
After-Seen pkt s o h = record {
  by_addr_is = h.by_addr_is;
  by_serial_is = h.by_serial_is;
  at = h.at;
}

on_model_twice :
    (f g : Model → Model) (o : Option Device)
    → on_model g (on_model f o) ≡ on_model (λ m. g (f m)) o
on_model_twice f g none = refl
on_model_twice f g (some d) = refl

observed-append :
    (by_addr : List (Addr × ℕ)) (q : ℕ) (xs ys : List Packet) (m : Model)
    → observed by_addr q (xs ++ ys) m ≡ observed by_addr q ys (observed by_addr q xs m)
unfolding observed
observed-append by_addr q [] ys m = refl
observed-append by_addr q (x ∷ xs) ys m = observed-append by_addr q xs ys (shown by_addr q x m)

pub After-append :
    (xs ys : List Packet) (s t u : Ccu) → After xs s t → After ys t u → After (xs ++ ys) s u
After-append xs ys s t u a b = record {
  by_addr_is = b.by_addr_is ∙ a.by_addr_is;
  by_serial_is = b.by_serial_is ∙ a.by_serial_is;
  at = λ q.
      b.at q
      ∙ ap (λ z. on_model (observed z q ys) (get_elem? t.devices q)) a.by_addr_is
      ∙ ap (on_model (observed s.by_addr q ys)) (a.at q)
      ∙ on_model_twice (observed s.by_addr q xs) (observed s.by_addr q ys) (get_elem? s.devices q)
      ∙ ap (λ f. on_model f (get_elem? s.devices q))
          (fun_ext (λ m. sym (observed-append s.by_addr q xs ys m)));
}

-- The map still points to devices.
pub After-IsWired :
    (pkts : List Packet) (s t : Ccu)
    → After pkts s t
    → IsWired s.by_addr s.devices
    → IsWired t.by_addr t.devices
After-IsWired pkts s t h w addr p f =
    let (d, g) = w addr p (subst (λ z. find_addr z addr ≡ some p) h.by_addr_is f) in
    let (e, i) = on_model-some (observed s.by_addr p pkts) (get_elem? s.devices p) d g in
    (e, h.at p ∙ i)
