-- ===== src/Ccu/Peering.antt =====
-- Which peering requests the main loop answers.
use hmgo.Prelude.{ℕ, ◌≡◌, ◌≤◌, refl, ap, ◌∙◌, arith, true, Option, none, some}
use hmgo.Prelude.{
  Bytes, length, take, drop, get_elem?, ltb, ◌==◌, ==_iff, Bool-cases, inl, inr, ◌⊎◌,
}
use hmgo.Prelude.{subst}
use hmgo.Effect.{Outcome, ok, Effect, ◌>>◌}
use hmgo.Fault.{Error}
use hmgo.Uartgw.Packet.{addr_bytes}
use hmgo.Uartgw.Traffic.{add_peer}
use hmgo.Bidcos.{Packet, device_info}
use hmgo.Bidcos.Radio.{uartgw}
use hmgo.Hm.{pair}
use hmgo.Ccu.Devices.{channels, Device, Event, Ccu, find_addr, find_serial, on_gateway, on_device}
use hmgo.Ccu.Dispatch.{
  is_configured, answer_peer, answer_serial, peer_request, handle, handle_at, handle_packet,
}
use hmgo.Ccu.Observed.{IsWired}

-- A peering request has thirteen bytes, and the device with its serial number is the one at its
-- source address.
pub record IsConfigured (pkt : Packet) (s : Ccu) (p : ℕ) : Type 0 where
  pub long : 13 ≤ length pkt.payload
  pub by_addr_is : find_addr s.by_addr pkt.source ≡ some p
  pub by_serial_is : find_serial s.by_serial (take 10 (drop 3 pkt.payload)) ≡ some p

module _ (checksum : Bytes → ℕ) (marshal : Event → Option Bytes) where
  -- AddPeer with the channels of the device, and Pair with the device.
  abbrev pub peer_device : Packet → ℕ → Device → Effect Ccu Error (Unit {0})
  peer_device pkt p d =
      on_gateway (add_peer checksum (addr_bytes pkt.source) (channels d.model))
      >> on_device p (pair (uartgw checksum))

  pub record Answered (pkt : Packet) (s : Ccu) (o : Outcome Error (Unit {0}) × Ccu) : Type 0 where
    pub place : ℕ
    pub device : Device
    pub configured : IsConfigured pkt s place
    pub device_is : get_elem? s.devices place ≡ some device
    pub answer : o ≡ peer_device pkt place device s

  pub record Refused (pkt : Packet) (s : Ccu) (o : Outcome Error (Unit {0}) × Ccu) : Type 0 where
    pub unconfigured : ¬ ((p : ℕ) × IsConfigured pkt s p)
    pub nothing : o ≡ (ok tt, s)

  abbrev pub Decided : Packet → Ccu → Outcome Error (Unit {0}) × Ccu → Type 0
  Decided pkt s o = Answered pkt s o ⊎ Refused pkt s o

  by_serial_cases :
      (pkt : Packet) (s : Ccu) (p : ℕ) (b : Option ℕ)
      → find_addr s.by_addr pkt.source ≡ some p
      → find_serial s.by_serial (take 10 (drop 3 pkt.payload)) ≡ b
      → (d : Device) × (get_elem? s.devices p ≡ some d)
      → 13 ≤ length pkt.payload
      → Decided pkt s (answer_serial checksum pkt.source (some p) b s)
  unfolding answer_serial is_configured answer_peer
  by_serial_cases pkt s p none f g w h =
      inr
        (record { unconfigured = λ x. let c = x.1 in let e = c.by_serial_is in cc; nothing = refl })
  by_serial_cases pkt s p (some q) f g (d, e) h = elim (Bool-cases (p == q)) [
    | inl same ↦
        let i = (==_iff p q).0 same in
        let e' = subst (λ k. get_elem? s.devices k ≡ some d) i e in
        inl (record {
          place = q;
          device = d;
          configured = record { long = h; by_addr_is = f ∙ ap some i; by_serial_is = g };
          device_is = e';
          answer = rw (same, e') refl;
        })
    | inr other ↦ inr (record {
      unconfigured =
          λ x. let c = x.1 in let a = c.by_addr_is in let b = c.by_serial_is in ground arith;
      nothing = rw other refl;
    })
  ]

  by_addr_cases :
      (pkt : Packet) (s : Ccu) (a : Option ℕ)
      → find_addr s.by_addr pkt.source ≡ a
      → IsWired s.by_addr s.devices
      → (pkt.cmd == device_info) ≡ true
      → Decided pkt s (handle_at checksum marshal pkt a s)
  unfolding handle_at handle peer_request
  by_addr_cases pkt s none f w c =
      inr (record { unconfigured = λ x. let k = x.1 in let e = k.by_addr_is in cc; nothing = refl })
  by_addr_cases pkt s (some p) f w c =
      let (d, e) = w pkt.source p f in
      elim (Bool-cases (ltb (length pkt.payload) 13)) [
        | inl short ↦ inr (record {
          unconfigured = λ x. let k = x.1 in let h = k.long in ground arith;
          nothing = rw (e, c, short) refl;
        })
        | inr long ↦ rw (e, c, long, f) (by_serial_cases pkt s p _ f refl (d, e) (ground arith))
      ]

  -- If the map of the addresses points to devices, a peering request from a device of which address
  -- and serial number are configured, for the same device, is answered by AddPeer with the address
  -- and the channels of the device and by Pair with it. Any other, and one that is too short or has
  -- an unknown sender, is passed over: nothing is sent, and nothing changes.
  pub peering_cases :
      (pkt : Packet) (s : Ccu)
      → IsWired s.by_addr s.devices
      → (pkt.cmd == device_info) ≡ true
      → Decided pkt s (handle_packet checksum marshal pkt s)
  unfolding handle_packet
  peering_cases pkt s w c = by_addr_cases pkt s _ refl w c
