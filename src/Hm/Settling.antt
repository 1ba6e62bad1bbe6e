-- ===== src/Hm/Settling.antt =====
-- What the parts of the conversations with a device on the UARTGW need to end on every stream.
use hmgo.Prelude.{ℕ, suc, ◌+◌, ◌%◌, ◌<◌, ◌≡◌, arith, List, [], ◌∷◌, Bool, true, false}
use hmgo.Prelude.{Bytes, equal, if◌then◌else◌, ◌==◌, subst}
use hmgo.Effect.{Outcome, ok, fail, panic, stuck, Effect, lift, guard, pure, ◌>>=◌, ◌>>◌}
use hmgo.Effect.Halts.{Halts, Halts-bind, Halts-if, Halts-guard}
use hmgo.Effect.Falls.{Falls, Falls-bind, Falls-if, Falls-guard}
use hmgo.Effect.Settles.{Settles, Settles-then}
use hmgo.Fault.{Error, unexpected_payload}
use hmgo.Uartgw.Packet.{Uartgw, addr_bytes}
use hmgo.Bidcos.{Packet, Sender, read_packet}
use hmgo.Bidcos.Radio.{uartgw}
use hmgo.Bidcos.Settling.{to_come_at}
use hmgo.Bidcos.Settling as Radio
use hmgo.Hm.{
  StandardDevice, FullyQualifiedChannel, on_sender, count, write_config, config_start,
  config_write_index, config_end, pair,
}
use hmgo.Hm.Config.{
  store, and_then, store_pairs, store_seq, pairs_response, seq_response, param_response,
  config_reply,
}
use hmgo.Hm.Peering.{peer_entries, peer_list, peer_reply}

abbrev pub ahead : StandardDevice Uartgw → ℕ
ahead d = to_come_at d.bcs

on_sender-Settles :
    {A : Type 0} (m : Effect (Sender Uartgw) Error A)
    → Settles to_come_at m
    → Settles ahead (on_sender m)
on_sender-Settles m h = record { halts = λ d. h.halts d.bcs; falls = λ d. h.falls d.bcs }

-- The memory functions return without a loop of their own on fuel.
store-Halts : (mem : Bytes) (i v : ℕ) → Halts (store mem i v)
unfolding store
store-Halts mem i v = ground arith

and_then-Halts :
    (o : Outcome Error Bytes) (f : Bytes → Outcome Error Bytes)
    → Halts o
    → ((m : Bytes) → Halts (f m))
    → Halts (and_then o f)
and_then-Halts (ok m) f h k = k m
and_then-Halts (fail e) f h k = tt
and_then-Halts panic f h k = tt
and_then-Halts stuck f h k = h

store_pairs-Halts : (mem kv : Bytes) → Halts (store_pairs mem kv)
unfolding store_pairs
store_pairs-Halts mem [] = tt
store_pairs-Halts mem (i ∷ []) = tt
store_pairs-Halts mem (i ∷ v ∷ rest) =
    and_then-Halts (store mem i v) (λ m. store_pairs m rest) (store-Halts mem i v)
      (λ m. store_pairs-Halts m rest)

store_seq-Halts : (mem : Bytes) (i : ℕ) (vs : Bytes) → Halts (store_seq mem i vs)
unfolding store_seq
store_seq-Halts mem i [] = tt
store_seq-Halts mem i (v ∷ rest) =
    and_then-Halts (store mem i v) (λ m. store_seq m ((i + 1) % 256) rest) (store-Halts mem i v)
      (λ m. store_seq-Halts m ((i + 1) % 256) rest)

if-Halts :
    {A : Type 0} (b : Bool) (o r : Outcome Error A × Bool)
    → Halts o.0
    → Halts r.0
    → Halts (if b then o else r).0
if-Halts true o r ho hr = ho
if-Halts false o r ho hr = hr

seq_response-Halts : (mem rest : Bytes) → Halts (seq_response mem rest).0
unfolding seq_response
seq_response-Halts mem [] = tt
seq_response-Halts mem (start ∷ rest) =
    if-Halts (start == 0x00) (ok mem, true) (store_seq mem start rest, false) tt
      (store_seq-Halts mem start rest)

param_response-Halts : (mem p : Bytes) → Halts (param_response mem p).0
unfolding param_response pairs_response
param_response-Halts mem [] = tt
param_response-Halts mem (kind ∷ rest) =
    if-Halts (kind == 2) (pairs_response mem rest) _
      (if-Halts (equal rest (0x00 ∷ 0x00 ∷ [])) (ok mem, true) (store_pairs mem rest, false) tt
        (store_pairs-Halts mem rest))
      (if-Halts (kind == 3) (seq_response mem rest) _ (seq_response-Halts mem rest) tt)

module _ (checksum : Bytes → ℕ) where
  pub read_packet-Settles : Settles ahead (on_sender (read_packet (uartgw checksum)))
  read_packet-Settles =
      on_sender-Settles (read_packet (uartgw checksum)) (Radio.read_packet-Settles checksum)

  pub write_config-Settles :
      (flags : ℕ) (payload : Bytes) → Settles ahead (write_config (uartgw checksum) flags payload)
  unfolding write_config count
  write_config-Settles flags payload = record {
    halts = λ d. (Radio.write_packet-Settles checksum _).halts d.bcs;
    falls = λ d. (Radio.write_packet-Settles checksum _).falls d.bcs;
  }

  pub pair-Settles : Settles ahead (pair (uartgw checksum))
  unfolding pair config_start config_write_index config_end
  pair-Settles = record { halts = λ d. (sent _).halts d; falls = λ d. (sent _).falls d }
    where
      sent :
          (kv : Bytes)
          → Settles ahead (
              config_start (uartgw checksum) 0 0
              >> (config_write_index (uartgw checksum) 0 kv >> config_end (uartgw checksum) 0))
      sent kv =
          Settles-then ahead (config_start (uartgw checksum) 0 0) _ (write_config-Settles _ _) (
            Settles-then ahead (config_write_index (uartgw checksum) 0 kv) _
              (write_config-Settles _ _) (write_config-Settles _ _))

  -- A loop that reads a packet in each round and then goes on or not: the fuel is enough if what is
  -- done with a packet ends wherever the rest of the loop does.
  pub reading-Halts :
      {A : Type 0} (f : Packet → Effect (StandardDevice Uartgw) Error A) (fuel : ℕ)
      (d : StandardDevice Uartgw)
      → ahead d < suc fuel
      → ((pkt : Packet) (e : StandardDevice Uartgw) → ahead e < fuel → Halts (f pkt e).0)
      → Halts ((on_sender (read_packet (uartgw checksum)) >>= f) d).0
  reading-Halts f fuel d h k =
      Halts-bind (on_sender (read_packet (uartgw checksum))) f d (read_packet-Settles.halts d)
        λ pkt e r. k pkt e (
          omega (
            arith,
            Radio.read_packet_shrinks checksum d.bcs pkt e.bcs (λ i. ((r i).0, (r i).1.bcs)),
          ))

module _ (again : Bytes → Effect (StandardDevice Uartgw) Error Bytes) (mem : Bytes)
    (pkt : Packet) where
  pub config_reply-Halts :
      (d : StandardDevice Uartgw)
      → ((m : Bytes) → Halts (again m d).0)
      → Halts (config_reply again mem pkt d).0
  unfolding config_reply
  config_reply-Halts d k =
      Halts-if (equal (addr_bytes pkt.source) (addr_bytes d.addr)) _ (again mem) d
        (Halts-bind (lift (param_response mem pkt.payload).0) _ d
          (param_response-Halts mem pkt.payload)
          (λ m e r.
            Halts-if (param_response mem pkt.payload).1 (pure m) (again m) e tt
              (subst (λ z. Halts (again m z).0) (λ i. (r i).1) (k m))))
        (k mem)

  pub config_reply-Falls :
      ((m : Bytes) → Falls ahead (again m)) → Falls ahead (config_reply again mem pkt)
  unfolding config_reply
  config_reply-Falls k = record {
    at = λ d.
        (Falls-if ahead (equal (addr_bytes pkt.source) (addr_bytes d.addr))
            (lift (param_response mem pkt.payload).0 >>= λ m.
              if (param_response mem pkt.payload).1 then pure m else again m)
            (again mem)
            (Falls-bind ahead (lift (param_response mem pkt.payload).0) _
              (record { at = λ e. omega arith })
              (λ m.
                Falls-if ahead (param_response mem pkt.payload).1 (pure m) (again m)
                  (record { at = λ e. omega arith }) (k m)))
            (k mem)).at
          d;
  }

module _ (checksum : Bytes → ℕ)
    (again : List FullyQualifiedChannel
      → Effect (StandardDevice Uartgw) Error (List FullyQualifiedChannel))
    (peers : List FullyQualifiedChannel) where
  after_guard :
      (b : Bool) (e : Error) (d t : StandardDevice Uartgw) (u : Unit {0})
      → guard b e d ≡ (ok u, t)
      → d ≡ t
  after_guard true e d t u h = λ i. (h i).1
  after_guard false e d t u h = cc

  peer_list-Halts :
      (payload : Bytes) (d : StandardDevice Uartgw)
      → ((ps : List FullyQualifiedChannel) → Halts (again ps d).0)
      → Halts (peer_list (uartgw checksum) again peers payload d).0
  unfolding peer_list
  peer_list-Halts [] d k = tt
  peer_list-Halts (kind ∷ list) d k =
      Halts-bind (guard (kind == 0x01) (unexpected_payload kind)) _ d (Halts-guard _ _ d) λ u t r.
        Halts-if (peer_entries peers list).1 (pure (peer_entries peers list).0)
          (again (peer_entries peers list).0) t tt
          (subst (λ z. Halts (again (peer_entries peers list).0 z).0)
            (after_guard (kind == 0x01) (unexpected_payload kind) d t u r)
            (k (peer_entries peers list).0))

  peer_list-Falls :
      (payload : Bytes)
      → ((ps : List FullyQualifiedChannel) → Falls ahead (again ps))
      → Falls ahead (peer_list (uartgw checksum) again peers payload)
  unfolding peer_list
  peer_list-Falls [] k = record { at = λ d. omega arith }
  peer_list-Falls (kind ∷ list) k =
      Falls-bind ahead (guard (kind == 0x01) (unexpected_payload kind)) _ (Falls-guard ahead _ _)
        λ u.
          Falls-if ahead (peer_entries peers list).1 (pure (peer_entries peers list).0)
            (again (peer_entries peers list).0) (record { at = λ d. omega arith })
            (k (peer_entries peers list).0)

  pub peer_reply-Halts :
      (pkt : Packet) (d : StandardDevice Uartgw)
      → ((ps : List FullyQualifiedChannel) → Halts (again ps d).0)
      → Halts (peer_reply (uartgw checksum) again peers pkt d).0
  unfolding peer_reply
  peer_reply-Halts pkt d k =
      Halts-if (equal (addr_bytes pkt.source) (addr_bytes d.addr))
        (peer_list (uartgw checksum) again peers pkt.payload) (again peers) d
        (peer_list-Halts pkt.payload d k) (k peers)

  pub peer_reply-Falls :
      (pkt : Packet)
      → ((ps : List FullyQualifiedChannel) → Falls ahead (again ps))
      → Falls ahead (peer_reply (uartgw checksum) again peers pkt)
  unfolding peer_reply
  peer_reply-Falls pkt k = record {
    at = λ d.
        (Falls-if ahead (equal (addr_bytes pkt.source) (addr_bytes d.addr))
            (peer_list (uartgw checksum) again peers pkt.payload) (again peers)
            (peer_list-Falls pkt.payload k) (k peers)).at
          d;
  }
