-- ===== src/Ccu/Threads/Race.antt =====
-- readMu is not held for SetTime.
use hmgo.Prelude.{ℕ, ◌≡◌, refl, ap, ◌∙◌, Option, Bytes}
use hmgo.Effect.{ok}
use hmgo.Uartgw.Packet.{Addr}
use hmgo.Uartgw.Session.{Time}
use hmgo.Ccu.Devices.{Event, Ccu}
use hmgo.Ccu.Threads.Beside.{update_self}
use hmgo.Ccu.Threads.{
  gone, waiting, sending, confirming, setting_time, handler, System, update, next, when_sent, sends,
  asks_time, requested, enters, writes, tick, Reach, begins, later, start,
}

module _ (checksum : Bytes → ℕ) (marshal : Event → Option Bytes) (addr : Addr) where
  -- Without a fault on the line, a tick of the clock can come while a handler awaits the answer to its
  -- request, and then SetTime awaits an answer too: there is a state that the threads can get to in
  -- which both are between their request and the answer to it, with readMu held by the handler.
  pub both_await :
      (i state : ℕ) (now : Time) (c : Ccu)
      → (sends checksum addr state c.bcs).0 ≡ ok tt
      → (asks_time checksum now (sends checksum addr state c.bcs).1.gateway).0 ≡ ok tt
      → (s : System) × Reach checksum marshal addr (λ b. Unit {0}) c s
        × (s.loop ≡ setting_time)
        × (s.handlers i ≡ confirming state)
        × (s.read_mu ≡ handler i)
  both_await i state now c e f =
      let r1 = later begins tt tt (requested {s = start c} i state refl) in
      let hs1 = update (λ j. gone) i (waiting state) in
      let r2 = later r1 tt tt (enters i state (update_self (λ j. gone) i (waiting state)) refl) in
      let hs2 = update hs1 i (sending state) in
      let r3 = later r2 tt tt (writes i state (update_self hs1 i (sending state))) in
      let r4 = later r3 tt tt (tick now refl) in
      (_, r4, ap (next setting_time) f, update_self hs2 i _ ∙ ap (when_sent state) e, refl)
