-- ===== src/Tests/Threads.antt =====
-- The threads of ccu.go on small schedules.
use hmgo.Prelude.{ℕ, ◌≡◌, refl, false, []}
use hmgo.Uartgw.Packet.{Addr, write_packet}
use hmgo.Uart.{uart_write}
use hmgo.Uartgw.Escaping.{escaping_write}
use hmgo.Uartgw.Command.{byte}
use hmgo.Uartgw.Session.{be32}
use hmgo.Uartgw.Traffic.{send}
use hmgo.Bidcos.{encode}
use hmgo.Ccu.Threads.{
  confirming, setting_time, free, handler, System, sends, asks_time, requested, enters, writes,
  reads_answer, leaves, no_tick, locks, reads, unlocks, Reach, begins, later, start,
}
use hmgo.Ccu.Threads.Exclusion.{IsInside, IsReading, read_mu_excludes}
use hmgo.Ccu.Threads.Whole.{Whole, turn_of}
use hmgo.Ccu.Threads.Serial.{threads-Whole}
use hmgo.Ccu.Threads.Race.{both_await}
use hmgo.Tests.Crc.{crc}
use hmgo.Tests.Wire.{noon}
use hmgo.Tests.Central.{central, marshal, on_the_air}

abbrev avr_addr : Addr
avr_addr = (0x40, 0xc2, 0xa8)

both_await_example :
    (s : System) × Reach crc marshal avr_addr (λ b. Unit {0}) (central []) s
    × (s.loop ≡ setting_time)
    × (s.handlers 2 ≡ confirming 0xc8)
    × (s.read_mu ≡ handler 2)
unfolding sends asks_time send write_packet uart_write escaping_write byte encode be32
both_await_example = both_await crc marshal avr_addr 2 0xc8 noon (central []) refl refl

-- A request comes before the loop reads: the handler switches the power on, and then the loop reads
-- the power event.
abbrev Schedule : Type 0
Schedule =
    (s : System) × Reach crc marshal avr_addr (λ b. b ≡ false) (central on_the_air) s
    × (s.read_mu ≡ free)

abbrev schedule : Schedule
unfolding sends send write_packet uart_write escaping_write byte encode
schedule =
    let c = central on_the_air in
    let r0 : Reach crc marshal avr_addr (λ b. b ≡ false) c (start c) = begins in
    let r1 = later r0 tt refl (requested 2 0xc8 refl) in
    let r2 = later r1 tt refl (no_tick refl) in
    let r3 = later r2 tt refl (enters 2 0xc8 refl refl) in
    let r4 = later r3 tt refl (writes 2 0xc8 refl) in
    let r5 = later r4 tt refl (reads_answer 2 0xc8 refl) in
    let r6 = later r5 tt refl (leaves 2 refl) in
    let r7 = later r6 tt refl (locks refl refl) in
    let r8 = later r7 tt refl (reads refl) in (_, later r8 tt refl (unlocks _ refl), refl)

threads-Whole_example :
    Whole crc marshal avr_addr (central on_the_air) schedule.0.central (turn_of schedule.0.loop)
threads-Whole_example =
    threads-Whole crc marshal avr_addr (central on_the_air) schedule.0 schedule.1 schedule.2

-- Two requests, of which one is inside.
abbrev Crowd : Type 0
Crowd = (s : System) × Reach crc marshal avr_addr (λ b. Unit {0}) (central []) s

abbrev crowd : Crowd
crowd =
    let c = central [] in
    let r0 : Reach crc marshal avr_addr (λ b. Unit {0}) c (start c) = begins in
    let r1 = later r0 tt tt (requested 2 0xc8 refl) in
    let r2 = later r1 tt tt (requested 3 0x00 refl) in (_, later r2 tt tt (enters 3 0x00 refl refl))

read_mu_excludes_example :
    ((i j : ℕ) → IsInside (crowd.0.handlers i) → IsInside (crowd.0.handlers j) → i ≡ j)
    × ((i : ℕ) → IsInside (crowd.0.handlers i) → ¬ IsReading crowd.0.loop)
read_mu_excludes_example =
    read_mu_excludes crc marshal avr_addr (λ b. Unit {0}) (central []) crowd.0 crowd.1
