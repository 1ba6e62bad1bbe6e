-- ===== src/Ccu/Threads.antt =====
-- ccu.go: the main loop and the handlers of /power/on and /power/off as threads, and readMu.
pub mod Apart
pub mod Exclusion
pub mod Whole
pub mod Beside
pub mod Serial
pub mod Race
use hmgo.Prelude.{ℕ, ◌%◌, ◌^◌, ◌≡◌, [], ◌∷◌, ◌++◌, Bool, true, false, Option, Bytes, ◌==◌}
use hmgo.Prelude.{if◌then◌else◌}
use hmgo.Effect.{Outcome, ok, fail, panic, stuck, Effect, lift, ◌>>=◌}
use hmgo.Fault.{Error}
use hmgo.Uartgw.Command.{os, os_set_time, app_ack}
use hmgo.Uartgw.Packet.{Packet, Addr, Uartgw, read_packet, write_packet}
use hmgo.Uartgw.Session.{Time, request, be32, half_hours, expect_cmd}
use hmgo.Bidcos.{Gateway, Sender, decode, default_flags, device_info, encoded}
use hmgo.Bidcos
use hmgo.Bidcos.Radio.{uartgw}
use hmgo.Ccu.Devices.{Event, Ccu}
use hmgo.Ccu.Devices
use hmgo.Ccu.Loop.{handle_received}

-- What `LevelSet` sends to the power switch at `addr`, on its switch channel.
abbrev pub level_packet : Addr → ℕ → Bidcos.Packet
level_packet addr state = record {
  status = 0;
  info = 0;
  rssi = 0;
  msgcnt = 0;
  flags = default_flags;
  cmd = 0x11;
  source = (0, 0, 0);
  dest = addr;
  payload = 0x02 ∷ 0x01 ∷ state ∷ 0x00 ∷ 0x00 ∷ [];
}

-- A handler: its request has come, it holds readMu before, between and after the two calls of the
-- gateway that make up LevelSet, and it is gone.
pub data Handler : Type 0 where
  gone : Handler
  waiting : ℕ → Handler
  sending : ℕ → Handler
  confirming : ℕ → Handler
  leaving : Handler

-- The main loop: before its `select`, between the two halves of SetTime, before `readMu.Lock()`, in
-- and after ReadPacket with readMu held, with what ReadPacket returned, and at the end of the program.
pub data Loop : Type 0 where
  selecting : Loop
  setting_time : Loop
  locking : Loop
  reading : Loop
  unlocking : Outcome Error Packet → Loop
  handling : Outcome Error Packet → Loop
  ended : Loop

pub data Holder : Type 0 where
  free : Holder
  main : Holder
  handler : ℕ → Holder

-- The handlers are numbered. They share the sender with the main loop, which alone has the rest.
pub record System : Type 0 where
  pub central : Ccu
  pub read_mu : Holder
  pub loop : Loop
  pub handlers : ℕ → Handler

abbrev pub update : (ℕ → Handler) → ℕ → Handler → ℕ → Handler
update hs i h j = if i == j then h else hs j

abbrev pub with_bcs : Sender Uartgw → Ccu → Ccu
with_bcs b c = record c { bcs = b }

-- Where the loop goes on.
abbrev pub next : Loop → Outcome Error (Unit {0}) → Loop
next l (ok x) = l
next l _ = ended

abbrev pub when_sent : ℕ → Outcome Error (Unit {0}) → Handler
when_sent state (ok x) = confirming state
when_sent state _ = leaving

abbrev pub IsRunning : Loop → Type 0
IsRunning ended = ⊥
IsRunning _ = Unit {0}

-- Whether the packet is a peering request, for which the loop uses the gateway again.
abbrev pub is_request : Outcome Error Bidcos.Packet → Bool
is_request (ok p) = p.cmd == device_info
is_request _ = false

abbrev pub asks_peering : Outcome Error Packet → Bool
asks_peering (ok pkt) = is_request (decode pkt.payload)
asks_peering _ = false

-- Before any request, at the entry of the loop.
abbrev pub start : Ccu → System
start c = record { central = c; read_mu = free; loop = selecting; handlers = λ i. gone }

module _ (checksum : Bytes → ℕ) where
  -- The two calls of the gateway in LevelSet.
  unfoldable pub sends : Addr → ℕ → Effect (Sender Uartgw) Error (Unit {0})
  sends addr state = encoded (level_packet addr state) >>= λ bs.
      Bidcos.on_gateway (Gateway.write (uartgw checksum) bs)

  unfoldable pub confirms : Effect (Sender Uartgw) Error (Unit {0})
  confirms = Bidcos.on_gateway (Gateway.confirm (uartgw checksum))

  -- The two halves of SetTime.
  unfoldable pub asks_time : Time → Effect Uartgw Error (Unit {0})
  asks_time now =
      write_packet checksum
        (request os os_set_time (be32 (now.unix % 2 ^ 32) ++ half_hours now.zone ∷ []))

  unfoldable pub takes_answer : Effect Uartgw Error (Unit {0})
  unfolding expect_cmd
  takes_answer = read_packet checksum >>= λ pkt. expect_cmd pkt app_ack

module _ (checksum : Bytes → ℕ) (marshal : Event → Option Bytes) where
  -- What the loop does with what ReadPacket returned.
  unfoldable pub process : Outcome Error Packet → Effect Ccu Error (Unit {0})
  unfolding handle_received
  process o = lift o >>= handle_received checksum marshal

module _ (checksum : Bytes → ℕ) (marshal : Event → Option Bytes) (addr : Addr) where
  -- A move of one thread; `true` marks those that use the gateway without readMu. A peering request
  -- is answered in one move.
  pub data Move : Bool → System → System → Type 0 where
    requested :
        {s : System} (i state : ℕ)
        → s.handlers i ≡ gone
        → Move false s (record s { handlers = update s.handlers i (waiting state) })
    enters :
        {s : System} (i state : ℕ)
        → s.handlers i ≡ waiting state
        → s.read_mu ≡ free
        → Move false s
            (record s { read_mu = handler i; handlers = update s.handlers i (sending state) })
    writes :
        {s : System} (i state : ℕ)
        → s.handlers i ≡ sending state
        → Move false s (record s {
          central = with_bcs (sends checksum addr state s.central.bcs).1 s.central;
          handlers =
              update s.handlers i (when_sent state (sends checksum addr state s.central.bcs).0);
        })
    reads_answer :
        {s : System} (i state : ℕ)
        → s.handlers i ≡ confirming state
        → Move false s (record s {
          central = with_bcs (confirms checksum s.central.bcs).1 s.central;
          handlers = update s.handlers i leaving;
        })
    leaves :
        {s : System} (i : ℕ)
        → s.handlers i ≡ leaving
        → Move false s (record s { read_mu = free; handlers = update s.handlers i gone })
    no_tick : {s : System} → s.loop ≡ selecting → Move false s (record s { loop = locking })
    tick :
        {s : System} (now : Time)
        → s.loop ≡ selecting
        → Move true s (record s {
          central = (Devices.on_gateway (asks_time checksum now) s.central).1;
          loop = next setting_time (asks_time checksum now s.central.bcs.gateway).0;
        })
    time_set :
        {s : System}
        → s.loop ≡ setting_time
        → Move true s (record s {
          central = (Devices.on_gateway (takes_answer checksum) s.central).1;
          loop = next locking (takes_answer checksum s.central.bcs.gateway).0;
        })
    locks :
        {s : System}
        → s.loop ≡ locking
        → s.read_mu ≡ free
        → Move false s (record s { read_mu = main; loop = reading })
    reads :
        {s : System}
        → s.loop ≡ reading
        → Move false s (record s {
          central = (Devices.on_gateway (read_packet checksum) s.central).1;
          loop = unlocking (read_packet checksum s.central.bcs.gateway).0;
        })
    unlocks :
        {s : System} (o : Outcome Error Packet)
        → s.loop ≡ unlocking o
        → Move false s (record s { read_mu = free; loop = handling o })
    handles :
        {s : System} (o : Outcome Error Packet)
        → s.loop ≡ handling o
        → Move (asks_peering o) s (record s {
          central = (process checksum marshal o s.central).1;
          loop = next selecting (process checksum marshal o s.central).0;
        })

  -- The states that moves of the marks in `P` lead to, from the central `c`.
  pub data Reach (P : Bool → Type 0) (c : Ccu) : System → Type 0 where
    begins : Reach P c (start c)
    later :
        {s t : System} {b : Bool} → Reach P c s → IsRunning s.loop → P b → Move b s t → Reach P c t
