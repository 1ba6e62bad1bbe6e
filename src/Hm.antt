-- ===== src/Hm.antt =====
-- internal/hm/hm.go: what all HomeMatic devices share. A device with its sender, and the
-- configuration messages.
pub mod Config
pub mod Peering
pub mod Peered
pub mod Replaced
pub mod Refused
pub mod Power
pub mod Thermal
pub mod Heating
pub mod Programs
pub mod Schedule
pub mod Names
pub mod Gauges
pub mod Acknowledged
pub mod Line
pub mod Placed
pub mod Reconfigured
pub mod Settling
pub mod Termination
pub mod Blocks
pub mod Link
pub mod Cutting
pub mod Configured
use hmgo.Prelude.{ℕ, ◌+◌, ◌%◌, ◌^◌, [], ◌∷◌, ◌++◌, Bytes, bit_or}
use hmgo.Effect.{ok, Effect, ◌>>=◌, ◌>>◌}
use hmgo.Fault.{Error}
use hmgo.Uartgw.Packet.{Addr, addr_bytes}
use hmgo.Bidcos.{Packet, Gateway, Sender, config, default_flags, burst_flag, write_packet}

pub record FullyQualifiedChannel : Type 0 where
  pub peer : Addr
  pub channel : ℕ

-- `StandardDevice`, with the state of its sender.
pub record StandardDevice (S : Type 0) : Type 0 where
  pub bcs : Sender S
  pub addr : Addr
  pub msgcnt : ℕ

module _ {S : Type 0} where
  abbrev pub on_sender :
      {A : Type 0} → Effect (Sender S) Error A → Effect (StandardDevice S) Error A
  on_sender m d = ((m d.bcs).0, record d { bcs = (m d.bcs).1 })

  -- `count`.
  unfoldable pub count : Effect (StandardDevice S) Error ℕ
  count d = (ok d.msgcnt, record d { msgcnt = (d.msgcnt + 9) % 2 ^ 8 })

-- `&bidcos.Packet{…, Cmd: bidcos.Config, …}`; `Encode` ignores what is not named there.
abbrev pub config_packet : Addr → ℕ → ℕ → Bytes → Packet
config_packet dest flags msgcnt payload = record {
  status = 0;
  info = 0;
  rssi = 0;
  msgcnt = msgcnt;
  flags = flags;
  cmd = config;
  source = (0, 0, 0);
  dest = dest;
  payload = payload;
}

module _ {S : Type 0} (gw : Gateway S) where
  -- `sd.BCS.WritePacket(&bidcos.Packet{Msgcnt: sd.count(), …})`.
  unfoldable pub write_config : ℕ → Bytes → Effect (StandardDevice S) Error (Unit {0})
  unfolding count
  write_config flags payload d =
      (do n ← count; on_sender (write_packet gw (config_packet d.addr flags n payload))) d

  unfoldable pub config_start : ℕ → ℕ → Effect (StandardDevice S) Error (Unit {0})
  config_start channel paramlist =
      write_config default_flags (channel ∷ 5 ∷ 0 ∷ 0 ∷ 0 ∷ 0 ∷ paramlist ∷ [])

  unfoldable pub config_write_index : ℕ → Bytes → Effect (StandardDevice S) Error (Unit {0})
  config_write_index channel kv = write_config default_flags (channel ∷ 8 ∷ kv)

  unfoldable pub config_end : ℕ → Effect (StandardDevice S) Error (Unit {0})
  config_end channel = write_config default_flags (channel ∷ 6 ∷ [])

  -- The three bytes of `sd.BCS.Addr`.
  unfoldable pub pair_keys : Addr → Bytes
  pair_keys (a, b, c) = 0x02 ∷ 0x01 ∷ 0x0a ∷ a ∷ 0x0b ∷ b ∷ 0x0c ∷ c ∷ []

  unfoldable pub pair : Effect (StandardDevice S) Error (Unit {0})
  unfolding config_start config_write_index config_end pair_keys
  pair d = (do config_start 0 0; config_write_index 0 (pair_keys d.bcs.addr); config_end 0) d

  unfoldable pub config_param_req : ℕ → ℕ → Effect (StandardDevice S) Error (Unit {0})
  config_param_req channel paramlist =
      write_config (bit_or default_flags burst_flag) (channel ∷ 4 ∷ 0 ∷ 0 ∷ 0 ∷ 0 ∷ paramlist ∷ [])

  unfoldable pub config_peer_list_req : ℕ → Effect (StandardDevice S) Error (Unit {0})
  config_peer_list_req channel = write_config (bit_or default_flags burst_flag) (channel ∷ 3 ∷ [])

  unfoldable pub config_peer_add :
      ℕ → FullyQualifiedChannel → Effect (StandardDevice S) Error (Unit {0})
  config_peer_add channel p =
      write_config (bit_or default_flags burst_flag)
        (channel ∷ 1 ∷ (addr_bytes p.peer ++ (p.channel ∷ 0x00 ∷ [])))

  unfoldable pub config_peer_remove :
      ℕ → FullyQualifiedChannel → Effect (StandardDevice S) Error (Unit {0})
  config_peer_remove channel p =
      write_config (bit_or default_flags burst_flag)
        (channel ∷ 2 ∷ (addr_bytes p.peer ++ (p.channel ∷ 0x00 ∷ [])))
