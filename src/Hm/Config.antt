-- ===== src/Hm/Config.antt =====
-- internal/hm/hm.go: reading the configuration memory of a device, and changing it.
use hmgo.Prelude.{ℕ, zero, suc, ◌+◌, ◌-◌, ◌*◌, ◌/◌, ◌%◌, [], ◌∷◌, Bool, true, false}
use hmgo.Prelude.{Bytes, length, set, take, drop, equal, ltb, ◌==◌, if◌then◌else◌}
use hmgo.Effect.{Outcome, ok, fail, panic, Effect, pure, lift, out_of_fuel}
use hmgo.Effect.{◌>>=◌, ◌>>◌}
use hmgo.Fault.{Error, unexpected_reply}
use hmgo.Uartgw.Packet.{addr_bytes}
use hmgo.Bidcos.{Packet, Gateway, read_packet}
use hmgo.Hm.{StandardDevice, on_sender, config_param_req, config_start, config_write_index}
use hmgo.Hm.{config_end}

-- `mem[i] = v`.
unfoldable pub store : Bytes → ℕ → ℕ → Outcome Error Bytes
store mem i v = if ltb i (length mem) then ok (set mem i v) else panic

-- What comes after a step that may fail.
abbrev pub and_then : Outcome Error Bytes → (Bytes → Outcome Error Bytes) → Outcome Error Bytes
and_then (ok mem) f = f mem
and_then (fail e) f = fail e
and_then o f = o

-- The loop over idx/val byte pairs. A single byte at the end is `p[i+1]` out of range.
unfoldable pub store_pairs : Bytes → Bytes → Outcome Error Bytes
unfolding store
store_pairs mem [] = ok mem
store_pairs mem (i ∷ []) = panic
store_pairs mem (i ∷ v ∷ rest) = and_then (store mem i v) (λ m. store_pairs m rest)

-- The loop over values, the first of them for index `i`. The index is a byte.
unfoldable pub store_seq : Bytes → ℕ → Bytes → Outcome Error Bytes
unfolding store
store_seq mem i [] = ok mem
store_seq mem i (v ∷ rest) = and_then (store mem i v) (λ m. store_seq m ((i + 1) % 256) rest)

-- The cases of the `switch`: the new memory, and whether the reply ends the configuration.
unfoldable pub pairs_response : Bytes → Bytes → Outcome Error Bytes × Bool
unfolding store_pairs
pairs_response mem rest =
    if equal rest (0x00 ∷ 0x00 ∷ []) then (ok mem, true) else (store_pairs mem rest, false)

unfoldable pub seq_response : Bytes → Bytes → Outcome Error Bytes × Bool
unfolding store_seq
seq_response mem [] = (panic, false)
seq_response mem (start ∷ rest) =
    if start == 0x00 then (ok mem, true) else (store_seq mem start rest, false)

unfoldable pub param_response : Bytes → Bytes → Outcome Error Bytes × Bool
unfolding pairs_response seq_response
param_response mem [] = (panic, false)
param_response mem (kind ∷ rest) =
    if kind == 2
    then pairs_response mem rest
    else if kind == 3
    then seq_response mem rest
    else (fail (unexpected_reply (kind ∷ rest)), false)

-- The body of the loop `ReadConfig`: packets from other devices are dropped.
unfoldable pub config_reply :
    {S : Type 0}
    → (Bytes → Effect (StandardDevice S) Error Bytes)
    → Bytes
    → Packet
    → Effect (StandardDevice S) Error Bytes
unfolding param_response
config_reply again mem pkt d =
    (if equal (addr_bytes pkt.source) (addr_bytes d.addr)
        then (lift (param_response mem pkt.payload).0 >>= λ m.
            if (param_response mem pkt.payload).1 then pure m else again m)
        else again mem)
      d

module _ {S : Type 0} (gw : Gateway S) where
  unfoldable pub read_config : ℕ → Bytes → Effect (StandardDevice S) Error Bytes
  unfolding config_reply
  read_config zero mem = out_of_fuel
  read_config (suc fuel) mem = on_sender (read_packet gw) >>= config_reply (read_config fuel) mem

  unfoldable pub load_config : ℕ → Bytes → ℕ → ℕ → Effect (StandardDevice S) Error Bytes
  load_config fuel mem channel paramlist = do
    config_param_req gw channel paramlist
    read_config fuel mem

-- The index/value pairs for the bytes that differ, from index `i` on.
unfoldable pub changes : ℕ → Bytes → Bytes → Bytes
changes i (x ∷ xs) (y ∷ ys) =
    let rest = changes (i + 1) xs ys in if x == y then rest else i % 256 ∷ y ∷ rest
changes i _ _ = []

-- `make([]byte, n)`.
unfoldable pub zeros : ℕ → Bytes
zeros zero = []
zeros (suc n) = 0 ∷ zeros n

-- The number of blocks of 14 bytes for `n` bytes.
unfoldable pub blocks : ℕ → ℕ
blocks n = if ltb 0 (n % 14) then n / 14 + 1 else n / 14

-- `pairs[offset:offset+rest]` for the block `i`.
unfoldable pub block : Bytes → ℕ → Bytes
block pairs i =
    let offset = 14 * i in
    let rest = length pairs - offset in take (if ltb 14 rest then 14 else rest) (drop offset pairs)

module _ {S : Type 0} (gw : Gateway S) where
  -- The loop over the blocks, `left` of them from the block `i` on.
  unfoldable pub write_blocks : ℕ → ℕ → Bytes → Effect (StandardDevice S) Error (Unit {0})
  write_blocks zero i pairs = pure tt
  write_blocks (suc left) i pairs =
      config_write_index gw 0 (block pairs i) >> write_blocks left (i + 1) pairs

  unfoldable pub write_changes : ℕ → ℕ → Bytes → Effect (StandardDevice S) Error (Unit {0})
  write_changes channel paramlist [] = pure tt
  write_changes channel paramlist pairs = do
    config_start gw channel paramlist
    write_blocks (blocks (length pairs)) 0 pairs
    config_end gw channel

  -- `EnsureConfigured`; the callback changes the bytes of a copy of the memory, or fails.
  unfoldable pub ensure_configured :
      ℕ → ℕ → ℕ → (Bytes → Outcome Error Bytes) → Effect (StandardDevice S) Error (Unit {0})
  unfolding load_config write_changes
  ensure_configured fuel channel paramlist cb = do
    devmem ← load_config gw fuel (zeros 256) channel paramlist
    target ← lift (cb devmem)
    write_changes channel paramlist (changes 0 devmem target)
