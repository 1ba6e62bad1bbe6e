-- ===== src/Uartgw/Session/Initialised.antt =====
-- What the initialisation sends, and the counter, the identity and the device state after it.
use hmgo.Prelude.{ℕ, ◌+◌, ◌%◌, ◌^◌, List, [], ◌∷◌, ◌++◌}
use hmgo.Prelude.{Bytes}
use hmgo.Effect.{Effect}
use hmgo.Uartgw.Packet.Frame.{frame}
use hmgo.Uartgw.Packet.{Addr, Packet, Uartgw, addr_bytes}
use hmgo.Uartgw.Session.{Time, be32, half_hours, key_payload}

-- The destination, the byte of the command and the payload of a message.
abbrev pub Message : Type 0
Message = ℕ × ℕ × Bytes

-- The messages of the initialisation, in their order: change to the application, get the firmware
-- version, enable CSMA/CA, get the serial number, set the time, the key and the identity.
abbrev pub init_messages : Time → Addr → List Message
init_messages now hmid =
    (0, 0x03, [])
    ∷ (0, 0x02, [])
    ∷ (0, 0x0a, 0x01 ∷ [])
    ∷ (0, 0x0b, [])
    ∷ (0, 0x0e, be32 (now.unix % 2 ^ 32) ++ half_hours now.zone ∷ [])
    ∷ (1, 0x03, key_payload)
    ∷ (1, 0x00, addr_bytes hmid)
    ∷ []

abbrev turn : ℕ → ℕ
turn n = (n + 1) % 256

module _ (checksum : Bytes → ℕ) where
  -- The frames of messages, with the counters from `n` on.
  abbrev pub frames_from : ℕ → List Message → Bytes
  frames_from n [] = []
  frames_from n ((dst, k, payload) ∷ messages) =
      frame checksum (dst ∷ n ∷ k ∷ payload) ++ frames_from ((n + 1) % 256) messages
