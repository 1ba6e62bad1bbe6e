-- ===== src/Uartgw/Packet/Frame.antt =====
-- The frame format that the comment of uartgw.go describes, in one expression.
use hmgo.Prelude.{ℕ, ◌<◌, ◌≡◌, ap, arith}
use hmgo.Prelude.{◌∷◌, ◌++◌, append_assoc, Bytes, length}
use hmgo.Uartgw.Escaping.{escape}
use hmgo.Uartgw.Escaping.Writer.{escape-append}
use hmgo.Uartgw.Packet.{be16, from_be16}

pub from_be16-be16 : (v : ℕ) → v < 65536 → from_be16 (be16 v) ≡ v
from_be16-be16 v h = omega arith

-- Escaping goes part by part.
escape_three :
    (xs ys zs rest : Bytes)
    → escape (xs ++ (ys ++ zs)) ++ rest ≡ escape xs ++ (escape ys ++ (escape zs ++ rest))
escape_three xs ys zs rest = simp (escape-append, append_assoc)

-- What the checksum covers: the delimiter, the length and the packet.
abbrev pub covered : Bytes → Bytes
covered body = 0xfd ∷ (be16 (length body) ++ body)

-- A frame that carries the checksum `crc`.
abbrev pub frame_with : ℕ → Bytes → Bytes
frame_with crc body = 0xfd ∷ escape (be16 (length body) ++ (body ++ be16 crc))

abbrev pub frame : (Bytes → ℕ) → Bytes → Bytes
frame checksum body = frame_with (checksum (covered body)) body

-- The three parts are escaped one by one.
pub frame_with_parts :
    (crc : ℕ) (body rest : Bytes)
    → frame_with crc body ++ rest
      ≡ 0xfd ∷ (escape (be16 (length body)) ++ (escape body ++ (escape (be16 crc) ++ rest)))
frame_with_parts crc body rest = ap (◌∷◌ 0xfd) (escape_three (be16 (length body)) body _ rest)
