-- ===== src/Hm/Names.antt =====
-- internal/hm/hm.go: the address of a device as text, which labels its gauges.
use hmgo.Prelude.{ℕ, ◌+◌, ◌-◌, ◌*◌, ◌/◌, ◌%◌, ◌<◌, ◌≡◌, sym, ap, ◌∙◌, arith, [], ◌∷◌, ◌++◌}
use hmgo.Prelude.{Bytes, codes, ltb, if◌then◌else◌}
use hmgo.Uartgw.Packet.{Addr}

-- A digit of the verb `%x`.
abbrev hex_digit : ℕ → ℕ
hex_digit n = if ltb n 10 then 48 + n else 87 + n

-- `AddrHex`: `%x` of an array of bytes has two digits for each.
unfoldable pub addr_hex : Addr → Bytes
addr_hex (a, b, c) =
    hex_digit (a / 16)
    ∷ hex_digit (a % 16)
    ∷ hex_digit (b / 16)
    ∷ hex_digit (b % 16)
    ∷ hex_digit (c / 16)
    ∷ hex_digit (c % 16)
    ∷ []

-- `String`.
unfoldable pub device_string : Addr → Bytes
unfolding addr_hex
device_string addr = codes "[BidCoS:" ++ (addr_hex addr ++ codes "]")

-- Reading it back.
abbrev digit_value : ℕ → ℕ
digit_value d = if ltb d 58 then d - 48 else d - 87

abbrev read_addr : Bytes → Addr
read_addr (p ∷ q ∷ r ∷ s ∷ t ∷ u ∷ more) = (
  digit_value p * 16 + digit_value q,
  digit_value r * 16 + digit_value s,
  digit_value t * 16 + digit_value u,
)
read_addr _ = (0, 0, 0)

abbrev pub IsAddr : Addr → Type 0
IsAddr (a, b, c) = (a < 256) × (b < 256) × (c < 256)

digit_value-hex_digit : (n : ℕ) → n < 16 → digit_value (hex_digit n) ≡ n
digit_value-hex_digit n h = ground arith

byte_of_digits :
    (a : ℕ) → a < 256 → digit_value (hex_digit (a / 16)) * 16 + digit_value (hex_digit (a % 16)) ≡ a
byte_of_digits a h =
    let high = digit_value-hex_digit (a / 16) (omega arith) in
    let low = digit_value-hex_digit (a % 16) (omega arith) in omega (arith, high, low)

read_addr-addr_hex : (addr : Addr) → IsAddr addr → read_addr (addr_hex addr) ≡ addr
unfolding addr_hex
read_addr-addr_hex (a, b, c) (ha, hb, hc) =
    let x = byte_of_digits a ha in let y = byte_of_digits b hb in let z = byte_of_digits c hc in cc

pub addr_hex_distinct : (a b : Addr) → IsAddr a → IsAddr b → addr_hex a ≡ addr_hex b → a ≡ b
addr_hex_distinct a b ia ib e =
    sym (read_addr-addr_hex a ia) ∙ ap read_addr e ∙ read_addr-addr_hex b ib
