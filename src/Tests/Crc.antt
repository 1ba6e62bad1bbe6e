-- ===== src/Tests/Crc.antt =====
-- CRC-16 with the parameters of `bidcosTable`, bit by bit: an instance of the checksum parameter.
use Prim.Native.Nat.{bit_xor}
use hmgo.Prelude.{ℕ, ◌*◌, ◌%◌, ◌<◌, ◌≡◌, refl, arith, [], ◌∷◌, bit_and, Bytes}
use hmgo.Prelude.{◌==◌, if◌then◌else◌}

shift_bit : ℕ → ℕ
shift_bit c = (if bit_and c 0x8000 == 0 then c * 2 else bit_xor (c * 2) 0x8005) % 65536

shift_byte : ℕ → ℕ
unfolding shift_bit
shift_byte c =
    shift_bit (shift_bit (shift_bit (shift_bit (shift_bit (shift_bit (shift_bit (shift_bit c)))))))

update : ℕ → Bytes → ℕ
update c [] = c
update c (b ∷ bs) = update (shift_byte (bit_xor c (b * 256))) bs

unfoldable pub crc : Bytes → ℕ
unfolding update shift_byte
crc bs = update 0xd77f bs

shift_byte-lt : (c : ℕ) → shift_byte c < 65536
unfolding shift_byte
shift_byte-lt c = omega arith

update-lt : (bs : Bytes) (c : ℕ) → c < 65536 → update c bs < 65536
unfolding update
update-lt [] c h = h
update-lt (b ∷ bs) c h = update-lt bs _ (shift_byte-lt _)

pub crc_bounded : (bs : Bytes) → crc bs < 65536
unfolding crc
crc_bounded bs = update-lt bs _ (omega arith)

bootloader_message :
    crc (
      0xfd ∷ 0x00 ∷ 0x0c ∷ 0x00 ∷ 0x00 ∷ 0x00 ∷ 0x43 ∷ 0x6f ∷ 0x5f ∷ 0x43 ∷ 0x50 ∷ 0x55 ∷ 0x5f
      ∷ 0x42 ∷ 0x4c ∷ [])
    ≡ 0x7251
unfolding crc
bootloader_message = refl
