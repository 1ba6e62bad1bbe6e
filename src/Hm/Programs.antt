-- ===== src/Hm/Programs.antt =====
-- internal/hm/thermal/thermal.go: the week's heating programs in the memory of the wall thermostat.
use hmgo.Prelude.{ℕ, zero, suc, ◌+◌, ◌*◌, ◌/◌, ◌%◌, ◌^◌, ◌<◌, ◌≡◌, refl, ap, arith}
use hmgo.Prelude.{List, [], ◌∷◌, ◌++◌, Bytes, length, ◌==◌, if◌then◌else◌}

-- The end time in minutes, the temperature in halves of ℃.
pub record ProgramEntry : Type 0 where
  pub endtime : ℕ
  pub temperature : ℕ

-- The day mask has the bit of weekday 0, Sunday, first.
pub record Program : Type 0 where
  pub day_mask : ℕ
  pub endtimes : List ProgramEntry

-- Missing entries are 24:00 and 17 ℃.
abbrev pub endtime_or_midnight : ProgramEntry → ℕ
endtime_or_midnight e = if e.endtime == 0 then 1440 else e.endtime

abbrev pub temperature_or_low : ProgramEntry → ℕ
temperature_or_low e = if e.temperature == 0 then 34 else e.temperature

-- The two bytes of an entry; the bit 8 of the end time and the temperature have no common bits.
unfoldable pub encode_entry : ProgramEntry → Bytes
encode_entry e =
    let slots = endtime_or_midnight e / 5 % 2 ^ 16 in
    (slots / 2 ^ 8 % 2 + temperature_or_low e % 2 ^ 6 * 2) ∷ (slots % 2 ^ 8) ∷ []

unfoldable pub encode_program_day : List ProgramEntry → Bytes
encode_program_day [] = []
encode_program_day (e ∷ entries) = encode_entry e ++ encode_program_day entries

-- `copy(mem[offset:], bs)` for an offset inside the memory. The offsets of SetPrograms are at most
-- 176, and its memory is that of EnsureConfigured, which has 256 bytes; a memory that ends before the
-- offset, for which Go panics, is left as it is.
unfoldable pub copy_at : Bytes → ℕ → Bytes → Bytes
copy_at [] offset bs = []
copy_at mem zero [] = mem
copy_at (m ∷ mem) zero (b ∷ bs) = b ∷ copy_at mem zero bs
copy_at (m ∷ mem) (suc offset) bs = m ∷ copy_at mem offset bs

-- The weekdays in the order of the loop, and `programOffsets`.
abbrev pub program_offsets : List (ℕ × ℕ)
program_offsets = (6, 20) ∷ (0, 46) ∷ (1, 72) ∷ (2, 98) ∷ (3, 124) ∷ (4, 150) ∷ (5, 176) ∷ []

unfoldable pub set_day : ℕ → ℕ → Bytes → List Program → Bytes
unfolding encode_program_day copy_at
set_day day offset mem [] = mem
set_day day offset mem (pg ∷ programs) =
    let skipped = set_day day offset mem programs in
    let copied =
      set_day day offset (copy_at mem offset (encode_program_day pg.endtimes)) programs in
    if pg.day_mask / 2 ^ day % 2 == 1 then copied else skipped

unfoldable pub set_days : List (ℕ × ℕ) → Bytes → List Program → Bytes
unfolding set_day
set_days [] mem programs = mem
set_days ((day, offset) ∷ days) mem programs =
    set_days days (set_day day offset mem programs) programs

-- `SetPrograms`, on a memory that reaches behind the last offset.
unfoldable pub set_programs : Bytes → List Program → Bytes
unfolding set_days
set_programs mem programs = set_days program_offsets mem programs

-- The entry that two bytes stand for: nine bits of five minutes, six bits of half degrees.
abbrev pub read_entry : Bytes → ProgramEntry
read_entry (b0 ∷ b1 ∷ _) = record {
  endtime = (b0 % 2 * 2 ^ 8 + b1) * 5;
  temperature = b0 / 2 % 2 ^ 6;
}
read_entry _ = record { endtime = 0; temperature = 0 }

slot_bits :
    (e t : ℕ)
    → e < 2560
    → (e / 5 % 2 ^ 16 / 2 ^ 8 % 2 + t % 2 ^ 6 * 2) % 2 * 2 ^ 8 + e / 5 % 2 ^ 16 % 2 ^ 8 ≡ e / 5
slot_bits e t h = omega (arith, h)

degree_bits : (s t : ℕ) → t < 64 → (s / 2 ^ 8 % 2 + t % 2 ^ 6 * 2) / 2 % 2 ^ 6 ≡ t
degree_bits s t h = omega (arith, h)

-- An entry with an end time of at most 2555 minutes and a temperature below 32 ℃ is read back from
-- its two bytes, rounded down to five minutes, and with the values for missing fields put in.
pub read_entry-encode_entry :
    (e : ProgramEntry)
    → e.endtime < 2560
    → e.temperature < 64
    → read_entry (encode_entry e)
      ≡ record { endtime = endtime_or_midnight e / 5 * 5; temperature = temperature_or_low e }
unfolding encode_entry
read_entry-encode_entry e h l = λ i. record {
  endtime = slot_bits (endtime_or_midnight e) (temperature_or_low e) small i * 5;
  temperature = degree_bits (endtime_or_midnight e / 5 % 2 ^ 16) (temperature_or_low e) mild i;
}
  where
    small : endtime_or_midnight e < 2560
    small = ground (arith, h)

    mild : temperature_or_low e < 64
    mild = ground (arith, l)

pub length-copy_at :
    (mem : Bytes) (offset : ℕ) (bs : Bytes) → length (copy_at mem offset bs) ≡ length mem
unfolding copy_at
length-copy_at [] offset bs = refl
length-copy_at (m ∷ mem) zero [] = refl
length-copy_at (m ∷ mem) zero (b ∷ bs) = ap suc (length-copy_at mem zero bs)
length-copy_at (m ∷ mem) (suc offset) bs = ap suc (length-copy_at mem offset bs)
