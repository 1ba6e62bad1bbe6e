-- ===== src/Hm/Schedule.antt =====
-- Where SetPrograms writes.
use hmgo.Prelude.{ℕ, zero, suc, ◌+◌, ◌*◌, ◌≡◌, ◌≤◌, refl, ap, ◌∙◌, arith, List, [], ◌∷◌}
use hmgo.Prelude.{Bytes, length, take, drop, All, Bool-cases}
use hmgo.Prelude.{inl, inr, ◌==◌, ◌/◌, ◌%◌, ◌^◌}
use hmgo.Hm.Programs.{
  ProgramEntry, Program, encode_entry, encode_program_day, copy_at, set_day, set_days, set_programs,
  program_offsets, length-copy_at,
}

take-copy_at :
    (n : ℕ) (mem : Bytes) (offset : ℕ) (bs : Bytes)
    → n ≤ offset
    → take n (copy_at mem offset bs) ≡ take n mem
unfolding copy_at
take-copy_at zero mem offset bs h = refl
take-copy_at (suc n) [] offset bs h = refl
take-copy_at (suc n) (m ∷ mem) zero bs h = ground arith
take-copy_at (suc n) (m ∷ mem) (suc offset) bs h =
    ap (◌∷◌ m) (take-copy_at n mem offset bs (omega (arith, h)))

drop-copy_at :
    (n : ℕ) (mem : Bytes) (offset : ℕ) (bs : Bytes)
    → offset + length bs ≤ n
    → drop n (copy_at mem offset bs) ≡ drop n mem
unfolding copy_at
drop-copy_at n [] offset bs h = refl
drop-copy_at n (m ∷ mem) zero [] h = refl
drop-copy_at zero (m ∷ mem) zero (b ∷ bs) h = ground arith
drop-copy_at (suc n) (m ∷ mem) zero (b ∷ bs) h = drop-copy_at n mem zero bs (omega (arith, h))
drop-copy_at zero (m ∷ mem) (suc offset) bs h = ground arith
drop-copy_at (suc n) (m ∷ mem) (suc offset) bs h = drop-copy_at n mem offset bs (omega (arith, h))

-- The two memories have the same length, and differ at most from `lo` up to `hi`.
pub record Within (lo hi : ℕ) (mem new : Bytes) : Type 0 where
  pub before : take lo new ≡ take lo mem
  pub behind : drop hi new ≡ drop hi mem
  pub size : length new ≡ length mem

Within-refl : (lo hi : ℕ) (mem : Bytes) → Within lo hi mem mem
Within-refl lo hi mem = record { before = refl; behind = refl; size = refl }

Within-trans : {lo hi : ℕ} {a b c : Bytes} → Within lo hi a b → Within lo hi b c → Within lo hi a c
Within-trans v w = record {
  before = w.before ∙ v.before;
  behind = w.behind ∙ v.behind;
  size = w.size ∙ v.size;
}

-- A program for a day has thirteen entries.
abbrev pub IsFull : Program → Type 0
IsFull p = length p.endtimes ≡ 13

pub length-encode_program_day :
    (es : List ProgramEntry) → length (encode_program_day es) ≡ 2 * length es
unfolding encode_program_day encode_entry
length-encode_program_day [] = omega arith
length-encode_program_day (e ∷ es) = omega (arith, length-encode_program_day es)

module _ (lo hi : ℕ) where
  set_day-Within :
      (day offset : ℕ) (mem : Bytes) (programs : List Program)
      → lo ≤ offset
      → offset + 26 ≤ hi
      → All IsFull programs
      → Within lo hi mem (set_day day offset mem programs)
  unfolding set_day
  set_day-Within day offset mem [] l h f = Within-refl lo hi mem
  set_day-Within day offset mem (pg ∷ programs) l h (f, fs) =
      let bs = encode_program_day pg.endtimes in
      let copied : Within lo hi mem (copy_at mem offset bs) = record {
        before = take-copy_at lo mem offset bs l;
        behind =
            drop-copy_at hi mem offset bs
              (omega (arith, h, f, length-encode_program_day pg.endtimes));
        size = length-copy_at mem offset bs;
      } in
      elim (Bool-cases (pg.day_mask / 2 ^ day % 2 == 1)) [
        | inl on ↦ rw on (
            Within-trans copied (set_day-Within day offset (copy_at mem offset bs) programs l h fs))
        | inr off ↦ rw off (set_day-Within day offset mem programs l h fs)
      ]

  -- The offset of a day leaves room for its 26 bytes.
  abbrev Fits : ℕ × ℕ → Type 0
  Fits (day, offset) = (lo ≤ offset) × (offset + 26 ≤ hi)

  set_days-Within :
      (days : List (ℕ × ℕ)) (mem : Bytes) (programs : List Program)
      → All Fits days
      → All IsFull programs
      → Within lo hi mem (set_days days mem programs)
  unfolding set_days
  set_days-Within [] mem programs h f = Within-refl lo hi mem
  set_days-Within ((day, offset) ∷ days) mem programs ((l, r), hs) f =
      Within-trans (set_day-Within day offset mem programs l r f)
        (set_days-Within days (set_day day offset mem programs) programs hs f)

-- For programs with thirteen entries for each day, SetPrograms keeps the length of the memory and
-- changes no byte outside the offsets 20 to 201.
pub set_programs-Within :
    (mem : Bytes) (programs : List Program)
    → All IsFull programs
    → Within 20 202 mem (set_programs mem programs)
unfolding set_programs
set_programs-Within mem programs f =
    set_days-Within 20 202 program_offsets mem programs (omega arith) f
