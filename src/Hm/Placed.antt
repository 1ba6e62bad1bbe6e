-- ===== src/Hm/Placed.antt =====
-- SetPrograms as at most one copy for each day: the last program for a day wins.
use hmgo.Prelude.{ℕ, zero, suc, ◌+◌, ◌≡◌, ◌≤◌, refl, sym, ap, ◌∙◌, arith, List, [], ◌∷◌}
use hmgo.Prelude.{Bytes, length, All, Bool, true, false, Option, none, some, Bool-cases, inl, inr}
use hmgo.Prelude.{◌<◌, ◌-◌, ◌*◌, ◌⊎◌, ltb, leb, ◌&&◌, get_elem?, ◌==◌, ◌/◌, ◌%◌, ◌^◌, if◌then◌else◌}
use hmgo.Hm.Programs.{
  Program, encode_program_day, copy_at, set_day, set_days, set_programs, program_offsets,
}
use hmgo.Hm.Schedule.{IsFull, length-encode_program_day}

-- The later one of two choices.
abbrev later : Option Bytes → Option Bytes → Option Bytes
later (some bs) first = some bs
later none first = first

-- The encoding of the last program whose mask has the day.
unfoldable pub last_for : ℕ → List Program → Option Bytes
last_for day [] = none
last_for day (pg ∷ programs) =
    later (last_for day programs)
      (if pg.day_mask / 2 ^ day % 2 == 1 then some (encode_program_day pg.endtimes) else none)

abbrev pub place : Bytes → ℕ → Option Bytes → Bytes
place mem offset none = mem
place mem offset (some bs) = copy_at mem offset bs

unfoldable pub placed : List (ℕ × ℕ) → Bytes → List Program → Bytes
placed [] mem programs = mem
placed ((day, offset) ∷ days) mem programs =
    placed days (place mem offset (last_for day programs)) programs

-- A choice of 26 bytes.
abbrev pub IsDay : Option Bytes → Type 0
IsDay none = Unit {0}
IsDay (some bs) = length bs ≡ 26

later-IsDay : (c e : Option Bytes) → IsDay c → IsDay e → IsDay (later c e)
later-IsDay none e h k = k
later-IsDay (some bs) e h k = h

chosen-IsDay : (on : Bool) (bs : Bytes) → length bs ≡ 26 → IsDay (if on then some bs else none)
chosen-IsDay true bs h = h
chosen-IsDay false bs h = tt

full_day : (pg : Program) → IsFull pg → length (encode_program_day pg.endtimes) ≡ 26
full_day pg f = omega (arith, f, length-encode_program_day pg.endtimes)

pub last_for-IsDay :
    (day : ℕ) (programs : List Program) → All IsFull programs → IsDay (last_for day programs)
unfolding last_for
last_for-IsDay day [] f = tt
last_for-IsDay day (pg ∷ programs) (f, fs) =
    later-IsDay (last_for day programs) _ (last_for-IsDay day programs fs)
      (chosen-IsDay (pg.day_mask / 2 ^ day % 2 == 1) _ (full_day pg f))

copy_twice :
    (mem : Bytes) (offset : ℕ) (a b : Bytes)
    → length a ≡ length b
    → copy_at (copy_at mem offset a) offset b ≡ copy_at mem offset b
unfolding copy_at
copy_twice [] offset a b h = refl
copy_twice (m ∷ mem) zero [] b h = refl
copy_twice (m ∷ mem) zero (x ∷ a) [] h = ground arith
copy_twice (m ∷ mem) zero (x ∷ a) (y ∷ b) h =
    ap (◌∷◌ y) (copy_twice mem zero a b (omega (arith, h)))
copy_twice (m ∷ mem) (suc offset) a b h = ap (◌∷◌ m) (copy_twice mem offset a b h)

copy_nothing : (mem : Bytes) → copy_at mem zero [] ≡ mem
unfolding copy_at
copy_nothing [] = refl
copy_nothing (m ∷ mem) = refl

-- Copies to places that do not overlap commute.
copy_swap :
    (mem : Bytes) (o p : ℕ) (a b : Bytes)
    → o + length a ≤ p
    → copy_at (copy_at mem o a) p b ≡ copy_at (copy_at mem p b) o a
unfolding copy_at
copy_swap [] o p a b h = refl
copy_swap (m ∷ mem) zero p [] b h = sym (copy_nothing (copy_at (m ∷ mem) p b))
copy_swap (m ∷ mem) zero zero (x ∷ a) b h = ground arith
copy_swap (m ∷ mem) zero (suc p) (x ∷ a) b h =
    ap (◌∷◌ x) (copy_swap mem zero p a b (omega (arith, h)))
copy_swap (m ∷ mem) (suc o) zero a b h = ground arith
copy_swap (m ∷ mem) (suc o) (suc p) a b h = ap (◌∷◌ m) (copy_swap mem o p a b (omega (arith, h)))

pub place_twice :
    (mem : Bytes) (offset : ℕ) (c : Option Bytes)
    → place (place mem offset c) offset c ≡ place mem offset c
place_twice mem offset none = refl
place_twice mem offset (some bs) = copy_twice mem offset bs bs refl

pub place_swap :
    (mem : Bytes) (o p : ℕ) (c e : Option Bytes)
    → IsDay c
    → o + 26 ≤ p
    → place (place mem o c) p e ≡ place (place mem p e) o c
place_swap mem o p none e h le = refl
place_swap mem o p (some a) none h le = refl
place_swap mem o p (some a) (some b) h le = copy_swap mem o p a b (omega (arith, h, le))

place_over :
    (mem : Bytes) (offset : ℕ) (bs : Bytes) (c : Option Bytes)
    → length bs ≡ 26
    → IsDay c
    → place (copy_at mem offset bs) offset c ≡ place mem offset (later c (some bs))
place_over mem offset bs none h k = refl
place_over mem offset bs (some c) h k = copy_twice mem offset bs c (h ∙ sym k)

later_none : (c : Option Bytes) → later c none ≡ c
later_none none = refl
later_none (some bs) = refl

set_day-place :
    (day offset : ℕ) (mem : Bytes) (programs : List Program)
    → All IsFull programs
    → set_day day offset mem programs ≡ place mem offset (last_for day programs)
unfolding set_day last_for
set_day-place day offset mem [] f = refl
set_day-place day offset mem (pg ∷ programs) (f, fs) =
    let bs = encode_program_day pg.endtimes in
    elim (Bool-cases (pg.day_mask / 2 ^ day % 2 == 1)) [
      | inl on ↦ rw on (
          set_day-place day offset (copy_at mem offset bs) programs fs
          ∙ place_over mem offset bs (last_for day programs) (full_day pg f)
              (last_for-IsDay day programs fs))
      | inr off ↦ rw off (
          set_day-place day offset mem programs fs
          ∙ ap (place mem offset) (sym (later_none (last_for day programs))))
    ]

set_days-placed :
    (days : List (ℕ × ℕ)) (mem : Bytes) (programs : List Program)
    → All IsFull programs
    → set_days days mem programs ≡ placed days mem programs
unfolding set_days placed
set_days-placed [] mem programs f = refl
set_days-placed ((day, offset) ∷ days) mem programs f =
    ap (λ m. set_days days m programs) (set_day-place day offset mem programs f)
    ∙ set_days-placed days (place mem offset (last_for day programs)) programs f

pub set_programs_places :
    (mem : Bytes) (programs : List Program)
    → All IsFull programs
    → set_programs mem programs ≡ placed program_offsets mem programs
unfolding set_programs
set_programs_places mem programs f = set_days-placed program_offsets mem programs f

copy_keeps :
    (mem : Bytes) (offset i : ℕ) (bs : Bytes)
    → (i < offset) ⊎ (offset + length bs ≤ i)
    → get_elem? (copy_at mem offset bs) i ≡ get_elem? mem i
unfolding copy_at
copy_keeps [] offset i bs h = refl
copy_keeps (m ∷ mem) zero i [] h = refl
copy_keeps (m ∷ mem) zero zero (b ∷ bs) h = ground arith
copy_keeps (m ∷ mem) zero (suc i) (b ∷ bs) h = copy_keeps mem zero i bs (inr (ground arith))
copy_keeps (m ∷ mem) (suc offset) zero bs h = refl
copy_keeps (m ∷ mem) (suc offset) (suc i) bs h =
    copy_keeps mem offset i bs
      (elim h [ inl l ↦ inl (omega (arith, l)) | inr l ↦ inr (omega (arith, l)) ])

place_keeps :
    (mem : Bytes) (offset i : ℕ) (c : Option Bytes)
    → IsDay c
    → (i < offset) ⊎ (offset + 26 ≤ i) ⊎ (c ≡ none)
    → get_elem? (place mem offset c) i ≡ get_elem? mem i
place_keeps mem offset i none k h = refl
place_keeps mem offset i (some bs) k (inl l) = copy_keeps mem offset i bs (inl l)
place_keeps mem offset i (some bs) k (inr (inl l)) =
    copy_keeps mem offset i bs (inr (omega (arith, k, l)))
place_keeps mem offset i (some bs) k (inr (inr e)) = cc

-- The day whose program holds the byte at an index, from Saturday at 20 on.
abbrev pub weekday_at : ℕ → ℕ
weekday_at i = ((i - 20) / 26 + 6) % 7

-- The program of a day at its place, or the memory as it is.
abbrev pub program_at : ℕ → ℕ → List Program → Bytes → Bytes
program_at day offset programs mem = place mem offset (last_for day programs)

-- The index is that of no day with a program.
abbrev IsFree : ℕ → List Program → Type 0
IsFree i programs = (i < 20) ⊎ (202 ≤ i) ⊎ (last_for (weekday_at i) programs ≡ none)

day_keeps :
    (k i : ℕ) (mem : Bytes) (programs : List Program)
    → All IsFull programs
    → k < 7
    → IsFree i programs
    → get_elem? (program_at ((k + 6) % 7) (20 + 26 * k) programs mem) i ≡ get_elem? mem i
day_keeps k i mem programs f lt free =
    place_keeps mem (20 + 26 * k) i (last_for ((k + 6) % 7) programs)
      (last_for-IsDay ((k + 6) % 7) programs f)
      (elim (Bool-cases (ltb i (20 + 26 * k))) [
        | inl low ↦ inl (ground arith)
        | inr at ↦ elim (Bool-cases (leb (20 + 26 * k + 26) i)) [
          | inl high ↦ inr (inl (ground arith))
          | inr inside ↦
              let same : weekday_at i ≡ (k + 6) % 7 = ground arith in
              elim free [
                | inl l ↦ absurd (ground arith)
                | inr (inl l) ↦ absurd (ground arith)
                | inr (inr e) ↦ inr (inr (ap (λ d. last_for d programs) (sym same) ∙ e))
              ]
        ]
      ])

-- SetPrograms, from Saturday to Friday.
abbrev pub week_placed : List Program → Bytes → Bytes
week_placed programs mem = program_at 5 176 programs (
    program_at 4 150 programs (
      program_at 3 124 programs (
        program_at 2 98 programs
          (program_at 1 72 programs (program_at 0 46 programs (program_at 6 20 programs mem))))))

week_keeps :
    (i : ℕ) (mem : Bytes) (programs : List Program)
    → All IsFull programs
    → IsFree i programs
    → get_elem? (week_placed programs mem) i ≡ get_elem? mem i
week_keeps i mem programs f free =
    day_keeps 6 i _ programs f (omega arith) free
    ∙ day_keeps 5 i _ programs f (omega arith) free
    ∙ day_keeps 4 i _ programs f (omega arith) free
    ∙ day_keeps 3 i _ programs f (omega arith) free
    ∙ day_keeps 2 i _ programs f (omega arith) free
    ∙ day_keeps 1 i _ programs f (omega arith) free
    ∙ day_keeps 0 i _ programs f (omega arith) free

none_or_some : (c : Option Bytes) → (c ≡ none) ⊎ ((bs : Bytes) × (c ≡ some bs))
none_or_some none = inl refl
none_or_some (some bs) = inr (bs, refl)

-- For programs with thirteen entries for each day, SetPrograms is one copy for each weekday that
-- has a program, of the encoding of the last program whose mask has the day: to offset 20 for
-- Saturday, 46 for Sunday, and 26 further for each day up to Friday. Programs before it leave no
-- trace. A byte before offset 20, from 202 on, or of a day without a program stays as it is.
pub set_programs-placed :
    (mem : Bytes) (programs : List Program) (i : ℕ)
    → All IsFull programs
    → (set_programs mem programs ≡ week_placed programs mem)
      × ((20 ≤ i) × (i < 202) × ((bs : Bytes) × (last_for (weekday_at i) programs ≡ some bs))
          ⊎ (get_elem? (set_programs mem programs) i ≡ get_elem? mem i))
set_programs-placed mem programs i f =
    let same : set_programs mem programs ≡ week_placed programs mem =
      set_programs_places mem programs f ∙ unfold placed in refl in
    let stays : IsFree i programs → get_elem? (set_programs mem programs) i ≡ get_elem? mem i =
      λ free. ap (λ m. get_elem? m i) same ∙ week_keeps i mem programs f free in
    (
      same,
      elim (Bool-cases (leb 20 i && ltb i 202)) [
        | inl inside ↦ elim (none_or_some (last_for (weekday_at i) programs)) [
          | inl e ↦ inr (stays (inr (inr e)))
          | inr (bs, e) ↦ inl (ground arith, ground arith, (bs, e))
        ]
        | inr outside ↦ inr (
            stays (elim (Bool-cases (ltb i 20)) [
              | inl low ↦ inl (ground arith)
              | inr high ↦ inr (inl (ground arith))
            ]))
      ],
    )
