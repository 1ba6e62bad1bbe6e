-- ===== src/Ccu.antt =====
-- ccu.go: the winter override of the heating programs.
pub mod Devices
pub mod Dispatch
pub mod Loop
pub mod House
pub mod Opening
pub mod Startup
pub mod Observed
pub mod Wired
pub mod Peering
pub mod Answering
pub mod Rounds
pub mod Kept
pub mod Conversing
pub mod Conversations
pub mod Shown
pub mod Started
pub mod Termination
pub mod Switching
pub mod Serving
pub mod Threads
use hmgo.Prelude.{ℕ, ◌≡◌, ◌<◌, ◌≤◌, refl, arith, List, [], ◌∷◌, Bool, true, false}
use hmgo.Prelude.{◌⊎◌, leb, ◌&&◌, ◌||◌, ◌==◌, ltb, Bool-cases, inl, inr, if◌then◌else◌}
use hmgo.Hm.Programs.{ProgramEntry, Program}

-- The months May to August, by their numbers in package time.
unfoldable pub in_summer : ℕ → Bool
in_summer month = month == 5 || month == 6 || month == 7 || month == 8

-- An entry that ends after six hours gets 24 ℃.
unfoldable pub heat_entry : ProgramEntry → ProgramEntry
heat_entry entry = if ltb 360 entry.endtime then record entry { temperature = 48 } else entry

unfoldable pub heat_entries : List ProgramEntry → List ProgramEntry
unfolding heat_entry
heat_entries [] = []
heat_entries (entry ∷ entries) = heat_entry entry ∷ heat_entries entries

unfoldable pub heat_programs : List Program → List Program
unfolding heat_entries
heat_programs [] = []
heat_programs (prog ∷ programs) =
    record prog { endtimes = heat_entries prog.endtimes } ∷ heat_programs programs

-- `overrideWinter`, in the month of `time.Now()`.
unfoldable pub override_winter : ℕ → List Program → List Program
unfolding in_summer heat_programs
override_winter month programs = if in_summer month then programs else heat_programs programs

-- The entry `new` ends when `old` does, and has 24 ℃ if that is after six hours and its temperature
-- otherwise.
pub record Heated (old new : ProgramEntry) : Type 0 where
  pub same_end : new.endtime ≡ old.endtime
  pub late : 360 < old.endtime → new.temperature ≡ 48
  pub early : old.endtime ≤ 360 → new.temperature ≡ old.temperature

abbrev pub HeatedEntries : List ProgramEntry → List ProgramEntry → Type 0
HeatedEntries [] [] = Unit {0}
HeatedEntries (e ∷ es) (f ∷ fs) = Heated e f × HeatedEntries es fs
HeatedEntries _ _ = ⊥

abbrev pub HeatedPrograms : List Program → List Program → Type 0
HeatedPrograms [] [] = Unit {0}
HeatedPrograms (p ∷ ps) (q ∷ qs) =
    (q.day_mask ≡ p.day_mask) × HeatedEntries p.endtimes q.endtimes × HeatedPrograms ps qs
HeatedPrograms _ _ = ⊥

heat_entry-Heated : (e : ProgramEntry) → Heated e (heat_entry e)
unfolding heat_entry
heat_entry-Heated e = elim (Bool-cases (ltb 360 e.endtime)) [
  | inl late ↦ rw late (record { same_end = refl; late = λ h. refl; early = λ h. ground arith })
  | inr early ↦ rw early (record { same_end = refl; late = λ h. ground arith; early = λ h. refl })
]

heat_entries-Heated : (es : List ProgramEntry) → HeatedEntries es (heat_entries es)
unfolding heat_entries
heat_entries-Heated [] = tt
heat_entries-Heated (e ∷ es) = (heat_entry-Heated e, heat_entries-Heated es)

heat_programs-Heated : (ps : List Program) → HeatedPrograms ps (heat_programs ps)
unfolding heat_programs
heat_programs-Heated [] = tt
heat_programs-Heated (p ∷ ps) = (refl, heat_entries-Heated p.endtimes, heat_programs-Heated ps)

summer_months : (month : ℕ) → 5 ≤ month → month ≤ 8 → in_summer month ≡ true
unfolding in_summer
summer_months month h l = ground arith

winter_months : (month : ℕ) → (month < 5) ⊎ (8 < month) → in_summer month ≡ false
unfolding in_summer
winter_months month (inl h) = ground arith
winter_months month (inr h) = ground arith

-- In the months 5 to 8, May to August, the programs stay as they are. In any other month the days
-- and the end times stay, entries that end after six o'clock get 24 ℃, and the others keep their
-- temperature.
pub override_winter_cases :
    (month : ℕ) (programs : List Program)
    → (5 ≤ month) × (month ≤ 8) × (override_winter month programs ≡ programs)
      ⊎ ((month < 5) ⊎ (8 < month)) × HeatedPrograms programs (override_winter month programs)
unfolding override_winter
override_winter_cases month programs = elim (Bool-cases (leb 5 month && leb month 8)) [
  | inl summer ↦
      let from : 5 ≤ month = ground arith in
      let to : month ≤ 8 = ground arith in inl (from, to, rw (summer_months month from to) refl)
  | inr winter ↦
      let out : (month < 5) ⊎ (8 < month) = ground arith in
      inr (out, rw (winter_months month out) (heat_programs-Heated programs))
]
