-- ===== src/Hm/Reconfigured.antt =====
-- EnsureConfigured with SetPrograms for its callback, on a device that has the programs already.
use hmgo.Prelude.{
  ℕ, ◌+◌, ◌≡◌, ◌≤◌, refl, sym, ap, ◌∙◌, arith, List, [], ◌∷◌, ◌++◌, Bytes, length, All,
}
use hmgo.Prelude.{Option}
use hmgo.Effect.{ok}
use hmgo.Hm.{StandardDevice}
use hmgo.Hm.Blocks.{changes_none}
use hmgo.Hm.Cutting.{changes-differences}
use hmgo.Hm.Config.{zeros, ensure_configured}
use hmgo.Hm.Configured.{Loads, update_messages, ensure_configured_sends}
use hmgo.Hm.Link.{Link, link, payloads}
use hmgo.Hm.Programs.{Program, set_programs, program_offsets}
use hmgo.Hm.Placed.{
  last_for, place, placed, IsDay, last_for-IsDay, place_twice, place_swap, set_programs_places,
}
use hmgo.Hm.Schedule.{IsFull}

-- The places of these days lie behind 26 bytes at the offset.
abbrev IsBehind : ℕ → List (ℕ × ℕ) → Type 0
IsBehind offset days = All (λ x. offset + 26 ≤ x.1) days

abbrev IsApart : List (ℕ × ℕ) → Type 0
IsApart [] = Unit {0}
IsApart ((day, offset) ∷ days) = IsBehind offset days × IsApart days

placed_keeps :
    (days : List (ℕ × ℕ)) (offset : ℕ) (c : Option Bytes) (mem : Bytes) (programs : List Program)
    → IsBehind offset days
    → IsDay c
    → place mem offset c ≡ mem
    → place (placed days mem programs) offset c ≡ placed days mem programs
unfolding placed
placed_keeps [] offset c mem programs h k e = e
placed_keeps ((day, p) ∷ days) offset c mem programs (h, hs) k e =
    let x = last_for day programs in
    placed_keeps days offset c (place mem p x) programs hs k
      (sym (place_swap mem offset p c x k h) ∙ ap (λ m. place m p x) e)

placed_again :
    (days : List (ℕ × ℕ)) (mem : Bytes) (programs : List Program)
    → IsApart days
    → All IsFull programs
    → placed days (placed days mem programs) programs ≡ placed days mem programs
unfolding placed
placed_again [] mem programs h f = refl
placed_again ((day, offset) ∷ days) mem programs (h, hs) f =
    let c = last_for day programs in
    let new = placed days (place mem offset c) programs in
    ap (λ m. placed days m programs)
      (placed_keeps days offset c (place mem offset c) programs h (last_for-IsDay day programs f)
        (place_twice mem offset c))
    ∙ placed_again days (place mem offset c) programs hs f

set_programs_again :
    (mem : Bytes) (programs : List Program)
    → All IsFull programs
    → set_programs (set_programs mem programs) programs ≡ set_programs mem programs
set_programs_again mem programs f =
    set_programs_places (set_programs mem programs) programs f
    ∙ ap (λ m. placed program_offsets m programs) (set_programs_places mem programs f)
    ∙ placed_again program_offsets mem programs (omega arith) f
    ∙ sym (set_programs_places mem programs f)

-- EnsureConfigured with SetPrograms for its callback, on a link where the device sends a memory that
-- the same programs were set in before, packets of other devices in between: it succeeds, sends the
-- request for the configuration and nothing else, and reads the configuration and no more.
pub reconfigured_sends :
    {bss : List Bytes} (mem : Bytes) (programs : List Program) (fuel channel paramlist : ℕ)
    (rest : List Bytes) (d : StandardDevice Link)
    → All IsFull programs
    → Loads d.addr (zeros 256) bss (set_programs mem programs)
    → length bss ≤ fuel
    → d.bcs.gateway.inbox ≡ bss ++ rest
    → (later : StandardDevice Link) × (ensure_configured link fuel channel paramlist
          (λ m. ok (set_programs m programs))
          d
        ≡ (ok tt, later))
      × (payloads later ≡ payloads d ++ (channel ∷ 4 ∷ 0 ∷ 0 ∷ 0 ∷ 0 ∷ paramlist ∷ []) ∷ [])
      × (later.bcs.gateway.inbox ≡ rest)
reconfigured_sends mem programs fuel channel paramlist rest d f l h e =
    let stored = set_programs mem programs in
    let (t, runs, sent, left) =
      ensure_configured_sends stored (λ m. ok (set_programs m programs)) fuel channel paramlist rest
        d l h e (ap ok (set_programs_again mem programs f)) in
    (
      t,
      runs,
      sent
          ∙ ap
              (λ x.
                payloads d
                ++ (channel ∷ 4 ∷ 0 ∷ 0 ∷ 0 ∷ 0 ∷ paramlist ∷ [])
                  ∷ update_messages channel paramlist x)
              (sym (changes-differences stored stored) ∙ changes_none stored),
      left,
    )
