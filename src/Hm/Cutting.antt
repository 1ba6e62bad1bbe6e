-- ===== src/Hm/Cutting.antt =====
-- What EnsureConfigured writes, byte by byte of the memory, and in pieces cut one after the other.
use hmgo.Prelude.{ℕ, zero, suc, ◌+◌, ◌*◌, ◌%◌, ◌<◌, ◌≤◌, ◌≡◌, refl, sym, ap, ◌∙◌, arith, List}
use hmgo.Prelude.{[], ◌∷◌, ◌++◌, Option, some, get_elem?, inl, inr}
use hmgo.Prelude.{Bytes, length, length-drop, take, drop, ◌==◌, Bool-cases, if◌then◌else◌}
use hmgo.Hm.Config.{changes, blocks, block}
use hmgo.Hm.Blocks.{block-take, drop-drop, drop_all, changes_same, changes_other, blocks_enough}

-- Index and new value, if there are two values that differ.
abbrev pub pair_at : ℕ → Option ℕ → Option ℕ → Bytes
pair_at i (some x) (some y) = if x == y then [] else i % 256 ∷ y ∷ []
pair_at i _ _ = []

-- The pairs for the bytes of the memory from index `i` on, `count` of them.
unfoldable pub differences : ℕ → ℕ → Bytes → Bytes → Bytes
differences zero i mem target = []
differences (suc count) i mem target =
    pair_at i (get_elem? mem i) (get_elem? target i) ++ differences count (i + 1) mem target

-- Pieces of 14 bytes, the last one maybe shorter, at most as many as the fuel.
unfoldable pub pieces : ℕ → Bytes → List Bytes
pieces zero xs = []
pieces (suc fuel) [] = []
pieces (suc fuel) (x ∷ xs) = take 14 (x ∷ xs) ∷ pieces fuel (drop 14 (x ∷ xs))

-- The bytes of a memory from index `i` on are these.
abbrev Ends : Bytes → ℕ → Bytes → Type 0
Ends mem i xs = (k : ℕ) → get_elem? mem (i + k) ≡ get_elem? xs k

Ends-tail : (mem : Bytes) (i x : ℕ) (xs : Bytes) → Ends mem i (x ∷ xs) → Ends mem (i + 1) xs
Ends-tail mem i x xs h k = ap (get_elem? mem) {x = i + 1 + k} (omega arith) ∙ h (suc k)

changes_nil : (i : ℕ) (xs : Bytes) → changes i xs [] ≡ []
unfolding changes
changes_nil i [] = refl
changes_nil i (x ∷ xs) = refl

Ends-head : (mem : Bytes) (i : ℕ) (xs : Bytes) → Ends mem i xs → get_elem? mem i ≡ get_elem? xs 0
Ends-head mem i xs h = ap (get_elem? mem) {y = i + 0} (omega arith) ∙ h 0

Ends-nil : (mem : Bytes) (i : ℕ) → Ends mem i [] → Ends mem (i + 1) []
Ends-nil mem i h k = ap (get_elem? mem) {x = i + 1 + k} (omega arith) ∙ h (suc k)

changes_from :
    (i : ℕ) (mem target xs ys : Bytes)
    → Ends mem i xs
    → Ends target i ys
    → changes i xs ys ≡ differences (length xs) i mem target
unfolding changes differences
changes_from i mem target [] ys h k = refl
changes_from i mem target (x ∷ xs) [] h k =
    sym (changes_nil (i + 1) xs)
    ∙ changes_from (i + 1) mem target xs [] (Ends-tail mem i x xs h) (Ends-nil target i k)
    ∙ rw (Ends-head mem i (x ∷ xs) h, Ends-head target i [] k) refl
changes_from i mem target (x ∷ xs) (y ∷ ys) h k =
    let rest =
      changes_from (i + 1) mem target xs ys (Ends-tail mem i x xs h) (Ends-tail target i y ys k) in
    elim (Bool-cases (x == y)) [
      | inl same ↦
          changes_same i xs ys x y same
          ∙ rest
          ∙ rw (Ends-head mem i (x ∷ xs) h, Ends-head target i (y ∷ ys) k, same) refl
      | inr other ↦
          changes_other i xs ys x y other
          ∙ ap (λ z. i % 256 ∷ y ∷ z) rest
          ∙ rw (Ends-head mem i (x ∷ xs) h, Ends-head target i (y ∷ ys) k, other) refl
    ]

-- The code's pairs are those for the bytes that differ.
pub changes-differences :
    (mem target : Bytes) → changes 0 mem target ≡ differences (length mem) 0 mem target
changes-differences mem target =
    changes_from 0 mem target mem target (λ k. ap (get_elem? mem) {x = 0 + k} (omega arith))
      (λ k. ap (get_elem? target) {x = 0 + k} (omega arith))

-- The blocks of the code, `left` of them from block `i` on.
abbrev pub numbered : ℕ → ℕ → Bytes → List Bytes
numbered zero i pairs = []
numbered (suc left) i pairs = block pairs i ∷ numbered left (i + 1) pairs

pieces_nil : (fuel : ℕ) → pieces fuel [] ≡ []
unfolding pieces
pieces_nil zero = refl
pieces_nil (suc fuel) = refl

pieces_step :
    (fuel : ℕ) (xs : Bytes)
    → 0 < length xs
    → pieces (suc fuel) xs ≡ take 14 xs ∷ pieces fuel (drop 14 xs)
unfolding pieces
pieces_step fuel [] h = ground arith
pieces_step fuel (x ∷ xs) h = refl

numbered-pieces :
    (left i fuel : ℕ) (pairs : Bytes)
    → length (drop (14 * i) pairs) ≤ fuel
    → length (drop (14 * i) pairs) ≤ 14 * left
    → 14 * left < length (drop (14 * i) pairs) + 14
    → numbered left i pairs ≡ pieces fuel (drop (14 * i) pairs)
numbered-pieces zero i fuel pairs h le lt =
    sym (pieces_nil fuel)
    ∙ ap (pieces fuel) (sym (drop_all 0 (drop (14 * i) pairs) (omega (arith, le))))
numbered-pieces (suc left) i zero pairs h le lt = absurd (omega (arith, h, lt))
numbered-pieces (suc left) i (suc fuel) pairs h le lt =
    let next : drop 14 (drop (14 * i) pairs) ≡ drop (14 * (i + 1)) pairs =
      drop-drop (14 * i) 14 pairs ∙ ap (λ k. drop k pairs) (omega arith) in
    let shorter = ap length next in
    let len = length-drop 14 (drop (14 * i) pairs) in
    ap (◌∷◌ (block pairs i)) (
      numbered-pieces left (i + 1) fuel pairs (omega (arith, h, lt, shorter, len))
        (omega (arith, le, shorter, len)) (omega (arith, lt, shorter, len)))
    ∙ ap (λ b. b ∷ pieces fuel (drop (14 * (i + 1)) pairs)) (block-take pairs i)
    ∙ ap (λ xs. take 14 (drop (14 * i) pairs) ∷ pieces fuel xs) (sym next)
    ∙ sym (pieces_step fuel (drop (14 * i) pairs) (omega (arith, lt)))

blocks_few : (n : ℕ) → 14 * blocks n < n + 14
unfolding blocks
blocks_few n = ground arith

-- The blocks of the code are the pieces.
pub blocks-pieces :
    (pairs : Bytes) → numbered (blocks (length pairs)) 0 pairs ≡ pieces (length pairs) pairs
blocks-pieces pairs =
    numbered-pieces (blocks (length pairs)) 0 (length pairs) pairs (omega arith)
      (omega (arith, blocks_enough (length pairs))) (omega (arith, blocks_few (length pairs)))
