-- ===== src/Hm/Blocks.antt =====
-- The pairs that EnsureConfigured writes, and how it cuts them into messages.
use hmgo.Prelude.{ℕ, zero, suc, ◌+◌, ◌*◌, ◌%◌, ◌<◌, ◌≤◌, ◌≡◌, refl, sym, ap, ◌∙◌, arith}
use hmgo.Prelude.{[], ◌∷◌, ◌++◌, append_assoc, true, false, inl, inr}
use hmgo.Prelude.{Bytes, length, length-append, length-drop, length-take, set, take, drop}
use hmgo.Prelude.{take-append-drop, ltb, ◌==◌, ==_iff, Bool-cases, if◌then◌else◌}
use hmgo.Effect.{ok}
use hmgo.Hm.Config.{store, and_then, store_pairs, changes, blocks, block}

set-append : (pre xs : Bytes) (x y : ℕ) → set (pre ++ x ∷ xs) (length pre) y ≡ pre ++ y ∷ xs
set-append [] xs x y = refl
set-append (p ∷ pre) xs x y = ap (◌∷◌ p) (set-append pre xs x y)

inside : (pre xs : Bytes) (x : ℕ) → ltb (length pre) (length (pre ++ x ∷ xs)) ≡ true
inside pre xs x = ground (arith, length-append pre (x ∷ xs))

store-append :
    (pre xs : Bytes) (x y : ℕ) → store (pre ++ x ∷ xs) (length pre) y ≡ ok (pre ++ y ∷ xs)
unfolding store
store-append pre xs x y = rw (inside pre xs x, set-append pre xs x y)

length-snoc : (pre : Bytes) (y : ℕ) → length (pre ++ y ∷ []) ≡ length pre + 1
length-snoc pre y = length-append pre (y ∷ [])

index_of : (i : ℕ) (pre : Bytes) → i ≡ length pre → i < 256 → i % 256 ≡ length pre
index_of i pre e h = omega (arith, e)

store_pairs_changed :
    (i : ℕ) (pre xs rest : Bytes) (x y : ℕ)
    → i ≡ length pre
    → i < 256
    → store_pairs (pre ++ x ∷ xs) (i % 256 ∷ y ∷ rest) ≡ store_pairs (pre ++ y ∷ xs) rest
unfolding store_pairs
store_pairs_changed i pre xs rest x y e h =
    ap (λ n. and_then (store (pre ++ x ∷ xs) n y) (λ m. store_pairs m rest)) (index_of i pre e h)
    ∙ ap (λ o. and_then o (λ m. store_pairs m rest)) (store-append pre xs x y)

pub changes_same :
    (i : ℕ) (xs ys : Bytes) (x y : ℕ)
    → (x == y) ≡ true
    → changes i (x ∷ xs) (y ∷ ys) ≡ changes (i + 1) xs ys
unfolding changes
changes_same i xs ys x y e = rw e

pub changes_other :
    (i : ℕ) (xs ys : Bytes) (x y : ℕ)
    → (x == y) ≡ false
    → changes i (x ∷ xs) (y ∷ ys) ≡ i % 256 ∷ y ∷ changes (i + 1) xs ys
unfolding changes
changes_other i xs ys x y e = rw e

stored_from :
    (i : ℕ) (pre xs ys : Bytes)
    → i ≡ length pre
    → i + length xs ≤ 256
    → length ys ≡ length xs
    → store_pairs (pre ++ xs) (changes i xs ys) ≡ ok (pre ++ ys)
unfolding store_pairs changes
stored_from i pre [] [] e h l = refl
stored_from i pre [] (y ∷ ys) e h l = ground arith
stored_from i pre (x ∷ xs) [] e h l = ground arith
stored_from i pre (x ∷ xs) (y ∷ ys) e h l =
    let next : (z : ℕ) → store_pairs (pre ++ z ∷ xs) (changes (i + 1) xs ys) ≡ ok (pre ++ z ∷ ys) =
      λ z.
        sym (ap (λ m. store_pairs m (changes (i + 1) xs ys)) (append_assoc pre (z ∷ []) xs))
        ∙ stored_from (i + 1) (pre ++ z ∷ []) xs ys (ap (λ n. n + 1) e ∙ sym (length-snoc pre z))
            (omega arith) (omega arith)
        ∙ ap ok (append_assoc pre (z ∷ []) ys) in
    elim (Bool-cases (x == y)) [
      | inl same ↦
          ap (store_pairs (pre ++ x ∷ xs)) (changes_same i xs ys x y same)
          ∙ next x
          ∙ ap (λ z. ok (pre ++ z ∷ ys)) ((==_iff x y).0 same)
      | inr other ↦
          ap (store_pairs (pre ++ x ∷ xs)) (changes_other i xs ys x y other)
          ∙ store_pairs_changed i pre xs (changes (i + 1) xs ys) x y e (omega (arith, h))
          ∙ next y
    ]

-- Applied to the memory that was read, the pairs that EnsureConfigured computes give the target,
-- for a memory of at most 256 bytes and a target of the same length.
pub store_pairs-changes :
    (mem target : Bytes)
    → length mem ≤ 256
    → length target ≡ length mem
    → store_pairs mem (changes 0 mem target) ≡ ok target
store_pairs-changes mem target h l = stored_from 0 [] mem target refl (omega (arith, h)) l

changes_none_from : (i : ℕ) (mem : Bytes) → changes i mem mem ≡ []
unfolding changes
changes_none_from i [] = refl
changes_none_from i (x ∷ xs) =
    changes_same i xs xs x x ((==_iff x x).1 refl) ∙ changes_none_from (i + 1) xs

-- The blocks of 14 bytes that are sent, `left` of them from block `i` on, put together.
abbrev pub joined : ℕ → ℕ → Bytes → Bytes
joined zero i pairs = []
joined (suc left) i pairs = block pairs i ++ joined left (i + 1) pairs

pub drop_all : (n : ℕ) (xs : Bytes) → length xs ≤ n → drop n xs ≡ []
drop_all zero [] h = refl
drop_all zero (x ∷ xs) h = ground arith
drop_all (suc n) [] h = refl
drop_all (suc n) (x ∷ xs) h = drop_all n xs (omega (arith, h))

take_all : (n : ℕ) (xs : Bytes) → length xs ≤ n → take n xs ≡ xs
take_all zero [] h = refl
take_all zero (x ∷ xs) h = ground arith
take_all (suc n) [] h = refl
take_all (suc n) (x ∷ xs) h = ap (◌∷◌ x) (take_all n xs (omega (arith, h)))

drop_nil : (n : ℕ) → drop {A = ℕ} n [] ≡ []
drop_nil zero = refl
drop_nil (suc n) = refl

pub drop-drop : (n m : ℕ) (xs : Bytes) → drop m (drop n xs) ≡ drop (n + m) xs
drop-drop zero m xs = ap (λ k. drop k xs) (omega arith)
drop-drop (suc n) m [] = drop_nil m ∙ sym (drop_nil (suc n + m))
drop-drop (suc n) m (x ∷ xs) =
    drop-drop n m xs ∙ ap (λ k. drop k (x ∷ xs)) {x = suc (n + m)} (omega arith)

take_short : (xs : Bytes) → take (if ltb 14 (length xs) then 14 else length xs) xs ≡ take 14 xs
take_short xs = elim (Bool-cases (ltb 14 (length xs))) [
  | inl long ↦ rw long
  | inr short ↦ rw (short, take_all (length xs) xs (omega arith), take_all 14 xs (ground arith))
]

pub block-take : (pairs : Bytes) (i : ℕ) → block pairs i ≡ take 14 (drop (14 * i) pairs)
unfolding block
block-take pairs i =
    ap (λ n. take (if ltb 14 n then 14 else n) (drop (14 * i) pairs))
      (sym (length-drop (14 * i) pairs))
    ∙ take_short (drop (14 * i) pairs)

pub block_bounded : (pairs : Bytes) (i : ℕ) → length (block pairs i) ≤ 14
block_bounded pairs i =
    omega (arith, ap length (block-take pairs i), length-take 14 (drop (14 * i) pairs))

joined_from :
    (left i : ℕ) (pairs : Bytes)
    → length pairs ≤ 14 * (i + left)
    → joined left i pairs ≡ drop (14 * i) pairs
joined_from zero i pairs h = sym (drop_all (14 * i) pairs (omega (arith, h)))
joined_from (suc left) i pairs h =
    ap (λ bs. bs ++ joined left (i + 1) pairs) (block-take pairs i)
    ∙ ap (◌++◌ (take 14 (drop (14 * i) pairs))) (
        joined_from left (i + 1) pairs (omega (arith, h))
        ∙ ap (λ k. drop k pairs) (omega arith)
        ∙ sym (drop-drop (14 * i) 14 pairs))
    ∙ take-append-drop 14 (drop (14 * i) pairs)

pub blocks_enough : (n : ℕ) → n ≤ 14 * blocks n
unfolding blocks
blocks_enough n = ground arith

-- Put together, the blocks that EnsureConfigured sends are all the pairs, each once and in order.
pub joined-blocks : (pairs : Bytes) → joined (blocks (length pairs)) 0 pairs ≡ pairs
joined-blocks pairs =
    joined_from (blocks (length pairs)) 0 pairs (omega (arith, blocks_enough (length pairs)))

pub changes_none : (mem : Bytes) → changes 0 mem mem ≡ []
changes_none mem = changes_none_from 0 mem
