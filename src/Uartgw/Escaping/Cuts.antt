-- ===== src/Uartgw/Escaping/Cuts.antt =====
-- Where a read of k raw bytes can end in an escaped message: between two of its bytes, or inside
-- an escaped one.
use hmgo.Prelude.{ℕ, zero, suc, ◌+◌, ◌-◌, ◌≤◌, bit_and, bit_or, ◌≡◌, refl, sym, ap, ◌∙◌, arith}
use hmgo.Prelude.{Bool, true, false, ◌||◌, ◌⊎◌, inl, inr, Bool-cases, [], ◌∷◌, ◌++◌}
use hmgo.Prelude.{Bytes, length, take, drop, ◌==◌}
use hmgo.Uartgw.Escaping.{escape, unescape}

pub data Cut (k : ℕ) (msg rest : Bytes) : Type 0 where
  between :
      (taken left : Bytes)
      → msg ≡ taken ++ left
      → unescape false (take k (escape msg ++ rest)) ≡ (taken, false)
      → drop k (escape msg ++ rest) ≡ escape left ++ rest
      → k ≤ length taken + length taken
      → length taken ≤ k
      → Cut k msg rest
  inside :
      (taken left : Bytes) (x : ℕ)
      → msg ≡ taken ++ x ∷ left
      → unescape false (take k (escape msg ++ rest)) ≡ (taken, true)
      → drop k (escape msg ++ rest) ≡ bit_and x 0x7f ∷ (escape left ++ rest)
      → bit_or (bit_and x 0x7f) 0x80 ≡ x
      → length taken + 1 ≤ k
      → Cut k msg rest

abbrev pub needs_escape : ℕ → Bool
needs_escape b = b == 0xfd || b == 0xfc

pub needs_escape-cases : (b : ℕ) → needs_escape b ≡ true → (b ≡ 0xfd) ⊎ (b ≡ 0xfc)
needs_escape-cases b h = ground arith

restore : (b : ℕ) → needs_escape b ≡ true → bit_or (bit_and b 0x7f) 0x80 ≡ b
restore b h = elim (needs_escape-cases b h) [
  | inl e ↦ ap (λ x. bit_or (bit_and x 0x7f) 0x80) e ∙ sym e
  | inr e ↦ ap (λ x. bit_or (bit_and x 0x7f) 0x80) e ∙ sym e
]

masked-ne-escape : (b : ℕ) → needs_escape b ≡ true → (bit_and b 0x7f == 0xfc) ≡ false
masked-ne-escape b h = elim (needs_escape-cases b h) [
  | inl e ↦ ap (λ x. bit_and x 0x7f == 0xfc) e
  | inr e ↦ ap (λ x. bit_and x 0x7f == 0xfc) e
]

pub escape-plain : (b : ℕ) (bs : Bytes) → needs_escape b ≡ false → escape (b ∷ bs) ≡ b ∷ escape bs
unfolding escape
escape-plain b bs h = rw h

pub escape_special :
    (b : ℕ) (bs : Bytes)
    → needs_escape b ≡ true
    → escape (b ∷ bs) ≡ 0xfc ∷ bit_and b 0x7f ∷ escape bs
unfolding escape
escape_special b bs h = rw h

pub unescape_plain :
    (b : ℕ) (bs out : Bytes) (e : Bool)
    → needs_escape b ≡ false
    → unescape false bs ≡ (out, e)
    → unescape false (b ∷ bs) ≡ (b ∷ out, e)
unfolding unescape
unescape_plain b bs out e h u = ground arith

pub unescape_special :
    (b : ℕ) (bs out : Bytes) (e : Bool)
    → needs_escape b ≡ true
    → unescape false bs ≡ (out, e)
    → unescape false (0xfc ∷ bit_and b 0x7f ∷ bs) ≡ (b ∷ out, e)
unfolding unescape
unescape_special b bs out e h u = rw (masked-ne-escape b h, restore b h, u)

Cut-plain :
    (k b : ℕ) (bs rest : Bytes) → needs_escape b ≡ false → Cut k bs rest → Cut (suc k) (b ∷ bs) rest
Cut-plain k b bs rest h (between t l e u d lo hi) =
    between (b ∷ t) l (ap (◌∷◌ b) e) (rw (escape-plain b bs h) (unescape_plain b _ t false h u))
      (rw (escape-plain b bs h) d) (omega arith) (omega arith)
Cut-plain k b bs rest h (inside t l x e u d r hi) =
    inside (b ∷ t) l x (ap (◌∷◌ b) e) (rw (escape-plain b bs h) (unescape_plain b _ t true h u))
      (rw (escape-plain b bs h) d) r (omega arith)

Cut-special :
    (k b : ℕ) (bs rest : Bytes)
    → needs_escape b ≡ true
    → Cut k bs rest
    → Cut (suc (suc k)) (b ∷ bs) rest
Cut-special k b bs rest h (between t l e u d lo hi) =
    between (b ∷ t) l (ap (◌∷◌ b) e) (rw (escape_special b bs h) (unescape_special b _ t false h u))
      (rw (escape_special b bs h) d) (omega arith) (omega arith)
Cut-special k b bs rest h (inside t l x e u d r hi) =
    inside (b ∷ t) l x (ap (◌∷◌ b) e) (rw (escape_special b bs h) (unescape_special b _ t true h u))
      (rw (escape_special b bs h) d) r (omega arith)

Cut-first : (b : ℕ) (bs rest : Bytes) → needs_escape b ≡ true → Cut (suc zero) (b ∷ bs) rest
Cut-first b bs rest h =
    inside [] bs b refl (rw (escape_special b bs h) (unfold unescape in refl))
      (rw (escape_special b bs h)) (restore b h) (omega arith)

Cut-escaped :
    (k b : ℕ) (bs rest : Bytes)
    → needs_escape b ≡ true
    → Cut (k - 1) bs rest
    → Cut (suc k) (b ∷ bs) rest
Cut-escaped zero b bs rest h c = Cut-first b bs rest h
Cut-escaped (suc k) b bs rest h c =
    let e : suc k - 1 ≡ k = omega arith in Cut-special k b bs rest h (rw e at c)

-- Every read of at most as many raw bytes as the message is long ends in one of the two ways.
pub cut : (k : ℕ) (msg rest : Bytes) → k ≤ length msg → Cut k msg rest
cut zero msg rest h = between [] msg refl (unfold unescape in refl) refl (omega arith) (omega arith)
cut (suc k) [] rest h = absurd (omega arith)
cut (suc k) (b ∷ bs) rest h = elim (Bool-cases (needs_escape b)) [
  | inl special ↦ Cut-escaped k b bs rest special (cut (k - 1) bs rest (omega arith))
  | inr plain ↦ Cut-plain k b bs rest plain (cut k bs rest (omega arith))
]
