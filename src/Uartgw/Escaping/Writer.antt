-- ===== src/Uartgw/Escaping/Writer.antt =====
-- What `escapingWriter` puts on the line.
use hmgo.Prelude.{ℕ, ◌*◌, ◌≤◌, ◌≡◌, ◌≢◌, refl, arith, inl, inr, Bool-cases}
use hmgo.Prelude.{true, false, [], ◌∷◌, ◌++◌, bit_and, Bytes, length, All}
use hmgo.Uartgw.Escaping.{escape, unescape}
use hmgo.Uartgw.Escaping.Cuts.{
  needs_escape, escape-plain, escape_special, unescape_plain, unescape_special, needs_escape-cases,
}

abbrev pub IsNoDelimiter : ℕ → Type 0
IsNoDelimiter b = b ≢ 0xfd

masked-IsNoDelimiter : (b : ℕ) → needs_escape b ≡ true → bit_and b 0x7f ≢ 0xfd
masked-IsNoDelimiter b h = elim (needs_escape-cases b h) [
  | inl e ↦ rw e (omega arith)
  | inr e ↦ rw e (omega arith)
]

-- No byte of an escaped message is the frame delimiter.
pub escape-IsNoDelimiter : (msg : Bytes) → All IsNoDelimiter (escape msg)
escape-IsNoDelimiter [] = unfold escape in tt
escape-IsNoDelimiter (b ∷ bs) = elim (Bool-cases (needs_escape b)) [
  | inl h ↦
      rw (escape_special b bs h) (omega arith, (masked-IsNoDelimiter b h, escape-IsNoDelimiter bs))
  | inr h ↦ rw (escape-plain b bs h) (ground arith, escape-IsNoDelimiter bs)
]

-- Unescaping undoes escaping, and ends outside an escape.
pub unescape-escape : (msg : Bytes) → unescape false (escape msg) ≡ (msg, false)
unescape-escape [] = unfold escape unescape in refl
unescape-escape (b ∷ bs) = elim (Bool-cases (needs_escape b)) [
  | inl h ↦ rw (escape_special b bs h) (unescape_special b _ bs false h (unescape-escape bs))
  | inr h ↦ rw (escape-plain b bs h) (unescape_plain b _ bs false h (unescape-escape bs))
]

pub escape-append : (xs ys : Bytes) → escape (xs ++ ys) ≡ escape xs ++ escape ys
unfolding escape
escape-append [] ys = refl
escape-append (b ∷ bs) ys = ground (arith, escape-append bs ys)

-- The buffer of `len(p)*2` bytes is large enough, and no message gets shorter.
pub length-escape :
    (msg : Bytes) → (length msg ≤ length (escape msg)) × (length (escape msg) ≤ length msg * 2)
unfolding escape
length-escape [] = omega arith
length-escape (b ∷ bs) = ground (arith, length-escape bs)
