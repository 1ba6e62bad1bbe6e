-- ===== src/Uartgw/Escaping/Reader.antt =====
-- What `unescapingReader` reads of an escaped message, however the port cuts it into pieces.
use hmgo.Prelude.{
  ℕ, zero, suc, ◌+◌, ◌-◌, ◌≤◌, bit_and, bit_or, ◌||◌, ◌≡◌, refl, sym, ap, ◌∙◌, arith,
}
use hmgo.Prelude.{Bool, true, false, List, [], ◌∷◌, ◌++◌, append_assoc, Bool-cases, inl, inr}
use hmgo.Prelude.{Bytes, length, length-append, take, drop, ◌==◌}
use hmgo.Effect.{Effect, ok}
use hmgo.Fault.{Error}
use hmgo.Uart.{Port, chunk, rest_of, read_loop, read_full}
use hmgo.Uart.Reads.{after, uart_read-some, uart_read_one, chunk_bounds}
use hmgo.Uartgw.Escaping.{escape, unescape, force_read, unescaping_read}
use hmgo.Uartgw.Escaping.Cuts.{Cut, between, inside, cut}

-- A read for n bytes gets between 1 and n bytes of the message, unescaped, and the rest of the
-- message stays escaped on the line.
pub record Got (n : ℕ) (msg rest : Bytes) (p : Port) : Type 0 where
  pub taken : Bytes
  pub left : Bytes
  pub later : List ℕ
  pub splits : msg ≡ taken ++ left
  pub some_taken : 1 ≤ length taken
  pub no_more : length taken ≤ n
  pub reads : unescaping_read n p ≡ (ok taken, after p (escape left ++ rest) later)

-- The read in terms of the piece that the port hands out.
unescaping_read_piece :
    (n b : ℕ) (bs raw out d : Bytes) (esc : Bool) (p : Port)
    → raw ≡ b ∷ bs
    → p.pending ≡ b ∷ bs
    → unescape false (take (chunk (suc n) p.chunks) raw) ≡ (out, esc)
    → drop (chunk (suc n) p.chunks) raw ≡ d
    → unescaping_read (suc n) p ≡ force_read out esc (after p d (rest_of p.chunks))
unfolding unescaping_read
unescaping_read_piece n b bs raw out d esc p r e u f =
    rw (uart_read-some (suc n) p b bs e, ← r, u, f)

force_read_more :
    (out left : Bytes) (b x : ℕ) (p : Port)
    → p.pending ≡ b ∷ left
    → bit_or b 0x80 ≡ x
    → force_read out true p ≡ (ok (out ++ x ∷ []), after p left (rest_of p.chunks))
unfolding force_read
force_read_more out left b x p e r = rw (uart_read_one p b left e, r)

escape_starts : (b : ℕ) (bs : Bytes) → (c : ℕ) × (t : Bytes) × (escape (b ∷ bs) ≡ c ∷ t)
unfolding escape
escape_starts b bs = elim (Bool-cases (b == 0xfd || b == 0xfc)) [
  | inl h ↦ (0xfc, bit_and b 0x7f ∷ escape bs, rw h)
  | inr h ↦ (b, escape bs, rw h)
]

Got-Cut :
    (n k b : ℕ) (bs msg rest : Bytes) (p : Port)
    → k ≡ chunk (suc n) p.chunks
    → escape msg ++ rest ≡ b ∷ bs
    → p.pending ≡ b ∷ bs
    → Cut k msg rest
    → Got (suc n) msg rest p
Got-Cut n k b bs msg rest p ke starts pend (between t l e u d lo hi) = record {
  taken = t;
  left = l;
  later = rest_of p.chunks;
  splits = e;
  some_taken = omega (arith, chunk_bounds n p.chunks);
  no_more = omega (arith, chunk_bounds n p.chunks);
  reads =
      unescaping_read_piece n b bs _ t _ false p starts pend (rw ke at u) (rw ke at d)
      ∙ unfold force_read in refl;
}
Got-Cut n k b bs msg rest p ke starts pend (inside t l x e u d r hi) = record {
  taken = t ++ x ∷ [];
  left = l;
  later = rest_of (rest_of p.chunks);
  splits = e ∙ sym (append_assoc t (x ∷ []) l);
  some_taken = omega (arith, length-append t (x ∷ []));
  no_more = omega (arith, length-append t (x ∷ []), chunk_bounds n p.chunks);
  reads =
      unescaping_read_piece n b bs _ t _ true p starts pend (rw ke at u) (rw ke at d)
      ∙ force_read_more t _ _ x _ refl r;
}

pub unescaping_read_lem :
    (n : ℕ) (msg rest : Bytes) (p : Port)
    → 1 ≤ n
    → n ≤ length msg
    → p.pending ≡ escape msg ++ rest
    → Got n msg rest p
unescaping_read_lem zero msg rest p h le e = absurd (omega arith)
unescaping_read_lem (suc n) [] rest p h le e = absurd (omega arith)
unescaping_read_lem (suc n) (b ∷ bs) rest p h le e =
    let (c, t, s) = escape_starts b bs in
    let starts : escape (b ∷ bs) ++ rest ≡ c ∷ (t ++ rest) = ap (λ z. z ++ rest) s in
    Got-Cut n _ c (t ++ rest) (b ∷ bs) rest p refl starts (e ∙ starts)
      (cut _ (b ∷ bs) rest (omega (arith, chunk_bounds n p.chunks)))

read_loop_step :
    (fuel n m : ℕ) (got more : Bytes) (read : ℕ → Effect Port Error Bytes) (p q r : Port)
    → read (suc n) p ≡ (ok got, q)
    → suc n - length got ≡ m
    → read_loop fuel read m q ≡ (ok more, r)
    → read_loop (suc fuel) read (suc n) p ≡ (ok (got ++ more), r)
unfolding read_loop
read_loop_step fuel n m got more read p q r e s f = rw (e, s, f)

-- `io.ReadFull` and `io.CopyN` through the unescaping reader: the whole message and nothing else.
read_loop-escape :
    (fuel : ℕ) (msg rest : Bytes) (p : Port)
    → length msg ≤ fuel
    → p.pending ≡ escape msg ++ rest
    → (later : List ℕ) × (read_loop fuel unescaping_read (length msg) p
        ≡ (ok msg, after p rest later))
unfolding read_loop escape
read_loop-escape fuel [] rest p h e = (p.chunks, ap (λ z. (ok [], after p z p.chunks)) e)
read_loop-escape zero (b ∷ bs) rest p h e = absurd (omega arith)
read_loop-escape (suc fuel) (b ∷ bs) rest p h e =
    let g = unescaping_read_lem (suc (length bs)) (b ∷ bs) rest p (omega arith) (omega arith) e in
    let len : suc (length bs) ≡ length g.taken + length g.left =
      ap length g.splits ∙ length-append g.taken g.left in
    let sub : suc (length bs) - length g.taken ≡ length g.left = omega arith in
    let some : 1 ≤ length g.taken = g.some_taken in
    let (later, more) =
      read_loop-escape fuel g.left rest (after p (escape g.left ++ rest) g.later) (omega arith)
        refl in
    (
      later,
      read_loop_step fuel _ _ g.taken g.left _ p _ _ g.reads sub more
          ∙ ap (λ z. (ok z, after p rest later)) (sym g.splits),
    )

-- Read through the unescaping reader, as many bytes as an escaped message stands for are exactly
-- that message, and what follows it on the line stays unread, however the port cuts the line.
pub read_full-escape :
    (msg rest : Bytes) (p : Port)
    → p.pending ≡ escape msg ++ rest
    → (later : List ℕ) × (read_full unescaping_read (length msg) p ≡ (ok msg, after p rest later))
unfolding read_full
read_full-escape msg rest p e = read_loop-escape (length msg) msg rest p (omega arith) e

-- A byte that is no escape byte is read as it is.
pub unescaping_read_plain :
    (b : ℕ) (bs : Bytes) (p : Port)
    → (b == 0xfc) ≡ false
    → p.pending ≡ b ∷ bs
    → unescaping_read 1 p ≡ (ok (b ∷ []), after p bs (rest_of p.chunks))
unfolding unescaping_read
unescaping_read_plain b bs p h e = rw (uart_read_one p b bs e, h)
