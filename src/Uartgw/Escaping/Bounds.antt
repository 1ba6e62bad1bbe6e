-- ===== src/Uartgw/Escaping/Bounds.antt =====
-- `unescapingReader.Read` on any stream, well formed or not: it stays inside its buffer.
use hmgo.Prelude.{ℕ, suc, ◌+◌, ◌≤◌, ◌≡◌, sym, ap, ◌∙◌, arith}
use hmgo.Prelude.{Bool, true, false, [], ◌∷◌, ◌++◌, bit_or, get_or, append_assoc}
use hmgo.Prelude.{Bytes, length, length-append, ◌==◌}
use hmgo.Prelude.{if◌then◌else◌}
use hmgo.Effect.{ok, pure, bind-eq-ok}
use hmgo.Uart.{Port, uart_read}
use hmgo.Uart.Reads.{uart_read_takes}
use hmgo.Uartgw.Escaping.{unescape, force_read, unescaping_read}

abbrev one_if : Bool → ℕ
one_if b = if b then 1 else 0

-- Each escape byte shortens the message by one; at the end one may be open.
unescape-le :
    (esc : Bool) (raw : Bytes)
    → length (unescape esc raw).0 + one_if (unescape esc raw).1 ≤ length raw + one_if esc
unfolding unescape
unescape-le esc [] = omega arith
unescape-le esc (b ∷ bs) = ground (arith, unescape-le (b == 0xfc) bs)

unescape_some :
    (esc : Bool) (b : ℕ) (bs : Bytes)
    → 1 ≤ length (unescape esc (b ∷ bs)).0 + one_if (unescape esc (b ∷ bs)).1
unfolding unescape
unescape_some esc b [] = ground arith
unescape_some esc b (c ∷ cs) = ground (arith, unescape_some (b == 0xfc) c cs)

-- What a forced read adds: one byte if an escape was open.
force_read_takes :
    (out : Bytes) (esc : Bool) (p : Port) (got : Bytes) (q : Port)
    → force_read out esc p ≡ (ok got, q)
    → (raw : Bytes) × (p.pending ≡ raw ++ q.pending) × (length got ≡ length out + one_if esc)
unfolding force_read
force_read_takes out false p got q h = ([], ground arith, ground arith)
force_read_takes out true p got q h =
    let (last, r, e, f) =
      bind-eq-ok (uart_read 1) (λ l. pure (out ++ bit_or (get_or l 0 0) 0x80 ∷ [])) p h in
    let (splits, hi, lo) = uart_read_takes 0 p last r e in
    let one = length-append out (bit_or (get_or last 0 0) 0x80 ∷ []) in
    (last, ground arith, ground arith)

unescape_some_of :
    (raw : Bytes)
    → 1 ≤ length raw
    → 1 ≤ length (unescape false raw).0 + one_if (unescape false raw).1
unescape_some_of [] h = absurd (omega arith)
unescape_some_of (b ∷ bs) h = unescape_some false b bs

-- What a read takes off the stream `before`, leaving `left`.
abbrev pub Takes : ℕ → Bytes → Bytes → Bytes → Type 0
Takes n got before left =
    (length got ≤ n)
    × (1 ≤ length got)
    × ((raw : Bytes) × (before ≡ raw ++ left) × (1 ≤ length raw))

read_piece-Takes :
    (n : ℕ) (raw : Bytes) (before : Bytes) (r : Port) (got : Bytes) (q : Port)
    → (before ≡ raw ++ r.pending) × (length raw ≤ n) × (1 ≤ length raw)
    → force_read (unescape false raw).0 (unescape false raw).1 r ≡ (ok got, q)
    → Takes n got before q.pending
read_piece-Takes n raw before r got q (splits, hi, lo) f =
    let (more, splits', len) = force_read_takes _ _ r got q f in
    (
      omega (arith, unescape-le false raw),
      omega (arith, unescape_some_of raw lo),
      (
        raw ++ more,
        splits ∙ ap (λ z. raw ++ z) splits' ∙ sym (append_assoc raw more q.pending),
        omega (arith, length-append raw more),
      ),
    )

-- Whatever the port delivers, a read that succeeds got at least one byte and at most as many as
-- the buffer holds, from a piece at the front of the stream.
pub unescaping_read-Takes :
    (n : ℕ) (p : Port) (got : Bytes) (q : Port)
    → unescaping_read (suc n) p ≡ (ok got, q)
    → Takes (suc n) got p.pending q.pending
unfolding unescaping_read
unescaping_read-Takes n p got q h =
    let (raw, r, e, f) =
      bind-eq-ok (uart_read (suc n))
        (λ raw. force_read (unescape false raw).0 (unescape false raw).1) p h in
    read_piece-Takes (suc n) raw p.pending r got q (uart_read_takes n p raw r e) f
