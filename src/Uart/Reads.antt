-- ===== src/Uart/Reads.antt =====
-- One read from the port.
use hmgo.Prelude.{ℕ, suc, ◌≤◌, ◌≡◌, refl, sym, ap, ◌∙◌, arith}
use hmgo.Prelude.{List, [], ◌∷◌, ◌++◌, Bytes, length, take, drop, length-take, take-append-drop}
use hmgo.Effect.{ok}
use hmgo.Uart.{Port, chunk, rest_of, serve, uart_read}

-- The port after a read: what is left is pending, and only the schedule of pieces moved on.
abbrev pub after : Port → Bytes → List ℕ → Port
after p bs cs = record p { pending = bs; chunks = cs }

pub uart_read-some :
    (n : ℕ) (p : Port) (b : ℕ) (bs : Bytes)
    → p.pending ≡ b ∷ bs
    → uart_read n p ≡ (
      ok (take (chunk n p.chunks) (b ∷ bs)),
      after p (drop (chunk n p.chunks) (b ∷ bs)) (rest_of p.chunks),
    )
unfolding uart_read
uart_read-some n p b bs e = ap (serve n p) e

chunk_one : (cs : List ℕ) → chunk 1 cs ≡ 1
chunk_one [] = refl
chunk_one (c ∷ cs) = omega arith

pub uart_read_one :
    (p : Port) (b : ℕ) (bs : Bytes)
    → p.pending ≡ b ∷ bs
    → uart_read 1 p ≡ (ok (b ∷ []), after p bs (rest_of p.chunks))
uart_read_one p b bs e =
    uart_read-some 1 p b bs e
    ∙ ap (λ k. (ok (take k (b ∷ bs)), after p (drop k (b ∷ bs)) (rest_of p.chunks)))
        (chunk_one p.chunks)

pub chunk_bounds : (n : ℕ) (cs : List ℕ) → (chunk (suc n) cs ≤ suc n) × (1 ≤ chunk (suc n) cs)
chunk_bounds n [] = omega arith
chunk_bounds n (c ∷ cs) = omega arith

serve_takes :
    (n : ℕ) (p : Port) (stream raw : Bytes) (q : Port)
    → serve (suc n) p stream ≡ (ok raw, q)
    → (stream ≡ raw ++ q.pending) × (length raw ≤ suc n) × (1 ≤ length raw)
unfolding serve
serve_takes n p [] raw q h = cc
serve_takes n p (b ∷ bs) raw q h =
    let k = chunk (suc n) p.chunks in
    let got : take k (b ∷ bs) ≡ raw = ground arith in
    let left : drop k (b ∷ bs) ≡ q.pending = ground arith in
    let len = length-take k (b ∷ bs) in
    let (hi, lo) = chunk_bounds n p.chunks in
    rw (← got, ← left) (sym (take-append-drop k (b ∷ bs)), omega arith, omega arith)

-- A read that succeeds takes at least one byte off the stream, and at most as many as asked for.
pub uart_read_takes :
    (n : ℕ) (p : Port) (raw : Bytes) (q : Port)
    → uart_read (suc n) p ≡ (ok raw, q)
    → (p.pending ≡ raw ++ q.pending) × (length raw ≤ suc n) × (1 ≤ length raw)
unfolding uart_read
uart_read_takes n p raw q h = serve_takes n p p.pending raw q h
