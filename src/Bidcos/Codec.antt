-- ===== src/Bidcos/Codec.antt =====
-- `Encode` against `Decode`, and the numbers that the shared counter gives out.
use hmgo.Prelude.{ℕ, ◌+◌, ◌*◌, ◌%◌, ◌<◌, ◌≤◌, ◌≡◌, ◌≢◌, refl, arith}
use hmgo.Prelude.{List, [], ◌∷◌, Bytes, length, drop, All}
use hmgo.Effect.{ok, fail}
use hmgo.Fault.{too_short_for_bidcos}
use hmgo.Bidcos.{Packet, chosen, burst, encode, decode}

-- Decoding what was encoded gives the packet back, with the counter that was chosen, the burst mark
-- in the place of the signal strength, and zeros for status and info.
pub decode-encode :
    (p : Packet) (counter : ℕ)
    → decode (encode p counter).0
      ≡ ok (record p { status = 0; info = 0; rssi = burst p; msgcnt = chosen p counter })
unfolding decode encode
decode-encode p counter = refl

-- `Decode` fails exactly on what is shorter than twelve bytes.
pub decode_short :
    (bs : Bytes) → length bs < 12 → decode bs ≡ fail (too_short_for_bidcos (length bs))
unfolding decode
decode_short (b0 ∷ b1 ∷ b2 ∷ b3 ∷ b4 ∷ b5 ∷ b6 ∷ b7 ∷ b8 ∷ b9 ∷ b10 ∷ b11 ∷ bs) h =
    absurd (omega arith)
decode_short _ h = refl

pub decode_long : (bs : Bytes) → 12 ≤ length bs → (p : Packet) × (decode bs ≡ ok p)
unfolding decode
decode_long (b0 ∷ b1 ∷ b2 ∷ b3 ∷ b4 ∷ b5 ∷ b6 ∷ b7 ∷ b8 ∷ b9 ∷ b10 ∷ b11 ∷ bs) h = (_, refl)
decode_long _ h = absurd (omega arith)

-- Encoding a decoded packet that carries a counter gives its bytes back behind the first three.
pub encode-decode :
    (bs : Bytes) (p : Packet) (counter : ℕ)
    → decode bs ≡ ok p
    → p.msgcnt ≢ 0
    → encode p counter ≡ (0 ∷ 0 ∷ burst p ∷ drop 3 bs, counter)
unfolding encode decode
encode-decode (b0 ∷ b1 ∷ b2 ∷ b3 ∷ b4 ∷ b5 ∷ b6 ∷ b7 ∷ b8 ∷ b9 ∷ b10 ∷ b11 ∷ bs) p counter h ne =
    ground arith
encode-decode _ p counter h ne = cc

-- The shared counter after the packets `ps` were encoded.
unfoldable pub counter_after : List Packet → ℕ → ℕ
counter_after [] counter = counter
counter_after (p ∷ ps) counter = counter_after ps (encode p counter).1

abbrev pub IsUnset : Packet → Type 0
IsUnset p = p.msgcnt ≡ 0

encode_unset : (p : Packet) (counter : ℕ) → IsUnset p → (encode p counter).1 ≡ (counter + 9) % 256
unfolding encode
encode_unset p counter h = ground arith

counter_after_unset :
    (ps : List Packet) (counter : ℕ)
    → counter < 256
    → All IsUnset ps
    → counter_after ps counter ≡ (counter + 9 * length ps) % 256
unfolding counter_after
counter_after_unset [] counter h u = omega arith
counter_after_unset (p ∷ ps) counter h (hp, hs) =
    let e = encode_unset p counter hp in
    let ih = counter_after_unset ps (encode p counter).1 (omega arith) hs in omega arith

nine_steps : (c i j : ℕ) → i < j → j < i + 256 → (c + 9 * i) % 256 ≢ (c + 9 * j) % 256
nine_steps c i j lt near e = omega arith

-- The step of 9 goes round all 256 values: of packets that leave the counter to the sender, two
-- that are less than 256 apart get different counters.
pub chosen_distinct :
    (ps qs : List Packet) (p q : Packet) (counter : ℕ)
    → counter < 256
    → All IsUnset ps
    → All IsUnset qs
    → IsUnset p
    → IsUnset q
    → length ps < length qs
    → length qs < length ps + 256
    → chosen p (counter_after ps counter) ≢ chosen q (counter_after qs counter)
chosen_distinct ps qs p q counter h hps hqs hp hq lt near e =
    nine_steps counter (length ps) (length qs) lt near
      (ground (arith, counter_after_unset ps counter h hps, counter_after_unset qs counter h hqs))
