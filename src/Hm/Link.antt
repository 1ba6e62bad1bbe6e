-- ===== src/Hm/Link.antt =====
-- Devices on a radio link that never fails: the messages that internal/hm/hm.go sends on it.
use hmgo.Prelude.{ℕ, ◌≡◌, refl, ap, ◌∙◌, List, [], ◌∷◌, ◌++◌, map}
use hmgo.Prelude.{append_assoc, Bytes, drop}
use hmgo.Effect.{ok, fail, Effect, ◌>>◌, continue}
use hmgo.Fault.{Error, read_waits}
use hmgo.Bidcos.{Packet, Gateway, encode, write_packet}
use hmgo.Hm.{StandardDevice, count, write_config}

-- The packets that will come in, and those that were sent.
pub record Link : Type 0 where
  pub inbox : List Bytes
  pub outbox : List Bytes

-- With nothing to come in, a read waits.
abbrev pub link_read : List Bytes → Effect Link Error Bytes
link_read [] l = (fail read_waits, l)
link_read (bs ∷ rest) l = (ok bs, record l { inbox = rest })

abbrev pub link : Gateway Link
link = record {
  read = λ n l. link_read l.inbox l;
  write = λ bs l. (ok tt, record l { outbox = l.outbox ++ bs ∷ [] });
  confirm = λ l. (ok tt, l);
}

-- The payloads that were sent, behind the twelve bytes before them.
abbrev pub payloads : StandardDevice Link → List Bytes
payloads d = map (drop 12) d.bcs.gateway.outbox

-- An action succeeds, sends messages with these payloads and reads nothing.
pub record Sends (m : Effect (StandardDevice Link) Error (Unit {0})) (ps : List Bytes)
    : Type 0 where
  pub after : StandardDevice Link → StandardDevice Link
  pub runs : (d : StandardDevice Link) → m d ≡ (ok tt, after d)
  pub sends : (d : StandardDevice Link) → payloads (after d) ≡ payloads d ++ ps
  pub inbox_is : (d : StandardDevice Link) → (after d).bcs.gateway.inbox ≡ d.bcs.gateway.inbox
  pub addr_is : (d : StandardDevice Link) → (after d).addr ≡ d.addr

map-snoc :
    (xs : List Bytes) (x : Bytes)
    → map (drop 12) (xs ++ x ∷ []) ≡ map (drop 12) xs ++ drop 12 x ∷ []
map-snoc [] x = refl
map-snoc (y ∷ xs) x = ap (◌∷◌ (drop 12 y)) (map-snoc xs x)

drop-encode : (p : Packet) (counter : ℕ) → drop 12 (encode p counter).0 ≡ p.payload
unfolding encode
drop-encode p counter = refl

pub write_config-Sends :
    (flags : ℕ) (payload : Bytes) → Sends (write_config link flags payload) (payload ∷ [])
unfolding write_config write_packet count
write_config-Sends flags payload = record {
  after = λ d. (write_config link flags payload d).1;
  runs = λ d. refl;
  sends = λ d.
      map-snoc d.bcs.gateway.outbox _
      ∙ ap (λ x. payloads d ++ x ∷ []) (drop-encode _ d.bcs.counter);
  inbox_is = λ d. refl;
  addr_is = λ d. refl;
}

pub Sends-then :
    {m n : Effect (StandardDevice Link) Error (Unit {0})} {ps qs : List Bytes}
    → Sends m ps
    → Sends n qs
    → Sends (m >> n) (ps ++ qs)
Sends-then {n = n} {ps = ps} {qs = qs} a b = record {
  after = λ d. b.after (a.after d);
  runs = λ d. ap (λ o. continue o.0 o.1 (λ _. n)) (a.runs d) ∙ b.runs (a.after d);
  sends =
      λ d. b.sends (a.after d) ∙ ap (λ x. x ++ qs) (a.sends d) ∙ append_assoc (payloads d) ps qs;
  inbox_is = λ d. b.inbox_is (a.after d) ∙ a.inbox_is d;
  addr_is = λ d. b.addr_is (a.after d) ∙ a.addr_is d;
}
