-- ===== src/Hm/Refused.antt =====
-- EnsurePeeredWith on a device that refuses, or that has more peers than one.
use hmgo.Prelude.{ℕ, ◌≡◌, ◌≤◌, refl, sym, ap, ◌∙◌, List, [], ◌∷◌, ◌++◌, Bytes, length}
use hmgo.Prelude.{Bool, true, false, Option, none, some, equal, ◌==◌, append-nil, if◌then◌else◌}
use hmgo.Effect.{ok, fail, Effect, continue, guard, ◌>>◌}
use hmgo.Fault.{
  Error, unpeering_not_implemented, unexpected_response_command, unexpected_response_length,
  unexpected_ack_status,
}
use hmgo.Uartgw.Packet.{addr_bytes}
use hmgo.Bidcos.{Packet, decode}
use hmgo.Hm.{StandardDevice, FullyQualifiedChannel}
use hmgo.Hm.Link.{Link, link}
use hmgo.Hm.Configured.{with_inbox, next_packet}
use hmgo.Hm.Peering.{
  expect_status, check_response, expect_response, add_new_peer, replace_peers, ensure_peered_with,
}
use hmgo.Hm.Peered.{Lists}
use hmgo.Hm.Replaced.{
  Ends, Talks-then, Talks-Sends, Accepts, response, list_request, add_request, remove_request,
  add_request-Sends, remove_request-Sends, listed,
}

-- What is wrong with a response that should have the command `want` and the status 0.
abbrev pub wrong_status : Bytes → Option Error
wrong_status [] = some (unexpected_response_length 0)
wrong_status (status ∷ more) = if status == 0 then none else some (unexpected_ack_status status)

abbrev pub wrong : ℕ → Packet → Option Error
wrong want pkt =
    if pkt.cmd == want
    then wrong_status pkt.payload
    else some (unexpected_response_command pkt.cmd want)

-- Received bytes that are a negative answer.
pub record Rejects (want : ℕ) (bs : Bytes) (e : Error) : Type 0 where
  pub packet : Packet
  pub decodes : decode bs ≡ ok packet
  pub wrong_is : wrong want packet ≡ some e

status_fails :
    (payload : Bytes) (e : Error) (d : StandardDevice Link)
    → wrong_status payload ≡ some e
    → expect_status payload d ≡ (fail e, d)
unfolding expect_status
status_fails [] e d h = let x : unexpected_response_length 0 ≡ e = cc in ap (λ z. (fail z, d)) x
status_fails (status ∷ more) e d h = tested (status == 0) h
  where
    tested :
        (b : Bool)
        → (if b then none else some (unexpected_ack_status status)) ≡ some e
        → guard b (unexpected_ack_status status) d ≡ (fail e, d)
    tested true f = cc
    tested false f = let x : unexpected_ack_status status ≡ e = cc in ap (λ z. (fail z, d)) x

check_fails :
    (want : ℕ) (pkt : Packet) (e : Error) (d : StandardDevice Link)
    → wrong want pkt ≡ some e
    → check_response want pkt d ≡ (fail e, d)
unfolding check_response
check_fails want pkt e d h = tested (pkt.cmd == want) h
  where
    tested :
        (b : Bool)
        → (if b then wrong_status pkt.payload else some (unexpected_response_command pkt.cmd want))
          ≡ some e
        → (guard b (unexpected_response_command pkt.cmd want) >> expect_status pkt.payload) d
          ≡ (fail e, d)
    tested true f = status_fails pkt.payload e d f
    tested false f =
        let x : unexpected_response_command pkt.cmd want ≡ e = cc in ap (λ z. (fail z, d)) x

rejected :
    (want : ℕ) (bs : Bytes) (e : Error) (rest : List Bytes) (d : StandardDevice Link)
    → Rejects want bs e
    → d.bcs.gateway.inbox ≡ bs ∷ rest
    → Ends (expect_response link want) d (fail e) rest []
unfolding expect_response
rejected want bs e rest d r i = record {
  later = with_inbox rest d;
  runs =
      ap (λ x. expect_response link want (with_inbox x d)) i
      ∙ ap (λ o. continue o.0 o.1 (check_response want)) (next_packet bs rest r.packet d r.decodes)
      ∙ check_fails want r.packet e (with_inbox rest d) r.wrong_is;
  sends = sym (append-nil _);
  inbox_is = refl;
}

-- A block ends with the error of its first part.
stops :
    {m : Effect (StandardDevice Link) Error (Unit {0})}
    (n : Effect (StandardDevice Link) Error (Unit {0})) {d : StandardDevice Link} {e : Error}
    {rest ps : List Bytes}
    → Ends m d (fail e) rest ps
    → Ends (m >> n) d (fail e) rest ps
stops n x = record {
  later = x.later;
  runs = ap (λ o. continue o.0 o.1 (λ _. n)) x.runs;
  sends = x.sends;
  inbox_is = x.inbox_is;
}

-- For these peers and these answers, the error, and what is sent behind the request for the peers.
pub data Refusal (channel : ℕ) (dest : FullyQualifiedChannel)
    : List FullyQualifiedChannel → List Bytes → Error → List Bytes → Type 0 where
  too_many :
      {p q : FullyQualifiedChannel} {more : List FullyQualifiedChannel}
      → Refusal channel dest (p ∷ q ∷ more) [] unpeering_not_implemented []
  not_added :
      {bs : Bytes} {e : Error}
      → Rejects 2 bs e
      → Refusal channel dest [] (bs ∷ []) e (add_request channel dest ∷ [])
  not_removed :
      {old : FullyQualifiedChannel} {bs : Bytes} {e : Error}
      → equal (addr_bytes old.peer) (addr_bytes dest.peer) ≡ false
      → Rejects 0x10 bs e
      → Refusal channel dest (old ∷ []) (bs ∷ []) e (remove_request channel old ∷ [])
  not_replaced :
      {old : FullyQualifiedChannel} {gone bs : Bytes} {e : Error}
      → equal (addr_bytes old.peer) (addr_bytes dest.peer) ≡ false
      → Accepts 0x10 gone
      → Rejects 2 bs e
      → Refusal channel dest
          (old ∷ [])
          (gone ∷ bs ∷ [])
          e
          (remove_request channel old ∷ add_request channel dest ∷ [])

add_fails :
    (channel : ℕ) (dest : FullyQualifiedChannel) (bs : Bytes) (e : Error) (rest : List Bytes)
    (d : StandardDevice Link)
    → Rejects 2 bs e
    → d.bcs.gateway.inbox ≡ bs ∷ rest
    → Ends (add_new_peer link channel dest) d (fail e) rest (add_request channel dest ∷ [])
unfolding add_new_peer
add_fails channel dest bs e rest d r i =
    Talks-then (Talks-Sends d (add_request-Sends channel dest) i)
      (λ f k. rejected 2 bs e rest f r k)

refuses :
    {peers : List FullyQualifiedChannel} {answers : List Bytes} {e : Error} {requests : List Bytes}
    (channel : ℕ) (dest : FullyQualifiedChannel) (rest : List Bytes) (d : StandardDevice Link)
    → Refusal channel dest peers answers e requests
    → d.bcs.gateway.inbox ≡ answers ++ rest
    → Ends (replace_peers link channel dest peers) d (fail e) rest requests
unfolding replace_peers
refuses channel dest rest d too_many i = record {
  later = d;
  runs = refl;
  sends = sym (append-nil _);
  inbox_is = i;
}
refuses channel dest rest d (not_added {bs = bs} {e = e} r) i =
    add_fails channel dest bs e rest d r i
refuses channel dest rest d (not_removed {old = old} {bs = bs} {e = e} ne r) i = rw ne (
    stops (add_new_peer link channel dest) (
      Talks-then (Talks-Sends d (remove_request-Sends channel old) i)
        (λ f k. rejected 0x10 bs e rest f r k)))
refuses channel dest rest d (not_replaced {old = old} {gone = gone} {bs = bs} {e = e} ne a r) i =
    rw ne (
      Talks-then
        (Talks-then (Talks-Sends d (remove_request-Sends channel old) i)
          (λ f k. response 0x10 gone (bs ∷ rest) f a k))
        (λ f k. add_fails channel dest bs e rest f r k))

-- If the device reports two peers or more, or answers one of the changes with another command, with
-- no status or with a status that is not 0, EnsurePeeredWith returns the error that says so. It has
-- sent the request for the peers and the changes up to the one that was refused, no more, and has
-- read the answers up to that one: a peer that is removed before the new one is refused stays away.
pub ensure_peered_refused :
    {bss answers requests : List Bytes} {peers : List FullyQualifiedChannel} (e : Error)
    (fuel channel : ℕ) (dest : FullyQualifiedChannel) (rest : List Bytes) (d : StandardDevice Link)
    → Lists d.addr [] bss peers
    → length bss ≤ fuel
    → Refusal channel dest peers answers e requests
    → d.bcs.gateway.inbox ≡ bss ++ (answers ++ rest)
    → Ends
        (ensure_peered_with link fuel channel dest)
        d
        (fail e)
        rest
        (list_request channel ∷ requests)
ensure_peered_refused e fuel channel dest rest d l h r i =
    listed fuel channel dest d l h i (λ f k. refuses channel dest rest f r k)
