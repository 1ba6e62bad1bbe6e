-- ===== src/Hm/Acknowledged.antt =====
-- Conversations with a device on a gateway that acknowledges every packet.
use hmgo.Prelude.{
  ℕ, ◌+◌, ◌%◌, ◌<◌, ◌≤◌, ◌≡◌, ap, ◌∙◌, arith, List, [], ◌∷◌, ◌++◌, Bytes, length, All, append_assoc,
}
use hmgo.Effect.{ok, Effect, continue, ◌>>◌}
use hmgo.Fault.{Error}
use hmgo.Uartgw.Command.{app}
use hmgo.Uartgw.Packet.{Uartgw}
use hmgo.Uartgw.Session.Handshake.{Ready, Reply, Fits, message}
use hmgo.Uartgw.Traffic.Confirming.{received}
use hmgo.Bidcos.{default_flags}
use hmgo.Bidcos.Radio.{uartgw, write_packet_acknowledged}
use hmgo.Hm.{
  StandardDevice, count, config_packet, write_config, config_start, config_write_index, config_end,
  pair_keys, pair,
}

-- AppRecv messages and then an acknowledgement.
pub record Turn : Type 0 where
  pub noise : List Reply
  pub ack : Reply

abbrev pub IsTurn : Turn → Type 0
IsTurn t = All Fits t.noise × Fits t.ack

-- `m` succeeds on the device, and leaves its gateway ready for `rest`.
pub record Acked (m : Effect (StandardDevice Uartgw) Error (Unit {0})) (d : StandardDevice Uartgw)
    (rest : Bytes) (v : List ℕ) (n : Bytes) : Type 0 where
  pub later : StandardDevice Uartgw
  pub runs : m d ≡ (ok tt, later)
  pub ready : Ready rest app v n later.bcs.gateway
  pub more : Bytes
  pub sent_is : later.bcs.gateway.port.sent ≡ d.bcs.gateway.port.sent ++ more

Acked-then :
    (m k : Effect (StandardDevice Uartgw) Error (Unit {0})) (d : StandardDevice Uartgw)
    (between rest : Bytes) (v : List ℕ) (n : Bytes)
    → Acked m d between v n
    → ((t : StandardDevice Uartgw) → Ready between app v n t.bcs.gateway → Acked k t rest v n)
    → Acked (m >> k) d rest v n
Acked-then m k d between rest v n x next =
    let y = next x.later x.ready in
    record {
      later = y.later;
      runs = ap (λ o. continue o.0 o.1 (λ _. k)) x.runs ∙ y.runs;
      ready = y.ready;
      more = x.more ++ y.more;
      sent_is =
          y.sent_is
          ∙ ap (λ z. z ++ y.more) x.sent_is
          ∙ append_assoc d.bcs.gateway.port.sent x.more y.more;
    }

module _ (checksum : Bytes → ℕ) (bounded : (bs : Bytes) → checksum bs < 65536) where
  abbrev pub turns : List Turn → Bytes → Bytes
  turns [] rest = rest
  turns (t ∷ ts) rest =
      received checksum bounded t.noise (message checksum bounded 0x04 t.ack ++ turns ts rest)

  write_config-Acked :
      (flags : ℕ) (payload : Bytes) (t : Turn) (rest : Bytes) (v : List ℕ) (n : Bytes)
      (d : StandardDevice Uartgw)
      → length payload ≤ 1000
      → IsTurn t
      → Ready (turns (t ∷ []) rest) app v n d.bcs.gateway
      → Acked (write_config (uartgw checksum) flags payload) d rest v n
  unfolding write_config count
  write_config-Acked flags payload t rest v n d h (hn, ha) g =
      let (s, runs, ready, sent, _) =
        write_packet_acknowledged checksum bounded (config_packet d.addr flags d.msgcnt payload)
          t.noise t.ack rest v n d.bcs h hn ha g in
      record {
        later = record d { bcs = s; msgcnt = (d.msgcnt + 9) % 256 };
        runs = ap (λ o. (o.0, record d { bcs = o.1; msgcnt = (d.msgcnt + 9) % 256 })) runs;
        ready = ready;
        more = _;
        sent_is = sent;
      }

  -- Pair sends three packets. If the gateway acknowledges each of them, radio packets of any device
  -- in between, it succeeds and reads no more than that.
  pub pair-Acked :
      (a b c : Turn) (rest : Bytes) (v : List ℕ) (n : Bytes) (d : StandardDevice Uartgw)
      → All IsTurn (a ∷ b ∷ c ∷ [])
      → Ready (turns (a ∷ b ∷ c ∷ []) rest) app v n d.bcs.gateway
      → Acked (pair (uartgw checksum)) d rest v n
  unfolding pair config_start config_write_index config_end pair_keys
  pair-Acked a b c rest v n d (ha, (hb, (hc, _))) g =
      let x =
        Acked-then (config_start (uartgw checksum) 0 0) _ d _ rest v n
          (write_config-Acked default_flags _ a _ v n d (omega arith) ha g)
          λ t gt.
            Acked-then
              (config_write_index (uartgw checksum) 0 (pair_keys (uartgw checksum) d.bcs.addr))
              (config_end (uartgw checksum) 0) t _ rest v n
              (write_config-Acked default_flags _ b _ v n t (omega arith) hb gt)
              λ w gw. write_config-Acked default_flags _ c rest v n w (omega arith) hc gw in
      record { later = x.later; runs = x.runs; ready = x.ready; more = x.more; sent_is = x.sent_is }
