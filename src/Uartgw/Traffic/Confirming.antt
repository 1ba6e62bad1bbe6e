-- ===== src/Uartgw/Traffic/Confirming.antt =====
-- What `Confirm` and `Read` do with the messages of a device in the application.
use hmgo.Prelude.{ℕ, zero, suc, ◌+◌, ◌<◌, ◌≤◌, ◌≡◌, refl, ap, arith, List, [], ◌∷◌, ◌++◌}
use hmgo.Prelude.{Bytes, length, length-append, All, true, leb}
use hmgo.Effect.Keeps.{Keeps, Keeps-bind, Keeps-if, Keeps-guard}
use hmgo.Uartgw.Command.{app_recv, app_ack, command, same_cmd, app}
use hmgo.Uartgw.Packet.{Uartgw, read_packet}
use hmgo.Uartgw.Packet.Silence.{read_packet_silent}
use hmgo.Uartgw.Session.{expect_cmd}
use hmgo.Uartgw.Session.Handshake.{Ready, Reply, Fits, Leads, Leads-bind, message, reads}
use hmgo.Uartgw.Traffic.{confirm_loop, confirm, read}

module _ (checksum : Bytes → ℕ) (bounded : (bs : Bytes) → checksum bs < 65536) where
  -- AppRecv messages, then the rest.
  abbrev pub received : List Reply → Bytes → Bytes
  received [] rest = rest
  received (r ∷ rs) rest = message checksum bounded 0x05 r ++ received rs rest

  pub length-received :
      (rs : List Reply) (rest : Bytes) → length rs + length rest ≤ length (received rs rest)
  length-received [] rest = omega arith
  length-received (r ∷ rs) rest = omega (
    arith,
    length-append (message checksum bounded 0x05 r) (received rs rest),
    length-received rs rest,
  )

  confirms :
      (rs : List Reply) (ack : Reply) (rest : Bytes) (v : List ℕ) (n : Bytes) (fuel : ℕ)
      (u : Uartgw)
      → length rs < fuel
      → All Fits rs
      → Fits ack
      → Ready (received rs (message checksum bounded 0x04 ack ++ rest)) app v n u
      → Leads (confirm_loop checksum fuel) u tt (Ready rest app v n)
  unfolding confirm_loop same_cmd expect_cmd
  confirms rs ack rest v n zero u h hs ha g = absurd (omega arith)
  confirms [] ack rest v n (suc fuel) u h hs ha g =
      Leads-bind (read_packet checksum) _ u
        (reads checksum bounded 0x04 app_ack ack rest app v n u (unfold command in refl) ha g)
        λ t gt. record { later = t; runs = refl; holds = gt }
  confirms (r ∷ rs) ack rest v n (suc fuel) u h (hr, hs) ha g =
      Leads-bind (read_packet checksum) _ u
        (reads checksum bounded 0x05 app_recv r _ app v n u (unfold command in refl) hr g)
        λ t gt.
          let x = confirms rs ack rest v n fuel t (omega arith) hs ha gt in
          record { later = x.later; runs = x.runs; holds = x.holds }

  -- `Confirm` drops the AppRecv packets that come before the acknowledgement, returns no error at
  -- it, and leaves unread what follows.
  pub confirm_drops :
      (rs : List Reply) (ack : Reply) (rest : Bytes) (v : List ℕ) (n : Bytes) (u : Uartgw)
      → All Fits rs
      → Fits ack
      → Ready (received rs (message checksum bounded 0x04 ack ++ rest)) app v n u
      → Leads (confirm checksum) u tt (Ready rest app v n)
  unfolding confirm
  confirm_drops rs ack rest v n u hs ha g =
      let x =
        confirms rs ack rest v n (suc (length u.port.pending)) u
          (omega (
            arith,
            ap length g.pending_is,
            length-received rs (message checksum bounded 0x04 ack ++ rest),
          ))
          hs ha g in
      record { later = x.later; runs = x.runs; holds = x.holds }

  -- `Read` hands the payload of an AppRecv packet out, if the buffer is long enough.
  pub read_receives :
      (size : ℕ) (r : Reply) (rest : Bytes) (v : List ℕ) (n : Bytes) (u : Uartgw)
      → Fits r
      → length r.payload ≤ size
      → Ready (message checksum bounded 0x05 r ++ rest) app v n u
      → Leads (read checksum size) u r.payload (Ready rest app v n)
  unfolding read
  read_receives size r rest v n u h le g =
      Leads-bind (read_packet checksum) _ u
        (reads checksum bounded 0x05 app_recv r rest app v n u (unfold command in refl) h g)
        λ t gt.
          let fits : leb (length r.payload) size ≡ true = ground arith in
          record { later = t; runs = unfold expect_cmd in rw fits; holds = gt }

module _ (checksum : Bytes → ℕ) where
  confirm_loop_silent :
      (fuel : ℕ) → Keeps (λ (u : Uartgw). u.port.sent) (confirm_loop checksum fuel)
  unfolding confirm_loop expect_cmd
  confirm_loop_silent zero = record { at = λ u. refl }
  confirm_loop_silent (suc fuel) =
      Keeps-bind _ (read_packet checksum) _ (read_packet_silent checksum) λ pkt.
        Keeps-if _ (same_cmd pkt.cmd app_recv) (confirm_loop checksum fuel) (expect_cmd pkt app_ack)
          (confirm_loop_silent fuel) (Keeps-guard _ _ _)

  -- `Confirm` writes nothing, whatever it reads.
  pub confirm_silent : (u : Uartgw) → (confirm checksum u).1.port.sent ≡ u.port.sent
  unfolding confirm
  confirm_silent u = (confirm_loop_silent (suc (length u.port.pending))).at u
