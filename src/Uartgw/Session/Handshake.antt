-- ===== src/Uartgw/Session/Handshake.antt =====
-- Against a device that answers as documented, the initialisation succeeds.
use hmgo.Prelude.{ℕ, ◌+◌, ◌<◌, ◌≡◌, refl, ap, ◌∙◌, arith, List, [], ◌∷◌, ◌++◌}
use hmgo.Prelude.{Bytes, codes, length, equal_iff}
use hmgo.Effect.{ok, Effect, continue, ◌>>=◌, ◌>>◌}
use hmgo.Fault.{Stage, Error}
use hmgo.Uart.Reads.{after}
use hmgo.Uartgw.Command.{
  UartCmd, os_get_app, os_get_firmware, os_change_app, os_ack, os_get_serial, app_ack, byte,
  command, os, app,
}
use hmgo.Uartgw.Packet.{Packet, Uartgw, write_packet, read_packet}
use hmgo.Uartgw.Packet.Frame.{frame}
use hmgo.Uartgw.Packet.Frames.{read_packet-frame}
use hmgo.Uartgw.Packet.Writing.{write_packet-frame}
use hmgo.Uartgw.Session.{
  request, expect_cmd, expect_application, staged, wrap, switch_to_app, get_firmware_version,
  get_serial_number,
}

-- No write fails, `rest` is what the device still sends, and these are the fields of the gateway.
pub record Ready (rest : Bytes) (s : ℕ) (version : List ℕ) (serial : Bytes) (u : Uartgw)
    : Type 0 where
  pub no_faults : u.port.faults ≡ []
  pub pending_is : u.port.pending ≡ rest
  pub state_is : u.devstate ≡ s
  pub version_is : u.firmware_version ≡ version
  pub serial_is : u.serial_number ≡ serial

-- A message of the device: destination and counter are free.
pub record Reply : Type 0 where
  pub dst : ℕ
  pub cnt : ℕ
  pub payload : Bytes

abbrev pub Fits : Reply → Type 0
Fits r = length r.payload + 3 < 65536

-- `m` succeeds from `u`, and the gateway that it leaves satisfies `P`.
pub record Leads {A : Type 0} (m : Effect Uartgw Error A) (u : Uartgw) (result : A)
    (P : Uartgw → Type 0) : Type 0 where
  pub later : Uartgw
  pub runs : m u ≡ (ok result, later)
  pub holds : P later

pub Leads-bind :
    {A B : Type 0} (m : Effect Uartgw Error A) (f : A → Effect Uartgw Error B) (u : Uartgw) {a : A}
    {b : B} {P Q : Uartgw → Type 0}
    → Leads m u a P
    → ((t : Uartgw) → P t → Leads (f a) t b Q)
    → Leads (m >>= f) u b Q
Leads-bind m f u {a} x k =
    let y = k x.later x.holds in
    record { later = y.later; runs = ap (λ o. continue o.0 o.1 f) x.runs ∙ y.runs; holds = y.holds }

pub Leads-then :
    {B : Type 0} (m : Effect Uartgw Error (Unit {0})) (n : Effect Uartgw Error B) (u : Uartgw)
    {b : B} {P Q : Uartgw → Type 0}
    → Leads m u tt P
    → ((t : Uartgw) → P t → Leads n t b Q)
    → Leads (m >> n) u b Q
Leads-then m n u x k = Leads-bind m (λ _. n) u x k

pub Leads-staged :
    (stage : Stage) (m : Effect Uartgw Error (Unit {0})) (u : Uartgw) {P : Uartgw → Type 0}
    → Leads m u tt P
    → Leads (staged stage m) u tt P
unfolding staged
Leads-staged stage m u x = record {
  later = x.later;
  runs = ap (λ o. (wrap stage o.0, o.1)) x.runs;
  holds = x.holds;
}

pub expects_application :
    (pkt : Packet) (want : Bytes) (u : Uartgw) {P : Uartgw → Type 0}
    → pkt.payload ≡ want
    → P u
    → Leads (expect_application pkt want) u tt P
unfolding expect_application
expects_application pkt want u e h = record {
  later = u;
  runs = rw ((equal_iff pkt.payload want).1 e);
  holds = h;
}

module _ (checksum : Bytes → ℕ) (bounded : (bs : Bytes) → checksum bs < 65536) where
  abbrev pub message : ℕ → Reply → Bytes
  message k r = frame checksum (r.dst ∷ r.cnt ∷ k ∷ r.payload)

  abbrev pub parsed : UartCmd → Reply → Packet
  parsed cmd r = record { dst = r.dst; msgcnt = r.cnt; cmd = cmd; payload = r.payload }

  pub reads :
      (k : ℕ) (cmd : UartCmd) (r : Reply) (rest : Bytes) (s : ℕ) (v : List ℕ) (n : Bytes)
      (u : Uartgw)
      → command s k ≡ ok cmd
      → Fits r
      → Ready (message k r ++ rest) s v n u
      → Leads (read_packet checksum) u (parsed cmd r) (Ready rest s v n)
  reads k cmd r rest s v n u c h g =
      let (l, e) =
        read_packet-frame checksum u [] r.dst r.cnt k r.payload rest cmd tt h bounded
          (rw g.state_is c) g.pending_is in
      record {
        later = record u { port = after u.port rest l };
        runs = e;
        holds = record {
          no_faults = g.no_faults;
          pending_is = refl;
          state_is = g.state_is;
          version_is = g.version_is;
          serial_is = g.serial_is;
        };
      }

  pub writes :
      (pkt : Packet) (k : ℕ) (rest : Bytes) (s : ℕ) (v : List ℕ) (n : Bytes) (u : Uartgw)
      → byte pkt.cmd ≡ ok k
      → length pkt.payload + 3 < 65536
      → Ready rest s v n u
      → Leads (write_packet checksum pkt) u tt (Ready rest s v n)
  writes pkt k rest s v n u b h g = record {
    later = _;
    runs = write_packet-frame checksum u pkt k g.no_faults b h;
    holds = record {
      no_faults = g.no_faults;
      pending_is = g.pending_is;
      state_is = g.state_is;
      version_is = g.version_is;
      serial_is = g.serial_is;
    };
  }

  -- A request, the reply with the wanted command, and what is then done with the reply.
  exchange :
      {A : Type 0} (pkt : Packet) (kb k : ℕ) (want : UartCmd) (r : Reply) (rest : Bytes) (s : ℕ)
      (v : List ℕ) (n : Bytes) (f : Packet → Effect Uartgw Error A) (u : Uartgw) {a : A}
      {P : Uartgw → Type 0}
      → byte pkt.cmd ≡ ok kb
      → length pkt.payload + 3 < 65536
      → command s k ≡ ok want
      → Fits r
      → Ready (message k r ++ rest) s v n u
      → ((t : Uartgw) → Ready rest s v n t → Leads (f (parsed want r)) t a P)
      → Leads (write_packet checksum pkt >> (read_packet checksum >>= f)) u a P
  exchange pkt kb k want r rest s v n f u b h c fits g next =
      Leads-bind (write_packet checksum pkt) _ u (writes pkt kb _ s v n u b h g)
        λ t gt. Leads-bind (read_packet checksum) f t (reads k want r rest s v n t c fits gt) next

  pub switches :
      (ack hello : Reply) (rest : Bytes) (v : List ℕ) (n : Bytes) (u : Uartgw)
      → Fits ack
      → Fits hello
      → hello.payload ≡ codes "Co_CPU_App"
      → Ready (message 0x04 ack ++ (message 0x00 hello ++ rest)) os v n u
      → Leads (switch_to_app checksum) u tt (Ready rest app v n)
  unfolding switch_to_app
  switches ack hello rest v n u fa fh e g =
      exchange (request os os_change_app []) 0x03 0x04 os_ack ack _ os v n _ u (unfold byte in refl)
        (omega arith) (unfold command in refl) fa g
        λ t gt.
          Leads-bind (read_packet checksum) _ t
            (reads 0x00 os_get_app hello rest os v n t (unfold command in refl) fh gt)
            λ w gw. record {
              later = record w { devstate = app };
              runs = rw e;
              holds = record {
                no_faults = gw.no_faults;
                pending_is = gw.pending_is;
                state_is = refl;
                version_is = gw.version_is;
                serial_is = gw.serial_is;
              };
            }

  -- A conversation in the application that ends with the acknowledgement.
  pub acknowledged :
      (pkt : Packet) (kb : ℕ) (ack : Reply) (rest : Bytes) (v : List ℕ) (n : Bytes) (u : Uartgw)
      → byte pkt.cmd ≡ ok kb
      → length pkt.payload + 3 < 65536
      → Fits ack
      → Ready (message 0x04 ack ++ rest) app v n u
      → Leads
          (write_packet checksum pkt
            >> (read_packet checksum >>= λ reply. expect_cmd reply app_ack))
          u
          tt
          (Ready rest app v n)
  acknowledged pkt kb ack rest v n u b h fa g =
      exchange pkt kb 0x04 app_ack ack rest app v n _ u b h (unfold command in refl) fa g
        λ t gt. record { later = t; runs = unfold expect_cmd in refl; holds = gt }

  -- `a b c d` are the bytes before the version.
  pub gets_version :
      (ack : Reply) (a b c d x y z : ℕ) (more rest : Bytes) (v : List ℕ) (n : Bytes) (u : Uartgw)
      → Fits ack
      → ack.payload ≡ a ∷ b ∷ c ∷ d ∷ x ∷ y ∷ z ∷ more
      → Ready (message 0x04 ack ++ rest) app v n u
      → Leads (get_firmware_version checksum) u tt (Ready rest app (x ∷ y ∷ z ∷ []) n)
  unfolding get_firmware_version
  gets_version ack a b c d x y z more rest v n u fa e g =
      exchange (request os os_get_firmware []) 0x02 0x04 app_ack ack rest app v n _ u
        (unfold byte in refl) (omega arith) (unfold command in refl) fa g
        λ t gt. record {
          later = record t { firmware_version = x ∷ y ∷ z ∷ [] };
          runs = rw e;
          holds = record {
            no_faults = gt.no_faults;
            pending_is = gt.pending_is;
            state_is = gt.state_is;
            version_is = refl;
            serial_is = gt.serial_is;
          };
        }

  pub gets_serial :
      (ack : Reply) (a : ℕ) (serial rest : Bytes) (v : List ℕ) (n : Bytes) (u : Uartgw)
      → Fits ack
      → ack.payload ≡ a ∷ serial
      → Ready (message 0x04 ack ++ rest) app v n u
      → Leads (get_serial_number checksum) u tt (Ready rest app v serial)
  unfolding get_serial_number
  gets_serial ack a serial rest v n u fa e g =
      exchange (request os os_get_serial []) 0x0b 0x04 app_ack ack rest app v n _ u
        (unfold byte in refl) (omega arith) (unfold command in refl) fa g
        λ t gt. record {
          later = record t { serial_number = serial };
          runs = rw e;
          holds = record {
            no_faults = gt.no_faults;
            pending_is = gt.pending_is;
            state_is = gt.state_is;
            version_is = gt.version_is;
            serial_is = refl;
          };
        }
