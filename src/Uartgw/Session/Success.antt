-- ===== src/Uartgw/Session/Success.antt =====
-- The whole initialisation, against the transcript that the comments of uartgw.go quote.
use hmgo.Prelude.{ℕ, ◌<◌, ◌≡◌, refl, arith, List, [], ◌∷◌, ◌++◌, Bytes, codes}
use hmgo.Fault.{
  switching_to_application, getting_firmware_version, enabling_csmaca, getting_serial_number,
  setting_time, setting_current_key, setting_hmid,
}
use hmgo.Uartgw.Command.{
  os_get_app, os_enable_csmaca, os_set_time, app_set_hmid, app_set_current_key, byte, command, os,
  app,
}
use hmgo.Uartgw.Packet.{Uartgw, addr_bytes, read_packet}
use hmgo.Uartgw.Session.{
  Time, request, key_payload, expect_cmd, expect_application, staged, switch_to_app,
  get_firmware_version, enable_csmaca, get_serial_number, set_time, set_current_key, set_hmid, init,
}
use hmgo.Uartgw.Session.Handshake.{
  Ready, Reply, Fits, Leads, Leads-bind, Leads-then, Leads-staged, message, parsed, reads, switches,
  expects_application, acknowledged, gets_version, gets_serial,
}

-- The nine messages of the device, in order.
pub record Answers : Type 0 where
  pub bootloader : Reply
  pub changed : Reply
  pub application : Reply
  pub firmware : Reply
  pub csmaca : Reply
  pub serial : Reply
  pub time : Reply
  pub key : Reply
  pub hmid : Reply

-- What the payloads hold. Nothing is asked of the other acknowledgements.
pub record IsProper (m : Answers) (x y z : ℕ) (serial_number : Bytes) : Type 0 where
  pub bootloader_fits : Fits m.bootloader
  pub bootloader_is : m.bootloader.payload ≡ codes "Co_CPU_BL"
  pub changed_fits : Fits m.changed
  pub application_fits : Fits m.application
  pub application_is : m.application.payload ≡ codes "Co_CPU_App"
  pub firmware_fits : Fits m.firmware
  pub before_version : record { a : ℕ; b : ℕ; c : ℕ; d : ℕ }
  pub after_version : Bytes
  pub firmware_is :
      m.firmware.payload
      ≡ before_version.a ∷ before_version.b ∷ before_version.c ∷ before_version.d ∷ x ∷ y ∷ z
        ∷ after_version
  pub csmaca_fits : Fits m.csmaca
  pub serial_fits : Fits m.serial
  pub before_serial : ℕ
  pub serial_is : m.serial.payload ≡ before_serial ∷ serial_number
  pub time_fits : Fits m.time
  pub key_fits : Fits m.key
  pub hmid_fits : Fits m.hmid

module _ (checksum : Bytes → ℕ) (bounded : (bs : Bytes) → checksum bs < 65536) where
  abbrev pub transcript : Answers → Bytes → Bytes
  transcript m rest =
      message checksum bounded 0x00 m.bootloader
      ++ (message checksum bounded 0x04 m.changed
          ++ (message checksum bounded 0x00 m.application
              ++ (message checksum bounded 0x04 m.firmware
                  ++ (message checksum bounded 0x04 m.csmaca
                      ++ (message checksum bounded 0x04 m.serial
                          ++ (message checksum bounded 0x04 m.time
                              ++ (message checksum bounded 0x04 m.key
                                  ++ (message checksum bounded 0x04 m.hmid ++ rest))))))))

  enables_csmaca :
      (ack : Reply) (rest : Bytes) (v : List ℕ) (n : Bytes) (u : Uartgw)
      → Fits ack
      → Ready (message checksum bounded 0x04 ack ++ rest) app v n u
      → Leads (enable_csmaca checksum) u tt (Ready rest app v n)
  unfolding enable_csmaca
  enables_csmaca ack rest v n u f g =
      acknowledged checksum bounded (request os os_enable_csmaca (0x01 ∷ [])) 0x0a ack rest v n u
        (unfold byte in refl) (omega arith) f g

  sets_time :
      (now : Time) (ack : Reply) (rest : Bytes) (v : List ℕ) (n : Bytes) (u : Uartgw)
      → Fits ack
      → Ready (message checksum bounded 0x04 ack ++ rest) app v n u
      → Leads (set_time checksum now) u tt (Ready rest app v n)
  unfolding set_time
  sets_time now ack rest v n u f g =
      acknowledged checksum bounded (request os os_set_time _) 0x0e ack rest v n u
        (unfold byte in refl) (omega arith) f g

  sets_current_key :
      (ack : Reply) (rest : Bytes) (v : List ℕ) (n : Bytes) (u : Uartgw)
      → Fits ack
      → Ready (message checksum bounded 0x04 ack ++ rest) app v n u
      → Leads (set_current_key checksum) u tt (Ready rest app v n)
  unfolding set_current_key
  sets_current_key ack rest v n u f g =
      acknowledged checksum bounded (request app app_set_current_key key_payload) 0x03 ack rest v n
        u (unfold byte in refl) (omega arith) f g

  sets_hmid :
      (ack : Reply) (rest : Bytes) (v : List ℕ) (n : Bytes) (u : Uartgw)
      → Fits ack
      → Ready (message checksum bounded 0x04 ack ++ rest) app v n u
      → Leads (set_hmid checksum) u tt (Ready rest app v n)
  unfolding set_hmid
  sets_hmid ack rest v n u f g =
      let x =
        acknowledged checksum bounded (request app app_set_hmid (addr_bytes u.hmid)) 0x00 ack rest v
          n u (unfold byte in refl) (omega arith) f g in
      record { later = x.later; runs = x.runs; holds = x.holds }

  -- If no write fails and the device sends its nine messages, whatever their counters and however
  -- the port cuts them up, the initialisation returns no error. The gateway then has the version
  -- and the serial number that were sent and is in the application state; what the device sends
  -- behind its last message is still unread.
  pub init_succeeds :
      (now : Time) (m : Answers) (x y z : ℕ) (serial rest : Bytes) (v : List ℕ) (n : Bytes)
      (u : Uartgw)
      → IsProper m x y z serial
      → Ready (transcript m rest) os v n u
      → Leads (init checksum now) u tt (Ready rest app (x ∷ y ∷ z ∷ []) serial)
  unfolding init
  init_succeeds now m x y z serial rest v n u p g =
      Leads-bind (read_packet checksum) _ u
        (reads checksum bounded 0x00 os_get_app m.bootloader _ os v n u (unfold command in refl)
          p.bootloader_fits g)
        λ u1 g1.
          Leads-then (expect_cmd (parsed checksum bounded os_get_app m.bootloader) os_get_app) _ u1
            (record { later = u1; runs = refl; holds = g1 })
            λ u2 g2.
              Leads-then
                (expect_application (parsed checksum bounded os_get_app m.bootloader)
                  (codes "Co_CPU_BL"))
                _ u2
                (expects_application (parsed checksum bounded os_get_app m.bootloader)
                  (codes "Co_CPU_BL") u2 p.bootloader_is g2)
                λ u3 g3.
                  Leads-then (staged switching_to_application (switch_to_app checksum)) _ u3
                    (Leads-staged _ _ u3 (
                      switches checksum bounded m.changed m.application _ v n u3 p.changed_fits
                        p.application_fits p.application_is g3))
                    λ u4 g4.
                      Leads-then (staged getting_firmware_version (get_firmware_version checksum)) _
                        u4
                        (Leads-staged _ _ u4 (
                          gets_version checksum bounded m.firmware _ _ _ _ x y z _ _ v n u4
                            p.firmware_fits p.firmware_is g4))
                        λ u5 g5.
                          Leads-then (staged enabling_csmaca (enable_csmaca checksum)) _ u5
                            (Leads-staged _ _ u5
                              (enables_csmaca m.csmaca _ _ n u5 p.csmaca_fits g5))
                            λ u6 g6.
                              Leads-then (staged getting_serial_number (get_serial_number checksum))
                                _ u6
                                (Leads-staged _ _ u6 (
                                  gets_serial checksum bounded m.serial _ serial _ _ n u6
                                    p.serial_fits p.serial_is g6))
                                λ u7 g7.
                                  Leads-then (staged setting_time (set_time checksum now)) _ u7
                                    (Leads-staged _ _ u7
                                      (sets_time now m.time _ _ serial u7 p.time_fits g7))
                                    λ u8 g8.
                                      Leads-then
                                        (staged setting_current_key (set_current_key checksum)) _ u8
                                        (Leads-staged _ _ u8
                                          (sets_current_key m.key _ _ serial u8 p.key_fits g8))
                                        λ u9 g9.
                                          Leads-staged setting_hmid (set_hmid checksum) u9
                                            (sets_hmid m.hmid rest _ serial u9 p.hmid_fits g9)
