-- ===== src/Uartgw/Command/Codes.antt =====
-- How `Command` and `Byte` fit together.
use hmgo.Prelude.{ℕ, zero, suc, ◌≡◌, ◌≢◌, ◌↔◌, refl, sym, ap, ◌∙◌, arith, true, ==_iff}
use hmgo.Prelude.{ltb, if◌then◌else◌}
use hmgo.Effect.{ok}
use hmgo.Uartgw.Command.{UartCmd, iota, command, byte, same_cmd, os, app}
use hmgo.Uartgw.Command.{
  os_get_app, os_get_firmware, os_change_app, os_ack, os_update_firmware, os_normal_mode,
  os_update_mode, os_get_credits, os_enable_credits, os_enable_csmaca, os_get_serial, os_set_time,
  app_set_hmid, app_get_hmid, app_send, app_set_current_key, app_ack, app_recv, app_add_peer,
  app_remove_peer, app_get_peers, app_peer_add_aes, app_peer_remove_aes, app_set_temp_key,
  app_set_previous_key, app_default_hmid, dual_get_app, dual_change_app,
}

-- The constants are different numbers: the command can be read off.
of_iota : ℕ → UartCmd
of_iota zero = os_get_app
of_iota (suc zero) = os_get_firmware
of_iota (suc (suc zero)) = os_change_app
of_iota (suc (suc (suc zero))) = os_ack
of_iota (suc (suc (suc (suc zero)))) = os_update_firmware
of_iota (suc (suc (suc (suc (suc zero))))) = os_normal_mode
of_iota (suc (suc (suc (suc (suc (suc zero)))))) = os_update_mode
of_iota (suc (suc (suc (suc (suc (suc (suc zero))))))) = os_get_credits
of_iota (suc (suc (suc (suc (suc (suc (suc (suc zero)))))))) = os_enable_credits
of_iota (suc (suc (suc (suc (suc (suc (suc (suc (suc zero))))))))) = os_enable_csmaca
of_iota (suc (suc (suc (suc (suc (suc (suc (suc (suc (suc zero)))))))))) = os_get_serial
of_iota (suc (suc (suc (suc (suc (suc (suc (suc (suc (suc (suc zero))))))))))) = os_set_time
of_iota (suc (suc (suc (suc (suc (suc (suc (suc (suc (suc (suc (suc zero)))))))))))) = app_set_hmid
of_iota (suc (suc (suc (suc (suc (suc (suc (suc (suc (suc (suc (suc (suc zero))))))))))))) =
    app_get_hmid
of_iota (suc (suc (suc (suc (suc (suc (suc (suc (suc (suc (suc (suc (suc (suc zero)))))))))))))) =
    app_send
of_iota
      (suc
        (suc (suc (suc (suc (suc (suc (suc (suc (suc (suc (suc (suc (suc (suc zero))))))))))))))) =
    app_set_current_key
of_iota
      (suc (
        suc (
          suc
            (suc (suc (suc (suc (suc (suc (suc (suc (suc (suc (suc (suc (suc zero)))))))))))))))) =
    app_ack
of_iota
      (suc (
        suc (
          suc (
            suc (
              suc
                (suc (suc (suc (suc (suc (suc (suc (suc (suc (suc (suc (suc zero))))))))))))))))) =
    app_recv
of_iota
      (suc (
        suc (
          suc (
            suc (
              suc (
                suc (
                  suc
                    (suc (suc (suc (suc (suc (suc (suc (suc (suc (suc (suc zero)))))))))))))))))) =
    app_add_peer
of_iota
      (suc (
        suc (
          suc (
            suc (
              suc (
                suc (
                  suc (
                    suc (
                      suc
                        (suc (suc (suc (suc (suc (suc (suc (suc (suc (suc zero))))))))))))))))))) =
    app_remove_peer
of_iota
      (suc (
        suc (
          suc (
            suc (
              suc (
                suc (
                  suc (
                    suc (
                      suc (
                        suc (
                          suc
                            (suc (suc (suc (suc (suc (suc (suc (suc (suc zero)))))))))))))))))))) =
    app_get_peers
of_iota
      (suc (
        suc (
          suc (
            suc (
              suc (
                suc (
                  suc (
                    suc (
                      suc (
                        suc (
                          suc (
                            suc (
                              suc
                                (suc (suc (suc (suc (suc (suc (suc (suc zero))))))))))))))))))))) =
    app_peer_add_aes
of_iota
      (suc (
        suc (
          suc (
            suc (
              suc (
                suc (
                  suc (
                    suc (
                      suc (
                        suc (
                          suc (
                            suc (
                              suc (
                                suc (
                                  suc
                                    (suc (suc (suc (suc (suc (suc (suc zero)))))))))))))))))))))) =
    app_peer_remove_aes
of_iota
      (suc (
        suc (
          suc (
            suc (
              suc (
                suc (
                  suc (
                    suc (
                      suc (
                        suc (
                          suc (
                            suc (
                              suc (
                                suc (
                                  suc (
                                    suc (
                                      suc
                                        (suc (suc (suc (suc (suc (suc zero))))))))))))))))))))))) =
    app_set_temp_key
of_iota
      (suc (
        suc (
          suc (
            suc (
              suc (
                suc (
                  suc (
                    suc (
                      suc (
                        suc (
                          suc (
                            suc (
                              suc (
                                suc (
                                  suc (
                                    suc (
                                      suc (
                                        suc (
                                          suc
                                            (suc (suc (suc (suc (suc zero)))))))))))))))))))))))) =
    app_set_previous_key
of_iota
      (suc (
        suc (
          suc (
            suc (
              suc (
                suc (
                  suc (
                    suc (
                      suc (
                        suc (
                          suc (
                            suc (
                              suc (
                                suc (
                                  suc (
                                    suc (
                                      suc (
                                        suc (
                                          suc (
                                            suc (
                                              suc
                                                (suc (suc (suc (suc zero))))))))))))))))))))))))) =
    app_default_hmid
of_iota
      (suc (
        suc (
          suc (
            suc (
              suc (
                suc (
                  suc (
                    suc (
                      suc (
                        suc (
                          suc (
                            suc (
                              suc (
                                suc (
                                  suc (
                                    suc (
                                      suc (
                                        suc (
                                          suc (
                                            suc (
                                              suc (
                                                suc (
                                                  suc
                                                    (suc (suc (suc zero)))))))))))))))))))))))))) =
    dual_get_app
of_iota _ = dual_change_app

of_iota-iota : (c : UartCmd) → of_iota (iota c) ≡ c
unfolding of_iota iota
of_iota-iota os_get_app = refl
of_iota-iota os_get_firmware = refl
of_iota-iota os_change_app = refl
of_iota-iota os_ack = refl
of_iota-iota os_update_firmware = refl
of_iota-iota os_normal_mode = refl
of_iota-iota os_update_mode = refl
of_iota-iota os_get_credits = refl
of_iota-iota os_enable_credits = refl
of_iota-iota os_enable_csmaca = refl
of_iota-iota os_get_serial = refl
of_iota-iota os_set_time = refl
of_iota-iota app_set_hmid = refl
of_iota-iota app_get_hmid = refl
of_iota-iota app_send = refl
of_iota-iota app_set_current_key = refl
of_iota-iota app_ack = refl
of_iota-iota app_recv = refl
of_iota-iota app_add_peer = refl
of_iota-iota app_remove_peer = refl
of_iota-iota app_get_peers = refl
of_iota-iota app_peer_add_aes = refl
of_iota-iota app_peer_remove_aes = refl
of_iota-iota app_set_temp_key = refl
of_iota-iota app_set_previous_key = refl
of_iota-iota app_default_hmid = refl
of_iota-iota dual_get_app = refl
of_iota-iota dual_change_app = refl

-- The code's comparison of commands is equality.
pub same_cmd_iff : (a b : UartCmd) → (same_cmd a b ≡ true) ↔ (a ≡ b)
unfolding same_cmd
same_cmd_iff a b = (
  λ h. sym (of_iota-iota a) ∙ ap of_iota ((==_iff (iota a) (iota b)).0 h) ∙ of_iota-iota b,
  λ e. (==_iff (iota a) (iota b)).1 (ap iota e),
)

-- The state of the device in which a command means what its name says.
unfoldable pub home : UartCmd → ℕ
unfolding iota
home c = if ltb (iota c) 12 then os else app

pub read_back : (c : UartCmd) (b : ℕ) → c ≢ app_set_hmid → byte c ≡ ok b → command (home c) b ≡ ok c
unfolding command byte iota home
read_back os_get_app b ne h = ground arith
read_back _ b ne h = ground arith

never_set_hmid : (k : ℕ) → command app k ≢ ok app_set_hmid
unfolding command iota
never_set_hmid k h = ground arith

-- Every command that has a byte, but AppSetHMID, is read back from it in its own state; and a device
-- in the application is never taken to send AppSetHMID, whatever byte it sends.
pub command-byte :
    (c : UartCmd) (b k : ℕ)
    → c ≢ app_set_hmid
    → byte c ≡ ok b
    → (command (home c) b ≡ ok c) × (command app k ≢ ok app_set_hmid)
command-byte c b k ne h = (read_back c b ne h, never_set_hmid k)
