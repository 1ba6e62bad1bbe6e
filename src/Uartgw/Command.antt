-- ===== src/Uartgw/Command.antt =====
-- The commands of uartgw.go: their constants, their bytes on the wire, and which command a byte
-- stands for, which depends on the state of the device.
pub mod Codes
use hmgo.Prelude.{ℕ, Bool, ◌==◌, if◌then◌else◌}
use hmgo.Effect.{Outcome, ok, fail}
use hmgo.Fault.{Error, unknown_command, unknown_device_state, no_command_byte}

-- `uartdest` is a byte with four named values.
abbrev pub os : ℕ
os = 0

abbrev pub app : ℕ
app = 1

abbrev pub dual : ℕ
dual = 254

abbrev pub dual_err : ℕ
dual_err = 255

pub data UartCmd : Type 0 where
  os_get_app os_get_firmware os_change_app os_ack : UartCmd
  os_update_firmware os_normal_mode os_update_mode os_get_credits : UartCmd
  os_enable_credits os_enable_csmaca os_get_serial os_set_time : UartCmd
  app_set_hmid app_get_hmid app_send app_set_current_key : UartCmd
  app_ack app_recv app_add_peer app_remove_peer : UartCmd
  app_get_peers app_peer_add_aes app_peer_remove_aes app_set_temp_key : UartCmd
  app_set_previous_key app_default_hmid dual_get_app dual_change_app : UartCmd

-- The value of the constant: `iota` counts the list.
unfoldable pub iota : UartCmd → ℕ
iota os_get_app = 0
iota os_get_firmware = 1
iota os_change_app = 2
iota os_ack = 3
iota os_update_firmware = 4
iota os_normal_mode = 5
iota os_update_mode = 6
iota os_get_credits = 7
iota os_enable_credits = 8
iota os_enable_csmaca = 9
iota os_get_serial = 10
iota os_set_time = 11
iota app_set_hmid = 12
iota app_get_hmid = 13
iota app_send = 14
iota app_set_current_key = 15
iota app_ack = 16
iota app_recv = 17
iota app_add_peer = 18
iota app_remove_peer = 19
iota app_get_peers = 20
iota app_peer_add_aes = 21
iota app_peer_remove_aes = 22
iota app_set_temp_key = 23
iota app_set_previous_key = 24
iota app_default_hmid = 25
iota dual_get_app = 26
iota dual_change_app = 27

-- `switch u.devstate { case OS: … }`.
os_command : ℕ → ℕ → Outcome Error UartCmd
os_command state cmd =
    if cmd == 0x00
    then ok os_get_app
    else if cmd == 0x02
    then ok os_get_firmware
    else if cmd == 0x03
    then ok os_change_app
    else if cmd == 0x04
    then ok os_ack
    else if cmd == 0x05
    then ok os_update_firmware
    else if cmd == 0x06
    then ok os_normal_mode
    else if cmd == 0x07
    then ok os_update_mode
    else if cmd == 0x08
    then ok os_get_credits
    else if cmd == 0x09
    then ok os_enable_credits
    else if cmd == 0x0a
    then ok os_enable_csmaca
    else if cmd == 0x0b
    then ok os_get_serial
    else if cmd == 0x0e
    then ok os_set_time
    else fail (unknown_command cmd state)

app_command : ℕ → ℕ → Outcome Error UartCmd
app_command state cmd =
    if cmd == 0x00
    then ok os_get_app
    else if cmd == 0x01
    then ok app_get_hmid
    else if cmd == 0x02
    then ok app_send
    else if cmd == 0x03
    then ok app_set_current_key
    else if cmd == 0x04
    then ok app_ack
    else if cmd == 0x05
    then ok app_recv
    else if cmd == 0x06
    then ok app_add_peer
    else if cmd == 0x07
    then ok app_remove_peer
    else if cmd == 0x08
    then ok app_get_peers
    else if cmd == 0x09
    then ok app_peer_add_aes
    else if cmd == 0x0a
    then ok app_peer_remove_aes
    else if cmd == 0x0b
    then ok app_set_temp_key
    else if cmd == 0x0f
    then ok app_set_previous_key
    else if cmd == 0x10
    then ok app_default_hmid
    else fail (unknown_command cmd state)

-- `UARTGW.Command`, at the device state.
unfoldable pub command : ℕ → ℕ → Outcome Error UartCmd
unfolding os_command app_command
command state cmd =
    if state == os
    then os_command state cmd
    else if state == app
    then app_command state cmd
    else fail (unknown_device_state state)

-- `uartcmd.Byte`.
unfoldable pub byte : UartCmd → Outcome Error ℕ
byte os_get_app = ok 0x00
byte os_get_firmware = ok 0x02
byte os_change_app = ok 0x03
byte os_ack = ok 0x04
byte os_update_firmware = ok 0x05
byte os_normal_mode = ok 0x06
byte os_update_mode = ok 0x07
byte os_get_credits = ok 0x08
byte os_enable_credits = ok 0x09
byte os_enable_csmaca = ok 0x0a
byte os_get_serial = ok 0x0b
byte os_set_time = ok 0x0e
byte app_set_hmid = ok 0x00
byte app_get_hmid = fail (no_command_byte 13)
byte app_send = ok 0x02
byte app_set_current_key = ok 0x03
byte app_ack = ok 0x04
byte app_recv = ok 0x05
byte app_add_peer = ok 0x06
byte app_remove_peer = fail (no_command_byte 19)
byte app_get_peers = ok 0x08
byte app_peer_add_aes = fail (no_command_byte 21)
byte app_peer_remove_aes = ok 0x0a
byte app_set_temp_key = fail (no_command_byte 23)
byte app_set_previous_key = fail (no_command_byte 24)
byte app_default_hmid = fail (no_command_byte 25)
byte dual_get_app = fail (no_command_byte 26)
byte dual_change_app = fail (no_command_byte 27)

-- `got != want` on commands.
unfoldable pub same_cmd : UartCmd → UartCmd → Bool
unfolding iota
same_cmd got want = iota got == iota want
