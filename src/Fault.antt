-- ===== src/Fault.antt =====
-- The errors that the packages return, one constructor for each message. Numbers are what the
-- messages quote; a command is quoted by its place in the list of constants of uartgw.go.
use hmgo.Prelude.{ℕ, Bytes}

pub data Stage : Type 0 where
  switching_to_application getting_firmware_version enabling_csmaca getting_serial_number : Stage
  setting_time setting_current_key setting_hmid : Stage

-- `read_waits` is no error of the code: with it a run stops at a `Read` that waits for a byte that the
-- device does not send, since the port blocks and no read has a deadline.
pub data Error : Type 0 where
  read_waits write_failed : Error
  unknown_command : ℕ → ℕ → Error
  unknown_device_state : ℕ → Error
  no_command_byte : ℕ → Error
  unexpected_checksum : ℕ → ℕ → Error
  unexpected_cmd : ℕ → ℕ → Error
  unexpected_application : Bytes → Bytes → Error
  buffer_too_short : ℕ → ℕ → Error
  in_stage : Stage → Error → Error
  too_short_for_bidcos : ℕ → Error
  unexpected_reply : Bytes → Error
  unexpected_payload : ℕ → Error
  unpeering_not_implemented : Error
  unexpected_response_command : ℕ → ℕ → Error
  unexpected_response_length : ℕ → Error
  unexpected_ack_status : ℕ → Error
  unexpected_payload_size : ℕ → ℕ → Error
