-- ===== src/Uartgw.antt =====
-- Package internal/uartgw: frames to and from the HM-MOD-RPI-PCB gateway.
pub mod Escaping
pub mod Command
pub mod Packet
pub mod Session
pub mod Traffic
pub mod Settling
