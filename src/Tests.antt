-- ===== src/Tests.antt =====
-- Runs on the messages that the comments of uartgw.go quote, and each theorem at a concrete input.
mod Crc
mod Wire
mod Escaping
mod Frames
mod Sessions
mod Radio
mod Devices
mod Events
mod Peers
mod Central
mod Queue
mod Programs
mod Reset
mod Gauges
mod Startup
mod Threads
mod Machine
mod Serving
