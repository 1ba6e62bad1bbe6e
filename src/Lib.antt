-- ===== src/Lib.antt =====
-- hmgo: a central control unit for HomeMatic radio devices (BidCoS) behind a HM-MOD-RPI-PCB gateway
-- on a serial port.
--
-- The program opens the serial port, resets the gateway and initialises it (internal/uartgw). Each
-- radio packet (internal/bidcos) is the payload of a gateway packet, each gateway packet is a frame
-- with a delimiter, a length and a CRC-16, and the frames are escaped on the line. The devices
-- (internal/hm and its packages) are configured and peered by conversations of radio packets, and
-- the packets that they send on their own are decoded into events. The main loop (ccu.go) passes
-- received packets to the device that they come from, and a web page, MQTT and Prometheus show the
-- events.
--
-- Which file models which part:
--   Effect          functions that change an object and return (value, error): state passing, with
--                   an error, a run-time panic and a loop out of fuel as outcomes beside success
--   Fault           the error messages of all packages
--   Uart            the serial port behind io.ReadWriter; io.ReadFull and io.CopyN
--   Uartgw/Escaping internal/uartgw/escaping.go: escapingWriter, unescapingReader
--   Uartgw/Command  internal/uartgw/uartgw.go: uartcmd, Command, Byte
--   Uartgw/Packet   internal/uartgw/uartgw.go: UARTGW, Packet, ReadPacket, WritePacket
--   Uartgw/Session  internal/uartgw/uartgw.go: init and its steps (switchToApp,
--                   getFirmwareVersion, enableCSMACA, getSerialNumber, SetTime, setCurrentKey,
--                   setHMID)
--   Uartgw/Traffic  internal/uartgw/uartgw.go: AddPeer, Confirm, AppSend, Write, Read
--   Bidcos          internal/bidcos/bidcos.go: Packet, Encode, Decode, Gateway, Sender
--   Hm              internal/hm/hm.go: StandardDevice, Pair and the Config messages
--   Hm/Config       internal/hm/hm.go: LoadConfig, EnsureConfigured
--   Hm/Peering      internal/hm/hm.go: EnsurePeeredWith
--   Hm/Power        internal/hm/power: PowerSwitch, LevelSet, DecodePowerEvent
--   Hm/Thermal      internal/hm/thermal: ThermalControl, the three decoders of its events, MostRecentEvents
--   Hm/Heating      internal/hm/heating: Thermostat, DecodeInfoEvent
--   Hm/Gauges       internal/hm: the Prometheus gauges that the decoders set
--   Hm/Names        internal/hm/hm.go: AddrHex, String
--   Hm/Programs     internal/hm/thermal/thermal.go: encodeProgramDay, SetPrograms
--   Gpio            internal/gpio/reset.go: ResetUARTGW
--   Serial          internal/serial: Configure
--   Mqtt            mqtt.go: PublishRequest, publishMQTT, publisherLoop
--   Ccu             ccu.go: overrideWinter
--   Ccu/Devices     ccu.go: the devices, byAddr and bySerial
--   Ccu/Dispatch    ccu.go: what the main loop does with a packet from a device
--   Ccu/Loop        ccu.go: the main loop, and the handlers of /power/on and /power/off
--   Ccu/House       ccu.go: the devices, their addresses and serial numbers, the heating programs
--   Ccu/Opening     ccu.go: main up to NewUARTGW
--   Ccu/Startup     ccu.go: main from NewUARTGW to its loop
--   Ccu/Threads     ccu.go: the main loop and the handlers as threads, with readMu
--   Ccu/Shown       what a device shows after packets from its address, with none of that code
--   Hm/Cutting      the pairs and the pieces that EnsureConfigured sends, described the same way
-- The modules below these hold the proofs, and Tests runs the definitions and applies the theorems.
-- Hm/Link is a radio link that never fails, on which it is stated what the conversations of a device
-- send. Hm/Line is the interface of a gateway that acknowledges what it is given and hands out radio
-- packets in between: the conversations use its laws, and Hm/Line/Serial shows them for the UARTGW.
--
-- How state and values correspond:
--   * A UARTGW is a record that contains its port, a sender contains its gateway, a device its
--     sender. The program has one gateway and one sender that the devices share; a conversation is
--     run by one device at a time, so the record of a device holds the sender while it runs.
--   * The state of main (Ccu) has the sender, the devices and the requests in the MQTT channel. A
--     pointer to a device is its place in the list of devices, and both maps lead to places; the
--     sender is put into a device for the time of a call. A type switch is a match on the type of
--     the device.
--   * The order in which Go iterates over a map, the months in which the callbacks run and the ticks
--     of the hourly clock are arguments.
--   * The threads share the record of main. A step of a thread is one call of the gateway, or what
--     the loop does with a packet; a peering request is answered in one step. readMu has the thread
--     that holds it. Otherwise main is a sequence of whole rounds.
--   * The message counter that internal/bidcos keeps for all senders is a field of the sender.
--   * The gauges that a decoder sets are given by the event, the name and the address of the device.
--   * Configure and main before NewUARTGW work on what the kernel holds of the port. The constants of
--     package syscall are a parameter; it is assumed that VMIN and VTIME are different places of the
--     array of control characters.
--   * ResetUARTGW leaves a list of the system calls that it made; the results of the calls are given.
--   * The port is the environment: the bytes that the device will send, how many of them each read
--     gets to see, and which writes fail. The theorems quantify over all three. The port blocks: a
--     read past these bytes waits, for ever since no read has a deadline. A run of the model stops
--     there with `read_waits`, which no code handles. Other errors of a read are not modelled.
--   * Bytes and counters are natural numbers, with the wrap-around of the Go type written out.
--     Times are seconds and a zone's offset. Floating-point fields of events are whole numbers of
--     the unit that the source divides down to.
--   * crc16.Checksum of github.com/sigurn/crc16 is a parameter, `checksum`. The theorems that need
--     it assume that its values are below 65536, as the type uint16 says; Tests/Crc has a function
--     with the parameters of bidcosTable. json.Marshal is a parameter too, `marshal`, of which
--     nothing is assumed.
--
-- Loops: ReadPacket and Confirm run on one unit of fuel more than there are bytes to come, and so do
-- LoadConfig and EnsurePeeredWith in ccu.go. Each round takes a byte at least, so the fuel is enough.
-- io.ReadFull has one unit for each byte wanted. On another gateway LoadConfig and EnsurePeeredWith
-- take their fuel as an argument, and one unit for each packet that is received is enough. The main
-- loop is a list of rounds, with no bound on its length. So a run that gets enough fuel ends, or it
-- stops at a read that waits.
--
-- Not modelled: the text and HTML of events, the log and the metrics of ccu.go, which are output;
-- the mutex of the latest events, which guards single assignments; the flags and WaitForClock, which
-- come before all else; the client of the MQTT library; status.go, which fills an HTML template.
pub mod Prelude
pub mod Effect
pub mod Fault
pub mod Uart
pub mod Uartgw
pub mod Bidcos
pub mod Hm
pub mod Gpio
pub mod Serial
pub mod Mqtt
pub mod Ccu
mod Tests
