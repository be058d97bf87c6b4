-- ===== src/Lib.antt =====
-- The Arduino IoT Cloud client library: a device registers with the cloud, is attached to a thing,
-- keeps the thing's properties in step with the cloud, and takes over-the-air updates.
--
-- The parts, from the bottom up, and the files that model them (C++ paths are from the root):
--
--   TimedAttempt  src/utility/time/TimedAttempt.{h,cpp}: the timer that paces all retries. Each
--     member function is a function on the record of its members; `millis()` is an argument.
--   Lzss          src/utility/lzss/lzss.{h,cpp}: the decoder of update images, which is handed the
--     image chunk by chunk and stops in the middle of a token. `getbit`, `handle_state` and
--     `decompress` are functions on the record of the members, split in two (Core has what the
--     state machine reads, LzssDecoder adds the input). Lzss.Bits and Lzss.Tokens are the
--     specification: a bit stream, and the loop of `decode` in extras/tools/lzss.c on it.
--   Property      src/property/Property.{h,cpp}: the flags and times that decide when a property is
--     sent, and what a value from the cloud does to it. The derived class is a parameter (`Methods`).
--     Property.Settings has the functions that set it up, and Property.Attributes its two families
--     `appendAttribute` and `setAttribute`.
--   Container     src/property/PropertyContainer.{h,cpp}: the list of properties, found by name or
--     by identifier, and `updateProperty`, by which a decoded message reaches a property.
--   Messages      src/message/Commands.h: the commands that the processes exchange.
--   Thing         src/ArduinoIoTCloudThing.{h,cpp}: the process that asks for the last values and
--     then has changed properties sent. `handleMessage` runs the handler of the state, then lets
--     the command overrule its result.
--   Device        src/ArduinoIoTCloudDevice.{h,cpp}: the process that announces the device.
--   CborEncoder   src/cbor/CBOREncoder.{h,cpp}: the state machine that packs the changed properties
--     into a message. One handler per state; the loop of `encode` (CborEncoder.Loop) has as fuel six
--     rounds for each property and thirteen more, since each pass that is repeated takes fewer
--     properties than the one before.
--   CborDecoder   src/cbor/CBORDecoder.{h,cpp}: the state machine that reads received values
--     (CborDecoder.Handlers for the entries of a map, CborDecoder.Machine for its end and the loop).
--     CborDecoder.Senml is the specification, a message as a list of maps and its meaning; the loop
--     has two rounds for each entry and three for each map.
--   CommandCodec  src/cbor/CBOR.cpp, MessageEncoder.cpp and MessageDecoder.cpp: the codec of commands,
--     whose two loops run over the states of the source. CommandCodec.Sending and CommandCodec.Params
--     say what a command is in CBOR.
--   TimeService   src/utility/time/TimeService.{h,cpp} with RTCMillis.{h,cpp}: the sources of the time,
--     the clock and the timezone. TimeService.Dates reads a date from a text, and TimeService.Ntp is
--     src/utility/time/NTPUtils.cpp. What board and network answer in a call is a Sources.
--   Schedule      src/property/types/CloudSchedule.h: the configurations of schedules and when one is
--     active at the local time that TimeService gives; Schedule.Value is the class as a property.
--     Schedule.Plans says what the configurations are for.
--   Ota           src/ota/interface/OTAInterface.{h,cpp}: the process of an update over the air; what a
--     board does in a turn is a Board. Ota.Download and Ota.Crc are parseOta, fetch and the checksum
--     of src/ota/interface/OTAInterfaceDefault.cpp; the chunks that its decoder is given are a log,
--     which Lzss takes (Ota.Decoded).
--   Tcp           src/ArduinoIoTCloudTCP.{h,cpp}: the connection process, which owns the two
--     processes and the MQTT connection, routes the cloud's messages to them (Tcp.Commands), runs its
--     own states (Tcp.States) and sends what they deliver. What the network libraries return in a
--     turn is a World; its view of the codecs of commands and of incoming values is a Codec and a
--     Decoder. The build has no OTA.
--
-- How they interact: the connection process calls `handle_message` of Device and Thing with each
-- decoded message and with none on each turn; both pace themselves by a TimedAttempt; Thing works on
-- the Container of Property values; a downloaded image goes through Lzss. What a process delivers
-- upstream is a log in its state.
--
-- Bounds and fuel: C++'s `unsigned long`, `unsigned int` and `uint32_t` have 32 bits, and their
-- wrap-around is written out. The loop of `getbit` has as much fuel as the bits it wants, since each
-- round adds eight. The loop of `decompress` has `fuel_for`, eight rounds per byte of the chunk
-- and eleven more, since every round takes a bit; without fuel the result is `none`. The codecs of
-- commands have four and three rounds, one for each state before the last. The loop of `parseOta` has
-- a round for each byte of the read, since each turn that goes on takes one at least.
--
-- Not modelled: the virtual methods of the property classes (parameters), tinycbor and the board
-- libraries (vendored or external), the other property types, the clocks of the boards but the
-- ESP8266's, the start of a download, and the LoRa and Notecard connections. A value of a member that
-- the constructor leaves unset is a parameter (`Garbage`).
pub mod Common
pub mod TimedAttempt
pub mod Lzss
pub mod Property
pub mod Container
pub mod Messages
pub mod Thing
pub mod Device
pub mod CborDecoder
pub mod CborEncoder
pub mod CommandCodec
pub mod Ota
pub mod Schedule
pub mod Tcp
pub mod TimeService
mod Witnesses
