-- ===== src/Lib.antt =====
-- A mesh of smoke detectors over Bluetooth LE: the packets, what a node knows, and what it forwards.
--
-- A node reads packets that its neighbours write to a characteristic, remembers peers, messages and
-- announcements, forwards what is new with one hop less, and cleans up what is old. The files:
--   Common: tests on numbers and byte strings, lists over native numbers, bits of sums, and maps.
--   BinaryReader, BinaryWriter: src/BLEPacket/BinaryReader.cpp and BinaryWriter.cpp. A reader is a
--   state that each read passes on; a writer appends to a list of bytes.
--   PacketTypes, Base: src/BLEPacket/PacketTypes.h and Base.cpp, the header that packets share.
--   TlvLoop: the do-while loop that the constructors of the packets share, once for all of them.
--   Message, Announce, MicroMeshPreferences: the packet classes of the same names.
--   Peer, BleConnection: the classes of the same names, a record and its setters.
--   BleConnectionTracker: src/BLEPacket/BleConnectionTracker.cpp. Pointers into a map are keys; Clock,
--   Packets, Connections, Sending, RawPackets and Cleanup hold the methods, Linked what no list of
--   pointers may lose.
--   ProtocolProcessor: `processWrite` of src/BLEPacket/ProtocolProcessor.cpp, a function from a tracker
--   and a buffer to a tracker and the preferences to save.
--   CircularBuffer: src/BLEPacket/CircularBuffer.h, the ring of characters of the log. Queue, Blocks and
--   Line see it as a queue; Invariant and Calls have what any calls keep, Order what orderly ones keep.
--   MainLoop: main.cpp. Generate and Alarm have the alarms, Advertising what a node advertises, Heard what
--   another one makes of it, Events the callbacks of the Bluetooth stack, Flash the preferences in flash
--   memory, Turn, Timing and PowerOff the loop of `main`, Invariant, Sound and Running what holds however
--   these follow each other.
--   Sketch: the preferences of ble-smoke-detector.ino.
--   Node: sequences of the operations of the tracker alone.
--   Tests: test data and the theorems at concrete inputs.
--
-- Machine integers are natural numbers, with the wrap-around written out; a signed one is its bit
-- pattern. The loop of TlvLoop has fuel for each byte of the buffer and two rounds more: a round takes
-- two bytes or more. The library's hash, the time since boot and the board's id are arguments.
--
-- The count of the characters that the log's ring is given at once is a uint16_t: strings of fewer than
-- 2 ^ 16 characters are meant, and the relations of calls say so.
--
-- What the Bluetooth stack answers, what its getters read from an event, the results of the flash
-- operations and the readings of the clock in a turn of the loop are arguments as well. So is the stack's
-- iterator over the entries of an advertisement, with the laws by which their length bytes bound them.
--
-- Not modelled: the rest of the sketch for the ESP32 and the branches for it, the set-up of the board
-- and of the Bluetooth stack in main.cpp, `writeF` of CircularBuffer.h, and printing.
pub mod Common
pub mod BinaryReader
pub mod BinaryWriter
pub mod PacketTypes
pub mod Peer
pub mod Base
pub mod TlvLoop
pub mod Message
pub mod Announce
pub mod MicroMeshPreferences
pub mod BleConnection
pub mod BleConnectionTracker
pub mod ProtocolProcessor
pub mod CircularBuffer
pub mod MainLoop
pub mod Sketch
pub mod Node
pub mod Tests
