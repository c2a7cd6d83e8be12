-- ===== src/Lib.antt =====
-- A verification of the core of the OpenSmartMonitor firmware.
--
-- The firmware samples sensors, keeps what they report and sends it over LoRaWAN or MQTT. Bytes
-- from and to each UART pass through ring buffers; measurements are written into a payload by a
-- protocol module.
--
-- Base: shared helpers; no code of the repository stands behind it. C arrays are lists indexed by
--   native numbers, unsigned words are native numbers with the wrap-around written out, and signed
--   values are integers or their two's complement words.
-- Ring: src/core/ring.c and include/osm/core/ring.h. `osm_ring_buf_t` is the record Ring; each
--   function is named as in C without its prefix. Ring/Queue is the abstract queue.
-- Hexblob: src/protocols/hexblob.c. The static context is passed explicitly. Hexblob/Decode is a
--   receiver written from docs/protocols/lorawan_protocols.md.
--
-- Crc and Common: src/core/common.c. Crc is osm_modbus_crc; Common the time difference, the
--   logarithms, the checked sum and product and the string tests; Common/Wait the loop
--   osm_main_loop_iterate_for on a platform that is a parameter.
--
-- Text: src/core/base.c, the reading of a UART setup; a read past the terminator is no result.
-- Modbus: src/core/modbus.c. Modbus and Modbus/Codec have the codecs of register values,
--   Modbus/Send the two requests; the packet array is a list of 20 bytes, and a `float` argument the
--   word that C converts it to. Modbus/Receive and Modbus/Process have the time-out, the replies and
--   the message queue; the queue is a list of registers, pointers as numbers.
--
-- ModbusMem: src/core/modbus_mem.c. The bus is its header and a memory from offsets to blocks; the
--   loops are in ModbusMem and ModbusMem/Edit. ModbusMem/Registry is the abstract registry, and
--   ModbusMem/Rep says when a memory holds it. ModbusMem/Client runs lists of calls.
--
-- Measurements: src/core/measurements.c, the sampling of one measurement. Measurements has the
--   answers of a sensor and the statistics, Measurements/Sample the body of the loop of
--   _measurements_sample; Measurements/Payload joins it with Hexblob. Measurements/Send is the loop
--   of _measurements_send and its repetition, for a protocol module that is a parameter, and
--   Measurements/Entries and Measurements/Uplink put in src/protocols/hexblob.c; a member of the
--   union of values that was not written last reads as any function of the value.
--
-- Loops run on their counter, but for osm_main_loop_iterate_for, which runs on fuel: a round for
-- each cycle of the processor in the timeout and in one millisecond more, and another round, are
-- enough, since a round takes a cycle at least, whatever the platform does in it; and but for the
-- loops along the blocks of ModbusMem, which run on 64 rounds: one for each of the 63 blocks, which
-- a chain does not visit twice, and one to see its end. A transmission of Measurements/Send runs on
-- fuel; more rounds than there are places in the table are enough, since each fragment but the last
-- takes a measurement, if each has room in a payload of its own.
-- Division by zero and signed overflow, which C leaves undefined, are no result (none). The
-- communications module that takes the payload is a parameter. Interrupts are not modelled: each
-- operation runs to its end.
--
-- Not modelled: logging and debug output, which change no state that is modelled; the drivers of
-- radio modules (comms) and of sensors (sensors) and the ports of the hardware (ports), whose
-- counterparts are devices outside of the repository; the tables of the boards (model); commands,
-- the JSON payload, persistent configuration and the rings of the UARTs.
pub mod Base
pub mod Ring
pub mod Hexblob
pub mod Common
pub mod Text
pub mod Crc
pub mod Modbus
pub mod ModbusMem
pub mod Measurements
