-- ===== src/Crc.antt =====
-- core/common.c: `osm_modbus_crc`, the checksum at the end of every Modbus frame.
-- Bytes are numbers below 256 and the running checksum is a number below 2 ^ 16.
pub mod Step
pub mod Frame
mod Tests
use osm_firmware_v.Base.{
  ℕ, zero, suc, ◌/◌, ◌%◌, List, [], ◌∷◌, ◌==◌, if◌then◌else◌, bit_xor, bit_and, not,
}

-- One round of the loop over the bits.
unfoldable pub shift : ℕ → ℕ
shift crc = if not (bit_and crc 1 == 0) then bit_xor (crc / 2) 0xA001 else crc / 2

-- The loop over the bits, `i` rounds.
unfoldable pub shifts : ℕ → ℕ → ℕ
shifts zero crc = crc
shifts (suc i) crc = shifts i (shift crc)

-- One byte: it goes into the low half, then eight rounds.
unfoldable pub feed : ℕ → ℕ → ℕ
feed crc byte = shifts 8 (bit_xor crc byte)

-- The loop over the buffer, from a running checksum.
unfoldable pub crc_from : ℕ → List ℕ → ℕ
crc_from crc [] = crc
crc_from crc (b ∷ buf) = crc_from (feed crc b) buf

-- osm_modbus_crc
unfoldable pub modbus_crc : List ℕ → ℕ
modbus_crc buf = crc_from 0xFFFF buf
