-- ===== src/Crc/Tests.antt =====
-- Runs of `osm_modbus_crc`, and the theorems about it applied there.
use osm_firmware_v.Base.{ℕ, ◌≡◌, ◌≢◌, refl, List, [], ◌∷◌, ◌++◌, ◌%◌, ◌/◌, arith}
use osm_firmware_v.Crc.{modbus_crc, crc_from, feed, shifts, shift}
use osm_firmware_v.Crc.Frame.{modbus_crc-residue, modbus_crc-one_byte}

-- The check value of the checksum: that of the digits from 1 to 9.
check_value : modbus_crc (49 ∷ 50 ∷ 51 ∷ 52 ∷ 53 ∷ 54 ∷ 55 ∷ 56 ∷ 57 ∷ []) ≡ 0x4B37
unfolding modbus_crc crc_from feed shifts shift
check_value = refl

abbrev request : List ℕ
request = 5 ∷ 3 ∷ 0 ∷ 12 ∷ 0 ∷ 2 ∷ []

modbus_crc-residue_example :
    modbus_crc (request ++ (modbus_crc request % 256 ∷ modbus_crc request / 256 ∷ [])) ≡ 0
modbus_crc-residue_example = modbus_crc-residue request

modbus_crc-one_byte_example : modbus_crc (5 ∷ 3 ∷ 0 ∷ 12 ∷ []) ≢ modbus_crc (5 ∷ 4 ∷ 0 ∷ 12 ∷ [])
modbus_crc-one_byte_example =
    modbus_crc-one_byte (5 ∷ []) (0 ∷ 12 ∷ []) 3 4 (omega arith, tt)
      (omega arith, (omega arith, tt)) (omega arith) (omega arith) (omega arith)
