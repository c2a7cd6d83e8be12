-- ===== src/Modbus/Tests.antt =====
-- Runs of core/modbus.c, and the theorems about it applied there.
use osm_firmware_v.Base.{◌%◌, ◌≡◌, refl, inl, inr, true, false, [], ◌∷◌, ◌++◌, replicate}
use osm_firmware_v.Modbus.{u32, msb, lsw, Reg, reg_waiting, reg_ready, reg_cb, type_known}
use osm_firmware_v.Modbus.Codec.{
  value_bytes, size_of, held, reg_cb-value_bytes, order_known, words_known,
}
use osm_firmware_v.Modbus.Send.{Link, do_start_read, set_reg}
use osm_firmware_v.Modbus.Frames.{framed, with_crc, request, read_request}
use osm_firmware_v.Modbus.Requests.{set_reg-request, do_start_read-request}

abbrev power : Reg
power = record {
  value_data = 0;
  type = u32;
  func = 3;
  value_state = reg_waiting;
  reg_addr = 0x0C;
  unit_id = 5;
}

abbrev idle : Link
idle = record {
  tx = replicate 20 0;
  want_rx = false;
  send_time = 0;
  echo_bytes = 0;
  expected_unit = 0;
  expected_addr = 0;
  expected_value = 0;
  binary = true;
  out = [];
}

reg_cb-value_bytes_example :
    reg_cb power (value_bytes u32 msb lsw 0x1234_5678 ++ (7 ∷ [])) (size_of u32) msb lsw
    ≡ record power { value_data = held u32 0x1234_5678; value_state = reg_ready }
unfolding type_known order_known words_known
reg_cb-value_bytes_example =
    reg_cb-value_bytes u32 power msb lsw 0x1234_5678 (7 ∷ []) refl refl refl refl

set_reg-request_example :
    let (done, l') = set_reg 0 5 0x0C 16 u32 msb lsw 7 idle in
    (done ≡ true)
    × (l'.out ≡ [] ++ framed true (with_crc (request (5 % 256) 0x0C 16 u32 msb lsw 7)))
unfolding type_known order_known words_known
set_reg-request_example =
    set_reg-request 0 5 0x0C 16 u32 msb lsw 7 idle (inr refl) refl refl refl refl

do_start_read-request_example :
    let (l', reg') = do_start_read false 0 power idle in
    (reg' ≡ record power { value_state = reg_waiting })
    × (l'.want_rx ≡ true)
    × (l'.out ≡ [] ++ framed true (with_crc (read_request (5 % 256) 0x0C 3 u32)))
do_start_read-request_example = do_start_read-request false 0 power idle (inl refl) refl
