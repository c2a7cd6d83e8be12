-- ===== src/Modbus/Process/Tests.antt =====
-- A read that is started, and the theorem about it applied there.
use osm_firmware_v.Base.{true, false, [], ◌∷◌, replicate, arith}
use osm_firmware_v.Modbus.{u16, Reg, reg_invalid}
use osm_firmware_v.Modbus.Receive.{Master}
use osm_firmware_v.Modbus.Process.{start_read}
use osm_firmware_v.Modbus.Process.Queue.{Started, start_read-Started}

abbrev amps : Reg
amps = record {
  value_data = 0;
  type = u16;
  func = 4;
  value_state = reg_invalid;
  reg_addr = 0x10;
  unit_id = 5;
}

abbrev busy : Master
busy = record {
  link = record {
    tx = replicate 20 0;
    want_rx = true;
    send_time = 1;
    echo_bytes = 0;
    expected_unit = 0;
    expected_addr = 0;
    expected_value = 0;
    binary = false;
    out = [];
  };
  packet = replicate 127 0;
  packet_len = 0;
  header_size = 0;
  timing_init = 0;
  last_good = 0;
  retransmits = 0;
  queue = 1 ∷ [];
  regs = λ h. amps;
}

start_read-Started_example : Started 9 true 2 busy (start_read false 9 true 2 busy)
start_read-Started_example = start_read-Started false 9 true 2 busy (omega arith) (omega arith)
