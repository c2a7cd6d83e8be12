-- ===== src/Modbus/Receive/Tests.antt =====
-- A reply to a read, and the theorem about it applied there.
use osm_firmware_v.Base.{ℕ, ◌≡◌, refl, inl, true, false, [], ◌∷◌, ◌++◌, replicate}
use osm_firmware_v.Modbus.{u16, msb, msw, Reg, reg_waiting, reg_ready, type_known}
use osm_firmware_v.Modbus.Codec.{order_known, words_known, held, is_word, word_bytes}
use osm_firmware_v.Modbus.Frames.{with_crc}
use osm_firmware_v.Modbus.Receive.{Dev, Master, put_reg, check_crc}
use osm_firmware_v.Modbus.Receive.Replies.{reply, check_crc-stored}

abbrev volts : Reg
volts = record {
  value_data = 0;
  type = u16;
  func = 3;
  value_state = reg_waiting;
  reg_addr = 0x0C;
  unit_id = 5;
}

abbrev meter : ℕ → Dev
meter h = record { unit_id = 5; byte_order = msb; word_order = msw }

abbrev waiting : Master
waiting = record {
  link = record {
    tx = replicate 20 0;
    want_rx = true;
    send_time = 1;
    echo_bytes = 0;
    expected_unit = 0;
    expected_addr = 0;
    expected_value = 0;
    binary = false;
    out = [];
  };
  packet = with_crc (reply 5 3 u16 msb msw 230) ++ replicate 120 0;
  packet_len = 7;
  header_size = 3;
  timing_init = 0;
  last_good = 0;
  retransmits = 0;
  queue = 1 ∷ 2 ∷ [];
  regs = λ h. volts;
}

check_crc-stored_example :
    let m' = check_crc meter 9 waiting in
    (m'.queue ≡ 2 ∷ [])
    × (m'.regs
        ≡ put_reg
            (λ h. volts)
            1
            (record volts { value_data = held u16 230; value_state = reg_ready }))
unfolding type_known order_known words_known is_word word_bytes
check_crc-stored_example =
    check_crc-stored meter 9 1 (2 ∷ []) waiting 3 230 (replicate 120 0) refl (inl refl) refl refl
      refl (refl, refl)
