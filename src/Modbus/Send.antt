-- ===== src/Modbus/Send.antt =====
-- core/modbus.c: the frames that osm_modbus_set_reg and _modbus_do_start_read send.
-- What is handed to `osm_uart_ring_out` is appended to `out`; the time and the word that C makes of
-- a `float` argument are arguments.
use osm_firmware_v.Base.{
  ℕ, ◌+◌, ◌-◌, ◌*◌, ◌/◌, ◌%◌, ◌^◌, Bool, true, false, not, ◌||◌, List, [], ◌∷◌, ◌++◌, ◌==◌,
  if◌then◌else◌, take,
}
use osm_firmware_v.Crc.{modbus_crc}
use osm_firmware_v.Modbus.{
  type_known, RegType, u16, i16, u32, i32, float, other, ByteOrder, WordOrder, write, append_value,
  Reg, reg_waiting,
}

-- The static variables of the file that sending uses.
pub record Link : Type 0 where
  pub tx : List ℕ
  pub want_rx : Bool
  pub send_time : ℕ
  pub echo_bytes : ℕ
  pub expected_unit : ℕ
  pub expected_addr : ℕ
  pub expected_value : ℕ
  pub binary : Bool
  pub out : List ℕ

-- MODBUS_PACKET_BUF_SIZ, MODBUS_BIN_START and MODBUS_BIN_STOP
abbrev pub packet_buf_siz : ℕ
packet_buf_siz = 20

abbrev pub bin_start : ℕ
bin_start = 123

abbrev pub bin_stop : ℕ
bin_stop = 125

-- The function codes.
abbrev pub read_holding : ℕ
read_holding = 3

abbrev pub read_input : ℕ
read_input = 4

abbrev pub write_single : ℕ
write_single = 6

abbrev pub write_multiple : ℕ
write_multiple = 16

unfoldable pub reg_count_of : RegType → ℕ
reg_count_of u16 = 1
reg_count_of i16 = 1
reg_count_of u32 = 2
reg_count_of i32 = 2
reg_count_of float = 2
reg_count_of (other n) = 1

abbrev pub crc_bytes : ℕ → List ℕ
crc_bytes crc = crc % 2 ^ 8 ∷ crc / 2 ^ 8 ∷ []

-- The six bytes of a read request, at the start of the array.
unfoldable pub read_header : ℕ → Reg → List ℕ
read_header unit reg =
    unit
    ∷ reg.func
    ∷ reg.reg_addr / 2 ^ 8
    ∷ reg.reg_addr % 2 ^ 8
    ∷ reg_count_of reg.type / 2 ^ 8
    ∷ reg_count_of reg.type % 2 ^ 8
    ∷ []

-- The end of _modbus_do_start_read: the checksum and the sending.
unfoldable pub send_read : Bool → ℕ → Link → List ℕ → ℕ → Link
send_read echo now l tx size =
    let tx' = write tx size (crc_bytes (modbus_crc (take size tx))) in
    let tx'' = write tx' 8 (bin_stop ∷ []) in
    if l.binary
    then record l {
      tx = tx'';
      want_rx = true;
      send_time = now;
      echo_bytes = if echo then 10 else l.echo_bytes;
      out = l.out ++ ((bin_start ∷ []) ++ take 9 tx'');
    }
    else record l {
      tx = tx';
      want_rx = true;
      send_time = now;
      echo_bytes = if echo then 8 else l.echo_bytes;
      out = l.out ++ take 8 tx';
    }

-- _modbus_do_start_read; osm_modbus_reg_get_unit_id returns the register's own field.
unfoldable pub do_start_read : Bool → ℕ → Reg → Link → Link × Reg
do_start_read echo now reg l =
    let filled = write l.tx 0 (read_header (reg.unit_id % 2 ^ 8) reg) in
    let l' =
      if reg.func == read_holding || reg.func == read_input
      then send_read echo now l filled 6
      else send_read echo now l l.tx 4 in
    (l', record reg { value_state = reg_waiting })

-- The header of a write request.
unfoldable pub set_header : ℕ → ℕ → ℕ → RegType → List ℕ
set_header unit_id reg_addr func type =
    if func == write_single
    then unit_id % 2 ^ 8 ∷ write_single ∷ reg_addr / 2 ^ 8 ∷ reg_addr % 2 ^ 8 ∷ []
    else unit_id % 2 ^ 8
      ∷ write_multiple
      ∷ reg_addr / 2 ^ 8
      ∷ reg_addr % 2 ^ 8
      ∷ reg_count_of type / 2 ^ 8
      ∷ reg_count_of type % 2 ^ 8
      ∷ reg_count_of type * 2
      ∷ []

-- The end of osm_modbus_set_reg: the checksum and the sending.
unfoldable pub send_set : ℕ → Link → List ℕ → ℕ → Link
send_set now l tx size =
    let tx' = write tx size (crc_bytes (modbus_crc (take size tx))) in
    let tx'' = write tx' (size + 2) (bin_stop ∷ []) in
    if l.binary
    then record l {
      tx = tx'';
      want_rx = true;
      send_time = now;
      out = l.out ++ ((bin_start ∷ []) ++ take (size + 3) tx'');
    }
    else record l { tx = tx'; want_rx = true; send_time = now; out = l.out ++ take (size + 2) tx' }

-- The reply that is then expected.
unfoldable pub expect : ℕ → ℕ → ℕ → RegType → ℕ → Link → Link
expect unit_id reg_addr func type value32 l = record l {
  expected_unit = unit_id % 2 ^ 8;
  expected_addr = reg_addr;
  expected_value = if func == write_single then value32 % 2 ^ 16 else reg_count_of type;
}

-- osm_modbus_set_reg behind its tests: the value, what is expected, the frame.
unfoldable pub set_value :
    ℕ → ℕ → ℕ → ℕ → RegType → ByteOrder → WordOrder → ℕ → Link → List ℕ → ℕ → Bool × Link
set_value now unit_id reg_addr func type order words value32 l tx size =
    let ((done, tx'), size') =
      append_value tx size (packet_buf_siz - size) type order words value32 size in
    if not done
    then (false, record l { tx = tx' })
    else (true, send_set now (expect unit_id reg_addr func type value32 l) tx' size')

-- osm_modbus_set_reg
unfoldable pub set_reg : ℕ → ℕ → ℕ → ℕ → RegType → ByteOrder → WordOrder → ℕ → Link → Bool × Link
set_reg now unit_id reg_addr func type order words value32 l =
    if not (type_known type)
    then (false, l)
    else (if func == write_single || func == write_multiple
        then set_value now unit_id reg_addr func type order words value32 l
            (write l.tx 0 (set_header unit_id reg_addr func type))
            (if func == write_single then 4 else 7)
        else (false, l))
