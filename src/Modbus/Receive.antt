-- ===== src/Modbus/Receive.antt =====
-- core/modbus.c: the time-out and the packets that osm_modbus_uart_ring_in_process completes.
-- The message queue is the list of the registers in it, by number: pointers go in and out whole.
-- One call sees one time `now`. A read past the packet array is undefined, so no result.
pub mod Replies
mod Tests
use osm_firmware_v.Base.{
  ℕ, zero, suc, ◌+◌, ◌-◌, ◌*◌, ◌/◌, ◌%◌, ◌^◌, Bool, true, false, not, ◌&&◌, ◌||◌, List, [], ◌∷◌,
  ◌++◌, ◌==◌, Option, none, some, if◌then◌else◌, take, drop, get_or, length, ltb, leb, bit_and,
}
use osm_firmware_v.Ring.{Ring, clear, get_pending, read, discard}
use osm_firmware_v.Common.{since_boot_delta}
use osm_firmware_v.Crc.{modbus_crc}
use osm_firmware_v.Modbus.{
  RegType, ByteOrder, WordOrder, Reg, reg_invalid, reg_waiting, reg_cb, type_known,
}
use osm_firmware_v.Modbus.Send.{
  Link, bin_start, bin_stop, read_holding, read_input, write_single, write_multiple, do_start_read,
}

-- The fields of `osm_modbus_dev_t` that a reply needs.
pub record Dev : Type 0 where
  pub unit_id : ℕ
  pub byte_order : ByteOrder
  pub word_order : WordOrder

-- The static variables of the file, and the registers by number.
pub record Master : Type 0 where
  pub link : Link
  pub packet : List ℕ
  pub packet_len : ℕ
  pub header_size : ℕ
  pub timing_init : ℕ
  pub last_good : ℕ
  pub retransmits : ℕ
  pub queue : List ℕ
  pub regs : ℕ → Reg

-- MODBUS_SLOTS, OSM_MODBUS_RESP_TIMEOUT_MS, MODBUS_TX_GAP_MS, MODBUS_MAX_RETRANSMITS and
-- MAX_MODBUS_PACKET_SIZE
abbrev pub slots : ℕ
slots = 62

abbrev pub resp_timeout_ms : ℕ
resp_timeout_ms = 2000

abbrev pub tx_gap_ms : ℕ
tx_gap_ms = 100

abbrev pub max_retransmits : ℕ
max_retransmits = 10

abbrev pub max_packet_size : ℕ
max_packet_size = 127

abbrev pub put_reg : (ℕ → Reg) → ℕ → Reg → ℕ → Reg
put_reg regs h reg i = if i == h then reg else regs i

abbrev pub want : Bool → Master → Master
want b m = record m { link = record m.link { want_rx = b } }

-- The request for the register `h`.
unfoldable pub request_reg : Bool → ℕ → ℕ → Master → Master
request_reg echo now h m =
    let (l, reg) = do_start_read echo now (m.regs h) m.link in
    record m { link = l; regs = put_reg m.regs h reg }

-- _modbus_next_message
unfoldable pub next_message : Bool → ℕ → Master → Master
next_message echo now m = elim m.queue [ [] ↦ m | h ∷ hs ↦ request_reg echo now h m ]

-- _modbus_has_timedout, once time is out.
unfoldable pub timed_out : Bool → ℕ → Master → Master
timed_out echo now m =
    let m' =
      want false (record m { packet_len = 0; timing_init = 0; retransmits = m.retransmits + 1 }) in
    if ltb m'.retransmits max_retransmits
    then next_message echo now m'
    else record m' { retransmits = 0; queue = drop 1 m'.queue }

-- _modbus_has_timedout
unfoldable pub has_timedout : Bool → ℕ → Master → Ring → Bool × Master × Ring
has_timedout echo now m ring =
    let from = if m.timing_init == 0 then m.link.send_time else m.timing_init in
    if ltb (since_boot_delta now from) resp_timeout_ms
    then (false, m, ring)
    else (true, timed_out echo now m, clear ring)

-- A reply to a write; `passfail` shares its storage with the address, `not_done` with the unit.
unfoldable pub set_done : Bool → Master → Master
set_done pass m = record m {
  link = record m.link { expected_unit = 0; expected_addr = if pass then 1 else 0 };
}

abbrev pub byte : Master → ℕ → ℕ
byte m i = get_or m.packet i 0

unfoldable pub check_ack : Master → Master
check_ack m =
    if not (byte m 0 == m.link.expected_unit)
    then set_done false m
    else (if not (byte m 2 * 2 ^ 8 + byte m 3 == m.link.expected_addr)
        then set_done false m
        else (if not (byte m 4 * 2 ^ 8 + byte m 5 == m.link.expected_value)
            then set_done false m
            else set_done true m))

-- A reply to a read of the register at the head of the queue.
unfoldable pub take_reply : (ℕ → Dev) → ℕ → Master → Master
take_reply dev_of now m = elim m.queue [
  | [] ↦ m
  | h ∷ hs ↦
      let reg = record (m.regs h) { value_state = reg_invalid } in
      let m' = record m {
        queue = hs;
        regs = put_reg m.regs h reg;
        last_good = now;
        retransmits = 0;
      } in
      let dev = dev_of h in
      if byte m 1 == read_holding + 0x80 || byte m 1 == read_input + 0x80
      then m'
      else (if not (dev.unit_id == byte m 0) then m' else record m' {
        regs =
            put_reg m.regs h
              (reg_cb reg (drop 3 m.packet) (byte m 2) dev.byte_order dev.word_order);
      })
]

-- A whole packet, header included.
unfoldable pub check_crc : (ℕ → Dev) → ℕ → Master → Master
check_crc dev_of now m =
    let crc = modbus_crc (take (m.packet_len - 2) m.packet) in
    let m' = want false (record m { packet_len = 0 }) in
    if not (byte m (m.packet_len - 1) == crc / 2 ^ 8)
      || not (byte m (m.packet_len - 2) == crc % 2 ^ 8)
    then m'
    else (if byte m 1 == write_single || byte m 1 == write_multiple
        then check_ack m'
        else take_reply dev_of now m')

-- The rest of the packet is in the ring.
unfoldable pub complete : (ℕ → Dev) → ℕ → Master → Ring → Option (Master × Ring)
complete dev_of now m ring =
    let (n, out, ring') = read ring (drop m.header_size m.packet) m.packet_len in
    let m' = record m { timing_init = 0; packet = take m.header_size m.packet ++ out } in
    let whole = record m' { packet_len = m.packet_len + m.header_size } in
    let framed = record m' { packet_len = m.packet_len - 1 + m.header_size } in
    if ltb max_packet_size (m.header_size + m.packet_len)
    then none
    else (if not m.link.binary
        then some (check_crc dev_of now whole, ring')
        else (if not (byte m' (m.packet_len + m.header_size - 1) == bin_stop)
            then some (m', ring')
            else some (check_crc dev_of now framed, ring')))
