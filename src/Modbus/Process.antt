-- ===== src/Modbus/Process.antt =====
-- core/modbus.c: the start of a reply, osm_modbus_uart_ring_in_process and osm_modbus_start_read.
pub mod Enqueue
pub mod Queue
mod Tests
use osm_firmware_v.Base.{
  ℕ, zero, suc, ◌+◌, ◌-◌, ◌*◌, ◌/◌, ◌%◌, ◌^◌, Bool, true, false, not, ◌&&◌, ◌||◌, List, [], ◌∷◌,
  ◌++◌, ◌==◌, Option, none, some, if◌then◌else◌, take, drop, get_or, length, ltb, leb,
}
use osm_firmware_v.Ring.{Ring, clear, get_pending, read, discard}
use osm_firmware_v.Common.{since_boot_delta}
use osm_firmware_v.Modbus.{RegType, Reg, reg_waiting, type_known}
use osm_firmware_v.Modbus.Send.{
  Link, bin_start, read_holding, read_input, write_single, write_multiple,
}
use osm_firmware_v.Modbus.Receive.{
  Dev, Master, slots, resp_timeout_ms, tx_gap_ms, put_reg, want, request_reg, next_message,
  has_timedout, byte, complete,
}

-- Whether a call goes on to the body of the packet, with how many bytes it counts in the ring.
pub data Header : Type 0 where
  stop : Master → Ring → Header
  go_on : Master → Ring → ℕ → Header

-- One byte of the ring, to a place of the packet.
unfoldable pub read_to : ℕ → Master → Ring → Master × Ring
read_to i m ring =
    let (n, out, ring') = read ring (drop i m.packet) 1 in
    (record m { packet = take i m.packet ++ out }, ring')

-- The length and the header that a function code stands for, the third byte read where it counts.
unfoldable pub header_of : Master → Ring → Option (Master × Ring)
header_of m ring =
    let (m', ring') = read_to 2 m ring in
    if byte m 1 == read_holding || byte m 1 == read_input
    then some (record m' { packet_len = byte m' 2 + 2; header_size = 3 }, ring')
    else (if byte m 1 == write_single || byte m 1 == write_multiple
        then some (record m { packet_len = 6; header_size = 2 }, ring)
        else (if byte m 1 / 0x80 % 2 == 1
            then some (record m { packet_len = 3; header_size = 2 }, ring)
            else none))

-- From the function code on.
unfoldable pub start_function : ℕ → Master → Ring → ℕ → Header
start_function now m ring len =
    let (m', ring') = read_to 1 m ring in
    elim (header_of m' ring') [
      | none ↦ stop (record m' { packet_len = 0 }) ring'
      | some (m'', ring'') ↦
          go_on
            (record m'' {
              packet_len = if m.link.binary then m''.packet_len + 1 else m''.packet_len;
              timing_init = now;
            })
            ring'' (len - 2)
    ]

-- The address, behind the start mark in the binary protocol.
unfoldable pub start_header : ℕ → Master → Ring → ℕ → Header
start_header now m ring len =
    let (m', ring') = read_to 0 (record m { header_size = 0; timing_init = 0 }) ring in
    let (m'', ring'') = read_to 0 m' ring' in
    if byte m' 0 == 0
    then stop m' ring'
    else (if not m.link.binary
        then start_function now m' ring' len
        else (if not (byte m' 0 == bin_start)
            then stop m' ring'
            else start_function now m'' ring'' (len - 1)))

-- Not enough bytes for a header.
unfoldable pub await_header : Bool → ℕ → Master → Ring → Header
await_header echo now m ring =
    let (out_of_time, m', ring') = has_timedout echo now m ring in
    if m.timing_init == 0 then stop (record m { timing_init = now }) ring else stop m' ring'

unfoldable pub receive_header : Bool → ℕ → Master → Ring → ℕ → Header
receive_header echo now m ring len =
    if not (m.packet_len == 0)
    then go_on m ring len
    else (if ltb (if m.link.binary then 3 else 2) len
        then start_header now m ring len
        else await_header echo now m ring)

-- Behind the header: wait for the body, or complete the packet.
unfoldable pub receive_body : Bool → (ℕ → Dev) → ℕ → Header → Option (Master × Ring)
receive_body echo dev_of now (stop m ring) = some (m, ring)
receive_body echo dev_of now (go_on m ring len) =
    let (out_of_time, m', ring') = has_timedout echo now m ring in
    if m.packet_len == 0
    then some (m, ring)
    else (if ltb len m.packet_len then some (m', ring') else complete dev_of now m ring)

-- A reply is waited for, in time.
unfoldable pub receive : Bool → (ℕ → Dev) → ℕ → Master → Ring → Option (Master × Ring)
receive echo dev_of now m ring =
    let len = get_pending ring in
    let (n, ring') = discard ring m.link.echo_bytes in
    if len == 0
    then some (m, ring)
    else (if echo && not (m.link.echo_bytes == 0)
        then some (record m { link = record m.link { echo_bytes = m.link.echo_bytes - n } }, ring')
        else receive_body echo dev_of now (receive_header echo now m ring len))

-- osm_modbus_uart_ring_in_process
unfoldable pub uart_ring_in_process : Bool → (ℕ → Dev) → ℕ → Master → Ring → Option (Master × Ring)
uart_ring_in_process echo dev_of now m ring =
    let (out_of_time, m', ring') = has_timedout echo now m ring in
    if not m.link.want_rx
    then some (
      if not (length m.queue == 0) && ltb tx_gap_ms (since_boot_delta now m.last_good)
          then next_message echo now m
          else m,
      clear ring,
    )
    else (if out_of_time then some (m', ring') else receive echo dev_of now m ring)

-- The queue is full: nothing is done while a reply may still come, else it is emptied.
unfoldable pub make_room : ℕ → Master → Option Master
make_room now m =
    if not (length m.queue == slots)
    then some m
    else (if m.link.want_rx && ltb (since_boot_delta now m.link.send_time) resp_timeout_ms
        then none
        else some (record m {
          queue = [];
          last_good = 0;
          link = record m.link { send_time = 0; want_rx = false };
        }))

-- Queued, the register waits, and is asked for at once if no reply is waited for. Where the queue
-- has no room for a pointer, it is emptied.
unfoldable pub enqueue : Bool → ℕ → ℕ → Master → Bool × Master
enqueue echo now h m =
    let queued = record m {
      queue = m.queue ++ (h ∷ []);
      regs = put_reg m.regs h (record (m.regs h) { value_state = reg_waiting });
    } in
    if not (ltb (length m.queue) slots)
    then (false, record m { queue = [] })
    else (true, if m.link.want_rx then queued else request_reg echo now h queued)

unfoldable pub enqueue_if : Bool → ℕ → ℕ → Master → Option Master → Bool × Master
enqueue_if echo now h m none = (false, m)
enqueue_if echo now h m (some m') = enqueue echo now h m'

-- osm_modbus_start_read of the register `h`; `has_dev` is whether its device is found.
unfoldable pub start_read : Bool → ℕ → Bool → ℕ → Master → Bool × Master
start_read echo now has_dev h m =
    let reg = m.regs h in
    if not has_dev
      || not (reg.func == read_holding || reg.func == read_input)
      || not (type_known reg.type)
    then (false, m)
    else enqueue_if echo now h m (make_room now m)
