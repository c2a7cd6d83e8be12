-- ===== src/Modbus/Requests.antt =====
-- The requests of core/modbus.c as they reach the line.
use osm_firmware_v.Base.{
  ℕ, ◌%◌, ◌≤◌, ◌≡◌, ◌⊎◌, inl, inr, refl, ap, sym, ◌∙◌, Bool, true, not, ◌||◌, ◌&&◌, List, [], ◌∷◌,
  ◌++◌, ◌==◌, if◌then◌else◌, take, length, length-append, arith, Bool-cases,
}
use osm_firmware_v.Crc.{modbus_crc}
use osm_firmware_v.Modbus.{
  type_known, RegType, u16, i16, u32, i32, float, other, ByteOrder, WordOrder, write, Reg,
  reg_waiting,
}
use osm_firmware_v.Modbus.Codec.{order_known, words_known, is_word}
use osm_firmware_v.Modbus.Send.{
  Link, bin_stop, read_holding, read_input, write_single, write_multiple, crc_bytes, reg_count_of,
  read_header, send_read, do_start_read, set_header, set_value, set_reg,
}
use osm_firmware_v.Modbus.Frames.{
  framed, with_crc, request, read_request, write_fields, registers, set_value-out, take_written,
  write_more,
}

-- The code's header has the fields of the protocol.
set_header-write_fields :
    (unit_id reg_addr func : ℕ) (type : RegType)
    → (func ≡ write_single) ⊎ (func ≡ write_multiple)
    → type_known type ≡ true
    → set_header unit_id reg_addr func type ≡ write_fields (unit_id % 256) reg_addr func type
unfolding set_header type_known reg_count_of is_word
set_header-write_fields unit_id reg_addr func type (inl f) k = rw f refl
set_header-write_fields unit_id reg_addr func u16 (inr f) k = rw f refl
set_header-write_fields unit_id reg_addr func i16 (inr f) k = rw f refl
set_header-write_fields unit_id reg_addr func u32 (inr f) k = rw f refl
set_header-write_fields unit_id reg_addr func i32 (inr f) k = rw f refl
set_header-write_fields unit_id reg_addr func float (inr f) k = rw f refl
set_header-write_fields unit_id reg_addr func (other n) (inr f) k = cc

write_fields-length :
    (unit_id reg_addr func : ℕ) (type : RegType)
    → (if func == write_single then 4 else 7) ≡ length (write_fields unit_id reg_addr func type)
write_fields-length unit_id reg_addr func type = ground arith

set_reg-set_value :
    (now unit_id reg_addr func : ℕ) (type : RegType) (order : ByteOrder) (words : WordOrder) (v : ℕ)
    (l : Link)
    → (func ≡ write_single) ⊎ (func ≡ write_multiple)
    → type_known type ≡ true
    → set_reg now unit_id reg_addr func type order words v l
      ≡ set_value now unit_id reg_addr func type order words v l
          (write l.tx 0 (set_header unit_id reg_addr func type))
          (if func == write_single then 4 else 7)
unfolding set_reg
set_reg-set_value now unit_id reg_addr func type order words v l (inl f) k = rw (k, f) refl
set_reg-set_value now unit_id reg_addr func type order words v l (inr f) k = rw (k, f) refl

-- For a write function, a known type, known orders and a packet array of 20 bytes,
-- osm_modbus_set_reg returns true and sends one frame, as Modbus has it: unit, function, address,
-- for several registers their count and the count of bytes, the value in the given orders, the
-- checksum of all this, and in the binary protocol the start and the stop mark around it.
pub set_reg-request :
    (now unit_id reg_addr func : ℕ) (type : RegType) (order : ByteOrder) (words : WordOrder) (v : ℕ)
    (l : Link)
    → (func ≡ write_single) ⊎ (func ≡ write_multiple)
    → type_known type ≡ true
    → order_known order ≡ true
    → words_known words ≡ true
    → length l.tx ≡ 20
    → let (done, l') = set_reg now unit_id reg_addr func type order words v l in
      (done ≡ true)
      × (l'.out
          ≡ l.out
            ++ framed l.binary
                (with_crc (request (unit_id % 256) reg_addr func type order words v)))
set_reg-request now unit_id reg_addr func type order words v l f k o w full =
    rw
      (
        set_reg-set_value now unit_id reg_addr func type order words v l f k,
        set_header-write_fields unit_id reg_addr func type f k,
      )
      (set_value-out now unit_id reg_addr func type order words v l
        (write_fields (unit_id % 256) reg_addr func type) (if func == write_single then 4 else 7) k
        o w (write_fields-length (unit_id % 256) reg_addr func type) (ground arith) full)

-- Six bytes and their checksum; the ninth place is for the stop mark.
send_read-out :
    (echo : Bool) (now : ℕ) (l : Link) (body arr : List ℕ)
    → length body ≡ 6
    → 9 ≤ length arr
    → (send_read echo now l (write arr 0 body) 6).out ≡ l.out ++ framed l.binary (with_crc body)
unfolding send_read
send_read-out echo now l body arr e h =
    let crc : modbus_crc (take 6 (write arr 0 body)) ≡ modbus_crc body =
      ap modbus_crc (take_written body arr 6 (sym e) (omega arith)) in
    let len : 8 ≡ length (with_crc body) =
      omega (arith, e, length-append body (crc_bytes (modbus_crc body))) in
    let checked : write (write arr 0 body) 6 (crc_bytes (modbus_crc (take 6 (write arr 0 body))))
        ≡ write arr 0 (with_crc body) =
      ap (λ c. write (write arr 0 body) 6 (crc_bytes c)) crc
      ∙ write_more body (crc_bytes (modbus_crc body)) arr 6 (sym e) in
    let stopped : write (write arr 0 (with_crc body)) 8 (bin_stop ∷ [])
        ≡ write arr 0 (with_crc body ++ (bin_stop ∷ [])) =
      write_more (with_crc body) (bin_stop ∷ []) arr 8 len in
    elim (Bool-cases l.binary) [
      | inl b ↦
          rw
            (
              b,
              checked,
              stopped,
              take_written (with_crc body ++ (bin_stop ∷ [])) arr 9
                  (omega (arith, len, length-append (with_crc body) (bin_stop ∷ []))) h,
            )
            refl
      | inr b ↦ rw (b, checked, take_written (with_crc body) arr 8 len (omega arith)) refl
    ]

reg_count_of-registers : (type : RegType) → reg_count_of type ≡ registers type
unfolding reg_count_of type_known is_word
reg_count_of-registers u16 = refl
reg_count_of-registers i16 = refl
reg_count_of-registers u32 = refl
reg_count_of-registers i32 = refl
reg_count_of-registers float = refl
reg_count_of-registers (other n) = refl

read_header-read_request :
    (unit : ℕ) (reg : Reg) → read_header unit reg ≡ read_request unit reg.reg_addr reg.func reg.type
unfolding read_header
read_header-read_request unit reg =
    rw (reg_count_of-registers reg.type)
      (elim (Bool-cases (type_known reg.type && not (is_word reg.type))) [
        | inl e ↦ rw e refl
        | inr e ↦ rw e refl
      ])

send_read-waits :
    (echo : Bool) (now : ℕ) (l : Link) (tx : List ℕ) → (send_read echo now l tx 6).want_rx ≡ true
unfolding send_read
send_read-waits echo now l tx = elim (Bool-cases l.binary) [ inl b ↦ rw b refl | inr b ↦ rw b refl ]

-- For a register with a read function and a packet array of 20 bytes, _modbus_do_start_read marks
-- it waiting, waits for a reply, and sends one frame, as Modbus has it: unit, function, address,
-- the count of the type's registers, their checksum, and in the binary protocol the start and the
-- stop mark around it.
pub do_start_read-request :
    (echo : Bool) (now : ℕ) (reg : Reg) (l : Link)
    → (reg.func ≡ read_holding) ⊎ (reg.func ≡ read_input)
    → length l.tx ≡ 20
    → let (l', reg') = do_start_read echo now reg l in
      (reg' ≡ record reg { value_state = reg_waiting })
      × (l'.want_rx ≡ true)
      × (l'.out
          ≡ l.out
            ++ framed l.binary
                (with_crc (read_request (reg.unit_id % 256) reg.reg_addr reg.func reg.type)))
unfolding do_start_read
do_start_read-request echo now reg l f full =
    let sent : (reg.func == read_holding || reg.func == read_input) ≡ true = ground arith in
    rw (sent, read_header-read_request (reg.unit_id % 256) reg)
      (
        refl,
        send_read-waits echo now l
            (write l.tx 0 (read_request (reg.unit_id % 256) reg.reg_addr reg.func reg.type)),
        send_read-out echo now l (read_request (reg.unit_id % 256) reg.reg_addr reg.func reg.type)
            l.tx refl (omega arith),
      )
