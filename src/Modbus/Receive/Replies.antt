-- ===== src/Modbus/Receive/Replies.antt =====
-- Replies to reads, from the packet to the register.
use osm_firmware_v.Base.{
  ℕ, suc, ◌+◌, ◌-◌, ◌/◌, ◌%◌, ◌^◌, ◌≡◌, ◌⊎◌, inl, inr, refl, ap, ◌∙◌, true, false, List, [], ◌∷◌,
  ◌++◌, ==_refl, take, get_or, length, append_assoc, take-append, arith,
}
use osm_firmware_v.Crc.{modbus_crc}
use osm_firmware_v.Modbus.{type_known, RegType, ByteOrder, WordOrder, reg_ready, reg_invalid}
use osm_firmware_v.Modbus.Codec.{
  value_bytes, size_of, order_known, words_known, held, reg_cb-value_bytes,
}
use osm_firmware_v.Modbus.Send.{read_holding, read_input, crc_bytes}
use osm_firmware_v.Modbus.Frames.{with_crc}
use osm_firmware_v.Modbus.Receive.{Dev, Master, put_reg, want, byte, take_reply, check_crc}

get_or-append : (xs ys : List ℕ) (i d : ℕ) → get_or (xs ++ ys) (length xs + i) d ≡ get_or ys i d
get_or-append [] ys i d = ap (λ j. get_or ys j d) (omega arith)
get_or-append (x ∷ xs) ys i d =
    let e : suc (length xs) + i ≡ suc (length xs + i) = omega arith in
    ap (λ j. get_or (x ∷ (xs ++ ys)) j d) e ∙ get_or-append xs ys i d

-- The packet of a frame passes the check of its checksum.
pub crc_matches :
    (body rest : List ℕ) (n : ℕ)
    → n ≡ length body + 2
    → (take (n - 2) (with_crc body ++ rest) ≡ body)
      × (get_or (with_crc body ++ rest) (n - 1) 0 ≡ modbus_crc body / 2 ^ 8)
      × (get_or (with_crc body ++ rest) (n - 2) 0 ≡ modbus_crc body % 2 ^ 8)
crc_matches body rest n e =
    let apart = append_assoc body (crc_bytes (modbus_crc body)) rest in
    let two : n - 2 ≡ length body = omega (arith, e) in
    let low : n - 2 ≡ length body + 0 = omega (arith, e) in
    let high : n - 1 ≡ length body + 1 = omega (arith, e) in
    (
      ap (take (n - 2)) apart
          ∙ ap (λ k. take k (body ++ (crc_bytes (modbus_crc body) ++ rest))) two
          ∙ take-append body (crc_bytes (modbus_crc body) ++ rest),
      ap (λ p. get_or p (n - 1) 0) apart
          ∙ ap (λ k. get_or (body ++ (crc_bytes (modbus_crc body) ++ rest)) k 0) high
          ∙ get_or-append body (crc_bytes (modbus_crc body) ++ rest) 1 0,
      ap (λ p. get_or p (n - 2) 0) apart
          ∙ ap (λ k. get_or (body ++ (crc_bytes (modbus_crc body) ++ rest)) k 0) low
          ∙ get_or-append body (crc_bytes (modbus_crc body) ++ rest) 0 0,
    )

pub check_crc-take_reply :
    (dev_of : ℕ → Dev) (now : ℕ) (m : Master) (body rest : List ℕ)
    → m.packet ≡ with_crc body ++ rest
    → m.packet_len ≡ length body + 2
    → (byte m 1 ≡ read_holding) ⊎ (byte m 1 ≡ read_input)
    → check_crc dev_of now m ≡ take_reply dev_of now (want false (record m { packet_len = 0 }))
unfolding check_crc
check_crc-take_reply dev_of now m body rest p n func =
    let (front, high, low) = crc_matches body rest m.packet_len n in
    let whole : take (m.packet_len - 2) m.packet ≡ body = ap (take (m.packet_len - 2)) p ∙ front in
    let hi : byte m (m.packet_len - 1) ≡ modbus_crc body / 2 ^ 8 =
      ap (λ q. get_or q (m.packet_len - 1) 0) p ∙ high in
    let lo : byte m (m.packet_len - 2) ≡ modbus_crc body % 2 ^ 8 =
      ap (λ q. get_or q (m.packet_len - 2) 0) p ∙ low in
    rw (whole, hi, lo, ==_refl (modbus_crc body / 2 ^ 8), ==_refl (modbus_crc body % 2 ^ 8))
      (elim func [ inl f ↦ rw f refl | inr f ↦ rw f refl ])

-- The packet of a reply: unit, function, count of bytes, the value, the checksum, and what an
-- earlier packet left behind them.
abbrev pub reply : ℕ → ℕ → RegType → ByteOrder → WordOrder → ℕ → List ℕ
reply unit func t order words v = unit ∷ func ∷ size_of t ∷ value_bytes t order words v

take_reply-stored :
    (dev_of : ℕ → Dev) (now h : ℕ) (hs : List ℕ) (m : Master) (func v : ℕ) (rest : List ℕ)
    → m.queue ≡ h ∷ hs
    → (func ≡ read_holding) ⊎ (func ≡ read_input)
    → type_known (m.regs h).type ≡ true
    → order_known (dev_of h).byte_order ≡ true
    → words_known (dev_of h).word_order ≡ true
    → m.packet
      ≡ (dev_of h).unit_id
          ∷ func
          ∷ size_of (m.regs h).type
          ∷ value_bytes (m.regs h).type (dev_of h).byte_order (dev_of h).word_order v
        ++ rest
    → let m' = take_reply dev_of now m in
      (m'.queue ≡ hs)
      × (m'.regs
          ≡ put_reg m.regs h
              (record (m.regs h) { value_data = held (m.regs h).type v; value_state = reg_ready }))
unfolding take_reply
take_reply-stored dev_of now h hs m func v rest q f k o w p =
    let stored =
      reg_cb-value_bytes (m.regs h).type (record (m.regs h) { value_state = reg_invalid })
        (dev_of h).byte_order (dev_of h).word_order v rest refl k o w in
    elim f [
      | inl e ↦ rw (q, p, e, ==_refl (dev_of h).unit_id, stored) (refl, refl)
      | inr e ↦ rw (q, p, e, ==_refl (dev_of h).unit_id, stored) (refl, refl)
    ]

-- A whole packet that is the reply of the device of the queue's first register, with the size and
-- a value of that register's type in the device's known orders, and the right checksum: the
-- register leaves the queue and holds the value, ready, and no other register changes.
pub check_crc-stored :
    (dev_of : ℕ → Dev) (now h : ℕ) (hs : List ℕ) (m : Master) (func v : ℕ) (rest : List ℕ)
    → m.queue ≡ h ∷ hs
    → (func ≡ read_holding) ⊎ (func ≡ read_input)
    → type_known (m.regs h).type ≡ true
    → order_known (dev_of h).byte_order ≡ true
    → words_known (dev_of h).word_order ≡ true
    → (let body =
          reply
            (dev_of h).unit_id
            func
            (m.regs h).type
            (dev_of h).byte_order
            (dev_of h).word_order
            v in
        (m.packet ≡ with_crc body ++ rest) × (m.packet_len ≡ length body + 2))
    → let m' = check_crc dev_of now m in
      (m'.queue ≡ hs)
      × (m'.regs
          ≡ put_reg m.regs h
              (record (m.regs h) { value_data = held (m.regs h).type v; value_state = reg_ready }))
check_crc-stored dev_of now h hs m func v rest q f k o w (p, n) =
    let value = value_bytes (m.regs h).type (dev_of h).byte_order (dev_of h).word_order v in
    let body =
      reply (dev_of h).unit_id func (m.regs h).type (dev_of h).byte_order (dev_of h).word_order v in
    let is_func : byte m 1 ≡ func = ap (λ bs. get_or bs 1 0) p in
    let reads : (byte m 1 ≡ read_holding) ⊎ (byte m 1 ≡ read_input) = elim f [
      | inl e ↦ inl (is_func ∙ e)
      | inr e ↦ inr (is_func ∙ e)
    ] in
    rw (check_crc-take_reply dev_of now m body rest p n reads) (
      take_reply-stored dev_of now h hs (want false (record m { packet_len = 0 })) func v
        (crc_bytes (modbus_crc body) ++ rest) q f k o w
        (p
          ∙ ap (λ bs. (dev_of h).unit_id ∷ func ∷ size_of (m.regs h).type ∷ bs)
              (append_assoc value (crc_bytes (modbus_crc body)) rest)))
