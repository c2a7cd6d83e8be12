-- ===== src/Modbus/Frames.antt =====
-- The frames of osm_modbus_set_reg and _modbus_do_start_read, byte for byte.
use osm_firmware_v.Base.{
  ℕ, suc, ◌+◌, ◌-◌, ◌/◌, ◌%◌, ◌^◌, ◌≤◌, ◌≡◌, inl, inr, refl, ap, sym, ◌∙◌, Bool, true, not, ◌&&◌,
  ◌==◌, List, [], ◌∷◌, ◌++◌, if◌then◌else◌, set, take, take-set_at, length, length-set,
  length-append, append_assoc, append-nil, arith, Bool-cases,
}
use osm_firmware_v.Crc.{modbus_crc}
use osm_firmware_v.Modbus.{type_known, RegType, ByteOrder, WordOrder, msw, lsw, unordered, write}
use osm_firmware_v.Modbus.Codec.{
  value_bytes, size_of, order_known, words_known, append_value-write, write-append, is_word,
  word_bytes, long_bytes, length-word_bytes,
}
use osm_firmware_v.Modbus.Send.{Link, bin_stop, crc_bytes, send_set, expect, set_value}

-- A frame on the line: in the binary protocol between an opening and a closing brace.
abbrev pub framed : Bool → List ℕ → List ℕ
framed binary bs = if binary then (123 ∷ []) ++ (bs ++ (125 ∷ [])) else bs

-- The body and its checksum, the low byte first.
abbrev pub with_crc : List ℕ → List ℕ
with_crc body = body ++ (modbus_crc body % 256 ∷ modbus_crc body / 256 ∷ [])

length-write : (bs xs : List ℕ) (i : ℕ) → length (write xs i bs) ≡ length xs
length-write [] xs i = refl
length-write (b ∷ bs) xs i = length-write bs (set xs i b) (i + 1) ∙ length-set xs i b

-- The first bytes of an array after stores from `i` on are those before `i` and those stored.
take-write :
    (bs xs : List ℕ) (i : ℕ)
    → i + length bs ≤ length xs
    → take (i + length bs) (write xs i bs) ≡ take i xs ++ bs
take-write [] xs i h =
    let e : i + 0 ≡ i = omega arith in ap (λ n. take n xs) e ∙ sym (append-nil (take i xs))
take-write (b ∷ bs) xs i h =
    let e : i + suc (length bs) ≡ i + 1 + length bs = omega arith in
    let one : i + 1 ≡ suc i = omega arith in
    ap (λ n. take n (write (set xs i b) (i + 1) bs)) e
    ∙ take-write bs (set xs i b) (i + 1) (omega (arith, length-set xs i b))
    ∙ ap (λ ys. ys ++ bs) (ap (λ n. take n (set xs i b)) one ∙ take-set_at i xs b (omega arith))
    ∙ append_assoc (take i xs) (b ∷ []) bs

pub take_written :
    (bs xs : List ℕ) (n : ℕ) → n ≡ length bs → n ≤ length xs → take n (write xs 0 bs) ≡ bs
take_written bs xs n e h =
    let at : n ≡ 0 + length bs = omega (arith, e) in
    ap (λ k. take k (write xs 0 bs)) at ∙ take-write bs xs 0 (omega (arith, e))

pub write_more :
    (xs ys arr : List ℕ) (n : ℕ)
    → n ≡ length xs
    → write (write arr 0 xs) n ys ≡ write arr 0 (xs ++ ys)
write_more xs ys arr n e =
    let at : n ≡ 0 + length xs = omega (arith, e) in
    ap (λ k. write (write arr 0 xs) k ys) at ∙ sym (write-append xs ys arr 0)

-- What the line gets of a body at the start of the array.
send_set-out :
    (now : ℕ) (l : Link) (body arr : List ℕ) (size : ℕ)
    → size ≡ length body
    → size + 3 ≤ length arr
    → (send_set now l (write arr 0 body) size).out ≡ l.out ++ framed l.binary (with_crc body)
unfolding send_set
send_set-out now l body arr size e h =
    let crc : modbus_crc (take size (write arr 0 body)) ≡ modbus_crc body =
      ap modbus_crc (take_written body arr size e (omega arith)) in
    let len : size + 2 ≡ length (with_crc body) =
      omega (arith, e, length-append body (crc_bytes (modbus_crc body))) in
    let checked : write (write arr 0 body) size
          (crc_bytes (modbus_crc (take size (write arr 0 body))))
        ≡ write arr 0 (with_crc body) =
      ap (λ c. write (write arr 0 body) size (crc_bytes c)) crc
      ∙ write_more body (crc_bytes (modbus_crc body)) arr size e in
    let stopped : write (write arr 0 (with_crc body)) (size + 2) (bin_stop ∷ [])
        ≡ write arr 0 (with_crc body ++ (bin_stop ∷ [])) =
      write_more (with_crc body) (bin_stop ∷ []) arr (size + 2) len in
    elim (Bool-cases l.binary) [
      | inl b ↦
          rw
            (
              b,
              checked,
              stopped,
              take_written (with_crc body ++ (bin_stop ∷ [])) arr (size + 3)
                  (omega (arith, len, length-append (with_crc body) (bin_stop ∷ []))) (omega arith),
            )
            refl
      | inr b ↦ rw (b, checked, take_written (with_crc body) arr (size + 2) len (omega arith)) refl
    ]

length-long_bytes :
    (order : ByteOrder) (words : WordOrder) (v : ℕ)
    → order_known order ≡ true
    → words_known words ≡ true
    → length (long_bytes order words v) ≡ 4
unfolding long_bytes words_known
length-long_bytes order msw v o w = omega (
  arith,
  length-append (word_bytes order (v / 2 ^ 16)) (word_bytes order (v % 2 ^ 16)),
  length-word_bytes order (v / 2 ^ 16) o,
  length-word_bytes order (v % 2 ^ 16) o,
)
length-long_bytes order lsw v o w = omega (
  arith,
  length-append (word_bytes order (v % 2 ^ 16)) (word_bytes order (v / 2 ^ 16)),
  length-word_bytes order (v / 2 ^ 16) o,
  length-word_bytes order (v % 2 ^ 16) o,
)
length-long_bytes order (unordered n) v o w = cc

length-value_bytes :
    (t : RegType) (order : ByteOrder) (words : WordOrder) (v : ℕ)
    → order_known order ≡ true
    → words_known words ≡ true
    → length (value_bytes t order words v) ≡ size_of t
length-value_bytes t order words v o w = elim (Bool-cases (is_word t)) [
  | inl e ↦ rw e (length-word_bytes order (v % 2 ^ 16) o)
  | inr e ↦ rw e (length-long_bytes order words v o w)
]

size_of-le : (t : RegType) → size_of t ≤ 4
size_of-le t = ground arith

-- How many registers of the device a value takes.
abbrev pub registers : RegType → ℕ
registers type = if type_known type && not (is_word type) then 2 else 1

-- A read request as Modbus has it, without its checksum.
abbrev pub read_request : ℕ → ℕ → ℕ → RegType → List ℕ
read_request unit_id reg_addr func type =
    unit_id ∷ func ∷ reg_addr / 256 ∷ reg_addr % 256 ∷ 0 ∷ registers type ∷ []

-- The fields of a write request in front of the value: for one register, none but its address.
abbrev pub write_fields : ℕ → ℕ → ℕ → RegType → List ℕ
write_fields unit_id reg_addr func type =
    unit_id
    ∷ func
    ∷ reg_addr / 256
    ∷ reg_addr % 256
    ∷ (if func == 6 then [] else 0 ∷ registers type ∷ size_of type ∷ [])

-- A write request as Modbus has it, without its checksum.
abbrev pub request : ℕ → ℕ → ℕ → RegType → ByteOrder → WordOrder → ℕ → List ℕ
request unit_id reg_addr func type order words v =
    write_fields unit_id reg_addr func type ++ value_bytes type order words v

-- The value goes behind a header of four or of seven bytes.
pub set_value-out :
    (now unit_id reg_addr func : ℕ) (type : RegType) (order : ByteOrder) (words : WordOrder) (v : ℕ)
    (l : Link) (header : List ℕ) (size : ℕ)
    → type_known type ≡ true
    → order_known order ≡ true
    → words_known words ≡ true
    → size ≡ length header
    → size ≤ 7
    → length l.tx ≡ 20
    → let (done, l') =
        set_value now unit_id reg_addr func type order words v l (write l.tx 0 header) size in
      (done ≡ true)
      × (l'.out ≡ l.out ++ framed l.binary (with_crc (header ++ value_bytes type order words v)))
unfolding set_value expect
set_value-out now unit_id reg_addr func type order words v l header size k o w e small full =
    let value = value_bytes type order words v in
    let body_len : size + size_of type ≡ length (header ++ value) =
      omega (arith, e, length-append header value, length-value_bytes type order words v o w) in
    rw
      (
        append_value-write type order words (write l.tx 0 header) size (20 - size) v size
            (omega arith) k o w,
        write_more header value l.tx size e,
      )
      (
        refl,
        send_set-out now (expect unit_id reg_addr func type v l) (header ++ value) l.tx
            (size + size_of type) body_len (omega (arith, full, size_of-le type)),
      )
