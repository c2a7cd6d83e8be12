-- ===== src/Modbus.antt =====
-- core/modbus.c: the register codecs and the frames that are sent.
-- An array is a list of bytes and a pointer into it a place or the rest of the list. A signed value
-- is its two's complement word. Only the fields that these functions use are in the records.
pub mod Codec
pub mod Send
pub mod Frames
pub mod Requests
pub mod Receive
pub mod Process
mod Tests
use osm_firmware_v.Base.{
  ℕ, zero, suc, ◌+◌, ◌-◌, ◌*◌, ◌/◌, ◌%◌, ◌^◌, Bool, true, false, not, ◌&&◌, ◌||◌, List, [], ◌∷◌,
  ◌++◌, Option, none, some, ltb, leb, ◌==◌, if◌then◌else◌, get_or, set, take, drop,
}
use osm_firmware_v.Crc.{modbus_crc}

-- `osm_modbus_reg_type_t`, `osm_modbus_byte_orders_t` and `osm_modbus_word_orders_t`, each with the
-- other numbers that a variable of the type can hold.
pub data RegType : Type 0 where
  u16 i16 u32 i32 float : RegType
  other : ℕ → RegType

-- The types that osm_modbus_set_reg has a case for.
unfoldable pub type_known : RegType → Bool
type_known (other n) = false
type_known _ = true

pub data ByteOrder : Type 0 where
  msb lsb : ByteOrder
  unknown : ℕ → ByteOrder

pub data WordOrder : Type 0 where
  msw lsw : WordOrder
  unordered : ℕ → WordOrder

-- Stores at `i`, `i + 1` and so on.
abbrev pub write : List ℕ → ℕ → List ℕ → List ℕ
write arr i [] = arr
write arr i (b ∷ bs) = write (set arr i b) (i + 1) bs

-- _modbus_append_u16; `at` is where `arr` points to in the array.
unfoldable pub append_u16 : List ℕ → ℕ → ℕ → ℕ → ByteOrder → Bool × List ℕ
append_u16 arr at len v order = if leb len 2 then (false, arr) else elim order [
  | msb ↦ (true, write arr at (v / 2 ^ 8 ∷ v % 2 ^ 8 ∷ []))
  | lsb ↦ (true, write arr at (v % 2 ^ 8 ∷ v / 2 ^ 8 ∷ []))
  | unknown n ↦ (false, arr)
]

-- Two words, one after the other.
append_words : List ℕ → ℕ → ℕ → ℕ → ℕ → ByteOrder → Bool × List ℕ
append_words arr at len first second order =
    let (done, arr') = append_u16 arr at len first order in
    if done then append_u16 arr' (at + 2) (len - 2) second order else (false, arr')

-- _modbus_append_u32
unfoldable pub append_u32 : List ℕ → ℕ → ℕ → ℕ → ByteOrder → WordOrder → Bool × List ℕ
unfolding append_words
append_u32 arr at len v order words = if leb len 4 then (false, arr) else elim words [
  | msw ↦ append_words arr at len (v / 2 ^ 16) (v % 2 ^ 16) order
  | lsw ↦ append_words arr at len (v % 2 ^ 16) (v / 2 ^ 16) order
  | unordered n ↦ (false, arr)
]

-- _modbus_append_value: what it returns, the array and `*body_size`.
unfoldable pub append_value :
    List ℕ → ℕ → ℕ → RegType → ByteOrder → WordOrder → ℕ → ℕ → (Bool × List ℕ) × ℕ
append_value arr at len u16 order words v size =
    (append_u16 arr at len (v % 2 ^ 16) order, size + 2)
append_value arr at len i16 order words v size =
    (append_u16 arr at len (v % 2 ^ 16) order, size + 2)
append_value arr at len u32 order words v size = (append_u32 arr at len v order words, size + 4)
append_value arr at len i32 order words v size = (append_u32 arr at len v order words, size + 4)
append_value arr at len float order words v size = (append_u32 arr at len v order words, size + 4)
append_value arr at len (other n) order words v size = ((false, arr), size)

-- _modbus_data_to_u16
unfoldable pub data_to_u16 : List ℕ → ℕ → ByteOrder → Option ℕ
data_to_u16 bytes size order = if not (size == 2) then none else elim order [
  | msb ↦ some (get_or bytes 0 0 * 2 ^ 8 + get_or bytes 1 0)
  | lsb ↦ some (get_or bytes 1 0 * 2 ^ 8 + get_or bytes 0 0)
  | unknown n ↦ none
]

unfoldable pub join_words : WordOrder → ℕ → ℕ → Option ℕ
join_words msw first second = some (first * 2 ^ 16 + second)
join_words lsw first second = some (second * 2 ^ 16 + first)
join_words (unordered n) first second = none

-- _modbus_data_to_u32
unfoldable pub data_to_u32 : List ℕ → ℕ → ByteOrder → WordOrder → Option ℕ
data_to_u32 bytes size order words =
    if not (size == 4) then none else elim (data_to_u16 bytes 2 order) [
      | none ↦ none
      | some first ↦ elim (data_to_u16 (drop 2 bytes) 2 order) [
        | none ↦ none
        | some second ↦ join_words words first second
      ]
    ]

-- `osm_modbus_reg_state_t`
pub data RegState : Type 0 where
  reg_invalid reg_waiting reg_ready : RegState

-- `osm_modbus_reg_t`
pub record Reg : Type 0 where
  pub value_data : ℕ
  pub type : RegType
  pub func : ℕ
  pub value_state : RegState
  pub reg_addr : ℕ
  pub unit_id : ℕ

-- _modbus_reg_set
unfoldable pub reg_set : Reg → ℕ → Reg
reg_set reg v = record reg { value_data = v; value_state = reg_ready }

-- An `int16_t` widened to `uint32_t`.
abbrev pub widen : ℕ → ℕ
widen w = if ltb w (2 ^ 15) then w else w + (2 ^ 32 - 2 ^ 16)

-- What the callbacks do with what was decoded.
unfoldable pub reg_store : Reg → Option ℕ → Reg
reg_store reg none = reg
reg_store reg (some v) = reg_set reg v

unfoldable pub widened : Option ℕ → Option ℕ
widened none = none
widened (some w) = some (widen w)

-- _modbus_reg_u16_cb, _modbus_reg_i16_cb and so on; each begins with a test of the size.
unfoldable pub reg_u16_cb : Reg → List ℕ → ℕ → ByteOrder → Reg
reg_u16_cb reg bytes size order =
    if not (size == 2) then reg else reg_store reg (data_to_u16 bytes size order)

unfoldable pub reg_i16_cb : Reg → List ℕ → ℕ → ByteOrder → Reg
reg_i16_cb reg bytes size order =
    if not (size == 2) then reg else reg_store reg (widened (data_to_u16 bytes size order))

unfoldable pub reg_u32_cb : Reg → List ℕ → ℕ → ByteOrder → WordOrder → Reg
reg_u32_cb reg bytes size order words =
    if not (size == 4) then reg else reg_store reg (data_to_u32 bytes size order words)

unfoldable pub reg_i32_cb : Reg → List ℕ → ℕ → ByteOrder → WordOrder → Reg
reg_i32_cb reg bytes size order words =
    if not (size == 4) then reg else reg_store reg (data_to_u32 bytes size order words)

unfoldable pub reg_float_cb : Reg → List ℕ → ℕ → ByteOrder → WordOrder → Reg
reg_float_cb reg bytes size order words =
    if not (size == 4) then reg else reg_store reg (data_to_u32 bytes size order words)

-- _modbus_reg_cb
unfoldable pub reg_cb : Reg → List ℕ → ℕ → ByteOrder → WordOrder → Reg
reg_cb reg bytes size order words = elim reg.type [
  | u16 ↦ reg_u16_cb reg bytes size order
  | i16 ↦ reg_i16_cb reg bytes size order
  | u32 ↦ reg_u32_cb reg bytes size order words
  | i32 ↦ reg_i32_cb reg bytes size order words
  | float ↦ reg_float_cb reg bytes size order words
  | other n ↦ reg
]
