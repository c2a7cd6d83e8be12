-- ===== src/Hexblob.antt =====
-- protocols/hexblob.c: the binary payload that LoRaWAN uplinks carry.
-- `protocol_ctx_t` is passed explicitly. A signed C argument of `w` bits is its two's complement
-- word below 2 ^ w, and an `int8_t` of the buffer a byte. A function that appends returns whether
-- there was room, and the new context. Logging has no effect on either and is left out.
pub mod Append
pub mod Encode
pub mod Decode
pub mod Integers
pub mod Measurement
pub mod Reception
pub mod Float
pub mod Uplink
pub mod Error
mod Tests
use osm_firmware_v.Base.{
  ℕ, zero, suc, ◌+◌, ◌-◌, ◌*◌, ◌/◌, ◌%◌, ◌^◌, Bool, true, false, not, ◌&&◌, ◌||◌, List, [], ◌∷◌,
  Option, none, some, ltb, leb, ◌==◌, if◌then◌else◌, get_or, set, replicate,
}
use osm_firmware_v.Base.Strings.{strnlen}
use osm_firmware_v.Base.Ints.{ℤ, pos, negsuc, ltbℤ, word}

-- `protocol_ctx_t`; a null `buf` is `none`.
pub record Ctx : Type 0 where
  pub buf : Option (List ℕ)
  pub buflen : ℕ
  pub pos : ℕ

abbrev pub Appender : Type 0
Appender = Ctx → Bool × Ctx

-- `a && b` of two appends: the second is made if the first succeeds.
abbrev pub and_then : Appender → Appender → Appender
and_then m k c = let (done, c') = m c in if done then k c' else (false, c')

-- `r |= !a; r |= !b; return !r`: both are made.
abbrev pub and_also : Appender → Appender → Appender
and_also m k c = let (done, c') = m c in let (done', c'') = k c' in (done && done', c'')

-- _protocol_append_i8; `pos++` cannot wrap below `buflen`.
unfoldable pub append_i8 : ℕ → Appender
append_i8 v c = elim c.buf [
  | none ↦ (false, c)
  | some b ↦
      if c.buflen == 0
      then (false, c)
      else (if leb c.buflen c.pos
          then (false, c)
          else (true, record c { buf = some (set b c.pos (v % 256)); pos = c.pos + 1 }))
]

-- `v & 0xFF` and `v >> 8`, and so on for the wider words.
unfoldable pub append_i16 : ℕ → Appender
append_i16 v = and_then (append_i8 (v % 2 ^ 8)) (append_i8 (v / 2 ^ 8 % 2 ^ 8))

unfoldable pub append_i32 : ℕ → Appender
append_i32 v = and_then (append_i16 (v % 2 ^ 16)) (append_i16 (v / 2 ^ 16 % 2 ^ 16))

unfoldable pub append_i64 : ℕ → Appender
append_i64 v = and_then (append_i32 (v % 2 ^ 32)) (append_i32 (v / 2 ^ 32 % 2 ^ 32))

unfoldable pub append_float : ℕ → Appender
append_float v = append_i32 v

-- PROTOCOL_SEND_STR_LEN and OSM_MEASUREMENTS_VALUE_STR_LEN
abbrev pub send_str_len : ℕ
send_str_len = 8

abbrev pub value_str_len : ℕ
value_str_len = 23

-- The loop `for (i = n; i < n + k; i++)` of _protocol_append_str over the string.
unfoldable pub append_chars : List ℕ → ℕ → ℕ → Appender
append_chars val zero i c = (true, c)
append_chars val (suc k) i c =
    let (done, c') = append_i8 (get_or val i 0) c in
    let rest = append_chars val k (i + 1) c' in if done then rest else (false, c')

-- The loop that fills up with zeros.
unfoldable pub append_zeros : ℕ → Appender
append_zeros zero c = (true, c)
append_zeros (suc k) c =
    let (done, c') = append_i8 0 c in
    let rest = append_zeros k c' in if done then rest else (false, c')

unfoldable pub append_str : List ℕ → ℕ → Appender
append_str val len c =
    let n = if ltb send_str_len len then send_str_len else len in
    and_then (append_chars val n 0) (append_zeros (send_str_len - n)) c

-- `protocol_send_type_t`
pub data SendType : Type 0 where
  uint8 uint16 uint32 uint64 int8 int16 int32 int64 float str : SendType

unfoldable pub code : SendType → ℕ
code uint8 = 0x01
code uint16 = 0x02
code uint32 = 0x03
code uint64 = 0x04
code int8 = 0x11
code int16 = 0x12
code int32 = 0x13
code int64 = 0x14
code float = 0x15
code str = 0x20

-- The choice of `compressed_type`: the narrowest type for the value, unsigned above zero.
unfoldable pub compressed_type : ℤ → SendType
compressed_type v =
    if ltbℤ (pos 0) v
    then (if ltbℤ (pos 0xFFFF_FFFF) v
        then uint64
        else (if ltbℤ (pos 0xFFFF) v
            then uint32
            else (if ltbℤ (pos 0xFF) v then uint16 else uint8)))
    else (if ltbℤ (pos 0x7FFF_FFFF) v || ltbℤ v (negsuc 0x7FFF_FFFF)
        then int64
        else (if ltbℤ (pos 0x7FFF) v || ltbℤ v (negsuc 0x7FFF)
            then int32
            else (if ltbℤ (pos 0x7F) v || ltbℤ v (negsuc 0x7F) then int16 else int8)))

-- The second `switch`: the value as a word of the type's width.
unfoldable pub append_as : SendType → ℤ → Appender
append_as uint8 v = append_i8 (word (2 ^ 8) v)
append_as int8 v = append_i8 (word (2 ^ 8) v)
append_as uint16 v = append_i16 (word (2 ^ 16) v)
append_as int16 v = append_i16 (word (2 ^ 16) v)
append_as uint32 v = append_i32 (word (2 ^ 32) v)
append_as int32 v = append_i32 (word (2 ^ 32) v)
append_as uint64 v = append_i64 (word (2 ^ 64) v)
append_as int64 v = append_i64 (word (2 ^ 64) v)
append_as float v = λ c. (false, c)
append_as str v = λ c. (false, c)

unfoldable pub append_data_type_i64 : ℤ → Appender
append_data_type_i64 v =
    and_then (append_i8 (code (compressed_type v))) (append_as (compressed_type v) v)

unfoldable pub append_data_type_str : List ℕ → Appender
append_data_type_str s = and_then (append_i8 (code str)) (append_str s (strnlen s value_str_len))

unfoldable pub append_data_type_float : ℤ → Appender
append_data_type_float v = and_then (append_i8 (code float)) (append_float (word (2 ^ 32) v))

-- `osm_measurements_value_type_t`, with the other numbers of its six bits.
pub data ValueType : Type 0 where
  invalid i64 string f32 : ValueType
  other : ℕ → ValueType

-- The sum, maximum and minimum of a window of samples.
pub record Stats : Type 0 where
  pub sum : ℤ
  pub max : ℤ
  pub min : ℤ

-- The fields of `osm_measurements_data_t` that the payload reads; `value_64`, `value_f` and
-- `value_s` are what the members of the union read as.
pub record Sampled : Type 0 where
  pub value_type : ValueType
  pub num_samples : ℕ
  pub value_64 : Stats
  pub value_f : Stats
  pub value_s : List ℕ

-- The fields of `osm_measurements_def_t` that the payload reads.
pub record MeasDef : Type 0 where
  pub name : List ℕ
  pub samplecount : ℕ

-- C division of a signed value by a count: towards zero.
abbrev pub div_trunc : ℤ → ℕ → ℤ
div_trunc (pos n) d = pos (n / d)
div_trunc (negsuc n) d = let q = suc n / d in if q == 0 then pos 0 else negsuc (q - 1)

-- A division by zero is undefined, so no result; the code makes it if it averages no samples.
unfoldable pub append_value_type_i64 : Sampled → Bool → Ctx → Option (Bool × Ctx)
append_value_type_i64 d single c =
    if single
    then some (append_data_type_i64 d.value_64.sum c)
    else (if d.num_samples == 0
        then none
        else some (
            and_also (append_data_type_i64 (div_trunc d.value_64.sum d.num_samples))
              (and_also (append_data_type_i64 d.value_64.min) (append_data_type_i64 d.value_64.max))
              c))

unfoldable pub append_value_type_str : Sampled → Ctx → Option (Bool × Ctx)
append_value_type_str d c = some (append_data_type_str d.value_s c)

unfoldable pub append_value_type_float : Sampled → Bool → Ctx → Option (Bool × Ctx)
append_value_type_float d single c =
    if single
    then some (append_data_type_float d.value_f.sum c)
    else (if d.num_samples == 0
        then none
        else some (
            and_also (append_data_type_float (div_trunc d.value_f.sum d.num_samples))
              (and_also (append_data_type_float d.value_f.min)
                (append_data_type_float d.value_f.max))
              c))

-- `*(int32_t*)name`: the first four bytes of a name, on a little-endian target.
abbrev pub name_word : List ℕ → ℕ
name_word s =
    get_or s 0 0 % 256
    + 2 ^ 8 * (get_or s 1 0 % 256)
    + 2 ^ 16 * (get_or s 2 0 % 256)
    + 2 ^ 24 * (get_or s 3 0 % 256)

-- OSM_MEASUREMENTS_DATATYPE_SINGLE and OSM_MEASUREMENTS_DATATYPE_AVERAGED
abbrev pub datatype : Bool → ℕ
datatype true = 1
datatype false = 2

append_value : ValueType → Sampled → Bool → Ctx → Option (Bool × Ctx)
append_value i64 d single c = append_value_type_i64 d single c
append_value string d single c = append_value_type_str d c
append_value f32 d single c = append_value_type_float d single c
append_value invalid d single c = some (false, c)
append_value (other n) d single c = some (false, c)

-- `if (r) pos = before_pos`, after the header appended with result `done`.
settle : ℕ → Bool → Option (Bool × Ctx) → Option (Bool × Ctx)
settle before done none = none
settle before done (some (done', c)) =
    some (if done && done' then (true, c) else (false, record c { pos = before }))

-- osm_protocol_append_measurement
unfoldable pub append_measurement : MeasDef → Sampled → Ctx → Option (Bool × Ctx)
unfolding append_value settle
append_measurement def d c =
    let single = def.samplecount == 1 in
    let (done, c') = and_also (append_i32 (name_word def.name)) (append_i8 (datatype single)) c in
    settle c.pos done (append_value d.value_type d single c')

-- PROTOCOL_ERR_CODE_NAME, "ERR"
abbrev pub err_name : List ℕ
err_name = 69 ∷ 82 ∷ 82 ∷ 0 ∷ []

-- _protocol_append_error_code
unfoldable pub append_error_code : ℕ → Ctx → Bool × Ctx
append_error_code err c =
    let (done, c') =
      and_also (append_i32 (name_word err_name))
        (and_also (append_i8 (datatype true)) (append_data_type_i64 (pos err))) c in
    if done then (true, c') else (false, record c' { pos = c.pos })

-- OSM_MEASUREMENTS_PAYLOAD_VERSION
abbrev pub payload_version : ℕ
payload_version = 2

-- _protocol_init, on an array of `buflen` bytes.
unfoldable pub protocol_init : ℕ → Bool × Ctx
protocol_init buflen =
    append_i8 payload_version (record { buf = some (replicate buflen 0); buflen = buflen; pos = 0 })

module _ (comms_send : List ℕ → ℕ → Bool) where
  -- osm_protocol_send: the buffer and its length go to the communications module.
  unfoldable pub protocol_send : Ctx → Option Bool
  protocol_send c = elim c.buf [ none ↦ none | some b ↦ some (comms_send b c.pos) ]

-- What osm_protocol_send_error_code hands to the communications module, if anything, and the
-- context that it leaves: it works on an array of its own and restores the saved context.
unfoldable pub send_error_code : ℕ → Ctx → Option (Option (List ℕ) × ℕ) × Ctx
send_error_code err org =
    let (inited, c) = protocol_init 15 in
    let c' = (append_error_code err c).1 in
    if inited then (some (c'.buf, c'.pos), org) else (none, org)
