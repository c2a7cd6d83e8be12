-- ===== src/Hexblob/Encode.antt =====
-- protocols/hexblob.c: the bytes that each append of the file stands for.
use osm_firmware_v.Base.{
  take-drop, ℕ, zero, suc, ◌+◌, ◌-◌, ◌*◌, ◌/◌, ◌%◌, ◌^◌, ◌≤◌, ◌≡◌, refl, ap, sym, ◌∙◌, Bool, true,
  false, List, [], ◌∷◌, ◌++◌, arith, ltb, if◌then◌else◌, length, get_or, take, drop, replicate, min,
}
use osm_firmware_v.Base.Ints.{ℤ, pos, negsuc, word}
use osm_firmware_v.Hexblob.{
  Ctx, Appender, and_then, append_i8, append_i16, append_i32, append_i64, append_float,
  append_chars, append_zeros, append_str, append_as, append_data_type_i64, append_data_type_str,
  append_data_type_float, SendType, uint8, uint16, uint32, uint64, int8, int16, int32, int64, float,
  str, code, compressed_type, send_str_len, value_str_len,
}
use osm_firmware_v.Base.Strings.{strnlen, strnlen-le}
use osm_firmware_v.Hexblob.Append.{append_each, append_each-append, append_each_one}

-- The low `k` bytes of a word, the lowest first.
abbrev pub le_bytes : ℕ → ℕ → List ℕ
le_bytes zero v = []
le_bytes (suc k) v = v % 256 ∷ le_bytes k (v / 256)

-- Two appends in a row are the append of the two lists.
pub both :
    (m k : Appender) (xs ys : List ℕ)
    → ((c : Ctx) → m c ≡ append_each xs c)
    → ((c : Ctx) → k c ≡ append_each ys c)
    → (c : Ctx) → and_then m k c ≡ append_each (xs ++ ys) c
both m k xs ys hm hk c = (λ i. and_then (λ d. hm d i) (λ d. hk d i) c) ∙ append_each-append xs ys c

append_i16-each : (v : ℕ) (c : Ctx) → append_i16 v c ≡ append_each (le_bytes 2 v) c
unfolding append_i16
append_i16-each v c =
    both (append_i8 (v % 2 ^ 8)) (append_i8 (v / 2 ^ 8 % 2 ^ 8)) (v % 256 ∷ []) (v / 256 % 256 ∷ [])
      (λ d. sym (append_each_one (v % 256) d)) (λ d. sym (append_each_one (v / 256 % 256) d)) c

le_bytes-split :
    (v : ℕ) → (le_bytes 2 (v % 2 ^ 16) ++ le_bytes 2 (v / 2 ^ 16 % 2 ^ 16) ≡ le_bytes 4 v)
le_bytes-split v = ground arith

pub append_i32-each : (v : ℕ) (c : Ctx) → append_i32 v c ≡ append_each (le_bytes 4 v) c
unfolding append_i32
append_i32-each v c =
    both (append_i16 (v % 2 ^ 16)) (append_i16 (v / 2 ^ 16 % 2 ^ 16)) (le_bytes 2 (v % 2 ^ 16))
      (le_bytes 2 (v / 2 ^ 16 % 2 ^ 16)) (append_i16-each (v % 2 ^ 16))
      (append_i16-each (v / 2 ^ 16 % 2 ^ 16)) c
    ∙ ap (λ bs. append_each bs c) (le_bytes-split v)

le_bytes-split8 :
    (v : ℕ) → (le_bytes 4 (v % 2 ^ 32) ++ le_bytes 4 (v / 2 ^ 32 % 2 ^ 32) ≡ le_bytes 8 v)
le_bytes-split8 v = ground arith

append_i64-each : (v : ℕ) (c : Ctx) → append_i64 v c ≡ append_each (le_bytes 8 v) c
unfolding append_i64
append_i64-each v c =
    both (append_i32 (v % 2 ^ 32)) (append_i32 (v / 2 ^ 32 % 2 ^ 32)) (le_bytes 4 (v % 2 ^ 32))
      (le_bytes 4 (v / 2 ^ 32 % 2 ^ 32)) (append_i32-each (v % 2 ^ 32))
      (append_i32-each (v / 2 ^ 32 % 2 ^ 32)) c
    ∙ ap (λ bs. append_each bs c) (le_bytes-split8 v)

-- The string field: eight bytes, cut or filled up with zeros.
abbrev pub str_field : List ℕ → ℕ → List ℕ
str_field s n = take (min send_str_len n) s ++ replicate (send_str_len - min send_str_len n) 0

append_chars-each :
    (val : List ℕ) (k i : ℕ) (c : Ctx)
    → i + k ≤ length val
    → append_chars val k i c ≡ append_each (take k (drop i val)) c
unfolding append_chars append_each
append_chars-each val zero i c h = refl
append_chars-each val (suc k) i c h = rw (take-drop i val k 0 (omega arith)) (
    ap
      (λ rest.
        if (append_i8 (get_or val i 0) c).0
        then rest
        else (false, (append_i8 (get_or val i 0) c).1))
      (append_chars-each val k (i + 1) (append_i8 (get_or val i 0) c).1 (omega arith)))

append_zeros-each : (k : ℕ) (c : Ctx) → append_zeros k c ≡ append_each (replicate k 0) c
unfolding append_zeros append_each
append_zeros-each zero c = refl
append_zeros-each (suc k) c =
    ap (λ rest. if (append_i8 0 c).0 then rest else (false, (append_i8 0 c).1))
      (append_zeros-each k (append_i8 0 c).1)

append_str-each :
    (s : List ℕ) (n : ℕ) (c : Ctx) → n ≤ length s → append_str s n c ≡ append_each (str_field s n) c
unfolding append_str
append_str-each s n c h =
    let e : (if ltb send_str_len n then send_str_len else n) ≡ min send_str_len n = ground arith in
    rw e (
      both (append_chars s (min send_str_len n) 0)
        (append_zeros (send_str_len - min send_str_len n)) (take (min send_str_len n) s)
        (replicate (send_str_len - min send_str_len n) 0)
        (λ d. append_chars-each s (min send_str_len n) 0 d (omega arith))
        (append_zeros-each (send_str_len - min send_str_len n)) c)

-- The bytes of a typed value: the type code, then the value's word, the lowest byte first.
unfoldable pub width : SendType → ℕ
width uint8 = 1
width int8 = 1
width uint16 = 2
width int16 = 2
width uint32 = 4
width int32 = 4
width uint64 = 8
width int64 = 8
width float = 4
width str = 8

unfoldable pub int_bytes : ℤ → List ℕ
unfolding width
int_bytes v =
    code (compressed_type v)
    ∷ le_bytes (width (compressed_type v)) (word (2 ^ (8 * width (compressed_type v))) v)

unfoldable pub float_bytes : ℤ → List ℕ
float_bytes v = code float ∷ le_bytes 4 (word (2 ^ 32) v)

unfoldable pub str_bytes : List ℕ → List ℕ
str_bytes s = code str ∷ str_field s (strnlen s value_str_len)

-- The types that a compressed integer can have.
unfoldable pub is_int : SendType → Bool
is_int float = false
is_int str = false
is_int _ = true

word-byte : (v : ℤ) → word (2 ^ 8) v ≡ word (2 ^ 8) v % 256
word-byte (pos n) = omega arith
word-byte (negsuc n) = omega arith

byte-each :
    (v : ℤ) (c : Ctx) → append_i8 (word (2 ^ 8) v) c ≡ append_each (le_bytes 1 (word (2 ^ 8) v)) c
byte-each v c =
    sym (append_each_one (word (2 ^ 8) v) c) ∙ ap (λ n. append_each (n ∷ []) c) (word-byte v)

append_as_int :
    (t : SendType) (v : ℤ) (c : Ctx)
    → is_int t ≡ true
    → append_as t v c ≡ append_each (le_bytes (width t) (word (2 ^ (8 * width t)) v)) c
unfolding append_as width is_int
append_as_int uint8 v c h = byte-each v c
append_as_int int8 v c h = byte-each v c
append_as_int uint16 v c h = append_i16-each (word (2 ^ 16) v) c
append_as_int int16 v c h = append_i16-each (word (2 ^ 16) v) c
append_as_int uint32 v c h = append_i32-each (word (2 ^ 32) v) c
append_as_int int32 v c h = append_i32-each (word (2 ^ 32) v) c
append_as_int uint64 v c h = append_i64-each (word (2 ^ 64) v) c
append_as_int int64 v c h = append_i64-each (word (2 ^ 64) v) c
append_as_int float v c h = cc
append_as_int str v c h = cc

pub compressed_type-is_int : (v : ℤ) → is_int (compressed_type v) ≡ true
unfolding compressed_type is_int
compressed_type-is_int v = ground arith

append_as-each :
    (v : ℤ) (c : Ctx)
    → append_as (compressed_type v) v c
      ≡ append_each
          (le_bytes (width (compressed_type v)) (word (2 ^ (8 * width (compressed_type v))) v))
          c
append_as-each v c = append_as_int (compressed_type v) v c (compressed_type-is_int v)

-- `_protocol_append_data_type_i64` appends the bytes of the value, all or as many as fit.
pub append_data_type_i64-each :
    (v : ℤ) (c : Ctx) → append_data_type_i64 v c ≡ append_each (int_bytes v) c
unfolding append_data_type_i64 int_bytes
append_data_type_i64-each v c =
    both (append_i8 (code (compressed_type v))) (append_as (compressed_type v) v)
      (code (compressed_type v) ∷ [])
      (le_bytes (width (compressed_type v)) (word (2 ^ (8 * width (compressed_type v))) v))
      (λ d. sym (append_each_one (code (compressed_type v)) d)) (append_as-each v) c

pub append_data_type_float-each :
    (v : ℤ) (c : Ctx) → append_data_type_float v c ≡ append_each (float_bytes v) c
unfolding append_data_type_float append_float float_bytes
append_data_type_float-each v c =
    both (append_i8 (code float)) (append_i32 (word (2 ^ 32) v)) (code float ∷ [])
      (le_bytes 4 (word (2 ^ 32) v)) (λ d. sym (append_each_one (code float) d))
      (append_i32-each (word (2 ^ 32) v)) c

pub append_data_type_str-each :
    (s : List ℕ) (c : Ctx) → append_data_type_str s c ≡ append_each (str_bytes s) c
unfolding append_data_type_str str_bytes
append_data_type_str-each s c =
    both (append_i8 (code str)) (append_str s (strnlen s value_str_len)) (code str ∷ [])
      (str_field s (strnlen s value_str_len)) (λ d. sym (append_each_one (code str) d))
      (λ d. append_str-each s (strnlen s value_str_len) d (strnlen-le s value_str_len)) c
