-- ===== src/Hexblob/Integers.antt =====
-- protocols/hexblob.c: compressed integers, and the receiver that reads them.
use native.Mathlib.Nat.{pow-suc, mod-eq_of_lt}
use osm_firmware_v.Base.{
  ℕ, zero, suc, ◌-◌, ◌*◌, ◌/◌, ◌%◌, ◌^◌, ◌<◌, ◌≡◌, ap, Bool, true, false, List, ◌++◌, some, arith,
  ltb, ltb→lt,
}
use osm_firmware_v.Base.Ints.{ℤ, pos, negsuc, word, signed, ◌≤ℤ◌}
use osm_firmware_v.Hexblob.{
  SendType, uint8, uint16, uint32, uint64, int8, int16, int32, int64, float, str, code,
  compressed_type,
}
use osm_firmware_v.Hexblob.Encode.{le_bytes, width, int_bytes}
use osm_firmware_v.Hexblob.Decode.{get_word, get_unsigned, get_signed, get_typed, get_value, number}

pub get_word-le_bytes :
    (k w : ℕ) (rest : List ℕ) → w < 256 ^ k → get_word k (le_bytes k w ++ rest) ≡ some (w, rest)
unfolding get_word
get_word-le_bytes zero w rest h = let z : 0 ≡ w = omega arith in ap (λ n. some (n, rest)) z
get_word-le_bytes (suc k) w rest h =
    let less : w / 256 < 256 ^ k = omega (arith, pow-suc 256 k) in
    rw (get_word-le_bytes k (w / 256) rest less) (ap (λ n. some (n, rest)) (omega arith))

-- The ranges of an unsigned type of `m` values and of a signed type of `2 * h` values.
abbrev in_unsigned : ℕ → ℤ → Bool
in_unsigned m (pos n) = ltb n m
in_unsigned m (negsuc n) = false

abbrev pub in_signed : ℕ → ℤ → Bool
in_signed h (pos n) = ltb n h
in_signed h (negsuc n) = ltb n h

fits : SendType → ℤ → Bool
fits uint8 v = in_unsigned (2 ^ 8) v
fits uint16 v = in_unsigned (2 ^ 16) v
fits uint32 v = in_unsigned (2 ^ 32) v
fits uint64 v = in_unsigned (2 ^ 64) v
fits int8 v = in_signed (2 ^ 7) v
fits int16 v = in_signed (2 ^ 15) v
fits int32 v = in_signed (2 ^ 31) v
fits int64 v = in_signed (2 ^ 63) v
fits float v = false
fits str v = false

-- The range of `int64_t`.
abbrev pub IsInt64 : ℤ → Type 0
IsInt64 v = (negsuc (2 ^ 63 - 1) ≤ℤ v) × (v ≤ℤ pos (2 ^ 63 - 1))

-- The type that the code chooses has room for the value.
compressed_type-fits : (v : ℤ) → IsInt64 v → fits (compressed_type v) v ≡ true
unfolding compressed_type fits
compressed_type-fits (pos n) h = ground arith
compressed_type-fits (negsuc n) h = ground arith

unsigned_word : (m : ℕ) (v : ℤ) → in_unsigned m v ≡ true → (word m v < m) × (pos (word m v) ≡ v)
unsigned_word m (pos n) h =
    let less : n < m = ltb→lt n m h in (rw (mod-eq_of_lt less) less, ap pos (mod-eq_of_lt less))
unsigned_word m (negsuc n) h = cc

pub signed-word :
    (h : ℕ) (v : ℤ)
    → in_signed h v ≡ true
    → (word (2 * h) v < 2 * h) × (signed (2 * h) (word (2 * h) v) ≡ v)
signed-word h (pos n) e =
    let less : n < h = ltb→lt n h e in
    let same : n % (2 * h) ≡ n = mod-eq_of_lt (omega arith) in rw same (omega arith, ground arith)
signed-word h (negsuc n) e =
    let less : n < h = ltb→lt n h e in
    let same : n % (2 * h) ≡ n = mod-eq_of_lt (omega arith) in rw same (omega arith, ground arith)

get_unsigned-le_bytes :
    (k w : ℕ) (v : ℤ) (rest : List ℕ)
    → (w < 256 ^ k) × (pos w ≡ v)
    → get_unsigned k (le_bytes k w ++ rest) ≡ some (number v, rest)
unfolding get_unsigned
get_unsigned-le_bytes k w v rest (h, e) =
    rw (get_word-le_bytes k w rest h, get_unsigned) (ap (λ x. some (number x, rest)) e)

get_signed-le_bytes :
    (k w : ℕ) (v : ℤ) (rest : List ℕ)
    → (w < 256 ^ k) × (signed (2 ^ (8 * k)) w ≡ v)
    → get_signed k (le_bytes k w ++ rest) ≡ some (number v, rest)
unfolding get_signed
get_signed-le_bytes k w v rest (h, e) =
    rw (get_word-le_bytes k w rest h, get_signed) (ap (λ x. some (number x, rest)) e)

get_typed_int :
    (t : SendType) (v : ℤ) (rest : List ℕ)
    → fits t v ≡ true
    → get_typed (code t) (le_bytes (width t) (word (2 ^ (8 * width t)) v) ++ rest)
      ≡ some (number v, rest)
unfolding get_typed code width fits
get_typed_int uint8 v rest h =
    get_unsigned-le_bytes 1 (word (2 ^ 8) v) v rest (unsigned_word (2 ^ 8) v h)
get_typed_int uint16 v rest h =
    get_unsigned-le_bytes 2 (word (2 ^ 16) v) v rest (unsigned_word (2 ^ 16) v h)
get_typed_int uint32 v rest h =
    get_unsigned-le_bytes 4 (word (2 ^ 32) v) v rest (unsigned_word (2 ^ 32) v h)
get_typed_int uint64 v rest h =
    get_unsigned-le_bytes 8 (word (2 ^ 64) v) v rest (unsigned_word (2 ^ 64) v h)
get_typed_int int8 v rest h =
    get_signed-le_bytes 1 (word (2 ^ 8) v) v rest (signed-word (2 ^ 7) v h)
get_typed_int int16 v rest h =
    get_signed-le_bytes 2 (word (2 ^ 16) v) v rest (signed-word (2 ^ 15) v h)
get_typed_int int32 v rest h =
    get_signed-le_bytes 4 (word (2 ^ 32) v) v rest (signed-word (2 ^ 31) v h)
get_typed_int int64 v rest h =
    get_signed-le_bytes 8 (word (2 ^ 64) v) v rest (signed-word (2 ^ 63) v h)
get_typed_int float v rest h = cc
get_typed_int str v rest h = cc

-- The bytes of a 64-bit integer in the narrowest type that the code chooses for it are read back
-- as that integer, and nothing of what follows is taken.
pub get_value-int_bytes :
    (v : ℤ) (rest : List ℕ) → IsInt64 v → get_value (int_bytes v ++ rest) ≡ some (number v, rest)
unfolding get_value int_bytes
get_value-int_bytes v rest h = get_typed_int (compressed_type v) v rest (compressed_type-fits v h)
