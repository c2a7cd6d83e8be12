-- ===== src/Common.antt =====
-- core/common.c: time differences, logarithms, overflow checks, string tests and the loop that waits.
-- A `uint32_t` or `int32_t` is its word below 2 ^ 32, with the wrap-around written out.
pub mod Time
pub mod Logarithm
pub mod Decimal
pub mod Overflow
pub mod Strings
pub mod Wait
mod Tests
use osm_firmware_v.Base.{
  ℕ, zero, suc, ◌+◌, ◌-◌, ◌*◌, ◌/◌, ◌%◌, ◌^◌, Bool, true, false, not, ◌&&◌, ◌||◌, List, [], ◌∷◌,
  Option, none, some, ltb, leb, ◌==◌, if◌then◌else◌, get_or, bit_and,
}
use osm_firmware_v.Base.Strings.{strlen, strnlen, same_chars}
use osm_firmware_v.Base.Ints.{ℤ, pos, negsuc}
use osm_firmware_v.Base.Words.{add32, sub32, mul32}

-- osm_since_boot_delta
unfoldable pub since_boot_delta : ℕ → ℕ → ℕ
since_boot_delta newer older =
    if ltb newer older then add32 (sub32 0xFFFF_FFFF older) newer else sub32 newer older

-- `>>` on an `int32_t`: the sign is carried down.
abbrev pub sar : ℕ → ℕ → ℕ
sar y k = y / 2 ^ k + (if ltb y (2 ^ 31) then 0 else 2 ^ 32 - 2 ^ 32 / 2 ^ k)

abbrev pub shl32 : ℕ → ℕ → ℕ
shl32 x k = x * 2 ^ k % 2 ^ 32

-- The first step of osm_nlz: `m`, `n` and what is left of `x`.
unfoldable pub nlz_first : ℕ → ℕ
nlz_first x = bit_and (sar (sub32 0 (x / 2 ^ 16)) 16) 16

-- The next three: `y = x - bound; m = (y >> 16) & mask`.
unfoldable pub nlz_mask : ℕ → ℕ → ℕ → ℕ
nlz_mask bound mask x = bit_and (sar (sub32 x bound) 16) mask

-- The last: `y = x >> 14; m = y & ~(y >> 1)`.
unfoldable pub nlz_last : ℕ → ℕ
nlz_last x = let y = x / 2 ^ 14 in bit_and y (2 ^ 32 - 1 - sar y 1)

-- osm_nlz, the leading zeros of a word. No sum of `n` wraps below 2 ^ 31.
unfoldable pub nlz : ℕ → ℕ
nlz x =
    let m1 = nlz_first x in
    let x1 = x / 2 ^ m1 in
    let m2 = nlz_mask 0x100 8 x1 in
    let x2 = shl32 x1 m2 in
    let m3 = nlz_mask 0x1000 4 x2 in
    let x3 = shl32 x2 m3 in
    let m4 = nlz_mask 0x4000 2 x3 in
    let x4 = shl32 x3 m4 in 16 - m1 + m2 + m3 + m4 + 2 - nlz_last x4

abbrev pub table2 : List ℕ
table2 =
    0 ∷ 9 ∷ 99 ∷ 999 ∷ 9999 ∷ 99999 ∷ 999999 ∷ 9999999 ∷ 99999999 ∷ 999999999 ∷ 0xFFFF_FFFF ∷ []

-- osm_ilog10: the estimate, then one more if the table says so (`>> 31` of an unsigned word is its
-- highest bit, and `y +` it wraps in the type of `y`).
unfoldable pub ilog10 : ℕ → ℕ
ilog10 x =
    let y = sar (mul32 19 (sub32 31 (nlz x))) 6 in
    add32 y (sub32 (get_or table2 (add32 y 1) 0) x / 2 ^ 31)

-- osm_abs_i64; `-val` of the least value overflows, which is undefined, so no result.
unfoldable pub abs_i64 : ℤ → Option ℕ
abs_i64 (pos n) = some n
abs_i64 (negsuc n) = if n == 2 ^ 63 - 1 then none else some (suc n)

-- osm_u64_multiply_overflow_check: what it returns and what `*result` then is. A division by zero
-- is undefined, so no result.
unfoldable pub u64_multiply_overflow_check : ℕ → ℕ → ℕ → Option (Bool × ℕ)
u64_multiply_overflow_check result arg_1 arg_2 =
    if arg_2 == 0
    then none
    else (if leb ((2 ^ 64 - 1) / arg_2) arg_1
        then some (false, result)
        else some (true, arg_1 * arg_2 % 2 ^ 64))

-- osm_u64_addition_overflow_check
unfoldable pub u64_addition_overflow_check : ℕ → ℕ → ℕ → Bool × ℕ
u64_addition_overflow_check result arg_1 arg_2 =
    if leb (2 ^ 64 - 1 - arg_2) arg_1 then (false, result) else (true, (arg_1 + arg_2) % 2 ^ 64)

-- osm_msg_is
unfoldable pub msg_is : List ℕ → List ℕ → Bool
msg_is ref message = same_chars message ref (strlen ref)

-- osm_is_str
unfoldable pub is_str : List ℕ → List ℕ → ℕ → Bool
is_str ref cmp cmplen = (strlen ref == cmplen) && same_chars ref cmp (strlen ref)

-- The loop of osm_str_is_valid_ascii from `i`, `k` characters.
unfoldable pub ascii_from : List ℕ → ℕ → ℕ → Bool
ascii_from str i zero = true
ascii_from str i (suc k) =
    let rest = ascii_from str (i + 1) k in if not (ltb (get_or str i 0) 128) then false else rest

-- osm_str_is_valid_ascii
unfoldable pub str_is_valid_ascii : List ℕ → ℕ → Bool → Bool
str_is_valid_ascii str max_len required =
    let len = strnlen str max_len in if required && len == 0 then false else ascii_from str 0 len
