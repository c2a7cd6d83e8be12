-- ===== src/Common/Overflow.antt =====
-- The checked 64-bit sum and product, and the absolute value.
use native.Mathlib.Nat.{mul-le-mul_right, le-div_iff_mul-le}
use osm_firmware_v.Base.{
  ℕ, ◌+◌, ◌-◌, ◌*◌, ◌/◌, ◌^◌, ◌≤◌, ◌<◌, ◌≡◌, arith, ltb, leb, if◌then◌else◌, true, false, some, inl,
  inr, Bool-cases,
}
use osm_firmware_v.Common.{u64_multiply_overflow_check, u64_addition_overflow_check}

-- For 64-bit words osm_u64_addition_overflow_check stores the exact sum and returns true if it is
-- below 2^64 - 1; else it returns false and stores nothing.
pub addition_lem :
    (result a b : ℕ)
    → a < 2 ^ 64
    → b < 2 ^ 64
    → u64_addition_overflow_check result a b
      ≡ (if ltb (a + b) (2 ^ 64 - 1) then (true, a + b) else (false, result))
unfolding u64_addition_overflow_check
addition_lem result a b h k = ground arith

product_small : (a b : ℕ) → a * b ≤ (a + 1) * b
product_small a b = mul-le-mul_right b (omega arith)

-- For 64-bit words, the second not 0, osm_u64_multiply_overflow_check stores the exact product
-- and returns true if (arg_1 + 1) * arg_2 is below 2^64; else it returns false and stores
-- nothing.
pub multiplication_lem :
    (result a b : ℕ)
    → a < 2 ^ 64
    → 0 < b
    → b < 2 ^ 64
    → u64_multiply_overflow_check result a b
      ≡ some (if ltb ((a + 1) * b) (2 ^ 64) then (true, a * b) else (false, result))
unfolding u64_multiply_overflow_check
multiplication_lem result a b h p k =
    let (fits, exact) = le-div_iff_mul-le {k = b} {x = a + 1} {y = 2 ^ 64 - 1} p in
    elim (Bool-cases (leb ((2 ^ 64 - 1) / b) a)) [
      | inl e ↦ ground (arith, exact)
      | inr e ↦ ground (arith, fits, product_small a b)
    ]
