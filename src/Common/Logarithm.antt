-- ===== src/Common/Logarithm.antt =====
-- osm_nlz of core/common.c.
use native.Mathlib.Nat.{
  pow-suc, pow-succ', mul_assoc, mul_comm, mod-eq_of_lt, mul-lt-mul_of_pos_right, mul-le-mul_right,
  lt_of_mul-lt-mul_right,
}
use osm_firmware_v.Base.{
  ℕ, zero, suc, ◌+◌, ◌-◌, ◌*◌, ◌/◌, ◌^◌, ◌≤◌, ◌<◌, ◌≡◌, refl, ap, sym, ◌∙◌, inl, inr, ◌⊎◌, ltb,
  bit_and, arith, Bool-cases, ltb→lt, ltb→le,
}
use osm_firmware_v.Base.Bits.{zero-bit_and}
use osm_firmware_v.Base.Words.{sub32}
use osm_firmware_v.Common.{sar, shl32, nlz_first, nlz_mask, nlz_last, nlz}

sar_minus_one : (y : ℕ) → 2 ^ 32 - 2 ^ 16 ≤ y → y < 2 ^ 32 → sar y 16 ≡ 2 ^ 32 - 1
sar_minus_one y h k = ground arith

sar_zero : (y : ℕ) → y < 2 ^ 16 → sar y 16 ≡ 0
sar_zero y h = ground arith

nlz_first-small : (x : ℕ) → x < 2 ^ 16 → nlz_first x ≡ 0
unfolding nlz_first
nlz_first-small x h = ap (λ y. bit_and y 16) (sar_zero (sub32 0 (x / 2 ^ 16)) (omega arith))

nlz_first-large : (x : ℕ) → 2 ^ 16 ≤ x → x < 2 ^ 32 → nlz_first x ≡ 16
unfolding nlz_first
nlz_first-large x h k =
    ap (λ y. bit_and y 16) (sar_minus_one (sub32 0 (x / 2 ^ 16)) (omega arith) (omega arith))

-- The three middle steps are alike: the mask is kept if the word is below the bound.
nlz_mask-below :
    (bound mask x : ℕ)
    → bound ≤ 2 ^ 16
    → x < bound
    → nlz_mask bound mask x ≡ bit_and (2 ^ 32 - 1) mask
unfolding nlz_mask
nlz_mask-below bound mask x hb h =
    ap (λ y. bit_and y mask) (sar_minus_one (sub32 x bound) (omega arith) (omega arith))

nlz_mask-above : (bound mask x : ℕ) → bound ≤ x → x < 2 ^ 16 → nlz_mask bound mask x ≡ 0
unfolding nlz_mask
nlz_mask-above bound mask x h k =
    ap (λ y. bit_and y mask) (sar_zero (sub32 x bound) (omega arith)) ∙ zero-bit_and mask

nlz_last-one : (x : ℕ) → 2 ^ 14 ≤ x → x < 2 ^ 15 → nlz_last x ≡ 1
unfolding nlz_last
nlz_last-one x h k = let e : x / 2 ^ 14 ≡ 1 = omega arith in rw e refl

last_cases : (y : ℕ) → 2 ≤ y → y < 4 → (y ≡ 2) ⊎ (y ≡ 3)
last_cases y h k = ground arith

nlz_last-two : (x : ℕ) → 2 ^ 15 ≤ x → x < 2 ^ 16 → nlz_last x ≡ 2
unfolding nlz_last
nlz_last-two x h k = elim (last_cases (x / 2 ^ 14) (omega arith) (omega arith)) [
  | inl e ↦ rw e refl
  | inr e ↦ rw e refl
]

-- For a word from `lo` on, below 2 ^ 16, `g` adds to `n` the shift that brings the word's highest
-- digit to the sixteenth place, and this is less than `top`.
abbrev Leading : ℕ → ℕ → (ℕ → ℕ → ℕ) → Type 0
Leading lo top g =
    (n x : ℕ)
    → lo ≤ x
    → x < 2 ^ 16
    → (k : ℕ) × (g n x ≡ n + k) × (2 ^ 15 ≤ x * 2 ^ k) × (x * 2 ^ k < 2 ^ 16) × (k < top)

last_step : ℕ → ℕ → ℕ
last_step n x = n + 2 - nlz_last x

last_step-Leading : Leading (2 ^ 14) 2 last_step
unfolding last_step
last_step-Leading n x h k = elim (Bool-cases (ltb x (2 ^ 15))) [
  | inl e ↦ (
    1,
    omega (arith, nlz_last-one x h (ltb→lt _ _ e)),
    omega (arith, ltb→lt _ _ e),
    omega (arith, ltb→lt _ _ e),
    omega arith,
  )
  | inr e ↦ (
    0,
    omega (arith, nlz_last-two x (ltb→le _ _ e) k),
    omega (arith, ltb→le _ _ e),
    omega arith,
    omega arith,
  )
]

-- One of the middle steps, and those behind it.
before : ℕ → ℕ → (ℕ → ℕ → ℕ) → ℕ → ℕ → ℕ
before bound s g n x = g (n + nlz_mask bound s x) (shl32 x (nlz_mask bound s x))

two_pow_pos : (s : ℕ) → 0 < 2 ^ s
two_pow_pos zero = omega arith
two_pow_pos (suc s) = omega (arith, pow-suc 2 s, two_pow_pos s)

two_pow_add : (s k : ℕ) → 2 ^ (s + k) ≡ 2 ^ s * 2 ^ k
two_pow_add zero k = let e : 0 + k ≡ k = omega arith in ap (λ n. 2 ^ n) e ∙ omega arith
two_pow_add (suc s) k =
    let e : suc s + k ≡ suc (s + k) = omega arith in
    ap (λ n. 2 ^ n) e
    ∙ pow-succ' 2 (s + k)
    ∙ ap (λ p. 2 * p) (two_pow_add s k)
    ∙ sym (mul_assoc 2 (2 ^ s) (2 ^ k))
    ∙ ap (λ p. p * 2 ^ k) (sym (pow-succ' 2 s))

shifted_twice : (x s k : ℕ) → x * 2 ^ s * 2 ^ k ≡ x * 2 ^ (s + k)
shifted_twice x s k = mul_assoc x (2 ^ s) (2 ^ k) ∙ ap (λ p. x * p) (sym (two_pow_add s k))

before-Leading :
    (lo bound s top : ℕ) (g : ℕ → ℕ → ℕ)
    → Leading bound top g
    → bit_and (2 ^ 32 - 1) s ≡ s
    → bound ≤ lo * 2 ^ s
    → bound * 2 ^ s ≡ 2 ^ 16
    → bound ≤ 2 ^ 16
    → Leading lo (s + top) (before bound s g)
unfolding before
before-Leading lo bound s top g good mask up full small n x h k = elim (Bool-cases (ltb x bound)) [
  | inl e ↦
      let m : nlz_mask bound s x ≡ s = nlz_mask-below bound s x small (ltb→lt _ _ e) ∙ mask in
      let less : x * 2 ^ s < 2 ^ 16 =
        omega (arith, full, mul-lt-mul_of_pos_right (ltb→lt _ _ e) (two_pow_pos s)) in
      let shifted : shl32 x s ≡ x * 2 ^ s = mod-eq_of_lt (omega (arith, less)) in
      let enough : bound ≤ x * 2 ^ s = omega (arith, up, mul-le-mul_right (2 ^ s) h) in
      let (j, at, low, high, t) = good (n + s) (x * 2 ^ s) enough less in
      rw (m, shifted)
        (
          s + j,
          omega (arith, at),
          omega (arith, low, shifted_twice x s j),
          omega (arith, high, shifted_twice x s j),
          omega (arith, t),
        )
  | inr e ↦
      let m : nlz_mask bound s x ≡ 0 = nlz_mask-above bound s x (ltb→le _ _ e) k in
      let same : shl32 x 0 ≡ x = omega arith in
      let (j, at, low, high, t) = good (n + 0) x (ltb→le _ _ e) k in
      rw (m, same) (j, omega (arith, at), low, high, omega (arith, t))
]

-- osm_nlz behind its first step.
low_half : ℕ → ℕ → ℕ
low_half = before 0x100 8 (before 0x1000 4 (before 0x4000 2 last_step))

low_half-Leading : Leading 1 16 low_half
unfolding low_half
low_half-Leading =
    before-Leading 1 0x100 8 8 (before 0x1000 4 (before 0x4000 2 last_step))
      (before-Leading 0x100 0x1000 4 4 (before 0x4000 2 last_step)
        (before-Leading 0x1000 0x4000 2 2 last_step last_step-Leading refl (omega arith) refl
          (omega arith))
        refl (omega arith) refl (omega arith))
      refl (omega arith) refl (omega arith)

nlz-low_half : (x : ℕ) → nlz x ≡ low_half (16 - nlz_first x) (x / 2 ^ nlz_first x)
unfolding nlz low_half before last_step
nlz-low_half x = refl

large_bounds :
    (x k : ℕ)
    → k < 16
    → 2 ^ 15 ≤ x / 2 ^ 16 * 2 ^ k
    → x / 2 ^ 16 * 2 ^ k < 2 ^ 16
    → (2 ^ 31 ≤ x * 2 ^ k) × (x * 2 ^ k < 2 ^ 32)
large_bounds x k small low high =
    let sixteen : 16 - k + k ≡ 16 = omega arith in
    let whole : 2 ^ (16 - k) * 2 ^ k ≡ 2 ^ 16 =
      sym (two_pow_add (16 - k) k) ∙ ap (λ n. 2 ^ n) sixteen in
    let less : x / 2 ^ 16 < 2 ^ (16 - k) = lt_of_mul-lt-mul_right (2 ^ k) (omega (arith, whole)) in
    let above : x / 2 ^ 16 * 2 ^ 16 * 2 ^ k ≡ 2 ^ 16 * (x / 2 ^ 16 * 2 ^ k) =
      ap (λ p. p * 2 ^ k) (mul_comm (x / 2 ^ 16) (2 ^ 16))
      ∙ mul_assoc (2 ^ 16) (x / 2 ^ 16) (2 ^ k) in
    let below : 2 ^ (16 - k) * 2 ^ 16 * 2 ^ k ≡ 2 ^ 16 * (2 ^ (16 - k) * 2 ^ k) =
      ap (λ p. p * 2 ^ k) (mul_comm (2 ^ (16 - k)) (2 ^ 16))
      ∙ mul_assoc (2 ^ 16) (2 ^ (16 - k)) (2 ^ k) in
    let x_lt : x < 2 ^ (16 - k) * 2 ^ 16 = omega (arith, less) in
    (
      omega
          (arith, above, mul-le-mul_right {m = x / 2 ^ 16 * 2 ^ 16} {n = x} (2 ^ k) (omega arith)),
      omega (arith, below, whole, mul-lt-mul_of_pos_right x_lt (two_pow_pos k)),
    )

-- For a word x that is not 0, osm_nlz returns an n below 32 with 2^31 <= x * 2^n < 2^32: the
-- count of its leading zeros.
pub nlz_lem :
    (x : ℕ)
    → 0 < x
    → x < 2 ^ 32
    → (2 ^ 31 ≤ x * 2 ^ nlz x) × (x * 2 ^ nlz x < 2 ^ 32) × (nlz x < 32)
nlz_lem x h k = elim (Bool-cases (ltb x (2 ^ 16))) [
  | inl e ↦
      let (j, at, low, high, t) = low_half-Leading 16 x h (ltb→lt _ _ e) in
      let whole : x / 2 ^ 0 ≡ x = omega arith in
      let n : nlz x ≡ 16 + j =
        nlz-low_half x
        ∙ ap (λ m. low_half (16 - m) (x / 2 ^ m)) (nlz_first-small x (ltb→lt _ _ e))
        ∙ ap (low_half 16) whole
        ∙ at in
      let pow : x * 2 ^ (16 + j) ≡ 2 ^ 16 * (x * 2 ^ j) =
        sym (shifted_twice x 16 j)
        ∙ ap (λ p. p * 2 ^ j) (mul_comm x (2 ^ 16))
        ∙ mul_assoc (2 ^ 16) x (2 ^ j) in
      rw n (omega (arith, pow, low), omega (arith, pow, high), omega (arith, t))
  | inr e ↦
      let (j, at, low, high, t) =
        low_half-Leading 0 (x / 2 ^ 16) (omega (arith, ltb→le _ _ e)) (omega arith) in
      let n : nlz x ≡ j =
        nlz-low_half x
        ∙ ap (λ m. low_half (16 - m) (x / 2 ^ m)) (nlz_first-large x (ltb→le _ _ e) k)
        ∙ at
        ∙ omega arith in
      let (from, to) = large_bounds x j t low high in rw n (from, to, omega (arith, t))
]
