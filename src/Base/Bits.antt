-- ===== src/Base/Bits.antt =====
-- Bit operations at variables: the digit laws that the masks and the CRC need.
use Prim.Native.Nat.{
  ℕ, zero, suc, ◌+◌, ◌*◌, ◌/◌, ◌%◌, ◌^◌, ◌≤◌, ◌<◌, min, bit_and, bit_xor, digits, differ,
  bit_and-bitwise, bit_xor-bitwise,
}
use mathlib.Core.Path.{◌≡◌, refl, ap, sym, ◌∙◌}
use native.Mathlib.Nat.{pow-suc, pow-succ', mul_assoc, div-div-eq-div-mul}
use native.Mathlib.Omega.{arith}

-- The digits of the exclusive or, computed with some fuel.
abbrev xor_digits : ℕ → ℕ → ℕ → ℕ
xor_digits n a b = digits (λ b. b) differ n a b

-- Halving `a` as often as the fuel says leaves nothing: more fuel changes nothing.
xor_digits_enough : (n m a b : ℕ) → a ≤ n → a ≤ m → xor_digits n a b ≡ xor_digits m a b
xor_digits_enough zero zero zero b p q = refl
xor_digits_enough zero (suc m) zero b p q = refl
xor_digits_enough (suc n) zero zero b p q = refl
xor_digits_enough (suc n) (suc m) zero b p q = refl
xor_digits_enough zero m (suc a) b p q = absurd (omega arith)
xor_digits_enough (suc n) zero (suc a) b p q = absurd (omega arith)
xor_digits_enough (suc n) (suc m) (suc a) b p q =
    omega (arith, xor_digits_enough n m (suc a / 2) (b / 2) (omega arith) (omega arith))

zero-bit_xor : (b : ℕ) → bit_xor 0 b ≡ b
zero-bit_xor b = bit_xor-bitwise 0 b

differ_of_digits : (x y : ℕ) → x < 2 → y < 2 → differ x y ≡ (x + y) % 2
differ_of_digits zero y p q = omega arith
differ_of_digits (suc zero) zero p q = refl
differ_of_digits (suc zero) (suc zero) p q = refl
differ_of_digits (suc zero) (suc (suc y)) p q = absurd (omega arith)
differ_of_digits (suc (suc x)) y p q = absurd (omega arith)

digit_cases : (a b : ℕ) → differ (a % 2) (b % 2) ≡ (a + b) % 2
digit_cases a b = omega (arith, differ_of_digits (a % 2) (b % 2) (omega arith) (omega arith))

-- The lowest digit and the others.
pub bit_xor-digit : (a b : ℕ) → bit_xor a b ≡ 2 * bit_xor (a / 2) (b / 2) + (a + b) % 2
bit_xor-digit zero b = omega (arith, zero-bit_xor b, zero-bit_xor (b / 2))
bit_xor-digit (suc a) b = omega (
  arith,
  digit_cases (suc a) b,
  bit_xor-bitwise (suc a) b,
  bit_xor-bitwise (suc a / 2) (b / 2),
  xor_digits_enough a (suc a / 2) (suc a / 2) (b / 2) (omega arith) (omega arith),
)

bit_xor_comm_below : (n a b : ℕ) → a ≤ n → b ≤ n → bit_xor a b ≡ bit_xor b a
bit_xor_comm_below zero zero zero p q = refl
bit_xor_comm_below zero (suc a) b p q = absurd (omega arith)
bit_xor_comm_below zero zero (suc b) p q = absurd (omega arith)
bit_xor_comm_below (suc n) a b p q = omega (
  arith,
  bit_xor-digit a b,
  bit_xor-digit b a,
  bit_xor_comm_below n (a / 2) (b / 2) (omega arith) (omega arith),
)

pub bit_xor_comm : (a b : ℕ) → bit_xor a b ≡ bit_xor b a
bit_xor_comm a b = bit_xor_comm_below (a + b) a b (omega arith) (omega arith)

bit_xor-half : (a b : ℕ) → bit_xor a b / 2 ≡ bit_xor (a / 2) (b / 2)
bit_xor-half a b = omega (arith, bit_xor-digit a b)

bit_xor_cancel_below : (n a b : ℕ) → a ≤ n → b ≤ n → bit_xor (bit_xor a b) b ≡ a
bit_xor_cancel_below zero zero zero p q = refl
bit_xor_cancel_below zero (suc a) b p q = absurd (omega arith)
bit_xor_cancel_below zero zero (suc b) p q = absurd (omega arith)
bit_xor_cancel_below (suc n) a b p q = omega (
  arith,
  bit_xor-digit a b,
  bit_xor-digit (bit_xor a b) b,
  ap (λ x. bit_xor x (b / 2)) (bit_xor-half a b),
  bit_xor_cancel_below n (a / 2) (b / 2) (omega arith) (omega arith),
)

pub bit_xor_cancel : (a b : ℕ) → bit_xor (bit_xor a b) b ≡ a
bit_xor_cancel a b = bit_xor_cancel_below (a + b) a b (omega arith) (omega arith)

pub bit_xor_self : (a : ℕ) → bit_xor a a ≡ 0
bit_xor_self a = ap (λ x. bit_xor x a) (sym (zero-bit_xor a)) ∙ bit_xor_cancel 0 a

-- Below a power of two nothing is carried up.
pub bit_xor-lt : (n a b : ℕ) → a < 2 ^ n → b < 2 ^ n → bit_xor a b < 2 ^ n
bit_xor-lt zero a b p q =
    let z : a ≡ 0 = omega arith in let w : b ≡ 0 = omega arith in rw (z, w) (omega arith)
bit_xor-lt (suc n) a b p q = omega (
  arith,
  bit_xor-digit a b,
  pow-suc 2 n,
  bit_xor-lt n (a / 2) (b / 2) (omega (arith, pow-suc 2 n)) (omega (arith, pow-suc 2 n)),
)

-- The digits above those of a small number stay.
pub bit_xor-above :
    (n h l m : ℕ) → l < 2 ^ n → m < 2 ^ n → bit_xor (2 ^ n * h + l) m ≡ 2 ^ n * h + bit_xor l m
bit_xor-above zero h l m p q =
    let z : l ≡ 0 = omega arith in
    let w : m ≡ 0 = omega arith in
    rw (z, w) (omega (arith, bit_xor_comm (1 * h + 0) 0, zero-bit_xor (1 * h + 0)))
bit_xor-above (suc n) h l m p q =
    let double : 2 ^ suc n * h ≡ 2 * (2 ^ n * h) =
      ap (λ x. x * h) (pow-succ' 2 n) ∙ mul_assoc 2 (2 ^ n) h in
    let half : (2 ^ suc n * h + l) / 2 ≡ 2 ^ n * h + l / 2 = omega (arith, double) in
    omega (
      arith,
      double,
      bit_xor-digit (2 ^ suc n * h + l) m,
      bit_xor-digit l m,
      ap (λ x. bit_xor x (m / 2)) half,
      bit_xor-above n h (l / 2) (m / 2) (omega (arith, pow-suc 2 n)) (omega (arith, pow-suc 2 n)),
    )

-- A mask of one digit.
and_digits_enough :
    (n m a b : ℕ) → a ≤ n → a ≤ m → digits (λ b. zero) min n a b ≡ digits (λ b. zero) min m a b
and_digits_enough zero zero zero b p q = refl
and_digits_enough zero (suc m) zero b p q = refl
and_digits_enough (suc n) zero zero b p q = refl
and_digits_enough (suc n) (suc m) zero b p q = refl
and_digits_enough zero m (suc a) b p q = absurd (omega arith)
and_digits_enough (suc n) zero (suc a) b p q = absurd (omega arith)
and_digits_enough (suc n) (suc m) (suc a) b p q =
    omega (arith, and_digits_enough n m (suc a / 2) (b / 2) (omega arith) (omega arith))

pub zero-bit_and : (b : ℕ) → bit_and 0 b ≡ 0
zero-bit_and b = bit_and-bitwise 0 b

pub bit_and-digit : (a b : ℕ) → bit_and a b ≡ 2 * bit_and (a / 2) (b / 2) + min (a % 2) (b % 2)
bit_and-digit zero b = omega (arith, zero-bit_and b, zero-bit_and (b / 2))
bit_and-digit (suc a) b = omega (
  arith,
  bit_and-bitwise (suc a) b,
  bit_and-bitwise (suc a / 2) (b / 2),
  and_digits_enough a (suc a / 2) (suc a / 2) (b / 2) (omega arith) (omega arith),
)

bit_and-zero_below : (n a : ℕ) → a ≤ n → bit_and a 0 ≡ 0
bit_and-zero_below zero zero h = refl
bit_and-zero_below zero (suc a) h = absurd (omega arith)
bit_and-zero_below (suc n) a h =
    omega (arith, bit_and-digit a 0, bit_and-zero_below n (a / 2) (omega arith))

pub bit_and-zero : (a : ℕ) → bit_and a 0 ≡ 0
bit_and-zero a = bit_and-zero_below a a (omega arith)

pub bit_and-mask : (k a : ℕ) → bit_and a (2 ^ k) ≡ 2 ^ k * (a / 2 ^ k % 2)
bit_and-mask zero a = omega (arith, bit_and-digit a 1, bit_and-zero (a / 2))
bit_and-mask (suc k) a =
    let half : 2 ^ suc k / 2 ≡ 2 ^ k = omega (arith, pow-succ' 2 k) in
    let quot : a / 2 / 2 ^ k ≡ a / 2 ^ suc k =
      div-div-eq-div-mul a 2 (2 ^ k) ∙ ap (λ p. a / p) (sym (pow-succ' 2 k)) in
    let digit : 2 ^ k * (a / 2 / 2 ^ k % 2) ≡ 2 ^ k * (a / 2 ^ suc k % 2) =
      ap (λ x. 2 ^ k * (x % 2)) quot in
    let double : 2 ^ suc k * (a / 2 ^ suc k % 2) ≡ 2 * (2 ^ k * (a / 2 ^ suc k % 2)) =
      ap (λ x. x * (a / 2 ^ suc k % 2)) (pow-succ' 2 k) ∙ mul_assoc 2 (2 ^ k) (a / 2 ^ suc k % 2) in
    omega (
      arith,
      pow-succ' 2 k,
      bit_and-digit a (2 ^ suc k),
      ap (bit_and (a / 2)) half,
      bit_and-mask k (a / 2),
      digit,
      double,
    )
