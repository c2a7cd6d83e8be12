-- ===== src/Base/Ints.antt =====
-- Signed integers over the native numbers, with the order and the arithmetic that the code uses.
use Prim.Native.Nat.{ℕ, ◌+◌, ◌-◌, ◌/◌, ◌%◌, ◌≤◌, ◌<◌, suc}
use mathlib.Core.Bool.{Bool}
use osm_firmware_v.Base.Tests.{ltb, leb, if◌then◌else◌}

-- `negsuc n` is -(n + 1).
pub data ℤ : Type 0 where
  pos : ℕ → ℤ
  negsuc : ℕ → ℤ

-- The parts of `a` = plus a - minus a, one of them 0.
abbrev pub plus : ℤ → ℕ
plus (pos n) = n
plus (negsuc n) = 0

abbrev pub minus : ℤ → ℕ
minus (pos n) = 0
minus (negsuc n) = suc n

abbrev pub sub_ℕ : ℕ → ℕ → ℤ
sub_ℕ a b = if leb b a then pos (a - b) else negsuc (b - a - 1)

infixl 65 ◌+ℤ◌
infix 50 ◌≤ℤ◌ ◌<ℤ◌
unfoldable pub ◌+ℤ◌ : ℤ → ℤ → ℤ
a +ℤ b = sub_ℕ (plus a + plus b) (minus a + minus b)

abbrev pub ◌≤ℤ◌ : ℤ → ℤ → Type 0
a ≤ℤ b = plus a + minus b ≤ plus b + minus a

abbrev pub ◌<ℤ◌ : ℤ → ℤ → Type 0
a <ℤ b = plus a + minus b < plus b + minus a

-- The comparison `a < b` of two signed values as a test.
abbrev pub ltbℤ : ℤ → ℤ → Bool
ltbℤ a b = ltb (plus a + minus b) (plus b + minus a)

-- The two's complement word of width `m = 2 ^ w` that holds a value.
abbrev pub word : ℕ → ℤ → ℕ
word m (pos n) = n % m
word m (negsuc n) = m - 1 - n % m

-- The value that a two's complement word below `m` stands for.
abbrev pub signed : ℕ → ℕ → ℤ
signed m w = if ltb w (m / 2) then pos w else negsuc (m - 1 - w)
