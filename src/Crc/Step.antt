-- ===== src/Crc/Step.antt =====
-- One byte of the checksum `osm_modbus_crc` of core/common.c.
use native.Mathlib.Nat.{pow-succ', mul_assoc}
use osm_firmware_v.Base.{
  ℕ, zero, suc, ◌+◌, ◌*◌, ◌/◌, ◌%◌, ◌^◌, ◌<◌, ◌≡◌, ap, sym, ◌∙◌, inl, inr, ◌⊎◌, arith, bit_xor,
}
use osm_firmware_v.Base.Bits.{
  bit_xor_self, bit_xor-lt, bit_xor-above, bit_xor_cancel, bit_xor_comm, bit_and-mask,
}
use osm_firmware_v.Crc.{shift, shifts, feed}

-- A round by the lowest digit.
pub shift-even : (c : ℕ) → c % 2 ≡ 0 → shift c ≡ c / 2
unfolding shift
shift-even c h = ground (arith, bit_and-mask 0 c)

pub shift-odd : (c : ℕ) → c % 2 ≡ 1 → shift c ≡ bit_xor (c / 2) 0xA001
unfolding shift
shift-odd c h = ground (arith, bit_and-mask 0 c)

-- The polynomial sets the highest digit.
odd_high : (x : ℕ) → x < 2 ^ 15 → bit_xor x 0xA001 ≡ 2 ^ 15 + bit_xor x 0x2001
odd_high x h =
    bit_xor_comm x 0xA001
    ∙ bit_xor-above 15 1 0x2001 x (omega arith) h
    ∙ ap (λ y. 2 ^ 15 + y) (bit_xor_comm 0x2001 x)

parity_cases : (c : ℕ) → (c % 2 ≡ 0) ⊎ (c % 2 ≡ 1)
parity_cases c = ground arith

pub shift-lt : (c : ℕ) → c < 2 ^ 16 → shift c < 2 ^ 16
shift-lt c h = elim (parity_cases c) [
  | inl e ↦ omega (arith, shift-even c e)
  | inr o ↦ omega (arith, shift-odd c o, bit_xor-lt 16 (c / 2) 0xA001 (omega arith) (omega arith))
]

-- The highest digit of the result tells the digit that was shifted out.
shift_injective : (c d : ℕ) → c < 2 ^ 16 → d < 2 ^ 16 → shift c ≡ shift d → c ≡ d
shift_injective c d hc hd e = elim (parity_cases c) [
  | inl ce ↦ elim (parity_cases d) [
    | inl de ↦ omega (arith, shift-even c ce, shift-even d de)
    | inr od ↦
        absurd (omega (arith, shift-even c ce, shift-odd d od, odd_high (d / 2) (omega arith)))
  ]
  | inr co ↦ elim (parity_cases d) [
    | inl de ↦
        absurd (omega (arith, shift-odd c co, shift-even d de, odd_high (c / 2) (omega arith)))
    | inr od ↦ omega (
      arith,
      sym (bit_xor_cancel (c / 2) 0xA001)
          ∙ ap (λ x. bit_xor x 0xA001) (sym (shift-odd c co) ∙ e ∙ shift-odd d od)
          ∙ bit_xor_cancel (d / 2) 0xA001,
    )
  ]
]

pub shifts-lt : (i c : ℕ) → c < 2 ^ 16 → shifts i c < 2 ^ 16
unfolding shifts
shifts-lt zero c h = h
shifts-lt (suc i) c h = shifts-lt i (shift c) (shift-lt c h)

shifts_injective : (i c d : ℕ) → c < 2 ^ 16 → d < 2 ^ 16 → shifts i c ≡ shifts i d → c ≡ d
unfolding shifts
shifts_injective zero c d hc hd e = e
shifts_injective (suc i) c d hc hd e =
    shift_injective c d hc hd
      (shifts_injective i (shift c) (shift d) (shift-lt c hc) (shift-lt d hd) e)

-- Zeros in the low digits are shifted out.
pub shifts-zeros : (i h : ℕ) → shifts i (2 ^ i * h) ≡ h
unfolding shifts
shifts-zeros zero h = omega arith
shifts-zeros (suc i) h =
    let double : 2 ^ suc i * h ≡ 2 * (2 ^ i * h) =
      ap (λ x. x * h) (pow-succ' 2 i) ∙ mul_assoc 2 (2 ^ i) h in
    let half : shift (2 ^ suc i * h) ≡ 2 ^ i * h =
      shift-even (2 ^ suc i * h) (omega (arith, double)) ∙ omega (arith, double) in
    ap (shifts i) half ∙ shifts-zeros i h

pub feed-lt : (c b : ℕ) → c < 2 ^ 16 → b < 2 ^ 8 → feed c b < 2 ^ 16
unfolding feed
feed-lt c b hc hb = shifts-lt 8 (bit_xor c b) (bit_xor-lt 16 c b hc (omega arith))

pub feed_injective_state :
    (c d b : ℕ) → c < 2 ^ 16 → d < 2 ^ 16 → b < 2 ^ 8 → feed c b ≡ feed d b → c ≡ d
unfolding feed
feed_injective_state c d b hc hd hb e =
    sym (bit_xor_cancel c b)
    ∙ ap (λ x. bit_xor x b)
        (shifts_injective 8 (bit_xor c b) (bit_xor d b) (bit_xor-lt 16 c b hc (omega arith))
          (bit_xor-lt 16 d b hd (omega arith)) e)
    ∙ bit_xor_cancel d b

pub feed_injective_byte :
    (c a b : ℕ) → c < 2 ^ 16 → a < 2 ^ 8 → b < 2 ^ 8 → feed c a ≡ feed c b → a ≡ b
unfolding feed
feed_injective_byte c a b hc ha hb e =
    sym (bit_xor_cancel a c)
    ∙ ap (λ x. bit_xor x c)
        (bit_xor_comm a c
          ∙ shifts_injective 8 (bit_xor c a) (bit_xor c b) (bit_xor-lt 16 c a hc (omega arith))
              (bit_xor-lt 16 c b hc (omega arith)) e
          ∙ bit_xor_comm c b)
    ∙ bit_xor_cancel b c

-- The low byte of the checksum itself moves the high byte down.
pub feed-low : (c : ℕ) → feed c (c % 256) ≡ c / 256
unfolding feed
feed-low c =
    let apart : bit_xor c (c % 256) ≡ 256 * (c / 256) =
      ap (λ x. bit_xor x (c % 256)) (omega arith)
      ∙ bit_xor-above 8 (c / 256) (c % 256) (c % 256) (omega arith) (omega arith)
      ∙ omega (arith, bit_xor_self (c % 256)) in
    ap (shifts 8) apart ∙ shifts-zeros 8 (c / 256)

pub feed_self : (c : ℕ) → feed c c ≡ 0
unfolding feed
feed_self c = ap (shifts 8) (bit_xor_self c) ∙ shifts-zeros 8 0
