-- ===== src/Common/Decimal.antt =====
-- osm_ilog10, which rests on osm_nlz.
use osm_firmware_v.Base.{
  ℕ, zero, suc, ◌+◌, ◌*◌, ◌/◌, ◌^◌, ◌≤◌, ◌<◌, ◌≡◌, Bool-cases, ltb→lt, ltb→le, sym, subst, inl, inr,
  ◌⊎◌, ltb, get_or, arith,
}
use osm_firmware_v.Base.Words.{add32, sub32, mul32}
use osm_firmware_v.Common.{sar, nlz, ilog10, table2}
use osm_firmware_v.Common.Logarithm.{nlz_lem}

-- The body of osm_ilog10, with the count of zeros given.
abbrev ilog10_at : ℕ → ℕ → ℕ
ilog10_at n x =
    let y = sar (mul32 19 (sub32 31 n)) 6 in
    add32 y (sub32 (get_or table2 (add32 y 1) 0) x / 2 ^ 31)

abbrev pub IsLog10 : ℕ → ℕ → Type 0
IsLog10 x y = (10 ^ y ≤ x) × (x < 10 ^ (y + 1))

-- A count of zeros for which the estimate and the table give the logarithm.
Row : ℕ → Type 0
Row n = (x : ℕ) → 2 ^ 31 ≤ x * 2 ^ n → x * 2 ^ n < 2 ^ 32 → IsLog10 x (ilog10_at n x)

-- A count for which a power of ten lies among the words with it: the table decides.
split :
    (n a t : ℕ)
    → ((x : ℕ)
        → 2 ^ 31 ≤ x * 2 ^ n
        → x * 2 ^ n < 2 ^ 32
        → x ≤ t
        → (ilog10_at n x ≡ a) × IsLog10 x a)
    → ((x : ℕ)
        → 2 ^ 31 ≤ x * 2 ^ n
        → x * 2 ^ n < 2 ^ 32
        → t < x
        → (ilog10_at n x ≡ a + 1) × IsLog10 x (a + 1))
    → Row n
unfolding Row
split n a t low high x h k = elim (Bool-cases (ltb t x)) [
  | inl e ↦ let (at, is) = high x h k (ltb→lt _ _ e) in subst (IsLog10 x) (sym at) is
  | inr e ↦ let (at, is) = low x h k (ltb→le _ _ e) in subst (IsLog10 x) (sym at) is
]

infixr 5 ◌◂◌
data Rows : ℕ → Type 0 where
  no_more : Rows zero
  ◌◂◌ : {n : ℕ} → Row n → Rows n → Rows (suc n)

-- There are 32 counts to try.
rows : Rows 32
unfolding Row
rows =
    (λ x h k. ground arith)
    ◂ (λ x h k. ground arith)
    ◂ (λ x h k. ground arith)
    ◂ split 28 0 9 (λ x h k l. (ground arith, ground arith))
        (λ x h k l. (ground arith, ground arith))
    ◂ (λ x h k. ground arith)
    ◂ (λ x h k. ground arith)
    ◂ split 25 1 99 (λ x h k l. (ground arith, ground arith))
        (λ x h k l. (ground arith, ground arith))
    ◂ (λ x h k. ground arith)
    ◂ (λ x h k. ground arith)
    ◂ split 22 2 999 (λ x h k l. (ground arith, ground arith))
        (λ x h k l. (ground arith, ground arith))
    ◂ (λ x h k. ground arith)
    ◂ (λ x h k. ground arith)
    ◂ (λ x h k. ground arith)
    ◂ split 18 3 9999 (λ x h k l. (ground arith, ground arith))
        (λ x h k l. (ground arith, ground arith))
    ◂ (λ x h k. ground arith)
    ◂ (λ x h k. ground arith)
    ◂ split 15 4 99999 (λ x h k l. (ground arith, ground arith))
        (λ x h k l. (ground arith, ground arith))
    ◂ (λ x h k. ground arith)
    ◂ (λ x h k. ground arith)
    ◂ split 12 5 999999 (λ x h k l. (ground arith, ground arith))
        (λ x h k l. (ground arith, ground arith))
    ◂ (λ x h k. ground arith)
    ◂ (λ x h k. ground arith)
    ◂ (λ x h k. ground arith)
    ◂ split 8 6 9999999 (λ x h k l. (ground arith, ground arith))
        (λ x h k l. (ground arith, ground arith))
    ◂ (λ x h k. ground arith)
    ◂ (λ x h k. ground arith)
    ◂ split 5 7 99999999 (λ x h k l. (ground arith, ground arith))
        (λ x h k l. (ground arith, ground arith))
    ◂ (λ x h k. ground arith)
    ◂ (λ x h k. ground arith)
    ◂ split 2 8 999999999 (λ x h k l. (ground arith, ground arith))
        (λ x h k l. (ground arith, ground arith))
    ◂ (λ x h k. ground arith)
    ◂ (λ x h k. ground arith)
    ◂ no_more

below_cases : (n m : ℕ) → n < suc m → (n ≡ m) ⊎ (n < m)
below_cases n m h = ground arith

Row-of : (m n : ℕ) → n < m → Rows m → Row n
Row-of zero n h no_more = absurd (omega arith)
Row-of (suc m) n h (r ◂ rs) = elim (below_cases n m h) [
  | inl e ↦ subst Row (sym e) r
  | inr less ↦ Row-of m n less rs
]

-- For a word x that is not 0, osm_ilog10 returns the y with 10^y <= x < 10^(y+1).
pub ilog10_lem : (x : ℕ) → 0 < x → x < 2 ^ 32 → IsLog10 x (ilog10 x)
unfolding ilog10 Row
ilog10_lem x h k = let (low, high, few) = nlz_lem x h k in Row-of 32 (nlz x) few rows x low high
