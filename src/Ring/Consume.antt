-- ===== src/Ring/Consume.antt =====
-- `osm_ring_buf_consume`: the bytes are copied out, offered to a callback, and those it leaves go
-- back. The UARTs drain their rings into the DMA through it.
use native.Mathlib.Nat.{zero-add}
use osm_firmware_v.Base.{
  ℕ, zero, suc, ◌+◌, ◌-◌, ◌≤◌, ◌<◌, ◌≡◌, refl, ap, sym, ◌∙◌, inl, inr, List, [], ◌∷◌, ◌++◌, arith,
  ◌==◌, ltb, if◌then◌else◌, length, length-set, set, take, drop, get_or, min, true, false,
  Bool-cases, ==_iff, ==→ne, ltb→lt, ltb→le, take_least, subst, take-set_at, append_assoc,
  append-nil,
}
use osm_firmware_v.Base.Words.{sub32}
use osm_firmware_v.Ring.{Ring, consume, offer, fill_from, step_back, next}
use osm_firmware_v.Ring.Bounds.{IsValid, step, next-step}
use osm_firmware_v.Ring.Contents.{contents}
use osm_firmware_v.Ring.Read.{popped, popped-IsValid, contents_empty, contents_cons}

abbrev from : Ring → ℕ → Ring
from r p = record r { r_pos = p }

-- The place `k` bytes behind `p`.
advance : Ring → ℕ → ℕ → ℕ
advance r zero p = p
advance r (suc k) p = advance r k (next r p)

-- Among the bytes held, advancing drops from the contents and stays valid.
advance_lem :
    (k p : ℕ) (r : Ring)
    → IsValid (from r p)
    → k ≤ length (contents (from r p))
    → IsValid (from r (advance r k p))
      × (contents (from r (advance r k p)) ≡ drop k (contents (from r p)))
unfolding advance
advance_lem zero p r v h = (v, refl)
advance_lem (suc k) p r v h = elim (Bool-cases (p == r.w_pos)) [
  | inl e ↦ absurd (omega (arith, ap length (contents_empty (from r p) ((==_iff p r.w_pos).0 e))))
  | inr e ↦
      let held = contents_cons (from r p) v (==→ne p r.w_pos e) in
      rw held (advance_lem k (next r p) r (popped-IsValid v) (omega (arith, ap length held)))
]

advance-suc : (k p : ℕ) (r : Ring) → advance r (suc k) p ≡ next r (advance r k p)
unfolding advance
advance-suc zero p r = refl
advance-suc (suc k) p r = advance-suc k (next r p) r

-- Stepping back undoes a step, and so `j` steps back undo the last `j` of `k + j`.
back_one :
    (r : Ring) (p : ℕ)
    → IsValid r
    → p < r.size
    → (if next r p == 0 then sub32 r.size 1 else next r p - 1) ≡ p
unfolding step
back_one r p v h = rw (next-step p v h) (ground arith)

step_back-advance :
    (j k p : ℕ) (r : Ring)
    → IsValid (from r p)
    → k + j ≤ length (contents (from r p))
    → step_back r j (advance r (k + j) p) ≡ advance r k p
unfolding step_back
step_back-advance zero k p r v h = let e : k + 0 ≡ k = omega arith in ap (λ i. advance r i p) e
step_back-advance (suc j) k p r v h =
    let e : k + suc j ≡ suc (k + j) = omega arith in
    let (valid, _) = advance_lem (k + j) p r v (omega arith) in
    ap (λ i. step_back r (suc j) (advance r i p)) e
    ∙ ap (step_back r (suc j)) (advance-suc (k + j) p r)
    ∙ ap (step_back r j) (back_one (from r p) (advance r (k + j) p) v valid.reads_in)
    ∙ step_back-advance j k p r v (omega arith)

-- How many of `k` bytes a queue can give.
taken : ℕ → List ℕ → ℕ
taken zero q = zero
taken (suc k) [] = zero
taken (suc k) (c ∷ q) = suc (taken k q)

taken-min : (k : ℕ) (q : List ℕ) → taken k q ≡ min k (length q)
unfolding taken
taken-min zero q = omega arith
taken-min (suc k) [] = omega arith
taken-min (suc k) (c ∷ q) = omega (arith, taken-min k q)

-- The copying loop takes what is there, `k` bytes at most.
abbrev Filled : Ring → ℕ → ℕ → List ℕ → List ℕ → ℕ → ℕ × List ℕ × ℕ → Type 0
Filled r n p tmp bytes t (m, tmp', p') =
    (m ≡ n + t)
    × (p' ≡ advance r t p)
    × (length tmp' ≡ length tmp)
    × (take (n + t) tmp' ≡ take n tmp ++ bytes)

Filled-none : (r : Ring) (n p : ℕ) (tmp : List ℕ) → Filled r n p tmp [] zero (n, tmp, p)
unfolding advance
Filled-none r n p tmp =
    let e : n + 0 ≡ n = omega arith in
    (sym e, refl, refl, ap (λ i. take i tmp) e ∙ sym (append-nil (take n tmp)))

Filled-more :
    (r : Ring) (n p : ℕ) (tmp bytes : List ℕ) (c t : ℕ) (res : ℕ × List ℕ × ℕ)
    → n < length tmp
    → Filled r (n + 1) (next r p) (set tmp n c) bytes t res
    → Filled r n p tmp (c ∷ bytes) (suc t) res
unfolding advance
Filled-more r n p tmp bytes c t (m, tmp', p') h (count, place, same, stored) =
    let e : n + suc t ≡ n + 1 + t = omega arith in
    let one : n + 1 ≡ suc n = omega arith in
    (
      omega (arith, count),
      place,
      same ∙ length-set tmp n c,
      ap (λ i. take i tmp') e
          ∙ stored
          ∙ ap (λ i. take i (set tmp n c) ++ bytes) one
          ∙ ap (λ xs. xs ++ bytes) (take-set_at n tmp c h)
          ∙ append_assoc (take n tmp) (c ∷ []) bytes,
    )

fill_from-Filled :
    (k n p : ℕ) (r : Ring) (tmp : List ℕ)
    → IsValid (from r p)
    → n + k ≤ length tmp
    → Filled r n p tmp
        (take k (contents (from r p)))
        (taken k (contents (from r p)))
        (fill_from r k n p tmp)
unfolding fill_from taken
fill_from-Filled zero n p r tmp v room = Filled-none r n p tmp
fill_from-Filled (suc k) n p r tmp v room = elim (Bool-cases (p == r.w_pos)) [
  | inl e ↦ rw (e, contents_empty (from r p) ((==_iff p r.w_pos).0 e)) (Filled-none r n p tmp)
  | inr e ↦
      let c : ℕ = get_or r.buf p 0 in
      rw (e, contents_cons (from r p) v (==→ne p r.w_pos e))
        (Filled-more r n p tmp (take k (contents (popped (from r p)))) c
          (taken k (contents (popped (from r p)))) (fill_from r k (n + 1) (next r p) (set tmp n c))
          (omega arith)
          (fill_from-Filled k (n + 1) (next r p) r (set tmp n c) (popped-IsValid v)
            (omega (arith, length-set tmp n c))))
]

-- Where the read position is left: behind what was consumed.
left_at :
    (r : Ring) (n c : ℕ)
    → IsValid r
    → n ≤ length (contents r)
    → (if ltb c n then step_back r (n - c) (advance r n r.r_pos) else advance r n r.r_pos)
      ≡ advance r (min c n) r.r_pos
left_at r n c v h = elim (Bool-cases (ltb c n)) [
  | inl less ↦
      let e : c + (n - c) ≡ n = omega (arith, ltb→lt c n less) in
      let m : min c n ≡ c = omega (arith, ltb→lt c n less) in
      rw (less, m)
        (ap (λ i. step_back r (n - c) (advance r i r.r_pos)) (sym e)
          ∙ step_back-advance (n - c) c r.r_pos r v (omega arith))
  | inr all ↦ let m : min c n ≡ n = omega (arith, ltb→le c n all) in rw (all, m) refl
]

module _ {ℓ} {S : Type ℓ} (cb : List ℕ → ℕ → S → ℕ × S) where
  -- What `osm_ring_buf_consume` promises of a result, when `n` bytes could be copied out; without
  -- any, the callback is not called.
  abbrev pub Consumed : Ring → List ℕ → ℕ → S → ℕ × List ℕ × S × Ring → Type ℓ
  Consumed r tmp n s (count, tmp', s', r') =
      ((count, s') ≡ (if n == 0 then (0, s) else cb tmp' n s))
      × (take n tmp' ≡ take n (contents r))
      × (length tmp' ≡ length tmp)
      × (contents r' ≡ drop (min count n) (contents r))
      × IsValid r'

  offer-none :
      (r : Ring) (tmp : List ℕ) (n : ℕ) (s : S) (res : ℕ × List ℕ × ℕ)
      → IsValid r
      → n ≡ 0
      → Filled r 0 r.r_pos tmp (take n (contents r)) n res
      → Consumed r tmp n s (offer cb r s res)
  unfolding offer
  offer-none r tmp n s (m, tmp', p) v nothing (count, place, same, stored) =
      let e : m ≡ 0 = omega arith in
      let idle : (n == 0) ≡ true = ground arith in
      let none : 0 ≡ min 0 n = omega arith in
      rw (e, idle)
        (
          refl,
          subst (λ i. take i tmp' ≡ take n (contents r)) (zero-add n) stored,
          same,
          ap (λ i. drop i (contents r)) none,
          v,
        )

  offer-some :
      (r : Ring) (tmp : List ℕ) (n : ℕ) (s : S) (res : ℕ × List ℕ × ℕ)
      → IsValid r
      → n ≤ length (contents r)
      → 0 < n
      → Filled r 0 r.r_pos tmp (take n (contents r)) n res
      → Consumed r tmp n s (offer cb r s res)
  unfolding offer
  offer-some r tmp n s (m, tmp', p) v few some_held (count, place, same, stored) =
      let e : m ≡ n = omega arith in
      let busy : (n == 0) ≡ false = ground arith in
      let at : (if ltb (cb tmp' n s).0 n then step_back r (n - (cb tmp' n s).0) p else p)
          ≡ advance r (min (cb tmp' n s).0 n) r.r_pos =
        rw place (left_at r n (cb tmp' n s).0 v few) in
      let (valid, rest) = advance_lem (min (cb tmp' n s).0 n) r.r_pos r v (omega arith) in
      rw (e, busy, at)
        (
          refl,
          subst (λ i. take i tmp' ≡ take n (contents r)) (zero-add n) stored,
          same,
          rest,
          valid,
        )

  offer-Consumed :
      (r : Ring) (tmp : List ℕ) (n : ℕ) (s : S) (res : ℕ × List ℕ × ℕ)
      → IsValid r
      → n ≤ length (contents r)
      → Filled r 0 r.r_pos tmp (take n (contents r)) n res
      → Consumed r tmp n s (offer cb r s res)
  offer-Consumed r tmp n s res v few filled = elim (Bool-cases (n == 0)) [
    | inl e ↦ offer-none r tmp n s res v ((==_iff n 0).0 e) filled
    | inr e ↦ offer-some r tmp n s res v few (let ne = ==→ne n 0 e in ground (arith, ne)) filled
  ]

  -- On a valid ring and a buffer of at least len bytes, osm_ring_buf_consume offers the callback
  -- the oldest bytes, min(len, pending) of them, and removes those that it took, or all offered
  -- if it says more; without any it returns 0 and leaves the callback uncalled, and in each case
  -- the buffer keeps its length and the ring stays valid.
  pub consume-Consumed :
      (r : Ring) (tmp : List ℕ) (len n : ℕ) (s : S)
      → IsValid r
      → len ≤ length tmp
      → n ≡ min len (length (contents r))
      → Consumed r tmp n s (consume cb r tmp len s)
  unfolding consume
  consume-Consumed r tmp len n s v room e =
      let t : taken len (contents r) ≡ n = taken-min len (contents r) ∙ sym e in
      let filled = fill_from-Filled len 0 r.r_pos r tmp v (omega arith) in
      offer-Consumed r tmp n s (fill_from r len 0 r.r_pos tmp) v (omega arith) (
        subst (λ i. Filled r 0 r.r_pos tmp (take n (contents r)) i (fill_from r len 0 r.r_pos tmp))
          t
          (subst
            (λ xs.
              Filled r 0 r.r_pos tmp xs (taken len (contents r)) (fill_from r len 0 r.r_pos tmp))
            (take_least len n (contents r) e) filled))
