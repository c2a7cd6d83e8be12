-- ===== src/Ring/Bounds.antt =====
-- core/ring.c: the representation invariant of `osm_ring_buf_t`, and the places round a ring.
use native.Mathlib.Nat.{mod-eq_of_lt, mod_self}
use osm_firmware_v.Base.{
  ℕ, ◌+◌, ◌-◌, ◌%◌, ◌^◌, ◌≤◌, ◌<◌, ◌≡◌, List, [], ◌∷◌, arith, ltb, ◌==◌, if◌then◌else◌, length,
  length-set, Bool-cases, inl, inr, sym, subst, ==_iff, ◌≢◌,
}
use osm_firmware_v.Base.Words.{add32}
use osm_firmware_v.Ring.{Ring, init, clear, next, add, add_data, get_pending}

pub record IsValid (r : Ring) : Type 0 where
  pub fits : r.size ≤ length r.buf
  pub small : r.size < 2 ^ 32
  pub reads_in : r.r_pos < r.size
  pub writes_in : r.w_pos < r.size

-- One place round the ring, as a test instead of a remainder.
unfoldable pub step : ℕ → ℕ → ℕ
step size p = if p + 1 == size then 0 else p + 1

-- Places from `p` on to `w`.
unfoldable pub gap : ℕ → ℕ → ℕ → ℕ
gap size p w = if ltb w p then size - p + w else w - p

pub mod-step : (size p : ℕ) → p < size → (p + 1) % size ≡ step size p
unfolding step
mod-step size p h = elim (Bool-cases (p + 1 == size)) [
  | inl e ↦ rw (e, (==_iff (p + 1) size).0 e) (mod_self size)
  | inr e ↦ rw e (mod-eq_of_lt (ground arith))
]

pub next-step : {r : Ring} (p : ℕ) → IsValid r → p < r.size → next r p ≡ step r.size p
next-step {r} p v h =
    let e : add32 p 1 ≡ p + 1 = omega arith in
    subst (λ (k : ℕ). k % r.size ≡ step r.size p) (sym e) (mod-step r.size p h)

pub step-lt : (size p : ℕ) → p < size → step size p < size
unfolding step
step-lt size p h = ground arith

pub gap-lt : (size p w : ℕ) → p < size → w < size → gap size p w < size
unfolding gap
gap-lt size p w h k = ground arith

pub gap_self : (size p : ℕ) → gap size p p ≡ 0
unfolding gap
gap_self size p = ground arith

-- Reading one byte leaves one place less to go, writing one leaves one more, unless it is full.
pub gap-step_read :
    (size p w : ℕ) → p < size → w < size → p ≢ w → gap size (step size p) w + 1 ≡ gap size p w
unfolding gap step
gap-step_read size p w h k ne = ground arith

pub gap-step_write :
    (size p w : ℕ)
    → p < size
    → w < size
    → step size w ≢ p
    → gap size p (step size w) ≡ gap size p w + 1
unfolding gap step
gap-step_write size p w h k ne = ground arith

pub gap_full : (size p w : ℕ) → p < size → w < size → step size w ≡ p → gap size p w + 1 ≡ size
unfolding gap step
gap_full size p w h k e = ground arith

pub gap-eq-zero : (size p w : ℕ) → p < size → w < size → gap size p w ≡ 0 → p ≡ w
unfolding gap
gap-eq-zero size p w h k e = ground arith

-- `osm_ring_buf_get_pending` counts the places, with no wrap of its unsigned sums.
pub get_pending-gap : {r : Ring} → IsValid r → get_pending r ≡ gap r.size r.r_pos r.w_pos
unfolding get_pending gap
get_pending-gap v = ground arith

pub init-IsValid :
    (buf : List ℕ) (size : ℕ)
    → 0 < size
    → size ≤ length buf
    → size < 2 ^ 32
    → IsValid (init buf size)
init-IsValid buf size a b c = omega arith

pub clear-IsValid : {r : Ring} → IsValid r → IsValid (clear r)
unfolding clear
clear-IsValid v = ground arith

pub add-IsValid : (r : Ring) (c : ℕ) → IsValid r → IsValid (add r c).1
unfolding add
add-IsValid r c v =
    ground (arith, next-step r.w_pos v, step-lt r.size r.w_pos, length-set r.buf r.w_pos c)

pub add_data-IsValid : (r : Ring) (cs : List ℕ) → IsValid r → IsValid (add_data r cs).1
unfolding add_data
add_data-IsValid r [] v = v
add_data-IsValid r (c ∷ cs) v =
    ground (arith, add-IsValid r c v, add_data-IsValid (add r c).1 cs (add-IsValid r c v))

pub size-add : (r : Ring) (c : ℕ) → (add r c).1.size ≡ r.size
unfolding add
size-add r c = ground arith
