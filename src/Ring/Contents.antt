-- ===== src/Ring/Contents.antt =====
-- The abstract view of a ring: the queue of bytes that it holds, oldest first.
use osm_firmware_v.Base.{
  ℕ, zero, suc, ◌+◌, ◌-◌, ◌≤◌, ◌<◌, ◌≡◌, ◌≢◌, refl, ap, ap₂, sym, List, [], ◌∷◌, ◌++◌, arith, ◌==◌,
  length, get_or, set, get_or-set_self, get_or-set_ne,
}
use osm_firmware_v.Ring.{Ring, clear, init, get_pending, is_full}
use osm_firmware_v.Ring.Bounds.{
  IsValid, step, gap, step-lt, gap-step_read, gap-eq-zero, gap-lt, gap_self, get_pending-gap,
  next-step,
}

module _ (buf : List ℕ) (size : ℕ) where
  -- `n` bytes of the storage from place `p` on, going round at `size`.
  abbrev pub span : ℕ → ℕ → List ℕ
  span p zero = []
  span p (suc n) = get_or buf p 0 ∷ span (step size p) n

  pub length-span : (p n : ℕ) → length (span p n) ≡ n
  length-span p zero = refl
  length-span p (suc n) = ap suc (length-span (step size p) n)

  pub span_of_pos : (p n : ℕ) → 0 < n → span p n ≡ get_or buf p 0 ∷ span (step size p) (n - 1)
  span_of_pos p zero h = absurd (omega arith)
  span_of_pos p (suc n) h = ap (λ k. get_or buf p 0 ∷ span (step size p) k) (omega arith)

abbrev pub contents : Ring → List ℕ
contents r = span r.buf r.size r.r_pos (gap r.size r.r_pos r.w_pos)

pub length-contents : (r : Ring) → length (contents r) ≡ gap r.size r.r_pos r.w_pos
length-contents r = length-span r.buf r.size r.r_pos (gap r.size r.r_pos r.w_pos)

-- A byte written at the place just past a span extends the span.
pub span-set :
    (buf : List ℕ) (size c n p w : ℕ)
    → size ≤ length buf
    → p < size
    → w < size
    → gap size p w ≡ n
    → span (set buf w c) size p (suc n) ≡ span buf size p n ++ (c ∷ [])
span-set buf size c zero p w f h k e =
    ap (λ x. x ∷ []) (rw (gap-eq-zero size p w h k e) (get_or-set_self buf w c 0 (omega arith)))
span-set buf size c (suc n) p w f h k e =
    let ne : p ≢ w =
      λ (q : p ≡ w). absurd (omega (arith, e, gap_self size w, ap (λ x. gap size x w) q)) in
    let shorter : gap size (step size p) w ≡ n = omega (arith, gap-step_read size p w h k ne, e) in
    ap₂ ◌∷◌ (get_or-set_ne buf w p c 0 (λ q. ne (sym q)))
      (span-set buf size c n (step size p) w f (step-lt size p h) k shorter)

-- An empty ring holds nothing, and a cleared one too.
pub contents-init : (buf : List ℕ) (size : ℕ) → contents (init buf size) ≡ []
contents-init buf size = ap (λ n. span buf size 0 n) (gap_self size 0)

pub contents-clear : (r : Ring) → contents (clear r) ≡ []
unfolding clear
contents-clear r = ap (λ n. span r.buf r.size 0 n) (gap_self r.size 0)

-- On a valid ring osm_ring_buf_get_pending returns how many bytes the ring holds, these are fewer
-- than size, and osm_ring_buf_is_full tells whether they are size - 1.
pub get_pending-is_full :
    (r : Ring)
    → IsValid r
    → (get_pending r ≡ length (contents r))
      × (length (contents r) < r.size)
      × (is_full r ≡ (length (contents r) + 1 == r.size))
unfolding is_full gap step
get_pending-is_full r v =
    rw (length-contents r, get_pending-gap v)
      (
        refl,
        gap-lt r.size r.r_pos r.w_pos v.reads_in v.writes_in,
        ground (arith, next-step r.w_pos v),
      )
