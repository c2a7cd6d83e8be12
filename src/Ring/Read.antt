-- ===== src/Ring/Read.antt =====
-- Reading from a ring: what read, discard and peek return, leave in the ring and store.
use osm_firmware_v.Base.{
  ℕ, zero, suc, ◌+◌, ◌≤◌, ◌<◌, ◌≡◌, ◌≢◌, refl, ap, sym, ◌∙◌, inl, inr, List, [], ◌∷◌, ◌++◌, arith,
  ◌==◌, length, length-set, set, take, drop, get_or, min, Bool-cases, ==_iff, ==→ne, subst,
  take-set_past, take-set_at, drop-set_before, length-take, append_assoc, append-nil,
}
use native.Mathlib.Nat.{zero-add}
use osm_firmware_v.Ring.{Ring, read, read_from, discard, discard_from, peek, peek_from, next}
use osm_firmware_v.Ring.Queue
use osm_firmware_v.Ring.Bounds.{IsValid, step, gap, next-step, step-lt, gap-step_read, gap_self}
use osm_firmware_v.Ring.Contents.{contents, span}

-- The ring after its oldest byte is taken.
abbrev pub popped : Ring → Ring
popped r = record r { r_pos = next r r.r_pos }

pub popped-IsValid : {r : Ring} → IsValid r → IsValid (popped r)
popped-IsValid {r} v = record {
  fits = v.fits;
  small = v.small;
  reads_in = rw (next-step r.r_pos v v.reads_in) (step-lt r.size r.r_pos v.reads_in);
  writes_in = v.writes_in;
}

-- An empty ring holds nothing, and any other holds the byte at `r_pos` before those of `popped`.
pub contents_empty : (r : Ring) → r.r_pos ≡ r.w_pos → contents r ≡ []
contents_empty r e =
    ap (λ n. span r.buf r.size r.r_pos n)
      (ap (λ p. gap r.size p r.w_pos) e ∙ gap_self r.size r.w_pos)

pub contents_cons :
    (r : Ring)
    → IsValid r
    → r.r_pos ≢ r.w_pos
    → contents r ≡ get_or r.buf r.r_pos 0 ∷ contents (popped r)
contents_cons r v ne =
    let g : gap r.size r.r_pos r.w_pos ≡ suc (gap r.size (step r.size r.r_pos) r.w_pos) =
      omega (arith, gap-step_read r.size r.r_pos r.w_pos v.reads_in v.writes_in ne) in
    ap (λ n. span r.buf r.size r.r_pos n) g
    ∙ ap (λ p. get_or r.buf r.r_pos 0 ∷ span r.buf r.size p (gap r.size p r.w_pos))
        (sym (next-step r.r_pos v v.reads_in))

-- `osm_ring_buf_discard` removes the oldest bytes, as many as it can of `len`.
discard_from_lem :
    (k n : ℕ) (r : Ring)
    → IsValid r
    → let (m, r') = discard_from k n r in
      (m ≡ n + min k (length (contents r))) × (contents r' ≡ drop k (contents r)) × IsValid r'
unfolding discard_from
discard_from_lem zero n r v = (omega arith, refl, v)
discard_from_lem (suc k) n r v = elim (Bool-cases (r.r_pos == r.w_pos)) [
  | inl e ↦
      let none_left = contents_empty r ((==_iff r.r_pos r.w_pos).0 e) in
      rw (e, none_left) (omega arith, refl, v)
  | inr e ↦
      let (m, rest, valid) = discard_from_lem k (n + 1) (popped r) (popped-IsValid v) in
      rw (e, contents_cons r v (==→ne r.r_pos r.w_pos e)) (m ∙ omega arith, rest, valid)
]

-- `osm_ring_buf_read` returns the count of `osm_ring_buf_discard` and leaves the same ring.
read-discard_from :
    (k n : ℕ) (r : Ring) (out : List ℕ)
    → let (m, out', r') = read_from k n r out in (m, r') ≡ discard_from k n r
unfolding read_from discard_from
read-discard_from zero n r out = refl
read-discard_from (suc k) n r out = elim (Bool-cases (r.r_pos == r.w_pos)) [
  | inl e ↦ rw e refl
  | inr e ↦ rw e (read-discard_from k (n + 1) (popped r) (set out n (get_or r.buf r.r_pos 0)))
]

-- What the caller's buffer `out` holds after a loop that stored `bytes` at `n` and had `k` rounds.
record Stored (out out' bytes : List ℕ) (k n : ℕ) : Type 0 where
  same_length : length out' ≡ length out
  kept_after : drop (n + k) out' ≡ drop (n + k) out
  filled : take (n + length bytes) out' ≡ take n out ++ bytes

-- The loops of read and peek store a byte, then go on from the next place.
Stored-more :
    (out out' bytes : List ℕ) (c k n : ℕ)
    → n < length out
    → Stored (set out n c) out' bytes k (n + 1)
    → Stored out out' (c ∷ bytes) (suc k) n
Stored-more out out' bytes c k n h s = record {
  same_length = s.same_length ∙ length-set out n c;
  kept_after =
      let e : n + suc k ≡ n + 1 + k = omega arith in
      subst (λ i. drop i out' ≡ drop i out) (sym e)
        (s.kept_after ∙ drop-set_before (n + 1 + k) n out c (omega arith));
  filled =
      let e : n + suc (length bytes) ≡ n + 1 + length bytes = omega arith in
      let f : n + 1 ≡ suc n = omega arith in
      ap (λ i. take i out') e
      ∙ s.filled
      ∙ ap (λ i. take i (set out n c) ++ bytes) f
      ∙ ap (λ xs. xs ++ bytes) (take-set_at n out c h)
      ∙ append_assoc (take n out) (c ∷ []) bytes;
}

-- They stop after storing one byte that counts for nothing.
Stored-stop : (out : List ℕ) (c k n : ℕ) → n < length out → Stored out (set out n c) [] (suc k) n
Stored-stop out c k n h = record {
  same_length = length-set out n c;
  kept_after = drop-set_before (n + suc k) n out c (omega arith);
  filled =
      let e : n + 0 ≡ n = omega arith in
      ap (λ i. take i (set out n c)) e
      ∙ take-set_past n n out c (omega arith)
      ∙ sym (append-nil (take n out));
}

Stored-done : (out : List ℕ) (n : ℕ) → Stored out out [] zero n
Stored-done out n = record {
  same_length = refl;
  kept_after = refl;
  filled =
      let e : n + 0 ≡ n = omega arith in ap (λ i. take i out) e ∙ sym (append-nil (take n out));
}

read_from-Stored :
    (k n : ℕ) (r : Ring) (out : List ℕ)
    → IsValid r
    → n + k ≤ length out
    → Stored out (read_from k n r out).1 (take k (contents r)) k n
unfolding read_from
read_from-Stored zero n r out v h = Stored-done out n
read_from-Stored (suc k) n r out v h = elim (Bool-cases (r.r_pos == r.w_pos)) [
  | inl e ↦
      rw (e, contents_empty r ((==_iff r.r_pos r.w_pos).0 e))
        (Stored-stop out (get_or r.buf r.r_pos 0) k n (omega arith))
  | inr e ↦
      let c : ℕ = get_or r.buf r.r_pos 0 in
      rw (e, contents_cons r v (==→ne r.r_pos r.w_pos e))
        (Stored-more out (read_from k (n + 1) (popped r) (set out n c)).1
          (take k (contents (popped r))) c k n (omega arith)
          (read_from-Stored k (n + 1) (popped r) (set out n c) (popped-IsValid v)
            (omega (arith, length-set out n c))))
]

-- `osm_ring_buf_peek` stores what a read stores and counts the same, with a place of its own.
peek-read_from :
    (k n : ℕ) (r : Ring) (p : ℕ) (out : List ℕ)
    → peek_from r k n p out
      ≡ (let (m, out', r') = read_from k n (record r { r_pos = p }) out in (m, out'))
unfolding read_from peek_from
peek-read_from zero n r p out = refl
peek-read_from (suc k) n r p out = elim (Bool-cases (p == r.w_pos)) [
  | inl e ↦ rw e refl
  | inr e ↦ rw e (peek-read_from k (n + 1) r (next r p) (set out n (get_or r.buf p 0)))
]

-- On a valid ring and a buffer of at least len bytes osm_ring_buf_read is the queue's read: it
-- returns min(len, pending), the buffer begins with these oldest bytes, the ring holds the rest
-- and stays valid, and the buffer keeps its length and all that stands from place len on.
pub read_refines :
    (r : Ring) (out : List ℕ) (len : ℕ)
    → IsValid r
    → len ≤ length out
    → let (n, out', r') = read r out len in
      ((n, take n out', contents r') ≡ Queue.read (contents r) len)
      × IsValid r'
      × (length out' ≡ length out)
      × (drop len out' ≡ drop len out)
unfolding read discard Queue.read
read_refines r out len v h =
    let (count, rest, valid) = discard_from_lem len 0 r v in
    let same = read-discard_from len 0 r out in
    let s = read_from-Stored len 0 r out v (omega arith) in
    let n : (read_from len 0 r out).0 ≡ min len (length (contents r)) =
      ap (λ p. p.0) same ∙ count ∙ omega arith in
    let m : (read_from len 0 r out).0 ≡ 0 + length (take len (contents r)) =
      omega (arith, n, length-take len (contents r)) in
    let bytes : take (read_from len 0 r out).0 (read_from len 0 r out).1 ≡ take len (contents r) =
      ap (λ i. take i (read_from len 0 r out).1) m ∙ s.filled in
    (
      λ i. (n i, bytes i, (ap (λ p. contents p.1) same ∙ rest) i),
      subst (λ p. IsValid p.1) (sym same) valid,
      s.same_length,
      subst (λ i. drop i (read_from len 0 r out).1 ≡ drop i out) (zero-add len) s.kept_after,
    )

-- `osm_ring_buf_discard` removes what a read of `len` bytes would, and reports the same count.
pub discard-read :
    (r : Ring) (out : List ℕ) (len : ℕ)
    → let (n, out', r') = read r out len in discard r len ≡ (n, r')
unfolding read discard
discard-read r out len = sym (read-discard_from len 0 r out)

-- `osm_ring_buf_peek` returns the count and the buffer of a read, and cannot change the ring.
pub peek-read :
    (r : Ring) (out : List ℕ) (len : ℕ)
    → let (n, out', r') = read r out len in peek r out len ≡ (n, out')
unfolding read peek
peek-read r out len = peek-read_from len 0 r r.r_pos out

size-read_from : (k n : ℕ) (r : Ring) (out : List ℕ) → (read_from k n r out).2.size ≡ r.size
unfolding read_from
size-read_from zero n r out = refl
size-read_from (suc k) n r out = elim (Bool-cases (r.r_pos == r.w_pos)) [
  | inl e ↦ rw e refl
  | inr e ↦ rw e (size-read_from k (n + 1) (popped r) (set out n (get_or r.buf r.r_pos 0)))
]

pub size-read : (r : Ring) (out : List ℕ) (len : ℕ) → (read r out len).2.size ≡ r.size
unfolding read
size-read r out len = size-read_from len 0 r out
