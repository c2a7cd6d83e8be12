-- ===== src/Ring/Line.antt =====
-- Taking a line out of a ring: `osm_ring_buf_readline`, which feeds the command interpreter and
-- the protocol handlers.
use mathlib.Core.Option
use osm_firmware_v.Base.{
  ℕ, zero, suc, ◌+◌, ◌^◌, ◌≤◌, ◌<◌, ◌≡◌, ◌≢◌, refl, ap, sym, ◌∙◌, inl, inr, List, [], ◌∷◌, ◌++◌,
  arith, ◌==◌, ltb, ◌&&◌, if◌then◌else◌, length, length-set, set, take, drop, get_or, min, Bool,
  true, false, Bool-cases, ◌||◌, ==_iff, ==→ne, lt→ltb, le→ltb, subst, take-set_at, append_assoc,
  append-nil, length_zero, Option, none, some,
}
use native.Mathlib.Nat.{zero-add}
use osm_firmware_v.Ring.{
  Ring, readline, line_up_to, scan, Scan, finish_line, is_eol, next, get_pending,
}
use osm_firmware_v.Ring.Queue
use osm_firmware_v.Ring.Bounds.{IsValid, get_pending-gap}
use osm_firmware_v.Ring.Contents.{contents, length-contents}
use osm_firmware_v.Base.Words.{sub32}
use osm_firmware_v.Ring.Read.{popped-IsValid, contents_empty, contents_cons}

-- What the scan of `k` bytes from place `n` of the buffer has done, by what the queue `q` holds.
abbrev Scanned : Ring → ℕ → ℕ → List ℕ → List ℕ → Option (List ℕ × ℕ) → Scan → Type 0
Scanned r k n out q none s =
    (s.found ≡ false)
    × IsValid (record r { r_pos = s.p })
    × (contents (record r { r_pos = s.p }) ≡ drop k q)
    × (length s.out ≡ length out)
    × (take (n + k) s.out ≡ take n out ++ take k q)
Scanned r k n out q (some (line, used)) s =
    (s.found ≡ true)
    × IsValid (record r { r_pos = s.p })
    × (contents (record r { r_pos = s.p }) ≡ drop used q)
    × (length s.out ≡ length out)
    × (s.count ≡ n + length line)
    × (take (suc (n + length line)) s.out ≡ take n out ++ (line ++ (0 ∷ [])))

take-stored :
    (out out' rest : List ℕ) (c n i j : ℕ)
    → n < length out
    → i ≡ j
    → take i out' ≡ take (n + 1) (set out n c) ++ rest
    → take j out' ≡ take n out ++ (c ∷ rest)
take-stored out out' rest c n i j h e t =
    let one : n + 1 ≡ suc n = omega arith in
    ap (λ m. take m out') (sym e)
    ∙ t
    ∙ ap (λ m. take m (set out n c) ++ rest) one
    ∙ ap (λ xs. xs ++ rest) (take-set_at n out c h)
    ∙ append_assoc (take n out) (c ∷ []) rest

Scanned-more :
    (r : Ring) (k n c : ℕ) (out q : List ℕ) (o : Option (List ℕ × ℕ)) (s : Scan)
    → n < length out
    → Scanned r k (n + 1) (set out n c) q o s
    → Scanned r (suc k) n out (c ∷ q) (Option.map (λ (line, used). (c ∷ line, suc used)) o) s
Scanned-more r k n c out q none s h (f, v, rest, same, bytes) = (
  f,
  v,
  rest,
  same ∙ length-set out n c,
  take-stored out s.out (take k q) c n (n + 1 + k) (n + suc k) h (omega arith) bytes,
)
Scanned-more r k n c out q (some (line, used)) s h (f, v, rest, same, count, bytes) = (
  f,
  v,
  rest,
  same ∙ length-set out n c,
  count ∙ omega arith,
  take-stored out s.out (line ++ (0 ∷ [])) c n (suc (n + 1 + length line))
      (suc (n + suc (length line))) h (omega arith) bytes,
)

-- The ring whose read position is a place of the scan.
abbrev from : Ring → ℕ → Ring
from r p = record r { r_pos = p }

-- What is left to read in a ring that holds something.
held-ne : (r : Ring) (p k : ℕ) → suc k ≤ length (contents (from r p)) → p ≢ r.w_pos
held-ne r p k h e = absurd (omega (arith, ap length (contents_empty (from r p) e)))

-- The second terminator is looked for where bytes of the scan are left.
abbrev Skips : Ring → ℕ → Bool → Bool → Type 0
Skips r p in_code in_queue =
    (in_queue ≡ in_code)
    × IsValid (from r (if in_code then next r p else p))
    × (contents (from r (if in_code then next r p else p))
        ≡ drop (if in_queue then 1 else 0) (contents (from r p)))

skip_one :
    (r : Ring) (p : ℕ) (b : Bool) → IsValid (from r p) → (b ≡ true → p ≢ r.w_pos) → Skips r p b b
skip_one r p true v ne =
    (refl, popped-IsValid v, ap (λ q. drop 1 q) (sym (contents_cons (from r p) v (ne refl))))
skip_one r p false v ne = (refl, v, refl)

-- The code looks at the storage, the queue at its head: the same byte, where there is one.
same_second :
    (r : Ring) (p k : ℕ)
    → IsValid (from r p)
    → k ≤ length (contents (from r p))
    → (ltb 0 k && is_eol (get_or (contents (from r p)) 0 0))
      ≡ (ltb 0 k && is_eol (get_or r.buf p 0))
same_second r p zero v h = refl
same_second r p (suc k) v h =
    ap (λ q. ltb 0 (suc k) && is_eol (get_or q 0 0)) (contents_cons (from r p) v (held-ne r p k h))

more_held :
    (r : Ring) (p k : ℕ) (b : Bool)
    → k ≤ length (contents (from r p))
    → (ltb 0 k && b) ≡ true
    → p ≢ r.w_pos
more_held r p zero b h e = cc
more_held r p (suc k) b h e = held-ne r p k h

skip_second :
    (r : Ring) (p k : ℕ)
    → IsValid (from r p)
    → k ≤ length (contents (from r p))
    → Skips r p
        (ltb 0 k && is_eol (get_or r.buf p 0))
        (ltb 0 k && is_eol (get_or (contents (from r p)) 0 0))
skip_second r p k v h =
    let b : Bool = ltb 0 k && is_eol (get_or r.buf p 0) in
    subst (λ x. Skips r p b x) (sym (same_second r p k v h))
      (skip_one r p b v (more_held r p k (is_eol (get_or r.buf p 0)) h))

-- The end of a line: the terminator, and the second one if it is skipped too.
drop_terminators :
    (b : Bool) (c : ℕ) (q : List ℕ)
    → drop (if b then 1 else 0) q ≡ drop (if b then 2 else 1) (c ∷ q)
drop_terminators true c q = refl
drop_terminators false c q = refl

scan_eol :
    (k n p : ℕ) (r : Ring) (out : List ℕ) (c : ℕ)
    → n < length out
    → IsValid (from r p)
    → k ≤ length (contents (from r p))
    → Scanned r
        (suc k)
        n
        out
        (c ∷ contents (from r p))
        (some ([], if ltb 0 k && is_eol (get_or (contents (from r p)) 0 0) then 2 else 1))
        (record {
          found = true;
          count = n;
          p = if ltb 0 k && is_eol (get_or r.buf p 0) then next r p else p;
          out = set out n 0;
        })
scan_eol k n p r out c room v few =
    let (_, valid, rest) = skip_second r p k v few in
    let e : n + 0 ≡ n = omega arith in
    (
      refl,
      valid,
      rest ∙ drop_terminators (ltb 0 k && is_eol (get_or (contents (from r p)) 0 0)) c _,
      length-set out n 0,
      sym e,
      ap (λ i. take (suc i) (set out n 0)) e ∙ take-set_at n out 0 room,
    )

scan-Scanned :
    (k n p : ℕ) (r : Ring) (out : List ℕ)
    → IsValid (from r p)
    → k ≤ length (contents (from r p))
    → n + k < length out
    → Scanned r k n out
        (contents (from r p))
        (Queue.find_line k (contents (from r p)))
        (scan r k n p out)
unfolding scan Queue.find_line
scan-Scanned zero n p r out v few room =
    let e : n + 0 ≡ n = omega arith in
    (refl, v, refl, refl, ap (λ i. take i out) e ∙ sym (append-nil (take n out)))
scan-Scanned (suc k) n p r out v few room =
    let held = contents_cons (from r p) v (held-ne r p k few) in
    let p' : ℕ = next r p in
    let few' : k ≤ length (contents (from r p')) = omega (arith, ap length held) in
    rw held (elim (Bool-cases (is_eol (get_or r.buf p 0))) [
      | inl e ↦
          rw e (scan_eol k n p' r out (get_or r.buf p 0) (omega arith) (popped-IsValid v) few')
      | inr e ↦ rw e (
          Scanned-more r k n (get_or r.buf p 0) out (contents (from r p'))
            (Queue.find_line k (contents (from r p')))
            (scan r k (n + 1) p' (set out n (get_or r.buf p 0))) (omega arith)
            (scan-Scanned k (n + 1) p' r (set out n (get_or r.buf p 0)) (popped-IsValid v) few'
              (omega (arith, length-set out n (get_or r.buf p 0)))))
    ])

-- What `osm_ring_buf_readline` promises for a buffer of `len + 1` bytes, when `find_line` looks at
-- the first `len` bytes of the contents: a line is stored with a zero behind it and removed with
-- its terminators; without one, `len` bytes are handed over if the ring holds as many, and else
-- nothing is.
abbrev pub LineRead : Ring → List ℕ → ℕ → Option (List ℕ × ℕ) → ℕ × List ℕ × Ring → Type 0
LineRead r out len (some (line, used)) (n, out', r') =
    (n ≡ length line)
    × (take (suc n) out' ≡ line ++ (0 ∷ []))
    × (contents r' ≡ drop used (contents r))
    × IsValid r'
    × (length out' ≡ length out)
LineRead r out len none (n, out', r') =
    if length (contents r) == 0 || ltb (length (contents r)) len
    then (n ≡ 0) × (r' ≡ r) × Unit {0}
    else (n ≡ len)
      × (take (suc n) out' ≡ take len (contents r) ++ (0 ∷ []))
      × (contents r' ≡ drop len (contents r))
      × IsValid r'
      × (length out' ≡ length out)

finish-LineRead :
    (r : Ring) (out : List ℕ) (len t : ℕ) (o : Option (List ℕ × ℕ)) (s : Scan)
    → t ≡ min len (length (contents r))
    → 0 < length (contents r)
    → len < length out
    → Scanned r t 0 out (contents r) o s
    → LineRead r out len o (finish_line r len t out s)
unfolding finish_line
finish-LineRead r out len t (some (line, used)) s e held room (f, v, rest, same, count, bytes) =
    let c : s.count ≡ length line = omega arith in
    let stored : take (suc (length line)) s.out ≡ line ++ (0 ∷ []) =
      subst (λ i. take (suc i) s.out ≡ line ++ (0 ∷ [])) (zero-add (length line)) bytes in
    rw f (c, ap (λ i. take (suc i) s.out) c ∙ stored, rest, v, same)
finish-LineRead r out len t none s e held room (f, v, rest, same, bytes) =
    let some_held : (length (contents r) == 0) ≡ false = ground arith in
    elim (Bool-cases (len == t)) [
      | inl all ↦
          let is_t : t ≡ len = sym ((==_iff len t).0 all) in
          let enough : ltb (length (contents r)) len ≡ false = le→ltb _ _ (omega arith) in
          let stored : take len s.out ≡ take len (contents r) =
            subst (λ i. take i s.out ≡ take i (contents r)) is_t
              (subst (λ i. take i s.out ≡ take t (contents r)) (zero-add t) bytes) in
          rw (some_held, enough, f, all)
            (
              refl,
              take-set_at len s.out 0 (omega arith) ∙ ap (λ xs. xs ++ (0 ∷ [])) stored,
              rest ∙ ap (λ i. drop i (contents r)) is_t,
              v,
              length-set s.out len 0 ∙ same,
            )
      | inr part ↦
          let short : ltb (length (contents r)) len ≡ true =
            lt→ltb _ _ (omega (arith, ==→ne len t part)) in
          rw (some_held, short, f, part) (refl, refl, tt)
    ]

find_line-nil : (k : ℕ) → Queue.find_line k [] ≡ none
unfolding Queue.find_line
find_line-nil zero = refl
find_line-nil (suc k) = refl

line_empty :
    (r : Ring) (out : List ℕ) (len : ℕ) (o : Option (List ℕ × ℕ))
    → contents r ≡ []
    → o ≡ none
    → LineRead r out len o (0, out, r)
line_empty r out len none nothing e =
    let z : (length (contents r) == 0) ≡ true = ground (arith, ap length nothing) in
    rw z (refl, refl, tt)
line_empty r out len (some line) nothing e = cc

line_up_to-LineRead :
    (r : Ring) (out : List ℕ) (len pending : ℕ)
    → IsValid r
    → len < length out
    → pending ≡ length (contents r)
    → LineRead r out len
        (Queue.find_line (min len (length (contents r))) (contents r))
        (line_up_to r out len pending)
unfolding line_up_to
line_up_to-LineRead r out len pending v room e = elim (Bool-cases (pending == 0)) [
  | inl z ↦
      let nothing : contents r ≡ [] = length_zero (contents r) (sym e ∙ (==_iff pending 0).0 z) in
      rw z (
        line_empty r out len _ nothing
          (ap (Queue.find_line (min len (length (contents r)))) nothing ∙ find_line-nil _))
  | inr z ↦
      let t : ℕ = if ltb len pending then len else pending in
      let least : t ≡ min len (length (contents r)) = ground arith in
      rw z (
        subst
          (λ k.
            LineRead r out len (Queue.find_line k (contents r))
              (finish_line r len t out (scan r t 0 r.r_pos out)))
          least
          (finish-LineRead r out len t (Queue.find_line t (contents r)) (scan r t 0 r.r_pos out)
            least (omega (arith, e, ==→ne pending 0 z)) room
            (scan-Scanned t 0 r.r_pos r out v (omega arith) (omega arith))))
]

-- On a valid ring and a buffer of at least two bytes, with len one less than its size,
-- osm_ring_buf_readline does what LineRead says on every branch: a line is stored with a zero
-- behind it and removed with its one or two terminators; without one, len bytes are handed over
-- if the ring holds as many, and else nothing is.
pub readline_lem :
    (r : Ring) (out : List ℕ) (len : ℕ)
    → IsValid r
    → len < length out
    → suc len < 2 ^ 32
    → LineRead r out len
        (Queue.find_line (min len (length (contents r))) (contents r))
        (readline r out (suc len))
unfolding readline
readline_lem r out len v room small =
    let e : sub32 (suc len) 1 ≡ len = omega arith in
    subst
      (λ k.
        LineRead r out len (Queue.find_line (min len (length (contents r))) (contents r))
          (line_up_to r out k (get_pending r)))
      (sym e)
      (line_up_to-LineRead r out len (get_pending r) v room
        (get_pending-gap v ∙ sym (length-contents r)))
