-- ===== src/Ring.antt =====
-- core/ring.c and core/ring.h: the byte ring behind every UART and the Modbus queue.
-- A ring never lets the write position catch the read position, so it holds size - 1 bytes at
-- most, and r_pos = w_pos means empty. A function that updates the ring returns the new ring, and
-- one that fills a caller's buffer returns the new buffer. `unsigned` is 32 bits wide.
pub mod Bounds
pub mod Queue
pub mod Contents
pub mod Write
pub mod Read
pub mod Line
pub mod Consume
pub mod Client
mod Tests
use osm_firmware_v.Base.{
  ℕ, zero, suc, ◌+◌, ◌-◌, ◌%◌, Bool, true, false, List, [], ◌∷◌, ◌||◌, ◌&&◌, ltb, ◌==◌,
  if◌then◌else◌, get_or, set,
}
use osm_firmware_v.Base.Words.{add32, sub32}

-- `osm_ring_buf_t`; `buf` is the storage that the ring was given.
pub record Ring : Type 0 where
  pub buf : List ℕ
  pub size : ℕ
  pub r_pos : ℕ
  pub w_pos : ℕ

-- RING_BUF_INIT
abbrev pub init : List ℕ → ℕ → Ring
init buf size = record { buf = buf; size = size; r_pos = 0; w_pos = 0 }

-- ring_buf_clear
unfoldable pub clear : Ring → Ring
clear r = record r { r_pos = 0; w_pos = 0 }

-- The position after `p`: `(p + 1) % size`, on `unsigned`.
abbrev pub next : Ring → ℕ → ℕ
next r p = add32 p 1 % r.size

unfoldable pub add : Ring → ℕ → Bool × Ring
add r c =
    let w_next = next r r.w_pos in
    if w_next == r.r_pos
    then (false, r)
    else (true, record r { buf = set r.buf r.w_pos c; w_pos = w_next })

-- The list is the `size` bytes at `data`.
unfoldable pub add_data : Ring → List ℕ → Bool × Ring
unfolding add
add_data r [] = (true, r)
add_data r (c ∷ cs) =
    let (added, r') = add r c in let rest = add_data r' cs in if added then rest else (false, r')

-- The list is the string before its terminating zero; a byte that does not fit is dropped.
unfoldable pub add_str : Ring → List ℕ → Ring
unfolding add
add_str r [] = r
add_str r (c ∷ cs) = add_str (add r c).1 cs

unfoldable pub get_pending : Ring → ℕ
get_pending r =
    if r.r_pos == r.w_pos
    then 0
    else (if ltb r.r_pos r.w_pos
        then sub32 r.w_pos r.r_pos
        else add32 (sub32 r.size r.r_pos) r.w_pos)

unfoldable pub is_full : Ring → Bool
is_full r = next r r.w_pos == r.r_pos

-- The loop of osm_ring_buf_read: `k` rounds are left and `n` are done. Each round stores a byte
-- before it tests whether there was one.
read_from : ℕ → ℕ → Ring → List ℕ → ℕ × List ℕ × Ring
read_from zero n r out = (n, out, r)
read_from (suc k) n r out =
    let out' = set out n (get_or r.buf r.r_pos 0) in
    let rest = read_from k (n + 1) (record r { r_pos = next r r.r_pos }) out' in
    if r.r_pos == r.w_pos then (n, out', r) else rest

-- The number of bytes read, the caller's buffer and the ring.
unfoldable pub read : Ring → List ℕ → ℕ → ℕ × List ℕ × Ring
unfolding read_from
read r out len = read_from len 0 r out

discard_from : ℕ → ℕ → Ring → ℕ × Ring
discard_from zero n r = (n, r)
discard_from (suc k) n r =
    let rest = discard_from k (n + 1) (record r { r_pos = next r r.r_pos }) in
    if r.r_pos == r.w_pos then (n, r) else rest

unfoldable pub discard : Ring → ℕ → ℕ × Ring
unfolding discard_from
discard r len = discard_from len 0 r

-- The loop of osm_ring_buf_peek, whose read position `p` is a local variable.
peek_from : Ring → ℕ → ℕ → ℕ → List ℕ → ℕ × List ℕ
peek_from r zero n p out = (n, out)
peek_from r (suc k) n p out =
    let out' = set out n (get_or r.buf p 0) in
    let rest = peek_from r k (n + 1) (next r p) out' in if p == r.w_pos then (n, out') else rest

unfoldable pub peek : Ring → List ℕ → ℕ → ℕ × List ℕ
unfolding peek_from
peek r out len = peek_from r len 0 r.r_pos out

-- `c == '\n' || c == '\r'`
abbrev pub is_eol : ℕ → Bool
is_eol c = c == 10 || c == 13

-- How the loop of osm_ring_buf_readline ends: on a terminator, with the bytes before it and the
-- read position behind it, or after `toread` bytes with none.
pub record Scan : Type 0 where
  pub found : Bool
  pub count : ℕ
  pub p : ℕ
  pub out : List ℕ

-- `k` rounds of the `toread` are left, so `(n + 1) < toread` is `0 < k - 1`.
scan : Ring → ℕ → ℕ → ℕ → List ℕ → Scan
scan r zero n p out = record { found = false; count = n; p = p; out = out }
scan r (suc k) n p out =
    let c = get_or r.buf p 0 in
    let p' = next r p in
    let p'' = if ltb 0 k && is_eol (get_or r.buf p' 0) then next r p' else p' in
    let rest = scan r k (n + 1) p' (set out n c) in
    if is_eol c then record { found = true; count = n; p = p''; out = set out n 0 } else rest

finish_line : Ring → ℕ → ℕ → List ℕ → Scan → ℕ × List ℕ × Ring
finish_line r len toread out s =
    if s.found
    then (s.count, s.out, record r { r_pos = s.p })
    else (if len == toread then (len, set s.out len 0, record r { r_pos = s.p }) else (0, s.out, r))

-- The rest of osm_ring_buf_readline, given `len - 1` and the pending count.
line_up_to : Ring → List ℕ → ℕ → ℕ → ℕ × List ℕ × Ring
unfolding scan finish_line
line_up_to r out len pending =
    let toread = if ltb len pending then len else pending in
    if pending == 0 then (0, out, r) else finish_line r len toread out (scan r toread 0 r.r_pos out)

unfoldable pub readline : Ring → List ℕ → ℕ → ℕ × List ℕ × Ring
unfolding line_up_to get_pending
readline r out size = line_up_to r out (sub32 size 1) (get_pending r)

-- The first loop of osm_ring_buf_consume: how many bytes it copied, the temporary buffer and the
-- local read position.
fill_from : Ring → ℕ → ℕ → ℕ → List ℕ → ℕ × List ℕ × ℕ
fill_from r zero n p tmp = (n, tmp, p)
fill_from r (suc k) n p tmp =
    let rest = fill_from r k (n + 1) (next r p) (set tmp n (get_or r.buf p 0)) in
    if p == r.w_pos then (n, tmp, p) else rest

-- `while(unconsumed--)`: step the local read position back.
step_back : Ring → ℕ → ℕ → ℕ
step_back r zero p = p
step_back r (suc k) p = step_back r k (if p == 0 then sub32 r.size 1 else p - 1)

module _ {ℓ} {S : Type ℓ} (cb : List ℕ → ℕ → S → ℕ × S) where
  -- `cb` is the callback, given the temporary buffer and its filled length; `S` is what `data`
  -- points to. This is what follows the copying loop.
  offer : Ring → S → ℕ × List ℕ × ℕ → ℕ × List ℕ × S × Ring
  unfolding step_back
  offer r s (n, tmp, p) =
      let (consumed, s') = cb tmp n s in
      if n == 0 then (0, tmp, s, r) else (
        consumed,
        tmp,
        s',
        record r { r_pos = if ltb consumed n then step_back r (n - consumed) p else p },
      )

  -- What the callback consumed, the temporary buffer, the callback's state and the ring.
  unfoldable pub consume : Ring → List ℕ → ℕ → S → ℕ × List ℕ × S × Ring
  unfolding fill_from offer
  consume r tmp len s = offer r s (fill_from r len 0 r.r_pos tmp)
