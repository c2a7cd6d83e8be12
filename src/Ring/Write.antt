-- ===== src/Ring/Write.antt =====
-- Writing to a ring: one byte, a block of data, a string.
use osm_firmware_v.Base.{
  ℕ, suc, ◌-◌, ◌≡◌, ◌≢◌, refl, ap, sym, ◌∙◌, inl, inr, ◌⊎◌, subst, List, [], ◌∷◌, ◌++◌, append-nil,
  append_assoc, arith, leb, ◌==◌, length, set, take, take-nil, Bool, true, false, Bool-cases, ==→ne,
  length-append,
}
use osm_firmware_v.Ring.{Ring, add, add_data, add_str, next}
use osm_firmware_v.Ring.Queue
use osm_firmware_v.Ring.Bounds.{
  IsValid, step, gap, next-step, gap-step_write, gap_full, gap-lt, step-lt, add-IsValid,
}
use osm_firmware_v.Ring.Contents.{contents, length-contents, span-set, span, get_pending-is_full}

add_full : (r : Ring) (c : ℕ) → (next r r.w_pos == r.r_pos) ≡ true → add r c ≡ (false, r)
unfolding add
add_full r c e = rw e

add_room :
    (r : Ring) (c : ℕ)
    → (next r r.w_pos == r.r_pos) ≡ false
    → add r c ≡ (true, record r { buf = set r.buf r.w_pos c; w_pos = next r r.w_pos })
unfolding add
add_room r c e = rw e

-- A byte that fits goes to the end of the contents.
contents-written :
    (r : Ring) (c : ℕ)
    → IsValid r
    → next r r.w_pos ≢ r.r_pos
    → contents (record r { buf = set r.buf r.w_pos c; w_pos = next r r.w_pos })
      ≡ contents r ++ (c ∷ [])
contents-written r c v ne =
    let e : next r r.w_pos ≡ step r.size r.w_pos = next-step r.w_pos v v.writes_in in
    let wider : gap r.size r.r_pos (next r r.w_pos) ≡ suc (gap r.size r.r_pos r.w_pos) = rw e (
      omega
        (arith, gap-step_write r.size r.r_pos r.w_pos v.reads_in v.writes_in (λ q. ne (e ∙ q)))) in
    ap (span (set r.buf r.w_pos c) r.size r.r_pos) wider
    ∙ span-set r.buf r.size c (gap r.size r.r_pos r.w_pos) r.r_pos r.w_pos v.fits v.reads_in
        v.writes_in refl

-- On a valid ring osm_ring_buf_add is the bounded queue's add, in what it returns and in what the
-- ring then holds; the capacity is one less than the storage.
pub add_refines :
    (r : Ring) (c : ℕ)
    → IsValid r
    → let (added, r') = add r c in (added, contents r') ≡ Queue.add (r.size - 1) (contents r) c
unfolding Queue.add
add_refines r c v = elim (Bool-cases (next r r.w_pos == r.r_pos)) [
  | inl e ↦ rw (add_full r c e) (
      ground (
        arith,
        length-contents r,
        next-step r.w_pos v,
        gap_full r.size r.r_pos r.w_pos v.reads_in v.writes_in,
      ))
  | inr e ↦ rw (add_room r c e) (
      ground (
        arith,
        contents-written r c v (==→ne _ _ e),
        length-contents r,
        next-step r.w_pos v,
        gap-step_write r.size r.r_pos r.w_pos v.reads_in v.writes_in,
        gap-lt r.size r.r_pos (step r.size r.w_pos),
        step-lt r.size r.w_pos,
      ))
]

-- The room that is left, `size - 1` less what is held.
abbrev pub room : Ring → ℕ
room r = r.size - 1 - length (contents r)

-- What one `add` does, in the two cases of the caller's loop.
abbrev Added : Ring → ℕ → Type 0
Added r c =
    ((room r ≡ 0) × (add r c ≡ (false, r)))
    ⊎ ((r' : Ring) × (add r c ≡ (true, r'))
        × (room r ≡ suc (room r'))
        × (contents r' ≡ contents r ++ (c ∷ []))
        × IsValid r'
        × (r'.size ≡ r.size))

room-written :
    (r r' : Ring) (c : ℕ)
    → r'.size ≡ r.size
    → IsValid r'
    → contents r' ≡ contents r ++ (c ∷ [])
    → room r ≡ suc (room r')
room-written r r' c same v' e =
    omega (arith, ap length e, length-append (contents r) (c ∷ []), (get_pending-is_full r' v').1)

room_none : (r : Ring) (c : ℕ) → IsValid r → add r c ≡ (false, r) → room r ≡ 0
unfolding Queue.add
room_none r c v e = ground (arith, add_refines r c v)

add-Added : (r : Ring) (c : ℕ) → IsValid r → Added r c
add-Added r c v = elim (Bool-cases (next r r.w_pos == r.r_pos)) [
  | inl e ↦ inl (room_none r c v (add_full r c e), add_full r c e)
  | inr e ↦
      let r' : Ring = record r { buf = set r.buf r.w_pos c; w_pos = next r r.w_pos } in
      let written : contents r' ≡ contents r ++ (c ∷ []) = contents-written r c v (==→ne _ _ e) in
      let v' : IsValid r' = subst (λ p. IsValid p.1) (add_room r c e) (add-IsValid r c v) in
      inr (r', add_room r c e, room-written r r' c refl v' written, written, v', refl)
]

-- On a valid ring osm_ring_buf_add_data stores the prefix of the data that fits and returns true
-- exactly if all of it did.
pub add_data_lem :
    (r : Ring) (cs : List ℕ)
    → IsValid r
    → ((add_data r cs).0 ≡ leb (length cs) (room r))
      × (contents (add_data r cs).1 ≡ contents r ++ take (room r) cs)
unfolding add_data
add_data_lem r [] v = (ground arith, rw (take-nil, append-nil))
add_data_lem r (c ∷ cs) v = elim (add-Added r c v) [
  | inl (none_left, e) ↦ rw (e, none_left, append-nil) (ground arith, refl)
  | inr (r', e, one_less, written, v', same) ↦
      let (all, stored) = add_data_lem r' cs v' in
      rw (e, one_less) (all ∙ ground arith, stored ∙ rw (written, append_assoc) refl)
]

-- `osm_ring_buf_add_str` keeps the prefix that fits and drops the rest, silently.
pub add_str_lem :
    (r : Ring) (cs : List ℕ) → IsValid r → contents (add_str r cs) ≡ contents r ++ take (room r) cs
unfolding add_str
add_str_lem r [] v = rw (take-nil, append-nil)
add_str_lem r (c ∷ cs) v = elim (add-Added r c v) [
  | inl (none_left, e) ↦ dropped e ∙ add_str_lem r cs v ∙ rw none_left refl
  | inr (r', e, one_less, written, v', same) ↦
      dropped e
      ∙ add_str_lem r' cs v'
      ∙ ap (λ q. q ++ take (room r') cs) written
      ∙ append_assoc (contents r) (c ∷ []) (take (room r') cs)
      ∙ ap (λ n. contents r ++ take n (c ∷ cs)) (sym one_less)
]
  where
    dropped :
        {p : Bool × Ring} → add r c ≡ p → contents (add_str r (c ∷ cs)) ≡ contents (add_str p.1 cs)
    dropped q = ap (λ p. contents (add_str p.1 cs)) q
